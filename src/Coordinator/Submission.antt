-- ===== src/Coordinator/Submission.antt =====
-- `submit`: the pruning, the replay, the registry's answer and the transaction, with the steps that
-- run while it awaits the registry.
use elmybot.Base.{ℕ, String, List, Option, none, some, Result, ok, err}
use elmybot.Coordinator.Types.{Coordinator, Execution, Lookup, Handler, CoordinatorError, Report}
use elmybot.Coordinator.Storage.{prune_completed_executions, set_next_alarm}
use elmybot.Coordinator.Submit.{
  validate_execution, require_active_membership, replay_if_present, commit,
}
use elmybot.Coordinator.Calls.{Call, perform_all}

-- A state and what the call answers; an error leaves the state that stands beside it.
abbrev pub Answer : Type 0
Answer = Coordinator × Result CoordinatorError (Option Report)

-- The end of `submit`: the transaction, and the alarm where it succeeds.
unfoldable pub finish_submit :
    ℕ → Coordinator → Result CoordinatorError (Coordinator × Option Report) → Answer
unfolding set_next_alarm
finish_submit alarm_ms c (err e) = (c, err e)
finish_submit alarm_ms c (ok (stored, report)) = (set_next_alarm alarm_ms stored, ok report)

-- `submit` from the answer of the registry on.
unfoldable pub submit_member :
    Execution
    → String
    → ℕ
    → (ℕ → String)
    → ℕ
    → Coordinator
    → Result CoordinatorError (Unit {0})
    → Answer
unfolding commit finish_submit
submit_member execution fingerprint accepted_at_ms ids alarm_ms c (err e) = (c, err e)
submit_member execution fingerprint accepted_at_ms ids alarm_ms c (ok _) =
    finish_submit alarm_ms c (commit execution fingerprint accepted_at_ms ids c)

-- The first half of `submit`: the pruning, and a replay if there is one.
unfoldable pub begin_submit :
    Execution → String → ℕ → Coordinator → Coordinator × Result CoordinatorError (Option Report)
unfolding prune_completed_executions replay_if_present
begin_submit execution fingerprint prune_ms c =
    let pruned = prune_completed_executions prune_ms c in
    (pruned, replay_if_present execution fingerprint pruned)

-- What `submit` takes from outside: the clock, the registry's answer, the UUIDs, and the steps of
-- others meanwhile.
pub record Surroundings : Type 0 where
  pub prune_ms : ℕ
  pub meanwhile : List Call
  pub lookup : Lookup
  pub accepted_at_ms : ℕ
  pub ids : ℕ → String
  pub alarm_ms : ℕ

unfoldable pub submit_new :
    Execution
    → String
    → Surroundings
    → Coordinator × Result CoordinatorError (Option Report)
    → Answer
unfolding perform_all require_active_membership submit_member
submit_new execution fingerprint world (c, err e) = (c, err e)
submit_new execution fingerprint world (c, ok (some report)) = (c, ok (some report))
submit_new execution fingerprint world (c, ok none) =
    submit_member execution fingerprint world.accepted_at_ms world.ids world.alarm_ms
      (perform_all world.meanwhile c) (require_active_membership execution world.lookup)

unfoldable pub submit_valid :
    (Execution → String) → Surroundings → Coordinator → Result CoordinatorError Execution → Answer
unfolding begin_submit submit_new
submit_valid digest world c (err e) = (c, err e)
submit_valid digest world c (ok execution) =
    submit_new execution (digest execution) world
      (begin_submit execution (digest execution) world.prune_ms c)

-- `digest` is the SHA-256 of the execution's canonical JSON text, `executionFingerprint`.
unfoldable pub submit :
    (Execution → String)
    → List (String × Handler)
    → Surroundings
    → Option ℕ
    → Result CoordinatorError Execution
    → Coordinator
    → Answer
unfolding validate_execution submit_valid
submit digest handlers world version parsed c =
    submit_valid digest world c (validate_execution handlers version parsed)
