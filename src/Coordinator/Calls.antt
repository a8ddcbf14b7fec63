-- ===== src/Coordinator/Calls.antt =====
-- The steps that requests and alarms make of one coordinator, in any order.
use elmybot.Base.{ℕ, String, List, [], ◌∷◌, Option, none, some, Result, ok, err}
use elmybot.Coordinator.Types.{
  EffectRow, Coordinator, Execution, CoordinatorError, LastError, Report, Failure,
}
use elmybot.Coordinator.Storage.{prune_completed_executions, set_next_alarm}
use elmybot.Coordinator.Submit.{commit}
use elmybot.Coordinator.Effects.{
  retry_effect, claim_effect, complete_effect, fail_effect, dead_letter_remaining,
}

pub data Call : Type 0 where
  prunes schedules : ℕ → Call
  commits : Execution → String → ℕ → (ℕ → String) → Call
  retries : String → String → ℕ → Call
  claims : String → ℕ → Call
  completes : EffectRow → String → ℕ → Call
  fails : EffectRow → Failure → ℕ → Call
  stops : LastError → ℕ → Call

-- An error rolls a transaction back.
abbrev pub after : Coordinator → Result CoordinatorError (Coordinator × Option Report) → Coordinator
after c (err e) = c
after c (ok (c', report)) = c'

unfoldable pub perform : Call → Coordinator → Coordinator
unfolding prune_completed_executions set_next_alarm commit retry_effect claim_effect complete_effect
    fail_effect dead_letter_remaining
perform (prunes now_ms) c = prune_completed_executions now_ms c
perform (schedules now_ms) c = set_next_alarm now_ms c
perform (commits execution fingerprint accepted_at_ms ids) c =
    after c (commit execution fingerprint accepted_at_ms ids c)
perform (retries integration_id key now_ms) c = after c (retry_effect integration_id key now_ms c)
perform (claims id now_ms) c = elim (claim_effect id now_ms c) [ none ↦ c | some (e, c') ↦ c' ]
perform (completes e result now_ms) c = complete_effect e result now_ms c
perform (fails e failure now_ms) c = fail_effect e failure now_ms c
perform (stops error now_ms) c = dead_letter_remaining error now_ms c

unfoldable pub perform_all : List Call → Coordinator → Coordinator
unfolding perform
perform_all [] c = c
perform_all (s ∷ ss) c = perform_all ss (perform s c)
