-- ===== src/Coordinator/Tests.antt =====
-- Runs of the coordinator, and the theorems at concrete inputs.
use elmybot.Base.{
  ℕ, zero, suc, String, ◌≡◌, refl, List, [], ◌∷◌, none, some, ok, err, true, false, All, map, arith,
  ◌≤◌, ◌≢◌, is_some, if◌then◌else◌, text_eq, text_eq_refl, sym, ap, ◌∙◌,
}
use elmybot.Sql.{find, select, first, first_by, order_by, update, delete, count, any_row}
use elmybot.Coordinator.Types.{
  EffectState, attempting, is_open, is_dead, execution_conflict, ExecutionState, EffectRow,
  Coordinator, Effect, Execution, Handler, Failure, LastError, Lookup, found, threw,
}
use elmybot.Coordinator.Storage.{
  effect_id, retry_delay_ms, execution_status, first_due_effect, open_of, dead_of, derived_state,
  prune_completed_executions,
}
use elmybot.Coordinator.Submit.{commit, has_idempotency_key}
use elmybot.Coordinator.Effects.{claim_effect, dead_letter_remaining}
use elmybot.Coordinator.Calls.{
  Call, commits, claims, fails, completes, retries, prunes, schedules, stops, perform_all,
}
use elmybot.Coordinator.Alarm.{Clock, Turn, alarm, alarm_loop, settle}
use elmybot.Coordinator.Agreement.{IsValid}
use elmybot.Coordinator.Interleaving.{IsKept, perform_all-IsKept, alarm-IsKept}
use elmybot.Coordinator.Delivery.{retry_delay_ms-bounds, claim_effect-exclusive}
use elmybot.Coordinator.Settling.{settle_once}
use elmybot.Coordinator.Rounds.{alarm_loop-Ends, Ends}
use elmybot.Coordinator.Resubmission.{IsRetained, submit_again}
use elmybot.Coordinator.Submission.{Surroundings, submit}
use elmybot.Coordinator.Submit.{validate_execution}
use elmybot.Coordinator.Wakeup.{alarm-IsCovered, IsCovered}
use elmybot.Coordinator.Closing.{dead_letter_remaining-closes}

program : Unit {0}
unfolding submit validate_execution commit perform_all claim_effect settle alarm find select first
    first_by order_by update delete count any_row first_due_effect has_idempotency_key open_of
    dead_of is_open is_dead derived_state
program = tt

abbrev empty : Coordinator
empty = record { integration_id = none; executions = []; effects = []; alarm = none }

abbrev greet : Effect
greet = record {
  kind = "chat.message";
  idempotency_key = "k1";
  target_group_key = "twitch:1";
  target_platform = "twitch";
  json = "{}";
}

abbrev announce : Effect
announce = record greet { idempotency_key = "k2"; target_group_key = "discord:2" }

abbrev event : Execution
event = record {
  integration_id = "int-1";
  source_group_key = "twitch:1";
  source_event_id = "evt-1";
  correlation_id = "corr";
  effects = greet ∷ announce ∷ [];
}

abbrev uuids : ℕ → String
uuids zero = "a"
uuids (suc n) = "b"

abbrev event_of : String → String
event_of _ = "evt-1"

abbrev submitted : Coordinator
submitted = perform_all (commits event "f1" 1000 uuids ∷ []) empty

abbrev row : EffectRow
row = record {
  effect_id = "a";
  source_event_id = "evt-1";
  idempotency_key = "k1";
  kind = "chat.message";
  target_group_key = "twitch:1";
  effect_json = "{}";
  state = EffectState.pending;
  attempts = 1;
  next_attempt_at_ms = some 1000;
  last_attempt_at_ms = none;
  delivered_at_ms = none;
  last_error = none;
  result_json = none;
  created_at_ms = 1000;
}

abbrev busy : Failure
busy = record { retryable = none; code = none; message = some "busy"; metadata = none }

empty-IsKept : IsKept event_of empty
empty-IsKept = (
  record {
    sound = record {
      executions_distinct = tt;
      effects_distinct = tt;
      keys_distinct = tt;
      owned = tt;
      scheduled = tt;
    };
    agree = tt;
  },
  tt,
)

abbrev day : List Call
day =
    commits event "f1" 1000 uuids
    ∷ claims "a" 2000
    ∷ fails row busy 2500
    ∷ claims "b" 3000
    ∷ completes (record row { effect_id = "b" }) "{}" 3500
    ∷ prunes 4000
    ∷ stops (record { code = "c"; message = "m"; metadata = "{}"; failed_at_ms = 5000 }) 5000
    ∷ retries "int-1" "k1" 6000
    ∷ schedules 7000
    ∷ []

submitted-IsKept : IsKept event_of submitted
submitted-IsKept =
    perform_all-IsKept event_of (commits event "f1" 1000 uuids ∷ []) empty ((λ n. refl), tt)
      empty-IsKept

perform_all-IsKept_example : IsKept event_of (perform_all day empty)
perform_all-IsKept_example =
    perform_all-IsKept event_of day empty
      ((λ n. refl), (tt, (refl, (tt, (refl, (tt, (tt, (tt, (tt, tt))))))))) empty-IsKept

submitted_test : map (λ (x : EffectRow). x.effect_id) submitted.effects ≡ "a" ∷ "b" ∷ []
unfolding program
submitted_test = refl

-- An adapter that does not answer, with a retry from a request meanwhile.
abbrev turn : Turn
turn = record {
  check_ms = 5000;
  due_ms = 5000;
  claim_ms = 5000;
  finish_ms = 6000;
  deliver = λ kind json. threw busy;
  meanwhile = retries "int-1" "k1" 5500 ∷ [];
}

abbrev clock : Clock
clock = record {
  meanwhile = prunes 5000 ∷ [];
  started_at_ms = 5000;
  prune_ms = 7000;
  end_ms = 7000;
}

abbrev lookup : Lookup
lookup = found (record { is_active = true; member_keys = "twitch:1" ∷ [] })

alarm-IsKept_example : IsKept event_of (alarm [] lookup clock (λ n. turn) submitted)
alarm-IsKept_example =
    alarm-IsKept event_of [] lookup clock (λ n. turn) submitted (tt, tt) (λ n. (tt, tt))
      submitted-IsKept

-- One effect that is due, of an execution that is pending.
abbrev one : Coordinator
one = record {
  integration_id = some "int-1";
  executions =
      record {
        source_event_id = "evt-1";
        integration_id = "int-1";
        source_group_key = "twitch:1";
        correlation_id = "corr";
        request_fingerprint = "f1";
        state = ExecutionState.pending;
        accepted_at_ms = 1000;
        completed_at_ms = none;
      }
      ∷ [];
  effects = record row { attempts = 0 } ∷ [];
  alarm = none;
}

one-IsKept : IsKept event_of one
unfolding program
one-IsKept = (
  record {
    sound = record {
      executions_distinct = (refl, tt);
      effects_distinct = (refl, tt);
      keys_distinct = (refl, tt);
      owned = (refl, tt);
      scheduled = (refl, tt);
    };
    agree = ((refl, refl), tt);
  },
  (refl, tt),
)

alarm-IsCovered_example :
    let c' = alarm [] lookup clock (λ n. turn) one in All (IsCovered 37_000 c'.alarm) c'.effects
alarm-IsCovered_example =
    alarm-IsCovered event_of [] lookup clock (λ n. turn) one "int-1" refl (tt, tt) (λ n. (tt, tt))
      one-IsKept

abbrev taken : Coordinator
taken = record one {
  effects =
      record row {
        state = attempting;
        next_attempt_at_ms = some 32_000;
        last_attempt_at_ms = some 2000;
      }
      ∷ [];
}

taken_test : claim_effect "a" 2000 one ≡ some (row, taken)
unfolding program
taken_test = refl

-- A second effect, for which an alarm does not wait.
abbrev two : Coordinator
two = record one {
  effects =
      record row { attempts = 0 }
      ∷ record row { effect_id = "b"; idempotency_key = "k2"; attempts = 0 }
      ∷ [];
}

abbrev two_taken : Coordinator
two_taken = record two {
  effects =
      record row {
        state = attempting;
        next_attempt_at_ms = some 32_000;
        last_attempt_at_ms = some 2000;
      }
      ∷ record row { effect_id = "b"; idempotency_key = "k2"; attempts = 0 }
      ∷ [];
}

two-IsValid : IsValid two
unfolding program
two-IsValid = record {
  sound = record {
    executions_distinct = (refl, tt);
    effects_distinct = (refl, (refl, tt));
    keys_distinct = (refl, (refl, tt));
    owned = (refl, (refl, tt));
    scheduled = (refl, (refl, tt));
  };
  agree = ((refl, refl), tt);
}

abbrev other : EffectRow
other = record row { effect_id = "b"; idempotency_key = "k2"; attempts = 0 }

claim_effect-exclusive_example : other.effect_id ≢ "a"
unfolding program
claim_effect-exclusive_example =
    claim_effect-exclusive "a" 2000 3000 two two_taken row other two-IsValid refl (omega arith) refl

-- Another effect is claimed, and a clerk retries the one that was delivered.
abbrev between : List Call
between = claims "b" 4000 ∷ retries "int-1" "k1" 5000 ∷ prunes 6000 ∷ []

none_found : find effect_id "a" [] ≡ none
unfolding program
none_found = refl

different_ids : ◌≢◌ {A = String} "b" "a"
different_ids e =
    let clash : true ≡ false = sym (text_eq_refl "b") ∙ ap (text_eq "b") e in absurd (cc clash)

settle_once_example :
    let c' = perform_all between (settle row 3000 (ok "{}") taken) in
    settle row 9000 (err busy) c' ≡ c'
settle_once_example =
    settle_once row 3000 9000 (ok "{}") (err busy) between taken (none_found, tt)
      (different_ids, (tt, (tt, tt)))

alarm_loop-Ends_example :
    Ends 5000 20 0 (λ n. turn) (alarm_loop [] ("twitch:1" ∷ []) 5000 20 0 (λ n. turn) one)
alarm_loop-Ends_example = alarm_loop-Ends [] ("twitch:1" ∷ []) 5000 20 0 (λ n. turn) one

retry_delay_ms-bounds_example : (30_000 ≤ retry_delay_ms 3) × (retry_delay_ms 3 ≤ 1_800_000)
retry_delay_ms-bounds_example = retry_delay_ms-bounds 3

abbrev inactive : LastError
inactive = record { code = "c"; message = "m"; metadata = "{}"; failed_at_ms = 5000 }

dead_letter_remaining-closes_example :
    let c' = dead_letter_remaining inactive 5000 one in
    All (λ x. is_open x.state ≡ false) c'.effects
    × All
        (λ e. (e.state ≢ ExecutionState.pending) × (is_some e.completed_at_ms ≡ true))
        c'.executions
dead_letter_remaining-closes_example = dead_letter_remaining-closes inactive 5000 one one-IsKept.0

abbrev small : Execution
small = record event { effects = greet ∷ [] }

small_test : commit small "f1" 1000 uuids empty ≡ ok (one, execution_status false one "evt-1")
unfolding program
small_test = refl

abbrev digest : Execution → String
digest e = elim e.effects [ [] ↦ "f2" | _ ↦ "f1" ]

abbrev handlers : List (String × Handler)
handlers = ("chat.message", record { platform = "twitch"; complaint = λ e. none }) ∷ []

abbrev world : Surroundings
world = record {
  prune_ms = 1000;
  meanwhile = [];
  lookup = lookup;
  accepted_at_ms = 1000;
  ids = uuids;
  alarm_ms = 1000;
}

-- The same event without its effect is a conflict.
abbrev changed : Execution
changed = record small { effects = [] }

abbrev accepted : Coordinator
accepted = record one { alarm = some 1000 }

submit_test :
    submit digest handlers world (some 1) (ok small) empty
    ≡ (accepted, ok (execution_status false accepted "evt-1"))
unfolding program
submit_test = refl

valid_test :
    (validate_execution handlers (some 1) (ok small) ≡ ok small)
    × (validate_execution handlers (some 1) (ok changed) ≡ ok changed)
unfolding program
valid_test = (refl, refl)

accepted-IsRetained : IsRetained 9000 "evt-1" accepted
unfolding program
accepted-IsRetained row e t done = absurd (ground (arith, e, done))

submit_again_example :
    (submit digest handlers (record world { prune_ms = 9000 }) (some 1) (ok changed) accepted ≡ (
      prune_completed_executions 9000 accepted,
      if text_eq "f1" "f2"
          then ok (execution_status true (prune_completed_executions 9000 accepted) "evt-1")
          else err execution_conflict,
    ))
    × (is_some (execution_status true (prune_completed_executions 9000 accepted) "evt-1") ≡ true)
submit_again_example =
    submit_again digest handlers world (record world { prune_ms = 9000 }) (some 1) (some 1)
      (ok small) (ok changed) small changed empty accepted (execution_status false accepted "evt-1")
      valid_test.0 valid_test.1 submit_test refl refl accepted-IsRetained
