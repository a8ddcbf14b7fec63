-- ===== src/Coordinator/Alarm.antt =====
-- `alarm` with its loop, and the steps that run while it awaits the registry and the adapters.
use Prim.Native.String.{len}
use elmybot.Base.{
  ℕ, zero, suc, ◌+◌, ◌*◌, String, false, List, Option, none, some, Result, ok, err, ltb,
  if◌then◌else◌,
}
use elmybot.AlarmDrain.{alarm_drain_time_remaining}
use elmybot.Coordinator.Types.{
  EffectRow, Coordinator, Lookup, missing, unreachable, found, Handler, LastError, Failure, Outcome,
  returned, threw,
}
use elmybot.Coordinator.Storage.{
  first_due_effect, set_next_alarm, prune_completed_executions, retry_base_delay_ms,
}
use elmybot.Coordinator.Submit.{handler_of, is_member}
use elmybot.Coordinator.Effects.{claim_effect, complete_effect, fail_effect, dead_letter_remaining}
use elmybot.Coordinator.Calls.{Call, perform_all}

abbrev pub max_effects_per_alarm : ℕ
max_effects_per_alarm = 20

abbrev pub max_delivery_result_bytes : ℕ
max_delivery_result_bytes = 32 * 1024

-- What a delivery comes to: the text that is stored, or the error that is thrown.
abbrev pub oversized : Failure
oversized = record {
  retryable = some false;
  code = some "invalid_effect_delivery_result";
  message = some "The effect adapter returned an oversized result.";
  metadata = some "{}";
}

abbrev pub not_serializable : Failure
not_serializable = record oversized {
  message = some "The effect adapter returned a non-serializable result.";
}

abbrev pub not_member : Failure
not_member = record {
  retryable = some false;
  code = some "integration_target_not_member";
  message = some "The effect target no longer belongs to the integration.";
  metadata = some "{}";
}

abbrev pub no_handler : Failure
no_handler = record {
  retryable = some false;
  code = some "integration_effect_kind_unknown";
  message = some "No delivery handler is registered for this effect type.";
  metadata = some "{}";
}

unfoldable pub checked_delivery_result : Outcome → Result Failure String
checked_delivery_result (threw failure) = err failure
checked_delivery_result (returned none) = err not_serializable
checked_delivery_result (returned (some json)) =
    if ltb max_delivery_result_bytes (len json) then err oversized else ok json

-- One round of the loop: the clock's readings, what the adapter does with a kind and an effect, and
-- the steps of others while it is awaited.
pub record Turn : Type 0 where
  pub check_ms : ℕ
  pub due_ms : ℕ
  pub claim_ms : ℕ
  pub finish_ms : ℕ
  pub deliver : String → String → Outcome
  pub meanwhile : List Call

-- The body of the `try`: the target is a member, the kind has a handler, and the delivery.
unfoldable pub deliver_effect :
    List (String × Handler) → List String → Turn → EffectRow → Result Failure String
unfolding is_member handler_of checked_delivery_result
deliver_effect handlers members turn e =
    if is_member e.target_group_key members
    then elim (handler_of e.kind handlers) [
      | none ↦ err no_handler
      | some _ ↦ checked_delivery_result (turn.deliver e.kind e.effect_json)
    ]
    else err not_member

unfoldable pub settle : EffectRow → ℕ → Result Failure String → Coordinator → Coordinator
unfolding complete_effect fail_effect
settle e now_ms (ok result) c = complete_effect e result now_ms c
settle e now_ms (err failure) c = fail_effect e failure now_ms c

-- `none` where the loop breaks.
unfoldable pub alarm_turn :
    List (String × Handler) → List String → ℕ → ℕ → Turn → Coordinator → Option Coordinator
unfolding alarm_drain_time_remaining first_due_effect claim_effect deliver_effect settle perform_all
alarm_turn handlers members started_at_ms processed turn c =
    if alarm_drain_time_remaining started_at_ms processed turn.check_ms
    then elim (first_due_effect turn.due_ms c.effects) [
      | none ↦ none
      | some due ↦ elim (claim_effect due.effect_id turn.claim_ms c) [
        | none ↦ some c
        | some (e, claimed) ↦ some (
            settle e turn.finish_ms (deliver_effect handlers members turn e)
              (perform_all turn.meanwhile claimed))
      ]
    ]
    else none

unfoldable pub alarm_loop :
    List (String × Handler) → List String → ℕ → ℕ → ℕ → (ℕ → Turn) → Coordinator → ℕ × Coordinator
unfolding alarm_turn
alarm_loop handlers members started_at_ms zero processed turns c = (processed, c)
alarm_loop handlers members started_at_ms (suc rounds) processed turns c =
    elim (alarm_turn handlers members started_at_ms processed (turns processed) c) [
      | none ↦ (processed, c)
      | some c' ↦ alarm_loop handlers members started_at_ms rounds (suc processed) turns c'
    ]

abbrev pub inactive_error : ℕ → LastError
inactive_error now_ms = record {
  code = "integration_inactive";
  message = "The integration is no longer active.";
  metadata = "{}";
  failed_at_ms = now_ms;
}

-- The clock at each place of an alarm, and the steps of others while it awaits the registry.
pub record Clock : Type 0 where
  pub meanwhile : List Call
  pub started_at_ms : ℕ
  pub prune_ms : ℕ
  pub end_ms : ℕ

unfoldable pub alarm_active :
    List (String × Handler) → List String → Clock → (ℕ → Turn) → Coordinator → Coordinator
unfolding alarm_loop prune_completed_executions set_next_alarm
alarm_active handlers members clock turns c = set_next_alarm clock.end_ms (
    prune_completed_executions clock.prune_ms
      (alarm_loop handlers members clock.started_at_ms max_effects_per_alarm 0 turns c).1)

unfoldable pub alarm_stopped : Clock → Coordinator → Coordinator
unfolding dead_letter_remaining set_next_alarm
alarm_stopped clock c =
    set_next_alarm clock.end_ms
      (dead_letter_remaining (inactive_error clock.prune_ms) clock.prune_ms c)

-- `alarm` behind the test that the coordinator has an integration.
unfoldable pub alarm_owned :
    List (String × Handler) → Lookup → Clock → (ℕ → Turn) → Coordinator → Coordinator
unfolding alarm_active alarm_stopped
alarm_owned handlers missing clock turns c = alarm_stopped clock c
alarm_owned handlers unreachable clock turns c = record c {
  alarm = some (clock.end_ms + retry_base_delay_ms);
}
alarm_owned handlers (found integration) clock turns c =
    if integration.is_active
    then alarm_active handlers integration.member_keys clock turns c
    else alarm_stopped clock c

unfoldable pub alarm :
    List (String × Handler) → Lookup → Clock → (ℕ → Turn) → Coordinator → Coordinator
unfolding alarm_owned perform_all
alarm handlers lookup clock turns c = elim c.integration_id [
  | none ↦ record c { alarm = none }
  | some _ ↦ alarm_owned handlers lookup clock turns (perform_all clock.meanwhile c)
]
