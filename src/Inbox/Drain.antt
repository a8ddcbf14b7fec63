-- ===== src/Inbox/Drain.antt =====
-- `process` and `drain`. A turn of the loop takes the clock's readings, what the handlers answer,
-- and the calls of other requests that run while the handler is awaited.
use elmybot.Base.{
  ℕ, zero, suc, ◌+◌, String, List, [], ◌∷◌, Option, none, some, text_eq, if◌then◌else◌,
}
use elmybot.AlarmDrain.{alarm_drain_time_remaining}
use elmybot.Inbox.Types.{
  Inbox, Message, Definition, Registry, Input, Failure, Outcome, succeeded, failed, Externals, Row,
}
use elmybot.Inbox.Validate.{property}
use elmybot.Inbox.Calls.{
  prune, enqueue, schedule_next_alarm, recover_expired_attempts, claim_next, complete, fail,
  attempt_lease_ms,
}

abbrev pub drain_batch_size : ℕ
drain_batch_size = 20

-- A call that another request, or another drain, makes of the same inbox.
pub data Call : Type 0 where
  enqueues : Externals → Registry → Input → ℕ → ℕ → Call
  recovers claims prunes schedules : ℕ → Call
  completes : String → ℕ → Call
  fails : Message → Failure → ℕ → Call

unfoldable pub perform : Call → Inbox → Inbox
unfolding enqueue recover_expired_attempts claim_next complete fail prune schedule_next_alarm
perform (enqueues externals registry input now_ms later_ms) s =
    (enqueue externals registry input now_ms later_ms s).0
perform (recovers now_ms) s = record s { rows = recover_expired_attempts now_ms s.rows }
perform (claims now_ms) s = elim (claim_next now_ms s.rows) [
  | none ↦ s
  | some (m, rows) ↦ record { rows = rows; alarm = some (now_ms + attempt_lease_ms) }
]
perform (prunes now_ms) s = record s { rows = prune now_ms s.rows }
perform (schedules now_ms) s = schedule_next_alarm now_ms s
perform (completes id now_ms) s = record s { rows = complete id now_ms s.rows }
perform (fails m failure now_ms) s = record s { rows = fail m failure now_ms s.rows }

unfoldable pub perform_all : List Call → Inbox → Inbox
unfolding perform
perform_all [] s = s
perform_all (c ∷ cs) s = perform_all cs (perform c s)

pub record Turn : Type 0 where
  pub check_ms : ℕ
  pub claim_ms : ℕ
  pub alarm_ms : ℕ
  pub meanwhile : List Call
  pub finish_ms : ℕ
  pub handle_notification : Definition → Message → Outcome
  pub handle_revocation : Definition → Message → Outcome

abbrev pub unregistered_kind : Failure
unregistered_kind = record {
  retryable = none;
  message = "No EventSub definition is registered for this kind.";
}

unfoldable pub process : Registry → Turn → Message → Outcome
unfolding property
process registry turn m = elim (property m.subscription_kind registry.by_kind) [
  | none ↦ failed unregistered_kind
  | some d ↦
      if text_eq m.message_type "notification"
      then turn.handle_notification d m
      else if d.has_revocation_handler
      then turn.handle_revocation d m
      else succeeded
]

unfoldable pub settle : Message → ℕ → Outcome → List Row → List Row
unfolding complete fail
settle m now_ms succeeded rows = complete m.message_id now_ms rows
settle m now_ms (failed failure) rows = fail m failure now_ms rows

-- One round of the loop; `none` where it breaks.
unfoldable pub drain_turn : Registry → ℕ → ℕ → Turn → Inbox → Option Inbox
unfolding alarm_drain_time_remaining claim_next perform_all process settle
drain_turn registry started_at_ms processed turn s =
    if alarm_drain_time_remaining started_at_ms processed turn.check_ms
    then elim (claim_next turn.claim_ms s.rows) [
      | none ↦ none
      | some (m, rows) ↦
          let awaited =
            perform_all turn.meanwhile
              (record { rows = rows; alarm = some (turn.alarm_ms + attempt_lease_ms) }) in
          some (record awaited {
            rows = settle m turn.finish_ms (process registry turn m) awaited.rows;
          })
    ]
    else none

-- The loop, with the rounds that are left of the batch.
unfoldable pub drain_loop : Registry → ℕ → ℕ → ℕ → (ℕ → Turn) → Inbox → ℕ × Inbox
unfolding drain_turn
drain_loop registry started_at_ms zero processed turns s = (processed, s)
drain_loop registry started_at_ms (suc rounds) processed turns s =
    elim (drain_turn registry started_at_ms processed (turns processed) s) [
      | none ↦ (processed, s)
      | some s' ↦ drain_loop registry started_at_ms rounds (suc processed) turns s'
    ]

-- `drain`, which is `alarm` too: the clock at its start, the turns, and the
-- clock at its end.
unfoldable pub drain : Registry → ℕ → ℕ → (ℕ → Turn) → ℕ → ℕ → Inbox → ℕ × Inbox
unfolding drain_loop recover_expired_attempts prune schedule_next_alarm
drain registry started_at_ms recover_ms turns prune_ms end_ms s =
    let begun = record s { rows = recover_expired_attempts recover_ms s.rows } in
    let (processed, drained) = drain_loop registry started_at_ms drain_batch_size 0 turns begun in
    (processed, schedule_next_alarm end_ms (record drained { rows = prune prune_ms drained.rows }))
