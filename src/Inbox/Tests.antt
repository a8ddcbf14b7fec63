-- ===== src/Inbox/Tests.antt =====
-- The inbox on a small history: two messages, one of them handled.
use elmybot.Base.{
  ℕ, ◌+◌, ◌≤◌, ◌≡◌, ◌≢◌, refl, true, false, inl, List, [], ◌∷◌, none, some, arith, ok, text_length,
  text_slice, All,
}
use elmybot.Sql.{find, select, delete, update, first_by, first, order_by}
use elmybot.AlarmDrain.{alarm_drain_time_remaining}
use elmybot.Inbox.Types.{
  Row, Inbox, Message, Definition, Registry, Payload, Input, Failure, succeeded, Externals, pending,
  attempting, schema_unsupported,
}
use elmybot.Inbox.Calls.{
  id_of, prune, enqueue, claim_next, complete, fail, recover_expired_attempts, is_due,
}
use elmybot.Inbox.Drain.{enqueues, claims, fails, Turn, perform_all, drain, drain_loop}
use elmybot.Inbox.Invariant.{IsValid}
use elmybot.Inbox.Interleaving
use elmybot.Inbox.Claims
use elmybot.Inbox.Claims.{IsAttempted}
use elmybot.Inbox.Admission
use elmybot.Inbox.Failures
use elmybot.Inbox.Failures.{FailsTo}
use elmybot.Inbox.Rounds
use elmybot.Inbox.Rounds.{IsRetriedTo, fail_rounds}
use elmybot.Inbox.Wakeup
use elmybot.Inbox.Wakeup.{IsCovered}
use elmybot.Inbox.Batch
use elmybot.Inbox.Batch.{Ends}

program : Unit {0}
unfolding enqueue claim_next complete fail recover_expired_attempts drain find select delete update
    first_by first order_by alarm_drain_time_remaining text_length text_slice
program = tt

abbrev follow : Definition
follow = record { kind = "twitch.channel.follow.v1"; has_revocation_handler = false }

abbrev registry : Registry
registry = record {
  by_kind = ("twitch.channel.follow.v1", follow) ∷ [];
  by_subscription = ("channel.follow:1", follow) ∷ [];
}

abbrev externals : Externals
externals = record { parse_date = λ s. some 5; digest = λ a b c. c }

abbrev payload : Payload
payload = record {
  json = "{}";
  condition_broadcaster_user_id = some (some "42");
  event_broadcaster_user_id = none;
  subscription_type = some "channel.follow";
  subscription_version = none;
}

abbrev input : Input
input = record {
  schema_version = some 1;
  message_id = some "m1";
  message_type = some "notification";
  message_timestamp = "2026-01-01T00:00:00Z";
  payload = some payload;
  broadcaster_user_id = some "42";
}

abbrev outdated : Input
outdated = record input { schema_version = some 2 }

abbrev empty : Inbox
empty = record { rows = []; alarm = none }

abbrev row1 : Row
row1 = record {
  message_id = "m1";
  fingerprint = "{}";
  message_type = "notification";
  message_timestamp = 5;
  subscription_kind = "twitch.channel.follow.v1";
  broadcaster_user_id = "42";
  payload_json = "{}";
  status = pending;
  attempts = 0;
  received_at_ms = 100;
  next_attempt_at_ms = some 100;
  last_attempt_at_ms = none;
  completed_at_ms = none;
  expires_at_ms = 1_209_600_100;
  last_error = none;
}

abbrev row2 : Row
row2 = record row1 { message_id = "m2"; received_at_ms = 90 }

abbrev taken : Row
taken = record row2 {
  status = attempting;
  attempts = 1;
  last_attempt_at_ms = some 200;
  next_attempt_at_ms = none;
}

abbrev both : Inbox
both = record { rows = row1 ∷ row2 ∷ []; alarm = some 1100 }

abbrev message : Message
message = record {
  message_id = "m2";
  message_type = "notification";
  message_timestamp = 5;
  subscription_kind = "twitch.channel.follow.v1";
  broadcaster_user_id = "42";
  payload_json = "{}";
  status = attempting;
  attempts = 1;
}

abbrev outage : Failure
outage = record { retryable = none; message = "timeout" }

abbrev stored : Inbox
stored = record { rows = row1 ∷ []; alarm = some 1100 }

enqueue_first :
    enqueue externals registry input 100 101 empty
    ≡ (stored, ok (record { accepted = true; duplicate = false; status = pending }))
unfolding program
enqueue_first = refl

oldest_claimed : claim_next 200 both.rows ≡ some (message, row1 ∷ taken ∷ [])
unfolding program
oldest_claimed = refl

abbrev turn : ℕ → Turn
turn n = record {
  check_ms = 200;
  claim_ms = 200;
  alarm_ms = 200;
  meanwhile = [];
  finish_ms = 201;
  handle_notification = λ d m. succeeded;
  handle_revocation = λ d m. succeeded;
}

-- A drain in time handles both messages and leaves no alarm.
drain-both :
    ((drain registry 200 200 turn 202 202 both).0 ≡ 2)
    × ((drain registry 200 200 turn 202 202 both).1.alarm ≡ none)
unfolding program
drain-both = (refl, refl)

both-IsValid : IsValid both.rows
unfolding find first
both-IsValid = record { distinct = (refl, (refl, tt)); shapes = (refl, (refl, tt)) }

perform_all-IsValid_example :
    IsValid
      (perform_all
        (enqueues externals registry input 5 6 ∷ claims 200 ∷ fails message outage 300 ∷ [])
        both).rows
perform_all-IsValid_example =
    Interleaving.perform_all-IsValid
      (enqueues externals registry input 5 6 ∷ claims 200 ∷ fails message outage 300 ∷ []) both
      both-IsValid

drain-IsValid_example : IsValid (drain registry 200 200 turn 202 202 both).1.rows
drain-IsValid_example = Interleaving.drain-IsValid registry 200 200 turn 202 202 both both-IsValid

claim_next-oldest_example :
    (r : Row) × (find id_of "m2" both.rows ≡ some r)
    × (is_due 200 r ≡ true)
    × All (λ (x : Row). is_due 200 x ≡ true → r.received_at_ms ≤ x.received_at_ms) both.rows
    × (message.attempts ≡ r.attempts + 1)
    × (r' : Row) × (find id_of "m2" (row1 ∷ taken ∷ []) ≡ some r')
    × IsAttempted 200 r r'
claim_next-oldest_example =
    Claims.claim_next-oldest 200 both.rows (row1 ∷ taken ∷ []) message both-IsValid oldest_claimed

abbrev message1 : Message
message1 = record message { message_id = "m1" }

abbrev taken1 : Row
taken1 = record taken { message_id = "m1"; received_at_ms = 100; last_attempt_at_ms = some 400 }

claim_second :
    claim_next 400 (recover_expired_attempts 300 (row1 ∷ taken ∷ []))
    ≡ some (message1, taken1 ∷ taken ∷ [])
unfolding program
claim_second = refl

claim_exclusive_example : message.message_id ≢ message1.message_id
claim_exclusive_example =
    Claims.claim_exclusive 200 300 400 both.rows (row1 ∷ taken ∷ []) (taken1 ∷ taken ∷ []) message
      message1 both-IsValid (omega arith) oldest_claimed claim_second

enqueue-refused_example : empty.rows ≡ empty.rows
unfolding program
enqueue-refused_example =
    Admission.enqueue-refused externals registry outdated 100 101 empty empty schema_unsupported
      refl

enqueue_again_example :
    ((enqueue externals registry input 500 501 stored).0.rows ≡ prune 500 stored.rows)
    × ((enqueue externals registry input 500 501 stored).1
        ≡ ok (record { accepted = false; duplicate = true; status = pending }))
enqueue_again_example =
    Admission.enqueue_again externals registry input 100 101 500 501 empty stored
      (record { accepted = true; duplicate = false; status = pending }) enqueue_first refl
      (omega arith)

claim_next-fail_example :
    (r : Row) × (find id_of "m2" (fail message outage 300 (row1 ∷ taken ∷ [])) ≡ some r)
    × (r.attempts ≡ 1)
    × FailsTo message outage 300 r
claim_next-fail_example =
    Failures.claim_next-fail 200 300 both.rows (row1 ∷ taken ∷ []) message outage both-IsValid
      oldest_claimed

abbrev attempts_of_drains : List (ℕ × ℕ)
attempts_of_drains =
    (100, 200)
    ∷ (2_000_000, 2_000_100)
    ∷ (4_000_000, 4_000_100)
    ∷ (6_000_000, 6_000_100)
    ∷ (8_000_000, 8_000_100)
    ∷ (10_000_000, 10_000_100)
    ∷ []

-- After six rounds the message is a dead letter.
fail_rounds-IsRetriedTo_example : IsRetriedTo 6 (fail_rounds outage attempts_of_drains (row1 ∷ []))
fail_rounds-IsRetriedTo_example =
    Rounds.fail_rounds-IsRetriedTo outage attempts_of_drains 100 row1 (λ e. cc)
      (inl refl, 100, refl, omega arith) (omega arith)
      (omega arith, (omega arith, (omega arith, (omega arith, (omega arith, (omega arith, tt))))))

complete-fail_reopens_example :
    (r' : Row) × (find id_of "m2"
        (fail message outage 70_000 (complete "m2" 60_500 (row1 ∷ taken ∷ [])))
      ≡ some r')
    × (is_due 1_870_000 r' ≡ true)
unfolding find first
complete-fail_reopens_example =
    Failures.complete-fail_reopens message outage 60_500 70_000 (row1 ∷ taken ∷ []) taken refl
      (λ e. cc) (omega arith)

drain-IsCovered_example :
    All
      (IsCovered 202 (drain registry 200 200 turn 202 202 both).1)
      (drain registry 200 200 turn 202 202 both).1.rows
drain-IsCovered_example = Wakeup.drain-IsCovered registry 200 200 turn 202 202 both both-IsValid

drain_loop-Ends_example : Ends 200 20 0 turn (drain_loop registry 200 20 0 turn both)
drain_loop-Ends_example = Batch.drain_loop-Ends registry 200 20 0 turn both
