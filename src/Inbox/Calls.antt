-- ===== src/Inbox/Calls.antt =====
-- The methods of `TwitchEventSubInboxBackend` that read or write the table, each with the times
-- that it takes from the clock as arguments.
use elmybot.Base.{
  ℕ, ◌+◌, ◌-◌, ◌*◌, min, max, String, Bool, true, false, not, ◌&&◌, ◌||◌, List, [], ◌∷◌, ◌++◌,
  Option, none, some, Result, ok, err, map?, or_else, text_eq, text_lt, text_slice, ltb, leb, ◌==◌,
  if◌then◌else◌,
}
use elmybot.Sql.{select, delete, update, find, has_key, first_by}
use elmybot.Inbox.Types.{
  Status, pending, attempting, retry_wait, completed, dead_letter, Row, Inbox, Validated, Message,
  Registry, Input, InboxError, message_conflict, Receipt, Failure, Externals, is_claimable,
  is_attempting, is_open,
}
use elmybot.Inbox.Validate.{validate_message}

abbrev pub max_delivery_attempts : ℕ
max_delivery_attempts = 5

abbrev pub attempt_lease_ms : ℕ
attempt_lease_ms = 60 * 1000

abbrev pub completed_retention_ms : ℕ
completed_retention_ms = 14 * 24 * 60 * 60 * 1000

abbrev pub id_of : Row → String
id_of r = r.message_id

-- RETRY_DELAYS_MS at an index up to 3.
unfoldable pub retry_delay_at : ℕ → ℕ
retry_delay_at i =
    if i == 0
    then 30 * 1000
    else if i == 1
    then 2 * 60 * 1000
    else if i == 2
    then 10 * 60 * 1000
    else 30 * 60 * 1000

unfoldable pub prune : ℕ → List Row → List Row
prune now_ms rows = delete (λ (r : Row). leb r.expires_at_ms now_ms) rows

-- The row that `enqueue` inserts.
unfoldable pub new_row : Validated → String → String → ℕ → Row
new_row m fingerprint broadcaster now_ms = record {
  message_id = m.message_id;
  fingerprint = fingerprint;
  message_type = m.message_type;
  message_timestamp = m.message_timestamp;
  subscription_kind = m.subscription_kind;
  broadcaster_user_id = broadcaster;
  payload_json = m.payload_json;
  status = pending;
  attempts = 0;
  received_at_ms = now_ms;
  next_attempt_at_ms = some now_ms;
  last_attempt_at_ms = none;
  completed_at_ms = none;
  expires_at_ms = now_ms + completed_retention_ms;
  last_error = none;
}

-- The transaction of `enqueue`, which a conflict rolls back.
unfoldable pub admit :
    Validated → String → String → ℕ → List Row → Result InboxError (List Row × Receipt)
unfolding prune new_row
admit m fingerprint broadcaster now_ms rows =
    let kept = prune now_ms rows in
    elim (find id_of m.message_id kept) [
      | none ↦ ok (
        kept ++ new_row m fingerprint broadcaster now_ms ∷ [],
        record { accepted = true; duplicate = false; status = pending },
      )
      | some existing ↦
          if text_eq existing.fingerprint fingerprint
          then ok (kept, record { accepted = false; duplicate = true; status = existing.status })
          else err message_conflict
    ]

-- When a row next wants the alarm: the CASE of `scheduleNextAlarm`.
unfoldable pub wake_at : Row → Option ℕ
unfolding is_attempting
wake_at r =
    if is_attempting r.status
    then map? (λ t. t + attempt_lease_ms) r.last_attempt_at_ms
    else r.next_attempt_at_ms

-- MIN, which passes over NULL.
abbrev pub min? : Option ℕ → Option ℕ → Option ℕ
min? none o = o
min? (some a) none = some a
min? (some a) (some b) = some (min a b)

unfoldable pub earliest_wake : List Row → Option ℕ
unfolding wake_at is_open
earliest_wake [] = none
earliest_wake (r ∷ rows) =
    let rest = earliest_wake rows in if is_open r.status then min? (wake_at r) rest else rest

unfoldable pub schedule_next_alarm : ℕ → Inbox → Inbox
unfolding earliest_wake
schedule_next_alarm now_ms s = record s {
  alarm = map? (λ next. max next now_ms) (earliest_wake s.rows);
}

unfoldable pub is_terminal : Status → Bool
is_terminal completed = true
is_terminal dead_letter = true
is_terminal _ = false

-- After the transaction: a duplicate of a message that is done gives the alarm back.
unfoldable pub after_admit :
    ℕ → Inbox → Result InboxError (List Row × Receipt) → Inbox × Result InboxError Receipt
unfolding schedule_next_alarm is_terminal
after_admit later_ms s (err e) = (s, err e)
after_admit later_ms s (ok (rows, receipt)) =
    let stored = record s { rows = rows } in
    (
      if receipt.duplicate && is_terminal receipt.status
          then schedule_next_alarm later_ms stored
          else stored,
      ok receipt,
    )

-- `enqueue` behind the validation: the recovery alarm, then the transaction.
unfoldable pub enqueue_validated :
    Externals
    → Input
    → ℕ
    → ℕ
    → Inbox
    → Result InboxError Validated
    → Inbox × Result InboxError Receipt
unfolding admit after_admit
enqueue_validated externals input now_ms later_ms s (err e) = (s, err e)
enqueue_validated externals input now_ms later_ms s (ok m) =
    after_admit later_ms (record s { alarm = some (now_ms + 1000) })
      (admit m (externals.digest m.message_type m.subscription_kind m.payload_json)
        (or_else input.broadcaster_user_id "") now_ms s.rows)

-- `enqueue` at `now_ms`; `later_ms` is the clock when the alarm is scheduled again.
unfoldable pub enqueue :
    Externals → Registry → Input → ℕ → ℕ → Inbox → Inbox × Result InboxError Receipt
unfolding validate_message enqueue_validated
enqueue externals registry input now_ms later_ms s =
    enqueue_validated externals input now_ms later_ms s (validate_message externals registry input)

-- The WHERE clause of `recoverExpiredAttempts`.
unfoldable pub lease_expired : ℕ → Row → Bool
unfolding is_attempting
lease_expired now_ms r =
    is_attempting r.status
    && (elim r.last_attempt_at_ms [ none ↦ false | some t ↦ leb (t + attempt_lease_ms) now_ms ])

unfoldable pub recovered : ℕ → Row → Row
recovered now_ms r = record r {
  status = retry_wait;
  next_attempt_at_ms = some now_ms;
  last_error = some "Processing lease expired.";
}

unfoldable pub recover_expired_attempts : ℕ → List Row → List Row
unfolding lease_expired recovered
recover_expired_attempts now_ms rows = update (lease_expired now_ms) (recovered now_ms) rows

-- The WHERE clause of `claimNext`.
unfoldable pub is_due : ℕ → Row → Bool
unfolding is_claimable
is_due now_ms r =
    is_claimable r.status && (elim r.next_attempt_at_ms [ none ↦ false | some t ↦ leb t now_ms ])

-- ORDER BY received_at_ms, message_id
unfoldable pub before : Row → Row → Bool
before a b =
    if ltb a.received_at_ms b.received_at_ms
    then true
    else if ltb b.received_at_ms a.received_at_ms
    then false
    else text_lt a.message_id b.message_id

unfoldable pub claimed : ℕ → Row → Row
claimed now_ms r = record r {
  status = attempting;
  attempts = r.attempts + 1;
  last_attempt_at_ms = some now_ms;
  next_attempt_at_ms = none;
}

unfoldable pub row_to_message : Row → Message
row_to_message r = record {
  message_id = r.message_id;
  message_type = r.message_type;
  message_timestamp = r.message_timestamp;
  subscription_kind = r.subscription_kind;
  broadcaster_user_id = r.broadcaster_user_id;
  payload_json = r.payload_json;
  status = r.status;
  attempts = r.attempts;
}

unfoldable pub next_due : ℕ → List Row → Option Row
unfolding is_due before
next_due now_ms rows = first_by before (select (is_due now_ms) rows)

unfoldable pub claim_next : ℕ → List Row → Option (Message × List Row)
unfolding next_due claimed row_to_message
claim_next now_ms rows = elim (next_due now_ms rows) [
  | none ↦ none
  | some r ↦
      some (
        row_to_message (claimed now_ms r),
        update (has_key id_of r.message_id) (claimed now_ms) rows,
      )
]

unfoldable pub completed_row : ℕ → Row → Row
completed_row now_ms r = record r {
  status = completed;
  completed_at_ms = some now_ms;
  next_attempt_at_ms = none;
  last_error = none;
  expires_at_ms = now_ms + completed_retention_ms;
}

unfoldable pub complete : String → ℕ → List Row → List Row
unfolding completed_row
complete message_id now_ms rows = update (has_key id_of message_id) (completed_row now_ms) rows

unfoldable pub is_final_failure : Message → Failure → Bool
is_final_failure m failure =
    (elim failure.retryable [ none ↦ false | some retryable ↦ not retryable ])
    || leb max_delivery_attempts m.attempts

unfoldable pub failed_row : Message → Failure → ℕ → Row → Row
unfolding is_final_failure retry_delay_at text_slice
failed_row m failure now_ms r = record r {
  status = if is_final_failure m failure then dead_letter else retry_wait;
  next_attempt_at_ms =
      if is_final_failure m failure
      then none
      else some (now_ms + retry_delay_at (min (m.attempts - 1) 3));
  last_error = some (text_slice 1000 failure.message);
  expires_at_ms = now_ms + completed_retention_ms;
}

unfoldable pub fail : Message → Failure → ℕ → List Row → List Row
unfolding failed_row
fail m failure now_ms rows = update (has_key id_of m.message_id) (failed_row m failure now_ms) rows
