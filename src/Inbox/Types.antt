-- ===== src/Inbox/Types.antt =====
-- The rows of the table `eventsub_inbox`, the messages, the definitions that handle them, and the
-- errors.
use elmybot.Base.{ℕ, String, Bool, true, false, ◌||◌, List, Option}

pub data Status : Type 0 where
  pending attempting retry_wait completed dead_letter : Status

pub record Row : Type 0 where
  pub message_id : String
  pub fingerprint : String
  pub message_type : String
  pub message_timestamp : ℕ
  pub subscription_kind : String
  pub broadcaster_user_id : String
  pub payload_json : String
  pub status : Status
  pub attempts : ℕ
  pub received_at_ms : ℕ
  pub next_attempt_at_ms : Option ℕ
  pub last_attempt_at_ms : Option ℕ
  pub completed_at_ms : Option ℕ
  pub expires_at_ms : ℕ
  pub last_error : Option String

-- The object's storage: the table and the one alarm.
pub record Inbox : Type 0 where
  pub rows : List Row
  pub alarm : Option ℕ

-- What `validateMessage` returns.
pub record Validated : Type 0 where
  pub message_id : String
  pub message_type : String
  pub message_timestamp : ℕ
  pub subscription_kind : String
  pub payload_json : String

-- What `rowToMessage` returns; the payload is kept as its JSON text.
pub record Message : Type 0 where
  pub message_id : String
  pub message_type : String
  pub message_timestamp : ℕ
  pub subscription_kind : String
  pub broadcaster_user_id : String
  pub payload_json : String
  pub status : Status
  pub attempts : ℕ

pub record Definition : Type 0 where
  pub kind : String
  pub has_revocation_handler : Bool

-- The maps `byKind` and `bySubscription` of the registry.
pub record Registry : Type 0 where
  pub by_kind : List (String × Definition)
  pub by_subscription : List (String × Definition)

-- The fields of a decoded payload that the inbox reads, and its JSON text. An ID is `none` where it
-- is missing or null, and `some none` where it is another value than a text.
pub record Payload : Type 0 where
  pub json : String
  pub condition_broadcaster_user_id : Option (Option String)
  pub event_broadcaster_user_id : Option (Option String)
  pub subscription_type : Option String
  pub subscription_version : Option String

-- The decoded request; `none` stands for a value of another type, or none at all.
pub record Input : Type 0 where
  pub schema_version : Option ℕ
  pub message_id : Option String
  pub message_type : Option String
  pub message_timestamp : String
  pub payload : Option Payload
  pub broadcaster_user_id : Option String

pub data InboxError : Type 0 where
  schema_unsupported invalid_message_id invalid_message_type invalid_timestamp : InboxError
  invalid_payload payload_too_large broadcaster_mismatch subscription_unsupported : InboxError
  message_conflict : InboxError

pub record Receipt : Type 0 where
  pub accepted : Bool
  pub duplicate : Bool
  pub status : Status

-- The error that a handler throws: `none` where it has no field `retryable`.
pub record Failure : Type 0 where
  pub retryable : Option Bool
  pub message : String

pub data Outcome : Type 0 where
  succeeded : Outcome
  failed : Failure → Outcome

-- `Date.parse`, and the SHA-256 digest of a message's type, kind and payload.
pub record Externals : Type 0 where
  pub parse_date : String → Option ℕ
  pub digest : String → String → String → String

unfoldable pub is_claimable : Status → Bool
is_claimable pending = true
is_claimable retry_wait = true
is_claimable _ = false

unfoldable pub is_attempting : Status → Bool
is_attempting attempting = true
is_attempting _ = false

-- A message that is still to be handled.
unfoldable pub is_open : Status → Bool
unfolding is_claimable is_attempting
is_open s = is_claimable s || is_attempting s
