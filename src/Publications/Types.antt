-- ===== src/Publications/Types.antt =====
-- Publications, the requests of the ledger and its answers.
use elmybot.Base.{ℕ, String, Bool, Option}

-- `DURABLE_EVENT_CODES`
pub data Code : Type 0 where
  consumer_unavailable stream_full gap_requires_reset transition payload_invalid : Code
  source_conflict service_unavailable : Code

pub record LedgerError : Type 0 where
  pub code : Code
  pub status : ℕ

pub data PublicationState : Type 0 where
  pending committed rejected : PublicationState

-- `durable_event_publications`
pub record Publication : Type 0 where
  pub event_id : String
  pub fingerprint : String
  pub feature_id : String
  pub stream_id : String
  pub stream_version : ℕ
  pub route_id : String
  pub binding_revision : ℕ
  pub route_json : String
  pub state : PublicationState
  pub pending_payload : Option String
  pub pending_payload_bytes : ℕ
  pub sequence : Option ℕ
  pub accepted_at_ms : Option ℕ
  pub rejection_code : Option Code
  pub created_at_ms : ℕ
  pub updated_at_ms : ℕ
  pub expires_at_ms : ℕ

-- What `publicRow` shows of a publication; a route by its JSON text.
pub data Answer : Type 0 where
  is_committed : ℕ → ℕ → Answer
  is_rejected : Option Code → Answer
  is_pending : String → Answer

-- A field is `none` where it is missing or has another type than the one wanted; a number is one
-- only if it is a safe integer that is not negative.
pub record Route : Type 0 where
  pub route_id : Option String
  pub binding_revision : Option ℕ
  pub has_descriptor : Bool
  pub json : String

pub record PrepareInput : Type 0 where
  pub event_id : Option String
  pub fingerprint : Option String
  pub feature_id : Option String
  pub stream_id : Option String
  pub version : Option ℕ
  pub route : Route
  pub payload : Option String

pub record FinalizeInput : Type 0 where
  pub event_id : Option String
  pub fingerprint : Option String
  pub state : Option PublicationState
  pub sequence : Option ℕ
  pub accepted_at_ms : Option ℕ
  pub code : Option Code

pub record RepinInput : Type 0 where
  pub event_id : Option String
  pub fingerprint : Option String
  pub previous_route_id : Option String
  pub route : Route

-- The regular expressions of the ledger.
pub record Patterns : Type 0 where
  pub is_event_id : String → Bool
  pub is_route_id : String → Bool
  pub is_fingerprint : String → Bool
  pub is_safe_id : String → Bool
