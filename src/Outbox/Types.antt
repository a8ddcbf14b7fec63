-- ===== src/Outbox/Types.antt =====
-- The tables of the outbox and the intents that it takes.
use elmybot.Base.{ℕ, String, Bool, List, [], Option}

pub data IntentState : Type 0 where
  pending parked gap_pending appended gap_recorded retiring reset_discarded : IntentState

-- `recoveryError`, or the PRIMARY KEY of the outbox.
pub data OutboxError : Type 0 where
  rate_limited partition_capacity outbox_capacity stream_blocked : OutboxError
  sequence_exhausted duplicate_operation : OutboxError

-- `state_event_partitions`
pub record Partition : Type 0 where
  pub partition_key : String
  pub scope_token : String
  pub operation_sequence : ℕ

-- `state_event_outbox`, with the columns that the admission reads or sets.
pub record OutboxRow : Type 0 where
  pub operation_id : String
  pub partition_key : String
  pub operation_sequence : ℕ
  pub state : IntentState
  pub deadline_ms : ℕ
  pub next_wakeup_at_ms : Option ℕ
  pub intent_json : String
  pub intent_bytes : ℕ
  pub stream_route_id : String
  pub relay_turn : ℕ
  pub attempts : ℕ
  pub lease_until_ms : Option ℕ
  pub last_error : Option String

-- `state_event_outbox_budget`
pub record OutboxBudget : Type 0 where
  pub rows : ℕ
  pub bytes : ℕ
  pub partitions : ℕ
  pub rate : List ℕ

-- `state_event_source_streams`, with the columns that the admission reads or sets.
pub record SourceStream : Type 0 where
  pub route_id : String
  pub gap_first : Option ℕ
  pub blocked : Bool
  pub reset_id : Option String
  pub interest_epoch : ℕ
  pub wake_generation : ℕ
  pub last_sequence : ℕ

-- `state_event_relay_schedule`
pub record RelaySchedule : Type 0 where
  pub turn : ℕ
  pub publication_streak : ℕ

pub record Outbox : Type 0 where
  pub partitions : List Partition
  pub rows : List OutboxRow
  pub budget : OutboxBudget
  pub streams : List SourceStream
  pub schedule : RelaySchedule

-- What `initializeStateEventOutbox` creates.
abbrev pub new_outbox : Outbox
new_outbox = record {
  partitions = [];
  rows = [];
  budget = record { rows = 0; bytes = 0; partitions = 0; rate = [] };
  streams = [];
  schedule = record { turn = 0; publication_streak = 0 };
}

-- An intent with the text that `canonicalJson` gives for it, and the bytes of that text.
pub record Intent : Type 0 where
  pub operation_id : String
  pub partition_key : Option String
  pub feature_id : String
  pub operation_sequence : ℕ
  pub expires_at_ms : ℕ
  pub committed_at_ms : ℕ
  pub stream_route_id : String
  pub json : String
  pub json_bytes : ℕ

-- What `allocateStateEventSequence` answers.
pub record Correlation : Type 0 where
  pub version : ℕ
  pub scope_token : String
  pub operation_sequence : ℕ
