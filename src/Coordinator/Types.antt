-- ===== src/Coordinator/Types.antt =====
-- The tables `integration_executions` and `integration_effects`, what is submitted, what the
-- registry and the adapters answer, and the errors.
use elmybot.Base.{ℕ, String, Bool, true, false, List, Option}

pub data EffectState : Type 0 where
  pending attempting retry_wait delivered dead_letter : EffectState

pub data ExecutionState : Type 0 where
  pending completed completed_with_failures : ExecutionState

-- The object that `last_error_json` holds.
pub record LastError : Type 0 where
  pub code : String
  pub message : String
  pub metadata : String
  pub failed_at_ms : ℕ

pub record ExecutionRow : Type 0 where
  pub source_event_id : String
  pub integration_id : String
  pub source_group_key : String
  pub correlation_id : String
  pub request_fingerprint : String
  pub state : ExecutionState
  pub accepted_at_ms : ℕ
  pub completed_at_ms : Option ℕ

pub record EffectRow : Type 0 where
  pub effect_id : String
  pub source_event_id : String
  pub idempotency_key : String
  pub kind : String
  pub target_group_key : String
  pub effect_json : String
  pub state : EffectState
  pub attempts : ℕ
  pub next_attempt_at_ms : Option ℕ
  pub last_attempt_at_ms : Option ℕ
  pub delivered_at_ms : Option ℕ
  pub last_error : Option LastError
  pub result_json : Option String
  pub created_at_ms : ℕ

-- The object's storage; `integration_id` is the one row of `integration_coordinator_meta`.
pub record Coordinator : Type 0 where
  pub integration_id : Option String
  pub executions : List ExecutionRow
  pub effects : List EffectRow
  pub alarm : Option ℕ

-- An effect and an execution as `createEffect` and `createIntegrationExecution` give them, with the
-- effect's JSON text.
pub record Effect : Type 0 where
  pub kind : String
  pub idempotency_key : String
  pub target_group_key : String
  pub target_platform : String
  pub json : String

pub record Execution : Type 0 where
  pub integration_id : String
  pub source_group_key : String
  pub source_event_id : String
  pub correlation_id : String
  pub effects : List Effect

-- What the integration registry answers: `unreachable` is any error but a status of 404.
pub record Integration : Type 0 where
  pub is_active : Bool
  pub member_keys : List String

pub data Lookup : Type 0 where
  missing unreachable : Lookup
  found : Integration → Lookup

-- The registered handlers by kind: the platform, and what `validateEffect` complains of.
pub record Handler : Type 0 where
  pub platform : String
  pub complaint : Effect → Option String

pub data CoordinatorError : Type 0 where
  schema_unsupported invalid_execution effect_kind_unknown effect_platform_mismatch :
      CoordinatorError
  effect_invalid identity_mismatch execution_conflict idempotency_conflict : CoordinatorError
  integration_not_found integration_inactive source_not_member target_not_member : CoordinatorError
  registry_failed retry_invalid effect_not_found effect_not_dead_lettered : CoordinatorError
  constraint_violated : CoordinatorError

-- `executionStatus`: the execution and its effects in the order of their creation.
pub record Report : Type 0 where
  pub execution : ExecutionRow
  pub effects : List EffectRow
  pub replayed : Bool

-- What an adapter throws: `none` where the field is missing or no text.
pub record Failure : Type 0 where
  pub retryable : Option Bool
  pub code : Option String
  pub message : Option String
  pub metadata : Option String

-- What an adapter does: it returns a result, given by its JSON text if it has one, or throws.
pub data Outcome : Type 0 where
  returned : Option String → Outcome
  threw : Failure → Outcome

-- pending, retry_wait or attempting
unfoldable pub is_open : EffectState → Bool
is_open EffectState.pending = true
is_open retry_wait = true
is_open attempting = true
is_open _ = false

unfoldable pub is_attempting : EffectState → Bool
is_attempting attempting = true
is_attempting _ = false

unfoldable pub is_dead : EffectState → Bool
is_dead dead_letter = true
is_dead _ = false
