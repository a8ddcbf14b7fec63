-- ===== src/Coordinator/Submit.antt =====
-- `validateExecution`, `requireActiveMembership`, `replayIfPresent` and `submit`.
use elmybot.Base.{
  ℕ, suc, String, Bool, true, false, not, List, [], ◌∷◌, ◌++◌, Option, none, some, Result, ok, err,
  ◌>>=◌, ◌>>◌, throw_if, or_throw, text_eq, ◌==◌, if◌then◌else◌,
}
use elmybot.Sql.{find, any_row}
use elmybot.Coordinator.Types.{
  EffectState, ExecutionState, completed, ExecutionRow, EffectRow, Coordinator, Effect, Execution,
  Lookup, missing, unreachable, found, Handler, CoordinatorError, schema_unsupported,
  effect_kind_unknown, effect_platform_mismatch, effect_invalid, identity_mismatch,
  execution_conflict, idempotency_conflict, integration_not_found, integration_inactive,
  source_not_member, target_not_member, registry_failed, constraint_violated, Report,
}
use elmybot.Coordinator.Storage.{execution_id, effect_id, idempotency_key, execution_status}

unfoldable pub handler_of : String → List (String × Handler) → Option Handler
handler_of kind [] = none
handler_of kind ((k, h) ∷ rest) = if text_eq k kind then some h else handler_of kind rest

-- The checks of one effect against its handler.
unfoldable pub check_effect : List (String × Handler) → Effect → Result CoordinatorError (Unit {0})
unfolding handler_of
check_effect handlers e = do
  handler ← or_throw (handler_of e.kind handlers) effect_kind_unknown
  throw_if (not (text_eq handler.platform e.target_platform)) effect_platform_mismatch
  elim (handler.complaint e) [ none ↦ ok tt | some text ↦ err effect_invalid ]

unfoldable pub check_effects :
    List (String × Handler) → List Effect → Result CoordinatorError (Unit {0})
unfolding check_effect
check_effects handlers [] = ok tt
check_effects handlers (e ∷ es) = do check_effect handlers e; check_effects handlers es

-- `parsed` is what `createIntegrationExecution` makes of the input.
unfoldable pub validate_execution :
    List (String × Handler)
    → Option ℕ
    → Result CoordinatorError Execution
    → Result CoordinatorError Execution
unfolding check_effects
validate_execution handlers none parsed = err schema_unsupported
validate_execution handlers (some version) parsed = do
  throw_if (not (version == 1)) schema_unsupported
  execution ← parsed
  check_effects handlers execution.effects
  ok execution

unfoldable pub is_member : String → List String → Bool
is_member key [] = false
is_member key (k ∷ ks) = if text_eq k key then true else is_member key ks

unfoldable pub check_targets : List String → List Effect → Result CoordinatorError (Unit {0})
unfolding is_member
check_targets members [] = ok tt
check_targets members (e ∷ es) = do
  throw_if (not (is_member e.target_group_key members)) target_not_member
  check_targets members es

unfoldable pub require_active_membership : Execution → Lookup → Result CoordinatorError (Unit {0})
unfolding is_member check_targets
require_active_membership execution missing = err integration_not_found
require_active_membership execution unreachable = err registry_failed
require_active_membership execution (found integration) = do
  throw_if (not integration.is_active) integration_inactive
  throw_if (not (is_member execution.source_group_key integration.member_keys)) source_not_member
  check_targets integration.member_keys execution.effects

-- The coordinator belongs to another integration.
unfoldable pub is_foreign : String → Option String → Bool
is_foreign id none = false
is_foreign id (some own) = not (text_eq own id)

-- `ensureCoordinatorIdentity`
unfoldable pub ensure_coordinator_identity :
    String → Coordinator → Result CoordinatorError Coordinator
unfolding is_foreign
ensure_coordinator_identity id c = do
  throw_if (is_foreign id c.integration_id) identity_mismatch
  ok (record c { integration_id = some id })

-- An execution of that event is there already: its report, if the fingerprints agree.
unfoldable pub replay_of :
    String → Coordinator → ExecutionRow → Result CoordinatorError (Option Report)
unfolding execution_status
replay_of fingerprint c existing = do
  throw_if (not (text_eq existing.request_fingerprint fingerprint)) execution_conflict
  ok (execution_status true c existing.source_event_id)

unfoldable pub replay_if_present :
    Execution → String → Coordinator → Result CoordinatorError (Option Report)
unfolding is_foreign replay_of
replay_if_present execution fingerprint c = do
  throw_if (is_foreign execution.integration_id c.integration_id) identity_mismatch
  elim (find execution_id execution.source_event_id c.executions) [
    | none ↦ ok none
    | some existing ↦ replay_of fingerprint c existing
  ]

unfoldable pub has_idempotency_key : List EffectRow → Effect → Bool
has_idempotency_key effects e =
    any_row (λ (x : EffectRow). text_eq x.idempotency_key e.idempotency_key) effects

unfoldable pub any_conflict : List EffectRow → List Effect → Bool
unfolding has_idempotency_key
any_conflict effects [] = false
any_conflict effects (e ∷ es) =
    if has_idempotency_key effects e then true else any_conflict effects es

unfoldable pub new_effect : Execution → ℕ → String → Effect → EffectRow
new_effect execution accepted_at_ms id e = record {
  effect_id = id;
  source_event_id = execution.source_event_id;
  idempotency_key = e.idempotency_key;
  kind = e.kind;
  target_group_key = e.target_group_key;
  effect_json = e.json;
  state = EffectState.pending;
  attempts = 0;
  next_attempt_at_ms = some accepted_at_ms;
  last_attempt_at_ms = none;
  delivered_at_ms = none;
  last_error = none;
  result_json = none;
  created_at_ms = accepted_at_ms;
}

-- INSERT into `integration_effects`, under its PRIMARY KEY and its UNIQUE key.
unfoldable pub insert_effect : EffectRow → List EffectRow → Result CoordinatorError (List EffectRow)
insert_effect e effects = elim (find effect_id e.effect_id effects) [
  | some _ ↦ err constraint_violated
  | none ↦ elim (find idempotency_key e.idempotency_key effects) [
    | some _ ↦ err constraint_violated
    | none ↦ ok (effects ++ e ∷ [])
  ]
]

-- The loop that inserts the effects; `ids` are the random UUIDs that it draws.
unfoldable pub insert_effects :
    Execution
    → ℕ
    → (ℕ → String)
    → List Effect
    → List EffectRow
    → Result CoordinatorError (List EffectRow)
unfolding insert_effect new_effect
insert_effects execution accepted_at_ms ids [] effects = ok effects
insert_effects execution accepted_at_ms ids (e ∷ es) effects =
    insert_effect (new_effect execution accepted_at_ms (ids 0) e) effects
    >>= insert_effects execution accepted_at_ms (λ n. ids (suc n)) es

unfoldable pub new_execution : Execution → String → ℕ → ExecutionRow
new_execution execution fingerprint accepted_at_ms = record {
  source_event_id = execution.source_event_id;
  integration_id = execution.integration_id;
  source_group_key = execution.source_group_key;
  correlation_id = execution.correlation_id;
  request_fingerprint = fingerprint;
  state = elim execution.effects [ [] ↦ completed | _ ↦ ExecutionState.pending ];
  accepted_at_ms = accepted_at_ms;
  completed_at_ms = elim execution.effects [ [] ↦ some accepted_at_ms | _ ↦ none ];
}

-- The part of the transaction that writes.
unfoldable pub store_execution :
    Execution → String → ℕ → (ℕ → String) → Coordinator → Result CoordinatorError Coordinator
unfolding ensure_coordinator_identity any_conflict new_execution insert_effects
store_execution execution fingerprint accepted_at_ms ids c = do
  owned ← ensure_coordinator_identity execution.integration_id c
  throw_if (any_conflict c.effects execution.effects) idempotency_conflict
  effects ← insert_effects execution accepted_at_ms ids execution.effects c.effects
  ok (record owned {
    executions = c.executions ++ new_execution execution fingerprint accepted_at_ms ∷ [];
    effects = effects;
  })

-- The transaction of `submit`, which an error rolls back.
unfoldable pub commit :
    Execution
    → String
    → ℕ
    → (ℕ → String)
    → Coordinator
    → Result CoordinatorError (Coordinator × Option Report)
unfolding replay_if_present store_execution execution_status
commit execution fingerprint accepted_at_ms ids c = do
  concurrent ← replay_if_present execution fingerprint c
  elim concurrent [
    | some report ↦ ok (c, some report)
    | none ↦ do
      stored ← store_execution execution fingerprint accepted_at_ms ids c
      ok (stored, execution_status false stored execution.source_event_id)
  ]
