-- ===== src/Coordinator/Effects.antt =====
-- `retryEffect`, `claimEffect`, `completeEffect`, `failEffect` and `deadLetterRemaining`: the
-- transactions that move an effect from one state to another.
use elmybot.Base.{
  ℕ, ◌+◌, ◌*◌, String, Bool, false, not, ◌&&◌, List, [], ◌∷◌, Option, none, some, Result, ok, ◌>>=◌,
  ◌>>◌, throw_if, or_throw, text_eq, ltb, if◌then◌else◌,
}
use elmybot.Sql.{find, has_key, update, select}
use elmybot.Coordinator.Types.{
  EffectState, attempting, retry_wait, delivered, dead_letter, EffectRow, Coordinator, LastError,
  CoordinatorError, integration_not_found, effect_not_found, effect_not_dead_lettered,
  retry_invalid, Failure, Report, is_open, is_attempting, is_dead,
}
use elmybot.Coordinator.Storage.{
  effect_id, idempotency_key, execution_status, update_execution_state, retry_delay_ms,
  is_retryable, stored_error,
}

abbrev pub max_delivery_attempts : ℕ
max_delivery_attempts = 5

abbrev pub attempt_lease_ms : ℕ
attempt_lease_ms = 30 * 1000

-- UPDATE integration_effects SET f WHERE effect_id = id
unfoldable pub update_effect : String → (EffectRow → EffectRow) → Coordinator → Coordinator
update_effect id f c = record c { effects = update (has_key effect_id id) f c.effects }

-- `updateExecutionState` after the effects have changed.
unfoldable pub refresh : String → ℕ → Coordinator → Coordinator
unfolding update_execution_state
refresh source now_ms c = record c {
  executions = update_execution_state c.effects source now_ms c.executions;
}

unfoldable pub requeued : ℕ → EffectRow → EffectRow
requeued now_ms e = record e {
  state = EffectState.pending;
  attempts = 0;
  next_attempt_at_ms = some now_ms;
  last_attempt_at_ms = none;
  last_error = none;
}

unfoldable pub is_owned_by : String → Coordinator → Bool
is_owned_by id c = elim c.integration_id [ none ↦ false | some own ↦ text_eq own id ]

unfoldable pub requeue : ℕ → EffectRow → Coordinator → Coordinator
unfolding requeued update_effect refresh
requeue now_ms e c =
    refresh e.source_event_id now_ms (update_effect e.effect_id (requeued now_ms) c)

unfoldable pub retry_effect :
    String → String → ℕ → Coordinator → Result CoordinatorError (Coordinator × Option Report)
unfolding is_owned_by requeue execution_status is_dead
retry_effect integration_id key now_ms c = do
  throw_if (text_eq key "") retry_invalid
  throw_if (not (is_owned_by integration_id c)) integration_not_found
  e ← or_throw (find idempotency_key key c.effects) effect_not_found
  throw_if (not (is_dead e.state)) effect_not_dead_lettered
  ok (requeue now_ms e c, execution_status false (requeue now_ms e c) e.source_event_id)

unfoldable pub leased : ℕ → EffectRow → EffectRow
leased now_ms e = record e {
  state = attempting;
  attempts = e.attempts + 1;
  next_attempt_at_ms = some (now_ms + attempt_lease_ms);
  last_attempt_at_ms = some now_ms;
}

-- `claimEffect`: what it returns has the new count of attempts and the other columns as they were
-- before the UPDATE.
unfoldable pub claim_effect : String → ℕ → Coordinator → Option (EffectRow × Coordinator)
unfolding leased update_effect is_open
claim_effect id now_ms c = elim (find effect_id id c.effects) [
  | none ↦ none
  | some current ↦
      if is_open current.state
      then some
          (record current { attempts = current.attempts + 1 }, update_effect id (leased now_ms) c)
      else none
]

unfoldable pub is_in_flight : String → Coordinator → Bool
unfolding is_attempting
is_in_flight id c = elim (find effect_id id c.effects) [
  | none ↦ false
  | some current ↦ is_attempting current.state
]

unfoldable pub delivered_effect : String → ℕ → EffectRow → EffectRow
delivered_effect result now_ms e = record e {
  state = delivered;
  next_attempt_at_ms = none;
  delivered_at_ms = some now_ms;
  last_error = none;
  result_json = some result;
}

unfoldable pub complete_effect : EffectRow → String → ℕ → Coordinator → Coordinator
unfolding is_in_flight delivered_effect update_effect refresh
complete_effect claimed result now_ms c =
    if is_in_flight claimed.effect_id c
    then refresh claimed.source_event_id now_ms
        (update_effect claimed.effect_id (delivered_effect result now_ms) c)
    else c

unfoldable pub waiting_effect : Failure → ℕ → EffectRow → EffectRow
unfolding retry_delay_ms stored_error
waiting_effect failure now_ms e = record e {
  state = retry_wait;
  next_attempt_at_ms = some (now_ms + retry_delay_ms e.attempts);
  last_error = some (stored_error failure now_ms);
}

unfoldable pub dead_effect : LastError → EffectRow → EffectRow
dead_effect error e = record e {
  state = dead_letter;
  next_attempt_at_ms = none;
  last_error = some error;
}

-- The row of an attempt that failed, by its own count of attempts.
unfoldable pub is_final : Failure → EffectRow → Bool
unfolding is_retryable
is_final failure current = not (is_retryable failure && ltb current.attempts max_delivery_attempts)

unfoldable pub fail_current : EffectRow → Failure → ℕ → Coordinator → EffectRow → Coordinator
unfolding is_attempting is_final waiting_effect dead_effect stored_error update_effect refresh
fail_current claimed failure now_ms c current =
    if is_attempting current.state
    then (if is_final failure current
        then refresh claimed.source_event_id now_ms
            (update_effect claimed.effect_id (dead_effect (stored_error failure now_ms)) c)
        else update_effect claimed.effect_id (waiting_effect failure now_ms) c)
    else c

unfoldable pub fail_effect : EffectRow → Failure → ℕ → Coordinator → Coordinator
unfolding fail_current
fail_effect claimed failure now_ms c = elim (find effect_id claimed.effect_id c.effects) [
  | none ↦ c
  | some current ↦ fail_current claimed failure now_ms c current
]

-- `updateExecutionState` for each row of the SELECT; a source that comes twice is done twice.
unfoldable pub refresh_all : List EffectRow → ℕ → Coordinator → Coordinator
unfolding refresh
refresh_all [] now_ms c = c
refresh_all (e ∷ es) now_ms c = refresh_all es now_ms (refresh e.source_event_id now_ms c)

abbrev pub is_open_row : EffectRow → Bool
is_open_row e = is_open e.state

unfoldable pub dead_letter_remaining : LastError → ℕ → Coordinator → Coordinator
unfolding refresh_all dead_effect is_open
dead_letter_remaining error now_ms c =
    refresh_all (select is_open_row c.effects) now_ms
      (record c { effects = update is_open_row (dead_effect error) c.effects })
