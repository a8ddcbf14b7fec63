-- ===== src/Coordinator/Storage.antt =====
-- coordinator-storage.js: delays, failures, the state that an execution derives from its effects,
-- the next due effect, the alarm, and the pruning of old executions.
use elmybot.Base.{
  ℕ, ◌+◌, ◌-◌, ◌*◌, ◌^◌, min, max, String, Bool, true, false, ◌&&◌, List, Option, none, some, map?,
  or_else, text_eq, text_lt, text_slice, ltb, leb, if◌then◌else◌,
}
use elmybot.Sql.{select, delete, update, find, has_key, first_by, order_by, count, any_row}
use elmybot.Coordinator.Types.{
  ExecutionState, completed, completed_with_failures, LastError, ExecutionRow, EffectRow,
  Coordinator, Report, Failure, is_open, is_dead,
}

abbrev pub retry_base_delay_ms : ℕ
retry_base_delay_ms = 30_000

abbrev pub retry_max_delay_ms : ℕ
retry_max_delay_ms = 30 * 60 * 1000

abbrev pub completed_execution_ttl_ms : ℕ
completed_execution_ttl_ms = 14 * 24 * 60 * 60 * 1000

abbrev pub execution_id : ExecutionRow → String
execution_id e = e.source_event_id

abbrev pub effect_id : EffectRow → String
effect_id e = e.effect_id

abbrev pub idempotency_key : EffectRow → String
idempotency_key e = e.idempotency_key

unfoldable pub retry_delay_ms : ℕ → ℕ
retry_delay_ms attempts = min (retry_base_delay_ms * 2 ^ (attempts - 1)) retry_max_delay_ms

-- `deliveryFailure(error).retryable`
unfoldable pub is_retryable : Failure → Bool
is_retryable failure = elim failure.retryable [ none ↦ true | some b ↦ b ]

-- The error as it is stored.
unfoldable pub stored_error : Failure → ℕ → LastError
unfolding text_slice
stored_error failure failed_at_ms = record {
  code = elim failure.code [
    | none ↦ "unexpected_effect_delivery_error"
    | some code ↦ text_slice 100 code
  ];
  message = text_slice 500 (or_else failure.message "Unknown effect delivery error.");
  metadata = or_else failure.metadata "{}";
  failed_at_ms = failed_at_ms;
}

unfoldable pub open_of : String → EffectRow → Bool
unfolding is_open
open_of source e = text_eq e.source_event_id source && is_open e.state

unfoldable pub dead_of : String → EffectRow → Bool
unfolding is_dead
dead_of source e = text_eq e.source_event_id source && is_dead e.state

-- The state of an execution with so many effects that are open, and that are dead letters.
unfoldable pub derived_state : ℕ → ℕ → ExecutionState
derived_state nonterminal failed =
    if ltb 0 nonterminal
    then ExecutionState.pending
    else if ltb 0 failed
    then completed_with_failures
    else completed

unfoldable pub settled_execution : ℕ → ℕ → ℕ → ExecutionRow → ExecutionRow
unfolding derived_state
settled_execution nonterminal failed now_ms e = record e {
  state = derived_state nonterminal failed;
  completed_at_ms = if ltb 0 nonterminal then none else some now_ms;
}

unfoldable pub update_execution_state :
    List EffectRow → String → ℕ → List ExecutionRow → List ExecutionRow
unfolding settled_execution open_of dead_of
update_execution_state effects source now_ms executions =
    update (has_key execution_id source)
      (settled_execution (count (open_of source) effects) (count (dead_of source) effects) now_ms)
      executions

-- ORDER BY created_at_ms, effect_id
unfoldable pub created_before : EffectRow → EffectRow → Bool
created_before a b =
    if ltb a.created_at_ms b.created_at_ms
    then true
    else if ltb b.created_at_ms a.created_at_ms
    then false
    else text_lt a.effect_id b.effect_id

unfoldable pub execution_status : Bool → Coordinator → String → Option Report
unfolding created_before
execution_status replayed c source =
    map?
      (λ e. record {
        execution = e;
        effects =
            order_by created_before
              (select (λ (x : EffectRow). text_eq x.source_event_id source) c.effects);
        replayed = replayed;
      })
      (find execution_id source c.executions)

-- The time of a row that has one; the rows that are compared all have one.
abbrev pub attempt_time : EffectRow → ℕ
attempt_time e = or_else e.next_attempt_at_ms 0

-- ORDER BY next_attempt_at_ms, created_at_ms, effect_id
unfoldable pub due_before : EffectRow → EffectRow → Bool
unfolding created_before
due_before a b =
    if ltb (attempt_time a) (attempt_time b)
    then true
    else if ltb (attempt_time b) (attempt_time a)
    then false
    else created_before a b

unfoldable pub is_due : ℕ → EffectRow → Bool
unfolding is_open
is_due now_ms e =
    is_open e.state && (elim e.next_attempt_at_ms [ none ↦ false | some t ↦ leb t now_ms ])

unfoldable pub first_due_effect : ℕ → List EffectRow → Option EffectRow
unfolding is_due due_before
first_due_effect now_ms effects = first_by due_before (select (is_due now_ms) effects)

unfoldable pub is_scheduled : EffectRow → Bool
unfolding is_open
is_scheduled e = is_open e.state && (elim e.next_attempt_at_ms [ none ↦ false | some _ ↦ true ])

unfoldable pub set_next_alarm : ℕ → Coordinator → Coordinator
unfolding is_scheduled due_before
set_next_alarm now_ms c = record c {
  alarm =
      map? (λ (e : EffectRow). max (attempt_time e) now_ms)
        (first_by due_before (select is_scheduled c.effects));
}

-- completed_at_ms IS NOT NULL AND completed_at_ms < cutoff, where the cutoff may lie before 0.
unfoldable pub is_expired : ℕ → ExecutionRow → Bool
is_expired now_ms e = elim e.completed_at_ms [
  | none ↦ false
  | some t ↦ ltb (t + completed_execution_ttl_ms) now_ms
]

-- The effects whose execution is among the expired ones, and then those executions.
unfoldable pub prune_completed_executions : ℕ → Coordinator → Coordinator
unfolding is_expired
prune_completed_executions now_ms c = record c {
  effects =
      delete
        (λ (x : EffectRow).
          any_row (has_key execution_id x.source_event_id)
            (select (is_expired now_ms) c.executions))
        c.effects;
  executions = delete (is_expired now_ms) c.executions;
}
