-- ===== src/Coordinator/Agreement.antt =====
-- The invariant of the coordinator: keys, schedules, and that the state of each execution is the
-- one that its effects give.
use elmybot.Base.{
  ℕ, String, ◌≡◌, ◌≢◌, refl, sym, subst, true, false, not, List, none, some, arith, All,
  All-map_imp, is_some, text_eq→≡, text_ne, ltb, if◌then◌else◌, eq_iff,
}
use elmybot.Sql
use elmybot.Sql.{find, has_key, Distinct, Distinct-only, count, count-update, update-All-All}
use elmybot.Coordinator.Types.{EffectRow, ExecutionRow, Coordinator, is_open}
use elmybot.Coordinator.Storage.{
  execution_id, effect_id, idempotency_key, open_of, dead_of, derived_state, settled_execution,
  update_execution_state,
}

-- The execution's state and its time of completion are those of its effects.
abbrev pub Agrees : List EffectRow → ExecutionRow → Type 0
Agrees effects e =
    (e.state
      ≡ derived_state (count (open_of e.source_event_id) effects)
          (count (dead_of e.source_event_id) effects))
    × (is_some e.completed_at_ms ≡ not (ltb 0 (count (open_of e.source_event_id) effects)))

-- An effect has a time for its next attempt exactly if it is open.
abbrev pub HasSchedule : EffectRow → Type 0
HasSchedule e = is_some e.next_attempt_at_ms ≡ is_open e.state

abbrev pub HasExecution : List ExecutionRow → EffectRow → Type 0
HasExecution executions e = is_some (find execution_id e.source_event_id executions) ≡ true

-- Keys are unique, each effect has its execution, and each effect the schedule of its state.
pub record IsSound (c : Coordinator) : Type 0 where
  pub executions_distinct : Distinct execution_id c.executions
  pub effects_distinct : Distinct effect_id c.effects
  pub keys_distinct : Distinct idempotency_key c.effects
  pub owned : All (HasExecution c.executions) c.effects
  pub scheduled : All HasSchedule c.effects

pub record IsValid (c : Coordinator) : Type 0 where
  pub sound : IsSound c
  pub agree : All (Agrees c.effects) c.executions

-- As many effects of that event are open, and as many dead letters, as before.
abbrev pub SameCounts : List EffectRow → List EffectRow → String → Type 0
SameCounts before after source =
    (count (open_of source) after ≡ count (open_of source) before)
    × (count (dead_of source) after ≡ count (dead_of source) before)

pub Agrees-SameCounts :
    (before after : List EffectRow) (e : ExecutionRow)
    → SameCounts before after e.source_event_id
    → Agrees before e
    → Agrees after e
Agrees-SameCounts before after e h a = rw (h.0, h.1) a

pub settled-Agrees :
    (after : List EffectRow) (now : ℕ) (source : String) (e : ExecutionRow)
    → source ≡ e.source_event_id
    → Agrees after
        (settled_execution (count (open_of source) after) (count (dead_of source) after) now e)
unfolding settled_execution
settled-Agrees after now source e same = rw (← same) (refl, no_time (count (open_of source) after))
  where
    no_time : (n : ℕ) → is_some (if ltb 0 n then none else some now) ≡ not (ltb 0 n)
    no_time n = ground arith

-- `updateExecutionState` makes the execution of the event agree, and the others agree if their
-- effects are as before.
pub update_execution_state-Agrees :
    (before after : List EffectRow) (source : String) (now : ℕ) (executions : List ExecutionRow)
    → ((k : String) → k ≢ source → SameCounts before after k)
    → All (Agrees before) executions
    → All (Agrees after) (update_execution_state after source now executions)
unfolding update_execution_state
update_execution_state-Agrees before after source now executions h a =
    update-All-All (Agrees before) (Agrees after) (has_key execution_id source)
      (settled_execution (count (open_of source) after) (count (dead_of source) after) now)
      executions
      (λ e hit _. settled-Agrees after now source e (sym (text_eq→≡ e.source_event_id source hit)))
      (λ e miss k.
        Agrees-SameCounts before after e
          (h e.source_event_id
            (λ same. absurd (ground (arith, miss, same, eq_iff e.source_event_id source))))
          k)
      a

-- The row under an ID, for a predicate of all rows with it.
pub at_row {ℓ} :
    (Q : EffectRow → Type ℓ) (id : String) (effects : List EffectRow) (r : EffectRow)
    → Distinct effect_id effects
    → find effect_id id effects ≡ some r
    → Q r
    → All (λ x. has_key effect_id id x ≡ true → Q x) effects
at_row Q id effects r d e q =
    All-map_imp (λ x. has_key effect_id id x ≡ true → x ≡ r)
      (λ x. has_key effect_id id x ≡ true → Q x) (λ x only h. subst Q (sym (only h)) q) effects
      (Distinct-only effect_id id effects r d e)

-- The counts of an event under an UPDATE of one effect that leaves its share of them.
pub update_effect-SameCounts :
    (id : String) (f : EffectRow → EffectRow) (effects : List EffectRow) (r : EffectRow)
    (source : String)
    → Distinct effect_id effects
    → find effect_id id effects ≡ some r
    → open_of source (f r) ≡ open_of source r
    → dead_of source (f r) ≡ dead_of source r
    → SameCounts effects (Sql.update (has_key effect_id id) f effects) source
update_effect-SameCounts id f effects r source d e o x = (
  count-update (open_of source) (has_key effect_id id) f effects
      (at_row (λ y. open_of source (f y) ≡ open_of source y) id effects r d e o),
  count-update (dead_of source) (has_key effect_id id) f effects
      (at_row (λ y. dead_of source (f y) ≡ dead_of source y) id effects r d e x),
)

-- An effect counts only for its own event.
pub other_source :
    (source : String) (r : EffectRow)
    → source ≢ r.source_event_id
    → (open_of source r ≡ false) × (dead_of source r ≡ false)
unfolding open_of dead_of
other_source source r h =
    let ne = text_ne r.source_event_id source (λ e. h (sym e)) in (rw ne, rw ne)
