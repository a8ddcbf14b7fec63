-- ===== src/Coordinator/Commits.antt =====
-- The transaction of `submit` keeps the invariant.
use elmybot.Base.{
  ℕ, String, ◌≡◌, ◌≢◌, refl, sym, ap, ◌∙◌, subst, inl, inr, true, false, not, List, [], ◌∷◌, ◌++◌,
  Option, none, some, arith, ok, All, All-map_imp, All-append, All-both, is_some, text_eq_refl,
  Option-cases, length, ltb, first_some, Result-cases, eq_iff,
}
use elmybot.Sql.{
  find, find-has_key, has_key, Distinct, insert-Distinct, count, count-append, count-zero,
  find-append, find-none→All,
}
use elmybot.Coordinator.Types.{
  EffectState, ExecutionState, completed, EffectRow, ExecutionRow, Coordinator, Effect, Execution,
  Report, is_open, is_dead,
}
use elmybot.Coordinator.Storage.{execution_id, open_of, dead_of, derived_state, execution_status}
use elmybot.Coordinator.Submit.{
  ensure_coordinator_identity, replay_of, replay_if_present, insert_effects, new_execution,
  store_execution, commit,
}
use elmybot.Coordinator.Agreement.{
  Agrees, HasSchedule, HasExecution, IsValid, SameCounts, Agrees-SameCounts,
}
use elmybot.Coordinator.Agreement.{other_source}
use elmybot.Coordinator.Committing.{IsNew, Inserted, insert_effects-Inserted}

-- The new effects of an event are all open, and none is a dead letter.
new_own :
    (execution : Execution) (x : EffectRow)
    → IsNew execution x
    → (open_of execution.source_event_id x ≡ true) × (dead_of execution.source_event_id x ≡ false)
unfolding open_of dead_of is_open is_dead
new_own execution x h = (
  rw (h.0, h.1, text_eq_refl execution.source_event_id),
  rw (h.0, h.1, text_eq_refl execution.source_event_id),
)

count_new_own :
    (execution : Execution) (rows : List EffectRow)
    → All (IsNew execution) rows
    → (count (open_of execution.source_event_id) rows ≡ length rows)
      × (count (dead_of execution.source_event_id) rows ≡ 0)
unfolding count
count_new_own execution [] h = (refl, refl)
count_new_own execution (x ∷ xs) h =
    let own = new_own execution x h.0 in
    let rest = count_new_own execution xs h.1 in (rw (own.0, rest.0), rw (own.1, rest.1))

-- Effects of other events count for nothing.
count_other :
    (source : String) (rows : List EffectRow)
    → All (λ x. source ≢ x.source_event_id) rows
    → (count (open_of source) rows ≡ 0) × (count (dead_of source) rows ≡ 0)
count_other source rows h = (
  count-zero (open_of source) rows (
      All-map_imp (λ x. source ≢ x.source_event_id) (λ x. open_of source x ≡ false)
        (λ x ne. (other_source source x ne).0) rows h),
  count-zero (dead_of source) rows (
      All-map_imp (λ x. source ≢ x.source_event_id) (λ x. dead_of source x ≡ false)
        (λ x ne. (other_source source x ne).1) rows h),
)

-- Where an event has no execution it has no effects.
unowned :
    (source : String) (executions : List ExecutionRow) (effects : List EffectRow)
    → find execution_id source executions ≡ none
    → All (HasExecution executions) effects
    → All (λ x. source ≢ x.source_event_id) effects
unowned source executions effects miss owned =
    All-map_imp (HasExecution executions) (λ x. source ≢ x.source_event_id)
      (λ x h same.
        let gone : find execution_id x.source_event_id executions ≡ none =
          subst (λ k. find execution_id k executions ≡ none) same miss in
        absurd (ground (arith, gone, h)))
      effects owned

module _ (execution : Execution) (fingerprint : String) (accepted : ℕ)
    (executions : List ExecutionRow) (effects effects' : List EffectRow)
    (miss : find execution_id execution.source_event_id executions ≡ none)
    (owned : All (HasExecution executions) effects)
    (inserted : Inserted execution execution.effects effects effects') where
  abbrev source : String
  source = execution.source_event_id

  abbrev stored : ExecutionRow
  stored = new_execution execution fingerprint accepted

  new_counts :
      (count (open_of source) effects' ≡ length execution.effects)
      × (count (dead_of source) effects' ≡ 0)
  new_counts =
      let old = count_other source effects (unowned source executions effects miss owned) in
      let new = count_new_own execution inserted.rows inserted.are_new in
      let o = count-append (open_of source) effects inserted.rows in
      let d = count-append (dead_of source) effects inserted.rows in
      (
        ap (count (open_of source)) inserted.appended
            ∙ omega (arith, o, old.0, new.0, inserted.as_many),
        ap (count (dead_of source)) inserted.appended ∙ omega (arith, d, old.1, new.1),
      )

  new_execution-Agrees : Agrees effects' stored
  unfolding new_execution derived_state
  new_execution-Agrees = rw (new_counts.0, new_counts.1) (by_effects execution.effects)
    where
      by_effects :
          (es : List Effect)
          → ((elim es [ [] ↦ completed | _ ↦ ExecutionState.pending ])
              ≡ derived_state (length es) 0)
            × (is_some (elim es [ [] ↦ some accepted | _ ↦ none ]) ≡ not (ltb 0 (length es)))
      by_effects [] = (refl, refl)
      by_effects (e ∷ es) = (ground arith, ground arith)

  old-SameCounts : (k : String) → k ≢ source → SameCounts effects effects' k
  old-SameCounts k ne =
      let others = count_other k inserted.rows (
        All-map_imp (IsNew execution) (λ x. k ≢ x.source_event_id) (λ x h same. ne (same ∙ h.0))
          inserted.rows inserted.are_new) in
      let o = count-append (open_of k) effects inserted.rows in
      let d = count-append (dead_of k) effects inserted.rows in
      (
        ap (count (open_of k)) inserted.appended ∙ omega (arith, o, others.0),
        ap (count (dead_of k)) inserted.appended ∙ omega (arith, d, others.1),
      )

  old-Agrees : All (Agrees effects) executions → All (Agrees effects') executions
  old-Agrees a =
      All-map_imp (λ x. Agrees effects x × (has_key execution_id source x ≡ false))
        (Agrees effects')
        (λ x h.
          Agrees-SameCounts effects effects' x
            (old-SameCounts x.source_event_id
              (λ same. absurd (ground (arith, h.1, same, eq_iff x.source_event_id source))))
            h.0)
        executions
        (All-both (Agrees effects) (λ x. has_key execution_id source x ≡ false) executions a
          (find-none→All execution_id source executions miss))

  effects_owned : All (HasExecution (executions ++ stored ∷ [])) effects'
  unfolding find new_execution
  effects_owned = subst (All (HasExecution (executions ++ stored ∷ []))) (sym inserted.appended) (
      All-append (HasExecution (executions ++ stored ∷ [])) effects inserted.rows
        (All-map_imp (HasExecution executions) (HasExecution (executions ++ stored ∷ []))
          (λ x h.
            ap is_some (find-append execution_id x.source_event_id executions (stored ∷ []))
            ∙ some_first (find execution_id x.source_event_id executions)
                (find execution_id x.source_event_id (stored ∷ [])) h)
          effects owned)
        (All-map_imp (IsNew execution) (HasExecution (executions ++ stored ∷ []))
          (λ x h.
            ap is_some (find-append execution_id x.source_event_id executions (stored ∷ []))
            ∙ rw (h.0, miss, text_eq_refl source))
          inserted.rows inserted.are_new))
    where
      some_first : (a b : Option ExecutionRow) → is_some a ≡ true → is_some (first_some a b) ≡ true
      some_first none b h = absurd (ground (arith, h))
      some_first (some a) b h = refl

  effects_scheduled : All HasSchedule effects → All HasSchedule effects'
  unfolding is_open
  effects_scheduled s = subst (All HasSchedule) (sym inserted.appended) (
      All-append HasSchedule effects inserted.rows s (
        All-map_imp (IsNew execution) HasSchedule (λ x h. new_schedule x h.1 h.2) inserted.rows
          inserted.are_new))
    where
      new_schedule :
          (x : EffectRow)
          → x.state ≡ EffectState.pending
          → is_some x.next_attempt_at_ms ≡ true
          → HasSchedule x
      new_schedule x p t = rw p t

  inserted-IsValid :
      (c : Coordinator) (id : Option String)
      → c.executions ≡ executions
      → c.effects ≡ effects
      → IsValid c
      → IsValid (record c {
        integration_id = id;
        executions = executions ++ stored ∷ [];
        effects = effects';
      })
  unfolding new_execution
  inserted-IsValid c id same_x same_e v = record {
    sound = record {
      executions_distinct =
          insert-Distinct execution_id executions stored
            (subst (Distinct execution_id) same_x v.sound.executions_distinct) miss;
      effects_distinct = inserted.ids;
      keys_distinct = inserted.keys;
      owned = effects_owned;
      scheduled = effects_scheduled (subst (All HasSchedule) same_e v.sound.scheduled);
    };
    agree =
        All-append (Agrees effects') executions (stored ∷ [])
          (old-Agrees (rw (← same_x, ← same_e) v.agree)) (new_execution-Agrees, tt);
  }

store_execution-IsValid :
    (execution : Execution) (fingerprint : String) (accepted : ℕ) (uuids : ℕ → String)
    (c c' : Coordinator)
    → find execution_id execution.source_event_id c.executions ≡ none
    → store_execution execution fingerprint accepted uuids c ≡ ok c'
    → IsValid c
    → IsValid c'
unfolding store_execution ensure_coordinator_identity
store_execution-IsValid execution fingerprint accepted uuids c c' miss h v =
    elim (Result-cases (insert_effects execution accepted uuids execution.effects c.effects)) [
      | inl (bad, fails) ↦ absurd (ground arith)
      | inr (effects', goes) ↦
          let inserted =
            insert_effects-Inserted execution accepted uuids execution.effects c.effects effects'
              goes v.sound.effects_distinct v.sound.keys_distinct in
          subst IsValid (ground arith) (
            inserted-IsValid execution fingerprint accepted c.executions c.effects effects' miss
              v.sound.owned inserted c (some execution.integration_id) refl refl v)
    ]

-- A transaction that finds no execution of the event goes on to store one.
pub replay_if_present-miss :
    (execution : Execution) (fingerprint : String) (c : Coordinator)
    → replay_if_present execution fingerprint c ≡ ok none
    → find execution_id execution.source_event_id c.executions ≡ none
unfolding replay_if_present replay_of execution_status
replay_if_present-miss execution fingerprint c h =
    elim (Option-cases (find execution_id execution.source_event_id c.executions)) [
      | inl miss ↦ miss
      | inr (x, hit) ↦
          let again : find execution_id x.source_event_id c.executions ≡ some x =
            ap (λ k. find execution_id k c.executions)
              (find-has_key execution_id execution.source_event_id c.executions hit)
            ∙ hit in
          absurd (ground (arith, again))
    ]

pub commit-IsValid :
    (execution : Execution) (fingerprint : String) (accepted : ℕ) (uuids : ℕ → String)
    (c c' : Coordinator) (report : Option Report)
    → commit execution fingerprint accepted uuids c ≡ ok (c', report)
    → IsValid c
    → IsValid c'
unfolding commit
commit-IsValid execution fingerprint accepted uuids c c' report h v =
    elim (Result-cases (replay_if_present execution fingerprint c)) [
      | inl (bad, fails) ↦ absurd (ground arith)
      | inr (some again, replays) ↦ subst IsValid (ground arith) v
      | inr (none, fresh) ↦
          elim (Result-cases (store_execution execution fingerprint accepted uuids c)) [
            | inl (bad, fails) ↦ absurd (ground arith)
            | inr (stored, goes) ↦ subst IsValid (ground arith) (
                store_execution-IsValid execution fingerprint accepted uuids c stored
                  (replay_if_present-miss execution fingerprint c fresh) goes v)
          ]
    ]
