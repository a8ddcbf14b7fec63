-- ===== src/Coordinator/Pruning.antt =====
-- `pruneCompletedExecutions` keeps the invariant.
use elmybot.Base.{
  ℕ, String, ◌≡◌, ap, ◌∙◌, inl, inr, Bool, true, false, not, List, some, arith, All-map_imp,
  All-both, All-every, ◌⊎◌, is_some, text_eq→≡, Bool-cases, Option-cases,
}
use elmybot.Sql.{
  find, has_key, Distinct-find, delete, delete-All, delete-Distinct, select, select-holds, any_row,
  any_row-find, find-select-miss, find-delete-some, find-select-some, count-select,
}
use elmybot.Coordinator.Types.{EffectRow, ExecutionRow, Coordinator}
use elmybot.Coordinator.Storage.{
  execution_id, effect_id, idempotency_key, open_of, dead_of, is_expired,
  prune_completed_executions,
}
use elmybot.Coordinator.Agreement.{
  Agrees, HasSchedule, HasExecution, IsValid, SameCounts, Agrees-SameCounts,
}

module _ (now : ℕ) (c : Coordinator) (v : IsValid c) where
  expired : List ExecutionRow
  expired = select (is_expired now) c.executions

  -- The effect's execution is expired.
  abbrev doomed : EffectRow → Bool
  doomed x = any_row (has_key execution_id x.source_event_id) expired

  -- An execution that stays has no expired one under its key.
  spared :
      (e : ExecutionRow)
      → find execution_id e.source_event_id c.executions ≡ some e
      → is_expired now e ≡ false
      → any_row (has_key execution_id e.source_event_id) expired ≡ false
  unfolding expired
  spared e found stays =
      any_row-find execution_id e.source_event_id expired
      ∙ ap is_some (
          find-select-miss execution_id e.source_event_id (is_expired now) c.executions e
            v.sound.executions_distinct found stays)

  of_source :
      (source : String) (x : EffectRow)
      → (open_of source x ≡ true) ⊎ (dead_of source x ≡ true)
      → x.source_event_id ≡ source
  unfolding open_of dead_of
  of_source source x (inl h) = text_eq→≡ x.source_event_id source (ground (arith, h))
  of_source source x (inr h) = text_eq→≡ x.source_event_id source (ground (arith, h))

  kept_of :
      (source : String) (x : EffectRow)
      → any_row (has_key execution_id source) expired ≡ false
      → x.source_event_id ≡ source
      → not (doomed x) ≡ true
  kept_of source x h same = rw (same, h)

  kept-SameCounts :
      (e : ExecutionRow)
      → find execution_id e.source_event_id c.executions ≡ some e
      → is_expired now e ≡ false
      → SameCounts c.effects (delete doomed c.effects) e.source_event_id
  unfolding delete
  kept-SameCounts e found stays =
      let source = e.source_event_id in
      let none_expired = spared e found stays in
      (
        count-select (open_of source) (λ x. not (doomed x)) c.effects
            (All-every (λ x. open_of source x ≡ true → not (doomed x) ≡ true)
              (λ x h. kept_of source x none_expired (of_source source x (inl h))) c.effects),
        count-select (dead_of source) (λ x. not (doomed x)) c.effects
            (All-every (λ x. dead_of source x ≡ true → not (doomed x) ≡ true)
              (λ x h. kept_of source x none_expired (of_source source x (inr h))) c.effects),
      )

  -- An effect that stays still has its execution.
  kept-HasExecution :
      (x : EffectRow)
      → HasExecution c.executions x
      → not (doomed x) ≡ true
      → HasExecution (delete (is_expired now) c.executions) x
  unfolding expired
  kept-HasExecution x h stays =
      elim (Option-cases (find execution_id x.source_event_id c.executions)) [
        | inl miss ↦ absurd (ground (arith, miss, h))
        | inr (e, hit) ↦ elim (Bool-cases (is_expired now e)) [
          | inr fresh ↦ ap is_some (
              find-delete-some execution_id x.source_event_id (is_expired now) c.executions e hit
                fresh)
          | inl old ↦
              let there =
                any_row-find execution_id x.source_event_id expired
                ∙ ap is_some (
                    find-select-some execution_id x.source_event_id (is_expired now) c.executions e
                      hit old) in
              absurd (ground (arith, there, stays))
        ]
      ]

  fresh_of : (e : ExecutionRow) → not (is_expired now e) ≡ true → is_expired now e ≡ false
  fresh_of e h = ground (arith, h)

  pub prune-IsValid : IsValid (prune_completed_executions now c)
  unfolding prune_completed_executions expired delete
  prune-IsValid = record {
    sound = record {
      executions_distinct =
          delete-Distinct execution_id (is_expired now) c.executions v.sound.executions_distinct;
      effects_distinct = delete-Distinct effect_id doomed c.effects v.sound.effects_distinct;
      keys_distinct = delete-Distinct idempotency_key doomed c.effects v.sound.keys_distinct;
      owned =
          All-map_imp (λ x. HasExecution c.executions x × (not (doomed x) ≡ true))
            (HasExecution (delete (is_expired now) c.executions))
            (λ x h. kept-HasExecution x h.0 h.1) (delete doomed c.effects)
            (All-both (HasExecution c.executions) (λ x. not (doomed x) ≡ true)
              (delete doomed c.effects)
              (delete-All (HasExecution c.executions) doomed c.effects v.sound.owned)
              (select-holds (λ x. not (doomed x)) c.effects));
      scheduled = delete-All HasSchedule doomed c.effects v.sound.scheduled;
    };
    agree =
        All-map_imp
          (λ e.
            (Agrees c.effects e × (find execution_id e.source_event_id c.executions ≡ some e))
            × (not (is_expired now e) ≡ true))
          (Agrees (delete doomed c.effects))
          (λ e h.
            Agrees-SameCounts c.effects (delete doomed c.effects) e
              (kept-SameCounts e h.0.1 (fresh_of e h.1)) h.0.0)
          (delete (is_expired now) c.executions)
          (All-both
            (λ e. Agrees c.effects e × (find execution_id e.source_event_id c.executions ≡ some e))
            (λ e. not (is_expired now e) ≡ true) (delete (is_expired now) c.executions)
            (All-both (Agrees c.effects)
              (λ e. find execution_id e.source_event_id c.executions ≡ some e)
              (delete (is_expired now) c.executions)
              (delete-All (Agrees c.effects) (is_expired now) c.executions v.agree)
              (delete-All (λ e. find execution_id e.source_event_id c.executions ≡ some e)
                (is_expired now) c.executions
                (Distinct-find execution_id c.executions v.sound.executions_distinct)))
            (select-holds (λ e. not (is_expired now e)) c.executions));
  }
