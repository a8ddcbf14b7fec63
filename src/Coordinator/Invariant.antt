-- ===== src/Coordinator/Invariant.antt =====
-- How an UPDATE of effects and the refresh of executions keep the invariant.
use elmybot.Base.{
  ℕ, String, ◌≡◌, ◌≢◌, refl, sym, ap, ◌∙◌, Bool, List, Option, none, some, All, All-map_imp,
  is_some, map?, if◌then◌else◌,
}
use elmybot.Sql
use elmybot.Sql.{
  find, has_key, Distinct, update-All, update-Distinct, find-update, find-has_key, Distinct-find,
  count,
}
use elmybot.Coordinator.Types.{EffectRow, ExecutionRow, Coordinator, is_open, is_dead}
use elmybot.Coordinator.Storage.{
  execution_id, effect_id, idempotency_key, open_of, dead_of, settled_execution,
  update_execution_state,
}
use elmybot.Coordinator.Effects.{update_effect, refresh}
use elmybot.Coordinator.Agreement.{
  Agrees, HasSchedule, HasExecution, IsSound, IsValid, SameCounts, Agrees-SameCounts,
  update_execution_state-Agrees, update_effect-SameCounts, other_source,
}

-- An UPDATE that leaves the keys of a row and the event that it belongs to.
abbrev pub KeepsKeys : (EffectRow → EffectRow) → Type 0
KeepsKeys f =
    (x : EffectRow)
    → (effect_id (f x) ≡ effect_id x)
      × (idempotency_key (f x) ≡ idempotency_key x)
      × ((f x).source_event_id ≡ x.source_event_id)

module _ (p : EffectRow → Bool) (f : EffectRow → EffectRow) (keep : KeepsKeys f)
    (schedule : (x : EffectRow) → HasSchedule (f x)) where
  pub update-IsSound :
      (c : Coordinator) → IsSound c → IsSound (record c { effects = Sql.update p f c.effects })
  update-IsSound c v = record {
    executions_distinct = v.executions_distinct;
    effects_distinct = update-Distinct effect_id p f (λ x. (keep x).0) c.effects v.effects_distinct;
    keys_distinct = update-Distinct idempotency_key p f (λ x. (keep x).1) c.effects v.keys_distinct;
    owned = update-All (HasExecution c.executions) p f c.effects (λ x _ h. rw (keep x).2 h) v.owned;
    scheduled = update-All HasSchedule p f c.effects (λ x _ _. schedule x) v.scheduled;
  }

is_some-map :
    (f : ExecutionRow → ExecutionRow) (o : Option ExecutionRow) → is_some (map? f o) ≡ is_some o
is_some-map f none = refl
is_some-map f (some a) = refl

-- An UPDATE of executions that keeps their keys leaves each effect its execution.
HasExecution-update :
    (p : ExecutionRow → Bool) (f : ExecutionRow → ExecutionRow)
    → ((x : ExecutionRow) → execution_id (f x) ≡ execution_id x)
    → (executions : List ExecutionRow) (e : EffectRow) → HasExecution executions e
    → HasExecution (Sql.update p f executions) e
HasExecution-update p f keep executions e h =
    ap is_some (find-update execution_id p f keep e.source_event_id executions)
    ∙ is_some-map (λ x. if p x then f x else x) (find execution_id e.source_event_id executions)
    ∙ h

-- Refreshing an execution leaves it under its key.
pub refresh-IsSound :
    (source : String) (now : ℕ) (c : Coordinator) → IsSound c → IsSound (refresh source now c)
unfolding refresh update_execution_state settled_execution
refresh-IsSound source now c v =
    let n = count (open_of source) c.effects in
    let d = count (dead_of source) c.effects in
    record {
      executions_distinct =
          update-Distinct execution_id (has_key execution_id source) (settled_execution n d now)
            (λ x. refl) c.executions v.executions_distinct;
      effects_distinct = v.effects_distinct;
      keys_distinct = v.keys_distinct;
      owned =
          All-map_imp (HasExecution c.executions)
            (HasExecution (update_execution_state c.effects source now c.executions))
            (HasExecution-update (has_key execution_id source) (settled_execution n d now)
              (λ x. refl) c.executions)
            c.effects v.owned;
      scheduled = v.scheduled;
    }

-- After a change of the effects of one event, the refresh of that event restores the invariant.
pub refresh-IsValid :
    (before : List EffectRow) (source : String) (now : ℕ) (c : Coordinator)
    → IsSound c
    → All (Agrees before) c.executions
    → ((k : String) → k ≢ source → SameCounts before c.effects k)
    → IsValid (refresh source now c)
unfolding refresh
refresh-IsValid before source now c v a h = record {
  sound = refresh-IsSound source now c v;
  agree = update_execution_state-Agrees before c.effects source now c.executions h a;
}

module _ (id : String) (f : EffectRow → EffectRow) (keep : KeepsKeys f)
    (schedule : (x : EffectRow) → HasSchedule (f x)) (c : Coordinator) (r : EffectRow)
    (v : IsValid c) (e : find effect_id id c.effects ≡ some r) where
  -- An UPDATE of one effect, followed by the refresh of its event.
  pub update_effect-refresh-IsValid :
      (now : ℕ) → IsValid (refresh r.source_event_id now (update_effect id f c))
  unfolding update_effect
  update_effect-refresh-IsValid now =
      refresh-IsValid c.effects r.source_event_id now (update_effect id f c)
        (update-IsSound (has_key effect_id id) f keep schedule c v.sound) v.agree
        (λ k ne.
          let was = other_source k r ne in
          let is = other_source k (f r) (λ same. ne (same ∙ (keep r).2)) in
          update_effect-SameCounts id f c.effects r k v.sound.effects_distinct e (is.0 ∙ sym was.0)
            (is.1 ∙ sym was.1))

  -- An UPDATE of one effect that stays open.
  pub update_effect-IsValid :
      is_open (f r).state ≡ is_open r.state
      → is_dead (f r).state ≡ is_dead r.state
      → IsValid (update_effect id f c)
  unfolding update_effect open_of dead_of
  update_effect-IsValid o x = record {
    sound = update-IsSound (has_key effect_id id) f keep schedule c v.sound;
    agree =
        All-map_imp (Agrees c.effects) (Agrees (Sql.update (has_key effect_id id) f c.effects))
          (λ y a.
            Agrees-SameCounts c.effects (Sql.update (has_key effect_id id) f c.effects) y
              (update_effect-SameCounts id f c.effects r y.source_event_id v.sound.effects_distinct
                e (rw ((keep r).2, o)) (rw ((keep r).2, x)))
              a)
          c.executions v.agree;
  }
