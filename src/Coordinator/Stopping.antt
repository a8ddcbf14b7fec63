-- ===== src/Coordinator/Stopping.antt =====
-- `retryEffect` and `deadLetterRemaining` keep the invariant.
use elmybot.Base.{
  ℕ, String, ◌≡◌, refl, sym, subst, inl, inr, ◌⊎◌, true, false, List, [], ◌∷◌, Option, some, arith,
  ok, All, All-map_imp, text_eq, Bool-cases, Option-cases, text_eq→≡, eq_iff,
}
use elmybot.Sql
use elmybot.Sql.{
  find, first, first-All, has_key, Distinct-find, any_row, select, count, count-update,
  update-All-All, zero-count, select-All,
}
use elmybot.Coordinator.Types.{EffectRow, ExecutionRow, Coordinator, LastError, Report}
use elmybot.Coordinator.Storage.{
  execution_id, effect_id, idempotency_key, open_of, dead_of, settled_execution,
  update_execution_state,
}
use elmybot.Coordinator.Effects.{
  requeued, requeue, retry_effect, refresh, refresh_all, dead_effect, is_open_row,
  dead_letter_remaining,
}
use elmybot.Coordinator.Agreement.{
  Agrees, IsSound, IsValid, SameCounts, Agrees-SameCounts, settled-Agrees,
}
use elmybot.Coordinator.Invariant.{update-IsSound, refresh-IsSound, update_effect-refresh-IsValid}
use elmybot.Coordinator.Transitions.{requeued-keeps, dead-keeps}

-- An effect that is found by its idempotency key is found by its ID too.
by_key :
    (key : String) (c : Coordinator) (e : EffectRow)
    → IsValid c
    → find idempotency_key key c.effects ≡ some e
    → find effect_id e.effect_id c.effects ≡ some e
unfolding find
by_key key c e v h =
    first-All (λ x. find effect_id x.effect_id c.effects ≡ some x) (has_key idempotency_key key)
      c.effects (Distinct-find effect_id c.effects v.sound.effects_distinct) h

pub retry_effect-IsValid :
    (integration_id key : String) (now : ℕ) (c c' : Coordinator) (report : Option Report)
    → retry_effect integration_id key now c ≡ ok (c', report)
    → IsValid c
    → IsValid c'
unfolding retry_effect requeue
retry_effect-IsValid integration_id key now c c' report h v =
    elim (Option-cases (find idempotency_key key c.effects)) [
      | inl miss ↦ absurd (ground arith)
      | inr (e, hit) ↦
          let keeps = requeued-keeps now in
          subst IsValid (ground arith) (
            update_effect-refresh-IsValid e.effect_id (requeued now) keeps.0 keeps.1 c e v
              (by_key key c e v hit) now)
    ]

-- The execution agrees already, or its event is among those that are still to be refreshed.
abbrev Awaits : List EffectRow → List EffectRow → ExecutionRow → Type 0
Awaits effects todo x =
    Agrees effects x
    ⊎ (any_row (λ (e : EffectRow). text_eq x.source_event_id e.source_event_id) todo ≡ true)

refresh_step :
    (effects : List EffectRow) (e : EffectRow) (es : List EffectRow) (now : ℕ)
    (executions : List ExecutionRow)
    → All (Awaits effects (e ∷ es)) executions
    → All (Awaits effects es) (update_execution_state effects e.source_event_id now executions)
unfolding update_execution_state any_row
refresh_step effects e es now executions h =
    update-All-All (Awaits effects (e ∷ es)) (Awaits effects es)
      (has_key execution_id e.source_event_id)
      (settled_execution (count (open_of e.source_event_id) effects)
        (count (dead_of e.source_event_id) effects) now)
      executions
      (λ x hit _. inl (
        settled-Agrees effects now e.source_event_id x
          (sym (text_eq→≡ x.source_event_id e.source_event_id hit))))
      (λ x miss k. elim k [ inl a ↦ inl a | inr t ↦ inr (ground (arith, miss, t)) ]) h

refresh_all-Agrees :
    (es : List EffectRow) (now : ℕ) (c : Coordinator)
    → IsSound c
    → All (Awaits c.effects es) c.executions
    → IsValid (refresh_all es now c)
unfolding refresh_all refresh any_row
refresh_all-Agrees [] now c v h = record {
  sound = v;
  agree =
      All-map_imp (Awaits c.effects []) (Agrees c.effects)
        (λ x k. elim k [ inl a ↦ a | inr t ↦ absurd (ground (arith, t)) ]) c.executions h;
}
refresh_all-Agrees (e ∷ es) now c v h =
    refresh_all-Agrees es now (refresh e.source_event_id now c)
      (refresh-IsSound e.source_event_id now c v) (refresh_step c.effects e es now c.executions h)

idle_row :
    (source : String) (x : EffectRow)
    → open_of source x ≡ false
    → is_open_row x ≡ true
    → text_eq x.source_event_id source ≡ false
unfolding open_of
idle_row source x idle o = ground (arith, idle, o)

dead_counts :
    (error : LastError) (source : String) (x : EffectRow)
    → text_eq x.source_event_id source ≡ false
    → (open_of source (dead_effect error x) ≡ open_of source x)
      × (dead_of source (dead_effect error x) ≡ dead_of source x)
unfolding open_of dead_of dead_effect
dead_counts error source x h = (rw h, rw h)

-- An event without an open effect is not touched.
untouched :
    (error : LastError) (effects : List EffectRow) (source : String)
    → count (open_of source) effects ≡ 0
    → SameCounts effects (Sql.update is_open_row (dead_effect error) effects) source
untouched error effects source none_open =
    let idle = zero-count (open_of source) effects none_open in
    (
      count-update (open_of source) is_open_row (dead_effect error) effects (
          All-map_imp (λ x. open_of source x ≡ false)
            (λ x. is_open_row x ≡ true → open_of source (dead_effect error x) ≡ open_of source x)
            (λ x h o. (dead_counts error source x (idle_row source x h o)).0) effects idle),
      count-update (dead_of source) is_open_row (dead_effect error) effects (
          All-map_imp (λ x. open_of source x ≡ false)
            (λ x. is_open_row x ≡ true → dead_of source (dead_effect error x) ≡ dead_of source x)
            (λ x h o. (dead_counts error source x (idle_row source x h o)).1) effects idle),
    )

-- An event with an open effect is among the rows that the SELECT gives.
selected :
    (effects : List EffectRow) (source : String)
    → (count (open_of source) effects ≡ 0)
      ⊎ (any_row (λ (e : EffectRow). text_eq source e.source_event_id) (select is_open_row effects)
          ≡ true)
unfolding count select any_row open_of
selected [] source = inl refl
selected (e ∷ es) source = elim (Bool-cases (is_open_row e)) [
  | inr closed ↦ elim (selected es source) [
    | inl zero_open ↦ inl (ground (arith, closed, zero_open))
    | inr t ↦ inr (rw closed t)
  ]
  | inl o ↦ elim (Bool-cases (text_eq source e.source_event_id)) [
    | inl same ↦ inr (rw (o, same))
    | inr other ↦ elim (selected es source) [
      | inl zero_open ↦ inl (
          ground (
            arith,
            o,
            other,
            zero_open,
            eq_iff source e.source_event_id,
            eq_iff e.source_event_id source,
          ))
      | inr t ↦ inr (rw (o, other) t)
    ]
  ]
]

-- Giving up the remaining effects keeps the invariant.
pub dead_letter_remaining-IsValid :
    (error : LastError) (now : ℕ) (c : Coordinator)
    → IsValid c
    → IsValid (dead_letter_remaining error now c)
unfolding dead_letter_remaining
dead_letter_remaining-IsValid error now c v =
    let dead = Sql.update is_open_row (dead_effect error) c.effects in
    let keeps = dead-keeps error in
    refresh_all-Agrees (select is_open_row c.effects) now (record c { effects = dead })
      (update-IsSound is_open_row (dead_effect error) keeps.0 keeps.1 c v.sound)
      (All-map_imp (Agrees c.effects) (Awaits dead (select is_open_row c.effects))
        (λ x a. elim (selected c.effects x.source_event_id) [
          | inl none_open ↦ inl (
              Agrees-SameCounts c.effects dead x
                (untouched error c.effects x.source_event_id none_open) a)
          | inr t ↦ inr t
        ])
        c.executions v.agree)
