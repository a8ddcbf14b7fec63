-- ===== src/Coordinator/Closing.antt =====
-- `deadLetterRemaining` gives up every open effect and completes every execution.
use elmybot.Base.{
  ℕ, ◌≡◌, ◌≢◌, refl, sym, subst, inl, inr, true, false, List, [], ◌∷◌, arith, is_some, All,
  All-map_imp, Bool-cases,
}
use elmybot.Sql.{update, count-zero, select}
use elmybot.Coordinator.Types.{
  EffectRow, ExecutionRow, ExecutionState, Coordinator, LastError, is_open,
}
use elmybot.Coordinator.Storage.{open_of, derived_state}
use elmybot.Coordinator.Effects.{
  dead_effect, is_open_row, dead_letter_remaining, refresh_all, refresh,
}
use elmybot.Coordinator.Agreement.{Agrees, IsValid}
use elmybot.Coordinator.Stopping.{dead_letter_remaining-IsValid}

closed_rows :
    (error : LastError) (effects : List EffectRow)
    → All (λ x. is_open_row x ≡ false) (update is_open_row (dead_effect error) effects)
unfolding update dead_effect is_open
closed_rows error [] = tt
closed_rows error (x ∷ xs) = elim (Bool-cases (is_open_row x)) [
  | inl o ↦ rw o (refl, closed_rows error xs)
  | inr closed ↦ rw closed (closed, closed_rows error xs)
]

refresh_all-effects :
    (es : List EffectRow) (now : ℕ) (c : Coordinator) → (refresh_all es now c).effects ≡ c.effects
unfolding refresh_all refresh
refresh_all-effects [] now c = refl
refresh_all-effects (e ∷ es) now c = refresh_all-effects es now (refresh e.source_event_id now c)

-- No effect stays open.
closes :
    (error : LastError) (now : ℕ) (c : Coordinator)
    → All (λ x. is_open_row x ≡ false) (dead_letter_remaining error now c).effects
unfolding dead_letter_remaining
closes error now c =
    subst (All (λ x. is_open_row x ≡ false))
      (sym (
        refresh_all-effects (select is_open_row c.effects) now
          (record c { effects = update is_open_row (dead_effect error) c.effects })))
      (closed_rows error c.effects)

-- An execution is over once none of its effects is open.
over :
    (effects : List EffectRow) (e : ExecutionRow)
    → All (λ x. is_open_row x ≡ false) effects
    → Agrees effects e
    → (e.state ≢ ExecutionState.pending) × (is_some e.completed_at_ms ≡ true)
unfolding derived_state open_of
over effects e closed a =
    let idle = count-zero (open_of e.source_event_id) effects (
      All-map_imp (λ x. is_open_row x ≡ false) (λ x. open_of e.source_event_id x ≡ false)
        (λ x h. ground (arith, h)) effects closed) in
    ((λ p. ground (arith, p, a.0, idle)), ground (arith, a.1, idle))

-- When the remaining effects are given up, no effect stays open, and every execution is completed,
-- with or without failures, and has its time of completion.
pub dead_letter_remaining-closes :
    (error : LastError) (now : ℕ) (c : Coordinator)
    → IsValid c
    → let c' = dead_letter_remaining error now c in
      All (λ x. is_open x.state ≡ false) c'.effects
      × All
          (λ e. (e.state ≢ ExecutionState.pending) × (is_some e.completed_at_ms ≡ true))
          c'.executions
dead_letter_remaining-closes error now c v =
    let c' = dead_letter_remaining error now c in
    let closed = closes error now c in
    (
      closed,
      All-map_imp (Agrees c'.effects)
          (λ e. (e.state ≢ ExecutionState.pending) × (is_some e.completed_at_ms ≡ true))
          (λ e a. over c'.effects e closed a) c'.executions
          (dead_letter_remaining-IsValid error now c v).agree,
    )
