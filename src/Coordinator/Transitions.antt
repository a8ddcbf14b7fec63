-- ===== src/Coordinator/Transitions.antt =====
-- A claim, a completion and a failure keep the invariant.
use elmybot.Base.{
  ℕ, String, ◌≡◌, refl, sym, ◌∙◌, subst, inl, inr, true, false, some, arith, Bool-cases,
  Option-cases,
}
use elmybot.Sql.{find}
use elmybot.Coordinator.Types.{
  EffectState, EffectRow, Coordinator, Failure, LastError, is_open, is_dead, is_attempting,
}
use elmybot.Coordinator.Storage.{effect_id, stored_error}
use elmybot.Coordinator.Effects.{
  requeued, leased, claim_effect, is_in_flight, delivered_effect, complete_effect, waiting_effect,
  dead_effect, is_final, fail_current, fail_effect,
}
use elmybot.Coordinator.Agreement.{HasSchedule, IsValid}
use elmybot.Coordinator.Invariant.{KeepsKeys, update_effect-refresh-IsValid, update_effect-IsValid}

pub requeued-keeps :
    (now : ℕ) → KeepsKeys (requeued now) × ((x : EffectRow) → HasSchedule (requeued now x))
unfolding requeued is_open
requeued-keeps now = ((λ x. (refl, refl, refl)), λ x. refl)

leased-keeps : (now : ℕ) → KeepsKeys (leased now) × ((x : EffectRow) → HasSchedule (leased now x))
unfolding leased is_open
leased-keeps now = ((λ x. (refl, refl, refl)), λ x. refl)

delivered-keeps :
    (result : String) (now : ℕ)
    → KeepsKeys (delivered_effect result now)
      × ((x : EffectRow) → HasSchedule (delivered_effect result now x))
unfolding delivered_effect is_open
delivered-keeps result now = ((λ x. (refl, refl, refl)), λ x. refl)

waiting-keeps :
    (failure : Failure) (now : ℕ)
    → KeepsKeys (waiting_effect failure now)
      × ((x : EffectRow) → HasSchedule (waiting_effect failure now x))
unfolding waiting_effect is_open
waiting-keeps failure now = ((λ x. (refl, refl, refl)), λ x. refl)

pub dead-keeps :
    (error : LastError)
    → KeepsKeys (dead_effect error) × ((x : EffectRow) → HasSchedule (dead_effect error x))
unfolding dead_effect is_open
dead-keeps error = ((λ x. (refl, refl, refl)), λ x. refl)

open-dead : (s : EffectState) → is_open s ≡ true → is_dead s ≡ false
unfolding is_open is_dead
open-dead s h = ground arith

leased-open :
    (now : ℕ) (r : EffectRow)
    → is_open r.state ≡ true
    → (is_open (leased now r).state ≡ is_open r.state)
      × (is_dead (leased now r).state ≡ is_dead r.state)
unfolding leased is_open is_dead
leased-open now r o = (sym o, sym (open-dead r.state o))

pub claim_effect-IsValid :
    (id : String) (now : ℕ) (c c' : Coordinator) (e : EffectRow)
    → claim_effect id now c ≡ some (e, c')
    → IsValid c
    → IsValid c'
unfolding claim_effect
claim_effect-IsValid id now c c' e h v = elim (Option-cases (find effect_id id c.effects)) [
  | inl miss ↦ absurd (ground arith)
  | inr (r, hit) ↦ elim (Bool-cases (is_open r.state)) [
    | inr closed ↦ absurd (ground arith)
    | inl o ↦
        let keeps = leased-keeps now in
        let same = leased-open now r o in
        subst IsValid (ground arith)
          (update_effect-IsValid id (leased now) keeps.0 keeps.1 c r v hit same.0 same.1)
  ]
]

in_flight :
    (id : String) (c : Coordinator)
    → is_in_flight id c ≡ true
    → (r : EffectRow) × (find effect_id id c.effects ≡ some r) × (is_attempting r.state ≡ true)
unfolding is_in_flight
in_flight id c h = elim (Option-cases (find effect_id id c.effects)) [
  | inl miss ↦ absurd (ground arith)
  | inr (r, hit) ↦ (r, hit, ground arith)
]

-- What is reported on is an effect of the event that it names, if the effect is still there.
abbrev pub IsAbout : EffectRow → Coordinator → Type 0
IsAbout claimed c =
    (r : EffectRow)
    → find effect_id claimed.effect_id c.effects ≡ some r
    → claimed.source_event_id ≡ r.source_event_id

pub complete_effect-IsValid :
    (claimed : EffectRow) (result : String) (now : ℕ) (c : Coordinator)
    → IsAbout claimed c
    → IsValid c
    → IsValid (complete_effect claimed result now c)
unfolding complete_effect
complete_effect-IsValid claimed result now c about v =
    elim (Bool-cases (is_in_flight claimed.effect_id c)) [
      | inr no_flight ↦ rw no_flight v
      | inl flight ↦
          let (r, hit, _) = in_flight claimed.effect_id c flight in
          let keeps = delivered-keeps result now in
          rw (flight, about r hit)
            (update_effect-refresh-IsValid claimed.effect_id (delivered_effect result now) keeps.0
              keeps.1 c r v hit now)
    ]

attempting_open :
    (s : EffectState) → is_attempting s ≡ true → (is_open s ≡ true) × (is_dead s ≡ false)
unfolding is_attempting is_open is_dead
attempting_open s h = ground arith

waiting-open :
    (failure : Failure) (now : ℕ) (r : EffectRow)
    → (is_open (waiting_effect failure now r).state ≡ true)
      × (is_dead (waiting_effect failure now r).state ≡ false)
unfolding waiting_effect is_open is_dead
waiting-open failure now r = (refl, refl)

fail_current-IsValid :
    (claimed : EffectRow) (failure : Failure) (now : ℕ) (c : Coordinator) (r : EffectRow)
    → find effect_id claimed.effect_id c.effects ≡ some r
    → claimed.source_event_id ≡ r.source_event_id
    → IsValid c
    → IsValid (fail_current claimed failure now c r)
unfolding fail_current
fail_current-IsValid claimed failure now c r hit same v =
    elim (Bool-cases (is_attempting r.state)) [
      | inr idle ↦ rw idle v
      | inl flight ↦ elim (Bool-cases (is_final failure r)) [
        | inl stop ↦
            let keeps = dead-keeps (stored_error failure now) in
            rw (flight, stop, same)
              (update_effect-refresh-IsValid claimed.effect_id
                (dead_effect (stored_error failure now)) keeps.0 keeps.1 c r v hit now)
        | inr go ↦
            let keeps = waiting-keeps failure now in
            let was = attempting_open r.state flight in
            let is = waiting-open failure now r in
            rw (flight, go)
              (update_effect-IsValid claimed.effect_id (waiting_effect failure now) keeps.0 keeps.1
                c r v hit (is.0 ∙ sym was.0) (is.1 ∙ sym was.1))
      ]
    ]

pub fail_effect-IsValid :
    (claimed : EffectRow) (failure : Failure) (now : ℕ) (c : Coordinator)
    → IsAbout claimed c
    → IsValid c
    → IsValid (fail_effect claimed failure now c)
unfolding fail_effect
fail_effect-IsValid claimed failure now c about v =
    elim (Option-cases (find effect_id claimed.effect_id c.effects)) [
      | inl miss ↦ rw (miss, fail_effect) v
      | inr (r, hit) ↦
          rw (hit, fail_effect) (fail_current-IsValid claimed failure now c r hit (about r hit) v)
    ]
