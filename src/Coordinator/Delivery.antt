-- ===== src/Coordinator/Delivery.antt =====
-- The attempts of one effect: their leases and the delays between them.
use elmybot.Base.{
  ℕ, ◌+◌, ◌-◌, ◌^◌, ◌≤◌, ◌<◌, String, ◌≡◌, ◌≢◌, refl, sym, ap, ◌∙◌, subst, inl, inr, true, false,
  some, arith, map?, Option-cases, Bool-cases, suc, zero,
}
use elmybot.Sql
use elmybot.Sql.{
  find, find-has_key, has_key, select, select-holds, select-All, first_by, first_by-none,
  first_by-All, find-update_self, Distinct, Distinct-find,
}
use elmybot.Coordinator.Types.{EffectRow, Coordinator, is_open}
use elmybot.Coordinator.Storage.{effect_id, is_due, first_due_effect, due_before, retry_delay_ms}
use elmybot.Coordinator.Effects.{update_effect, leased, claim_effect, attempt_lease_ms}
use elmybot.Coordinator.Agreement.{IsValid}
use elmybot.Coordinator.Transitions.{claim_effect-IsValid}

one_le_pow : (n : ℕ) → 1 ≤ 2 ^ n
one_le_pow zero = omega arith
one_le_pow (suc n) = omega (arith, one_le_pow n)

-- The delay before a retry is between 30 s and 30 min, whatever the number of attempts.
pub retry_delay_ms-bounds :
    (attempts : ℕ) → (30_000 ≤ retry_delay_ms attempts) × (retry_delay_ms attempts ≤ 1_800_000)
unfolding retry_delay_ms
retry_delay_ms-bounds attempts =
    let p = one_le_pow (attempts - 1) in (ground (arith, p), omega arith)

-- What `claimEffect` leaves under the ID.
claim_effect-leased :
    (id : String) (now : ℕ) (c c' : Coordinator) (e : EffectRow)
    → claim_effect id now c ≡ some (e, c')
    → (r : EffectRow) × (find effect_id id c.effects ≡ some r)
      × (find effect_id id c'.effects ≡ some (leased now r))
      × (e ≡ record r { attempts = suc r.attempts })
unfolding claim_effect update_effect leased
claim_effect-leased id now c c' e h = elim (Option-cases (find effect_id id c.effects)) [
  | inl miss ↦ absurd (ground arith)
  | inr (r, hit) ↦ elim (Bool-cases (is_open r.state)) [
    | inr closed ↦ absurd (ground arith)
    | inl o ↦
        let left : c'.effects ≡ Sql.update (has_key effect_id id) (leased now) c.effects =
          ground arith in
        (
          r,
          hit,
          ap (find effect_id id) left
              ∙ find-update_self effect_id (leased now) (λ x. refl) id c.effects
              ∙ ap (map? (leased now)) hit,
          ground arith,
        )
  ]
]

some-inj : {A : Type 0} {x y : A} → some x ≡ some y → x ≡ y
some-inj e = cc e

lease_runs :
    (now later : ℕ) (r : EffectRow)
    → later < now + attempt_lease_ms
    → is_due later (leased now r) ≡ false
unfolding leased is_due is_open
lease_runs now later r h = ground (arith, h)

-- While the lease of an attempt runs, the query of the alarm for a due effect gives another one.
pub claim_effect-exclusive :
    (id : String) (now later : ℕ) (c c' : Coordinator) (e next : EffectRow)
    → IsValid c
    → claim_effect id now c ≡ some (e, c')
    → later < now + attempt_lease_ms
    → first_due_effect later c'.effects ≡ some next
    → next.effect_id ≢ id
unfolding first_due_effect find
claim_effect-exclusive id now later c c' e next v h running due same =
    let (r, hit, left, _) = claim_effect-leased id now c c' e h in
    let taken =
      first_by-All (λ x. is_due later x ≡ true) due_before (select (is_due later) c'.effects)
        (select-holds (is_due later) c'.effects) due in
    let found =
      first_by-All (λ x. find effect_id x.effect_id c'.effects ≡ some x) due_before
        (select (is_due later) c'.effects)
        (select-All (λ x. find effect_id x.effect_id c'.effects ≡ some x) (is_due later) c'.effects
          (Distinct-find effect_id c'.effects
            (claim_effect-IsValid id now c c' e h v).sound.effects_distinct))
        due in
    let one : leased now r ≡ next =
      some-inj (sym left ∙ ap (λ k. find effect_id k c'.effects) (sym same) ∙ found) in
    let idle : is_due later next ≡ false =
      subst (λ x. is_due later x ≡ false) one (lease_runs now later r running) in
    absurd (ground (arith, taken, idle))
