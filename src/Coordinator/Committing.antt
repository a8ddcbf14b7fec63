-- ===== src/Coordinator/Committing.antt =====
-- The transaction of `submit` keeps the invariant.
use elmybot.Base.{
  ℕ, suc, String, ◌≡◌, refl, sym, ap, ◌∙◌, subst, inl, inr, true, List, [], ◌∷◌, ◌++◌, none, arith,
  ok, All, is_some, Option-cases, length, append-nil, append_assoc, Result-cases,
}
use elmybot.Sql.{find, Distinct, insert-Distinct}
use elmybot.Coordinator.Types.{EffectState, EffectRow, Effect, Execution}
use elmybot.Coordinator.Storage.{effect_id, idempotency_key}
use elmybot.Coordinator.Submit.{new_effect, insert_effect, insert_effects}

-- A row that `submit` has just inserted.
abbrev pub IsNew : Execution → EffectRow → Type 0
IsNew execution x =
    (x.source_event_id ≡ execution.source_event_id)
    × (x.state ≡ EffectState.pending)
    × (is_some x.next_attempt_at_ms ≡ true)

new_effect-IsNew :
    (execution : Execution) (accepted : ℕ) (id : String) (e : Effect)
    → IsNew execution (new_effect execution accepted id e)
unfolding new_effect
new_effect-IsNew execution accepted id e = (refl, refl, refl)

pub insert_effect-eq-ok :
    (e : EffectRow) (effects effects' : List EffectRow)
    → insert_effect e effects ≡ ok effects'
    → (find effect_id e.effect_id effects ≡ none)
      × (find idempotency_key e.idempotency_key effects ≡ none)
      × (effects' ≡ effects ++ e ∷ [])
unfolding insert_effect
insert_effect-eq-ok e effects effects' h =
    elim (Option-cases (find effect_id e.effect_id effects)) [
      | inr (x, hit) ↦ absurd (ground arith)
      | inl free ↦ elim (Option-cases (find idempotency_key e.idempotency_key effects)) [
        | inr (x, hit) ↦ absurd (ground arith)
        | inl unused ↦ (free, unused, ground arith)
      ]
    ]

-- What the loop of inserts leaves: the old rows, and a new one for each effect.
pub record Inserted (execution : Execution) (es : List Effect) (effects effects' : List EffectRow)
    : Type 0 where
  pub rows : List EffectRow
  pub appended : effects' ≡ effects ++ rows
  pub as_many : length rows ≡ length es
  pub are_new : All (IsNew execution) rows
  pub ids : Distinct effect_id effects'
  pub keys : Distinct idempotency_key effects'

pub insert_effects-Inserted :
    (execution : Execution) (accepted : ℕ) (uuids : ℕ → String) (es : List Effect)
    (effects effects' : List EffectRow)
    → insert_effects execution accepted uuids es effects ≡ ok effects'
    → Distinct effect_id effects
    → Distinct idempotency_key effects
    → Inserted execution es effects effects'
unfolding insert_effects
insert_effects-Inserted execution accepted uuids [] effects effects' h ids keys =
    let same : effects ≡ effects' = ground arith in
    record {
      rows = [];
      appended = sym same ∙ sym (append-nil effects);
      as_many = refl;
      are_new = tt;
      ids = subst (Distinct effect_id) same ids;
      keys = subst (Distinct idempotency_key) same keys;
    }
insert_effects-Inserted execution accepted uuids (e ∷ es) effects effects' h ids keys =
    let x = new_effect execution accepted (uuids 0) e in
    elim (Result-cases (insert_effect x effects)) [
      | inl (bad, fails) ↦ absurd (ground arith)
      | inr (next, goes) ↦
          let (free, unused, put) = insert_effect-eq-ok x effects next goes in
          let rest =
            insert_effects-Inserted execution accepted (λ n. uuids (suc n)) es next effects'
              (ground arith)
              (subst (Distinct effect_id) (sym put) (insert-Distinct effect_id effects x ids free))
              (subst (Distinct idempotency_key) (sym put)
                (insert-Distinct idempotency_key effects x keys unused)) in
          record {
            rows = x ∷ rest.rows;
            appended =
                rest.appended
                ∙ ap (λ l. l ++ rest.rows) put
                ∙ append_assoc effects (x ∷ []) rest.rows;
            as_many = ap suc rest.as_many;
            are_new = (new_effect-IsNew execution accepted (uuids 0) e, rest.are_new);
            ids = rest.ids;
            keys = rest.keys;
          }
    ]
