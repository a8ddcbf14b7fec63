-- ===== src/Sql/Upserts.antt =====
-- INSERT … ON CONFLICT DO UPDATE, for a key that the predicate stands for.
use elmybot.Base.{
  ◌≡◌, refl, ap, ◌∙◌, inl, inr, All, Bool, true, false, List, [], ◌∷◌, ◌++◌, none, some, arith,
  map?, Bool-cases, Option-cases, is_some, if◌then◌else◌,
}
use elmybot.Sql.Tables.{select, update, first, any_row}

unfoldable pub upsert {ℓ} : {A : Type ℓ} → (A → Bool) → (A → A) → A → List A → List A
unfolding any_row update
upsert p f y xs = if any_row p xs then update p f xs else xs ++ y ∷ []

module _ {ℓ} {A : Type ℓ} (p : A → Bool) where
  pub first-select-some :
      (q : A → Bool) (xs : List A) (x : A)
      → first p xs ≡ some x
      → q x ≡ true
      → first p (select q xs) ≡ some x
  unfolding first select
  first-select-some q [] x e h = cc
  first-select-some q (y ∷ ys) x e h = ground (arith, first-select-some q ys x)

  pub any_row-first : (xs : List A) → any_row p xs ≡ is_some (first p xs)
  unfolding any_row first
  any_row-first [] = refl
  any_row-first (x ∷ xs) = ground (arith, any_row-first xs)

  pub any_row-none : (xs : List A) → All (λ x. p x ≡ false) xs → any_row p xs ≡ false
  unfolding any_row
  any_row-none [] h = refl
  any_row-none (x ∷ xs) h = rw h.0 (any_row-none xs h.1)

  module _ (f : A → A) (keep : (x : A) → p (f x) ≡ p x) where
    first-update : (xs : List A) → first p (update p f xs) ≡ map? f (first p xs)
    unfolding first update
    first-update [] = refl
    first-update (x ∷ xs) = elim (Bool-cases (p x)) [
      | inl e ↦ rw (e, keep x, e)
      | inr e ↦ rw (e, e, first-update xs)
    ]

    first-append :
        (y : A) (xs : List A) → first p xs ≡ none → p y ≡ true → first p (xs ++ y ∷ []) ≡ some y
    unfolding first
    first-append y [] e h = rw h
    first-append y (x ∷ xs) e h = elim (Bool-cases (p x)) [
      | inl hit ↦ absurd (ground (arith, hit, e))
      | inr miss ↦ rw miss (first-append y xs (ground (arith, miss, e)) h)
    ]

    -- The row of the key after an upsert.
    pub first-upsert :
        (y : A) (xs : List A)
        → p y ≡ true
        → first p (upsert p f y xs) ≡ some (elim (first p xs) [ none ↦ y | some x ↦ f x ])
    unfolding upsert
    first-upsert y xs h = elim (Option-cases (first p xs)) [
      | inl miss ↦
          let no_row : any_row p xs ≡ false = any_row-first xs ∙ ap is_some miss in
          rw (no_row, miss) (first-append y xs miss h)
      | inr (x, hit) ↦
          let row : any_row p xs ≡ true = any_row-first xs ∙ ap is_some hit in
          rw (row, hit) (first-update xs ∙ ap (map? f) hit)
    ]
