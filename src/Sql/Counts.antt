-- ===== src/Sql/Counts.antt =====
-- COUNT(*) under the other statements, and what a primary key says of the rows with one key.
use elmybot.Base.{
  subst, is_some, ◌+◌, ◌≡◌, refl, sym, inl, inr, Bool, true, false, String, List, [], ◌∷◌, ◌++◌,
  none, some, arith, All, Bool-cases, Option-cases, if◌then◌else◌, text_eq, text_eq→≡, All-map_imp,
}
use elmybot.Sql.Tables.{select, update, first, count, any_row}
use elmybot.Sql.Upserts.{first-select-some}
use elmybot.Sql.Keyed.{find, has_key, Distinct, find-select-none}

module _ {ℓ} {A : Type ℓ} (p : A → Bool) where
  pub count-append : (xs ys : List A) → count p (xs ++ ys) ≡ count p xs + count p ys
  unfolding count
  count-append [] ys = omega arith
  count-append (x ∷ xs) ys = elim (Bool-cases (p x)) [
    | inl e ↦ rw e (omega (arith, count-append xs ys))
    | inr e ↦ rw e (count-append xs ys)
  ]

  -- An UPDATE that does not change whether a row is counted.
  pub count-update :
      (q : A → Bool) (f : A → A) (xs : List A)
      → All (λ x. q x ≡ true → p (f x) ≡ p x) xs
      → count p (update q f xs) ≡ count p xs
  unfolding count update
  count-update q f [] h = refl
  count-update q f (x ∷ xs) h = elim (Bool-cases (q x)) [
    | inl e ↦ rw (e, h.0 e, count-update q f xs h.1)
    | inr e ↦ rw (e, count-update q f xs h.1)
  ]

  -- A WHERE clause that passes every row that is counted.
  pub count-select :
      (q : A → Bool) (xs : List A)
      → All (λ x. p x ≡ true → q x ≡ true) xs
      → count p (select q xs) ≡ count p xs
  unfolding count select
  count-select q [] h = refl
  count-select q (x ∷ xs) h = elim (Bool-cases (q x)) [
    | inl e ↦ rw (e, count-select q xs h.1)
    | inr e ↦ elim (Bool-cases (p x)) [
      | inl t ↦ absurd (ground (arith, h.0 t, e))
      | inr t ↦ rw (e, t, count-select q xs h.1)
    ]
  ]

  pub count-zero : (xs : List A) → All (λ x. p x ≡ false) xs → count p xs ≡ 0
  unfolding count
  count-zero [] h = refl
  count-zero (x ∷ xs) h = rw (h.0, count-zero xs h.1)

  pub zero-count : (xs : List A) → count p xs ≡ 0 → All (λ x. p x ≡ false) xs
  unfolding count
  zero-count [] h = tt
  zero-count (x ∷ xs) h = elim (Bool-cases (p x)) [
    | inl e ↦ absurd (ground (arith, e))
    | inr e ↦ (e, zero-count xs (ground (arith, e)))
  ]

module _ {ℓ} {A : Type ℓ} (key : A → String) where
  -- All rows are of other keys where a lookup finds none.
  pub find-none→All :
      (k : String) (xs : List A) → find key k xs ≡ none → All (λ x. has_key key k x ≡ false) xs
  unfolding find first
  find-none→All k [] h = tt
  find-none→All k (x ∷ xs) h = elim (Bool-cases (text_eq (key x) k)) [
    | inl e ↦ absurd (ground (arith, e))
    | inr e ↦ (e, find-none→All k xs (ground (arith, e)))
  ]

  -- Under a primary key, the row that a lookup finds is the only one of its key.
  pub Distinct-only :
      (k : String) (xs : List A) (r : A)
      → Distinct key xs
      → find key k xs ≡ some r
      → All (λ x. has_key key k x ≡ true → x ≡ r) xs
  unfolding find first
  Distinct-only k [] r d e = tt
  Distinct-only k (x ∷ xs) r d e = elim (Bool-cases (text_eq (key x) k)) [
    | inl same ↦
        let others = find-none→All (key x) xs d.0 in
        (
          (λ _. ground (arith, same)),
          All-map_imp (λ y. has_key key (key x) y ≡ false) (λ y. has_key key k y ≡ true → y ≡ r)
              (λ y ne h. absurd (clash x y same ne h)) xs others,
        )
    | inr other ↦
        ((λ h. absurd (ground (arith, other, h))), Distinct-only k xs r d.1 (ground (arith, other)))
  ]
    where
      clash :
          (a b : A)
          → text_eq (key a) k ≡ true
          → text_eq (key b) (key a) ≡ false
          → text_eq (key b) k ≡ true
          → ⊥
      clash a b same ne h = cc (rw (text_eq→≡ (key a) k same) at ne, h)

  none_of_other :
      (k : String) (xs : List A) → All (λ x. has_key key k x ≡ false) xs → find key k xs ≡ none
  unfolding find first
  none_of_other k [] h = refl
  none_of_other k (x ∷ xs) h = rw h.0 (none_of_other k xs h.1)

  select_other :
      (k : String) (p : A → Bool) (xs : List A)
      → All (λ x. has_key key k x ≡ true → p x ≡ false) xs
      → All (λ x. has_key key k x ≡ false) (select p xs)
  unfolding select
  select_other k p [] h = tt
  select_other k p (x ∷ xs) h = elim (Bool-cases (p x)) [
    | inr e ↦ rw e (select_other k p xs h.1)
    | inl e ↦ elim (Bool-cases (text_eq (key x) k)) [
      | inl same ↦ absurd (ground (arith, h.0 same, e))
      | inr other ↦ rw e (other, select_other k p xs h.1)
    ]
  ]

  pub any_row-find :
      (k : String) (xs : List A) → any_row (has_key key k) xs ≡ is_some (find key k xs)
  unfolding any_row find first
  any_row-find k [] = refl
  any_row-find k (x ∷ xs) = ground (arith, any_row-find k xs)

  -- A WHERE clause that drops the one row of a key leaves none of that key.
  pub find-select-miss :
      (k : String) (p : A → Bool) (xs : List A) (r : A)
      → Distinct key xs
      → find key k xs ≡ some r
      → p r ≡ false
      → find key k (select p xs) ≡ none
  find-select-miss k p xs r d e h = none_of_other k (select p xs) (
      select_other k p xs (
        All-map_imp (λ x. has_key key k x ≡ true → x ≡ r)
          (λ x. has_key key k x ≡ true → p x ≡ false)
          (λ x only same. subst (λ y. p y ≡ false) (sym (only same)) h) xs
          (Distinct-only k xs r d e)))

  -- A lookup among the rows that a WHERE clause takes.
  pub find-select :
      (k : String) (p : A → Bool) (xs : List A)
      → Distinct key xs
      → find key k (select p xs)
        ≡ elim (find key k xs) [ none ↦ none | some r ↦ if p r then some r else none ]
  unfolding find
  find-select k p xs d = elim (Option-cases (find key k xs)) [
    | inl miss ↦ rw miss (find-select-none key k p xs miss)
    | inr (r, hit) ↦ elim (Bool-cases (p r)) [
      | inl takes ↦ rw (hit, takes) (first-select-some (has_key key k) p xs r hit takes)
      | inr drops ↦ rw (hit, drops) (find-select-miss k p xs r d hit drops)
    ]
  ]
