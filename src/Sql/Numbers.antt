-- ===== src/Sql/Numbers.antt =====
-- Tables whose rows have different numbers, and the rows that a list of others names.
use elmybot.Base.{
  ℕ, ◌+◌, ◌≤◌, ◌<◌, ◌≡◌, refl, inl, inr, Bool, true, false, not, List, [], ◌∷◌, ◌++◌, arith, length,
  ◌==◌, All, All-map_imp, All-append, Bool-cases, if◌then◌else◌,
}
use elmybot.Sql.Tables.{select, delete, any_row}
use elmybot.Sql.Rows.{select-All}

module _ {ℓ} {A : Type ℓ} (number : A → ℕ) where
  abbrev pub HasOther : A → A → Type 0
  HasOther x y = (number x == number y) ≡ false

  -- No two rows have the same number.
  abbrev pub Numbered : List A → Type 0
  Numbered [] = Unit
  Numbered (x ∷ xs) = All (HasOther x) xs × Numbered xs

  pub select-Numbered : (p : A → Bool) (xs : List A) → Numbered xs → Numbered (select p xs)
  unfolding select
  select-Numbered p [] h = tt
  select-Numbered p (x ∷ xs) h = elim (Bool-cases (p x)) [
    | inl e ↦ rw e (select-All (HasOther x) p xs h.0, select-Numbered p xs h.1)
    | inr e ↦ rw e (select-Numbered p xs h.1)
  ]

  -- INSERT of a row with a new number.
  pub insert-Numbered :
      (xs : List A) (y : A)
      → Numbered xs
      → All (λ x. number x < number y) xs
      → Numbered (xs ++ y ∷ [])
  insert-Numbered [] y h k = (tt, tt)
  insert-Numbered (x ∷ xs) y h k = (
    All-append (HasOther x) xs (y ∷ []) h.0 (ground (arith, k.0), tt),
    insert-Numbered xs y h.1 k.1,
  )

  abbrev same : A → A → Bool
  same y x = number x == number y

  none_same :
      (y : A) (xs : List A) → All (λ x. same y x ≡ false) xs → length (select (same y) xs) ≡ 0
  unfolding select
  none_same y [] h = refl
  none_same y (x ∷ xs) h = rw h.0 (none_same y xs h.1)

  length-select-same : (y : A) (xs : List A) → Numbered xs → length (select (same y) xs) ≤ 1
  unfolding select
  length-select-same y [] h = omega arith
  length-select-same y (x ∷ xs) h = elim (Bool-cases (same y x)) [
    | inl e ↦
        let no_other =
          none_same y xs (
            All-map_imp (HasOther x) (λ z. same y z ≡ false) (λ z o. ground (arith, o, e)) xs
              h.0) in
        rw e (omega (arith, no_other))
    | inr e ↦ rw e (length-select-same y xs h.1)
  ]

  length-select_or :
      (p q : A → Bool) (xs : List A)
      → length (select (λ x. if p x then true else q x) xs)
        ≤ length (select p xs) + length (select q xs)
  unfolding select
  length-select_or p q [] = omega arith
  length-select_or p q (x ∷ xs) =
      let rest = length-select_or p q xs in
      elim (Bool-cases (p x)) [
        | inl e ↦ elim (Bool-cases (q x)) [
          | inl f ↦ rw (e, f) (omega (arith, rest))
          | inr f ↦ rw (e, f) (omega (arith, rest))
        ]
        | inr e ↦ elim (Bool-cases (q x)) [
          | inl f ↦ rw (e, f) (omega (arith, rest))
          | inr f ↦ rw (e, f) (omega (arith, rest))
        ]
      ]

  abbrev named_by : List A → A → Bool
  named_by ys x = any_row (λ y. number x == number y) ys

  length-select_named :
      (ys xs : List A) → Numbered xs → length (select (named_by ys) xs) ≤ length ys
  unfolding any_row select
  length-select_named [] xs h = nothing xs
    where
      nothing : (zs : List A) → length (select (named_by []) zs) ≤ 0
      nothing [] = omega arith
      nothing (z ∷ zs) = nothing zs
  length-select_named (y ∷ ys) xs h =
      let split = length-select_or (same y) (named_by ys) xs in
      let one = length-select-same y xs h in
      let rest = length-select_named ys xs h in omega (arith, split, one, rest)

  length-delete-not :
      (p : A → Bool) (xs : List A) → length (delete (λ x. not (p x)) xs) ≡ length (select p xs)
  unfolding delete select
  length-delete-not p [] = refl
  length-delete-not p (x ∷ xs) = elim (Bool-cases (p x)) [
    | inl e ↦ rw (e, length-delete-not p xs)
    | inr e ↦ rw (e, length-delete-not p xs)
  ]

  -- DELETE … WHERE number NOT IN others: no more rows are left than there are others.
  pub length-delete_unnamed :
      (ys xs : List A)
      → Numbered xs
      → length (delete (λ x. not (any_row (λ y. number x == number y) ys)) xs) ≤ length ys
  length-delete_unnamed ys xs h =
      rw (length-delete-not (named_by ys) xs) (length-select_named ys xs h)
