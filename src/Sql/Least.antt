-- ===== src/Sql/Least.antt =====
-- ORDER BY sorts, and LIMIT 1 takes a least row.
use elmybot.Base.{
  ℕ, ◌≤◌, ◌≡◌, refl, subst, inl, inr, Bool, true, false, List, [], ◌∷◌, ◌++◌, some, take, suc,
  arith, head?, All, Bool-cases, none, ◌≢◌,
}
use elmybot.Sql.Tables.{select, insert_by, order_by, first_by, any_row}
use elmybot.Sql.Rows.{insert_by-All}

module _ {ℓ} {A : Type ℓ} (before : A → A → Bool) (measure : A → ℕ) where
  -- A row comes first only if its measure is not the larger one.
  abbrev pub Respects : Type ℓ
  Respects =
      ((x y : A) → before x y ≡ true → measure x ≤ measure y)
      × ((x y : A) → before x y ≡ false → measure y ≤ measure x)

  abbrev pub IsSorted : List A → Type ℓ
  IsSorted [] = Unit
  IsSorted (x ∷ xs) = All (λ y. measure x ≤ measure y) xs × IsSorted xs

  All-le_trans :
      (a b : ℕ) (xs : List A) → a ≤ b → All (λ y. b ≤ measure y) xs → All (λ y. a ≤ measure y) xs
  All-le_trans a b [] h k = tt
  All-le_trans a b (x ∷ xs) h k = (omega (arith, k.0), All-le_trans a b xs h k.1)

  insert_by-IsSorted :
      Respects → (x : A) (xs : List A) → IsSorted xs → IsSorted (insert_by before x xs)
  unfolding insert_by
  insert_by-IsSorted r x [] s = (tt, tt)
  insert_by-IsSorted r x (y ∷ ys) s = elim (Bool-cases (before y x)) [
    | inl e ↦ rw e (
      insert_by-All (λ z. measure y ≤ measure z) before x ys (r.0 y x e) s.0,
      insert_by-IsSorted r x ys s.1,
    )
    | inr e ↦ rw e ((r.1 y x e, All-le_trans (measure x) (measure y) ys (r.1 y x e) s.0), s)
  ]

  pub order_by-IsSorted : Respects → (xs : List A) → IsSorted (order_by before xs)
  unfolding order_by
  order_by-IsSorted r [] = tt
  order_by-IsSorted r (x ∷ xs) =
      insert_by-IsSorted r x (order_by before xs) (order_by-IsSorted r xs)

  insert_by-least :
      (n : ℕ) (x : A) (xs : List A)
      → All (λ y. n ≤ measure y) (insert_by before x xs)
      → (n ≤ measure x) × All (λ y. n ≤ measure y) xs
  unfolding insert_by
  insert_by-least n x [] h = h
  insert_by-least n x (y ∷ ys) h = elim (Bool-cases (before y x)) [
    | inl e ↦
        let k : All (λ z. n ≤ measure z) (y ∷ insert_by before x ys) = rw e at h in
        let rest = insert_by-least n x ys k.1 in (rest.0, (k.0, rest.1))
    | inr e ↦ let k : All (λ z. n ≤ measure z) (x ∷ y ∷ ys) = rw e at h in k
  ]

  order_by-least :
      (n : ℕ) (xs : List A)
      → All (λ y. n ≤ measure y) (order_by before xs)
      → All (λ y. n ≤ measure y) xs
  unfolding order_by
  order_by-least n [] h = tt
  order_by-least n (x ∷ xs) h =
      let rest = insert_by-least n x (order_by before xs) h in (rest.0, order_by-least n xs rest.1)

  head-least :
      (xs : List A) {x : A} → IsSorted xs → head? xs ≡ some x → All (λ y. measure x ≤ measure y) xs
  head-least [] s e = cc
  head-least (y ∷ ys) {x} s e =
      subst (λ z. All (λ w. measure z ≤ measure w) (y ∷ ys)) (cc) (omega arith, s.0)

  -- The first row of the order has the least measure of all.
  pub first_by-least :
      Respects
      → (xs : List A) {x : A} → first_by before xs ≡ some x
      → All (λ y. measure x ≤ measure y) xs
  unfolding first_by
  first_by-least r xs {x} e =
      order_by-least (measure x) xs (head-least (order_by before xs) (order_by-IsSorted r xs) e)

-- A predicate on the selected rows is one on all rows that the WHERE clause takes.
pub select_all→All {ℓ κ} :
    {A : Type ℓ} (P : A → Type κ) (p : A → Bool) (xs : List A)
    → All P (select p xs)
    → All (λ x. p x ≡ true → P x) xs
unfolding select
select_all→All P p [] h = tt
select_all→All P p (x ∷ xs) h = elim (Bool-cases (p x)) [
  | inl e ↦ let k : All P (x ∷ select p xs) = rw e at h in (λ _. k.0, select_all→All P p xs k.1)
  | inr e ↦
      let k : All P (select p xs) = rw e at h in
      ((λ t. absurd (ground (arith, e, t))), select_all→All P p xs k)
]

insert_by-some {ℓ} :
    {A : Type ℓ} (before : A → A → Bool) (x : A) (xs : List A)
    → head? (insert_by before x xs) ≢ none
unfolding insert_by
insert_by-some before x [] h = cc
insert_by-some before x (y ∷ ys) h = ground (arith, h)

-- LIMIT 1 of no row comes from no row.
pub first_by-none {ℓ} :
    {A : Type ℓ} (before : A → A → Bool) (p : A → Bool) (xs : List A)
    → first_by before (select p xs) ≡ none
    → All (λ x. p x ≡ false) xs
unfolding first_by select
first_by-none before p [] h = tt
first_by-none before p (x ∷ xs) h = elim (Bool-cases (p x)) [
  | inl e ↦ absurd (insert_by-some before x (order_by before (select p xs)) (rw (e, first_by) at h))
  | inr e ↦ (e, first_by-none before p xs (rw (e, first_by) at h))
]

pub first_by-empty {ℓ} :
    {A : Type ℓ} (before : A → A → Bool) (xs : List A) → first_by before xs ≡ none → xs ≡ []
unfolding first_by order_by
first_by-empty before [] h = refl
first_by-empty before (x ∷ xs) h = absurd (insert_by-some before x (order_by before xs) h)

module _ {ℓ} {A : Type ℓ} (before : A → A → Bool) where
  insert_by-head :
      (x y : A) (ys : List A)
      → head? ys ≡ some y
      → before y x ≡ true
      → head? (insert_by before x ys) ≡ some y
  unfolding insert_by
  insert_by-head x y [] e b = cc e
  insert_by-head x y (z ∷ zs) e b = ground (arith, e, b)

  -- A row that is inserted last and comes before all others is the first one of the order.
  pub order_by-newest :
      (y : A) (xs : List A)
      → All (λ x. before y x ≡ true) xs
      → head? (order_by before (xs ++ y ∷ [])) ≡ some y
  unfolding order_by insert_by
  order_by-newest y [] h = refl
  order_by-newest y (x ∷ xs) h =
      insert_by-head x y (order_by before (xs ++ y ∷ [])) (order_by-newest y xs h.1) h.0

pub any_row-head {ℓ} :
    {A : Type ℓ} (p : A → Bool) (n : ℕ) (xs : List A) (y : A)
    → head? xs ≡ some y
    → p y ≡ true
    → any_row p (take (suc n) xs) ≡ true
unfolding any_row
any_row-head p n [] y e h = cc e
any_row-head p n (x ∷ xs) y e h = ground (arith, e, h)

pub select-append {ℓ} :
    {A : Type ℓ} (p : A → Bool) (xs ys : List A) → select p (xs ++ ys) ≡ select p xs ++ select p ys
unfolding select
select-append p [] ys = refl
select-append p (x ∷ xs) ys = elim (Bool-cases (p x)) [
  | inl e ↦ rw (e, select-append p xs ys)
  | inr e ↦ rw (e, select-append p xs ys)
]
