-- ===== src/Sql/Rows.antt =====
-- What holds of every row, under the statements.
use elmybot.Base.{
  ◌≡◌, inl, inr, Bool, true, false, not, List, [], ◌∷◌, some, arith, All, head-All, Bool-cases,
}
use elmybot.Sql.Tables.{select, delete, update, first, insert_by, order_by, first_by}

module _ {ℓ κ} {A : Type ℓ} (P : A → Type κ) where
  pub select-All : (p : A → Bool) (xs : List A) → All P xs → All P (select p xs)
  unfolding select
  select-All p [] h = tt
  select-All p (x ∷ xs) h = elim (Bool-cases (p x)) [
    | inl e ↦ rw e (h.0, select-All p xs h.1)
    | inr e ↦ rw e (select-All p xs h.1)
  ]

  pub delete-All : (p : A → Bool) (xs : List A) → All P xs → All P (delete p xs)
  unfolding delete
  delete-All p xs h = select-All (λ x. not (p x)) xs h

  -- The rows that the WHERE clause takes need only satisfy `P` afterwards.
  pub update-All :
      (p : A → Bool) (f : A → A) (xs : List A)
      → ((x : A) → p x ≡ true → P x → P (f x))
      → All P xs
      → All P (update p f xs)
  unfolding update
  update-All p f [] k h = tt
  update-All p f (x ∷ xs) k h = elim (Bool-cases (p x)) [
    | inl e ↦ rw e (k x e h.0, update-All p f xs k h.1)
    | inr e ↦ rw e (h.0, update-All p f xs k h.1)
  ]

  pub first-All : (p : A → Bool) (xs : List A) {x : A} → All P xs → first p xs ≡ some x → P x
  unfolding first
  first-All p [] h e = cc
  first-All p (y ∷ ys) {x} h e = elim (Bool-cases (p y)) [
    | inl t ↦ head-All P (y ∷ []) (h.0, tt) (ground arith)
    | inr t ↦ first-All p ys h.1 (ground arith)
  ]

  pub insert_by-All :
      (before : A → A → Bool) (x : A) (xs : List A) → P x → All P xs → All P (insert_by before x xs)
  unfolding insert_by
  insert_by-All before x [] h k = (h, tt)
  insert_by-All before x (y ∷ ys) h k = elim (Bool-cases (before y x)) [
    | inl e ↦ rw e (k.0, insert_by-All before x ys h k.1)
    | inr e ↦ rw e (h, k)
  ]

  pub order_by-All : (before : A → A → Bool) (xs : List A) → All P xs → All P (order_by before xs)
  unfolding order_by
  order_by-All before [] h = tt
  order_by-All before (x ∷ xs) h =
      insert_by-All before x (order_by before xs) h.0 (order_by-All before xs h.1)

  pub first_by-All :
      (before : A → A → Bool) (xs : List A) {x : A} → All P xs → first_by before xs ≡ some x → P x
  unfolding first_by
  first_by-All before xs h e = head-All P (order_by before xs) (order_by-All before xs h) e

module _ {ℓ} {A : Type ℓ} where
  pub select-holds : (p : A → Bool) (xs : List A) → All (λ x. p x ≡ true) (select p xs)
  unfolding select
  select-holds p [] = tt
  select-holds p (x ∷ xs) = elim (Bool-cases (p x)) [
    | inl e ↦ rw e (e, select-holds p xs)
    | inr e ↦ rw e (select-holds p xs)
  ]

  pub first-holds : (p : A → Bool) (xs : List A) {x : A} → first p xs ≡ some x → p x ≡ true
  unfolding first
  first-holds p [] e = cc
  first-holds p (y ∷ ys) e = elim (Bool-cases (p y)) [
    | inl t ↦ head-All (λ z. p z ≡ true) (y ∷ []) (t, tt) (ground arith)
    | inr t ↦ first-holds p ys (ground arith)
  ]

-- An UPDATE that leads from one predicate to another, on the rows that it takes and on the others.
pub update-All-All {ℓ κ μ} :
    {A : Type ℓ} (P : A → Type κ) (Q : A → Type μ) (p : A → Bool) (f : A → A) (xs : List A)
    → ((x : A) → p x ≡ true → P x → Q (f x))
    → ((x : A) → p x ≡ false → P x → Q x)
    → All P xs
    → All Q (update p f xs)
unfolding update
update-All-All P Q p f [] hit miss h = tt
update-All-All P Q p f (x ∷ xs) hit miss h = elim (Bool-cases (p x)) [
  | inl e ↦ rw e (hit x e h.0, update-All-All P Q p f xs hit miss h.1)
  | inr e ↦ rw e (miss x e h.0, update-All-All P Q p f xs hit miss h.1)
]
