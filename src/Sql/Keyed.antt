-- ===== src/Sql/Keyed.antt =====
-- Tables with a primary key of type TEXT.
use elmybot.Base.{
  String, text_eq, text_eq→≡, ◌≡◌, refl, ap, ◌∙◌, inl, inr, Bool, false, not, List, [], ◌∷◌, ◌++◌,
  Option, none, some, arith, Bool-cases, if◌then◌else◌, map?, first_some, eq_iff,
}
use elmybot.Sql.Tables.{select, delete, update, first}
use elmybot.Sql.Rows.{first-holds}

module _ {ℓ} {A : Type ℓ} (key : A → String) where
  abbrev pub has_key : String → A → Bool
  has_key k x = text_eq (key x) k

  -- SELECT … WHERE key = k
  unfoldable pub find : String → List A → Option A
  unfolding first
  find k xs = first (has_key k) xs

  -- PRIMARY KEY: no two rows have the same key.
  abbrev pub Distinct : List A → Type ℓ
  Distinct [] = Unit
  Distinct (x ∷ xs) = (find (key x) xs ≡ none) × Distinct xs

  pub find-append :
      (k : String) (xs ys : List A) → find k (xs ++ ys) ≡ first_some (find k xs) (find k ys)
  unfolding find
  find-append k [] ys = refl
  find-append k (x ∷ xs) ys = ground (arith, find-append k xs ys)

  pub find-select-none :
      (k : String) (p : A → Bool) (xs : List A) → find k xs ≡ none → find k (select p xs) ≡ none
  unfolding find select
  find-select-none k p [] h = refl
  find-select-none k p (x ∷ xs) h = ground (arith, find-select-none k p xs)

  pub select-Distinct : (p : A → Bool) (xs : List A) → Distinct xs → Distinct (select p xs)
  unfolding select
  select-Distinct p [] h = tt
  select-Distinct p (x ∷ xs) h = elim (Bool-cases (p x)) [
    | inl e ↦ rw e (find-select-none (key x) p xs h.0, select-Distinct p xs h.1)
    | inr e ↦ rw e (select-Distinct p xs h.1)
  ]

  pub delete-Distinct : (p : A → Bool) (xs : List A) → Distinct xs → Distinct (delete p xs)
  unfolding delete
  delete-Distinct p xs h = select-Distinct (λ x. not (p x)) xs h

  find-append_none :
      (k : String) (xs : List A) (y : A)
      → find k xs ≡ none
      → text_eq (key y) k ≡ false
      → find k (xs ++ y ∷ []) ≡ none
  unfolding find
  find-append_none k [] y h e = rw e
  find-append_none k (x ∷ xs) y h e = ground (arith, find-append_none k xs y)

  find-ne :
      (k : String) (x : A) (xs : List A)
      → find k (x ∷ xs) ≡ none
      → (text_eq (key x) k ≡ false) × (find k xs ≡ none)
  unfolding find
  find-ne k x xs h = ground arith

  -- INSERT keeps the key primary where the new key is not in the table.
  pub insert-Distinct :
      (xs : List A) (y : A) → Distinct xs → find (key y) xs ≡ none → Distinct (xs ++ y ∷ [])
  unfolding find
  insert-Distinct [] y d h = (refl, tt)
  insert-Distinct (x ∷ xs) y d h =
      let ne = find-ne (key y) x xs h in
      (
        find-append_none (key x) xs y d.0
            (ground (arith, eq_iff (key x) (key y), eq_iff (key y) (key x), ne.0)),
        insert-Distinct xs y d.1 ne.1,
      )

  module _ (p : A → Bool) (f : A → A) (keep : (x : A) → key (f x) ≡ key x) where
    -- UPDATE, where the key stays: what a row found before is now.
    pub find-update :
        (k : String) (xs : List A)
        → find k (update p f xs) ≡ map? (λ x. if p x then f x else x) (find k xs)
    unfolding find update
    find-update k [] = refl
    find-update k (x ∷ xs) = ground (arith, keep x, find-update k xs)

    pub update-Distinct : (xs : List A) → Distinct xs → Distinct (update p f xs)
    unfolding update
    update-Distinct [] d = tt
    update-Distinct (x ∷ xs) d = elim (Bool-cases (p x)) [
      | inl e ↦ rw e (
        rw (keep x) (find-update (key x) xs ∙ ap (map? (λ y. if p y then f y else y)) d.0),
        update-Distinct xs d.1,
      )
      | inr e ↦ rw e (
        find-update (key x) xs ∙ ap (map? (λ y. if p y then f y else y)) d.0,
        update-Distinct xs d.1,
      )
    ]

  pub find-has_key : (k : String) (xs : List A) {x : A} → find k xs ≡ some x → key x ≡ k
  unfolding find
  find-has_key k xs {x} h = text_eq→≡ (key x) k (first-holds (has_key k) xs h)
