-- ===== src/Sql/Lookups.antt =====
-- What a lookup by primary key finds after a statement.
use elmybot.Base.{
  String, text_eq, text_eq_refl, ◌≡◌, ◌∙◌, inl, inr, true, false, List, [], ◌∷◌, none, some, arith,
  All, All-map_imp, Bool-cases, Option-cases, if◌then◌else◌, map?, Bool, ap, ◌≢◌, text_ne, not,
}
use elmybot.Sql.Tables.{update, delete, select}
use elmybot.Sql.Keyed.{find, has_key, Distinct, find-update, find-has_key}

module _ {ℓ} {A : Type ℓ} (key : A → String) where
  module _ (f : A → A) (keep : (x : A) → key (f x) ≡ key x) where
    -- UPDATE … WHERE key = k changes the row of that key
    pub find-update_self :
        (k : String) (xs : List A)
        → find key k (update (has_key key k) f xs) ≡ map? f (find key k xs)
    find-update_self k xs = elim (Option-cases (find key k xs)) [
      | inl e ↦ rw e (
          find-update key (has_key key k) f keep k xs
          ∙ ap (map? (λ x. if has_key key k x then f x else x)) e)
      | inr (x, e) ↦
          let hit : has_key key k x ≡ true = rw (find-has_key key k xs e) (text_eq_refl k) in
          rw e (
            find-update key (has_key key k) f keep k xs
            ∙ ap (map? (λ y. if has_key key k y then f y else y)) e
            ∙ ap (λ b. some (if b then f x else x)) hit)
    ]

    -- and no other row
    pub find-update_other :
        (j k : String) (xs : List A)
        → j ≢ k
        → find key j (update (has_key key k) f xs) ≡ find key j xs
    find-update_other j k xs ne = elim (Option-cases (find key j xs)) [
      | inl e ↦ rw e (
          find-update key (has_key key k) f keep j xs
          ∙ ap (map? (λ x. if has_key key k x then f x else x)) e)
      | inr (x, e) ↦
          let miss : has_key key k x ≡ false = rw (find-has_key key j xs e) (text_ne j k ne) in
          rw e (
            find-update key (has_key key k) f keep j xs
            ∙ ap (map? (λ y. if has_key key k y then f y else y)) e
            ∙ ap (λ b. some (if b then f x else x)) miss)
    ]

  find-shift :
      (y : A) (xs : List A)
      → find key (key y) xs ≡ none
      → (x : A) → find key (key x) xs ≡ some x
      → find key (key x) (y ∷ xs) ≡ some x
  unfolding find
  find-shift y xs fresh x e = elim (Bool-cases (text_eq (key y) (key x))) [
    | inl same ↦ cc (clash same)
    | inr other ↦ rw other e
  ]
    where
      clash : text_eq (key y) (key x) ≡ true → find key (key y) xs ≡ some x
      clash same = rw (find-has_key key (key x) (y ∷ xs) {x = y} (rw same)) e

  -- Under a primary key every row is what a lookup of its own key finds.
  pub Distinct-find : (xs : List A) → Distinct key xs → All (λ x. find key (key x) xs ≡ some x) xs
  unfolding find
  Distinct-find [] d = tt
  Distinct-find (y ∷ ys) d = (
    rw (text_eq_refl (key y)),
    All-map_imp (λ x. find key (key x) ys ≡ some x) (λ x. find key (key x) (y ∷ ys) ≡ some x)
        (find-shift y ys d.0) ys (Distinct-find ys d.1),
  )

  pub find-select-some :
      (k : String) (p : A → Bool) (xs : List A) (x : A)
      → find key k xs ≡ some x
      → p x ≡ true
      → find key k (select p xs) ≡ some x
  unfolding find select
  find-select-some k p [] x e h = cc
  find-select-some k p (y ∷ ys) x e h = ground (arith, find-select-some k p ys x)

  pub find-delete-some :
      (k : String) (p : A → Bool) (xs : List A) (x : A)
      → find key k xs ≡ some x
      → p x ≡ false
      → find key k (delete p xs) ≡ some x
  unfolding delete
  find-delete-some k p xs x e h = find-select-some k (λ y. not (p y)) xs x e (rw h)

  -- A table of one row, looked up by its key.
  pub find_self : (k : String) (x : A) → key x ≡ k → find key k (x ∷ []) ≡ some x
  unfolding find
  find_self k x e = rw (← e) (rw (text_eq_refl (key x)))
