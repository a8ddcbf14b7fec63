-- ===== src/FeatureStorage/Reads.antt =====
-- Lookups under statements on other rows, and equalities of stored values.
use elmybot.Base.{
  ◌≡◌, ◌≢◌, refl, ap, inl, inr, ◌⊎◌, Bool, true, false, List, [], ◌∷◌, ◌++◌, none, arith,
  Bool-cases, text_eq→≡,
}
use elmybot.Sql.{delete, select, update, first, any_row, upsert}
use elmybot.FeatureStorage.Types.{
  ℤ, pos, negsuc, eqℤ, Json, integer, other, json_eq, ValueKind, config, state, kind_eq,
}

module _ {ℓ} {A : Type ℓ} (p q : A → Bool) (apart : (x : A) → p x ≡ true → q x ≡ false) where
  first-delete_other : (xs : List A) → first q (delete p xs) ≡ first q xs
  unfolding first delete select
  first-delete_other [] = refl
  first-delete_other (x ∷ xs) = elim (Bool-cases (p x)) [
    | inl e ↦ rw (e, apart x e) (first-delete_other xs)
    | inr e ↦ elim (Bool-cases (q x)) [
      | inl hit ↦ rw (e, hit)
      | inr miss ↦ rw (e, miss) (first-delete_other xs)
    ]
  ]

  first-append_other : (xs : List A) (y : A) → q y ≡ false → first q (xs ++ y ∷ []) ≡ first q xs
  unfolding first
  first-append_other [] y e = rw e
  first-append_other (x ∷ xs) y e = elim (Bool-cases (q x)) [
    | inl hit ↦ rw hit
    | inr miss ↦ rw miss (first-append_other xs y e)
  ]

  first-update_other :
      (f : A → A)
      → ((x : A) → p x ≡ true → q (f x) ≡ false)
      → (xs : List A) → first q (update p f xs) ≡ first q xs
  unfolding first update
  first-update_other f h [] = refl
  first-update_other f h (x ∷ xs) = elim (Bool-cases (p x)) [
    | inl e ↦ rw (e, h x e, apart x e) (first-update_other f h xs)
    | inr e ↦ elim (Bool-cases (q x)) [
      | inl hit ↦ rw (e, hit)
      | inr miss ↦ rw (e, miss) (first-update_other f h xs)
    ]
  ]

  pub first-upsert_other :
      (f : A → A) (y : A)
      → ((x : A) → p x ≡ true → q (f x) ≡ false)
      → q y ≡ false
      → (xs : List A) → first q (upsert p f y xs) ≡ first q xs
  unfolding upsert
  first-upsert_other f y h e xs = elim (Bool-cases (any_row p xs)) [
    | inl row ↦ rw row (first-update_other f h xs)
    | inr no_row ↦ rw no_row (first-append_other xs y e)
  ]

pub first-delete_self {ℓ} : {A : Type ℓ} (p : A → Bool) (xs : List A) → first p (delete p xs) ≡ none
unfolding first delete select
first-delete_self p [] = refl
first-delete_self p (x ∷ xs) = elim (Bool-cases (p x)) [
  | inl e ↦ rw e (first-delete_self p xs)
  | inr e ↦ rw (e, e) (first-delete_self p xs)
]

eqℤ→≡ : (a b : ℤ) → eqℤ a b ≡ true → a ≡ b
eqℤ→≡ (pos a) (pos b) h = ap pos (ground (arith, h))
eqℤ→≡ (negsuc a) (negsuc b) h = ap negsuc (ground (arith, h))
eqℤ→≡ (pos a) (negsuc b) h = absurd (cc h)
eqℤ→≡ (negsuc a) (pos b) h = absurd (cc h)

pub json_eq→≡ : (a b : Json) → json_eq a b ≡ true → a ≡ b
json_eq→≡ (integer a) (integer b) h = ap integer (eqℤ→≡ a b h)
json_eq→≡ (other a) (other b) h = ap other (text_eq→≡ a b h)
json_eq→≡ (integer a) (other b) h = absurd (cc h)
json_eq→≡ (other a) (integer b) h = absurd (cc h)

pub kind_eq_refl : (k : ValueKind) → kind_eq k k ≡ true
kind_eq_refl config = refl
kind_eq_refl state = refl

pub kind_eq→≡ : (a b : ValueKind) → kind_eq a b ≡ true → a ≡ b
kind_eq→≡ config config h = refl
kind_eq→≡ state state h = refl
kind_eq→≡ config state h = absurd (cc h)
kind_eq→≡ state config h = absurd (cc h)

-- Another kind, feature or key.
abbrev pub IsOther {ℓ} : {A : Type ℓ} → ValueKind → A → A → ValueKind → A → A → Type ℓ
IsOther kind feature key kind' feature' key' = (kind' ≢ kind) ⊎ (feature' ≢ feature) ⊎ (key' ≢ key)
