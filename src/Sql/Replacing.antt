-- ===== src/Sql/Replacing.antt =====
-- An UPDATE of the row of a key by a whole row of the same key.
use elmybot.Base.{
  String, text_eq→≡, text_eq_refl, ◌≡◌, refl, sym, ap, ◌∙◌, inl, inr, true, List, [], ◌∷◌, some,
  map?, Bool-cases, if◌then◌else◌, ◌≢◌,
}
use elmybot.Sql.Tables.{update}
use elmybot.Sql.Keyed.{find, has_key, find-has_key, Distinct, update-Distinct}
use elmybot.Sql.Lookups.{find-update_self, find-update_other}

module _ {ℓ} {A : Type ℓ} (key : A → String) where
  abbrev pub replace : A → List A → List A
  replace y xs = update (has_key key (key y)) (λ _. y) xs

  abbrev put : A → A → A
  put y x = if has_key key (key y) x then y else x

  put-key : (y x : A) → key (put y x) ≡ key x
  put-key y x = elim (Bool-cases (has_key key (key y) x)) [
    | inl e ↦ rw e (sym (text_eq→≡ (key x) (key y) e))
    | inr e ↦ rw e
  ]

  replace-put : (y : A) (xs : List A) → replace y xs ≡ update (has_key key (key y)) (put y) xs
  unfolding update
  replace-put y [] = refl
  replace-put y (x ∷ xs) = elim (Bool-cases (has_key key (key y) x)) [
    | inl e ↦ rw (e, replace-put y xs)
    | inr e ↦ rw (e, replace-put y xs)
  ]

  pub replace-Distinct : (y : A) (xs : List A) → Distinct key xs → Distinct key (replace y xs)
  replace-Distinct y xs d =
      rw (replace-put y xs) (update-Distinct key (has_key key (key y)) (put y) (put-key y) xs d)

  pub find-replace_other :
      (k : String) (y : A) (xs : List A) → k ≢ key y → find key k (replace y xs) ≡ find key k xs
  find-replace_other k y xs ne =
      rw (replace-put y xs) (find-update_other key (put y) (put-key y) k (key y) xs ne)

  pub find-replace_self :
      (y : A) (xs : List A) (r : A)
      → find key (key y) xs ≡ some r
      → find key (key y) (replace y xs) ≡ some y
  find-replace_self y xs r e =
      let hit : has_key key (key y) r ≡ true =
        rw (find-has_key key (key y) xs e) (text_eq_refl (key y)) in
      rw (replace-put y xs) (
        find-update_self key (put y) (put-key y) (key y) xs
        ∙ ap (map? (put y)) e
        ∙ ap (λ b. some (if b then y else r)) hit)
