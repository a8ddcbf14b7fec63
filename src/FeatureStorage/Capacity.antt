-- ===== src/FeatureStorage/Capacity.antt =====
-- No feature ever stores more values of a kind than the source allows.
use elmybot.Base.{
  ℕ, ◌≤◌, ◌<◌, String, ◌≡◌, refl, sym, ◌∙◌, subst, inl, inr, Bool, true, false, ◌&&◌, List, [], ◌∷◌,
  ◌++◌, arith, text_eq, text_eq→≡, All-every, Bool-cases,
}
use elmybot.Sql.{select, delete, count, count-append, count-update, upsert, any_row, any_row-first}
use elmybot.FeatureStorage.Types.{Json, ValueKind, config, state, kind_eq, ValueRow, Storage}
use elmybot.FeatureStorage.Values.{
  max_values_per_namespace, in_namespace, is_value, value_row, namespace_at_capacity, has_no_room,
  write_value,
}

-- Every namespace has at most 100 values.
abbrev pub IsWithinCapacity : List ValueRow → Type 0
IsWithinCapacity values =
    (kind : ValueKind) (feature : String)
    → count (in_namespace kind feature) values ≤ max_values_per_namespace

kind_eq→≡ : (a b : ValueKind) → kind_eq a b ≡ true → a ≡ b
kind_eq→≡ config config h = refl
kind_eq→≡ state state h = refl
kind_eq→≡ config state h = absurd (cc h)
kind_eq→≡ state config h = absurd (cc h)

pub count-delete_le :
    {A : Type 0} (q p : A → Bool) (xs : List A) → count q (delete p xs) ≤ count q xs
unfolding count delete select
count-delete_le q p [] = omega arith
count-delete_le q p (x ∷ xs) =
    let rest = count-delete_le q p xs in
    elim (Bool-cases (p x)) [ inl e ↦ ground (arith, e, rest) | inr e ↦ ground (arith, e, rest) ]

room :
    (kind : ValueKind) (feature key : String) (s : Storage)
    → has_no_room kind feature key s ≡ false
    → any_row (is_value kind feature key) s.values ≡ false
    → count (in_namespace kind feature) s.values < max_values_per_namespace
unfolding has_no_room value_row namespace_at_capacity
room kind feature key s h miss =
    let absent = sym (any_row-first (is_value kind feature key) s.values) ∙ miss in
    ground (arith, h, absent)

module _ (kind : ValueKind) (feature key : String) (json : Json) (now : ℕ) where
  new_value : ValueRow
  new_value = record {
    value_kind = kind;
    feature_id = feature;
    value_key = key;
    value_json = json;
    updated_at_ms = now;
  }

  appended :
      (values : List ValueRow)
      → count (in_namespace kind feature) values < max_values_per_namespace
      → IsWithinCapacity values
      → IsWithinCapacity (values ++ new_value ∷ [])
  unfolding new_value count in_namespace
  appended values small v k f =
      let total = count-append (in_namespace k f) values (new_value ∷ []) in
      elim (Bool-cases (kind_eq kind k && text_eq feature f)) [
        | inr elsewhere ↦
            let one : count (in_namespace k f) (new_value ∷ []) ≡ 0 = rw elsewhere in
            let before = v k f in omega (arith, total, one, before)
        | inl here ↦
            let same_kind = kind_eq→≡ kind k (first_holds (kind_eq kind k) _ here) in
            let same_feature = text_eq→≡ feature f (second_holds (kind_eq kind k) _ here) in
            let one : count (in_namespace k f) (new_value ∷ []) ≡ 1 = rw here in
            let before =
              subst (λ a. count (in_namespace a f) values < max_values_per_namespace) same_kind
                (subst (λ b. count (in_namespace kind b) values < max_values_per_namespace)
                  same_feature small) in
            omega (arith, total, one, before)
      ]
    where
      first_holds : (a b : Bool) → a && b ≡ true → a ≡ true
      first_holds true b h = refl
      first_holds false b h = absurd (cc h)

      second_holds : (a b : Bool) → a && b ≡ true → b ≡ true
      second_holds true b h = h
      second_holds false b h = absurd (cc h)

  pub write_value-capacity :
      (s : Storage)
      → has_no_room kind feature key s ≡ false
      → IsWithinCapacity s.values
      → IsWithinCapacity (write_value kind feature key json now s).values
  unfolding write_value upsert new_value in_namespace
  write_value-capacity s free v = elim (Bool-cases (any_row (is_value kind feature key) s.values)) [
    | inl there ↦ rw there (λ k f.
        let same =
          count-update (in_namespace k f) (is_value kind feature key)
            (λ x. record x { value_json = json; updated_at_ms = now }) s.values
            (All-every _ (λ x _. refl) s.values) in
        let before = v k f in omega (arith, same, before))
    | inr missing ↦ rw missing (appended s.values (room kind feature key s free missing) v)
  ]
