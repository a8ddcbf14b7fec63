-- ===== src/FeatureStorage/RoundTrip.antt =====
-- What is read after a value is set or deleted.
use elmybot.Base.{
  ℕ, String, ◌≡◌, refl, sym, ap, ◌∙◌, subst, inl, inr, Bool, true, false, not, ◌&&◌, ◌||◌, Option,
  none, some, arith, map?, ok, Result-cases, Option-cases, Bool-cases, bind-elim, text_eq,
  text_eq→≡, text_eq_refl, text_ne, text_length, ltb,
}
use elmybot.Sql.{delete, first, first-upsert}
use elmybot.FeatureStorage.Types.{
  Json, json_eq, ValueKind, config, state, kind_eq, ValueRow, Storage, StorageError, Patterns,
  require_string, require_feature_id, require_key,
}
use elmybot.FeatureStorage.Values.{
  in_namespace, is_value, value_row, get_value, write_value, touch, touch_feature_state_revision,
  is_state, has_no_room, holds, store_value, set_value, remove_value, delete_value,
}
use elmybot.FeatureStorage.Reads.{
  first-upsert_other, first-delete_self, json_eq→≡, kind_eq_refl, kind_eq→≡, IsOther,
}

-- What a read gives.
abbrev read : ValueKind → String → String → Storage → Option Json
read kind feature key s = map? (λ (x : ValueRow). x.value_json) (value_row kind feature key s)

touch-values :
    (kind : ValueKind) (feature : String) (s : Storage) → (touch kind feature s).values ≡ s.values
unfolding touch touch_feature_state_revision
touch-values config feature s = refl
touch-values state feature s = refl

module _ (kind : ValueKind) (feature key : String) where
  -- Rows of a value are not rows of another one.
  apart :
      (kind' : ValueKind) (feature' key' : String)
      → IsOther kind feature key kind' feature' key'
      → (x : ValueRow) → is_value kind feature key x ≡ true
      → is_value kind' feature' key' x ≡ false
  unfolding is_value in_namespace
  apart kind' feature' key' ne x h =
      let k = kind_eq→≡ x.value_kind kind (ground (arith, h)) in
      let f = text_eq→≡ x.feature_id feature (ground (arith, h)) in
      let n = text_eq→≡ x.value_key key (ground (arith, h)) in
      elim ne [
        | inl other_kind ↦ elim (Bool-cases (kind_eq x.value_kind kind')) [
          | inl e ↦ absurd (other_kind (sym (kind_eq→≡ x.value_kind kind' e) ∙ k))
          | inr e ↦ rw e
        ]
        | inr (inl other_feature) ↦
            let e = text_ne x.feature_id feature' (λ same. other_feature (sym same ∙ f)) in
            ground (arith, e)
        | inr (inr other_key) ↦
            let e = text_ne x.value_key key' (λ same. other_key (sym same ∙ n)) in ground (arith, e)
      ]

  module _ (json : Json) (now : ℕ) where
    abbrev written : ValueRow
    written = record {
      value_kind = kind;
      feature_id = feature;
      value_key = key;
      value_json = json;
      updated_at_ms = now;
    }

    abbrev rewritten : ValueRow → ValueRow
    rewritten x = record x { value_json = json; updated_at_ms = now }

    written-is_value : is_value kind feature key written ≡ true
    unfolding is_value in_namespace
    written-is_value = rw (kind_eq_refl kind, text_eq_refl feature, text_eq_refl key)

    write_value-read :
        (s : Storage) → read kind feature key (write_value kind feature key json now s) ≡ some json
    unfolding write_value value_row is_value in_namespace
    write_value-read s =
        let row =
          first-upsert (is_value kind feature key) rewritten (λ x. refl) written s.values
            written-is_value in
        ap (map? (λ (x : ValueRow). x.value_json)) row
        ∙ last (first (is_value kind feature key) s.values)
      where
        last :
            (o : Option ValueRow)
            → map?
                (λ (x : ValueRow). x.value_json)
                (some (elim o [ none ↦ written | some x ↦ rewritten x ]))
              ≡ some json
        last none = refl
        last (some x) = refl

    write_value-other :
        (kind' : ValueKind) (feature' key' : String)
        → IsOther kind feature key kind' feature' key'
        → (s : Storage)
        → value_row kind' feature' key' (write_value kind feature key json now s)
          ≡ value_row kind' feature' key' s
    unfolding write_value value_row is_value in_namespace
    write_value-other kind' feature' key' ne s =
        first-upsert_other (is_value kind feature key) (is_value kind' feature' key')
          (apart kind' feature' key' ne) rewritten written (λ x h. apart kind' feature' key' ne x h)
          (apart kind' feature' key' ne written written-is_value) s.values

  touch-value_row :
      (kind' k : ValueKind) (f feature' key' : String) (s : Storage)
      → value_row kind' feature' key' (touch k f s) ≡ value_row kind' feature' key' s
  unfolding value_row
  touch-value_row kind' k f feature' key' s =
      ap (first (is_value kind' feature' key')) (touch-values k f s)

  -- What the transaction of `setValue` leaves to be read.
  store_value-read :
      (json : Json) (now : ℕ) (s s' : Storage)
      → store_value kind feature key json now s ≡ ok s'
      → (read kind feature key s' ≡ some json)
        × ((kind' : ValueKind) (feature' key' : String)
            → IsOther kind feature key kind' feature' key'
            → value_row kind' feature' key' s' ≡ value_row kind' feature' key' s)
  unfolding store_value holds
  store_value-read json now s s' h =
      elim (Bool-cases (is_state kind && holds kind feature key json s)) [
        | inl same ↦
            let left : s ≡ s' = ground (arith, same, h) in
            subst
              (λ r.
                (read kind feature key r ≡ some json)
                × ((kind' : ValueKind) (feature' key' : String)
                    → IsOther kind feature key kind' feature' key'
                    → value_row kind' feature' key' r ≡ value_row kind' feature' key' s))
              left (held (ground (arith, same)), λ kind' feature' key' ne. refl)
        | inr new ↦ elim (Bool-cases (has_no_room kind feature key s)) [
          | inl full ↦ absurd (ground (arith, new, full, h))
          | inr room ↦
              let stored = write_value kind feature key json now s in
              let left : touch kind feature stored ≡ s' = ground (arith, new, room, h) in
              subst
                (λ r.
                  (read kind feature key r ≡ some json)
                  × ((kind' : ValueKind) (feature' key' : String)
                      → IsOther kind feature key kind' feature' key'
                      → value_row kind' feature' key' r ≡ value_row kind' feature' key' s))
                left
                (
                  ap (map? (λ (x : ValueRow). x.value_json))
                        (touch-value_row kind kind feature feature key stored)
                      ∙ write_value-read json now s,
                  λ kind' feature' key' ne.
                      touch-value_row kind' kind feature feature' key' stored
                      ∙ write_value-other json now kind' feature' key' ne s,
                )
        ]
      ]
    where
      held : holds kind feature key json s ≡ true → read kind feature key s ≡ some json
      held e = elim (Option-cases (value_row kind feature key s)) [
        | inl miss ↦ absurd (ground (arith, miss, e))
        | inr (x, hit) ↦
            let equal : json_eq x.value_json json ≡ true = ground (arith, hit, e) in
            ap (map? (λ (y : ValueRow). y.value_json)) hit
            ∙ ap some (json_eq→≡ x.value_json json equal)
      ]

  -- What a deletion leaves to be read.
  remove_value-read :
      (s : Storage) (json : Json)
      → read kind feature key s ≡ some json
      → (s' : Storage) × (remove_value kind feature key s ≡ (s', true))
        × (read kind feature key s' ≡ none)
  unfolding remove_value value_row
  remove_value-read s json h = elim (Option-cases (value_row kind feature key s)) [
    | inl miss ↦ absurd (ground (arith, miss, h))
    | inr (x, hit) ↦
        let cut = record s { values = delete (is_value kind feature key) s.values } in
        (
          touch kind feature cut,
          rw (hit, remove_value),
          ap (map? (λ (y : ValueRow). y.value_json)) (
              touch-value_row kind kind feature feature key cut
              ∙ first-delete_self (is_value kind feature key) s.values),
        )
  ]

-- A text that is taken.
require_string-some :
    (o : Option String) (pattern : String → Bool) (e : StorageError) (n : ℕ) (text : String)
    → require_string o pattern e n ≡ ok text
    → o ≡ some text
unfolding require_string
require_string-some none pattern e n text h = absurd (cc h)
require_string-some (some v) pattern e n text h =
    elim (Bool-cases (text_eq v "" || ltb n (text_length v) || not (pattern v))) [
      | inl bad ↦ absurd (ground (arith, bad, h))
      | inr good ↦ let same : v ≡ text = ground (arith, good, h) in ap some same
    ]

-- The value that a request reads.
module _ (patterns : Patterns) where
  get_value-read :
      (kind : ValueKind) (feature key : Option String) (f k : String) (s : Storage)
      → require_feature_id patterns feature ≡ ok f
      → require_key patterns key ≡ ok k
      → get_value patterns kind feature key s ≡ ok (read kind f k s)
  unfolding get_value
  get_value-read kind feature key f k s a b = rw (a, b)

  get_value-same :
      (kind : ValueKind) (feature key : Option String) (s s' : Storage)
      → ((f k : String)
          → feature ≡ some f
          → key ≡ some k
          → value_row kind f k s' ≡ value_row kind f k s)
      → get_value patterns kind feature key s' ≡ get_value patterns kind feature key s
  unfolding get_value require_feature_id require_key
  get_value-same kind feature key s s' h =
      elim (Result-cases (require_feature_id patterns feature)) [
        | inl (e, bad) ↦ rw (bad, get_value)
        | inr (f, named) ↦ elim (Result-cases (require_key patterns key)) [
          | inl (e, bad) ↦ rw (named, bad, get_value)
          | inr (k, keyed) ↦
              rw (named, keyed, get_value)
                (ap (λ o. ok (map? (λ (x : ValueRow). x.value_json) o))
                  (h f k (require_string-some feature _ _ _ f named)
                    (require_string-some key _ _ _ k keyed)))
        ]
      ]

  -- What a value that was set reads as, beside the others, and once it is deleted.
  abbrev pub ReadsBack :
      ValueKind → Option String → Option String → Json → Storage → Storage → Type 0
  ReadsBack kind feature key json s s' =
      (get_value patterns kind feature key s' ≡ ok (some json))
      × ((kind' : ValueKind) (feature' key' : Option String)
          → IsOther kind feature key kind' feature' key'
          → get_value patterns kind' feature' key' s' ≡ get_value patterns kind' feature' key' s)
      × (s'' : Storage) × (delete_value patterns kind feature key s' ≡ ok (s'', true))
      × (get_value patterns kind feature key s'' ≡ ok none)

  -- A value that was set is read back as it was, every other value is read as before, and once it is
  -- deleted it is read as none.
  pub set_value-ReadsBack :
      (kind : ValueKind) (feature key : Option String) (json : Json) (now : ℕ) (s s' : Storage)
      → set_value patterns kind feature key (ok json) now s ≡ ok s'
      → ReadsBack kind feature key json s s'
  unfolding set_value delete_value require_feature_id require_key
  set_value-ReadsBack kind feature key json now s s' h =
      bind-elim (require_feature_id patterns feature) _ s' h (λ f named h1.
        bind-elim (require_key patterns key) _ s' h1 (λ k keyed h2.
          let (reads, others) = store_value-read kind f k json now s s' h2 in
          let (s'', gone, empty) = remove_value-read kind f k s' json reads in
          let own_feature = require_string-some feature _ _ _ f named in
          let own_key = require_string-some key _ _ _ k keyed in
          (
            get_value-read kind feature key f k s' named keyed ∙ ap ok reads,
            (λ kind' feature' key' ne. get_value-same kind' feature' key' s s' (λ f' k' ef ek.
                others kind' f' k'
                  (inner kind' feature' key' f k f' k' ne own_feature own_key ef ek))),
            s'',
            rw (named, keyed, delete_value) (ap ok gone),
            get_value-read kind feature key f k s'' named keyed ∙ ap ok empty,
          )))
    where
      inner :
          (kind' : ValueKind) (feature' key' : Option String) (f k f' k' : String)
          → IsOther kind feature key kind' feature' key'
          → feature ≡ some f
          → key ≡ some k
          → feature' ≡ some f'
          → key' ≡ some k'
          → IsOther kind f k kind' f' k'
      inner kind' feature' key' f k f' k' (inl a) ef ek ef' ek' = inl a
      inner kind' feature' key' f k f' k' (inr (inl a)) ef ek ef' ek' =
          inr (inl (λ same. a (ef' ∙ ap some same ∙ sym ef)))
      inner kind' feature' key' f k f' k' (inr (inr a)) ef ek ef' ek' =
          inr (inr (λ same. a (ek' ∙ ap some same ∙ sym ek)))
