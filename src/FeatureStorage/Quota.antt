-- ===== src/FeatureStorage/Quota.antt =====
-- Every request keeps each feature within its capacity.
use elmybot.Base.{
  ℕ, String, ◌≡◌, refl, sym, ap, ◌∙◌, subst, inl, inr, Bool, true, false, not, ◌&&◌, List, [], ◌∷◌,
  none, some, Result, ok, err, throw_if, or_throw, arith, is_some, bind-elim, Bool-cases,
  Option-cases, Result-cases,
}
use elmybot.Sql.{delete}
use elmybot.FeatureStorage.Types.{
  Json, integer, ℤ, pos, eqℤ, ValueKind, config, state, Storage, StorageError, Patterns,
  require_feature_id, require_key, amount_invalid, at_capacity, not_incrementable,
}
use elmybot.FeatureStorage.Values.{
  in_namespace, is_value, value_row, has_no_room, write_value, touch, touch_feature_state_revision,
  is_state, holds, store_value, set_value, remove_value, delete_value, current_integer, safe_sum,
  store_sum, increment_value, increment_amount, increment_state,
}
use elmybot.FeatureStorage.Counters.{
  Descriptor, counter_subject_metadata, insert_subject, record_counter_subject, keep_counter,
  label_counter, write_counter, change_counter, is_get, valid_current, next_value,
  apply_bounded_counter_state, require_bounded_counter_input, bounded_counter_state,
}
use elmybot.FeatureStorage.Capacity.{IsWithinCapacity, count-delete_le, write_value-capacity}
use elmybot.FeatureStorage.Changes.{
  Change, sets, deletes, increments, counts, after, after_answer, perform, perform_all,
}

touch-values :
    (kind : ValueKind) (feature : String) (s : Storage) → (touch kind feature s).values ≡ s.values
unfolding touch touch_feature_state_revision
touch-values config feature s = refl
touch-values state feature s = refl

abbrev Fits : Storage → Type 0
Fits s = IsWithinCapacity s.values

store_value-Fits :
    (kind : ValueKind) (feature key : String) (json : Json) (now : ℕ) (s s' : Storage)
    → store_value kind feature key json now s ≡ ok s'
    → Fits s
    → Fits s'
unfolding store_value
store_value-Fits kind feature key json now s s' h v =
    elim (Bool-cases (is_state kind && holds kind feature key json s)) [
      | inl same ↦ subst Fits {x = s} {y = s'} (ground arith) v
      | inr new ↦ elim (Bool-cases (has_no_room kind feature key s)) [
        | inl full ↦ absurd (ground arith)
        | inr free ↦
            let written = write_value kind feature key json now s in
            let same : touch kind feature written ≡ s' = ground arith in
            subst IsWithinCapacity
              (sym (touch-values kind feature written) ∙ ap (λ x. x.values) same)
              (write_value-capacity kind feature key json now s free v)
      ]
    ]

remove_value-Fits :
    (kind : ValueKind) (feature key : String) (s : Storage)
    → Fits s
    → Fits (remove_value kind feature key s).0
unfolding remove_value
remove_value-Fits kind feature key s v =
    elim (Bool-cases (is_some (value_row kind feature key s))) [
      | inr missing ↦ rw missing v
      | inl there ↦
          let left = record s { values = delete (is_value kind feature key) s.values } in
          rw there (
            subst IsWithinCapacity (sym (touch-values kind feature left)) (λ k f.
              let le = count-delete_le (in_namespace k f) (is_value kind feature key) s.values in
              let before = v k f in omega (arith, le, before)))
    ]

increment_value-Fits :
    (feature key : String) (amount : ℤ) (now : ℕ) (s s' : Storage) (z : ℤ)
    → increment_value feature key amount now s ≡ ok (s', z)
    → Fits s
    → Fits s'
unfolding increment_value store_sum touch_feature_state_revision
increment_value-Fits feature key amount now s s' z h v =
    bind-elim (throw_if (has_no_room state feature key s) at_capacity) _ (s', z) h
      (λ _ free h1.
        bind-elim
          (or_throw (current_integer (pos 0) (value_row state feature key s)) not_incrementable) _
          (s', z) h1
          (λ current _ h2.
            bind-elim (or_throw (safe_sum current amount) not_incrementable) _ (s', z) h2
              (λ value _ last. elim (Bool-cases (eqℤ amount (pos 0))) [
                | inl zero_amount ↦
                    subst Fits {x = s} {y = s'} (ground (arith, last, zero_amount)) v
                | inr moves ↦ subst IsWithinCapacity {y = s'.values} (ground (arith, last, moves)) (
                    write_value-capacity state feature key (integer value) now s
                      (thrown (has_no_room state feature key s) free) v)
              ])))
  where
    thrown : (b : Bool) {u : Unit {0}} → throw_if b at_capacity ≡ ok u → b ≡ false
    thrown true h = absurd (cc h)
    thrown false h = refl

record_counter_subject-values :
    (d : Descriptor) (key : String) (now : ℕ) (s s' : Storage) (b : Bool)
    → record_counter_subject d key now s ≡ ok (s', b)
    → s'.values ≡ s.values
unfolding record_counter_subject insert_subject
record_counter_subject-values d key now s s' b h = elim (Option-cases d.subject_label) [
  | inl unlabelled ↦ ground arith
  | inr (label, labelled) ↦ elim (Result-cases (counter_subject_metadata d key s)) [
    | inl (bad, fails) ↦ absurd (ground arith)
    | inr (none, fresh) ↦ ground arith
    | inr (some x, there) ↦ ground arith
  ]
]

label_counter-Fits :
    (d : Descriptor) (key : String) (value : ℤ) (now : ℕ) (s s' : Storage) (z : ℤ)
    → label_counter d key value now s ≡ ok (s', z)
    → Fits s
    → Fits s'
unfolding label_counter keep_counter touch_feature_state_revision
label_counter-Fits d key value now s s' z h v =
    elim (Result-cases (record_counter_subject d key now s)) [
      | inl (bad, fails) ↦ absurd (ground arith)
      | inr ((recorded, true), goes) ↦
          let kept = record_counter_subject-values d key now s recorded true goes in
          subst IsWithinCapacity {x = s.values} {y = s'.values} (ground (arith, kept)) v
      | inr ((recorded, false), goes) ↦
          let kept = record_counter_subject-values d key now s recorded false goes in
          subst IsWithinCapacity {x = s.values} {y = s'.values} (ground (arith, kept)) v
    ]

write_counter-Fits :
    (d : Descriptor) (key : String) (value : ℤ) (now : ℕ) (s s' : Storage) (z : ℤ)
    → write_counter d key value now s ≡ ok (s', z)
    → Fits s
    → Fits s'
unfolding write_counter touch_feature_state_revision
write_counter-Fits d key value now s s' z h v =
    let written = write_value state d.feature_id key (integer value) now s in
    elim (Bool-cases (has_no_room state d.feature_id key s)) [
      | inl full ↦ absurd (ground arith)
      | inr free ↦ elim (Result-cases (record_counter_subject d key now written)) [
        | inl (bad, fails) ↦ absurd (ground arith)
        | inr ((recorded, b), goes) ↦
            let kept = record_counter_subject-values d key now written recorded b goes in
            let same : s'.values ≡ recorded.values = ground arith in
            subst IsWithinCapacity (sym (same ∙ kept))
              (write_value-capacity state d.feature_id key (integer value) now s free v)
      ]
    ]

change_counter-Fits :
    (d : Descriptor) (key : String) (value : ℤ) (now : ℕ) (s s' : Storage) (z : ℤ)
    → change_counter d key value now s ≡ ok (s', z)
    → Fits s
    → Fits s'
unfolding change_counter
change_counter-Fits d key value now s s' z h v =
    elim (Bool-cases (not (is_some (value_row state d.feature_id key s)) && eqℤ value d.initial)) [
      | inl same ↦ subst Fits {x = s} {y = s'} (ground arith) v
      | inr changed ↦ elim (Bool-cases (holds state d.feature_id key (integer value) s)) [
        | inl there ↦ label_counter-Fits d key value now s s' z (ground arith) v
        | inr new ↦ write_counter-Fits d key value now s s' z (ground arith) v
      ]
    ]

apply-Fits :
    (d : Descriptor) (key : String) (now : ℕ) (s s' : Storage) (z : ℤ)
    → apply_bounded_counter_state d key now s ≡ ok (s', z)
    → Fits s
    → Fits s'
unfolding apply_bounded_counter_state
apply-Fits d key now s s' z h v =
    let row = current_integer d.initial (value_row state d.feature_id key s) in
    elim (Option-cases (valid_current d row)) [
      | inl bad ↦ absurd (ground arith)
      | inr (current, fine) ↦ elim (Bool-cases (is_get d.operation)) [
        | inl reads ↦ subst Fits {x = s} {y = s'} (ground arith) v
        | inr changes ↦ change_counter-Fits d key (next_value d current) now s s' z (ground arith) v
      ]
    ]

after-Fits :
    (s : Storage) (r : Result StorageError Storage)
    → ((s' : Storage) → r ≡ ok s' → Fits s')
    → Fits s
    → Fits (after s r)
after-Fits s (err e) k v = v
after-Fits s (ok s') k v = k s' refl

after_answer-Fits {ℓ} :
    {A : Type ℓ} (s : Storage) (r : Result StorageError (Storage × A))
    → ((s' : Storage) (a : A) → r ≡ ok (s', a) → Fits s')
    → Fits s
    → Fits (after_answer s r)
after_answer-Fits s (err e) k v = v
after_answer-Fits s (ok (s', a)) k v = k s' a refl

module _ (patterns : Patterns) (key_of : String → String → String) where
  perform-Fits : (c : Change) (s : Storage) → Fits s → Fits (perform patterns key_of c s)
  unfolding perform set_value delete_value increment_state bounded_counter_state
  perform-Fits (sets kind feature key value now) s v =
      after-Fits s (set_value patterns kind feature key value now s)
        (λ s' h. bind-elim (require_feature_id patterns feature) _ s' h (λ f _ h1.
          bind-elim (require_key patterns key) _ s' h1 (λ k _ h2.
            bind-elim value _ s' h2
              (λ json _ last. store_value-Fits kind f k json now s s' last v))))
        v
  perform-Fits (deletes kind feature key) s v =
      after_answer-Fits s (delete_value patterns kind feature key s)
        (λ s' b h.
          bind-elim (require_feature_id patterns feature) _ (s', b) h
            (λ f _ h1.
              bind-elim (require_key patterns key) _ (s', b) h1
                (λ k _ last.
                  let left : (remove_value kind f k s).0 ≡ s' = ap (λ r. stored s r) last in
                  subst Fits left (remove_value-Fits kind f k s v))))
        v
    where
      stored : Storage → Result StorageError (Storage × Bool) → Storage
      stored old (ok (new, b)) = new
      stored old (err e) = old
  perform-Fits (increments feature key amount now) s v =
      after_answer-Fits s (increment_state patterns feature key amount now s)
        (λ s' z h.
          bind-elim (require_feature_id patterns feature) _ (s', z) h
            (λ f _ h1.
              bind-elim (require_key patterns key) _ (s', z) h1
                (λ k _ h2.
                  bind-elim (or_throw (increment_amount amount) amount_invalid) _ (s', z) h2
                    (λ n _ last. increment_value-Fits f k n now s s' z last v))))
        v
  perform-Fits (counts input now) s v =
      after_answer-Fits s (bounded_counter_state patterns key_of input now s)
        (λ s' z h.
          bind-elim (require_bounded_counter_input patterns input) _ (s', z) h
            (λ d _ last. apply-Fits d (key_of d.name d.subject) now s s' z last v))
        v

  -- After every sequence of requests each feature has at most 100 config values and at most 100
  -- state values, its counters included.
  pub perform_all-capacity :
      (cs : List Change) (s : Storage)
      → IsWithinCapacity s.values
      → IsWithinCapacity (perform_all patterns key_of cs s).values
  unfolding perform_all
  perform_all-capacity [] s v = v
  perform_all-capacity (c ∷ cs) s v =
      perform_all-capacity cs (perform patterns key_of c s) (perform-Fits c s v)
