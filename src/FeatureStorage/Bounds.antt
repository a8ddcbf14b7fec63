-- ===== src/FeatureStorage/Bounds.antt =====
-- Every value that a bounded counter answers lies within its bounds.
use elmybot.Base.{
  ℕ, String, ◌≡◌, refl, sym, subst, inl, inr, Bool, true, false, not, ◌&&◌, Option, none, some, ok,
  throw_if, or_throw, arith, Bool-cases, Option-cases, Result-cases, bind-ok, bind-elim, ◌^◌, ◌-◌,
  is_some,
}
use elmybot.FeatureStorage.Types.{
  ℤ, pos, negsuc, leℤ, Storage, StorageError, Patterns, require_feature_id, require_key,
  bounds_invalid, Field, absent, not_integer, number, integer, state, eqℤ,
}
use elmybot.FeatureStorage.Values.{value_row, current_integer, holds, write_value}
use elmybot.FeatureStorage.Counters.{
  Operation, get, set, increment, decrement, reset, unknown, Descriptor, CounterInput, within,
  clamp, next_value, keep_counter, write_counter, label_counter, change_counter, is_get,
  valid_current, apply_bounded_counter_state, record_counter_subject, bounded_counter_state,
  is_subject, safe_or, check_operation, check_amount, checked_descriptor,
  require_bounded_counter_input, check_value,
}

leℤ-refl : (z : ℤ) → leℤ z z ≡ true
unfolding leℤ
leℤ-refl (pos n) = ground arith
leℤ-refl (negsuc n) = ground arith

clamp-within : (min max z : ℤ) → leℤ min max ≡ true → within min max (clamp min max z) ≡ true
unfolding within clamp
clamp-within min max z h = elim (Bool-cases (leℤ min z)) [
  | inr low ↦ rw (low, leℤ-refl min, h)
  | inl e ↦ elim (Bool-cases (leℤ z max)) [
    | inr high ↦ rw (e, high, h, leℤ-refl max)
    | inl f ↦ rw (e, f, e, f)
  ]
]

-- The bounds are in order, and hold the initial value and the one that is to be set.
pub record IsBounded (d : Descriptor) : Type 0 where
  pub ordered : leℤ d.min d.max ≡ true
  pub starts : within d.min d.max d.initial ≡ true
  pub sets : d.operation ≡ set → within d.min d.max d.value ≡ true

next_value-within :
    (d : Descriptor) (current : ℤ) → IsBounded d → within d.min d.max (next_value d current) ≡ true
unfolding next_value
next_value-within d current b = by_operation d.operation refl
  where
    by_operation :
        (o : Operation) → d.operation ≡ o → within d.min d.max (next_value d current) ≡ true
    by_operation get e = rw (e, next_value) b.starts
    by_operation set e = rw (e, next_value) (b.sets e)
    by_operation increment e = rw (e, next_value) (clamp-within d.min d.max _ b.ordered)
    by_operation decrement e = rw (e, next_value) (clamp-within d.min d.max _ b.ordered)
    by_operation reset e = rw (e, next_value) b.starts
    by_operation unknown e = rw (e, next_value) b.starts

keep_counter-value :
    (d : Descriptor) (key : String) (value : ℤ) (r : Storage × Bool)
    → (keep_counter d key value r).1 ≡ value
unfolding keep_counter
keep_counter-value d key value (s, true) = refl
keep_counter-value d key value (s, false) = refl

-- A change answers the value that it was asked for.
change_counter-value :
    (d : Descriptor) (key : String) (value : ℤ) (now : ℕ) (s s' : Storage) (z : ℤ)
    → change_counter d key value now s ≡ ok (s', z)
    → z ≡ value
unfolding change_counter label_counter write_counter
change_counter-value d key value now s s' z h =
    elim (Bool-cases (not (is_some (value_row state d.feature_id key s)) && eqℤ value d.initial)) [
      | inl same ↦ ground arith
      | inr changed ↦ elim (Bool-cases (holds state d.feature_id key (integer value) s)) [
        | inl there ↦ elim (Result-cases (record_counter_subject d key now s)) [
          | inl (bad, fails) ↦ absurd (ground arith)
          | inr (r, goes) ↦ let kept = keep_counter-value d key value r in ground (arith, kept)
        ]
        | inr new ↦
            elim (Result-cases (
              record_counter_subject d key now
                (write_value state d.feature_id key (integer value) now s))) [
                  | inl (bad, fails) ↦ absurd (ground arith)
                  | inr (r, goes) ↦ ground arith
                ]
      ]
    ]

valid_current-within :
    (d : Descriptor) (o : Option ℤ) (z : ℤ)
    → valid_current d o ≡ some z
    → within d.min d.max z ≡ true
unfolding valid_current
valid_current-within d none z h = absurd (ground arith)
valid_current-within d (some y) z h = ground (arith, h)

pub apply_bounded_counter_state-within :
    (d : Descriptor) (key : String) (now : ℕ) (s s' : Storage) (z : ℤ)
    → IsBounded d
    → apply_bounded_counter_state d key now s ≡ ok (s', z)
    → within d.min d.max z ≡ true
unfolding apply_bounded_counter_state
apply_bounded_counter_state-within d key now s s' z b h =
    let row = current_integer d.initial (value_row state d.feature_id key s) in
    elim (Option-cases (valid_current d row)) [
      | inl bad ↦ absurd (ground arith)
      | inr (current, fine) ↦ elim (Bool-cases (is_get d.operation)) [
        | inl reads ↦
            let same : current ≡ z = ground arith in
            subst (λ x. within d.min d.max x ≡ true) same (valid_current-within d row current fine)
        | inr changes ↦
            let goes : change_counter d key (next_value d current) now s ≡ ok (s', z) =
              ground arith in
            let same = change_counter-value d key (next_value d current) now s s' z goes in
            subst (λ x. within d.min d.max x ≡ true) (sym same) (next_value-within d current b)
      ]
    ]

check_value-within :
    (o : Operation) (min max z : ℤ) (f : Field)
    → check_value o min max f ≡ ok z
    → o ≡ set
    → within min max z ≡ true
unfolding check_value
check_value-within o min max z absent h e = absurd (ground arith)
check_value-within o min max z not_integer h e = absurd (ground arith)
check_value-within o min max z (number y) h e = ground arith

both_hold :
    (a b : Bool) (e : StorageError) {u : Unit {0}}
    → throw_if (not (a && b)) e ≡ ok u
    → (a ≡ true) × (b ≡ true)
both_hold true true e h = (refl, refl)
both_hold true false e h = absurd (cc h)
both_hold false b e h = absurd (cc h)

-- What the checks of a request let through.
checked-IsBounded :
    (feature name subject : String) (min max initial : ℤ) (input : CounterInput) (d : Descriptor)
    → checked_descriptor feature name subject min max initial input ≡ ok d
    → IsBounded d
unfolding checked_descriptor
checked-IsBounded feature name subject min max initial input d h =
    bind-elim (throw_if (not (leℤ min max && within min max initial)) bounds_invalid) _ d h
      (λ _ bounds h1. bind-elim (check_operation input.operation) _ d h1 (λ _ _ h2.
        bind-elim (check_amount input.operation input.amount) _ d h2 (λ amount _ h3.
          bind-elim (check_value input.operation min max input.value) _ d h3 (λ value checked h4.
            bind-elim input.label _ d h4 (λ label _ last.
              let both = both_hold (leℤ min max) (within min max initial) bounds_invalid bounds in
              let made : Descriptor = record {
                feature_id = feature;
                name = name;
                subject = subject;
                subject_label = label;
                min = min;
                max = max;
                initial = initial;
                operation = input.operation;
                amount = amount;
                value = value;
              } in
              subst IsBounded {x = made} {y = d} (cc last) (record {
                ordered = both.0;
                starts = both.1;
                sets = check_value-within input.operation min max value input.value checked;
              }))))))

require-IsBounded :
    (patterns : Patterns) (input : CounterInput) (d : Descriptor)
    → require_bounded_counter_input patterns input ≡ ok d
    → IsBounded d
unfolding require_bounded_counter_input
require-IsBounded patterns input d h =
    bind-elim (require_feature_id patterns input.feature_id) _ d h (λ feature _ h1.
      bind-elim (require_key patterns input.name) _ d h1 (λ name _ h2.
        bind-elim (is_subject input.subject) _ d h2 (λ subject _ h3.
          bind-elim (or_throw (safe_or (pos 0) input.min) bounds_invalid) _ d h3 (λ min _ h4.
            bind-elim (or_throw (safe_or (pos (2 ^ 53 - 1)) input.max) bounds_invalid) _ d h4
              (λ max _ h5.
                bind-elim (or_throw (safe_or min input.initial) bounds_invalid) _ d h5
                  (λ initial _ h6.
                    checked-IsBounded feature name subject min max initial input d h6))))))

-- A request on a bounded counter that succeeds answers a value within the counter's bounds,
-- whatever was stored before.
pub bounded_counter_state-within :
    (patterns : Patterns) (key_of : String → String → String) (input : CounterInput) (now : ℕ)
    (s s' : Storage) (z : ℤ)
    → bounded_counter_state patterns key_of input now s ≡ ok (s', z)
    → (d : Descriptor) × (require_bounded_counter_input patterns input ≡ ok d)
      × (within d.min d.max z ≡ true)
unfolding bounded_counter_state
bounded_counter_state-within patterns key_of input now s s' z h =
    let (d, accepted, goes) = bind-ok (require_bounded_counter_input patterns input) _ (s', z) h in
    (
      d,
      accepted,
      apply_bounded_counter_state-within d (key_of d.name d.subject) now s s' z
          (require-IsBounded patterns input d accepted) goes,
    )
