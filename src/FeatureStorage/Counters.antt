-- ===== src/FeatureStorage/Counters.antt =====
-- Bounded counters: `requireBoundedCounterInput`, the subjects' metadata and
-- `applyBoundedCounterState`.
use elmybot.Base.{
  ℕ, String, Bool, true, false, not, ◌&&◌, ◌||◌, [], ◌∷◌, ◌++◌, Option, none, some, Result, ok, err,
  ◌>>=◌, ◌>>◌, throw_if, or_throw, text_eq, text_length, ltb, is_some, if◌then◌else◌, ◌^◌, ◌-◌,
}
use elmybot.Sql.{first}
use elmybot.FeatureStorage.Types.{
  ℤ, pos, leℤ, eqℤ, ◌+ℤ◌, negate, is_safe, integer, state, SubjectRow, Storage, StorageError,
  subject_invalid, bounds_invalid, operation_invalid, amount_invalid, value_invalid,
  counter_invalid, identity_conflict, key_conflict, at_capacity, Patterns, require_feature_id,
  require_key, Field, absent, not_integer, number,
}
use elmybot.FeatureStorage.Values.{
  value_row, current_integer, has_no_room, write_value, holds, touch_feature_state_revision,
  max_increment_amount,
}

pub data Operation : Type 0 where
  get set increment decrement reset unknown : Operation

-- What a request asks of a counter; `label` is what the checks of the subject's label give.
pub record CounterInput : Type 0 where
  pub feature_id : Option String
  pub name : Option String
  pub subject : Option String
  pub label : Result StorageError (Option String)
  pub min : Field
  pub max : Field
  pub initial : Field
  pub operation : Operation
  pub amount : Field
  pub value : Field

pub record Descriptor : Type 0 where
  pub feature_id : String
  pub name : String
  pub subject : String
  pub subject_label : Option String
  pub min : ℤ
  pub max : ℤ
  pub initial : ℤ
  pub operation : Operation
  pub amount : ℤ
  pub value : ℤ

-- A safe integer, or the default where the field is missing.
unfoldable pub safe_or : ℤ → Field → Option ℤ
unfolding leℤ
safe_or default absent = some default
safe_or default not_integer = none
safe_or default (number z) = if is_safe z then some z else none

unfoldable pub within : ℤ → ℤ → ℤ → Bool
unfolding leℤ
within min max z = leℤ min z && leℤ z max

unfoldable pub is_subject : Option String → Result StorageError String
unfolding text_length
is_subject none = err subject_invalid
is_subject (some s) = if text_eq s "" || ltb 300 (text_length s) then err subject_invalid else ok s

unfoldable pub check_amount : Operation → Field → Result StorageError ℤ
unfolding safe_or within
check_amount increment field = do
  z ← or_throw (safe_or (pos 0) field) amount_invalid
  if within (pos 1) (pos max_increment_amount) z then ok z else err amount_invalid
check_amount decrement field = do
  z ← or_throw (safe_or (pos 0) field) amount_invalid
  if within (pos 1) (pos max_increment_amount) z then ok z else err amount_invalid
check_amount _ field = ok (pos 0)

-- A missing value is no safe integer.
unfoldable pub check_value : Operation → ℤ → ℤ → Field → Result StorageError ℤ
unfolding within leℤ
check_value set min max (number z) =
    if is_safe z && within min max z then ok z else err value_invalid
check_value set min max absent = err value_invalid
check_value set min max not_integer = err value_invalid
check_value _ min max field = ok (pos 0)

unfoldable pub check_operation : Operation → Result StorageError (Unit {0})
check_operation unknown = err operation_invalid
check_operation _ = ok tt

-- The checks from the order of the bounds on.
unfoldable pub checked_descriptor :
    String → String → String → ℤ → ℤ → ℤ → CounterInput → Result StorageError Descriptor
unfolding within leℤ check_operation check_amount check_value
checked_descriptor feature_id name subject min max initial input = do
  throw_if (not (leℤ min max && within min max initial)) bounds_invalid
  check_operation input.operation
  amount ← check_amount input.operation input.amount
  value ← check_value input.operation min max input.value
  label ← input.label
  ok (record {
    feature_id = feature_id;
    name = name;
    subject = subject;
    subject_label = label;
    min = min;
    max = max;
    initial = initial;
    operation = input.operation;
    amount = amount;
    value = value;
  })

unfoldable pub require_bounded_counter_input :
    Patterns → CounterInput → Result StorageError Descriptor
unfolding require_feature_id require_key is_subject safe_or checked_descriptor
require_bounded_counter_input patterns input = do
  feature_id ← require_feature_id patterns input.feature_id
  name ← require_key patterns input.name
  subject ← is_subject input.subject
  min ← or_throw (safe_or (pos 0) input.min) bounds_invalid
  max ← or_throw (safe_or (pos (2 ^ 53 - 1)) input.max) bounds_invalid
  initial ← or_throw (safe_or min input.initial) bounds_invalid
  checked_descriptor feature_id name subject min max initial input

unfoldable pub is_identity : Descriptor → SubjectRow → Bool
is_identity d x =
    text_eq x.feature_id d.feature_id
    && text_eq x.counter_name d.name
    && text_eq x.subject_identity d.subject

unfoldable pub is_subject_key : Descriptor → String → SubjectRow → Bool
is_subject_key d key x = text_eq x.feature_id d.feature_id && text_eq x.value_key key

unfoldable pub has_other_key : String → Option SubjectRow → Bool
has_other_key key none = false
has_other_key key (some x) = not (text_eq x.value_key key)

unfoldable pub has_other_subject : Descriptor → Option SubjectRow → Bool
has_other_subject d none = false
has_other_subject d (some x) =
    not (text_eq x.counter_name d.name) || not (text_eq x.subject_identity d.subject)

unfoldable pub counter_subject_metadata :
    Descriptor → String → Storage → Result StorageError (Option SubjectRow)
unfolding is_identity is_subject_key has_other_key has_other_subject
counter_subject_metadata d key s = do
  throw_if (has_other_key key (first (is_identity d) s.subjects)) identity_conflict
  throw_if (has_other_subject d (first (is_subject_key d key) s.subjects)) key_conflict
  ok (first (is_identity d) s.subjects)

-- The INSERT of a subject; whether there was one to make stands beside it.
unfoldable pub insert_subject :
    Descriptor → String → String → ℕ → Storage → Option SubjectRow → Storage × Bool
insert_subject d label key now_ms s (some x) = (s, false)
insert_subject d label key now_ms s none = (
  record s {
    subjects =
        s.subjects
        ++ record {
          feature_id = d.feature_id;
          counter_name = d.name;
          subject_identity = d.subject;
          subject_label = label;
          value_key = key;
          created_at_ms = now_ms;
        }
          ∷ [];
  },
  true,
)

unfoldable pub record_counter_subject :
    Descriptor → String → ℕ → Storage → Result StorageError (Storage × Bool)
unfolding counter_subject_metadata insert_subject
record_counter_subject d key now_ms s = elim d.subject_label [
  | none ↦ ok (s, false)
  | some label ↦ do
    existing ← counter_subject_metadata d key s
    ok (insert_subject d label key now_ms s existing)
]

unfoldable pub clamp : ℤ → ℤ → ℤ → ℤ
unfolding leℤ
clamp min max z = if not (leℤ min z) then min else if not (leℤ z max) then max else z

-- The value that an operation gives.
unfoldable pub next_value : Descriptor → ℤ → ℤ
unfolding clamp
next_value d current = elim d.operation [
  | set ↦ d.value
  | increment ↦ clamp d.min d.max (current +ℤ d.amount)
  | decrement ↦ clamp d.min d.max (current +ℤ negate d.amount)
  | _ ↦ d.initial
]

-- The value is there already: at most a subject is new.
unfoldable pub keep_counter : Descriptor → String → ℤ → Storage × Bool → Storage × ℤ
unfolding touch_feature_state_revision
keep_counter d key value (s, true) = (touch_feature_state_revision d.feature_id s, value)
keep_counter d key value (s, false) = (s, value)

unfoldable pub label_counter :
    Descriptor → String → ℤ → ℕ → Storage → Result StorageError (Storage × ℤ)
unfolding record_counter_subject keep_counter
label_counter d key value now_ms s = do
  recorded ← record_counter_subject d key now_ms s
  ok (keep_counter d key value recorded)

unfoldable pub write_counter :
    Descriptor → String → ℤ → ℕ → Storage → Result StorageError (Storage × ℤ)
unfolding has_no_room write_value record_counter_subject touch_feature_state_revision
write_counter d key value now_ms s = do
  throw_if (has_no_room state d.feature_id key s) at_capacity
  (written, _) ←
      record_counter_subject d key now_ms
        (write_value state d.feature_id key (integer value) now_ms s)
  ok (touch_feature_state_revision d.feature_id written, value)

unfoldable pub change_counter :
    Descriptor → String → ℤ → ℕ → Storage → Result StorageError (Storage × ℤ)
unfolding value_row holds label_counter write_counter
change_counter d key value now_ms s =
    if not (is_some (value_row state d.feature_id key s)) && eqℤ value d.initial
    then ok (s, value)
    else if holds state d.feature_id key (integer value) s
    then label_counter d key value now_ms s
    else write_counter d key value now_ms s

unfoldable pub is_get : Operation → Bool
is_get get = true
is_get _ = false

-- The integer of a row that is safe and within the bounds.
unfoldable pub valid_current : Descriptor → Option ℤ → Option ℤ
unfolding within leℤ
valid_current d none = none
valid_current d (some z) = if is_safe z && within d.min d.max z then some z else none

unfoldable pub apply_bounded_counter_state :
    Descriptor → String → ℕ → Storage → Result StorageError (Storage × ℤ)
unfolding value_row current_integer valid_current is_get next_value change_counter
apply_bounded_counter_state d key now_ms s = do
  current ←
      or_throw (valid_current d (current_integer d.initial (value_row state d.feature_id key s)))
        counter_invalid
  (if is_get d.operation
      then ok (s, current)
      else change_counter d key (next_value d current) now_ms s)

-- `key_of` is the key that the SHA-256 of a name and a subject gives.
unfoldable pub bounded_counter_state :
    Patterns
    → (String → String → String)
    → CounterInput
    → ℕ
    → Storage
    → Result StorageError (Storage × ℤ)
unfolding require_bounded_counter_input apply_bounded_counter_state
bounded_counter_state patterns key_of input now_ms s = do
  d ← require_bounded_counter_input patterns input
  apply_bounded_counter_state d (key_of d.name d.subject) now_ms s
