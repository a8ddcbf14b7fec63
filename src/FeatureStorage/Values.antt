-- ===== src/FeatureStorage/Values.antt =====
-- Values: `getValue`, `setValue`, `deleteValue`, `incrementState`, and the revision of a feature's
-- state.
use elmybot.Base.{
  ℕ, suc, String, Bool, true, false, not, ◌&&◌, Option, none, some, Result, ok, err, ◌>>=◌, ◌>>◌,
  throw_if, or_throw, text_eq, leb, map?, is_some, if◌then◌else◌,
}
use elmybot.Sql.{delete, first, count, upsert}
use elmybot.FeatureStorage.Types.{
  ℤ, pos, leℤ, eqℤ, ◌+ℤ◌, negate, is_safe, Json, integer, other, json_eq, ValueKind, config, state,
  kind_eq, ValueRow, VersionRow, Storage, StorageError, at_capacity, amount_invalid,
  not_incrementable, Patterns, require_feature_id, require_key, Field, absent, not_integer, number,
}

abbrev pub max_values_per_namespace : ℕ
max_values_per_namespace = 100

abbrev pub max_increment_amount : ℕ
max_increment_amount = 1_000_000

unfoldable pub in_namespace : ValueKind → String → ValueRow → Bool
in_namespace kind feature x = kind_eq x.value_kind kind && text_eq x.feature_id feature

unfoldable pub is_value : ValueKind → String → String → ValueRow → Bool
unfolding in_namespace
is_value kind feature key x = in_namespace kind feature x && text_eq x.value_key key

unfoldable pub value_row : ValueKind → String → String → Storage → Option ValueRow
unfolding is_value
value_row kind feature key s = first (is_value kind feature key) s.values

unfoldable pub get_value :
    Patterns
    → ValueKind
    → Option String
    → Option String
    → Storage
    → Result StorageError (Option Json)
unfolding require_feature_id require_key value_row
get_value patterns kind feature key s = do
  feature_id ← require_feature_id patterns feature
  key ← require_key patterns key
  ok (map? (λ (x : ValueRow). x.value_json) (value_row kind feature_id key s))

abbrev pub is_feature : String → VersionRow → Bool
is_feature feature x = text_eq x.feature_id feature

-- `featureStateRevision` of a feature ID that is valid
unfoldable pub mutation_version : String → Storage → ℕ
mutation_version feature s = elim (first (is_feature feature) s.versions) [
  | none ↦ 0
  | some x ↦ x.mutation_version
]

unfoldable pub touch_feature_state_revision : String → Storage → Storage
unfolding upsert
touch_feature_state_revision feature s = record s {
  versions =
      upsert (is_feature feature)
        (λ (x : VersionRow). record x { mutation_version = suc x.mutation_version })
        (record { feature_id = feature; mutation_version = 1 }) s.versions;
}

unfoldable pub namespace_at_capacity : ValueKind → String → Storage → Bool
unfolding in_namespace
namespace_at_capacity kind feature s =
    leb max_values_per_namespace (count (in_namespace kind feature) s.values)

-- The INSERT … ON CONFLICT of a value.
unfoldable pub write_value : ValueKind → String → String → Json → ℕ → Storage → Storage
unfolding is_value upsert
write_value kind feature key json now_ms s = record s {
  values =
      upsert (is_value kind feature key)
        (λ (x : ValueRow). record x { value_json = json; updated_at_ms = now_ms })
        (record {
          value_kind = kind;
          feature_id = feature;
          value_key = key;
          value_json = json;
          updated_at_ms = now_ms;
        })
        s.values;
}

-- Config has no revision.
unfoldable pub touch : ValueKind → String → Storage → Storage
unfolding touch_feature_state_revision
touch config feature s = s
touch state feature s = touch_feature_state_revision feature s

abbrev pub is_state : ValueKind → Bool
is_state config = false
is_state state = true

-- Another row would be one too many.
unfoldable pub has_no_room : ValueKind → String → String → Storage → Bool
unfolding value_row namespace_at_capacity
has_no_room kind feature key s =
    not (is_some (value_row kind feature key s)) && namespace_at_capacity kind feature s

unfoldable pub holds : ValueKind → String → String → Json → Storage → Bool
unfolding value_row
holds kind feature key json s = elim (value_row kind feature key s) [
  | none ↦ false
  | some x ↦ json_eq x.value_json json
]

-- The transaction of `setValue`.
unfoldable pub store_value :
    ValueKind → String → String → Json → ℕ → Storage → Result StorageError Storage
unfolding holds has_no_room write_value touch
store_value kind feature key json now_ms s =
    if is_state kind && holds kind feature key json s
    then ok s
    else if has_no_room kind feature key s
    then err at_capacity
    else ok (touch kind feature (write_value kind feature key json now_ms s))

-- `value` is what `serializeValue` makes of the value.
unfoldable pub set_value :
    Patterns
    → ValueKind
    → Option String
    → Option String
    → Result StorageError Json
    → ℕ
    → Storage
    → Result StorageError Storage
unfolding require_feature_id require_key store_value
set_value patterns kind feature key value now_ms s = do
  feature_id ← require_feature_id patterns feature
  key ← require_key patterns key
  json ← value
  store_value kind feature_id key json now_ms s

unfoldable pub remove_value : ValueKind → String → String → Storage → Storage × Bool
unfolding value_row is_value touch
remove_value kind feature key s =
    if is_some (value_row kind feature key s)
    then (
      touch kind feature (record s { values = delete (is_value kind feature key) s.values }),
      true,
    )
    else (s, false)

unfoldable pub delete_value :
    Patterns
    → ValueKind
    → Option String
    → Option String
    → Storage
    → Result StorageError (Storage × Bool)
unfolding require_feature_id require_key remove_value
delete_value patterns kind feature key s = do
  feature_id ← require_feature_id patterns feature
  key ← require_key patterns key
  ok (remove_value kind feature_id key s)

-- `none` where an amount is refused.
unfoldable pub increment_amount : Field → Option ℤ
unfolding leℤ
increment_amount absent = some (pos 1)
increment_amount not_integer = none
increment_amount (number z) =
    if leℤ (negate (pos max_increment_amount)) z && leℤ z (pos max_increment_amount)
    then some z
    else none

-- The integer of a row, or the default where there is none; `none` for any other value.
unfoldable pub current_integer : ℤ → Option ValueRow → Option ℤ
current_integer initial none = some initial
current_integer initial (some x) = elim x.value_json [ integer z ↦ some z | other text ↦ none ]

unfoldable pub safe_sum : ℤ → ℤ → Option ℤ
unfolding leℤ
safe_sum current amount =
    if is_safe current && is_safe (current +ℤ amount) then some (current +ℤ amount) else none

-- The transaction of `incrementState`, from the sum on.
unfoldable pub store_sum : String → String → ℤ → ℤ → ℕ → Storage → Storage × ℤ
unfolding write_value touch_feature_state_revision
store_sum feature key amount value now_ms s = if eqℤ amount (pos 0) then (s, value) else (
  touch_feature_state_revision feature (write_value state feature key (integer value) now_ms s),
  value,
)

unfoldable pub increment_value :
    String → String → ℤ → ℕ → Storage → Result StorageError (Storage × ℤ)
unfolding has_no_room value_row current_integer safe_sum store_sum
increment_value feature key amount now_ms s = do
  throw_if (has_no_room state feature key s) at_capacity
  current ← or_throw (current_integer (pos 0) (value_row state feature key s)) not_incrementable
  value ← or_throw (safe_sum current amount) not_incrementable
  ok (store_sum feature key amount value now_ms s)

unfoldable pub increment_state :
    Patterns
    → Option String
    → Option String
    → Field
    → ℕ
    → Storage
    → Result StorageError (Storage × ℤ)
unfolding require_feature_id require_key increment_amount increment_value
increment_state patterns feature key amount now_ms s = do
  feature_id ← require_feature_id patterns feature
  key ← require_key patterns key
  amount ← or_throw (increment_amount amount) amount_invalid
  increment_value feature_id key amount now_ms s
