-- ===== src/FeatureStorage/Types.antt =====
-- Integers, stored values, and the tables of the feature storage.
use elmybot.Base.{
  ℕ, zero, suc, ◌+◌, ◌-◌, ◌^◌, String, Bool, true, false, not, ◌&&◌, ◌||◌, List, Option, none, some,
  Result, ok, err, text_eq, text_length, ltb, leb, ◌==◌, if◌then◌else◌,
}

-- An integer; `negsuc n` is -1 - n.
pub data ℤ : Type 0 where
  pos : ℕ → ℤ
  negsuc : ℕ → ℤ

unfoldable pub leℤ : ℤ → ℤ → Bool
leℤ (pos a) (pos b) = leb a b
leℤ (pos a) (negsuc b) = false
leℤ (negsuc a) (pos b) = true
leℤ (negsuc a) (negsuc b) = leb b a

abbrev pub eqℤ : ℤ → ℤ → Bool
eqℤ (pos a) (pos b) = a == b
eqℤ (negsuc a) (negsuc b) = a == b
eqℤ _ _ = false

-- The difference of two natural numbers.
abbrev pub difference : ℕ → ℕ → ℤ
difference a b = if ltb a b then negsuc (b - a - 1) else pos (a - b)

infixl 6 ◌+ℤ◌
abbrev pub ◌+ℤ◌ : ℤ → ℤ → ℤ
pos a +ℤ pos b = pos (a + b)
pos a +ℤ negsuc b = difference a (suc b)
negsuc a +ℤ pos b = difference b (suc a)
negsuc a +ℤ negsuc b = negsuc (suc (a + b))

abbrev pub negate : ℤ → ℤ
negate (pos zero) = pos zero
negate (pos (suc n)) = negsuc n
negate (negsuc n) = pos (suc n)

-- `Number.isSafeInteger`
abbrev pub is_safe : ℤ → Bool
is_safe z = leℤ (negate (pos (2 ^ 53 - 1))) z && leℤ z (pos (2 ^ 53 - 1))

-- A JSON text: that of an integer, or any other.
pub data Json : Type 0 where
  integer : ℤ → Json
  other : String → Json

abbrev pub json_eq : Json → Json → Bool
json_eq (integer a) (integer b) = eqℤ a b
json_eq (other a) (other b) = text_eq a b
json_eq _ _ = false

pub data ValueKind : Type 0 where
  config state : ValueKind

abbrev pub kind_eq : ValueKind → ValueKind → Bool
kind_eq config config = true
kind_eq state state = true
kind_eq _ _ = false

pub record ValueRow : Type 0 where
  pub value_kind : ValueKind
  pub feature_id : String
  pub value_key : String
  pub value_json : Json
  pub updated_at_ms : ℕ

pub record VersionRow : Type 0 where
  pub feature_id : String
  pub mutation_version : ℕ

pub record SubjectRow : Type 0 where
  pub feature_id : String
  pub counter_name : String
  pub subject_identity : String
  pub subject_label : String
  pub value_key : String
  pub created_at_ms : ℕ

pub record CooldownRow : Type 0 where
  pub feature_id : String
  pub action_kind : String
  pub scope_key : String
  pub expires_at_ms : ℕ

pub record MigrationRow : Type 0 where
  pub feature_id : String
  pub target_namespace_id : String
  pub sealed_at_ms : ℕ

pub record Storage : Type 0 where
  pub values : List ValueRow
  pub versions : List VersionRow
  pub subjects : List SubjectRow
  pub cooldowns : List CooldownRow
  pub migrations : List MigrationRow

pub data StorageError : Type 0 where
  invalid_feature_id invalid_key invalid_action_kind invalid_scope value_refused : StorageError
  at_capacity amount_invalid not_incrementable : StorageError
  subject_invalid bounds_invalid operation_invalid value_invalid label_invalid : StorageError
  counter_invalid identity_conflict key_conflict : StorageError
  seconds_invalid ledger_full namespace_invalid namespace_conflict : StorageError

-- The regular expressions that names must match.
pub record Patterns : Type 0 where
  pub is_feature_id : String → Bool
  pub is_versioned_kind : String → Bool
  pub is_key : String → Bool
  pub is_scope : String → Bool

-- `requireString`: `none` is a value that is no string.
unfoldable pub require_string :
    Option String → (String → Bool) → StorageError → ℕ → Result StorageError String
unfolding text_length
require_string none pattern error max_length = err error
require_string (some v) pattern error max_length =
    if text_eq v "" || ltb max_length (text_length v) || not (pattern v) then err error else ok v

unfoldable pub require_feature_id : Patterns → Option String → Result StorageError String
unfolding require_string
require_feature_id patterns v = require_string v patterns.is_feature_id invalid_feature_id 100

unfoldable pub require_action_kind : Patterns → Option String → Result StorageError String
unfolding require_string
require_action_kind patterns v = require_string v patterns.is_versioned_kind invalid_action_kind 200

unfoldable pub require_key : Patterns → Option String → Result StorageError String
unfolding require_string
require_key patterns v = require_string v patterns.is_key invalid_key 64

unfoldable pub require_scope_key : Patterns → Option String → Result StorageError String
unfolding require_string
require_scope_key patterns v = require_string v patterns.is_scope invalid_scope 300

unfoldable pub require_namespace_id : Patterns → Option String → Result StorageError String
unfolding require_string
require_namespace_id patterns v = require_string v patterns.is_key namespace_invalid 64

-- A field that is missing, an integer, or anything else.
pub data Field : Type 0 where
  absent not_integer : Field
  number : ℤ → Field
