-- ===== src/FeatureStorage/Migration.antt =====
-- The migration of a feature's old state, which it seals: `legacyFeatureStateMigration`.
use elmybot.Base.{
  ℕ, String, Bool, true, false, List, Option, none, some, Result, ok, err, ◌>>=◌, text_eq, text_lt,
  is_some, if◌then◌else◌,
}
use elmybot.Sql.{select, first, upsert, order_by, any_row}
use elmybot.FeatureStorage.Types.{
  state, ValueRow, SubjectRow, MigrationRow, Storage, StorageError, namespace_conflict, Patterns,
  require_feature_id, require_namespace_id,
}
use elmybot.FeatureStorage.Values.{in_namespace}

abbrev pub is_migration : String → MigrationRow → Bool
is_migration feature x = text_eq x.feature_id feature

-- What a migration hands over: the state's values by key, and the subjects of its counters.
pub record Snapshot : Type 0 where
  pub feature_id : String
  pub target_namespace_id : String
  pub sealed_at_ms : ℕ
  pub entries : List ValueRow
  pub counter_subjects : List SubjectRow

unfoldable pub subject_before : SubjectRow → SubjectRow → Bool
subject_before a b =
    if text_lt a.counter_name b.counter_name
    then true
    else if text_lt b.counter_name a.counter_name
    then false
    else text_lt a.subject_identity b.subject_identity

unfoldable pub snapshot : String → String → ℕ → Storage → Snapshot
unfolding in_namespace subject_before
snapshot feature target sealed_at_ms s =
    let entries =
      order_by (λ (a b : ValueRow). text_lt a.value_key b.value_key)
        (select (in_namespace state feature) s.values) in
    record {
      feature_id = feature;
      target_namespace_id = target;
      sealed_at_ms = sealed_at_ms;
      entries = entries;
      counter_subjects =
          select
            (λ (x : SubjectRow).
              any_row (λ (e : ValueRow). text_eq e.value_key x.value_key) entries)
            (order_by subject_before
              (select (λ (x : SubjectRow). text_eq x.feature_id feature) s.subjects));
    }

unfoldable pub seal : String → String → ℕ → Storage → Storage
seal feature target now_ms s = record s {
  migrations =
      upsert (is_migration feature) (λ x. x)
        (record { feature_id = feature; target_namespace_id = target; sealed_at_ms = now_ms })
        s.migrations;
}

-- The transaction of `legacyFeatureStateMigration`.
unfoldable pub migrate : String → String → ℕ → Storage → Result StorageError (Storage × Snapshot)
unfolding snapshot seal
migrate feature target now_ms s = elim (first (is_migration feature) s.migrations) [
  | none ↦ ok (seal feature target now_ms s, snapshot feature target now_ms s)
  | some existing ↦
      if text_eq existing.target_namespace_id target
      then ok (s, snapshot feature target existing.sealed_at_ms s)
      else err namespace_conflict
]

unfoldable pub legacy_feature_state_migration :
    Patterns
    → Option String
    → Option String
    → ℕ
    → Storage
    → Result StorageError (Storage × Snapshot)
unfolding require_feature_id require_namespace_id migrate
legacy_feature_state_migration patterns feature target now_ms s = do
  feature_id ← require_feature_id patterns feature
  target_id ← require_namespace_id patterns target
  migrate feature_id target_id now_ms s

unfoldable pub legacy_feature_state_is_sealed : String → Storage → Bool
legacy_feature_state_is_sealed feature s = is_some (first (is_migration feature) s.migrations)
