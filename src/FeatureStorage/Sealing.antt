-- ===== src/FeatureStorage/Sealing.antt =====
-- A feature's old state moves to one namespace only.
use elmybot.Base.{
  ℕ, String, ◌≡◌, refl, sym, ap, ◌∙◌, inl, inr, none, some, arith, ok, err, text_eq, text_eq→≡,
  text_eq_refl, Bool-cases, Option-cases, if◌then◌else◌,
}
use elmybot.Sql.{first, upsert, first-upsert}
use elmybot.FeatureStorage.Types.{MigrationRow, Storage, namespace_conflict}
use elmybot.FeatureStorage.Migration.{is_migration, Snapshot, snapshot, seal, migrate}

-- What a successful migration leaves.
IsSealed : String → String → Storage → Snapshot → Type 0
IsSealed feature target s snap =
    (x : MigrationRow) × (first (is_migration feature) s.migrations ≡ some x)
    × (x.target_namespace_id ≡ target)
    × (x.sealed_at_ms ≡ snap.sealed_at_ms)

migrate-IsSealed :
    (feature target : String) (now : ℕ) (s s' : Storage) (snap : Snapshot)
    → migrate feature target now s ≡ ok (s', snap)
    → IsSealed feature target s' snap
unfolding migrate seal snapshot IsSealed
migrate-IsSealed feature target now s s' snap h =
    elim (Option-cases (first (is_migration feature) s.migrations)) [
      | inl miss ↦
          let new : MigrationRow = record {
            feature_id = feature;
            target_namespace_id = target;
            sealed_at_ms = now;
          } in
          let left : s'.migrations ≡ upsert (is_migration feature) (λ x. x) new s.migrations =
            ground arith in
          let stored =
            first-upsert (is_migration feature) (λ x. x) (λ x. refl) new s.migrations
              (text_eq_refl feature) in
          (
            new,
            ap (first (is_migration feature)) left
                ∙ stored
                ∙ ap (λ o. some (elim o [ none ↦ new | some x ↦ x ])) miss,
            refl,
            ground arith,
          )
      | inr (x, hit) ↦ elim (Bool-cases (text_eq x.target_namespace_id target)) [
        | inr elsewhere ↦ absurd (ground arith)
        | inl there ↦
            let same : s ≡ s' = ground arith in
            (
              x,
              ap (λ z. first (is_migration feature) z.migrations) (sym same) ∙ hit,
              text_eq→≡ x.target_namespace_id target there,
              ground arith,
            )
      ]
    ]

-- After a migration of a feature's state, another one to the same namespace leaves everything as it
-- is and names the same time, and one to another namespace is refused.
pub migrate_again :
    (feature target other : String) (now later : ℕ) (s s' : Storage) (snap : Snapshot)
    → migrate feature target now s ≡ ok (s', snap)
    → migrate feature other later s' ≡ (
        if text_eq target other
        then ok (s', snapshot feature other snap.sealed_at_ms s')
        else err namespace_conflict)
unfolding migrate IsSealed
migrate_again feature target other now later s s' snap h =
    let (x, stored, same_target, same_time) = migrate-IsSealed feature target now s s' snap h in
    let same = ap (λ t. text_eq t other) same_target in
    elim (Bool-cases (text_eq target other)) [
      | inl e ↦ rw (stored, migrate, same, e, same_time)
      | inr e ↦ rw (stored, migrate, same, e)
    ]
