-- ===== src/FeatureStorage/Cooldowns.antt =====
-- Cooldowns: `pruneExpiredCooldowns` and `claimFeatureCooldownInTransaction`.
use elmybot.Base.{
  ℕ, ◌+◌, ◌-◌, ◌*◌, ◌/◌, max, String, Bool, ◌&&◌, List, Option, none, some, Result, ok, err, ◌>>=◌,
  or_throw, text_eq, ltb, leb, ◌==◌, take, length, if◌then◌else◌,
}
use elmybot.Sql.{select, delete, first, upsert, order_by, any_row}
use elmybot.FeatureStorage.Types.{
  pos, negsuc, CooldownRow, StorageError, seconds_invalid, ledger_full, Patterns,
  require_feature_id, require_action_kind, require_scope_key, Field, absent, not_integer, number,
}

abbrev pub max_cooldown_rows : ℕ
max_cooldown_rows = 10_000

abbrev pub cooldown_prune_batch_size : ℕ
cooldown_prune_batch_size = 100

pub record Scope : Type 0 where
  pub feature_id : String
  pub action_kind : String
  pub scope_key : String

unfoldable pub is_scope : Scope → CooldownRow → Bool
is_scope k x =
    text_eq x.feature_id k.feature_id
    && text_eq x.action_kind k.action_kind
    && text_eq x.scope_key k.scope_key

unfoldable pub expired : ℕ → CooldownRow → Bool
expired now_ms x = leb x.expires_at_ms now_ms

-- The same row, which `rowid` stands for in the source.
unfoldable pub same_row : CooldownRow → CooldownRow → Bool
same_row a b =
    text_eq a.feature_id b.feature_id
    && text_eq a.action_kind b.action_kind
    && text_eq a.scope_key b.scope_key
    && (a.expires_at_ms == b.expires_at_ms)

-- The rows that are pruned: the first 100 that have expired.
unfoldable pub pruned_rows : ℕ → List CooldownRow → List CooldownRow
unfolding expired
pruned_rows now_ms rows = take cooldown_prune_batch_size (
    order_by (λ (a b : CooldownRow). ltb a.expires_at_ms b.expires_at_ms)
      (select (expired now_ms) rows))

unfoldable pub prune_expired_cooldowns : ℕ → List CooldownRow → List CooldownRow
unfolding pruned_rows same_row
prune_expired_cooldowns now_ms rows =
    delete (λ (x : CooldownRow). any_row (same_row x) (pruned_rows now_ms rows)) rows

-- What a claim answers: `refused` with the seconds to wait.
pub data Answer : Type 0 where
  allowed : Answer
  refused : ℕ → Answer

-- `Math.max(1, Math.ceil(ms / 1000))`
unfoldable pub wait_seconds : ℕ → ℕ
wait_seconds ms = max 1 ((ms + 999) / 1000)

unfoldable pub write_cooldown : Scope → ℕ → List CooldownRow → List CooldownRow
unfolding is_scope upsert
write_cooldown k expires_at_ms rows =
    upsert (is_scope k) (λ (x : CooldownRow). record x { expires_at_ms = expires_at_ms })
      (record {
        feature_id = k.feature_id;
        action_kind = k.action_kind;
        scope_key = k.scope_key;
        expires_at_ms = expires_at_ms;
      })
      rows

-- The claim once expired rows are pruned.
unfoldable pub claim_scope :
    Scope → ℕ → ℕ → List CooldownRow → Result StorageError (List CooldownRow × Answer)
unfolding is_scope write_cooldown wait_seconds
claim_scope k seconds now_ms rows = elim (first (is_scope k) rows) [
  | some x ↦
      if ltb now_ms x.expires_at_ms
      then ok (rows, refused (wait_seconds (x.expires_at_ms - now_ms)))
      else ok (write_cooldown k (now_ms + seconds * 1000) rows, allowed)
  | none ↦
      if leb max_cooldown_rows (length rows)
      then err ledger_full
      else ok (write_cooldown k (now_ms + seconds * 1000) rows, allowed)
]

unfoldable pub claim_pruned :
    Scope → ℕ → ℕ → List CooldownRow → Result StorageError (List CooldownRow × Answer)
unfolding prune_expired_cooldowns claim_scope
claim_pruned k seconds now_ms rows =
    claim_scope k seconds now_ms (prune_expired_cooldowns now_ms rows)

-- An integer from 1 to a day's seconds.
unfoldable pub cooldown_seconds : Field → Option ℕ
cooldown_seconds (number (pos n)) = if leb 1 n && leb n 86_400 then some n else none
cooldown_seconds (number (negsuc n)) = none
cooldown_seconds absent = none
cooldown_seconds not_integer = none

-- The rows after a transaction, which an error rolls back.
unfoldable pub claim_feature_cooldown :
    Patterns
    → Option String
    → Option String
    → Option String
    → Field
    → ℕ
    → List CooldownRow
    → Result StorageError (List CooldownRow × Answer)
unfolding require_feature_id require_action_kind require_scope_key cooldown_seconds claim_pruned
claim_feature_cooldown patterns feature action scope seconds now_ms rows = do
  feature_id ← require_feature_id patterns feature
  action_kind ← require_action_kind patterns action
  scope_key ← require_scope_key patterns scope
  seconds ← or_throw (cooldown_seconds seconds) seconds_invalid
  claim_pruned
      (record { feature_id = feature_id; action_kind = action_kind; scope_key = scope_key }) seconds
      now_ms rows
