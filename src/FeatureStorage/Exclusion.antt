-- ===== src/FeatureStorage/Exclusion.antt =====
-- A cooldown that is claimed is refused until it has run out.
use elmybot.Base.{
  ℕ, ◌+◌, ◌-◌, ◌*◌, ◌≤◌, ◌<◌, ◌≡◌, refl, ap, ◌∙◌, inl, inr, true, false, not, List, [], ◌∷◌, Option,
  none, some, ok, arith, text_eq_refl, ltb, leb, length, All, All-take, Bool-cases, Option-cases,
}
use elmybot.Sql.{
  select, delete, first, any_row, first-upsert, first-select-some, order_by-All, select-holds,
}
use elmybot.FeatureStorage.Types.{CooldownRow}
use elmybot.FeatureStorage.Cooldowns.{
  Scope, is_scope, expired, same_row, pruned_rows, prune_expired_cooldowns, allowed, refused,
  wait_seconds, write_cooldown, claim_scope, claim_pruned, cooldown_prune_batch_size,
  max_cooldown_rows,
}

-- A row that no row of a list of expired ones is.
kept :
    (t : ℕ) (x : CooldownRow) (victims : List CooldownRow)
    → All (λ v. expired t v ≡ true) victims
    → t < x.expires_at_ms
    → any_row (same_row x) victims ≡ false
unfolding any_row same_row expired
kept t x [] h later = refl
kept t x (v ∷ vs) h later = ground (arith, h.0, later, kept t x vs h.1 later)

pruned_rows-expired :
    (t : ℕ) (rows : List CooldownRow) → All (λ v. expired t v ≡ true) (pruned_rows t rows)
unfolding pruned_rows
pruned_rows-expired t rows =
    All-take (λ v. expired t v ≡ true) cooldown_prune_batch_size _
      (order_by-All (λ v. expired t v ≡ true) _ (select (expired t) rows)
        (select-holds (expired t) rows))

-- Pruning keeps the row of a cooldown that runs.
prune-first :
    (k : Scope) (t : ℕ) (rows : List CooldownRow) (x : CooldownRow)
    → first (is_scope k) rows ≡ some x
    → t < x.expires_at_ms
    → first (is_scope k) (prune_expired_cooldowns t rows) ≡ some x
unfolding prune_expired_cooldowns delete
prune-first k t rows x hit later =
    first-select-some (is_scope k) (λ y. not (any_row (same_row y) (pruned_rows t rows))) rows x hit
      (ap not (kept t x (pruned_rows t rows) (pruned_rows-expired t rows) later))

renewed-is_scope :
    (k : Scope) (t : ℕ) (x : CooldownRow)
    → is_scope k (record x { expires_at_ms = t }) ≡ is_scope k x
unfolding is_scope
renewed-is_scope k t x = refl

new_row-is_scope :
    (k : Scope) (t : ℕ)
    → is_scope k (record {
      feature_id = k.feature_id;
      action_kind = k.action_kind;
      scope_key = k.scope_key;
      expires_at_ms = t;
    })
      ≡ true
unfolding is_scope
new_row-is_scope k t =
    rw (text_eq_refl k.feature_id, text_eq_refl k.action_kind, text_eq_refl k.scope_key)

write_cooldown-first :
    (k : Scope) (t : ℕ) (rows : List CooldownRow)
    → (x : CooldownRow) × (first (is_scope k) (write_cooldown k t rows) ≡ some x)
      × (x.expires_at_ms ≡ t)
unfolding write_cooldown
write_cooldown-first k t rows =
    let new : CooldownRow = record {
      feature_id = k.feature_id;
      action_kind = k.action_kind;
      scope_key = k.scope_key;
      expires_at_ms = t;
    } in
    let stored =
      first-upsert (is_scope k) (λ x. record x { expires_at_ms = t }) (renewed-is_scope k t) new
        rows (new_row-is_scope k t) in
    by_row (first (is_scope k) rows) stored
  where
    by_row :
        (o : Option CooldownRow) {left : Option CooldownRow}
        → left
          ≡ some (elim o [
            | none ↦ record {
              feature_id = k.feature_id;
              action_kind = k.action_kind;
              scope_key = k.scope_key;
              expires_at_ms = t;
            }
            | some x ↦ record x { expires_at_ms = t }
          ])
        → (x : CooldownRow) × (left ≡ some x) × (x.expires_at_ms ≡ t)
    by_row none h = (_, h, refl)
    by_row (some x) h = (_, h, refl)

-- An allowed claim leaves its cooldown running for the seconds that it asked for.
claim_scope-writes :
    (k : Scope) (seconds now : ℕ) (rows rows' : List CooldownRow)
    → claim_scope k seconds now rows ≡ ok (rows', allowed)
    → rows' ≡ write_cooldown k (now + seconds * 1000) rows
unfolding claim_scope
claim_scope-writes k seconds now rows rows' h = elim (Option-cases (first (is_scope k) rows)) [
  | inl miss ↦ elim (Bool-cases (leb max_cooldown_rows (length rows))) [
    | inl full ↦ absurd (ground arith)
    | inr room ↦ ground arith
  ]
  | inr (x, hit) ↦ elim (Bool-cases (ltb now x.expires_at_ms)) [
    | inl runs ↦ absurd (ground arith)
    | inr over ↦ ground arith
  ]
]

wait-bounds :
    (now later seconds : ℕ)
    → now ≤ later
    → later < now + seconds * 1000
    → (1 ≤ wait_seconds (now + seconds * 1000 - later))
      × (wait_seconds (now + seconds * 1000 - later) ≤ seconds)
unfolding wait_seconds
wait-bounds now later seconds h running = (omega arith, omega (arith, h, running))

claim_scope-refuses :
    (k : Scope) (seconds now : ℕ) (rows : List CooldownRow) (x : CooldownRow)
    → first (is_scope k) rows ≡ some x
    → now < x.expires_at_ms
    → claim_scope k seconds now rows ≡ ok (rows, refused (wait_seconds (x.expires_at_ms - now)))
unfolding claim_scope
claim_scope-refuses k seconds now rows x hit later =
    let runs : ltb now x.expires_at_ms ≡ true = ground (arith, later) in
    rw (hit, claim_scope) (rw runs)

-- After an allowed claim of a cooldown, every other claim of it is refused until its seconds have
-- passed, with a time to wait from 1 s to the cooldown's length.
pub claim_pruned-exclusive :
    (k : Scope) (seconds again now later : ℕ) (rows rows' : List CooldownRow)
    → claim_pruned k seconds now rows ≡ ok (rows', allowed)
    → now ≤ later
    → later < now + seconds * 1000
    → (n : ℕ) × (claim_pruned k again later rows'
        ≡ ok (prune_expired_cooldowns later rows', refused n))
      × (1 ≤ n)
      × (n ≤ seconds)
unfolding claim_pruned
claim_pruned-exclusive k seconds again now later rows rows' h after running =
    let pruned = prune_expired_cooldowns now rows in
    let written = claim_scope-writes k seconds now pruned rows' h in
    let (x, stored, expires) = write_cooldown-first k (now + seconds * 1000) pruned in
    let there : first (is_scope k) rows' ≡ some x = ap (first (is_scope k)) written ∙ stored in
    let runs : later < x.expires_at_ms = omega (arith, expires, running) in
    let kept_row = prune-first k later rows' x there runs in
    let bounds = wait-bounds now later seconds after running in
    (
      wait_seconds (now + seconds * 1000 - later),
      claim_scope-refuses k again later (prune_expired_cooldowns later rows') x kept_row runs
          ∙ ap (λ t. ok (prune_expired_cooldowns later rows', refused (wait_seconds (t - later))))
              expires,
      bounds.0,
      bounds.1,
    )
