-- ===== src/Publications/Refinement.antt =====
-- The requests of the ledger refine the abstract ledger.
use elmybot.Base.{
  ℕ, ◌+◌, String, ◌≡◌, refl, sym, ap, ◌∙◌, inl, inr, Bool, false, not, List, Option, none, some,
  arith, or_else, map?, ok, text_eq, leb, Bool-cases, Option-cases, bind-elim, throw_if, or_throw,
  if◌then◌else◌,
}
use elmybot.Sql.{
  find, Distinct, update, delete, find-update, update-Distinct, delete-Distinct, find-has_key,
  find-select,
}
use elmybot.Publications.Types.{
  LedgerError, PublicationState, pending, committed, rejected, Publication, Answer,
}
use elmybot.Publications.Ledger.{
  event_id, public_row, prune, is_overdue, given_up, is_outdated, is_waiting, require_text,
  require_row, receipt_retention_ms,
}
use elmybot.Publications.View.{Entry, entry_of, view, pruned, pruned?, Call, event_of, act}

-- A lookup under an UPDATE that keeps the keys.
pub view-update :
    (p : Publication → Bool) (f : Publication → Publication)
    → ((x : Publication) → event_id (f x) ≡ event_id x)
    → (g : Entry → Entry) (rows : List Publication) (id : String)
    → ((x : Publication) → event_id x ≡ id → entry_of (if p x then f x else x) ≡ g (entry_of x))
    → view (update p f rows) id ≡ map? g (view rows id)
unfolding view
view-update p f keep g rows id h = elim (Option-cases (find event_id id rows)) [
  | inl miss ↦ ap (map? entry_of) (find-update event_id p f keep id rows) ∙ rw miss
  | inr (x, hit) ↦
      ap (map? entry_of) (
        find-update event_id p f keep id rows
        ∙ ap (map? (λ (y : Publication). if p y then f y else y)) hit)
      ∙ ap some (h x (find-has_key event_id id rows hit))
      ∙ sym (ap (λ o. map? g (map? entry_of o)) hit)
]

later_false : (now : ℕ) → leb (now + receipt_retention_ms) now ≡ false
later_false now = ground arith

-- What `prune` leaves of a row.
abbrev PrunesAs : ℕ → Publication → Type 0
PrunesAs now x =
    let y = if is_overdue now x then given_up now x else x in
    map? entry_of (if not (is_outdated now y) then some y else none) ≡ pruned now (entry_of x)

prune_row :
    (now : ℕ) (x : Publication) (s : PublicationState) → PrunesAs now (record x { state = s })
unfolding is_overdue is_outdated given_up is_waiting entry_of pruned public_row
prune_row now x pending = elim (Bool-cases (leb x.expires_at_ms now)) [
  | inl over ↦ rw (over, later_false now)
  | inr early ↦ rw early
]
prune_row now x committed = elim (Bool-cases (leb x.expires_at_ms now)) [
  | inl over ↦ rw over
  | inr early ↦ rw early
]
prune_row now x rejected = elim (Bool-cases (leb x.expires_at_ms now)) [
  | inl over ↦ rw over
  | inr early ↦ rw early
]

pub prune-view :
    (now : ℕ) (rows : List Publication)
    → Distinct event_id rows
    → (id : String) → view (prune now rows) id ≡ pruned? now (view rows id)
unfolding prune view delete
prune-view now rows d id =
    let p = is_overdue now in
    let f = given_up now in
    let changed = update p f rows in
    let d' = update-Distinct event_id p f (λ x. refl) rows d in
    let q = λ (x : Publication). not (is_outdated now x) in
    let left = find-select event_id id q changed d' in
    let by = λ (o : Option Publication).
      map? entry_of (elim o [ none ↦ none | some r ↦ if q r then some r else none ]) in
    elim (Option-cases (find event_id id rows)) [
      | inl miss ↦
          let gone : find event_id id changed ≡ none =
            find-update event_id p f (λ x. refl) id rows
            ∙ ap (map? (λ (x : Publication). if p x then f x else x)) miss in
          ap (map? entry_of) left ∙ ap by gone ∙ sym (ap (λ o. pruned? now (map? entry_of o)) miss)
      | inr (x, hit) ↦
          let now_row : find event_id id changed ≡ some (if p x then f x else x) =
            find-update event_id p f (λ x. refl) id rows
            ∙ ap (map? (λ (x : Publication). if p x then f x else x)) hit in
          ap (map? entry_of) left
          ∙ ap by now_row
          ∙ prune_row now x x.state
          ∙ sym (ap (λ o. pruned? now (map? entry_of o)) hit)
    ]

pub prune-Distinct :
    (now : ℕ) (rows : List Publication)
    → Distinct event_id rows
    → Distinct event_id (prune now rows)
unfolding prune
prune-Distinct now rows d =
    delete-Distinct event_id (is_outdated now) _
      (update-Distinct event_id (is_overdue now) (given_up now) (λ x. refl) rows d)

-- What a request that succeeds leaves, and what it answers.
abbrev pub IsRefined : Call → List Publication → List Publication → Answer → Type 0
IsRefined c rows rows' answer =
    Distinct event_id rows'
    × ((id : String) → view rows' id ≡ act c id (view rows id))
    × (map? (λ (e : Entry). e.outcome) (view rows' (event_of c)) ≡ some answer)

-- The text of a field that passed its pattern.
pub require_text-some :
    (test : String → Bool) (o : Option String) (e : LedgerError) (text : String)
    → require_text test o e ≡ ok text
    → or_else o "" ≡ text
unfolding require_text
require_text-some test none e text h = absurd (cc h)
require_text-some test (some t) e text h = elim (Bool-cases (test t)) [
  | inl good ↦ ground (arith, good, h)
  | inr bad ↦ absurd (ground (arith, bad, h))
]

pub require_row-found :
    (id fingerprint : String) (rows : List Publication) (x : Publication)
    → require_row id fingerprint rows ≡ ok x
    → find event_id id rows ≡ some x
unfolding require_row
require_row-found id fingerprint rows x h =
    bind-elim (or_throw (find event_id id rows) _) _ x h (λ y found rest.
      bind-elim (throw_if (not (text_eq y.fingerprint fingerprint)) _) (λ _. ok y) x rest
        (λ _ _ done.
          let same : y ≡ x = cc done in
          elim (Option-cases (find event_id id rows)) [
            | inl miss ↦ absurd (ground (arith, miss, found))
            | inr (z, hit) ↦
                let it : z ≡ y = ground (arith, hit, found) in hit ∙ ap some (it ∙ same)
          ]))
