-- ===== src/Scheduler/Ledger.antt =====
-- The ledger of deliveries under the invariant.
use elmybot.Base.{
  ℕ, String, ◌≡◌, refl, sym, ◌∙◌, subst, inl, inr, true, List, [], ◌∷◌, ◌++◌, arith, Bool-cases,
  Option-cases,
}
use elmybot.Sql.{find, Distinct, insert-Distinct, delete-Distinct, select}
use elmybot.Scheduler.Types.{DeliveryRow, Scheduler}
use elmybot.Scheduler.Storage.{
  occurrence_key, delivered_occurrence, record_delivered_occurrence, is_legacy_entry, record_all,
  migrate_legacy_delivered_ledger, prune_delivered_occurrences, set_next_alarm,
}
use elmybot.Scheduler.Soundness.{IsValid, AreJobs, AreSources}

-- The ledger of deliveries.
abbrev IsLedger : Scheduler → Type 0
IsLedger s = Distinct occurrence_key s.deliveries

record_delivered-IsLedger :
    (key : String) (now : ℕ) (s : Scheduler)
    → IsLedger s
    → IsLedger (record_delivered_occurrence key now s)
unfolding record_delivered_occurrence delivered_occurrence
record_delivered-IsLedger key now s v = elim (Option-cases (find occurrence_key key s.deliveries)) [
  | inr (d, hit) ↦
      let same : record_delivered_occurrence key now s ≡ s = rw hit in subst IsLedger (sym same) v
  | inl miss ↦
      let row : DeliveryRow = record { occurrence_key = key; delivered_at_ms = now } in
      let same : record_delivered_occurrence key now s
          ≡ record s { deliveries = s.deliveries ++ row ∷ [] } =
        rw miss in
      subst IsLedger (sym same) (insert-Distinct occurrence_key s.deliveries row v miss)
]

record_all-IsLedger :
    (entries : List (String × ℕ)) (s : Scheduler) → IsLedger s → IsLedger (record_all entries s)
unfolding record_all
record_all-IsLedger [] s v = v
record_all-IsLedger ((key, at) ∷ rest) s v =
    record_all-IsLedger rest (record_delivered_occurrence key at s)
      (record_delivered-IsLedger key at s v)

-- A step of the ledger leaves the other tables.
abbrev SameTables : Scheduler → Scheduler → Type 0
SameTables s s' =
    (s'.jobs ≡ s.jobs)
    × (s'.sources ≡ s.sources)
    × (s'.last_dead_letter_id ≡ s.last_dead_letter_id)
    × (s'.dead_letters ≡ s.dead_letters)

with_ledger : (s s' : Scheduler) → SameTables s s' → IsLedger s' → IsValid s → IsValid s'
with_ledger s s' (j, x, n, l) k v = record {
  jobs = subst AreJobs (sym j) v.jobs;
  sources = subst AreSources (sym x) v.sources;
  deliveries = k;
  letters = rw (n, l) v.letters;
}

record_delivered-SameTables :
    (key : String) (now : ℕ) (s : Scheduler) → SameTables s (record_delivered_occurrence key now s)
unfolding record_delivered_occurrence
record_delivered-SameTables key now s = elim (Bool-cases (delivered_occurrence key s)) [
  | inl e ↦ (rw e, rw e, rw e, rw e)
  | inr e ↦ (rw e, rw e, rw e, rw e)
]

record_all-SameTables :
    (entries : List (String × ℕ)) (s : Scheduler) → SameTables s (record_all entries s)
unfolding record_all
record_all-SameTables [] s = (refl, refl, refl, refl)
record_all-SameTables ((key, at) ∷ rest) s =
    let s' = record_delivered_occurrence key at s in
    let (j, x, n, l) = record_delivered-SameTables key at s in
    let (j', x', n', l') = record_all-SameTables rest s' in (j' ∙ j, x' ∙ x, n' ∙ n, l' ∙ l)

pub record_delivered-IsValid :
    (key : String) (now : ℕ) (s : Scheduler)
    → IsValid s
    → IsValid (record_delivered_occurrence key now s)
record_delivered-IsValid key now s v =
    with_ledger s (record_delivered_occurrence key now s) (record_delivered-SameTables key now s)
      (record_delivered-IsLedger key now s v.deliveries) v

pub migrate-IsValid : (s : Scheduler) → IsValid s → IsValid (migrate_legacy_delivered_ledger s)
unfolding migrate_legacy_delivered_ledger
migrate-IsValid s v = elim (Bool-cases s.ledger_migrated) [
  | inl e ↦ let same : migrate_legacy_delivered_ledger s ≡ s = rw e in subst IsValid (sym same) v
  | inr e ↦
      let entries = select is_legacy_entry s.legacy_delivered in
      let same : migrate_legacy_delivered_ledger s
          ≡ record (record_all entries s) { ledger_migrated = true; legacy_delivered = [] } =
        ground (arith, e) in
      subst IsValid (sym same) (
        with_ledger s
          (record (record_all entries s) { ledger_migrated = true; legacy_delivered = [] })
          (record_all-SameTables entries s) (record_all-IsLedger entries s v.deliveries) v)
]

pub prune-IsValid :
    (now : ℕ) (s : Scheduler) → IsValid s → IsValid (prune_delivered_occurrences now s)
unfolding prune_delivered_occurrences
prune-IsValid now s v =
    with_ledger s (prune_delivered_occurrences now s) (refl, refl, refl, refl)
      (delete-Distinct occurrence_key _ s.deliveries v.deliveries) v

pub wake-IsValid : (now : ℕ) (s : Scheduler) → IsValid s → IsValid (set_next_alarm now s)
unfolding set_next_alarm
wake-IsValid now s v = with_ledger s (set_next_alarm now s) (refl, refl, refl, refl) v.deliveries v
