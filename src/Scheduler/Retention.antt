-- ===== src/Scheduler/Retention.antt =====
-- What is in the ledger of deliveries stays there, until the alarm prunes it.
use elmybot.Base.{
  ℕ, String, ◌≡◌, refl, ◌∙◌, ap, inl, inr, true, [], ◌∷◌, ◌++◌, Option, none, some, is_some, Result,
  ok, err, Bool-cases, Option-cases,
}
use elmybot.Sql.{find}
use elmybot.Scheduler.Types.{Job, DeliveryRow, Scheduler, SchedulerError}
use elmybot.Scheduler.Storage.{
  occurrence_key, delivered_occurrence, record_delivered_occurrence, delivery_key,
}
use elmybot.Scheduler.Requests.{Externals, schedule, cancel}
use elmybot.Scheduler.Occurrences.{
  claim_occurrence, persist_occurrence_plan, fail_occurrence, complete_occurrence,
}
use elmybot.Scheduler.Calls.{
  Call, schedules, cancels, migrates, prunes, wakes, claims, plans, fails, records, completes, kept,
  kept_with, kept_job, perform,
}
use elmybot.Base.{first_some, text_eq_refl}
use elmybot.Sql.{find-append}
use elmybot.Scheduler.Runs.{IsOwn}
use elmybot.Scheduler.Growth.{
  SameLedger, claim-SameLedger, persist-SameLedger, fail-SameLedger, complete-SameLedger,
  schedule-SameLedger, cancel-SameLedger,
}

-- The occurrence of the key is in the ledger.
abbrev pub IsDelivered : String → Scheduler → Type 0
IsDelivered key s = delivered_occurrence key s ≡ true

SameLedger-IsDelivered :
    (key : String) (s s' : Scheduler) → SameLedger s s' → IsDelivered key s → IsDelivered key s'
unfolding delivered_occurrence
SameLedger-IsDelivered key s s' same d = ap (λ l. is_some (find occurrence_key key l)) same ∙ d

is_some_first : {A : Type 0} (o p : Option A) → is_some o ≡ true → is_some (first_some o p) ≡ true
is_some_first none p e = absurd (cc e)
is_some_first (some a) p e = refl

record-IsDelivered :
    (key other : String) (now : ℕ) (s : Scheduler)
    → IsDelivered key s
    → IsDelivered key (record_delivered_occurrence other now s)
unfolding record_delivered_occurrence delivered_occurrence
record-IsDelivered key other now s d = elim (Bool-cases (delivered_occurrence other s)) [
  | inl e ↦ rw e d
  | inr e ↦
      let row : DeliveryRow = record { occurrence_key = other; delivered_at_ms = now } in
      rw e (
        ap is_some (find-append occurrence_key key s.deliveries (row ∷ []))
        ∙ is_some_first (find occurrence_key key s.deliveries) (find occurrence_key key (row ∷ []))
            d)
]

-- The key that is recorded is in the ledger.
pub record-IsDelivered_self :
    (key : String) (now : ℕ) (s : Scheduler)
    → IsDelivered key (record_delivered_occurrence key now s)
unfolding record_delivered_occurrence delivered_occurrence find
record-IsDelivered_self key now s = elim (Option-cases (find occurrence_key key s.deliveries)) [
  | inr (d, hit) ↦ rw (hit, hit)
  | inl miss ↦
      let row : DeliveryRow = record { occurrence_key = key; delivered_at_ms = now } in
      let added : find occurrence_key key (s.deliveries ++ row ∷ []) ≡ some row =
        find-append occurrence_key key s.deliveries (row ∷ [])
        ∙ ap (λ o. first_some o (find occurrence_key key (row ∷ []))) miss
        ∙ rw (text_eq_refl key) in
      rw (miss, added)
]

-- The steps of requests, which leave the ledger: all but those of the alarm's beginning.
abbrev pub IsRequest : Call → Type 0
IsRequest (schedules handlers request uuid created_ms end_ms) = Unit
IsRequest (cancels id end_ms) = Unit
IsRequest other = ⊥

kept-IsDelivered :
    (key : String) (s : Scheduler) (r : Result SchedulerError Scheduler)
    → ((s' : Scheduler) → r ≡ ok s' → SameLedger s s')
    → IsDelivered key s
    → IsDelivered key (kept s r)
kept-IsDelivered key s (err e) k d = d
kept-IsDelivered key s (ok s') k d = SameLedger-IsDelivered key s s' (k s' refl) d

kept_with-IsDelivered :
    {A : Type 0} (key : String) (s : Scheduler) (r : Result SchedulerError (Scheduler × A))
    → ((s' : Scheduler) (a : A) → r ≡ ok (s', a) → SameLedger s s')
    → IsDelivered key s
    → IsDelivered key (kept_with s r)
kept_with-IsDelivered key s (err e) k d = d
kept_with-IsDelivered key s (ok (s', a)) k d = SameLedger-IsDelivered key s s' (k s' a refl) d

kept_job-IsDelivered :
    (key : String) (s : Scheduler) (r : Result SchedulerError (Option (Job × Scheduler)))
    → ((job : Job) (s' : Scheduler) → r ≡ ok (some (job, s')) → SameLedger s s')
    → IsDelivered key s
    → IsDelivered key (kept_job s r)
kept_job-IsDelivered key s (err e) k d = d
kept_job-IsDelivered key s (ok none) k d = d
kept_job-IsDelivered key s (ok (some (job, s'))) k d =
    SameLedger-IsDelivered key s s' (k job s' refl) d

module _ (externals : Externals) (key : String) where
  pub request-IsDelivered :
      (c : Call)
      → IsRequest c
      → (s : Scheduler) → IsDelivered key s
      → IsDelivered key (perform externals c s)
  unfolding perform
  request-IsDelivered (schedules handlers request uuid created end) q s d =
      kept_with-IsDelivered key s (schedule externals handlers request uuid created end s)
        (λ s' response e.
          schedule-SameLedger externals handlers request uuid created end s s' response e)
        d
  request-IsDelivered (cancels id end) q s d =
      kept_with-IsDelivered key s (cancel externals id end s)
        (λ s' timestamp e. cancel-SameLedger externals id end s s' timestamp e) d
  request-IsDelivered migrates q s d = elim q [ ]
  request-IsDelivered (prunes _) q s d = elim q [ ]
  request-IsDelivered (wakes _) q s d = elim q [ ]
  request-IsDelivered (claims _ _) q s d = elim q [ ]
  request-IsDelivered (plans _ _) q s d = elim q [ ]
  request-IsDelivered (fails _ _ _) q s d = elim q [ ]
  request-IsDelivered (records _ _) q s d = elim q [ ]
  request-IsDelivered (completes _ _) q s d = elim q [ ]

  pub own-IsDelivered :
      (c : Call)
      → IsOwn c
      → (s : Scheduler) → IsDelivered key s
      → IsDelivered key (perform externals c s)
  unfolding perform
  own-IsDelivered (claims job now) q s d =
      kept_job-IsDelivered key s (claim_occurrence externals.fits job now s)
        (λ claimed s' e. claim-SameLedger externals.fits job now s s' claimed e) d
  own-IsDelivered (plans job plan) q s d =
      kept_job-IsDelivered key s (persist_occurrence_plan externals.fits job plan s)
        (λ claimed s' e. persist-SameLedger externals.fits job plan s s' claimed e) d
  own-IsDelivered (fails job failure now) q s d =
      kept-IsDelivered key s (fail_occurrence externals.fits job failure now s)
        (λ s' e. fail-SameLedger externals.fits job failure now s s' e) d
  own-IsDelivered (records job now) q s d =
      record-IsDelivered key (delivery_key externals.decimal job) now s d
  own-IsDelivered (completes job handler) q s d =
      kept-IsDelivered key s (complete_occurrence externals.fits job handler s)
        (λ s' e. complete-SameLedger externals.fits job handler s s' e) d
  own-IsDelivered (schedules _ _ _ _ _) q s d = elim q [ ]
  own-IsDelivered (cancels _ _) q s d = elim q [ ]
  own-IsDelivered migrates q s d = elim q [ ]
  own-IsDelivered (prunes _) q s d = elim q [ ]
  own-IsDelivered (wakes _) q s d = elim q [ ]
