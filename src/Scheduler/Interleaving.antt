-- ===== src/Scheduler/Interleaving.antt =====
-- The invariant under every interleaving of steps, and under an alarm.
use elmybot.Base.{ℕ, ◌≡◌, refl, List, [], ◌∷◌, Option, none, some, Result, ok, err, All-every}
use elmybot.Scheduler.Types.{Job, Scheduler, SchedulerError}
use elmybot.Scheduler.Storage.{delivery_key}
use elmybot.Scheduler.Requests.{Externals, schedule, cancel}
use elmybot.Scheduler.Occurrences.{
  claim_occurrence, persist_occurrence_plan, fail_occurrence, complete_occurrence,
}
use elmybot.Scheduler.Calls.{
  Call, schedules, cancels, migrates, prunes, wakes, claims, plans, fails, records, completes, kept,
  kept_with, kept_job, perform, perform_all,
}
use elmybot.Scheduler.Soundness.{IsValid}
use elmybot.Scheduler.Runs.{alarm_loop-holds, alarm_turn-holds, StepHolds}
use elmybot.Scheduler.Ledger.{
  migrate-IsValid, prune-IsValid, record_delivered-IsValid, wake-IsValid,
}
use elmybot.Scheduler.Submissions.{schedule-IsValid, cancel-IsValid}
use elmybot.Scheduler.Lifecycle.{claim-IsValid, persist-IsValid, fail-IsValid, complete-IsValid}
use elmybot.Scheduler.Alarm.{Turn, Clock, begun, alarm, alarm_turn, max_jobs_per_alarm}

kept-IsValid :
    (s : Scheduler) (r : Result SchedulerError Scheduler)
    → ((s' : Scheduler) → r ≡ ok s' → IsValid s')
    → IsValid s
    → IsValid (kept s r)
kept-IsValid s (err e) k v = v
kept-IsValid s (ok s') k v = k s' refl

kept_with-IsValid :
    {A : Type 0} (s : Scheduler) (r : Result SchedulerError (Scheduler × A))
    → ((s' : Scheduler) (a : A) → r ≡ ok (s', a) → IsValid s')
    → IsValid s
    → IsValid (kept_with s r)
kept_with-IsValid s (err e) k v = v
kept_with-IsValid s (ok (s', a)) k v = k s' a refl

kept_job-IsValid :
    (s : Scheduler) (r : Result SchedulerError (Option (Job × Scheduler)))
    → ((job : Job) (s' : Scheduler) → r ≡ ok (some (job, s')) → IsValid s')
    → IsValid s
    → IsValid (kept_job s r)
kept_job-IsValid s (err e) k v = v
kept_job-IsValid s (ok none) k v = v
kept_job-IsValid s (ok (some (job, s'))) k v = k job s' refl

module _ (externals : Externals) where
  perform-IsValid : (c : Call) (s : Scheduler) → IsValid s → IsValid (perform externals c s)
  unfolding perform
  perform-IsValid (schedules handlers request uuid created end) s v =
      kept_with-IsValid s (schedule externals handlers request uuid created end s)
        (λ s' response e.
          schedule-IsValid externals handlers request uuid created end s s' response e v)
        v
  perform-IsValid (cancels id end) s v =
      kept_with-IsValid s (cancel externals id end s)
        (λ s' timestamp e. cancel-IsValid externals id end s s' timestamp e v) v
  perform-IsValid migrates s v = migrate-IsValid s v
  perform-IsValid (prunes now) s v = prune-IsValid now s v
  perform-IsValid (wakes now) s v = wake-IsValid now s v
  perform-IsValid (claims job now) s v =
      kept_job-IsValid s (claim_occurrence externals.fits job now s)
        (λ claimed s' e. claim-IsValid externals.fits job now s s' claimed e v) v
  perform-IsValid (plans job plan) s v =
      kept_job-IsValid s (persist_occurrence_plan externals.fits job plan s)
        (λ claimed s' e. persist-IsValid externals.fits job plan s s' claimed e v) v
  perform-IsValid (fails job failure now) s v =
      kept-IsValid s (fail_occurrence externals.fits job failure now s)
        (λ s' e. fail-IsValid externals.fits job failure now s s' e v) v
  perform-IsValid (records job now) s v =
      record_delivered-IsValid (delivery_key externals.decimal job) now s v
  perform-IsValid (completes job handler) s v =
      kept-IsValid s (complete_occurrence externals.fits job handler s)
        (λ s' e. complete-IsValid externals.fits job handler s s' e v) v

  -- Every interleaving of steps keeps the invariant.
  pub perform_all-IsValid :
      (cs : List Call) (s : Scheduler) → IsValid s → IsValid (perform_all externals cs s)
  unfolding perform_all
  perform_all-IsValid [] s v = v
  perform_all-IsValid (c ∷ cs) s v =
      perform_all-IsValid cs (perform externals c s) (perform-IsValid c s v)

  -- A round of an alarm, whatever its handlers answer and requests do meanwhile.
  pub alarm_turn-IsValid :
      (started processed : ℕ) (turn : Turn) (s : Scheduler)
      → IsValid s
      → StepHolds IsValid (alarm_turn externals started processed turn s)
  alarm_turn-IsValid started processed turn s v =
      alarm_turn-holds externals IsValid (λ c. Unit) (λ c _. perform-IsValid c)
        (λ c _. perform-IsValid c) started processed turn
        (
          All-every (λ c. Unit) (λ c. tt) turn.while_preparing,
          All-every (λ c. Unit) (λ c. tt) turn.while_delivering,
        )
        s v

  -- An alarm keeps the invariant, whatever the handlers answer and requests do meanwhile, and
  -- whether it ends or throws.
  pub alarm-IsValid :
      (clock : Clock) (turns : ℕ → Turn) (s : Scheduler)
      → IsValid s
      → IsValid (alarm externals clock turns s).scheduler
  unfolding alarm begun
  alarm-IsValid clock turns s v =
      let start = prune-IsValid clock.prune_ms _ (migrate-IsValid s v) in
      wake-IsValid clock.end_ms _ (
        alarm_loop-holds externals IsValid (λ c. Unit) (λ c _. perform-IsValid c)
          (λ c _. perform-IsValid c) clock.started_at_ms max_jobs_per_alarm 0 turns _
          (λ n. (
            All-every (λ c. Unit) (λ c. tt) (turns n).while_preparing,
            All-every (λ c. Unit) (λ c. tt) (turns n).while_delivering,
          ))
          start)
