-- ===== src/Scheduler/Occurrences.antt =====
-- `claimOccurrence`, `persistOccurrencePlan`, `failOccurrence` and `completeOccurrence`.
use Prim.Native.String.{len}
use elmybot.Base.{
  ℕ, suc, ◌+◌, String, Bool, true, not, ◌&&◌, [], ◌∷◌, ◌++◌, Option, none, some, Result, ok, ◌>>=◌,
  ◌>>◌, throw_if, ltb, leb, ◌==◌, if◌then◌else◌,
}
use elmybot.Scheduler.Types.{
  Job, attempting, retry_wait, dead_letter, LastError, Scheduler, SchedulerError, plan_too_large,
  Failure, Handler,
}
use elmybot.Scheduler.Validate.{max_job_bytes, validate_calculated_schedule}
use elmybot.Scheduler.Storage.{
  find_job, insert_job, update_job, delete_job, pending_delivery, retry_delay_ms, is_retryable,
  stored_error, max_delivery_attempts, prune_dead_letters,
}

-- The stored job, if it is at the same occurrence.
unfoldable pub current_of : Job → Scheduler → Option Job
unfolding find_job
current_of job s = elim (find_job job.id s) [
  | none ↦ none
  | some current ↦ if current.timestamp == job.timestamp then some current else none
]

unfoldable pub attempted : ℕ → Job → Job
attempted attempted_at_ms current = record current {
  delivery = record current.delivery {
    state = attempting;
    attempts = suc current.delivery.attempts;
    next_attempt_at_ms = some attempted_at_ms;
    last_attempt_at_ms = some attempted_at_ms;
  };
}

unfoldable pub save_job : (Job → Bool) → Job → Scheduler → Result SchedulerError Scheduler
unfolding update_job
save_job fits job s = do jobs ← update_job fits job s.jobs; ok (record s { jobs = jobs })

-- `none` where the job is gone or at another occurrence.
unfoldable pub claim_occurrence :
    (Job → Bool) → Job → ℕ → Scheduler → Result SchedulerError (Option (Job × Scheduler))
unfolding current_of attempted save_job
claim_occurrence fits job attempted_at_ms s = elim (current_of job s) [
  | none ↦ ok none
  | some current ↦ do
    s' ← save_job fits (attempted attempted_at_ms current) s
    ok (some (attempted attempted_at_ms current, s'))
]

-- A plan is the JSON text of an object, or `none` for null.
unfoldable pub plan_fits : Option String → Bool
plan_fits none = true
plan_fits (some json) = leb (len json) max_job_bytes

unfoldable pub persist_current :
    (Job → Bool) → Option String → Job → Scheduler → Result SchedulerError (Job × Scheduler)
unfolding save_job
persist_current fits plan current s = elim current.occurrence_plan [
  | some kept ↦ ok (current, s)
  | none ↦ do
    s' ← save_job fits (record current { occurrence_plan = plan }) s
    ok (record current { occurrence_plan = plan }, s')
]

unfoldable pub persist_occurrence_plan :
    (Job → Bool)
    → Job
    → Option String
    → Scheduler
    → Result SchedulerError (Option (Job × Scheduler))
unfolding plan_fits current_of persist_current
persist_occurrence_plan fits job plan s = do
  throw_if (not (plan_fits plan)) plan_too_large
  elim (current_of job s) [
    | none ↦ ok none
    | some current ↦ do persisted ← persist_current fits plan current s; ok (some persisted)
  ]

unfoldable pub waiting : LastError → ℕ → Job → Job
unfolding retry_delay_ms
waiting error failed_at_ms current = record current {
  delivery = record current.delivery {
    state = retry_wait;
    next_attempt_at_ms = some (failed_at_ms + retry_delay_ms current.delivery.attempts);
    last_error = some error;
  };
}

unfoldable pub buried : LastError → Job → Job
buried error current = record current {
  delivery = record current.delivery {
    state = dead_letter;
    next_attempt_at_ms = none;
    last_error = some error;
  };
}

-- DELETE of the job, INSERT of the dead letter, and DELETE of the oldest dead letters.
unfoldable pub bury : LastError → ℕ → Job → Scheduler → Scheduler
unfolding buried prune_dead_letters
bury error failed_at_ms current s = record s {
  jobs = delete_job current.id s.jobs;
  last_dead_letter_id = suc s.last_dead_letter_id;
  dead_letters = prune_dead_letters (
      s.dead_letters
      ++ record {
        dead_letter_id = suc s.last_dead_letter_id;
        failed_at_ms = failed_at_ms;
        job = buried error current;
      }
        ∷ []);
}

unfoldable pub is_retried : Failure → Job → Bool
unfolding is_retryable
is_retried failure current =
    is_retryable failure && ltb current.delivery.attempts max_delivery_attempts

unfoldable pub fail_occurrence :
    (Job → Bool) → Job → Failure → ℕ → Scheduler → Result SchedulerError Scheduler
unfolding current_of is_retried stored_error waiting bury save_job
fail_occurrence fits job failure failed_at_ms s = elim (current_of job s) [
  | none ↦ ok s
  | some current ↦
      let error = stored_error failure failed_at_ms in
      if is_retried failure current
      then save_job fits (waiting error failed_at_ms current) s
      else ok (bury error failed_at_ms current s)
]

unfoldable pub next_occurrence : Job → ℕ → ℕ → Job
unfolding pending_delivery
next_occurrence current timestamp run_at_ms = record current {
  timestamp = timestamp;
  run_at_ms = run_at_ms;
  occurrence_plan = none;
  delivery = pending_delivery run_at_ms;
}

unfoldable pub advance : (Job → Bool) → Handler → Job → Scheduler → Result SchedulerError Scheduler
unfolding validate_calculated_schedule insert_job next_occurrence
advance fits handler current s = do
  (timestamp, run_at_ms) ← validate_calculated_schedule (handler.calc_next current)
  jobs ← insert_job fits (next_occurrence current timestamp run_at_ms) s.jobs
  ok (record s { jobs = jobs })

unfoldable pub complete_occurrence :
    (Job → Bool) → Job → Handler → Scheduler → Result SchedulerError Scheduler
unfolding current_of advance
complete_occurrence fits job handler s = elim (current_of job s) [
  | none ↦ ok s
  | some current ↦
      let removed = record s { jobs = delete_job current.id s.jobs } in
      if current.repeats then advance fits handler current removed else ok removed
]
