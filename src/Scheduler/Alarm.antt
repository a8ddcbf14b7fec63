-- ===== src/Scheduler/Alarm.antt =====
-- `alarm` with its loop, and the steps that run while it awaits a handler.
use elmybot.Base.{
  ℕ, zero, suc, String, false, ◌&&◌, not, List, Option, none, some, Result, ok, err, ltb, is_some,
  if◌then◌else◌,
}
use elmybot.AlarmDrain.{alarm_drain_time_remaining}
use elmybot.Scheduler.Types.{
  Job, Scheduler, SchedulerError, plan_too_large, Failure, delivery_error, unexpected, Handler,
  Handlers,
}
use elmybot.Scheduler.Validate.{handler_of}
use elmybot.Scheduler.Storage.{
  first_job, delivery_attempt_at, set_next_alarm, delivery_key, delivered_occurrence,
  record_delivered_occurrence, prune_delivered_occurrences, migrate_legacy_delivered_ledger,
}
use elmybot.Scheduler.Requests.{Externals}
use elmybot.Scheduler.Occurrences.{
  claim_occurrence, persist_occurrence_plan, fail_occurrence, complete_occurrence,
}
use elmybot.Scheduler.Calls.{Call, perform_all}

abbrev pub max_jobs_per_alarm : ℕ
max_jobs_per_alarm = 20

-- What `prepareOccurrence` comes to: a plan (`none` is null), a value that has no JSON text, or an
-- exception.
pub data Prepared : Type 0 where
  planned : Option String → Prepared
  not_serializable : Prepared
  prepare_threw : Failure → Prepared

-- What `deliver` comes to.
pub data Delivered : Type 0 where
  returned : Delivered
  deliver_threw : Failure → Delivered

-- One round of the loop: the clock's readings, the handlers as they answer in it, what their
-- asynchronous functions do, and the steps of others while each of them is awaited.
pub record Turn : Type 0 where
  pub check_ms : ℕ
  pub now_ms : ℕ
  pub failed_ms : ℕ
  pub delivered_ms : ℕ
  pub handlers : Handlers
  pub prepare : Job → Prepared
  pub while_preparing : List Call
  pub deliver : Job → Delivered
  pub while_delivering : List Call

abbrev pub unknown_job_type : Failure
unknown_job_type =
    delivery_error false "unknown_job_type" "No delivery handler is registered for this job type."
      "{}"

abbrev pub unserializable_plan : Failure
unserializable_plan = unexpected (some "Scheduling occurrence plan must be JSON-serializable.")

-- The message of the error that storing a plan throws.
unfoldable pub plan_failure : SchedulerError → Failure
plan_failure plan_too_large = unexpected (some "Scheduling occurrence plan is too large.")
plan_failure other = unexpected (some "Stored scheduling job is too large.")

-- The body of the inner `try`: the occurrence was dropped by a step of others, it threw, or it was
-- delivered.
pub data Attempt : Type 0 where
  dropped delivered : Scheduler → Attempt
  threw : Failure → Scheduler → Attempt

unfoldable pub delivery_of : Delivered → Scheduler → Attempt
delivery_of returned s = delivered s
delivery_of (deliver_threw failure) s = threw failure s

unfoldable pub deliver_occurrence : Externals → Turn → Job → Scheduler → Attempt
unfolding perform_all delivery_of
deliver_occurrence externals turn job s =
    delivery_of (turn.deliver job) (perform_all externals turn.while_delivering s)

unfoldable pub after_plan :
    Externals → Turn → Scheduler → Result SchedulerError (Option (Job × Scheduler)) → Attempt
unfolding plan_failure deliver_occurrence
after_plan externals turn s (err e) = threw (plan_failure e) s
after_plan externals turn s (ok none) = dropped s
after_plan externals turn s (ok (some (job, s'))) = deliver_occurrence externals turn job s'

unfoldable pub after_prepare : Externals → Turn → Job → Prepared → Scheduler → Attempt
unfolding persist_occurrence_plan after_plan
after_prepare externals turn job (prepare_threw failure) s = threw failure s
after_prepare externals turn job not_serializable s = threw unserializable_plan s
after_prepare externals turn job (planned plan) s =
    after_plan externals turn s (persist_occurrence_plan externals.fits job plan s)

unfoldable pub prepare_occurrence : Externals → Turn → Job → Scheduler → Attempt
unfolding perform_all after_prepare
prepare_occurrence externals turn job s =
    after_prepare externals turn job (turn.prepare job)
      (perform_all externals turn.while_preparing s)

unfoldable pub attempt : Externals → Turn → Option Handler → Job → Scheduler → Attempt
unfolding prepare_occurrence deliver_occurrence
attempt externals turn none job s = threw unknown_job_type s
attempt externals turn (some handler) job s =
    if handler.prepares && not (is_some job.occurrence_plan)
    then prepare_occurrence externals turn job s
    else deliver_occurrence externals turn job s

-- How a round ends: the loop breaks, goes on, or is left by an exception, with the storage then.
pub data Step : Type 0 where
  breaks : Step
  goes : Scheduler → Step
  throws : SchedulerError → Scheduler → Step

-- A transaction that throws leaves the storage as it was.
abbrev pub step_of : Scheduler → Result SchedulerError Scheduler → Step
step_of s (err e) = throws e s
step_of s (ok s') = goes s'

unfoldable pub complete_with :
    Externals → Option Handler → Job → Scheduler → Result SchedulerError Scheduler
unfolding complete_occurrence
complete_with externals none job s = ok s
complete_with externals (some handler) job s = complete_occurrence externals.fits job handler s

-- What follows the inner `try`, for an occurrence that was claimed.
unfoldable pub settle : Externals → Turn → Option Handler → String → Job → Attempt → Step
unfolding fail_occurrence record_delivered_occurrence complete_with
settle externals turn handler key claimed (dropped s) = goes s
settle externals turn handler key claimed (threw failure s) =
    step_of s (fail_occurrence externals.fits claimed failure turn.failed_ms s)
settle externals turn handler key claimed (delivered s) =
    let marked = record_delivered_occurrence key turn.delivered_ms s in
    step_of marked (complete_with externals handler claimed marked)

-- The round for an occurrence that was delivered before.
unfoldable pub finish_delivered :
    Externals → Turn → Option Handler → Job → Scheduler → Result SchedulerError Scheduler
unfolding fail_occurrence complete_occurrence
finish_delivered externals turn none job s =
    fail_occurrence externals.fits job unknown_job_type turn.failed_ms s
finish_delivered externals turn (some handler) job s =
    complete_occurrence externals.fits job handler s

unfoldable pub after_claim :
    Externals
    → Turn
    → Option Handler
    → String
    → Scheduler
    → Result SchedulerError (Option (Job × Scheduler))
    → Step
unfolding settle attempt
after_claim externals turn handler key s (err e) = throws e s
after_claim externals turn handler key s (ok none) = goes s
after_claim externals turn handler key s (ok (some (claimed, s'))) =
    settle externals turn handler key claimed (attempt externals turn handler claimed s')

-- The round for the job that is due.
unfoldable pub job_turn : Externals → Turn → Job → Scheduler → Step
unfolding handler_of delivery_key delivered_occurrence finish_delivered claim_occurrence after_claim
job_turn externals turn job s =
    let handler = handler_of job.kind turn.handlers in
    let key = delivery_key externals.decimal job in
    if delivered_occurrence key s
    then step_of s (finish_delivered externals turn handler job s)
    else after_claim externals turn handler key s
        (claim_occurrence externals.fits job turn.now_ms s)

-- The job that a round takes up: the first one, if it is due.
unfoldable pub due_job : ℕ → Scheduler → Option Job
unfolding first_job delivery_attempt_at
due_job now_ms s = elim (first_job s) [
  | none ↦ none
  | some job ↦ if ltb now_ms (delivery_attempt_at job) then none else some job
]

unfoldable pub alarm_turn : Externals → ℕ → ℕ → Turn → Scheduler → Step
unfolding alarm_drain_time_remaining due_job job_turn
alarm_turn externals started_at_ms processed turn s =
    if alarm_drain_time_remaining started_at_ms processed turn.check_ms
    then elim (due_job turn.now_ms s) [ none ↦ breaks | some job ↦ job_turn externals turn job s ]
    else breaks

-- How the loop ends: after how many rounds, with which exception, if any, and the storage.
pub record Ended : Type 0 where
  pub processed : ℕ
  pub error : Option SchedulerError
  pub scheduler : Scheduler

unfoldable pub alarm_loop : Externals → ℕ → ℕ → ℕ → (ℕ → Turn) → Scheduler → Ended
unfolding alarm_turn
alarm_loop externals started_at_ms zero processed turns s = record {
  processed = processed;
  error = none;
  scheduler = s;
}
alarm_loop externals started_at_ms (suc rounds) processed turns s =
    elim (alarm_turn externals started_at_ms processed (turns processed) s) [
      | breaks ↦ record { processed = processed; error = none; scheduler = s }
      | throws e s' ↦ record { processed = processed; error = some e; scheduler = s' }
      | goes s' ↦ alarm_loop externals started_at_ms rounds (suc processed) turns s'
    ]

-- The clock at the places of an alarm.
pub record Clock : Type 0 where
  pub started_at_ms : ℕ
  pub prune_ms : ℕ
  pub end_ms : ℕ

-- The storage when the loop begins.
unfoldable pub begun : Clock → Scheduler → Scheduler
unfolding migrate_legacy_delivered_ledger prune_delivered_occurrences
begun clock s = prune_delivered_occurrences clock.prune_ms (migrate_legacy_delivered_ledger s)

-- The `finally` sets the alarm, whether the loop ended or threw.
unfoldable pub alarm : Externals → Clock → (ℕ → Turn) → Scheduler → Ended
unfolding begun alarm_loop set_next_alarm
alarm externals clock turns s =
    let ended =
      alarm_loop externals clock.started_at_ms max_jobs_per_alarm 0 turns (begun clock s) in
    record ended { scheduler = set_next_alarm clock.end_ms ended.scheduler }
