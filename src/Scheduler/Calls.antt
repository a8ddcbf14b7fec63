-- ===== src/Scheduler/Calls.antt =====
-- The steps that requests and other runs of the alarm make of one scheduler, in any order.
use elmybot.Base.{ℕ, String, List, [], ◌∷◌, Option, none, some, Result, ok, err}
use elmybot.Scheduler.Types.{
  Job, Scheduler, SchedulerError, Failure, Handler, Handlers, ScheduleRequest,
}
use elmybot.Scheduler.Storage.{
  set_next_alarm, delivery_key, record_delivered_occurrence, prune_delivered_occurrences,
  migrate_legacy_delivered_ledger,
}
use elmybot.Scheduler.Requests.{Externals, schedule, cancel}
use elmybot.Scheduler.Occurrences.{
  claim_occurrence, persist_occurrence_plan, fail_occurrence, complete_occurrence,
}

pub data Call : Type 0 where
  schedules : Handlers → ScheduleRequest → String → ℕ → ℕ → Call
  cancels : String → ℕ → Call
  migrates : Call
  prunes wakes : ℕ → Call
  claims : Job → ℕ → Call
  plans : Job → Option String → Call
  fails : Job → Failure → ℕ → Call
  records : Job → ℕ → Call
  completes : Job → Handler → Call

-- An error rolls a transaction back.
abbrev pub kept : Scheduler → Result SchedulerError Scheduler → Scheduler
kept s (err e) = s
kept s (ok s') = s'

abbrev pub kept_with : {A : Type 0} → Scheduler → Result SchedulerError (Scheduler × A) → Scheduler
kept_with s (err e) = s
kept_with s (ok (s', a)) = s'

abbrev pub kept_job : Scheduler → Result SchedulerError (Option (Job × Scheduler)) → Scheduler
kept_job s (err e) = s
kept_job s (ok none) = s
kept_job s (ok (some (job, s'))) = s'

unfoldable pub perform : Externals → Call → Scheduler → Scheduler
unfolding schedule cancel migrate_legacy_delivered_ledger prune_delivered_occurrences set_next_alarm
    claim_occurrence persist_occurrence_plan fail_occurrence delivery_key
    record_delivered_occurrence complete_occurrence
perform externals (schedules handlers request uuid created_at_ms end_ms) s =
    kept_with s (schedule externals handlers request uuid created_at_ms end_ms s)
perform externals (cancels job_id end_ms) s = kept_with s (cancel externals job_id end_ms s)
perform externals migrates s = migrate_legacy_delivered_ledger s
perform externals (prunes now_ms) s = prune_delivered_occurrences now_ms s
perform externals (wakes now_ms) s = set_next_alarm now_ms s
perform externals (claims job now_ms) s = kept_job s (claim_occurrence externals.fits job now_ms s)
perform externals (plans job plan) s =
    kept_job s (persist_occurrence_plan externals.fits job plan s)
perform externals (fails job failure now_ms) s =
    kept s (fail_occurrence externals.fits job failure now_ms s)
perform externals (records job now_ms) s =
    record_delivered_occurrence (delivery_key externals.decimal job) now_ms s
perform externals (completes job handler) s =
    kept s (complete_occurrence externals.fits job handler s)

unfoldable pub perform_all : Externals → List Call → Scheduler → Scheduler
unfolding perform
perform_all externals [] s = s
perform_all externals (c ∷ cs) s = perform_all externals cs (perform externals c s)
