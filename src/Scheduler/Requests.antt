-- ===== src/Scheduler/Requests.antt =====
-- `/schedule`, `/cancel`, `/list` and `/dead-letters`.
use elmybot.Base.{
  ℕ, String, Bool, List, [], ◌∷◌, ◌++◌, Option, none, some, map, length, Result, ok, ◌>>=◌, ◌>>◌,
  throw_if, or_throw, text_eq, take,
}
use elmybot.Sql.{find, order_by}
use elmybot.Scheduler.Types.{
  Job, JobRow, Delivery, Response, SourceRow, DeadLetter, Scheduler, ScheduleRequest,
  SchedulerError, kind_unknown, job_id_missing, job_missing, Handler, Handlers,
}
use elmybot.Scheduler.Validate.{
  Checked, handler_of, validate_schedule_request, validate_calculated_schedule,
}
use elmybot.Scheduler.Storage.{
  pending_delivery, insert_job, delete_job, find_job, set_next_alarm, source_key, next_rowid,
  maybe_prune_schedule_sources, due_before, failed_after,
}

-- What the code takes from elsewhere: the pattern of platforms, whether the JSON text of a job has
-- at most `MAX_JOB_BYTES`, how a number is written, and how white space is trimmed.
pub record Externals : Type 0 where
  pub is_platform : String → Bool
  pub fits : Job → Bool
  pub decimal : ℕ → String
  pub trim : String → String

unfoldable pub scheduled_job : Checked → String → ℕ → ℕ → Job
unfolding pending_delivery
scheduled_job request id timestamp run_at_ms = record {
  id = id;
  platform = request.platform;
  kind = request.kind;
  group_key = request.group_key;
  destination = request.destination;
  subject = request.subject;
  timestamp = timestamp;
  run_at_ms = run_at_ms;
  extra_data = request.extra_data;
  repeats = request.repeats;
  created_by = request.created_by;
  source_event_id = request.source_event_id;
  occurrence_plan = none;
  delivery = pending_delivery run_at_ms;
}

unfoldable pub response_of : Job → ℕ → Response
response_of job created_at_ms = record {
  id = job.id;
  timestamp = job.timestamp;
  extra_data = job.extra_data;
  source_event_id = job.source_event_id;
  created_at_ms = created_at_ms;
}

unfoldable pub source_row : ℕ → Response → SourceRow
source_row rowid response = record {
  rowid = rowid;
  source_event_id = response.source_event_id;
  created_at_ms = response.created_at_ms;
  response = response;
}

unfoldable pub insert_source : Response → List SourceRow → List SourceRow
unfolding source_row next_rowid maybe_prune_schedule_sources
insert_source response sources =
    maybe_prune_schedule_sources (next_rowid sources)
      (sources ++ source_row (next_rowid sources) response ∷ [])

-- A request of an event that has no job.
unfoldable pub schedule_new :
    Externals
    → Handler
    → ScheduleRequest
    → Checked
    → String
    → ℕ
    → Scheduler
    → Result SchedulerError (Scheduler × Response)
unfolding validate_calculated_schedule scheduled_job insert_job response_of insert_source
schedule_new externals handler request checked uuid created_at_ms s = do
  (timestamp, run_at_ms) ← validate_calculated_schedule (handler.calc_first request)
  let job = scheduled_job checked uuid timestamp run_at_ms
  let response = response_of job created_at_ms
  jobs ← insert_job externals.fits job s.jobs
  ok (record s { jobs = jobs; sources = insert_source response s.sources }, response)

-- The transaction.
unfoldable pub schedule_checked :
    Externals
    → Handler
    → ScheduleRequest
    → Checked
    → String
    → ℕ
    → Scheduler
    → Result SchedulerError (Scheduler × Response)
unfolding find schedule_new
schedule_checked externals handler request checked uuid created_at_ms s =
    elim (find source_key checked.source_event_id s.sources) [
      | some existing ↦ ok (s, existing.response)
      | none ↦ schedule_new externals handler request checked uuid created_at_ms s
    ]

unfoldable pub find_handler : ScheduleRequest → Handlers → Option Handler
unfolding handler_of
find_handler request handlers = elim request.kind [
  | none ↦ none
  | some kind ↦ handler_of kind handlers
]

-- The state afterwards and the response. An error leaves the state as it was.
unfoldable pub schedule :
    Externals
    → Handlers
    → ScheduleRequest
    → String
    → ℕ
    → ℕ
    → Scheduler
    → Result SchedulerError (Scheduler × Response)
unfolding find_handler validate_schedule_request schedule_checked set_next_alarm
schedule externals handlers request uuid created_at_ms end_ms s = do
  handler ← or_throw (find_handler request handlers) kind_unknown
  checked ← validate_schedule_request externals.is_platform handler request
  (s', response) ← schedule_checked externals handler request checked uuid created_at_ms s
  ok (set_next_alarm end_ms s', response)

-- `job_id` is the text of `body?.jobId ?? ""`. The timestamp of the job that was removed.
unfoldable pub cancel : Externals → String → ℕ → Scheduler → Result SchedulerError (Scheduler × ℕ)
unfolding find_job set_next_alarm
cancel externals job_id end_ms s = do
  let id = externals.trim job_id
  throw_if (text_eq id "") job_id_missing
  job ← or_throw (find_job id s) job_missing
  ok (set_next_alarm end_ms (record s { jobs = delete_job id s.jobs }), job.timestamp)

-- What the list shows of a job.
pub record Preview : Type 0 where
  pub id : String
  pub timestamp : ℕ
  pub subject : String
  pub repeats : Bool
  pub extra_data : String
  pub kind : String
  pub delivery : Delivery

unfoldable pub preview_of : JobRow → Preview
preview_of r = record {
  id = r.job.id;
  timestamp = r.job.timestamp;
  subject = r.job.subject;
  repeats = r.job.repeats;
  extra_data = r.job.extra_data;
  kind = r.job.kind;
  delivery = r.job.delivery;
}

unfoldable pub list : Scheduler → ℕ × List Preview
unfolding preview_of due_before
list s = (length s.jobs, map preview_of (take 15 (order_by due_before s.jobs)))

abbrev pub max_dead_letters_preview : ℕ
max_dead_letters_preview = 5

unfoldable pub dead_letters : Scheduler → ℕ × List (ℕ × Job)
unfolding failed_after
dead_letters s = (
  length s.dead_letters,
  map (λ (x : DeadLetter). (x.failed_at_ms, x.job))
      (take max_dead_letters_preview (order_by failed_after s.dead_letters)),
)
