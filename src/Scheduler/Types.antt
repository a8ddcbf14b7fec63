-- ===== src/Scheduler/Types.antt =====
-- Jobs, the tables of the scheduler, handlers, and the errors.
use elmybot.Base.{ℕ, String, Bool, List, Option}

pub data DeliveryState : Type 0 where
  pending attempting retry_wait dead_letter : DeliveryState

pub record LastError : Type 0 where
  pub code : String
  pub message : String
  pub metadata : String
  pub failed_at_ms : ℕ

-- `job.delivery`
pub record Delivery : Type 0 where
  pub state : DeliveryState
  pub attempts : ℕ
  pub next_attempt_at_ms : Option ℕ
  pub last_attempt_at_ms : Option ℕ
  pub last_error : Option LastError

-- A job as it is stored; objects are given by their JSON texts.
pub record Job : Type 0 where
  pub id : String
  pub platform : String
  pub kind : String
  pub group_key : String
  pub destination : String
  pub subject : String
  pub timestamp : ℕ
  pub run_at_ms : ℕ
  pub extra_data : String
  pub repeats : Bool
  pub created_by : Option String
  pub source_event_id : String
  pub occurrence_plan : Option String
  pub delivery : Delivery

-- `scheduler_jobs`: `job` is what `job_json` holds.
pub record JobRow : Type 0 where
  pub id : String
  pub next_attempt_at_ms : ℕ
  pub run_at_ms : ℕ
  pub job : Job

-- The object that `response_json` holds.
pub record Response : Type 0 where
  pub id : String
  pub timestamp : ℕ
  pub extra_data : String
  pub source_event_id : String
  pub created_at_ms : ℕ

-- `scheduler_sources`, with SQLite's row IDs.
pub record SourceRow : Type 0 where
  pub rowid : ℕ
  pub source_event_id : String
  pub created_at_ms : ℕ
  pub response : Response

pub record DeliveryRow : Type 0 where
  pub occurrence_key : String
  pub delivered_at_ms : ℕ

pub record DeadLetter : Type 0 where
  pub dead_letter_id : ℕ
  pub failed_at_ms : ℕ
  pub job : Job

-- The object's storage. `last_dead_letter_id` is the highest that AUTOINCREMENT has given,
-- `legacy_delivered` holds the entries of the old key `delivered`.
pub record Scheduler : Type 0 where
  pub jobs : List JobRow
  pub sources : List SourceRow
  pub deliveries : List DeliveryRow
  pub dead_letters : List DeadLetter
  pub last_dead_letter_id : ℕ
  pub ledger_migrated : Bool
  pub legacy_delivered : List (String × ℕ)
  pub alarm : Option ℕ

-- A JSON object: its text and the number of its keys.
pub record JsonObject : Type 0 where
  pub json : String
  pub keys : ℕ

-- The body of a request to schedule: `none` where a field has another type than the one wanted, and
-- `some none` for an actor that is null or missing.
pub record ScheduleRequest : Type 0 where
  pub json : String
  pub schema_version : Option ℕ
  pub platform : Option String
  pub kind : Option String
  pub group_key : Option String
  pub destination : Option JsonObject
  pub subject : Option String
  pub extra_data : Option JsonObject
  pub repeats : Option Bool
  pub created_by : Option (Option String)
  pub source_event_id : Option String

pub data SchedulerError : Type 0 where
  kind_unknown payload_too_large schema_unsupported platform_invalid kind_mismatch : SchedulerError
  group_key_invalid destination_invalid subject_invalid extra_data_invalid : SchedulerError
  repeats_invalid actor_invalid source_event_invalid adapter_refused : SchedulerError
  time_invalid calculation_failed job_too_large plan_too_large : SchedulerError
  job_id_missing job_missing constraint_violated : SchedulerError

-- What `calcScheduleTime` answers: a pair of integers, anything else, or an exception.
pub data Calculated : Type 0 where
  times : ℕ → ℕ → Calculated
  malformed raised : Calculated

-- A failure of a delivery: a `DeliveryError`, or any other error with its message if it has one.
pub data Failure : Type 0 where
  delivery_error : Bool → String → String → String → Failure
  unexpected : Option String → Failure

-- A handler. `prepare` and `deliver` are what its asynchronous functions do at one time; `prepare`
-- is missing where the handler has no `prepareOccurrence`.
pub record Handler : Type 0 where
  pub complaint : ScheduleRequest → Option String
  pub calc_first : ScheduleRequest → Calculated
  pub calc_next : Job → Calculated
  pub prepares : Bool

abbrev pub Handlers : Type 0
Handlers = List (String × Handler)
