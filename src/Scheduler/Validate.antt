-- ===== src/Scheduler/Validate.antt =====
-- `validateScheduleRequest` and `validateCalculatedSchedule`.
use Prim.Native.String.{len, ◌++◌ as text_append}
use elmybot.Base.{
  ℕ, ◌*◌, ◌/◌, ◌^◌, String, Bool, not, ◌&&◌, ◌||◌, [], ◌∷◌, Option, none, some, Result, ok, err,
  ◌>>=◌, ◌>>◌, throw_if, or_throw, text_eq, text_length, starts_with, ltb, ◌==◌, if◌then◌else◌,
}
use elmybot.Scheduler.Types.{
  JsonObject, ScheduleRequest, SchedulerError, payload_too_large, schema_unsupported,
  platform_invalid, kind_mismatch, group_key_invalid, destination_invalid, subject_invalid,
  extra_data_invalid, repeats_invalid, actor_invalid, source_event_invalid, adapter_refused,
  time_invalid, calculation_failed, Calculated, times, malformed, raised, Handler, Handlers,
}

abbrev pub scheduler_job_schema_version : ℕ
scheduler_job_schema_version = 1

abbrev pub max_source_event_id_length : ℕ
max_source_event_id_length = 200

abbrev pub max_group_key_length : ℕ
max_group_key_length = 200

abbrev pub max_actor_id_length : ℕ
max_actor_id_length = 200

abbrev pub max_subject_length : ℕ
max_subject_length = 2_000

abbrev pub max_destination_bytes : ℕ
max_destination_bytes = 4 * 1024

abbrev pub max_extra_data_bytes : ℕ
max_extra_data_bytes = 32 * 1024

abbrev pub max_job_bytes : ℕ
max_job_bytes = 64 * 1024

-- The fields of a request that passed the checks.
pub record Checked : Type 0 where
  pub platform : String
  pub kind : String
  pub group_key : String
  pub destination : String
  pub subject : String
  pub extra_data : String
  pub repeats : Bool
  pub created_by : Option String
  pub source_event_id : String

unfoldable pub handler_of : String → Handlers → Option Handler
handler_of kind [] = none
handler_of kind ((k, h) ∷ rest) = if text_eq k kind then some h else handler_of kind rest

-- `serializedByteLength` of a text that is there: whether it is small enough.
unfoldable pub check_bytes : String → ℕ → SchedulerError → Result SchedulerError (Unit {0})
check_bytes json limit error = throw_if (ltb limit (len json)) error

unfoldable pub require_bounded_string :
    Option String → ℕ → SchedulerError → Result SchedulerError String
unfolding text_length
require_bounded_string none max_length error = err error
require_bounded_string (some v) max_length error =
    if text_eq v "" || ltb max_length (text_length v) then err error else ok v

-- A text of the platform: it starts with the platform's name and `mark`.
unfoldable pub require_of_platform :
    String → String → String → SchedulerError → Result SchedulerError (Unit {0})
unfolding starts_with
require_of_platform platform mark text error =
    throw_if (not (starts_with (text_append platform mark) text)) error

unfoldable pub check_destination : Option JsonObject → Result SchedulerError String
unfolding check_bytes
check_destination none = err destination_invalid
check_destination (some object) = do
  throw_if (object.keys == 0) destination_invalid
  check_bytes object.json max_destination_bytes destination_invalid
  ok object.json

unfoldable pub check_subject : Option String → Result SchedulerError String
unfolding text_length
check_subject none = err subject_invalid
check_subject (some s) =
    if ltb max_subject_length (text_length s) then err subject_invalid else ok s

unfoldable pub check_extra_data : Option JsonObject → Result SchedulerError String
unfolding check_bytes
check_extra_data none = err extra_data_invalid
check_extra_data (some object) = do
  check_bytes object.json max_extra_data_bytes extra_data_invalid
  ok object.json

unfoldable pub check_actor : Option (Option String) → Result SchedulerError (Option String)
unfolding require_bounded_string
check_actor none = err actor_invalid
check_actor (some none) = ok none
check_actor (some (some actor)) = do
  a ← require_bounded_string (some actor) max_actor_id_length actor_invalid
  ok (some a)

-- `is_platform` is the pattern of platform names.
unfoldable pub check_platform : (String → Bool) → Option String → Result SchedulerError String
check_platform is_platform none = err platform_invalid
check_platform is_platform (some p) = if is_platform p then ok p else err platform_invalid

unfoldable pub check_complaint : Handler → ScheduleRequest → Result SchedulerError (Unit {0})
check_complaint handler request = elim (handler.complaint request) [
  | none ↦ ok tt
  | some text ↦ err adapter_refused
]

unfoldable pub validate_schedule_request :
    (String → Bool) → Handler → ScheduleRequest → Result SchedulerError Checked
unfolding check_bytes check_platform require_of_platform require_bounded_string check_destination
    check_subject check_extra_data check_actor check_complaint
validate_schedule_request is_platform handler request = do
  check_bytes request.json max_job_bytes payload_too_large
  version ← or_throw request.schema_version schema_unsupported
  throw_if (not (version == scheduler_job_schema_version)) schema_unsupported
  platform ← check_platform is_platform request.platform
  kind ← or_throw request.kind kind_mismatch
  require_of_platform platform "." kind kind_mismatch
  group_key ← require_bounded_string request.group_key max_group_key_length group_key_invalid
  require_of_platform platform ":" group_key group_key_invalid
  destination ← check_destination request.destination
  subject ← check_subject request.subject
  extra_data ← check_extra_data request.extra_data
  repeats ← or_throw request.repeats repeats_invalid
  created_by ← check_actor request.created_by
  source_event_id ←
      require_bounded_string request.source_event_id max_source_event_id_length source_event_invalid
  require_of_platform platform ":" source_event_id source_event_invalid
  check_complaint handler request
  ok (record {
    platform = platform;
    kind = kind;
    group_key = group_key;
    destination = destination;
    subject = subject;
    extra_data = extra_data;
    repeats = repeats;
    created_by = created_by;
    source_event_id = source_event_id;
  })

-- Safe integers above 0 that name the same second.
unfoldable pub are_times : ℕ → ℕ → Bool
are_times timestamp run_at_ms =
    ltb 0 timestamp
    && ltb timestamp (2 ^ 53)
    && ltb 0 run_at_ms
    && ltb run_at_ms (2 ^ 53)
    && run_at_ms / 1000 == timestamp

unfoldable pub validate_calculated_schedule : Calculated → Result SchedulerError (ℕ × ℕ)
unfolding are_times
validate_calculated_schedule malformed = err time_invalid
validate_calculated_schedule raised = err calculation_failed
validate_calculated_schedule (times timestamp run_at_ms) =
    if are_times timestamp run_at_ms then ok (timestamp, run_at_ms) else err time_invalid
