-- ===== src/Scheduler/Tests.antt =====
-- Runs of the scheduler, and the theorems at concrete inputs.
use elmybot.Base.{
  arith, ◌+◌, ◌≡◌, refl, [], ◌∷◌, none, some, ok, true, false, All, text_eq, ◌==◌, if◌then◌else◌,
}
use elmybot.Sql.{find, select, first, first_by, order_by, update, delete, any_row}
use elmybot.Scheduler.Types.{
  Job, Response, ScheduleRequest, Scheduler, Handler, Handlers, times, Failure, unexpected, pending,
}
use elmybot.Scheduler.Storage.{delivered_occurrence, set_next_alarm}
use elmybot.Scheduler.Requests.{Externals, schedule}
use elmybot.Scheduler.Occurrences.{current_of}
use elmybot.Scheduler.Calls.{schedules, perform_all}
use elmybot.Scheduler.Alarm.{Turn, Clock, planned, returned, alarm, alarm_loop}
use elmybot.Scheduler.Soundness.{IsValid}
use elmybot.Scheduler.Interleaving.{perform_all-IsValid, alarm-IsValid}
use elmybot.Scheduler.Wakeup.{IsTimely, alarm-IsTimely}
use elmybot.Scheduler.Once.{delivered_keys, NoRepeat, delivered_keys-AreFresh}
use elmybot.Scheduler.Stopping.{Finishes, alarm_loop-Finishes}
use elmybot.Scheduler.Repeats.{schedule-again}
use elmybot.Scheduler.Failing.{Settles, fail_occurrence-Settles}

program : Unit {0}
unfolding schedule perform_all alarm find select first first_by order_by update delete any_row
    delivered_occurrence current_of delivered_keys set_next_alarm
program = tt

abbrev empty : Scheduler
empty = record {
  jobs = [];
  sources = [];
  deliveries = [];
  dead_letters = [];
  last_dead_letter_id = 0;
  ledger_migrated = true;
  legacy_delivered = [];
  alarm = none;
}

empty-IsValid : IsValid empty
empty-IsValid = record {
  jobs = (tt, tt);
  sources = (tt, tt);
  deliveries = tt;
  letters = (tt, tt, omega arith);
}

-- Announcements each minute.
abbrev announcer : Handler
announcer = record {
  complaint = λ request. none;
  calc_first = λ request. times 100 100_500;
  calc_next = λ (job : Job). times (job.timestamp + 60) (job.run_at_ms + 60_000);
  prepares = false;
}

abbrev handlers : Handlers
handlers = ("twitch.say.v1", announcer) ∷ []

abbrev externals : Externals
externals = record {
  is_platform = λ text. text_eq text "twitch";
  fits = λ job. true;
  decimal = λ n. if n == 100 then "100" else "160";
  trim = λ text. text;
}

abbrev request : ScheduleRequest
request = record {
  json = "{}";
  schema_version = some 1;
  platform = some "twitch";
  kind = some "twitch.say.v1";
  group_key = some "twitch:1";
  destination = some (record { json = "{\"id\":1}"; keys = 1 });
  subject = some "hello";
  extra_data = some (record { json = "{}"; keys = 0 });
  repeats = some true;
  created_by = some none;
  source_event_id = some "twitch:e1";
}

abbrev scheduled : Scheduler
scheduled = perform_all externals (schedules handlers request "job-1" 5000 5000 ∷ []) empty

scheduled-IsValid : IsValid scheduled
scheduled-IsValid =
    perform_all-IsValid externals (schedules handlers request "job-1" 5000 5000 ∷ []) empty
      empty-IsValid

scheduled_test : scheduled.alarm ≡ some 100_500
unfolding program
scheduled_test = refl

abbrev response : Response
response = record {
  id = "job-1";
  timestamp = 100;
  extra_data = "{}";
  source_event_id = "twitch:e1";
  created_at_ms = 5000;
}

schedule_test :
    schedule externals handlers request "job-1" 5000 5000 empty ≡ ok (scheduled, response)
unfolding program
schedule_test = refl

-- The clock is past the second occurrence, too.
abbrev turn : Turn
turn = record {
  check_ms = 200_000;
  now_ms = 200_000;
  failed_ms = 200_000;
  delivered_ms = 200_000;
  handlers = handlers;
  prepare = λ job. planned none;
  while_preparing = [];
  deliver = λ job. returned;
  while_delivering = schedules handlers request "job-2" 200_000 200_000 ∷ [];
}

abbrev clock : Clock
clock = record { started_at_ms = 200_000; prune_ms = 200_000; end_ms = 200_000 }

twice_test :
    delivered_keys externals 200_000 2 0 (λ n. turn) scheduled ≡ "job-1:100" ∷ "job-1:160" ∷ []
unfolding program
twice_test = refl

alarm-IsValid_example : IsValid (alarm externals clock (λ n. turn) scheduled).scheduler
alarm-IsValid_example = alarm-IsValid externals clock (λ n. turn) scheduled scheduled-IsValid

alarm-IsTimely_example :
    let s' = (alarm externals clock (λ n. turn) scheduled).scheduler in
    All (IsTimely 200_000 s'.alarm) s'.jobs
alarm-IsTimely_example = alarm-IsTimely externals clock (λ n. turn) scheduled scheduled-IsValid

delivered_keys-AreFresh_example :
    let keys = delivered_keys externals 200_000 20 0 (λ n. turn) scheduled in
    NoRepeat keys × All (λ k. delivered_occurrence k scheduled ≡ false) keys
delivered_keys-AreFresh_example =
    delivered_keys-AreFresh externals 200_000 20 0 (λ n. turn) scheduled (λ n. (tt, (tt, tt)))

alarm_loop-Finishes_example :
    Finishes 200_000 20 0 (λ n. turn) (alarm_loop externals 200_000 20 0 (λ n. turn) scheduled)
alarm_loop-Finishes_example =
    alarm_loop-Finishes externals 200_000 20 0 (λ n. turn) scheduled scheduled-IsValid

schedule-again_example :
    schedule externals handlers request "job-2" 6000 6000 scheduled
    ≡ ok (set_next_alarm 6000 scheduled, response)
schedule-again_example =
    schedule-again externals handlers request "job-1" "job-2" 5000 5000 6000 6000 empty scheduled
      response tt schedule_test

abbrev offline : Failure
offline = unexpected (some "offline")

abbrev job : Job
job = record {
  id = "job-1";
  platform = "twitch";
  kind = "twitch.say.v1";
  group_key = "twitch:1";
  destination = "{\"id\":1}";
  subject = "hello";
  timestamp = 100;
  run_at_ms = 100_500;
  extra_data = "{}";
  repeats = true;
  created_by = none;
  source_event_id = "twitch:e1";
  occurrence_plan = none;
  delivery = record {
    state = pending;
    attempts = 0;
    next_attempt_at_ms = some 100_500;
    last_attempt_at_ms = none;
    last_error = none;
  };
}

fail_occurrence-Settles_example : Settles externals.fits job offline 200_000 scheduled job
unfolding program
fail_occurrence-Settles_example =
    fail_occurrence-Settles externals.fits job offline 200_000 scheduled job scheduled-IsValid tt
      refl
