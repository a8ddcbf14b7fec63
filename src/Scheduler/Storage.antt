-- ===== src/Scheduler/Storage.antt =====
-- Delays, failures, and the statements on the tables of the scheduler.
use Prim.Native.String.{◌++◌ as text_append}
use elmybot.Base.{
  ℕ, zero, suc, ◌+◌, ◌-◌, ◌*◌, ◌%◌, ◌^◌, min, max, String, Bool, true, false, not, ◌&&◌, List, [],
  ◌∷◌, ◌++◌, Option, none, some, map?, or_else, is_some, Result, ok, ◌>>◌, throw_if, text_lt,
  text_slice, text_length, ltb, leb, ◌==◌, take, if◌then◌else◌,
}
use elmybot.Sql.{select, delete, update, find, has_key, first_by, order_by, any_row}
use elmybot.Scheduler.Types.{
  Job, JobRow, Delivery, pending, LastError, SourceRow, DeliveryRow, DeadLetter, Scheduler,
  SchedulerError, job_too_large, constraint_violated, Failure, delivery_error, unexpected,
}

abbrev pub delivered_ttl_ms : ℕ
delivered_ttl_ms = 14 * 24 * 60 * 60 * 1000

abbrev pub max_delivery_attempts : ℕ
max_delivery_attempts = 5

abbrev pub retry_base_delay_ms : ℕ
retry_base_delay_ms = 30_000

abbrev pub retry_max_delay_ms : ℕ
retry_max_delay_ms = 30 * 60 * 1000

abbrev pub max_dead_letters : ℕ
max_dead_letters = 100

abbrev pub max_schedule_sources : ℕ
max_schedule_sources = 10_000

abbrev pub delivered_prune_batch_size : ℕ
delivered_prune_batch_size = 250

abbrev pub source_prune_interval : ℕ
source_prune_interval = 100

abbrev pub source_prune_batch_size : ℕ
source_prune_batch_size = 250

abbrev pub max_occurrence_key_length : ℕ
max_occurrence_key_length = 250

unfoldable pub delivery_attempt_at : Job → ℕ
delivery_attempt_at job = or_else job.delivery.next_attempt_at_ms job.run_at_ms

unfoldable pub pending_delivery : ℕ → Delivery
pending_delivery run_at_ms = record {
  state = pending;
  attempts = 0;
  next_attempt_at_ms = some run_at_ms;
  last_attempt_at_ms = none;
  last_error = none;
}

unfoldable pub retry_delay_ms : ℕ → ℕ
retry_delay_ms attempts = min (retry_base_delay_ms * 2 ^ (attempts - 1)) retry_max_delay_ms

-- `deliveryFailure(error).retryable`
unfoldable pub is_retryable : Failure → Bool
is_retryable (delivery_error retryable code message metadata) = retryable
is_retryable (unexpected message) = true

unfoldable pub stored_error : Failure → ℕ → LastError
unfolding text_slice
stored_error (delivery_error retryable code message metadata) failed_at_ms = record {
  code = code;
  message = text_slice 500 message;
  metadata = metadata;
  failed_at_ms = failed_at_ms;
}
stored_error (unexpected message) failed_at_ms = record {
  code = "unexpected_delivery_error";
  message = text_slice 500 (or_else message "Unknown delivery error.");
  metadata = "{}";
  failed_at_ms = failed_at_ms;
}

abbrev pub row_id : JobRow → String
row_id r = r.id

-- ORDER BY next_attempt_at_ms, run_at_ms, id
unfoldable pub due_before : JobRow → JobRow → Bool
due_before a b =
    if ltb a.next_attempt_at_ms b.next_attempt_at_ms
    then true
    else if ltb b.next_attempt_at_ms a.next_attempt_at_ms
    then false
    else if ltb a.run_at_ms b.run_at_ms
    then true
    else if ltb b.run_at_ms a.run_at_ms
    then false
    else text_lt a.id b.id

unfoldable pub first_row : Scheduler → Option JobRow
unfolding due_before
first_row s = first_by due_before s.jobs

unfoldable pub first_job : Scheduler → Option Job
unfolding first_row
first_job s = map? (λ (r : JobRow). r.job) (first_row s)

unfoldable pub find_job : String → Scheduler → Option Job
find_job id s = map? (λ (r : JobRow). r.job) (find row_id id s.jobs)

unfoldable pub row_of : Job → JobRow
unfolding delivery_attempt_at
row_of job = record {
  id = job.id;
  next_attempt_at_ms = delivery_attempt_at job;
  run_at_ms = job.run_at_ms;
  job = job;
}

-- `fits` says whether the JSON text of a job has at most `MAX_JOB_BYTES`.
unfoldable pub insert_job : (Job → Bool) → Job → List JobRow → Result SchedulerError (List JobRow)
unfolding row_of
insert_job fits job jobs = do
  throw_if (not (fits job)) job_too_large
  throw_if (is_some (find row_id job.id jobs)) constraint_violated
  ok (jobs ++ row_of job ∷ [])

unfoldable pub update_job : (Job → Bool) → Job → List JobRow → Result SchedulerError (List JobRow)
unfolding row_of
update_job fits job jobs = do
  throw_if (not (fits job)) job_too_large
  ok (update (has_key row_id job.id) (λ _. row_of job) jobs)

abbrev pub delete_job : String → List JobRow → List JobRow
delete_job id jobs = delete (has_key row_id id) jobs

unfoldable pub set_next_alarm : ℕ → Scheduler → Scheduler
unfolding first_row
set_next_alarm now_ms s = record s {
  alarm = map? (λ (r : JobRow). max r.next_attempt_at_ms now_ms) (first_row s);
}

-- `deliveryKey`; `decimal` writes a number, as a template literal does.
unfoldable pub delivery_key : (ℕ → String) → Job → String
delivery_key decimal job = text_append job.id (text_append ":" (decimal job.timestamp))

abbrev pub occurrence_key : DeliveryRow → String
occurrence_key d = d.occurrence_key

unfoldable pub delivered_occurrence : String → Scheduler → Bool
delivered_occurrence key s = is_some (find occurrence_key key s.deliveries)

-- INSERT OR IGNORE
unfoldable pub record_delivered_occurrence : String → ℕ → Scheduler → Scheduler
unfolding delivered_occurrence
record_delivered_occurrence key now_ms s = if delivered_occurrence key s then s else record s {
  deliveries = s.deliveries ++ record { occurrence_key = key; delivered_at_ms = now_ms } ∷ [];
}

unfoldable pub delivered_before : DeliveryRow → DeliveryRow → Bool
delivered_before a b =
    if ltb a.delivered_at_ms b.delivered_at_ms
    then true
    else if ltb b.delivered_at_ms a.delivered_at_ms
    then false
    else text_lt a.occurrence_key b.occurrence_key

unfoldable pub is_expired : ℕ → DeliveryRow → Bool
is_expired now_ms d = ltb (d.delivered_at_ms + delivered_ttl_ms) now_ms

unfoldable pub expired_deliveries : ℕ → Scheduler → List DeliveryRow
unfolding delivered_before is_expired
expired_deliveries now_ms s =
    take delivered_prune_batch_size
      (order_by delivered_before (select (is_expired now_ms) s.deliveries))

unfoldable pub prune_delivered_occurrences : ℕ → Scheduler → Scheduler
unfolding expired_deliveries
prune_delivered_occurrences now_ms s = record s {
  deliveries =
      delete
        (λ (d : DeliveryRow).
          any_row (has_key occurrence_key d.occurrence_key) (expired_deliveries now_ms s))
        s.deliveries;
}

-- The order of the pairs (created_at_ms, source_event_id).
unfoldable pub created_before : SourceRow → SourceRow → Bool
created_before a b =
    if ltb a.created_at_ms b.created_at_ms
    then true
    else if ltb b.created_at_ms a.created_at_ms
    then false
    else text_lt a.source_event_id b.source_event_id

abbrev pub drop {ℓ} : {A : Type ℓ} → ℕ → List A → List A
drop zero xs = xs
drop (suc n) [] = []
drop (suc n) (x ∷ xs) = drop n xs

abbrev pub head_of {ℓ} : {A : Type ℓ} → List A → Option A
head_of [] = none
head_of (x ∷ xs) = some x

-- The newest source but MAX_SCHEDULE_SOURCES - 1, which the older ones are compared with.
unfoldable pub oldest_kept : List SourceRow → Option SourceRow
unfolding created_before
oldest_kept sources =
    head_of
      (drop (max_schedule_sources - 1) (order_by (λ (a b : SourceRow). created_before b a) sources))

unfoldable pub expired_sources : List SourceRow → List SourceRow
unfolding oldest_kept created_before
expired_sources sources = elim (oldest_kept sources) [
  | none ↦ []
  | some oldest ↦
      take source_prune_batch_size
        (order_by created_before (select (λ (x : SourceRow). created_before x oldest) sources))
]

abbrev pub source_key : SourceRow → String
source_key x = x.source_event_id

unfoldable pub maybe_prune_schedule_sources : ℕ → List SourceRow → List SourceRow
unfolding expired_sources
maybe_prune_schedule_sources rowid sources =
    if rowid % source_prune_interval == 0
    then delete
        (λ (x : SourceRow).
          any_row (has_key source_key x.source_event_id) (expired_sources sources))
        sources
    else sources

-- The row ID that SQLite gives the next row of a table without AUTOINCREMENT.
unfoldable pub next_rowid : List SourceRow → ℕ
next_rowid [] = 1
next_rowid (x ∷ xs) = max (suc x.rowid) (next_rowid xs)

-- Newest first: ORDER BY failed_at_ms DESC, dead_letter_id DESC
unfoldable pub failed_after : DeadLetter → DeadLetter → Bool
failed_after a b =
    if ltb b.failed_at_ms a.failed_at_ms
    then true
    else if ltb a.failed_at_ms b.failed_at_ms
    then false
    else ltb b.dead_letter_id a.dead_letter_id

abbrev pub same_letter : DeadLetter → DeadLetter → Bool
same_letter a b = a.dead_letter_id == b.dead_letter_id

-- DELETE … WHERE dead_letter_id NOT IN the newest MAX_DEAD_LETTERS.
unfoldable pub prune_dead_letters : List DeadLetter → List DeadLetter
unfolding failed_after
prune_dead_letters letters =
    delete
      (λ (x : DeadLetter).
        not (any_row (same_letter x) (take max_dead_letters (order_by failed_after letters))))
      letters

unfoldable pub is_legacy_entry : String × ℕ → Bool
unfolding text_length
is_legacy_entry (key, at) = leb (text_length key) max_occurrence_key_length && ltb 0 at

unfoldable pub record_all : List (String × ℕ) → Scheduler → Scheduler
unfolding record_delivered_occurrence
record_all [] s = s
record_all ((key, at) ∷ rest) s = record_all rest (record_delivered_occurrence key at s)

unfoldable pub migrate_legacy_delivered_ledger : Scheduler → Scheduler
unfolding is_legacy_entry record_all
migrate_legacy_delivered_ledger s =
    if s.ledger_migrated
    then s
    else record (record_all (select is_legacy_entry s.legacy_delivered) s) {
      ledger_migrated = true;
      legacy_delivered = [];
    }
