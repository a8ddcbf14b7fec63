-- ===== src/Outbox/Admission.antt =====
-- `allocateStateEventSequence`, `enqueueStateEventIntent` and `nextStateEventRelayTurn`. An error
-- undoes the transaction of the caller, so that the tables are as before.
use elmybot.Base.{
  ℕ, suc, ◌+◌, ◌*◌, ◌^◌, ◌-◌, min, String, Bool, true, false, not, ◌&&◌, ◌||◌, List, [], ◌∷◌, ◌++◌,
  Option, none, some, is_some, or_else, Result, ok, ◌>>=◌, ◌>>◌, throw_if, text_eq, ltb, leb,
  length, if◌then◌else◌,
}
use elmybot.Sql.{select, update, find, has_key, any_row, upsert}
use elmybot.Outbox.Types.{
  IntentState, pending, parked, gap_pending, appended, gap_recorded, retiring, reset_discarded,
  OutboxError, rate_limited, partition_capacity, outbox_capacity, stream_blocked,
  sequence_exhausted, duplicate_operation, Partition, OutboxRow, SourceStream, Outbox, Intent,
  Correlation,
}

abbrev pub publication_burst : ℕ
publication_burst = 3

abbrev pub max_rows : ℕ
max_rows = 100

abbrev pub max_bytes : ℕ
max_bytes = 512 * 1024

abbrev pub max_partitions : ℕ
max_partitions = 100

abbrev pub admissions_per_second : ℕ
admissions_per_second = 10

-- `Number.MAX_SAFE_INTEGER`
abbrev pub max_safe_integer : ℕ
max_safe_integer = 2 ^ 53 - 1

abbrev pub partition_key : Partition → String
partition_key x = x.partition_key

abbrev pub operation_id : OutboxRow → String
operation_id x = x.operation_id

abbrev pub route_id : SourceStream → String
route_id x = x.route_id

-- `partition?.operation_sequence ?? 0`
unfoldable pub stored_sequence : String → List Partition → ℕ
unfolding find
stored_sequence feature partitions = elim (find partition_key feature partitions) [
  | none ↦ 0
  | some p ↦ p.operation_sequence
]

unfoldable pub recent_admissions : ℕ → List ℕ → List ℕ
unfolding select
recent_admissions now rate = select (λ time. ltb now (time + 1000)) rate

-- The writes of `allocate_sequence`, with the token that holds for the partition.
unfoldable pub record_sequence : String → String → ℕ → ℕ → Bool → Outbox → Outbox
unfolding recent_admissions upsert
record_sequence feature token sequence now known s = record s {
  partitions =
      upsert (has_key partition_key feature) (λ p. record p { operation_sequence = sequence })
        (record { partition_key = feature; scope_token = token; operation_sequence = sequence })
        s.partitions;
  budget = record s.budget {
    partitions = s.budget.partitions + (if known then 0 else 1);
    rate = recent_admissions now s.budget.rate ++ now ∷ [];
  };
}

unfoldable pub allocate_sequence :
    String → String → ℕ → Outbox → Result OutboxError (Correlation × Outbox)
unfolding find stored_sequence recent_admissions record_sequence
allocate_sequence feature candidate now s =
    let partition = find partition_key feature s.partitions in
    let sequence = suc (stored_sequence feature s.partitions) in
    let token : String = elim partition [ none ↦ candidate | some p ↦ p.scope_token ] in
    throw_if (leb admissions_per_second (length (recent_admissions now s.budget.rate))) rate_limited
    >> throw_if (not (is_some partition) && leb max_partitions s.budget.partitions)
        partition_capacity
    >> throw_if (ltb max_safe_integer sequence) sequence_exhausted
    >> ok (
      record { version = 1; scope_token = token; operation_sequence = sequence },
      record_sequence feature token sequence now (is_some partition) s,
    )

-- The streak after a turn that is given to a publication, to other work, or to neither.
unfoldable pub next_streak : Option Bool → ℕ → ℕ
next_streak none streak = streak
next_streak (some true) streak = min (suc streak) publication_burst
next_streak (some false) streak = 0

unfoldable pub next_turn : Option Bool → Outbox → Result OutboxError (ℕ × Outbox)
unfolding next_streak
next_turn publication s =
    let turn = suc s.schedule.turn in
    throw_if (ltb max_safe_integer turn) sequence_exhausted
    >> ok (
      turn,
      record s {
        schedule = record {
          turn = turn;
          publication_streak = next_streak publication s.schedule.publication_streak;
        };
      },
    )

-- The test of a string for truth.
unfoldable pub is_truthy : Option String → Bool
is_truthy none = false
is_truthy (some text) = not (text_eq text "")

unfoldable pub is_blocked : SourceStream → Bool
unfolding is_truthy
is_blocked stream = is_truthy stream.reset_id || (stream.blocked || is_some stream.gap_first)

-- The stream of a route with the defaults of its columns.
unfoldable pub new_stream : String → SourceStream
new_stream route = record {
  route_id = route;
  gap_first = none;
  blocked = false;
  reset_id = none;
  interest_epoch = 1;
  wake_generation = 0;
  last_sequence = 0;
}

unfoldable pub open_stream : String → Outbox → Result OutboxError (SourceStream × Outbox)
unfolding find is_blocked new_stream
open_stream route s = elim (find route_id route s.streams) [
  | some stream ↦ throw_if (is_blocked stream) stream_blocked >> ok (stream, s)
  | none ↦
      throw_if (leb max_partitions (length s.streams)) partition_capacity
      >> ok (new_stream route, record s { streams = s.streams ++ new_stream route ∷ [] })
]

unfoldable pub is_wakeable : IntentState → Bool
is_wakeable pending = true
is_wakeable parked = true
is_wakeable gap_pending = true
is_wakeable appended = false
is_wakeable gap_recorded = false
is_wakeable retiring = false
is_wakeable reset_discarded = false

-- The rows that new work of the same stream wakes.
unfoldable pub is_woken : Intent → OutboxRow → Bool
unfolding is_wakeable
is_woken intent row =
    text_eq row.stream_route_id intent.stream_route_id
    && (elim row.lease_until_ms [ none ↦ true | some until ↦ leb until intent.committed_at_ms ]
        && (ltb row.attempts 19 && is_wakeable row.state))

unfoldable pub woken : Intent → OutboxRow → OutboxRow
woken intent row = record row {
  next_wakeup_at_ms =
      some (min (or_else row.next_wakeup_at_ms row.deadline_ms) (intent.committed_at_ms + 1000));
  last_error = some "useful_wakeup";
}

unfoldable pub note_interest : Intent → Outbox → Outbox
unfolding update is_woken woken
note_interest intent s = record s {
  streams =
      update (has_key route_id intent.stream_route_id)
        (λ stream. record stream {
          interest_epoch = suc stream.interest_epoch;
          wake_generation = suc stream.wake_generation;
          last_sequence = intent.operation_sequence;
        })
        s.streams;
  rows = update (is_woken intent) (woken intent) s.rows;
}

unfoldable pub new_row : Intent → ℕ → OutboxRow
new_row intent turn = record {
  operation_id = intent.operation_id;
  partition_key = or_else intent.partition_key intent.feature_id;
  operation_sequence = intent.operation_sequence;
  state = pending;
  deadline_ms = intent.expires_at_ms;
  next_wakeup_at_ms = some (intent.committed_at_ms + 1000);
  intent_json = intent.json;
  intent_bytes = intent.json_bytes;
  stream_route_id = intent.stream_route_id;
  relay_turn = turn;
  attempts = 0;
  lease_until_ms = none;
  last_error = none;
}

-- The last two statements of `enqueue`.
unfoldable pub insert_intent : Intent → ℕ → Outbox → Result OutboxError Outbox
unfolding any_row new_row
insert_intent intent turn s =
    throw_if (any_row (has_key operation_id intent.operation_id) s.rows) duplicate_operation
    >> ok (record s {
      rows = s.rows ++ new_row intent turn ∷ [];
      budget = record s.budget {
        rows = suc s.budget.rows;
        bytes = s.budget.bytes + intent.json_bytes;
      };
    })

unfoldable pub enqueue : Intent → Outbox → Result OutboxError Outbox
unfolding open_stream note_interest next_turn insert_intent
enqueue intent s =
    throw_if
      (leb max_rows s.budget.rows
        || ltb max_bytes (s.budget.bytes + intent.json_bytes + suc s.budget.rows * 512))
      outbox_capacity
    >> open_stream intent.stream_route_id s
    >>= λ (stream, s).
        throw_if (ltb max_safe_integer (suc stream.interest_epoch)) sequence_exhausted
        >> next_turn none (note_interest intent s)
        >>= λ (turn, s). insert_intent intent turn s
