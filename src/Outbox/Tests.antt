-- ===== src/Outbox/Tests.antt =====
-- Admissions to an outbox, and the theorems at concrete inputs.
use elmybot.Base.{◌≡◌, ◌<◌, refl, List, [], ◌∷◌, none, err, String, ℕ, length}
use elmybot.Outbox.Types.{Intent, Outbox, Correlation, new_outbox, duplicate_operation}
use elmybot.Outbox.Admission.{enqueue}
use elmybot.Outbox.Accounts.{IsAccounted}
use elmybot.Outbox.Runs.{
  Request, allocates, enqueues, perform, perform_all, perform_all-IsAccounted,
}
use elmybot.Outbox.Sequences.{allocate_sequence-later}

abbrev vote : String → ℕ → Intent
vote operation sequence = record {
  operation_id = operation;
  partition_key = none;
  feature_id = "polls";
  operation_sequence = sequence;
  expires_at_ms = 90_000;
  committed_at_ms = 1000;
  stream_route_id = "votes";
  json = "{}";
  json_bytes = 2;
}

-- The second intent wakes the first, the third has the number of an operation that is there.
abbrev requests : List Request
requests =
    allocates "polls" "t" 1000
    ∷ enqueues (vote "a" 1)
    ∷ allocates "polls" "u" 1001
    ∷ enqueues (vote "b" 2)
    ∷ enqueues (vote "a" 3)
    ∷ []

abbrev after : Outbox
after = perform_all requests new_outbox

after_test : (length after.rows ≡ 2) × (after.budget.bytes ≡ 4) × (after.schedule.turn ≡ 2)
unfolding perform_all
after_test = (refl, refl, refl)

duplicate_test : enqueue (vote "a" 3) after ≡ err duplicate_operation
unfolding enqueue perform_all
duplicate_test = refl

perform_all-IsAccounted_example : IsAccounted (perform_all requests new_outbox)
perform_all-IsAccounted_example = perform_all-IsAccounted requests

-- A number for the same partition, with the token of the first one.
abbrev numbered : ℕ → Correlation
numbered n = record { version = 1; scope_token = "t"; operation_sequence = n }

abbrev first_state : Outbox
first_state = perform (allocates "polls" "t" 1000) new_outbox

abbrev last_requests : List Request
last_requests = enqueues (vote "a" 1) ∷ allocates "quiz" "q" 1000 ∷ []

abbrev last_state : Outbox
last_state = perform (allocates "polls" "u" 1001) (perform_all last_requests first_state)

allocate_sequence-later_example : (1 < 2) × ((numbered 2).scope_token ≡ (numbered 1).scope_token)
unfolding perform_all
allocate_sequence-later_example =
    allocate_sequence-later "polls" "t" "u" 1000 1001 last_requests new_outbox first_state
      last_state (numbered 1) (numbered 2) refl refl
