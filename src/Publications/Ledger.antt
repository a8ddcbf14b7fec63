-- ===== src/Publications/Ledger.antt =====
-- `prepare`, `finalize` and `repin`, with the pruning.
use Prim.Native.String.{len}
use elmybot.Base.{
  ℕ, ◌+◌, ◌*◌, String, Bool, true, false, not, ◌&&◌, ◌||◌, List, [], ◌∷◌, ◌++◌, Option, none, some,
  or_else, Result, ok, err, ◌>>=◌, ◌>>◌, throw_if, or_throw, text_eq, ltb, leb, length,
  if◌then◌else◌,
}
use elmybot.Sql.{delete, update, find, has_key, count}
use elmybot.Publications.Types.{
  Code, payload_invalid, source_conflict, service_unavailable, LedgerError, PublicationState,
  pending, committed, rejected, Publication, Answer, is_committed, is_rejected, is_pending,
  PrepareInput, FinalizeInput, RepinInput, Patterns,
}

abbrev pub max_payload_bytes : ℕ
max_payload_bytes = 4096

abbrev pub receipt_retention_ms : ℕ
receipt_retention_ms = 2 * 60 * 60 * 1000

abbrev pub max_receipt_rows : ℕ
max_receipt_rows = 100_000

abbrev pub max_pending_rows : ℕ
max_pending_rows = 100

abbrev pub max_pending_bytes : ℕ
max_pending_bytes = 512 * 1024

abbrev pub max_route_bytes : ℕ
max_route_bytes = 2048

abbrev error : Code → ℕ → LedgerError
error code status = record { code = code; status = status }

abbrev pub event_id : Publication → String
event_id x = x.event_id

unfoldable pub is_waiting : PublicationState → Bool
is_waiting pending = true
is_waiting committed = false
is_waiting rejected = false

-- A field that is missing is tested as "", which no pattern of the ledger takes.
unfoldable pub require_text :
    (String → Bool) → Option String → LedgerError → Result LedgerError String
require_text test none e = err e
require_text test (some text) e = if test text then ok text else err e

-- The fields of `input` that `requireInput` has checked.
pub record Checked : Type 0 where
  pub event_id : String
  pub fingerprint : String
  pub feature_id : String
  pub stream_id : String
  pub version : ℕ
  pub route_id : String
  pub binding_revision : ℕ
  pub route_json : String
  pub payload : String
  pub pending_bytes : ℕ

unfoldable pub require_input : Patterns → PrepareInput → Result LedgerError Checked
unfolding require_text
require_input patterns input = do
  id ← require_text patterns.is_event_id input.event_id (error service_unavailable 422)
  fingerprint ←
      require_text patterns.is_fingerprint input.fingerprint (error service_unavailable 422)
  feature_id ← require_text patterns.is_safe_id input.feature_id (error service_unavailable 422)
  stream_id ← require_text patterns.is_safe_id input.stream_id (error service_unavailable 422)
  version ← or_throw input.version (error service_unavailable 422)
  throw_if (ltb version 1) (error service_unavailable 422)
  route_id ← require_text patterns.is_route_id input.route.route_id (error service_unavailable 422)
  binding_revision ← or_throw input.route.binding_revision (error service_unavailable 422)
  throw_if (not input.route.has_descriptor) (error service_unavailable 422)
  payload ← or_throw input.payload (error service_unavailable 422)
  throw_if (ltb max_payload_bytes (len payload)) (error payload_invalid 422)
  throw_if (ltb max_route_bytes (len input.route.json)) (error service_unavailable 422)
  ok (record {
    event_id = id;
    fingerprint = fingerprint;
    feature_id = feature_id;
    stream_id = stream_id;
    version = version;
    route_id = route_id;
    binding_revision = binding_revision;
    route_json = input.route.json;
    payload = payload;
    pending_bytes = len payload;
  })

-- `publicRow`; `Number(null)` is 0.
unfoldable pub shown : PublicationState → Publication → Answer
shown committed x = is_committed (or_else x.sequence 0) (or_else x.accepted_at_ms 0)
shown rejected x = is_rejected x.rejection_code
shown pending x = is_pending x.route_json

unfoldable pub public_row : Publication → Answer
unfolding shown
public_row x = shown x.state x

unfoldable pub is_overdue : ℕ → Publication → Bool
unfolding is_waiting
is_overdue now_ms x = is_waiting x.state && leb x.expires_at_ms now_ms

unfoldable pub given_up : ℕ → Publication → Publication
given_up now_ms x = record x {
  state = rejected;
  rejection_code = some service_unavailable;
  pending_payload = none;
  pending_payload_bytes = 0;
  updated_at_ms = now_ms;
  expires_at_ms = now_ms + receipt_retention_ms;
}

unfoldable pub is_outdated : ℕ → Publication → Bool
unfolding is_waiting
is_outdated now_ms x = not (is_waiting x.state) && leb x.expires_at_ms now_ms

unfoldable pub prune : ℕ → List Publication → List Publication
unfolding is_overdue given_up is_outdated
prune now_ms rows = delete (is_outdated now_ms) (update (is_overdue now_ms) (given_up now_ms) rows)

-- SUM(pending_payload_bytes) … WHERE state = 'pending'
unfoldable pub pending_bytes : List Publication → ℕ
unfolding is_waiting
pending_bytes [] = 0
pending_bytes (x ∷ xs) =
    let rest = pending_bytes xs in
    if is_waiting x.state then x.pending_payload_bytes + rest else rest

unfoldable pub pending_rows : List Publication → ℕ
unfolding is_waiting
pending_rows rows = count (λ (x : Publication). is_waiting x.state) rows

unfoldable pub at_capacity : ℕ → List Publication → Bool
unfolding pending_bytes pending_rows
at_capacity bytes rows =
    leb max_receipt_rows (length rows)
    || leb max_pending_rows (pending_rows rows)
    || ltb max_pending_bytes (pending_bytes rows + bytes)

unfoldable pub new_publication : Checked → ℕ → Publication
new_publication input now_ms = record {
  event_id = input.event_id;
  fingerprint = input.fingerprint;
  feature_id = input.feature_id;
  stream_id = input.stream_id;
  stream_version = input.version;
  route_id = input.route_id;
  binding_revision = input.binding_revision;
  route_json = input.route_json;
  state = pending;
  pending_payload = some input.payload;
  pending_payload_bytes = input.pending_bytes;
  sequence = none;
  accepted_at_ms = none;
  rejection_code = none;
  created_at_ms = now_ms;
  updated_at_ms = now_ms;
  expires_at_ms = now_ms + receipt_retention_ms;
}

-- What follows the pruning in the transaction of `prepare`.
unfoldable pub prepare_pruned :
    Checked → ℕ → List Publication → Result LedgerError (List Publication × Answer)
unfolding find public_row at_capacity new_publication
prepare_pruned input now_ms rows = elim (find event_id input.event_id rows) [
  | some existing ↦
      if text_eq existing.fingerprint input.fingerprint
      then ok (rows, public_row existing)
      else err (error source_conflict 409)
  | none ↦
      if at_capacity input.pending_bytes rows
      then err (error service_unavailable 503)
      else ok (rows ++ new_publication input now_ms ∷ [], is_pending input.route_json)
]

-- An error rolls the transaction back, and the pruning with it.
unfoldable pub prepare :
    Patterns → PrepareInput → ℕ → List Publication → Result LedgerError (List Publication × Answer)
unfolding require_input prepare_pruned prune
prepare patterns input now_ms rows = do
  checked ← require_input patterns input
  prepare_pruned checked now_ms (prune now_ms rows)

unfoldable pub commit_publication : ℕ → ℕ → ℕ → Publication → Publication
commit_publication sequence accepted_at_ms now_ms x = record x {
  state = committed;
  pending_payload = none;
  pending_payload_bytes = 0;
  sequence = some sequence;
  accepted_at_ms = some accepted_at_ms;
  updated_at_ms = now_ms;
}

unfoldable pub reject_publication : Code → ℕ → Publication → Publication
reject_publication code now_ms x = record x {
  state = rejected;
  pending_payload = none;
  pending_payload_bytes = 0;
  rejection_code = some code;
  updated_at_ms = now_ms;
}

-- The UPDATE of the publication that is pending.
unfoldable pub update_pending :
    String → (Publication → Publication) → List Publication → List Publication
unfolding is_waiting
update_pending id f rows =
    update (λ (x : Publication). has_key event_id id x && is_waiting x.state) f rows

-- The change that a report asks for.
unfoldable pub finalized :
    FinalizeInput → ℕ → PublicationState → Result LedgerError (Publication → Publication)
unfolding commit_publication reject_publication
finalized input now_ms committed = do
  sequence ← or_throw input.sequence (error service_unavailable 422)
  throw_if (ltb sequence 1) (error service_unavailable 422)
  accepted_at_ms ← or_throw input.accepted_at_ms (error service_unavailable 422)
  ok (commit_publication sequence accepted_at_ms now_ms)
finalized input now_ms rejected = do
  code ← or_throw input.code (error service_unavailable 422)
  ok (reject_publication code now_ms)
finalized input now_ms pending = err (error service_unavailable 422)

unfoldable pub require_terminal : Option PublicationState → Result LedgerError PublicationState
require_terminal (some committed) = ok committed
require_terminal (some rejected) = ok rejected
require_terminal (some pending) = err (error service_unavailable 422)
require_terminal none = err (error service_unavailable 422)

-- The row of an event, with the fingerprint that a request names.
unfoldable pub require_row : String → String → List Publication → Result LedgerError Publication
unfolding find
require_row id fingerprint rows = do
  existing ← or_throw (find event_id id rows) (error service_unavailable 409)
  throw_if (not (text_eq existing.fingerprint fingerprint)) (error source_conflict 409)
  ok existing

unfoldable pub finalize_row :
    FinalizeInput
    → ℕ
    → PublicationState
    → String
    → Publication
    → List Publication
    → Result LedgerError (List Publication × Answer)
unfolding is_waiting finalized update_pending public_row
finalize_row input now_ms state id existing rows =
    if is_waiting existing.state
    then (do
      f ← finalized input now_ms state
      ok (update_pending id f rows, public_row (f existing)))
    else ok (rows, public_row existing)

unfoldable pub finalize :
    Patterns → FinalizeInput → ℕ → List Publication → Result LedgerError (List Publication × Answer)
unfolding require_text require_terminal require_row finalize_row
finalize patterns input now_ms rows = do
  id ← require_text patterns.is_event_id input.event_id (error service_unavailable 422)
  fingerprint ←
      require_text patterns.is_fingerprint input.fingerprint (error service_unavailable 422)
  state ← require_terminal input.state
  existing ← require_row id fingerprint rows
  finalize_row input now_ms state id existing rows

unfoldable pub moved : String → ℕ → String → ℕ → Publication → Publication
moved route_id binding_revision route_json now_ms x = record x {
  route_id = route_id;
  binding_revision = binding_revision;
  route_json = route_json;
  updated_at_ms = now_ms;
}

unfoldable pub repin_row :
    String
    → String
    → ℕ
    → String
    → ℕ
    → String
    → Publication
    → List Publication
    → Result LedgerError (List Publication × Answer)
unfolding is_waiting moved public_row
repin_row previous route_id binding_revision route_json now_ms id existing rows =
    if is_waiting existing.state && text_eq existing.route_id previous
    then ok (
      update
          (λ (x : Publication).
            has_key event_id id x && (is_waiting x.state && text_eq x.route_id previous))
          (moved route_id binding_revision route_json now_ms) rows,
      is_pending route_json,
    )
    else ok (rows, public_row existing)

unfoldable pub repin :
    Patterns → RepinInput → ℕ → List Publication → Result LedgerError (List Publication × Answer)
unfolding require_text require_row repin_row
repin patterns input now_ms rows = do
  id ← require_text patterns.is_event_id input.event_id (error service_unavailable 422)
  fingerprint ←
      require_text patterns.is_fingerprint input.fingerprint (error service_unavailable 422)
  previous ←
      require_text patterns.is_route_id input.previous_route_id (error service_unavailable 422)
  route_id ← require_text patterns.is_route_id input.route.route_id (error service_unavailable 422)
  binding_revision ← or_throw input.route.binding_revision (error service_unavailable 422)
  throw_if (ltb max_route_bytes (len input.route.json)) (error service_unavailable 422)
  existing ← require_row id fingerprint rows
  repin_row previous route_id binding_revision input.route.json now_ms id existing rows
