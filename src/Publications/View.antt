-- ===== src/Publications/View.antt =====
-- The abstract ledger: what each event has come to, and how the requests act on it.
use elmybot.Base.{
  ℕ, ◌+◌, String, Bool, true, false, ◌&&◌, List, [], ◌∷◌, Option, none, some, or_else, map?, Result,
  ok, err, text_eq, leb, if◌then◌else◌,
}
use elmybot.Sql.{find}
use elmybot.Publications.Types.{
  service_unavailable, LedgerError, PublicationState, pending, committed, rejected, Publication,
  Answer, is_committed, is_rejected, is_pending, PrepareInput, FinalizeInput, RepinInput, Patterns,
}
use elmybot.Publications.Ledger.{
  event_id, public_row, prepare, finalize, repin, receipt_retention_ms,
}

pub record Entry : Type 0 where
  pub fingerprint : String
  pub route_id : String
  pub outcome : Answer
  pub expires_at_ms : ℕ

unfoldable pub entry_of : Publication → Entry
unfolding public_row
entry_of x = record {
  fingerprint = x.fingerprint;
  route_id = x.route_id;
  outcome = public_row x;
  expires_at_ms = x.expires_at_ms;
}

-- A map from events to entries, which forgets the order of the rows and their other columns.
unfoldable pub view : List Publication → String → Option Entry
unfolding entry_of find
view rows id = map? entry_of (find event_id id rows)

abbrev pub is_open : Answer → Bool
is_open (is_pending route) = true
is_open (is_committed sequence at) = false
is_open (is_rejected code) = false

-- A pending event that is past its time is rejected, a closed one is forgotten.
unfoldable pub pruned : ℕ → Entry → Option Entry
pruned now_ms e =
    if leb e.expires_at_ms now_ms
    then (if is_open e.outcome
        then some (record e {
          outcome = is_rejected (some service_unavailable);
          expires_at_ms = now_ms + receipt_retention_ms;
        })
        else none)
    else some e

abbrev pub pruned? : ℕ → Option Entry → Option Entry
pruned? now_ms none = none
pruned? now_ms (some e) = pruned now_ms e

abbrev pub new_entry : PrepareInput → ℕ → Entry
new_entry input now_ms = record {
  fingerprint = or_else input.fingerprint "";
  route_id = or_else input.route.route_id "";
  outcome = is_pending input.route.json;
  expires_at_ms = now_ms + receipt_retention_ms;
}

-- What a report makes of a pending event.
abbrev pub reported : FinalizeInput → Option PublicationState → Answer
reported input (some committed) =
    is_committed (or_else input.sequence 0) (or_else input.accepted_at_ms 0)
reported input (some rejected) = is_rejected input.code
reported input (some pending) = is_rejected none
reported input none = is_rejected none

unfoldable pub closed : FinalizeInput → Entry → Entry
closed input e = if is_open e.outcome then record e { outcome = reported input input.state } else e

unfoldable pub routed : RepinInput → Entry → Entry
routed input e =
    if is_open e.outcome && text_eq e.route_id (or_else input.previous_route_id "")
    then record e {
      route_id = or_else input.route.route_id "";
      outcome = is_pending input.route.json;
    }
    else e

pub data Call : Type 0 where
  prepares : PrepareInput → ℕ → Call
  finalizes : FinalizeInput → ℕ → Call
  repins : RepinInput → ℕ → Call

unfoldable pub perform :
    Patterns → Call → List Publication → Result LedgerError (List Publication × Answer)
unfolding prepare finalize repin
perform patterns (prepares input now_ms) rows = prepare patterns input now_ms rows
perform patterns (finalizes input now_ms) rows = finalize patterns input now_ms rows
perform patterns (repins input now_ms) rows = repin patterns input now_ms rows

-- The event that a request is about.
abbrev pub event_of : Call → String
event_of (prepares input now_ms) = or_else input.event_id ""
event_of (finalizes input now_ms) = or_else input.event_id ""
event_of (repins input now_ms) = or_else input.event_id ""

-- What a request that succeeds makes of the entry of an event.
abbrev pub act : Call → String → Option Entry → Option Entry
act (prepares input now_ms) id o =
    if text_eq id (or_else input.event_id "")
    then some (or_else (pruned? now_ms o) (new_entry input now_ms))
    else pruned? now_ms o
act (finalizes input now_ms) id o =
    if text_eq id (or_else input.event_id "") then map? (closed input) o else o
act (repins input now_ms) id o =
    if text_eq id (or_else input.event_id "") then map? (routed input) o else o

-- A request that is refused is rolled back.
unfoldable pub perform_all : Patterns → List Call → List Publication → List Publication
unfolding perform
perform_all patterns [] rows = rows
perform_all patterns (c ∷ cs) rows = elim (perform patterns c rows) [
  | err e ↦ perform_all patterns cs rows
  | ok (rows', answer) ↦ perform_all patterns cs rows'
]
