-- ===== src/RelayBudget/Budget.antt =====
-- `stateEventRecordRemoteCost` and `createStateEventWorkBudget`.
use elmybot.Base.{
  ℕ, suc, ◌+◌, Bool, true, false, not, ◌&&◌, ◌||◌, List, [], ◌∷◌, Option, none, some, is_some, ltb,
  leb, if◌then◌else◌,
}

-- The remote calls that have a cost, and any other.
pub data Rpc : Type 0 where
  probe authority_probe interest append authority_append confirm outcome : Rpc
  origin_retire interest_release unknown : Rpc

-- `STATE_EVENT_REMOTE_COST`, 0 for a call that is not in it.
unfoldable pub remote_cost : Rpc → ℕ
remote_cost probe = 1
remote_cost authority_probe = 2
remote_cost interest = 2
remote_cost append = 2
remote_cost authority_append = 8
remote_cost confirm = 2
remote_cost outcome = 2
remote_cost origin_retire = 4
remote_cost interest_release = 1
remote_cost unknown = 0

abbrev pub max_remote_calls : ℕ
max_remote_calls = 20

abbrev pub max_records : ℕ
max_records = 2

abbrev pub max_publications : ℕ
max_publications = 1

-- The states of a row of the outbox that the budget tells apart.
pub data RowState : Type 0 where
  retiring gap_recorded reset_discarded appended other : RowState

pub record Row : Type 0 where
  pub state : RowState
  pub shared : Bool
  pub probe_only : Bool
  pub defer_cleanup : Bool

unfoldable pub is_control : RowState → Bool
is_control retiring = true
is_control gap_recorded = true
is_control reset_discarded = true
is_control appended = false
is_control other = false

unfoldable pub is_gap_recorded : RowState → Bool
is_gap_recorded gap_recorded = true
is_gap_recorded retiring = false
is_gap_recorded reset_discarded = false
is_gap_recorded appended = false
is_gap_recorded other = false

unfoldable pub is_appended : RowState → Bool
is_appended appended = true
is_appended retiring = false
is_appended gap_recorded = false
is_appended reset_discarded = false
is_appended other = false

unfoldable pub cleanup_cost : Row → ℕ
unfolding remote_cost
cleanup_cost row =
    (if row.shared then remote_cost origin_retire else 0) + remote_cost interest_release

unfoldable pub probe_cost : Row → ℕ
unfolding remote_cost
probe_cost row = remote_cost (if row.shared then authority_probe else probe)

unfoldable pub record_remote_cost : Row → ℕ
unfolding remote_cost cleanup_cost probe_cost is_control is_gap_recorded is_appended
record_remote_cost row =
    let terminal_cleanup = if row.defer_cleanup then 0 else cleanup_cost row in
    if row.probe_only
    then probe_cost row + remote_cost confirm + terminal_cleanup
    else if is_control row.state
    then cleanup_cost row + (if is_gap_recorded row.state then remote_cost confirm else 0)
    else remote_cost interest
      + remote_cost confirm
      + terminal_cleanup
      + (if is_appended row.state
          then remote_cost outcome
          else remote_cost (if row.shared then authority_append else append) + probe_cost row)

unfoldable pub is_publication : Row → Bool
unfolding is_control is_appended
is_publication row =
    not row.probe_only && (not (is_control row.state) && not (is_appended row.state))

pub record Budget : Type 0 where
  pub reserved : ℕ
  pub records : ℕ
  pub publications : ℕ

abbrev pub new_budget : Budget
new_budget = record { reserved = 0; records = 0; publications = 0 }

pub data Reason : Type 0 where
  record_quantum publication_quantum remote_budget : Reason

unfoldable pub reason : Row → Budget → Option Reason
unfolding record_remote_cost is_publication
reason row b =
    if leb max_records b.records
    then some record_quantum
    else if is_publication row && leb max_publications b.publications
    then some publication_quantum
    else if ltb max_remote_calls (b.reserved + record_remote_cost row)
    then some remote_budget
    else none

-- What `start` gives: the calls of one record.
pub record Grant : Type 0 where
  pub limit : ℕ
  pub used : ℕ
  pub append_started : Bool

-- `none` where it throws.
unfoldable pub start : Row → Budget → Option (Grant × Budget)
unfolding reason record_remote_cost is_publication
start row b =
    if is_some (reason row b)
    then none
    else some (
      record { limit = record_remote_cost row; used = 0; append_started = false },
      record {
        reserved = b.reserved + record_remote_cost row;
        records = suc b.records;
        publications = if is_publication row then suc b.publications else b.publications;
      },
    )

unfoldable pub is_append : Rpc → Bool
is_append append = true
is_append authority_append = true
is_append probe = false
is_append authority_probe = false
is_append interest = false
is_append confirm = false
is_append outcome = false
is_append origin_retire = false
is_append interest_release = false
is_append unknown = false

-- `none` where it throws, before the call is made.
unfoldable pub take_call : Rpc → Grant → Option Grant
unfolding remote_cost is_append
take_call rpc g =
    if leb (remote_cost rpc) 0 || ltb g.limit (g.used + remote_cost rpc)
    then none
    else some (record g {
      used = g.used + remote_cost rpc;
      append_started = is_append rpc || g.append_started;
    })

-- A turn of the relay: the records that it tries, each with the calls that it tries; those that the
-- budget refuses are not made. The cost of the calls that are made, and the budget left.
unfoldable pub make_calls : List Rpc → Grant → ℕ
unfolding take_call
make_calls [] g = g.used
make_calls (rpc ∷ rpcs) g = elim (take_call rpc g) [
  | none ↦ make_calls rpcs g
  | some g' ↦ make_calls rpcs g'
]

unfoldable pub run_turn : List (Row × List Rpc) → Budget → ℕ × Budget
unfolding start make_calls
run_turn [] b = (0, b)
run_turn ((row, rpcs) ∷ rest) b = elim (start row b) [
  | none ↦ run_turn rest b
  | some (g, b') ↦ let later = run_turn rest b' in (make_calls rpcs g + later.0, later.1)
]
