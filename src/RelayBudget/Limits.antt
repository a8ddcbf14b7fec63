-- ===== src/RelayBudget/Limits.antt =====
-- The calls of one turn stay within its limits, and no record is too large for a turn.
use elmybot.Base.{
  suc, ◌+◌, ◌≤◌, ◌≡◌, inl, inr, Bool, true, false, ◌&&◌, List, [], ◌∷◌, some, is_some, arith, ltb,
  leb, Bool-cases, Option-cases, if◌then◌else◌, sym, ap, subst,
}
use elmybot.RelayBudget.Budget.{
  Rpc, remote_cost, RowState, retiring, gap_recorded, reset_discarded, appended, other, Row,
  record_remote_cost, is_publication, Budget, new_budget, reason, Grant, start, take_call,
  make_calls, run_turn, max_remote_calls, max_records, max_publications,
}

-- The calls of a record that are made cost no more than it was given.
make_calls-le : (rpcs : List Rpc) (g : Grant) → g.used ≤ g.limit → make_calls rpcs g ≤ g.limit
unfolding make_calls take_call
make_calls-le [] g h = h
make_calls-le (rpc ∷ rpcs) g h = elim (Bool-cases (leb (remote_cost rpc) 0)) [
  | inl free ↦ rw (free, make_calls, take_call) (make_calls-le rpcs g h)
  | inr costs ↦ elim (Bool-cases (ltb g.limit (g.used + remote_cost rpc))) [
    | inl over ↦ rw (costs, over, make_calls, take_call) (make_calls-le rpcs g h)
    | inr fits ↦
        rw (costs, fits, make_calls, take_call) (make_calls-le rpcs _ (ground (arith, fits)))
  ]
]

abbrev pub Fits : Budget → Type 0
Fits b =
    (b.reserved ≤ max_remote_calls)
    × (b.records ≤ max_records)
    × (b.publications ≤ max_publications)

-- Why a record may be started.
reason-none :
    (row : Row) (b : Budget)
    → is_some (reason row b) ≡ false
    → (suc b.records ≤ max_records)
      × (is_publication row ≡ true → suc b.publications ≤ max_publications)
      × (b.reserved + record_remote_cost row ≤ max_remote_calls)
unfolding reason
reason-none row b h = elim (Bool-cases (leb max_records b.records)) [
  | inl full ↦ absurd (ground (arith, full, h))
  | inr few ↦ elim (Bool-cases (is_publication row && leb max_publications b.publications)) [
    | inl taken ↦ absurd (ground (arith, few, taken, h))
    | inr free ↦ elim (Bool-cases (ltb max_remote_calls (b.reserved + record_remote_cost row))) [
      | inl over ↦ absurd (ground (arith, few, free, over, h))
      | inr within ↦ (ground (arith, few), (λ p. ground (arith, free, p)), ground (arith, within))
    ]
  ]
]

-- What a record that is started adds.
start-Fits :
    (row : Row) (b b' : Budget) (g : Grant)
    → start row b ≡ some (g, b')
    → Fits b
    → Fits b' × (g.used ≡ 0) × (b'.reserved ≡ b.reserved + g.limit)
unfolding start
start-Fits row b b' g h fit = elim (Bool-cases (is_some (reason row b))) [
  | inl refused ↦ absurd (ground (arith, refused, h))
  | inr free ↦
      let (few, single, within) = reason-none row b free in
      let given : record { limit = record_remote_cost row; used = 0; append_started = false } ≡ g =
        ground (arith, free, h) in
      let left : record {
        reserved = b.reserved + record_remote_cost row;
        records = suc b.records;
        publications = if is_publication row then suc b.publications else b.publications;
      }
          ≡ b' =
        ground (arith, free, h) in
      let published : (if is_publication row then suc b.publications else b.publications)
          ≤ max_publications =
        elim (Bool-cases (is_publication row)) [
          | inl yes_it ↦ rw yes_it (single yes_it)
          | inr not_it ↦ rw not_it fit.2
        ] in
      subst (λ (k : Budget). Fits k × (g.used ≡ 0) × (k.reserved ≡ b.reserved + g.limit)) left
        (
          (within, few, published),
          ap (λ (k : Grant). k.used) (sym given),
          ap (λ (k : Grant). b.reserved + k.limit) given,
        )
]

-- The calls that a turn makes cost no more than it reserves, and it stays within its limits: from a
-- budget within the limits, on any records and any calls that are tried for them.
pub run_turn-Fits :
    (records : List (Row × List Rpc)) (b : Budget)
    → Fits b
    → let (cost, b') = run_turn records b in Fits b' × (b.reserved + cost ≤ b'.reserved)
unfolding run_turn
run_turn-Fits [] b fit = (fit, omega arith)
run_turn-Fits ((row, rpcs) ∷ rest) b fit = elim (Option-cases (start row b)) [
  | inl refused ↦ rw (refused, run_turn) (run_turn-Fits rest b fit)
  | inr ((g, b'), given) ↦
      let (fit', unused, reserves) = start-Fits row b b' g given fit in
      let (fits, covered) = run_turn-Fits rest b' fit' in
      let calls = make_calls-le rpcs g (omega (arith, unused)) in
      rw (given, run_turn) (fits, omega (arith, reserves, covered, calls))
]

small :
    (s : RowState) (shared probe_only defer_cleanup : Bool)
    → record_remote_cost (record {
      state = s;
      shared = shared;
      probe_only = probe_only;
      defer_cleanup = defer_cleanup;
    })
      ≤ max_remote_calls
unfolding record_remote_cost
small retiring a b c = ground arith
small gap_recorded a b c = ground arith
small reset_discarded a b c = ground arith
small appended a b c = ground arith
small other a b c = ground arith

-- Every record can be started at the beginning of a turn: none is too large for the budget.
pub start-fresh : (row : Row) → is_some (start row new_budget) ≡ true
unfolding start reason
start-fresh row =
    let fits = small row.state row.shared row.probe_only row.defer_cleanup in
    let affordable : ltb max_remote_calls (0 + record_remote_cost row) ≡ false =
      ground (arith, fits) in
    elim (Bool-cases (is_publication row)) [
      | inl e ↦ rw (e, affordable)
      | inr e ↦ rw (e, affordable)
    ]
