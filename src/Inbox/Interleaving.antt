-- ===== src/Inbox/Interleaving.antt =====
-- The invariant under every interleaving of calls, and under a drain.
use elmybot.Base.{
  ℕ, subst, ◌+◌, or_else, zero, suc, ◌≡◌, refl, inl, inr, List, [], ◌∷◌, some, arith, Result, ok,
  err, Option-cases,
}
use elmybot.Inbox.Types.{
  Row, Inbox, Validated, Message, InboxError, Receipt, Outcome, succeeded, failed, Registry,
  Externals, Input,
}
use elmybot.Inbox.Validate.{validate_message}
use elmybot.Inbox.Calls.{
  admit, after_admit, enqueue_validated, recover_expired_attempts, claim_next, attempt_lease_ms,
}
use elmybot.Inbox.Drain.{
  Call, enqueues, recovers, claims, prunes, schedules, completes, fails, perform, perform_all, Turn,
  process, settle, drain_turn, drain_loop, drain, drain_batch_size,
}
use elmybot.Inbox.Invariant.{
  IsValid, prune-IsValid, recover-IsValid, claim-IsValid, complete-IsValid, fail-IsValid,
  admit-IsValid,
}

after_admit-IsValid :
    (later : ℕ) (s : Inbox) (r : Result InboxError (List Row × Receipt))
    → ((rows' : List Row) (receipt : Receipt) → r ≡ ok (rows', receipt) → IsValid rows')
    → IsValid s.rows
    → IsValid (after_admit later s r).0.rows
unfolding after_admit
after_admit-IsValid later s (err e) k v = v
after_admit-IsValid later s (ok (rows', receipt)) k v =
    let v' = k rows' receipt refl in ground (arith, v')

enqueue_validated-IsValid :
    (externals : Externals) (input : Input) (now later : ℕ) (s : Inbox)
    (r : Result InboxError Validated)
    → IsValid s.rows
    → IsValid (enqueue_validated externals input now later s r).0.rows
unfolding enqueue_validated
enqueue_validated-IsValid externals input now later s (err e) v = v
enqueue_validated-IsValid externals input now later s (ok m) v =
    let fingerprint = externals.digest m.message_type m.subscription_kind m.payload_json in
    let broadcaster = or_else input.broadcaster_user_id "" in
    after_admit-IsValid later (record s { alarm = some (now + 1000) })
      (admit m fingerprint broadcaster now s.rows)
      (λ rows' receipt e. admit-IsValid m fingerprint broadcaster now s.rows rows' receipt e v) v

-- Each call keeps the invariant.
pub perform-IsValid : (c : Call) (s : Inbox) → IsValid s.rows → IsValid (perform c s).rows
unfolding perform
perform-IsValid (enqueues externals registry input now later) s v =
    enqueue_validated-IsValid externals input now later s
      (validate_message externals registry input) v
perform-IsValid (recovers now) s v = recover-IsValid now s.rows v
perform-IsValid (claims now) s v = elim (Option-cases (claim_next now s.rows)) [
  | inl miss ↦ rw (miss, perform) v
  | inr ((m, rows), hit) ↦ rw (hit, perform) (claim-IsValid now s.rows rows m hit v)
]
perform-IsValid (prunes now) s v = prune-IsValid now s.rows v
perform-IsValid (schedules now) s v = v
perform-IsValid (completes id now) s v = complete-IsValid id now s.rows v
perform-IsValid (fails m failure now) s v = fail-IsValid m failure now s.rows v

-- The invariant holds after every interleaving of calls, whatever the clock and the requests are.
pub perform_all-IsValid :
    (cs : List Call) (s : Inbox) → IsValid s.rows → IsValid (perform_all cs s).rows
unfolding perform_all
perform_all-IsValid [] s v = v
perform_all-IsValid (c ∷ cs) s v = perform_all-IsValid cs (perform c s) (perform-IsValid c s v)

settle-IsValid :
    (m : Message) (now : ℕ) (o : Outcome) (rows : List Row)
    → IsValid rows
    → IsValid (settle m now o rows)
unfolding settle
settle-IsValid m now succeeded rows v = complete-IsValid m.message_id now rows v
settle-IsValid m now (failed failure) rows v = fail-IsValid m failure now rows v

drain_turn-IsValid :
    (registry : Registry) (started processed : ℕ) (turn : Turn) (s s' : Inbox)
    → drain_turn registry started processed turn s ≡ some s'
    → IsValid s.rows
    → IsValid s'.rows
unfolding drain_turn
drain_turn-IsValid registry started processed turn s s' e v =
    elim (Option-cases (claim_next turn.claim_ms s.rows)) [
      | inl miss ↦ absurd (ground arith)
      | inr ((m, rows), hit) ↦
          let awaited =
            perform_all turn.meanwhile
              (record { rows = rows; alarm = some (turn.alarm_ms + attempt_lease_ms) }) in
          let kept =
            perform_all-IsValid turn.meanwhile
              (record { rows = rows; alarm = some (turn.alarm_ms + attempt_lease_ms) })
              (claim-IsValid turn.claim_ms s.rows rows m hit v) in
          let after = settle-IsValid m turn.finish_ms (process registry turn m) awaited.rows kept in
          subst IsValid (ground arith) after
    ]

drain_loop-IsValid :
    (registry : Registry) (started rounds processed : ℕ) (turns : ℕ → Turn) (s : Inbox)
    → IsValid s.rows
    → IsValid (drain_loop registry started rounds processed turns s).1.rows
unfolding drain_loop
drain_loop-IsValid registry started zero processed turns s v = v
drain_loop-IsValid registry started (suc rounds) processed turns s v =
    elim (Option-cases (drain_turn registry started processed (turns processed) s)) [
      | inl stop ↦ rw (stop, drain_loop) v
      | inr (s', go) ↦
          rw (go, drain_loop)
            (drain_loop-IsValid registry started rounds (suc processed) turns s'
              (drain_turn-IsValid registry started processed (turns processed) s s' go v))
    ]

-- A drain keeps the invariant, whatever the handlers answer and other requests do meanwhile.
pub drain-IsValid :
    (registry : Registry) (started recover : ℕ) (turns : ℕ → Turn) (prune_ms end : ℕ) (s : Inbox)
    → IsValid s.rows
    → IsValid (drain registry started recover turns prune_ms end s).1.rows
unfolding drain
drain-IsValid registry started recover turns prune_ms end s v = prune-IsValid prune_ms _ (
    drain_loop-IsValid registry started drain_batch_size 0 turns
      (record s { rows = recover_expired_attempts recover s.rows })
      (recover-IsValid recover s.rows v))
