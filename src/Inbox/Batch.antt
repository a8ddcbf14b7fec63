-- ===== src/Inbox/Batch.antt =====
-- The loop of `drain`: how many messages it takes, and why it stops.
use elmybot.Base.{
  ℕ, subst, sym, zero, suc, ◌+◌, ◌≤◌, ◌≡◌, inl, inr, ◌⊎◌, none, arith, All, Option-cases,
  Bool-cases,
}
use elmybot.AlarmDrain.{alarm_drain_time_remaining, alarm_drain_time_remaining-false}
use elmybot.Inbox.Types.{Inbox, Registry}
use elmybot.Inbox.Calls.{claim_next}
use elmybot.Inbox.Drain.{Turn, drain_turn, drain_loop}
use elmybot.Inbox.Claims.{Waits, claim_next-none}

-- A message was handled and the five seconds are used up, or no message waits for a time that has
-- come.
abbrev pub StopsBy : ℕ → ℕ → Turn → Inbox → Type 0
StopsBy started processed turn s =
    ((1 ≤ processed) × (started + 5_000 ≤ turn.check_ms)) ⊎ All (Waits turn.claim_ms) s.rows

drain_turn-StopsBy :
    (registry : Registry) (started processed : ℕ) (turn : Turn) (s : Inbox)
    → drain_turn registry started processed turn s ≡ none
    → StopsBy started processed turn s
unfolding drain_turn
drain_turn-StopsBy registry started processed turn s e =
    elim (Bool-cases (alarm_drain_time_remaining started processed turn.check_ms)) [
      | inr late ↦ inl (alarm_drain_time_remaining-false started processed turn.check_ms late)
      | inl early ↦ elim (Option-cases (claim_next turn.claim_ms s.rows)) [
        | inl miss ↦ inr (claim_next-none turn.claim_ms s.rows miss)
        | inr (claim, hit) ↦ absurd (ground arith)
      ]
    ]

-- How a loop of `rounds` rounds ends that begins at `processed`.
abbrev pub Ends : ℕ → ℕ → ℕ → (ℕ → Turn) → ℕ × Inbox → Type 0
Ends started rounds processed turns r =
    (processed ≤ r.0)
    × (r.0 ≤ processed + rounds)
    × ((r.0 ≡ processed + rounds) ⊎ StopsBy started r.0 (turns r.0) r.1)

later :
    (started rounds processed : ℕ) (turns : ℕ → Turn) (r : ℕ × Inbox)
    → Ends started rounds (suc processed) turns r
    → Ends started (suc rounds) processed turns r
later started rounds processed turns r k = (
  omega (arith, k.0),
  omega (arith, k.1),
  elim k.2 [ inl full ↦ inl (omega (arith, full)) | inr why ↦ inr why ],
)

-- The loop takes at most the rounds that it is given. It stops short of them only if it has handled a
-- message and five seconds have passed since the start, or if every message that is pending or waits
-- for a retry has a later time; so it takes a message whenever one is due.
pub drain_loop-Ends :
    (registry : Registry) (started rounds processed : ℕ) (turns : ℕ → Turn) (s : Inbox)
    → Ends started rounds processed turns (drain_loop registry started rounds processed turns s)
unfolding drain_loop
drain_loop-Ends registry started zero processed turns s =
    (omega arith, omega arith, inl (omega arith))
drain_loop-Ends registry started (suc rounds) processed turns s =
    elim (Option-cases (drain_turn registry started processed (turns processed) s)) [
      | inl stop ↦
          let why = drain_turn-StopsBy registry started processed (turns processed) s stop in
          let result : drain_loop registry started (suc rounds) processed turns s ≡ (processed, s) =
            rw (stop, drain_loop) in
          subst (Ends started (suc rounds) processed turns) (sym result)
            (omega arith, omega arith, inr why)
      | inr (s', go) ↦
          let k = drain_loop-Ends registry started rounds (suc processed) turns s' in
          let result : drain_loop registry started (suc rounds) processed turns s
              ≡ drain_loop registry started rounds (suc processed) turns s' =
            rw (go, drain_loop) in
          subst (Ends started (suc rounds) processed turns) (sym result) (
            later started rounds processed turns
              (drain_loop registry started rounds (suc processed) turns s') k)
    ]
