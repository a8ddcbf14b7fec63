-- ===== src/AlarmDrain.antt =====
-- alarm-drain.js in src: the time budget that the alarm loops of the queues share.
use elmybot.Base.{ℕ, ◌+◌, ◌-◌, ◌≤◌, ◌≡◌, Bool, false, ◌||◌, ltb, ◌==◌, arith}

abbrev pub alarm_drain_time_budget_ms : ℕ
alarm_drain_time_budget_ms = 5_000

-- A clock that ran backwards gives a negative elapsed time, which passes the test, as 0 does here.
unfoldable pub alarm_drain_time_remaining : ℕ → ℕ → ℕ → Bool
alarm_drain_time_remaining started_at_ms processed now_ms =
    processed == 0 || ltb (now_ms - started_at_ms) alarm_drain_time_budget_ms

-- The budget is used up only after a first round, and after five seconds.
pub alarm_drain_time_remaining-false :
    (started processed now : ℕ)
    → alarm_drain_time_remaining started processed now ≡ false
    → (1 ≤ processed) × (started + 5_000 ≤ now)
unfolding alarm_drain_time_remaining
alarm_drain_time_remaining-false started processed now h = (ground (arith, h), ground (arith, h))
