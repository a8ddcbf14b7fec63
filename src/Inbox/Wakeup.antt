-- ===== src/Inbox/Wakeup.antt =====
-- `scheduleNextAlarm` and the end of a drain: no open message is left without an alarm, and a drain
-- stops only for one of its reasons.
use elmybot.Base.{
  ℕ, subst, ◌+◌, ◌≤◌, ◌≡◌, refl, ap, sym, inl, inr, true, List, [], ◌∷◌, Option, none, some, arith,
  map?, min, max, All, All-map_imp, Option-cases, Bool-cases,
}
use elmybot.Inbox.Types.{
  Row, Inbox, Registry, Status, pending, attempting, retry_wait, completed, dead_letter, is_open,
}
use elmybot.Inbox.Calls.{
  wake_at, min?, earliest_wake, schedule_next_alarm, attempt_lease_ms, prune,
  recover_expired_attempts,
}
use elmybot.Inbox.Drain.{Turn, drain_loop, drain, drain_batch_size}
use elmybot.Inbox.Invariant.{IsValid, HasShape, Shape}
use elmybot.Inbox.Interleaving.{drain-IsValid}

-- The row is woken at or before its own time, by an alarm set for `o`.
abbrev WokenBy : Option ℕ → Row → Type 0
WokenBy o r =
    is_open r.status ≡ true → (t : ℕ) × (w : ℕ) × (o ≡ some t) × (wake_at r ≡ some w) × (t ≤ w)

wake_of_Shape :
    (s : Status) (r : Row)
    → r.status ≡ s
    → Shape s r
    → is_open s ≡ true
    → (w : ℕ) × (wake_at r ≡ some w)
unfolding wake_at is_open
wake_of_Shape pending r e h o = elim (Option-cases r.next_attempt_at_ms) [
  | inl n ↦ absurd (ground (arith, n, h))
  | inr (t, n) ↦ (t, rw (e, n))
]
wake_of_Shape retry_wait r e h o = elim (Option-cases r.next_attempt_at_ms) [
  | inl n ↦ absurd (ground (arith, n, h))
  | inr (t, n) ↦ (t, rw (e, n))
]
wake_of_Shape attempting r e h o = elim (Option-cases r.last_attempt_at_ms) [
  | inl n ↦ absurd (ground (arith, n, h.0))
  | inr (t, n) ↦ (t + attempt_lease_ms, rw (e, n))
]
wake_of_Shape completed r e h o = absurd (ground arith)
wake_of_Shape dead_letter r e h o = absurd (ground arith)

min?-le :
    (w : ℕ) (o : Option ℕ)
    → (t : ℕ) × (min? (some w) o ≡ some t) × (t ≤ w) × ((t' : ℕ) → o ≡ some t' → t ≤ t')
min?-le w none = (w, refl, omega arith, λ t' e. absurd (ground (arith, e)))
min?-le w (some a) = (min w a, refl, omega arith, λ t' e. ground (arith, e))

WokenBy-mono :
    (o : Option ℕ) (t : ℕ) (r : Row)
    → ((t' : ℕ) → o ≡ some t' → t ≤ t')
    → WokenBy o r
    → WokenBy (some t) r
WokenBy-mono o t r h k open_row =
    let (t', w, e, wake, le) = k open_row in
    let small = h t' e in (t, w, refl, wake, omega (arith, small, le))

earliest_wake-WokenBy :
    (rows : List Row) → All HasShape rows → All (WokenBy (earliest_wake rows)) rows
unfolding earliest_wake
earliest_wake-WokenBy [] h = tt
earliest_wake-WokenBy (r ∷ rows) h = elim (Bool-cases (is_open r.status)) [
  | inl o ↦
      let (w, wake) = wake_of_Shape r.status r refl h.0 o in
      let (t, e, le, least) = min?-le w (earliest_wake rows) in
      let all : earliest_wake (r ∷ rows) ≡ some t = rw (o, wake) e in
      subst (λ z. All (WokenBy z) (r ∷ rows)) (sym all)
        (
          (λ _. (t, w, refl, wake, le)),
          All-map_imp (WokenBy (earliest_wake rows)) (WokenBy (some t))
              (λ x. WokenBy-mono (earliest_wake rows) t x least) rows
              (earliest_wake-WokenBy rows h.1),
        )
  | inr c ↦
      let same : earliest_wake (r ∷ rows) ≡ earliest_wake rows = rw c in
      subst (λ z. All (WokenBy z) (r ∷ rows)) (sym same)
        ((λ o. absurd (ground (arith, c, o))), earliest_wake-WokenBy rows h.1)
]

-- The alarm is set for the row's own time or earlier, or for now if that is past.
abbrev pub IsCovered : ℕ → Inbox → Row → Type 0
IsCovered now s r =
    is_open r.status ≡ true
    → (t : ℕ) × (w : ℕ) × (s.alarm ≡ some t) × (wake_at r ≡ some w) × (t ≤ max w now)

-- Scheduling the alarm covers every open message.
pub schedule_next_alarm-IsCovered :
    (now : ℕ) (s : Inbox)
    → All HasShape s.rows
    → All (IsCovered now (schedule_next_alarm now s)) (schedule_next_alarm now s).rows
unfolding schedule_next_alarm
schedule_next_alarm-IsCovered now s h =
    All-map_imp (WokenBy (earliest_wake s.rows)) (IsCovered now (schedule_next_alarm now s))
      (λ r k o.
        let (t, w, e, wake, le) = k o in
        (max t now, w, ap (map? (λ x. max x now)) e, wake, omega (arith, le)))
      s.rows (earliest_wake-WokenBy s.rows h)

-- After a drain every message that is still open is covered by the alarm, whatever the handlers
-- answered and other requests did meanwhile.
pub drain-IsCovered :
    (registry : Registry) (started recover : ℕ) (turns : ℕ → Turn) (prune_ms end : ℕ) (s : Inbox)
    → IsValid s.rows
    → let s' = (drain registry started recover turns prune_ms end s).1 in
      All (IsCovered end s') s'.rows
unfolding drain
drain-IsCovered registry started recover turns prune_ms end s v =
    let begun = record s { rows = recover_expired_attempts recover s.rows } in
    let drained = (drain_loop registry started drain_batch_size 0 turns begun).1 in
    schedule_next_alarm-IsCovered end (record drained { rows = prune prune_ms drained.rows })
      (drain-IsValid registry started recover turns prune_ms end s v).shapes
