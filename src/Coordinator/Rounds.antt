-- ===== src/Coordinator/Rounds.antt =====
-- The loop of the alarm: how many effects it takes, and why it stops.
use elmybot.Base.{
  ℕ, ◌+◌, ◌≤◌, ◌<◌, String, ◌≡◌, ◌≢◌, refl, sym, subst, inl, inr, ◌⊎◌, true, false, List, none,
  some, arith, All, Option-cases, Bool-cases, suc, zero,
}
use elmybot.Sql.{first_by-none}
use elmybot.AlarmDrain.{alarm_drain_time_remaining}
use elmybot.Coordinator.Types.{EffectRow, Coordinator, Handler, is_open}
use elmybot.Coordinator.Storage.{is_due, first_due_effect, due_before}
use elmybot.Coordinator.Effects.{claim_effect}
use elmybot.Coordinator.Alarm.{Turn, alarm_turn, alarm_loop}
use elmybot.AlarmDrain.{alarm_drain_time_remaining-false}
use elmybot.Base.{All-map_imp}
use elmybot.Coordinator.Types.{EffectState, delivered, dead_letter}

-- The effect is delivered or a dead letter, or its time has not come.
abbrev pub Waits : ℕ → EffectRow → Type 0
Waits now x =
    x.state ≢ delivered → x.state ≢ dead_letter → (t : ℕ) → x.next_attempt_at_ms ≡ some t → now < t

undone-is_open : (s : EffectState) → s ≢ delivered → s ≢ dead_letter → is_open s ≡ true
unfolding is_open
undone-is_open EffectState.pending h k = refl
undone-is_open EffectState.attempting h k = refl
undone-is_open EffectState.retry_wait h k = refl
undone-is_open EffectState.delivered h k = absurd (h refl)
undone-is_open EffectState.dead_letter h k = absurd (k refl)

not_due-Waits : (now : ℕ) (x : EffectRow) → is_due now x ≡ false → Waits now x
unfolding is_due
not_due-Waits now x h a b t e = ground (arith, undone-is_open x.state a b, h, e)

-- An effect was taken and the five seconds are used up, or no effect is due.
abbrev pub StopsBy : ℕ → ℕ → Turn → Coordinator → Type 0
StopsBy started processed turn c =
    ((1 ≤ processed) × (started + 5_000 ≤ turn.check_ms)) ⊎ All (Waits turn.due_ms) c.effects

-- How a loop of `rounds` rounds ends that begins at `processed`.
abbrev pub Ends : ℕ → ℕ → ℕ → (ℕ → Turn) → ℕ × Coordinator → Type 0
Ends started rounds processed turns r =
    (processed ≤ r.0)
    × (r.0 ≤ processed + rounds)
    × ((r.0 ≡ processed + rounds) ⊎ StopsBy started r.0 (turns r.0) r.1)

module _ (handlers : List (String × Handler)) (members : List String) (started : ℕ) where
  alarm_turn-StopsBy :
      (processed : ℕ) (turn : Turn) (c : Coordinator)
      → alarm_turn handlers members started processed turn c ≡ none
      → StopsBy started processed turn c
  unfolding alarm_turn first_due_effect
  alarm_turn-StopsBy processed turn c e =
      elim (Bool-cases (alarm_drain_time_remaining started processed turn.check_ms)) [
        | inr late ↦ inl (alarm_drain_time_remaining-false started processed turn.check_ms late)
        | inl early ↦ elim (Option-cases (first_due_effect turn.due_ms c.effects)) [
          | inl miss ↦ inr (
              All-map_imp (λ x. is_due turn.due_ms x ≡ false) (Waits turn.due_ms)
                (not_due-Waits turn.due_ms) c.effects
                (first_by-none due_before (is_due turn.due_ms) c.effects miss))
          | inr (due, hit) ↦ elim (Option-cases (claim_effect due.effect_id turn.claim_ms c)) [
            | inl gone ↦ absurd (ground arith)
            | inr (claim, took) ↦ absurd (ground arith)
          ]
        ]
      ]

  later_round :
      (rounds processed : ℕ) (turns : ℕ → Turn) (r : ℕ × Coordinator)
      → Ends started rounds (suc processed) turns r
      → Ends started (suc rounds) processed turns r
  later_round rounds processed turns r k = (
    omega (arith, k.0),
    omega (arith, k.1),
    elim k.2 [ inl full ↦ inl (omega (arith, full)) | inr why ↦ inr why ],
  )

  -- The loop takes at most the rounds that it is given. It stops short of them only if it has taken an
  -- effect and five seconds have passed since the start, or if every effect that is neither delivered
  -- nor a dead letter has a later time; so it takes an effect whenever one is due.
  pub alarm_loop-Ends :
      (rounds processed : ℕ) (turns : ℕ → Turn) (c : Coordinator)
      → Ends started rounds processed turns
          (alarm_loop handlers members started rounds processed turns c)
  unfolding alarm_loop
  alarm_loop-Ends zero processed turns c = (omega arith, omega arith, inl (omega arith))
  alarm_loop-Ends (suc rounds) processed turns c =
      elim (Option-cases (alarm_turn handlers members started processed (turns processed) c)) [
        | inl stop ↦
            let result : alarm_loop handlers members started (suc rounds) processed turns c
                ≡ (processed, c) =
              rw (stop, alarm_loop) in
            subst (Ends started (suc rounds) processed turns) (sym result) (
              omega arith,
              omega arith,
              inr (alarm_turn-StopsBy processed (turns processed) c stop),
            )
        | inr (c', go) ↦
            let result : alarm_loop handlers members started (suc rounds) processed turns c
                ≡ alarm_loop handlers members started rounds (suc processed) turns c' =
              rw (go, alarm_loop) in
            subst (Ends started (suc rounds) processed turns) (sym result) (
              later_round rounds processed turns
                (alarm_loop handlers members started rounds (suc processed) turns c')
                (alarm_loop-Ends rounds (suc processed) turns c'))
      ]
