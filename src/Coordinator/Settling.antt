-- ===== src/Coordinator/Settling.antt =====
-- The reports on an attempt.
use elmybot.Base.{
  ℕ, String, ◌≡◌, refl, inl, inr, true, false, List, arith, Result, ok, err, All, Option-cases,
  Bool-cases,
}
use elmybot.Sql.{find, Distinct}
use elmybot.Coordinator.Types.{EffectRow, Coordinator, Failure, is_attempting}
use elmybot.Coordinator.Storage.{effect_id, stored_error}
use elmybot.Coordinator.Effects.{
  update_effect, is_in_flight, delivered_effect, complete_effect, waiting_effect, dead_effect,
  is_final, fail_current, fail_effect, refresh,
}
use elmybot.Coordinator.Alarm.{settle}
use elmybot.Sql.{first}
use elmybot.Coordinator.Effects.{dead_effect}
use elmybot.Coordinator.Calls.{Call, perform_all}
use elmybot.Coordinator.Idle.{
  AllIdle, IsNoClaim, update_own-AllIdle, idle-AllIdle, AllIdle-idle, fail_effect-AllIdle,
  perform_all-AllIdle,
}

settle-idle :
    (e : EffectRow) (now : ℕ) (r : Result Failure String) (c : Coordinator)
    → is_in_flight e.effect_id c ≡ false
    → settle e now r c ≡ c
unfolding settle complete_effect fail_effect fail_current is_in_flight
settle-idle e now (ok result) c h = rw h
settle-idle e now (err failure) c h = elim (Option-cases (find effect_id e.effect_id c.effects)) [
  | inl miss ↦ rw (miss, fail_effect)
  | inr (r, hit) ↦
      let idle : is_attempting r.state ≡ false = ground (arith, hit, h) in
      rw (hit, fail_effect, fail_current, idle)
]

fail_taken-AllIdle :
    (e : EffectRow) (failure : Failure) (now : ℕ) (c : Coordinator) (r : EffectRow)
    → is_attempting r.state ≡ true
    → AllIdle e.effect_id (fail_current e failure now c r)
unfolding fail_current refresh update_effect waiting_effect dead_effect is_attempting
fail_taken-AllIdle e failure now c r flight = elim (Bool-cases (is_final failure r)) [
  | inl stop ↦
      rw (flight, stop, fail_current)
        (update_own-AllIdle e.effect_id (dead_effect (stored_error failure now)) (λ x. refl)
          c.effects)
  | inr go ↦
      rw (flight, go, fail_current)
        (update_own-AllIdle e.effect_id (waiting_effect failure now) (λ x. refl) c.effects)
]

-- A report leaves no attempt of its effect.
settle-AllIdle :
    (e : EffectRow) (now : ℕ) (r : Result Failure String) (c : Coordinator)
    → Distinct effect_id c.effects
    → AllIdle e.effect_id (settle e now r c)
unfolding settle complete_effect refresh update_effect delivered_effect is_attempting is_in_flight
settle-AllIdle e now (ok result) c d = elim (Bool-cases (is_in_flight e.effect_id c)) [
  | inr idle ↦ rw (idle, settle, complete_effect) (idle-AllIdle e.effect_id c d idle)
  | inl flight ↦
      rw (flight, settle, complete_effect)
        (update_own-AllIdle e.effect_id (delivered_effect result now) (λ x. refl) c.effects)
]
settle-AllIdle e now (err failure) c d = elim (Bool-cases (is_in_flight e.effect_id c)) [
  | inr idle ↦ fail_effect-AllIdle e.effect_id e failure now c (idle-AllIdle e.effect_id c d idle)
  | inl flight ↦ elim (Option-cases (find effect_id e.effect_id c.effects)) [
    | inl miss ↦ absurd (ground (arith, flight, miss))
    | inr (r, hit) ↦
        let taken : is_attempting r.state ≡ true = ground (arith, flight, hit) in
        rw (hit, settle, fail_effect) (fail_taken-AllIdle e failure now c r taken)
  ]
]

-- Where no two effects have the same ID, the first report on an attempt settles it: if none of the
-- steps between claims its effect for another attempt, whatever else they do, a second report on it,
-- a success or a failure, changes nothing.
pub settle_once :
    (e : EffectRow) (now later : ℕ) (first second : Result Failure String) (between : List Call)
    (c : Coordinator)
    → Distinct effect_id c.effects
    → All (IsNoClaim e.effect_id) between
    → let c' = perform_all between (settle e now first c) in settle e later second c' ≡ c'
settle_once e now later first second between c d quiet =
    let c' = perform_all between (settle e now first c) in
    settle-idle e later second c' (
      AllIdle-idle e.effect_id c' (
        perform_all-AllIdle e.effect_id between (settle e now first c) quiet
          (settle-AllIdle e now first c d)))
