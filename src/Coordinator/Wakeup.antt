-- ===== src/Coordinator/Wakeup.antt =====
-- `setNextAlarm` and the end of an alarm: no open effect is left without an alarm.
use elmybot.Base.{
  ℕ, ◌+◌, ◌≤◌, max, String, ◌≡◌, refl, sym, ap, subst, inl, inr, true, false, List, Option, none,
  some, arith, map?, ltb, All, All-map_imp, All-both, Option-cases, Bool-cases,
}
use elmybot.Sql.{select, first_by, Respects, first_by-least, select_all→All, first_by-none}
use elmybot.Coordinator.Types.{
  EffectRow, Coordinator, Handler, Lookup, missing, unreachable, found, is_open,
}
use elmybot.Coordinator.Storage.{
  attempt_time, due_before, is_scheduled, prune_completed_executions, set_next_alarm,
  retry_base_delay_ms,
}
use elmybot.Coordinator.Calls.{perform_all}
use elmybot.Coordinator.Effects.{dead_letter_remaining}
use elmybot.Coordinator.Alarm.{
  inactive_error, alarm_loop, max_effects_per_alarm, Clock, Turn, alarm, alarm_owned, alarm_active,
  alarm_stopped,
}
use elmybot.Coordinator.Agreement.{HasSchedule}
use elmybot.Coordinator.Naming.{IsDrawn}
use elmybot.Coordinator.Interleaving.{IsKept, alarm-IsKept}

pub due_before-Respects : Respects due_before attempt_time
unfolding due_before
due_before-Respects = (
  (λ x y h. elim (Bool-cases (ltb (attempt_time y) (attempt_time x))) [
    | inl e ↦ ground (arith, h, e)
    | inr e ↦ ground (arith, e)
  ]),
  λ x y h. ground (arith, h),
)

-- For an open effect the alarm is set no later than its own time, or `latest` if that is later.
abbrev pub IsCovered : ℕ → Option ℕ → EffectRow → Type 0
IsCovered latest alarm x =
    is_open x.state ≡ true
    → (t : ℕ) × (w : ℕ) × (alarm ≡ some t) × (x.next_attempt_at_ms ≡ some w) × (t ≤ max w latest)

scheduled_time :
    (x : EffectRow)
    → HasSchedule x
    → is_open x.state ≡ true
    → (w : ℕ) × (x.next_attempt_at_ms ≡ some w) × (is_scheduled x ≡ true) × (attempt_time x ≡ w)
unfolding is_scheduled
scheduled_time x h o = elim (Option-cases x.next_attempt_at_ms) [
  | inl n ↦ absurd (ground (arith, n, h, o))
  | inr (w, e) ↦ (w, e, rw (o, e), rw e)
]

set_next_alarm-IsCovered :
    (now : ℕ) (c : Coordinator)
    → All HasSchedule c.effects
    → All (IsCovered now (set_next_alarm now c).alarm) c.effects
unfolding set_next_alarm
set_next_alarm-IsCovered now c h =
    elim (Option-cases (first_by due_before (select is_scheduled c.effects))) [
      | inl miss ↦
          All-map_imp (λ x. HasSchedule x × (is_scheduled x ≡ false))
            (IsCovered now (set_next_alarm now c).alarm)
            (λ x k o. let (w, e, s, _) = scheduled_time x k.0 o in absurd (ground (arith, s, k.1)))
            c.effects
            (All-both HasSchedule (λ x. is_scheduled x ≡ false) c.effects h
              (first_by-none due_before is_scheduled c.effects miss))
      | inr (e, hit) ↦
          All-map_imp
            (λ x. HasSchedule x × (is_scheduled x ≡ true → attempt_time e ≤ attempt_time x))
            (IsCovered now (set_next_alarm now c).alarm)
            (λ x k o.
              let (w, at, s, time) = scheduled_time x k.0 o in
              let le = k.1 s in
              (
                max (attempt_time e) now,
                w,
                ap (map? (λ (y : EffectRow). max (attempt_time y) now)) hit,
                at,
                omega (arith, le, time),
              ))
            c.effects
            (All-both HasSchedule (λ x. is_scheduled x ≡ true → attempt_time e ≤ attempt_time x)
              c.effects h
              (select_all→All (λ x. attempt_time e ≤ attempt_time x) is_scheduled c.effects
                (first_by-least due_before attempt_time due_before-Respects
                  (select is_scheduled c.effects) hit)))
    ]

later-IsCovered :
    (now : ℕ) (alarm : Option ℕ) (effects : List EffectRow)
    → All (IsCovered now alarm) effects
    → All (IsCovered (now + retry_base_delay_ms) alarm) effects
later-IsCovered now alarm effects h =
    All-map_imp (IsCovered now alarm) (IsCovered (now + retry_base_delay_ms) alarm)
      (λ x k o. let (t, w, e, n, le) = k o in (t, w, e, n, omega (arith, le))) effects h

retried-IsCovered :
    (at : ℕ) (effects : List EffectRow)
    → All HasSchedule effects
    → All (IsCovered at (some at)) effects
retried-IsCovered at effects h =
    All-map_imp HasSchedule (IsCovered at (some at))
      (λ x k o. let (w, e, _, _) = scheduled_time x k o in (at, w, refl, e, omega arith)) effects h

-- What `setNextAlarm` leaves at the end.
ended-IsCovered :
    (now : ℕ) (c : Coordinator)
    → All HasSchedule (set_next_alarm now c).effects
    → All
        (IsCovered (now + retry_base_delay_ms) (set_next_alarm now c).alarm)
        (set_next_alarm now c).effects
unfolding set_next_alarm
ended-IsCovered now c h =
    later-IsCovered now (set_next_alarm now c).alarm c.effects (set_next_alarm-IsCovered now c h)

abbrev EndsCovered : Clock → Coordinator → Type 0
EndsCovered clock c =
    All HasSchedule c.effects
    → All (IsCovered (clock.end_ms + retry_base_delay_ms) c.alarm) c.effects

alarm_owned-IsCovered :
    (handlers : List (String × Handler)) (lookup : Lookup) (clock : Clock) (turns : ℕ → Turn)
    (c : Coordinator)
    → EndsCovered clock (alarm_owned handlers lookup clock turns c)
unfolding alarm_owned alarm_active alarm_stopped
alarm_owned-IsCovered handlers missing clock turns c = λ h.
    ended-IsCovered clock.end_ms
      (dead_letter_remaining (inactive_error clock.prune_ms) clock.prune_ms c) h
alarm_owned-IsCovered handlers unreachable clock turns c =
    λ h. retried-IsCovered (clock.end_ms + retry_base_delay_ms) c.effects h
alarm_owned-IsCovered handlers (found integration) clock turns c =
    elim (Bool-cases integration.is_active) [
      | inl active ↦
          rw (active, alarm_owned)
            (ended-IsCovered clock.end_ms (
              prune_completed_executions clock.prune_ms
                (alarm_loop handlers integration.member_keys clock.started_at_ms
                  max_effects_per_alarm 0 turns c).1))
      | inr inactive ↦
          rw (inactive, alarm_owned)
            (ended-IsCovered clock.end_ms
              (dead_letter_remaining (inactive_error clock.prune_ms) clock.prune_ms c))
    ]

-- After an alarm of a coordinator that has an integration, where UUIDs are each drawn for one event,
-- the alarm is set, for each effect that is still open, no later than its own time, or 30 s after
-- the end of the alarm if that is later.
pub alarm-IsCovered :
    (event_of : String → String) (handlers : List (String × Handler)) (lookup : Lookup)
    (clock : Clock) (turns : ℕ → Turn) (c : Coordinator) (id : String)
    → c.integration_id ≡ some id
    → All (IsDrawn event_of) clock.meanwhile
    → ((n : ℕ) → All (IsDrawn event_of) (turns n).meanwhile)
    → IsKept event_of c
    → let c' = alarm handlers lookup clock turns c in
      All (IsCovered (clock.end_ms + retry_base_delay_ms) c'.alarm) c'.effects
unfolding alarm
alarm-IsCovered event_of handlers lookup clock turns c id owned d ds v =
    let same =
      ap {B = Coordinator}
        (λ (o : Option String). elim o [
          | none ↦ record c { alarm = none }
          | some _ ↦ alarm_owned handlers lookup clock turns (perform_all clock.meanwhile c)
        ])
        owned in
    subst (EndsCovered clock) (sym same)
      (alarm_owned-IsCovered handlers lookup clock turns (perform_all clock.meanwhile c))
      (alarm-IsKept event_of handlers lookup clock turns c d ds v).0.sound.scheduled
