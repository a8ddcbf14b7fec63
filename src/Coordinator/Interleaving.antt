-- ===== src/Coordinator/Interleaving.antt =====
-- The invariant of the coordinator under every interleaving of calls, and under an alarm.
use elmybot.Base.{
  ℕ, ◌+◌, zero, suc, String, ◌≡◌, refl, subst, inl, inr, List, [], ◌∷◌, Option, none, some, arith,
  Result, ok, err, All, Option-cases, Bool-cases,
}
use elmybot.Coordinator.Types.{
  EffectRow, Coordinator, CoordinatorError, Report, Failure, Handler, Lookup, missing, unreachable,
  found,
}
use elmybot.Coordinator.Storage.{
  retry_base_delay_ms, prune_completed_executions, set_next_alarm, first_due_effect,
}
use elmybot.Coordinator.Submit.{commit}
use elmybot.Coordinator.Effects.{retry_effect, claim_effect, dead_letter_remaining}
use elmybot.Coordinator.Calls.{
  Call, prunes, schedules, commits, retries, claims, completes, fails, stops, after, perform,
  perform_all,
}
use elmybot.Coordinator.Alarm.{
  Turn, Clock, inactive_error, settle, deliver_effect, alarm_turn, alarm_loop,
  max_effects_per_alarm, alarm_active, alarm_stopped, alarm_owned, alarm,
}
use elmybot.Coordinator.Agreement.{IsValid}
use elmybot.Coordinator.Transitions.{
  IsAbout, claim_effect-IsValid, complete_effect-IsValid, fail_effect-IsValid,
}
use elmybot.Coordinator.Stopping.{retry_effect-IsValid, dead_letter_remaining-IsValid}
use elmybot.Coordinator.Pruning.{prune-IsValid}
use elmybot.Coordinator.Commits.{commit-IsValid}
use elmybot.Coordinator.Naming.{
  IsNamed, IsDrawn, IsNamed-IsAbout, commit-AllNamed, claim_effect-AllNamed, retry_effect-AllNamed,
  complete_effect-AllNamed, fail_effect-AllNamed, stop-AllNamed, prune-AllNamed,
}

module _ (event_of : String → String) where
  -- The invariant, and that each effect belongs to the event that its ID was drawn for.
  abbrev pub IsKept : Coordinator → Type 0
  IsKept c = IsValid c × All (IsNamed event_of) c.effects

  after-IsKept :
      (c : Coordinator) (r : Result CoordinatorError (Coordinator × Option Report))
      → ((c' : Coordinator) (report : Option Report) → r ≡ ok (c', report) → IsKept c')
      → IsKept c
      → IsKept (after c r)
  after-IsKept c (err e) k v = v
  after-IsKept c (ok (c', report)) k v = k c' report refl

  abbrev about : (e : EffectRow) (c : Coordinator) → IsNamed event_of e → IsKept c → IsAbout e c
  about e c named v = IsNamed-IsAbout event_of e c named v.1

  with_alarm-IsKept :
      (c : Coordinator) (alarm : Option ℕ) → IsKept c → IsKept (record c { alarm = alarm })
  with_alarm-IsKept c alarm v =
      let sound = v.0.sound in
      (
        record {
          sound = record {
            executions_distinct = sound.executions_distinct;
            effects_distinct = sound.effects_distinct;
            keys_distinct = sound.keys_distinct;
            owned = sound.owned;
            scheduled = sound.scheduled;
          };
          agree = v.0.agree;
        },
        v.1,
      )

  schedule-IsKept : (now : ℕ) (c : Coordinator) → IsKept c → IsKept (set_next_alarm now c)
  unfolding set_next_alarm
  schedule-IsKept now c v = with_alarm-IsKept c _ v

  perform-IsKept :
      (s : Call) (c : Coordinator) → IsDrawn event_of s → IsKept c → IsKept (perform s c)
  unfolding perform
  perform-IsKept (prunes now) c d v = (prune-IsValid now c v.0, prune-AllNamed event_of now c v.1)
  perform-IsKept (schedules now) c d v = schedule-IsKept now c v
  perform-IsKept (commits execution fingerprint accepted ids) c d v =
      after-IsKept c (commit execution fingerprint accepted ids c)
        (λ c' report h. (
          commit-IsValid execution fingerprint accepted ids c c' report h v.0,
          commit-AllNamed event_of execution fingerprint accepted ids c c' report d h v.1,
        ))
        v
  perform-IsKept (retries integration_id key now) c d v =
      after-IsKept c (retry_effect integration_id key now c)
        (λ c' report h. (
          retry_effect-IsValid integration_id key now c c' report h v.0,
          retry_effect-AllNamed event_of integration_id key now c c' report h v.1,
        ))
        v
  perform-IsKept (claims id now) c d v = elim (Option-cases (claim_effect id now c)) [
    | inl miss ↦ rw (miss, perform) v
    | inr ((e, c'), hit) ↦
        rw (hit, perform)
          (
            claim_effect-IsValid id now c c' e hit v.0,
            (claim_effect-AllNamed event_of id now c c' e hit v.1).0,
          )
  ]
  perform-IsKept (completes e result now) c d v = (
    complete_effect-IsValid e result now c (about e c d v) v.0,
    complete_effect-AllNamed event_of e result now c v.1,
  )
  perform-IsKept (fails e failure now) c d v = (
    fail_effect-IsValid e failure now c (about e c d v) v.0,
    fail_effect-AllNamed event_of e failure now c v.1,
  )
  perform-IsKept (stops error now) c d v =
      (dead_letter_remaining-IsValid error now c v.0, stop-AllNamed event_of error now c v.1)

  -- After every interleaving of calls whose UUIDs are each drawn for one event, keys are unique,
  -- every effect has its execution and the schedule of its state, and each execution has the state
  -- and the time of completion that its effects give.
  pub perform_all-IsKept :
      (ss : List Call) (c : Coordinator)
      → All (IsDrawn event_of) ss
      → IsKept c
      → IsKept (perform_all ss c)
  unfolding perform_all
  perform_all-IsKept [] c d v = v
  perform_all-IsKept (s ∷ ss) c d v =
      perform_all-IsKept ss (perform s c) d.1 (perform-IsKept s c d.0 v)

  settle-IsKept :
      (e : EffectRow) (now : ℕ) (r : Result Failure String) (c : Coordinator)
      → IsNamed event_of e
      → IsKept c
      → IsKept (settle e now r c)
  unfolding settle
  settle-IsKept e now (ok result) c named v = (
    complete_effect-IsValid e result now c (about e c named v) v.0,
    complete_effect-AllNamed event_of e result now c v.1,
  )
  settle-IsKept e now (err failure) c named v = (
    fail_effect-IsValid e failure now c (about e c named v) v.0,
    fail_effect-AllNamed event_of e failure now c v.1,
  )

  module _ (handlers : List (String × Handler)) (members : List String) (started : ℕ) where
    alarm_turn-IsKept :
        (processed : ℕ) (turn : Turn) (c c' : Coordinator)
        → alarm_turn handlers members started processed turn c ≡ some c'
        → All (IsDrawn event_of) turn.meanwhile
        → IsKept c
        → IsKept c'
    unfolding alarm_turn
    alarm_turn-IsKept processed turn c c' h d v =
        elim (Option-cases (first_due_effect turn.due_ms c.effects)) [
          | inl idle ↦ absurd (ground arith)
          | inr (due, next) ↦ elim (Option-cases (claim_effect due.effect_id turn.claim_ms c)) [
            | inl miss ↦ subst IsKept (ground arith) v
            | inr ((e, claimed), hit) ↦
                let named =
                  claim_effect-AllNamed event_of due.effect_id turn.claim_ms c claimed e hit v.1 in
                let awaited =
                  perform_all-IsKept turn.meanwhile claimed d (
                    claim_effect-IsValid due.effect_id turn.claim_ms c claimed e hit v.0,
                    named.0,
                  ) in
                subst IsKept (ground arith) (
                  settle-IsKept e turn.finish_ms (deliver_effect handlers members turn e)
                    (perform_all turn.meanwhile claimed) named.1 awaited)
          ]
        ]

    alarm_loop-IsKept :
        (rounds processed : ℕ) (turns : ℕ → Turn) (c : Coordinator)
        → ((n : ℕ) → All (IsDrawn event_of) (turns n).meanwhile)
        → IsKept c
        → IsKept (alarm_loop handlers members started rounds processed turns c).1
    unfolding alarm_loop
    alarm_loop-IsKept zero processed turns c d v = v
    alarm_loop-IsKept (suc rounds) processed turns c d v =
        elim (Option-cases (alarm_turn handlers members started processed (turns processed) c)) [
          | inl stop ↦ rw (stop, alarm_loop) v
          | inr (c', go) ↦
              rw (go, alarm_loop)
                (alarm_loop-IsKept rounds (suc processed) turns c' d
                  (alarm_turn-IsKept processed (turns processed) c c' go (d processed) v))
        ]

  alarm_stopped-IsKept :
      (clock : Clock) (c : Coordinator) → IsKept c → IsKept (alarm_stopped clock c)
  unfolding alarm_stopped
  alarm_stopped-IsKept clock c v =
      let error = inactive_error clock.prune_ms in
      schedule-IsKept clock.end_ms (dead_letter_remaining error clock.prune_ms c) (
        dead_letter_remaining-IsValid error clock.prune_ms c v.0,
        stop-AllNamed event_of error clock.prune_ms c v.1,
      )

  alarm_owned-IsKept :
      (handlers : List (String × Handler)) (lookup : Lookup) (clock : Clock) (turns : ℕ → Turn)
      (c : Coordinator)
      → ((n : ℕ) → All (IsDrawn event_of) (turns n).meanwhile)
      → IsKept c
      → IsKept (alarm_owned handlers lookup clock turns c)
  unfolding alarm_owned alarm_active
  alarm_owned-IsKept handlers missing clock turns c ds v = alarm_stopped-IsKept clock c v
  alarm_owned-IsKept handlers unreachable clock turns c ds v =
      with_alarm-IsKept c (some (clock.end_ms + retry_base_delay_ms)) v
  alarm_owned-IsKept handlers (found integration) clock turns c ds v =
      elim (Bool-cases integration.is_active) [
        | inr inactive ↦ rw inactive (alarm_stopped-IsKept clock c v)
        | inl active ↦
            let looped =
              (alarm_loop handlers integration.member_keys clock.started_at_ms max_effects_per_alarm
                0 turns c).1 in
            let kept =
              alarm_loop-IsKept handlers integration.member_keys clock.started_at_ms
                max_effects_per_alarm 0 turns c ds v in
            rw active (
              schedule-IsKept clock.end_ms (prune_completed_executions clock.prune_ms looped) (
                prune-IsValid clock.prune_ms looped kept.0,
                prune-AllNamed event_of clock.prune_ms looped kept.1,
              ))
      ]

  -- An alarm keeps the invariant, whatever the registry and the adapters answer and whatever steps
  -- run while they are awaited, if UUIDs are each drawn for one event.
  pub alarm-IsKept :
      (handlers : List (String × Handler)) (lookup : Lookup) (clock : Clock) (turns : ℕ → Turn)
      (c : Coordinator)
      → All (IsDrawn event_of) clock.meanwhile
      → ((n : ℕ) → All (IsDrawn event_of) (turns n).meanwhile)
      → IsKept c
      → IsKept (alarm handlers lookup clock turns c)
  unfolding alarm
  alarm-IsKept handlers lookup clock turns c d ds v = elim (Option-cases c.integration_id) [
    | inl unowned ↦ rw (unowned, alarm) (with_alarm-IsKept c none v)
    | inr (id, owned) ↦
        rw (owned, alarm)
          (alarm_owned-IsKept handlers lookup clock turns (perform_all clock.meanwhile c) ds
            (perform_all-IsKept clock.meanwhile c d v))
  ]
