-- ===== src/Scheduler/Stopping.antt =====
-- How the loop of an alarm ends.
use elmybot.Base.{
  ℕ, suc, ◌+◌, ◌≤◌, String, ◌≡◌, refl, inl, inr, true, Option, none, some, arith, is_some, Result,
  ok, err, Bool-cases, Option-cases,
}
use elmybot.Scheduler.Types.{Job, Scheduler, SchedulerError, Handler}
use elmybot.Scheduler.Storage.{delivered_occurrence, delivery_key}
use elmybot.Scheduler.Requests.{Externals}
use elmybot.Scheduler.Occurrences.{claim_occurrence}
use elmybot.Base.{zero, ◌⊎◌, is_some}
use elmybot.AlarmDrain.{alarm_drain_time_remaining, alarm_drain_time_remaining-false}
use elmybot.Scheduler.Validate.{handler_of}
use elmybot.Scheduler.Alarm.{
  Turn, breaks, step_of, due_job, job_turn, after_claim, settle, Attempt, dropped, delivered, threw,
  alarm_turn, Ended, alarm_loop,
}
use elmybot.Scheduler.Runs.{Step-cases, StepHolds}
use elmybot.Base.{◌<◌, or_else, All, All-map_imp, subst, sym, ltb}
use elmybot.Sql.{first_by-empty}
use elmybot.Scheduler.Types.{JobRow}
use elmybot.Scheduler.Storage.{first_row, first_job, due_before, delivery_attempt_at}
use elmybot.Scheduler.Soundness.{IsValid}
use elmybot.Scheduler.Interleaving.{alarm_turn-IsValid}
use elmybot.Scheduler.Wakeup.{first_row-least}

-- The time of the next attempt of a job, or of its occurrence where there is none, is yet to come.
abbrev pub Waits : ℕ → JobRow → Type 0
Waits now r = now < or_else r.job.delivery.next_attempt_at_ms r.job.run_at_ms

-- A job was taken up and the five seconds are used up, or no job of the table is due.
abbrev pub StopsBy : ℕ → ℕ → Turn → Scheduler → Type 0
StopsBy started processed turn s =
    ((1 ≤ processed) × (started + 5_000 ≤ turn.check_ms)) ⊎ All (Waits turn.now_ms) s.jobs

-- How a loop of `rounds` rounds ends that begins at `processed`.
abbrev pub Finishes : ℕ → ℕ → ℕ → (ℕ → Turn) → Ended → Type 0
Finishes started rounds processed turns r =
    (processed ≤ r.processed)
    × (r.processed ≤ processed + rounds)
    × ((r.processed ≡ processed + rounds)
        ⊎ (is_some r.error ≡ true)
        ⊎ StopsBy started r.processed (turns r.processed) r.scheduler)

-- Where the first job is not due, no job is.
due_job-none : (now : ℕ) (s : Scheduler) → IsValid s → due_job now s ≡ none → All (Waits now) s.jobs
unfolding due_job first_job delivery_attempt_at first_row
due_job-none now s v h = elim (Option-cases (first_row s)) [
  | inl miss ↦ subst (All (Waits now)) (sym (first_by-empty due_before s.jobs miss)) tt
  | inr (first, hit) ↦ elim (Bool-cases (ltb now (delivery_attempt_at first.job))) [
    | inl ahead ↦
        All-map_imp (λ r. delivery_attempt_at first.job ≤ delivery_attempt_at r.job) (Waits now)
          (λ r k. ground (arith, ahead, k)) s.jobs (first_row-least s first v.jobs.1 hit)
    | inr due ↦ absurd (ground (arith, h, hit, due))
  ]
]

step_of-breaks : (s : Scheduler) (r : Result SchedulerError Scheduler) → step_of s r ≡ breaks → ⊥
step_of-breaks s (err e) h = cc h
step_of-breaks s (ok s') h = cc h

module _ (externals : Externals) where
  settle-breaks :
      (turn : Turn) (handler : Option Handler) (key : String) (claimed : Job) (a : Attempt)
      → settle externals turn handler key claimed a ≡ breaks
      → ⊥
  unfolding settle
  settle-breaks turn handler key claimed (dropped s) h = cc h
  settle-breaks turn handler key claimed (threw failure s) h = step_of-breaks s _ h
  settle-breaks turn handler key claimed (delivered s) h = step_of-breaks _ _ h

  after_claim-breaks :
      (turn : Turn) (handler : Option Handler) (key : String) (s : Scheduler)
      (r : Result SchedulerError (Option (Job × Scheduler)))
      → after_claim externals turn handler key s r ≡ breaks
      → ⊥
  unfolding after_claim
  after_claim-breaks turn handler key s (err e) h = cc h
  after_claim-breaks turn handler key s (ok none) h = cc h
  after_claim-breaks turn handler key s (ok (some (claimed, s'))) h =
      settle-breaks turn handler key claimed _ h

  job_turn-breaks :
      (turn : Turn) (job : Job) (s : Scheduler) → job_turn externals turn job s ≡ breaks → ⊥
  unfolding job_turn
  job_turn-breaks turn job s h =
      elim (Bool-cases (delivered_occurrence (delivery_key externals.decimal job) s)) [
        | inl e ↦ step_of-breaks s _ (rw (e, job_turn) at h)
        | inr e ↦
            after_claim-breaks turn (handler_of job.kind turn.handlers)
              (delivery_key externals.decimal job) s
              (claim_occurrence externals.fits job turn.now_ms s) (rw (e, job_turn) at h)
      ]

  alarm_turn-StopsBy :
      (started processed : ℕ) (turn : Turn) (s : Scheduler)
      → IsValid s
      → alarm_turn externals started processed turn s ≡ breaks
      → StopsBy started processed turn s
  unfolding alarm_turn
  alarm_turn-StopsBy started processed turn s v h =
      elim (Bool-cases (alarm_drain_time_remaining started processed turn.check_ms)) [
        | inr late ↦ inl (alarm_drain_time_remaining-false started processed turn.check_ms late)
        | inl early ↦ elim (Option-cases (due_job turn.now_ms s)) [
          | inl miss ↦ inr (due_job-none turn.now_ms s v miss)
          | inr (job, hit) ↦ absurd (job_turn-breaks turn job s (rw (early, hit, alarm_turn) at h))
        ]
      ]

  later_round :
      (started rounds processed : ℕ) (turns : ℕ → Turn) (r : Ended)
      → Finishes started rounds (suc processed) turns r
      → Finishes started (suc rounds) processed turns r
  later_round started rounds processed turns r k = (
    omega (arith, k.0),
    omega (arith, k.1),
    elim k.2 [ inl full ↦ inl (omega (arith, full)) | inr why ↦ inr why ],
  )

  -- The loop takes at most the rounds that it is given. From a valid storage it stops short of them
  -- only if a step throws, if it has taken up a job and five seconds have passed since the start, or
  -- if the time of every job that is left is yet to come; so it takes up a job whenever one is due.
  pub alarm_loop-Finishes :
      (started rounds processed : ℕ) (turns : ℕ → Turn) (s : Scheduler)
      → IsValid s
      → Finishes started rounds processed turns
          (alarm_loop externals started rounds processed turns s)
  unfolding alarm_loop
  alarm_loop-Finishes started zero processed turns s v =
      (omega arith, omega arith, inl (omega arith))
  alarm_loop-Finishes started (suc rounds) processed turns s v =
      let k = alarm_turn-IsValid externals started processed (turns processed) s v in
      elim (Step-cases (alarm_turn externals started processed (turns processed) s)) [
        | inl stop ↦
            rw (stop, alarm_loop)
              (
                omega arith,
                omega arith,
                inr (inr (alarm_turn-StopsBy started processed (turns processed) s v stop)),
              )
        | inr (inl (s', go)) ↦
            rw (go, alarm_loop)
              (later_round started rounds processed turns
                (alarm_loop externals started rounds (suc processed) turns s')
                (alarm_loop-Finishes started rounds (suc processed) turns s'
                  (subst (StepHolds IsValid) go k)))
        | inr (inr (e, s', left)) ↦ rw (left, alarm_loop) (omega arith, omega arith, inr (inl refl))
      ]
