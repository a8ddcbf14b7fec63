-- ===== src/Scheduler/Wakeup.antt =====
-- The alarm that the scheduler sets is never later than its earliest job.
use elmybot.Base.{
  ℕ, ◌≤◌, ◌≡◌, sym, ap, subst, inl, inr, Option, some, arith, All, All-both, All-map_imp,
  Bool-cases, Option-cases,
}
use elmybot.Scheduler.Types.{JobRow, Scheduler}
use elmybot.Scheduler.Storage.{set_next_alarm}
use elmybot.Scheduler.Requests.{Externals}
use elmybot.Scheduler.Soundness.{IsRow, IsValid}
use elmybot.Base.{max, ltb, map?}
use elmybot.Sql.{first_by, first_by-All, first_by-least, Respects, first_by-empty}
use elmybot.Scheduler.Storage.{due_before, first_row, delivery_attempt_at, row_of}
use elmybot.Scheduler.Alarm.{Turn, Clock, alarm, alarm_loop, begun, max_jobs_per_alarm}
use elmybot.Scheduler.Interleaving.{alarm-IsValid}

abbrev attempt_time : JobRow → ℕ
attempt_time r = r.next_attempt_at_ms

due_before-Respects : Respects due_before attempt_time
unfolding due_before
due_before-Respects = (
  (λ x y h. elim (Bool-cases (ltb (attempt_time y) (attempt_time x))) [
    | inl e ↦ ground (arith, h, e)
    | inr e ↦ ground (arith, e)
  ]),
  λ x y h. ground (arith, h),
)

-- The alarm is set, for the job of the row, no later than its own time or `now`.
abbrev pub IsTimely : ℕ → Option ℕ → JobRow → Type 0
IsTimely now alarm r = (t : ℕ) × (alarm ≡ some t) × (t ≤ max (delivery_attempt_at r.job) now)

row-time : (r : JobRow) → IsRow r → attempt_time r ≡ delivery_attempt_at r.job
unfolding row_of
row-time r h = ap attempt_time h.0

-- The first row comes no later than any other.
pub first_row-least :
    (s : Scheduler) (first : JobRow)
    → All IsRow s.jobs
    → first_row s ≡ some first
    → All (λ r. delivery_attempt_at first.job ≤ delivery_attempt_at r.job) s.jobs
unfolding first_row
first_row-least s first h hit =
    let own = row-time first (first_by-All IsRow due_before s.jobs h hit) in
    All-map_imp (λ r. IsRow r × (attempt_time first ≤ attempt_time r))
      (λ r. delivery_attempt_at first.job ≤ delivery_attempt_at r.job)
      (λ r k. omega (arith, own, row-time r k.0, k.1)) s.jobs
      (All-both IsRow (λ r. attempt_time first ≤ attempt_time r) s.jobs h
        (first_by-least due_before attempt_time due_before-Respects s.jobs hit))

set_next_alarm-IsTimely :
    (now : ℕ) (s : Scheduler)
    → All IsRow s.jobs
    → All (IsTimely now (set_next_alarm now s).alarm) s.jobs
unfolding set_next_alarm first_row
set_next_alarm-IsTimely now s h = elim (Option-cases (first_by due_before s.jobs)) [
  | inl miss ↦
      subst (All (IsTimely now (set_next_alarm now s).alarm))
        (sym (first_by-empty due_before s.jobs miss)) tt
  | inr (first, hit) ↦
      All-map_imp (λ r. IsRow r × (attempt_time first ≤ attempt_time r))
        (IsTimely now (set_next_alarm now s).alarm)
        (λ r k. (
          max (attempt_time first) now,
          ap (map? (λ (x : JobRow). max x.next_attempt_at_ms now)) hit,
          omega (arith, k.1, row-time r k.0),
        ))
        s.jobs
        (All-both IsRow (λ r. attempt_time first ≤ attempt_time r) s.jobs h
          (first_by-least due_before attempt_time due_before-Respects s.jobs hit))
]

-- After an alarm, whether it ends or throws, the next alarm is set, for each job that is left, no
-- later than the time of its next attempt, or than the end of this alarm if that is later.
pub alarm-IsTimely :
    (externals : Externals) (clock : Clock) (turns : ℕ → Turn) (s : Scheduler)
    → IsValid s
    → let s' = (alarm externals clock turns s).scheduler in
      All (IsTimely clock.end_ms s'.alarm) s'.jobs
unfolding alarm set_next_alarm
alarm-IsTimely externals clock turns s v =
    let ended =
      alarm_loop externals clock.started_at_ms max_jobs_per_alarm 0 turns (begun clock s) in
    set_next_alarm-IsTimely clock.end_ms ended.scheduler
      (alarm-IsValid externals clock turns s v).jobs.1
