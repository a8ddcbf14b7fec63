-- ===== src/Scheduler/Runs.antt =====
-- What every step keeps, an alarm keeps.
use elmybot.Base.{
  ℕ, zero, suc, ◌⊎◌, String, ◌≡◌, refl, subst, inl, inr, List, [], ◌∷◌, Option, none, some, is_some,
  Result, ok, err, All, Bool-cases, Option-cases, not, ◌&&◌,
}
use elmybot.Scheduler.Types.{Job, Scheduler, SchedulerError, Failure, Handler}
use elmybot.AlarmDrain.{alarm_drain_time_remaining}
use elmybot.Scheduler.Validate.{handler_of}
use elmybot.Scheduler.Storage.{delivered_occurrence, record_delivered_occurrence, delivery_key}
use elmybot.Scheduler.Requests.{Externals}
use elmybot.Scheduler.Occurrences.{
  claim_occurrence, persist_occurrence_plan, fail_occurrence, complete_occurrence,
}
use elmybot.Scheduler.Calls.{
  Call, claims, plans, fails, records, completes, kept, kept_job, perform, perform_all,
}
use elmybot.Scheduler.Alarm.{
  Turn, Attempt, dropped, delivered, threw, Prepared, planned, not_serializable, prepare_threw,
  Delivered, returned, deliver_threw, delivery_of, after_prepare, deliver_occurrence, after_plan,
  prepare_occurrence, attempt, Step, breaks, goes, throws, step_of, complete_with, settle,
  finish_delivered, after_claim, job_turn, due_job, alarm_turn, alarm_loop, unknown_job_type,
}

-- What holds of the storage at the end of an attempt, or of a round.
abbrev pub AttemptHolds : (Scheduler → Type 0) → Attempt → Type 0
AttemptHolds P (dropped s) = P s
AttemptHolds P (delivered s) = P s
AttemptHolds P (threw failure s) = P s

abbrev pub StepHolds : (Scheduler → Type 0) → Step → Type 0
StepHolds P breaks = Unit
StepHolds P (goes s) = P s
StepHolds P (throws e s) = P s

pub Step-cases :
    (x : Step)
    → (x ≡ breaks)
      ⊎ ((s : Scheduler) × (x ≡ goes s))
      ⊎ ((e : SchedulerError) × (s : Scheduler) × (x ≡ throws e s))
Step-cases breaks = inl refl
Step-cases (goes s) = inr (inl (s, refl))
Step-cases (throws e s) = inr (inr (e, s, refl))

-- The steps that an alarm makes itself within its loop.
abbrev pub IsOwn : Call → Type 0
IsOwn (claims job now) = Unit
IsOwn (plans job plan) = Unit
IsOwn (fails job failure now) = Unit
IsOwn (records job now) = Unit
IsOwn (completes job handler) = Unit
IsOwn other = ⊥

-- The steps that run in a round while it awaits a handler are all of this kind.
abbrev pub IsQuiet : (Call → Type 0) → Turn → Type 0
IsQuiet P turn = All P turn.while_preparing × All P turn.while_delivering

module _ (externals : Externals) (Inv : Scheduler → Type 0) (IsAllowed : Call → Type 0)
    (own : (c : Call) → IsOwn c → (s : Scheduler) → Inv s → Inv (perform externals c s))
    (closed : (c : Call)
      → IsAllowed c
      → (s : Scheduler) → Inv s
      → Inv (perform externals c s)) where
  pub closed_all :
      (cs : List Call)
      → All IsAllowed cs
      → (s : Scheduler) → Inv s
      → Inv (perform_all externals cs s)
  unfolding perform_all
  closed_all [] a s v = v
  closed_all (c ∷ cs) a s v = closed_all cs a.1 (perform externals c s) (closed c a.0 s v)

  claim_step :
      (job : Job) (now : ℕ) (s s' : Scheduler) (claimed : Job)
      → claim_occurrence externals.fits job now s ≡ ok (some (claimed, s'))
      → Inv s
      → Inv s'
  unfolding perform
  claim_step job now s s' claimed e v =
      subst (λ r. Inv (kept_job s r)) e (own (claims job now) tt s v)

  plan_step :
      (job : Job) (plan : Option String) (s s' : Scheduler) (job' : Job)
      → persist_occurrence_plan externals.fits job plan s ≡ ok (some (job', s'))
      → Inv s
      → Inv s'
  unfolding perform
  plan_step job plan s s' job' e v = subst (λ r. Inv (kept_job s r)) e (own (plans job plan) tt s v)

  fail_step :
      (job : Job) (failure : Failure) (now : ℕ) (s s' : Scheduler)
      → fail_occurrence externals.fits job failure now s ≡ ok s'
      → Inv s
      → Inv s'
  unfolding perform
  fail_step job failure now s s' e v =
      subst (λ r. Inv (kept s r)) e (own (fails job failure now) tt s v)

  complete_step :
      (job : Job) (handler : Handler) (s s' : Scheduler)
      → complete_occurrence externals.fits job handler s ≡ ok s'
      → Inv s
      → Inv s'
  unfolding perform
  complete_step job handler s s' e v =
      subst (λ r. Inv (kept s r)) e (own (completes job handler) tt s v)

  record_step :
      (job : Job) (now : ℕ) (s : Scheduler)
      → Inv s
      → Inv (record_delivered_occurrence (delivery_key externals.decimal job) now s)
  unfolding perform
  record_step job now s v = own (records job now) tt s v

  delivery_of-holds : (d : Delivered) (s : Scheduler) → Inv s → AttemptHolds Inv (delivery_of d s)
  unfolding delivery_of
  delivery_of-holds returned s v = v
  delivery_of-holds (deliver_threw failure) s v = v

  deliver-holds :
      (turn : Turn) (q : IsQuiet IsAllowed turn) (job : Job) (s : Scheduler)
      → Inv s
      → AttemptHolds Inv (deliver_occurrence externals turn job s)
  unfolding deliver_occurrence
  deliver-holds turn q job s v =
      delivery_of-holds (turn.deliver job) (perform_all externals turn.while_delivering s)
        (closed_all turn.while_delivering q.1 s v)

  after_plan-holds :
      (turn : Turn) (q : IsQuiet IsAllowed turn) (s : Scheduler)
      (r : Result SchedulerError (Option (Job × Scheduler)))
      → ((job : Job) (s' : Scheduler) → r ≡ ok (some (job, s')) → Inv s')
      → Inv s
      → AttemptHolds Inv (after_plan externals turn s r)
  unfolding after_plan
  after_plan-holds turn q s (err e) k v = v
  after_plan-holds turn q s (ok none) k v = v
  after_plan-holds turn q s (ok (some (job, s'))) k v = deliver-holds turn q job s' (k job s' refl)

  after_prepare-holds :
      (turn : Turn) (q : IsQuiet IsAllowed turn) (job : Job) (p : Prepared) (s : Scheduler)
      → Inv s
      → AttemptHolds Inv (after_prepare externals turn job p s)
  unfolding after_prepare
  after_prepare-holds turn q job (prepare_threw failure) s v = v
  after_prepare-holds turn q job not_serializable s v = v
  after_prepare-holds turn q job (planned plan) s v =
      after_plan-holds turn q s (persist_occurrence_plan externals.fits job plan s)
        (λ j s' e. plan_step job plan s s' j e v) v

  attempt-holds :
      (turn : Turn) (q : IsQuiet IsAllowed turn) (handler : Option Handler) (job : Job)
      (s : Scheduler)
      → Inv s
      → AttemptHolds Inv (attempt externals turn handler job s)
  unfolding attempt prepare_occurrence
  attempt-holds turn q none job s v = v
  attempt-holds turn q (some handler) job s v =
      elim (Bool-cases (handler.prepares && not (is_some job.occurrence_plan))) [
        | inl e ↦ rw e (
            after_prepare-holds turn q job (turn.prepare job)
              (perform_all externals turn.while_preparing s)
              (closed_all turn.while_preparing q.0 s v))
        | inr e ↦ rw e (deliver-holds turn q job s v)
      ]

  pub step_of-holds :
      (s : Scheduler) (r : Result SchedulerError Scheduler)
      → ((s' : Scheduler) → r ≡ ok s' → Inv s')
      → Inv s
      → StepHolds Inv (step_of s r)
  step_of-holds s (err e) k v = v
  step_of-holds s (ok s') k v = k s' refl

  pub complete_with-holds :
      (handler : Option Handler) (job : Job) (s s' : Scheduler)
      → complete_with externals handler job s ≡ ok s'
      → Inv s
      → Inv s'
  unfolding complete_with
  complete_with-holds none job s s' e v = let left : s ≡ s' = cc e in subst Inv left v
  complete_with-holds (some handler) job s s' e v = complete_step job handler s s' e v

  abbrev key_of : Job → String
  key_of due = delivery_key externals.decimal due

  settle-holds :
      (turn : Turn) (handler : Option Handler) (due claimed : Job) (a : Attempt)
      → AttemptHolds Inv a
      → StepHolds Inv (settle externals turn handler (key_of due) claimed a)
  unfolding settle
  settle-holds turn handler due claimed (dropped s) v = v
  settle-holds turn handler due claimed (threw failure s) v =
      step_of-holds s (fail_occurrence externals.fits claimed failure turn.failed_ms s)
        (λ s' e. fail_step claimed failure turn.failed_ms s s' e v) v
  settle-holds turn handler due claimed (delivered s) v =
      let marked = record_delivered_occurrence (key_of due) turn.delivered_ms s in
      let valid = record_step due turn.delivered_ms s v in
      step_of-holds marked (complete_with externals handler claimed marked)
        (λ s' e. complete_with-holds handler claimed marked s' e valid) valid

  after_claim-holds :
      (turn : Turn) (q : IsQuiet IsAllowed turn) (handler : Option Handler) (due : Job)
      (s : Scheduler) (r : Result SchedulerError (Option (Job × Scheduler)))
      → ((job : Job) (s' : Scheduler) → r ≡ ok (some (job, s')) → Inv s')
      → Inv s
      → StepHolds Inv (after_claim externals turn handler (key_of due) s r)
  unfolding after_claim
  after_claim-holds turn q handler due s (err e) k v = v
  after_claim-holds turn q handler due s (ok none) k v = v
  after_claim-holds turn q handler due s (ok (some (job, s'))) k v =
      settle-holds turn handler due job (attempt externals turn handler job s')
        (attempt-holds turn q handler job s' (k job s' refl))

  pub finish_delivered-holds :
      (turn : Turn) (q : IsQuiet IsAllowed turn) (handler : Option Handler) (job : Job)
      (s s' : Scheduler)
      → finish_delivered externals turn handler job s ≡ ok s'
      → Inv s
      → Inv s'
  unfolding finish_delivered
  finish_delivered-holds turn q none job s s' e v =
      fail_step job unknown_job_type turn.failed_ms s s' e v
  finish_delivered-holds turn q (some handler) job s s' e v = complete_step job handler s s' e v

  pub job_turn-holds :
      (turn : Turn) (q : IsQuiet IsAllowed turn) (job : Job) (s : Scheduler)
      → Inv s
      → StepHolds Inv (job_turn externals turn job s)
  unfolding job_turn
  job_turn-holds turn q job s v =
      let handler = handler_of job.kind turn.handlers in
      elim (Bool-cases (delivered_occurrence (delivery_key externals.decimal job) s)) [
        | inl e ↦ rw e (
            step_of-holds s (finish_delivered externals turn handler job s)
              (λ s' done. finish_delivered-holds turn q handler job s s' done v) v)
        | inr e ↦ rw e (
            after_claim-holds turn q handler job s
              (claim_occurrence externals.fits job turn.now_ms s)
              (λ j s' done. claim_step job turn.now_ms s s' j done v) v)
      ]

  pub alarm_turn-holds :
      (started processed : ℕ) (turn : Turn) (q : IsQuiet IsAllowed turn) (s : Scheduler)
      → Inv s
      → StepHolds Inv (alarm_turn externals started processed turn s)
  unfolding alarm_turn
  alarm_turn-holds started processed turn q s v =
      elim (Bool-cases (alarm_drain_time_remaining started processed turn.check_ms)) [
        | inr late ↦ rw late tt
        | inl early ↦ elim (Option-cases (due_job turn.now_ms s)) [
          | inl miss ↦ rw (early, miss) tt
          | inr (job, hit) ↦ rw (early, hit) (job_turn-holds turn q job s v)
        ]
      ]

  pub alarm_loop-holds :
      (started rounds processed : ℕ) (turns : ℕ → Turn) (s : Scheduler)
      → ((n : ℕ) → IsQuiet IsAllowed (turns n))
      → Inv s
      → Inv (alarm_loop externals started rounds processed turns s).scheduler
  unfolding alarm_loop
  alarm_loop-holds started zero processed turns s q v = v
  alarm_loop-holds started (suc rounds) processed turns s q v =
      let k = alarm_turn-holds started processed (turns processed) (q processed) s v in
      elim (Step-cases (alarm_turn externals started processed (turns processed) s)) [
        | inl stop ↦ rw (stop, alarm_loop) v
        | inr (inl (s', go)) ↦
            rw (go, alarm_loop)
              (alarm_loop-holds started rounds (suc processed) turns s' q
                (subst (StepHolds Inv) go k))
        | inr (inr (e, s', left)) ↦ rw (left, alarm_loop) (subst (StepHolds Inv) left k)
      ]
