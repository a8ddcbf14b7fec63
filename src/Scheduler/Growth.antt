-- ===== src/Scheduler/Growth.antt =====
-- Steps that leave the ledger of deliveries as it is, or let it grow.
use elmybot.Base.{
  ℕ, String, ◌≡◌, refl, sym, ◌∙◌, ap, subst, inl, inr, Bool, Option, some, arith, ok, Bool-cases,
  Option-cases, Result-cases, bind-elim, throw_if, or_throw, if◌then◌else◌, not, text_eq,
}
use elmybot.Sql.{find}
use elmybot.Scheduler.Types.{Job, Response, Scheduler, Failure, Handler, Handlers, ScheduleRequest}
use elmybot.Scheduler.Validate.{Checked, validate_calculated_schedule, validate_schedule_request}
use elmybot.Scheduler.Storage.{
  source_key, set_next_alarm, delete_job, find_job, insert_job, stored_error,
}
use elmybot.Scheduler.Requests.{
  Externals, scheduled_job, schedule_new, schedule_checked, find_handler, schedule, cancel,
}
use elmybot.Scheduler.Occurrences.{
  current_of, attempted, claim_occurrence, plan_fits, persist_current, persist_occurrence_plan,
  waiting, bury, is_retried, fail_occurrence, next_occurrence, advance, complete_occurrence,
  save_job,
}
use elmybot.Scheduler.Storage.{update_job}

abbrev pub SameLedger : Scheduler → Scheduler → Type 0
SameLedger s s' = s'.deliveries ≡ s.deliveries

save_job-SameLedger :
    (fits : Job → Bool) (job : Job) (s s' : Scheduler)
    → save_job fits job s ≡ ok s'
    → SameLedger s s'
unfolding save_job
save_job-SameLedger fits job s s' e =
    bind-elim (update_job fits job s.jobs) _ s' e (λ jobs _ done. cc done)

pub claim-SameLedger :
    (fits : Job → Bool) (job : Job) (now : ℕ) (s s' : Scheduler) (claimed : Job)
    → claim_occurrence fits job now s ≡ ok (some (claimed, s'))
    → SameLedger s s'
unfolding claim_occurrence
claim-SameLedger fits job now s s' claimed e = elim (Option-cases (current_of job s)) [
  | inl miss ↦ absurd (ground (arith, miss, e))
  | inr (current, hit) ↦
      bind-elim (save_job fits (attempted now current) s)
        (λ s1. ok (some (attempted now current, s1))) (some (claimed, s'))
        (rw (hit, claim_occurrence) at e)
        (λ s1 saved done.
          let left : s1 ≡ s' = cc done in
          subst (SameLedger s) left (save_job-SameLedger fits (attempted now current) s s1 saved))
]

pub persist-SameLedger :
    (fits : Job → Bool) (job : Job) (plan : Option String) (s s' : Scheduler) (job' : Job)
    → persist_occurrence_plan fits job plan s ≡ ok (some (job', s'))
    → SameLedger s s'
unfolding persist_occurrence_plan persist_current
persist-SameLedger fits job plan s s' job' e =
    bind-elim (throw_if (not (plan_fits plan)) _) _ (some (job', s')) e (λ _ _ rest.
      elim (Option-cases (current_of job s)) [
        | inl miss ↦ absurd (ground (arith, miss, rest))
        | inr (current, hit) ↦ elim (Option-cases current.occurrence_plan) [
          | inr (old, has) ↦ ground (arith, rest, hit, has)
          | inl missing ↦
              let changed = record current { occurrence_plan = plan } in
              elim (Result-cases (save_job fits changed s)) [
                | inl (x, bad) ↦ absurd (ground (arith, rest, hit, missing, bad))
                | inr (s1, saved) ↦
                    let left : s1 ≡ s' = ground (arith, rest, hit, missing, saved) in
                    subst (SameLedger s) left (save_job-SameLedger fits changed s s1 saved)
              ]
        ]
      ])

pub fail-SameLedger :
    (fits : Job → Bool) (job : Job) (failure : Failure) (now : ℕ) (s s' : Scheduler)
    → fail_occurrence fits job failure now s ≡ ok s'
    → SameLedger s s'
unfolding fail_occurrence bury
fail-SameLedger fits job failure now s s' e = elim (Option-cases (current_of job s)) [
  | inl miss ↦ ground (arith, miss, e)
  | inr (current, hit) ↦
      let error = stored_error failure now in
      elim (Bool-cases (is_retried failure current)) [
        | inl again ↦
            save_job-SameLedger fits (waiting error now current) s s'
              (rw (hit, fail_occurrence, again) at e)
        | inr final ↦
            let left : bury error now current s ≡ s' = ground (arith, hit, final, e) in
            subst (SameLedger s) left refl
      ]
]

advance-SameLedger :
    (fits : Job → Bool) (handler : Handler) (current : Job) (s s' : Scheduler)
    → advance fits handler current s ≡ ok s'
    → SameLedger s s'
unfolding advance
advance-SameLedger fits handler current s s' e =
    bind-elim (validate_calculated_schedule (handler.calc_next current)) _ s' e
      (λ (timestamp, run_at_ms) _ rest.
        bind-elim (insert_job fits (next_occurrence current timestamp run_at_ms) s.jobs) _ s' rest
          (λ jobs _ done. cc done))

pub complete-SameLedger :
    (fits : Job → Bool) (job : Job) (handler : Handler) (s s' : Scheduler)
    → complete_occurrence fits job handler s ≡ ok s'
    → SameLedger s s'
unfolding complete_occurrence
complete-SameLedger fits job handler s s' e = elim (Option-cases (current_of job s)) [
  | inl miss ↦ ground (arith, miss, e)
  | inr (current, hit) ↦
      let removed = record s { jobs = delete_job current.id s.jobs } in
      let step : complete_occurrence fits job handler s
          ≡ (if current.repeats then advance fits handler current removed else ok removed) =
        rw (hit, complete_occurrence) in
      let by = λ (b : Bool). if b then advance fits handler current removed else ok removed in
      elim (Bool-cases current.repeats) [
        | inl again ↦
            advance-SameLedger fits handler current removed s' (sym (ap by again) ∙ sym step ∙ e)
        | inr once ↦
            let left : removed ≡ s' = cc (sym (ap by once) ∙ sym step ∙ e) in
            subst (SameLedger s) left refl
      ]
]

pub schedule-SameLedger :
    (externals : Externals) (handlers : Handlers) (request : ScheduleRequest) (uuid : String)
    (created end : ℕ) (s s' : Scheduler) (response : Response)
    → schedule externals handlers request uuid created end s ≡ ok (s', response)
    → SameLedger s s'
unfolding schedule schedule_checked schedule_new set_next_alarm
schedule-SameLedger externals handlers request uuid created end s s' response e =
    bind-elim (or_throw (find_handler request handlers) _) _ (s', response) e
      (λ handler _ e1.
        bind-elim (validate_schedule_request externals.is_platform handler request) _ (s', response)
          e1
          (λ checked _ e2.
            bind-elim (schedule_checked externals handler request checked uuid created s) _
              (s', response) e2
              (λ (s1, r1) done last.
                let left : set_next_alarm end s1 ≡ s' = cc last in
                subst (SameLedger s) left (inner handler checked s1 r1 done))))
  where
    inner :
        (handler : Handler) (checked : Checked) (s1 : Scheduler) (r1 : Response)
        → schedule_checked externals handler request checked uuid created s ≡ ok (s1, r1)
        → SameLedger s s1
    inner handler checked s1 r1 done =
        elim (Option-cases (find source_key checked.source_event_id s.sources)) [
          | inr (row, hit) ↦ ground (arith, hit, done)
          | inl miss ↦
              bind-elim (validate_calculated_schedule (handler.calc_first request)) _ (s1, r1)
                (rw (miss, schedule_checked) at done)
                (λ (timestamp, run_at_ms) _ rest.
                  bind-elim
                    (insert_job externals.fits (scheduled_job checked uuid timestamp run_at_ms)
                      s.jobs)
                    _ (s1, r1) rest (λ jobs _ end. cc end))
        ]

pub cancel-SameLedger :
    (externals : Externals) (job_id : String) (end : ℕ) (s s' : Scheduler) (timestamp : ℕ)
    → cancel externals job_id end s ≡ ok (s', timestamp)
    → SameLedger s s'
unfolding cancel set_next_alarm
cancel-SameLedger externals job_id end s s' timestamp e =
    bind-elim (throw_if (text_eq (externals.trim job_id) "") _) _ (s', timestamp) e
      (λ _ _ rest.
        bind-elim (or_throw (find_job (externals.trim job_id) s) _) _ (s', timestamp) rest
          (λ job _ done. cc done))
