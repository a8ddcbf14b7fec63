-- ===== src/Scheduler/Submissions.antt =====
-- The transactions on jobs keep the invariant.
use elmybot.Base.{
  ℕ, String, ◌≡◌, refl, subst, inl, inr, true, List, [], ◌∷◌, ◌++◌, none, arith, ok, All-append,
  Bool-cases, Option-cases, bind-elim, throw_if, or_throw, ◌==◌, ◌%◌, text_eq,
}
use elmybot.Sql.{find, has_key, insert-Distinct, delete-Distinct, delete-All, any_row}
use elmybot.Scheduler.Types.{
  Response, SourceRow, Scheduler, Handler, Handlers, ScheduleRequest, Calculated, times, malformed,
  raised,
}
use elmybot.Scheduler.Validate.{
  Checked, validate_calculated_schedule, are_times, validate_schedule_request,
}
use elmybot.Scheduler.Storage.{
  source_key, set_next_alarm, next_rowid, maybe_prune_schedule_sources, expired_sources,
  source_prune_interval, delete_job, find_job, insert_job,
}
use elmybot.Scheduler.Requests.{
  Externals, scheduled_job, response_of, source_row, insert_source, schedule_new, schedule_checked,
  find_handler, schedule, cancel,
}
use elmybot.Scheduler.Soundness.{
  IsSource, IsValid, AreSources, with_jobs, delete_job-AreJobs, insert_job-AreJobs,
}
use elmybot.Scheduler.Ledger.{wake-IsValid}

pub validate_calculated-are_times :
    (c : Calculated) (timestamp run_at_ms : ℕ)
    → validate_calculated_schedule c ≡ ok (timestamp, run_at_ms)
    → are_times timestamp run_at_ms ≡ true
unfolding validate_calculated_schedule
validate_calculated-are_times malformed timestamp run_at_ms e = absurd (cc e)
validate_calculated-are_times raised timestamp run_at_ms e = absurd (cc e)
validate_calculated-are_times (times t r) timestamp run_at_ms e =
    elim (Bool-cases (are_times t r)) [
      | inr bad ↦ absurd (ground (arith, e, bad))
      | inl good ↦
          let same : (t, r) ≡ (timestamp, run_at_ms) = ground (arith, e, good) in
          subst (λ (p : ℕ × ℕ). are_times p.0 p.1 ≡ true) same good
    ]

-- The sources of requests.
insert_source-AreSources :
    (response : Response) (sources : List SourceRow)
    → find source_key response.source_event_id sources ≡ none
    → AreSources sources
    → AreSources (insert_source response sources)
unfolding insert_source maybe_prune_schedule_sources source_row
insert_source-AreSources response sources miss h =
    let row = source_row (next_rowid sources) response in
    let rows = sources ++ row ∷ [] in
    let grown : AreSources rows = (
      insert-Distinct source_key sources row h.0 miss,
      All-append IsSource sources (row ∷ []) h.1 (refl, tt),
    ) in
    let p =
      λ (x : SourceRow). any_row (has_key source_key x.source_event_id) (expired_sources rows) in
    elim (Bool-cases (next_rowid sources % source_prune_interval == 0)) [
      | inl e ↦ rw e (delete-Distinct source_key p rows grown.0, delete-All IsSource p rows grown.1)
      | inr e ↦ rw e grown
    ]

schedule_new-IsValid :
    (externals : Externals) (handler : Handler) (request : ScheduleRequest) (checked : Checked)
    (uuid : String) (created : ℕ) (s : Scheduler) (s' : Scheduler) (response : Response)
    → schedule_new externals handler request checked uuid created s ≡ ok (s', response)
    → find source_key checked.source_event_id s.sources ≡ none
    → IsValid s
    → IsValid s'
unfolding schedule_new scheduled_job response_of
schedule_new-IsValid externals handler request checked uuid created s s' response e miss v =
    bind-elim (validate_calculated_schedule (handler.calc_first request)) _ (s', response) e
      (λ (timestamp, run_at_ms) calculated rest.
        let job = scheduled_job checked uuid timestamp run_at_ms in
        let recorded = response_of job created in
        bind-elim (insert_job externals.fits job s.jobs) _ (s', response) rest
          (λ jobs inserted done.
            let sources = insert_source recorded s.sources in
            let left : record s { jobs = jobs; sources = sources } ≡ s' = cc done in
            subst IsValid left (record {
              jobs =
                  insert_job-AreJobs externals.fits job s.jobs jobs inserted
                    (
                      validate_calculated-are_times (handler.calc_first request) timestamp run_at_ms
                          calculated,
                      refl,
                      refl,
                    )
                    v.jobs;
              sources = insert_source-AreSources recorded s.sources miss v.sources;
              deliveries = v.deliveries;
              letters = v.letters;
            })))

schedule_checked-IsValid :
    (externals : Externals) (handler : Handler) (request : ScheduleRequest) (checked : Checked)
    (uuid : String) (created : ℕ) (s : Scheduler) (s' : Scheduler) (response : Response)
    → schedule_checked externals handler request checked uuid created s ≡ ok (s', response)
    → IsValid s
    → IsValid s'
unfolding schedule_checked
schedule_checked-IsValid externals handler request checked uuid created s s' response e v =
    elim (Option-cases (find source_key checked.source_event_id s.sources)) [
      | inl miss ↦
          let new : schedule_new externals handler request checked uuid created s
              ≡ ok (s', response) =
            rw (miss, schedule_checked) at e in
          schedule_new-IsValid externals handler request checked uuid created s s' response new miss
            v
      | inr (row, hit) ↦ let same : s ≡ s' = ground (arith, hit, e) in subst IsValid same v
    ]

pub schedule-IsValid :
    (externals : Externals) (handlers : Handlers) (request : ScheduleRequest) (uuid : String)
    (created end : ℕ) (s : Scheduler) (s' : Scheduler) (response : Response)
    → schedule externals handlers request uuid created end s ≡ ok (s', response)
    → IsValid s
    → IsValid s'
unfolding schedule
schedule-IsValid externals handlers request uuid created end s s' response e v =
    bind-elim (or_throw (find_handler request handlers) _) _ (s', response) e
      (λ handler _ rest.
        bind-elim (validate_schedule_request externals.is_platform handler request) _ (s', response)
          rest
          (λ checked _ more.
            bind-elim (schedule_checked externals handler request checked uuid created s) _
              (s', response) more
              (λ (s1, r1) done last.
                let left : set_next_alarm end s1 ≡ s' = cc last in
                subst IsValid left (
                  wake-IsValid end s1 (
                    schedule_checked-IsValid externals handler request checked uuid created s s1 r1
                      done v)))))

pub cancel-IsValid :
    (externals : Externals) (job_id : String) (end : ℕ) (s : Scheduler) (s' : Scheduler)
    (timestamp : ℕ)
    → cancel externals job_id end s ≡ ok (s', timestamp)
    → IsValid s
    → IsValid s'
unfolding cancel
cancel-IsValid externals job_id end s s' timestamp e v =
    let id = externals.trim job_id in
    bind-elim (throw_if (text_eq id "") _) _ (s', timestamp) e
      (λ _ _ rest.
        bind-elim (or_throw (find_job id s) _) _ (s', timestamp) rest
          (λ job _ done.
            let s1 = record s { jobs = delete_job id s.jobs } in
            let left : set_next_alarm end s1 ≡ s' = cc done in
            subst IsValid left (
              wake-IsValid end s1
                (with_jobs (delete_job id s.jobs) s (delete_job-AreJobs id s.jobs v.jobs) v))))
