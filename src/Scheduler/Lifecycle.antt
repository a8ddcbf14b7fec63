-- ===== src/Scheduler/Lifecycle.antt =====
-- The steps of an occurrence keep the invariant.
use elmybot.Base.{
  ℕ, suc, ◌<◌, String, ◌≡◌, refl, sym, ◌∙◌, ap, subst, inl, inr, Bool, [], ◌∷◌, ◌++◌, Option, some,
  arith, take, ok, All, All-append, All-map_imp, Bool-cases, Option-cases, bind-elim, throw_if,
  if◌then◌else◌, length-take-le, not, ◌>>=◌,
}
use elmybot.Sql.{
  Numbered, delete, delete-All, select-Numbered, insert-Numbered, length-delete_unnamed, order_by,
  any_row,
}
use elmybot.Scheduler.Types.{Job, DeadLetter, Scheduler, Failure, Handler, LastError}
use elmybot.Scheduler.Validate.{validate_calculated_schedule}
use elmybot.Scheduler.Storage.{
  delete_job, insert_job, prune_dead_letters, same_letter, failed_after, max_dead_letters,
  stored_error,
}
use elmybot.Scheduler.Occurrences.{
  current_of, attempted, claim_occurrence, plan_fits, persist_current, persist_occurrence_plan,
  waiting, buried, bury, is_retried, fail_occurrence, next_occurrence, advance, complete_occurrence,
  save_job,
}
use elmybot.Scheduler.Soundness.{
  IsLive, IsLetter, letter_number, IsValid, AreLetters, with_jobs, current_of-IsLive,
  delete_job-AreJobs, insert_job-AreJobs, save_job-IsValid,
}
use elmybot.Scheduler.Submissions.{validate_calculated-are_times}

pub claim-IsValid :
    (fits : Job → Bool) (job : Job) (now : ℕ) (s s' : Scheduler) (claimed : Job)
    → claim_occurrence fits job now s ≡ ok (some (claimed, s'))
    → IsValid s
    → IsValid s'
unfolding claim_occurrence attempted
claim-IsValid fits job now s s' claimed e v = elim (Option-cases (current_of job s)) [
  | inl miss ↦ absurd (ground (arith, miss, e))
  | inr (current, hit) ↦
      let live = current_of-IsLive job current s v.jobs.1 hit in
      let run : (save_job fits (attempted now current) s >>= λ s1.
      ok (some (attempted now current, s1)))
          ≡ ok (some (claimed, s')) =
        rw (hit, claim_occurrence) at e in
      bind-elim (save_job fits (attempted now current) s) _ (some (claimed, s')) run
        (λ s1 saved done.
          let left : s1 ≡ s' = cc done in
          subst IsValid left
            (save_job-IsValid fits (attempted now current) s s1 saved (live.0, refl, refl) v))
]

persist_current-IsValid :
    (fits : Job → Bool) (plan : Option String) (current : Job) (s s' : Scheduler) (job' : Job)
    → persist_current fits plan current s ≡ ok (job', s')
    → IsLive current
    → IsValid s
    → IsValid s'
unfolding persist_current
persist_current-IsValid fits plan current s s' job' e live v =
    elim (Option-cases current.occurrence_plan) [
      | inr (old, has) ↦ let left : s ≡ s' = ground (arith, e, has) in subst IsValid left v
      | inl missing ↦
          let changed = record current { occurrence_plan = plan } in
          let run : (save_job fits changed s >>= λ s1. ok (changed, s1)) ≡ ok (job', s') =
            rw (missing, persist_current) at e in
          bind-elim (save_job fits changed s) _ (job', s') run
            (λ s1 saved done.
              let left : s1 ≡ s' = cc done in
              subst IsValid left (save_job-IsValid fits changed s s1 saved live v))
    ]

pub persist-IsValid :
    (fits : Job → Bool) (job : Job) (plan : Option String) (s s' : Scheduler) (job' : Job)
    → persist_occurrence_plan fits job plan s ≡ ok (some (job', s'))
    → IsValid s
    → IsValid s'
unfolding persist_occurrence_plan
persist-IsValid fits job plan s s' job' e v =
    bind-elim (throw_if (not (plan_fits plan)) _) _ (some (job', s')) e (λ _ _ rest.
      elim (Option-cases (current_of job s)) [
        | inl miss ↦ absurd (ground (arith, miss, rest))
        | inr (current, hit) ↦
            let run : (persist_current fits plan current s >>= λ p. ok (some p))
                ≡ ok (some (job', s')) =
              rw hit at rest in
            bind-elim (persist_current fits plan current s) _ (some (job', s')) run
              (λ (j1, s1) saved done.
                let left : s1 ≡ s' = cc done in
                subst IsValid left (
                  persist_current-IsValid fits plan current s s1 j1 saved
                    (current_of-IsLive job current s v.jobs.1 hit) v))
      ])

-- The letters stay within their number, and are numbered upwards.
bury-AreLetters :
    (error : LastError) (now : ℕ) (current : Job) (s : Scheduler)
    → AreLetters s.last_dead_letter_id s.dead_letters
    → let s' = bury error now current s in AreLetters s'.last_dead_letter_id s'.dead_letters
unfolding bury prune_dead_letters buried delete
bury-AreLetters error now current s (n, d, b) =
    let last = s.last_dead_letter_id in
    let letter : DeadLetter = record {
      dead_letter_id = suc last;
      failed_at_ms = now;
      job = buried error current;
    } in
    let letters = s.dead_letters ++ letter ∷ [] in
    let newest = take max_dead_letters (order_by failed_after letters) in
    let p = λ (x : DeadLetter). not (any_row (same_letter x) newest) in
    let numbered : Numbered letter_number letters =
      insert-Numbered letter_number s.dead_letters letter n (
        All-map_imp (IsLetter last) (λ (x : DeadLetter). x.dead_letter_id < suc last)
          (λ x l. omega (arith, l.0)) s.dead_letters d) in
    let dead : All (IsLetter (suc last)) letters =
      All-append (IsLetter (suc last)) s.dead_letters (letter ∷ [])
        (All-map_imp (IsLetter last) (IsLetter (suc last)) (λ x l. (omega (arith, l.0), l.1, l.2))
          s.dead_letters d)
        ((omega arith, refl, refl), tt) in
    let few = length-delete_unnamed letter_number newest letters numbered in
    let taken = length-take-le max_dead_letters (order_by failed_after letters) in
    (
      select-Numbered letter_number (λ x. not (p x)) letters numbered,
      delete-All (IsLetter (suc last)) p letters dead,
      omega (arith, few, taken),
    )

pub bury-IsValid :
    (error : LastError) (now : ℕ) (current : Job) (s : Scheduler)
    → IsValid s
    → IsValid (bury error now current s)
unfolding bury
bury-IsValid error now current s v = record {
  jobs = delete_job-AreJobs current.id s.jobs v.jobs;
  sources = v.sources;
  deliveries = v.deliveries;
  letters = bury-AreLetters error now current s v.letters;
}

pub fail-IsValid :
    (fits : Job → Bool) (job : Job) (failure : Failure) (now : ℕ) (s s' : Scheduler)
    → fail_occurrence fits job failure now s ≡ ok s'
    → IsValid s
    → IsValid s'
unfolding fail_occurrence waiting
fail-IsValid fits job failure now s s' e v = elim (Option-cases (current_of job s)) [
  | inl miss ↦ let left : s ≡ s' = ground (arith, miss, e) in subst IsValid left v
  | inr (current, hit) ↦
      let error = stored_error failure now in
      let live = current_of-IsLive job current s v.jobs.1 hit in
      elim (Bool-cases (is_retried failure current)) [
        | inl again ↦
            let run : save_job fits (waiting error now current) s ≡ ok s' =
              rw (hit, fail_occurrence, again) at e in
            save_job-IsValid fits (waiting error now current) s s' run (live.0, refl, refl) v
        | inr final ↦
            let left : bury error now current s ≡ s' = ground (arith, hit, final, e) in
            subst IsValid left (bury-IsValid error now current s v)
      ]
]

advance-IsValid :
    (fits : Job → Bool) (handler : Handler) (current : Job) (s s' : Scheduler)
    → advance fits handler current s ≡ ok s'
    → IsValid s
    → IsValid s'
unfolding advance next_occurrence
advance-IsValid fits handler current s s' e v =
    bind-elim (validate_calculated_schedule (handler.calc_next current)) _ s' e
      (λ (timestamp, run_at_ms) calculated rest.
        let job = next_occurrence current timestamp run_at_ms in
        bind-elim (insert_job fits job s.jobs) _ s' rest (λ jobs inserted done.
          let left : record s { jobs = jobs } ≡ s' = cc done in
          subst IsValid left (
            with_jobs jobs s
              (insert_job-AreJobs fits job s.jobs jobs inserted
                (
                  validate_calculated-are_times (handler.calc_next current) timestamp run_at_ms
                      calculated,
                  refl,
                  refl,
                )
                v.jobs)
              v)))

pub complete-IsValid :
    (fits : Job → Bool) (job : Job) (handler : Handler) (s s' : Scheduler)
    → complete_occurrence fits job handler s ≡ ok s'
    → IsValid s
    → IsValid s'
unfolding complete_occurrence
complete-IsValid fits job handler s s' e v = elim (Option-cases (current_of job s)) [
  | inl miss ↦ let left : s ≡ s' = ground (arith, miss, e) in subst IsValid left v
  | inr (current, hit) ↦
      let removed = record s { jobs = delete_job current.id s.jobs } in
      let valid =
        with_jobs (delete_job current.id s.jobs) s (delete_job-AreJobs current.id s.jobs v.jobs)
          v in
      let step : complete_occurrence fits job handler s
          ≡ (if current.repeats then advance fits handler current removed else ok removed) =
        rw (hit, complete_occurrence) in
      let by = λ (b : Bool). if b then advance fits handler current removed else ok removed in
      elim (Bool-cases current.repeats) [
        | inl again ↦
            advance-IsValid fits handler current removed s' (sym (ap by again) ∙ sym step ∙ e) valid
        | inr once ↦
            let left : removed ≡ s' = cc (sym (ap by once) ∙ sym step ∙ e) in
            subst IsValid left valid
      ]
]
