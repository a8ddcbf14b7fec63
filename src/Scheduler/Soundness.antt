-- ===== src/Scheduler/Soundness.antt =====
-- The invariant of the scheduler's tables, and how the statements on jobs keep it.
use elmybot.Base.{
  ℕ, ◌≤◌, String, ◌≡◌, refl, subst, inl, inr, Bool, true, false, List, [], ◌∷◌, none, some, arith,
  is_some, length, ok, All, All-append, Bool-cases, Option-cases, bind-elim, ◌==◌,
}
use elmybot.Sql.{
  find, has_key, Distinct, first-All, update-All, delete-All, insert-Distinct, delete-Distinct,
  replace-Distinct, Numbered,
}
use elmybot.Scheduler.Types.{
  Job, JobRow, DeliveryState, dead_letter, SourceRow, DeadLetter, Scheduler,
}
use elmybot.Scheduler.Validate.{are_times}
use elmybot.Scheduler.Storage.{
  row_id, row_of, find_job, insert_job, update_job, delete_job, source_key, occurrence_key,
  max_dead_letters,
}
use elmybot.Scheduler.Requests.{source_row}
use elmybot.Scheduler.Occurrences.{current_of, save_job}

abbrev pub is_dead : DeliveryState → Bool
is_dead dead_letter = true
is_dead other = false

-- A job that waits for its delivery: its times name the same second, and its next attempt is set.
abbrev pub IsLive : Job → Type 0
IsLive job =
    (are_times job.timestamp job.run_at_ms ≡ true)
    × (is_some job.delivery.next_attempt_at_ms ≡ true)
    × (is_dead job.delivery.state ≡ false)

-- The columns of a row are those of the job in its JSON text.
abbrev pub IsRow : JobRow → Type 0
IsRow r = (r ≡ row_of r.job) × IsLive r.job

abbrev pub IsSource : SourceRow → Type 0
IsSource x = x ≡ source_row x.rowid x.response

-- A letter has a number that was given, and a job that is not attempted again.
abbrev pub IsLetter : ℕ → DeadLetter → Type 0
IsLetter last x =
    (x.dead_letter_id ≤ last)
    × (x.job.delivery.next_attempt_at_ms ≡ none)
    × (is_dead x.job.delivery.state ≡ true)

abbrev pub letter_number : DeadLetter → ℕ
letter_number x = x.dead_letter_id

abbrev pub AreJobs : List JobRow → Type 0
AreJobs jobs = Distinct row_id jobs × All IsRow jobs

abbrev pub AreSources : List SourceRow → Type 0
AreSources sources = Distinct source_key sources × All IsSource sources

abbrev pub AreLetters : ℕ → List DeadLetter → Type 0
AreLetters last letters =
    Numbered letter_number letters
    × All (IsLetter last) letters
    × (length letters ≤ max_dead_letters)

pub record IsValid (s : Scheduler) : Type 0 where
  pub jobs : AreJobs s.jobs
  pub sources : AreSources s.sources
  pub deliveries : Distinct occurrence_key s.deliveries
  pub letters : AreLetters s.last_dead_letter_id s.dead_letters

pub with_jobs :
    (jobs : List JobRow) (s : Scheduler)
    → AreJobs jobs
    → IsValid s
    → IsValid (record s { jobs = jobs })
with_jobs jobs s k v = record {
  jobs = k;
  sources = v.sources;
  deliveries = v.deliveries;
  letters = v.letters;
}

pub current_of-IsLive :
    (job current : Job) (s : Scheduler)
    → All IsRow s.jobs
    → current_of job s ≡ some current
    → IsLive current
unfolding current_of find_job find
current_of-IsLive job current s h e = elim (Option-cases (find row_id job.id s.jobs)) [
  | inl miss ↦ absurd (ground (arith, miss, e))
  | inr (r, hit) ↦
      let live = first-All IsRow (has_key row_id job.id) s.jobs h hit in
      elim (Bool-cases (r.job.timestamp == job.timestamp)) [
        | inl same ↦
            let it : r.job ≡ current = ground (arith, e, hit, same) in subst IsLive it live.1
        | inr other ↦ absurd (ground (arith, e, hit, other))
      ]
]

pub delete_job-AreJobs :
    (id : String) (jobs : List JobRow) → AreJobs jobs → AreJobs (delete_job id jobs)
delete_job-AreJobs id jobs h = (
  delete-Distinct row_id (has_key row_id id) jobs h.0,
  delete-All IsRow (has_key row_id id) jobs h.1,
)

row_of-IsRow : (job : Job) → IsLive job → IsRow (row_of job)
unfolding row_of
row_of-IsRow job live = (refl, live)

pub update_job-AreJobs :
    (fits : Job → Bool) (job : Job) (jobs jobs' : List JobRow)
    → update_job fits job jobs ≡ ok jobs'
    → IsLive job
    → AreJobs jobs
    → AreJobs jobs'
unfolding update_job row_of
update_job-AreJobs fits job jobs jobs' e live h = elim (Bool-cases (fits job)) [
  | inr big ↦ absurd (ground (arith, e, big))
  | inl small ↦ subst AreJobs (ground (arith, e, small)) (
    replace-Distinct row_id (row_of job) jobs h.0,
    update-All IsRow (has_key row_id job.id) (λ _. row_of job) jobs (λ x _ _. row_of-IsRow job live)
        h.1,
  )
]

pub insert_job-AreJobs :
    (fits : Job → Bool) (job : Job) (jobs jobs' : List JobRow)
    → insert_job fits job jobs ≡ ok jobs'
    → IsLive job
    → AreJobs jobs
    → AreJobs jobs'
unfolding insert_job row_of
insert_job-AreJobs fits job jobs jobs' e live h = elim (Bool-cases (fits job)) [
  | inr big ↦ absurd (ground (arith, e, big))
  | inl small ↦ elim (Option-cases (find row_id job.id jobs)) [
    | inr (r, taken) ↦ absurd (ground (arith, e, small, taken))
    | inl free ↦ subst AreJobs (ground (arith, e, small, free)) (
      insert-Distinct row_id jobs (row_of job) h.0 free,
      All-append IsRow jobs (row_of job ∷ []) h.1 (row_of-IsRow job live, tt),
    )
  ]
]

pub save_job-IsValid :
    (fits : Job → Bool) (job : Job) (s s' : Scheduler)
    → save_job fits job s ≡ ok s'
    → IsLive job
    → IsValid s
    → IsValid s'
unfolding save_job
save_job-IsValid fits job s s' e live v =
    bind-elim (update_job fits job s.jobs) (λ jobs. ok (record s { jobs = jobs })) s' e
      (λ jobs saved rest.
        let same : record s { jobs = jobs } ≡ s' = cc rest in
        subst IsValid same
          (with_jobs jobs s (update_job-AreJobs fits job s.jobs jobs saved live v.jobs) v))
