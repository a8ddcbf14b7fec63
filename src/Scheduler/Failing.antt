-- ===== src/Scheduler/Failing.antt =====
-- How a failure settles an occurrence: it waits for a bounded time, or it becomes a dead letter.
use elmybot.Base.{
  ℕ, suc, ◌+◌, ◌≤◌, String, ◌≡◌, refl, sym, ◌∙◌, ap, subst, inl, inr, Bool, true, false, List, [],
  ◌∷◌, ◌++◌, none, some, arith, take, ok, err, All, All-map_imp, Bool-cases, Option-cases,
  if◌then◌else◌, ◌==◌, not, text_eq,
}
use elmybot.Sql.{find, has_key, delete, select, order_by, any_row}
use elmybot.Scheduler.Types.{
  Job, JobRow, DeadLetter, Scheduler, job_too_large, Failure, delivery_error, unexpected, LastError,
  retry_wait, dead_letter,
}
use elmybot.Base.{◌⊎◌, ◌<◌}
use elmybot.Scheduler.Storage.{
  find_job, prune_dead_letters, same_letter, failed_after, max_dead_letters, stored_error,
}
use elmybot.Scheduler.Occurrences.{
  current_of, waiting, buried, bury, is_retried, fail_occurrence, save_job,
}
use elmybot.Scheduler.Soundness.{IsRow, IsLetter, IsValid}
use elmybot.Base.{◌^◌, ◌-◌, All-both, zero, head?, map, text_eq_refl, map?}
use elmybot.Sql.{
  order_by, find-has_key, select-All, order_by-newest, any_row-head, select-append, first-All,
  replace, find-replace_self, find-select-miss,
}
use elmybot.Scheduler.Storage.{row_id, row_of, retry_delay_ms, update_job, is_retryable}
use elmybot.Scheduler.Requests.{dead_letters}

one_le_pow : (n : ℕ) → 1 ≤ 2 ^ n
one_le_pow zero = omega arith
one_le_pow (suc n) = omega (arith, one_le_pow n)

-- The delay before a retry is between 30 s and 30 min.
retry_delay_ms-bounds : (n : ℕ) → (30_000 ≤ retry_delay_ms n) × (retry_delay_ms n ≤ 1_800_000)
unfolding retry_delay_ms
retry_delay_ms-bounds n = let p = one_le_pow (n - 1) in (ground (arith, p), omega arith)

first_letters :
    (n : ℕ) (xs : List DeadLetter) (y : DeadLetter)
    → head? xs ≡ some y
    → head? {A = ℕ × Job} (map (λ (x : DeadLetter). (x.failed_at_ms, x.job)) (take (suc n) xs))
      ≡ some (y.failed_at_ms, y.job)
first_letters n [] y e = cc e
first_letters n (x ∷ xs) y e = ground (arith, e)

module _ (error : LastError) (now : ℕ) (current : Job) (s : Scheduler)
    (numbered : All (IsLetter s.last_dead_letter_id) s.dead_letters)
    (past : All (λ (x : DeadLetter). x.failed_at_ms ≤ now) s.dead_letters) where
  abbrev letter : DeadLetter
  letter = record {
    dead_letter_id = suc s.last_dead_letter_id;
    failed_at_ms = now;
    job = buried error current;
  }

  abbrev letters : List DeadLetter
  letters = s.dead_letters ++ letter ∷ []

  letter-first : All (λ x. failed_after letter x ≡ true) s.dead_letters
  unfolding failed_after
  letter-first =
      All-map_imp (λ x. IsLetter s.last_dead_letter_id x × (x.failed_at_ms ≤ now))
        (λ x. failed_after letter x ≡ true) (λ x h. ground (arith, h.0.0, h.1)) s.dead_letters
        (All-both (IsLetter s.last_dead_letter_id) (λ (x : DeadLetter). x.failed_at_ms ≤ now)
          s.dead_letters numbered past)

  -- The letter of a job comes first in what `/dead-letters` shows.
  bury-shown :
      head? {A = ℕ × Job} (dead_letters (bury error now current s)).1
      ≡ some (now, buried error current)
  unfolding bury prune_dead_letters dead_letters delete select
  bury-shown =
      let newest = take max_dead_letters (order_by failed_after letters) in
      let q = λ (x : DeadLetter). not (not (any_row (same_letter x) newest)) in
      let among : any_row (same_letter letter) newest ≡ true =
        any_row-head (same_letter letter) 99 (order_by failed_after letters) letter
          (order_by-newest failed_after letter s.dead_letters letter-first) (ground arith) in
      let kept_letter : q letter ≡ true = ap (λ b. not (not b)) among in
      let left : select q letters ≡ select q s.dead_letters ++ letter ∷ [] =
        select-append q s.dead_letters (letter ∷ [])
        ∙ ap (λ b. select q s.dead_letters ++ (if b then letter ∷ [] else [])) kept_letter in
      let first : head? (order_by failed_after (select q letters)) ≡ some letter =
        ap (λ l. head? (order_by failed_after l)) left
        ∙ order_by-newest failed_after letter (select q s.dead_letters)
            (select-All (λ x. failed_after letter x ≡ true) q s.dead_letters letter-first) in
      first_letters 4 (order_by failed_after (select q letters)) letter first

-- The error says that it is not to be retried.
abbrev pub IsRefused : Failure → Type 0
IsRefused failure =
    (code : String) × (message : String) × (metadata : String) × (failure
      ≡ delivery_error false code message metadata)

is_retried-cases :
    (failure : Failure) (current : Job)
    → (is_retried failure current ≡ true
        → (IsRefused failure → ⊥) × (current.delivery.attempts < 5))
      × (is_retried failure current ≡ false → IsRefused failure ⊎ (5 ≤ current.delivery.attempts))
unfolding is_retried is_retryable
is_retried-cases (delivery_error true code message metadata) current =
    ((λ h. ((λ (c, m, d, e). cc e), ground (arith, h))), λ h. inr (ground (arith, h)))
is_retried-cases (delivery_error false code message metadata) current =
    ((λ h. absurd (cc h)), λ h. inl (code, message, metadata, refl))
is_retried-cases (unexpected message) current =
    ((λ h. ((λ (c, m, d, e). cc e), ground (arith, h))), λ h. inr (ground (arith, h)))

retried :
    (failure : Failure) (current : Job)
    → (IsRefused failure → ⊥)
    → current.delivery.attempts < 5
    → is_retried failure current ≡ true
retried failure current ask few = elim (Bool-cases (is_retried failure current)) [
  | inl yes_it ↦ yes_it
  | inr no_it ↦ elim ((is_retried-cases failure current).1 no_it) [
    | inl refused ↦ absurd (ask refused)
    | inr used ↦ absurd (omega (arith, used, few))
  ]
]

given_up :
    (failure : Failure) (current : Job)
    → IsRefused failure ⊎ (5 ≤ current.delivery.attempts)
    → is_retried failure current ≡ false
given_up failure current why = elim (Bool-cases (is_retried failure current)) [
  | inr no_it ↦ no_it
  | inl yes_it ↦
      let (ask, few) = (is_retried-cases failure current).0 yes_it in
      elim why [ inl refused ↦ absurd (ask refused) | inr used ↦ absurd (omega (arith, used, few)) ]
]

-- How `failOccurrence` leaves an occurrence that the table of jobs holds as `current`.
abbrev pub Settles : (Job → Bool) → Job → Failure → ℕ → Scheduler → Job → Type 0
Settles fits job failure now s current =
    let error = stored_error failure now in
    let again = waiting error now current in
    ((IsRefused failure → ⊥)
      → current.delivery.attempts < 5
      → fits again ≡ true
      → (s' : Scheduler) × (fail_occurrence fits job failure now s ≡ ok s')
        × (find_job job.id s' ≡ some again)
        × (again.delivery.state ≡ retry_wait)
        × (again.delivery.attempts ≡ current.delivery.attempts)
        × (t : ℕ) × (again.delivery.next_attempt_at_ms ≡ some t)
        × (now + 30_000 ≤ t)
        × (t ≤ now + 1_800_000))
    × ((IsRefused failure → ⊥)
        → current.delivery.attempts < 5
        → fits again ≡ false
        → fail_occurrence fits job failure now s ≡ err job_too_large)
    × (IsRefused failure ⊎ (5 ≤ current.delivery.attempts)
        → (s' : Scheduler) × (fail_occurrence fits job failure now s ≡ ok s')
          × (find_job job.id s' ≡ none)
          × (letter : Job) × (head? {A = ℕ × Job} (dead_letters s').1 ≡ some (now, letter))
          × (letter.id ≡ job.id)
          × (letter.delivery.state ≡ dead_letter)
          × (letter.delivery.next_attempt_at_ms ≡ none)
          × (letter.delivery.last_error ≡ some error))

current_of-row :
    (job current : Job) (s : Scheduler)
    → All IsRow s.jobs
    → current_of job s ≡ some current
    → (r : JobRow) × (find row_id job.id s.jobs ≡ some r) × (current.id ≡ job.id)
unfolding current_of find_job find row_of
current_of-row job current s h e = elim (Option-cases (find row_id job.id s.jobs)) [
  | inl miss ↦ absurd (ground (arith, miss, e))
  | inr (r, hit) ↦ elim (Bool-cases (r.job.timestamp == job.timestamp)) [
    | inr other ↦ absurd (ground (arith, e, hit, other))
    | inl same ↦
        let it : r.job ≡ current = ground (arith, e, hit, same) in
        let row = first-All IsRow (has_key row_id job.id) s.jobs h hit in
        (
          r,
          hit,
          ap (λ (j : Job). j.id) (sym it)
              ∙ sym (ap row_id row.0)
              ∙ find-has_key row_id job.id s.jobs hit,
        )
  ]
]

-- A failure settles an occurrence that a valid storage holds, with no dead letter later than now. If the error does not refuse a retry and fewer than five attempts
-- were made, the occurrence waits between 30 s and 30 min for its next attempt, with its count of
-- attempts, or an error is thrown if its job is too large then. If the error refuses a retry or five
-- attempts were made, its job is deleted and is, with the error, the first of the dead letters that
-- are shown.
pub fail_occurrence-Settles :
    (fits : Job → Bool) (job : Job) (failure : Failure) (now : ℕ) (s : Scheduler) (current : Job)
    → IsValid s
    → All (λ (x : DeadLetter). x.failed_at_ms ≤ now) s.dead_letters
    → current_of job s ≡ some current
    → Settles fits job failure now s current
unfolding fail_occurrence save_job update_job waiting find_job row_of bury buried delete
fail_occurrence-Settles fits job failure now s current v past hit =
    let error = stored_error failure now in
    let again = waiting error now current in
    let (r, found, id) = current_of-row job current s v.jobs.1 hit in
    (
      (λ ask few small.
          let again_it = retried failure current ask few in
          let bounds = retry_delay_ms-bounds current.delivery.attempts in
          let run : fail_occurrence fits job failure now s
              ≡ ok (record s { jobs = replace row_id (row_of again) s.jobs }) =
            rw (hit, fail_occurrence, again_it, small) in
          (
            record s { jobs = replace row_id (row_of again) s.jobs },
            run,
            waits again id (r, found),
            refl,
            refl,
            now + retry_delay_ms current.delivery.attempts,
            refl,
            omega (arith, bounds.0),
            omega (arith, bounds.1),
          )),
      (λ ask few big. rw (hit, fail_occurrence, retried failure current ask few, big)),
      (λ why. (
        bury error now current s,
        rw (hit, fail_occurrence, given_up failure current why),
        gone id (r, found),
        buried error current,
        bury-shown error now current s v.letters.1 past,
        id,
        refl,
        refl,
        refl,
      )),
    )
  where
    waits :
        (again : Job)
        → again.id ≡ job.id
        → (r : JobRow) × (find row_id job.id s.jobs ≡ some r)
        → find_job job.id (record s { jobs = replace row_id (row_of again) s.jobs }) ≡ some again
    waits again id (r, found) =
        let under = λ (k : String).
          find row_id k (replace row_id (row_of again) s.jobs) ≡ some (row_of again) in
        ap (map? (λ (x : JobRow). x.job)) (
          subst under id (
            find-replace_self row_id (row_of again) s.jobs r
              (ap (λ k. find row_id k s.jobs) id ∙ found)))

    gone :
        current.id ≡ job.id
        → (r : JobRow) × (find row_id job.id s.jobs ≡ some r)
        → find_job job.id (bury (stored_error failure now) now current s) ≡ none
    gone id (r, found) =
        let same : has_key row_id current.id r ≡ true =
          subst (λ k. text_eq r.id k ≡ true) (find-has_key row_id job.id s.jobs found ∙ sym id)
            (text_eq_refl r.id) in
        ap (map? (λ (x : JobRow). x.job)) (
          find-select-miss row_id job.id (λ x. not (has_key row_id current.id x)) s.jobs r v.jobs.0
            found (ap not same))
