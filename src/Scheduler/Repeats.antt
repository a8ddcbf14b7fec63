-- ===== src/Scheduler/Repeats.antt =====
-- A request that is sent again gets the response of the first one.
use elmybot.Base.{
  ℕ, suc, ◌<◌, String, ◌≡◌, refl, sym, ◌∙◌, ap, subst, inl, inr, Bool, true, false, List, [], ◌∷◌,
  ◌++◌, none, some, arith, take, ok, All, All-append, All-map_imp, Bool-cases, Option-cases,
  bind-elim, or_throw, ◌==◌, ◌%◌, not, ◌>>=◌,
}
use elmybot.Sql.{find, has_key, delete, select, order_by, any_row}
use elmybot.Scheduler.Types.{Response, SourceRow, Scheduler, Handler, Handlers, ScheduleRequest}
use elmybot.Scheduler.Validate.{Checked, validate_calculated_schedule, validate_schedule_request}
use elmybot.Scheduler.Storage.{
  source_key, set_next_alarm, next_rowid, maybe_prune_schedule_sources, expired_sources,
  source_prune_interval, insert_job,
}
use elmybot.Scheduler.Requests.{
  Externals, scheduled_job, response_of, source_row, insert_source, schedule_new, schedule_checked,
  find_handler, schedule,
}
use elmybot.Base.{text_eq_refl, first_some, text_lt_irrefl, zero, ◌-◌, All-both, All-take}
use elmybot.Sql.{
  find-append, find-none→All, order_by-All, select-All, select-holds, any_row-none,
  first-select-some,
}
use elmybot.Scheduler.Storage.{
  created_before, oldest_kept, head_of, drop, max_schedule_sources, source_prune_batch_size,
}

-- The row of a new source survives the deletion of old ones.
excluded : {b c : Bool} → (b ≡ true → c ≡ false) → c ≡ true → b ≡ false
excluded {b = true} k e = absurd (cc (sym (k refl) ∙ e))
excluded {b = false} k e = refl

module _ (response : Response) (sources : List SourceRow)
    (fresh : find source_key response.source_event_id sources ≡ none)
    (older : All (λ (x : SourceRow). x.created_at_ms < response.created_at_ms) sources) where
  abbrev row : SourceRow
  row = source_row (next_rowid sources) response

  abbrev rows : List SourceRow
  rows = sources ++ row ∷ []

  abbrev id : String
  id = response.source_event_id

  row-newest : All (λ x. created_before row x ≡ false) rows
  unfolding created_before source_row
  row-newest =
      All-append (λ x. created_before row x ≡ false) sources (row ∷ [])
        (All-map_imp (λ (x : SourceRow). x.created_at_ms < response.created_at_ms)
          (λ x. created_before row x ≡ false) (λ x h. ground (arith, h)) sources older)
        (ground (arith, text_lt_irrefl id), tt)

  head_of-All :
      (P : SourceRow → Type 0) (xs : List SourceRow) (x : SourceRow)
      → All P xs
      → head_of xs ≡ some x
      → P x
  head_of-All P [] x h e = cc e
  head_of-All P (y ∷ ys) x h e = subst P (cc e) h.0

  drop-All : (P : SourceRow → Type 0) (n : ℕ) (xs : List SourceRow) → All P xs → All P (drop n xs)
  drop-All P zero xs h = h
  drop-All P (suc n) [] h = tt
  drop-All P (suc n) (x ∷ xs) h = drop-All P n xs h.1

  oldest_kept-older :
      (oldest : SourceRow) → oldest_kept rows ≡ some oldest → created_before row oldest ≡ false
  unfolding oldest_kept
  oldest_kept-older oldest e =
      let P = λ (x : SourceRow). created_before row x ≡ false in
      let newest_first = λ (a b : SourceRow). created_before b a in
      head_of-All P (drop (max_schedule_sources - 1) (order_by newest_first rows)) oldest
        (drop-All P (max_schedule_sources - 1) (order_by newest_first rows)
          (order_by-All P newest_first rows row-newest))
        e

  -- Of the rows that are older than a kept one, none has the new key.
  rows-key :
      (oldest : SourceRow)
      → created_before row oldest ≡ false
      → All (λ x. has_key source_key id x ≡ true → created_before x oldest ≡ false) rows
  unfolding source_row
  rows-key oldest h =
      All-append (λ x. has_key source_key id x ≡ true → created_before x oldest ≡ false) sources
        (row ∷ [])
        (All-map_imp (λ x. has_key source_key id x ≡ false)
          (λ x. has_key source_key id x ≡ true → created_before x oldest ≡ false)
          (λ x no e. absurd (ground (arith, no, e))) sources
          (find-none→All source_key id sources fresh))
        ((λ _. h), tt)

  expired-other : any_row (has_key source_key id) (expired_sources rows) ≡ false
  unfolding expired_sources any_row
  expired-other = elim (Option-cases (oldest_kept rows)) [
    | inl miss ↦ rw (miss, expired_sources, any_row)
    | inr (oldest, hit) ↦
        let p = λ (x : SourceRow). created_before x oldest in
        let K = λ (x : SourceRow). has_key source_key id x ≡ true → p x ≡ false in
        let H = λ (x : SourceRow). p x ≡ true in
        let older_rows = select p rows in
        let both =
          All-both K H older_rows
            (select-All K p rows (rows-key oldest (oldest_kept-older oldest hit)))
            (select-holds p rows) in
        let none_has = λ (x : SourceRow). has_key source_key id x ≡ false in
        rw (hit, expired_sources)
          (any_row-none (has_key source_key id)
            (take source_prune_batch_size (order_by created_before older_rows))
            (All-take none_has source_prune_batch_size (order_by created_before older_rows) (
              order_by-All none_has created_before older_rows
                (All-map_imp (λ x. K x × H x) none_has (λ x k. excluded k.0 k.1) older_rows both))))
  ]

  -- The new source is found afterwards.
  insert_source-found :
      (x : SourceRow) × (find source_key id (insert_source response sources) ≡ some x)
      × (x.response ≡ response)
  unfolding insert_source maybe_prune_schedule_sources find source_row delete
  insert_source-found =
      let added : find source_key id rows ≡ some row =
        find-append source_key id sources (row ∷ [])
        ∙ ap (λ o. first_some o (find source_key id (row ∷ []))) fresh
        ∙ rw (text_eq_refl id) in
      let p = λ (x : SourceRow).
        not (any_row (has_key source_key x.source_event_id) (expired_sources rows)) in
      elim (Bool-cases (next_rowid sources % source_prune_interval == 0)) [
        | inr e ↦ (row, rw e added, refl)
        | inl e ↦ (
          row,
          rw e (first-select-some (has_key source_key id) p rows row added (ap not expired-other)),
          refl,
        )
      ]

-- The event of a request is recorded with its response.
abbrev IsRecorded : String → Response → Scheduler → Type 0
IsRecorded id response s =
    (x : SourceRow) × (find source_key id s.sources ≡ some x) × (x.response ≡ response)

schedule_checked-IsRecorded :
    (externals : Externals) (handler : Handler) (request : ScheduleRequest) (checked : Checked)
    (uuid : String) (created : ℕ) (s s' : Scheduler) (response : Response)
    → All (λ (x : SourceRow). x.created_at_ms < created) s.sources
    → schedule_checked externals handler request checked uuid created s ≡ ok (s', response)
    → IsRecorded checked.source_event_id response s'
unfolding schedule_checked schedule_new scheduled_job response_of
schedule_checked-IsRecorded externals handler request checked uuid created s s' response older e =
    elim (Option-cases (find source_key checked.source_event_id s.sources)) [
      | inr (row, hit) ↦
          let left : s ≡ s' = ground (arith, hit, e) in
          let same : row.response ≡ response = ground (arith, hit, e) in
          subst (IsRecorded checked.source_event_id response) left (row, hit, same)
      | inl miss ↦
          bind-elim (validate_calculated_schedule (handler.calc_first request)) _ (s', response)
            (rw (miss, schedule_checked) at e)
            (λ (timestamp, run_at_ms) _ rest.
              let job = scheduled_job checked uuid timestamp run_at_ms in
              let recorded = response_of job created in
              bind-elim (insert_job externals.fits job s.jobs) _ (s', response) rest
                (λ jobs _ done.
                  let s1 = record s { jobs = jobs; sources = insert_source recorded s.sources } in
                  let left : s1 ≡ s' = cc done in
                  let same : recorded ≡ response = cc done in
                  let (x, hit, own) = insert_source-found recorded s.sources miss older in
                  subst (IsRecorded checked.source_event_id response) left (x, hit, own ∙ same)))
    ]

-- A request that is sent again, after a first one that succeeded, gets the response of the first one
-- whatever the clock and the new UUID are, and sets the alarm but changes no table. The clock of
-- the first request is past that of all the events that were recorded before.
pub schedule-again :
    (externals : Externals) (handlers : Handlers) (request : ScheduleRequest) (uuid uuid' : String)
    (created end created' end' : ℕ) (s s' : Scheduler) (response : Response)
    → All (λ (x : SourceRow). x.created_at_ms < created) s.sources
    → schedule externals handlers request uuid created end s ≡ ok (s', response)
    → schedule externals handlers request uuid' created' end' s'
      ≡ ok (set_next_alarm end' s', response)
unfolding schedule set_next_alarm schedule_checked
schedule-again externals handlers request uuid uuid' created end created' end' s s' response older
      e =
    bind-elim (or_throw (find_handler request handlers) _) _ (s', response) e
      (λ handler h e1.
        bind-elim (validate_schedule_request externals.is_platform handler request) _ (s', response)
          e1
          (λ checked v e2.
            bind-elim (schedule_checked externals handler request checked uuid created s) _
              (s', response) e2
              (λ (s1, r1) done last.
                let left : set_next_alarm end s1 ≡ s' = cc last in
                let same : r1 ≡ response = cc last in
                let (x, hit, own) = subst (IsRecorded checked.source_event_id r1) left (
                  schedule_checked-IsRecorded externals handler request checked uuid created s s1 r1
                    older done) in
                rw (h, v, schedule) (again handler checked x hit (own ∙ same)))))
  where
    again :
        (handler : Handler) (checked : Checked) (x : SourceRow)
        → find source_key checked.source_event_id s'.sources ≡ some x
        → x.response ≡ response
        → ◌>>=◌ {B = Scheduler × Response}
            (schedule_checked externals handler request checked uuid' created' s')
            (λ p. ok (set_next_alarm end' p.0, p.1))
          ≡ ok (set_next_alarm end' s', response)
    again handler checked x hit same = rw (hit, schedule_checked, same)
