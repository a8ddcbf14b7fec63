-- ===== src/Scheduler/Once.antt =====
-- No occurrence is delivered twice in the loop of an alarm.
use elmybot.Base.{
  ℕ, suc, String, ◌≡◌, refl, subst, inl, inr, Bool, true, false, List, [], ◌∷◌, Option, none, some,
  arith, Result, ok, err, All, All-map_imp, Bool-cases, Option-cases, if◌then◌else◌, ◌≢◌, not,
}
use elmybot.Scheduler.Types.{Job, Scheduler, SchedulerError, Handler}
use elmybot.Scheduler.Storage.{delivered_occurrence, record_delivered_occurrence, delivery_key}
use elmybot.Scheduler.Requests.{Externals}
use elmybot.Scheduler.Occurrences.{claim_occurrence}
use elmybot.Base.{zero, ◌&&◌}
use elmybot.AlarmDrain.{alarm_drain_time_remaining}
use elmybot.Scheduler.Validate.{handler_of}
use elmybot.Scheduler.Alarm.{
  Turn, Attempt, dropped, delivered, threw, attempt, Step, breaks, goes, throws, complete_with,
  settle, after_claim, job_turn, due_job, alarm_turn,
}
use elmybot.Scheduler.Runs.{
  step_of-holds, complete_with-holds, StepHolds, Step-cases, alarm_turn-holds, IsQuiet,
}
use elmybot.Scheduler.Retention.{
  IsDelivered, IsRequest, request-IsDelivered, own-IsDelivered, record-IsDelivered_self,
}

-- Whether an attempt came to a delivery.
abbrev has_delivered : Attempt → Bool
has_delivered (delivered s) = true
has_delivered other = false

abbrev claimed_delivers :
    Externals → Turn → Option Handler → Result SchedulerError (Option (Job × Scheduler)) → Bool
claimed_delivers externals turn handler (err e) = false
claimed_delivers externals turn handler (ok none) = false
claimed_delivers externals turn handler (ok (some (claimed, s))) =
    has_delivered (attempt externals turn handler claimed s)

-- Whether the round for a job hands it to its handler, which delivers it.
unfoldable job_delivers : Externals → Turn → Job → Scheduler → Bool
job_delivers externals turn job s =
    not (delivered_occurrence (delivery_key externals.decimal job) s)
    && claimed_delivers externals turn (handler_of job.kind turn.handlers)
        (claim_occurrence externals.fits job turn.now_ms s)

-- The occurrence that a round delivers.
unfoldable turn_delivers : Externals → ℕ → ℕ → Turn → Scheduler → Option String
unfolding job_delivers
turn_delivers externals started processed turn s =
    if alarm_drain_time_remaining started processed turn.check_ms
    then elim (due_job turn.now_ms s) [
      | none ↦ none
      | some job ↦
          if job_delivers externals turn job s
          then some (delivery_key externals.decimal job)
          else none
    ]
    else none

abbrev cons? : Option String → List String → List String
cons? none keys = keys
cons? (some key) keys = key ∷ keys

-- The occurrences that the handlers deliver in the rounds of a loop, in their order.
unfoldable pub delivered_keys : Externals → ℕ → ℕ → ℕ → (ℕ → Turn) → Scheduler → List String
unfolding turn_delivers
delivered_keys externals started zero processed turns s = []
delivered_keys externals started (suc rounds) processed turns s =
    cons? (turn_delivers externals started processed (turns processed) s)
      (elim (alarm_turn externals started processed (turns processed) s) [
        | breaks ↦ []
        | throws e s' ↦ []
        | goes s' ↦ delivered_keys externals started rounds (suc processed) turns s'
      ])

-- No key comes twice.
abbrev pub NoRepeat : List String → Type 0
NoRepeat [] = Unit
NoRepeat (k ∷ ks) = All (λ j. j ≢ k) ks × NoRepeat ks

module _ (externals : Externals) where
  -- What a delivery has in its ledger when the round ends.
  settle-marks :
      (turn : Turn) (handler : Option Handler) (key : String) (claimed : Job) (a : Attempt)
      → has_delivered a ≡ true
      → StepHolds (IsDelivered key) (settle externals turn handler key claimed a)
  unfolding settle
  settle-marks turn handler key claimed (dropped s) e = absurd (cc e)
  settle-marks turn handler key claimed (threw failure s) e = absurd (cc e)
  settle-marks turn handler key claimed (delivered s) e =
      let marked = record_delivered_occurrence key turn.delivered_ms s in
      let holds = record-IsDelivered_self key turn.delivered_ms s in
      step_of-holds externals (IsDelivered key) IsRequest (own-IsDelivered externals key)
        (request-IsDelivered externals key) marked (complete_with externals handler claimed marked)
        (λ s' done.
          complete_with-holds externals (IsDelivered key) IsRequest (own-IsDelivered externals key)
            (request-IsDelivered externals key) handler claimed marked s' done holds)
        holds

  after_claim-marks :
      (turn : Turn) (handler : Option Handler) (key : String) (s : Scheduler)
      (r : Result SchedulerError (Option (Job × Scheduler)))
      → claimed_delivers externals turn handler r ≡ true
      → StepHolds (IsDelivered key) (after_claim externals turn handler key s r)
  unfolding after_claim
  after_claim-marks turn handler key s (err e) h = absurd (cc h)
  after_claim-marks turn handler key s (ok none) h = absurd (cc h)
  after_claim-marks turn handler key s (ok (some (claimed, s'))) h =
      settle-marks turn handler key claimed (attempt externals turn handler claimed s') h

  -- An occurrence is delivered only if it is not in the ledger.
  abbrev Marks : String → Scheduler → Step → Type 0
  Marks key s x = (delivered_occurrence key s ≡ false) × StepHolds (IsDelivered key) x

  job_turn-Marks :
      (turn : Turn) (job : Job) (s : Scheduler)
      → job_delivers externals turn job s ≡ true
      → Marks (delivery_key externals.decimal job) s (job_turn externals turn job s)
  unfolding job_turn job_delivers
  job_turn-Marks turn job s h =
      let key = delivery_key externals.decimal job in
      let handler = handler_of job.kind turn.handlers in
      elim (Bool-cases (delivered_occurrence key s)) [
        | inl e ↦ absurd (ground (arith, h, e))
        | inr e ↦ (
          e,
          rw e (
              after_claim-marks turn handler key s
                (claim_occurrence externals.fits job turn.now_ms s) (ground (arith, h, e))),
        )
      ]

  alarm_turn-Marks :
      (started processed : ℕ) (turn : Turn) (s : Scheduler) (key : String)
      → turn_delivers externals started processed turn s ≡ some key
      → Marks key s (alarm_turn externals started processed turn s)
  unfolding alarm_turn turn_delivers
  alarm_turn-Marks started processed turn s key h =
      elim (Bool-cases (alarm_drain_time_remaining started processed turn.check_ms)) [
        | inr late ↦ absurd (ground (arith, h, late))
        | inl early ↦ elim (Option-cases (due_job turn.now_ms s)) [
          | inl miss ↦ absurd (ground (arith, h, early, miss))
          | inr (job, hit) ↦ elim (Bool-cases (job_delivers externals turn job s)) [
            | inr not_it ↦ absurd (ground (arith, h, early, hit, not_it))
            | inl hands ↦
                let same : delivery_key externals.decimal job ≡ key =
                  ground (arith, h, early, hit, hands) in
                rw (early, hit)
                  (subst (λ k. Marks k s (job_turn externals turn job s)) same
                    (job_turn-Marks turn job s hands))
          ]
        ]
      ]

  -- Keys that were not in the ledger before a round, if they were not after it.
  fresh_before :
      (started processed : ℕ) (turn : Turn) (s s' : Scheduler)
      → IsQuiet IsRequest turn
      → alarm_turn externals started processed turn s ≡ goes s'
      → (k : String) → delivered_occurrence k s' ≡ false
      → delivered_occurrence k s ≡ false
  fresh_before started processed turn s s' q go k f = elim (Bool-cases (delivered_occurrence k s)) [
    | inr e ↦ e
    | inl e ↦
        let later = subst (StepHolds (IsDelivered k)) go (
          alarm_turn-holds externals (IsDelivered k) IsRequest (own-IsDelivered externals k)
            (request-IsDelivered externals k) started processed turn q s e) in
        absurd (ground (arith, later, f))
  ]

  -- What a loop may deliver that begins with this storage.
  abbrev AreFresh : Scheduler → List String → Type 0
  AreFresh s keys = NoRepeat keys × All (λ k. delivered_occurrence k s ≡ false) keys

  cons?-AreFresh :
      (o : Option String) (keys : List String) (s s' : Scheduler)
      → ((k : String) → o ≡ some k → (delivered_occurrence k s ≡ false) × IsDelivered k s')
      → ((k : String) → delivered_occurrence k s' ≡ false → delivered_occurrence k s ≡ false)
      → AreFresh s' keys
      → AreFresh s (cons? o keys)
  cons?-AreFresh none keys s s' new old f = (
    f.0,
    All-map_imp (λ k. delivered_occurrence k s' ≡ false) (λ k. delivered_occurrence k s ≡ false) old
        keys f.1,
  )
  cons?-AreFresh (some key) keys s s' new old f =
      let (absent, marked) = new key refl in
      (
        (
          All-map_imp (λ k. delivered_occurrence k s' ≡ false) (λ k. k ≢ key)
              (λ k e same.
                absurd
                  (ground (arith, marked, subst (λ j. delivered_occurrence j s' ≡ false) same e)))
              keys f.1,
          f.0,
        ),
        (
          absent,
          All-map_imp (λ k. delivered_occurrence k s' ≡ false)
              (λ k. delivered_occurrence k s ≡ false) old keys f.1,
        ),
      )

  last-AreFresh :
      (o : Option String) (s : Scheduler)
      → ((k : String) → o ≡ some k → delivered_occurrence k s ≡ false)
      → AreFresh s (cons? o [])
  last-AreFresh none s new = (tt, tt)
  last-AreFresh (some key) s new = ((tt, tt), (new key refl, tt))

  -- In the loop of an alarm, while only requests run beside it, no occurrence is delivered twice, and
  -- none that the ledger had before.
  pub delivered_keys-AreFresh :
      (started rounds processed : ℕ) (turns : ℕ → Turn) (s : Scheduler)
      → ((n : ℕ) → IsQuiet IsRequest (turns n))
      → let keys = delivered_keys externals started rounds processed turns s in
        NoRepeat keys × All (λ k. delivered_occurrence k s ≡ false) keys
  unfolding delivered_keys
  delivered_keys-AreFresh started zero processed turns s q = (tt, tt)
  delivered_keys-AreFresh started (suc rounds) processed turns s q =
      let turn = turns processed in
      let o = turn_delivers externals started processed turn s in
      let absent =
        λ (k : String) (e : o ≡ some k). (alarm_turn-Marks started processed turn s k e).0 in
      elim (Step-cases (alarm_turn externals started processed turn s)) [
        | inl stop ↦ rw (stop, delivered_keys) (last-AreFresh o s absent)
        | inr (inl (s', go)) ↦
            rw (go, delivered_keys)
              (cons?-AreFresh o (delivered_keys externals started rounds (suc processed) turns s') s
                s'
                (λ k e.
                  let m = alarm_turn-Marks started processed turn s k e in
                  (m.0, subst (StepHolds (IsDelivered k)) go m.1))
                (fresh_before started processed turn s s' (q processed) go)
                (delivered_keys-AreFresh started rounds (suc processed) turns s' q))
        | inr (inr (e, s', left)) ↦ rw (left, delivered_keys) (last-AreFresh o s absent)
      ]
