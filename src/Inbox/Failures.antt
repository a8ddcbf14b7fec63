-- ===== src/Inbox/Failures.antt =====
-- `fail` and `complete`: retries, dead letters, and what a late answer does.
use elmybot.Base.{
  ℕ, le→leb, leb→le, leb-false→lt, Option-cases, Bool-cases, ◌||◌, ◌+◌, ◌-◌, ◌≤◌, ◌<◌, ◌≡◌, ◌≢◌,
  refl, ap, ◌∙◌, sym, inl, inr, ◌⊎◌, Bool, true, false, not, List, none, some, arith, map?, min,
  leb,
}
use elmybot.Sql.{find, find-update_self}
use elmybot.Inbox.Types.{Row, Message, Failure, retry_wait, dead_letter}
use elmybot.Inbox.Calls.{
  id_of, is_due, claimed, claim_next, complete, completed_row, is_final_failure, retry_delay_at,
  failed_row, fail, max_delivery_attempts,
}
use elmybot.Inbox.Invariant.{IsValid}
use elmybot.Inbox.Claims.{claim_next-takes}

pub retry_delay-bounds : (i : ℕ) → (30_000 ≤ retry_delay_at i) × (retry_delay_at i ≤ 1_800_000)
unfolding retry_delay_at
retry_delay-bounds i = ground arith

failed-id :
    (m : Message) (failure : Failure) (now : ℕ) (r : Row)
    → id_of (failed_row m failure now r) ≡ id_of r
unfolding failed_row
failed-id m failure now r = refl

completed-id : (now : ℕ) (r : Row) → id_of (completed_row now r) ≡ id_of r
unfolding completed_row
completed-id now r = refl

-- What a failure makes of a message's row: a dead letter without a next attempt exactly if the
-- error says that it is not retryable or the attempts are used up, and else a retry between half a
-- minute and half an hour later.
abbrev pub FailsTo : Message → Failure → ℕ → Row → Type 0
FailsTo m failure now r =
    (((failure.retryable ≡ some false) ⊎ (max_delivery_attempts ≤ m.attempts))
      × (r.status ≡ dead_letter)
      × (r.next_attempt_at_ms ≡ none))
    ⊎ ((failure.retryable ≢ some false)
        × (m.attempts < max_delivery_attempts)
        × (r.status ≡ retry_wait)
        × ((delay : ℕ) × (r.next_attempt_at_ms ≡ some (now + delay))
            × (30_000 ≤ delay)
            × (delay ≤ 1_800_000)))

refuses : (failure : Failure) → Bool
refuses failure = elim failure.retryable [ none ↦ false | some retryable ↦ not retryable ]

refuses_iff :
    (failure : Failure)
    → ((refuses failure ≡ true) × (failure.retryable ≡ some false))
      ⊎ ((refuses failure ≡ false) × (failure.retryable ≢ some false))
unfolding refuses
refuses_iff failure = elim (Option-cases failure.retryable) [
  | inl e ↦ inr (ground arith, ground arith)
  | inr (b, e) ↦ elim (Bool-cases b) [
    | inl t ↦ inr (ground arith, ground arith)
    | inr f ↦ inl (ground arith, ground arith)
  ]
]

final :
    (m : Message) (failure : Failure)
    → is_final_failure m failure ≡ (refuses failure || leb max_delivery_attempts m.attempts)
unfolding is_final_failure refuses
final m failure = refl

dead_row :
    (m : Message) (failure : Failure) (now : ℕ) (r : Row)
    → is_final_failure m failure ≡ true
    → ((failed_row m failure now r).status ≡ dead_letter)
      × ((failed_row m failure now r).next_attempt_at_ms ≡ none)
unfolding failed_row
dead_row m failure now r e = (rw e, rw e)

retried_row :
    (m : Message) (failure : Failure) (now : ℕ) (r : Row)
    → is_final_failure m failure ≡ false
    → ((failed_row m failure now r).status ≡ retry_wait)
      × ((failed_row m failure now r).next_attempt_at_ms
          ≡ some (now + retry_delay_at (min (m.attempts - 1) 3)))
unfolding failed_row
retried_row m failure now r e = (rw e, rw e)

pub failed_row-FailsTo :
    (m : Message) (failure : Failure) (now : ℕ) (r : Row)
    → FailsTo m failure now (failed_row m failure now r)
failed_row-FailsTo m failure now r = elim (refuses_iff failure) [
  | inl (t, e) ↦
      let stop : is_final_failure m failure ≡ true = ground (arith, final m failure, t) in
      inl (inl e, (dead_row m failure now r stop).0, (dead_row m failure now r stop).1)
  | inr (f, e) ↦ elim (Bool-cases (leb max_delivery_attempts m.attempts)) [
    | inl t ↦
        let stop : is_final_failure m failure ≡ true = ground (arith, final m failure, f, t) in
        let used : max_delivery_attempts ≤ m.attempts = leb→le 5 m.attempts t in
        inl (inr used, (dead_row m failure now r stop).0, (dead_row m failure now r stop).1)
    | inr t ↦
        let go : is_final_failure m failure ≡ false = ground (arith, final m failure, f, t) in
        let left : m.attempts < max_delivery_attempts = leb-false→lt 5 m.attempts t in
        let delay = retry_delay_at (min (m.attempts - 1) 3) in
        let bounds = retry_delay-bounds (min (m.attempts - 1) 3) in
        let row = retried_row m failure now r go in
        inr (e, left, row.0, (delay, row.1, bounds.0, bounds.1))
  ]
]

pub failed-attempts :
    (m : Message) (failure : Failure) (now at : ℕ) (r : Row)
    → (failed_row m failure at (claimed now r)).attempts ≡ r.attempts + 1
unfolding failed_row claimed
failed-attempts m failure now at r = refl

-- A message that is claimed and fails keeps its count of attempts, and is retried or given up.
pub claim_next-fail :
    (now at : ℕ) (rows rows' : List Row) (m : Message) (failure : Failure)
    → IsValid rows
    → claim_next now rows ≡ some (m, rows')
    → (r : Row) × (find id_of m.message_id (fail m failure at rows') ≡ some r)
      × (r.attempts ≡ m.attempts)
      × FailsTo m failure at r
unfolding fail
claim_next-fail now at rows rows' m failure v e =
    let (r, _, _, _, attempts, stored) = claim_next-takes now rows rows' m v e in
    (
      failed_row m failure at (claimed now r),
      find-update_self id_of (failed_row m failure at) (failed-id m failure at) m.message_id rows'
          ∙ ap (map? (failed_row m failure at)) stored,
      failed-attempts m failure now at r ∙ sym attempts,
      failed_row-FailsTo m failure at (claimed now r),
    )

due_by :
    (at delay : ℕ) (r : Row)
    → r.status ≡ retry_wait
    → r.next_attempt_at_ms ≡ some (at + delay)
    → delay ≤ 1_800_000
    → is_due (at + 1_800_000) r ≡ true
unfolding is_due
due_by at delay r wait next bound = rw (wait, next) (le→leb _ _ (omega arith))

-- An answer that comes late: a retryable failure of an attempt before the fifth that is reported
-- after the message was completed by another attempt puts the completed message back in line, due again within half an hour.
pub complete-fail_reopens :
    (m : Message) (failure : Failure) (now at : ℕ) (rows : List Row) (r : Row)
    → find id_of m.message_id rows ≡ some r
    → failure.retryable ≢ some false
    → m.attempts < max_delivery_attempts
    → (r' : Row) × (find id_of m.message_id (fail m failure at (complete m.message_id now rows))
        ≡ some r')
      × (is_due (at + 1_800_000) r' ≡ true)
unfolding complete fail
complete-fail_reopens m failure now at rows r e h left = (
  failed_row m failure at (completed_row now r),
  find-update_self id_of (failed_row m failure at) (failed-id m failure at) m.message_id
        (complete m.message_id now rows)
      ∙ ap (map? (failed_row m failure at)) (
          find-update_self id_of (completed_row now) (completed-id now) m.message_id rows
          ∙ ap (map? (completed_row now)) e),
  elim (failed_row-FailsTo m failure at (completed_row now r)) [
    | inl (inl no_retry, _, _) ↦ absurd (h no_retry)
    | inl (inr used, _, _) ↦ absurd (omega (arith, used, left))
    | inr (_, _, wait, (delay, next, _, bound)) ↦
        due_by at delay (failed_row m failure at (completed_row now r)) wait next bound
  ],
)
