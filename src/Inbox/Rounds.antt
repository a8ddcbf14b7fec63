-- ===== src/Inbox/Rounds.antt =====
-- A message that is alone in the inbox, and whose handler fails each time that it is claimed.
use elmybot.Base.{
  ℕ, ◌+◌, ◌≤◌, ◌<◌, ◌≡◌, ◌≢◌, refl, ap, subst, inl, inr, ◌⊎◌, true, false, List, [], ◌∷◌, none,
  some, arith, length, min, text_eq_refl, le→leb,
}
use elmybot.Sql.{select, update, first_by, order_by}
use elmybot.Inbox.Types.{Row, Message, Failure, pending, retry_wait, dead_letter, is_claimable}
use elmybot.Inbox.Calls.{is_due, next_due, claimed, row_to_message, claim_next, fail, failed_row}
use elmybot.Inbox.Failures.{failed_row-FailsTo, failed-attempts}

-- The rounds of a drain by the times of their claims and of their failures; where nothing is
-- claimed, nothing fails.
unfoldable pub fail_rounds : Failure → List (ℕ × ℕ) → List Row → List Row
unfolding claim_next fail
fail_rounds failure [] rows = rows
fail_rounds failure ((now, at) ∷ rounds) rows = elim (claim_next now rows) [
  | none ↦ fail_rounds failure rounds rows
  | some (m, rows') ↦ fail_rounds failure rounds (fail m failure at rows')
]

-- The first claim is not before `ready`, and each later one half an hour after the failure or later.
abbrev pub Timely : ℕ → List (ℕ × ℕ) → Type 0
Timely ready [] = Unit
Timely ready ((now, at) ∷ rounds) = (ready ≤ now) × Timely (at + 1_800_000) rounds

abbrev pub IsWaiting : ℕ → Row → Type 0
IsWaiting ready r =
    ((r.status ≡ pending) ⊎ (r.status ≡ retry_wait))
    × (t : ℕ) × (r.next_attempt_at_ms ≡ some t)
    × (t ≤ ready)

waiting-is_due : (ready now : ℕ) (r : Row) → IsWaiting ready r → ready ≤ now → is_due now r ≡ true
unfolding is_due is_claimable
waiting-is_due ready now r (inl s, t, e, before) h =
    rw (s, e) (le→leb _ _ (omega (arith, before, h)))
waiting-is_due ready now r (inr s, t, e, before) h =
    rw (s, e) (le→leb _ _ (omega (arith, before, h)))

claim_alone :
    (now : ℕ) (r : Row)
    → is_due now r ≡ true
    → claim_next now (r ∷ []) ≡ some (row_to_message (claimed now r), claimed now r ∷ [])
unfolding claim_next next_due select update first_by order_by
claim_alone now r due = rw (due, claim_next) (rw (text_eq_refl r.message_id) refl)

fail_alone :
    (m : Message) (failure : Failure) (at : ℕ) (r : Row)
    → m.message_id ≡ r.message_id
    → fail m failure at (r ∷ []) ≡ failed_row m failure at r ∷ []
unfolding fail update
fail_alone m failure at r same = rw same (rw (text_eq_refl r.message_id) refl)

claim_dead : (now : ℕ) (r : Row) → r.status ≡ dead_letter → claim_next now (r ∷ []) ≡ none
unfolding claim_next next_due select is_due is_claimable first_by order_by
claim_dead now r dead = rw (dead, claim_next) refl

dead_stays :
    (failure : Failure) (rounds : List (ℕ × ℕ)) (r : Row)
    → r.status ≡ dead_letter
    → fail_rounds failure rounds (r ∷ []) ≡ r ∷ []
unfolding fail_rounds
dead_stays failure [] r dead = refl
dead_stays failure ((now, at) ∷ rounds) r dead =
    rw (claim_dead now r dead, fail_rounds) (dead_stays failure rounds r dead)

-- One round, of a message that is due.
abbrev failed_once : Failure → ℕ → ℕ → Row → Row
failed_once failure now at r =
    failed_row (row_to_message (claimed now r)) failure at (claimed now r)

fail_rounds-step :
    (failure : Failure) (now at ready : ℕ) (rounds : List (ℕ × ℕ)) (r : Row)
    → IsWaiting ready r
    → ready ≤ now
    → fail_rounds failure ((now, at) ∷ rounds) (r ∷ [])
      ≡ fail_rounds failure rounds (failed_once failure now at r ∷ [])
unfolding fail_rounds
fail_rounds-step failure now at ready rounds r w h =
    rw (claim_alone now r (waiting-is_due ready now r w h), fail_rounds)
      (ap (fail_rounds failure rounds)
        (fail_alone (row_to_message (claimed now r)) failure at (claimed now r) refl))

-- What the rounds leave of a message that had `n` attempts.
abbrev pub IsRetriedTo : ℕ → List Row → Type 0
IsRetriedTo n rows =
    (r : Row) × (rows ≡ r ∷ [])
    × (r.attempts ≡ min 5 n)
    × (n < 5 → (r.status ≡ pending) ⊎ (r.status ≡ retry_wait))
    × (5 ≤ n → (r.status ≡ dead_letter) × (r.next_attempt_at_ms ≡ none))

message-attempts : (now : ℕ) (r : Row) → (row_to_message (claimed now r)).attempts ≡ r.attempts + 1
unfolding row_to_message claimed
message-attempts now r = refl

-- A message is alone in the inbox and waits with fewer than five attempts. The first round is at its
-- time or later, each other one half an hour or more after the failure before, and each claim fails
-- with an error that may be retried. After `n` rounds the message has `n` attempts more, but never
-- more than five; below five it waits again, and from the fifth on it is a dead letter.
pub fail_rounds-IsRetriedTo :
    (failure : Failure) (rounds : List (ℕ × ℕ)) (ready : ℕ) (r : Row)
    → failure.retryable ≢ some false
    → IsWaiting ready r
    → r.attempts < 5
    → Timely ready rounds
    → IsRetriedTo (r.attempts + length rounds) (fail_rounds failure rounds (r ∷ []))
unfolding fail_rounds
fail_rounds-IsRetriedTo failure [] ready r h w few timely =
    (r, refl, omega (arith, few), (λ _. w.0), λ many. absurd (omega (arith, few, many)))
fail_rounds-IsRetriedTo failure ((now, at) ∷ rounds) ready r h w few timely =
    let m = row_to_message (claimed now r) in
    let r1 = failed_once failure now at r in
    let step = fail_rounds-step failure now at ready rounds r w timely.0 in
    let n = message-attempts now r in
    let a : r1.attempts ≡ r.attempts + 1 = failed-attempts m failure now at r in
    rw step (elim (failed_row-FailsTo m failure at (claimed now r)) [
      | inl (inl e, _, _) ↦ absurd (h e)
      | inl (inr used, dead, never) ↦ (
        r1,
        dead_stays failure rounds r1 dead,
        omega (arith, a, n, used, few),
        (λ small. absurd (omega (arith, n, used, small))),
        λ _. (dead, never),
      )
      | inr (_, left, wait, (delay, next, _, bound)) ↦
          let k =
            fail_rounds-IsRetriedTo failure rounds (at + 1_800_000) r1 h
              (inr wait, at + delay, next, omega (arith, bound)) (omega (arith, a, n, left))
              timely.1 in
          subst (λ i. IsRetriedTo i (fail_rounds failure rounds (r1 ∷ []))) (omega (arith, a)) k
    ])
