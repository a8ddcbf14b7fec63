-- ===== src/Inbox/Claims.antt =====
-- `claimNext`: which message it takes, and that no message is taken twice under one lease.
use elmybot.Base.{
  ℕ, String, ◌+◌, ◌≤◌, ◌<◌, ◌≡◌, ◌≢◌, refl, ap, ◌∙◌, inl, inr, true, false, List, none, some, arith,
  All, All-map_imp, ◌⊎◌, map?, Option-cases, if◌then◌else◌,
}
use elmybot.Sql.{
  find, select, Distinct-find, select-All, select-holds, first_by-All, first_by-least,
  first_by-none, select_all→All, find-update_self, find-update, Respects,
}
use elmybot.Inbox.Types.{Row, Message, pending, attempting, retry_wait, is_claimable}
use elmybot.Inbox.Calls.{
  id_of, is_due, before, claimed, row_to_message, next_due, claim_next, lease_expired, recovered,
  recover_expired_attempts, attempt_lease_ms,
}
use elmybot.Inbox.Invariant.{IsValid, claim-IsValid, recover-IsValid, claim_next-eq-some}

claimed-id : (now : ℕ) (r : Row) → id_of (claimed now r) ≡ id_of r
unfolding claimed
claimed-id now r = refl

before-Respects : Respects before (λ (r : Row). r.received_at_ms)
unfolding before
before-Respects = ((λ x y h. ground arith), (λ x y h. ground arith))

-- The next due row is due, stands in the table, and was received no later than any other due row.
pub next_due-least :
    (now : ℕ) (rows : List Row) (r : Row)
    → IsValid rows
    → next_due now rows ≡ some r
    → (is_due now r ≡ true)
      × (find id_of r.message_id rows ≡ some r)
      × All (λ (x : Row). is_due now x ≡ true → r.received_at_ms ≤ x.received_at_ms) rows
unfolding next_due
next_due-least now rows r v e = (
  first_by-All (λ x. is_due now x ≡ true) before (select (is_due now) rows)
      (select-holds (is_due now) rows) e,
  first_by-All (λ x. find id_of x.message_id rows ≡ some x) before (select (is_due now) rows)
      (select-All (λ x. find id_of x.message_id rows ≡ some x) (is_due now) rows
        (Distinct-find id_of rows v.distinct))
      e,
  select_all→All (λ (x : Row). r.received_at_ms ≤ x.received_at_ms) (is_due now) rows
      (first_by-least before (λ (x : Row). x.received_at_ms) before-Respects
        (select (is_due now) rows) e),
)

row_to_message-id : (r : Row) → (row_to_message r).message_id ≡ r.message_id
unfolding row_to_message
row_to_message-id r = refl

claimed_message :
    (now : ℕ) (r : Row) (m : Message)
    → m ≡ row_to_message (claimed now r)
    → (m.message_id ≡ r.message_id) × (m.attempts ≡ r.attempts + 1)
unfolding row_to_message claimed
claimed_message now r m e = ground arith

pub claim_next-takes :
    (now : ℕ) (rows rows' : List Row) (m : Message)
    → IsValid rows
    → claim_next now rows ≡ some (m, rows')
    → (r : Row) × (find id_of m.message_id rows ≡ some r)
      × (is_due now r ≡ true)
      × All (λ (x : Row). is_due now x ≡ true → r.received_at_ms ≤ x.received_at_ms) rows
      × (m.attempts ≡ r.attempts + 1)
      × (find id_of m.message_id rows' ≡ some (claimed now r))
claim_next-takes now rows rows' m v e =
    let (r, hit, message, stored) = claim_next-eq-some now rows rows' m e in
    let (due, found, least) = next_due-least now rows r v hit in
    let (id, attempts) = claimed_message now r m message in
    (
      r,
      rw id found,
      due,
      least,
      attempts,
      rw (id, stored)
          (find-update_self id_of (claimed now) (claimed-id now) r.message_id rows
            ∙ ap (map? (claimed now)) found),
    )

-- The columns that a claim sets.
abbrev pub IsAttempted : ℕ → Row → Row → Type 0
IsAttempted now r r' =
    (r'.status ≡ attempting)
    × (r'.attempts ≡ r.attempts + 1)
    × (r'.last_attempt_at_ms ≡ some now)
    × (r'.next_attempt_at_ms ≡ none)
    × (r'.payload_json ≡ r.payload_json)

claimed-IsAttempted : (now : ℕ) (r : Row) → IsAttempted now r (claimed now r)
unfolding claimed
claimed-IsAttempted now r = (refl, refl, refl, refl, refl)

-- From a valid table, a successful claim takes a due message that was received no later than any other due message, and
-- stores it with its payload as attempting, with one more attempt, the time of the claim as that of
-- its last attempt, and no time for a next one.
pub claim_next-oldest :
    (now : ℕ) (rows rows' : List Row) (m : Message)
    → IsValid rows
    → claim_next now rows ≡ some (m, rows')
    → (r : Row) × (find id_of m.message_id rows ≡ some r)
      × (is_due now r ≡ true)
      × All (λ (x : Row). is_due now x ≡ true → r.received_at_ms ≤ x.received_at_ms) rows
      × (m.attempts ≡ r.attempts + 1)
      × (r' : Row) × (find id_of m.message_id rows' ≡ some r')
      × IsAttempted now r r'
claim_next-oldest now rows rows' m v e =
    let (r, found, due, least, attempts, stored) = claim_next-takes now rows rows' m v e in
    (r, found, due, least, attempts, claimed now r, stored, claimed-IsAttempted now r)

unclaimed : (now : ℕ) (rows : List Row) → claim_next now rows ≡ none → next_due now rows ≡ none
unfolding claim_next
unclaimed now rows e = elim (Option-cases (next_due now rows)) [
  | inl miss ↦ miss
  | inr (r, hit) ↦ absurd (ground arith)
]

-- The message is not waiting to be handled, or its time has not come.
abbrev pub Waits : ℕ → Row → Type 0
Waits now r =
    ((r.status ≡ pending) ⊎ (r.status ≡ retry_wait))
    → (t : ℕ) → r.next_attempt_at_ms ≡ some t
    → now < t

not_due-Waits : (now : ℕ) (r : Row) → is_due now r ≡ false → Waits now r
unfolding is_due is_claimable
not_due-Waits now r h (inl s) t e = ground (arith, h, s, e)
not_due-Waits now r h (inr s) t e = ground (arith, h, s, e)

-- If nothing is claimed, nothing is due.
pub claim_next-none :
    (now : ℕ) (rows : List Row) → claim_next now rows ≡ none → All (Waits now) rows
unfolding next_due
claim_next-none now rows e =
    All-map_imp (λ x. is_due now x ≡ false) (Waits now) (not_due-Waits now) rows
      (first_by-none before (is_due now) rows (unclaimed now rows e))

lease_holds :
    (now later : ℕ) (r : Row)
    → later < now + attempt_lease_ms
    → (lease_expired later (claimed now r) ≡ false) × ((t : ℕ) → is_due t (claimed now r) ≡ false)
unfolding lease_expired claimed is_due
lease_holds now later r h = (ground arith, λ t. refl)

recovered-id : (now : ℕ) (r : Row) → id_of (recovered now r) ≡ id_of r
unfolding recovered
recovered-id now r = refl

-- Recovery leaves a row whose lease has not run out as it is.
recover-held :
    (later : ℕ) (k : String) (rows : List Row) (r : Row)
    → find id_of k rows ≡ some r
    → lease_expired later r ≡ false
    → find id_of k (recover_expired_attempts later rows) ≡ some r
unfolding recover_expired_attempts
recover-held later k rows r e h =
    find-update id_of (lease_expired later) (recovered later) (recovered-id later) k rows
    ∙ ap (map? (λ x. if lease_expired later x then recovered later x else x)) e
    ∙ ap (λ b. some (if b then recovered later r else r)) h

-- While the lease of a claimed message runs, recovery and a second claim give another message.
pub claim_exclusive :
    (now later again : ℕ) (rows rows' rows'' : List Row) (m m' : Message)
    → IsValid rows
    → later < now + attempt_lease_ms
    → claim_next now rows ≡ some (m, rows')
    → claim_next again (recover_expired_attempts later rows') ≡ some (m', rows'')
    → m.message_id ≢ m'.message_id
claim_exclusive now later again rows rows' rows'' m m' v running first second same =
    let (r, _, _, _, _, stored) = claim_next-takes now rows rows' m v first in
    let v' = recover-IsValid later rows' (claim-IsValid now rows rows' m first v) in
    let (r', found, due, _, _, _) =
      claim_next-takes again (recover_expired_attempts later rows') rows'' m' v' second in
    let lease = lease_holds now later r running in
    let held = recover-held later m.message_id rows' (claimed now r) stored lease.0 in
    let found' : find id_of m.message_id (recover_expired_attempts later rows') ≡ some r' =
      rw same found in
    let one : claimed now r ≡ r' = cc (held, found') in
    let idle : is_due again r' ≡ false = rw (← one) (lease.1 again) in cc (due, idle)
