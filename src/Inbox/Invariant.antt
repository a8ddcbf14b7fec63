-- ===== src/Inbox/Invariant.antt =====
-- The invariant of the inbox: one row to a message ID, and the times that each status carries.
use elmybot.Base.{
  ℕ, String, ◌⊎◌, ◌<◌, ◌≡◌, refl, inl, inr, Bool, true, List, [], ◌∷◌, ◌++◌, none, some, arith, ok,
  All, All-append, is_some, Option-cases,
}
use elmybot.Sql
use elmybot.Sql.{
  find, Distinct, select-All, delete-All, delete-Distinct, update-All, update-Distinct,
  insert-Distinct, has_key,
}
use elmybot.Inbox.Types.{
  Status, pending, attempting, retry_wait, completed, dead_letter, Row, Validated, Message, Receipt,
  Failure,
}
use elmybot.Inbox.Calls.{
  id_of, prune, new_row, admit, lease_expired, recovered, recover_expired_attempts, next_due,
  claimed, claim_next, completed_row, complete, failed_row, fail, row_to_message,
}

-- A message that waits has a time to be tried at, one that is tried has a lease and no such time,
-- and one that is done has neither.
abbrev pub Shape : Status → Row → Type 0
Shape pending r = is_some r.next_attempt_at_ms ≡ true
Shape retry_wait r = is_some r.next_attempt_at_ms ≡ true
Shape attempting r =
    (is_some r.last_attempt_at_ms ≡ true) × (r.next_attempt_at_ms ≡ none) × (0 < r.attempts)
Shape completed r = (is_some r.completed_at_ms ≡ true) × (r.next_attempt_at_ms ≡ none)
Shape dead_letter r = r.next_attempt_at_ms ≡ none

abbrev pub HasShape : Row → Type 0
HasShape r = Shape r.status r

pub record IsValid (rows : List Row) : Type 0 where
  pub distinct : Distinct id_of rows
  pub shapes : All HasShape rows

pub prune-IsValid : (now : ℕ) (rows : List Row) → IsValid rows → IsValid (prune now rows)
unfolding prune
prune-IsValid now rows v = record {
  distinct = delete-Distinct id_of _ rows v.distinct;
  shapes = delete-All HasShape _ rows v.shapes;
}

-- An UPDATE that keeps the IDs and gives each row that it takes a shape.
update-IsValid :
    (p : Row → Bool) (f : Row → Row) (rows : List Row)
    → ((r : Row) → id_of (f r) ≡ id_of r)
    → ((r : Row) → HasShape (f r))
    → IsValid rows
    → IsValid (Sql.update p f rows)
update-IsValid p f rows keep shape v = record {
  distinct = update-Distinct id_of p f keep rows v.distinct;
  shapes = update-All HasShape p f rows (λ r _ _. shape r) v.shapes;
}

pub recover-IsValid :
    (now : ℕ) (rows : List Row) → IsValid rows → IsValid (recover_expired_attempts now rows)
unfolding recover_expired_attempts
recover-IsValid now rows v =
    update-IsValid (lease_expired now) (recovered now) rows (λ r. refl) (λ r. refl) v

claimed-keeps : (now : ℕ) (r : Row) → id_of (claimed now r) ≡ id_of r
unfolding claimed
claimed-keeps now r = refl

claimed-HasShape : (now : ℕ) (r : Row) → HasShape (claimed now r)
unfolding claimed
claimed-HasShape now r = (refl, refl, omega arith)

-- A claim takes the next due row, and returns it as it is then stored.
pub claim_next-eq-some :
    (now : ℕ) (rows rows' : List Row) (m : Message)
    → claim_next now rows ≡ some (m, rows')
    → (r : Row) × (next_due now rows ≡ some r)
      × (m ≡ row_to_message (claimed now r))
      × (rows' ≡ Sql.update (has_key id_of r.message_id) (claimed now) rows)
unfolding claim_next
claim_next-eq-some now rows rows' m e = elim (Option-cases (next_due now rows)) [
  | inl miss ↦ absurd (ground arith)
  | inr (r, hit) ↦ (r, hit, ground arith, ground arith)
]

pub claim-IsValid :
    (now : ℕ) (rows rows' : List Row) (m : Message)
    → claim_next now rows ≡ some (m, rows')
    → IsValid rows
    → IsValid rows'
claim-IsValid now rows rows' m e v =
    let (r, hit, message, stored) = claim_next-eq-some now rows rows' m e in
    rw stored (
      update-IsValid (has_key id_of r.message_id) (claimed now) rows (λ x. claimed-keeps now x)
        (claimed-HasShape now) v)

pub complete-IsValid :
    (id : String) (now : ℕ) (rows : List Row) → IsValid rows → IsValid (complete id now rows)
unfolding complete
complete-IsValid id now rows v =
    update-IsValid (has_key id_of id) (completed_row now) rows (λ r. refl) (λ r. (refl, refl)) v

failed-HasShape :
    (m : Message) (failure : Failure) (now : ℕ) (r : Row) → HasShape (failed_row m failure now r)
unfolding failed_row
failed-HasShape m failure now r = ground arith

pub fail-IsValid :
    (m : Message) (failure : Failure) (now : ℕ) (rows : List Row)
    → IsValid rows
    → IsValid (fail m failure now rows)
unfolding fail
fail-IsValid m failure now rows v =
    update-IsValid (has_key id_of m.message_id) (failed_row m failure now) rows (λ r. refl)
      (failed-HasShape m failure now) v

-- The rows that `admit` leaves: the old ones that have not expired, and the new one if its ID is
-- not among them.
pub admit-eq-ok :
    (m : Validated) (fingerprint broadcaster : String) (now : ℕ) (rows rows' : List Row)
    (receipt : Receipt)
    → admit m fingerprint broadcaster now rows ≡ ok (rows', receipt)
    → (rows' ≡ prune now rows)
      ⊎ ((find id_of m.message_id (prune now rows) ≡ none)
          × (rows' ≡ prune now rows ++ new_row m fingerprint broadcaster now ∷ []))
unfolding admit
admit-eq-ok m fingerprint broadcaster now rows rows' receipt e =
    elim (Option-cases (find id_of m.message_id (prune now rows))) [
      | inl miss ↦ inr (miss, ground arith)
      | inr (r, hit) ↦ inl (ground arith)
    ]

new_row-HasShape :
    (m : Validated) (fingerprint broadcaster : String) (now : ℕ)
    → (id_of (new_row m fingerprint broadcaster now) ≡ m.message_id)
      × HasShape (new_row m fingerprint broadcaster now)
unfolding new_row
new_row-HasShape m fingerprint broadcaster now = (refl, refl)

pub admit-IsValid :
    (m : Validated) (fingerprint broadcaster : String) (now : ℕ) (rows rows' : List Row)
    (receipt : Receipt)
    → admit m fingerprint broadcaster now rows ≡ ok (rows', receipt)
    → IsValid rows
    → IsValid rows'
admit-IsValid m fingerprint broadcaster now rows rows' receipt e v =
    let kept = prune-IsValid now rows v in
    let new = new_row-HasShape m fingerprint broadcaster now in
    elim (admit-eq-ok m fingerprint broadcaster now rows rows' receipt e) [
      | inl same ↦ rw same kept
      | inr (fresh, more) ↦ rw more (record {
        distinct =
            insert-Distinct id_of (prune now rows) (new_row m fingerprint broadcaster now)
              kept.distinct (rw new.0 fresh);
        shapes =
            All-append HasShape (prune now rows) (new_row m fingerprint broadcaster now ∷ [])
              kept.shapes (new.1, tt);
      })
    ]
