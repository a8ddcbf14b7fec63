-- ===== src/Inbox/Admission.antt =====
-- `enqueue`: a message is stored once, and a refused request changes no row.
use elmybot.Base.{
  ℕ, ◌+◌, ◌<◌, ◌≡◌, refl, ap, ◌∙◌, inl, inr, true, false, List, [], ◌∷◌, ◌++◌, some, arith, Result,
  ok, err, String, Option-cases, or_else, text_eq_refl, leb,
}
use elmybot.Sql.{find, find-append, find-delete-some, find_self}
use elmybot.Inbox.Types.{
  Row, Inbox, Validated, Externals, Registry, Input, InboxError, Receipt, pending,
}
use elmybot.Inbox.Validate.{validate_message}
use elmybot.Inbox.Calls.{
  id_of, prune, new_row, admit, after_admit, enqueue_validated, enqueue, completed_retention_ms,
}

-- A transaction that succeeds leaves its rows and its receipt.
after_admit-eq-ok :
    (later : ℕ) (s s' : Inbox) (receipt : Receipt) (r : Result InboxError (List Row × Receipt))
    → after_admit later s r ≡ (s', ok receipt)
    → (rows : List Row) × (r ≡ ok (rows, receipt)) × (s'.rows ≡ rows)
unfolding after_admit
after_admit-eq-ok later s s' receipt (err e) h = absurd (ground arith)
after_admit-eq-ok later s s' receipt (ok (rows, other)) h = (rows, ground arith, ground arith)

after_admit-eq-err :
    (later : ℕ) (s s' : Inbox) (x : InboxError) (r : Result InboxError (List Row × Receipt))
    → after_admit later s r ≡ (s', err x)
    → s' ≡ s
unfolding after_admit
after_admit-eq-err later s s' x (err e) h = ground arith
after_admit-eq-err later s s' x (ok (rows, other)) h = absurd (ground arith)

refused :
    (externals : Externals) (input : Input) (now later : ℕ) (s s' : Inbox) (x : InboxError)
    (r : Result InboxError Validated)
    → enqueue_validated externals input now later s r ≡ (s', err x)
    → s'.rows ≡ s.rows
unfolding enqueue_validated
refused externals input now later s s' x (err e) h = ground arith
refused externals input now later s s' x (ok m) h =
    let fingerprint = externals.digest m.message_type m.subscription_kind m.payload_json in
    let broadcaster = or_else input.broadcaster_user_id "" in
    ap (λ (t : Inbox). t.rows)
      (after_admit-eq-err later (record s { alarm = some (now + 1000) }) s' x
        (admit m fingerprint broadcaster now s.rows) h)

-- An error of any kind, a conflict in the transaction included, leaves the rows as they were.
pub enqueue-refused :
    (externals : Externals) (registry : Registry) (input : Input) (now later : ℕ) (s s' : Inbox)
    (x : InboxError)
    → enqueue externals registry input now later s ≡ (s', err x)
    → s'.rows ≡ s.rows
unfolding enqueue
enqueue-refused externals registry input now later s s' x h =
    refused externals input now later s s' x (validate_message externals registry input) h

-- A new message is found under its ID.
admit-accepted :
    (m : Validated) (fingerprint broadcaster : String) (now : ℕ) (rows rows' : List Row)
    (receipt : Receipt)
    → admit m fingerprint broadcaster now rows ≡ ok (rows', receipt)
    → receipt.accepted ≡ true
    → find id_of m.message_id rows' ≡ some (new_row m fingerprint broadcaster now)
unfolding admit new_row
admit-accepted m fingerprint broadcaster now rows rows' receipt e a =
    elim (Option-cases (find id_of m.message_id (prune now rows))) [
      | inl miss ↦
          let stored : rows' ≡ prune now rows ++ new_row m fingerprint broadcaster now ∷ [] =
            ground arith in
          rw stored (
            find-append id_of m.message_id (prune now rows)
              (new_row m fingerprint broadcaster now ∷ [])
            ∙ rw miss (find_self id_of m.message_id (new_row m fingerprint broadcaster now) refl))
      | inr (r, hit) ↦ absurd (ground arith)
    ]

-- The message again, while its row has not expired.
admit_again :
    (m : Validated) (fingerprint broadcaster : String) (now again : ℕ) (rows : List Row)
    → find id_of m.message_id rows ≡ some (new_row m fingerprint broadcaster now)
    → again < now + completed_retention_ms
    → admit m fingerprint broadcaster again rows
      ≡ ok (prune again rows, record { accepted = false; duplicate = true; status = pending })
unfolding admit new_row prune
admit_again m fingerprint broadcaster now again rows e h =
    let kept : find id_of m.message_id (prune again rows)
        ≡ some (new_row m fingerprint broadcaster now) =
      find-delete-some id_of m.message_id (λ r. leb r.expires_at_ms again) rows
        (new_row m fingerprint broadcaster now) e (ground arith) in
    rw (kept, admit) (rw (text_eq_refl fingerprint))

stored_again :
    (externals : Externals) (input : Input) (now later again last : ℕ) (s s' : Inbox)
    (receipt : Receipt) (r : Result InboxError Validated)
    → enqueue_validated externals input now later s r ≡ (s', ok receipt)
    → receipt.accepted ≡ true
    → again < now + completed_retention_ms
    → ((enqueue_validated externals input again last s' r).0.rows ≡ prune again s'.rows)
      × ((enqueue_validated externals input again last s' r).1
          ≡ ok (record { accepted = false; duplicate = true; status = pending }))
unfolding enqueue_validated
stored_again externals input now later again last s s' receipt (err e) h a t = absurd (ground arith)
stored_again externals input now later again last s s' receipt (ok m) h a t =
    let fingerprint = externals.digest m.message_type m.subscription_kind m.payload_json in
    let broadcaster = or_else input.broadcaster_user_id "" in
    let (rows, admitted, same) =
      after_admit-eq-ok later (record s { alarm = some (now + 1000) }) s' receipt
        (admit m fingerprint broadcaster now s.rows) h in
    let found = admit-accepted m fingerprint broadcaster now s.rows rows receipt admitted a in
    let found' : find id_of m.message_id s'.rows ≡ some (new_row m fingerprint broadcaster now) =
      rw same found in
    let second = admit_again m fingerprint broadcaster now again s'.rows found' t in
    (rw (second, after_admit), rw (second, after_admit))

-- A request that was accepted and comes again within the retention time is reported as a duplicate
-- that waits, and changes the table only by dropping rows that have expired.
pub enqueue_again :
    (externals : Externals) (registry : Registry) (input : Input) (now later again last : ℕ)
    (s s' : Inbox) (receipt : Receipt)
    → enqueue externals registry input now later s ≡ (s', ok receipt)
    → receipt.accepted ≡ true
    → again < now + completed_retention_ms
    → ((enqueue externals registry input again last s').0.rows ≡ prune again s'.rows)
      × ((enqueue externals registry input again last s').1
          ≡ ok (record { accepted = false; duplicate = true; status = pending }))
unfolding enqueue
enqueue_again externals registry input now later again last s s' receipt =
    stored_again externals input now later again last s s' receipt
      (validate_message externals registry input)
