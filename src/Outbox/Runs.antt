-- ===== src/Outbox/Runs.antt =====
-- The admissions one after the other, each in its own transaction.
use elmybot.Base.{ℕ, String, List, [], ◌∷◌, ok, err, inl, inr, Result-cases}
use elmybot.Outbox.Types.{Outbox, Intent, new_outbox}
use elmybot.Outbox.Admission.{allocate_sequence, enqueue}
use elmybot.Outbox.Accounts.{IsAccounted, new_outbox-IsAccounted}
use elmybot.Outbox.Budget.{allocate_sequence-IsAccounted, enqueue-IsAccounted}

pub data Request : Type 0 where
  allocates : String → String → ℕ → Request
  enqueues : Intent → Request

-- A request that fails leaves the tables as they were.
unfoldable pub perform : Request → Outbox → Outbox
unfolding allocate_sequence enqueue
perform (allocates feature candidate now) s = elim (allocate_sequence feature candidate now s) [
  | ok (c, s') ↦ s'
  | err e ↦ s
]
perform (enqueues intent) s = elim (enqueue intent s) [ ok s' ↦ s' | err e ↦ s ]

unfoldable pub perform_all : List Request → Outbox → Outbox
unfolding perform
perform_all [] s = s
perform_all (request ∷ requests) s = perform_all requests (perform request s)

perform-IsAccounted :
    (request : Request) (s : Outbox) → IsAccounted s → IsAccounted (perform request s)
unfolding perform
perform-IsAccounted (allocates feature candidate now) s v =
    elim (Result-cases (allocate_sequence feature candidate now s)) [
      | inl (e, failed) ↦ rw (failed, perform) v
      | inr ((c, s'), done) ↦
          rw (done, perform) (allocate_sequence-IsAccounted feature candidate now s c s' v done)
    ]
perform-IsAccounted (enqueues intent) s v = elim (Result-cases (enqueue intent s)) [
  | inl (e, failed) ↦ rw (failed, perform) v
  | inr (s', done) ↦ rw (done, perform) (enqueue-IsAccounted intent s s' v done)
]

pub perform_all-keeps :
    (requests : List Request) (s : Outbox) → IsAccounted s → IsAccounted (perform_all requests s)
unfolding perform_all
perform_all-keeps [] s v = v
perform_all-keeps (request ∷ requests) s v =
    perform_all-keeps requests (perform request s) (perform-IsAccounted request s v)

-- After any admissions to a new outbox, the budget row counts its rows, the bytes of their texts and
-- its partitions; there are at most 100 rows, 100 partitions and 100 streams, the bytes with 512 for
-- each row are at most 512 KiB, no operation stands twice in the outbox, and its rows stand in the
-- order of their relay turns, none later than the last turn given out.
pub perform_all-IsAccounted :
    (requests : List Request) → IsAccounted (perform_all requests new_outbox)
perform_all-IsAccounted requests = perform_all-keeps requests new_outbox new_outbox-IsAccounted
