-- ===== src/Publications/Capacity.antt =====
-- The weight of the ledger's rows under its statements.
use elmybot.Base.{
  ℕ, ◌+◌, ◌≤◌, ◌≡◌, refl, inl, inr, Bool, false, List, [], ◌∷◌, ◌++◌, arith, Bool-cases,
  if◌then◌else◌,
}
use elmybot.Sql.{update, delete, select}
use elmybot.Publications.Types.{Publication}
use elmybot.Publications.Ledger.{
  prune, is_overdue, given_up, is_outdated, is_waiting, Checked, at_capacity, new_publication,
}
use elmybot.Base.{length}
use elmybot.Sql.{count}
use elmybot.Publications.Ledger.{
  pending_rows, pending_bytes, max_receipt_rows, max_pending_rows, max_pending_bytes,
}

-- The sum of a weight of the rows.
abbrev total : (Publication → ℕ) → List Publication → ℕ
total w [] = 0
total w (x ∷ xs) = w x + total w xs

module _ (w : Publication → ℕ) where
  total-append : (xs ys : List Publication) → total w (xs ++ ys) ≡ total w xs + total w ys
  total-append [] ys = omega arith
  total-append (x ∷ xs) ys = omega (arith, total-append xs ys)

  total-update :
      (p : Publication → Bool) (f : Publication → Publication)
      → ((x : Publication) → w (f x) ≤ w x)
      → (xs : List Publication) → total w (update p f xs) ≤ total w xs
  unfolding update
  total-update p f h [] = omega arith
  total-update p f h (x ∷ xs) = elim (Bool-cases (p x)) [
    | inl e ↦ rw e (omega (arith, h x, total-update p f h xs))
    | inr e ↦ rw e (omega (arith, total-update p f h xs))
  ]

  total-delete :
      (p : Publication → Bool) (xs : List Publication) → total w (delete p xs) ≤ total w xs
  unfolding delete select
  total-delete p [] = omega arith
  total-delete p (x ∷ xs) = elim (Bool-cases (p x)) [
    | inl e ↦ rw e (omega (arith, total-delete p xs))
    | inr e ↦ rw e (omega (arith, total-delete p xs))
  ]

abbrev one : Publication → ℕ
one x = 1

abbrev waits : Publication → ℕ
waits x = if is_waiting x.state then 1 else 0

abbrev weighs : Publication → ℕ
weighs x = if is_waiting x.state then x.pending_payload_bytes else 0

length-total : (rows : List Publication) → length rows ≡ total one rows
length-total [] = refl
length-total (x ∷ xs) = omega (arith, length-total xs)

pending_rows-total : (rows : List Publication) → pending_rows rows ≡ total waits rows
unfolding pending_rows count
pending_rows-total [] = refl
pending_rows-total (x ∷ xs) = elim (Bool-cases (is_waiting x.state)) [
  | inl e ↦ rw e (omega (arith, pending_rows-total xs))
  | inr e ↦ rw e (omega (arith, pending_rows-total xs))
]

pending_bytes-total : (rows : List Publication) → pending_bytes rows ≡ total weighs rows
unfolding pending_bytes
pending_bytes-total [] = refl
pending_bytes-total (x ∷ xs) = elim (Bool-cases (is_waiting x.state)) [
  | inl e ↦ rw e (omega (arith, pending_bytes-total xs))
  | inr e ↦ rw e (omega (arith, pending_bytes-total xs))
]

-- The limits of the ledger.
abbrev pub Fits : List Publication → Type 0
Fits rows =
    (length rows ≤ max_receipt_rows)
    × (pending_rows rows ≤ max_pending_rows)
    × (pending_bytes rows ≤ max_pending_bytes)

-- Rows that weigh no more fit, too.
abbrev IsLighter : List Publication → List Publication → Type 0
IsLighter rows rows' =
    (total one rows' ≤ total one rows)
    × (total waits rows' ≤ total waits rows)
    × (total weighs rows' ≤ total weighs rows)

lighter-Fits : (rows rows' : List Publication) → IsLighter rows rows' → Fits rows → Fits rows'
lighter-Fits rows rows' (a, b, c) (x, y, z) = (
  omega (arith, a, x, length-total rows, length-total rows'),
  omega (arith, b, y, pending_rows-total rows, pending_rows-total rows'),
  omega (arith, c, z, pending_bytes-total rows, pending_bytes-total rows'),
)

-- A change that closes a row, or leaves its state and its payload.
abbrev pub Lightens : (Publication → Publication) → Type 0
Lightens f = (x : Publication) → (waits (f x) ≤ waits x) × (weighs (f x) ≤ weighs x)

update-IsLighter :
    (p : Publication → Bool) (f : Publication → Publication)
    → Lightens f
    → (rows : List Publication) → IsLighter rows (update p f rows)
update-IsLighter p f h rows = (
  total-update one p f (λ x. omega arith) rows,
  total-update waits p f (λ x. (h x).0) rows,
  total-update weighs p f (λ x. (h x).1) rows,
)

pub update-Fits :
    (p : Publication → Bool) (f : Publication → Publication)
    → Lightens f
    → (rows : List Publication) → Fits rows
    → Fits (update p f rows)
update-Fits p f h rows = lighter-Fits rows (update p f rows) (update-IsLighter p f h rows)

pub prune-Fits : (now : ℕ) (rows : List Publication) → Fits rows → Fits (prune now rows)
unfolding prune given_up is_waiting
prune-Fits now rows fit =
    let changed = update (is_overdue now) (given_up now) rows in
    lighter-Fits changed (delete (is_outdated now) changed)
      (
        total-delete one (is_outdated now) changed,
        total-delete waits (is_outdated now) changed,
        total-delete weighs (is_outdated now) changed,
      )
      (update-Fits (is_overdue now) (given_up now) (λ x. (omega arith, omega arith)) rows fit)

pub insert-Fits :
    (c : Checked) (now : ℕ) (rows : List Publication)
    → at_capacity c.pending_bytes rows ≡ false
    → Fits (rows ++ new_publication c now ∷ [])
unfolding at_capacity new_publication is_waiting
insert-Fits c now rows free =
    let more = new_publication c now ∷ [] in
    (
      ground
          (arith, free, length-total rows, length-total (rows ++ more), total-append one rows more),
      ground (
        arith,
        free,
        pending_rows-total rows,
        pending_rows-total (rows ++ more),
        total-append waits rows more,
      ),
      ground (
        arith,
        free,
        pending_bytes-total rows,
        pending_bytes-total (rows ++ more),
        total-append weighs rows more,
      ),
    )
