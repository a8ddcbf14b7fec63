-- ===== src/Outbox/Accounts.antt =====
-- What the budget row of the outbox stands for: the counts, the limits and the order of the turns.
use elmybot.Base.{
  ℕ, suc, ◌+◌, ◌*◌, ◌≤◌, ◌<◌, ◌≡◌, refl, ap, ◌∙◌, String, inl, inr, Bool, List, [], ◌∷◌, ◌++◌,
  is_some, arith, All, All-append, Bool-cases, length, length-append, if◌then◌else◌,
}
use elmybot.Sql.{update, find, has_key, upsert, Distinct, update-All, any_row-find}
use elmybot.Outbox.Types.{Partition, OutboxRow, OutboxBudget, Outbox, new_outbox}
use elmybot.Outbox.Admission.{max_rows, max_bytes, max_partitions, partition_key, operation_id}

unfoldable pub total_bytes : List OutboxRow → ℕ
total_bytes [] = 0
total_bytes (row ∷ rows) = row.intent_bytes + total_bytes rows

-- The rows stand in the order of their turns, and no turn is later than the last one given out.
unfoldable pub Queue : ℕ → List OutboxRow → Type 0
Queue turn [] = Unit
Queue turn (x ∷ xs) =
    (x.relay_turn ≤ turn) × All (λ y. x.relay_turn < y.relay_turn) xs × Queue turn xs

unfoldable pub RowsValid : ℕ → OutboxBudget → List OutboxRow → Type 0
RowsValid turn budget rows =
    (budget.rows ≡ length rows)
    × (budget.bytes ≡ total_bytes rows)
    × (budget.rows ≤ max_rows)
    × (budget.bytes + budget.rows * 512 ≤ max_bytes)
    × Distinct operation_id rows
    × Queue turn rows

unfoldable pub PartitionsValid : OutboxBudget → List Partition → Type 0
PartitionsValid budget partitions =
    (budget.partitions ≡ length partitions) × (budget.partitions ≤ max_partitions)

unfoldable pub IsAccounted : Outbox → Type 0
unfolding RowsValid PartitionsValid
IsAccounted s =
    RowsValid s.schedule.turn s.budget s.rows
    × PartitionsValid s.budget s.partitions
    × (length s.streams ≤ max_partitions)

pub new_outbox-IsAccounted : IsAccounted new_outbox
unfolding IsAccounted RowsValid PartitionsValid total_bytes Queue
new_outbox-IsAccounted =
    ((refl, refl, omega arith, omega arith, tt, tt), (refl, omega arith), omega arith)

pub length-update {ℓ} :
    {A : Type ℓ} (p : A → Bool) (f : A → A) (xs : List A) → length (update p f xs) ≡ length xs
unfolding update
length-update p f [] = refl
length-update p f (x ∷ xs) = ap suc (length-update p f xs)

pub total_bytes-update :
    (p : OutboxRow → Bool) (f : OutboxRow → OutboxRow)
    → ((x : OutboxRow) → (f x).intent_bytes ≡ x.intent_bytes)
    → (rows : List OutboxRow) → total_bytes (update p f rows) ≡ total_bytes rows
unfolding total_bytes update
total_bytes-update p f keep [] = refl
total_bytes-update p f keep (x ∷ xs) = elim (Bool-cases (p x)) [
  | inl e ↦ rw (e, keep x, total_bytes-update p f keep xs)
  | inr e ↦ rw (e, total_bytes-update p f keep xs)
]

pub total_bytes-append :
    (xs : List OutboxRow) (y : OutboxRow)
    → total_bytes (xs ++ y ∷ []) ≡ total_bytes xs + y.intent_bytes
unfolding total_bytes
total_bytes-append [] y = omega arith
total_bytes-append (x ∷ xs) y = omega (arith, total_bytes-append xs y)

pub Queue-update :
    (turn : ℕ) (p : OutboxRow → Bool) (f : OutboxRow → OutboxRow)
    → ((x : OutboxRow) → (f x).relay_turn ≡ x.relay_turn)
    → (rows : List OutboxRow) → Queue turn rows
    → Queue turn (update p f rows)
unfolding Queue update
Queue-update turn p f keep [] q = tt
Queue-update turn p f keep (x ∷ xs) q = elim (Bool-cases (p x)) [
  | inl e ↦ rw e (rw (keep x) q.0, rw (keep x) later, Queue-update turn p f keep xs q.2)
  | inr e ↦ rw e (q.0, later, Queue-update turn p f keep xs q.2)
]
  where
    later : All (λ y. x.relay_turn < y.relay_turn) (update p f xs)
    later = update-All (λ y. x.relay_turn < y.relay_turn) p f xs (λ y _ h. rw (keep y) h) q.1

pub Queue-append :
    (turn : ℕ) (xs : List OutboxRow) (y : OutboxRow)
    → Queue turn xs
    → y.relay_turn ≡ suc turn
    → Queue (suc turn) (xs ++ y ∷ [])
unfolding Queue
Queue-append turn [] y q e = (omega (arith, e), tt, tt)
Queue-append turn (x ∷ xs) y q e = (
  omega (arith, q.0),
  All-append (λ z. x.relay_turn < z.relay_turn) xs (y ∷ []) q.1 (omega (arith, q.0, e), tt),
  Queue-append turn xs y q.2 e,
)

-- What a sequence that is recorded adds to the partitions.
pub length-upsert :
    (feature : String) (f : Partition → Partition) (y : Partition) (ps : List Partition)
    → length (upsert (has_key partition_key feature) f y ps)
      ≡ length ps + (if is_some (find partition_key feature ps) then 0 else 1)
unfolding upsert
length-upsert feature f y ps = elim (Bool-cases (is_some (find partition_key feature ps))) [
  | inl known ↦
      rw (any_row-find partition_key feature ps, known)
        (length-update (has_key partition_key feature) f ps ∙ omega arith)
  | inr new ↦ rw (any_row-find partition_key feature ps, new) (length-append ps (y ∷ []))
]
