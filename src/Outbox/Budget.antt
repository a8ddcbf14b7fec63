-- ===== src/Outbox/Budget.antt =====
-- The operations of the outbox, and the accounts.
use elmybot.Base.{
  ℕ, suc, ◌+◌, ◌*◌, ◌≤◌, ◌≡◌, refl, sym, ap, subst, ◌∙◌, String, inl, inr, Bool, true, false, not,
  ◌&&◌, ◌||◌, [], ◌∷◌, ◌++◌, Option, none, some, is_some, ok, ◌>>=◌, throw_if, arith, Option-cases,
  bind-elim, bind-ok, ok-value, throw_if-passed, ◌>>◌, length, length-append, ltb, leb,
  if◌then◌else◌, Result,
}
use elmybot.Sql.{find, any_row, has_key, update-Distinct, insert-Distinct, any_row-find}
use elmybot.Outbox.Types.{
  rate_limited, partition_capacity, outbox_capacity, stream_blocked, sequence_exhausted,
  duplicate_operation, OutboxBudget, SourceStream, Outbox, Intent, Correlation,
}
use elmybot.Outbox.Admission.{
  max_rows, max_bytes, max_partitions, partition_key, operation_id, route_id, record_sequence,
  allocate_sequence, next_turn, open_stream, is_woken, woken, note_interest, new_row, insert_intent,
  enqueue, new_stream, admissions_per_second, max_safe_integer, recent_admissions, stored_sequence,
  is_blocked,
}
use elmybot.Outbox.Accounts.{
  RowsValid, PartitionsValid, IsAccounted, length-update, total_bytes-update, total_bytes-append,
  Queue-update, Queue-append, length-upsert,
}

throw_if-ok {ℓ κ} :
    {E : Type ℓ} {B : Type κ} (b : Bool) (e : E) (m : Result E B) (r : B)
    → throw_if b e >>= (λ _. m) ≡ ok r
    → (b ≡ false) × (m ≡ ok r)
throw_if-ok true e m r h = absurd (cc h)
throw_if-ok false e m r h = (refl, h)

ok-second {ℓ κ μ} :
    {E : Type ℓ} {A : Type κ} {B : Type μ} {a c : A} {b d : B}
    → Path (Result E (A × B)) (ok (a, b)) (ok (c, d))
    → b ≡ d
ok-second h = cc h

is_some-false {ℓ} : {A : Type ℓ} (o : Option A) → is_some o ≡ false → o ≡ none
is_some-false none h = refl
is_some-false (some x) h = absurd (cc h)

record_sequence-IsAccounted :
    (feature token : String) (sequence now : ℕ) (s : Outbox)
    → IsAccounted s
    → not (is_some (find partition_key feature s.partitions))
        && leb max_partitions s.budget.partitions
      ≡ false
    → IsAccounted (
        record_sequence feature token sequence now
          (is_some (find partition_key feature s.partitions))
          s)
unfolding IsAccounted RowsValid PartitionsValid record_sequence
record_sequence-IsAccounted feature token sequence now s v room = (
  v.0,
  (
    rw
        (length-upsert feature (λ p. record p { operation_sequence = sequence })
          (record { partition_key = feature; scope_token = token; operation_sequence = sequence })
          s.partitions)
        (ap (λ n. n + (if is_some (find partition_key feature s.partitions) then 0 else 1)) v.1.0),
    ground (arith, room, v.1.1),
  ),
  v.2,
)

pub allocate_sequence-IsAccounted :
    (feature candidate : String) (now : ℕ) (s : Outbox) (c : Correlation) (s' : Outbox)
    → IsAccounted s
    → allocate_sequence feature candidate now s ≡ ok (c, s')
    → IsAccounted s'
unfolding allocate_sequence
allocate_sequence-IsAccounted feature candidate now s c s' v h =
    let partition = find partition_key feature s.partitions in
    let rate =
      throw_if (leb admissions_per_second (length (recent_admissions now s.budget.rate)))
        rate_limited in
    let full =
      throw_if (not (is_some partition) && leb max_partitions s.budget.partitions)
        partition_capacity in
    let exhausted =
      throw_if (ltb max_safe_integer (suc (stored_sequence feature s.partitions)))
        sequence_exhausted in
    let (_, tests, h) = bind-ok (rate >> full >> exhausted) _ (c, s') h in
    let (_, tests, _) = bind-ok (rate >> full) _ _ tests in
    let (_, _, room) = bind-ok rate _ _ tests in
    subst IsAccounted (ok-second h)
      (record_sequence-IsAccounted feature _ _ now s v (throw_if-passed _ _ _ room))

open_stream-keeps :
    (route : String) (s : Outbox) (stream : SourceStream) (s' : Outbox)
    → IsAccounted s
    → open_stream route s ≡ ok (stream, s')
    → IsAccounted s' × (s'.budget ≡ s.budget)
unfolding open_stream IsAccounted
open_stream-keeps route s stream s' v h = elim (Option-cases (find route_id route s.streams)) [
  | inr (known, hit) ↦
      let h = rw (open_stream, hit) at h in
      let (_, h) = throw_if-ok (is_blocked known) stream_blocked _ _ h in
      let same : s ≡ s' = ok-second h in
      (subst IsAccounted same v, ap (λ (k : Outbox). k.budget) (sym same))
  | inl miss ↦
      let h = rw (open_stream, miss) at h in
      let (room, h) =
        throw_if-ok (leb max_partitions (length s.streams)) partition_capacity _ _ h in
      let same : record s { streams = s.streams ++ new_stream route ∷ [] } ≡ s' = ok-second h in
      (
        subst IsAccounted same
            (v.0, v.1, rw (length-append s.streams (new_stream route ∷ [])) (ground (arith, room))),
        ap (λ (k : Outbox). k.budget) (sym same),
      )
]

note_interest-IsAccounted :
    (intent : Intent) (s : Outbox) → IsAccounted s → IsAccounted (note_interest intent s)
unfolding note_interest IsAccounted RowsValid woken
note_interest-IsAccounted intent s ((n, b, few, small, d, q), ps, ss) = (
  (
    rw (length-update (is_woken intent) (woken intent) s.rows) n,
    rw (total_bytes-update (is_woken intent) (woken intent) (λ x. refl) s.rows) b,
    few,
    small,
    update-Distinct operation_id (is_woken intent) (woken intent) (λ x. refl) s.rows d,
    Queue-update s.schedule.turn (is_woken intent) (woken intent) (λ x. refl) s.rows q,
  ),
  ps,
  rw (length-update (has_key route_id intent.stream_route_id) _ s.streams) ss,
)

-- What the admission tests of the budget.
HasRoom : Intent → OutboxBudget → Type 0
HasRoom intent budget =
    (suc budget.rows ≤ max_rows)
    × (budget.bytes + intent.json_bytes + suc budget.rows * 512 ≤ max_bytes)

insert_intent-IsAccounted :
    (intent : Intent) (streak : ℕ) (s s' : Outbox)
    → IsAccounted s
    → HasRoom intent s.budget
    → insert_intent intent
        (suc s.schedule.turn)
        (record s { schedule = record { turn = suc s.schedule.turn; publication_streak = streak } })
      ≡ ok s'
    → IsAccounted s'
unfolding insert_intent IsAccounted RowsValid PartitionsValid new_row HasRoom
insert_intent-IsAccounted intent streak s s' ((n, b, few, small, d, q), ps, ss) room h =
    let (new, h) =
      throw_if-ok (any_row (has_key operation_id intent.operation_id) s.rows) duplicate_operation _
        _ h in
    let row = new_row intent (suc s.schedule.turn) in
    let unknown : find operation_id intent.operation_id s.rows ≡ none =
      is_some-false _ (sym (any_row-find operation_id intent.operation_id s.rows) ∙ new) in
    subst IsAccounted (ok-value h) (
      (
        rw (length-append s.rows (row ∷ [])) (omega (arith, n)),
        rw (total_bytes-append s.rows row) (ap (λ k. k + intent.json_bytes) b),
        room.0,
        room.1,
        insert-Distinct operation_id s.rows row d unknown,
        Queue-append s.schedule.turn s.rows row q refl,
      ),
      ps,
      ss,
    )

room_of :
    (intent : Intent) (s : Outbox)
    → leb max_rows s.budget.rows
        || ltb max_bytes (s.budget.bytes + intent.json_bytes + suc s.budget.rows * 512)
      ≡ false
    → HasRoom intent s.budget
unfolding HasRoom
room_of intent s h = (ground (arith, h), ground (arith, h))

pub enqueue-IsAccounted :
    (intent : Intent) (s s' : Outbox) → IsAccounted s → enqueue intent s ≡ ok s' → IsAccounted s'
unfolding enqueue next_turn note_interest
enqueue-IsAccounted intent s s' v h =
    let full =
      throw_if
        (leb max_rows s.budget.rows
          || ltb max_bytes (s.budget.bytes + intent.json_bytes + suc s.budget.rows * 512))
        outbox_capacity in
    bind-elim (full >> open_stream intent.stream_route_id s) _ s' h (λ (stream, s1) opening h.
      let (_, room, opened) = bind-ok full _ _ opening in
      let (v1, same) = open_stream-keeps intent.stream_route_id s stream s1 v opened in
      let s2 = note_interest intent s1 in
      let exhausted =
        throw_if (ltb max_safe_integer (suc stream.interest_epoch)) sequence_exhausted in
      bind-elim (exhausted >> next_turn none s2) _ s' h (λ (turn, s3) turning h.
        let (_, _, given) = bind-ok exhausted _ _ turning in
        let (_, given) =
          throw_if-ok (ltb max_safe_integer (suc s2.schedule.turn)) sequence_exhausted _ _ given in
        insert_intent-IsAccounted intent s2.schedule.publication_streak s2 s'
          (note_interest-IsAccounted intent s1 v1)
          (subst (HasRoom intent) (sym same) (room_of intent s (throw_if-passed _ _ _ room)))
          (subst (λ (k : ℕ × Outbox). insert_intent intent k.0 k.1 ≡ ok s') (sym (ok-value given))
            h)))
