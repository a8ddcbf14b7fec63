-- ===== src/Outbox/Partitions.antt =====
-- The partitions under `enqueueStateEventIntent`.
use elmybot.Base.{
  ℕ, suc, ◌≡◌, sym, ap, ◌∙◌, String, inl, inr, Bool, ◌||◌, ◌+◌, ◌*◌, Option, none, ok, ◌>>◌,
  throw_if, length, ltb, leb, bind-ok, ok-value, bind-elim, Option-cases,
}
use elmybot.Sql.{find, has_key, any_row}
use elmybot.Outbox.Types.{
  SourceStream, Outbox, Intent, partition_capacity, sequence_exhausted, outbox_capacity,
  stream_blocked, duplicate_operation,
}
use elmybot.Outbox.Admission.{
  enqueue, max_partitions, max_safe_integer, open_stream, next_turn, insert_intent, note_interest,
  max_rows, max_bytes, is_blocked, route_id, operation_id,
}

open_stream-partitions :
    (route : String) (s : Outbox) (stream : SourceStream) (s' : Outbox)
    → open_stream route s ≡ ok (stream, s')
    → s'.partitions ≡ s.partitions
unfolding open_stream
open_stream-partitions route s stream s' h = elim (Option-cases (find route_id route s.streams)) [
  | inr (known, hit) ↦
      let h = rw (open_stream, hit) at h in
      let (_, _, h) = bind-ok (throw_if (is_blocked known) stream_blocked) _ _ h in
      ap (λ (k : SourceStream × Outbox). k.1.partitions) (sym (ok-value h))
  | inl miss ↦
      let h = rw (open_stream, miss) at h in
      let (_, _, h) =
        bind-ok (throw_if (leb max_partitions (length s.streams)) partition_capacity) _ _ h in
      ap (λ (k : SourceStream × Outbox). k.1.partitions) (sym (ok-value h))
]

next_turn-partitions :
    (publication : Option Bool) (s : Outbox) (turn : ℕ) (s' : Outbox)
    → next_turn publication s ≡ ok (turn, s')
    → s'.partitions ≡ s.partitions
unfolding next_turn
next_turn-partitions publication s turn s' h =
    let (_, _, h) =
      bind-ok (throw_if (ltb max_safe_integer (suc s.schedule.turn)) sequence_exhausted) _ _ h in
    ap (λ (k : ℕ × Outbox). k.1.partitions) (sym (ok-value h))

insert_intent-partitions :
    (intent : Intent) (turn : ℕ) (s s' : Outbox)
    → insert_intent intent turn s ≡ ok s'
    → s'.partitions ≡ s.partitions
unfolding insert_intent
insert_intent-partitions intent turn s s' h =
    let (_, _, h) =
      bind-ok
        (throw_if (any_row (has_key operation_id intent.operation_id) s.rows) duplicate_operation) _
        _ h in
    ap (λ (k : Outbox). k.partitions) (sym (ok-value h))

pub enqueue-partitions :
    (intent : Intent) (s s' : Outbox) → enqueue intent s ≡ ok s' → s'.partitions ≡ s.partitions
unfolding enqueue note_interest
enqueue-partitions intent s s' h =
    let full =
      throw_if
        (leb max_rows s.budget.rows
          || ltb max_bytes (s.budget.bytes + intent.json_bytes + suc s.budget.rows * 512))
        outbox_capacity in
    bind-elim (full >> open_stream intent.stream_route_id s) _ s' h (λ (stream, s1) opening h.
      let (_, _, opened) = bind-ok full _ _ opening in
      let s2 = note_interest intent s1 in
      let exhausted =
        throw_if (ltb max_safe_integer (suc stream.interest_epoch)) sequence_exhausted in
      bind-elim (exhausted >> next_turn none s2) _ s' h (λ (turn, s3) turning h.
        let (_, _, given) = bind-ok exhausted _ _ turning in
        insert_intent-partitions intent turn s3 s' h
        ∙ next_turn-partitions none s2 turn s3 given
        ∙ open_stream-partitions intent.stream_route_id s stream s1 opened))
