-- ===== src/Outbox/Sequences.antt =====
-- The numbers that a partition is given, and its token.
use elmybot.Base.{
  ℕ, suc, ◌≤◌, ◌<◌, ◌≡◌, refl, sym, ap, ◌∙◌, subst, String, inl, inr, Bool, true, not, ◌&&◌, List,
  [], ◌∷◌, none, some, is_some, ok, ◌>>◌, throw_if, arith, length, ltb, leb, bind-ok, ok-value,
  Bool-cases, Option-cases, Result-cases, text_eq, text_eq_refl, text_eq→≡, first_some, ◌≢◌,
}
use elmybot.Sql.{find, has_key, upsert, any_row, first-upsert, find-update_other, find-append}
use elmybot.Outbox.Types.{
  Partition, Outbox, Correlation, rate_limited, partition_capacity, sequence_exhausted,
}
use elmybot.Outbox.Admission.{
  allocate_sequence, enqueue, record_sequence, stored_sequence, partition_key, recent_admissions,
  admissions_per_second, max_partitions, max_safe_integer,
}
use elmybot.Outbox.Runs.{Request, allocates, enqueues, perform, perform_all}
use elmybot.Outbox.Partitions.{enqueue-partitions}

-- The partition has been given `n`, under a token.
Given : String → String → ℕ → Outbox → Type 0
Given feature token n s =
    (p : Partition) × (find partition_key feature s.partitions ≡ some p)
    × (p.scope_token ≡ token)
    × (n ≤ p.operation_sequence)

-- What the partition holds after a number is recorded.
recorded :
    (feature token : String) (sequence now : ℕ) (known : Bool) (s : Outbox)
    → find partition_key feature (record_sequence feature token sequence now known s).partitions
      ≡ some (elim (find partition_key feature s.partitions) [
        | none ↦ record {
          partition_key = feature;
          scope_token = token;
          operation_sequence = sequence;
        }
        | some p ↦ record p { operation_sequence = sequence }
      ])
unfolding record_sequence find
recorded feature token sequence now known s =
    first-upsert (has_key partition_key feature) (λ p. record p { operation_sequence = sequence })
      (λ p. refl)
      (record { partition_key = feature; scope_token = token; operation_sequence = sequence })
      s.partitions (text_eq_refl feature)

-- The numbers of the other partitions do not change.
kept :
    (feature other token : String) (sequence now : ℕ) (known : Bool) (s : Outbox) (p : Partition)
    → feature ≢ other
    → find partition_key feature s.partitions ≡ some p
    → find partition_key feature (record_sequence other token sequence now known s).partitions
      ≡ some p
unfolding record_sequence upsert
kept feature other token sequence now known s p ne e =
    let new : Partition = record {
      partition_key = other;
      scope_token = token;
      operation_sequence = sequence;
    } in
    elim (Bool-cases (any_row (has_key partition_key other) s.partitions)) [
      | inl row ↦ rw row (
          find-update_other partition_key (λ q. record q { operation_sequence = sequence })
            (λ q. refl) feature other s.partitions ne
          ∙ e)
      | inr no_row ↦ rw no_row (
          find-append partition_key feature s.partitions (new ∷ [])
          ∙ ap (λ o. first_some o (find partition_key feature (new ∷ []))) e)
    ]

-- What an allocation answers and writes.
allocated :
    (feature candidate : String) (now : ℕ) (s : Outbox) (c : Correlation) (s' : Outbox)
    → allocate_sequence feature candidate now s ≡ ok (c, s')
    → (c.operation_sequence ≡ suc (stored_sequence feature s.partitions))
      × (c.scope_token ≡ elim (find partition_key feature s.partitions) [
        | none ↦ candidate
        | some p ↦ p.scope_token
      ])
      × (record_sequence feature c.scope_token c.operation_sequence now
            (is_some (find partition_key feature s.partitions))
            s
          ≡ s')
unfolding allocate_sequence
allocated feature candidate now s c s' h =
    let (_, _, h) =
      bind-ok
        (throw_if (leb admissions_per_second (length (recent_admissions now s.budget.rate)))
            rate_limited
          >> throw_if
              (not (is_some (find partition_key feature s.partitions))
                && leb max_partitions s.budget.partitions)
              partition_capacity
          >> throw_if (ltb max_safe_integer (suc (stored_sequence feature s.partitions)))
              sequence_exhausted)
        _ (c, s') h in
    let same = ok-value h in
    (
      ap (λ (k : Correlation × Outbox). k.0.operation_sequence) (sym same),
      ap (λ (k : Correlation × Outbox). k.0.scope_token) (sym same),
      subst
          (λ (k : Correlation × Outbox).
            record_sequence feature k.0.scope_token k.0.operation_sequence now
              (is_some (find partition_key feature s.partitions)) s
            ≡ k.1)
          same refl,
    )

stored :
    (feature : String) (s : Outbox) (p : Partition)
    → find partition_key feature s.partitions ≡ some p
    → stored_sequence feature s.partitions ≡ p.operation_sequence
unfolding stored_sequence
stored feature s p e = rw (stored_sequence, e) refl

-- An allocation for a partition that has been given `n` gives a later number, under its token.
allocated-later :
    (feature candidate token : String) (now n : ℕ) (s : Outbox) (c : Correlation) (s' : Outbox)
    → Given feature token n s
    → allocate_sequence feature candidate now s ≡ ok (c, s')
    → (n < c.operation_sequence) × (c.scope_token ≡ token)
unfolding Given
allocated-later feature candidate token now n s c s' (p, e, owner, old) h =
    let (next, holds, _) = allocated feature candidate now s c s' h in
    let held : c.scope_token ≡ p.scope_token = rw e at holds in
    (omega (arith, next, stored feature s p e, old), held ∙ owner)

-- What an allocation answers is what its partition holds afterwards.
allocated-Given :
    (feature candidate : String) (now : ℕ) (s : Outbox) (c : Correlation) (s' : Outbox)
    → allocate_sequence feature candidate now s ≡ ok (c, s')
    → Given feature c.scope_token c.operation_sequence s'
unfolding Given
allocated-Given feature candidate now s c s' h =
    let (next, holds, same) = allocated feature candidate now s c s' h in
    let after =
      recorded feature c.scope_token c.operation_sequence now
        (is_some (find partition_key feature s.partitions)) s in
    subst (Given feature c.scope_token c.operation_sequence) same
      (elim (Option-cases (find partition_key feature s.partitions)) [
        | inl miss ↦ (
          record {
            partition_key = feature;
            scope_token = c.scope_token;
            operation_sequence = c.operation_sequence;
          },
          after ∙ ap some (rw miss),
          refl,
          omega arith,
        )
        | inr (p, hit) ↦ (
          record p { operation_sequence = c.operation_sequence },
          after ∙ ap some (rw hit),
          sym (rw hit at holds),
          omega arith,
        )
      ])

allocate_again :
    (feature candidate token : String) (now n : ℕ) (s : Outbox) (c : Correlation) (s' : Outbox)
    → Given feature token n s
    → allocate_sequence feature candidate now s ≡ ok (c, s')
    → Given feature token n s'
unfolding Given
allocate_again feature candidate token now n s c s' g h =
    let (p, e, owner, recent) = allocated-Given feature candidate now s c s' h in
    let (later, held) = allocated-later feature candidate token now n s c s' g h in
    (p, e, owner ∙ held, omega (arith, recent, later))

allocate_other :
    (feature other candidate token : String) (now n : ℕ) (s : Outbox) (c : Correlation)
    (s' : Outbox)
    → feature ≢ other
    → Given feature token n s
    → allocate_sequence other candidate now s ≡ ok (c, s')
    → Given feature token n s'
unfolding Given
allocate_other feature other candidate token now n s c s' ne (p, e, owner, old) h =
    let (_, _, written) = allocated other candidate now s c s' h in
    subst (Given feature token n) written
      (p, kept feature other c.scope_token c.operation_sequence now _ s p ne e, owner, old)

allocate-Given :
    (feature other candidate token : String) (now n : ℕ) (s : Outbox) (c : Correlation)
    (s' : Outbox)
    → Given feature token n s
    → allocate_sequence other candidate now s ≡ ok (c, s')
    → Given feature token n s'
allocate-Given feature other candidate token now n s c s' g h =
    elim (Bool-cases (text_eq feature other)) [
      | inl same ↦
          let eq = text_eq→≡ feature other same in
          subst (λ f. Given f token n s') (sym eq)
            (allocate_again other candidate token now n s c s' (subst (λ f. Given f token n s) eq g)
              h)
      | inr apart ↦
          allocate_other feature other candidate token now n s c s'
            (λ eq.
              absurd (cc (subst (λ k. text_eq feature k ≡ true) eq (text_eq_refl feature), apart)))
            g h
    ]

perform-Given :
    (feature token : String) (n : ℕ) (request : Request) (s : Outbox)
    → Given feature token n s
    → Given feature token n (perform request s)
unfolding perform Given
perform-Given feature token n (enqueues intent) s (p, e, owner, old) =
    elim (Result-cases (enqueue intent s)) [
      | inl (_, failed) ↦ rw (failed, perform) (p, e, owner, old)
      | inr (s', done) ↦
          rw (done, perform)
            (
              p,
              ap (find partition_key feature) (enqueue-partitions intent s s' done) ∙ e,
              owner,
              old,
            )
    ]
perform-Given feature token n (allocates other candidate now) s g =
    elim (Result-cases (allocate_sequence other candidate now s)) [
      | inl (_, failed) ↦ rw (failed, perform) g
      | inr ((c, s'), done) ↦
          rw (done, perform) (allocate-Given feature other candidate token now n s c s' g done)
    ]

perform_all-Given :
    (feature token : String) (n : ℕ) (requests : List Request) (s : Outbox)
    → Given feature token n s
    → Given feature token n (perform_all requests s)
unfolding perform_all
perform_all-Given feature token n [] s g = g
perform_all-Given feature token n (request ∷ requests) s g =
    perform_all-Given feature token n requests (perform request s)
      (perform-Given feature token n request s g)

-- Where a partition is given a number and later, after any admissions, another one, the second
-- number is greater and comes with the same token, whatever candidate is offered.
pub allocate_sequence-later :
    (feature candidate candidate' : String) (now now' : ℕ) (requests : List Request)
    (s s1 s2 : Outbox) (c c' : Correlation)
    → allocate_sequence feature candidate now s ≡ ok (c, s1)
    → allocate_sequence feature candidate' now' (perform_all requests s1) ≡ ok (c', s2)
    → (c.operation_sequence < c'.operation_sequence) × (c'.scope_token ≡ c.scope_token)
allocate_sequence-later feature candidate candidate' now now' requests s s1 s2 c c' h k =
    allocated-later feature candidate' c.scope_token now' c.operation_sequence
      (perform_all requests s1) c' s2
      (perform_all-Given feature c.scope_token c.operation_sequence requests s1
        (allocated-Given feature candidate now s c s1 h))
      k
