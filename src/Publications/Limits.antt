-- ===== src/Publications/Limits.antt =====
-- The ledger stays within its limits.
use Prim.Native.String.{len}
use elmybot.Base.{
  ℕ, ◌≡◌, subst, inl, inr, ◌&&◌, List, [], ◌∷◌, ◌++◌, arith, ok, text_eq, ltb, Bool-cases,
  Option-cases, Result-cases, bind-elim, throw_if, or_throw,
}
use elmybot.Sql.{find, has_key, update}
use elmybot.Publications.Types.{
  PublicationState, pending, committed, rejected, Publication, Answer, PrepareInput, FinalizeInput,
  RepinInput, Patterns,
}
use elmybot.Publications.Ledger.{
  event_id, prepare, prepare_pruned, prune, is_waiting, require_input, require_text, at_capacity,
  new_publication, finalize, finalize_row, finalized, update_pending, commit_publication,
  reject_publication, require_terminal, require_row, repin, repin_row, moved, max_route_bytes,
}
use elmybot.Publications.View.{Call, prepares, finalizes, repins, perform}
use elmybot.Publications.View.{perform_all}
use elmybot.Publications.Capacity.{Fits, Lightens, update-Fits, prune-Fits, insert-Fits}

finalized-Lightens :
    (input : FinalizeInput) (now : ℕ) (state : PublicationState) (f : Publication → Publication)
    → finalized input now state ≡ ok f
    → Lightens f
unfolding finalized commit_publication reject_publication is_waiting
finalized-Lightens input now pending f h = absurd (cc h)
finalized-Lightens input now rejected f h = elim (Option-cases input.code) [
  | inl miss ↦ absurd (ground (arith, miss, h))
  | inr (code, has) ↦
      let it : reject_publication code now ≡ f = ground (arith, has, h) in
      subst Lightens it (λ x. (omega arith, omega arith))
]
finalized-Lightens input now committed f h = elim (Option-cases input.sequence) [
  | inl miss ↦ absurd (ground (arith, miss, h))
  | inr (n, has) ↦ elim (Bool-cases (ltb n 1)) [
    | inl low ↦ absurd (ground (arith, has, low, h))
    | inr positive ↦ elim (Option-cases input.accepted_at_ms) [
      | inl miss ↦ absurd (ground (arith, has, positive, miss, h))
      | inr (at, has_at) ↦
          let it : commit_publication n at now ≡ f = ground (arith, has, positive, has_at, h) in
          subst Lightens it (λ x. (omega arith, omega arith))
    ]
  ]
]

finalize-Fits :
    (patterns : Patterns) (input : FinalizeInput) (now : ℕ) (rows rows' : List Publication)
    (answer : Answer)
    → finalize patterns input now rows ≡ ok (rows', answer)
    → Fits rows
    → Fits rows'
unfolding finalize finalize_row update_pending
finalize-Fits patterns input now rows rows' answer h fit =
    bind-elim (require_text patterns.is_event_id input.event_id _) _ (rows', answer) h
      (λ id _ h1.
        bind-elim (require_text patterns.is_fingerprint input.fingerprint _) _ (rows', answer) h1
          (λ fp _ h2.
            bind-elim (require_terminal input.state) _ (rows', answer) h2
              (λ state _ h3.
                bind-elim (require_row id fp rows) _ (rows', answer) h3
                  (λ x _ h4. elim (Bool-cases (is_waiting x.state)) [
                    | inr shut ↦
                        let same : rows ≡ rows' = ground (arith, shut, h4) in subst Fits same fit
                    | inl waiting ↦ elim (Result-cases (finalized input now state)) [
                      | inl (bad, fails) ↦ absurd (ground (arith, waiting, fails, h4))
                      | inr (f, goes) ↦
                          let left : update_pending id f rows ≡ rows' =
                            ground (arith, waiting, goes, h4) in
                          subst Fits left (
                            update-Fits (λ y. has_key event_id id y && is_waiting y.state) f
                              (finalized-Lightens input now state f goes) rows fit)
                    ]
                  ]))))

repin-Fits :
    (patterns : Patterns) (input : RepinInput) (now : ℕ) (rows rows' : List Publication)
    (answer : Answer)
    → repin patterns input now rows ≡ ok (rows', answer)
    → Fits rows
    → Fits rows'
unfolding repin repin_row moved
repin-Fits patterns input now rows rows' answer h fit =
    bind-elim (require_text patterns.is_event_id input.event_id _) _ (rows', answer) h
      (λ id _ h1.
        bind-elim (require_text patterns.is_fingerprint input.fingerprint _) _ (rows', answer) h1
          (λ fp _ h2.
            bind-elim (require_text patterns.is_route_id input.previous_route_id _) _
              (rows', answer) h2
              (λ previous _ h3.
                bind-elim (require_text patterns.is_route_id input.route.route_id _) _
                  (rows', answer) h3
                  (λ route_id _ h4.
                    bind-elim (or_throw input.route.binding_revision _) _ (rows', answer) h4
                      (λ revision _ h5.
                        bind-elim (throw_if (ltb max_route_bytes (len input.route.json)) _) _
                          (rows', answer) h5
                          (λ _ _ h6.
                            bind-elim (require_row id fp rows) _ (rows', answer) h6
                              (λ x _ h7.
                                elim (Bool-cases
                                  (is_waiting x.state && text_eq x.route_id previous)) [
                                    | inr shut ↦
                                        let same : rows ≡ rows' = ground (arith, shut, h7) in
                                        subst Fits same fit
                                    | inl moves ↦
                                        let p = λ (y : Publication).
                                          has_key event_id id y
                                          && (is_waiting y.state && text_eq y.route_id previous) in
                                        let f = moved route_id revision input.route.json now in
                                        let left : update p f rows ≡ rows' =
                                          ground (arith, moves, h7) in
                                        subst Fits left (
                                          update-Fits p f (λ y. (omega arith, omega arith)) rows
                                            fit)
                                  ])))))))

prepare-Fits :
    (patterns : Patterns) (input : PrepareInput) (now : ℕ) (rows rows' : List Publication)
    (answer : Answer)
    → prepare patterns input now rows ≡ ok (rows', answer)
    → Fits rows
    → Fits rows'
unfolding prepare prepare_pruned
prepare-Fits patterns input now rows rows' answer h fit =
    bind-elim (require_input patterns input) _ (rows', answer) h
      (λ c _ rest.
        let kept = prune now rows in
        elim (Option-cases (find event_id c.event_id kept)) [
          | inr (x, hit) ↦ elim (Bool-cases (text_eq x.fingerprint c.fingerprint)) [
            | inr other ↦ absurd (ground (arith, hit, other, rest))
            | inl same ↦
                let left : kept ≡ rows' = ground (arith, hit, same, rest) in
                subst Fits left (prune-Fits now rows fit)
          ]
          | inl miss ↦ elim (Bool-cases (at_capacity c.pending_bytes kept)) [
            | inl full ↦ absurd (ground (arith, miss, full, rest))
            | inr free ↦
                let left : kept ++ new_publication c now ∷ [] ≡ rows' =
                  ground (arith, miss, free, rest) in
                subst Fits left (insert-Fits c now kept free)
          ]
        ])

-- After every sequence of requests, refused ones included, the ledger has at most 100,000 rows, and
-- at most 100 pending ones with at most 512 KiB of payloads.
pub perform_all-Fits :
    (patterns : Patterns) (cs : List Call) (rows : List Publication)
    → Fits rows
    → Fits (perform_all patterns cs rows)
unfolding perform_all perform
perform_all-Fits patterns [] rows fit = fit
perform_all-Fits patterns (c ∷ cs) rows fit = elim (Result-cases (perform patterns c rows)) [
  | inl (x, fails) ↦ rw (fails, perform_all) (perform_all-Fits patterns cs rows fit)
  | inr ((rows', answer), goes) ↦
      rw (goes, perform_all) (perform_all-Fits patterns cs rows' (after c rows' answer goes))
]
  where
    after :
        (k : Call) (rows' : List Publication) (answer : Answer)
        → perform patterns k rows ≡ ok (rows', answer)
        → Fits rows'
    after (prepares input now) rows' answer goes =
        prepare-Fits patterns input now rows rows' answer goes fit
    after (finalizes input now) rows' answer goes =
        finalize-Fits patterns input now rows rows' answer goes fit
    after (repins input now) rows' answer goes =
        repin-Fits patterns input now rows rows' answer goes fit
