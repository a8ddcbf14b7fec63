-- ===== src/Publications/Outcomes.antt =====
-- Every request that succeeds refines the abstract ledger, and an outcome is final.
use elmybot.Base.{
  ℕ, ◌<◌, String, ◌≡◌, refl, sym, ap, ◌∙◌, subst, inl, inr, false, List, [], ◌∷◌, ◌++◌, Option,
  none, some, arith, or_else, map?, ok, text_eq, text_eq_refl, text_eq→≡, text_ne, leb, Bool-cases,
  Option-cases, Result-cases, bind-elim, first_some, All,
}
use elmybot.Sql.{find, Distinct, find-append, insert-Distinct}
use elmybot.Publications.Types.{Publication, Answer, PrepareInput, Patterns, is_pending}
use elmybot.Publications.Ledger.{
  event_id, public_row, prepare, prepare_pruned, prune, shown, Checked, require_input, at_capacity,
  new_publication,
}
use elmybot.Publications.View.{
  Entry, entry_of, view, is_open, pruned, pruned?, new_entry, closed, routed, Call, prepares,
  finalizes, repins, perform, act,
}
use elmybot.Publications.Refinement.{IsRefined}
use elmybot.Publications.Refinement.{prune-view, prune-Distinct}
use elmybot.Publications.Reports.{finalize-IsRefined}
use elmybot.Publications.Admissions.{repin-IsRefined, known, require_input-PassesOn, PassesOn}
use elmybot.Publications.View.{perform_all}

some-first : (o : Option Publication) → first_some o none ≡ o
some-first none = refl
some-first (some x) = refl

-- A new event.
module _ (input : PrepareInput) (now : ℕ) (rows : List Publication) (d : Distinct event_id rows)
    (c : Checked) (p : PassesOn input c) where
  abbrev fresh : Publication
  fresh = new_publication c now

  fresh-entry : entry_of fresh ≡ new_entry input now
  unfolding entry_of public_row shown new_publication
  fresh-entry = rw (p.1, p.2, p.3)

  new :
      find event_id c.event_id (prune now rows) ≡ none
      → IsRefined (prepares input now) rows (prune now rows ++ fresh ∷ []) (is_pending c.route_json)
  unfolding view new_publication find
  new miss =
      let kept = prune now rows in
      let last : find event_id c.event_id (fresh ∷ []) ≡ some fresh =
        rw (text_eq_refl c.event_id) in
      let found : find event_id c.event_id (kept ++ fresh ∷ []) ≡ some fresh =
        find-append event_id c.event_id kept (fresh ∷ [])
        ∙ ap (λ o. first_some o (find event_id c.event_id (fresh ∷ []))) miss
        ∙ last in
      let added : view (kept ++ fresh ∷ []) c.event_id ≡ some (new_entry input now) =
        ap (map? entry_of) found ∙ ap some fresh-entry in
      (
        insert-Distinct event_id kept fresh (prune-Distinct now rows d) miss,
        (λ j. entry added j),
        ap (λ k. map? (λ (e : Entry). e.outcome) (view (kept ++ fresh ∷ []) k)) p.0
            ∙ ap (map? (λ (e : Entry). e.outcome)) added
            ∙ ap (λ r. some (is_pending r)) p.3,
      )
    where
      entry :
          view (prune now rows ++ fresh ∷ []) c.event_id ≡ some (new_entry input now)
          → (j : String)
          → view (prune now rows ++ fresh ∷ []) j ≡ act (prepares input now) j (view rows j)
      entry added j = elim (Bool-cases (text_eq j (or_else input.event_id ""))) [
        | inl e ↦
            let same = text_eq→≡ j (or_else input.event_id "") e ∙ p.0 in
            let gone : pruned? now (view rows j) ≡ none =
              sym (prune-view now rows d j)
              ∙ ap (view (prune now rows)) same
              ∙ ap (map? entry_of) miss in
            rw (e, gone) (ap (view (prune now rows ++ fresh ∷ [])) same ∙ added)
        | inr e ↦
            let other : text_eq c.event_id j ≡ false =
              text_ne c.event_id j (λ same. clash e (sym same ∙ sym p.0)) in
            let last : find event_id j (fresh ∷ []) ≡ none = rw other in
            let found : find event_id j (prune now rows ++ fresh ∷ [])
                ≡ find event_id j (prune now rows) =
              find-append event_id j (prune now rows) (fresh ∷ [])
              ∙ ap (first_some (find event_id j (prune now rows))) last
              ∙ some-first (find event_id j (prune now rows)) in
            rw e (ap (map? entry_of) found ∙ prune-view now rows d j)
      ]
        where
          clash : text_eq j (or_else input.event_id "") ≡ false → j ≡ or_else input.event_id "" → ⊥
          clash e same = absurd (
              cc (
                sym e
                ∙ ap (λ k. text_eq k (or_else input.event_id "")) same
                ∙ text_eq_refl (or_else input.event_id "")))

pub prepare-IsRefined :
    (patterns : Patterns) (input : PrepareInput) (now : ℕ) (rows rows' : List Publication)
    (answer : Answer)
    → prepare patterns input now rows ≡ ok (rows', answer)
    → Distinct event_id rows
    → IsRefined (prepares input now) rows rows' answer
unfolding prepare prepare_pruned
prepare-IsRefined patterns input now rows rows' answer h d =
    bind-elim (require_input patterns input) _ (rows', answer) h
      (λ c passed rest.
        let p = require_input-PassesOn patterns input c passed in
        let kept = prune now rows in
        elim (Option-cases (find event_id c.event_id kept)) [
          | inr (x, hit) ↦ elim (Bool-cases (text_eq x.fingerprint c.fingerprint)) [
            | inr other ↦ absurd (ground (arith, hit, other, rest))
            | inl same ↦
                let left : kept ≡ rows' = ground (arith, hit, same, rest) in
                let shows : public_row x ≡ answer = ground (arith, hit, same, rest) in
                subst (λ l. IsRefined (prepares input now) rows l answer) left
                  (subst (IsRefined (prepares input now) rows kept) shows
                    (known input now rows d c.event_id p.0 x hit))
          ]
          | inl miss ↦ elim (Bool-cases (at_capacity c.pending_bytes kept)) [
            | inl full ↦ absurd (ground (arith, miss, full, rest))
            | inr free ↦
                let left : kept ++ new_publication c now ∷ [] ≡ rows' =
                  ground (arith, miss, free, rest) in
                let shows : is_pending c.route_json ≡ answer = ground (arith, miss, free, rest) in
                subst (λ l. IsRefined (prepares input now) rows l answer) left
                  (subst (IsRefined (prepares input now) rows (kept ++ new_publication c now ∷ []))
                    shows (new input now rows d c p miss))
          ]
        ])

-- A request that succeeds acts on the map from events to outcomes as the abstract ledger does, and
-- answers the outcome that its event then has.
pub perform-IsRefined :
    (patterns : Patterns) (c : Call) (rows rows' : List Publication) (answer : Answer)
    → perform patterns c rows ≡ ok (rows', answer)
    → Distinct event_id rows
    → IsRefined c rows rows' answer
unfolding perform
perform-IsRefined patterns (prepares input now) rows rows' answer h d =
    prepare-IsRefined patterns input now rows rows' answer h d
perform-IsRefined patterns (finalizes input now) rows rows' answer h d =
    finalize-IsRefined patterns input now rows rows' answer h d
perform-IsRefined patterns (repins input now) rows rows' answer h d =
    repin-IsRefined patterns input now rows rows' answer h d

-- The clock of a request, where it prunes.
abbrev pub IsBefore : ℕ → Call → Type 0
IsBefore end (prepares input now) = now < end
IsBefore end (finalizes input now) = Unit
IsBefore end (repins input now) = Unit

act-final :
    (c : Call) (id : String) (e : Entry)
    → is_open e.outcome ≡ false
    → IsBefore e.expires_at_ms c
    → act c id (some e) ≡ some e
unfolding pruned closed routed
act-final (prepares input now) id e shut early =
    let kept : leb e.expires_at_ms now ≡ false = ground (arith, early) in
    rw kept (elim (Bool-cases (text_eq id (or_else input.event_id ""))) [
      | inl same ↦ rw same
      | inr other ↦ rw other
    ])
act-final (finalizes input now) id e shut early =
    elim (Bool-cases (text_eq id (or_else input.event_id ""))) [
      | inl same ↦ rw (same, shut)
      | inr other ↦ rw other
    ]
act-final (repins input now) id e shut early =
    elim (Bool-cases (text_eq id (or_else input.event_id ""))) [
      | inl same ↦ rw (same, shut)
      | inr other ↦ rw other
    ]

-- The outcome of an event, once it is committed or rejected, is the same after every sequence of
-- requests, refused ones included, whose clocks are before the time that the ledger keeps it until.
pub perform_all-final :
    (patterns : Patterns) (cs : List Call) (rows : List Publication) (id : String) (e : Entry)
    → Distinct event_id rows
    → view rows id ≡ some e
    → is_open e.outcome ≡ false
    → All (IsBefore e.expires_at_ms) cs
    → view (perform_all patterns cs rows) id ≡ some e
unfolding perform_all
perform_all-final patterns [] rows id e d h shut early = h
perform_all-final patterns (c ∷ cs) rows id e d h shut early =
    elim (Result-cases (perform patterns c rows)) [
      | inl (x, fails) ↦
          rw (fails, perform_all) (perform_all-final patterns cs rows id e d h shut early.1)
      | inr ((rows', answer), goes) ↦
          let refined = perform-IsRefined patterns c rows rows' answer goes d in
          rw (goes, perform_all)
            (perform_all-final patterns cs rows' id e refined.0
              (refined.1 id ∙ ap (act c id) h ∙ act-final c id e shut early.0) shut early.1)
    ]
