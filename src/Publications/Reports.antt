-- ===== src/Publications/Reports.antt =====
-- Reports and new routes, on the abstract ledger.
use elmybot.Base.{
  ℕ, String, ◌≡◌, refl, sym, ap, ◌∙◌, subst, inl, inr, Bool, true, false, ◌&&◌, List, Option, none,
  some, arith, or_else, map?, ok, text_eq, text_eq_refl, text_eq→≡, ltb, Bool-cases, Option-cases,
  Result-cases, bind-elim, if◌then◌else◌,
}
use elmybot.Sql.{find, has_key, Distinct, update, update-Distinct}
use elmybot.Publications.Types.{
  PublicationState, pending, committed, rejected, Publication, Answer, FinalizeInput, Patterns,
}
use elmybot.Publications.Ledger.{
  event_id, public_row, is_waiting, shown, require_text, finalize, finalize_row, finalized,
  update_pending, commit_publication, reject_publication, require_terminal, require_row,
}
use elmybot.Publications.View.{
  Entry, entry_of, view, reported, closed, Call, finalizes, event_of, act,
}
use elmybot.Publications.Refinement.{view-update, IsRefined, require_text-some, require_row-found}

-- A change of the row of one event is a change of its entry.
module _ (id : String) (test : Publication → Bool) (f : Publication → Publication)
    (g : Entry → Entry) (keep : (x : Publication) → event_id (f x) ≡ event_id x)
    (same : (x : Publication) → entry_of (if test x then f x else x) ≡ g (entry_of x)) where
  one_row :
      (j : String) (x : Publication)
      → event_id x ≡ j
      → entry_of (if has_key event_id id x && test x then f x else x)
        ≡ (if text_eq j id then g (entry_of x) else entry_of x)
  one_row j x own = elim (Bool-cases (text_eq j id)) [
    | inl e ↦
        let hit : has_key event_id id x ≡ true = ap (λ k. text_eq k id) own ∙ e in
        rw (e, hit) (same x)
    | inr e ↦
        let miss : has_key event_id id x ≡ false = ap (λ k. text_eq k id) own ∙ e in rw (e, miss)
  ]

  map?-if :
      (b : Bool) (o : Option Entry)
      → map? (λ e. if b then g e else e) o ≡ (if b then map? g o else o)
  map?-if true none = refl
  map?-if true (some e) = refl
  map?-if false none = refl
  map?-if false (some e) = refl

  pub update-view :
      (rows : List Publication) (j : String)
      → view (update (λ x. has_key event_id id x && test x) f rows) j
        ≡ (if text_eq j id then map? g (view rows j) else view rows j)
  update-view rows j =
      view-update (λ x. has_key event_id id x && test x) f keep
        (λ e. if text_eq j id then g e else e) rows j (one_row j)
      ∙ map?-if (text_eq j id) (view rows j)

-- A report, by the state of the row.
module _ (input : FinalizeInput) (f : Publication → Publication)
    (keep : (x : Publication) → event_id (f x) ≡ event_id x)
    (does : (x : Publication)
      → entry_of (f x) ≡ record (entry_of x) { outcome = reported input input.state }) where
  report_row :
      (x : Publication) (s : PublicationState)
      → let y = record x { state = s } in
        entry_of (if is_waiting y.state then f y else y) ≡ closed input (entry_of y)
  unfolding is_waiting closed entry_of public_row shown
  report_row x pending = does (record x { state = pending })
  report_row x committed = refl
  report_row x rejected = refl

abbrev FinalizesTo : FinalizeInput → (Publication → Publication) → Type 0
FinalizesTo input f =
    ((x : Publication) → event_id (f x) ≡ event_id x)
    × ((x : Publication)
        → entry_of (f x) ≡ record (entry_of x) { outcome = reported input input.state })

require_terminal-some :
    (o : Option PublicationState) (state : PublicationState)
    → require_terminal o ≡ ok state
    → o ≡ some state
unfolding require_terminal
require_terminal-some none state h = absurd (cc h)
require_terminal-some (some pending) state h = absurd (cc h)
require_terminal-some (some committed) state h = ap some (cc h)
require_terminal-some (some rejected) state h = ap some (cc h)

finalized-FinalizesTo :
    (input : FinalizeInput) (now : ℕ) (state : PublicationState) (f : Publication → Publication)
    → input.state ≡ some state
    → finalized input now state ≡ ok f
    → FinalizesTo input f
unfolding finalized commit_publication reject_publication entry_of public_row shown
finalized-FinalizesTo input now pending f e h = absurd (cc h)
finalized-FinalizesTo input now committed f e h = elim (Option-cases input.sequence) [
  | inl miss ↦ absurd (ground (arith, miss, h))
  | inr (n, has) ↦ elim (Bool-cases (ltb n 1)) [
    | inl low ↦ absurd (ground (arith, has, low, h))
    | inr positive ↦ elim (Option-cases input.accepted_at_ms) [
      | inl miss ↦ absurd (ground (arith, has, positive, miss, h))
      | inr (at, has_at) ↦
          let it : commit_publication n at now ≡ f = ground (arith, has, positive, has_at, h) in
          subst (FinalizesTo input) it ((λ x. refl), (λ x. rw (e, has, has_at)))
    ]
  ]
]
finalized-FinalizesTo input now rejected f e h = elim (Option-cases input.code) [
  | inl miss ↦ absurd (ground (arith, miss, h))
  | inr (code, has) ↦
      let it : reject_publication code now ≡ f = ground (arith, has, h) in
      subst (FinalizesTo input) it ((λ x. refl), (λ x. rw (e, has)))
]

-- The answer of a request is what the row of its event then shows.
shown_after :
    (g : Entry → Entry) (rows rows' : List Publication) (id : String) (x : Publication)
    → view rows' id ≡ map? g (view rows id)
    → find event_id id rows ≡ some x
    → map? (λ (e : Entry). e.outcome) (view rows' id) ≡ some (g (entry_of x)).outcome
unfolding view
shown_after g rows rows' id x h hit =
    ap (map? (λ (e : Entry). e.outcome)) (h ∙ ap (λ o. map? g (map? entry_of o)) hit)

if_self : (b : Bool) (o p : Option Entry) → b ≡ true → (if b then o else p) ≡ o
if_self b o p e = rw e

-- A request about one event whose row is changed by `g`.
pub refines_row :
    (c : Call) (g : Entry → Entry) (rows rows' : List Publication) (x : Publication)
    (answer : Answer)
    → ((j : String) (o : Option Entry)
        → act c j o ≡ (if text_eq j (event_of c) then map? g o else o))
    → Distinct event_id rows'
    → ((j : String)
        → view rows' j ≡ (if text_eq j (event_of c) then map? g (view rows j) else view rows j))
    → find event_id (event_of c) rows ≡ some x
    → (g (entry_of x)).outcome ≡ answer
    → IsRefined c rows rows' answer
refines_row c g rows rows' x answer acts d changes hit answers =
    let id = event_of c in
    (
      d,
      (λ j. changes j ∙ sym (acts j (view rows j))),
      shown_after g rows rows' id x
            (changes id
              ∙ if_self (text_eq id id) (map? g (view rows id)) (view rows id) (text_eq_refl id))
            hit
          ∙ ap some answers,
    )

closed_stays :
    (input : FinalizeInput) (x : Publication) (s : PublicationState)
    → is_waiting s ≡ false
    → let y = record x { state = s } in closed input (entry_of y) ≡ entry_of y
unfolding closed entry_of public_row shown is_waiting
closed_stays input x pending h = absurd (cc h)
closed_stays input x committed h = refl
closed_stays input x rejected h = refl

if-map-id :
    (b : Bool) (g : Entry → Entry) (rows : List Publication) (id j : String) (x : Publication)
    → text_eq j id ≡ b
    → find event_id id rows ≡ some x
    → g (entry_of x) ≡ entry_of x
    → view rows j ≡ (if b then map? g (view rows j) else view rows j)
unfolding view
if-map-id false g rows id j x e hit same = refl
if-map-id true g rows id j x e hit same =
    let there : view rows j ≡ some (entry_of x) =
      ap (λ k. view rows k) (text_eq→≡ j id e) ∙ ap (map? entry_of) hit in
    there ∙ ap some (sym same) ∙ sym (ap (map? g) there)

-- A request that leaves the rows as they are.
pub unchanged_row :
    (c : Call) (g : Entry → Entry) (rows : List Publication) (x : Publication)
    → ((j : String) (o : Option Entry)
        → act c j o ≡ (if text_eq j (event_of c) then map? g o else o))
    → Distinct event_id rows
    → find event_id (event_of c) rows ≡ some x
    → g (entry_of x) ≡ entry_of x
    → IsRefined c rows rows (public_row x)
unfolding entry_of
unchanged_row c g rows x acts d hit same =
    refines_row c g rows rows x (public_row x) acts d
      (λ j. if-map-id (text_eq j (event_of c)) g rows (event_of c) j x refl hit same) hit
      (ap (λ (e : Entry). e.outcome) same)

pub finalize-IsRefined :
    (patterns : Patterns) (input : FinalizeInput) (now : ℕ) (rows rows' : List Publication)
    (answer : Answer)
    → finalize patterns input now rows ≡ ok (rows', answer)
    → Distinct event_id rows
    → IsRefined (finalizes input now) rows rows' answer
unfolding finalize finalize_row update_pending entry_of
finalize-IsRefined patterns input now rows rows' answer h d =
    bind-elim (require_text patterns.is_event_id input.event_id _) _ (rows', answer) h
      (λ id named h1.
        bind-elim (require_text patterns.is_fingerprint input.fingerprint _) _ (rows', answer) h1
          (λ fp _ h2.
            bind-elim (require_terminal input.state) _ (rows', answer) h2
              (λ state terminal h3.
                bind-elim (require_row id fp rows) _ (rows', answer) h3
                  (λ x there h4.
                    let own = require_text-some patterns.is_event_id input.event_id _ id named in
                    let hit : find event_id (or_else input.event_id "") rows ≡ some x =
                      ap (λ k. find event_id k rows) own ∙ require_row-found id fp rows x there in
                    row id state x own hit (require_terminal-some input.state state terminal) h4))))
  where
    row :
        (id : String) (state : PublicationState) (x : Publication)
        → or_else input.event_id "" ≡ id
        → find event_id (or_else input.event_id "") rows ≡ some x
        → input.state ≡ some state
        → finalize_row input now state id x rows ≡ ok (rows', answer)
        → IsRefined (finalizes input now) rows rows' answer
    row id state x own hit e h4 = elim (Bool-cases (is_waiting x.state)) [
      | inr shut ↦
          let same : rows ≡ rows' = ground (arith, shut, h4) in
          let shows : public_row x ≡ answer = ground (arith, shut, h4) in
          subst (λ r. IsRefined (finalizes input now) rows r answer) same
            (subst (IsRefined (finalizes input now) rows rows) shows (
              unchanged_row (finalizes input now) (closed input) rows x (λ j o. refl) d hit
                (closed_stays input x x.state shut)))
      | inl waits ↦ elim (Result-cases (finalized input now state)) [
        | inl (bad, fails) ↦ absurd (ground (arith, waits, fails, h4))
        | inr (f, goes) ↦
            let done = finalized-FinalizesTo input now state f e goes in
            let left : update_pending id f rows ≡ rows' = ground (arith, waits, goes, h4) in
            let shows : public_row (f x) ≡ answer = ground (arith, waits, goes, h4) in
            let same = λ (y : Publication). report_row input f done.0 done.1 y y.state in
            let changed = update_pending id f rows in
            subst (λ r. IsRefined (finalizes input now) rows r answer) left
              (refines_row (finalizes input now) (closed input) rows changed x answer (λ j o. refl)
                (update-Distinct event_id (λ y. has_key event_id id y && is_waiting y.state) f
                  done.0 rows d)
                (λ j.
                  subst
                    (λ k.
                      view changed j
                      ≡ (if text_eq j k then map? (closed input) (view rows j) else view rows j))
                    (sym own)
                    (update-view id (λ y. is_waiting y.state) f (closed input) done.0 same rows j))
                hit
                (ap (λ (y : Entry). y.outcome) (sym (same x))
                  ∙ ap (λ b. public_row (if b then f x else x)) waits
                  ∙ shows))
      ]
    ]
