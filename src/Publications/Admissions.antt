-- ===== src/Publications/Admissions.antt =====
-- New routes and new events, on the abstract ledger.
use Prim.Native.String.{len}
use elmybot.Base.{
  ℕ, String, ◌≡◌, refl, sym, ap, ◌∙◌, subst, inl, inr, true, not, ◌&&◌, List, some, arith, or_else,
  map?, ok, text_eq, text_eq→≡, ltb, Bool-cases, bind-elim, throw_if, or_throw, if◌then◌else◌,
}
use elmybot.Sql.{find, has_key, Distinct, update, update-Distinct}
use elmybot.Publications.Types.{
  PublicationState, pending, committed, rejected, Publication, Answer, PrepareInput, RepinInput,
  Patterns, is_pending,
}
use elmybot.Publications.Ledger.{
  event_id, public_row, prune, is_waiting, shown, Checked, require_input, require_text, require_row,
  repin, repin_row, moved, max_route_bytes, max_payload_bytes,
}
use elmybot.Publications.View.{Entry, entry_of, view, pruned?, routed, prepares, repins, act}
use elmybot.Publications.Refinement.{IsRefined, require_text-some, require_row-found}
use elmybot.Publications.Refinement.{prune-view, prune-Distinct}
use elmybot.Publications.Reports.{update-view, refines_row, unchanged_row}

-- A new route, by the state of the row.
route_row :
    (input : RepinInput) (previous route_id : String) (revision now : ℕ)
    → or_else input.previous_route_id "" ≡ previous
    → or_else input.route.route_id "" ≡ route_id
    → (x : Publication) (s : PublicationState)
    → let y = record x { state = s } in
      entry_of (
        if is_waiting y.state && text_eq y.route_id previous
        then moved route_id revision input.route.json now y
        else y)
      ≡ routed input (entry_of y)
unfolding is_waiting routed moved entry_of public_row shown
route_row input previous route_id revision now p r x pending =
    elim (Bool-cases (text_eq x.route_id previous)) [ inl e ↦ rw (p, r, e) | inr e ↦ rw (p, e) ]
route_row input previous route_id revision now p r x committed = refl
route_row input previous route_id revision now p r x rejected = refl

routed_answer :
    (input : RepinInput) (previous : String)
    → or_else input.previous_route_id "" ≡ previous
    → (x : Publication) (s : PublicationState)
    → (is_waiting s && text_eq x.route_id previous) ≡ true
    → (routed input (entry_of (record x { state = s }))).outcome ≡ is_pending input.route.json
unfolding is_waiting routed entry_of public_row shown
routed_answer input previous p x pending e = rw (p, e)
routed_answer input previous p x committed e = absurd (cc e)
routed_answer input previous p x rejected e = absurd (cc e)

pub repin-IsRefined :
    (patterns : Patterns) (input : RepinInput) (now : ℕ) (rows rows' : List Publication)
    (answer : Answer)
    → repin patterns input now rows ≡ ok (rows', answer)
    → Distinct event_id rows
    → IsRefined (repins input now) rows rows' answer
unfolding repin repin_row entry_of
repin-IsRefined patterns input now rows rows' answer h d =
    bind-elim (require_text patterns.is_event_id input.event_id _) _ (rows', answer) h
      (λ id named h1.
        bind-elim (require_text patterns.is_fingerprint input.fingerprint _) _ (rows', answer) h1
          (λ fp _ h2.
            bind-elim (require_text patterns.is_route_id input.previous_route_id _) _
              (rows', answer) h2
              (λ previous before h3.
                bind-elim (require_text patterns.is_route_id input.route.route_id _) _
                  (rows', answer) h3
                  (λ route_id new h4.
                    bind-elim (or_throw input.route.binding_revision _) _ (rows', answer) h4
                      (λ revision _ h5.
                        bind-elim (throw_if (ltb max_route_bytes (len input.route.json)) _) _
                          (rows', answer) h5
                          (λ _ _ h6.
                            bind-elim (require_row id fp rows) _ (rows', answer) h6
                              (λ x there h7.
                                let own =
                                  require_text-some patterns.is_event_id input.event_id _ id
                                    named in
                                row id previous route_id revision x own
                                  (require_text-some patterns.is_route_id input.previous_route_id _
                                    previous before)
                                  (require_text-some patterns.is_route_id input.route.route_id _
                                    route_id new)
                                  (ap (λ k. find event_id k rows) own
                                    ∙ require_row-found id fp rows x there)
                                  h7)))))))
  where
    row :
        (id previous route_id : String) (revision : ℕ) (x : Publication)
        → or_else input.event_id "" ≡ id
        → or_else input.previous_route_id "" ≡ previous
        → or_else input.route.route_id "" ≡ route_id
        → find event_id (or_else input.event_id "") rows ≡ some x
        → repin_row previous route_id revision input.route.json now id x rows ≡ ok (rows', answer)
        → IsRefined (repins input now) rows rows' answer
    row id previous route_id revision x own p r hit h7 =
        let test = λ (y : Publication). is_waiting y.state && text_eq y.route_id previous in
        let f = moved route_id revision input.route.json now in
        let same =
          λ (y : Publication). route_row input previous route_id revision now p r y y.state in
        elim (Bool-cases (test x)) [
          | inr shut ↦
              let left : rows ≡ rows' = ground (arith, shut, h7) in
              let shows : public_row x ≡ answer = ground (arith, shut, h7) in
              subst (λ l. IsRefined (repins input now) rows l answer) left
                (subst (IsRefined (repins input now) rows rows) shows (
                  unchanged_row (repins input now) (routed input) rows x (λ j o. refl) d hit
                    (sym (same x) ∙ ap (λ b. entry_of (if b then f x else x)) shut)))
          | inl moves ↦
              let changed = update (λ y. has_key event_id id y && test y) f rows in
              let left : changed ≡ rows' = ground (arith, moves, h7) in
              let shows : is_pending input.route.json ≡ answer = ground (arith, moves, h7) in
              subst (λ l. IsRefined (repins input now) rows l answer) left
                (refines_row (repins input now) (routed input) rows changed x answer (λ j o. refl)
                  (update-Distinct event_id (λ y. has_key event_id id y && test y) f (λ y. refl)
                    rows d)
                  (λ j.
                    subst
                      (λ k.
                        view changed j
                        ≡ (if text_eq j k then map? (routed input) (view rows j) else view rows j))
                      (sym own) (update-view id test f (routed input) (λ y. refl) same rows j))
                  hit (routed_answer input previous p x x.state moves ∙ shows))
        ]

-- The fields that the checks of a new event pass on.
abbrev pub PassesOn : PrepareInput → Checked → Type 0
PassesOn input c =
    (or_else input.event_id "" ≡ c.event_id)
    × (or_else input.fingerprint "" ≡ c.fingerprint)
    × (or_else input.route.route_id "" ≡ c.route_id)
    × (input.route.json ≡ c.route_json)

pub require_input-PassesOn :
    (patterns : Patterns) (input : PrepareInput) (c : Checked)
    → require_input patterns input ≡ ok c
    → PassesOn input c
unfolding require_input
require_input-PassesOn patterns input c h =
    bind-elim (require_text patterns.is_event_id input.event_id _) _ c h (λ id e1 h1.
      bind-elim (require_text patterns.is_fingerprint input.fingerprint _) _ c h1 (λ fp e2 h2.
        bind-elim (require_text patterns.is_safe_id input.feature_id _) _ c h2 (λ feature e3 h3.
          bind-elim (require_text patterns.is_safe_id input.stream_id _) _ c h3 (λ stream e4 h4.
            bind-elim (or_throw input.version _) _ c h4 (λ version e5 h5.
              bind-elim (throw_if (ltb version 1) _) _ c h5 (λ _ _ h6.
                bind-elim (require_text patterns.is_route_id input.route.route_id _) _ c h6
                  (λ route e7 h7.
                    bind-elim (or_throw input.route.binding_revision _) _ c h7 (λ revision e8 h8.
                      bind-elim (throw_if (not input.route.has_descriptor) _) _ c h8 (λ _ _ h9.
                        bind-elim (or_throw input.payload _) _ c h9 (λ payload e10 h10.
                          bind-elim (throw_if (ltb max_payload_bytes (len payload)) _) _ c h10
                            (λ _ _ h11.
                              bind-elim (throw_if (ltb max_route_bytes (len input.route.json)) _) _
                                c h11
                                (λ _ _ h12. (
                                  require_text-some patterns.is_event_id input.event_id _ id e1
                                      ∙ cc h12,
                                  require_text-some patterns.is_fingerprint input.fingerprint _ fp
                                        e2
                                      ∙ cc h12,
                                  require_text-some patterns.is_route_id input.route.route_id _
                                        route e7
                                      ∙ cc h12,
                                  cc h12,
                                )))))))))))))

-- An event that the ledger has.
module _ (input : PrepareInput) (now : ℕ) (rows : List Publication) (d : Distinct event_id rows)
    (id : String) (own : or_else input.event_id "" ≡ id) where
  pub known :
      (x : Publication)
      → find event_id id (prune now rows) ≡ some x
      → IsRefined (prepares input now) rows (prune now rows) (public_row x)
  unfolding view entry_of
  known x hit =
      let there : view (prune now rows) id ≡ some (entry_of x) = ap (map? entry_of) hit in
      (
        prune-Distinct now rows d,
        (λ j. prune-view now rows d j ∙ entry j there),
        ap (λ k. map? (λ (e : Entry). e.outcome) (view (prune now rows) k)) own
            ∙ ap (map? (λ (e : Entry). e.outcome)) there,
      )
    where
      entry :
          (j : String)
          → view (prune now rows) id ≡ some (entry_of x)
          → pruned? now (view rows j) ≡ act (prepares input now) j (view rows j)
      entry j there = elim (Bool-cases (text_eq j (or_else input.event_id ""))) [
        | inr e ↦ rw e
        | inl e ↦
            let here : pruned? now (view rows j) ≡ some (entry_of x) =
              sym (prune-view now rows d j)
              ∙ ap (view (prune now rows)) (text_eq→≡ j (or_else input.event_id "") e ∙ own)
              ∙ there in
            rw (e, here)
      ]
