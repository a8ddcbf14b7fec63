-- ===== src/Publications/Tests.antt =====
-- Runs of the ledger, and the theorems at concrete inputs.
use elmybot.Base.{◌≡◌, refl, true, List, [], ◌∷◌, none, some, ok, err, text_eq, arith}
use elmybot.Sql.{find, select, update, delete, count, first}
use elmybot.Publications.Types.{
  Publication, committed, rejected, is_committed, is_pending, Route, PrepareInput, FinalizeInput,
  Patterns, source_conflict,
}
use elmybot.Publications.View.{Call, prepares, finalizes, perform, perform_all, view, Entry}
use elmybot.Publications.Refinement.{IsRefined}
use elmybot.Publications.Outcomes.{perform-IsRefined, perform_all-final}
use elmybot.Publications.Capacity.{Fits}
use elmybot.Publications.Limits.{perform_all-Fits}

program : Unit {0}
unfolding perform perform_all view find select update delete count first
program = tt

abbrev patterns : Patterns
patterns = record {
  is_event_id = λ text. text_eq text "dev1.a";
  is_route_id = λ text. text_eq text "des1.r";
  is_fingerprint = λ text. true;
  is_safe_id = λ text. true;
}

abbrev route : Route
route = record {
  route_id = some "des1.r";
  binding_revision = some 3;
  has_descriptor = true;
  json = "{}";
}

abbrev event : PrepareInput
event = record {
  event_id = some "dev1.a";
  fingerprint = some "f";
  feature_id = some "polls";
  stream_id = some "votes";
  version = some 1;
  route = route;
  payload = some "{\"vote\":1}";
}

abbrev report : FinalizeInput
report = record {
  event_id = some "dev1.a";
  fingerprint = some "f";
  state = some committed;
  sequence = some 7;
  accepted_at_ms = some 2000;
  code = none;
}

abbrev accepted : List Publication
accepted = perform_all patterns (prepares event 1000 ∷ []) []

abbrev done : List Publication
done = perform_all patterns (finalizes report 2000 ∷ []) accepted

accepted_test : perform patterns (prepares event 1000) [] ≡ ok (accepted, is_pending "{}")
unfolding program
accepted_test = refl

done_test : perform patterns (finalizes report 2000) accepted ≡ ok (done, is_committed 7 2000)
unfolding program
done_test = refl

-- A second publication of the event after its outcome is known, with other data.
conflict_test :
    perform patterns (prepares (record event { fingerprint = some "g" }) 3000) done
    ≡ err (record { code = source_conflict; status = 409 })
unfolding program
conflict_test = refl

perform-IsRefined_example : IsRefined (finalizes report 2000) accepted done (is_committed 7 2000)
unfolding program
perform-IsRefined_example =
    perform-IsRefined patterns (finalizes report 2000) accepted done (is_committed 7 2000) done_test
      (refl, tt)

abbrev outcome : Entry
outcome = record {
  fingerprint = "f";
  route_id = "des1.r";
  outcome = is_committed 7 2000;
  expires_at_ms = 7_201_000;
}

-- The publication is sent again, and then a report that it was rejected.
abbrev later : List Call
later = prepares event 3000 ∷ finalizes (record report { state = some rejected }) 4000 ∷ []

perform_all-final_example : view (perform_all patterns later done) "dev1.a" ≡ some outcome
unfolding program
perform_all-final_example =
    perform_all-final patterns later done "dev1.a" outcome (refl, tt) refl refl
      (omega arith, (tt, tt))

perform_all-Fits_example : Fits (perform_all patterns later done)
unfolding program
perform_all-Fits_example =
    perform_all-Fits patterns later done (omega arith, omega arith, omega arith)
