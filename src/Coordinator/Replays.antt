-- ===== src/Coordinator/Replays.antt =====
-- An execution that is stored, and its replays.
use elmybot.Base.{
  ℕ, String, ◌≡◌, refl, ap, ◌∙◌, subst, inl, inr, true, false, [], ◌∷◌, ◌++◌, Option, none, some,
  arith, ok, err, Result-cases, Option-cases, Bool-cases, if◌then◌else◌, text_eq, text_eq→≡,
  text_eq_refl, is_some,
}
use elmybot.Sql.{find, find-has_key, find-append}
use elmybot.Coordinator.Types.{Coordinator, Execution, ExecutionRow, Report, execution_conflict}
use elmybot.Coordinator.Storage.{execution_id, execution_status}
use elmybot.Coordinator.Submit.{
  commit, store_execution, insert_effects, ensure_coordinator_identity, is_foreign,
  replay_if_present, replay_of, new_execution,
}
use elmybot.Coordinator.Commits.{replay_if_present-miss}

-- What a successful transaction leaves: the execution under its event, with its fingerprint.
pub record IsStored (execution : Execution) (fingerprint : String) (c : Coordinator) : Type 0 where
  pub row : ExecutionRow
  pub found : find execution_id execution.source_event_id c.executions ≡ some row
  pub same_request : row.request_fingerprint ≡ fingerprint
  pub own : is_foreign execution.integration_id c.integration_id ≡ false

pub replay-IsStored :
    (execution : Execution) (fingerprint : String) (c : Coordinator) (report : Report)
    → replay_if_present execution fingerprint c ≡ ok (some report)
    → IsStored execution fingerprint c
unfolding replay_if_present replay_of
replay-IsStored execution fingerprint c report h =
    elim (Option-cases (find execution_id execution.source_event_id c.executions)) [
      | inl miss ↦ absurd (ground arith)
      | inr (x, hit) ↦ record {
        row = x;
        found = hit;
        same_request = text_eq→≡ x.request_fingerprint fingerprint (ground arith);
        own = ground arith;
      }
    ]

store-IsStored :
    (execution : Execution) (fingerprint : String) (accepted : ℕ) (ids : ℕ → String)
    (c c' : Coordinator)
    → find execution_id execution.source_event_id c.executions ≡ none
    → store_execution execution fingerprint accepted ids c ≡ ok c'
    → IsStored execution fingerprint c'
unfolding store_execution ensure_coordinator_identity new_execution is_foreign find
store-IsStored execution fingerprint accepted ids c c' miss h =
    elim (Result-cases (insert_effects execution accepted ids execution.effects c.effects)) [
      | inl (bad, fails) ↦ absurd (ground arith)
      | inr (effects', goes) ↦
          let row = new_execution execution fingerprint accepted in
          let stored : c'.executions ≡ c.executions ++ row ∷ [] = ground arith in
          let owned : c'.integration_id ≡ some execution.integration_id = ground arith in
          record {
            row = row;
            found =
                ap (find execution_id execution.source_event_id) stored
                ∙ find-append execution_id execution.source_event_id c.executions (row ∷ [])
                ∙ rw (miss, text_eq_refl execution.source_event_id);
            same_request = refl;
            own = rw (owned, text_eq_refl execution.integration_id);
          }
    ]

pub commit-IsStored :
    (execution : Execution) (fingerprint : String) (accepted : ℕ) (ids : ℕ → String)
    (c c' : Coordinator) (report : Option Report)
    → commit execution fingerprint accepted ids c ≡ ok (c', report)
    → IsStored execution fingerprint c'
unfolding commit
commit-IsStored execution fingerprint accepted ids c c' report h =
    elim (Result-cases (replay_if_present execution fingerprint c)) [
      | inl (bad, fails) ↦ absurd (ground arith)
      | inr (some again, replays) ↦
          subst (IsStored execution fingerprint) {y = c'} (ground arith)
            (replay-IsStored execution fingerprint c again replays)
      | inr (none, fresh) ↦
          elim (Result-cases (store_execution execution fingerprint accepted ids c)) [
            | inl (bad, fails) ↦ absurd (ground arith)
            | inr (stored, goes) ↦ subst (IsStored execution fingerprint) {y = c'} (ground arith) (
                store-IsStored execution fingerprint accepted ids c stored
                  (replay_if_present-miss execution fingerprint c fresh) goes)
          ]
    ]

-- The report of a stored execution that comes again.
abbrev pub report_of : Execution → Coordinator → Option Report
report_of execution c = execution_status true c execution.source_event_id

pub stored-reports :
    (execution : Execution) (fingerprint : String) (c : Coordinator)
    → IsStored execution fingerprint c
    → is_some (report_of execution c) ≡ true
unfolding execution_status
stored-reports execution fingerprint c s = rw s.found

pub replay_of-stored :
    (execution : Execution) (fingerprint other : String) (c : Coordinator)
    (s : IsStored execution fingerprint c)
    → replay_of other c s.row
      ≡ (if text_eq fingerprint other then ok (report_of execution c) else err execution_conflict)
unfolding replay_of
replay_of-stored execution fingerprint other c s =
    let status =
      ap (execution_status true c)
        (find-has_key execution_id execution.source_event_id c.executions s.found) in
    let same = ap (λ f. text_eq f other) s.same_request in
    elim (Bool-cases (text_eq fingerprint other)) [
      | inl e ↦ rw (same, e, status)
      | inr e ↦ rw (same, e)
    ]

pub replay_if_present-stored :
    (execution again : Execution) (fingerprint other : String) (c : Coordinator)
    (s : IsStored execution fingerprint c)
    → again.source_event_id ≡ execution.source_event_id
    → again.integration_id ≡ execution.integration_id
    → replay_if_present again other c ≡ replay_of other c s.row
unfolding replay_if_present
replay_if_present-stored execution again fingerprint other c s same_event same_id =
    rw (same_id, same_event, s.own, s.found)
