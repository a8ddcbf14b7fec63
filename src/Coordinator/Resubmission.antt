-- ===== src/Coordinator/Resubmission.antt =====
-- `submit` of an event that was submitted before.
use elmybot.Base.{
  ℕ, String, ◌≡◌, refl, ap, ◌∙◌, subst, inl, inr, true, false, Option, none, some, arith, ok, err,
  Option-cases, if◌then◌else◌, text_eq, is_some,
}
use elmybot.Sql.{find}
use elmybot.Coordinator.Types.{Coordinator, Execution, ExecutionRow, Report, execution_conflict}
use elmybot.Coordinator.Storage.{execution_id, execution_status}
use elmybot.Coordinator.Submit.{commit, replay_if_present}
use elmybot.Base.{◌+◌, ◌≤◌, sym, Bool, List, Result}
use elmybot.Sql.{find-delete-some}
use elmybot.Coordinator.Types.{Handler, CoordinatorError}
use elmybot.Coordinator.Storage.{prune_completed_executions, is_expired, set_next_alarm}
use elmybot.Coordinator.Submit.{validate_execution, require_active_membership}
use elmybot.Coordinator.Calls.{perform_all}
use elmybot.Coordinator.Submission.{
  Answer, Surroundings, finish_submit, submit_member, submit_new, submit_valid, begin_submit,
  submit,
}
use elmybot.Coordinator.Replays.{
  IsStored, replay-IsStored, commit-IsStored, stored-reports, replay_of-stored,
  replay_if_present-stored,
}

-- A replay, or a conflict, is the answer.
answered :
    (other : Execution) (fingerprint : String) (world : Surroundings) (c : Coordinator)
    (same : Bool) (status : Option Report)
    → is_some status ≡ true
    → submit_new other fingerprint world (c, if same then ok status else err execution_conflict)
      ≡ (c, if same then ok status else err execution_conflict)
unfolding submit_new
answered other fingerprint world c false status h = refl
answered other fingerprint world c true none h = absurd (cc h)
answered other fingerprint world c true (some r) h = refl

-- The first half of a submission, for an event that is stored.
replay-stored :
    (execution again : Execution) (fingerprint other : String) (c : Coordinator)
    → IsStored execution fingerprint c
    → again.source_event_id ≡ execution.source_event_id
    → again.integration_id ≡ execution.integration_id
    → replay_if_present again other c ≡ (
        if text_eq fingerprint other
        then ok (execution_status true c execution.source_event_id)
        else err execution_conflict)
replay-stored execution again fingerprint other c s same_event same_id =
    replay_if_present-stored execution again fingerprint other c s same_event same_id
    ∙ replay_of-stored execution fingerprint other c s

finish-IsStored :
    (execution : Execution) (fingerprint : String) (alarm_ms : ℕ) (c c' : Coordinator)
    (r : Result CoordinatorError (Coordinator × Option Report)) (report : Option Report)
    → ((stored : Coordinator) (answer : Option Report)
        → r ≡ ok (stored, answer)
        → IsStored execution fingerprint stored)
    → finish_submit alarm_ms c r ≡ (c', ok report)
    → IsStored execution fingerprint c'
unfolding finish_submit set_next_alarm
finish-IsStored execution fingerprint alarm_ms c c' (err e) report k h = absurd (cc h)
finish-IsStored execution fingerprint alarm_ms c c' (ok (stored, answer)) report k h =
    let s = k stored answer refl in
    subst (IsStored execution fingerprint) (ap (λ (a : Answer). a.0) h)
      (record { row = s.row; found = s.found; same_request = s.same_request; own = s.own })

member-IsStored :
    (execution : Execution) (fingerprint : String) (world : Surroundings) (c c' : Coordinator)
    (allowed : Result CoordinatorError (Unit {0})) (report : Option Report)
    → submit_member execution fingerprint world.accepted_at_ms world.ids world.alarm_ms c allowed
      ≡ (c', ok report)
    → IsStored execution fingerprint c'
unfolding submit_member
member-IsStored execution fingerprint world c c' (err e) report h = absurd (cc h)
member-IsStored execution fingerprint world c c' (ok _) report h =
    finish-IsStored execution fingerprint world.alarm_ms c c'
      (commit execution fingerprint world.accepted_at_ms world.ids c) report
      (λ stored answer e.
        commit-IsStored execution fingerprint world.accepted_at_ms world.ids c stored answer e)
      h

-- What a submission that is answered leaves.
new-IsStored :
    (execution : Execution) (fingerprint : String) (world : Surroundings) (c c' : Coordinator)
    (first : Result CoordinatorError (Option Report)) (report : Option Report)
    → replay_if_present execution fingerprint c ≡ first
    → submit_new execution fingerprint world (c, first) ≡ (c', ok report)
    → IsStored execution fingerprint c'
unfolding submit_new
new-IsStored execution fingerprint world c c' (err e) report r h = absurd (cc h)
new-IsStored execution fingerprint world c c' (ok (some again)) report r h =
    subst (IsStored execution fingerprint) (ap (λ (a : Answer). a.0) h)
      (replay-IsStored execution fingerprint c again r)
new-IsStored execution fingerprint world c c' (ok none) report r h =
    member-IsStored execution fingerprint world (perform_all world.meanwhile c) c'
      (require_active_membership execution world.lookup) report h

-- The execution of the event, if it is completed, was completed at most 14 days before `now`.
abbrev pub IsRetained : ℕ → String → Coordinator → Type 0
IsRetained now event c =
    (row : ExecutionRow)
    → find execution_id event c.executions ≡ some row
    → (t : ℕ) → row.completed_at_ms ≡ some t
    → now ≤ t + 1_209_600_000

retained-is_expired :
    (now : ℕ) (row : ExecutionRow)
    → ((t : ℕ) → row.completed_at_ms ≡ some t → now ≤ t + 1_209_600_000)
    → is_expired now row ≡ false
unfolding is_expired
retained-is_expired now row h = elim (Option-cases row.completed_at_ms) [
  | inl open_yet ↦ rw (open_yet, is_expired) refl
  | inr (t, done) ↦ let bound = h t done in ground (arith, done, bound)
]

prune-IsStored :
    (now : ℕ) (execution : Execution) (fingerprint : String) (c : Coordinator)
    → IsRetained now execution.source_event_id c
    → IsStored execution fingerprint c
    → IsStored execution fingerprint (prune_completed_executions now c)
unfolding prune_completed_executions
prune-IsStored now execution fingerprint c kept s = record {
  row = s.row;
  found =
      find-delete-some execution_id execution.source_event_id (is_expired now) c.executions s.row
        s.found (retained-is_expired now s.row (kept s.row s.found));
  same_request = s.same_request;
  own = s.own;
}

submit-begins :
    (digest : Execution → String) (handlers : List (String × Handler)) (world : Surroundings)
    (version : Option ℕ) (parsed : Result CoordinatorError Execution) (execution : Execution)
    (c : Coordinator)
    → validate_execution handlers version parsed ≡ ok execution
    → submit digest handlers world version parsed c
      ≡ submit_new execution (digest execution) world (
        prune_completed_executions world.prune_ms c,
        replay_if_present execution
            (digest execution)
            (prune_completed_executions world.prune_ms c),
      )
unfolding submit submit_valid begin_submit
submit-begins digest handlers world version parsed execution c valid = rw (valid, submit) refl

-- An event is submitted with an answer and then, with no step in between, submitted again by the same
-- integration, with any content. Where its execution is not completed, or was completed at most 14
-- days before, the second submission is answered with the report of the stored execution if the
-- digests agree, and is refused as a conflict otherwise. Nothing is written but for the pruning of
-- old executions, and the stored execution is still there.
pub submit_again :
    (digest : Execution → String) (handlers : List (String × Handler)) (world again : Surroundings)
    (version version' : Option ℕ) (parsed parsed' : Result CoordinatorError Execution)
    (execution other : Execution) (c c' : Coordinator) (report : Option Report)
    → validate_execution handlers version parsed ≡ ok execution
    → validate_execution handlers version' parsed' ≡ ok other
    → submit digest handlers world version parsed c ≡ (c', ok report)
    → other.source_event_id ≡ execution.source_event_id
    → other.integration_id ≡ execution.integration_id
    → IsRetained again.prune_ms execution.source_event_id c'
    → let kept = prune_completed_executions again.prune_ms c' in
      (submit digest handlers again version' parsed' c' ≡ (
        kept,
        if text_eq (digest execution) (digest other)
            then ok (execution_status true kept execution.source_event_id)
            else err execution_conflict,
      ))
      × (is_some (execution_status true kept execution.source_event_id) ≡ true)
submit_again digest handlers world again version version' parsed parsed' execution other c c' report
      valid valid' h same_event same_id retained =
    let pruned = prune_completed_executions world.prune_ms c in
    let stored =
      new-IsStored execution (digest execution) world pruned c'
        (replay_if_present execution (digest execution) pruned) report refl
        (sym (submit-begins digest handlers world version parsed execution c valid) ∙ h) in
    let kept = prune_completed_executions again.prune_ms c' in
    let s = prune-IsStored again.prune_ms execution (digest execution) c' retained stored in
    let shown = stored-reports execution (digest execution) kept s in
    (
      submit-begins digest handlers again version' parsed' other c' valid'
          ∙ ap (λ r. submit_new other (digest other) again (kept, r))
              (replay-stored execution other (digest execution) (digest other) kept s same_event
                same_id)
          ∙ answered other (digest other) again kept (text_eq (digest execution) (digest other))
              (execution_status true kept execution.source_event_id) shown,
      shown,
    )
