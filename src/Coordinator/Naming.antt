-- ===== src/Coordinator/Naming.antt =====
-- Each effect stays with the event that its UUID was drawn for.
use elmybot.Base.{
  ℕ, suc, String, ◌≡◌, refl, sym, ap, ◌∙◌, subst, inl, inr, Bool, List, [], ◌∷◌, Option, none, some,
  arith, ok, Result-cases, All, All-append, Option-cases, Bool-cases,
}
use elmybot.Sql
use elmybot.Sql.{
  select, find, find-has_key, has_key, first, first-All, update-All, delete, delete-All,
}
use elmybot.Coordinator.Types.{
  EffectRow, Coordinator, Execution, Effect, is_attempting, LastError, Report, Failure, is_open,
}
use elmybot.Coordinator.Storage.{
  effect_id, idempotency_key, stored_error, prune_completed_executions,
}
use elmybot.Coordinator.Submit.{
  commit, store_execution, insert_effects, insert_effect, new_effect, ensure_coordinator_identity,
  replay_if_present,
}
use elmybot.Coordinator.Effects.{
  retry_effect, requeue, requeued, update_effect, leased, claim_effect, complete_effect,
  delivered_effect, is_in_flight, fail_effect, fail_current, is_final, waiting_effect, dead_effect,
  dead_letter_remaining, is_open_row, refresh, refresh_all,
}
use elmybot.Coordinator.Calls.{
  Call, prunes, schedules, commits, retries, claims, completes, fails, stops,
}
use elmybot.Coordinator.Transitions.{IsAbout}
use elmybot.Coordinator.Committing.{insert_effect-eq-ok}

-- `event_of` gives the one event that a UUID is ever drawn for.
module _ (event_of : String → String) where
  -- The effect belongs to the event that its ID was drawn for.
  abbrev pub IsNamed : EffectRow → Type 0
  IsNamed x = x.source_event_id ≡ event_of x.effect_id

  abbrev AllNamed : Coordinator → Type 0
  AllNamed c = All IsNamed c.effects

  -- New effects draw their IDs for their own event, and what is reported on has its own ID.
  abbrev pub IsDrawn : Call → Type 0
  IsDrawn (commits execution _ _ ids) = (n : ℕ) → execution.source_event_id ≡ event_of (ids n)
  IsDrawn (completes e _ _) = IsNamed e
  IsDrawn (fails e _ _) = IsNamed e
  IsDrawn (prunes _) = Unit
  IsDrawn (schedules _) = Unit
  IsDrawn (retries _ _ _) = Unit
  IsDrawn (claims _ _) = Unit
  IsDrawn (stops _ _) = Unit

  pub IsNamed-IsAbout : (e : EffectRow) (c : Coordinator) → IsNamed e → AllNamed c → IsAbout e c
  unfolding find
  IsNamed-IsAbout e c named all r hit =
      named
      ∙ ap event_of (sym (find-has_key effect_id e.effect_id c.effects hit))
      ∙ sym (first-All IsNamed (has_key effect_id e.effect_id) c.effects all hit)

  -- An UPDATE that keeps keys keeps each effect with its event.
  pub update-AllNamed :
      (p : EffectRow → Bool) (f : EffectRow → EffectRow)
      → ((x : EffectRow)
          → (effect_id (f x) ≡ effect_id x) × ((f x).source_event_id ≡ x.source_event_id))
      → (effects : List EffectRow) → All IsNamed effects
      → All IsNamed (Sql.update p f effects)
  update-AllNamed p f keep effects h =
      update-All IsNamed p f effects (λ x _ n. (keep x).1 ∙ n ∙ ap event_of (sym (keep x).0)) h

  pub refresh_all-effects :
      (es : List EffectRow) (now : ℕ) (c : Coordinator) → (refresh_all es now c).effects ≡ c.effects
  unfolding refresh_all refresh
  refresh_all-effects [] now c = refl
  refresh_all-effects (e ∷ es) now c = refresh_all-effects es now (refresh e.source_event_id now c)

  pub insert_effects-AllNamed :
      (execution : Execution) (accepted : ℕ) (ids : ℕ → String) (es : List Effect)
      (effects effects' : List EffectRow)
      → ((n : ℕ) → execution.source_event_id ≡ event_of (ids n))
      → insert_effects execution accepted ids es effects ≡ ok effects'
      → All IsNamed effects
      → All IsNamed effects'
  unfolding insert_effects new_effect
  insert_effects-AllNamed execution accepted ids [] effects effects' drawn h n =
      subst (All IsNamed) (ground arith) n
  insert_effects-AllNamed execution accepted ids (e ∷ es) effects effects' drawn h n =
      let x = new_effect execution accepted (ids 0) e in
      elim (Result-cases (insert_effect x effects)) [
        | inl (bad, fails_to) ↦ absurd (ground arith)
        | inr (next, goes) ↦
            insert_effects-AllNamed execution accepted (λ k. ids (suc k)) es next effects'
              (λ k. drawn (suc k)) (ground arith)
              (subst (All IsNamed) (sym (insert_effect-eq-ok x effects next goes).2)
                (All-append IsNamed effects (x ∷ []) n (drawn 0, tt)))
      ]

  pub commit-AllNamed :
      (execution : Execution) (fingerprint : String) (accepted : ℕ) (ids : ℕ → String)
      (c c' : Coordinator) (report : Option Report)
      → ((n : ℕ) → execution.source_event_id ≡ event_of (ids n))
      → commit execution fingerprint accepted ids c ≡ ok (c', report)
      → AllNamed c
      → AllNamed c'
  unfolding commit store_execution ensure_coordinator_identity
  commit-AllNamed execution fingerprint accepted ids c c' report drawn h n =
      elim (Result-cases (replay_if_present execution fingerprint c)) [
        | inl (bad, fails_to) ↦ absurd (ground arith)
        | inr (some again, replays) ↦ subst (All IsNamed) {y = c'.effects} (ground arith) n
        | inr (none, fresh) ↦
            elim (Result-cases
              (insert_effects execution accepted ids execution.effects c.effects)) [
                | inl (bad, fails_to) ↦ absurd (ground arith)
                | inr (effects', goes) ↦
                    let kept : c'.effects ≡ effects' = ground arith in
                    subst (All IsNamed) (sym kept) (
                      insert_effects-AllNamed execution accepted ids execution.effects c.effects
                        effects' drawn goes n)
              ]
      ]

  pub claim_effect-AllNamed :
      (id : String) (now : ℕ) (c c' : Coordinator) (e : EffectRow)
      → claim_effect id now c ≡ some (e, c')
      → AllNamed c
      → AllNamed c' × IsNamed e
  unfolding claim_effect update_effect leased find
  claim_effect-AllNamed id now c c' e h n = elim (Option-cases (find effect_id id c.effects)) [
    | inl miss ↦ absurd (ground arith)
    | inr (r, hit) ↦ elim (Bool-cases (is_open r.state)) [
      | inr closed ↦ absurd (ground arith)
      | inl o ↦ (
        subst (All IsNamed) {y = c'.effects} (ground arith)
            (update-AllNamed (has_key effect_id id) (leased now) (λ x. (refl, refl)) c.effects n),
        subst IsNamed {x = record r { attempts = suc r.attempts }} {y = e} (ground arith)
            (first-All IsNamed (has_key effect_id id) c.effects n hit),
      )
    ]
  ]

  pub retry_effect-AllNamed :
      (integration_id key : String) (now : ℕ) (c c' : Coordinator) (report : Option Report)
      → retry_effect integration_id key now c ≡ ok (c', report)
      → AllNamed c
      → AllNamed c'
  unfolding retry_effect requeue update_effect refresh requeued
  retry_effect-AllNamed integration_id key now c c' report h n =
      elim (Option-cases (find idempotency_key key c.effects)) [
        | inl miss ↦ absurd (ground arith)
        | inr (r, hit) ↦ subst (All IsNamed) {y = c'.effects} (ground arith) (
            update-AllNamed (has_key effect_id r.effect_id) (requeued now) (λ x. (refl, refl))
              c.effects n)
      ]

  pub complete_effect-AllNamed :
      (e : EffectRow) (result : String) (now : ℕ) (c : Coordinator)
      → AllNamed c
      → AllNamed (complete_effect e result now c)
  unfolding complete_effect update_effect refresh delivered_effect
  complete_effect-AllNamed e result now c n = elim (Bool-cases (is_in_flight e.effect_id c)) [
    | inr idle ↦ rw idle n
    | inl flight ↦ rw flight (
        update-AllNamed (has_key effect_id e.effect_id) (delivered_effect result now)
          (λ x. (refl, refl)) c.effects n)
  ]

  pub fail_current-AllNamed :
      (e : EffectRow) (failure : Failure) (now : ℕ) (c : Coordinator) (r : EffectRow)
      → AllNamed c
      → AllNamed (fail_current e failure now c r)
  unfolding fail_current update_effect refresh waiting_effect dead_effect
  fail_current-AllNamed e failure now c r n = elim (Bool-cases (is_attempting r.state)) [
    | inr idle ↦ rw idle n
    | inl flight ↦ elim (Bool-cases (is_final failure r)) [
      | inl stop ↦
          rw (flight, stop)
            (update-AllNamed (has_key effect_id e.effect_id)
              (dead_effect (stored_error failure now)) (λ x. (refl, refl)) c.effects n)
      | inr go ↦
          rw (flight, go)
            (update-AllNamed (has_key effect_id e.effect_id) (waiting_effect failure now)
              (λ x. (refl, refl)) c.effects n)
    ]
  ]

  pub fail_effect-AllNamed :
      (e : EffectRow) (failure : Failure) (now : ℕ) (c : Coordinator)
      → AllNamed c
      → AllNamed (fail_effect e failure now c)
  unfolding fail_effect
  fail_effect-AllNamed e failure now c n =
      elim (Option-cases (find effect_id e.effect_id c.effects)) [
        | inl miss ↦ rw (miss, fail_effect) n
        | inr (r, hit) ↦ rw (hit, fail_effect) (fail_current-AllNamed e failure now c r n)
      ]

  pub stop-AllNamed :
      (error : LastError) (now : ℕ) (c : Coordinator)
      → AllNamed c
      → AllNamed (dead_letter_remaining error now c)
  unfolding dead_letter_remaining dead_effect
  stop-AllNamed error now c n =
      subst (All IsNamed)
        (sym (
          refresh_all-effects (select is_open_row c.effects) now
            (record c { effects = Sql.update is_open_row (dead_effect error) c.effects })))
        (update-AllNamed is_open_row (dead_effect error) (λ x. (refl, refl)) c.effects n)

  pub prune-AllNamed :
      (now : ℕ) (c : Coordinator) → AllNamed c → AllNamed (prune_completed_executions now c)
  unfolding prune_completed_executions
  prune-AllNamed now c n = delete-All IsNamed _ c.effects n
