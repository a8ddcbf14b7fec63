-- ===== src/Coordinator/Idle.antt =====
-- An effect that is not being attempted, under the steps that do not claim it.
use elmybot.Base.{
  ℕ, String, ◌≡◌, ◌≢◌, refl, sym, ◌∙◌, subst, inl, inr, true, false, List, none, some, arith,
  Result, ok, err, All, Option-cases, Bool-cases, suc,
}
use elmybot.Sql
use elmybot.Sql.{
  find, find-has_key, has_key, select, select-holds, select-All, first_by, first_by-none,
  first_by-All, find-update_self, Distinct, Distinct-find,
}
use elmybot.Coordinator.Types.{EffectRow, Coordinator, Failure, is_open, is_attempting}
use elmybot.Coordinator.Storage.{effect_id, stored_error}
use elmybot.Coordinator.Effects.{
  update_effect, leased, claim_effect, is_in_flight, delivered_effect, complete_effect,
  waiting_effect, dead_effect, is_final, fail_current, fail_effect, refresh,
}
use elmybot.Base.{
  Bool, text_eq, text_eq→≡, text_eq_refl, [], ◌∷◌, Option, Result-cases, All-append, All-map_imp,
  All-every,
}
use elmybot.Sql.{
  first, first-All, find-none→All, Distinct-only, update-All, update-All-All, delete-All,
}
use elmybot.Coordinator.Types.{Effect, Execution, CoordinatorError, Report}
use elmybot.Coordinator.Storage.{idempotency_key, prune_completed_executions, set_next_alarm}
use elmybot.Coordinator.Submit.{
  insert_effect, insert_effects, new_effect, store_execution, replay_if_present, commit,
}
use elmybot.Coordinator.Effects.{
  retry_effect, requeue, requeued, dead_letter_remaining, dead_effect, is_open_row,
}
use elmybot.Coordinator.Committing.{insert_effect-eq-ok}
use elmybot.Coordinator.Naming.{refresh_all-effects}
use elmybot.Coordinator.Calls.{
  Call, prunes, schedules, commits, retries, claims, completes, fails, stops, after, perform,
  perform_all,
}

-- No effect of that ID is being attempted.
abbrev pub IsIdle : String → EffectRow → Type 0
IsIdle id x = text_eq x.effect_id id ≡ true → is_attempting x.state ≡ false

abbrev pub AllIdle : String → Coordinator → Type 0
AllIdle id c = All (IsIdle id) c.effects

-- The state of an effect that is not being attempted stays idle under any UPDATE to another such
-- state.
update-AllIdle :
    (id : String) (p : EffectRow → Bool) (f : EffectRow → EffectRow)
    → ((x : EffectRow) → is_attempting (f x).state ≡ false)
    → (effects : List EffectRow) → All (IsIdle id) effects
    → All (IsIdle id) (Sql.update p f effects)
update-AllIdle id p f idle effects h = update-All (IsIdle id) p f effects (λ x _ _ _. idle x) h

pub update_own-AllIdle :
    (id : String) (f : EffectRow → EffectRow)
    → ((x : EffectRow) → is_attempting (f x).state ≡ false)
    → (effects : List EffectRow) → All (IsIdle id) (Sql.update (has_key effect_id id) f effects)
update_own-AllIdle id f idle effects =
    update-All-All (λ x. Unit {0}) (IsIdle id) (has_key effect_id id) f effects (λ x _ _ _. idle x)
      (λ x miss _ same. absurd (ground (arith, same, miss)))
      (All-every (λ x. Unit {0}) (λ x. tt) effects)

pub idle-AllIdle :
    (id : String) (c : Coordinator)
    → Distinct effect_id c.effects
    → is_in_flight id c ≡ false
    → AllIdle id c
unfolding is_in_flight
idle-AllIdle id c d h = elim (Option-cases (find effect_id id c.effects)) [
  | inl miss ↦
      All-map_imp (λ x. has_key effect_id id x ≡ false) (IsIdle id)
        (λ x ne same. absurd (ground (arith, same, ne))) c.effects
        (find-none→All effect_id id c.effects miss)
  | inr (r, hit) ↦
      let idle : is_attempting r.state ≡ false = ground (arith, hit, h) in
      All-map_imp (λ x. has_key effect_id id x ≡ true → x ≡ r) (IsIdle id)
        (λ x only same. subst (λ y. is_attempting y.state ≡ false) (sym (only same)) idle) c.effects
        (Distinct-only effect_id id c.effects r d hit)
]

pub AllIdle-idle : (id : String) (c : Coordinator) → AllIdle id c → is_in_flight id c ≡ false
unfolding is_in_flight find
AllIdle-idle id c h = elim (Option-cases (find effect_id id c.effects)) [
  | inl miss ↦ rw (miss, is_in_flight) refl
  | inr (r, hit) ↦
      rw (hit, is_in_flight)
        (first-All (IsIdle id) (has_key effect_id id) c.effects h hit
          (rw (find-has_key effect_id id c.effects hit) (text_eq_refl id)))
]

-- A report on some effect.
fail_current-AllIdle :
    (id : String) (e : EffectRow) (failure : Failure) (now : ℕ) (c : Coordinator) (r : EffectRow)
    → AllIdle id c
    → AllIdle id (fail_current e failure now c r)
unfolding fail_current refresh update_effect waiting_effect dead_effect is_attempting
fail_current-AllIdle id e failure now c r h = elim (Bool-cases (is_attempting r.state)) [
  | inr idle ↦ rw (idle, fail_current) h
  | inl flight ↦ elim (Bool-cases (is_final failure r)) [
    | inl stop ↦
        rw (flight, stop, fail_current)
          (update-AllIdle id (has_key effect_id e.effect_id)
            (dead_effect (stored_error failure now)) (λ x. refl) c.effects h)
    | inr go ↦
        rw (flight, go, fail_current)
          (update-AllIdle id (has_key effect_id e.effect_id) (waiting_effect failure now)
            (λ x. refl) c.effects h)
  ]
]

pub fail_effect-AllIdle :
    (id : String) (e : EffectRow) (failure : Failure) (now : ℕ) (c : Coordinator)
    → AllIdle id c
    → AllIdle id (fail_effect e failure now c)
unfolding fail_effect
fail_effect-AllIdle id e failure now c h =
    elim (Option-cases (find effect_id e.effect_id c.effects)) [
      | inl miss ↦ rw (miss, fail_effect) h
      | inr (r, hit) ↦ rw (hit, fail_effect) (fail_current-AllIdle id e failure now c r h)
    ]

complete_effect-AllIdle :
    (id : String) (e : EffectRow) (result : String) (now : ℕ) (c : Coordinator)
    → AllIdle id c
    → AllIdle id (complete_effect e result now c)
unfolding complete_effect refresh update_effect delivered_effect is_attempting
complete_effect-AllIdle id e result now c h = elim (Bool-cases (is_in_flight e.effect_id c)) [
  | inr idle ↦ rw (idle, complete_effect) h
  | inl flight ↦
      rw (flight, complete_effect)
        (update-AllIdle id (has_key effect_id e.effect_id) (delivered_effect result now) (λ x. refl)
          c.effects h)
]

insert_effects-AllIdle :
    (id : String) (execution : Execution) (accepted : ℕ) (ids : ℕ → String) (es : List Effect)
    (effects effects' : List EffectRow)
    → insert_effects execution accepted ids es effects ≡ ok effects'
    → All (IsIdle id) effects
    → All (IsIdle id) effects'
unfolding insert_effects new_effect is_attempting
insert_effects-AllIdle id execution accepted ids [] effects effects' h n =
    subst (All (IsIdle id)) (ground arith) n
insert_effects-AllIdle id execution accepted ids (e ∷ es) effects effects' h n =
    let x = new_effect execution accepted (ids 0) e in
    elim (Result-cases (insert_effect x effects)) [
      | inl (bad, fails_to) ↦ absurd (ground arith)
      | inr (next, goes) ↦
          insert_effects-AllIdle id execution accepted (λ k. ids (suc k)) es next effects'
            (ground arith)
            (subst (All (IsIdle id)) (sym (insert_effect-eq-ok x effects next goes).2)
              (All-append (IsIdle id) effects (x ∷ []) n ((λ _. refl), tt)))
    ]

commit-AllIdle :
    (id : String) (execution : Execution) (fingerprint : String) (accepted : ℕ) (ids : ℕ → String)
    (c c' : Coordinator) (report : Option Report)
    → commit execution fingerprint accepted ids c ≡ ok (c', report)
    → AllIdle id c
    → AllIdle id c'
unfolding commit store_execution
commit-AllIdle id execution fingerprint accepted ids c c' report h v =
    elim (Result-cases (replay_if_present execution fingerprint c)) [
      | inl (bad, fails_to) ↦ absurd (ground arith)
      | inr (some again, replays) ↦
          subst (All (IsIdle id)) {x = c.effects} {y = c'.effects} (ground arith) v
      | inr (none, fresh) ↦
          elim (Result-cases (insert_effects execution accepted ids execution.effects c.effects)) [
            | inl (bad, fails_to) ↦ absurd (ground arith)
            | inr (effects', goes) ↦
                let stored : c'.effects ≡ effects' = ground arith in
                subst (All (IsIdle id)) (sym stored) (
                  insert_effects-AllIdle id execution accepted ids execution.effects c.effects
                    effects' goes v)
          ]
    ]

retry_effect-AllIdle :
    (id integration key : String) (now : ℕ) (c c' : Coordinator) (report : Option Report)
    → retry_effect integration key now c ≡ ok (c', report)
    → AllIdle id c
    → AllIdle id c'
unfolding retry_effect requeue update_effect refresh requeued is_attempting
retry_effect-AllIdle id integration key now c c' report h v =
    elim (Option-cases (find idempotency_key key c.effects)) [
      | inl miss ↦ absurd (ground arith)
      | inr (r, hit) ↦
          subst (All (IsIdle id)) {y = c'.effects} (ground arith) (
            update-AllIdle id (has_key effect_id r.effect_id) (requeued now) (λ x. refl) c.effects
              v)
    ]

claim_effect-AllIdle :
    (id other : String) (now : ℕ) (c c' : Coordinator) (e : EffectRow)
    → other ≢ id
    → claim_effect other now c ≡ some (e, c')
    → AllIdle id c
    → AllIdle id c'
unfolding claim_effect update_effect leased
claim_effect-AllIdle id other now c c' e ne h v =
    elim (Option-cases (find effect_id other c.effects)) [
      | inl miss ↦ absurd (ground arith)
      | inr (r, hit) ↦ elim (Bool-cases (is_open r.state)) [
        | inr closed ↦ absurd (ground arith)
        | inl o ↦
            let left : c'.effects ≡ Sql.update (has_key effect_id other) (leased now) c.effects =
              ground arith in
            subst (All (IsIdle id)) (sym left) (
              update-All (IsIdle id) (has_key effect_id other) (leased now) c.effects
                (λ x own _ same.
                  absurd
                    (ne (sym (text_eq→≡ x.effect_id other own) ∙ text_eq→≡ x.effect_id id same)))
                v)
      ]
    ]

after-AllIdle :
    (id : String) (c : Coordinator) (r : Result CoordinatorError (Coordinator × Option Report))
    → ((c' : Coordinator) (report : Option Report) → r ≡ ok (c', report) → AllIdle id c')
    → AllIdle id c
    → AllIdle id (after c r)
after-AllIdle id c (err e) k v = v
after-AllIdle id c (ok (c', report)) k v = k c' report refl

-- The call does not claim the effect for another attempt.
abbrev pub IsNoClaim : String → Call → Type 0
IsNoClaim id (claims other now) = other ≢ id
IsNoClaim id other = Unit

perform-AllIdle :
    (id : String) (call : Call) (c : Coordinator)
    → IsNoClaim id call
    → AllIdle id c
    → AllIdle id (perform call c)
unfolding perform prune_completed_executions set_next_alarm dead_letter_remaining dead_effect
    is_attempting
perform-AllIdle id (prunes now) c q v = delete-All (IsIdle id) _ c.effects v
perform-AllIdle id (schedules now) c q v = v
perform-AllIdle id (commits execution fingerprint accepted ids) c q v =
    after-AllIdle id c (commit execution fingerprint accepted ids c)
      (λ c' report e. commit-AllIdle id execution fingerprint accepted ids c c' report e v) v
perform-AllIdle id (retries integration key now) c q v =
    after-AllIdle id c (retry_effect integration key now c)
      (λ c' report e. retry_effect-AllIdle id integration key now c c' report e v) v
perform-AllIdle id (claims other now) c q v = elim (Option-cases (claim_effect other now c)) [
  | inl miss ↦ rw (miss, perform) v
  | inr ((e, c'), took) ↦ rw (took, perform) (claim_effect-AllIdle id other now c c' e q took v)
]
perform-AllIdle id (completes e result now) c q v = complete_effect-AllIdle id e result now c v
perform-AllIdle id (fails e failure now) c q v = fail_effect-AllIdle id e failure now c v
perform-AllIdle id (stops error now) c q v =
    subst (All (IsIdle id))
      (sym (refresh_all-effects (λ k. k) (Sql.select is_open_row c.effects) now _))
      (update-AllIdle id is_open_row (dead_effect error) (λ x. refl) c.effects v)

pub perform_all-AllIdle :
    (id : String) (calls : List Call) (c : Coordinator)
    → All (IsNoClaim id) calls
    → AllIdle id c
    → AllIdle id (perform_all calls c)
unfolding perform_all
perform_all-AllIdle id [] c q v = v
perform_all-AllIdle id (call ∷ calls) c q v =
    perform_all-AllIdle id calls (perform call c) q.1 (perform-AllIdle id call c q.0 v)
