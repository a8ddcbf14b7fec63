-- ===== src/StorageAlarm/Coverage.antt =====
-- The alarm covers all waiting work, and after a handler it is the one set from scratch.
use elmybot.Base.{
  ℕ, min, max, ◌≤◌, ◌≡◌, refl, ap, inl, inr, Bool, true, List, [], ◌∷◌, Option, none, some, map?,
  arith, Result, Bool-cases, All,
}
use elmybot.StorageAlarm.Wakeups.{
  Storage, earlier, min_due, table_due, next_storage_wakeup, is_replaced, alarm_for,
  schedule_storage_alarm, run_storage_alarm,
}

-- An alarm at `o` is no later than the time, if there is one.
abbrev pub ComesBy : Option ℕ → Option ℕ → Type 0
ComesBy o none = Unit
ComesBy o (some d) = (t : ℕ) × (o ≡ some t) × (t ≤ d)

earlier-first : (o p : Option ℕ) → ComesBy (earlier o p) o
unfolding earlier
earlier-first none p = tt
earlier-first (some t) none = (t, refl, omega arith)
earlier-first (some t) (some u) = (min t u, refl, omega arith)

earlier-second : (o p d : Option ℕ) → ComesBy p d → ComesBy (earlier o p) d
unfolding earlier
earlier-second o p none h = tt
earlier-second none p (some d) h = h
earlier-second (some t) none (some d) (u, e, le) = absurd (cc e)
earlier-second (some t) (some v) (some d) (u, e, le) = (min t v, refl, ground (arith, e, le))

min_due-ComesBy : (column : List (Option ℕ)) → All (ComesBy (min_due column)) column
unfolding min_due
min_due-ComesBy [] = tt
min_due-ComesBy (o ∷ os) = (earlier-first o (min_due os), later os (min_due-ComesBy os))
  where
    later :
        (ds : List (Option ℕ))
        → All (ComesBy (min_due os)) ds
        → All (ComesBy (earlier o (min_due os))) ds
    later [] h = tt
    later (d ∷ ds) h = (earlier-second o (min_due os) d h.0, later ds h.1)

-- All due times of a table that exists.
abbrev pub AllDue : (Option ℕ → Type 0) → Option (List (Option ℕ)) → Type 0
AllDue P none = Unit
AllDue P (some column) = All P column

All-imp :
    (P Q : Option ℕ → Type 0)
    → ((d : Option ℕ) → P d → Q d)
    → (ds : List (Option ℕ)) → All P ds
    → All Q ds
All-imp P Q f [] h = tt
All-imp P Q f (d ∷ ds) h = (f d h.0, All-imp P Q f ds h.1)

AllDue-imp :
    (P Q : Option ℕ → Type 0)
    → ((d : Option ℕ) → P d → Q d)
    → (tables : List (Option (List (Option ℕ)))) → All (AllDue P) tables
    → All (AllDue Q) tables
AllDue-imp P Q f [] h = tt
AllDue-imp P Q f (none ∷ ts) h = (tt, AllDue-imp P Q f ts h.1)
AllDue-imp P Q f (some column ∷ ts) h = (All-imp P Q f column h.0, AllDue-imp P Q f ts h.1)

ComesBy-trans : (o p d : Option ℕ) → ComesBy o p → ComesBy p d → ComesBy o d
ComesBy-trans o p none h k = tt
ComesBy-trans o none (some d) h (u, e, le) = absurd (cc e)
ComesBy-trans o (some v) (some d) (t, e, le) (u, e', le') = (t, e, ground (arith, e', le, le'))

table_due-ComesBy : (t : Option (List (Option ℕ))) → AllDue (ComesBy (table_due t)) t
unfolding table_due
table_due-ComesBy none = tt
table_due-ComesBy (some column) = min_due-ComesBy column

-- The next wakeup is no later than the candidate and every due time.
wakeup-ComesBy :
    (candidate : Option ℕ) (tables : List (Option (List (Option ℕ))))
    → let o = next_storage_wakeup candidate tables in
      ComesBy o candidate × All (AllDue (ComesBy o)) tables
unfolding next_storage_wakeup
wakeup-ComesBy none [] = (tt, tt)
wakeup-ComesBy (some c) [] = ((c, refl, omega arith), tt)
wakeup-ComesBy candidate (t ∷ ts) =
    let rest = next_storage_wakeup candidate ts in
    let o = earlier (table_due t) rest in
    let (c, all) = wakeup-ComesBy candidate ts in
    (
      earlier-second (table_due t) rest candidate c,
      (
        one o t (earlier-first (table_due t) rest) (table_due-ComesBy t),
        AllDue-imp (ComesBy rest) (ComesBy o) (λ d h. earlier-second (table_due t) rest d h) ts all,
      ),
    )
  where
    one :
        (o : Option ℕ) (u : Option (List (Option ℕ)))
        → ComesBy o (table_due u)
        → AllDue (ComesBy (table_due u)) u
        → AllDue (ComesBy o) u
    one o none h k = tt
    one o (some column) h k =
        All-imp (ComesBy (table_due (some column))) (ComesBy o)
          (λ d e. ComesBy-trans o (table_due (some column)) d h e) column k

-- An alarm at `o` is no later than the due time, or than now if that is later.
abbrev pub Covers : ℕ → Option ℕ → Option ℕ → Type 0
Covers now o none = Unit
Covers now o (some d) = (t : ℕ) × (o ≡ some t) × (t ≤ max now d)

-- The alarm that is left, for the wakeup that was chosen.
alarm_for-Covers :
    (due current : Option ℕ) (now : ℕ) (recompute : Bool)
    → Covers now (alarm_for due current now recompute) due
unfolding alarm_for is_replaced
alarm_for-Covers none current now recompute = tt
alarm_for-Covers (some due) none now recompute = (max now due, refl, omega arith)
alarm_for-Covers (some due) (some current) now recompute =
    elim (Bool-cases (is_replaced (some current) (max now due) now recompute)) [
      | inl new ↦ rw new (max now due, refl, omega arith)
      | inr old ↦ rw old (current, refl, ground (arith, old))
    ]

Covers-ComesBy : (now : ℕ) (o p d : Option ℕ) → Covers now o p → ComesBy p d → Covers now o d
Covers-ComesBy now o p none h k = tt
Covers-ComesBy now o none (some d) h (u, e, le) = absurd (cc e)
Covers-ComesBy now o (some v) (some d) (t, e, le) (u, e', le') = (t, e, ground (arith, e', le, le'))

-- After the alarm is scheduled, it is set no later than the candidate and every due time of every
-- table, or than now if that is later, whatever it was before.
pub schedule_storage_alarm-Covers :
    (candidate : Option ℕ) (now : ℕ) (recompute : Bool) (s : Storage)
    → let s' = schedule_storage_alarm candidate now recompute s in
      Covers now s'.alarm candidate × All (AllDue (Covers now s'.alarm)) s'.tables
unfolding schedule_storage_alarm
schedule_storage_alarm-Covers candidate now recompute s =
    let o = (schedule_storage_alarm candidate now recompute s).alarm in
    let p = next_storage_wakeup candidate s.tables in
    let set = alarm_for-Covers p s.alarm now recompute in
    let (c, all) = wakeup-ComesBy candidate s.tables in
    (
      Covers-ComesBy now o p candidate set c,
      AllDue-imp (ComesBy p) (Covers now o) (λ d h. Covers-ComesBy now o p d set h) s.tables all,
    )

-- Scheduling from scratch is the same as setting the alarm to the earliest due time, or to now.
alarm_for-scratch :
    (due current : Option ℕ) (now : ℕ) → alarm_for due current now true ≡ map? (max now) due
unfolding alarm_for is_replaced
alarm_for-scratch none current now = refl
alarm_for-scratch (some due) none now = refl
alarm_for-scratch (some due) (some current) now =
    elim (Bool-cases (is_replaced (some current) (max now due) now true)) [
      | inl new ↦ rw new
      | inr old ↦ let same : current ≡ max now due = ground (arith, old) in rw old (ap some same)
    ]

-- A run of a handler ends with the alarm that is set from scratch: at the earliest due time of all
-- tables, or now if that is past, and unset if there is none. That holds whether the handler returns
-- or throws, and whatever alarm it leaves.
pub run_storage_alarm-scratch {ℓ κ} :
    {E : Type ℓ} {A : Type κ} (handler : Storage → Result E A × Storage) (now : ℕ) (s : Storage)
    → let (result, left) = handler s in
      run_storage_alarm handler now s
      ≡ (result, record left { alarm = map? (max now) (next_storage_wakeup none left.tables) })
unfolding run_storage_alarm schedule_storage_alarm
run_storage_alarm-scratch handler now s =
    let left = (handler s).1 in
    ap (λ (o : Option ℕ). ((handler s).0, record left { alarm = o }))
      (alarm_for-scratch (next_storage_wakeup none left.tables) left.alarm now)
