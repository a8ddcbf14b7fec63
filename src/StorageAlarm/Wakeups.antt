-- ===== src/StorageAlarm/Wakeups.antt =====
-- `nextStorageWakeup`, `scheduleStorageAlarmInTransaction` and `runStorageAlarm`.
use elmybot.Base.{
  ℕ, min, max, Bool, true, not, ◌&&◌, ◌||◌, List, [], ◌∷◌, Option, none, some, Result, ltb, leb,
  ◌==◌, if◌then◌else◌,
}

-- The columns with due times of the tables that wake the object, `none` for a table that does not
-- exist, and its alarm. A column may be null.
pub record Storage : Type 0 where
  pub tables : List (Option (List (Option ℕ)))
  pub alarm : Option ℕ

unfoldable pub earlier : Option ℕ → Option ℕ → Option ℕ
earlier none o = o
earlier (some t) none = some t
earlier (some t) (some u) = some (min t u)

-- SELECT MIN(column), which passes over nulls.
unfoldable pub min_due : List (Option ℕ) → Option ℕ
unfolding earlier
min_due [] = none
min_due (o ∷ os) = earlier o (min_due os)

unfoldable pub table_due : Option (List (Option ℕ)) → Option ℕ
unfolding min_due
table_due none = none
table_due (some column) = min_due column

unfoldable pub next_storage_wakeup : Option ℕ → List (Option (List (Option ℕ))) → Option ℕ
unfolding earlier table_due
next_storage_wakeup candidate [] = candidate
next_storage_wakeup candidate (t ∷ ts) = earlier (table_due t) (next_storage_wakeup candidate ts)

-- Whether an alarm at `current` is replaced by one at `next`.
unfoldable pub is_replaced : Option ℕ → ℕ → ℕ → Bool → Bool
is_replaced none next now_ms recompute = true
is_replaced (some current) next now_ms recompute =
    ltb next current || ((leb current now_ms || recompute) && not (current == next))

-- The alarm for the next due time, where it was at `current`.
unfoldable pub alarm_for : Option ℕ → Option ℕ → ℕ → Bool → Option ℕ
unfolding is_replaced
alarm_for none current now_ms recompute = none
alarm_for (some due) current now_ms recompute =
    if is_replaced current (max now_ms due) now_ms recompute then some (max now_ms due) else current

unfoldable pub schedule_storage_alarm : Option ℕ → ℕ → Bool → Storage → Storage
unfolding next_storage_wakeup alarm_for
schedule_storage_alarm candidate now_ms recompute s = record s {
  alarm = alarm_for (next_storage_wakeup candidate s.tables) s.alarm now_ms recompute;
}

-- The handler may return or throw, and leaves the storage then.
unfoldable pub run_storage_alarm {ℓ κ} :
    {E : Type ℓ} {A : Type κ}
    → (Storage → Result E A × Storage)
    → ℕ
    → Storage
    → Result E A × Storage
unfolding schedule_storage_alarm
run_storage_alarm handler now_ms s =
    let (result, left) = handler s in (result, schedule_storage_alarm none now_ms true left)
