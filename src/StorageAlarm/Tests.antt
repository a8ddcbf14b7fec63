-- ===== src/StorageAlarm/Tests.antt =====
-- Runs of the shared alarm, and the theorems at concrete inputs.
use elmybot.Base.{ℕ, max, String, false, [], ◌∷◌, none, some, map?, All, Result, err, ◌≡◌, refl}
use elmybot.StorageAlarm.Wakeups.{
  Storage, next_storage_wakeup, schedule_storage_alarm, run_storage_alarm,
}
use elmybot.StorageAlarm.Coverage.{
  Covers, AllDue, schedule_storage_alarm-Covers, run_storage_alarm-scratch,
}

-- A table that does not exist, and two with due times.
abbrev waiting : Storage
waiting = record {
  tables = none ∷ some (some 900 ∷ none ∷ []) ∷ some (some 700 ∷ []) ∷ [];
  alarm = some 100;
}

-- An alarm that is past is replaced by a later one.
past_test : (schedule_storage_alarm (some 800) 500 false waiting).alarm ≡ some 700
unfolding schedule_storage_alarm
past_test = refl

schedule_storage_alarm-Covers_example :
    let s' = schedule_storage_alarm (some 800) 500 false waiting in
    Covers 500 s'.alarm (some 800) × All (AllDue (Covers 500 s'.alarm)) s'.tables
schedule_storage_alarm-Covers_example = schedule_storage_alarm-Covers (some 800) 500 false waiting

-- A handler that throws, after it took the work of the last table.
abbrev failing : Storage → Result String ℕ × Storage
failing s = (err "offline", record s { tables = none ∷ some (some 900 ∷ none ∷ []) ∷ some [] ∷ [] })

run_storage_alarm-scratch_example :
    let (result, left) = failing waiting in
    run_storage_alarm failing 500 waiting
    ≡ (result, record left { alarm = map? (max 500) (next_storage_wakeup none left.tables) })
run_storage_alarm-scratch_example = run_storage_alarm-scratch failing 500 waiting
