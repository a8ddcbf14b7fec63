-- ===== src/RelayBudget/Tests.antt =====
-- A turn of the relay, and the theorems at concrete inputs.
use elmybot.Base.{◌+◌, ◌≤◌, ◌≡◌, refl, true, false, List, [], ◌∷◌, is_some, arith}
use elmybot.RelayBudget.Budget.{
  Row, Rpc, other, gap_recorded, interest, confirm, unknown, authority_append, interest_release,
  new_budget, start, run_turn,
}
use elmybot.RelayBudget.Limits.{Fits, run_turn-Fits, start-fresh}

abbrev publication : Row
publication = record { state = other; shared = true; probe_only = false; defer_cleanup = false }

abbrev control : Row
control = record { state = gap_recorded; shared = false; probe_only = false; defer_cleanup = false }

-- A shared publication reserves 19 calls, so that a control record has to wait for the next turn.
abbrev tried : List (Row × List Rpc)
tried =
    (publication, interest ∷ unknown ∷ authority_append ∷ confirm ∷ [])
    ∷ (control, interest_release ∷ [])
    ∷ []

tried_test :
    run_turn tried new_budget ≡ (12, record { reserved = 19; records = 1; publications = 1 })
unfolding run_turn
tried_test = refl

run_turn-Fits_example :
    let (cost, b') = run_turn tried new_budget in Fits b' × (0 + cost ≤ b'.reserved)
run_turn-Fits_example = run_turn-Fits tried new_budget (omega arith, omega arith, omega arith)

start-fresh_example : is_some (start publication new_budget) ≡ true
start-fresh_example = start-fresh publication
