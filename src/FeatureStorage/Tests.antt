-- ===== src/FeatureStorage/Tests.antt =====
-- Runs of the feature storage, and the theorems at concrete inputs.
use elmybot.Base.{
  ℕ, ◌≤◌, String, ◌≡◌, refl, true, List, [], ◌∷◌, none, some, ok, err, text_eq, if◌then◌else◌,
  arith,
}
use elmybot.Sql.{delete, select, first, order_by, update, any_row, upsert, count}
use elmybot.FeatureStorage.Types.{
  pos, leℤ, absent, number, Storage, Patterns, CooldownRow, state, integer, other,
  namespace_conflict,
}
use elmybot.FeatureStorage.Values.{increment_state, mutation_version, set_value}
use elmybot.FeatureStorage.RoundTrip.{ReadsBack, set_value-ReadsBack}
use elmybot.FeatureStorage.Counters.{
  CounterInput, Descriptor, increment, require_bounded_counter_input, bounded_counter_state, within,
}
use elmybot.FeatureStorage.Cooldowns.{
  Scope, allowed, refused, claim_pruned, prune_expired_cooldowns,
}
use elmybot.FeatureStorage.Bounds.{bounded_counter_state-within}
use elmybot.FeatureStorage.Capacity.{IsWithinCapacity}
use elmybot.FeatureStorage.Changes.{Change, sets, deletes, increments, counts, perform_all}
use elmybot.FeatureStorage.Migration.{migrate, snapshot}
use elmybot.FeatureStorage.Sealing.{migrate_again}
use elmybot.FeatureStorage.Quota.{perform_all-capacity}
use elmybot.FeatureStorage.Exclusion.{claim_pruned-exclusive}

program : Unit {0}
unfolding perform_all set_value migrate snapshot bounded_counter_state increment_state claim_pruned
    delete first order_by select update any_row upsert count leℤ mutation_version
program = tt

abbrev empty : Storage
empty = record { values = []; versions = []; subjects = []; cooldowns = []; migrations = [] }

abbrev patterns : Patterns
patterns = record {
  is_feature_id = λ s. true;
  is_versioned_kind = λ s. true;
  is_key = λ s. true;
  is_scope = λ s. true;
}

-- 8 and 5 more, of a counter that ends at 10.
abbrev input : CounterInput
input = record {
  feature_id = some "games.score";
  name = some "points";
  subject = some "alice";
  label = ok none;
  min = absent;
  max = number (pos 10);
  initial = number (pos 8);
  operation = increment;
  amount = number (pos 5);
  value = absent;
}

abbrev key_of : String → String → String
key_of name subject = "bc_0"

abbrev counted : Storage
counted = record empty {
  values =
      record {
        value_kind = state;
        feature_id = "games.score";
        value_key = "bc_0";
        value_json = integer (pos 10);
        updated_at_ms = 5;
      }
      ∷ [];
  versions = record { feature_id = "games.score"; mutation_version = 1 } ∷ [];
}

counted_test : bounded_counter_state patterns key_of input 5 empty ≡ ok (counted, pos 10)
unfolding program
counted_test = refl

bounded_counter_state-within_example :
    (d : Descriptor) × (require_bounded_counter_input patterns input ≡ ok d)
    × (within d.min d.max (pos 10) ≡ true)
bounded_counter_state-within_example =
    bounded_counter_state-within patterns key_of input 5 empty counted (pos 10) counted_test

abbrev scope : Scope
scope = record {
  feature_id = "games.score";
  action_kind = "games.score.add.v1";
  scope_key = "alice";
}

abbrev claimed : List CooldownRow
claimed =
    record {
      feature_id = "games.score";
      action_kind = "games.score.add.v1";
      scope_key = "alice";
      expires_at_ms = 31_000;
    }
    ∷ []

claimed_test : claim_pruned scope 30 1000 [] ≡ ok (claimed, allowed)
unfolding program
claimed_test = refl

claim_pruned-exclusive_example :
    (n : ℕ) × (claim_pruned scope 60 30_500 claimed
      ≡ ok (prune_expired_cooldowns 30_500 claimed, refused n))
    × (1 ≤ n)
    × (n ≤ 30)
claim_pruned-exclusive_example =
    claim_pruned-exclusive scope 30 60 1000 30_500 [] claimed claimed_test (omega arith)
      (omega arith)

empty-capacity : IsWithinCapacity empty.values
unfolding program
empty-capacity k f = omega arith

abbrev requests : List Change
requests =
    counts input 5
    ∷ sets state (some "games.score") (some "title") (ok (other "\"Round 1\"")) 6
    ∷ increments (some "games.score") (some "rounds") absent 7
    ∷ deletes state (some "games.score") (some "title")
    ∷ []

requests_test : mutation_version "games.score" (perform_all patterns key_of requests empty) ≡ 4
unfolding program
requests_test = refl

perform_all-capacity_example : IsWithinCapacity (perform_all patterns key_of requests empty).values
perform_all-capacity_example = perform_all-capacity patterns key_of requests empty empty-capacity

abbrev sealed : Storage
sealed = record counted {
  migrations =
      record { feature_id = "games.score"; target_namespace_id = "shared"; sealed_at_ms = 9 } ∷ [];
}

sealed_test :
    migrate "games.score" "shared" 9 counted
    ≡ ok (sealed, snapshot "games.score" "shared" 9 counted)
unfolding program
sealed_test = refl

migrate_again_example : migrate "games.score" "elsewhere" 20 sealed ≡ (
    if text_eq "shared" "elsewhere"
    then ok (sealed, snapshot "games.score" "elsewhere" 9 sealed)
    else err namespace_conflict)
unfolding program
migrate_again_example =
    migrate_again "games.score" "shared" "elsewhere" 9 20 counted sealed
      (snapshot "games.score" "shared" 9 counted) sealed_test

abbrev votes : Storage
votes = record empty {
  values =
      record {
        value_kind = state;
        feature_id = "polls";
        value_key = "votes";
        value_json = integer (pos 3);
        updated_at_ms = 1000;
      }
      ∷ [];
  versions = record { feature_id = "polls"; mutation_version = 1 } ∷ [];
}

votes_test :
    set_value patterns state (some "polls") (some "votes") (ok (integer (pos 3))) 1000 empty
    ≡ ok votes
unfolding program
votes_test = refl

set_value-ReadsBack_example :
    ReadsBack patterns state (some "polls") (some "votes") (integer (pos 3)) empty votes
set_value-ReadsBack_example =
    set_value-ReadsBack patterns state (some "polls") (some "votes") (integer (pos 3)) 1000 empty
      votes votes_test
