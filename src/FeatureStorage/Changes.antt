-- ===== src/FeatureStorage/Changes.antt =====
-- The requests that change what features store, in any order.
use elmybot.Base.{ℕ, String, List, [], ◌∷◌, Option, Result, ok, err}
use elmybot.FeatureStorage.Types.{Json, ValueKind, Storage, StorageError, Patterns, Field}
use elmybot.FeatureStorage.Values.{set_value, delete_value, increment_state}
use elmybot.FeatureStorage.Counters.{CounterInput, bounded_counter_state}

pub data Change : Type 0 where
  sets : ValueKind → Option String → Option String → Result StorageError Json → ℕ → Change
  deletes : ValueKind → Option String → Option String → Change
  increments : Option String → Option String → Field → ℕ → Change
  counts : CounterInput → ℕ → Change

-- An error rolls the transaction back.
abbrev pub after : Storage → Result StorageError Storage → Storage
after s (err e) = s
after s (ok s') = s'

abbrev pub after_answer {ℓ} : {A : Type ℓ} → Storage → Result StorageError (Storage × A) → Storage
after_answer s (err e) = s
after_answer s (ok (s', a)) = s'

module _ (patterns : Patterns) (key_of : String → String → String) where
  unfoldable pub perform : Change → Storage → Storage
  unfolding set_value delete_value increment_state bounded_counter_state
  perform (sets kind feature key value now_ms) s =
      after s (set_value patterns kind feature key value now_ms s)
  perform (deletes kind feature key) s = after_answer s (delete_value patterns kind feature key s)
  perform (increments feature key amount now_ms) s =
      after_answer s (increment_state patterns feature key amount now_ms s)
  perform (counts input now_ms) s =
      after_answer s (bounded_counter_state patterns key_of input now_ms s)

  unfoldable pub perform_all : List Change → Storage → Storage
  unfolding perform
  perform_all [] s = s
  perform_all (c ∷ cs) s = perform_all cs (perform c s)
