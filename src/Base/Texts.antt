-- ===== src/Base/Texts.antt =====
-- Texts as the program compares and measures them.
use Prim.Native.Nat.{ℕ, Ordering, ◌+◌, ◌-◌}
use Prim.Native.Char.{Char, code}
use Prim.Native.String.{String, compare}
use text.Mathlib.Text.{◌==◌ as native_eq, is_lt, is_eq}
use text.Mathlib.TextPositions.{eq_refl}
use text.Mathlib.TextEquality.{eq_iff}
use mathlib.Core.Path.{◌≡◌, refl}
use mathlib.Core.Logic.{◌≢◌}
use mathlib.Core.Bool.{Bool, true, false}
use native.Mathlib.Omega.{arith}
use elmybot.Base.Tests.{ltb, ◌==◌, if◌then◌else◌}

-- `a === b` on texts, and SQLite's `=` on TEXT.
abbrev pub text_eq : String → String → Bool
text_eq = native_eq

-- SQLite's order of TEXT (binary collation over UTF-8, the order of code points).
abbrev pub text_lt : String → String → Bool
text_lt a b = is_lt (compare a b)

pub text_eq_refl : (s : String) → text_eq s s ≡ true
text_eq_refl s = eq_refl s

pub text_eq→≡ : (s t : String) → text_eq s t ≡ true → s ≡ t
text_eq→≡ s t h = (eq_iff s t).0 h

eq-not_lt : (o : Ordering) → is_eq o ≡ true → is_lt o ≡ false
eq-not_lt Ordering.lt h = cc h
eq-not_lt Ordering.eq h = refl
eq-not_lt Ordering.gt h = refl

pub text_lt_irrefl : (s : String) → text_lt s s ≡ false
text_lt_irrefl s = eq-not_lt (compare s s) (text_eq_refl s)

pub text_ne : (s t : String) → s ≢ t → text_eq s t ≡ false
text_ne s t h = ground (arith, eq_iff s t)

-- UTF-16 code units of a character.
abbrev pub units : Char → ℕ
units c = if ltb (code c) 65536 then 1 else 2

-- `text.length`
unfoldable pub text_length : String → ℕ
text_length String.[] = 0
text_length (String.◌∷◌ c s) = units c + text_length s

-- `text.slice(0, n)`; a character that would be cut in the middle is left out.
unfoldable pub text_slice : ℕ → String → String
text_slice n String.[] = String.[]
text_slice n (String.◌∷◌ c s) =
    let rest = text_slice (n - units c) s in
    if ltb n (units c) then String.[] else String.◌∷◌ c rest

-- `text.startsWith(prefix)`, with the prefix first.
unfoldable pub starts_with : String → String → Bool
starts_with String.[] t = true
starts_with (String.◌∷◌ c p) String.[] = false
starts_with (String.◌∷◌ c p) (String.◌∷◌ d t) =
    let rest = starts_with p t in if code c == code d then rest else false
