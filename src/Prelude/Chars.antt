-- ===== src/Prelude/Chars.antt =====
-- Texts as lists of code points, and the character classes that identifiers are checked against.
use Prim.Native.Nat.{ℕ}
use Prim.Native.Char.{code}
use Prim.Native.String.{String}
use mathlib.Core.Bool.{Bool, ◌&&◌, ◌||◌}
use mathlib.Core.List.{List, [], ◌∷◌}
use ad_coder.Prelude.Tests.{leb}

unfoldable pub codes : String → List ℕ
codes String.[] = []
codes (String.◌∷◌ c text) = code c ∷ codes text

-- A code point from `first` to `last`.
abbrev pub within : ℕ → ℕ → ℕ → Bool
within first last c = leb first c && leb c last

abbrev pub is_letter : ℕ → Bool
is_letter c = within b'A' b'Z' c || within b'a' b'z' c

abbrev pub is_digit : ℕ → Bool
is_digit c = within b'0' b'9' c
