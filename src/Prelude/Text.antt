-- ===== src/Prelude/Text.antt =====
-- Texts by code points, and the character classes of the source's patterns.
use Prim.Native.Nat.{ℕ}
use Prim.Native.Char.{code}
use Prim.Native.String.{String}
use mathlib.Core.Bool.{Bool, true, ◌&&◌, ◌||◌}
use mathlib.Core.List.{List, [], ◌∷◌}
use sama.Prelude.Tests.{leb}

abbrev pub codes : String → List ℕ
codes String.[] = []
codes (String.◌∷◌ c s) = code c ∷ codes s

abbrev pub is_lower : ℕ → Bool
is_lower c = leb b'a' c && leb c b'z'

abbrev pub is_upper : ℕ → Bool
is_upper c = leb b'A' c && leb c b'Z'

abbrev pub is_digit : ℕ → Bool
is_digit c = leb b'0' c && leb c b'9'

-- [A-Za-z0-9]
unfoldable pub is_alnum : ℕ → Bool
is_alnum c = is_upper c || is_lower c || is_digit c

unfoldable pub all_in : (ℕ → Bool) → List ℕ → Bool
all_in p [] = true
all_in p (c ∷ cs) = p c && all_in p cs
