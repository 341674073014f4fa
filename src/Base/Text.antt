-- ===== src/Base/Text.antt =====
-- Texts as the code points that the program's patterns and lengths look at.
use Prim.Native.Nat.{ℕ}
use Prim.Native.Char.{code}
use Prim.Native.String.{String}
use mathlib.Core.Bool.{Bool, ◌&&◌, ◌||◌}
use mathlib.Core.List.{List, [], ◌∷◌}
use subnet.Base.Tests.{leb}
use subnet.Base.Lists.{length, all}

-- `String` has its own `[]` and `∷`.
abbrev pub codes : String → List ℕ
codes String.[] = []
codes (String.◌∷◌ c s) = code c ∷ codes s

-- `len(s)`
abbrev pub text_length : String → ℕ
text_length s = length (codes s)

abbrev pub is_digit : ℕ → Bool
is_digit c = leb b'0' c && leb c b'9'

-- `[0-9a-f]`
abbrev pub is_lower_hex : ℕ → Bool
is_lower_hex c = is_digit c || (leb b'a' c && leb c b'f')

-- `[0-9a-fA-F]`
abbrev pub is_hex : ℕ → Bool
is_hex c = is_lower_hex c || (leb b'A' c && leb c b'F')

-- `^[0-9a-fA-F]*$`
abbrev pub is_hex_text : String → Bool
is_hex_text s = all is_hex (codes s)
