-- ===== src/Protocol/Bytes.antt =====
-- Bytes as lists of numbers: Python's `int.to_bytes`, the cleaning of hex texts that
-- protocol/crypto.py, protocol/grail_verifier.py and protocol/signatures.py share, and
-- `bytes.fromhex`. Texts are code points; `strip` takes off ASCII white space.
use subnet.Base.{
  ℕ, zero, suc, ◌+◌, ◌*◌, ◌/◌, ◌%◌, ◌^◌, Bool, true, false, ◌&&◌, ◌||◌, Option, none, some, List,
  [], ◌≡◌, refl, ◌-◌, ◌∷◌, ◌++◌, if◌then◌else◌, ◌==◌, nat_eq, leb, length,
}
use subnet.Base.Maybe.{◌>>=◌}
use subnet.Base.Text.{codes, is_hex, is_digit}
use mathlib.Core.List.{reverse}

abbrev pub Bytes : Type 0
Bytes = List ℕ

-- `n.to_bytes(k, "big")` for `n` below 256 ^ k. (Python raises OverflowError above.)
unfoldable pub to_bytes : ℕ → ℕ → Bytes
to_bytes zero n = []
to_bytes (suc k) n = to_bytes k (n / 256) ++ (n % 256) ∷ []

-- `int_to_bytes`: `i & 0xFFFFFFFF`, big-endian in 4 bytes; `i` is given modulo 2 ^ 32.
unfoldable pub int_to_bytes : ℕ → Bytes
unfolding to_bytes
int_to_bytes i = to_bytes 4 (i % 2 ^ 32)

abbrev pub is_space : ℕ → Bool
is_space c = (c == 32) || (leb 9 c && leb c 13)

unfoldable pub lstrip : List ℕ → List ℕ
lstrip [] = []
lstrip (c ∷ cs) = let rest = lstrip cs in if is_space c then rest else c ∷ cs

unfoldable pub strip : List ℕ → List ℕ
unfolding lstrip
strip cs = reverse (lstrip (reverse (lstrip cs)))

-- `s.replace("0x", "")` for the second letter `x`.
unfoldable pub remove_prefixes : ℕ → List ℕ → List ℕ
remove_prefixes x [] = []
remove_prefixes x (c ∷ []) = c ∷ []
remove_prefixes x (c ∷ d ∷ cs) = elim ((c == b'0') && (d == x)) [
  | true ↦ remove_prefixes x cs
  | false ↦ c ∷ remove_prefixes x (d ∷ cs)
]

-- `rand_hex.strip().replace("0x", "").replace("0X", "")`, with a zero in front if the length is odd.
unfoldable pub clean_hex : List ℕ → List ℕ
unfolding strip remove_prefixes
clean_hex cs =
    let clean = remove_prefixes b'X' (remove_prefixes b'x' (strip cs)) in
    if length clean % 2 == 0 then clean else b'0' ∷ clean

abbrev pub hex_value : ℕ → ℕ
hex_value c = if is_digit c then c - b'0' else if leb b'a' c then c - 87 else c - 55

-- `bytes.fromhex(s)`: pairs of digits, with white space allowed between pairs; `none` is the
-- ValueError.
unfoldable pub from_hex : List ℕ → Option Bytes
from_hex [] = some []
from_hex (c ∷ []) = if is_space c then some [] else none
from_hex (c ∷ d ∷ cs) = elim (is_space c) [
  | true ↦ from_hex (d ∷ cs)
  | false ↦ elim (is_hex c && is_hex d) [
    | true ↦ from_hex cs >>= λ bs. some ((16 * hex_value c + hex_value d) ∷ bs)
    | false ↦ none
  ]
]

clean_hex_example : clean_hex (codes " 0xAbc ") ≡ codes "0Abc"
unfolding clean_hex
clean_hex_example = refl

from_hex_example : from_hex (codes "0A fF") ≡ some (10 ∷ 255 ∷ [])
unfolding from_hex
from_hex_example = refl
