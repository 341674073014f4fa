-- ===== src/Protocol/Crypto.antt =====
-- protocol/crypto.py: the PRF's input framing and the challenge indices, and
-- protocol/tokens.py's `hash_tokens`. The hash functions and Python's seeded generator are
-- parameters: `Hashes` and `Rng`. `none` is a raised ValueError.
pub mod Indices
pub mod Framing
use subnet.Base.{
  ℕ, zero, suc, ◌+◌, ◌-◌, ◌%◌, ◌^◌, ℤ, pos, mod_ℤ, Bool, true, false, not, ◌||◌, Option, none, some,
  List, [], ◌∷◌, ◌++◌, if◌then◌else◌, ◌==◌, nat_eq, String, ltb, leb, length, map, take, sorted,
  min,
}
use subnet.Base.Float.{Float}
use subnet.Base.Maybe.{◌>>=◌, ◌>>◌, guard}
use subnet.Base.Text.{codes}
use subnet.Protocol.Bytes.{Bytes, to_bytes, int_to_bytes, clean_hex, from_hex}

-- hashlib
pub record Hashes : Type 0 where
  pub sha256 : Bytes → Bytes
  -- `shake_256(data).digest(n)`
  pub shake256 : Bytes → ℕ → Bytes

-- `random.Random(material)`
pub record Rng : Type 0 where
  -- `sample(range(n), k)`
  pub sample : Bytes → ℕ → ℕ → List ℕ
  -- `shuffle(list(range(n)))`
  pub shuffled : Bytes → ℕ → List ℕ

-- `len(part).to_bytes(4, "big") + part` for each part
unfoldable pub frame : List Bytes → Bytes
frame [] = []
frame (part ∷ parts) = to_bytes 4 (length part) ++ (part ++ frame parts)

-- RNG_LABEL
abbrev pub label_sketch : Bytes
label_sketch = codes "sketch"

abbrev pub label_open : Bytes
label_open = codes "open"

abbrev concat_tokens : List ℤ → Bytes
concat_tokens [] = []
concat_tokens (t ∷ ts) = int_to_bytes (mod_ℤ t (2 ^ 32)) ++ concat_tokens ts

module _ (h : Hashes) where
  -- `prf(label, *parts, out_bytes=n)` for `n` a number
  unfoldable pub prf : Bytes → List Bytes → ℕ → Option Bytes
  prf label parts n =
      if ltb (2 ^ 16) n
      then none
      else if n == 0
      then some []
      else some (h.shake256 (frame (label ∷ parts)) n)

  unfoldable pub hash_tokens : List ℤ → Bytes
  hash_tokens tokens = h.sha256 (concat_tokens tokens)

  module _ {F : Type 0} (fl : Float F) (rng : Rng) where
    -- The choice between the two branches: `k < seq_len * 0.1`.
    unfoldable pub choose_indices : Bytes → ℕ → ℕ → List ℕ
    choose_indices material seq_len k =
        if fl.lt (fl.of_int (pos k)) (fl.mul (fl.of_int (pos seq_len)) (fl.decimal 1 1))
        then sorted leb (rng.sample material seq_len k)
        else sorted leb (take k (rng.shuffled material seq_len))

    unfoldable pub indices_from_root : List ℤ → String → ℕ → ℕ → Option (List ℕ)
    unfolding prf
    indices_from_root tokens rand_hex seq_len k = do
      guard (leb k seq_len)
      guard (ltb 0 k)
      guard (ltb 0 (length tokens))
      guard (ltb 0 (length (clean_hex (codes rand_hex))))
      seed ← from_hex (clean_hex (codes rand_hex))
      material ← prf label_open (hash_tokens tokens ∷ seed ∷ []) 32
      some (choose_indices material seq_len k)

    -- `start` and `end` are numbers here, so `start < 0` cannot hold.
    unfoldable pub indices_from_root_in_range : List ℤ → String → ℕ → ℕ → ℕ → Option (List ℕ)
    indices_from_root_in_range tokens rand_hex start end k =
        if ltb end start
        then none
        else if end - start == 0
        then some []
        else (indices_from_root tokens rand_hex (end - start) (min k (end - start)) >>= λ rel.
            some (map (λ i. start + i) rel))
