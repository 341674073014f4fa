-- ===== src/Protocol/PromptRange.antt =====
-- shared/prompt_range.py: the slice of prompts that a window accepts. `digest` is the SHA-256 of
-- the environment's name and the window's randomness.
use subnet.Base.{
  ℕ, ◌+◌, ◌-◌, ◌*◌, ◌%◌, ◌≤◌, ◌<◌, [], ◌∷◌, if◌then◌else◌, leb, take, ◌≡◌, arith, min,
}
use subnet.Protocol.Bytes.{Bytes}

-- `int.from_bytes(data, "big")`
unfoldable pub from_bytes : ℕ → Bytes → ℕ
from_bytes acc [] = acc
from_bytes acc (b ∷ bs) = from_bytes (256 * acc + b) bs

unfoldable pub window_prompt_range : Bytes → ℕ → ℕ → ℕ × ℕ
window_prompt_range digest universe_n size =
    if leb universe_n size
    then (0, universe_n)
    else (let lo = from_bytes 0 (take 8 digest) % (universe_n - size) in (lo, lo + size))

-- The slice lies in the prompt space, and holds min(size, universe_n) prompts.
pub window_prompt_range_bounds :
    (digest : Bytes) (universe_n size : ℕ)
    → let (lo, hi) = window_prompt_range digest universe_n size in
      (lo ≤ hi) × (hi ≤ universe_n) × (hi - lo ≡ min size universe_n)
unfolding window_prompt_range
window_prompt_range_bounds digest universe_n size = grind arith

-- Where the space is larger than the slice, its last prompt is never eligible, whatever the
-- randomness: the slice's start is taken modulo `universe_n - size`, not one more.
pub last_prompt_never_eligible :
    (digest : Bytes) (universe_n size : ℕ)
    → size < universe_n
    → (window_prompt_range digest universe_n size).1 < universe_n
unfolding window_prompt_range
last_prompt_never_eligible digest universe_n size h = grind arith
