-- ===== src/Miner/Prompts.antt =====
-- miner/engine.py: `pick_prompt_idx`. A set of prompts is a list; `none` is the RuntimeError.
pub mod Laws
mod Tests
use subnet.Base.{
  ℕ, zero, suc, ◌+◌, ◌-◌, ◌*◌, min, Bool, true, false, not, ◌&&◌, Option, none, some, List, [], ◌∷◌,
  if◌then◌else◌, nat_eq, elem, keep, length, get_elem?, ltb, leb,
}

-- Python's generator: the values of successive `randrange(n)`, and the place that `choice` takes
-- in a list of `n`.
pub record Draws : Type 0 where
  pub randrange : ℕ → ℕ → ℕ
  pub choice : ℕ → ℕ

-- One attempt, with what the attempts after it come to.
unfoldable pub accept_draw : Option ℕ → List ℕ → Option ℕ → Option ℕ
accept_draw none cooldown rest = none
accept_draw (some idx) cooldown rest = if elem idx cooldown then rest else some idx

-- The loop over the attempts from the `i`-th draw on.
unfoldable pub try_draws : ℕ → ℕ → (ℕ → Option ℕ) → List ℕ → Option ℕ
unfolding accept_draw
try_draws zero i draw cooldown = none
try_draws (suc attempts) i draw cooldown =
    accept_draw (draw i) cooldown (try_draws attempts (i + 1) draw cooldown)

-- `list(range(lo, lo + count))`
unfoldable pub range_from : ℕ → ℕ → List ℕ
range_from lo zero = []
range_from lo (suc count) = lo ∷ range_from (lo + 1) count

unfoldable pub choose_from : Draws → List ℕ → Option ℕ
choose_from rng [] = none
choose_from rng (idx ∷ eligible) = get_elem? (idx ∷ eligible) (rng.choice (length (idx ∷ eligible)))

unfoldable pub choose_eligible : Draws → List ℕ → List ℕ → Option ℕ
unfolding choose_from
choose_eligible rng pool cooldown = choose_from rng (keep (λ idx. not (elem idx cooldown)) pool)

-- The whole range, with no list made while few prompts are in cooldown.
unfoldable pub pick_in_range : Draws → ℕ → List ℕ → ℕ → ℕ → Option ℕ
unfolding try_draws range_from choose_eligible
pick_in_range rng max_attempts cooldown lo hi =
    if ltb (2 * length cooldown) (hi - lo)
    then try_draws max_attempts 0 (λ i. some (lo + rng.randrange i (hi - lo))) cooldown
    else choose_eligible rng (range_from lo (hi - lo)) cooldown

unfoldable pub pick_in_pool : Draws → ℕ → List ℕ → List ℕ → Option ℕ
unfolding try_draws choose_eligible
pick_in_pool rng max_attempts cooldown pool =
    if ltb (2 * length cooldown) (length pool)
    then try_draws max_attempts 0 (λ i. get_elem? pool (rng.randrange i (length pool))) cooldown
    else choose_eligible rng pool cooldown

-- `confined if confined else list(range(lo, hi))`
unfoldable pub confined_or : List ℕ → ℕ → ℕ → List ℕ
unfolding range_from
confined_or [] lo hi = range_from lo (hi - lo)
confined_or (idx ∷ confined) lo hi = idx ∷ confined

unfoldable pub confine : List ℕ → ℕ → ℕ → List ℕ
unfolding confined_or
confine pool lo hi = confined_or (keep (λ i. leb lo i && ltb i hi) pool) lo hi

unfoldable pub pick_confined : Draws → ℕ → List ℕ → Option (List ℕ) → ℕ → ℕ → Option ℕ
unfolding pick_in_range pick_in_pool confine
pick_confined rng max_attempts cooldown none lo hi = pick_in_range rng max_attempts cooldown lo hi
pick_confined rng max_attempts cooldown (some pool) lo hi =
    pick_in_pool rng max_attempts cooldown (confine pool lo hi)

-- With the number of prompts, the environment's `eligible_indices` and the prompt range, if any.
unfoldable pub pick_prompt_idx :
    Draws → ℕ → List ℕ → ℕ → Option (List ℕ) → Option (ℕ × ℕ) → Option ℕ
unfolding pick_confined
pick_prompt_idx rng max_attempts cooldown n none none = pick_in_range rng max_attempts cooldown 0 n
pick_prompt_idx rng max_attempts cooldown n (some pool) none =
    pick_in_pool rng max_attempts cooldown pool
pick_prompt_idx rng max_attempts cooldown n pool (some (lo, hi)) =
    if leb (min n hi) lo then none else pick_confined rng max_attempts cooldown pool lo (min n hi)
