-- ===== src/Miner/Termination.antt =====
-- How a generated completion ends: `first_eos_index` and `has_think_close` of shared/modeling.py,
-- and the termination checks of miner/engine.py.
pub mod Laws
use subnet.Base.{
  ℕ, zero, suc, ◌+◌, ◌-◌, ℤ, int_eq, nat_eq, Bool, true, false, ◌&&◌, ◌||◌, Option, none, some,
  List, [], ◌∷◌, if◌then◌else◌, ◌==◌, length, take, elem, get_elem?,
}

abbrev pub next_index : Option ℕ → Option ℕ
next_index none = none
next_index (some i) = some (suc i)

unfoldable pub first_eos_index : List ℤ → List ℤ → Option ℕ
first_eos_index [] eos_ids = none
first_eos_index (token ∷ tokens) eos_ids =
    if elem token eos_ids then some 0 else next_index (first_eos_index tokens eos_ids)

unfoldable pub has_think_close : List ℤ → List ℤ → Bool
has_think_close [] think_close_ids = false
has_think_close (t ∷ tokens) think_close_ids =
    elem t think_close_ids || has_think_close tokens think_close_ids

-- `[i for i, tok in enumerate(completion) if tok in eos]`, from index `i` on.
unfoldable pub eos_positions : ℕ → List ℤ → List ℤ → List ℕ
eos_positions i [] eos = []
eos_positions i (tok ∷ completion) eos =
    if elem tok eos
    then i ∷ eos_positions (i + 1) completion eos
    else eos_positions (i + 1) completion eos

-- `len(positions) == 1 and positions[0] == len(completion) - 1`
unfoldable pub one_at_the_end : List ℕ → ℕ → Bool
one_at_the_end [] n = false
one_at_the_end (p ∷ []) n = p == (n - 1)
one_at_the_end (p ∷ q ∷ positions) n = false

unfoldable pub validator_termination_ok : List ℤ → List ℤ → Bool
unfolding eos_positions one_at_the_end
validator_termination_ok [] eos = false
validator_termination_ok (tok ∷ completion) [] = false
validator_termination_ok (tok ∷ completion) (e ∷ eos) =
    one_at_the_end (eos_positions 0 (tok ∷ completion) (e ∷ eos)) (length (tok ∷ completion))

-- The tokens up to the first EOS, or all: the loop of `truncate_at_first_eos`.
unfoldable pub up_to_eos : List ℤ → List ℤ → List ℤ
up_to_eos [] eos = []
up_to_eos (tok ∷ tokens) eos = if elem tok eos then tok ∷ [] else tok ∷ up_to_eos tokens eos

unfoldable pub truncate_at_first_eos : List ℤ → List ℤ → List ℤ
unfolding up_to_eos
truncate_at_first_eos completion [] = completion
truncate_at_first_eos completion (e ∷ eos) = up_to_eos completion (e ∷ eos)

-- `tail[: fe + 1] if fe is not None else tail`
unfoldable pub cut_after : List ℤ → Option ℕ → List ℤ
cut_after tail none = tail
cut_after tail (some fe) = take (suc fe) tail
