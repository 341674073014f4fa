-- ===== src/Miner/Prompts/Tests.antt =====
-- The theorems on the choice of prompts at a generator that always takes the first.
use subnet.Base.{ℕ, ◌-◌, ◌≤◌, ◌<◌, none, some, [], ◌∷◌, false, elem, nat_eq, min, ◌≡◌, refl, arith}
use subnet.Miner.Prompts.{Draws, pick_prompt_idx}
use subnet.Miner.Prompts.Laws.{pick_prompt_idx-IsEligible}

-- The `i`-th draw is `i`, or the last index.
abbrev firsts : Draws
firsts = record { randrange = λ i n. min i (n - 1); choice = λ _. 0 }

picks : pick_prompt_idx firsts 10 (20 ∷ 21 ∷ []) 100 none (some (20, 30)) ≡ some 22
unfolding pick_prompt_idx
picks = refl

pick_prompt_idx-IsEligible_example :
    ((20 ≤ 22) × (22 < min 100 30)) × (elem {A = ℕ} 22 (20 ∷ 21 ∷ []) ≡ false)
pick_prompt_idx-IsEligible_example =
    pick_prompt_idx-IsEligible firsts 10 (20 ∷ 21 ∷ []) 100 none (some (20, 30)) 22 within picks
  where
    within : (i m : ℕ) → 0 < m → firsts.randrange i m < m
    within i m h = omega arith
