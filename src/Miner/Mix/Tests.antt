-- ===== src/Miner/Mix/Tests.antt =====
-- The theorems on the rotation at three environments of which two are tied.
use subnet.Base.{
  ℕ, ◌≤ℤ◌, ◌-ℤ◌, ◌<◌, some, List, [], ◌∷◌, String, length, In, ◌≡◌, inl, inr, refl, sym, subst,
  arith,
}
use subnet.Base.Dict.{Dict}
use subnet.Miner.Mix.{deficit_of, tied_envs, pick_bake_env, rotation_after}
use subnet.Miner.Mix.Rotation.{pick_bake_env_rotates}

-- The third environment has one group in the pool.
abbrev others : List (String × ℕ)
others = ("code", 3) ∷ ("logic", 3) ∷ []

abbrev pool : Dict String ℕ
pool = ("logic", 1) ∷ []

code_largest :
    (other : String × ℕ)
    → In other (("math", 3) ∷ others)
    → deficit_of pool other ≤ℤ deficit_of pool ("code", 3)
unfolding ◌-ℤ◌
code_largest other (inl e) =
    subst (λ o. deficit_of pool o ≤ℤ deficit_of pool ("code", 3)) (sym e) (omega arith)
code_largest other (inr (inl e)) =
    subst (λ o. deficit_of pool o ≤ℤ deficit_of pool ("code", 3)) (sym e) (omega arith)
code_largest other (inr (inr (inl e))) =
    subst (λ o. deficit_of pool o ≤ℤ deficit_of pool ("code", 3)) (sym e) (omega arith)
code_largest other (inr (inr (inr nothing))) = absurd nothing

pick_bake_env_rotates_example :
    (calls : ℕ) × (calls < length (tied_envs pool (("math", 3) ∷ others)))
    × ((pick_bake_env
          (("math", 3) ∷ others)
          pool
          (rotation_after calls (("math", 3) ∷ others) pool 0)).0
        ≡ some "code")
pick_bake_env_rotates_example =
    pick_bake_env_rotates ("math", 3) others pool 0 ("code", 3) (inr (inl refl)) code_largest
