-- ===== src/Miner/Mix/Rotation.antt =====
-- miner/mix_controller.py `pick_bake_env`: the environment furthest below its share, and the
-- rotation among ties.
use native.Mathlib.Nat.{mod-add-mod, mod-lt, mod-one, mod-eq_of_lt, add-mul-mod_self_left}
use native.Mathlib.Decide.{dec_lt}
use subnet.Base.{
  ℕ, zero, suc, ◌+◌, ◌-◌, ◌*◌, ◌%◌, ◌<◌, ℤ, ◌≤ℤ◌, false, some, List, [], ◌∷◌, ◌==◌, nat_eq, String,
  length, get_elem?, In, ◌≡◌, inl, inr, refl, sym, ap, subst, ◌∙◌, arith, Bool-cases, eq_of_parts,
}
use subnet.Base.Dict.{Dict}
use subnet.Miner.Mix.{deficit_of, tied_envs, pick_bake_env, rotation_after}
use subnet.Miner.Mix.Ties.{In-get_elem?, In-rev_onto, In-rev_onto_nil, tied_envs-IsTied}

get_elem?_found :
    {A : Type 0} (xs : List A) (i : ℕ)
    → i < length xs
    → (a : A) × (get_elem? xs i ≡ some a) × In a xs
get_elem?_found [] i lt = absurd (omega arith)
get_elem?_found (x ∷ xs) zero lt = (x, refl, inl refl)
get_elem?_found (x ∷ xs) (suc i) lt =
    let (a, at, inside) = get_elem?_found xs i (omega (arith, lt)) in (a, at, inr inside)

antisym_ℤ : (a b : ℤ) → a ≤ℤ b → b ≤ℤ a → a ≡ b
antisym_ℤ a b h k = eq_of_parts a b (omega arith)

zero-lt_of_lt : {i l : ℕ} → i < l → 0 < l
zero-lt_of_lt lt = omega (arith, lt)

-- How many calls after `rotation` the counter stands at `i`.
turns_until : (l rotation i : ℕ) → i < l → (j : ℕ) × (j < l) × ((rotation + j) % l ≡ i)
turns_until l rotation i lt = elim (dec_lt i (rotation % l)) [
  | no ahead ↦
      let j : ℕ = i - rotation % l in
      let up : rotation % l + j ≡ i = omega (arith, ahead) in
      (
        j,
        omega (arith, lt),
        sym (mod-add-mod rotation l j) ∙ (ap (λ k. k % l) up ∙ mod-eq_of_lt lt),
      )
  | yes behind ↦
      let j : ℕ = i + l - rotation % l in
      let up : rotation % l + j ≡ i + l * 1 =
        omega (arith, behind, mod-lt rotation (zero-lt_of_lt lt)) in
      (
        j,
        omega (arith, behind, lt),
        sym (mod-add-mod rotation l j)
            ∙ (ap (λ k. k % l) up ∙ (add-mul-mod_self_left i l 1 ∙ mod-eq_of_lt lt)),
      )
]

module _ (items : List (String × ℕ)) (counts : Dict String ℕ)
    (some_tie : 0 < length (tied_envs counts items)) where
  nonzero : (length (tied_envs counts items) == 0) ≡ false
  nonzero = ground (arith, some_tie)

  pick_bake_env-nth :
      (rotation : ℕ)
      → (pick_bake_env items counts rotation).0
        ≡ get_elem? (tied_envs counts items) (rotation % length (tied_envs counts items))
  unfolding pick_bake_env
  pick_bake_env-nth rotation =
      let tied = tied_envs counts items in
      elim (Bool-cases (length tied == 1)) [
        | inl single ↦
            let one : length tied ≡ 1 = ground arith in
            rw (nonzero, single, pick_bake_env)
              (ap (get_elem? tied) (sym (mod-one rotation) ∙ ap (λ k. rotation % k) (sym one)))
        | inr several ↦ rw (nonzero, several, pick_bake_env) refl
      ]

  rotation-mod :
      (rotation : ℕ)
      → (pick_bake_env items counts rotation).1 % length (tied_envs counts items)
        ≡ (rotation + 1) % length (tied_envs counts items)
  unfolding pick_bake_env
  rotation-mod rotation =
      let tied = tied_envs counts items in
      elim (Bool-cases (length tied == 1)) [
        | inl single ↦
            let one : length tied ≡ 1 = ground arith in
            rw (nonzero, single, pick_bake_env)
              (ap (λ k. rotation % k) one
                ∙ (mod-one rotation
                    ∙ (sym (mod-one (rotation + 1)) ∙ ap (λ k. (rotation + 1) % k) (sym one))))
        | inr several ↦ rw (nonzero, several, pick_bake_env) refl
      ]

  rotation_after-mod :
      (n rotation : ℕ)
      → rotation_after n items counts rotation % length (tied_envs counts items)
        ≡ (rotation + n) % length (tied_envs counts items)
  unfolding rotation_after
  rotation_after-mod zero rotation = ap (λ k. k % length (tied_envs counts items)) (omega arith)
  rotation_after-mod (suc n) rotation =
      let l = length (tied_envs counts items) in
      let next = (pick_bake_env items counts rotation).1 in
      rotation_after-mod n next
      ∙ (sym (mod-add-mod next l n)
          ∙ (ap (λ k. (k + n) % l) (rotation-mod rotation)
              ∙ (mod-add-mod (rotation + 1) l n ∙ ap (λ k. k % l) (omega arith))))

-- The environment that is baked next is one whose deficit, its target less what it has in the
-- pool, is not exceeded by that of any other environment.
pub pick_bake_env_largest :
    (item : String × ℕ) (items : List (String × ℕ)) (counts : Dict String ℕ) (rotation : ℕ)
    → (env : String) × (target : ℕ) × ((pick_bake_env (item ∷ items) counts rotation).0 ≡ some env)
      × In (env, target) (item ∷ items)
      × ((other : String × ℕ)
          → In other (item ∷ items)
          → deficit_of counts other ≤ℤ deficit_of counts (env, target))
pick_bake_env_largest item items counts rotation =
    let (best, t) = tied_envs-IsTied counts item items in
    let tied = tied_envs counts (item ∷ items) in
    let (env, at, inside) =
      get_elem?_found tied (rotation % length tied) (mod-lt rotation t.nonempty) in
    let (target, seen, e) = t.sound env inside in
    (
      env,
      target,
      pick_bake_env-nth (item ∷ items) counts t.nonempty rotation ∙ at,
      In-rev_onto_nil (env, target) (item ∷ items) seen,
      λ other m.
          subst (λ k. deficit_of counts other ≤ℤ k) (sym e)
            (t.top other (In-rev_onto other (item ∷ items) [] m)),
    )

-- No environment starves on ties: one whose deficit no other exceeds is baked within as many calls
-- as there are environments tied with it, wherever the rotation stands, if the targets and the pool
-- stay as they are.
pub pick_bake_env_rotates :
    (item : String × ℕ) (items : List (String × ℕ)) (counts : Dict String ℕ) (rotation : ℕ)
    (env : String × ℕ)
    → In env (item ∷ items)
    → ((other : String × ℕ)
        → In other (item ∷ items)
        → deficit_of counts other ≤ℤ deficit_of counts env)
    → (calls : ℕ) × (calls < length (tied_envs counts (item ∷ items)))
      × ((pick_bake_env
            (item ∷ items)
            counts
            (rotation_after calls (item ∷ items) counts rotation)).0
          ≡ some env.0)
pick_bake_env_rotates item items counts rotation env m largest =
    let (best, t) = tied_envs-IsTied counts item items in
    let tied = tied_envs counts (item ∷ items) in
    let (top_env, at0, inside0) = get_elem?_found tied 0 t.nonempty in
    let (target, seen, e) = t.sound top_env inside0 in
    let upper : deficit_of counts env ≤ℤ best = t.top env (In-rev_onto env (item ∷ items) [] m) in
    let lower : best ≤ℤ deficit_of counts env =
      subst (λ k. k ≤ℤ deficit_of counts env) e
        (largest (top_env, target) (In-rev_onto_nil (top_env, target) (item ∷ items) seen)) in
    let inside =
      t.complete env (In-rev_onto env (item ∷ items) [] m)
        (antisym_ℤ (deficit_of counts env) best upper lower) in
    let (i, lt, at) = In-get_elem? env.0 tied inside in
    let (calls, few, stands) = turns_until (length tied) rotation i lt in
    (
      calls,
      few,
      pick_bake_env-nth (item ∷ items) counts t.nonempty
            (rotation_after calls (item ∷ items) counts rotation)
          ∙ (ap (get_elem? tied)
                (rotation_after-mod (item ∷ items) counts t.nonempty calls rotation ∙ stands)
              ∙ at),
    )
