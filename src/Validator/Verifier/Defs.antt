-- ===== src/Validator/Verifier/Defs.antt =====
-- The definitions of validator/verifier.py.
use subnet.Base.{
  ℕ, zero, suc, ◌+◌, ◌-◌, ◌/◌, ◌%◌, ℤ, pos, Bool, false, ◌&&◌, ◌||◌, not, Option, none, some, List,
  [], ◌∷◌, if◌then◌else◌, ◌==◌, nat_eq, int_eq, String, ltb, leb, length, last, get_elem?, sorted,
}
use subnet.Base.Float.{Float}
use subnet.Base.Maybe.{◌>>=◌}
use subnet.Protocol.Constants.{challenge_k, sampling_min_steps}
use subnet.Protocol.Crypto.{Hashes, Rng, indices_from_root_in_range}
use subnet.Protocol.Grail.{Logits}

module _ {F : Type 0} (fl : Float F) where
  -- `sum(xs)`
  unfoldable pub sum_from : F → List F → F
  sum_from acc [] = acc
  sum_from acc (x ∷ xs) = sum_from (fl.add acc x) xs

  abbrev pub sum : List F → F
  sum xs = sum_from (fl.of_int (pos 0)) xs

  squares : F → List F → List F
  squares mean [] = []
  squares mean (r ∷ rs) = fl.pow (fl.sub r mean) (fl.of_int (pos 2)) ∷ squares mean rs

  unfoldable pub rewards_std : List F → F
  unfolding squares sum_from
  rewards_std rewards =
      let n = fl.of_int (pos (length rewards)) in
      let mean = fl.div (sum rewards) n in
      let variance = fl.div (sum (squares mean rewards)) n in
      if ltb (length rewards) 2 then fl.decimal 0 0 else fl.pow variance (fl.decimal 5 1)

  abbrev pub sigma_min : F
  sigma_min = fl.decimal 33 2

  abbrev pub bootstrap_sigma_min : F
  bootstrap_sigma_min = fl.decimal 33 2

  unfoldable pub is_in_zone : F → Bool → Bool
  is_in_zone sigma bootstrap =
      if fl.lt sigma (fl.decimal 1 8)
      then false
      else fl.le (if bootstrap then bootstrap_sigma_min else sigma_min) sigma

  -- The first argument is `env.compute_reward`'s result; its exception is caught.
  unfoldable pub verify_reward_claim : Option F → F → Bool
  verify_reward_claim none claimed = false
  verify_reward_claim (some actual) claimed =
      fl.le (fl.abs (fl.sub actual claimed)) (fl.decimal 1 6)

  -- `eos_id` is the tokenizer's `eos_token_id`, if it has one. The tokens are not empty here:
  -- the schema asks for 32.
  unfoldable pub verify_termination : List ℤ → Option ℤ → Logits F → Bool
  verify_termination tokens none logits = false
  verify_termination tokens (some eos_id) logits = elim (last tokens) [
    | none ↦ false
    | some t ↦ (t == eos_id) && fl.le (fl.decimal 1 2) (logits.prob (logits.rows - 2) eos_id)
  ]

  -- `statistics.median`
  unfoldable pub median : List F → Option F
  median xs =
      let s = sorted (λ x y. not (fl.lt y x)) xs in
      let n = length xs in
      if n == 0
      then none
      else if n % 2 == 1
      then get_elem? s (n / 2)
      else (get_elem? s (n / 2 - 1) >>= λ a.
          get_elem? s (n / 2) >>= λ b. some (fl.div (fl.add a b) (fl.decimal 2 0)))

  -- `exp(|model_lp - miner_lp|) - 1`; `none` is the OverflowError of `math.exp`.
  abbrev pub deviation : F → F → Option F
  deviation model_lp miner_lp =
      fl.exp (fl.abs (fl.sub model_lp miner_lp)) >>= λ e. some (fl.sub e (fl.decimal 1 0))

  -- The loop over the challenged positions. The outer `none` is an exception, the inner one the
  -- return on a position outside the logits.
  unfoldable pub deviations : List ℤ → (ℕ → Option F) → Logits F → List ℕ → Option (Option (List F))
  deviations tokens miner_lp_at logits [] = some (some [])
  deviations tokens miner_lp_at logits (abs_idx ∷ idxs) =
      let rest = deviations tokens miner_lp_at logits idxs in
      if (abs_idx == 0) || leb logits.rows (abs_idx - 1)
      then some none
      else (get_elem? tokens abs_idx >>= λ token. miner_lp_at abs_idx >>= λ miner_lp.
          deviation (logits.log_prob (abs_idx - 1) token) miner_lp >>= λ dev.
          rest >>= λ later. some (elim later [ none ↦ none | some devs ↦ some (dev ∷ devs) ]))

  -- The verdict on the deviations.
  unfoldable pub judge_deviations : Option (List F) → Option (Bool × F)
  judge_deviations none = some (false, fl.inf)
  judge_deviations (some devs) =
      median devs >>= λ median_dev. some (fl.le median_dev (fl.decimal 10 2), median_dev)

  -- The two layouts of the claimed logprobs; `none` is any other length.
  unfoldable pub claimed_at : List ℤ → ℕ → ℕ → List F → Option (ℕ → Option F)
  claimed_at tokens prompt_length completion_length claimed =
      if length claimed == length tokens
      then some (λ abs_idx. get_elem? claimed abs_idx)
      else if length claimed == completion_length
      then some (λ abs_idx. get_elem? claimed (abs_idx - prompt_length))
      else none

  module _ (h : Hashes) (rng : Rng) where
    -- From the challenge to the verdict.
    unfoldable pub challenge_logprobs :
        List ℤ → ℕ → ℕ → (ℕ → Option F) → Logits F → String → Option (Bool × F)
    challenge_logprobs tokens prompt_length completion_length miner_lp_at logits randomness =
        indices_from_root_in_range h fl rng tokens randomness prompt_length
          (prompt_length + completion_length) challenge_k
        >>= λ idxs.
            (if length idxs == challenge_k
              then (deviations tokens miner_lp_at logits idxs >>= judge_deviations)
              else some (false, fl.inf))

    unfoldable pub verify_logprobs_claim :
        List ℤ → ℕ → ℕ → List F → Logits F → String → Option (Bool × F)
    verify_logprobs_claim tokens prompt_length completion_length claimed logits randomness =
        if ltb completion_length challenge_k
        then some (false, fl.inf)
        else elim (claimed_at tokens prompt_length completion_length claimed) [
          | none ↦ some (false, fl.inf)
          | some miner_lp_at ↦
              challenge_logprobs tokens prompt_length completion_length miner_lp_at logits
                randomness
        ]

-- `np.median` and `np.quantile(x, 0.10)`
pub record Numpy (F : Type 0) : Type 0 where
  pub median : List F → F
  pub quantile10 : List F → F

-- The two entries of `metrics` that decide; mean, low_frac and high_frac are only logged.
pub record Metrics (F : Type 0) : Type 0 where
  pub median : F
  pub q10 : F

module _ {F : Type 0} (fl : Float F) (np : Numpy F) where
  -- The loop over the completion: `t` runs up from the prompt's length, for `n` more rounds.
  unfoldable pub chosen_probs : List ℤ → Logits F → F → ℕ → ℕ → List F
  chosen_probs tokens logits temperature t zero = []
  chosen_probs tokens logits temperature t (suc n) =
      let rest = chosen_probs tokens logits temperature (t + 1) n in
      if (t == 0) || leb logits.rows (t - 1) then rest else elim (get_elem? tokens t) [
        | none ↦ rest
        | some token ↦ logits.prob_at temperature (t - 1) token ∷ rest
      ]

  unfoldable pub evaluate_token_distribution :
      List ℤ → ℕ → ℕ → Logits F → F → Option Bool × Option (Metrics F)
  evaluate_token_distribution tokens prompt_length completion_length logits temperature =
      let probs = chosen_probs tokens logits temperature prompt_length completion_length in
      let suspicious =
        fl.lt (np.median probs) (fl.decimal 30 2)
        || fl.lt (np.quantile10 probs) (fl.decimal 25 3) in
      if ltb completion_length sampling_min_steps
      then (none, none)
      else if ltb (length probs) sampling_min_steps
      then (none, none)
      else (
        some (not suspicious),
        some (record { median = np.median probs; q10 = np.quantile10 probs }),
      )
