-- ===== src/Validator/Batcher/Admission.antt =====
-- Which requests `accept_submission` lets in.
use subnet.Base.{
  ℕ, pos, true, false, none, some, List, [], ◌∷◌, map, ◌==◌, ◌||◌, nat_eq, string_eq, String, elem,
  All, ◌≡◌, ◌↔◌, ◌⊎◌, inl, inr, refl, arith, Bool-cases, ◌<◌, ◌∙◌, ap,
}
use subnet.Protocol.Commit.{Commit, validate}
use subnet.Protocol.Grail.{Logits, ProofResult}
use subnet.Protocol.Request.{RolloutSubmission, BatchSubmissionRequest}
use subnet.Protocol.Tokens.{verify_tokens}
use subnet.Validator.Cooldown.{CooldownMap, is_in_cooldown}
use subnet.Validator.Verifier.{
  rewards_std, is_in_zone, verify_reward_claim, verify_termination, verify_logprobs_claim,
  evaluate_token_distribution,
}
use subnet.Validator.Batcher.Outcome.{ok, >>=-eq-ok, require-eq-ok, or_reject-eq-ok, or_raise-eq-ok}
use subnet.Validator.Batcher.Checks.{
  World, Telemetry, check_rewards, has_canonical_prompt, is_not_false, t_proto, lower_q10,
  raise_lp_dev, raise_sketch, check_logits, check_rollout, check_rollouts,
}
use subnet.Validator.Batcher.State.{Batcher, Checked, gates, verify}

module _ {F : Type 0} (w : World F) where
  -- The text of the rollout earns the reward that the miner claims.
  abbrev pub HasClaimedReward : ℕ → RolloutSubmission F → Type 0
  HasClaimedReward prompt_idx rollout =
      verify_reward_claim w.fl (w.compute_reward prompt_idx (w.completion_text rollout))
        rollout.reward
      ≡ true

  -- The logits bear out the ending, the claimed logprobs and the sampling.
  abbrev pub HasHonestLogits : String → Commit F → Logits F → Type 0
  HasHonestLogits randomness commit logits =
      (verify_termination w.fl commit.tokens w.eos_token_id logits ≡ true)
      × ((dev : F) × (verify_logprobs_claim w.fl w.hashes w.rng commit.tokens
              commit.rollout.prompt_length commit.rollout.completion_length
              commit.rollout.token_logprobs logits randomness
            ≡ some (true, dev)))
      × (is_not_false w
            (evaluate_token_distribution w.fl w.np commit.tokens commit.rollout.prompt_length
              commit.rollout.completion_length logits (t_proto w)).0
          ≡ true)

  -- The rollout passes every check of the second loop.
  abbrev pub IsHonest : String → ℕ → String → RolloutSubmission F → Type 0
  IsHonest randomness prompt_idx hotkey rollout =
      (commit : Commit F) × (validate rollout.commit ≡ some commit)
      × (verify_tokens commit.tokens w.config ≡ true)
      × (has_canonical_prompt w prompt_idx commit ≡ true)
      × (w.verify_signature commit hotkey ≡ true)
      × (proof : ProofResult F) × (w.verify_commitment commit randomness ≡ some proof)
      × (proof.all_passed ≡ true)
      × ((proof.logits.numel ≡ 0) ⊎ HasHonestLogits randomness commit proof.logits)

  check_rewards_sound :
      (idx : ℕ) (rs : List (RolloutSubmission F)) {texts : List String}
      → check_rewards w idx rs ≡ ok texts
      → All (HasClaimedReward idx) rs × (texts ≡ map (λ r. w.completion_text r) rs)
  unfolding check_rewards
  check_rewards_sound idx [] h = (tt, cc)
  check_rewards_sound idx (r ∷ rs) h =
      let (u, h0, h1) = >>=-eq-ok _ _ h in
      let (texts, h2, h3) = >>=-eq-ok _ _ h1 in
      let (each, same) = check_rewards_sound idx rs h2 in ((require-eq-ok _ _ h0, each), cc)

  check_rewards_total :
      (idx : ℕ) (rs : List (RolloutSubmission F))
      → All (HasClaimedReward idx) rs
      → (texts : List String) × (check_rewards w idx rs ≡ ok texts)
  unfolding check_rewards
  check_rewards_total idx [] h = ([], refl)
  check_rewards_total idx (r ∷ rs) (h, hs) =
      let (texts, e) = check_rewards_total idx rs hs in
      (w.completion_text r ∷ texts, rw (h, e) refl)

  check_logits_sound :
      (randomness : String) (commit : Commit F) (logits : Logits F) (t : Telemetry F)
      {t' : Telemetry F}
      → check_logits w randomness commit logits t ≡ ok t'
      → HasHonestLogits randomness commit logits
  unfolding check_logits
  check_logits_sound randomness commit logits t h =
      let (u, h0, h1) = >>=-eq-ok _ _ h in
      let ((lp_ok, dev), h2, h3) = >>=-eq-ok _ _ h1 in
      let (v, h4, h5) = >>=-eq-ok _ _ h3 in
      let (x, h6, h7) = >>=-eq-ok _ _ h5 in
      (
        require-eq-ok _ _ h0,
        (dev, or_raise-eq-ok _ h2 ∙ ap (λ b. some (b, dev)) (require-eq-ok _ _ h4)),
        require-eq-ok _ _ h6,
      )

  check_logits_total :
      (randomness : String) (commit : Commit F) (logits : Logits F) (t : Telemetry F)
      → HasHonestLogits randomness commit logits
      → (t' : Telemetry F) × (check_logits w randomness commit logits t ≡ ok t')
  unfolding check_logits
  check_logits_total randomness commit logits t (h0, (dev, h1), h2) = (
    lower_q10 w
        (evaluate_token_distribution w.fl w.np commit.tokens commit.rollout.prompt_length
          commit.rollout.completion_length logits (t_proto w)).1
        (raise_lp_dev w dev t),
    rw (h0, h1, h2) refl,
  )

  check_rollout_sound :
      (randomness : String) (idx : ℕ) (hotkey : String) (r : RolloutSubmission F) (t : Telemetry F)
      {t' : Telemetry F}
      → check_rollout w randomness idx hotkey r t ≡ ok t'
      → IsHonest randomness idx hotkey r
  unfolding check_rollout
  check_rollout_sound randomness idx hotkey r t h =
      let (commit, h0, h1) = >>=-eq-ok _ _ h in
      let (u1, h2, h3) = >>=-eq-ok _ _ h1 in
      let (u2, h4, h5) = >>=-eq-ok _ _ h3 in
      let (u3, h6, h7) = >>=-eq-ok _ _ h5 in
      let (proof, h8, h9) = >>=-eq-ok _ _ h7 in
      let (u4, h10, h11) = >>=-eq-ok _ _ h9 in
      (
        commit,
        or_reject-eq-ok _ _ h0,
        require-eq-ok _ _ h2,
        require-eq-ok _ _ h4,
        require-eq-ok _ _ h6,
        proof,
        or_raise-eq-ok _ h8,
        require-eq-ok _ _ h10,
        elim (Bool-cases (proof.logits.numel == 0)) [
          | inl empty ↦ inl (ground arith)
          | inr more ↦ inr (check_logits_sound randomness commit proof.logits _ (rw more at h11))
        ],
      )

  check_rollout_total :
      (randomness : String) (idx : ℕ) (hotkey : String) (r : RolloutSubmission F) (t : Telemetry F)
      → IsHonest randomness idx hotkey r
      → (t' : Telemetry F) × (check_rollout w randomness idx hotkey r t ≡ ok t')
  unfolding check_rollout
  check_rollout_total randomness idx hotkey r t (commit, h0, h1, h2, h3, proof, h4, h5, inl e) =
      (raise_sketch w proof t, rw (h0, h1, h2, h3, h4, h5, e) refl)
  check_rollout_total randomness idx hotkey r t (commit, h0, h1, h2, h3, proof, h4, h5, inr l) =
      elim (Bool-cases (proof.logits.numel == 0)) [
        | inl empty ↦ (raise_sketch w proof t, rw (h0, h1, h2, h3, h4, h5, empty) refl)
        | inr more ↦
            let (t', e) =
              check_logits_total randomness commit proof.logits (raise_sketch w proof t) l in
            (t', rw (h0, h1, h2, h3, h4, h5, more) e)
      ]

  check_rollouts_sound :
      (randomness : String) (idx : ℕ) (hotkey : String) (rs : List (RolloutSubmission F))
      (t : Telemetry F) {t' : Telemetry F}
      → check_rollouts w randomness idx hotkey rs t ≡ ok t'
      → All (IsHonest randomness idx hotkey) rs
  unfolding check_rollouts
  check_rollouts_sound randomness idx hotkey [] t h = tt
  check_rollouts_sound randomness idx hotkey (r ∷ rs) t h =
      let (t', h0, h1) = >>=-eq-ok _ _ h in
      (
        check_rollout_sound randomness idx hotkey r t h0,
        check_rollouts_sound randomness idx hotkey rs t' h1,
      )

  check_rollouts_total :
      (randomness : String) (idx : ℕ) (hotkey : String) (rs : List (RolloutSubmission F))
      (t : Telemetry F)
      → All (IsHonest randomness idx hotkey) rs
      → (t' : Telemetry F) × (check_rollouts w randomness idx hotkey rs t ≡ ok t')
  unfolding check_rollouts
  check_rollouts_total randomness idx hotkey [] t h = (t, refl)
  check_rollouts_total randomness idx hotkey (r ∷ rs) t (h, hs) =
      let (t', e) = check_rollout_total randomness idx hotkey r t h in
      let (t'', e') = check_rollouts_total randomness idx hotkey rs t' hs in (t'', rw e e')

  -- The request is for this window, this checkpoint and a prompt that is open.
  abbrev pub IsTimely : CooldownMap → Batcher F → BatchSubmissionRequest F → Type 0
  IsTimely cooldown b r =
      (r.window_start ≡ b.window_start)
      × (((b.current_checkpoint_hash == "") || (r.checkpoint_hash == b.current_checkpoint_hash))
          ≡ true)
      × (r.prompt_idx < w.env_size)
      × (is_in_cooldown (pos r.prompt_idx) (pos b.window_start) cooldown ≡ false)
      × (elem r.prompt_idx b.claimed_prompts ≡ false)

  pub gates_iff :
      (cooldown : CooldownMap) (b : Batcher F) (r : BatchSubmissionRequest F)
      → (gates w cooldown b r ≡ ok tt) ↔ IsTimely cooldown b r
  unfolding gates
  gates_iff cooldown b r = ground arith

  -- All the checks on the rollouts, and the spread of their rewards.
  abbrev pub IsAdmissible : CooldownMap → Batcher F → BatchSubmissionRequest F → Type 0
  IsAdmissible cooldown b r =
      IsTimely cooldown b r
      × All (HasClaimedReward r.prompt_idx) r.rollouts
      × (is_in_zone w.fl (rewards_std w.fl (map (λ rollout. rollout.reward) r.rollouts)) b.bootstrap
          ≡ true)
      × All (IsHonest b.randomness r.prompt_idx r.miner_hotkey) r.rollouts

  pub verify_sound :
      (cooldown : CooldownMap) (b : Batcher F) (r : BatchSubmissionRequest F) {c : Checked F}
      → verify w cooldown b r ≡ ok c
      → IsAdmissible cooldown b r
  unfolding verify
  verify_sound cooldown b r h =
      let (u, h0, h1) = >>=-eq-ok _ _ h in
      let (texts, h2, h3) = >>=-eq-ok _ _ h1 in
      let (u', h4, h5) = >>=-eq-ok _ _ h3 in
      let (t, h6, h7) = >>=-eq-ok _ _ h5 in
      (
        (gates_iff cooldown b r).0 h0,
        (check_rewards_sound r.prompt_idx r.rollouts h2).0,
        require-eq-ok _ _ h4,
        check_rollouts_sound b.randomness r.prompt_idx r.miner_hotkey r.rollouts _ h6,
      )

  pub verify_total :
      (cooldown : CooldownMap) (b : Batcher F) (r : BatchSubmissionRequest F)
      → IsAdmissible cooldown b r
      → (c : Checked F) × (verify w cooldown b r ≡ ok c)
  unfolding verify
  verify_total cooldown b r (h0, h1, h2, h3) =
      let (texts, e1) = check_rewards_total r.prompt_idx r.rollouts h1 in
      let (t, e3) =
        check_rollouts_total b.randomness r.prompt_idx r.miner_hotkey r.rollouts
          (record { sketch_diff_max = pos 0; lp_dev_max = none; dist_q10_min = none }) h3 in
      (
        record {
          sigma = rewards_std w.fl (map (λ rollout. rollout.reward) r.rollouts);
          completion_texts = texts;
          telemetry = t;
        },
        rw ((gates_iff cooldown b r).1 h0, e1, h2, e3) refl,
      )
