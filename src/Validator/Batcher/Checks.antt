-- ===== src/Validator/Batcher/Checks.antt =====
-- The checks of `_accept_locked` on a request's rollouts, in the order of the source. What the
-- method calls from outside is in a `World`.
use subnet.Base.{
  ℕ, ℤ, ltb_ℤ, Bool, true, false, ◌&&◌, Option, none, some, List, [], ◌∷◌, if◌then◌else◌, ◌==◌,
  nat_eq, int_eq, String, take,
}
use subnet.Base.Float.{Float}
use subnet.Protocol.Bytes.{Bytes}
use subnet.Protocol.Commit.{Commit, validate}
use subnet.Protocol.Crypto.{Hashes, Rng}
use subnet.Protocol.Grail.{Logits, ProofResult}
use subnet.Protocol.Reason.{RejectReason}
use subnet.Protocol.Request.{RolloutSubmission}
use subnet.Protocol.Tokens.{ModelConfig, verify_tokens}
use subnet.Validator.Verifier.{
  Numpy, Metrics, verify_reward_claim, verify_termination, verify_logprobs_claim,
  evaluate_token_distribution,
}
use subnet.Validator.Batcher.Outcome.{Outcome, ok, ◌>>=◌, ◌>>◌, require, or_reject, or_raise}

-- The interpreter's floats, hashes and generators, the environment (`len(env)`, and the reward of
-- a text on a problem, `none` if it raises), and the callables the batcher is built with.
pub record World (F : Type 0) : Type 0 where
  pub fl : Float F
  pub hashes : Hashes
  pub rng : Rng
  pub np : Numpy F
  pub encode : String → Bytes
  pub env_size : ℕ
  pub compute_reward : ℕ → String → Option F
  pub completion_text : RolloutSubmission F → String
  pub canonical_prompt_tokens : Option (ℕ → List ℤ)
  pub verify_signature : Commit F → String → Bool
  -- `none` is an exception
  pub verify_commitment : Commit F → String → Option (ProofResult F)
  pub eos_token_id : Option ℤ
  pub config : ModelConfig

-- The worst values over the rollouts so far.
pub record Telemetry (F : Type 0) : Type 0 where
  pub sketch_diff_max : ℤ
  pub lp_dev_max : Option F
  pub dist_q10_min : Option F

-- `xs == ys` on lists of integers
unfoldable pub tokens_beq : List ℤ → List ℤ → Bool
tokens_beq [] [] = true
tokens_beq [] (y ∷ ys) = false
tokens_beq (x ∷ xs) [] = false
tokens_beq (x ∷ xs) (y ∷ ys) = (x == y) && tokens_beq xs ys

module _ {F : Type 0} (w : World F) where
  -- The first loop: the reward of each rollout is claimed as it is.
  unfoldable pub check_rewards : ℕ → List (RolloutSubmission F) → Outcome (List String)
  check_rewards prompt_idx [] = ok []
  check_rewards prompt_idx (rollout ∷ rollouts) = do
    let text = w.completion_text rollout
    require RejectReason.reward_mismatch
        (verify_reward_claim w.fl (w.compute_reward prompt_idx text) rollout.reward)
    texts ← check_rewards prompt_idx rollouts
    ok (text ∷ texts)

  -- The prompt's tokens lead the commit's, where the batcher can tell.
  unfoldable pub has_canonical_prompt : ℕ → Commit F → Bool
  has_canonical_prompt prompt_idx commit = elim w.canonical_prompt_tokens [
    | none ↦ true
    | some canonical ↦
        tokens_beq (take commit.rollout.prompt_length commit.tokens) (canonical prompt_idx)
  ]

  abbrev pub raise_sketch : ProofResult F → Telemetry F → Telemetry F
  raise_sketch proof t = record t {
    sketch_diff_max =
        if ltb_ℤ t.sketch_diff_max proof.sketch_diff_max
        then proof.sketch_diff_max
        else t.sketch_diff_max;
  }

  abbrev pub raise_lp_dev : F → Telemetry F → Telemetry F
  raise_lp_dev lp_dev t = record t {
    lp_dev_max = if w.fl.eq lp_dev w.fl.inf then t.lp_dev_max else elim t.lp_dev_max [
      | none ↦ some lp_dev
      | some m ↦ if w.fl.lt m lp_dev then some lp_dev else some m
    ];
  }

  abbrev pub lower_q10 : Option (Metrics F) → Telemetry F → Telemetry F
  lower_q10 none t = t
  lower_q10 (some metrics) t = record t {
    dist_q10_min = elim t.dist_q10_min [
      | none ↦ some metrics.q10
      | some m ↦ if w.fl.lt metrics.q10 m then some metrics.q10 else some m
    ];
  }

  -- `dist_ok is False`, negated
  abbrev pub is_not_false : Option Bool → Bool
  is_not_false none = true
  is_not_false (some b) = b

  -- T_PROTO
  abbrev pub t_proto : F
  t_proto = w.fl.decimal 6 1

  -- The checks that read the cached logits.
  unfoldable pub check_logits : String → Commit F → Logits F → Telemetry F → Outcome (Telemetry F)
  check_logits randomness commit logits t = do
    require RejectReason.bad_termination
        (verify_termination w.fl commit.tokens w.eos_token_id logits)
    (lp_ok, lp_dev) ← or_raise (
        verify_logprobs_claim w.fl w.hashes w.rng commit.tokens commit.rollout.prompt_length
          commit.rollout.completion_length commit.rollout.token_logprobs logits randomness)
    require RejectReason.logprob_mismatch lp_ok
    let verdict =
        evaluate_token_distribution w.fl w.np commit.tokens commit.rollout.prompt_length
          commit.rollout.completion_length logits t_proto
    require RejectReason.distribution_suspicious (is_not_false verdict.0)
    ok (lower_q10 verdict.1 (raise_lp_dev lp_dev t))

  -- The body of the second loop.
  unfoldable pub check_rollout :
      String → ℕ → String → RolloutSubmission F → Telemetry F → Outcome (Telemetry F)
  check_rollout randomness prompt_idx hotkey rollout t = do
    commit ← or_reject RejectReason.bad_schema (validate rollout.commit)
    require RejectReason.bad_tokens (verify_tokens commit.tokens w.config)
    require RejectReason.prompt_mismatch (has_canonical_prompt prompt_idx commit)
    require RejectReason.bad_signature (w.verify_signature commit hotkey)
    proof ← or_raise (w.verify_commitment commit randomness)
    require RejectReason.grail_fail proof.all_passed
    let t' = raise_sketch proof t
    (if proof.logits.numel == 0 then ok t' else check_logits randomness commit proof.logits t')

  unfoldable pub check_rollouts :
      String → ℕ → String → List (RolloutSubmission F) → Telemetry F → Outcome (Telemetry F)
  check_rollouts randomness prompt_idx hotkey [] t = ok t
  check_rollouts randomness prompt_idx hotkey (rollout ∷ rollouts) t = do
    t' ← check_rollout randomness prompt_idx hotkey rollout t
    check_rollouts randomness prompt_idx hotkey rollouts t'
