-- ===== src/Validator/Batcher/State.antt =====
-- The batcher's state and its operations. The lock makes each call one step. The cooldown map is
-- shared with the other windows' batchers, so the operations take it and `seal_batch` returns it;
-- `now` is what `time_fn` gives. `_seal_event` mirrors `_seal_flag` and has no field of its own.
use subnet.Base.{
  ℕ, ◌+◌, pos, ℤ, leb_ℤ, Bool, true, false, not, Option, none, some, List, [], ◌∷◌, ◌++◌, map, ◌==◌,
  ◌||◌, nat_eq, string_eq, String, ltb, leb, elem, length, keep, to_set, sorted,
}
use subnet.Base.Dict
use subnet.Base.Dict.{Dict}
use subnet.Base.Text.{codes}
use subnet.Protocol.Bytes.{Bytes, from_hex}
use subnet.Protocol.Constants.{b_batch}
use subnet.Protocol.Reason.{RejectReason, value, WindowState}
use subnet.Protocol.Request.{BatchSubmissionRequest, BatchSubmissionResponse}
use subnet.Validator.Accepted.{ValidSubmission}
use subnet.Validator.Cooldown.{CooldownMap, is_in_cooldown, current_cooldown_set, record_all}
use subnet.Validator.Selection.{select_batch}
use subnet.Validator.Verifier.{rewards_std, is_in_zone}
use subnet.Validator.Batcher.Outcome.{Outcome, ok, reject, raise, ◌>>=◌, ◌>>◌, require}
use subnet.Validator.Batcher.Checks.{World, Telemetry, check_rewards, check_rollouts}

pub record Batcher (F : Type 0) : Type 0 where
  pub window_start : ℕ
  pub bootstrap : Bool
  pub valid : List (ValidSubmission F)
  pub claimed_prompts : List ℕ
  pub randomness : String
  pub reject_counts : Dict String ℕ
  pub seal_flag : Bool
  pub current_checkpoint_hash : String

-- `GrpoWindowBatcher(window_start, ..., bootstrap=...)`
unfoldable pub init : {F : Type 0} → ℕ → Bool → Batcher F
init window_start bootstrap = record {
  window_start = window_start;
  bootstrap = bootstrap;
  valid = [];
  claimed_prompts = [];
  randomness = "";
  reject_counts = [];
  seal_flag = false;
  current_checkpoint_hash = "";
}

-- What the loops hand to the end of the method.
pub record Checked (F : Type 0) : Type 0 where
  pub sigma : F
  pub completion_texts : List String
  pub telemetry : Telemetry F

-- The part of `/state` that the batcher knows (`GrpoBatchState`).
pub record GrpoBatchState : Type 0 where
  pub state : WindowState
  pub window_n : ℕ
  pub anchor_block : ℕ
  pub cooldown_prompts : List ℤ
  pub valid_submissions : ℕ
  pub checkpoint_n : ℕ

module _ {F : Type 0} where
  -- `_reject`
  unfoldable pub count_reject : RejectReason → Batcher F → Batcher F
  count_reject reason b = record b {
    reject_counts =
        Dict.set (value reason) (Dict.get (value reason) 0 b.reject_counts + 1) b.reject_counts;
  }

  -- The prompts of the comprehension before the seal test.
  unfoldable pub eligible_prompts : CooldownMap → ℕ → List (ValidSubmission F) → List ℕ
  eligible_prompts cooldown window valid = to_set (
      keep (λ idx. not (is_in_cooldown (pos idx) (pos window) cooldown))
        (map (λ s. s.prompt_idx) valid))

  -- `if distinct_eligible >= B_BATCH ...: self._seal_flag.set()`
  unfoldable pub update_seal : CooldownMap → Batcher F → Batcher F
  update_seal cooldown b = record b {
    seal_flag =
        b.seal_flag || leb b_batch (length (eligible_prompts cooldown b.window_start b.valid));
  }

  -- `_claimed_prompts.add(...)`; the prompt was not in the set.
  unfoldable pub claim : ℕ → Batcher F → Batcher F
  claim prompt_idx b = record b { claimed_prompts = prompt_idx ∷ b.claimed_prompts }

  unfoldable pub append_valid : ValidSubmission F → Batcher F → Batcher F
  append_valid s b = record b { valid = b.valid ++ s ∷ [] }

  unfoldable pub submission_of :
      BatchSubmissionRequest F → Checked F → Bytes → F → ValidSubmission F
  submission_of r c root now = record {
    hotkey = r.miner_hotkey;
    prompt_idx = r.prompt_idx;
    merkle_root_bytes = root;
    sigma = c.sigma;
    rollouts = r.rollouts;
    completion_texts = c.completion_texts;
    arrived_at = now;
    sketch_diff_max = c.telemetry.sketch_diff_max;
    lp_dev_max = c.telemetry.lp_dev_max;
    dist_q10_min = c.telemetry.dist_q10_min;
    claimed_checkpoint_hash = r.checkpoint_hash;
  }

  module _ (w : World F) where
    -- The early gates, cheapest first.
    unfoldable pub gates : CooldownMap → Batcher F → BatchSubmissionRequest F → Outcome (Unit {0})
    gates cooldown b r = do
      require RejectReason.window_mismatch (r.window_start == b.window_start)
      require RejectReason.wrong_checkpoint
          ((b.current_checkpoint_hash == "") || (r.checkpoint_hash == b.current_checkpoint_hash))
      require RejectReason.bad_prompt_idx (ltb r.prompt_idx w.env_size)
      require RejectReason.prompt_in_cooldown
          (not (is_in_cooldown (pos r.prompt_idx) (pos b.window_start) cooldown))
      require RejectReason.superseded (not (elem r.prompt_idx b.claimed_prompts))

    -- The method up to the claim.
    unfoldable pub verify : CooldownMap → Batcher F → BatchSubmissionRequest F → Outcome (Checked F)
    verify cooldown b r = do
      gates cooldown b r
      texts ← check_rewards w r.prompt_idx r.rollouts
      let sigma = rewards_std w.fl (map (λ rollout. rollout.reward) r.rollouts)
      require RejectReason.out_of_zone (is_in_zone w.fl sigma b.bootstrap)
      telemetry ←
          check_rollouts w b.randomness r.prompt_idx r.miner_hotkey r.rollouts
            (record { sketch_diff_max = pos 0; lp_dev_max = none; dist_q10_min = none })
      ok (record { sigma = sigma; completion_texts = texts; telemetry = telemetry })

    -- `_accept_locked`: the response, or `none` if the method raises, and the state it leaves.
    unfoldable pub accept_submission :
        CooldownMap
        → F
        → BatchSubmissionRequest F
        → Batcher F
        → Option BatchSubmissionResponse × Batcher F
    accept_submission cooldown now r b = elim (verify cooldown b r) [
      | reject reason ↦ (some (record { accepted = false; reason = reason }), count_reject reason b)
      | raise ↦ (none, b)
      | ok c ↦ elim (from_hex (codes r.merkle_root)) [
        | none ↦ (none, claim r.prompt_idx b)
        | some root ↦ (
          some (record { accepted = true; reason = RejectReason.accepted }),
          update_seal cooldown (append_valid (submission_of r c root now) (claim r.prompt_idx b)),
        )
      ]
    ]

    -- `seal_batch`: the batch and the cooldown map after it; `none` is an exception.
    unfoldable pub seal_batch :
        CooldownMap → Batcher F → Option (List (ValidSubmission F) × CooldownMap)
    seal_batch cooldown b =
        let batch =
          select_batch w.fl w.hashes.sha256 w.encode b.valid b_batch b.window_start cooldown in
        elim (record_all (pos b.window_start) (map (λ s. pos s.prompt_idx) batch) cooldown) [
          | none ↦ none
          | some cooldown' ↦ some (batch, cooldown')
        ]

  -- `get_state`
  unfoldable pub get_state : CooldownMap → Batcher F → GrpoBatchState
  get_state cooldown b = record {
    state = WindowState.open_window;
    window_n = b.window_start;
    anchor_block = b.window_start;
    cooldown_prompts = sorted leb_ℤ (current_cooldown_set (pos b.window_start) cooldown);
    valid_submissions = length b.valid;
    checkpoint_n = 0;
  }
