-- ===== src/Validator/Samples.antt =====
-- A world, a batcher and its submissions that the examples share.
use subnet.Base.{
  ℕ, ℤ, pos, true, false, none, some, [], ◌∷◌, String, if◌then◌else◌, ◌==◌, string_eq, int_beq,
}
use subnet.Base.Text.{codes}
use subnet.Samples.{fixed, hashes, rng, unit}
use subnet.Protocol.Samples.{certain, request}
use subnet.Protocol.Request.{BatchSubmissionRequest}
use subnet.Validator.Accepted.{ValidSubmission}
use subnet.Validator.Cooldown.{CooldownMap}
use subnet.Validator.Batcher.Checks.{World}
use subnet.Validator.Batcher.State.{Batcher}

abbrev pub world : World ℤ
world = record {
  fl = fixed;
  hashes = hashes;
  rng = rng;
  np = record { median = λ _. pos unit; quantile10 = λ _. pos unit };
  encode = codes;
  env_size = 100;
  compute_reward = λ idx text. some (if text == "right" then pos unit else pos 0);
  completion_text = λ r. if int_beq r.reward (pos 0) then "wrong" else "right";
  canonical_prompt_tokens = some (λ _. pos 5 ∷ pos 5 ∷ pos 5 ∷ pos 5 ∷ []);
  verify_signature = λ _ _. true;
  verify_commitment = λ _ _. some (record {
    all_passed = true;
    passed = 32;
    checked = 32;
    logits = certain;
    sketch_diff_max = pos 3;
  });
  eos_token_id = some (pos 5);
  config = record { vocab_size = some 10; max_context_length = 100 };
}

-- Prompt 9 was batched at window 2.
abbrev pub cooldown : CooldownMap
cooldown = record { cooldown_windows = 10; last_batched = (pos 9, pos 2) ∷ [] }

abbrev pub opened : Batcher ℤ
opened = record {
  window_start = 3;
  bootstrap = false;
  valid = [];
  claimed_prompts = [];
  randomness = "0aff";
  reject_counts = [];
  seal_flag = false;
  current_checkpoint_hash = "c";
}

abbrev pub late_request : BatchSubmissionRequest ℤ
late_request = record request { window_start = 4 }

abbrev pub submission : ℕ → String → ℤ → ValidSubmission ℤ
submission idx hotkey arrived_at = record {
  hotkey = hotkey;
  prompt_idx = idx;
  merkle_root_bytes = 10 ∷ [];
  sigma = pos 50000000;
  rollouts = [];
  completion_texts = [];
  arrived_at = arrived_at;
  sketch_diff_max = pos 0;
  lp_dev_max = none;
  dist_q10_min = none;
  claimed_checkpoint_hash = "c";
}

-- Two submissions were taken, for the prompts 8 and 7.
abbrev pub busy : Batcher ℤ
busy = record opened {
  valid = submission 8 "a" (pos 20) ∷ submission 7 "b" (pos 10) ∷ [];
  claimed_prompts = 7 ∷ 8 ∷ [];
}
