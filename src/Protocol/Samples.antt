-- ===== src/Protocol/Samples.antt =====
-- Commits, a group of rollouts and a request that the examples share.
use subnet.Base.{ℕ, ℤ, pos, negsuc, abs_ℤ, true, false, none, some, List, [], ◌∷◌, replicate}
use subnet.Protocol.Bytes.{Bytes}
use subnet.Protocol.Commit.{Commit, Commitment, Value, Field, RawCommit}
use subnet.Protocol.Grail.{Logits, Forward}
use subnet.Protocol.Request.{RolloutSubmission, RawRequest, BatchSubmissionRequest}

abbrev pub tokens40 : List ℤ
tokens40 = replicate 40 (pos 5)

abbrev pub commit40 : List Commitment → Commit ℤ
commit40 commitments = record {
  tokens = tokens40;
  commitments = commitments;
  model_name = "m";
  layer_index = negsuc 0;
  signature = "ab";
  randomness = "0aff";
  rollout = record {
    prompt_length = 4;
    completion_length = 36;
    success = true;
    total_reward = pos 1;
    advantage = pos 0;
    token_logprobs = replicate 40 (pos 0);
    forced = false;
    force_span = none;
    truncated = false;
  };
}

abbrev pub honest : Commit ℤ
honest = commit40 (replicate 40 (("sketch", Value.int (pos 0)) ∷ []))

abbrev pub forged : Commit ℤ
forged = commit40 (replicate 40 (("sketch", Value.int (pos 4294967294)) ∷ []))

-- The dict that a commit is sent as, without the keys that may be left out.
abbrev pub wire : Commit ℤ → RawCommit ℤ
wire c = record {
  tokens = some c.tokens;
  commitments = some c.commitments;
  proof_version = some "v7";
  model =
      some
        (record { name = some c.model_name; layer_index = some c.layer_index; extra_keys = false });
  signature = some c.signature;
  beacon = some (record { randomness = some c.randomness; extra_keys = false });
  rollout = some (record {
    prompt_length = some (pos c.rollout.prompt_length);
    completion_length = some (pos c.rollout.completion_length);
    success = some c.rollout.success;
    total_reward = some c.rollout.total_reward;
    advantage = some c.rollout.advantage;
    token_logprobs = some c.rollout.token_logprobs;
    forced = Field.given c.rollout.forced;
    force_span = Field.absent;
    truncated = Field.absent;
    extra_keys = false;
  });
  extra_keys = false;
}

abbrev pub certain : Logits ℤ
certain = record {
  rows = 40;
  numel = 1;
  log_prob = λ _ _. pos 0;
  prob = λ _ _. pos 100000000;
  prob_at = λ _ _ _. pos 100000000;
}

abbrev pub forward : List ℤ → Forward ℤ
forward tokens = record { values = λ _. pos 0 ∷ pos 300000000 ∷ []; logits = certain }

-- A rollout with the reward that is given, and the group of eight that alternates two rewards.
abbrev pub rollout : ℤ → RolloutSubmission ℤ
rollout reward = record { tokens = tokens40; reward = reward; commit = wire honest; env_name = "e" }

abbrev pub rollouts : List (RolloutSubmission ℤ)
rollouts =
    rollout (pos 0)
    ∷ rollout (pos 100000000)
    ∷ rollout (pos 0)
    ∷ rollout (pos 100000000)
    ∷ rollout (pos 0)
    ∷ rollout (pos 100000000)
    ∷ rollout (pos 0)
    ∷ rollout (pos 100000000)
    ∷ []

abbrev pub raw_request : RawRequest ℤ
raw_request = record {
  miner_hotkey = "hk";
  prompt_idx = pos 7;
  window_start = pos 3;
  merkle_root = "0000000000000000000000000000000000000000000000000000000000000000";
  rollouts = rollouts;
  checkpoint_hash = "c";
  drand_round = pos 0;
  nonce = "";
  envelope_signature = "";
  protocol_version = pos 0;
  generation_profile_id = "";
}

abbrev pub request : BatchSubmissionRequest ℤ
request = record {
  miner_hotkey = "hk";
  prompt_idx = 7;
  window_start = 3;
  merkle_root = "0000000000000000000000000000000000000000000000000000000000000000";
  rollouts = rollouts;
  checkpoint_hash = "c";
  drand_round = 0;
  nonce = "";
  envelope_signature = "";
  protocol_version = 0;
  generation_profile_id = "";
}

-- The rewards stand for the JSON.
abbrev pub json : ℕ → RolloutSubmission ℤ → Bytes
json index r = index ∷ abs_ℤ r.reward ∷ []
