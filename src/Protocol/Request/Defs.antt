-- ===== src/Protocol/Request/Defs.antt =====
-- The request's schema: field constraints, then the two validators over the rollouts.
use subnet.Base.{
  ℕ, ℤ, String, Bool, Option, some, List, map, ◌==◌, nat_eq, string_eq, ◌&&◌, length, ltb, leb, all,
  to_set,
}
use subnet.Base.Maybe.{◌>>=◌, ◌>>◌, guard}
use subnet.Base.Text.{is_hex_text, text_length}
use subnet.Protocol.Constants.{m_rollouts}
use subnet.Protocol.Commit.{RawCommit, nonneg}
use subnet.Protocol.Reason.{RejectReason}

pub record RolloutSubmission (F : Type 0) : Type 0 where
  pub tokens : List ℤ
  pub reward : F
  pub commit : RawCommit F
  pub env_name : String

pub record RawRequest (F : Type 0) : Type 0 where
  pub miner_hotkey : String
  pub prompt_idx : ℤ
  pub window_start : ℤ
  pub merkle_root : String
  pub rollouts : List (RolloutSubmission F)
  pub checkpoint_hash : String
  pub drand_round : ℤ
  pub nonce : String
  pub envelope_signature : String
  pub protocol_version : ℤ
  pub generation_profile_id : String

pub record BatchSubmissionRequest (F : Type 0) : Type 0 where
  pub miner_hotkey : String
  pub prompt_idx : ℕ
  pub window_start : ℕ
  pub merkle_root : String
  pub rollouts : List (RolloutSubmission F)
  pub checkpoint_hash : String
  pub drand_round : ℕ
  pub nonce : String
  pub envelope_signature : String
  pub protocol_version : ℕ
  pub generation_profile_id : String

pub record BatchSubmissionResponse : Type 0 where
  pub accepted : Bool
  pub reason : RejectReason

module _ {F : Type 0} where
  -- `Field(min_length=1)` of a rollout's tokens
  abbrev pub has_tokens : RolloutSubmission F → Bool
  has_tokens r = ltb 0 (length r.tokens)

  abbrev pub env_names : List (RolloutSubmission F) → List String
  env_names rollouts = map (λ r. r.env_name) rollouts

  -- `_rollouts_share_one_environment`
  unfoldable pub share_one_environment : List (RolloutSubmission F) → Bool
  share_one_environment rollouts = length (to_set (env_names rollouts)) == 1

  -- `none` is the ValidationError, which the server answers with HTTP 422.
  unfoldable pub parse_request : RawRequest F → Option (BatchSubmissionRequest F)
  parse_request r = do
    guard (ltb 0 (text_length r.miner_hotkey))
    prompt_idx ← nonneg r.prompt_idx
    window_start ← nonneg r.window_start
    guard ((text_length r.merkle_root == 64) && is_hex_text r.merkle_root)
    guard (all has_tokens r.rollouts)
    guard (length r.rollouts == m_rollouts)
    guard (leb (text_length r.checkpoint_hash) 256)
    drand_round ← nonneg r.drand_round
    guard (leb (text_length r.nonce) 128)
    guard (is_hex_text r.envelope_signature)
    protocol_version ← nonneg r.protocol_version
    guard (leb (text_length r.generation_profile_id) 64)
    guard (share_one_environment r.rollouts)
    some (record {
      miner_hotkey = r.miner_hotkey;
      prompt_idx = prompt_idx;
      window_start = window_start;
      merkle_root = r.merkle_root;
      rollouts = r.rollouts;
      checkpoint_hash = r.checkpoint_hash;
      drand_round = drand_round;
      nonce = r.nonce;
      envelope_signature = r.envelope_signature;
      protocol_version = protocol_version;
      generation_profile_id = r.generation_profile_id;
    })
