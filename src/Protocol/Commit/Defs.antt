-- ===== src/Protocol/Commit/Defs.antt =====
-- protocol/submission.py: the classes `ModelInfo`, `BeaconInfo`, `RolloutMetadata`, `CommitModel`.
use subnet.Base.{
  ℕ, ◌+◌, ℤ, pos, negsuc, String, Bool, false, Option, none, some, List, ◌==◌, nat_eq, string_eq,
  ◌&&◌, ◌||◌, not, length, ltb, leb,
}
use subnet.Base.Maybe.{◌>>=◌, ◌>>◌, guard}
use subnet.Base.Text.{is_hex_text, text_length}
use subnet.Base.Dict.{Dict}
use subnet.Protocol.Constants.{challenge_k, max_new_tokens_protocol_cap}

-- A value of a commitment's dict. Of those that are no integers, only their text is kept.
pub data Value : Type 0 where
  int : ℤ → Value
  other : String → Value

abbrev pub Commitment : Type 0
Commitment = Dict String Value

-- An optional key: missing, with a value that is not of the declared type, or with one that is.
pub data Field (A : Type 0) : Type 0 where
  absent malformed : Field A
  given : A → Field A

pub record RawRollout (F : Type 0) : Type 0 where
  pub prompt_length : Option ℤ
  pub completion_length : Option ℤ
  pub success : Option Bool
  pub total_reward : Option F
  pub advantage : Option F
  pub token_logprobs : Option (List F)
  pub forced : Field Bool
  pub force_span : Field (Option (List ℤ))
  pub truncated : Field Bool
  pub extra_keys : Bool

pub record RawModel : Type 0 where
  pub name : Option String
  pub layer_index : Option ℤ
  pub extra_keys : Bool

pub record RawBeacon : Type 0 where
  pub randomness : Option String
  pub extra_keys : Bool

pub record RawCommit (F : Type 0) : Type 0 where
  pub tokens : Option (List ℤ)
  pub commitments : Option (List Commitment)
  pub proof_version : Option String
  pub model : Option RawModel
  pub signature : Option String
  pub beacon : Option RawBeacon
  pub rollout : Option (RawRollout F)
  pub extra_keys : Bool

pub record RolloutMetadata (F : Type 0) : Type 0 where
  pub prompt_length : ℕ
  pub completion_length : ℕ
  pub success : Bool
  pub total_reward : F
  pub advantage : F
  pub token_logprobs : List F
  pub forced : Bool
  pub force_span : Option (List ℤ)
  pub truncated : Bool

pub record Commit (F : Type 0) : Type 0 where
  pub tokens : List ℤ
  pub commitments : List Commitment
  pub model_name : String
  pub layer_index : ℤ
  pub signature : String
  pub randomness : String
  pub rollout : RolloutMetadata F

-- `Field(ge=0)`
abbrev pub nonneg : ℤ → Option ℕ
nonneg (pos n) = some n
nonneg (negsuc _) = none

-- A field with a default.
abbrev pub with_default : {A : Type 0} → A → Field A → Option A
with_default fallback absent = some fallback
with_default fallback malformed = none
with_default fallback (given a) = some a

unfoldable pub validate_model : RawModel → Option (String × ℤ)
validate_model m = do
  guard (not m.extra_keys)
  name ← m.name
  layer_index ← m.layer_index
  some (name, layer_index)

unfoldable pub validate_beacon : RawBeacon → Option String
validate_beacon b = do
  guard (not b.extra_keys)
  randomness ← b.randomness
  guard (ltb 0 (text_length randomness) && is_hex_text randomness)
  some randomness

module _ {F : Type 0} where
  unfoldable pub validate_rollout : RawRollout F → Option (RolloutMetadata F)
  validate_rollout r = do
    guard (not r.extra_keys)
    prompt_length ← r.prompt_length >>= nonneg
    completion_length ← r.completion_length >>= nonneg
    guard (ltb 0 completion_length && leb completion_length max_new_tokens_protocol_cap)
    success ← r.success
    total_reward ← r.total_reward
    advantage ← r.advantage
    token_logprobs ← r.token_logprobs
    forced ← with_default false r.forced
    force_span ← with_default none r.force_span
    truncated ← with_default false r.truncated
    some (record {
      prompt_length = prompt_length;
      completion_length = completion_length;
      success = success;
      total_reward = total_reward;
      advantage = advantage;
      token_logprobs = token_logprobs;
      forced = forced;
      force_span = force_span;
      truncated = truncated;
    })

  -- `_lengths_consistent`
  unfoldable pub lengths_consistent : List ℤ → RolloutMetadata F → Bool
  lengths_consistent tokens v =
      (v.prompt_length + v.completion_length == length tokens)
      && ((length v.token_logprobs == length tokens)
          || (length v.token_logprobs == v.completion_length))

  -- `CommitModel.model_validate`; `none` is the ValidationError.
  unfoldable pub validate : RawCommit F → Option (Commit F)
  unfolding validate_rollout validate_model validate_beacon lengths_consistent
  validate c = do
    guard (not c.extra_keys)
    tokens ← c.tokens
    guard (leb challenge_k (length tokens))
    commitments ← c.commitments
    guard (length commitments == length tokens)
    proof_version ← c.proof_version
    guard (proof_version == "v7")
    (name, layer_index) ← c.model >>= validate_model
    signature ← c.signature
    guard (ltb 0 (text_length signature) && is_hex_text signature)
    randomness ← c.beacon >>= validate_beacon
    rollout ← c.rollout >>= validate_rollout
    guard (lengths_consistent tokens rollout)
    some (record {
      tokens = tokens;
      commitments = commitments;
      model_name = name;
      layer_index = layer_index;
      signature = signature;
      randomness = randomness;
      rollout = rollout;
    })
