-- ===== src/Protocol/Commit/Laws.antt =====
-- Which dicts pass the schema of a commit, and what they are read as.
use subnet.Base.{
  ◌+◌, ◌<◌, ◌≤◌, ℤ, pos, true, false, Option, none, some, ◌&&◌, length, ltb, String, ◌≡◌, ◌⊎◌,
}
use subnet.Base.Text.{is_hex_text, text_length}
use subnet.Protocol.Commit.Defs.{
  Field, absent, malformed, given, RawRollout, RawModel, RawBeacon, RawCommit, RolloutMetadata,
  Commit,
}

-- The optional key has this value, or is missing and this is its default.
abbrev pub IsReadAs : {A : Type 0} → A → Field A → A → Type 0
IsReadAs fallback absent a = fallback ≡ a
IsReadAs fallback malformed a = ⊥
IsReadAs fallback (given b) a = b ≡ a

-- The text is not empty and has hex digits only.
abbrev pub IsHex : String → Type 0
IsHex s = (ltb 0 (text_length s) && is_hex_text s) ≡ true

abbrev pub ModelIs : Option RawModel → String → ℤ → Type 0
ModelIs none name layer_index = ⊥
ModelIs (some m) name layer_index =
    (m.extra_keys ≡ false) × (m.name ≡ some name) × (m.layer_index ≡ some layer_index)

abbrev pub BeaconIs : Option RawBeacon → String → Type 0
BeaconIs none randomness = ⊥
BeaconIs (some b) randomness =
    (b.extra_keys ≡ false) × (b.randomness ≡ some randomness) × IsHex randomness

module _ {F : Type 0} where
  pub record RolloutIs (r : RawRollout F) (v : RolloutMetadata F) : Type 0 where
    pub no_extra : r.extra_keys ≡ false
    pub prompt_length : r.prompt_length ≡ some (pos v.prompt_length)
    pub completion_length : r.completion_length ≡ some (pos v.completion_length)
    pub not_empty : 0 < v.completion_length
    pub within_cap : v.completion_length ≤ 16384
    pub success : r.success ≡ some v.success
    pub total_reward : r.total_reward ≡ some v.total_reward
    pub advantage : r.advantage ≡ some v.advantage
    pub token_logprobs : r.token_logprobs ≡ some v.token_logprobs
    pub forced : IsReadAs false r.forced v.forced
    pub force_span : IsReadAs none r.force_span v.force_span
    pub truncated : IsReadAs false r.truncated v.truncated

  abbrev pub OptionalRolloutIs : Option (RawRollout F) → RolloutMetadata F → Type 0
  OptionalRolloutIs none v = ⊥
  OptionalRolloutIs (some r) v = RolloutIs r v

  -- The dict has the commit's fields, of the declared types, and no others; and their lengths,
  -- lettering and protocol version are as the schema asks.
  pub record CommitIs (raw : RawCommit F) (c : Commit F) : Type 0 where
    pub no_extra : raw.extra_keys ≡ false
    pub tokens : raw.tokens ≡ some c.tokens
    pub long_enough : 32 ≤ length c.tokens
    pub commitments : raw.commitments ≡ some c.commitments
    pub one_commitment_each : length c.commitments ≡ length c.tokens
    pub version : raw.proof_version ≡ some "v7"
    pub model : ModelIs raw.model c.model_name c.layer_index
    pub signature : raw.signature ≡ some c.signature
    pub signed : IsHex c.signature
    pub beacon : BeaconIs raw.beacon c.randomness
    pub rollout : OptionalRolloutIs raw.rollout c.rollout
    pub split : c.rollout.prompt_length + c.rollout.completion_length ≡ length c.tokens
    pub logprobs :
        (length c.rollout.token_logprobs ≡ length c.tokens)
        ⊎ (length c.rollout.token_logprobs ≡ c.rollout.completion_length)
