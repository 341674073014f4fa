-- ===== src/Protocol/Signatures.antt =====
-- protocol/signatures.py: the messages that hotkeys sign.
-- `Codec` stands for what Python's runtime and bittensor do: `str.encode()`, `json.dumps` of the
-- commitments, and the check of a signature under a hotkey's public key.
pub mod Binding
use subnet.Base.{
  ℕ, zero, suc, ◌+◌, ◌^◌, ◌%◌, ℤ, pos, mod_ℤ, Bool, true, false, Option, none, some, List, [], ◌∷◌,
  ◌++◌, if◌then◌else◌, ◌==◌, nat_eq, string_eq, String, length, ltb,
}
use subnet.Base.Maybe.{◌>>=◌, ◌>>◌, guard}
use subnet.Base.Text.{codes, text_length}
use subnet.Protocol.Bytes.{Bytes, to_bytes, clean_hex, from_hex}
use subnet.Protocol.Crypto.{Hashes, frame, hash_tokens}
use subnet.Protocol.Commit.{Commitment, RawCommit}

pub record Codec : Type 0 where
  -- `s.encode("utf-8")`
  pub encode : String → Bytes
  -- `json.dumps(commitments, sort_keys=True, separators=(",", ":")).encode()`
  pub dumps : List Commitment → Bytes
  -- `Keypair(ss58_address=hotkey).verify(data=message, signature=signature)`; an exception is
  -- caught by every caller, and counts as false
  pub verify : String → Bytes → Bytes → Bool

abbrev pub commit_domain : Bytes
commit_domain = codes "grail-commit-v1"

abbrev pub envelope_domain : Bytes
envelope_domain = codes "reliquary-envelope-v1"

abbrev pub envelope_domain_v2 : Bytes
envelope_domain_v2 = codes "reliquary-envelope-v2"

abbrev pub envelope_domain_v3 : Bytes
envelope_domain_v3 = codes "reliquary-envelope-v3"

abbrev pub precommit_domain : Bytes
precommit_domain = codes "reliquary-upload-precommit-v2"

abbrev pub precommit_domain_v3 : Bytes
precommit_domain_v3 = codes "reliquary-upload-precommit-v3"

-- `_hex_bytes`; an empty text is no error.
unfoldable pub hex_bytes : String → Option Bytes
hex_bytes s = from_hex (clean_hex (codes s))

-- What a hash is taken of: the domain, then the framed parts.
abbrev pub message : Bytes → List Bytes → Bytes
message domain parts = domain ++ frame parts

pub record Envelope : Type 0 where
  pub miner_hotkey : String
  pub window_start : ℕ
  pub prompt_idx : ℕ
  pub merkle_root : String
  pub checkpoint_hash : String
  pub drand_round : ℕ
  pub randomness : String
  pub nonce : String
  pub protocol_version : Option ℕ
  pub generation_profile_id : String

pub record Precommit : Type 0 where
  pub miner_hotkey : String
  pub window_start : ℕ
  pub prompt_idx : ℕ
  pub merkle_root : String
  pub checkpoint_hash : String
  pub environment : String
  pub payload_bytes : ℕ
  pub payload_sha256 : String
  pub drand_round : ℕ
  pub randomness : String
  pub protocol_version : ℕ
  pub nonce : String
  pub generation_profile_id : String

module _ (h : Hashes) (codec : Codec) where
  open codec use {encode, dumps, verify}

  -- The five parts of the commit binding.
  unfoldable pub commit_parts : List ℤ → Bytes → String → ℤ → List Commitment → List Bytes
  commit_parts tokens rand_bytes model_name layer_index commitments =
      hash_tokens h tokens
      ∷ rand_bytes
      ∷ encode model_name
      ∷ to_bytes 4 (mod_ℤ layer_index (2 ^ 32))
      ∷ h.sha256 (dumps commitments)
      ∷ []

  unfoldable pub build_commit_binding :
      List ℤ → String → String → ℤ → List Commitment → Option Bytes
  build_commit_binding tokens randomness_hex model_name layer_index commitments = do
    rand_bytes ← hex_bytes randomness_hex
    some (
        h.sha256 (
          message commit_domain
            (commit_parts tokens rand_bytes model_name layer_index commitments)))

  -- The parts that every version of the envelope starts with, up to the drand round.
  unfoldable pub routing_parts : Envelope → Bytes → List Bytes
  routing_parts e merkle =
      encode e.miner_hotkey
      ∷ to_bytes 8 e.window_start
      ∷ to_bytes 8 e.prompt_idx
      ∷ merkle
      ∷ encode e.checkpoint_hash
      ∷ to_bytes 8 e.drand_round
      ∷ []

  -- `domain` and `parts` of the branch that the version and the profile choose.
  unfoldable pub envelope_parts : Envelope → Bytes → Bytes → Bytes × List Bytes
  unfolding routing_parts
  envelope_parts e merkle rand =
      if ltb 0 (text_length e.generation_profile_id)
      then (
        envelope_domain_v3,
        routing_parts e merkle
            ++ (rand
                ∷ encode e.nonce
                ∷ to_bytes 8 (elim e.protocol_version [ none ↦ 0 | some v ↦ v ])
                ∷ encode e.generation_profile_id
                ∷ []),
      )
      else elim e.protocol_version [
        | none ↦ (envelope_domain, routing_parts e merkle ++ (rand ∷ encode e.nonce ∷ []))
        | some v ↦ (
          envelope_domain_v2,
          routing_parts e merkle ++ (to_bytes 8 v ∷ rand ∷ encode e.nonce ∷ []),
        )
      ]

  -- What is hashed for an envelope, from the bytes of its two hex fields.
  abbrev pub envelope_bytes : Envelope → Bytes → Bytes → Bytes
  envelope_bytes e merkle rand =
      let (domain, parts) = envelope_parts e merkle rand in message domain parts

  unfoldable pub envelope_message : Envelope → Option Bytes
  unfolding hex_bytes
  envelope_message e = do
    merkle ← hex_bytes e.merkle_root
    rand ← hex_bytes e.randomness
    some (envelope_bytes e merkle rand)

  unfoldable pub build_envelope_binding : Envelope → Option Bytes
  build_envelope_binding e = envelope_message e >>= λ m. some (h.sha256 m)

  -- The check rebuilds the binding without a protocol version and without a profile.
  unfoldable pub verify_envelope_signature : Envelope → String → Bool
  verify_envelope_signature e envelope_signature =
      if text_length envelope_signature == 0
      then false
      else elim (from_hex (codes envelope_signature)) [
        | none ↦ false
        | some sig ↦
            elim (build_envelope_binding
              (record e { protocol_version = none; generation_profile_id = "" })) [
                | none ↦ false
                | some msg ↦ verify e.miner_hotkey msg sig
              ]
      ]

  unfoldable pub precommit_parts : Precommit → Bytes → Bytes → Bytes → List Bytes
  precommit_parts p merkle digest rand =
      encode p.miner_hotkey
      ∷ to_bytes 8 p.window_start
      ∷ to_bytes 8 p.prompt_idx
      ∷ merkle
      ∷ encode p.checkpoint_hash
      ∷ encode p.environment
      ∷ to_bytes 8 p.payload_bytes
      ∷ digest
      ∷ to_bytes 8 p.drand_round
      ∷ rand
      ∷ to_bytes 8 p.protocol_version
      ∷ encode p.nonce
      ∷ []

  -- What is hashed for a precommit, from the bytes of its three hex fields.
  abbrev pub precommit_bytes : Precommit → Bytes → Bytes → Bytes → Bytes
  precommit_bytes p merkle digest rand =
      if ltb 0 (text_length p.generation_profile_id)
      then message precommit_domain_v3
          (precommit_parts p merkle digest rand ++ (encode p.generation_profile_id ∷ []))
      else message precommit_domain (precommit_parts p merkle digest rand)

  unfoldable pub precommit_message : Precommit → Option Bytes
  precommit_message p = do
    merkle ← hex_bytes p.merkle_root
    digest ← hex_bytes p.payload_sha256
    rand ← hex_bytes p.randomness
    some (precommit_bytes p merkle digest rand)

  unfoldable pub build_precommit_binding : Precommit → Option Bytes
  build_precommit_binding p = precommit_message p >>= λ m. some (h.sha256 m)

  -- `verify_commit_signature` on the dict as it came in; every exception is caught.
  unfoldable pub verify_commit_signature : {F : Type 0} → RawCommit F → String → Bool
  verify_commit_signature c wallet_address =
      let checked : Option Bool = (do
        signature ← c.signature
        sig ← from_hex (codes signature)
        version ← c.proof_version
        guard (version == "v7")
        tokens ← c.tokens
        commitments ← c.commitments
        beacon ← c.beacon
        randomness ← beacon.randomness
        model ← c.model
        layer_index ← model.layer_index
        msg ←
            build_commit_binding tokens randomness
              (elim model.name [ none ↦ "" | some name ↦ name ]) layer_index commitments
        some (verify wallet_address msg sig)) in
      elim checked [ none ↦ false | some ok ↦ ok ]
