-- ===== src/Protocol/MessageTests.antt =====
-- The theorems on signed messages and Merkle roots at concrete values.
use subnet.Base.{
  ℤ, true, some, List, [], ◌∷◌, replicate, String, ◌≡◌, ◌⊎◌, refl, arith, ap₂, length, string_eq,
  nat_eq,
}
use subnet.Base.Text.{codes}
use subnet.Samples.{hashes, sized}
use subnet.Protocol.Bytes.{Bytes, to_bytes, clean_hex, from_hex}
use subnet.Protocol.Merkle.{payloads, root_from, parents, compute_rollouts_merkle_root}
use subnet.Protocol.Merkle.Root.{Collision, hashed_texts, merkle_root_binds}
use subnet.Protocol.Signatures.{
  Codec, Envelope, hex_bytes, routing_parts, envelope_parts, envelope_bytes, envelope_message,
  build_envelope_binding,
}
use subnet.Protocol.Signatures.Binding.{Fits, IsSameClaim, build_envelope_binding_binds}
use mathlib.Core.List.{reverse}
use subnet.Protocol.Crypto.{frame}
use subnet.Protocol.Request.{RolloutSubmission}
use subnet.Protocol.Samples.{rollouts, json}
use text.Mathlib.TextEquality.{Char-path}

-- The digest of the examples is that of the length only.
abbrev root : Bytes
root = replicate 32 90

root_of_rollouts : compute_rollouts_merkle_root sized json rollouts ≡ some root
unfolding compute_rollouts_merkle_root root_from parents payloads
root_of_rollouts = refl

-- The same rewards the other way round.
abbrev turned : List (RolloutSubmission ℤ)
turned = reverse rollouts

root_of_turned : compute_rollouts_merkle_root sized json turned ≡ some root
unfolding compute_rollouts_merkle_root root_from parents payloads
root_of_turned = refl

merkle_root_binds_example :
    (payloads json 0 rollouts ≡ payloads json 0 turned)
    ⊎ Collision sized
        (hashed_texts sized (payloads json 0 rollouts))
        (hashed_texts sized (payloads json 0 turned))
merkle_root_binds_example =
    merkle_root_binds sized (λ x. refl) json rollouts turned {root = root} refl root_of_rollouts
      root_of_turned

abbrev codec : Codec
codec = record { encode = codes; dumps = λ cs. length cs ∷ []; verify = λ _ _ _. true }

codes_injective : (s t : String) → codes s ≡ codes t → s ≡ t
codes_injective String.[] String.[] e = refl
codes_injective String.[] (String.◌∷◌ d t) e = absurd (cc)
codes_injective (String.◌∷◌ c s) String.[] e = absurd (cc)
codes_injective (String.◌∷◌ c s) (String.◌∷◌ d t) e =
    ap₂ String.◌∷◌ (Char-path c d (cc)) (codes_injective s t (cc))

abbrev envelope : Envelope
envelope = record {
  miner_hotkey = "hk";
  window_start = 3;
  prompt_idx = 7;
  merkle_root = "0a";
  checkpoint_hash = "c";
  drand_round = 0;
  randomness = "0aff";
  nonce = "n";
  protocol_version = some 2;
  generation_profile_id = "";
}

-- The same at the next window.
abbrev later : Envelope
later = record envelope { window_start = 4 }

abbrev seed : Bytes
seed = 10 ∷ 255 ∷ []

abbrev root_bytes : Bytes
root_bytes = 10 ∷ []

envelope-Fits : Fits hashes codec codes_injective envelope root_bytes seed
unfolding envelope_parts routing_parts to_bytes
envelope-Fits = record {
  window_start = omega arith;
  prompt_idx = omega arith;
  drand_round = omega arith;
  parts = (
    omega arith,
    (
      omega arith,
      (
        omega arith,
        (
          omega arith,
          (omega arith, (omega arith, (omega arith, (omega arith, (omega arith, tt))))),
        ),
      ),
    ),
  );
}

later-Fits : Fits hashes codec codes_injective later root_bytes seed
unfolding envelope_parts routing_parts to_bytes
later-Fits = record {
  window_start = omega arith;
  prompt_idx = omega arith;
  drand_round = omega arith;
  parts = (
    omega arith,
    (
      omega arith,
      (
        omega arith,
        (
          omega arith,
          (omega arith, (omega arith, (omega arith, (omega arith, (omega arith, tt))))),
        ),
      ),
    ),
  );
}

same_digest :
    build_envelope_binding hashes codec envelope ≡ build_envelope_binding hashes codec later
unfolding build_envelope_binding envelope_message envelope_parts routing_parts hex_bytes to_bytes
    clean_hex from_hex frame
same_digest = refl

parsed_root : hex_bytes "0a" ≡ some root_bytes
unfolding hex_bytes clean_hex from_hex
parsed_root = refl

parsed_seed : hex_bytes "0aff" ≡ some seed
unfolding hex_bytes clean_hex from_hex
parsed_seed = refl

-- The digest does not tell the two windows apart.
build_envelope_binding_binds_example :
    IsSameClaim envelope later root_bytes root_bytes seed seed
    ⊎ Collision sized
        (envelope_bytes hashes codec envelope root_bytes seed ∷ [])
        (envelope_bytes hashes codec later root_bytes seed ∷ [])
build_envelope_binding_binds_example =
    build_envelope_binding_binds hashes codec codes_injective envelope later parsed_root parsed_root
      parsed_seed parsed_seed envelope-Fits later-Fits same_digest
