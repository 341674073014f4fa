-- ===== src/Protocol/Tests.antt =====
-- The protocol's theorems at concrete values.
use subnet.Base.{
  ℕ, ◌+◌, ◌*◌, ◌≤◌, ◌<◌, ◌-◌, ℤ, pos, negsuc, ◌+ℤ◌, ◌*ℤ◌, ◌/◌, All-of_In, In-replicate, min, true,
  some, List, [], ◌∷◌, All, ◌≡◌, ap, length, replicate, take, ◌%◌, string_eq, refl, arith,
}
use subnet.Base.Dict
use subnet.Samples.{fixed, hashes, rng, rng-IsRng, cut, sqrt, sqrt-pos}
use subnet.Protocol.Bytes.{Bytes, clean_hex, from_hex}
use subnet.Protocol.Commit.{Commitment, Value}
use subnet.Protocol.Constants.{prime_q, challenge_k}
use subnet.Protocol.Crypto.{Hashes, indices_from_root, indices_from_root_in_range}
use subnet.Protocol.Crypto.Indices.{IsChallenge, indices_from_root_in_range_total}
use subnet.Protocol.Grail.{
  dot, buckets, ProofResult, generate_r_vec, verify_commitment_proofs, adaptive_sketch_tolerance,
}
use subnet.Protocol.Grail.Sketch.{Within, sketch_sums-Within}
use subnet.Protocol.Grail.Proofs.{
  PassesAt, IsForged, generate_r_vec_total, verify_commitment_proofs_sound,
  verify_commitment_proofs_forged,
}
use subnet.Protocol.PromptRange.{window_prompt_range, last_prompt_never_eligible}
use subnet.Protocol.Samples.{forged, forward}

last_prompt_never_eligible_example :
    (window_prompt_range (0 ∷ 0 ∷ 0 ∷ 0 ∷ 0 ∷ 0 ∷ 0 ∷ 89 ∷ []) 100 10).1 < 100
last_prompt_never_eligible_example =
    last_prompt_never_eligible (0 ∷ 0 ∷ 0 ∷ 0 ∷ 0 ∷ 0 ∷ 0 ∷ 89 ∷ []) 100 10 (omega arith)

indices_from_root_in_range_total_example :
    (idxs : List ℕ) × (indices_from_root_in_range hashes fixed rng (pos 1 ∷ pos 2 ∷ []) "0aff" 4 9 3
      ≡ some idxs)
    × IsChallenge (min 3 (9 - 4)) 4 9 idxs
unfolding clean_hex from_hex
indices_from_root_in_range_total_example =
    indices_from_root_in_range_total fixed hashes rng rng-IsRng (pos 1 ∷ pos 2 ∷ []) "0aff" 4 9 3
      {seed = 10 ∷ 255 ∷ []} (omega arith) (omega arith) refl (omega arith) (omega arith)

shake_bytes : (x : Bytes) (k : ℕ) → All (λ b. b < 256) (replicate k (length x % 256))
shake_bytes x k =
    All-of_In (λ b. b < 256) (replicate k (length x % 256))
      (λ b m. omega (arith, In-replicate {a = length x % 256} k b m))

-- Bytes that depend on the length.
abbrev short_hashes : Hashes
short_hashes = record hashes { shake256 = λ x k. replicate k (length x % 256) }

made_r_vec : (r_vec : List ℤ) × (generate_r_vec short_hashes "0aff" ≡ some r_vec)
unfolding clean_hex from_hex
made_r_vec = generate_r_vec_total short_hashes "0aff" {seed = 10 ∷ 255 ∷ []} refl

sketch_sums-Within_example :
    Within 14224
      (dot (take 2 (buckets fixed (pos 300000000 ∷ negsuc 900000000 ∷ []))) (take 2 made_r_vec.0))
sketch_sums-Within_example =
    sketch_sums-Within fixed (pos 300000000 ∷ negsuc 900000000 ∷ []) short_hashes "0aff"
      {r_vec = made_r_vec.0} 2 shake_bytes made_r_vec.1

plus_pos : (a b : ℕ) → pos a +ℤ pos b ≡ pos (a + b)
unfolding ◌+ℤ◌
plus_pos a b = ground arith

times_pos : (a b : ℕ) → pos a *ℤ pos b ≡ pos (a * b)
unfolding ◌*ℤ◌
times_pos a b = ground arith

tolerance_of :
    (x : ℤ) (r : ℕ)
    → x ≡ pos r
    → (n : ℕ) × (cut (pos 500000000000 +ℤ cut (pos 500000000 *ℤ x) 100000000) 100000000 ≡ pos n)
tolerance_of x r e = (
  (500000000000 + 500000000 * r / 100000000) / 100000000,
  rw (e, times_pos 500000000 r, plus_pos 500000000000 (500000000 * r / 100000000)) refl,
)

tolerance_pos : (i : ℕ) → (n : ℕ) × (adaptive_sketch_tolerance fixed i ≡ pos n)
unfolding adaptive_sketch_tolerance
tolerance_pos i =
    let (r, e) = sqrt-pos (pos i *ℤ pos 100000000) in
    tolerance_of (sqrt (pos i *ℤ pos 100000000)) r e

abbrev IsForgedOne : Commitment → Type 0
IsForgedOne c = (m : ℕ) × (Dict.lookup "sketch" c ≡ some (Value.int (pos m))) × (2 * prime_q ≤ m)

abbrev forged_IsForged : IsForged forged.commitments
forged_IsForged =
    All-of_In IsForgedOne forged.commitments
      (λ c m. (4294967294, ap (λ d. Dict.lookup "sketch" d) (In-replicate 40 c m), omega arith))

verify_commitment_proofs_forged_example :
    (r : ProofResult ℤ) × (verify_commitment_proofs fixed hashes rng forward forged "0aff" ≡ some r)
    × (r.all_passed ≡ true)
unfolding clean_hex from_hex
verify_commitment_proofs_forged_example =
    verify_commitment_proofs_forged fixed hashes rng forward forged "0aff" {seed = 10 ∷ 255 ∷ []}
      rng-IsRng tolerance_pos (omega arith) (omega arith) refl refl forged_IsForged

verify_commitment_proofs_sound_example :
    (r_vec : List ℤ) × (idxs : List ℕ) × (generate_r_vec hashes "0aff" ≡ some r_vec)
    × (indices_from_root hashes fixed rng forged.tokens "0aff" 40 (min challenge_k 40) ≡ some idxs)
    × All
        (λ i. i < 40 → PassesAt fixed (forward forged.tokens).values forged.commitments r_vec i)
        idxs
    × (min challenge_k 40 ≤ verify_commitment_proofs_forged_example.0.checked)
verify_commitment_proofs_sound_example =
    verify_commitment_proofs_sound fixed hashes rng forward forged "0aff"
      {r = verify_commitment_proofs_forged_example.0} verify_commitment_proofs_forged_example.1
      verify_commitment_proofs_forged_example.2
