-- ===== src/Protocol/Grail/Defs.antt =====
-- The definitions of protocol/grail_verifier.py and of `verify_commitment_proofs`.
use subnet.Base.{
  ℕ, ◌+◌, ◌-◌, ◌*◌, ℤ, pos, negsuc, ◌+ℤ◌, ◌-ℤ◌, ◌*ℤ◌, neg_ℤ, min_ℤ, max_ℤ, ltb_ℤ, leb_ℤ, abs_ℤ,
  mod_ℤ, Bool, true, false, ◌&&◌, Option, none, some, List, [], ◌∷◌, if◌then◌else◌, ◌==◌, nat_eq,
  string_eq, String, ltb, leb, length, take, min, get_elem?,
}
use subnet.Base.Float.{Float}
use subnet.Base.Maybe.{◌>>=◌}
use subnet.Base.Text.{codes}
use subnet.Protocol.Constants.{challenge_k, prime_q}
use subnet.Protocol.Bytes.{Bytes, clean_hex, from_hex}
use subnet.Protocol.Crypto.{Hashes, Rng, prf, label_sketch, indices_from_root}
use subnet.Base.Dict
use subnet.Protocol.Commit.{Commit, Commitment, Value}

abbrev pub proof_num_buckets : ℕ
proof_num_buckets = 8

abbrev pub proof_topk : ℕ
proof_topk = 16

abbrev pub proof_coeff_range : ℕ
proof_coeff_range = 127

-- A big-endian int16 and its absolute value, which numpy computes in 16 bits: that of -32768 is
-- itself.
unfoldable pub abs_int16 : ℕ → ℕ → ℤ
abs_int16 hi lo =
    let u = 256 * hi + lo in
    if ltb u 32768 then pos u else if u == 32768 then negsuc 32767 else pos (65536 - u)

-- `(np.abs(v) % (2 * R + 1)) - R`
unfoldable pub coefficient : ℕ → ℕ → ℤ
unfolding abs_int16 mod_ℤ
coefficient hi lo =
    pos (mod_ℤ (abs_int16 hi lo) (2 * proof_coeff_range + 1)) -ℤ pos proof_coeff_range

-- `np.frombuffer(raw, dtype=">i2")`, entry by entry
unfoldable pub coefficients : Bytes → List ℤ
coefficients [] = []
coefficients (hi ∷ []) = []
coefficients (hi ∷ lo ∷ raw) = coefficient hi lo ∷ coefficients raw

unfoldable pub generate_r_vec : Hashes → String → Option (List ℤ)
unfolding prf
generate_r_vec h randomness_hex = do
  seed ← from_hex (clean_hex (codes randomness_hex))
  raw ← prf h label_sketch (seed ∷ []) (2 * proof_topk)
  some (take proof_topk (coefficients raw))

-- `torch.dot` on the integers
unfoldable pub dot : List ℤ → List ℤ → ℤ
dot [] ys = pos 0
dot (x ∷ xs) [] = pos 0
dot (x ∷ xs) (y ∷ ys) = x *ℤ y +ℤ dot xs ys

-- The verdict on one sketch, and `mod_diff`.
unfoldable pub verify_sketch : ℕ → ℤ → ℤ → Bool × ℤ
verify_sketch validator_sketch miner_sketch tolerance =
    let sketch_diff = abs_ℤ (pos validator_sketch -ℤ miner_sketch) in
    let mod_diff = min_ℤ (pos sketch_diff) (pos prime_q -ℤ pos sketch_diff) in
    (leb_ℤ mod_diff tolerance, mod_diff)

module _ {F : Type 0} (fl : Float F) where
  -- The clamped bucket of a finite activation, before its sign.
  unfoldable pub magnitude : F → ℕ → ℤ
  magnitude abs_val num_buckets =
      let log_val = fl.log2 (fl.add abs_val (fl.decimal 1 0)) in
      let scale_factor = fl.div (fl.of_int (pos num_buckets)) (fl.decimal 10 0) in
      max_ℤ (pos 0) (min_ℤ (pos num_buckets -ℤ pos 1) (fl.trunc (fl.mul log_val scale_factor)))

  unfoldable pub log_magnitude_bucket : F → ℕ → ℤ
  unfolding magnitude
  log_magnitude_bucket value num_buckets =
      if fl.is_nan value
      then pos 0
      else if fl.is_inf value
      then (if fl.lt (fl.of_int (pos 0)) value
          then pos num_buckets -ℤ pos 1
          else neg_ℤ (pos num_buckets -ℤ pos 1))
      else if fl.lt (fl.abs value) (fl.decimal 1 6)
      then pos 0
      else if fl.le (fl.of_int (pos 0)) value
      then magnitude (fl.abs value) num_buckets
      else neg_ℤ (magnitude (fl.abs value) num_buckets)

  unfoldable pub buckets : List F → List ℤ
  buckets [] = []
  buckets (v ∷ vs) = log_magnitude_bucket v proof_num_buckets ∷ buckets vs

  -- The sketch of a row, from its selected activations: what the miner commits to and what the
  -- validator recomputes.
  unfoldable pub sketch_of : List F → List ℤ → ℕ
  sketch_of values r_vec = mod_ℤ (dot (buckets values) r_vec) prime_q

  unfoldable pub adaptive_sketch_tolerance : ℕ → ℤ
  adaptive_sketch_tolerance position =
      fl.trunc
        (fl.add (fl.decimal 5000 0) (fl.mul (fl.decimal 5 0) (fl.sqrt (fl.of_int (pos position)))))

  unfoldable pub verify_commitment : List F → ℤ → List ℤ → ℕ → Bool × ℤ
  verify_commitment validator_values miner_sketch r_vec position =
      verify_sketch (sketch_of validator_values r_vec) miner_sketch
        (adaptive_sketch_tolerance position)

-- The forward pass on a commit's tokens: the selected activations of each row, and the logits.
-- `log_prob pos t` is entry `t` of `log_softmax(logits[pos])`, `prob` the same of softmax, and
-- `prob_at T` of softmax(logits / T).
pub record Logits (F : Type 0) : Type 0 where
  pub rows : ℕ
  pub numel : ℕ
  pub log_prob : ℕ → ℤ → F
  pub prob : ℕ → ℤ → F
  pub prob_at : F → ℕ → ℤ → F

pub record Forward (F : Type 0) : Type 0 where
  pub values : ℕ → List F
  pub logits : Logits F

pub record ProofResult (F : Type 0) : Type 0 where
  pub all_passed : Bool
  pub passed : ℕ
  pub checked : ℕ
  pub logits : Logits F
  pub sketch_diff_max : ℤ

-- The counters of the loop over the challenged positions.
pub record Tally : Type 0 where
  pub passed : ℕ
  pub checked : ℕ
  pub sketch_diff_max : ℤ

abbrev pub count_check : Tally → Bool × ℤ → Tally
count_check t (valid, diff) = record {
  passed = if valid then t.passed + 1 else t.passed;
  checked = t.checked + 1;
  sketch_diff_max = if ltb_ℤ t.sketch_diff_max diff then diff else t.sketch_diff_max;
}

abbrev pub as_int : Value → Option ℤ
as_int (Value.int z) = some z
as_int (Value.other text) = none

-- `commitments[idx]["sketch"]` as the integer it is compared as. `none` is the exception on a
-- missing entry or key and on a value that cannot be subtracted; of other values of the key, a
-- float is counted among these.
unfoldable pub sketch_at : List Commitment → ℕ → Option ℤ
sketch_at commitments idx =
    get_elem? commitments idx >>= λ c. Dict.lookup "sketch" c >>= λ value. as_int value

module _ {F : Type 0} (fl : Float F) where
  unfoldable pub check_positions :
      (ℕ → List F) → List Commitment → List ℤ → ℕ → List ℕ → Tally → Option Tally
  check_positions values commitments r_vec seq_len [] t = some t
  check_positions values commitments r_vec seq_len (idx ∷ idxs) t = elim (leb seq_len idx) [
    | true ↦ check_positions values commitments r_vec seq_len idxs t
    | false ↦ elim (sketch_at commitments idx) [
      | none ↦ none
      | some miner_sketch ↦
          check_positions values commitments r_vec seq_len idxs
            (count_check t (verify_commitment fl (values idx) miner_sketch r_vec idx))
    ]
  ]

  module _ (h : Hashes) (rng : Rng) (forward : List ℤ → Forward F) where
    -- `verify_commitment_proofs`
    unfoldable pub verify_commitment_proofs : Commit F → String → Option (ProofResult F)
    verify_commitment_proofs commit window_randomness = do
      r_vec ← generate_r_vec h window_randomness
      challenge_indices ←
          indices_from_root h fl rng commit.tokens window_randomness (length commit.tokens)
            (min challenge_k (length commit.tokens))
      t ←
          check_positions (forward commit.tokens).values commit.commitments r_vec
            (length commit.tokens) challenge_indices
            (record { passed = 0; checked = 0; sketch_diff_max = pos 0 })
      some (record {
        all_passed =
            (t.passed == t.checked) && leb (min challenge_k (length commit.tokens)) t.checked;
        passed = t.passed;
        checked = t.checked;
        logits = (forward commit.tokens).logits;
        sketch_diff_max = t.sketch_diff_max;
      })
