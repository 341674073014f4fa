-- ===== src/Protocol/Grail/Proofs.antt =====
-- `verify_commitment_proofs`: what a passed proof says, and a commit that passes without one.
use subnet.Base.{
  ℕ, zero, suc, ◌+◌, ◌*◌, ◌≤◌, ◌<◌, ℤ, pos, mod_ℤ-lt, true, false, ◌&&◌, some, List, [], ◌∷◌, ◌==◌,
  nat_eq, string_eq, String, leb, length, min, take, All-of_In, ◌≡◌, inl, inr, refl, arith, All,
  All-In, Bool-cases, Option-cases,
}
use subnet.Base.Float.{Float}
use subnet.Base.Maybe.{>>=-eq-some}
use subnet.Base.Text.{codes}
use subnet.Protocol.Constants.{challenge_k, prime_q}
use subnet.Protocol.Bytes.{Bytes, clean_hex, from_hex}
use subnet.Protocol.Crypto.{Hashes, Rng, frame, label_sketch, indices_from_root}
use subnet.Protocol.Crypto.Indices.{IsRng, indices_from_root_total}
use subnet.Base.Dict
use subnet.Protocol.Commit.{Commit, Commitment, Value}
use subnet.Protocol.Grail.Defs.{
  sketch_at, coefficients, generate_r_vec, sketch_of, adaptive_sketch_tolerance, verify_commitment,
  Forward, ProofResult, Tally, count_check, check_positions, verify_commitment_proofs,
}
use subnet.Protocol.Grail.Sketch.{verify_sketch_forged}

module _ {F : Type 0} (fl : Float F) where
  -- The commitment at a position passes its check.
  abbrev pub PassesAt : (ℕ → List F) → List Commitment → List ℤ → ℕ → Type 0
  PassesAt values commitments r_vec idx =
      (m : ℤ) × (sketch_at commitments idx ≡ some m)
      × ((verify_commitment fl (values idx) m r_vec idx).0 ≡ true)

  module _ (values : ℕ → List F) (commitments : List Commitment) (r_vec : List ℤ)
      (seq_len : ℕ) where
    abbrev AllPass : List ℕ → Type 0
    AllPass idxs = All (λ i. i < seq_len → PassesAt values commitments r_vec i) idxs

    check_positions_counts :
        (idxs : List ℕ) (t : Tally) {t' : Tally}
        → t.passed ≤ t.checked
        → check_positions fl values commitments r_vec seq_len idxs t ≡ some t'
        → (t'.passed ≤ t'.checked)
          × (t'.passed ≡ t'.checked → (t.passed ≡ t.checked) × AllPass idxs)
    unfolding check_positions
    check_positions_counts [] t le h = (ground arith, λ e. (ground arith, tt))
    check_positions_counts (i ∷ idxs) t {t'} le h = elim (Bool-cases (leb seq_len i)) [
      | inl outside ↦
          let (le', back) = check_positions_counts idxs t le (rw (outside, check_positions) at h) in
          (le', λ e. ((back e).0, (λ below. absurd (ground arith), (back e).1)))
      | inr inside ↦ elim (Option-cases (sketch_at commitments i)) [
        | inl missing ↦ absurd (ground arith)
        | inr (m, found) ↦
            let verdict = verify_commitment fl (values i) m r_vec i in
            let rest : check_positions fl values commitments r_vec seq_len idxs
                  (count_check t verdict)
                ≡ some t' =
              rw (inside, found, check_positions) at h in
            elim (Bool-cases verdict.0) [
              | inl valid ↦
                  let (le', back) =
                    check_positions_counts idxs (count_check t verdict) {t' = t'} (ground arith)
                      rest in
                  (le', λ e. (ground (arith, (back e).0), (λ below. (m, found, valid), (back e).1)))
              | inr invalid ↦
                  let (le', back) =
                    check_positions_counts idxs (count_check t verdict) {t' = t'} (ground arith)
                      rest in
                  (le', λ e. absurd (ground (arith, (back e).0)))
            ]
      ]
    ]

    -- With a commitment at every position, and each of them passing, the loop counts them all.
    check_positions_total :
        (idxs : List ℕ) (t : Tally)
        → All (λ i. (i < seq_len) × PassesAt values commitments r_vec i) idxs
        → (t' : Tally) × (check_positions fl values commitments r_vec seq_len idxs t ≡ some t')
          × (t'.passed ≡ t.passed + length idxs)
          × (t'.checked ≡ t.checked + length idxs)
    unfolding check_positions
    check_positions_total [] t a = (t, refl, omega arith, omega arith)
    check_positions_total (i ∷ idxs) t a =
        let (below, passing) = a.0 in
        let (m, found, valid) = passing in
        let inside : leb seq_len i ≡ false = ground arith in
        let verdict = verify_commitment fl (values i) m r_vec i in
        let (t', e, p, c) = check_positions_total idxs (count_check t verdict) a.1 in
        (t', rw (inside, found, check_positions) e, ground arith, omega arith)

-- Every commitment has a sketch, an integer far outside the range of sketches.
abbrev pub IsForged : List Commitment → Type 0
IsForged commitments =
    All (λ c. (m : ℕ) × (Dict.lookup "sketch" c ≡ some (Value.int (pos m))) × (2 * prime_q ≤ m))
      commitments

sketch_at-IsForged :
    (commitments : List Commitment) (i : ℕ)
    → IsForged commitments
    → i < length commitments
    → (m : ℕ) × (sketch_at commitments i ≡ some (pos m)) × (2 * prime_q ≤ m)
unfolding sketch_at
sketch_at-IsForged [] i f lt = absurd (omega arith)
sketch_at-IsForged (c ∷ cs) zero f lt = let (m, e, big) = f.0 in (m, rw e refl, big)
sketch_at-IsForged (c ∷ cs) (suc i) f lt = sketch_at-IsForged cs i f.1 (omega arith)

verify_commitment_forged :
    {F : Type 0} (fl : Float F) (values : List F) (m : ℕ) (r_vec : List ℤ) (i bound : ℕ)
    → adaptive_sketch_tolerance fl i ≡ pos bound
    → 2 * prime_q ≤ m
    → (verify_commitment fl values (pos m) r_vec i).0 ≡ true
unfolding verify_commitment sketch_of
verify_commitment_forged fl values m r_vec i bound e big = rw e (
    verify_sketch_forged (sketch_of fl values r_vec) m bound (mod_ℤ-lt _ prime_q (omega arith)) big)

pub generate_r_vec_total :
    (h : Hashes) (randomness : String) {seed : Bytes}
    → from_hex (clean_hex (codes randomness)) ≡ some seed
    → (r_vec : List ℤ) × (generate_r_vec h randomness ≡ some r_vec)
unfolding generate_r_vec
generate_r_vec_total h randomness {seed} parsed =
    (take 16 (coefficients (h.shake256 (frame (label_sketch ∷ seed ∷ [])) 32)), rw parsed)

module _ {F : Type 0} (fl : Float F) (h : Hashes) (rng : Rng) (forward : List ℤ → Forward F) where
  -- A proof that passes has checked at least min(32, length of the tokens) positions, and at each
  -- challenged position the commitment passes its sketch check against the validator's own
  -- forward pass, under the coefficients and the challenge of the window's randomness.
  pub verify_commitment_proofs_sound :
      (commit : Commit F) (randomness : String) {r : ProofResult F}
      → verify_commitment_proofs fl h rng forward commit randomness ≡ some r
      → r.all_passed ≡ true
      → (r_vec : List ℤ) × (idxs : List ℕ) × (generate_r_vec h randomness ≡ some r_vec)
        × (indices_from_root h fl rng commit.tokens randomness
              (length commit.tokens)
              (min challenge_k (length commit.tokens))
            ≡ some idxs)
        × All
            (λ i.
              i < length commit.tokens
              → PassesAt fl (forward commit.tokens).values commit.commitments r_vec i)
            idxs
        × (min challenge_k (length commit.tokens) ≤ r.checked)
  unfolding verify_commitment_proofs
  verify_commitment_proofs_sound commit randomness {r} e passed =
      let (r_vec, made, e₁) = >>=-eq-some (generate_r_vec h randomness) _ e in
      let (idxs, chosen, e₂) =
        >>=-eq-some
          (indices_from_root h fl rng commit.tokens randomness (length commit.tokens)
            (min challenge_k (length commit.tokens)))
          _ e₁ in
      let (t, counted, e₃) =
        >>=-eq-some
          (check_positions fl (forward commit.tokens).values commit.commitments r_vec
            (length commit.tokens) idxs
            (record { passed = 0; checked = 0; sketch_diff_max = pos 0 }))
          _ e₂ in
      let facts =
        check_positions_counts fl (forward commit.tokens).values commit.commitments r_vec
          (length commit.tokens) idxs (record { passed = 0; checked = 0; sketch_diff_max = pos 0 })
          {t' = t} (omega arith) counted in
      (r_vec, idxs, made, chosen, (facts.1 (ground arith)).1, ground arith)

  -- A commit whose every sketch is 2 * PRIME_Q or more passes the proof whatever the model
  -- computes: for a usable seed, tokens and as many commitments as tokens, `all_passed` is true
  -- for every forward pass.
  pub verify_commitment_proofs_forged :
      (commit : Commit F) (randomness : String) {seed : Bytes}
      → IsRng rng
      → ((i : ℕ) → (n : ℕ) × (adaptive_sketch_tolerance fl i ≡ pos n))
      → 0 < length commit.tokens
      → 0 < length (clean_hex (codes randomness))
      → from_hex (clean_hex (codes randomness)) ≡ some seed
      → length commit.commitments ≡ length commit.tokens
      → IsForged commit.commitments
      → (r : ProofResult F) × (verify_commitment_proofs fl h rng forward commit randomness ≡ some r)
        × (r.all_passed ≡ true)
  unfolding verify_commitment_proofs
  verify_commitment_proofs_forged commit randomness {seed} good tolerance some_tokens some_hex
        parsed sizes forged =
      let n = length commit.tokens in
      let (r_vec, made) = generate_r_vec_total h randomness {seed = seed} parsed in
      let (idxs, chosen, c) =
        indices_from_root_total fl h rng good commit.tokens randomness n (min challenge_k n)
          {seed = seed} some_tokens some_hex parsed (omega arith) (omega arith) in
      let start : Tally = record { passed = 0; checked = 0; sketch_diff_max = pos 0 } in
      let (t, counted, p, k) =
        check_positions_total fl (forward commit.tokens).values commit.commitments r_vec n idxs
          start
          (All-of_In
            (λ i. (i < n) × PassesAt fl (forward commit.tokens).values commit.commitments r_vec i)
            idxs (λ i inside. passes r_vec i (All-In _ idxs c.in_range inside).1)) in
      (
        record {
          all_passed = (t.passed == t.checked) && leb (min challenge_k n) t.checked;
          passed = t.passed;
          checked = t.checked;
          logits = (forward commit.tokens).logits;
          sketch_diff_max = t.sketch_diff_max;
        },
        rw (made, chosen, counted),
        ground (arith, c.how_many),
      )
    where
      passes :
          (r_vec : List ℤ) (i : ℕ)
          → i < length commit.tokens
          → (i < length commit.tokens)
            × PassesAt fl (forward commit.tokens).values commit.commitments r_vec i
      passes r_vec i below =
          let (m, found, big) = sketch_at-IsForged commit.commitments i forged (omega arith) in
          let (bound, e) = tolerance i in
          (
            below,
            (
              pos m,
              found,
              verify_commitment_forged fl ((forward commit.tokens).values i) m r_vec i bound e big,
            ),
          )
