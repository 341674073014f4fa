-- ===== src/Validator/Verifier/Layouts.antt =====
-- The two layouts of the claimed logprobs in `verify_logprobs_claim`.
use subnet.Base.{
  ℕ, zero, suc, ◌+◌, ◌-◌, ◌≤◌, ◌<◌, ℤ, true, false, Option, some, List, [], ◌∷◌, ◌++◌, ◌==◌, nat_eq,
  String, ltb, length, length-append, get_elem?, ◌≡◌, inl, inr, refl, ap, arith, All, All-In,
  All-of_In, Bool-cases, ◌∙◌,
}
use subnet.Base.Float.{Float}
use subnet.Base.Text.{codes}
use subnet.Protocol.Constants.{challenge_k}
use subnet.Protocol.Bytes.{Bytes, clean_hex, from_hex}
use subnet.Protocol.Crypto.{Hashes, Rng}
use subnet.Protocol.Crypto.Indices.{IsRng, indices_from_root_in_range_total}
use subnet.Protocol.Grail.{Logits}
use subnet.Validator.Verifier.Defs.{
  deviations, claimed_at, challenge_logprobs, verify_logprobs_claim,
}

module _ {F : Type 0} (fl : Float F) where
  get_elem?-append_right :
      (xs ys : List F) (i : ℕ)
      → length xs ≤ i
      → get_elem? (xs ++ ys) i ≡ get_elem? ys (i - length xs)
  get_elem?-append_right [] ys i h = ap (get_elem? ys) (omega arith)
  get_elem?-append_right (x ∷ xs) ys zero h = absurd (omega arith)
  get_elem?-append_right (x ∷ xs) ys (suc i) h =
      get_elem?-append_right xs ys i (omega arith) ∙ ap (get_elem? ys) (omega arith)

  -- The loop looks at the claims only at the challenged positions.
  deviations_agree :
      (tokens : List ℤ) (f g : ℕ → Option F) (logits : Logits F) (idxs : List ℕ)
      → All (λ i. f i ≡ g i) idxs
      → deviations fl tokens f logits idxs ≡ deviations fl tokens g logits idxs
  unfolding deviations
  deviations_agree tokens f g logits [] a = refl
  deviations_agree tokens f g logits (i ∷ idxs) a =
      rw (a.0, deviations_agree tokens f g logits idxs a.1)

  claimed_at_full :
      (tokens : List ℤ) (p c : ℕ) (claimed : List F)
      → length claimed ≡ length tokens
      → claimed_at fl tokens p c claimed ≡ some (λ i. get_elem? claimed i)
  unfolding claimed_at
  claimed_at_full tokens p c claimed e =
      let same : (length claimed == length tokens) ≡ true = ground arith in rw same

  claimed_at_completion :
      (tokens : List ℤ) (p c : ℕ) (claimed : List F)
      → length claimed < length tokens
      → length claimed ≡ c
      → claimed_at fl tokens p c claimed ≡ some (λ i. get_elem? claimed (i - p))
  unfolding claimed_at
  claimed_at_completion tokens p c claimed less e =
      let other : (length claimed == length tokens) ≡ false = ground arith in
      let same : (length claimed == c) ≡ true = ground arith in rw (other, same)

  module _ (h : Hashes) (rng : Rng) (good : IsRng rng) where
    challenge_logprobs_agree :
        (tokens : List ℤ) (p c : ℕ) (f g : ℕ → Option F) (logits : Logits F) (randomness : String)
        {seed : Bytes}
        → 0 < length tokens
        → 0 < length (clean_hex (codes randomness))
        → from_hex (clean_hex (codes randomness)) ≡ some seed
        → 0 < c
        → ((i : ℕ) → p ≤ i → f i ≡ g i)
        → challenge_logprobs fl h rng tokens p c f logits randomness
          ≡ challenge_logprobs fl h rng tokens p c g logits randomness
    unfolding challenge_logprobs
    challenge_logprobs_agree tokens p c f g logits randomness {seed} t x parsed pc same =
        let (idxs, chosen, ch) =
          indices_from_root_in_range_total fl h rng good tokens randomness p (p + c) challenge_k
            {seed = seed} t x parsed (omega arith) (omega arith) in
        rw (
          chosen,
          deviations_agree tokens f g logits idxs (
              All-of_In (λ i. f i ≡ g i) idxs
                (λ i inside. same i (All-In _ idxs ch.in_range inside).0)),
        )

    -- A miner may send the logprobs of the whole sequence or of the completion alone: for the
    -- same completion, whatever stands at the prompt's positions, the verdict and the deviation
    -- are the same.
    pub verify_logprobs_claim_layouts :
        (tokens : List ℤ) (prompt completion : List F) (logits : Logits F) (randomness : String)
        {seed : Bytes}
        → length prompt + length completion ≡ length tokens
        → 0 < length (clean_hex (codes randomness))
        → from_hex (clean_hex (codes randomness)) ≡ some seed
        → verify_logprobs_claim fl h rng tokens
            (length prompt)
            (length completion)
            (prompt ++ completion)
            logits
            randomness
          ≡ verify_logprobs_claim fl h rng tokens
              (length prompt)
              (length completion)
              completion
              logits
              randomness
    unfolding verify_logprobs_claim
    verify_logprobs_claim_layouts tokens [] completion logits randomness sizes x parsed = refl
    verify_logprobs_claim_layouts tokens (q ∷ ps) completion logits randomness {seed} sizes x
          parsed =
        elim (Bool-cases (ltb (length completion) challenge_k)) [
          | inl short ↦ rw short
          | inr enough ↦
              let p = suc (length ps) in
              let c = length completion in
              let full =
                claimed_at_full tokens p c (q ∷ (ps ++ completion))
                  (omega (arith, length-append ps completion)) in
              let part = claimed_at_completion tokens p c completion (omega arith) refl in
              rw (enough, full, part)
                (challenge_logprobs_agree tokens p c (λ i. get_elem? (q ∷ (ps ++ completion)) i)
                  (λ i. get_elem? completion (i - p)) logits randomness {seed = seed} (omega arith)
                  x parsed (ground arith) (λ i le. get_elem?-append_right (q ∷ ps) completion i le))
        ]
