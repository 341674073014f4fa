-- ===== src/Miner/Bft/Padding.antt =====
-- miner/bft.py: the padding of `bft_rollouts_from_completions`, and when it changes nothing.
use subnet.Base.{
  ℕ, suc, ◌+◌, ◌-◌, ℤ, int_eq, some, List, [], ◌∷◌, ◌++◌, map, ◌≡◌, refl, ap, ◌⊎◌, inl, inr, length,
  take, replicate, drop-append, append_assoc, append-nil, elem, arith, All, Bool-cases,
  Option-cases,
}
use subnet.Miner.Termination.{first_eos_index}
use subnet.Miner.Bft.{
  Ids, Generate, Identity, classify, classify_at, finished, scan_rows, width_of, pad_of, pad_right,
  bft_assemble_rollouts, bft_rollouts_from_completions,
}

first_eos_index-append :
    (xs ys eos : List ℤ) (fe : ℕ)
    → first_eos_index xs eos ≡ some fe
    → (first_eos_index (xs ++ ys) eos ≡ some fe) × (take (suc fe) (xs ++ ys) ≡ take (suc fe) xs)
unfolding first_eos_index
first_eos_index-append [] ys eos fe h = absurd (cc)
first_eos_index-append (x ∷ xs) ys eos fe h = elim (Bool-cases (elem x eos)) [
  | inl e ↦ let z : fe ≡ 0 = ground arith in rw (e, z) (refl, refl)
  | inr e ↦ elim (Option-cases (first_eos_index xs eos)) [
    | inl n ↦ absurd (ground arith)
    | inr (k, s) ↦
        let z : fe ≡ suc k = ground arith in
        let (f, t) = first_eos_index-append xs ys eos k s in rw (e, z, f) (refl, ap (λ l. x ∷ l) t)
  ]
]

-- The caller's side of the bargain: a completion without an EOS is as long as the longest.
abbrev pub RanToTheCap : Ids → List ℤ → ℕ → List ℤ → Type 0
RanToTheCap ids prompt_tokens width gen =
    ((fe : ℕ) × (first_eos_index gen ids.eos_ids ≡ some fe))
    ⊎ (length (prompt_tokens ++ gen) ≡ width)

classify-pad_right :
    (ids : Ids) (prompt_tokens gen : List ℤ) (width : ℕ) (pad : ℤ)
    → RanToTheCap ids prompt_tokens width gen
    → classify ids prompt_tokens (pad_right pad width (prompt_tokens ++ gen))
      ≡ classify ids prompt_tokens (prompt_tokens ++ gen)
unfolding classify classify_at finished
classify-pad_right ids prompt_tokens gen width pad (inl (fe, s)) =
    let pads = replicate (width - length (prompt_tokens ++ gen)) pad in
    let (f, t) = first_eos_index-append gen pads ids.eos_ids fe s in
    rw
      (
        append_assoc prompt_tokens gen pads,
        drop-append prompt_tokens (gen ++ pads),
        drop-append prompt_tokens gen,
        f,
        s,
        t,
      )
      refl
classify-pad_right ids prompt_tokens gen width pad (inr e) =
    let z : width - length (prompt_tokens ++ gen) ≡ 0 = omega arith in
    rw (z, append-nil (prompt_tokens ++ gen)) refl

scan_rows-pad_right :
    (ids : Ids) (prompt_tokens : List ℤ) (width : ℕ) (pad : ℤ) (i : ℕ) (gens : List (List ℤ))
    → All (RanToTheCap ids prompt_tokens width) gens
    → scan_rows ids prompt_tokens i
        (map (λ row. pad_right pad width row) (map (λ gen. prompt_tokens ++ gen) gens))
      ≡ scan_rows ids prompt_tokens i (map (λ gen. prompt_tokens ++ gen) gens)
unfolding scan_rows
scan_rows-pad_right ids prompt_tokens width pad i [] h = refl
scan_rows-pad_right ids prompt_tokens width pad i (gen ∷ gens) h = rw (
  classify-pad_right ids prompt_tokens gen width pad h.0,
  scan_rows-pad_right ids prompt_tokens width pad (i + 1) gens h.1,
)

-- If every completion without an EOS is as long as the longest one, padding the completions does
-- not change the rollouts: they are those assembled from the completions as they are.
pub bft_rollouts_from_completions-unpadded :
    (generate : Generate) (ids : Ids) (answer_budget : ℕ) (identity : Identity) (prompt_idx : ℤ)
    (prompt_tokens gen : List ℤ) (gens : List (List ℤ))
    → All
        (RanToTheCap ids prompt_tokens
          (width_of (map (λ x. length x) (map (λ g. prompt_tokens ++ g) (gen ∷ gens)))))
        (gen ∷ gens)
    → bft_rollouts_from_completions generate ids answer_budget identity prompt_idx prompt_tokens
        (map (λ g. prompt_tokens ++ g) (gen ∷ gens))
      ≡ bft_assemble_rollouts generate ids answer_budget identity prompt_idx prompt_tokens
          (map (λ g. prompt_tokens ++ g) (gen ∷ gens))
unfolding bft_rollouts_from_completions bft_assemble_rollouts
bft_rollouts_from_completions-unpadded generate ids answer_budget identity prompt_idx prompt_tokens
      gen gens h =
    rw (scan_rows-pad_right ids prompt_tokens _ (pad_of ids.eos_ids) 0 (gen ∷ gens) h) refl
