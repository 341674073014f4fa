-- ===== src/Miner/Bft/Carve.antt =====
-- miner/bft.py: what the validator looks for in an assembled rollout, its end and its forced span.
use subnet.Base.{
  ℕ, suc, ◌+◌, ◌-◌, ℤ, Option, none, some, List, [], ◌∷◌, ◌++◌, map, ◌≡◌, length, take, drop,
  Pointwise, All, drop-append, take-append, append_assoc, length-append, arith,
}
use subnet.Miner.Termination.{first_eos_index}
use subnet.Miner.Termination.Laws.{EndsWell, EndsWell-first, EndsWell-append, NoEos-of_none}
use subnet.Miner.Bft.{Ids, Generation, Generate, Identity, bft_assemble_rollouts}
use subnet.Miner.Bft.Assembled.{
  Assembled, kept, closed, carved, AnswersEach, bft_assemble_rollouts-Assembled,
}

-- The tokens at the recorded span are the injected ones.
abbrev pub Carves : List ℤ → List ℤ → Option (ℕ × ℕ) → Type 0
Carves force_ids tokens none = Unit
Carves force_ids tokens (some (start, end)) = take (end - start) (drop start tokens) ≡ force_ids

-- The completion has no EOS or one in the last place, and the span is where the ids were injected.
abbrev pub IsReady : Ids → Generation → Type 0
IsReady ids g =
    EndsWell (drop g.prompt_length g.tokens) ids.eos_ids
    × Carves ids.force_ids g.tokens g.force_span

slice :
    (before force answer : List ℤ)
    → take
        ((length before + length force) - length before)
        (drop (length before) (before ++ (force ++ answer)))
      ≡ force
slice before force answer =
    let e : (length before + length force) - length before ≡ length force = omega arith in
    rw (e, drop-append before (force ++ answer)) (take-append force answer)

Assembled-IsReady :
    (ids : Ids) (prompt_tokens gen : List ℤ) (g : Generation)
    → first_eos_index ids.force_ids ids.eos_ids ≡ none
    → Assembled ids prompt_tokens gen g
    → IsReady ids g
Assembled-IsReady ids prompt_tokens gen g quiet (kept fe s e) =
    rw (e, drop-append prompt_tokens (take (suc fe) gen)) (EndsWell-first gen ids.eos_ids fe s, tt)
Assembled-IsReady ids prompt_tokens gen g quiet (closed answer n c ends e) =
    rw (e, drop-append prompt_tokens (gen ++ answer))
      (EndsWell-append gen answer ids.eos_ids (NoEos-of_none gen ids.eos_ids n) ends, tt)
Assembled-IsReady ids prompt_tokens gen g quiet (carved answer n c ends e) =
    rw (e, drop-append prompt_tokens (gen ++ (ids.force_ids ++ answer)))
      (
        EndsWell-append gen (ids.force_ids ++ answer) ids.eos_ids (NoEos-of_none gen ids.eos_ids n)
            (EndsWell-append ids.force_ids answer ids.eos_ids
              (NoEos-of_none ids.force_ids ids.eos_ids quiet) ends),
        rw
            (
              ← append_assoc prompt_tokens gen (ids.force_ids ++ answer),
              ← length-append prompt_tokens gen,
            )
            (slice (prompt_tokens ++ gen) ids.force_ids answer),
      )

pub All-IsReady :
    (ids : Ids) (prompt_tokens : List ℤ) (gens : List (List ℤ)) (out : List Generation)
    → first_eos_index ids.force_ids ids.eos_ids ≡ none
    → Pointwise (Assembled ids prompt_tokens) gens out
    → All (IsReady ids) out
All-IsReady ids prompt_tokens [] [] quiet p = tt
All-IsReady ids prompt_tokens [] (g ∷ out) quiet p = absurd p
All-IsReady ids prompt_tokens (gen ∷ gens) [] quiet p = absurd p
All-IsReady ids prompt_tokens (gen ∷ gens) (g ∷ out) quiet p = (
  Assembled-IsReady ids prompt_tokens gen g quiet p.0,
  All-IsReady ids prompt_tokens gens out quiet p.1,
)

-- If the model answers one row for each row and no injected id is an EOS, then the completion of
-- every assembled rollout has no EOS or passes the validator's termination check, and the tokens
-- at its recorded span, if it has one, are the injected ids.
pub bft_assemble_rollouts-IsReady :
    (generate : Generate) (ids : Ids) (answer_budget : ℕ) (identity : Identity) (prompt_idx : ℤ)
    (prompt_tokens : List ℤ) (gens : List (List ℤ))
    → AnswersEach generate
    → first_eos_index ids.force_ids ids.eos_ids ≡ none
    → (out : List Generation) × (bft_assemble_rollouts generate ids answer_budget identity
          prompt_idx prompt_tokens
          (map (λ gen. prompt_tokens ++ gen) gens)
        ≡ some (map (λ g. some g) out))
      × All (IsReady ids) out
bft_assemble_rollouts-IsReady generate ids answer_budget identity prompt_idx prompt_tokens gens each
      quiet =
    let (out, e, p) =
      bft_assemble_rollouts-Assembled generate ids answer_budget identity prompt_idx prompt_tokens
        gens each in
    (out, e, All-IsReady ids prompt_tokens gens out quiet p)
