-- ===== src/Miner/Bft/Tests.antt =====
-- The theorems on termination and on budget-forced rollouts at concrete rows.
use subnet.Base.{
  ℤ, pos, true, false, none, some, List, [], ◌∷◌, ◌++◌, map, ◌≡◌, ◌≢◌, ◌↔◌, refl, inl, inr, length,
  length-map, Pointwise, All,
}
use subnet.Miner.Termination.{
  first_eos_index, has_think_close, validator_termination_ok, truncate_at_first_eos,
}
use subnet.Miner.Termination.Laws.{truncate_at_first_eos_lem}
use subnet.Miner.Bft.{
  Ids, Generation, Generate, Identity, width_of, classify, bft_assemble_rollouts,
  bft_rollouts_from_completions,
}
use subnet.Miner.Bft.Assembled.{Assembled, AnswersEach, bft_assemble_rollouts-Assembled}
use subnet.Miner.Bft.Carve.{IsReady, bft_assemble_rollouts-IsReady}
use subnet.Miner.Bft.Padding.{RanToTheCap, bft_rollouts_from_completions-unpadded}
use subnet.Miner.Bft.Groups.{jobs_processor, scan_groups, bft_rollouts_from_completions_multi}
use subnet.Miner.Bft.Groups.Filling.{
  Phase1, group_of, bft_rollouts_from_completions_multi-Assembled,
}
use subnet.Miner.Bft.Groups.Streams.{
  draws_of, concat_map, single_draws, jobs_processor-single_draws,
}

-- Token 2 ends a completion, 5 closes the thinking.
abbrev ids : Ids
ids = record { think_close_ids = pos 5 ∷ []; force_ids = pos 5 ∷ pos 6 ∷ []; eos_ids = pos 2 ∷ [] }

abbrev identity : Identity
identity = record { randomness = "aa"; hotkey = "hk"; checkpoint_hash = "ck" }

-- A model that answers `7 2 9` behind every row.
abbrev answering : Generate
answering call = map (λ row. row ++ (pos 7 ∷ pos 2 ∷ pos 9 ∷ [])) call.rows

answering-AnswersEach : AnswersEach answering
answering-AnswersEach call = length-map call.rows _

abbrev prompt : List ℤ
prompt = pos 1 ∷ pos 1 ∷ []

-- One that ended, one that closed its thinking, one that did neither.
abbrev gens : List (List ℤ)
gens = (pos 3 ∷ pos 2 ∷ []) ∷ (pos 3 ∷ pos 5 ∷ pos 4 ∷ []) ∷ (pos 3 ∷ pos 3 ∷ pos 3 ∷ []) ∷ []

abbrev rollouts : List Generation
rollouts =
    record {
      tokens = pos 1 ∷ pos 1 ∷ pos 3 ∷ pos 2 ∷ [];
      prompt_length = 2;
      forced = false;
      force_span = none;
    }
    ∷ record {
      tokens = pos 1 ∷ pos 1 ∷ pos 3 ∷ pos 5 ∷ pos 4 ∷ pos 7 ∷ pos 2 ∷ [];
      prompt_length = 2;
      forced = false;
      force_span = none;
    }
    ∷ record {
      tokens = pos 1 ∷ pos 1 ∷ pos 3 ∷ pos 3 ∷ pos 3 ∷ pos 5 ∷ pos 6 ∷ pos 7 ∷ pos 2 ∷ [];
      prompt_length = 2;
      forced = true;
      force_span = some (5, 7);
    }
    ∷ []

assembles :
    bft_rollouts_from_completions answering ids 512 identity
      (pos 4)
      prompt
      (map (λ gen. prompt ++ gen) gens)
    ≡ some (map (λ g. some g) rollouts)
unfolding bft_rollouts_from_completions first_eos_index classify has_think_close
assembles = refl

bft_assemble_rollouts-Assembled_example :
    (out : List Generation) × (bft_assemble_rollouts answering ids 512 identity
        (pos 4)
        prompt
        (map (λ gen. prompt ++ gen) gens)
      ≡ some (map (λ g. some g) out))
    × Pointwise (Assembled ids prompt) gens out
bft_assemble_rollouts-Assembled_example =
    bft_assemble_rollouts-Assembled answering ids 512 identity (pos 4) prompt gens
      answering-AnswersEach

quiet : first_eos_index ids.force_ids ids.eos_ids ≡ none
unfolding first_eos_index
quiet = refl

bft_assemble_rollouts-IsReady_example :
    (out : List Generation) × (bft_assemble_rollouts answering ids 512 identity
        (pos 4)
        prompt
        (map (λ gen. prompt ++ gen) gens)
      ≡ some (map (λ g. some g) out))
    × All (IsReady ids) out
bft_assemble_rollouts-IsReady_example =
    bft_assemble_rollouts-IsReady answering ids 512 identity (pos 4) prompt gens
      answering-AnswersEach quiet

at_the_cap :
    All (RanToTheCap ids prompt (width_of (map (λ x. length x) (map (λ g. prompt ++ g) gens)))) gens
unfolding width_of first_eos_index
at_the_cap = (inl (1, refl), (inr refl, (inr refl, tt)))

bft_rollouts_from_completions-unpadded_example :
    bft_rollouts_from_completions answering ids 512 identity
      (pos 4)
      prompt
      (map (λ gen. prompt ++ gen) gens)
    ≡ bft_assemble_rollouts answering ids 512 identity
        (pos 4)
        prompt
        (map (λ gen. prompt ++ gen) gens)
bft_rollouts_from_completions-unpadded_example =
    bft_rollouts_from_completions-unpadded answering ids 512 identity (pos 4) prompt
      (pos 3 ∷ pos 2 ∷ []) ((pos 3 ∷ pos 5 ∷ pos 4 ∷ []) ∷ (pos 3 ∷ pos 3 ∷ pos 3 ∷ []) ∷ [])
      at_the_cap

abbrev first : Phase1
first = record { prompt_tokens = prompt; prompt_idx = pos 4; gens = gens }

abbrev others : List Phase1
others =
    record {
      prompt_tokens = pos 8 ∷ [];
      prompt_idx = pos 9;
      gens = (pos 3 ∷ pos 3 ∷ []) ∷ (pos 2 ∷ []) ∷ [];
    }
    ∷ []

bft_rollouts_from_completions_multi-Assembled_example :
    (out : List (List Generation)) × (bft_rollouts_from_completions_multi answering ids 512 identity
        (map group_of (first ∷ others))
      ≡ some (map (λ gs. map (λ x. some x) gs) out))
    × Pointwise (λ s gs. Pointwise (Assembled ids s.prompt_tokens) s.gens gs) (first ∷ others) out
bft_rollouts_from_completions_multi-Assembled_example =
    bft_rollouts_from_completions_multi-Assembled answering ids 512 identity first others
      answering-AnswersEach

jobs_processor-single_draws_example :
    draws_of (jobs_processor identity (scan_groups ids 0 (map group_of (first ∷ others))).1)
    ≡ concat_map (single_draws ids identity) (map group_of (first ∷ others))
jobs_processor-single_draws_example =
    jobs_processor-single_draws ids identity 0 (map group_of (first ∷ others))

truncate_at_first_eos_lem_example :
    ((validator_termination_ok (pos 3 ∷ pos 2 ∷ pos 2 ∷ []) (pos 2 ∷ []) ≡ true) ↔ (
      (first_eos_index (pos 3 ∷ pos 2 ∷ pos 2 ∷ []) (pos 2 ∷ []) ≢ none)
      × (truncate_at_first_eos (pos 3 ∷ pos 2 ∷ pos 2 ∷ []) (pos 2 ∷ [])
          ≡ pos 3 ∷ pos 2 ∷ pos 2 ∷ [])))
    × (first_eos_index (pos 3 ∷ pos 2 ∷ pos 2 ∷ []) (pos 2 ∷ []) ≢ none
        → validator_termination_ok
            (truncate_at_first_eos (pos 3 ∷ pos 2 ∷ pos 2 ∷ []) (pos 2 ∷ []))
            (pos 2 ∷ [])
          ≡ true)
truncate_at_first_eos_lem_example =
    truncate_at_first_eos_lem (pos 3 ∷ pos 2 ∷ pos 2 ∷ []) (pos 2 ∷ [])
