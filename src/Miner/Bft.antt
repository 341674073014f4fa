-- ===== src/Miner/Bft.antt =====
-- miner/bft.py: the rollouts of a group whose thinking is cut at its budget. A row is a sequence of
-- token ids; `generate` is the model's, with the processor of miner/forced_seed_sampler.py as the
-- code sets it up. A failed index or an empty `max` is `none`.
pub mod Assembled
pub mod Padding
pub mod Groups
pub mod Carve
mod Tests
use subnet.Base.{
  ℕ, zero, suc, ◌+◌, ◌-◌, max, ℤ, pos, ◌-ℤ◌, int_eq, ltb_ℤ, string_eq, Bool, true, false, ◌&&◌,
  ◌||◌, Option, none, some, List, [], ◌∷◌, ◌++◌, map, if◌then◌else◌, ◌==◌, length, take, drop,
  replicate, set_at, String, ◌⊎◌, inl, inr,
}
use subnet.Base.Maybe.{◌>>=◌}
use subnet.Miner.Termination.{first_eos_index, has_think_close, cut_after}

abbrev pub bft_enabled : Bool
bft_enabled = true

unfoldable pub bft_applicable : Option String → Bool
bft_applicable none = bft_enabled
bft_applicable (some env_name) = bft_enabled && (env_name == "openmathinstruct")

-- With `bft_thinking_budget` of the constants.
unfoldable pub phase1_max_new_tokens : ℕ → ℕ → Option String → ℕ
phase1_max_new_tokens bft_thinking_budget max_new_tokens env_name =
    if bft_applicable env_name then bft_thinking_budget else max_new_tokens

-- A rollout dict; `force_span` is there for the forced rows only.
pub record Generation : Type 0 where
  pub tokens : List ℤ
  pub prompt_length : ℕ
  pub forced : Bool
  pub force_span : Option (ℕ × ℕ)

-- The token sets of the tokenizer.
pub record Ids : Type 0 where
  pub think_close_ids : List ℤ
  pub force_ids : List ℤ
  pub eos_ids : List ℤ

-- A row that phase 2 continues: its tokens and the span of the injected ids.
pub record Primed : Type 0 where
  pub primed : List ℤ
  pub force_span : Option (ℕ × ℕ)

unfoldable pub finished : List ℤ → List ℤ → ℕ → Generation
finished prompt_tokens gen fe = record {
  tokens = prompt_tokens ++ take (suc fe) gen;
  prompt_length = length prompt_tokens;
  forced = false;
  force_span = none;
}

unfoldable pub unfinished : Ids → List ℤ → List ℤ → Primed
unfinished ids seq gen =
    if has_think_close gen ids.think_close_ids
    then record { primed = seq; force_span = none }
    else record {
      primed = seq ++ ids.force_ids;
      force_span = some (length seq, length seq + length ids.force_ids);
    }

unfoldable pub classify_at : Ids → List ℤ → List ℤ → List ℤ → Option ℕ → Generation ⊎ Primed
unfolding finished unfinished
classify_at ids prompt_tokens seq gen (some fe) = inl (finished prompt_tokens gen fe)
classify_at ids prompt_tokens seq gen none = inr (unfinished ids seq gen)

-- One round of the loop over the rows of phase 1.
unfoldable pub classify : Ids → List ℤ → List ℤ → Generation ⊎ Primed
unfolding classify_at
classify ids prompt_tokens seq =
    let gen = drop (length prompt_tokens) seq in
    classify_at ids prompt_tokens seq gen (first_eos_index gen ids.eos_ids)

-- `unfinished_idx`, `unfinished_primed` and `unfinished_force_spans`, side by side.
abbrev pub Todo : Type 0
Todo = List (ℕ × Primed)

unfoldable pub note_row :
    ℕ → Generation ⊎ Primed → List (Option Generation) × Todo → List (Option Generation) × Todo
note_row i (inl rollout) (out, todo) = (some rollout ∷ out, todo)
note_row i (inr primed) (out, todo) = (none ∷ out, (i, primed) ∷ todo)

-- The rows from row `i` on: what `out` holds after the loop, and what is left to continue.
unfoldable pub scan_rows : Ids → List ℤ → ℕ → List (List ℤ) → List (Option Generation) × Todo
unfolding note_row
scan_rows ids prompt_tokens i [] = ([], [])
scan_rows ids prompt_tokens i (seq ∷ rows) =
    note_row i (classify ids prompt_tokens seq) (scan_rows ids prompt_tokens (i + 1) rows)

abbrev pub primed_lengths : List Primed → List ℕ
primed_lengths primed = map (λ p. length p.primed) primed

-- `max(len(p) for p in unfinished_primed)`
unfoldable pub width_of : List ℕ → ℕ
width_of [] = 0
width_of (n ∷ lengths) = max n (width_of lengths)

-- `min` of the ids from the first on.
unfoldable pub min_id : ℤ → List ℤ → ℤ
min_id best [] = best
min_id best (t ∷ ids) = min_id (if ltb_ℤ t best then t else best) ids

-- `min(eos_ids) if eos_ids else 0`
unfoldable pub pad_of : List ℤ → ℤ
unfolding min_id
pad_of [] = pos 0
pad_of (t ∷ ids) = min_id t ids

abbrev pub pad_left {ℓ} : {A : Type ℓ} → A → ℕ → List A → List A
pad_left pad width p = replicate (width - length p) pad ++ p

abbrev pub mask_left : ℕ → List ℤ → List ℕ
mask_left width p = replicate (width - length p) 0 ++ replicate (length p) 1

-- `phase2_base_offsets` of miner/forced_seed_sampler.py
unfoldable pub phase2_base_offsets : List ℕ → ℕ → List ℕ
phase2_base_offsets [] prompt_length = []
phase2_base_offsets (n ∷ lengths) prompt_length =
    (n - prompt_length) ∷ phase2_base_offsets lengths prompt_length

-- Whose draws these are.
pub record Identity : Type 0 where
  pub randomness : String
  pub hotkey : String
  pub checkpoint_hash : String

-- The state of `ForcedSeedLogitsProcessor`.
pub record Processor : Type 0 where
  pub identity : Identity
  pub prompt_indices : List ℤ
  pub rollout_indices : List ℕ
  pub base_offsets : List ℕ
  pub start_len : ℕ

-- The arguments of `model.generate`.
pub record Call : Type 0 where
  pub rows : List (List ℤ)
  pub attention_mask : List (List ℕ)
  pub max_new_tokens : ℕ
  pub processor : Processor

abbrev pub Generate : Type 0
Generate = Call → List (List ℤ)

unfoldable pub phase2_call : Ids → ℕ → List Primed → Processor → Call
unfolding width_of pad_of
phase2_call ids answer_budget primed proc =
    let width = width_of (primed_lengths primed) in
    record {
      rows = map (λ p. pad_left (pad_of ids.eos_ids) width p.primed) primed;
      attention_mask = map (λ p. mask_left width p.primed) primed;
      max_new_tokens = answer_budget;
      processor = record proc { start_len = width };
    }

unfoldable pub is_forced : Option (ℕ × ℕ) → Bool
is_forced none = false
is_forced (some span) = true

-- `ans[k].tolist()[width:]`, cut after its first EOS, behind the primed tokens.
unfoldable pub finish_row : Ids → ℕ → ℕ → Primed → List ℤ → Generation
unfolding is_forced cut_after
finish_row ids plen width p answer =
    let tail = drop width answer in
    record {
      tokens = p.primed ++ cut_after tail (first_eos_index tail ids.eos_ids);
      prompt_length = plen;
      forced = is_forced p.force_span;
      force_span = p.force_span;
    }

-- The loop over `unfinished_idx`; `none` where the model gave too few rows.
unfoldable pub fill_rows :
    Ids
    → ℕ
    → ℕ
    → Todo
    → List (List ℤ)
    → List (Option Generation)
    → Option (List (Option Generation))
unfolding finish_row
fill_rows ids plen width [] answers out = some out
fill_rows ids plen width (t ∷ todo) [] out = none
fill_rows ids plen width ((i, p) ∷ todo) (answer ∷ answers) out =
    fill_rows ids plen width todo answers (set_at i (some (finish_row ids plen width p answer)) out)

abbrev pub indices_of : Todo → List ℕ
indices_of todo = map (λ t. t.0) todo

abbrev pub primed_of : Todo → List Primed
primed_of todo = map (λ t. t.1) todo

-- `[int(prompt_idx)] * len(rollout_indices)`, and the offsets of the primed rows.
unfoldable pub processor_of : Identity → ℤ → ℕ → Todo → Processor
unfolding phase2_base_offsets
processor_of identity prompt_idx plen todo = record {
  identity = identity;
  prompt_indices = replicate (length todo) prompt_idx;
  rollout_indices = indices_of todo;
  base_offsets = phase2_base_offsets (primed_lengths (primed_of todo)) plen;
  start_len = 0;
}

unfoldable pub continue_rows :
    Generate
    → Ids
    → ℕ
    → Identity
    → ℤ
    → ℕ
    → List (Option Generation) × Todo
    → Option (List (Option Generation))
unfolding phase2_call processor_of fill_rows
continue_rows generate ids answer_budget identity prompt_idx plen (out, []) = some out
continue_rows generate ids answer_budget identity prompt_idx plen (out, t ∷ todo) =
    let primed = primed_of (t ∷ todo) in
    let call =
      phase2_call ids answer_budget primed (processor_of identity prompt_idx plen (t ∷ todo)) in
    fill_rows ids plen (width_of (primed_lengths primed)) (t ∷ todo) (generate call) out

unfoldable pub bft_assemble_rollouts :
    Generate → Ids → ℕ → Identity → ℤ → List ℤ → List (List ℤ) → Option (List (Option Generation))
unfolding scan_rows continue_rows
bft_assemble_rollouts generate ids answer_budget identity prompt_idx prompt_tokens phase1 =
    continue_rows generate ids answer_budget identity prompt_idx (length prompt_tokens)
      (scan_rows ids prompt_tokens 0 phase1)

abbrev pub pad_right {ℓ} : {A : Type ℓ} → A → ℕ → List A → List A
pad_right pad width c = c ++ replicate (width - length c) pad

unfoldable pub bft_rollouts_from_completions :
    Generate → Ids → ℕ → Identity → ℤ → List ℤ → List (List ℤ) → Option (List (Option Generation))
unfolding width_of pad_of bft_assemble_rollouts
bft_rollouts_from_completions generate ids answer_budget identity prompt_idx prompt_tokens [] = none
bft_rollouts_from_completions generate ids answer_budget identity prompt_idx prompt_tokens
      (c ∷ cs) =
    bft_assemble_rollouts generate ids answer_budget identity prompt_idx prompt_tokens (
      map (λ row. pad_right (pad_of ids.eos_ids) (width_of (map (λ x. length x) (c ∷ cs))) row)
        (c ∷ cs))

-- `rollout_metadata`: the fields that it computes; `total_reward` and `advantage` are 0, and
-- `success` is true.
pub record Metadata (F : Type 0) : Type 0 where
  pub prompt_length : ℕ
  pub completion_length : ℤ
  pub token_logprobs : List F
  pub forced : Bool
  pub force_span : Option (List ℕ)

unfoldable pub span_list : Option (ℕ × ℕ) → Option (List ℕ)
span_list none = none
span_list (some (start, end)) = some (start ∷ end ∷ [])

unfoldable pub rollout_metadata : {F : Type 0} → Generation → List F → Metadata F
unfolding span_list
rollout_metadata generation token_logprobs = record {
  prompt_length = generation.prompt_length;
  completion_length = pos (length generation.tokens) -ℤ pos generation.prompt_length;
  token_logprobs = token_logprobs;
  forced = generation.forced;
  force_span = span_list generation.force_span;
}
