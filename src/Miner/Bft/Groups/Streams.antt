-- ===== src/Miner/Bft/Groups/Streams.antt =====
-- miner/bft.py: which draw of the protocol's stream each continued row takes.
use subnet.Base.{
  ℕ, ◌+◌, ◌-◌, ℤ, Option, List, [], ◌∷◌, ◌++◌, map, ◌≡◌, refl, ap, ap₂, ◌∙◌, length, ◌⊎◌, inl, inr,
}
use subnet.Miner.Bft.{
  Ids, Generation, Primed, Identity, Processor, Todo, classify, note_row, scan_rows, processor_of,
  phase2_base_offsets,
}
use subnet.Miner.Bft.Groups.{
  Group, Job, job_of, note_completion, scan_completions, join, scan_groups, jobs_processor,
}

-- The first draw of a row: its prompt, the rollout's number and the offset in the completion.
pub record Draw : Type 0 where
  pub prompt_idx : ℤ
  pub rollout_idx : ℕ
  pub offset : ℕ

-- `zip` of the three lists of a processor.
abbrev pub draws : List ℤ → List ℕ → List ℕ → List Draw
draws [] is os = []
draws (p ∷ ps) [] os = []
draws (p ∷ ps) (i ∷ is) [] = []
draws (p ∷ ps) (i ∷ is) (o ∷ os) =
    record { prompt_idx = p; rollout_idx = i; offset = o } ∷ draws ps is os

abbrev pub draws_of : Processor → List Draw
draws_of proc = draws proc.prompt_indices proc.rollout_indices proc.base_offsets

abbrev pub concat_map : {A B : Type 0} → (A → List B) → List A → List B
concat_map f [] = []
concat_map f (x ∷ xs) = f x ++ concat_map f xs

-- The draws of one prompt alone.
abbrev pub single_draws : Ids → Identity → Group → List Draw
single_draws ids identity g = draws_of (
    processor_of identity g.prompt_idx (length g.prompt_tokens)
      (scan_rows ids g.prompt_tokens 0 g.completions).1)

jobs_of_note :
    (gi : ℕ) (g : Group) (ri : ℕ) (c : Generation ⊎ Primed) (row : List (Option Generation))
    (todo : Todo)
    → (note_completion gi g ri c (row, map (job_of gi g) todo)).1
      ≡ map (job_of gi g) (note_row ri c (row, todo)).1
unfolding note_completion note_row
jobs_of_note gi g ri (inl r) row todo = refl
jobs_of_note gi g ri (inr p) row todo = refl

note-jobs :
    (gi : ℕ) (g : Group) (ri : ℕ) (c : Generation ⊎ Primed) (row : List (Option Generation))
    (jobs : List Job) (row' : List (Option Generation))
    → (note_completion gi g ri c (row, jobs)).1 ≡ (note_completion gi g ri c (row', jobs)).1
unfolding note_completion
note-jobs gi g ri (inl r) row jobs row' = refl
note-jobs gi g ri (inr p) row jobs row' = refl

-- The rows to continue are those of the function for one prompt.
jobs_of_scan :
    (ids : Ids) (gi : ℕ) (g : Group) (ri : ℕ) (comps : List (List ℤ))
    → (scan_completions ids gi g ri comps).1
      ≡ map (job_of gi g) (scan_rows ids g.prompt_tokens ri comps).1
unfolding scan_completions scan_rows
jobs_of_scan ids gi g ri [] = refl
jobs_of_scan ids gi g ri (comp ∷ comps) =
    let c = classify ids g.prompt_tokens comp in
    let s = scan_completions ids gi g (ri + 1) comps in
    let t = scan_rows ids g.prompt_tokens (ri + 1) comps in
    note-jobs gi g ri c s.0 s.1 t.0
    ∙ ap (λ jobs. (note_completion gi g ri c (t.0, jobs)).1) (jobs_of_scan ids gi g (ri + 1) comps)
    ∙ jobs_of_note gi g ri c t.0 t.1

draws-job_of :
    (identity : Identity) (gi : ℕ) (g : Group) (todo : Todo)
    → draws_of (jobs_processor identity (map (job_of gi g) todo))
      ≡ draws_of (processor_of identity g.prompt_idx (length g.prompt_tokens) todo)
unfolding jobs_processor processor_of phase2_base_offsets job_of
draws-job_of identity gi g [] = refl
draws-job_of identity gi g ((ri, p) ∷ todo) =
    ap
      (λ l.
        record {
          prompt_idx = g.prompt_idx;
          rollout_idx = ri;
          offset = length p.primed - length g.prompt_tokens;
        }
        ∷ l)
      (draws-job_of identity gi g todo)

draws-append :
    (identity : Identity) (xs ys : List Job)
    → draws_of (jobs_processor identity (xs ++ ys))
      ≡ draws_of (jobs_processor identity xs) ++ draws_of (jobs_processor identity ys)
unfolding jobs_processor
draws-append identity [] ys = refl
draws-append identity (x ∷ xs) ys =
    ap
      (λ l.
        record {
          prompt_idx = x.prompt_idx;
          rollout_idx = x.rollout;
          offset = length x.primed.primed - x.plen;
        }
        ∷ l)
      (draws-append identity xs ys)

-- The rows of several prompts that go on in one call take the draws that the function for one
-- prompt takes for each of them, prompt after prompt: the same prompt index, rollout number within
-- its group and offset in its completion.
pub jobs_processor-single_draws :
    (ids : Ids) (identity : Identity) (gi : ℕ) (groups : List Group)
    → draws_of (jobs_processor identity (scan_groups ids gi groups).1)
      ≡ concat_map (single_draws ids identity) groups
unfolding scan_groups join
jobs_processor-single_draws ids identity gi [] = unfold jobs_processor in refl
jobs_processor-single_draws ids identity gi (g ∷ groups) =
    draws-append identity (scan_completions ids gi g 0 g.completions).1
      (scan_groups ids (gi + 1) groups).1
    ∙ ap₂ (λ xs ys. xs ++ ys)
        (ap (λ jobs. draws_of (jobs_processor identity jobs))
            (jobs_of_scan ids gi g 0 g.completions)
          ∙ draws-job_of identity gi g (scan_rows ids g.prompt_tokens 0 g.completions).1)
        (jobs_processor-single_draws ids identity (gi + 1) groups)
