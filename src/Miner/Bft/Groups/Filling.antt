-- ===== src/Miner/Bft/Groups/Filling.antt =====
-- miner/bft.py: what the function for several prompts makes of each completion.
use subnet.Base.{
  ℕ, ◌+◌, ℤ, Option, none, some, List, [], ◌∷◌, ◌++◌, map, ◌≡◌, refl, ap, ◌∙◌, length, drop, set_at,
  ◌⊎◌, inl, inr, Pointwise, Pointwise-imp, Pointwise-map, set_at-length, append_assoc,
  length-append, length-map, arith,
}
use subnet.Miner.Bft.{
  Ids, Generation, Primed, Generate, Identity, Processor, Call, classify, finish_row, width_of,
  phase2_call, primed_lengths,
}
use subnet.Miner.Bft.Assembled.{FitsRow, Assembled, Assembled-of_Fits, AnswersEach}
use subnet.Miner.Bft.Groups.{
  Group, Job, job_of, note_completion, scan_completions, join, scan_groups, set_in, fill_jobs,
  primed_jobs, jobs_processor, continue_jobs, bft_rollouts_from_completions_multi,
}

set_in-length :
    {A : Type 0} (before : List (List A)) (ri : ℕ) (a : A) (row : List A) (after : List (List A))
    → set_in (length before) ri a (before ++ row ∷ after) ≡ before ++ set_at ri a row ∷ after
unfolding set_in
set_in-length [] ri a row after = refl
set_in-length (x ∷ before) ri a row after = ap (λ l. x ∷ l) (set_in-length before ri a row after)

module _ (ids : Ids) (width gi : ℕ) (g : Group) (later : List Job)
    (before after : List (List (Option Generation))) where
  -- After the jobs of a group's completions its row is complete, and the later jobs are left.
  abbrev RowFilled :
      List (List ℤ)
      → List Job
      → List (List ℤ)
      → List (Option Generation)
      → List (Option Generation)
      → Type 0
  RowFilled comps jobs answers pre left =
      (gs : List Generation) × (answers' : List (List ℤ)) × (length answers' ≡ length later)
      × (fill_jobs ids width (jobs ++ later) answers (before ++ (pre ++ left) ∷ after)
          ≡ fill_jobs ids width later answers' (before ++ (pre ++ map (λ x. some x) gs) ∷ after))
      × Pointwise (FitsRow ids g.prompt_tokens) comps gs

  row_noted :
      (ri : ℕ) (comp : List ℤ) (comps : List (List ℤ)) (c : Generation ⊎ Primed)
      (row : List (Option Generation)) (jobs : List Job) (answers : List (List ℤ))
      (pre : List (Option Generation))
      → classify ids g.prompt_tokens comp ≡ c
      → length before ≡ gi
      → length pre ≡ ri
      → length answers ≡ length ((note_completion gi g ri c (row, jobs)).1 ++ later)
      → ((answers' : List (List ℤ)) (r : Generation)
          → length answers' ≡ length (jobs ++ later)
          → RowFilled comps jobs answers' (pre ++ some r ∷ []) row)
      → RowFilled
          (comp ∷ comps)
          (note_completion gi g ri c (row, jobs)).1
          answers
          pre
          (note_completion gi g ri c (row, jobs)).0
  unfolding note_completion fill_jobs finish_row job_of
  row_noted ri comp comps (inl r) row jobs answers pre e b n k rest =
      let (gs, rest_answers, l, f, p) = rest answers r k in
      (
        r ∷ gs,
        rest_answers,
        l,
        rw
            (
              append_assoc pre (some r ∷ []) row,
              append_assoc pre (some r ∷ []) (map (λ x. some x) gs),
            )
            at f,
        (rw e refl, p),
      )
  row_noted ri comp comps (inr p) row jobs [] pre e b n k rest = absurd (omega arith)
  row_noted ri comp comps (inr p) row jobs (a ∷ answers) pre e b n k rest =
      let r = finish_row ids (length g.prompt_tokens) width p a in
      let (gs, rest_answers, l, f, q) = rest answers r (omega arith) in
      (
        r ∷ gs,
        rest_answers,
        l,
        rw
            (
              ← b,
              set_in-length before ri (some r) (pre ++ none ∷ row) after,
              ← n,
              set_at-length pre (some r) none row,
            )
            (rw
              (
                append_assoc pre (some r ∷ []) row,
                append_assoc pre (some r ∷ []) (map (λ x. some x) gs),
              )
              at f),
        (rw e (drop width a, refl), q),
      )

  row_scanned :
      (comps : List (List ℤ)) (ri : ℕ) (answers : List (List ℤ)) (pre : List (Option Generation))
      → length before ≡ gi
      → length pre ≡ ri
      → length answers ≡ length ((scan_completions ids gi g ri comps).1 ++ later)
      → RowFilled comps
          (scan_completions ids gi g ri comps).1
          answers
          pre
          (scan_completions ids gi g ri comps).0
  unfolding scan_completions
  row_scanned [] ri answers pre b n k = ([], answers, k, refl, tt)
  row_scanned (comp ∷ comps) ri answers pre b n k =
      let rest = scan_completions ids gi g (ri + 1) comps in
      row_noted ri comp comps (classify ids g.prompt_tokens comp) rest.0 rest.1 answers pre refl b n
        k
        (λ answers' r h.
          row_scanned comps (ri + 1) answers' (pre ++ some r ∷ []) b
            (omega (arith, length-append pre (some r ∷ []))) h)

abbrev FitsGroup : Ids → Group → List Generation → Type 0
FitsGroup ids g gs = Pointwise (FitsRow ids g.prompt_tokens) g.completions gs

groups_scanned :
    (ids : Ids) (width : ℕ) (groups : List Group) (gi : ℕ) (answers : List (List ℤ))
    (before : List (List (Option Generation)))
    → length before ≡ gi
    → length answers ≡ length (scan_groups ids gi groups).1
    → (out : List (List Generation)) × (fill_jobs ids width
          (scan_groups ids gi groups).1
          answers
          (before ++ (scan_groups ids gi groups).0)
        ≡ some (before ++ map (λ gs. map (λ x. some x) gs) out))
      × Pointwise (FitsGroup ids) groups out
unfolding scan_groups join fill_jobs
groups_scanned ids width [] gi answers before b k = ([], refl, tt)
groups_scanned ids width (g ∷ groups) gi answers before b k =
    let later = scan_groups ids (gi + 1) groups in
    let (gs, rest_answers, l, f, p) =
      row_scanned ids width gi g later.1 before later.0 g.completions 0 answers [] b refl k in
    let (out, e, q) =
      groups_scanned ids width groups (gi + 1) rest_answers (before ++ map (λ x. some x) gs ∷ [])
        (omega (arith, length-append before (map (λ x. some x) gs ∷ []))) l in
    (
      gs ∷ out,
      f
          ∙ (rw
              (
                append_assoc before (map (λ x. some x) gs ∷ []) later.0,
                append_assoc before (map (λ x. some x) gs ∷ [])
                    (map (λ zs. map (λ x. some x) zs) out),
              )
              at e),
      (p, q),
    )

-- A prompt with the completions that phase 1 gave for it.
pub record Phase1 : Type 0 where
  pub prompt_tokens : List ℤ
  pub prompt_idx : ℤ
  pub gens : List (List ℤ)

abbrev pub group_of : Phase1 → Group
group_of s = record {
  completions = map (λ gen. s.prompt_tokens ++ gen) s.gens;
  prompt_tokens = s.prompt_tokens;
  prompt_idx = s.prompt_idx;
}

length-job_rows :
    (ids : Ids) (answer_budget : ℕ) (jobs : List Job) (proc : Processor)
    → length (phase2_call ids answer_budget (primed_jobs jobs) proc).rows ≡ length jobs
unfolding phase2_call
length-job_rows ids answer_budget jobs proc =
    length-map (primed_jobs jobs) _ ∙ length-map jobs (λ j. j.primed)

jobs-filled :
    (generate : Generate) (ids : Ids) (answer_budget : ℕ) (identity : Identity)
    (groups : List Group) (s : List (List (Option Generation)) × List Job)
    → AnswersEach generate
    → ((width : ℕ) (answers : List (List ℤ))
        → length answers ≡ length s.1
        → (out : List (List Generation)) × (fill_jobs ids width s.1 answers s.0
            ≡ some (map (λ gs. map (λ x. some x) gs) out))
          × Pointwise (FitsGroup ids) groups out)
    → (out : List (List Generation)) × (continue_jobs generate ids answer_budget identity s
        ≡ some (map (λ gs. map (λ x. some x) gs) out))
      × Pointwise (FitsGroup ids) groups out
unfolding continue_jobs fill_jobs
jobs-filled generate ids answer_budget identity groups (out, []) each h = h 0 [] refl
jobs-filled generate ids answer_budget identity groups (out, job ∷ jobs) each h =
    let primed = primed_jobs (job ∷ jobs) in
    let proc : Processor = jobs_processor identity (job ∷ jobs) in
    let call : Call = phase2_call ids answer_budget primed proc in
    h (width_of (primed_lengths primed)) (generate call)
      (each call ∙ length-job_rows ids answer_budget (job ∷ jobs) proc)

-- If the model answers one row for each row, every completion of every prompt becomes exactly one
-- rollout, in the order of the prompts and of their completions, and it is one that the function
-- for a single prompt may make of it: the same three cases, with the length and the tokens of its
-- own prompt.
pub bft_rollouts_from_completions_multi-Assembled :
    (generate : Generate) (ids : Ids) (answer_budget : ℕ) (identity : Identity) (first : Phase1)
    (others : List Phase1)
    → AnswersEach generate
    → (out : List (List Generation)) × (bft_rollouts_from_completions_multi generate ids
          answer_budget identity
          (map group_of (first ∷ others))
        ≡ some (map (λ gs. map (λ x. some x) gs) out))
      × Pointwise (λ s gs. Pointwise (Assembled ids s.prompt_tokens) s.gens gs) (first ∷ others) out
unfolding bft_rollouts_from_completions_multi
bft_rollouts_from_completions_multi-Assembled generate ids answer_budget identity first others
      each =
    let groups = map group_of (first ∷ others) in
    let (out, e, p) =
      jobs-filled generate ids answer_budget identity groups (scan_groups ids 0 groups) each
        (λ width answers n. groups_scanned ids width groups 0 answers [] refl n) in
    (
      out,
      e,
      Pointwise-imp _ _ (first ∷ others) out
          (λ s gs q.
            Pointwise-imp _ _ s.gens gs (λ gen g. Assembled-of_Fits ids s.prompt_tokens gen g)
              (Pointwise-map (FitsRow ids s.prompt_tokens) (λ gen. s.prompt_tokens ++ gen) s.gens gs
                q))
          (Pointwise-map (FitsGroup ids) group_of (first ∷ others) out p),
    )
