-- ===== src/Miner/Bft/Groups.antt =====
-- miner/bft.py: `bft_rollouts_from_completions_multi`, which continues the rows of several prompts
-- in one call of the model.
pub mod Filling
pub mod Streams
use subnet.Base.{
  ℕ, zero, suc, ◌+◌, ◌-◌, ℤ, Option, none, some, List, [], ◌∷◌, ◌++◌, map, length, set_at, ◌⊎◌, inl,
  inr,
}
use subnet.Miner.Bft.{
  Ids, Generation, Primed, Generate, Identity, Processor, Call, classify, finish_row, width_of,
  phase2_call, primed_lengths,
}

pub record Group : Type 0 where
  pub completions : List (List ℤ)
  pub prompt_tokens : List ℤ
  pub prompt_idx : ℤ

-- A row to continue, with its place in `out`, the length of its prompt and the prompt's index.
pub record Job : Type 0 where
  pub group : ℕ
  pub rollout : ℕ
  pub plen : ℕ
  pub prompt_idx : ℤ
  pub primed : Primed

unfoldable pub job_of : ℕ → Group → ℕ × Primed → Job
job_of gi g (ri, p) = record {
  group = gi;
  rollout = ri;
  plen = length g.prompt_tokens;
  prompt_idx = g.prompt_idx;
  primed = p;
}

unfoldable pub note_completion :
    ℕ
    → Group
    → ℕ
    → Generation ⊎ Primed
    → List (Option Generation) × List Job
    → List (Option Generation) × List Job
unfolding job_of
note_completion gi g ri (inl rollout) (row, jobs) = (some rollout ∷ row, jobs)
note_completion gi g ri (inr primed) (row, jobs) = (none ∷ row, job_of gi g (ri, primed) ∷ jobs)

unfoldable pub scan_completions :
    Ids → ℕ → Group → ℕ → List (List ℤ) → List (Option Generation) × List Job
unfolding note_completion
scan_completions ids gi g ri [] = ([], [])
scan_completions ids gi g ri (comp ∷ comps) =
    note_completion gi g ri (classify ids g.prompt_tokens comp)
      (scan_completions ids gi g (ri + 1) comps)

unfoldable pub join :
    List (Option Generation) × List Job
    → List (List (Option Generation)) × List Job
    → List (List (Option Generation)) × List Job
join (row, jobs) (out, later) = (row ∷ out, jobs ++ later)

unfoldable pub scan_groups : Ids → ℕ → List Group → List (List (Option Generation)) × List Job
unfolding scan_completions join
scan_groups ids gi [] = ([], [])
scan_groups ids gi (g ∷ groups) =
    join (scan_completions ids gi g 0 g.completions) (scan_groups ids (gi + 1) groups)

-- `out[gi][ri] = rollout`
unfoldable pub set_in : {A : Type 0} → ℕ → ℕ → A → List (List A) → List (List A)
set_in gi ri a [] = []
set_in zero ri a (row ∷ out) = set_at ri a row ∷ out
set_in (suc gi) ri a (row ∷ out) = row ∷ set_in gi ri a out

unfoldable pub fill_jobs :
    Ids
    → ℕ
    → List Job
    → List (List ℤ)
    → List (List (Option Generation))
    → Option (List (List (Option Generation)))
unfolding set_in
fill_jobs ids width [] answers out = some out
fill_jobs ids width (job ∷ jobs) [] out = none
fill_jobs ids width (job ∷ jobs) (answer ∷ answers) out =
    fill_jobs ids width jobs answers
      (set_in job.group job.rollout (some (finish_row ids job.plen width job.primed answer)) out)

abbrev pub primed_jobs : List Job → List Primed
primed_jobs jobs = map (λ j. j.primed) jobs

unfoldable pub jobs_processor : Identity → List Job → Processor
jobs_processor identity jobs = record {
  identity = identity;
  prompt_indices = map (λ j. j.prompt_idx) jobs;
  rollout_indices = map (λ j. j.rollout) jobs;
  base_offsets = map (λ j. length j.primed.primed - j.plen) jobs;
  start_len = 0;
}

unfoldable pub continue_jobs :
    Generate
    → Ids
    → ℕ
    → Identity
    → List (List (Option Generation)) × List Job
    → Option (List (List (Option Generation)))
unfolding jobs_processor fill_jobs
continue_jobs generate ids answer_budget identity (out, []) = some out
continue_jobs generate ids answer_budget identity (out, job ∷ jobs) =
    let primed = primed_jobs (job ∷ jobs) in
    let call = phase2_call ids answer_budget primed (jobs_processor identity (job ∷ jobs)) in
    fill_jobs ids (width_of (primed_lengths primed)) (job ∷ jobs) (generate call) out

-- `none` is the ValueError for no groups.
unfoldable pub bft_rollouts_from_completions_multi :
    Generate → Ids → ℕ → Identity → List Group → Option (List (List (Option Generation)))
unfolding scan_groups continue_jobs
bft_rollouts_from_completions_multi generate ids answer_budget identity [] = none
bft_rollouts_from_completions_multi generate ids answer_budget identity (g ∷ groups) =
    continue_jobs generate ids answer_budget identity (scan_groups ids 0 (g ∷ groups))
