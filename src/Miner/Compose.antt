-- ===== src/Miner/Compose.antt =====
-- miner/engine.py: `_try_select` and the filters before it, which compose the eight rollouts of a
-- submission. Thresholds that the code reads from the environment are fields of `Filters`; the
-- digest of the tokens is a parameter.
pub mod Laws
pub mod Copies
mod Tests
use subnet.Base.{
  ℕ, zero, suc, ◌+◌, ◌-◌, ◌/◌, ℤ, pos, negsuc, Bool, true, false, not, ◌&&◌, ◌||◌, Option, none,
  some, List, [], ◌∷◌, ◌++◌, map, if◌then◌else◌, ◌==◌, nat_eq, string_eq, elem, keep, length, take,
  drop, leb, ltb, sorted, String,
}
use subnet.Base.Float.{Float}
use subnet.Protocol.Constants.{m_rollouts}
use subnet.Validator.Verifier.{sum}
use subnet.Miner.Bft.{bft_applicable}
use subnet.Miner.Prompts.{range_from}

-- A graded rollout, with the local measures that it may lack.
pub record Graded (F : Type 0) : Type 0 where
  pub all_tokens : List ℤ
  pub reward : F
  pub bt_ok : Bool
  pub in_eos : Bool
  pub q10_local : Option F
  pub median_local : Option F
  pub p_stop_local : Option F

pub record Filters (F : Type 0) : Type 0 where
  pub k_min : ℕ
  pub k_max : ℕ
  pub max_non_btok_in_submission : ℕ
  pub min_local_q10 : F
  pub min_local_median : F
  pub sigma_target : F

module _ {F : Type 0} where
  unfoldable pub terminating_rollouts : List (Graded F) → Option String → List (Graded F)
  terminating_rollouts rollouts env_name =
      if bft_applicable env_name then rollouts else keep (λ r. r.in_eos) rollouts

  -- The loop over `seen_hashes`.
  unfoldable pub dedupe : (List ℤ → String) → List String → List (Graded F) → List (Graded F)
  dedupe digest seen [] = []
  dedupe digest seen (r ∷ rollouts) = elim (elem (digest r.all_tokens) seen) [
    | true ↦ dedupe digest seen rollouts
    | false ↦ r ∷ dedupe digest (digest r.all_tokens ∷ seen) rollouts
  ]

abbrev pub distance : ℕ → ℕ → ℕ
distance a b = (a - b) + (b - a)

-- The four sorted buckets: correct and wrong, terminating well or not.
pub record Buckets (F : Type 0) : Type 0 where
  pub correct_bt : List (Graded F)
  pub wrong_bt : List (Graded F)
  pub correct_nbt : List (Graded F)
  pub wrong_nbt : List (Graded F)

module _ {F : Type 0} where
  -- The first `n`, those that terminate well before the others.
  abbrev pub first_of : ℕ → List (Graded F) → List (Graded F) → List (Graded F)
  first_of n bt nbt = take n bt ++ take (n - length (take n bt)) nbt

  abbrev pub count_non_bt : List (Graded F) → ℕ
  count_non_bt subset = length (keep (λ r. not r.bt_ok) subset)

  unfoldable pub k_order : Filters F → List ℕ
  k_order c =
      sorted
        (λ a b. leb (distance a ((c.k_min + c.k_max) / 2)) (distance b ((c.k_min + c.k_max) / 2)))
        (range_from c.k_min (c.k_max + 1 - c.k_min))

  abbrev pub compose : ℕ → Buckets F → List (Graded F)
  compose k b =
      first_of k b.correct_bt b.correct_nbt ++ first_of (m_rollouts - k) b.wrong_bt b.wrong_nbt

  -- The tests of one round of the loop over `k_order`.
  unfoldable pub composes : Filters F → ℕ → Buckets F → Bool
  composes c k b =
      leb k (length b.correct_bt + length b.correct_nbt)
      && leb (m_rollouts - k) (length b.wrong_bt + length b.wrong_nbt)
      && leb (count_non_bt (compose k b)) c.max_non_btok_in_submission
      && leb (m_rollouts - c.max_non_btok_in_submission) (m_rollouts - count_non_bt (compose k b))

  unfoldable pub select_binary :
      Filters F → List ℕ → Buckets F → Option (List (Graded F) × Option ℕ)
  unfolding composes
  select_binary c [] b = none
  select_binary c (k ∷ ks) b = elim (composes c k b) [
    | true ↦ some (compose k b, some k)
    | false ↦ select_binary c ks b
  ]

  unfoldable pub within_budget :
      Filters F → Option (List (Graded F)) → Option (List (Graded F) × Option ℕ)
  within_budget c none = none
  within_budget c (some subset) =
      if ltb c.max_non_btok_in_submission (count_non_bt subset) then none else some (subset, none)

module _ {F : Type 0} (fl : Float F) where
  abbrev zero_float : F
  zero_float = fl.of_int (pos 0)

  -- `threshold > 0 and (x is None or x < threshold)`
  abbrev pub below_floor : F → Option F → Bool
  below_floor threshold none = fl.lt zero_float threshold
  below_floor threshold (some x) = fl.lt zero_float threshold && fl.lt x threshold

  unfoldable pub passes_local_dist : Filters F → Graded F → Bool
  passes_local_dist c r =
      not (below_floor c.min_local_q10 r.q10_local)
      && not (below_floor c.min_local_median r.median_local)

  -- `-(x or 0.0)`
  abbrev pub negated : Option F → F
  negated none = fl.mul (fl.of_int (negsuc 0)) zero_float
  negated (some x) = fl.mul (fl.of_int (negsuc 0)) x

  -- Python compares tuples at the first place where they differ; `sorted` asks `b < a`.
  abbrev pub pair_le : F × F → F × F → Bool
  pair_le (a, a') (b, b') = not (if fl.eq a b then fl.lt b' a' else fl.lt b a)

  abbrev pub bt_key : Graded F → F × F
  bt_key r = (negated r.q10_local, negated r.p_stop_local)

  abbrev pub nonbt_key : Graded F → F × F
  nonbt_key r = (fl.of_int (if r.in_eos then negsuc 0 else pos 0), negated r.p_stop_local)

  abbrev pub by_key : (Graded F → F × F) → List (Graded F) → List (Graded F)
  by_key key rollouts = sorted (λ a b. pair_le (key a) (key b)) rollouts

  -- `[r for r in rollouts if r["bt_ok"] == ok and r["reward"] == value]`
  abbrev pub rewarded : Bool → ℤ → List (Graded F) → List (Graded F)
  rewarded ok value rollouts =
      keep (λ r. (if ok then r.bt_ok else not r.bt_ok) && fl.eq r.reward (fl.of_int value)) rollouts

  unfoldable pub buckets_of : List (Graded F) → Buckets F
  buckets_of kept = record {
    correct_bt = by_key bt_key (rewarded true (pos 1) kept);
    wrong_bt = by_key bt_key (rewarded true (pos 0) kept);
    correct_nbt = by_key nonbt_key (rewarded false (pos 1) kept);
    wrong_nbt = by_key nonbt_key (rewarded false (pos 0) kept);
  }

  unfoldable pub squared_deviations : F → List F → List F
  squared_deviations m [] = []
  squared_deviations m (x ∷ xs) = fl.pow (fl.sub x m) (fl.of_int (pos 2)) ∷ squared_deviations m xs

  -- `_std`
  unfoldable pub std : List F → F
  unfolding squared_deviations
  std [] = zero_float
  std (x ∷ xs) =
      let n = fl.of_int (pos (length (x ∷ xs))) in
      let m = fl.div (sum fl (x ∷ xs)) n in
      fl.pow (fl.div (sum fl (squared_deviations m (x ∷ xs))) n) (fl.decimal 5 1)

  -- The extremes of the rollouts in the order of their rewards.
  abbrev pub extremes : ℕ → List (Graded F) → List (Graded F)
  extremes size ordered =
      take (size / 2) ordered ++ drop (length ordered - (size - size / 2)) ordered

  unfoldable pub select_continuous_subset : List (Graded F) → ℕ → F → Option (List (Graded F))
  unfolding std
  select_continuous_subset rollouts size sigma_target =
      let subset = extremes size (sorted (λ a b. not (fl.lt b.reward a.reward)) rollouts) in
      if ltb (length rollouts) size
      then none
      else if fl.le sigma_target (std (map (λ r. r.reward) subset))
      then some subset
      else none

  unfoldable pub select_from_kept :
      Filters F → Bool → List (Graded F) → Option (List (Graded F) × Option ℕ)
  unfolding within_budget select_continuous_subset select_binary buckets_of
  select_from_kept c true kept =
      let bt_ok_rollouts = keep (λ r. r.bt_ok) kept in
      let pool = if leb m_rollouts (length bt_ok_rollouts) then bt_ok_rollouts else kept in
      within_budget c (select_continuous_subset pool m_rollouts c.sigma_target)
  select_from_kept c false kept = select_binary c (k_order c) (buckets_of kept)

  -- The rollouts that the filters leave.
  unfoldable pub kept_of :
      Filters F → (List ℤ → String) → Option String → List (Graded F) → List (Graded F)
  unfolding terminating_rollouts dedupe passes_local_dist
  kept_of c digest env_name rollouts =
      keep (passes_local_dist c) (dedupe digest [] (terminating_rollouts rollouts env_name))

  -- `none` is `(None, None)`.
  unfoldable pub try_select :
      Filters F
      → (List ℤ → String)
      → Option String
      → Bool
      → List (Graded F)
      → Option (List (Graded F) × Option ℕ)
  unfolding kept_of select_from_kept
  try_select c digest env_name continuous_reward rollouts =
      let kept = kept_of c digest env_name rollouts in
      if ltb (length (terminating_rollouts rollouts env_name)) m_rollouts
      then none
      else if ltb (length kept) m_rollouts
      then none
      else select_from_kept c continuous_reward kept
