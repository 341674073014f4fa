-- ===== src/Miner/Compose/Tests.antt =====
-- The theorem on composed groups at nine rollouts, of which two are the same.
use subnet.Base.{
  ◌≤◌, ℕ, ◌*ℤ◌, ℤ, pos, negsuc, true, false, none, some, List, [], ◌∷◌, String, get_or, ◌≡◌, refl,
  ◌⊎◌, In, arith, sorted,
}
use subnet.Samples.{fixed}
use subnet.Miner.Bft.{bft_applicable}
use subnet.Miner.Prompts.{range_from}
use subnet.Miner.Compose.{Graded, Filters, k_order, try_select}
use subnet.Miner.Compose.Copies.{copies, TellsApart, copies-try_select}
use subnet.Miner.Compose.Laws.{IsComposed, try_select-IsComposed}

abbrev filters : Filters ℤ
filters = record {
  k_min = 3;
  k_max = 5;
  max_non_btok_in_submission = 0;
  min_local_q10 = pos 0;
  min_local_median = pos 0;
  sigma_target = pos 46000000;
}

abbrev names : List String
names = "a" ∷ "b" ∷ "c" ∷ "d" ∷ "e" ∷ "f" ∷ "g" ∷ "h" ∷ []

abbrev digest : List ℤ → String
digest [] = ""
digest (pos n ∷ tokens) = get_or names n ""
digest (negsuc n ∷ tokens) = ""

abbrev rollout : ℕ → ℕ → Graded ℤ
rollout token reward = record {
  all_tokens = pos token ∷ [];
  reward = fixed.of_int (pos reward);
  bt_ok = true;
  in_eos = true;
  q10_local = none;
  median_local = none;
  p_stop_local = none;
}

abbrev rollouts : List (Graded ℤ)
rollouts =
    rollout 0 1
    ∷ rollout 0 1
    ∷ rollout 1 0
    ∷ rollout 2 1
    ∷ rollout 3 0
    ∷ rollout 4 1
    ∷ rollout 5 0
    ∷ rollout 6 0
    ∷ rollout 7 0
    ∷ []

abbrev chosen : List (Graded ℤ)
chosen =
    rollout 0 1
    ∷ rollout 2 1
    ∷ rollout 4 1
    ∷ rollout 1 0
    ∷ rollout 3 0
    ∷ rollout 5 0
    ∷ rollout 6 0
    ∷ rollout 7 0
    ∷ []

selects :
    try_select fixed filters digest (some "opencodeinstruct") false rollouts ≡ some (chosen, some 3)
unfolding try_select k_order sorted range_from bft_applicable ◌*ℤ◌
selects = refl

try_select-IsComposed_example :
    IsComposed fixed filters false rollouts chosen (some 3)
    × ((r : Graded ℤ)
        → In r chosen
        → (bft_applicable (some "opencodeinstruct") ≡ true) ⊎ (r.in_eos ≡ true))
try_select-IsComposed_example =
    try_select-IsComposed fixed filters digest (some "opencodeinstruct") false rollouts chosen
      (some 3) (omega arith) selects

tells_apart : TellsApart digest "a" fixed
unfolding ◌*ℤ◌
tells_apart x = ground arith

copies-try_select_example : copies digest "a" chosen ≤ 1
copies-try_select_example =
    copies-try_select digest "a" fixed tells_apart filters (some "opencodeinstruct") false rollouts
      chosen (some 3) selects
