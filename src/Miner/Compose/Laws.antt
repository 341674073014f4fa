-- ===== src/Miner/Compose/Laws.antt =====
-- miner/engine.py: what a composed submission holds.
use subnet.Base.{
  ℕ, zero, suc, ◌+◌, ◌-◌, ◌≤◌, ℤ, pos, Bool, true, false, not, ◌&&◌, Option, none, some, List, [],
  ◌∷◌, ◌++◌, map, if◌then◌else◌, keep, length, take, drop, leb, ltb, sorted, String, ◌≡◌, refl,
  arith, In, All, All-of_In, In-take, In-append, In-sorted, keep-In, length-append, length-take,
  Bool-cases, elem, string_eq, inl, inr, ◌⊎◌, and_true, length-sorted,
}
use subnet.Base.Float.{Float}
use subnet.Protocol.Constants.{m_rollouts}
use subnet.Miner.Bft.{bft_applicable}
use subnet.Miner.Prompts.Laws.{range_from-In}
use subnet.Miner.Compose.{
  Graded, Filters, terminating_rollouts, dedupe, passes_local_dist, rewarded, first_of,
  count_non_bt, k_order, buckets_of, compose, composes, by_key, bt_key, nonbt_key, select_binary,
  std, extremes, select_continuous_subset, within_budget, select_from_kept, kept_of, try_select,
}

length-drop : {A : Type 0} (n : ℕ) (xs : List A) → length (drop n xs) ≡ length xs - n
length-drop zero xs = omega arith
length-drop (suc n) [] = omega arith
length-drop (suc n) (x ∷ xs) = omega (arith, length-drop n xs)

In-drop : {A : Type 0} (a : A) (n : ℕ) (xs : List A) → In a (drop n xs) → In a xs
In-drop a zero xs m = m
In-drop a (suc n) [] m = absurd m
In-drop a (suc n) (x ∷ xs) m = inr (In-drop a n xs m)

module _ {F : Type 0} where
  length-first_of :
      (n : ℕ) (bt nbt : List (Graded F))
      → n ≤ length bt + length nbt
      → length (first_of n bt nbt) ≡ n
  length-first_of n bt nbt h = omega (
    arith,
    length-append (take n bt) (take (n - length (take n bt)) nbt),
    length-take n bt,
    length-take (n - length (take n bt)) nbt,
  )

  In-first_of :
      (n : ℕ) (bt nbt : List (Graded F)) (r : Graded F)
      → In r (first_of n bt nbt)
      → In r bt ⊎ In r nbt
  In-first_of n bt nbt r m = elim (In-append r (take n bt) (take (n - length (take n bt)) nbt) m) [
    | inl a ↦ inl (In-take r n bt a)
    | inr b ↦ inr (In-take r (n - length (take n bt)) nbt b)
  ]

  In-dedupe :
      (digest : List ℤ → String) (seen : List String) (rollouts : List (Graded F)) (r : Graded F)
      → In r (dedupe digest seen rollouts)
      → In r rollouts
  unfolding dedupe
  In-dedupe digest seen [] r m = m
  In-dedupe digest seen (x ∷ rollouts) r m = elim (Bool-cases (elem (digest x.all_tokens) seen)) [
    | inl e ↦ inr (In-dedupe digest seen rollouts r (rw (e, dedupe) at m))
    | inr e ↦
        let n : (r ≡ x) ⊎ In r (dedupe digest (digest x.all_tokens ∷ seen) rollouts) =
          rw (e, dedupe) at m in
        elim n [
          | inl same ↦ inl same
          | inr later ↦ inr (In-dedupe digest (digest x.all_tokens ∷ seen) rollouts r later)
        ]
  ]

  In-kept :
      (c : Filters F) (fl : Float F) (digest : List ℤ → String) (env_name : Option String)
      (rollouts : List (Graded F)) (r : Graded F)
      → In r (kept_of fl c digest env_name rollouts)
      → In r rollouts × ((bft_applicable env_name ≡ true) ⊎ (r.in_eos ≡ true))
  unfolding kept_of terminating_rollouts
  In-kept c fl digest env_name rollouts r m =
      let n = In-dedupe digest [] _ r (keep-In (passes_local_dist fl c) r _ m).0 in
      elim (Bool-cases (bft_applicable env_name)) [
        | inl e ↦ (rw e at n, inl e)
        | inr e ↦ let (l, t) = keep-In (λ x. x.in_eos) r rollouts (rw e at n) in (l, inr t)
      ]

module _ {F : Type 0} (fl : Float F) where
  abbrev pub IsWorth : ℤ → Graded F → Type 0
  IsWorth value r = fl.eq r.reward (fl.of_int value) ≡ true

  In-bucket :
      (key : Graded F → F × F) (ok : Bool) (value : ℤ) (kept : List (Graded F)) (r : Graded F)
      → In r (by_key fl key (rewarded fl ok value kept))
      → In r kept × IsWorth value r
  In-bucket key ok value kept r m =
      let (k, t) =
        keep-In (λ x. (if ok then x.bt_ok else not x.bt_ok) && fl.eq x.reward (fl.of_int value)) r
          kept (In-sorted _ r (rewarded fl ok value kept) m) in
      (k, (and_true _ _ t).1)

  -- The part of a composed group with one reward.
  In-part :
      (n : ℕ) (value : ℤ) (kept : List (Graded F)) (r : Graded F)
      → In r (
          first_of n
            (by_key fl (bt_key fl) (rewarded fl true value kept))
            (by_key fl (nonbt_key fl) (rewarded fl false value kept)))
      → In r kept × IsWorth value r
  In-part n value kept r m = elim (In-first_of n _ _ r m) [
    | inl a ↦ In-bucket (bt_key fl) true value kept r a
    | inr b ↦ In-bucket (nonbt_key fl) false value kept r b
  ]

  -- The two parts of a group with `k` correct rollouts: they are `k` of reward 1 and the others of
  -- reward 0.
  abbrev pub Splits : List (Graded F) → ℕ → Type 0
  Splits subset k =
      (correct : List (Graded F)) × (wrong : List (Graded F)) × (subset ≡ correct ++ wrong)
      × (length correct ≡ k)
      × All (IsWorth (pos 1)) correct
      × All (IsWorth (pos 0)) wrong

  -- What the kind of the rewards asks: the dispersion of continuous ones, or the band of binary
  -- ones, with the number of correct rollouts as the answer's second part.
  abbrev pub InZone : Filters F → Bool → List (Graded F) → Option ℕ → Type 0
  InZone c true subset none = fl.le c.sigma_target (std fl (map (λ r. r.reward) subset)) ≡ true
  InZone c true subset (some k) = ⊥
  InZone c false subset none = ⊥
  InZone c false subset (some k) = (c.k_min ≤ k) × (k ≤ c.k_max) × Splits subset k

  pub record IsComposed (c : Filters F) (continuous : Bool) (kept subset : List (Graded F))
      (k : Option ℕ) : Type 0 where
    pub size : length subset ≡ m_rollouts
    pub tolerated : count_non_bt subset ≤ c.max_non_btok_in_submission
    pub members : (r : Graded F) → In r subset → In r kept
    pub zone : InZone c continuous subset k

  compose-IsComposed :
      (c : Filters F) (kept : List (Graded F)) (k : ℕ)
      → c.k_min ≤ k
      → k ≤ c.k_max
      → c.k_max ≤ m_rollouts
      → composes c k (buckets_of fl kept) ≡ true
      → IsComposed c false kept (compose k (buckets_of fl kept)) (some k)
  unfolding buckets_of composes
  compose-IsComposed c kept k low high limit h =
      let b = buckets_of fl kept in
      let correct = first_of k b.correct_bt b.correct_nbt in
      let wrong = first_of (m_rollouts - k) b.wrong_bt b.wrong_nbt in
      let n = length-first_of k b.correct_bt b.correct_nbt (ground arith) in
      let m = length-first_of (m_rollouts - k) b.wrong_bt b.wrong_nbt (ground arith) in
      record {
        size = omega (arith, length-append correct wrong);
        tolerated = ground arith;
        members = λ r i. elim (In-append r correct wrong i) [
          | inl a ↦ (In-part k (pos 1) kept r a).0
          | inr w ↦ (In-part (m_rollouts - k) (pos 0) kept r w).0
        ];
        zone = (
          low,
          high,
          (
            correct,
            wrong,
            refl,
            n,
            All-of_In _ correct (λ r a. (In-part k (pos 1) kept r a).1),
            All-of_In _ wrong (λ r w. (In-part (m_rollouts - k) (pos 0) kept r w).1),
          ),
        );
      }

  select_binary-IsComposed :
      (c : Filters F) (kept : List (Graded F)) (ks : List ℕ) (subset : List (Graded F))
      (k : Option ℕ)
      → All (λ j. (c.k_min ≤ j) × (j ≤ c.k_max)) ks
      → c.k_max ≤ m_rollouts
      → select_binary c ks (buckets_of fl kept) ≡ some (subset, k)
      → IsComposed c false kept subset k
  unfolding select_binary
  select_binary-IsComposed c kept [] subset k a limit h = absurd (cc)
  select_binary-IsComposed c kept (j ∷ ks) subset k a limit h =
      elim (Bool-cases (composes c j (buckets_of fl kept))) [
        | inl e ↦
            let t : some (compose j (buckets_of fl kept), some j) ≡ some (subset, k) =
              rw (e, select_binary) at h in
            let p : compose j (buckets_of fl kept) ≡ subset = cc in
            let q : some j ≡ k = cc in
            rw (← p, ← q) (compose-IsComposed c kept j a.0.0 a.0.1 limit e)
        | inr e ↦ select_binary-IsComposed c kept ks subset k a.1 limit (rw (e, select_binary) at h)
      ]

  k_order-bounds : (c : Filters F) → All (λ j. (c.k_min ≤ j) × (j ≤ c.k_max)) (k_order c)
  unfolding k_order
  k_order-bounds c = All-of_In _ _ (λ j m.
      let (p, q) = range_from-In j c.k_min (c.k_max + 1 - c.k_min) (In-sorted _ j _ m) in
      (p, omega arith))

  length-extremes :
      (ordered : List (Graded F))
      → m_rollouts ≤ length ordered
      → length (extremes fl m_rollouts ordered) ≡ m_rollouts
  length-extremes ordered h =
      let n : ℕ = length ordered - 4 in
      omega (
        arith,
        length-append (take 4 ordered) (drop n ordered),
        length-take 4 ordered,
        length-drop n ordered,
      )

  select_continuous_subset-lem :
      (rollouts subset : List (Graded F)) (target : F)
      → select_continuous_subset fl rollouts m_rollouts target ≡ some subset
      → (length subset ≡ m_rollouts)
        × ((r : Graded F) → In r subset → In r rollouts)
        × (fl.le target (std fl (map (λ r. r.reward) subset)) ≡ true)
  unfolding select_continuous_subset
  select_continuous_subset-lem rollouts subset target h =
      let ordered = sorted (λ a b. not (fl.lt b.reward a.reward)) rollouts in
      let e = extremes fl m_rollouts ordered in
      let p : e ≡ subset = ground arith in
      let big : m_rollouts ≤ length rollouts = ground arith in
      let ok : fl.le target (std fl (map (λ r. r.reward) e)) ≡ true = ground arith in
      rw (← p) (
        length-extremes ordered (rw (length-sorted _ rollouts) big),
        (λ r m.
            In-sorted _ r rollouts
              (elim (In-append r (take 4 ordered) (drop (length ordered - 4) ordered) m) [
                | inl a ↦ In-take r 4 ordered a
                | inr b ↦ In-drop r (length ordered - 4) ordered b
              ])),
        ok,
      )

  select_from_kept-IsComposed :
      (c : Filters F) (continuous : Bool) (kept subset : List (Graded F)) (k : Option ℕ)
      → c.k_max ≤ m_rollouts
      → select_from_kept fl c continuous kept ≡ some (subset, k)
      → IsComposed c continuous kept subset k
  unfolding select_from_kept within_budget
  select_from_kept-IsComposed c false kept subset k limit h =
      select_binary-IsComposed c kept (k_order c) subset k (k_order-bounds c) limit h
  select_from_kept-IsComposed c true kept subset k limit h = picked _ inside refl h
    where
      bt_ok_rollouts : List (Graded F)
      bt_ok_rollouts = keep (λ r. r.bt_ok) kept

      candidates : List (Graded F)
      candidates = if leb m_rollouts (length bt_ok_rollouts) then bt_ok_rollouts else kept

      inside : (r : Graded F) → In r candidates → In r kept
      inside r m = elim (Bool-cases (leb m_rollouts (length bt_ok_rollouts))) [
        | inl e ↦ (keep-In (λ x. x.bt_ok) r kept (rw e at m)).0
        | inr e ↦ rw e at m
      ]

      picked :
          (o : Option (List (Graded F)))
          → ((r : Graded F) → In r candidates → In r kept)
          → select_continuous_subset fl candidates m_rollouts c.sigma_target ≡ o
          → within_budget c o ≡ some (subset, k)
          → IsComposed c true kept subset k
      picked none into e b = absurd (cc)
      picked (some s) into e b =
          let (n, m, z) = select_continuous_subset-lem candidates s c.sigma_target e in
          let low : ltb c.max_non_btok_in_submission (count_non_bt s) ≡ false = ground arith in
          let p : s ≡ subset = ground arith in
          let q : k ≡ none = ground arith in
          rw (← p, q)
            (record {
              size = n;
              tolerated = ground arith;
              members = λ r i. into r (m r i);
              zone = z;
            })

  -- A group that is composed for a submission has eight rollouts, all of them among those given,
  -- and ended by an EOS where answers are not forced; no more of them than tolerated end badly. For
  -- an environment with binary rewards, the answer names a number `k` in the band, and `k` of them
  -- have reward 1 and the others reward 0; for one with continuous rewards it names none, and
  -- their deviation reaches the target. The band's upper bound is at most eight.
  pub try_select-IsComposed :
      (c : Filters F) (digest : List ℤ → String) (env_name : Option String) (continuous : Bool)
      (rollouts subset : List (Graded F)) (k : Option ℕ)
      → c.k_max ≤ m_rollouts
      → try_select fl c digest env_name continuous rollouts ≡ some (subset, k)
      → IsComposed c continuous rollouts subset k
        × ((r : Graded F) → In r subset → (bft_applicable env_name ≡ true) ⊎ (r.in_eos ≡ true))
  unfolding try_select
  try_select-IsComposed c digest env_name continuous rollouts subset k limit h =
      let from_kept : select_from_kept fl c continuous (kept_of fl c digest env_name rollouts)
          ≡ some (subset, k) =
        ground arith in
      let v =
        select_from_kept-IsComposed c continuous (kept_of fl c digest env_name rollouts) subset k
          limit from_kept in
      let origin = λ (r : Graded F) (m : In r subset).
        In-kept c fl digest env_name rollouts r (v.members r m) in
      (
        record {
          size = v.size;
          tolerated = v.tolerated;
          members = λ r m. (origin r m).0;
          zone = v.zone;
        },
        λ r m. (origin r m).1,
      )
