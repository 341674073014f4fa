-- ===== src/Miner/Compose/Copies.antt =====
-- miner/engine.py `_try_select`: no rollout is taken twice into a composed group.
use subnet.Base.{
  ℕ, zero, suc, ◌+◌, ◌-◌, ◌≤◌, ℤ, pos, Bool, true, false, not, ◌&&◌, Option, none, some, List, [],
  ◌∷◌, ◌++◌, if◌then◌else◌, ◌==◌, nat_eq, string_eq, elem, keep, length, take, drop, leb, sorted,
  String, ◌≡◌, refl, arith, inl, inr, Bool-cases, length-keep-sorted, length-sorted, sym, ◌∙◌,
}
use subnet.Base.Float.{Float}
use subnet.Protocol.Constants.{m_rollouts}
use subnet.Miner.Compose.{
  pair_le, Graded, Filters, terminating_rollouts, dedupe, passes_local_dist, rewarded, first_of,
  k_order, buckets_of, compose, composes, by_key, bt_key, nonbt_key, select_binary, extremes,
  select_continuous_subset, within_budget, select_from_kept, kept_of, try_select,
}

module _ {F : Type 0} (digest : List ℤ → String) (key : String) where
  -- How many of the rollouts have this digest of their tokens.
  abbrev pub copies : List (Graded F) → ℕ
  copies [] = 0
  copies (r ∷ rs) = if digest r.all_tokens == key then suc (copies rs) else copies rs

  copies-append : (xs ys : List (Graded F)) → copies (xs ++ ys) ≡ copies xs + copies ys
  copies-append [] ys = omega arith
  copies-append (x ∷ xs) ys = ground (arith, copies-append xs ys)

  copies-take : (n : ℕ) (xs : List (Graded F)) → copies (take n xs) ≤ copies xs
  copies-take zero xs = omega arith
  copies-take (suc n) [] = omega arith
  copies-take (suc n) (x ∷ xs) = ground (arith, copies-take n xs)

  copies-drop : (n : ℕ) (xs : List (Graded F)) → copies (drop n xs) ≤ copies xs
  copies-drop zero xs = omega arith
  copies-drop (suc n) [] = omega arith
  copies-drop (suc n) (x ∷ xs) = ground (arith, copies-drop n xs)

  -- A beginning and an end that do not overlap.
  copies_ends :
      (n m : ℕ) (xs : List (Graded F)) → n ≤ m → copies (take n xs) + copies (drop m xs) ≤ copies xs
  copies_ends zero m xs h = omega (arith, copies-drop m xs)
  copies_ends (suc n) zero xs h = absurd (omega arith)
  copies_ends (suc n) (suc m) [] h = omega arith
  copies_ends (suc n) (suc m) (x ∷ xs) h = ground (arith, copies_ends n m xs (omega arith))

  copies-keep : (p : Graded F → Bool) (xs : List (Graded F)) → copies (keep p xs) ≤ copies xs
  copies-keep p [] = omega arith
  copies-keep p (x ∷ xs) = ground (arith, copies-keep p xs)

  copies-sorted :
      (le : Graded F → Graded F → Bool) (xs : List (Graded F)) → copies (sorted le xs) ≡ copies xs
  copies-sorted le xs =
      counted (sorted le xs)
      ∙ length-keep-sorted le (λ r. digest r.all_tokens == key) xs
      ∙ sym (counted xs)
    where
      counted :
          (ys : List (Graded F)) → copies ys ≡ length (keep (λ r. digest r.all_tokens == key) ys)
      counted [] = refl
      counted (y ∷ ys) = ground (arith, counted ys)

  -- The loop takes the first rollout with each digest that it has not seen.
  copies-dedupe :
      (seen : List String) (xs : List (Graded F))
      → copies (dedupe digest seen xs) ≤ (if elem key seen then 0 else 1)
  unfolding dedupe
  copies-dedupe seen [] = ground arith
  copies-dedupe seen (x ∷ xs) = ground (
    arith,
    string_eq.beq_iff (digest x.all_tokens) key,
    string_eq.beq_iff key (digest x.all_tokens),
    copies-dedupe seen xs,
    copies-dedupe (digest x.all_tokens ∷ seen) xs,
  )

  module _ (fl : Float F) where
    copies-kept_of :
        (c : Filters F) (env_name : Option String) (rollouts : List (Graded F))
        → copies (kept_of fl c digest env_name rollouts) ≤ 1
    unfolding kept_of
    copies-kept_of c env_name rollouts = omega (
      arith,
      copies-keep (passes_local_dist fl c)
          (dedupe digest [] (terminating_rollouts rollouts env_name)),
      copies-dedupe [] (terminating_rollouts rollouts env_name),
    )

    -- `1.0` and `0.0` are different: no float equals both.
    abbrev pub TellsApart : Type 0
    TellsApart = (x : F) → (fl.eq x (fl.of_int (pos 1)) && fl.eq x (fl.of_int (pos 0))) ≡ false

    -- The four buckets do not overlap.
    copies-rewarded :
        TellsApart
        → (xs : List (Graded F))
        → copies (rewarded fl true (pos 1) xs)
            + copies (rewarded fl false (pos 1) xs)
            + (copies (rewarded fl true (pos 0) xs) + copies (rewarded fl false (pos 0) xs))
          ≤ copies xs
    copies-rewarded apart [] = omega arith
    copies-rewarded apart (x ∷ xs) = ground (arith, apart x.reward, copies-rewarded apart xs)

    copies-first_of :
        (n : ℕ) (xs ys : List (Graded F)) → copies (first_of n xs ys) ≤ copies xs + copies ys
    copies-first_of n xs ys = omega (
      arith,
      copies-append (take n xs) (take (n - length (take n xs)) ys),
      copies-take n xs,
      copies-take (n - length (take n xs)) ys,
    )

    copies-compose :
        TellsApart
        → (k : ℕ) (xs : List (Graded F)) → copies (compose k (buckets_of fl xs)) ≤ copies xs
    unfolding buckets_of
    copies-compose apart k xs =
        let part = λ (n : ℕ) (value : ℤ).
          copies-first_of n (by_key fl (bt_key fl) (rewarded fl true value xs))
            (by_key fl (nonbt_key fl) (rewarded fl false value xs)) in
        let bucket = λ (f : Graded F → F × F) (b : Bool) (value : ℤ).
          copies-sorted (λ r s. pair_le fl (f r) (f s)) (rewarded fl b value xs) in
        omega (
          arith,
          copies-append
              (first_of k (by_key fl (bt_key fl) (rewarded fl true (pos 1) xs))
                (by_key fl (nonbt_key fl) (rewarded fl false (pos 1) xs)))
              (first_of (m_rollouts - k) (by_key fl (bt_key fl) (rewarded fl true (pos 0) xs))
                (by_key fl (nonbt_key fl) (rewarded fl false (pos 0) xs))),
          part k (pos 1),
          part (m_rollouts - k) (pos 0),
          bucket (bt_key fl) true (pos 1),
          bucket (nonbt_key fl) false (pos 1),
          bucket (bt_key fl) true (pos 0),
          bucket (nonbt_key fl) false (pos 0),
          copies-rewarded apart xs,
        )

    copies-select_binary :
        TellsApart
        → (c : Filters F) (ks : List ℕ) (xs subset : List (Graded F)) (k : Option ℕ)
        → select_binary c ks (buckets_of fl xs) ≡ some (subset, k)
        → copies subset ≤ copies xs
    unfolding select_binary
    copies-select_binary apart c [] xs subset k h = absurd (cc)
    copies-select_binary apart c (j ∷ ks) xs subset k h =
        elim (Bool-cases (composes c j (buckets_of fl xs))) [
          | inl e ↦
              let t : some (compose j (buckets_of fl xs), some j) ≡ some (subset, k) =
                rw (e, select_binary) at h in
              let p : compose j (buckets_of fl xs) ≡ subset = cc in
              rw (← p) (copies-compose apart j xs)
          | inr e ↦ copies-select_binary apart c ks xs subset k (rw (e, select_binary) at h)
        ]

    copies-select_continuous_subset :
        (rollouts subset : List (Graded F)) (target : F)
        → select_continuous_subset fl rollouts m_rollouts target ≡ some subset
        → copies subset ≤ copies rollouts
    unfolding select_continuous_subset
    copies-select_continuous_subset rollouts subset target h =
        let ordered = sorted (λ a b. not (fl.lt b.reward a.reward)) rollouts in
        let p : extremes fl m_rollouts ordered ≡ subset = ground arith in
        let big : m_rollouts ≤ length rollouts = ground arith in
        rw (← p) (
          omega (
            arith,
            big,
            length-sorted (λ a b. not (fl.lt b.reward a.reward)) rollouts,
            copies-append (take 4 ordered) (drop (length ordered - 4) ordered),
            copies_ends 4 (length ordered - 4) ordered
                (omega (arith, big, length-sorted (λ a b. not (fl.lt b.reward a.reward)) rollouts)),
            copies-sorted (λ a b. not (fl.lt b.reward a.reward)) rollouts,
          ))

    copies-select_from_kept :
        TellsApart
        → (c : Filters F) (continuous : Bool) (kept subset : List (Graded F)) (k : Option ℕ)
        → select_from_kept fl c continuous kept ≡ some (subset, k)
        → copies subset ≤ copies kept
    unfolding select_from_kept within_budget
    copies-select_from_kept apart c false kept subset k h =
        copies-select_binary apart c (k_order c) kept subset k h
    copies-select_from_kept apart c true kept subset k h = picked _ refl h
      where
        pool : List (Graded F)
        pool =
            if leb m_rollouts (length (keep (λ r. r.bt_ok) kept))
            then keep (λ r. r.bt_ok) kept
            else kept

        picked :
            (o : Option (List (Graded F)))
            → select_continuous_subset fl pool m_rollouts c.sigma_target ≡ o
            → within_budget c o ≡ some (subset, k)
            → copies subset ≤ copies kept
        picked none e b = absurd (cc)
        picked (some s) e b =
            let p : s ≡ subset = ground arith in
            let q = copies-select_continuous_subset pool s c.sigma_target e in
            let inside : copies pool ≤ copies kept =
              ground (arith, copies-keep (λ r. r.bt_ok) kept) in
            rw (← p) (omega (arith, q, inside))

    -- A group that is composed for a submission, of binary or of continuous rewards, has no two
    -- rollouts whose tokens have the same digest, whatever repetitions there are among the
    -- rollouts given. Of the floats it is assumed that none equals both 1 and 0.
    pub copies-try_select :
        TellsApart
        → (c : Filters F) (env_name : Option String) (continuous : Bool)
          (rollouts subset : List (Graded F)) (k : Option ℕ)
        → try_select fl c digest env_name continuous rollouts ≡ some (subset, k)
        → copies subset ≤ 1
    unfolding try_select
    copies-try_select apart c env_name continuous rollouts subset k h =
        let from_kept : select_from_kept fl c continuous (kept_of fl c digest env_name rollouts)
            ≡ some (subset, k) =
          ground arith in
        omega (
          arith,
          copies-select_from_kept apart c continuous (kept_of fl c digest env_name rollouts) subset
              k from_kept,
          copies-kept_of c env_name rollouts,
        )
