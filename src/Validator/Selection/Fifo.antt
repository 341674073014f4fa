-- ===== src/Validator/Selection/Fifo.antt =====
-- What a selected batch holds, and that the earliest eligible submissions get the slots.
use subnet.Base.{
  ℕ, zero, suc, ◌≤◌, pos, true, false, List, [], ◌∷◌, map, ◌==◌, nat_eq, nat_beq_iff, String, elem,
  sorted, length, ◌≡◌, ◌⊎◌, inl, inr, refl, ap, eq_of_beq, sym, subst, arith, In, All, All-In,
  Distinct, IsSorted, sorted-IsSorted, In-sorted, sorted-In, In-of_elem, not_In_of_elem, Bool-cases,
  map-In,
}
use subnet.Base.Float.{Float}
use subnet.Protocol.Bytes.{Bytes}
use subnet.Validator.Accepted.{ValidSubmission}
use subnet.Validator.Cooldown.{CooldownMap, is_in_cooldown}
use subnet.Validator.Selection.{order_le, select_from, select_batch}
use subnet.Validator.Selection.Order.{IsRanked, order_total, order_trans}

abbrev pub prompts : {F : Type 0} → List (ValidSubmission F) → List ℕ
prompts subs = map (λ s. s.prompt_idx) subs

-- The prompt may enter a batch of this window.
abbrev pub Eligible : {F : Type 0} → CooldownMap → ℕ → ValidSubmission F → Type 0
Eligible cooldown_map window s = is_in_cooldown (pos s.prompt_idx) (pos window) cooldown_map ≡ false

module _ {F : Type 0} (fl : Float F) (sha256 : Bytes → Bytes) (encode : String → Bytes)
    (cd : CooldownMap) (window : ℕ) where
  -- A batch that came out of `subs` with `room` slots, when the prompts `seen` were taken.
  abbrev pub Selected : ℕ → List ℕ → List (ValidSubmission F) → List (ValidSubmission F) → Type 0
  Selected room seen subs batch =
      (length batch ≤ room)
      × Distinct (prompts batch)
      × ((s : ValidSubmission F)
          → In s batch
          → In s subs × Eligible cd window s × (¬ In s.prompt_idx seen))

  pass_over :
      (room : ℕ) (seen : List ℕ) (x : ValidSubmission F) (subs batch : List (ValidSubmission F))
      → Selected room seen subs batch
      → Selected room seen (x ∷ subs) batch
  pass_over room seen x subs batch (few, diff, each) =
      (few, diff, λ s m. let (inside, ok, new) = each s m in (inr inside, ok, new))

  take_in :
      (room : ℕ) (seen : List ℕ) (x : ValidSubmission F) (subs batch : List (ValidSubmission F))
      → (¬ In x.prompt_idx seen)
      → Eligible cd window x
      → Selected room (x.prompt_idx ∷ seen) subs batch
      → Selected (suc room) seen (x ∷ subs) (x ∷ batch)
  take_in room seen x subs batch new ok (few, diff, each) = (
    omega (arith, few),
    (
      (λ m.
          let (s, inside, same) = map-In (λ s. s.prompt_idx) x.prompt_idx batch m in
          (each s inside).2 (inl (sym same))),
      diff,
    ),
    λ s m. elim m [
      | inl same ↦ (
        inl same,
        subst (Eligible cd window) (sym same) ok,
        subst (λ t. ¬ In t.prompt_idx seen) (sym same) new,
      )
      | inr later ↦
          let (inside, fresh, other) = each s later in (inr inside, fresh, λ old. other (inr old))
    ],
  )

  select_from-Selected :
      (room : ℕ) (seen : List ℕ) (subs : List (ValidSubmission F))
      → Selected room seen subs (select_from fl sha256 encode cd window room seen subs)
  unfolding select_from
  select_from-Selected room seen [] = (omega arith, tt, λ s m. absurd m)
  select_from-Selected zero seen (x ∷ subs) = (omega arith, tt, λ s m. absurd m)
  select_from-Selected (suc room) seen (x ∷ subs) = elim (Bool-cases (elem x.prompt_idx seen)) [
    | inl again ↦
        rw (select_from, again)
          (pass_over (suc room) seen x subs _ (select_from-Selected (suc room) seen subs))
    | inr new ↦ elim (Bool-cases (is_in_cooldown (pos x.prompt_idx) (pos window) cd)) [
      | inl cooling ↦
          rw (select_from, new, cooling)
            (pass_over (suc room) seen x subs _ (select_from-Selected (suc room) seen subs))
      | inr ok ↦
          rw (select_from, new, ok)
            (take_in room seen x subs _ (not_In_of_elem x.prompt_idx seen new) ok
              (select_from-Selected room (x.prompt_idx ∷ seen) subs))
    ]
  ]

  -- The batch has at most `b` submissions, no two for one prompt, each one of those submitted and
  -- for a prompt that is not in cooldown.
  pub select_batch-Selected :
      (submissions : List (ValidSubmission F)) (b : ℕ)
      → Selected b [] submissions (select_batch fl sha256 encode submissions b window cd)
  unfolding select_batch
  select_batch-Selected submissions b =
      let (few, diff, each) =
        select_from-Selected b [] (sorted (order_le fl sha256 encode) submissions) in
      (
        few,
        diff,
        λ s m.
            let (inside, ok, new) = each s m in
            (In-sorted (order_le fl sha256 encode) s submissions inside, ok, new),
      )

  module _ (ranked : IsRanked fl) where
    -- The slot of `s` went to a submission for the same prompt that is not after it, or the
    -- batch is full of submissions that are not after it.
    abbrev pub Served : ℕ → ValidSubmission F → List (ValidSubmission F) → Type 0
    Served room s batch =
        ((m : ValidSubmission F) × In m batch
          × (m.prompt_idx ≡ s.prompt_idx)
          × (order_le fl sha256 encode m s ≡ true))
        ⊎ ((length batch ≡ room) × All (λ m. order_le fl sha256 encode m s ≡ true) batch)

    order_refl : (s : ValidSubmission F) → order_le fl sha256 encode s s ≡ true
    order_refl s = elim (order_total fl sha256 encode ranked s s) [ inl h ↦ h | inr h ↦ h ]

    serve_later :
        (room : ℕ) (x s : ValidSubmission F) (batch : List (ValidSubmission F))
        → order_le fl sha256 encode x s ≡ true
        → Served room s batch
        → Served (suc room) s (x ∷ batch)
    serve_later room x s batch below (inl (m, inside, same, le)) = inl (m, inr inside, same, le)
    serve_later room x s batch below (inr (full, each)) = inr (ap suc full, (below, each))

    select_from-Served :
        (room : ℕ) (seen : List ℕ) (subs : List (ValidSubmission F)) (s : ValidSubmission F)
        → IsSorted (order_le fl sha256 encode) subs
        → In s subs
        → Eligible cd window s
        → (¬ In s.prompt_idx seen)
        → Served room s (select_from fl sha256 encode cd window room seen subs)
    unfolding select_from
    select_from-Served room seen [] s h m ok new = absurd m
    select_from-Served zero seen (x ∷ subs) s h m ok new = inr (refl, tt)
    select_from-Served (suc room) seen (x ∷ subs) s (first, later) m ok new =
        elim (Bool-cases (elem x.prompt_idx seen)) [
          | inl again ↦ elim m [
            | inl same ↦ absurd (
                new (
                  subst (λ t. In t.prompt_idx seen) (sym same)
                    (In-of_elem x.prompt_idx seen again)))
            | inr inside ↦
                rw (select_from, again)
                  (select_from-Served (suc room) seen subs s later inside ok new)
          ]
          | inr fresh ↦ elim (Bool-cases (is_in_cooldown (pos x.prompt_idx) (pos window) cd)) [
            | inl cooling ↦ elim m [
              | inl same ↦ absurd (cc (subst (Eligible cd window) same ok))
              | inr inside ↦
                  rw (select_from, fresh, cooling)
                    (select_from-Served (suc room) seen subs s later inside ok new)
            ]
            | inr free ↦
                rw (select_from, fresh, free)
                  (elim m [
                    | inl same ↦ inl (
                      x,
                      inl refl,
                      ap (λ t. t.prompt_idx) (sym same),
                      subst (λ t. order_le fl sha256 encode x t ≡ true) (sym same) (order_refl x),
                    )
                    | inr inside ↦ elim (Bool-cases (s.prompt_idx == x.prompt_idx)) [
                      | inl taken ↦ inl (
                        x,
                        inl refl,
                        sym (eq_of_beq s.prompt_idx x.prompt_idx taken),
                        All-In (λ t. order_le fl sha256 encode x t ≡ true) subs first inside,
                      )
                      | inr other ↦
                          serve_later room x s _
                            (All-In (λ t. order_le fl sha256 encode x t ≡ true) subs first inside)
                            (select_from-Served room (x.prompt_idx ∷ seen) subs s later inside ok
                              (λ old. elim old [
                                | inl same ↦
                                    absurd (cc ((nat_beq_iff s.prompt_idx x.prompt_idx).1 same))
                                | inr older ↦ new older
                              ]))
                    ]
                  ])
          ]
        ]

    -- First come, first served: whatever the submissions, the number `b` of slots, the window
    -- and the cooldown map, where arrival times are ranked: for each submission whose prompt is
    -- not in cooldown, `select_batch` picks a submission for the same prompt that is not after
    -- it, or fills all `b` slots with submissions that are not after it.
    pub select_batch-Served :
        (submissions : List (ValidSubmission F)) (b : ℕ) (s : ValidSubmission F)
        → In s submissions
        → Eligible cd window s
        → Served b s (select_batch fl sha256 encode submissions b window cd)
    unfolding select_batch
    select_batch-Served submissions b s m ok =
        select_from-Served b [] (sorted (order_le fl sha256 encode) submissions) s
          (sorted-IsSorted (order_le fl sha256 encode) (order_total fl sha256 encode ranked)
            (order_trans fl sha256 encode ranked) submissions)
          (sorted-In (order_le fl sha256 encode) s submissions m) ok (λ old. absurd old)
