-- ===== src/Validator/Batcher/Sealing.antt =====
-- `seal_batch` (validator/batcher.py) on a state that the window's calls may leave.
use subnet.Base.{
  ℕ, zero, suc, pos, ℤ, ◌-ℤ◌, ltb_ℤ, Bool, not, ◌&&◌, some, List, [], ◌∷◌, map, if◌then◌else◌, ◌==◌,
  nat_eq, int_eq, elem, length, take, All, In, Distinct, ◌≡◌, inl, inr, refl, sym, ap, subst, arith,
  String, min, ◌∙◌, length-take, length-sorted, Bool-cases, map-In, In-map, All-In, All-of_In,
  In-of_elem, sorted, insert_sorted, In-insert_sorted, In-sorted,
}
use subnet.Base.Dict
use subnet.Base.Float.{Float}
use subnet.Protocol.Bytes.{Bytes}
use subnet.Validator.Accepted.{ValidSubmission}
use subnet.Validator.Cooldown.{CooldownMap, record_batched, record_all, is_recent, is_in_cooldown}
use subnet.Validator.Selection.{order_le, select_from, select_batch}
use subnet.Validator.Selection.Fifo.{prompts, Eligible}
use subnet.Validator.Batcher.Checks.{World}
use subnet.Validator.Batcher.State.{Batcher, seal_batch}
use subnet.Validator.Batcher.Claims.{IsConsistent}

module _ {F : Type 0} (le : ValidSubmission F → ValidSubmission F → Bool) where
  Distinct-insert_sorted :
      (x : ValidSubmission F) (ys : List (ValidSubmission F))
      → (¬ In x.prompt_idx (prompts ys))
      → Distinct (prompts ys)
      → Distinct (prompts (insert_sorted le x ys))
  Distinct-insert_sorted x [] n d = ((λ m. absurd m), tt)
  Distinct-insert_sorted x (y ∷ ys) n d = elim (Bool-cases (le x y)) [
    | inl before ↦ rw before (n, d)
    | inr after ↦ rw after (
      (λ m.
          let (s, inside, e) = map-In (λ t. t.prompt_idx) y.prompt_idx (insert_sorted le x ys) m in
          elim (In-insert_sorted le s x ys inside) [
            | inl same ↦ n (inl (cc))
            | inr later ↦
                d.0 (subst (λ i. In i (prompts ys)) (sym e) (In-map (λ t. t.prompt_idx) s ys later))
          ]),
      Distinct-insert_sorted x ys (λ m. n (inr m)) d.1,
    )
  ]

  Distinct-sorted :
      (xs : List (ValidSubmission F)) → Distinct (prompts xs) → Distinct (prompts (sorted le xs))
  unfolding sorted
  Distinct-sorted [] d = tt
  Distinct-sorted (x ∷ xs) (new, d) =
      Distinct-insert_sorted x (sorted le xs)
        (λ m.
          let (s, inside, e) = map-In (λ t. t.prompt_idx) x.prompt_idx (sorted le xs) m in
          new (
            subst (λ i. In i (prompts xs)) (sym e)
              (In-map (λ t. t.prompt_idx) s xs (In-sorted le s xs inside))))
        (Distinct-sorted xs d)

module _ {F : Type 0} (fl : Float F) (sha256 : Bytes → Bytes) (encode : String → Bytes)
    (cd : CooldownMap) (window : ℕ) where
  -- Where every prompt may stand in the batch, the loop takes all it has room for.
  select_from-All :
      (room : ℕ) (seen : List ℕ) (subs : List (ValidSubmission F))
      → Distinct (prompts subs)
      → All (Eligible cd window) subs
      → ((p : ℕ) → In p (prompts subs) → ¬ In p seen)
      → select_from fl sha256 encode cd window room seen subs ≡ take room subs
  unfolding select_from
  select_from-All zero seen [] d h n = refl
  select_from-All (suc room) seen [] d h n = refl
  select_from-All zero seen (x ∷ subs) d h n = refl
  select_from-All (suc room) seen (x ∷ subs) (new, d) (h, hs) n =
      elim (Bool-cases (elem x.prompt_idx seen)) [
        | inl old ↦ absurd (n x.prompt_idx (inl refl) (In-of_elem x.prompt_idx seen old))
        | inr fresh ↦
            rw (select_from, fresh, h)
              (ap (λ ys. x ∷ ys)
                (select_from-All room (x.prompt_idx ∷ seen) subs d hs (λ p m old. elim old [
                  | inl same ↦ new (subst (λ i. In i (prompts subs)) same m)
                  | inr older ↦ n p (inr m) older
                ])))
      ]

abbrev pub indices : {F : Type 0} → List (ValidSubmission F) → List ℤ
indices subs = map (λ s. pos s.prompt_idx) subs

record_batched_natural :
    (i w : ℕ) (m : CooldownMap)
    → record_batched (pos i) (pos w) m
      ≡ some (record m { last_batched = Dict.set (pos i) (pos w) m.last_batched })
unfolding record_batched
record_batched_natural i w m = ground arith

-- The loop of `seal_batch` records every prompt and touches no other.
pub record_all_batch :
    {F : Type 0} (w : ℕ) (subs : List (ValidSubmission F)) (m : CooldownMap)
    → (m' : CooldownMap) × (record_all (pos w) (indices subs) m ≡ some m')
      × (m'.cooldown_windows ≡ m.cooldown_windows)
      × ((p : ℤ)
          → Dict.lookup p m'.last_batched
            ≡ (if elem p (indices subs) then some (pos w) else Dict.lookup p m.last_batched))
unfolding record_all
record_all_batch w [] m = (m, refl, refl, λ p. refl)
record_all_batch w (s ∷ subs) m =
    let m1 : CooldownMap = record m {
      last_batched = Dict.set (pos s.prompt_idx) (pos w) m.last_batched;
    } in
    let (m', e, same, each) = record_all_batch w subs m1 in
    (
      m',
      rw (record_all, record_batched_natural s.prompt_idx w m) e,
      same,
      λ p. ground (arith, each p, Dict.lookup-set p (pos s.prompt_idx) (pos w) m.last_batched),
    )

-- The cooldown after the batch: its prompts are out for `cooldown_windows` windows.
abbrev pub CoolsDown :
    {F : Type 0} → ℕ → List (ValidSubmission F) → CooldownMap → CooldownMap → Type 0
CoolsDown w batch m m' =
    (p c : ℤ)
    → is_in_cooldown p c m' ≡ (
        if elem p (indices batch)
        then not (m.cooldown_windows == 0) && ltb_ℤ (c -ℤ pos w) (pos m.cooldown_windows)
        else is_in_cooldown p c m)

record_all-CoolsDown :
    {F : Type 0} (w : ℕ) (subs : List (ValidSubmission F)) (m : CooldownMap)
    → (m' : CooldownMap) × (record_all (pos w) (indices subs) m ≡ some m') × CoolsDown w subs m m'
unfolding is_in_cooldown is_recent
record_all-CoolsDown w subs m =
    let (m', e, same, each) = record_all_batch w subs m in (m', e, λ p c. ground (arith, each p))

module _ {F : Type 0} (w : World F) where
  -- The batch: the first eight submissions by arrival.
  abbrev pub earliest : Batcher F → List (ValidSubmission F)
  earliest b = take 8 (sorted (order_le w.fl w.hashes.sha256 w.encode) b.valid)

  select_batch-earliest :
      (cooldown : CooldownMap) (b : Batcher F)
      → IsConsistent w cooldown b
      → select_batch w.fl w.hashes.sha256 w.encode b.valid 8 b.window_start cooldown ≡ earliest b
  unfolding select_batch
  select_batch-earliest cooldown b c =
      let le = order_le w.fl w.hashes.sha256 w.encode in
      select_from-All w.fl w.hashes.sha256 w.encode cooldown b.window_start 8 [] (sorted le b.valid)
        (Distinct-sorted le b.valid c.distinct)
        (All-of_In _ (sorted le b.valid) (λ s m.
          All-In (Eligible cooldown b.window_start) b.valid c.eligible (In-sorted le s b.valid m)))
        (λ p m old. absurd old)

  -- In a consistent state `seal_batch` raises nothing; its batch is the first eight submissions in
  -- the order of arrival, or all if there are fewer; afterwards each prompt of the batch is in
  -- cooldown for the windows less than `cooldown_windows` after this one, and the cooldown of
  -- every other prompt is what it was.
  pub seal_batch-IsConsistent :
      (cooldown : CooldownMap) (b : Batcher F)
      → IsConsistent w cooldown b
      → (cooldown' : CooldownMap) × (seal_batch w cooldown b ≡ some (earliest b, cooldown'))
        × (length (earliest b) ≡ min 8 (length b.valid))
        × CoolsDown b.window_start (earliest b) cooldown cooldown'
  unfolding seal_batch
  seal_batch-IsConsistent cooldown b c =
      let (cooldown', e, cools) = record_all-CoolsDown b.window_start (earliest b) cooldown in
      (
        cooldown',
        rw (seal_batch, select_batch-earliest cooldown b c, e, select_batch-earliest cooldown b c)
            refl,
        (length-take 8 (sorted (order_le w.fl w.hashes.sha256 w.encode) b.valid)
            ∙ ap (min 8) (length-sorted (order_le w.fl w.hashes.sha256 w.encode) b.valid)),
        cools,
      )
