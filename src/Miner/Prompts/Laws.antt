-- ===== src/Miner/Prompts/Laws.antt =====
-- miner/engine.py: which prompts `pick_prompt_idx` may return, and when it finds one.
use subnet.Base.{
  keep-In, In-keep, ℕ, zero, suc, ◌+◌, ◌-◌, ◌*◌, ◌≤◌, ◌<◌, min, Bool, true, false, not, ◌&&◌,
  Option, none, some, List, [], ◌∷◌, nat_eq, elem, keep, length, get_elem?, ltb, leb, ◌≡◌, refl,
  subst, arith, In, inl, inr, Bool-cases, Option-cases,
}
use subnet.Miner.Prompts.{
  Draws, accept_draw, try_draws, range_from, choose_from, choose_eligible, pick_in_range,
  pick_in_pool, confined_or, confine, pick_confined, pick_prompt_idx,
}

get_elem?-In : (xs : List ℕ) (i a : ℕ) → get_elem? xs i ≡ some a → In a xs
get_elem?-In [] i a h = absurd (cc)
get_elem?-In (x ∷ xs) zero a h = inl (cc)
get_elem?-In (x ∷ xs) (suc i) a h = inr (get_elem?-In xs i a h)

pub range_from-In : (a lo count : ℕ) → In a (range_from lo count) → (lo ≤ a) × (a < lo + count)
unfolding range_from
range_from-In a lo zero m = absurd m
range_from-In a lo (suc count) (inl e) = ground arith
range_from-In a lo (suc count) (inr m) = ground (arith, range_from-In a (lo + 1) count m)

In-range_from : (a lo count : ℕ) → lo ≤ a → a < lo + count → In a (range_from lo count)
unfolding range_from
In-range_from a lo zero h k = absurd (omega arith)
In-range_from a lo (suc count) h k = elim (Bool-cases (leb a lo)) [
  | inl e ↦ inl (ground arith)
  | inr e ↦ inr (In-range_from a (lo + 1) count (ground arith) (omega arith))
]

-- What the draws satisfy, and not in cooldown.
try_draws_sound :
    (P : ℕ → Type 0) (attempts i : ℕ) (draw : ℕ → Option ℕ) (cooldown : List ℕ) (idx : ℕ)
    → ((j a : ℕ) → draw j ≡ some a → P a)
    → try_draws attempts i draw cooldown ≡ some idx
    → P idx × (elem idx cooldown ≡ false)
unfolding try_draws accept_draw
try_draws_sound P zero i draw cooldown idx good h = absurd (cc)
try_draws_sound P (suc attempts) i draw cooldown idx good h = elim (Option-cases (draw i)) [
  | inl n ↦ absurd (ground arith)
  | inr (a, e) ↦ elim (Bool-cases (elem a cooldown)) [
    | inl c ↦ try_draws_sound P attempts (i + 1) draw cooldown idx good (ground arith)
    | inr c ↦ let same : a ≡ idx = ground arith in (subst P same (good i a e), rw (← same) c)
  ]
]

choose_from-In : (rng : Draws) (xs : List ℕ) (idx : ℕ) → choose_from rng xs ≡ some idx → In idx xs
unfolding choose_from
choose_from-In rng [] idx e = absurd (cc)
choose_from-In rng (x ∷ xs) idx e = get_elem?-In (x ∷ xs) _ idx e

not-eq_true : (b : Bool) → not b ≡ true → b ≡ false
not-eq_true true h = absurd (cc)
not-eq_true false h = refl

choose_eligible_sound :
    (rng : Draws) (pool cooldown : List ℕ) (idx : ℕ)
    → choose_eligible rng pool cooldown ≡ some idx
    → In idx pool × (elem idx cooldown ≡ false)
unfolding choose_eligible
choose_eligible_sound rng pool cooldown idx h =
    let (m, q) = keep-In (λ a. not (elem a cooldown)) idx pool (choose_from-In rng _ idx h) in
    (m, not-eq_true (elem idx cooldown) q)

get_elem?_total : (xs : List ℕ) (i : ℕ) → i < length xs → (a : ℕ) × (get_elem? xs i ≡ some a)
get_elem?_total [] i h = absurd (omega arith)
get_elem?_total (x ∷ xs) zero h = (x, refl)
get_elem?_total (x ∷ xs) (suc i) h = get_elem?_total xs i (omega arith)

-- `random.choice` takes a place that is in the list.
abbrev pub Chooses : Draws → Type 0
Chooses rng = (n : ℕ) → 0 < n → rng.choice n < n

choose_eligible_total :
    (rng : Draws) (pool cooldown : List ℕ) (idx : ℕ)
    → Chooses rng
    → In idx pool
    → elem idx cooldown ≡ false
    → (found : ℕ) × (choose_eligible rng pool cooldown ≡ some found)
unfolding choose_eligible
choose_eligible_total rng pool cooldown idx c m e =
    some_of (keep (λ a. not (elem a cooldown)) pool) (In-keep _ idx pool m (rw e refl))
  where
    some_of : (xs : List ℕ) → In idx xs → (found : ℕ) × (choose_from rng xs ≡ some found)
    some_of [] n = absurd n
    some_of (x ∷ xs) n = unfold choose_from in get_elem?_total (x ∷ xs) _ (c _ (omega arith))

-- A prompt of the range that is not in cooldown; of the given prompts, where no range confines them.
abbrev pub IsEligible : ℕ → List ℕ → Option (List ℕ) → Option (ℕ × ℕ) → ℕ → Type 0
IsEligible n cooldown none none idx = (idx < n) × (elem idx cooldown ≡ false)
IsEligible n cooldown (some pool) none idx = In idx pool × (elem idx cooldown ≡ false)
IsEligible n cooldown pool (some (lo, hi)) idx =
    ((lo ≤ idx) × (idx < min n hi)) × (elem idx cooldown ≡ false)

pick_in_range_sound :
    (rng : Draws) (max_attempts : ℕ) (cooldown : List ℕ) (lo hi idx : ℕ)
    → ((i m : ℕ) → 0 < m → rng.randrange i m < m)
    → pick_in_range rng max_attempts cooldown lo hi ≡ some idx
    → ((lo ≤ idx) × (idx < hi)) × (elem idx cooldown ≡ false)
unfolding pick_in_range
pick_in_range_sound rng max_attempts cooldown lo hi idx r h =
    elim (Bool-cases (ltb (2 * length cooldown) (hi - lo))) [
      | inl e ↦
          try_draws_sound (λ a. (lo ≤ a) × (a < hi)) max_attempts 0 _ cooldown idx
            (λ j a d. let below = r j (hi - lo) (ground arith) in ground arith) (rw e at h)
      | inr e ↦
          let (m, c) =
            choose_eligible_sound rng (range_from lo (hi - lo)) cooldown idx (rw e at h) in
          (let (p, q) = range_from-In idx lo (hi - lo) m in (p, omega arith), c)
    ]

pick_in_pool_sound :
    (rng : Draws) (max_attempts : ℕ) (cooldown pool : List ℕ) (idx : ℕ)
    → pick_in_pool rng max_attempts cooldown pool ≡ some idx
    → In idx pool × (elem idx cooldown ≡ false)
unfolding pick_in_pool
pick_in_pool_sound rng max_attempts cooldown pool idx h =
    elim (Bool-cases (ltb (2 * length cooldown) (length pool))) [
      | inl e ↦
          try_draws_sound (λ a. In a pool) max_attempts 0 _ cooldown idx
            (λ j a d. get_elem?-In pool _ a d) (rw e at h)
      | inr e ↦ choose_eligible_sound rng pool cooldown idx (rw e at h)
    ]

confine-In : (pool : List ℕ) (lo hi a : ℕ) → In a (confine pool lo hi) → (lo ≤ a) × (a < hi)
unfolding confine
confine-In pool lo hi a m =
    confined (keep (λ i. leb lo i && ltb i hi) pool) (λ k. (keep-In _ a pool k).1) m
  where
    confined :
        (kept : List ℕ)
        → (In a kept → (leb lo a && ltb a hi) ≡ true)
        → In a (confined_or kept lo hi)
        → (lo ≤ a) × (a < hi)
    confined [] t k =
        let (p, q) = range_from-In a lo (hi - lo) (unfold confined_or in k) in (p, omega arith)
    confined (x ∷ kept) t k = let both = t (unfold confined_or in k) in ground arith

pick_confined_sound :
    (rng : Draws) (max_attempts : ℕ) (cooldown : List ℕ) (pool : Option (List ℕ)) (lo hi idx : ℕ)
    → ((i m : ℕ) → 0 < m → rng.randrange i m < m)
    → pick_confined rng max_attempts cooldown pool lo hi ≡ some idx
    → ((lo ≤ idx) × (idx < hi)) × (elem idx cooldown ≡ false)
unfolding pick_confined
pick_confined_sound rng max_attempts cooldown none lo hi idx r h =
    pick_in_range_sound rng max_attempts cooldown lo hi idx r h
pick_confined_sound rng max_attempts cooldown (some pool) lo hi idx r h =
    let (m, c) = pick_in_pool_sound rng max_attempts cooldown (confine pool lo hi) idx h in
    (confine-In pool lo hi idx m, c)

-- A prompt that is picked is not in cooldown. It lies in the prompt range and in the dataset where
-- a range is given, also if the environment's own list misses the range; with no range it is one
-- of that list, or any prompt of the dataset where there is no list.
pub pick_prompt_idx-IsEligible :
    (rng : Draws) (max_attempts : ℕ) (cooldown : List ℕ) (n : ℕ) (pool : Option (List ℕ))
    (range : Option (ℕ × ℕ)) (idx : ℕ)
    → ((i m : ℕ) → 0 < m → rng.randrange i m < m)
    → pick_prompt_idx rng max_attempts cooldown n pool range ≡ some idx
    → IsEligible n cooldown pool range idx
unfolding pick_prompt_idx
pick_prompt_idx-IsEligible rng max_attempts cooldown n none none idx r h =
    let (b, c) = pick_in_range_sound rng max_attempts cooldown 0 n idx r h in (b.1, c)
pick_prompt_idx-IsEligible rng max_attempts cooldown n (some pool) none idx r h =
    pick_in_pool_sound rng max_attempts cooldown pool idx h
pick_prompt_idx-IsEligible rng max_attempts cooldown n none (some (lo, hi)) idx r h =
    elim (Bool-cases (leb (min n hi) lo)) [
      | inl e ↦ absurd (ground arith)
      | inr e ↦ pick_confined_sound rng max_attempts cooldown none lo (min n hi) idx r (rw e at h)
    ]
pick_prompt_idx-IsEligible rng max_attempts cooldown n (some pool) (some (lo, hi)) idx r h =
    elim (Bool-cases (leb (min n hi) lo)) [
      | inl e ↦ absurd (ground arith)
      | inr e ↦
          pick_confined_sound rng max_attempts cooldown (some pool) lo (min n hi) idx r (rw e at h)
    ]

-- In a prompt range of which at least half is in cooldown, a prompt is found as soon as one prompt
-- of the range and of the dataset is not in cooldown.
pick_prompt_idx_found :
    (rng : Draws) (max_attempts : ℕ) (cooldown : List ℕ) (n lo hi idx : ℕ)
    → Chooses rng
    → min n hi - lo ≤ 2 * length cooldown
    → IsEligible n cooldown none (some (lo, hi)) idx
    → (found : ℕ) × (pick_prompt_idx rng max_attempts cooldown n none (some (lo, hi)) ≡ some found)
unfolding pick_prompt_idx pick_confined pick_in_range
pick_prompt_idx_found rng max_attempts cooldown n lo hi idx c full (inside, free) =
    let some_left : leb (min n hi) lo ≡ false = ground arith in
    let listed : ltb (2 * length cooldown) (min n hi - lo) ≡ false = ground arith in
    rw (some_left, listed)
      (choose_eligible_total rng (range_from lo (min n hi - lo)) cooldown idx c
        (In-range_from idx lo (min n hi - lo) inside.0 (omega arith)) free)
