-- ===== src/Validator/Service/Spacing.antt =====
-- validator/service.py over validator/batcher.py and validator/cooldown.py: what the cooldown means
-- for the batches that the service seals, window after window.
pub mod Runs
pub mod Restart
use subnet.Base.{
  ℕ, String, suc, ◌+◌, ◌-ℤ◌, -ℤ_parts, ◌≤◌, ◌<◌, pos, ℤ, Bool, true, false, not, Option, none, some,
  List, [], ◌∷◌, if◌then◌else◌, ◌==◌, nat_eq, int_eq, elem, map, In, In-map, map-In, elem_of_In,
  get_elem?, ◌≡◌, ◌⊎◌, inl, inr, refl, sym, ap, subst, ◌∙◌, arith, Bool-cases, leb, length,
}
use subnet.Base.Dict
use subnet.Base.Dict.{Dict}
use subnet.Base.Maybe.{some_pair}
use subnet.Base.Float.{Float}
use subnet.Protocol.Constants.{b_batch}
use subnet.Validator.Accepted.{ValidSubmission}
use subnet.Validator.Cooldown.{CooldownMap, record_all, is_in_cooldown, is_recent}
use subnet.Validator.Selection.{select_batch}
use subnet.Validator.Selection.Fifo.{prompts, Eligible, select_batch-Selected}
use subnet.Validator.Batcher.Checks.{World}
use subnet.Validator.Batcher.State.{Batcher, seal_batch}
use subnet.Validator.Service
use subnet.Validator.Service.{Service, Config, Phase}
use subnet.Protocol.Reason.{WindowState}
use subnet.Validator.Server.{ManifestEntry}
use subnet.Validator.Server.Stamps.{stamp, get_elem?-map}
use subnet.Validator.Ema.{update_ema}
use subnet.Validator.Service.Coherence.{Coherent, StandsAt, Reach-Coherent}
use subnet.Validator.Service.Steps.{
  start, Advance, Serve, Step, Reach, opens, randomizes, seals, publishes, archives, weighs, fails,
  submits, works, advance, serve, here, next,
}
use subnet.Validator.Service.Replies.{in_window}
use subnet.Validator.Batcher.Sealing.{indices, record_all_batch}

-- No prompt is in batches of two windows that are less than `cd` apart; the newest batch is first.
abbrev pub Spaced : {F : Type 0} → ℕ → List (ℕ × List (ValidSubmission F)) → Type 0
Spaced cd [] = Unit
Spaced cd ((w, batch) ∷ earlier) =
    ((v : ℕ) (old : List (ValidSubmission _)) (p : ℕ)
      → In (v, old) earlier
      → In p (prompts old)
      → In p (prompts batch)
      → (v < w) × (v + cd ≤ w))
    × Spaced cd earlier

-- A prompt that is recorded and not in cooldown was recorded `cooldown_windows` windows ago.
recorded-spaced :
    (p v w : ℕ) (m : CooldownMap)
    → is_in_cooldown (pos p) (pos w) m ≡ false
    → Dict.lookup (pos p) m.last_batched ≡ some (pos v)
    → v ≤ w
    → v + m.cooldown_windows ≤ w
unfolding is_in_cooldown is_recent
recorded-spaced p v w m ok e le = ground (arith, -ℤ_parts (pos w) (pos v))

elem-indices :
    {F : Type 0} (p : ℕ) (batch : List (ValidSubmission F))
    → In p (prompts batch)
    → elem (pos p) (indices batch) ≡ true
elem-indices p batch now =
    let (t, inside, this) = map-In (λ t. t.prompt_idx) p batch now in
    subst (λ k. elem (pos k) (indices batch) ≡ true) (sym this)
      (elem_of_In (pos t.prompt_idx) (indices batch)
        (In-map (λ t. pos t.prompt_idx) t batch inside))

module _ {F : Type 0} where
  -- The log and the cooldown map before the window `horizon` is sealed: each prompt of a logged
  -- batch is in the map, with that window or a later one, or its time is over.
  pub record IsSpaced (cd : ℕ) (m : CooldownMap) (sealed : List (ℕ × List (ValidSubmission F)))
      (horizon : ℕ) : Type 0 where
    pub windows : m.cooldown_windows ≡ cd
    pub past : (w : ℕ) (batch : List (ValidSubmission F)) → In (w, batch) sealed → w < horizon
    pub recorded :
        (w : ℕ) (batch : List (ValidSubmission F)) (p : ℕ)
        → In (w, batch) sealed
        → In p (prompts batch)
        → ((v : ℕ) × (Dict.lookup (pos p) m.last_batched ≡ some (pos v)) × (w ≤ v) × (v < horizon))
          ⊎ (w + cd ≤ horizon)
    pub spaced : Spaced cd sealed

  recorded_batch-IsSpaced :
      (cd : ℕ) (m m' : CooldownMap) (n : ℕ) (sealed : List (ℕ × List (ValidSubmission F)))
      (batch : List (ValidSubmission F))
      → IsSpaced cd m sealed n
      → ((t : ValidSubmission F) → In t batch → Eligible m n t)
      → m'.cooldown_windows ≡ m.cooldown_windows
      → ((p : ℤ)
          → Dict.lookup p m'.last_batched
            ≡ (if elem p (indices batch) then some (pos n) else Dict.lookup p m.last_batched))
      → IsSpaced cd m' ((n, batch) ∷ sealed) (suc n)
  recorded_batch-IsSpaced cd m m' n sealed batch s eligible same each = record {
    windows = same ∙ s.windows;
    past = λ w old mem. elim mem [
      | inl this ↦ omega (arith, ap (λ v. v.0) this)
      | inr earlier ↦ omega (arith, s.past w old earlier)
    ];
    recorded = λ w old p mem inside. elim mem [
      | inl this ↦
          let now : elem (pos p) (indices batch) ≡ true =
            elem-indices p batch (subst (λ v. In p (prompts v.1)) this inside) in
          inl (n, each (pos p) ∙ rw now refl, omega (arith, ap (λ v. v.0) this), omega arith)
      | inr earlier ↦ elim (s.recorded w old p earlier inside) [
        | inr expired ↦ inr (omega (arith, expired))
        | inl (v, e, le, lt) ↦ elim (Bool-cases (elem (pos p) (indices batch))) [
          | inl now ↦
              inl (n, each (pos p) ∙ rw now refl, omega (arith, s.past w old earlier), omega arith)
          | inr other ↦ inl (v, each (pos p) ∙ rw other e, le, omega (arith, lt))
        ]
      ]
    ];
    spaced = (
      λ v old p mem before now. elim (s.recorded v old p mem before) [
        | inr expired ↦ (s.past v old mem, expired)
        | inl (u, e, le, lt) ↦
            let (t, inside, this) = map-In (λ t. t.prompt_idx) p batch now in
            let free : is_in_cooldown (pos p) (pos n) m ≡ false =
              subst (λ k. is_in_cooldown (pos k) (pos n) m ≡ false) (sym this)
                (eligible t inside) in
            let apart : u + m.cooldown_windows ≤ n =
              recorded-spaced p u n m free e (omega (arith, lt)) in
            (s.past v old mem, omega (arith, apart, le, s.windows))
      ],
      s.spaced,
    );
  }

  pub seal_batch-IsSpaced :
      (w : World F) (cd : ℕ) (m m' : CooldownMap) (b : Batcher F)
      (sealed : List (ℕ × List (ValidSubmission F))) (batch : List (ValidSubmission F))
      → seal_batch w m b ≡ some (batch, m')
      → IsSpaced cd m sealed b.window_start
      → IsSpaced cd m' ((b.window_start, batch) ∷ sealed) (suc b.window_start)
  unfolding seal_batch
  seal_batch-IsSpaced w cd m m' b sealed batch e s =
      let chosen = select_batch w.fl w.hashes.sha256 w.encode b.valid b_batch b.window_start m in
      let (n, recorded, same, each) = record_all_batch b.window_start chosen m in
      let (few, diff, eligible) =
        select_batch-Selected w.fl w.hashes.sha256 w.encode m b.window_start b.valid b_batch in
      let sealed_batch : seal_batch w m b ≡ some (chosen, n) = rw (seal_batch, recorded) refl in
      let (is_batch, is_map) = some_pair (seal_batch w m b) chosen batch n m' sealed_batch e in
      subst (λ k. IsSpaced cd k ((b.window_start, batch) ∷ sealed) (suc b.window_start)) is_map
        (subst (λ k. IsSpaced cd n ((b.window_start, k) ∷ sealed) (suc b.window_start)) is_batch
          (recorded_batch-IsSpaced cd m n b.window_start sealed chosen s
            (λ t mem. (eligible t mem).1) same each))
