-- ===== src/Validator/Cooldown/Rebuild.antt =====
-- `rebuild_from_history` against a description of the map that does not depend on the order of
-- the archives.
use subnet.Base.{
  ℕ, ℤ, pos, negsuc, ◌-ℤ◌, ◌≤ℤ◌, ◌<◌, All-In, ◌<ℤ◌, -ℤ_parts, ltb_ℤ, leb_ℤ, Bool, true, false,
  Option, none, some, List, [], ◌∷◌, if◌then◌else◌, ◌==◌, ◌&&◌, ◌||◌, ◌≡◌, ◌↔◌, ◌⊎◌, inl, inr, refl,
  sym, subst, ◌∙◌, arith, In, All, Bool-cases, Option-cases, int_eq, nat_eq, int_beq_iff,
}
use subnet.Base.Dict
use subnet.Base.Dict.{Dict}
use subnet.Validator.Archive.{BatchEntry, ArchivedWindow}
use subnet.Validator.Cooldown.{
  CooldownMap, is_recent, is_in_cooldown, rebuild_entry, rebuild_batch, rebuild_windows,
  rebuild_from_history,
}
use subnet.Validator.Cooldown.Laws.{is_recent_iff}

-- The prompt is in the batch.
abbrev pub holds : ℤ → List BatchEntry → Bool
holds idx [] = false
holds idx (entry ∷ batch) = (idx == entry.prompt_idx) || holds idx batch

abbrev pub stored : Option ℤ → ℤ
stored none = negsuc 0
stored (some w) = w

-- One value of the map after one archived batch.
abbrev pub after_batch : ℤ → Bool → Option ℤ → Option ℤ
after_batch w held old = if held && ltb_ℤ (stored old) w then some w else old

lookup-rebuild_entry :
    (idx w : ℤ) (d : Dict ℤ ℤ) (entry : BatchEntry)
    → Dict.lookup idx (rebuild_entry w d entry)
      ≡ after_batch w (idx == entry.prompt_idx) (Dict.lookup idx d)
unfolding rebuild_entry
lookup-rebuild_entry idx w d entry =
    ground (arith, Dict.lookup-set idx entry.prompt_idx w d, int_beq_iff idx entry.prompt_idx)

lookup-rebuild_batch :
    (idx w : ℤ) (batch : List BatchEntry) (d : Dict ℤ ℤ)
    → Dict.lookup idx (rebuild_batch w batch d)
      ≡ after_batch w (holds idx batch) (Dict.lookup idx d)
unfolding rebuild_batch
lookup-rebuild_batch idx w [] d = refl
lookup-rebuild_batch idx w (entry ∷ batch) d = ground (
  arith,
  lookup-rebuild_batch idx w batch (rebuild_entry w d entry),
  lookup-rebuild_entry idx w d entry,
)

-- One value of the map after all archives.
abbrev pub latest : ℤ → ℤ → List ArchivedWindow → Option ℤ → Option ℤ
latest horizon idx [] old = old
latest horizon idx (r ∷ rs) old = latest horizon idx rs (
    if leb_ℤ r.window_start horizon
    then old
    else after_batch r.window_start (holds idx r.batch) old)

pub lookup-rebuild_windows :
    (horizon idx : ℤ) (rs : List ArchivedWindow) (d : Dict ℤ ℤ)
    → Dict.lookup idx (rebuild_windows horizon rs d) ≡ latest horizon idx rs (Dict.lookup idx d)
unfolding rebuild_windows
lookup-rebuild_windows horizon idx [] d = refl
lookup-rebuild_windows horizon idx (r ∷ rs) d = elim (Bool-cases (leb_ℤ r.window_start horizon)) [
  | inl old ↦ rw old (lookup-rebuild_windows horizon idx rs d)
  | inr new ↦ rw new (
      rw (← lookup-rebuild_batch idx r.window_start r.batch d)
        (lookup-rebuild_windows horizon idx rs (rebuild_batch r.window_start r.batch d)))
]

-- The archived window `r` batched the prompt, and is in reach of the horizon.
abbrev pub Batched : ℤ → ℤ → ArchivedWindow → Type 0
Batched horizon idx r = (holds idx r.batch ≡ true) × (horizon <ℤ r.window_start)

pub latest_sound :
    (horizon idx v : ℤ) (rs : List ArchivedWindow) (old : Option ℤ)
    → latest horizon idx rs old ≡ some v
    → (old ≡ some v)
      ⊎ ((r : ArchivedWindow) × In r rs × Batched horizon idx r × (r.window_start ≡ v))
latest_sound horizon idx v [] old h = inl h
latest_sound horizon idx v (r ∷ rs) old h =
    elim (latest_sound horizon idx v rs
      (if leb_ℤ r.window_start horizon
        then old
        else after_batch r.window_start (holds idx r.batch) old)
      h) [
        | inl found ↦
            step (Bool-cases (leb_ℤ r.window_start horizon))
              (Bool-cases (holds idx r.batch && ltb_ℤ (stored old) r.window_start)) found
        | inr (s, m, b, e) ↦ inr (s, inr m, b, e)
      ]
  where
    step :
        (leb_ℤ r.window_start horizon ≡ true) ⊎ (leb_ℤ r.window_start horizon ≡ false)
        → ((holds idx r.batch && ltb_ℤ (stored old) r.window_start) ≡ true)
          ⊎ ((holds idx r.batch && ltb_ℤ (stored old) r.window_start) ≡ false)
        → (if leb_ℤ r.window_start horizon
            then old
            else after_batch r.window_start (holds idx r.batch) old)
          ≡ some v
        → (old ≡ some v)
          ⊎ ((s : ArchivedWindow) × In s (r ∷ rs) × Batched horizon idx s × (s.window_start ≡ v))
    step (inl expired) _ found = inl (rw expired at found)
    step (inr new) (inr kept) found = inl (rw (new, kept) at found)
    step (inr new) (inl taken) found = inr (r, inl refl, (ground arith, ground arith), ground arith)

latest_grows :
    (horizon idx v : ℤ) (rs : List ArchivedWindow)
    → (u : ℤ) × (latest horizon idx rs (some v) ≡ some u) × (v ≤ℤ u)
latest_grows horizon idx v [] = (v, refl, omega arith)
latest_grows horizon idx v (r ∷ rs) = elim (Bool-cases (leb_ℤ r.window_start horizon)) [
  | inl expired ↦ rw expired (latest_grows horizon idx v rs)
  | inr new ↦ elim (Bool-cases (holds idx r.batch && ltb_ℤ v r.window_start)) [
    | inl taken ↦
        let (u, e, le) = latest_grows horizon idx r.window_start rs in
        (u, rw (new, taken, e), ground arith)
    | inr kept ↦ let (u, e, le) = latest_grows horizon idx v rs in (u, rw (new, kept, e), le)
  ]
]

latest_complete_head :
    (horizon idx : ℤ) (r : ArchivedWindow) (rs : List ArchivedWindow) (old : Option ℤ)
    → Batched horizon idx r
    → pos 0 ≤ℤ r.window_start
    → (u : ℤ) × (latest horizon idx (r ∷ rs) old ≡ some u) × (r.window_start ≤ℤ u)
latest_complete_head horizon idx r rs none b p =
    let new : leb_ℤ r.window_start horizon ≡ false = ground arith in
    let unseen : ltb_ℤ (negsuc 0) r.window_start ≡ true = ground arith in
    let (u, e, le) = latest_grows horizon idx r.window_start rs in (u, rw (new, b.0, unseen, e), le)
latest_complete_head horizon idx r rs (some w) b p =
    let new : leb_ℤ r.window_start horizon ≡ false = ground arith in
    elim (Bool-cases (ltb_ℤ w r.window_start)) [
      | inl newer ↦
          let (u, e, le) = latest_grows horizon idx r.window_start rs in
          (u, rw (new, b.0, newer, e), le)
      | inr older ↦
          let (u, e, le) = latest_grows horizon idx w rs in
          (u, rw (new, b.0, older, e), ground arith)
    ]

pub latest_complete :
    (horizon idx : ℤ) (r : ArchivedWindow) (rs : List ArchivedWindow) (old : Option ℤ)
    → In r rs
    → Batched horizon idx r
    → pos 0 ≤ℤ r.window_start
    → (u : ℤ) × (latest horizon idx rs old ≡ some u) × (r.window_start ≤ℤ u)
latest_complete horizon idx r [] old m b p = absurd m
latest_complete horizon idx r (s ∷ rs) old (inr m) b p = latest_complete horizon idx r rs _ m b p
latest_complete horizon idx r (s ∷ rs) old (inl e) b p =
    subst
      (λ (t : ArchivedWindow).
        (u : ℤ) × (latest horizon idx (t ∷ rs) old ≡ some u) × (r.window_start ≤ℤ u))
      e (latest_complete_head horizon idx r rs old b p)

-- Some archived window batched the prompt, and `c` lies within its cooldown.
abbrev pub InReach : ℕ → ℤ → ℤ → List ArchivedWindow → Type 0
InReach cooldown_windows idx c archived =
    (r : ArchivedWindow) × In r archived
    × (holds idx r.batch ≡ true)
    × (c -ℤ r.window_start <ℤ pos cooldown_windows)

-- After a rebuild at window `current`, a prompt is in cooldown at a window `c` from `current` on
-- exactly if some archived window batched it less than `cooldown_windows` before `c`. The order
-- of the archives, repeats among them, and the windows skipped at the horizon do not matter.
pub is_in_cooldown-rebuild_from_history :
    (archived : List ArchivedWindow) (current c idx : ℤ) (m : CooldownMap)
    → All (λ r. pos 0 ≤ℤ r.window_start) archived
    → current ≤ℤ c
    → 0 < m.cooldown_windows
    → (is_in_cooldown idx c (rebuild_from_history archived current m) ≡ true)
      ↔ InReach m.cooldown_windows idx c archived
unfolding is_in_cooldown rebuild_from_history
is_in_cooldown-rebuild_from_history archived current c idx m nonneg later positive = (forth, back)
  where
    horizon : ℤ
    horizon = current -ℤ pos m.cooldown_windows

    found_by :
        (v : ℤ)
        → latest horizon idx archived none ≡ some v
        → is_recent m.cooldown_windows c v ≡ true
        → InReach m.cooldown_windows idx c archived
    found_by v e recent = elim (latest_sound horizon idx v archived none e) [
      | inl bad ↦ absurd (cc)
      | inr (r, member, b, same) ↦ (
        r,
        member,
        b.0,
        subst (λ w. c -ℤ w <ℤ pos m.cooldown_windows) (sym same)
            ((is_recent_iff m.cooldown_windows c v).0 recent),
      )
    ]

    forth :
        is_in_cooldown idx c (rebuild_from_history archived current m) ≡ true
        → InReach m.cooldown_windows idx c archived
    forth h = elim (Option-cases (Dict.lookup idx (rebuild_windows horizon archived []))) [
      | inl missing ↦ absurd (ground arith)
      | inr (v, e) ↦
          found_by v (sym (lookup-rebuild_windows horizon idx archived []) ∙ e) (ground arith)
    ]

    back :
        InReach m.cooldown_windows idx c archived
        → is_in_cooldown idx c (rebuild_from_history archived current m) ≡ true
    back (r, member, held, close) =
        let p : pos 0 ≤ℤ r.window_start = All-In _ archived nonneg member in
        let reach : horizon <ℤ r.window_start =
          omega (arith, -ℤ_parts c r.window_start, -ℤ_parts current (pos m.cooldown_windows)) in
        let (v, e, le) = latest_complete horizon idx r archived none member (held, reach) p in
        let recent : is_recent m.cooldown_windows c v ≡ true =
          (is_recent_iff m.cooldown_windows c v).1
            (omega (arith, -ℤ_parts c r.window_start, -ℤ_parts c v)) in
        ground (arith, lookup-rebuild_windows horizon idx archived [])
