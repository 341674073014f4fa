-- ===== src/Validator/Cooldown/Restart.antt =====
-- A validator that restarts and rebuilds its map from the archive, against one that kept running.
use subnet.Base.{
  ℤ, pos, ◌-ℤ◌, ◌≤ℤ◌, ◌<ℤ◌, ◌<◌, -ℤ_parts, true, Option, none, some, List, [], ◌∷◌, if◌then◌else◌,
  ◌==◌, ◌≡◌, ◌↔◌, ◌⊎◌, inl, inr, refl, sym, subst, ◌∙◌, arith, In, All, map, Bool-cases,
  Bool-eq_of_iff, ap, Option-cases, int_eq, nat_eq,
}
use subnet.Base.Dict
use subnet.Validator.Archive.{BatchEntry, ArchivedWindow}
use subnet.Validator.Cooldown.{
  CooldownMap, record_batched, record_all, is_recent, is_in_cooldown, rebuild_from_history,
}
use subnet.Validator.Cooldown.Laws.{is_recent_iff, lookup-record_batched}
use subnet.Validator.Cooldown.Rebuild.{holds, InReach, is_in_cooldown-rebuild_from_history}

abbrev pub prompts_of : List BatchEntry → List ℤ
prompts_of batch = map (λ e. e.prompt_idx) batch

-- The map of a validator that sealed these windows one after the other.
unfoldable pub seal_history : List ArchivedWindow → CooldownMap → Option CooldownMap
seal_history [] m = some m
seal_history (r ∷ rs) m = elim (record_all r.window_start (prompts_of r.batch) m) [
  | none ↦ none
  | some m' ↦ seal_history rs m'
]

abbrev pub IsAscending : List ArchivedWindow → Type 0
IsAscending [] = Unit
IsAscending (r ∷ rs) = All (λ s. r.window_start ≤ℤ s.window_start) rs × IsAscending rs

pub lookup-record_all :
    (idx w : ℤ) (batch : List BatchEntry) (m : CooldownMap) {m' : CooldownMap}
    → record_all w (prompts_of batch) m ≡ some m'
    → (Dict.lookup idx m'.last_batched
        ≡ (if holds idx batch then some w else Dict.lookup idx m.last_batched))
      × (m'.cooldown_windows ≡ m.cooldown_windows)
unfolding record_all
lookup-record_all idx w [] m h = ground arith
lookup-record_all idx w (e ∷ batch) m {m'} h =
    elim (Option-cases (record_batched e.prompt_idx w m)) [
      | inl refused ↦ absurd (ground arith)
      | inr (m₁, accepted) ↦
          let (after, same) =
            lookup-record_all idx w batch m₁ {m' = m'} (rw (accepted, record_all) at h) in
          let (one, kept) = lookup-record_batched e.prompt_idx w idx m accepted in
          (ground arith, same ∙ kept)
    ]

-- One value of the running map after all windows.
abbrev newest : ℤ → List ArchivedWindow → Option ℤ → Option ℤ
newest idx [] old = old
newest idx (r ∷ rs) old = newest idx rs (if holds idx r.batch then some r.window_start else old)

newest_sound :
    (idx v : ℤ) (rs : List ArchivedWindow) (old : Option ℤ)
    → newest idx rs old ≡ some v
    → (old ≡ some v)
      ⊎ ((r : ArchivedWindow) × In r rs × (holds idx r.batch ≡ true) × (r.window_start ≡ v))
newest_sound idx v [] old h = inl h
newest_sound idx v (r ∷ rs) old h = elim (Bool-cases (holds idx r.batch)) [
  | inl held ↦ elim (newest_sound idx v rs (some r.window_start) (rw held at h)) [
    | inl found ↦ inr (r, inl refl, held, cc)
    | inr (s, m, b, e) ↦ inr (s, inr m, b, e)
  ]
  | inr other ↦ elim (newest_sound idx v rs old (rw other at h)) [
    | inl found ↦ inl found
    | inr (s, m, b, e) ↦ inr (s, inr m, b, e)
  ]
]

newest_grows :
    (idx v : ℤ) (rs : List ArchivedWindow)
    → All (λ s. v ≤ℤ s.window_start) rs
    → IsAscending rs
    → (u : ℤ) × (newest idx rs (some v) ≡ some u) × (v ≤ℤ u)
newest_grows idx v [] a o = (v, refl, omega arith)
newest_grows idx v (r ∷ rs) a o = elim (Bool-cases (holds idx r.batch)) [
  | inl held ↦
      let (u, e, le) = newest_grows idx r.window_start rs o.0 o.1 in (u, rw (held, e), omega arith)
  | inr other ↦ let (u, e, le) = newest_grows idx v rs a.1 o.1 in (u, rw (other, e), le)
]

newest_complete :
    (idx : ℤ) (r : ArchivedWindow) (rs : List ArchivedWindow) (old : Option ℤ)
    → In r rs
    → holds idx r.batch ≡ true
    → IsAscending rs
    → (u : ℤ) × (newest idx rs old ≡ some u) × (r.window_start ≤ℤ u)
newest_complete idx r [] old m b o = absurd m
newest_complete idx r (s ∷ rs) old (inr m) b o = newest_complete idx r rs _ m b o.1
newest_complete idx r (s ∷ rs) old (inl e) b o =
    let held : holds idx s.batch ≡ true = subst (λ t. holds idx t.batch ≡ true) e b in
    let (u, found, le) = newest_grows idx s.window_start rs o.0 o.1 in
    (u, rw (held, found), subst (λ t. t.window_start ≤ℤ u) (sym e) le)

lookup-seal_history :
    (idx : ℤ) (rs : List ArchivedWindow) (m : CooldownMap) {live : CooldownMap}
    → seal_history rs m ≡ some live
    → (Dict.lookup idx live.last_batched ≡ newest idx rs (Dict.lookup idx m.last_batched))
      × (live.cooldown_windows ≡ m.cooldown_windows)
unfolding seal_history
lookup-seal_history idx [] m h = ground arith
lookup-seal_history idx (r ∷ rs) m {live} h =
    elim (Option-cases (record_all r.window_start (prompts_of r.batch) m)) [
      | inl refused ↦ absurd (ground arith)
      | inr (m₁, accepted) ↦
          let here = lookup-record_all idx r.window_start r.batch m accepted in
          let ih = lookup-seal_history idx rs m₁ {live = live} (rw (accepted, seal_history) at h) in
          (rw (← here.0) ih.0, ih.1 ∙ here.1)
    ]

seal_history_iff :
    (archived : List ArchivedWindow) (c idx : ℤ) (m : CooldownMap) {live : CooldownMap}
    → m.last_batched ≡ []
    → IsAscending archived
    → 0 < m.cooldown_windows
    → seal_history archived m ≡ some live
    → (is_in_cooldown idx c live ≡ true) ↔ InReach m.cooldown_windows idx c archived
unfolding is_in_cooldown
seal_history_iff archived c idx m {live} empty ascending positive sealed = (forth, back)
  where
    look : Dict.lookup idx live.last_batched ≡ newest idx archived none
    look =
        (lookup-seal_history idx archived m sealed).0
        ∙ ap (λ d. newest idx archived (Dict.lookup idx d)) empty

    windows : live.cooldown_windows ≡ m.cooldown_windows
    windows = (lookup-seal_history idx archived m sealed).1

    forth : is_in_cooldown idx c live ≡ true → InReach m.cooldown_windows idx c archived
    forth h = elim (Option-cases (newest idx archived none)) [
      | inl missing ↦ absurd (ground (arith, look, windows))
      | inr (v, e) ↦ elim (newest_sound idx v archived none e) [
        | inl bad ↦ absurd (cc)
        | inr (r, member, held, same) ↦ (
          r,
          member,
          held,
          subst (λ w. c -ℤ w <ℤ pos m.cooldown_windows) (sym same)
              ((is_recent_iff m.cooldown_windows c v).0 (ground (arith, look, windows))),
        )
      ]
    ]

    back : InReach m.cooldown_windows idx c archived → is_in_cooldown idx c live ≡ true
    back (r, member, held, close) =
        let (v, e, le) = newest_complete idx r archived none member held ascending in
        let recent : is_recent m.cooldown_windows c v ≡ true =
          (is_recent_iff m.cooldown_windows c v).1
            (omega (arith, -ℤ_parts c r.window_start, -ℤ_parts c v)) in
        ground (arith, look, windows)

-- A validator that sealed windows in ascending order and one that restarts at `current` and
-- rebuilds its map from their archives, in that order, agree on every prompt's cooldown at every
-- window from `current` on.
pub seal_history-rebuild_from_history :
    (archived : List ArchivedWindow) (current c idx : ℤ) (m : CooldownMap) {live : CooldownMap}
    → m.last_batched ≡ []
    → IsAscending archived
    → All (λ r. pos 0 ≤ℤ r.window_start) archived
    → seal_history archived m ≡ some live
    → current ≤ℤ c
    → is_in_cooldown idx c live ≡ is_in_cooldown idx c (rebuild_from_history archived current m)
unfolding is_in_cooldown rebuild_from_history
seal_history-rebuild_from_history archived current c idx m {live} empty ascending nonneg sealed
      later =
    elim (Bool-cases (m.cooldown_windows == 0)) [
      | inl zero_windows ↦ ground (arith, lookup-seal_history idx archived m sealed)
      | inr some_windows ↦
          let positive : 0 < m.cooldown_windows = ground arith in
          let running =
            seal_history_iff archived c idx m {live = live} empty ascending positive sealed in
          let rebuilt =
            is_in_cooldown-rebuild_from_history archived current c idx m nonneg later positive in
          Bool-eq_of_iff _ _ (λ h. rebuilt.1 (running.0 h), λ h. running.1 (rebuilt.0 h))
    ]
