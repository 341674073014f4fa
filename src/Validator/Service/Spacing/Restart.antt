-- ===== src/Validator/Service/Spacing/Restart.antt =====
-- validator/service.py `_rebuild_cooldown_from_history`: the cooldown over a restart. The archives
-- are those of a history of sealed batches.
use subnet.Base.{
  ℕ, suc, ◌+◌, ◌≤◌, ◌<◌, pos, ◌-ℤ◌, -ℤ_parts, ◌<ℤ◌, ◌≤ℤ◌, true, Option, none, some, String, List,
  [], ◌∷◌, ◌++◌, map, In, In-map, map-In, int_eq, ◌≡◌, inl, inr, refl, sym, ap, subst, ◌∙◌, arith,
}
use native.Mathlib.Decide.{dec_le}
use subnet.Base.Dict
use subnet.Base.Dict.{Dict}
use subnet.Base.Float.{Float}
use subnet.Validator.Accepted.{ValidSubmission}
use subnet.Validator.Archive.{ArchivedWindow}
use subnet.Validator.Cooldown.{CooldownMap, rebuild_from_history, rebuild_windows}
use subnet.Validator.Cooldown.Rebuild.{holds, latest_sound, latest_complete, lookup-rebuild_windows}
use subnet.Validator.Selection.Fifo.{prompts}
use subnet.Validator.Server.{ManifestEntry}
use subnet.Validator.Service
use subnet.Validator.Service.{Service, Config}
use subnet.Validator.Service.Steps.{start, Reach}
use subnet.Validator.Service.Spacing.{Spaced, IsSpaced}
use subnet.Validator.Service.Spacing.Runs.{Reach-SpacedAt}

abbrev pub archived : {F : Type 0} → ℕ × List (ValidSubmission F) → ArchivedWindow
archived (window, batch) = Service.archive_of window batch

holds-archived :
    {F : Type 0} (w p : ℕ) (batch : List (ValidSubmission F))
    → In p (prompts batch)
    → holds (pos p) (Service.archive_of w batch).batch ≡ true
holds-archived w p [] m = absurd m
holds-archived w p (s ∷ batch) (inl e) = ground arith
holds-archived w p (s ∷ batch) (inr m) = ground (arith, holds-archived w p batch m)

le_of_pos : (w v : ℕ) → pos w ≤ℤ pos v → w ≤ v
le_of_pos w v h = omega (arith, h)

module _ {F : Type 0} (m : CooldownMap) (history : List (ℕ × List (ValidSubmission F)))
    (window_n : ℕ)
    (earlier : (w : ℕ) (batch : List (ValidSubmission F))
      → In (w, batch) history
      → w ≤ window_n) where
  abbrev pub rebuilt : CooldownMap
  rebuilt = rebuild_from_history (map archived history) (pos window_n) m

  rebuilt_recent :
      (w : ℕ) (batch : List (ValidSubmission F)) (p : ℕ)
      → In (w, batch) history
      → In p (prompts batch)
      → window_n < w + m.cooldown_windows
      → (v : ℕ) × (Dict.lookup (pos p) rebuilt.last_batched ≡ some (pos v))
        × (w ≤ v)
        × (v < suc window_n)
  unfolding rebuild_from_history
  rebuilt_recent w batch p mem inside recent =
      let horizon = pos window_n -ℤ pos m.cooldown_windows in
      let reach : horizon <ℤ pos w =
        omega (arith, recent, -ℤ_parts (pos window_n) (pos m.cooldown_windows)) in
      let rs = map archived history in
      let (u, e, le) =
        latest_complete horizon (pos p) (archived (w, batch)) rs none
          (In-map archived (w, batch) history mem) (holds-archived w p batch inside, reach)
          (omega arith) in
      let stored : Dict.lookup (pos p) (rebuild_windows horizon rs []) ≡ some u =
        lookup-rebuild_windows horizon (pos p) rs [] ∙ e in
      elim (latest_sound horizon (pos p) u rs none e) [
        | inl impossible ↦ absurd (cc)
        | inr (r, there, _, same) ↦
            let ((v, old), before, is) = map-In archived r history there in
            let is_v : u ≡ pos v = sym same ∙ ap (λ k. k.window_start) is in
            (
              v,
              stored ∙ ap some is_v,
              le_of_pos w v (subst (λ k. pos w ≤ℤ k) is_v le),
              omega (arith, earlier v old before),
            )
      ]

  rebuilt-IsSpaced :
      Spaced m.cooldown_windows history → IsSpaced m.cooldown_windows rebuilt history (suc window_n)
  unfolding rebuild_from_history
  rebuilt-IsSpaced spaced = record {
    windows = refl;
    past = λ w batch mem. omega (arith, earlier w batch mem);
    recorded = λ w batch p mem inside. elim (dec_le (w + m.cooldown_windows) window_n) [
      | yes expired ↦ inr (omega (arith, expired))
      | no recent ↦ inl (rebuilt_recent w batch p mem inside (omega (arith, recent)))
    ];
    spaced = spaced;
  }

module _ {F Model : Type 0} (fl : Float F) (config : Config F Model) where
  -- Over restarts too, whatever the miners submit and the outside answers: if the archive up to
  -- the window that the service starts from has no prompt in batches less than `cooldown_windows`
  -- windows apart, and the cooldown map is rebuilt from it, then neither has the archive together
  -- with all the batches that the service then seals. Batches that share a prompt are of
  -- different windows. A fresh start is the case of the empty archive.
  pub sealed-Spaced :
      (model : Model) (m : CooldownMap) (history : List (ℕ × List (ValidSubmission F)))
      (window_n checkpoint_n : ℕ) (scores : Dict String F) (manifest : Option ManifestEntry)
      (block : ℕ)
      → Spaced m.cooldown_windows history
      → ((w : ℕ) (batch : List (ValidSubmission F)) → In (w, batch) history → w ≤ window_n)
      → {t : Service F Model}
      → Reach fl config
          (start model
            (rebuild_from_history (map archived history) (pos window_n) m)
            window_n
            checkpoint_n
            scores
            manifest
            block)
          t
      → Spaced m.cooldown_windows (t.sealed ++ history)
  sealed-Spaced model m history window_n checkpoint_n scores manifest block spaced earlier {t} r =
      (Reach-SpacedAt fl config m.cooldown_windows history
        (record { mirrors = refl; stands = (refl, refl) })
        (rebuilt-IsSpaced m history window_n earlier spaced) r).spaced
