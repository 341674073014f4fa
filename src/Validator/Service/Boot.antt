-- ===== src/Validator/Service/Boot.antt =====
-- validator/service.py: the start of `run`, `_apply_resume_from`, `_bootstrap_state_from_external`
-- and `_rebuild_cooldown_from_history`, up to the first window. What R2, HF and the chain answer
-- are arguments, with `none` for an exception, which is logged.
use subnet.Base.{
  ℕ, ◌+◌, ◌≤◌, max, Bool, true, false, ◌&&◌, Option, none, some, List, [], ◌∷◌, ◌++◌, map,
  if◌then◌else◌, ◌==◌, nat_eq, String, In, pos, ◌≡◌, inl, inr, refl, sym, subst, arith,
}
use subnet.Base.Dict.{Dict}
use subnet.Base.Float.{Float}
use subnet.Base.Text.{codes}
use subnet.Validator.Accepted.{ValidSubmission}
use subnet.Validator.Archive.{ArchivedWindow}
use subnet.Validator.Cooldown.{CooldownMap, rebuild_from_history}
use subnet.Validator.Ema.Replay.{replay_ema}
use subnet.Validator.Server.{ManifestEntry}
use subnet.Validator.Service.{Service, Config}
use subnet.Validator.Service.Steps.{start, Reach}
use subnet.Validator.Service.Spacing.{Spaced}
use subnet.Validator.Service.Spacing.Restart.{archived, sealed-Spaced}

-- What the outside answers: the windows in R2's keys, the titles of HF's commits, the recent
-- archives for the scores and for the cooldown, and the chain's block.
pub record External : Type 0 where
  pub window_keys : Option (List ℕ)
  pub commit_titles : Option (List String)
  pub score_archives : Option (List ArchivedWindow)
  pub cooldown_archives : Option (List ArchivedWindow)
  pub current_block : Option ℕ

-- What `--resume-from` was resolved to: the model, the checkpoint's number and its revision.
pub record Resumed (Model : Type 0) : Type 0 where
  pub model : Model
  pub checkpoint_n : ℕ
  pub revision : String

abbrev pub max_from : ℕ → List ℕ → ℕ
max_from m [] = m
max_from m (w ∷ ws) = max_from (max m w) ws

-- `max(windows)` if there are any; else the number stays 0.
unfoldable pub last_window : Option (List ℕ) → ℕ
last_window none = 0
last_window (some []) = 0
last_window (some (w ∷ ws)) = max_from w ws

abbrev pub starts_with : List ℕ → List ℕ → Bool
starts_with [] text = true
starts_with (c ∷ prefix) [] = false
starts_with (c ∷ prefix) (d ∷ text) = (c == d) && starts_with prefix text

-- `sum(1 for c in commits if c.title.startswith("checkpoint "))`
unfoldable pub count_checkpoints : List String → ℕ
count_checkpoints [] = 0
count_checkpoints (title ∷ titles) =
    (if starts_with (codes "checkpoint ") (codes title) then 1 else 0) + count_checkpoints titles

-- BATCH_PROMPT_COOLDOWN_WINDOWS
abbrev pub cooldown_windows : ℕ
cooldown_windows = 1000000

-- `CooldownMap(cooldown_windows=BATCH_PROMPT_COOLDOWN_WINDOWS)`
abbrev pub empty_cooldown : CooldownMap
empty_cooldown = record { cooldown_windows = cooldown_windows; last_batched = [] }

module _ {F Model : Type 0} (fl : Float F) (config : Config F Model) where
  -- The manifest entry of a resumed checkpoint.
  abbrev pub resumed_entry : Resumed Model → ManifestEntry
  resumed_entry r = record {
    checkpoint_n = r.checkpoint_n;
    repo_id = config.repo_id;
    revision = r.revision;
    signature = config.sign r.checkpoint_n r.revision;
  }

  -- The cooldown map, at the window that the bootstrap found.
  unfoldable pub rebuilt_cooldown : External → CooldownMap
  rebuilt_cooldown e = elim e.cooldown_archives [
    | none ↦ empty_cooldown
    | some archives ↦ rebuild_from_history archives (pos (last_window e.window_keys)) empty_cooldown
  ]

  -- The checkpoint's number: the count of HF's commits, whatever was resumed, unless HF fails.
  unfoldable pub first_checkpoint_n : Option (Resumed Model) → External → ℕ
  first_checkpoint_n resumed e = elim e.commit_titles [
    | some titles ↦ count_checkpoints titles
    | none ↦ elim resumed [ none ↦ 0 | some r ↦ r.checkpoint_n ]
  ]

  unfoldable pub boot : Model → Option (Resumed Model) → External → Service F Model
  boot base resumed e =
      start (elim resumed [ none ↦ base | some r ↦ r.model ]) (rebuilt_cooldown e)
        (last_window e.window_keys) (first_checkpoint_n resumed e)
        (elim e.score_archives [ none ↦ [] | some archives ↦ replay_ema fl archives ])
        (elim resumed [ none ↦ none | some r ↦ some (resumed_entry r) ])
        (elim e.current_block [ none ↦ 0 | some block ↦ block ])

max_le_left : (a b : ℕ) → a ≤ max a b
max_le_left a b = omega arith

max_le_right : (a b : ℕ) → b ≤ max a b
max_le_right a b = omega arith

max_from-le : (m : ℕ) (ws : List ℕ) → m ≤ max_from m ws
max_from-le m [] = omega arith
max_from-le m (w ∷ ws) = omega (arith, max_from-le (max m w) ws, max_le_left m w)

In-max_from : (m w : ℕ) (ws : List ℕ) → In w ws → w ≤ max_from m ws
In-max_from m w [] inside = absurd inside
In-max_from m w (v ∷ ws) (inl e) = omega (arith, e, max_from-le (max m v) ws, max_le_right m v)
In-max_from m w (v ∷ ws) (inr inside) = In-max_from (max m v) w ws inside

last_window-le : (w : ℕ) (keys : List ℕ) → In w keys → w ≤ last_window (some keys)
unfolding last_window
last_window-le w [] inside = absurd inside
last_window-le w (v ∷ keys) (inl e) = omega (arith, e, max_from-le v keys)
last_window-le w (v ∷ keys) (inr inside) = In-max_from v w keys inside

module _ {F Model : Type 0} (fl : Float F) (config : Config F Model) where
  -- A validator that boots with R2 answering: if no prompt is in archived batches less than
  -- `cooldown_windows` windows apart, all of whose windows are among R2's keys, then none is in
  -- the archived batches together with all that this validator seals, whatever it resumed from,
  -- whatever the miners submit and whatever the outside answers from then on; and batches that
  -- share a prompt are of different windows.
  pub boot-Spaced :
      (base : Model) (resumed : Option (Resumed Model)) (e : External) (keys : List ℕ)
      (history : List (ℕ × List (ValidSubmission F)))
      → e.window_keys ≡ some keys
      → e.cooldown_archives ≡ some (map archived history)
      → ((w : ℕ) (batch : List (ValidSubmission F)) → In (w, batch) history → In w keys)
      → Spaced cooldown_windows history
      → {t : Service F Model} → Reach fl config (boot fl config base resumed e) t
      → Spaced cooldown_windows (t.sealed ++ history)
  unfolding boot rebuilt_cooldown
  boot-Spaced base resumed e keys history listed fetched known spaced {t} r =
      let n = last_window e.window_keys in
      let base_model : Model = elim resumed [ none ↦ base | some q ↦ q.model ] in
      let scores : Dict String F = elim e.score_archives [
        | none ↦ []
        | some archives ↦ replay_ema fl archives
      ] in
      let manifest : Option ManifestEntry = elim resumed [
        | none ↦ none
        | some q ↦ some (resumed_entry fl config q)
      ] in
      let block : ℕ = elim e.current_block [ none ↦ 0 | some at ↦ at ] in
      let checkpoint_n = first_checkpoint_n fl config resumed e in
      let rebuilt : rebuilt_cooldown fl config e
          ≡ rebuild_from_history (map archived history) (pos n) empty_cooldown =
        rw (fetched, rebuilt_cooldown) refl in
      sealed-Spaced fl config base_model empty_cooldown history n checkpoint_n scores manifest block
        spaced
        (λ w batch m.
          subst (λ k. w ≤ last_window k) (sym listed) (last_window-le w keys (known w batch m)))
        (subst
          (λ cooldown.
            Reach fl config (start base_model cooldown n checkpoint_n scores manifest block) t)
          rebuilt r)
