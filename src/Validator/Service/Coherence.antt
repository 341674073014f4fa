-- ===== src/Validator/Service/Coherence.antt =====
-- validator/service.py: what holds between the awaits. The server mirrors the service, and a window
-- is open exactly while the coroutine waits for the randomness or for the seal.
use subnet.Base.{
  Option-cases, ℕ, ◌&&◌, String, Bool, true, Option, none, some, List, ◌∷◌, get_elem?, length, ◌≡◌,
  inl, inr, refl, sym, ap, subst, ◌∙◌, arith, Bool-cases, leb,
}
use subnet.Base.Dict.{Dict}
use subnet.Base.Float.{Float}
use subnet.Protocol.Constants.{b_batch}
use subnet.Protocol.Reason.{WindowState}
use subnet.Validator.Accepted.{ValidSubmission}
use subnet.Validator.Cooldown.{CooldownMap}
use subnet.Validator.Batcher.State.{init, seal_batch}
use subnet.Validator.Ema.{update_ema}
use subnet.Validator.Server.{ManifestEntry}
use subnet.Validator.Server.Stamps.{
  stamp, stamps, face, stamps-append_last, get_elem?-map, map-set_at, submit-face, work-face,
}
use subnet.Validator.Service
use subnet.Validator.Service.{Service, Config, Phase}
use subnet.Validator.Service.Steps.{
  start, Advance, Serve, Reach, opens, randomizes, seals, publishes, archives, weighs, fails,
  submits, works, advance, serve, here, next,
}

-- The active batcher is the current window's, and requires this checkpoint.
abbrev pub HasStamp : String → Option ℕ → ℕ → List (ℕ × String) → Type 0
HasStamp hash active window_n fs =
    (i : ℕ) × (active ≡ some i) × (get_elem? fs i ≡ some (window_n, hash))

-- What each phase knows of the announced state, the active batcher, the manifest and the window.
abbrev pub Stands :
    {F : Type 0}
    → WindowState
    → Option ℕ
    → Option ManifestEntry
    → ℕ
    → List (ℕ × String)
    → Phase F
    → Type 0
Stands state active manifest n fs Phase.between = (state ≡ WindowState.ready) × (active ≡ none)
Stands state active manifest n fs Phase.opened =
    (state ≡ WindowState.open_window) × HasStamp (Service.revision_of manifest) active n fs
Stands state active manifest n fs Phase.accepting =
    (state ≡ WindowState.open_window) × HasStamp (Service.revision_of manifest) active n fs
Stands state active manifest n fs Phase.weighing = (state ≡ WindowState.ready) × (active ≡ none)
Stands state active manifest n fs (Phase.publishing batch trained) =
    (state ≡ WindowState.publishing) × (hash : String) × HasStamp hash active n fs
Stands state active manifest n fs (Phase.archiving batch) =
    (state ≡ WindowState.publishing) × (hash : String) × HasStamp hash active n fs

module _ {F Model : Type 0} where
  abbrev pub StandsAt : Service F Model → Phase F → Type 0
  StandsAt s phase =
      Stands s.current_window_state s.active_batcher s.manifest s.window_n (stamps s.batchers) phase

  abbrev pub view :
      Service F Model
      → WindowState × Option ℕ × Option ManifestEntry × ℕ × List (ℕ × String) × Phase F
  view s =
      (s.current_window_state, s.active_batcher, s.manifest, s.window_n, stamps s.batchers, s.phase)

  abbrev pub Mirrors : Service F Model → Type 0
  Mirrors s = face s.server ≡ (s.active_batcher, s.current_window_state, s.manifest, true)

  pub record Coherent (s : Service F Model) : Type 0 where
    pub mirrors : Mirrors s
    pub stands : StandsAt s s.phase

  open_window-Coherent :
      (s : Service F Model)
      → Coherent s
      → StandsAt s Phase.between
      → Coherent (Service.open_window s)
  unfolding Service.open_window init
  open_window-Coherent s c p = record {
    mirrors = ap (λ v. (some (length s.batchers), WindowState.open_window, v.2, v.3)) c.mirrors;
    stands =
        (refl, (length s.batchers, refl, stamps-append_last s.batchers (Service.next_batcher s)));
  }

  abort-Coherent : (s : Service F Model) → Mirrors s → Coherent (Service.abort s)
  unfolding Service.abort
  abort-Coherent s m = record {
    mirrors = ap (λ v. (none, WindowState.ready, v.2, v.3)) m;
    stands = (refl, refl);
  }

  -- Other batchers with the same stamps, behind a server that shows the same.
  reframe-Coherent :
      (s t : Service F Model)
      → face t.server ≡ face s.server
      → view t ≡ view s
      → Coherent s
      → Coherent t
  reframe-Coherent s t e g c = record {
    mirrors = e ∙ (c.mirrors ∙ ap (λ v. (v.1, v.0, v.2, true)) (sym g));
    stands = subst (λ v. Stands v.0 v.1 v.2 v.3 v.4 v.5) (sym g) c.stands;
  }

  set_window_randomness-Coherent :
      (randomness : String) (s : Service F Model)
      → Coherent s
      → StandsAt s Phase.opened
      → Coherent (Service.set_window_randomness randomness s)
  unfolding Service.set_window_randomness
  set_window_randomness-Coherent randomness s c (state, (i, active, at)) =
      let (b, inside, stamped) =
        get_elem?-map stamp s.batchers i (s.window_n, Service.revision_of s.manifest) at in
      let kept : stamps (Service.set_window_randomness randomness s).batchers ≡ stamps s.batchers =
        rw (Service.set_window_randomness, active, inside)
          (map-set_at stamp s.batchers i (record b { randomness = randomness }) b inside refl) in
      record {
        mirrors = c.mirrors;
        stands = (state, (i, active, (ap (λ fs. get_elem? fs i) kept ∙ at)));
      }

module _ {F Model : Type 0} (fl : Float F) (config : Config F Model) where
  Serve-Coherent : {s t : Service F Model} → Serve fl config s t → Coherent s → Coherent t
  unfolding Service.handle_submit Service.handle_work
  Serve-Coherent {s} (submits now r e) c =
      let (same, kept) =
        submit-face (config.world s.model) s.cooldown_map now r s.server s.batchers in
      subst Coherent (sym e)
        (reframe-Coherent s (Service.handle_submit fl config now r s).1 same (ground arith) c)
  Serve-Coherent {s} (works now e) c =
      let (same, kept) = work-face (config.world s.model) s.cooldown_map now s.server s.batchers in
      subst Coherent (sym e)
        (reframe-Coherent s (Service.handle_work fl config now s) same (ground arith) c)

  train_window-Coherent :
      (s : Service F Model) (batch : List (ValidSubmission F)) (hash : String)
      → HasStamp hash s.active_batcher s.window_n (stamps s.batchers)
      → Mirrors s
      → Coherent (Service.train_window fl config batch s)
  unfolding Service.train_window
  train_window-Coherent s batch hash stamped m =
      let publishes : face (Service.set_state WindowState.publishing s).server
          ≡ (s.active_batcher, WindowState.publishing, s.manifest, true) =
        ap (λ v. (v.0, WindowState.publishing, v.2, v.3)) m in
      elim (Bool-cases (leb b_batch (length batch))) [
        | inl full ↦ elim (Bool-cases (config.train_step s.model batch s.window_n).1) [
          | inl done ↦
              rw (full, done, Service.train_window)
                (record { mirrors = publishes; stands = (refl, hash, stamped) })
          | inr raised ↦
              rw (full, raised, Service.train_window)
                (abort-Coherent
                  (record s { model = (config.train_step s.model batch s.window_n).0 }) m)
        ]
        | inr partial ↦
            rw (partial, Service.train_window)
              (record { mirrors = publishes; stands = (refl, hash, stamped) })
      ]

  seal_and_train-Coherent :
      (s : Service F Model)
      → Coherent s
      → StandsAt s Phase.accepting
      → Coherent (Service.seal_and_train fl config s)
  unfolding Service.seal_and_train Service.seal_window
  seal_and_train-Coherent s c (state, (i, active, at)) =
      let (b, inside, _) =
        get_elem?-map stamp s.batchers i (s.window_n, Service.revision_of s.manifest) at in
      let trains : Mirrors (Service.set_state WindowState.training s) =
        ap (λ v. (v.0, WindowState.training, v.2, v.3)) c.mirrors in
      elim (Option-cases (seal_batch (config.world s.model) s.cooldown_map b)) [
        | inl raised ↦
            rw (active, inside, raised, Service.seal_and_train, Service.seal_window)
              (abort-Coherent s c.mirrors)
        | inr (r, sealed) ↦
            rw (active, inside, sealed, Service.seal_and_train, Service.seal_window)
              (train_window-Coherent
                (record (Service.set_state WindowState.training s) {
                  cooldown_map = r.1;
                  miner_scores_ema = update_ema fl (Service.hotkeys r.0) s.miner_scores_ema;
                  sealed = (b.window_start, r.0) ∷ s.sealed;
                })
                r.0 (Service.revision_of s.manifest) (i, active, at) trains)
      ]

  publish-Coherent :
      (s : Service F Model) (batch : List (ValidSubmission F)) (trained : Bool)
      (revision : Option String)
      → Coherent s
      → StandsAt s (Phase.publishing batch trained)
      → Coherent (Service.publish fl config revision batch trained s)
  unfolding Service.publish
  publish-Coherent s batch trained revision c (state, hash, stamped) =
      elim (Bool-cases (trained && Service.should_publish fl config s)) [
        | inr kept ↦
            rw (kept, Service.publish)
              (record { mirrors = c.mirrors; stands = (state, hash, stamped) })
        | inl due ↦ elim (Option-cases revision) [
          | inl failed ↦
              rw (due, failed, Service.publish)
                (record { mirrors = c.mirrors; stands = (state, hash, stamped) })
          | inr (rev, done) ↦
              rw (due, done, Service.publish)
                (record {
                  mirrors =
                      ap (λ v. (v.0, v.1, some (Service.next_entry fl config rev s), v.3))
                        c.mirrors;
                  stands = (state, hash, stamped);
                })
        ]
      ]

  archive_window-Coherent :
      (s : Service F Model) (batch : List (ValidSubmission F)) (uploaded : Bool)
      → Coherent s
      → Coherent (Service.archive_window fl config uploaded batch s)
  unfolding Service.archive_window
  archive_window-Coherent s batch uploaded c = record {
    mirrors = ground arith;
    stands = (refl, refl);
  }

  weigh-Coherent :
      (s : Service F Model) (block : ℕ) (uids : Dict String ℕ) (submitted : Bool)
      → Coherent s
      → StandsAt s Phase.weighing
      → Coherent (Service.weigh fl config block uids submitted s)
  unfolding Service.weigh
  weigh-Coherent s block uids submitted c p = record { mirrors = c.mirrors; stands = p }

  Advance-Coherent : {s t : Service F Model} → Advance fl config s t → Coherent s → Coherent t
  Advance-Coherent {s} (opens p e) c =
      subst Coherent (sym e) (open_window-Coherent s c (subst (StandsAt s) p c.stands))
  Advance-Coherent {s} (randomizes randomness p e) c =
      subst Coherent (sym e)
        (set_window_randomness-Coherent randomness s c (subst (StandsAt s) p c.stands))
  Advance-Coherent {s} (seals p e) c =
      subst Coherent (sym e) (seal_and_train-Coherent s c (subst (StandsAt s) p c.stands))
  Advance-Coherent {s} (publishes batch trained revision p e) c =
      subst Coherent (sym e)
        (publish-Coherent s batch trained revision c (subst (StandsAt s) p c.stands))
  Advance-Coherent {s} (archives batch uploaded p e) c =
      subst Coherent (sym e) (archive_window-Coherent s batch uploaded c)
  Advance-Coherent {s} (weighs block uids submitted p e) c =
      subst Coherent (sym e)
        (weigh-Coherent s block uids submitted c (subst (StandsAt s) p c.stands))
  Advance-Coherent {s} (fails p e) c = subst Coherent (sym e) (abort-Coherent s c.mirrors)

  pub Reach-Coherent : {s t : Service F Model} → Coherent s → Reach fl config s t → Coherent t
  Reach-Coherent c here = c
  Reach-Coherent c (next r (advance a)) = Advance-Coherent a (Reach-Coherent c r)
  Reach-Coherent c (next r (serve a)) = Serve-Coherent a (Reach-Coherent c r)

  -- From its first window on, whatever the outside answers, the server mirrors the service, and in
  -- each phase the announced state and the active batcher are the phase's own.
  pub Reach-start :
      (model : Model) (cooldown : CooldownMap) (window_n checkpoint_n : ℕ)
      → (scores : Dict String F) (manifest : Option ManifestEntry) (block : ℕ)
      → {t : Service F Model}
      → Reach fl config (start model cooldown window_n checkpoint_n scores manifest block) t
      → Coherent t
  Reach-start model cooldown window_n checkpoint_n scores manifest block =
      Reach-Coherent (record { mirrors = refl; stands = (refl, refl) })
