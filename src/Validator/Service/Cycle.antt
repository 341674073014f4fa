-- ===== src/Validator/Service/Cycle.antt =====
-- validator/service.py: the life cycle of windows that `run` walks through, as the miners see it in
-- `/state`, and that no answer from outside stops it.
use subnet.Base.{
  Option-cases, ℕ, String, ◌+◌, ◌<◌, Bool, false, Option, none, List, ◌∷◌, length, leb, ◌≡◌, ◌⊎◌,
  inl, inr, refl, sym, ap, subst, ◌∙◌, arith, Bool-cases,
}
use subnet.Base.Float.{Float}
use subnet.Protocol.Constants.{b_batch}
use subnet.Protocol.Reason.{WindowState}
use subnet.Validator.Accepted.{ValidSubmission}
use subnet.Validator.Ema.{update_ema}
use subnet.Validator.Batcher.State.{seal_batch}
use subnet.Validator.Server.Stamps.{stamp, get_elem?-map, submit-face, work-face}
use subnet.Validator.Service
use subnet.Validator.Service.{Service, Config, Phase}
use subnet.Validator.Service.Coherence.{Coherent, StandsAt}
use subnet.Validator.Service.Steps.{
  Advance, Serve, Step, opens, randomizes, seals, publishes, archives, weighs, fails, submits,
  works, advance, serve,
}

-- The state and the window that the validator announces, and how they may change: a window is
-- opened after the last one, sealed or given up, and finished.
pub data Cycle (a b : WindowState × ℕ) : Type 0 where
  stays : b ≡ a → Cycle a b
  opens_next : a.0 ≡ WindowState.ready → b ≡ (WindowState.open_window, a.1 + 1) → Cycle a b
  seals_it : a.0 ≡ WindowState.open_window → b ≡ (WindowState.publishing, a.1) → Cycle a b
  gives_up : a.0 ≡ WindowState.open_window → b ≡ (WindowState.ready, a.1) → Cycle a b
  finishes : a.0 ≡ WindowState.publishing → b ≡ (WindowState.ready, a.1) → Cycle a b

-- The awaits that are left before the next window.
abbrev pub rank : {F : Type 0} → Phase F → ℕ
rank Phase.between = 0
rank Phase.weighing = 1
rank (Phase.archiving _) = 2
rank (Phase.publishing _ _) = 3
rank Phase.accepting = 4
rank Phase.opened = 5

module _ {F Model : Type 0} where
  abbrev pub announced : Service F Model → WindowState × ℕ
  announced s = (s.server.current_state, s.window_n)

  current_state :
      (s : Service F Model) → Coherent s → s.server.current_state ≡ s.current_window_state
  current_state s c = ap (λ v. v.1) c.mirrors

module _ {F Model : Type 0} (fl : Float F) (config : Config F Model) where
  -- What sealing leads to: the upload, or the end of the window.
  abbrev pub Sealed : Service F Model → Service F Model → Type 0
  Sealed s t =
      (t.window_n ≡ s.window_n)
      × (rank t.phase < 4)
      × ((t.server.current_state ≡ WindowState.publishing)
          ⊎ (t.server.current_state ≡ WindowState.ready))

  abort-Sealed : (s : Service F Model) → Sealed s (Service.abort s)
  unfolding Service.abort
  abort-Sealed s = (refl, omega arith, inr refl)

  train_window-Sealed :
      (s : Service F Model) (batch : List (ValidSubmission F))
      → Sealed s (Service.train_window fl config batch s)
  unfolding Service.train_window Service.abort
  train_window-Sealed s batch = elim (Bool-cases (leb b_batch (length batch))) [
    | inr partial ↦ rw (partial, Service.train_window) (refl, omega arith, inl refl)
    | inl full ↦ elim (Bool-cases (config.train_step s.model batch s.window_n).1) [
      | inl done ↦ rw (full, done, Service.train_window) (refl, omega arith, inl refl)
      | inr raised ↦ rw (full, raised, Service.train_window) (abort-Sealed s)
    ]
  ]

  seal_and_train-Sealed :
      (s : Service F Model)
      → StandsAt s Phase.accepting
      → Sealed s (Service.seal_and_train fl config s)
  unfolding Service.seal_and_train Service.seal_window
  seal_and_train-Sealed s (state, (i, active, at)) =
      let (b, inside, _) =
        get_elem?-map stamp s.batchers i (s.window_n, Service.revision_of s.manifest) at in
      elim (Option-cases (seal_batch (config.world s.model) s.cooldown_map b)) [
        | inl raised ↦
            rw (active, inside, raised, Service.seal_and_train, Service.seal_window)
              (abort-Sealed s)
        | inr (r, sealed) ↦
            rw (active, inside, sealed, Service.seal_and_train, Service.seal_window)
              (train_window-Sealed
                (record (Service.set_state WindowState.training s) {
                  cooldown_map = r.1;
                  miner_scores_ema = update_ema fl (Service.hotkeys r.0) s.miner_scores_ema;
                  sealed = (b.window_start, r.0) ∷ s.sealed;
                })
                r.0)
      ]

  publish-announced :
      (revision : Option String) (batch : List (ValidSubmission F)) (trained : Bool)
      (s : Service F Model)
      → (announced (Service.publish fl config revision batch trained s) ≡ announced s)
        × ((Service.publish fl config revision batch trained s).phase ≡ Phase.archiving batch)
  unfolding Service.publish
  publish-announced revision batch trained s = ground arith

  Serve-announced :
      {s t : Service F Model}
      → Serve fl config s t
      → (announced t ≡ announced s) × (t.phase ≡ s.phase)
  unfolding Service.handle_submit Service.handle_work
  Serve-announced {s} (submits now r e) =
      let (same, _) = submit-face (config.world s.model) s.cooldown_map now r s.server s.batchers in
      rw e (ap (λ v. (v.1, s.window_n)) same, refl)
  Serve-announced {s} (works now e) =
      let (same, _) = work-face (config.world s.model) s.cooldown_map now s.server s.batchers in
      rw e (ap (λ v. (v.1, s.window_n)) same, refl)

  -- Every step of the service or of its server is a step of the announced life cycle, or shows
  -- nothing: windows are opened one after the other, each only after the last one has ended.
  pub Step-Cycle :
      {s t : Service F Model} → Coherent s → Step fl config s t → Cycle (announced s) (announced t)
  unfolding Service.open_window Service.set_window_randomness Service.archive_window Service.weigh
      Service.abort
  Step-Cycle c (serve a) = stays (Serve-announced a).0
  Step-Cycle {s} c (advance (opens p e)) =
      let stands = subst (StandsAt s) p c.stands in
      opens_next (current_state s c ∙ stands.0) (rw e refl)
  Step-Cycle {s} c (advance (randomizes randomness p e)) = stays (rw e refl)
  Step-Cycle {s} c (advance (seals p e)) =
      let (state, stamped) = subst (StandsAt s) p c.stands in
      let (window, _, shows) = seal_and_train-Sealed s (state, stamped) in
      let was = current_state s c ∙ state in
      elim shows [
        | inl publishing ↦ seals_it was (rw e (ground arith))
        | inr ready ↦ gives_up was (rw e (ground arith))
      ]
  Step-Cycle {s} c (advance (publishes batch trained revision p e)) =
      stays (rw e (publish-announced revision batch trained s).0)
  Step-Cycle {s} c (advance (archives batch uploaded p e)) =
      finishes (current_state s c ∙ (subst (StandsAt s) p c.stands).0) (rw e refl)
  Step-Cycle {s} c (advance (weighs block uids submitted p e)) = stays (rw e refl)
  Step-Cycle {s} c (advance (fails p e)) = elim p [
    | inl open_phase ↦
        gives_up (current_state s c ∙ (subst (StandsAt s) open_phase c.stands).0) (rw e refl)
    | inr weighing_phase ↦ stays (
        rw e (
          ap (λ v. (v, s.window_n))
            (sym (current_state s c ∙ (subst (StandsAt s) weighing_phase c.stands).0))))
  ]

  Phase-Advance :
      (s : Service F Model) (phase : Phase F)
      → s.phase ≡ phase
      → (t : Service F Model) × Advance fl config s t
  Phase-Advance s Phase.between p = (Service.open_window s, opens p refl)
  Phase-Advance s Phase.opened p = (Service.abort s, fails (inl p) refl)
  Phase-Advance s Phase.accepting p = (Service.seal_and_train fl config s, seals p refl)
  Phase-Advance s Phase.weighing p = (Service.abort s, fails (inr p) refl)
  Phase-Advance s (Phase.publishing batch trained) p =
      (Service.publish fl config none batch trained s, publishes batch trained none p refl)
  Phase-Advance s (Phase.archiving batch) p =
      (Service.archive_window fl config false batch s, archives batch false p refl)

  -- The next window is opened, or nearer.
  abbrev pub Closer : Service F Model → Service F Model → Type 0
  Closer s t =
      ((s.phase ≡ Phase.between) × (t.phase ≡ Phase.opened) × (t.window_n ≡ s.window_n + 1))
      ⊎ ((rank t.phase < rank s.phase) × (t.window_n ≡ s.window_n))

  Advance-Closer : {s t : Service F Model} → Coherent s → Advance fl config s t → Closer s t
  unfolding Service.open_window Service.set_window_randomness Service.archive_window Service.weigh
      Service.abort
  Advance-Closer {s} c (opens p e) = inl (p, rw e refl, rw e refl)
  Advance-Closer {s} c (randomizes randomness p e) = inr (rw (e, p) (omega arith), rw e refl)
  Advance-Closer {s} {t} c (seals p e) =
      let (window, less, _) = seal_and_train-Sealed s (subst (StandsAt s) p c.stands) in
      inr (subst (λ k. rank t.phase < k) (sym (ap rank p)) (rw e less), rw e window)
  Advance-Closer {s} c (publishes batch trained revision p e) =
      let (shown, archiving) = publish-announced revision batch trained s in
      inr (rw (e, archiving, p) (omega arith), rw e (ap (λ v. v.1) shown))
  Advance-Closer {s} c (archives batch uploaded p e) = inr (rw (e, p) (omega arith), rw e refl)
  Advance-Closer {s} c (weighs block uids submitted p e) = inr (rw (e, p) (omega arith), rw e refl)
  Advance-Closer {s} c (fails p e) = elim p [
    | inl q ↦ inr (rw (e, q) (omega arith), rw e refl)
    | inr q ↦ inr (rw (e, q) (omega arith), rw e refl)
  ]

  -- What a step brings: the coroutine's comes closer, the server's changes neither the phase nor
  -- the window.
  abbrev pub Progress : {s t : Service F Model} → Step fl config s t → Type 0
  Progress {s} {t} (advance _) = Closer s t
  Progress {s} {t} (serve _) = (t.phase ≡ s.phase) × (t.window_n ≡ s.window_n)

  -- The coroutine can go on after every step, and each of its steps, whatever the outside answers,
  -- opens the next window if none is open and else comes closer to that: the rank, at most 5,
  -- falls. The server's steps change neither the phase nor the window. So six steps of the
  -- coroutine suffice, from anywhere, to open the next window.
  pub Step-Progress :
      {s t : Service F Model} (step : Step fl config s t)
      → Coherent s
      → Progress step × ((u : Service F Model) × Advance fl config t u)
  Step-Progress {s} {t} (advance a) c = (Advance-Closer c a, Phase-Advance t t.phase refl)
  Step-Progress {s} {t} (serve a) c =
      let (shown, phase) = Serve-announced a in
      ((phase, ap (λ v. v.1) shown), Phase-Advance t t.phase refl)
