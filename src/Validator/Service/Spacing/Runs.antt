-- ===== src/Validator/Service/Spacing/Runs.antt =====
-- validator/service.py: the cooldown over the runs of the service and its server.
use subnet.Base.{
  Option-cases, ℕ, String, suc, ◌≤◌, Bool, Option, List, ◌∷◌, ◌++◌, if◌then◌else◌, nat_eq, int_eq,
  ◌≡◌, inl, inr, refl, sym, ap, subst, ◌∙◌, arith, Bool-cases, leb, length,
}
use subnet.Base.Float.{Float}
use subnet.Protocol.Constants.{b_batch}
use subnet.Validator.Accepted.{ValidSubmission}
use subnet.Validator.Batcher.State.{seal_batch}
use subnet.Validator.Service
use subnet.Validator.Service.{Service, Config, Phase}
use subnet.Protocol.Reason.{WindowState}
use subnet.Validator.Server.Stamps.{stamp, get_elem?-map}
use subnet.Validator.Ema.{update_ema}
use subnet.Validator.Service.Coherence.{Coherent, StandsAt, Reach-Coherent}
use subnet.Validator.Service.Steps.{
  Advance, Serve, Reach, opens, randomizes, seals, publishes, archives, weighs, fails, submits,
  works, advance, serve, here, next,
}
use subnet.Validator.Service.Replies.{in_window}
use subnet.Validator.Service.Spacing.{IsSpaced, seal_batch-IsSpaced}

-- The window that is to be sealed next.
abbrev pub horizon : {F Model : Type 0} → Service F Model → ℕ
horizon s = if in_window s.phase then s.window_n else suc s.window_n

horizon-accepting :
    {F Model : Type 0} (s : Service F Model) → s.phase ≡ Phase.accepting → horizon s ≡ s.window_n
horizon-accepting s p = rw p refl

horizon-le : {F Model : Type 0} (s : Service F Model) → horizon s ≤ suc s.window_n
horizon-le s = ground arith

module _ {F Model : Type 0} (cd : ℕ) (history : List (ℕ × List (ValidSubmission F))) where
  abbrev pub SpacedAt : Service F Model → Type 0
  SpacedAt s = IsSpaced cd s.cooldown_map (s.sealed ++ history) (horizon s)

  -- A step that seals nothing.
  kept-SpacedAt :
      (s t : Service F Model)
      → t.cooldown_map ≡ s.cooldown_map
      → t.sealed ≡ s.sealed
      → horizon s ≤ horizon t
      → SpacedAt s
      → SpacedAt t
  kept-SpacedAt s t same_map same_log up i =
      let later : IsSpaced cd s.cooldown_map (s.sealed ++ history) (horizon t) = record {
        windows = i.windows;
        past = λ w batch mem. omega (arith, up, i.past w batch mem);
        recorded = λ w batch p mem inside. elim (i.recorded w batch p mem inside) [
          | inl (v, e, le, lt) ↦ inl (v, e, le, omega (arith, up, lt))
          | inr expired ↦ inr (omega (arith, up, expired))
        ];
        spaced = i.spaced;
      } in
      subst (λ m. IsSpaced cd m (t.sealed ++ history) (horizon t)) (sym same_map)
        (subst (λ l. IsSpaced cd s.cooldown_map (l ++ history) (horizon t)) (sym same_log) later)

module _ {F Model : Type 0} (fl : Float F) (config : Config F Model) (cd : ℕ)
    (history : List (ℕ × List (ValidSubmission F))) where
  train_window-kept :
      (s : Service F Model) (batch : List (ValidSubmission F))
      → ((Service.train_window fl config batch s).cooldown_map ≡ s.cooldown_map)
        × ((Service.train_window fl config batch s).sealed ≡ s.sealed)
        × (horizon (Service.train_window fl config batch s) ≡ suc s.window_n)
  unfolding Service.train_window Service.abort
  train_window-kept s batch = elim (Bool-cases (leb b_batch (length batch))) [
    | inr partial ↦ rw (partial, Service.train_window) (refl, refl, refl)
    | inl full ↦ elim (Bool-cases (config.train_step s.model batch s.window_n).1) [
      | inl done ↦ rw (full, done, Service.train_window) (refl, refl, refl)
      | inr raised ↦ rw (full, raised, Service.train_window) (refl, refl, refl)
    ]
  ]

  trained-SpacedAt :
      (s : Service F Model) (batch : List (ValidSubmission F))
      → IsSpaced cd s.cooldown_map (s.sealed ++ history) (suc s.window_n)
      → SpacedAt cd history (Service.train_window fl config batch s)
  trained-SpacedAt s batch sp =
      let (same_map, same_log, up) = train_window-kept s batch in
      let t = Service.train_window fl config batch s in
      subst (λ h. IsSpaced cd t.cooldown_map (t.sealed ++ history) h) (sym up)
        (subst (λ m. IsSpaced cd m (t.sealed ++ history) (suc s.window_n)) (sym same_map)
          (subst (λ l. IsSpaced cd s.cooldown_map (l ++ history) (suc s.window_n)) (sym same_log)
            sp))

  seal_and_train-SpacedAt :
      (s : Service F Model)
      → s.phase ≡ Phase.accepting
      → StandsAt s Phase.accepting
      → SpacedAt cd history s
      → SpacedAt cd history (Service.seal_and_train fl config s)
  unfolding Service.seal_and_train Service.seal_window Service.abort
  seal_and_train-SpacedAt s p (state, (i, active, at)) sp =
      let (b, inside, stamped) =
        get_elem?-map stamp s.batchers i (s.window_n, Service.revision_of s.manifest) at in
      let window : b.window_start ≡ s.window_n = ap (λ v. v.0) stamped in
      elim (Option-cases (seal_batch (config.world s.model) s.cooldown_map b)) [
        | inl raised ↦
            rw (active, inside, raised, Service.seal_and_train, Service.seal_window)
              (kept-SpacedAt cd history s (Service.abort s) refl refl (horizon-le s) sp)
        | inr (r, sealed) ↦
            let before : IsSpaced cd s.cooldown_map (s.sealed ++ history) b.window_start =
              subst (λ h. IsSpaced cd s.cooldown_map (s.sealed ++ history) h)
                (horizon-accepting s p ∙ sym window) sp in
            let after : IsSpaced cd r.1 ((b.window_start, r.0) ∷ (s.sealed ++ history))
                (suc s.window_n) =
              subst (λ h. IsSpaced cd r.1 ((b.window_start, r.0) ∷ (s.sealed ++ history)) (suc h))
                window
                (seal_batch-IsSpaced (config.world s.model) cd s.cooldown_map r.1 b
                  (s.sealed ++ history) r.0 sealed before) in
            rw (active, inside, sealed, Service.seal_and_train, Service.seal_window)
              (trained-SpacedAt
                (record (Service.set_state WindowState.training s) {
                  cooldown_map = r.1;
                  miner_scores_ema = update_ema fl (Service.hotkeys r.0) s.miner_scores_ema;
                  sealed = (b.window_start, r.0) ∷ s.sealed;
                })
                r.0 after)
      ]

  publish-kept :
      (revision : Option String) (batch : List (ValidSubmission F)) (trained : Bool)
      (s : Service F Model)
      → ((Service.publish fl config revision batch trained s).cooldown_map ≡ s.cooldown_map)
        × ((Service.publish fl config revision batch trained s).sealed ≡ s.sealed)
        × (horizon (Service.publish fl config revision batch trained s) ≡ suc s.window_n)
  unfolding Service.publish
  publish-kept revision batch trained s = ground arith

  Advance-SpacedAt :
      {s t : Service F Model}
      → Coherent s
      → Advance fl config s t
      → SpacedAt cd history s
      → SpacedAt cd history t
  unfolding Service.open_window Service.set_window_randomness Service.archive_window Service.weigh
      Service.abort
  Advance-SpacedAt {s} {t} c (opens p e) sp =
      kept-SpacedAt cd history s t (rw e refl) (rw e refl) (rw (e, p) (omega arith)) sp
  Advance-SpacedAt {s} {t} c (randomizes randomness p e) sp =
      kept-SpacedAt cd history s t (rw e refl) (rw e refl) (rw (e, p) (omega arith)) sp
  Advance-SpacedAt {s} {t} c (seals p e) sp =
      subst (SpacedAt cd history) (sym e)
        (seal_and_train-SpacedAt s p (subst (StandsAt s) p c.stands) sp)
  Advance-SpacedAt {s} {t} c (publishes batch trained revision p e) sp =
      kept-SpacedAt cd history s t (rw e (publish-kept revision batch trained s).0)
        (rw e (publish-kept revision batch trained s).1)
        (omega (arith, horizon-le s, ap horizon e, (publish-kept revision batch trained s).2)) sp
  Advance-SpacedAt {s} {t} c (archives batch uploaded p e) sp =
      kept-SpacedAt cd history s t (rw e refl) (rw e refl) (rw (e, p) (omega arith)) sp
  Advance-SpacedAt {s} {t} c (weighs block uids submitted p e) sp =
      kept-SpacedAt cd history s t (rw e refl) (rw e refl) (rw (e, p) (omega arith)) sp
  Advance-SpacedAt {s} {t} c (fails p e) sp =
      kept-SpacedAt cd history s t (rw e refl) (rw e refl) (rw e (horizon-le s)) sp

  Serve-SpacedAt :
      {s t : Service F Model} → Serve fl config s t → SpacedAt cd history s → SpacedAt cd history t
  unfolding Service.handle_submit Service.handle_work
  Serve-SpacedAt {s} {t} (submits now r e) sp =
      kept-SpacedAt cd history s t (rw e refl) (rw e refl) (rw e (omega arith)) sp
  Serve-SpacedAt {s} {t} (works now e) sp =
      kept-SpacedAt cd history s t (rw e refl) (rw e refl) (rw e (omega arith)) sp

  pub Reach-SpacedAt :
      {s t : Service F Model}
      → Coherent s
      → SpacedAt cd history s
      → Reach fl config s t
      → SpacedAt cd history t
  Reach-SpacedAt c sp here = sp
  Reach-SpacedAt c sp (next r (advance a)) =
      Advance-SpacedAt (Reach-Coherent fl config c r) a (Reach-SpacedAt c sp r)
  Reach-SpacedAt c sp (next r (serve a)) = Serve-SpacedAt a (Reach-SpacedAt c sp r)
