-- ===== src/Validator/Service/Tests.antt =====
-- The theorems on the service at a short run: window 3 is opened after window 2, a request for it
-- arrives and is judged, and the window is sealed.
use subnet.Base.{map, ◌∷◌, none, ℕ, ℤ, pos, some, List, [], ◌++◌, In, ◌≡◌, inl, inr, refl, ap}
use subnet.Samples.{fixed}
use subnet.Protocol.Samples.{request}
use subnet.Validator.Accepted.{ValidSubmission}
use subnet.Validator.Service
use subnet.Validator.Service.{Service, Config}
use subnet.Validator.Service.Samples.{
  history, restored, config, manifest, started, accepting, accepting-Reach, accepting-Coherent,
}
use subnet.Validator.Service.Steps.{
  Advance, Reach, opens, randomizes, seals, submits, works, advance, serve, here, next,
}
use subnet.Validator.Service.Coherence.{Coherent, Reach-start}
use subnet.Validator.Service.Replies.{expected_reply, expected_queue, handle_submit-Coherent}
use subnet.Validator.Service.Cycle.{Cycle, Progress, announced, Step-Cycle, Step-Progress}
use subnet.Validator.Service.Spacing.{Spaced}
use subnet.Validator.Service.Spacing.Restart.{archived}
use subnet.Validator.Service.Boot.{External, boot, boot-Spaced, cooldown_windows}

abbrev queued : Service ℤ ℕ
queued = (Service.handle_submit fixed config (pos 5) request accepting).1

abbrev judged : Service ℤ ℕ
judged = Service.handle_work fixed config (pos 6) queued

abbrev sealed : Service ℤ ℕ
sealed = Service.seal_and_train fixed config judged

seals_judged : Advance fixed config judged sealed
unfolding Service.open_window Service.set_window_randomness Service.handle_submit
    Service.handle_work
seals_judged = seals refl refl

sealed-Reach : Reach fixed config started sealed
sealed-Reach =
    next
      (next (next accepting-Reach (serve (submits (pos 5) request refl)))
        (serve (works (pos 6) refl)))
      (advance seals_judged)

Reach-start_example : Coherent sealed
Reach-start_example = Reach-start fixed config 0 restored 2 1 [] (some manifest) 100 sealed-Reach

judged-Coherent : Coherent judged
judged-Coherent = Reach-start fixed config 0 restored 2 1 [] (some manifest) 100 (
    next (next accepting-Reach (serve (submits (pos 5) request refl))) (serve (works (pos 6) refl)))

handle_submit-Coherent_example :
    ((Service.handle_submit fixed config (pos 5) request accepting).0
      ≡ expected_reply request accepting)
    × ((Service.handle_submit fixed config (pos 5) request accepting).1.server.submit_queue
        ≡ expected_queue request accepting)
    × ((Service.handle_submit fixed config (pos 5) request accepting).1.batchers
        ≡ accepting.batchers)
handle_submit-Coherent_example =
    handle_submit-Coherent fixed config (pos 5) request accepting accepting-Coherent

Step-Cycle_example : Cycle (announced judged) (announced sealed)
Step-Cycle_example = Step-Cycle fixed config judged-Coherent (advance seals_judged)

Step-Progress_example :
    Progress fixed config (advance seals_judged)
    × ((u : Service ℤ ℕ) × Advance fixed config sealed u)
Step-Progress_example = Step-Progress fixed config (advance seals_judged) judged-Coherent

-- R2 lists windows 1 and 2; window 2's batch is the history; HF and the chain fail.
abbrev outside : External
outside = record {
  window_keys = some (1 ∷ 2 ∷ []);
  commit_titles = none;
  score_archives = none;
  cooldown_archives = some (map archived history);
  current_block = none;
}

abbrev booted : Service ℤ ℕ
booted = boot fixed config 0 none outside

history_listed :
    (w : ℕ) (batch : List (ValidSubmission ℤ)) → In (w, batch) history → In w (1 ∷ 2 ∷ [])
history_listed w batch (inl e) = inr (inl (ap (λ v. v.0) e))
history_listed w batch (inr nothing) = absurd nothing

abbrev boot_accepting : Service ℤ ℕ
boot_accepting = Service.set_window_randomness "0aff" (Service.open_window booted)

boot_sealed-Reach : Reach fixed config booted (Service.seal_and_train fixed config boot_accepting)
unfolding boot Service.open_window Service.set_window_randomness
boot_sealed-Reach =
    next (next (next here (advance (opens refl refl))) (advance (randomizes "0aff" refl refl)))
      (advance (seals refl refl))

boot-Spaced_example :
    Spaced cooldown_windows ((Service.seal_and_train fixed config boot_accepting).sealed ++ history)
boot-Spaced_example =
    boot-Spaced fixed config 0 none outside (1 ∷ 2 ∷ []) history refl refl history_listed
      ((λ v old p nothing. absurd nothing), tt) boot_sealed-Reach
