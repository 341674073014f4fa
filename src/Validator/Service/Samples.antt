-- ===== src/Validator/Service/Samples.antt =====
-- A service with an open window that the examples share: window 3, after window 2.
use subnet.Base.{ℕ, ◌+◌, ℤ, pos, true, some, List, [], ◌∷◌, map, refl}
use subnet.Samples.{fixed}
use subnet.Validator.Samples.{world, cooldown, submission}
use subnet.Validator.Server.{ManifestEntry}
use subnet.Validator.Accepted.{ValidSubmission}
use subnet.Validator.Cooldown.{CooldownMap, rebuild_from_history}
use subnet.Validator.Service.Spacing.Restart.{archived}
use subnet.Validator.Service
use subnet.Validator.Service.{Service, Config}
use subnet.Validator.Service.Steps.{start, Reach, opens, randomizes, advance, here, next}
use subnet.Validator.Service.Coherence.{Coherent, Reach-start}

-- A model is the number of its training steps.
abbrev pub config : Config ℤ ℕ
config = record {
  world = λ _. world;
  train_step = λ model batch window. (model + 1, true);
  sign = λ n revision. revision;
  repo_id = "repo";
  weight_submission_interval = 360;
}

abbrev pub manifest : ManifestEntry
manifest = record { checkpoint_n = 1; repo_id = "repo"; revision = "c"; signature = "s" }

-- Prompt 9 was batched at window 2, before the restart.
abbrev pub history : List (ℕ × List (ValidSubmission ℤ))
history = (2, submission 9 "a" (pos 1) ∷ []) ∷ []

abbrev pub restored : CooldownMap
restored = rebuild_from_history (map archived history) (pos 2) cooldown

abbrev pub started : Service ℤ ℕ
started = start 0 restored 2 1 [] (some manifest) 100

abbrev pub accepting : Service ℤ ℕ
accepting = Service.set_window_randomness "0aff" (Service.open_window started)

pub accepting-Reach : Reach fixed config started accepting
unfolding Service.open_window
accepting-Reach =
    next (next here (advance (opens refl refl))) (advance (randomizes "0aff" refl refl))

pub accepting-Coherent : Coherent accepting
accepting-Coherent = Reach-start fixed config 0 restored 2 1 [] (some manifest) 100 accepting-Reach
