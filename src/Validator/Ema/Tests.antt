-- ===== src/Validator/Ema/Tests.antt =====
-- The theorems on scores at concrete values.
use subnet.Base.{ℕ, ◌*ℤ◌, pos, true, List, [], ◌∷◌, String, ◌≡◌, inl, refl}
use subnet.Samples.{fixed}
use subnet.Validator.Archive.{ArchivedWindow}
use subnet.Validator.Ema.{update_all, miner_weights, weights_to_set}
use subnet.Validator.Ema.Replay.{replay_ema}
use subnet.Validator.Ema.WeightOnly.{weight_only_replay_ema}
use subnet.Validator.Ema.Scores.{IsDue, replay_ema-update_all, weights_to_set-IsDue}

abbrev window : ℕ → String → ArchivedWindow
window w hotkey = record {
  window_start = pos w;
  batch = record { hotkey = hotkey; prompt_idx = pos 1 } ∷ [];
}

abbrev two_windows : List ArchivedWindow
two_windows = window 1 "a" ∷ window 2 "b" ∷ []

replay_ema-update_all_example :
    (replay_ema fixed two_windows ≡ update_all fixed two_windows [])
    × (weight_only_replay_ema fixed two_windows ≡ update_all fixed two_windows [])
replay_ema-update_all_example = replay_ema-update_all fixed two_windows ((refl, tt), (tt, tt))

weights_to_set-IsDue_example :
    IsDue fixed (("a", 4) ∷ []) (("a", pos 50) ∷ []) (4, pos 50) × (true ≡ true)
unfolding weights_to_set miner_weights ◌*ℤ◌
weights_to_set-IsDue_example =
    weights_to_set-IsDue fixed (("a", 4) ∷ []) (("a", pos 50) ∷ []) (4, pos 50) (inl refl)
