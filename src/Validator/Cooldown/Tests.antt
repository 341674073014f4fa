-- ===== src/Validator/Cooldown/Tests.antt =====
-- The theorems on the cooldown map at concrete values.
use subnet.Base.{ℕ, pos, List, [], ◌∷◌, nat_eq, int_eq, ◌≡◌, refl, arith}
use subnet.Validator.Archive.{ArchivedWindow}
use subnet.Validator.Cooldown.{
  CooldownMap, record_batched, record_all, is_in_cooldown, rebuild_from_history,
}
use subnet.Validator.Cooldown.Restart.{seal_history, seal_history-rebuild_from_history}

abbrev empty : CooldownMap
empty = record { cooldown_windows = 3; last_batched = [] }

abbrev used : CooldownMap
used = record { cooldown_windows = 3; last_batched = (pos 9, pos 2) ∷ (pos 7, pos 1) ∷ [] }

abbrev window : ℕ → ℕ → ArchivedWindow
window w idx = record {
  window_start = pos w;
  batch = record { hotkey = "hk"; prompt_idx = pos idx } ∷ [];
}

abbrev archive : List ArchivedWindow
archive = window 1 7 ∷ window 4 9 ∷ window 5 7 ∷ []

abbrev live : CooldownMap
live = record { cooldown_windows = 3; last_batched = (pos 7, pos 5) ∷ (pos 9, pos 4) ∷ [] }

seal_history-rebuild_from_history_example :
    is_in_cooldown (pos 7) (pos 7) live
    ≡ is_in_cooldown (pos 7) (pos 7) (rebuild_from_history archive (pos 6) empty)
unfolding seal_history record_all record_batched
seal_history-rebuild_from_history_example =
    seal_history-rebuild_from_history archive (pos 6) (pos 7) (pos 7) empty {live = live} refl
      ((omega arith, (omega arith, tt)), ((omega arith, tt), (tt, tt)))
      (omega arith, (omega arith, (omega arith, tt))) refl (omega arith)
