-- ===== src/Validator/Cooldown.antt =====
-- validator/cooldown.py: `CooldownMap`, the window in which each prompt was last batched.
-- Python's integers are signed, and so are these: the guards of `record_batched` are the code's.
-- `none` is a raised ValueError. The JSON files of `save` and `load` are not modelled: the
-- validator rebuilds the map from the archive.
pub mod Laws
pub mod Rebuild
pub mod Restart
mod Tests
use subnet.Base.{
  ℕ, zero, ℤ, pos, negsuc, ◌-ℤ◌, ltb_ℤ, leb_ℤ, Bool, true, false, Option, none, some, List, [], ◌∷◌,
  if◌then◌else◌, ◌==◌, int_eq, nat_eq,
}
use subnet.Base.Dict
use subnet.Base.Dict.{Dict}
use subnet.Validator.Archive.{BatchEntry, ArchivedWindow}

pub record CooldownMap : Type 0 where
  pub cooldown_windows : ℕ
  pub last_batched : Dict ℤ ℤ

-- `CooldownMap(cooldown_windows=n)`
pub init : ℤ → Option CooldownMap
init (negsuc _) = none
init (pos n) = some (record { cooldown_windows = n; last_batched = [] })

unfoldable pub record_batched : ℤ → ℤ → CooldownMap → Option CooldownMap
record_batched prompt_idx window m =
    if ltb_ℤ prompt_idx (pos 0)
    then none
    else if ltb_ℤ window (pos 0)
    then none
    else some (record m { last_batched = Dict.set prompt_idx window m.last_batched })

-- The loop of `seal_batch` (validator/batcher.py): every prompt of a batch is recorded.
unfoldable pub record_all : ℤ → List ℤ → CooldownMap → Option CooldownMap
unfolding record_batched
record_all window [] m = some m
record_all window (idx ∷ prompts) m = elim (record_batched idx window m) [
  | none ↦ none
  | some m' ↦ record_all window prompts m'
]

-- `current_window - last < cooldown_windows`
unfoldable pub is_recent : ℕ → ℤ → ℤ → Bool
is_recent cooldown_windows current_window last =
    ltb_ℤ (current_window -ℤ last) (pos cooldown_windows)

unfoldable pub is_in_cooldown : ℤ → ℤ → CooldownMap → Bool
unfolding is_recent
is_in_cooldown prompt_idx current_window m =
    if m.cooldown_windows == 0 then false else elim (Dict.lookup prompt_idx m.last_batched) [
      | none ↦ false
      | some last ↦ is_recent m.cooldown_windows current_window last
    ]

-- The comprehension over the map's items.
recent_prompts : ℕ → ℤ → Dict ℤ ℤ → List ℤ
unfolding is_recent
recent_prompts cooldown_windows current_window [] = []
recent_prompts cooldown_windows current_window ((idx, last) ∷ d) =
    if is_recent cooldown_windows current_window last
    then idx ∷ recent_prompts cooldown_windows current_window d
    else recent_prompts cooldown_windows current_window d

unfoldable pub current_cooldown_set : ℤ → CooldownMap → List ℤ
unfolding recent_prompts
current_cooldown_set current_window m =
    if m.cooldown_windows == 0
    then []
    else recent_prompts m.cooldown_windows current_window m.last_batched

-- One entry of an archived batch, in the inner loop of `rebuild_from_history`.
rebuild_entry : ℤ → Dict ℤ ℤ → BatchEntry → Dict ℤ ℤ
rebuild_entry w d entry =
    if ltb_ℤ (Dict.get entry.prompt_idx (negsuc 0) d) w then Dict.set entry.prompt_idx w d else d

rebuild_batch : ℤ → List BatchEntry → Dict ℤ ℤ → Dict ℤ ℤ
unfolding rebuild_entry
rebuild_batch w [] d = d
rebuild_batch w (entry ∷ batch) d = rebuild_batch w batch (rebuild_entry w d entry)

pub rebuild_windows : ℤ → List ArchivedWindow → Dict ℤ ℤ → Dict ℤ ℤ
unfolding rebuild_batch
rebuild_windows horizon [] d = d
rebuild_windows horizon (r ∷ archived) d =
    rebuild_windows horizon archived
      (if leb_ℤ r.window_start horizon then d else rebuild_batch r.window_start r.batch d)

unfoldable pub rebuild_from_history : List ArchivedWindow → ℤ → CooldownMap → CooldownMap
unfolding rebuild_windows
rebuild_from_history archived_windows current_window m = record m {
  last_batched = rebuild_windows (current_window -ℤ pos m.cooldown_windows) archived_windows [];
}
