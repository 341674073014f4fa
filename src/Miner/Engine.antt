-- ===== src/Miner/Engine.antt =====
-- miner/engine.py: the state of `MiningEngine` that the trigger loop and the fire path share, and
-- the tests that they make. The rollouts of an entry are a parameter. Settings that the code reads
-- from the environment are fields of `Settings`.
pub mod Fire
pub mod Trigger
mod Tests
use subnet.Base.{
  ℕ, zero, suc, ◌+◌, ◌-◌, ◌^◌, ℤ, Bool, true, false, not, ◌&&◌, ◌||◌, Option, none, some, List, [],
  ◌∷◌, ◌==◌, if◌then◌else◌, nat_eq, string_eq, elem, ltb, leb, String, length,
}
use subnet.Base.Dict.{Dict}
use subnet.Protocol.Bytes.{Bytes}
use subnet.Protocol.Reason.{is_open}
use subnet.Protocol.PromptRange.{window_prompt_range}
use subnet.Validator.Server.{StateReply}
use subnet.Miner.Mix.{entry_env_name}

-- A pool entry: a prompt with its rollouts, ready to be finalized.
pub record Entry (R : Type 0) : Type 0 where
  pub prompt_idx : ℤ
  pub env_name : Option String
  pub checkpoint_n : ℕ
  pub rollouts : R

pub record Settings : Type 0 where
  pub forced_seed_enforce : Bool
  pub drop_pool_on_ckpt : Bool
  pub prompt_range_from_window : ℕ
  pub prompt_range_size : ℕ
  pub active_envs : List String
  -- `active_envs[0]`
  pub first_env : String
  pub env_len : String → ℕ
  -- the SHA-256 that `window_prompt_range` takes of the randomness and the environment's name
  pub digest : String → String → Bytes

abbrev pub max_submissions_per_hotkey_per_window : ℕ
max_submissions_per_hotkey_per_window = 8

unfoldable pub drop_pool_on_ckpt_advance : Settings → Bool
drop_pool_on_ckpt_advance s = if s.forced_seed_enforce then true else s.drop_pool_on_ckpt

unfoldable pub pool_persist_enabled : Settings → ℕ → Bool
pool_persist_enabled s prompt_range_from_window =
    (prompt_range_from_window == 2 ^ 63 - 1) && not s.forced_seed_enforce

unfoldable pub active_prompt_range : Settings → ℕ → String → String → Option (ℕ × ℕ)
active_prompt_range s window_n randomness env =
    if ltb window_n s.prompt_range_from_window || (randomness == "")
    then none
    else some (window_prompt_range (s.digest randomness env) (s.env_len env) s.prompt_range_size)

-- `is not None`
abbrev pub is_some : {A : Type 0} → Option A → Bool
is_some none = false
is_some (some a) = true

unfoldable pub fire_as_ready : Settings → ℕ → String → Bool
unfolding active_prompt_range
fire_as_ready s window_n randomness =
    if s.forced_seed_enforce
    then true
    else is_some (active_prompt_range s window_n randomness s.first_env)

unfoldable pub should_fire_for_window : StateReply → List ℕ → List ℕ → ℕ → Bool
should_fire_for_window state fired_windows forfeit_windows pool_size =
    not (elem state.window_n fired_windows)
    && not (elem state.window_n forfeit_windows)
    && is_open state.state
    && not (state.randomness == "")
    && ltb 0 pool_size

-- What the pull comes to: nothing to do, a download or load that raised, or the new number and
-- revision. Whether the download went through is an argument.
pub data Pull : Type 0 where
  unchanged failed : Pull
  advanced : ℕ → String → Pull

unfoldable pub pull_from : ℕ → Option String → Option String → Bool → Pull
pull_from n none revision downloads = Pull.unchanged
pull_from n (some repo) none downloads = Pull.unchanged
pull_from n (some repo) (some revision) false = Pull.failed
pull_from n (some repo) (some revision) true = Pull.advanced n revision

unfoldable pub maybe_pull_checkpoint : StateReply → ℕ → Bool → Pull
unfolding pull_from
maybe_pull_checkpoint state local_n downloads =
    if leb state.checkpoint_n local_n
    then Pull.unchanged
    else pull_from state.checkpoint_n state.checkpoint_repo_id state.checkpoint_revision downloads

-- A task of the fire path: not started, or waiting for the answers to the entries it took.
pub data Stage (R : Type 0) : Type 0 where
  scheduled : Stage R
  posting : List (Entry R) → Stage R

pub record Task (R : Type 0) : Type 0 where
  pub state : StateReply
  pub budget : ℕ
  pub stage : Stage R

pub record Engine (R : Type 0) : Type 0 where
  pub pool : List (Entry R)
  pub submitted_count : Dict ℕ ℕ
  pub fired_windows : List ℕ
  pub logged_empty_windows : List ℕ
  pub cooldowns : Dict String (List ℤ)
  pub cached_randomness : String
  pub cached_window_n : ℕ
  pub local_n : ℕ
  pub local_hash : String
  -- `_inflight_fire_tasks`
  pub tasks : List (Task R)

abbrev pub env_name_of : {R : Type 0} → Settings → Entry R → String
env_name_of s entry = entry_env_name entry.env_name s.first_env
