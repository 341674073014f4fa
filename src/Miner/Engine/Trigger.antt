-- ===== src/Miner/Engine/Trigger.antt =====
-- miner/engine.py: one iteration of `_trigger_loop`, and the interleaving of the loop with the fire
-- tasks and the generator.
pub mod Within
pub mod Scheduling
pub mod Budget
pub mod Silence
pub mod Flip
use subnet.Base.{
  ℕ, zero, suc, ◌+◌, ◌-◌, max, ◌≤◌, ℤ, nat_eq, string_eq, Bool, true, false, not, ◌&&◌, ◌||◌,
  Option, none, some, List, [], ◌∷◌, ◌++◌, map, ◌==◌, if◌then◌else◌, elem, length, leb, ltb, keep,
  String, ◌≡◌,
}
use subnet.Base.Dict
use subnet.Base.Dict.{Dict}
use subnet.Protocol.Reason.{is_open}
use subnet.Validator.Server.{StateReply}
use subnet.Miner.Engine.{
  Entry, Settings, Engine, Task, Stage, Pull, is_some, drop_pool_on_ckpt_advance,
  active_prompt_range, fire_as_ready, should_fire_for_window, maybe_pull_checkpoint,
  max_submissions_per_hotkey_per_window,
}
use subnet.Miner.Engine.Fire.{drain_pool, requeue, Answer}

-- The polls of the other environments; `none` is a poll that failed.
unfoldable pub refresh_cooldowns :
    List (String × Option (List ℤ)) → Dict String (List ℤ) → Dict String (List ℤ)
refresh_cooldowns [] cooldowns = cooldowns
refresh_cooldowns ((env, none) ∷ polls) cooldowns = refresh_cooldowns polls cooldowns
refresh_cooldowns ((env, some prompts) ∷ polls) cooldowns =
    refresh_cooldowns polls (Dict.set env prompts cooldowns)

-- `w >= state.window_n - 64`, without the negative numbers.
abbrev pub is_within_64 : ℕ → ℕ → Bool
is_within_64 window_n w = leb window_n (w + 64)

-- The engine, what it has posted for each window, and the highest window it has polled.
pub record Run (R : Type 0) : Type 0 where
  pub engine : Engine R
  pub sent : List (ℕ × Entry R)
  pub peak : ℕ

module _ {R : Type 0} where
  -- Whether the randomness has flipped to a new one under which the pool cannot be submitted.
  unfoldable pub flips : Settings → StateReply → Engine R → Bool
  unfolding active_prompt_range
  flips s state e =
      not (state.randomness == "")
      && not (state.randomness == e.cached_randomness)
      && (s.forced_seed_enforce
          || is_some (active_prompt_range s state.window_n state.randomness s.first_env))

  unfoldable pub flush : Settings → StateReply → Engine R → Engine R
  unfolding flips
  flush s state e = if flips s state e then record e { pool = [] } else e

  unfoldable pub cache_randomness : StateReply → Engine R → Engine R
  cache_randomness state e =
      if state.randomness == ""
      then e
      else record e { cached_randomness = state.randomness; cached_window_n = state.window_n }

  unfoldable pub refresh :
      Settings → StateReply → List (String × Option (List ℤ)) → Engine R → Engine R
  unfolding refresh_cooldowns flush cache_randomness
  refresh s state polls e = cache_randomness state (
      flush s state (record e {
        cooldowns =
            refresh_cooldowns polls (Dict.set s.first_env state.cooldown_prompts e.cooldowns);
      }))

  unfoldable pub advance : Settings → ℕ → String → Engine R → Engine R
  advance s n revision e = record e {
    pool = if drop_pool_on_ckpt_advance s then [] else e.pool;
    local_n = n;
    local_hash = revision;
  }

  abbrev pub schedule : StateReply → ℕ → Engine R → Engine R
  schedule state budget e = record e {
    tasks = e.tasks ++ (record { state = state; budget = budget; stage = Stage.scheduled }) ∷ [];
  }

  abbrev pub no_tasks : List (Task R) → Bool
  no_tasks [] = true
  no_tasks (t ∷ tasks) = false

  -- The branch of the armed window: fire what is ready, one task at a time.
  unfoldable pub fire_ready : StateReply → Engine R → Engine R
  fire_ready state e =
      let remaining =
        max_submissions_per_hotkey_per_window - Dict.get state.window_n 0 e.submitted_count in
      if is_open state.state
        && not (state.randomness == "")
        && ltb 0 remaining
        && ltb 0 (length e.pool)
        && no_tasks e.tasks
      then schedule state remaining e
      else e

  -- The branches of the legacy burst.
  unfoldable pub fire_burst : StateReply → Engine R → Engine R
  unfolding should_fire_for_window
  fire_burst state e =
      if should_fire_for_window state e.fired_windows e.logged_empty_windows (length e.pool)
      then schedule state max_submissions_per_hotkey_per_window
          (record e { fired_windows = state.window_n ∷ e.fired_windows })
      else if not (elem state.window_n e.fired_windows)
          && not (elem state.window_n e.logged_empty_windows)
          && is_open state.state
          && not (state.randomness == "")
          && (length e.pool == 0)
      then record e { logged_empty_windows = state.window_n ∷ e.logged_empty_windows }
      else e

  unfoldable pub fire_branch : Settings → StateReply → Engine R → Engine R
  unfolding fire_as_ready fire_ready fire_burst
  fire_branch s state e =
      if fire_as_ready s state.window_n state.randomness
      then fire_ready state e
      else fire_burst state e

  unfoldable pub prune_old : ℕ → Engine R → Engine R
  prune_old window_n e = record e {
    submitted_count = keep (λ c. is_within_64 window_n c.0) e.submitted_count;
    fired_windows = keep (is_within_64 window_n) e.fired_windows;
    logged_empty_windows = keep (is_within_64 window_n) e.logged_empty_windows;
  }

  unfoldable pub tick_after : Settings → StateReply → Pull → Engine R → Engine R
  unfolding advance fire_branch prune_old
  tick_after s state (Pull.advanced n revision) e = advance s n revision e
  tick_after s state Pull.unchanged e = prune_old state.window_n (fire_branch s state e)
  tick_after s state Pull.failed e = prune_old state.window_n (fire_branch s state e)

  -- An iteration with the state it got, the other polls, and whether a download would go through.
  unfoldable pub tick :
      Settings → StateReply → List (String × Option (List ℤ)) → Bool → Engine R → Engine R
  unfolding refresh maybe_pull_checkpoint tick_after
  tick s state polls downloads e =
      tick_after s state (maybe_pull_checkpoint state e.local_n downloads) (refresh s state polls e)

  -- A scheduled task between two others runs up to its `gather`; it ends if it took nothing.
  unfoldable pub start_task :
      Settings → List (Task R) → Task R → List (Task R) → Engine R → Engine R × List (Entry R)
  unfolding drain_pool
  start_task s before t after e =
      let (e', fire) = drain_pool s t.state t.budget e in
      (
        record e' {
          tasks =
              if length fire == 0
              then before ++ after
              else before ++ record t { stage = Stage.posting fire } ∷ after;
        },
        fire,
      )

  -- The generator's append at the end of a bake (`_grade_chunk_streaming`). The asynchronous bake
  -- loop, which compares the randomness once before it grades, is not modelled.
  unfoldable pub append_entry : Settings → Entry R → Engine R → Engine R
  append_entry s entry e =
      if drop_pool_on_ckpt_advance s && not (entry.checkpoint_n == e.local_n)
      then e
      else record e { pool = e.pool ++ entry ∷ [] }

  abbrev pub posted : ℕ → List (Entry R) → List (ℕ × Entry R)
  posted w fire = map (λ entry. (w, entry)) fire

  -- What the coroutines do between two awaits: an iteration awaits the checkpoint's download
  -- between its refresh and its decision. A decision does not go back more than 64 windows.
  pub data Move (s : Settings) (w : Run R) : Run R → Type 0 where
    refreshes :
        (state : StateReply) (polls : List (String × Option (List ℤ)))
        → Move s w (record w { engine = refresh s state polls w.engine })
    decides :
        (state : StateReply) (pull : Pull)
        → w.peak ≤ state.window_n + 64
        → Move s w (record w {
          engine = tick_after s state pull w.engine;
          peak = max w.peak state.window_n;
        })
    fire :
        (before : List (Task R)) (t : Task R) (after : List (Task R))
        → w.engine.tasks ≡ before ++ t ∷ after
        → t.stage ≡ Stage.scheduled
        → Move s w (record w {
          engine = (start_task s before t after w.engine).0;
          sent = w.sent ++ posted t.state.window_n (start_task s before t after w.engine).1;
        })
    finish :
        (before : List (Task R)) (t : Task R) (after : List (Task R))
        (results : List (Entry R × Answer))
        → w.engine.tasks ≡ before ++ t ∷ after
        → t.stage ≡ Stage.posting (map (λ r. r.0) results)
        → Move s w
            (record w { engine = requeue results (record w.engine { tasks = before ++ after }) })
    bake : (entry : Entry R) → Move s w (record w { engine = append_entry s entry w.engine })

  pub data Moves (s : Settings) (w : Run R) : Run R → Type 0 where
    here : Moves s w w
    next : {v u : Run R} → Moves s w v → Move s v u → Moves s w u
