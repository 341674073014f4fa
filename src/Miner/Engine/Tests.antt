-- ===== src/Miner/Engine/Tests.antt =====
-- The theorems on the trigger loop at concrete states.
use subnet.Base.{
  ◌+◌, ◌≤◌, ℤ, pos, true, false, none, some, [], ◌∷◌, ◌++◌, not, keep, take, drop, String, ◌≡◌,
  refl, arith, nat_eq, string_eq,
}
use subnet.Protocol.Reason.{WindowState}
use subnet.Validator.Server.{Server, StateReply, state_reply, answer}
use subnet.Validator.Samples.{cooldown, opened}
use subnet.Validator.Cooldown.{current_cooldown_set}
use subnet.Protocol.PromptRange.{window_prompt_range, from_bytes}
use subnet.Base.{sorted}
use subnet.Miner.Mix.{entry_env_name}
use subnet.Base.{◌-ℤ◌}
use subnet.Miner.Engine.{
  Entry, Settings, Engine, Task, Stage, Pull, active_prompt_range,
  max_submissions_per_hotkey_per_window,
}
use subnet.Miner.Engine.Fire.{drain, drain_pool, is_stale}
use subnet.Miner.Engine.Fire.Laws.{drain_lem}
use subnet.Miner.Engine.Trigger
use subnet.Miner.Engine.Trigger.{flips, refresh, tick_after, tick, append_entry, Run, Move, Moves}
use subnet.Miner.Engine.Trigger.Within.{sent_in, reserved}
use subnet.Miner.Engine.Trigger.Budget.{fresh, Moves-budget}
use subnet.Miner.Engine.Trigger.Silence.{tick-state_reply}
use subnet.Miner.Engine.Trigger.Flip.{late_entry_is_fired}

-- Forced seeds, one environment of 1000 prompts, a slice of 1000: every prompt is in it.
abbrev settings : Settings
settings = record {
  forced_seed_enforce = true;
  drop_pool_on_ckpt = false;
  prompt_range_from_window = 0;
  prompt_range_size = 1000;
  active_envs = "math" ∷ [];
  first_env = "math";
  env_len = λ _. 1000;
  digest = λ _ _. [];
}

abbrev entry : ℤ → String → Entry String
entry prompt_idx baked_under = record {
  prompt_idx = prompt_idx;
  env_name = none;
  checkpoint_n = 4;
  rollouts = baked_under;
}

abbrev reply : String → StateReply
reply randomness = record {
  state = WindowState.open_window;
  window_n = 9;
  anchor_block = 9;
  cooldown_prompts = pos 5 ∷ [];
  valid_submissions = 0;
  checkpoint_n = 4;
  checkpoint_repo_id = some "repo";
  checkpoint_revision = some "c";
  randomness = randomness;
}

-- Three entries are ready; prompt 5 is in cooldown.
abbrev engine : Engine String
engine = record {
  pool = entry (pos 3) "aa" ∷ entry (pos 5) "aa" ∷ entry (pos 7) "aa" ∷ [];
  submitted_count = [];
  fired_windows = [];
  logged_empty_windows = [];
  cooldowns = [];
  cached_randomness = "aa";
  cached_window_n = 9;
  local_n = 4;
  local_hash = "c";
  tasks = [];
}

abbrev polled : Run String
polled = record (fresh engine) {
  engine =
      tick_after settings (reply "aa") Pull.unchanged
        (refresh settings (reply "aa") [] (fresh engine).engine);
  peak = 9;
}

abbrev burst : Task String
burst = record { state = reply "aa"; budget = 8; stage = Stage.scheduled }

scheduled_one : polled.engine.tasks ≡ [] ++ burst ∷ []
unfolding refresh tick_after
scheduled_one = refl

fires : Moves settings (fresh engine) (record polled {
  engine = (Trigger.start_task settings [] burst [] polled.engine).0;
  sent = Trigger.posted 9 (Trigger.start_task settings [] burst [] polled.engine).1;
})
fires =
    Moves.next
      (Moves.next (Moves.next Moves.here (Move.refreshes (reply "aa") []))
        (Move.decides (reply "aa") Pull.unchanged (omega arith)))
      (Move.fire [] burst [] scheduled_one refl)

Moves-budget_example :
    sent_in 9 (Trigger.posted 9 (Trigger.start_task settings [] burst [] polled.engine).1)
      + reserved 9 (Trigger.start_task settings [] burst [] polled.engine).0.tasks
    ≤ max_submissions_per_hotkey_per_window
Moves-budget_example = Moves-budget settings engine _ fires 9

drain_lem_example : drain settings (reply "aa") 1 engine.pool ≡ record {
  fire = take 1 (keep (λ e. not (is_stale settings (reply "aa") e)) engine.pool);
  kept = drop 1 (keep (λ e. not (is_stale settings (reply "aa") e)) engine.pool);
  cooldown_dropped = keep (is_stale settings (reply "aa")) engine.pool;
}
drain_lem_example = drain_lem settings (reply "aa") 1 engine.pool

flipped : flips settings (reply "bb") engine ≡ true
unfolding flips
flipped = refl

alive : is_stale settings (reply "bb") (entry (pos 7) "aa") ≡ false
unfolding is_stale active_prompt_range window_prompt_range from_bytes entry_env_name
alive = refl

-- Prompt 7 was baked under "aa", and is posted under "bb".
late_entry_is_fired_example :
    (drain_pool settings
      (reply "bb")
      8
      (append_entry settings (entry (pos 7) "aa") (tick settings (reply "bb") [] true engine))).1
    ≡ entry (pos 7) "aa" ∷ []
late_entry_is_fired_example =
    late_entry_is_fired settings (reply "bb") [] engine (entry (pos 7) "aa") 7 flipped refl refl
      alive

-- The validator's server with an open window, and its answer to a miner.
abbrev server : Server ℤ
server = record {
  active_batcher = some 0;
  current_state = WindowState.open_window;
  current_checkpoint = none;
  has_worker = false;
  submit_queue = [];
}

abbrev told : StateReply
told = record {
  state = WindowState.open_window;
  window_n = 3;
  anchor_block = 3;
  cooldown_prompts = pos 9 ∷ [];
  valid_submissions = 0;
  checkpoint_n = 0;
  checkpoint_repo_id = none;
  checkpoint_revision = none;
  randomness = "";
}

tells_a_miner : state_reply cooldown server (opened ∷ []) ≡ answer told
unfolding state_reply current_cooldown_set sorted ◌-ℤ◌
tells_a_miner = refl

tick-state_reply_example :
    ((tick settings told [] true engine).tasks ≡ engine.tasks)
    × ((tick settings told [] true engine).cached_randomness ≡ engine.cached_randomness)
tick-state_reply_example =
    tick-state_reply cooldown server (opened ∷ []) told settings [] true engine tells_a_miner
