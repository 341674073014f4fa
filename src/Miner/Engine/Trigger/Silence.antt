-- ===== src/Miner/Engine/Trigger/Silence.antt =====
-- miner/engine.py against validator/server.py: what the miner's loop does with the answers that the
-- validator's `/state` gives.
use subnet.Base.{
  ℤ, nat_eq, string_eq, Bool, true, Option, List, ◌==◌, String, ◌≡◌, refl, arith, get_elem?, inl,
  inr, Option-cases, ◌∙◌,
}
use subnet.Validator.Cooldown.{CooldownMap}
use subnet.Validator.Batcher.State.{Batcher}
use subnet.Validator.Server.{Server, StateReply, answer, state_reply}
use subnet.Miner.Engine.{Settings, Engine, Pull, should_fire_for_window, maybe_pull_checkpoint}
use subnet.Miner.Engine.Trigger.{
  flips, flush, cache_randomness, refresh, advance, fire_ready, fire_burst, fire_branch, prune_old,
  tick_after, tick,
}

state_reply-empty :
    {F : Type 0} (cooldown : CooldownMap) (server : Server F) (batchers : List (Batcher F))
    (state : StateReply)
    → state_reply cooldown server batchers ≡ answer state
    → state.randomness ≡ ""
unfolding state_reply
state_reply-empty cooldown server batchers state h = elim (Option-cases server.active_batcher) [
  | inl n ↦ absurd (ground arith)
  | inr (i, n) ↦ elim (Option-cases (get_elem? batchers i)) [
    | inl m ↦ absurd (ground arith)
    | inr (b, m) ↦ ground arith
  ]
]

module _ {R : Type 0} where
  refresh-empty :
      (s : Settings) (state : StateReply) (polls : List (String × Option (List ℤ))) (e : Engine R)
      → (state.randomness == "") ≡ true
      → ((refresh s state polls e).tasks ≡ e.tasks)
        × ((refresh s state polls e).cached_randomness ≡ e.cached_randomness)
  unfolding refresh flush flips cache_randomness
  refresh-empty s state polls e h = ground arith

  fire_branch-empty :
      (s : Settings) (state : StateReply) (e : Engine R)
      → (state.randomness == "") ≡ true
      → ((fire_branch s state e).tasks ≡ e.tasks)
        × ((fire_branch s state e).cached_randomness ≡ e.cached_randomness)
  unfolding fire_branch fire_ready fire_burst should_fire_for_window
  fire_branch-empty s state e h = ground arith

  tick_after-empty :
      (s : Settings) (state : StateReply) (pull : Pull) (e : Engine R)
      → (state.randomness == "") ≡ true
      → ((tick_after s state pull e).tasks ≡ e.tasks)
        × ((tick_after s state pull e).cached_randomness ≡ e.cached_randomness)
  unfolding tick_after advance prune_old
  tick_after-empty s state (Pull.advanced n revision) e h = (refl, refl)
  tick_after-empty s state Pull.unchanged e h = fire_branch-empty s state e h
  tick_after-empty s state Pull.failed e h = fire_branch-empty s state e h

module _ {F R : Type 0} where
  -- Whatever the validator's `/state` answers, an iteration of the miner's loop on that answer
  -- schedules no submission and caches no randomness, in every state of the validator, in the armed
  -- mode and in the legacy one.
  pub tick-state_reply :
      (cooldown : CooldownMap) (server : Server F) (batchers : List (Batcher F))
      (state : StateReply) (s : Settings) (polls : List (String × Option (List ℤ)))
      (downloads : Bool) (e : Engine R)
      → state_reply cooldown server batchers ≡ answer state
      → ((tick s state polls downloads e).tasks ≡ e.tasks)
        × ((tick s state polls downloads e).cached_randomness ≡ e.cached_randomness)
  unfolding tick
  tick-state_reply cooldown server batchers state s polls downloads e h =
      let silent : (state.randomness == "") ≡ true =
        rw (state_reply-empty cooldown server batchers state h) refl in
      let (t, c) =
        tick_after-empty s state (maybe_pull_checkpoint state e.local_n downloads)
          (refresh s state polls e) silent in
      let (t', c') = refresh-empty s state polls e silent in (t ∙ t', c ∙ c')
