-- ===== src/Miner/Engine/Trigger/Flip.antt =====
-- miner/engine.py: what a flip of the randomness does to the pool, and what it does not do to a
-- bake that is under way.
use subnet.Base.{
  ℕ, suc, ℤ, nat_eq, string_eq, true, false, Option, List, [], ◌∷◌, leb, String, ◌≡◌, sym, arith,
  ◌∙◌,
}
use subnet.Validator.Server.{StateReply}
use subnet.Miner.Engine.{Entry, Settings, Engine, should_fire_for_window, maybe_pull_checkpoint}
use subnet.Miner.Engine.Fire.{drain_pool, is_stale, drain, fire_first}
use subnet.Miner.Engine.Trigger.{
  flips, flush, cache_randomness, refresh, fire_ready, fire_burst, fire_branch, prune_old,
  tick_after, tick, append_entry,
}

module _ {R : Type 0} where
  refresh-flips :
      (s : Settings) (state : StateReply) (polls : List (String × Option (List ℤ))) (e : Engine R)
      → flips s state e ≡ true
      → ((refresh s state polls e).pool ≡ []) × ((refresh s state polls e).local_n ≡ e.local_n)
  unfolding refresh flush cache_randomness flips
  refresh-flips s state polls e h = ground arith

  fire_branch-pool :
      (s : Settings) (state : StateReply) (e : Engine R)
      → ((fire_branch s state e).pool ≡ e.pool) × ((fire_branch s state e).local_n ≡ e.local_n)
  unfolding fire_branch fire_ready fire_burst should_fire_for_window
  fire_branch-pool s state e = ground arith

  -- A flip empties the pool.
  pub tick-flips :
      (s : Settings) (state : StateReply) (polls : List (String × Option (List ℤ))) (e : Engine R)
      → flips s state e ≡ true
      → leb state.checkpoint_n e.local_n ≡ true
      → ((tick s state polls true e).pool ≡ []) × ((tick s state polls true e).local_n ≡ e.local_n)
  unfolding tick maybe_pull_checkpoint tick_after prune_old
  tick-flips s state polls e h known =
      let (p, n) = refresh-flips s state polls e h in
      let (q, m) = fire_branch-pool s state (refresh s state polls e) in rw known (q ∙ p, m ∙ n)

  appended_is_taken :
      (s : Settings) (state : StateReply) (f : Engine R) (entry : Entry R) (budget : ℕ)
      → f.pool ≡ []
      → entry.checkpoint_n ≡ f.local_n
      → is_stale s state entry ≡ false
      → (drain_pool s state (suc budget) (append_entry s entry f)).1 ≡ entry ∷ []
  unfolding drain_pool append_entry drain fire_first
  appended_is_taken s state f entry budget p n live = ground (arith, kept)
    where
      kept : (append_entry s entry f).pool ≡ entry ∷ []
      kept = ground arith

  -- An entry whose bake is under way when the randomness flips is posted under the new randomness:
  -- whatever its rollouts are, if its checkpoint is the current one and it is neither in cooldown
  -- nor out of the new slice, it is appended after the flush and a fire task takes it.
  pub late_entry_is_fired :
      (s : Settings) (state : StateReply) (polls : List (String × Option (List ℤ))) (e : Engine R)
      (entry : Entry R) (budget : ℕ)
      → flips s state e ≡ true
      → leb state.checkpoint_n e.local_n ≡ true
      → entry.checkpoint_n ≡ e.local_n
      → is_stale s state entry ≡ false
      → (drain_pool s state (suc budget) (append_entry s entry (tick s state polls true e))).1
        ≡ entry ∷ []
  late_entry_is_fired s state polls e entry budget h known current live =
      let (p, n) = tick-flips s state polls e h known in
      appended_is_taken s state (tick s state polls true e) entry budget p (current ∙ sym n) live
