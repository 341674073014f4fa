-- ===== src/Miner/Engine/Fire/Laws.antt =====
-- miner/engine.py: the drain of the pool against its description, and the entries that come back.
use subnet.Base.{ℕ, zero, suc, not, List, [], ◌∷◌, take, drop, keep, ◌≡◌, refl, arith}
use subnet.Validator.Server.{StateReply}
use subnet.Miner.Engine.{Entry, Settings}
use subnet.Miner.Engine.Fire.{is_stale, fire_first, keep_first, drop_first, drain}

module _ {R : Type 0} (s : Settings) (state : StateReply) where
  abbrev live : List (Entry R) → List (Entry R)
  live pool = keep (λ entry. not (is_stale s state entry)) pool

  -- A fire task takes the oldest entries that are neither in cooldown nor out of their
  -- environment's slice, up to its budget; the others of these stay in the pool in order, and all
  -- the rest is dropped.
  pub drain_lem :
      (budget : ℕ) (pool : List (Entry R))
      → drain s state budget pool ≡ record {
        fire = take budget (live pool);
        kept = drop budget (live pool);
        cooldown_dropped = keep (is_stale s state) pool;
      }
  unfolding drain fire_first keep_first drop_first
  drain_lem zero [] = refl
  drain_lem (suc budget) [] = refl
  drain_lem zero (entry ∷ pool) = ground (arith, drain_lem zero pool)
  drain_lem (suc budget) (entry ∷ pool) =
      ground (arith, drain_lem (suc budget) pool, drain_lem budget pool)
