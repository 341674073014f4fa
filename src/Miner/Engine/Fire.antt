-- ===== src/Miner/Engine/Fire.antt =====
-- miner/engine.py: `_fire_for_window`, cut at its `gather`: the drain of the pool under its lock,
-- and what becomes of the entries once their submissions are answered.
pub mod Laws
use subnet.Base.{
  ℕ, zero, suc, ◌+◌, ℤ, pos, int_eq, nat_eq, string_eq, ltb_ℤ, leb_ℤ, Bool, true, false, not, ◌&&◌,
  ◌||◌, Option, none, some, List, [], ◌∷◌, ◌++◌, map, ◌==◌, if◌then◌else◌, elem, length, ltb,
  String,
}
use subnet.Base.Dict
use subnet.Base.Dict.{Dict}
use subnet.Protocol.Reason.{value}
use subnet.Protocol.Request.{BatchSubmissionResponse}
use subnet.Validator.Server.{StateReply}
use subnet.Miner.Engine.{Entry, Settings, Engine, Task, active_prompt_range, env_name_of}

-- `range_by_env.get(name)`
unfoldable pub range_for : Settings → StateReply → String → Option (ℕ × ℕ)
range_for s state name =
    if elem name s.active_envs
    then active_prompt_range s state.window_n state.randomness name
    else none

unfoldable pub out_of_slice : Option (ℕ × ℕ) → ℤ → Bool
out_of_slice none prompt_idx = false
out_of_slice (some (lo, hi)) prompt_idx =
    not (leb_ℤ (pos lo) prompt_idx && ltb_ℤ prompt_idx (pos hi))

pub record Drained (S : Type 0) : Type 0 where
  pub fire : List S
  pub kept : List S
  pub cooldown_dropped : List S

abbrev pub retryable_reasons : List String
retryable_reasons =
    "stale_round" ∷ "batch_filled" ∷ "rate_limited" ∷ "future_round" ∷ "registration_unavailable"
    ∷ []

-- `none` for an entry whose submission raised or ended with no response.
abbrev pub Answer : Type 0
Answer = Option BatchSubmissionResponse

unfoldable pub is_retryable : Answer → Bool
is_retryable none = false
is_retryable (some resp) = not resp.accepted && elem (value resp.reason) retryable_reasons

module _ {R : Type 0} where
  -- The two tests by which an entry is dropped.
  unfoldable pub is_stale : Settings → StateReply → Entry R → Bool
  unfolding range_for out_of_slice
  is_stale s state entry =
      elem entry.prompt_idx state.cooldown_prompts
      || out_of_slice (range_for s state (env_name_of s entry)) entry.prompt_idx

  unfoldable pub fire_first : Entry R → Drained (Entry R) → Drained (Entry R)
  fire_first entry d = record d { fire = entry ∷ d.fire }

  unfoldable pub keep_first : Entry R → Drained (Entry R) → Drained (Entry R)
  keep_first entry d = record d { kept = entry ∷ d.kept }

  unfoldable pub drop_first : Entry R → Drained (Entry R) → Drained (Entry R)
  drop_first entry d = record d { cooldown_dropped = entry ∷ d.cooldown_dropped }

  -- The loop over the pool; `budget` is what `len(fire)` leaves of it.
  unfoldable pub drain : Settings → StateReply → ℕ → List (Entry R) → Drained (Entry R)
  unfolding fire_first keep_first drop_first
  drain s state budget [] = record { fire = []; kept = []; cooldown_dropped = [] }
  drain s state zero (entry ∷ pool) =
      (if is_stale s state entry then drop_first entry else keep_first entry)
        (drain s state zero pool)
  drain s state (suc budget) (entry ∷ pool) = elim (is_stale s state entry) [
    | true ↦ drop_first entry (drain s state (suc budget) pool)
    | false ↦ fire_first entry (drain s state budget pool)
  ]

  -- `if fire: self._submitted_count[w] = self._submitted_count.get(w, 0) + len(fire)`
  unfoldable pub reserve : ℕ → List (Entry R) → Dict ℕ ℕ → Dict ℕ ℕ
  reserve w [] counts = counts
  reserve w (entry ∷ fire) counts = Dict.set w (Dict.get w 0 counts + length (entry ∷ fire)) counts

  -- The drain under the lock, with the entries that it takes.
  unfoldable pub drain_pool : Settings → StateReply → ℕ → Engine R → Engine R × List (Entry R)
  unfolding drain reserve
  drain_pool s state budget e =
      let d = drain s state budget e.pool in
      (
        record e {
          pool = d.kept;
          submitted_count = reserve state.window_n d.fire e.submitted_count;
        },
        d.fire,
      )

  -- The entries that go back into the pool.
  unfoldable pub to_requeue : List (Entry R × Answer) → List (Entry R)
  unfolding is_retryable
  to_requeue [] = []
  to_requeue ((entry, answer) ∷ results) =
      if is_retryable answer then entry ∷ to_requeue results else to_requeue results

  -- After the `gather`.
  unfoldable pub requeue : List (Entry R × Answer) → Engine R → Engine R
  unfolding to_requeue
  requeue results e = record e { pool = e.pool ++ to_requeue results }
