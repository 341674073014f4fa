-- ===== src/Miner/Mix.antt =====
-- miner/mix_controller.py: how the miner divides its slots and bakes among the environments. Slot
-- counts are natural numbers; a slot of a dict is read with `get`, as the code's keys are there.
pub mod Ties
pub mod Rotation
mod Tests
use subnet.Base.{
  ℕ, zero, suc, ◌+◌, ◌-◌, ◌*◌, ◌/◌, ◌%◌, ℤ, pos, ◌-ℤ◌, ltb_ℤ, int_eq, Bool, true, false, Option,
  none, some, List, [], ◌∷◌, ◌++◌, if◌then◌else◌, ◌==◌, nat_eq, string_eq, String, ltb, length,
  take, get_elem?,
}
use subnet.Base.Dict
use subnet.Base.Dict.{Dict}
use subnet.Base.Float.{Float}

pub record MixController (F : Type 0) : Type 0 where
  pub envs : List String
  pub total : ℕ
  pub floor : ℕ
  pub alpha : F
  pub yields : Dict String (Option F)

module _ {F : Type 0} (fl : Float F) where
  -- `x if prev is None else (1 - alpha) * prev + alpha * x`
  abbrev pub next_yield : F → F → Option F → F
  next_yield alpha x none = x
  next_yield alpha x (some prev) =
      fl.add (fl.mul (fl.sub (fl.of_int (pos 1)) alpha) prev) (fl.mul alpha x)

  unfoldable pub record_outcome : String → Bool → MixController F → MixController F
  record_outcome env rewarded c = elim (Dict.lookup env c.yields) [
    | none ↦ c
    | some prev ↦ record c {
      yields =
          Dict.set env
            (some (next_yield c.alpha (fl.of_int (if rewarded then pos 1 else pos 0)) prev))
            c.yields;
    }
  ]

-- The body of the loop in `pick_bake_env`.
unfoldable pub note_deficit : String → ℤ → Option ℤ × List String → Option ℤ × List String
note_deficit env deficit (none, tied) = (some deficit, env ∷ [])
note_deficit env deficit (some best, tied) =
    if ltb_ℤ best deficit
    then (some deficit, env ∷ [])
    else if deficit == best
    then (some best, tied ++ env ∷ [])
    else (some best, tied)

-- `target - pool_counts.get(env, 0)`
abbrev pub deficit_of : Dict String ℕ → String × ℕ → ℤ
deficit_of counts (env, target) = pos target -ℤ pos (Dict.get env 0 counts)

unfoldable pub scan_deficits :
    Dict String ℕ → List (String × ℕ) → Option ℤ × List String → Option ℤ × List String
unfolding note_deficit
scan_deficits counts [] best = best
scan_deficits counts (item ∷ items) best =
    scan_deficits counts items (note_deficit item.0 (deficit_of counts item) best)

abbrev pub tied_envs : Dict String ℕ → List (String × ℕ) → List String
tied_envs counts target_slots = (scan_deficits counts target_slots (none, [])).1

-- `pick_bake_env` with the counter of the rotation, and the counter after it; `none` for the failed
-- assertion.
unfoldable pub pick_bake_env : List (String × ℕ) → Dict String ℕ → ℕ → Option String × ℕ
unfolding scan_deficits
pick_bake_env target_slots counts rotation =
    let tied = tied_envs counts target_slots in
    if length tied == 0
    then (none, rotation)
    else if length tied == 1
    then (get_elem? tied 0, rotation)
    else (get_elem? tied (rotation % length tied), rotation + 1)

-- The counter after some calls with the same arguments.
unfoldable pub rotation_after : ℕ → List (String × ℕ) → Dict String ℕ → ℕ → ℕ
unfolding pick_bake_env
rotation_after zero target_slots counts rotation = rotation
rotation_after (suc n) target_slots counts rotation =
    rotation_after n target_slots counts (pick_bake_env target_slots counts rotation).1

-- `entry_env_name`: the entry's `env_name`, if it has one that is not empty.
unfoldable pub entry_env_name : Option String → String → String
entry_env_name none default = default
entry_env_name (some name) default = if name == "" then default else name
