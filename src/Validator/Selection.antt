-- ===== src/Validator/Selection.antt =====
-- validator/batch_selection.py: the choice of a batch, first come first served by arrival time.
-- SHA-256 and `str.encode` are parameters; the comparison of arrival times is that of `fl`.
pub mod Order
pub mod Fifo
use subnet.Base.{
  ℕ, zero, suc, ◌+◌, pos, Bool, true, false, not, Option, none, some, List, [], ◌∷◌, ◌++◌,
  if◌then◌else◌, ◌==◌, nat_eq, String, ltb, elem, sorted,
}
use subnet.Base.Float.{Float}
use subnet.Protocol.Bytes.{Bytes, to_bytes}
use subnet.Validator.Accepted.{ValidSubmission}
use subnet.Validator.Cooldown.{CooldownMap, is_in_cooldown}

-- `a < b` on bytes
unfoldable pub bytes_lt : Bytes → Bytes → Bool
bytes_lt [] [] = false
bytes_lt [] (y ∷ ys) = true
bytes_lt (x ∷ xs) [] = false
bytes_lt (x ∷ xs) (y ∷ ys) = if x == y then bytes_lt xs ys else ltb x y

module _ {F : Type 0} (fl : Float F) (sha256 : Bytes → Bytes) (encode : String → Bytes) where
  unfoldable pub tiebreak_key : ValidSubmission F → Bytes
  tiebreak_key s = sha256 (encode s.hotkey ++ (to_bytes 8 s.prompt_idx ++ s.merkle_root_bytes))

  -- `_order_key(s) < _order_key(t)`: tuples compare by the first entries that differ.
  unfoldable pub order_lt : ValidSubmission F → ValidSubmission F → Bool
  order_lt s t =
      if fl.eq s.arrived_at t.arrived_at
      then bytes_lt (tiebreak_key s) (tiebreak_key t)
      else fl.lt s.arrived_at t.arrived_at

  -- `t` is not before `s`: what a stable sort asks before it lets `s` stand first.
  abbrev pub order_le : ValidSubmission F → ValidSubmission F → Bool
  order_le s t = not (order_lt t s)

  -- The loop: `room` is `b - len(batch)`, `seen` the prompts of the batch so far.
  unfoldable pub select_from :
      CooldownMap → ℕ → ℕ → List ℕ → List (ValidSubmission F) → List (ValidSubmission F)
  select_from cooldown_map window room seen [] = []
  select_from cooldown_map window zero seen (sub ∷ subs) = []
  select_from cooldown_map window (suc room) seen (sub ∷ subs) = elim (elem sub.prompt_idx seen) [
    | true ↦ select_from cooldown_map window (suc room) seen subs
    | false ↦ elim (is_in_cooldown (pos sub.prompt_idx) (pos window) cooldown_map) [
      | true ↦ select_from cooldown_map window (suc room) seen subs
      | false ↦ sub ∷ select_from cooldown_map window room (sub.prompt_idx ∷ seen) subs
    ]
  ]

  -- `b <= 0` gives the empty batch, as no room does.
  unfoldable pub select_batch :
      List (ValidSubmission F) → ℕ → ℕ → CooldownMap → List (ValidSubmission F)
  select_batch submissions b current_window cooldown_map =
      select_from cooldown_map current_window b [] (sorted order_le submissions)
