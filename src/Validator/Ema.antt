-- ===== src/Validator/Ema.antt =====
-- The miners' scores: `_update_ema` and `_submit_weights` of validator/service.py, and the latter's
-- copy in validator/weight_only.py. The replays of the two files are child modules. The order in which Python
-- walks the set of hotkeys is not specified; here it is that of the dict, then of the batch.
pub mod Replay
pub mod WeightOnly
pub mod Scores
mod Tests
use subnet.Base.{
  ℕ, ◌+◌, pos, ℤ, ltb_ℤ, Bool, true, false, not, Option, none, some, List, [], ◌∷◌, ◌++◌, map,
  if◌then◌else◌, ◌&&◌, String, string_eq, to_set, sorted,
}
use subnet.Base.Dict
use subnet.Base.Dict.{Dict}
use subnet.Base.Float.{Float}
use subnet.Protocol.Constants.{b_batch, uid_burn}
use subnet.Validator.Archive.{BatchEntry, ArchivedWindow}

-- `window_contribs[hk] += 1` for each entry
unfoldable pub count_contribs : List String → Dict String ℕ → Dict String ℕ
count_contribs [] d = d
count_contribs (hk ∷ hotkeys) d = count_contribs hotkeys (Dict.set hk (Dict.get hk 0 d + 1) d)

module _ {F : Type 0} (fl : Float F) where
  -- EMA_ALPHA
  abbrev pub ema_alpha : F
  ema_alpha = fl.div (fl.decimal 2 0) (fl.of_int (pos 73))

  -- `alpha * fraction + (1 - alpha) * old`
  abbrev pub blend : ℕ → F → F
  blend contribs old =
      fl.add (fl.mul ema_alpha (fl.div (fl.of_int (pos contribs)) (fl.of_int (pos b_batch))))
        (fl.mul (fl.sub (fl.of_int (pos 1)) ema_alpha) old)

  unfoldable pub blend_all : Dict String ℕ → List String → Dict String F → Dict String F
  blend_all contribs [] ema = ema
  blend_all contribs (hk ∷ hotkeys) ema =
      blend_all contribs hotkeys
        (Dict.set hk (blend (Dict.get hk 0 contribs) (Dict.get hk (fl.decimal 0 0) ema)) ema)

  -- `v > 1e-6`
  abbrev pub is_kept : F → Bool
  is_kept v = fl.lt (fl.decimal 1 6) v

  unfoldable pub prune : Dict String F → Dict String F
  prune [] = []
  prune ((hk, v) ∷ ema) = if is_kept v then (hk, v) ∷ prune ema else prune ema

  -- `_update_ema` on the hotkeys of a batch
  unfoldable pub update_ema : List String → Dict String F → Dict String F
  update_ema batch ema =
      let contribs = count_contribs batch [] in
      prune (blend_all contribs (to_set (Dict.keys ema ++ Dict.keys contribs)) ema)

  abbrev pub hotkeys_of : ArchivedWindow → List String
  hotkeys_of r = map (λ entry. entry.hotkey) r.batch

  -- The scores of a validator that sealed these windows one after the other.
  unfoldable pub update_all : List ArchivedWindow → Dict String F → Dict String F
  update_all [] ema = ema
  update_all (r ∷ archives) ema = update_all archives (update_ema (hotkeys_of r) ema)

  abbrev pub window_le : ArchivedWindow → ArchivedWindow → Bool
  window_le r s = not (ltb_ℤ s.window_start r.window_start)

  -- The weights to set: `total` is the sum of the scores, `uids` the metagraph's.
  unfoldable pub miner_weights : Dict String ℕ → Dict String F → List (ℕ × F)
  miner_weights uids [] = []
  miner_weights uids ((hk, v) ∷ ema) = elim (Dict.lookup hk uids) [
    | none ↦ miner_weights uids ema
    | some uid ↦
        if fl.lt (fl.of_int (pos 0)) v
        then (uid, v) ∷ miner_weights uids ema
        else miner_weights uids ema
  ]

  unfoldable pub sum_scores : F → Dict String F → F
  sum_scores acc [] = acc
  sum_scores acc ((hk, v) ∷ ema) = sum_scores (fl.add acc v) ema

  -- `max(0.0, 1.0 - total)`
  unfoldable pub burn_weight : Dict String F → F
  burn_weight ema =
      let rest = fl.sub (fl.decimal 1 0) (sum_scores (fl.of_int (pos 0)) ema) in
      if fl.lt (fl.decimal 0 0) rest then rest else fl.decimal 0 0

  -- What `_submit_weights` hands to `set_weights`; nothing is sent if it is empty.
  unfoldable pub weights_to_set : Dict String ℕ → Dict String F → List (ℕ × F)
  weights_to_set uids ema =
      miner_weights uids ema
      ++ (if fl.lt (fl.of_int (pos 0)) (burn_weight ema)
          then (uid_burn, burn_weight ema) ∷ []
          else [])
