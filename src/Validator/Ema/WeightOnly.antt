-- ===== src/Validator/Ema/WeightOnly.antt =====
-- validator/weight_only.py: its own `_replay_ema`, which a weight-only validator runs.
use subnet.Base.{ℕ, ◌+◌, pos, List, [], ◌∷◌, ◌++◌, if◌then◌else◌, String, string_eq, to_set, sorted}
use subnet.Base.Dict
use subnet.Base.Dict.{Dict}
use subnet.Base.Float.{Float}
use subnet.Protocol.Constants.{b_batch}
use subnet.Validator.Archive.{BatchEntry, ArchivedWindow}
use subnet.Validator.Ema.{ema_alpha, window_le}

-- `window_contribs[entry["hotkey"]] += 1` for each entry
unfoldable pub weight_only_count : List BatchEntry → Dict String ℕ → Dict String ℕ
weight_only_count [] contribs = contribs
weight_only_count (entry ∷ entries) contribs =
    weight_only_count entries
      (Dict.set entry.hotkey (Dict.get entry.hotkey 0 contribs + 1) contribs)

module _ {F : Type 0} (fl : Float F) where
  -- The loop over the hotkeys.
  unfoldable pub weight_only_blend : Dict String ℕ → List String → Dict String F → Dict String F
  weight_only_blend contribs [] ema = ema
  weight_only_blend contribs (hk ∷ hotkeys) ema =
      let fraction = fl.div (fl.of_int (pos (Dict.get hk 0 contribs))) (fl.of_int (pos b_batch)) in
      weight_only_blend contribs hotkeys (
        Dict.set hk
          (fl.add (fl.mul (ema_alpha fl) fraction)
            (fl.mul (fl.sub (fl.of_int (pos 1)) (ema_alpha fl)) (Dict.get hk (fl.decimal 0 0) ema)))
          ema)

  -- `{hk: v for hk, v in ema.items() if v > 1e-6}`
  unfoldable pub weight_only_keep : Dict String F → Dict String F
  weight_only_keep [] = []
  weight_only_keep ((hk, v) ∷ ema) =
      if fl.lt (fl.decimal 1 6) v then (hk, v) ∷ weight_only_keep ema else weight_only_keep ema

  -- The loop over the sorted archives.
  unfoldable pub weight_only_records : List ArchivedWindow → Dict String F → Dict String F
  weight_only_records [] ema = ema
  weight_only_records (window ∷ archives) ema =
      let contribs = weight_only_count window.batch [] in
      weight_only_records archives (
        weight_only_keep
          (weight_only_blend contribs (to_set (Dict.keys ema ++ Dict.keys contribs)) ema))

  -- `_replay_ema`
  unfoldable pub weight_only_replay_ema : List ArchivedWindow → Dict String F
  weight_only_replay_ema archives = weight_only_records (sorted (window_le fl) archives) []
