-- ===== src/Validator/Ema/Replay.antt =====
-- validator/service.py: `_replay_ema`, which derives the scores from the archive at a start.
use subnet.Base.{ℕ, ◌+◌, pos, List, [], ◌∷◌, ◌++◌, if◌then◌else◌, String, string_eq, to_set, sorted}
use subnet.Base.Dict
use subnet.Base.Dict.{Dict}
use subnet.Base.Float.{Float}
use subnet.Protocol.Constants.{b_batch}
use subnet.Validator.Archive.{BatchEntry, ArchivedWindow}
use subnet.Validator.Ema.{ema_alpha, window_le}

-- `window_contribs[entry["hotkey"]] += 1` for each entry
unfoldable pub count_entries : List BatchEntry → Dict String ℕ → Dict String ℕ
count_entries [] contribs = contribs
count_entries (entry ∷ entries) contribs =
    count_entries entries (Dict.set entry.hotkey (Dict.get entry.hotkey 0 contribs + 1) contribs)

module _ {F : Type 0} (fl : Float F) where
  -- The loop over the hotkeys.
  unfoldable pub replay_hotkeys : Dict String ℕ → List String → Dict String F → Dict String F
  replay_hotkeys contribs [] ema = ema
  replay_hotkeys contribs (hk ∷ hotkeys) ema =
      let fraction = fl.div (fl.of_int (pos (Dict.get hk 0 contribs))) (fl.of_int (pos b_batch)) in
      replay_hotkeys contribs hotkeys (
        Dict.set hk
          (fl.add (fl.mul (ema_alpha fl) fraction)
            (fl.mul (fl.sub (fl.of_int (pos 1)) (ema_alpha fl)) (Dict.get hk (fl.decimal 0 0) ema)))
          ema)

  -- `{hk: v for hk, v in ema.items() if v > 1e-6}`
  unfoldable pub keep_scores : Dict String F → Dict String F
  keep_scores [] = []
  keep_scores ((hk, v) ∷ ema) =
      if fl.lt (fl.decimal 1 6) v then (hk, v) ∷ keep_scores ema else keep_scores ema

  -- The loop over the sorted archives.
  unfoldable pub replay_records : List ArchivedWindow → Dict String F → Dict String F
  replay_records [] ema = ema
  replay_records (window ∷ archives) ema =
      let contribs = count_entries window.batch [] in
      replay_records archives
        (keep_scores (replay_hotkeys contribs (to_set (Dict.keys ema ++ Dict.keys contribs)) ema))

  -- `_replay_ema`
  unfoldable pub replay_ema : List ArchivedWindow → Dict String F
  replay_ema archives = replay_records (sorted (window_le fl) archives) []
