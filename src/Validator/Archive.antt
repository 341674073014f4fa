-- ===== src/Validator/Archive.antt =====
-- What the validators read back from the R2 archive (validator/service.py `_archive_window`):
-- the window's number and, for each batch entry, the hotkey and the prompt. Both readers,
-- `rebuild_from_history` and `_replay_ema`, look at nothing else. A missing "batch" is `[]`.
use subnet.Base.{ℤ, String, List}

pub record BatchEntry : Type 0 where
  pub hotkey : String
  pub prompt_idx : ℤ

pub record ArchivedWindow : Type 0 where
  pub window_start : ℤ
  pub batch : List BatchEntry
