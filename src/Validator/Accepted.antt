-- ===== src/Validator/Accepted.antt =====
-- validator/batcher.py: `ValidSubmission`, a submission that passed every check. The field
-- `merkle_root` is the same bytes under a second name. `F` is the type of floats.
use subnet.Base.{ℕ, ℤ, String, List, Option}
use subnet.Protocol.Bytes.{Bytes}
use subnet.Protocol.Request.{RolloutSubmission}

pub record ValidSubmission (F : Type 0) : Type 0 where
  pub hotkey : String
  pub prompt_idx : ℕ
  pub merkle_root_bytes : Bytes
  pub sigma : F
  pub rollouts : List (RolloutSubmission F)
  pub completion_texts : List String
  pub arrived_at : F
  pub sketch_diff_max : ℤ
  pub lp_dev_max : Option F
  pub dist_q10_min : Option F
  pub claimed_checkpoint_hash : String
