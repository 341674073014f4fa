-- ===== src/Protocol/Reason.antt =====
-- protocol/submission.py: `RejectReason` and `WindowState` with their wire strings.
use subnet.Base.{
  String, Bool, true, false, Option, none, some, List, [], ◌∷◌, if◌then◌else◌, ◌==◌, string_eq, ◌≡◌,
  refl,
}

pub data RejectReason : Type 0 where
  accepted submitted bad_signature bad_envelope_signature bad_prompt_idx prompt_mismatch :
      RejectReason
  distribution_suspicious prompt_in_cooldown superseded prompt_full : RejectReason
  prompt_out_of_range grail_fail hash_duplicate logprob_mismatch reward_mismatch : RejectReason
  out_of_zone rate_limited batch_filled wrong_rollout_count : RejectReason
  protocol_version_mismatch window_mismatch window_not_active bad_schema bad_tokens : RejectReason
  tokens_mismatch bad_termination boxed_answer_tampered token_tampered : RejectReason
  malformed_final_answer reward_shape_suspicious reward_distribution wrong_checkpoint : RejectReason
  merkle_root_mismatch wrong_randomness hotkey_not_registered : RejectReason
  registration_unavailable protocol_mismatch generation_contract_mismatch : RejectReason
  proof_capacity_abort worker_dropped stale_round future_round seed_mismatch : RejectReason
  precommit_required precommit_invalid precommit_expired : RejectReason

-- `reason.value`
unfoldable pub value : RejectReason → String
value RejectReason.accepted = "accepted"
value RejectReason.submitted = "submitted"
value RejectReason.bad_signature = "bad_signature"
value RejectReason.bad_envelope_signature = "bad_envelope_signature"
value RejectReason.bad_prompt_idx = "bad_prompt_idx"
value RejectReason.prompt_mismatch = "prompt_mismatch"
value RejectReason.distribution_suspicious = "distribution_suspicious"
value RejectReason.prompt_in_cooldown = "prompt_in_cooldown"
value RejectReason.superseded = "superseded"
value RejectReason.prompt_full = "prompt_full"
value RejectReason.prompt_out_of_range = "prompt_out_of_range"
value RejectReason.grail_fail = "grail_fail"
value RejectReason.hash_duplicate = "hash_duplicate"
value RejectReason.logprob_mismatch = "logprob_mismatch"
value RejectReason.reward_mismatch = "reward_mismatch"
value RejectReason.out_of_zone = "out_of_zone"
value RejectReason.rate_limited = "rate_limited"
value RejectReason.batch_filled = "batch_filled"
value RejectReason.wrong_rollout_count = "wrong_rollout_count"
value RejectReason.protocol_version_mismatch = "protocol_version_mismatch"
value RejectReason.window_mismatch = "window_mismatch"
value RejectReason.window_not_active = "window_not_active"
value RejectReason.bad_schema = "bad_schema"
value RejectReason.bad_tokens = "bad_tokens"
value RejectReason.tokens_mismatch = "tokens_mismatch"
value RejectReason.bad_termination = "bad_termination"
value RejectReason.boxed_answer_tampered = "boxed_answer_tampered"
value RejectReason.token_tampered = "token_tampered"
value RejectReason.malformed_final_answer = "malformed_final_answer"
value RejectReason.reward_shape_suspicious = "reward_shape_suspicious"
value RejectReason.reward_distribution = "reward_distribution"
value RejectReason.wrong_checkpoint = "wrong_checkpoint"
value RejectReason.merkle_root_mismatch = "merkle_root_mismatch"
value RejectReason.wrong_randomness = "wrong_randomness"
value RejectReason.hotkey_not_registered = "hotkey_not_registered"
value RejectReason.registration_unavailable = "registration_unavailable"
value RejectReason.protocol_mismatch = "protocol_mismatch"
value RejectReason.generation_contract_mismatch = "generation_contract_mismatch"
value RejectReason.proof_capacity_abort = "proof_capacity_abort"
value RejectReason.worker_dropped = "worker_dropped"
value RejectReason.stale_round = "stale_round"
value RejectReason.future_round = "future_round"
value RejectReason.seed_mismatch = "seed_mismatch"
value RejectReason.precommit_required = "precommit_required"
value RejectReason.precommit_invalid = "precommit_invalid"
value RejectReason.precommit_expired = "precommit_expired"

-- The members in the order of the class.
abbrev members : List RejectReason
members =
    accepted ∷ submitted ∷ bad_signature ∷ bad_envelope_signature ∷ bad_prompt_idx ∷ prompt_mismatch
    ∷ distribution_suspicious ∷ prompt_in_cooldown ∷ superseded ∷ prompt_full ∷ prompt_out_of_range
    ∷ grail_fail ∷ hash_duplicate ∷ logprob_mismatch ∷ reward_mismatch ∷ out_of_zone ∷ rate_limited
    ∷ batch_filled ∷ wrong_rollout_count ∷ protocol_version_mismatch ∷ window_mismatch
    ∷ window_not_active ∷ bad_schema ∷ bad_tokens ∷ tokens_mismatch ∷ bad_termination
    ∷ boxed_answer_tampered ∷ token_tampered ∷ malformed_final_answer ∷ reward_shape_suspicious
    ∷ reward_distribution ∷ wrong_checkpoint ∷ merkle_root_mismatch ∷ wrong_randomness
    ∷ hotkey_not_registered ∷ registration_unavailable ∷ protocol_mismatch
    ∷ generation_contract_mismatch ∷ proof_capacity_abort ∷ worker_dropped ∷ stale_round
    ∷ future_round ∷ seed_mismatch ∷ precommit_required ∷ precommit_invalid ∷ precommit_expired ∷ []

find_member : String → List RejectReason → Option RejectReason
unfolding value
find_member s [] = none
find_member s (r ∷ rs) = if s == value r then some r else find_member s rs

-- `RejectReason(s)`: the member with that value; `none` is the ValueError.
pub parse : String → Option RejectReason
unfolding find_member
parse s = find_member s members

-- Every reason is read back from its wire string, so no two reasons share a string.
parse-value : (r : RejectReason) → parse (value r) ≡ some r
unfolding parse
parse-value accepted = refl
parse-value submitted = refl
parse-value bad_signature = refl
parse-value bad_envelope_signature = refl
parse-value bad_prompt_idx = refl
parse-value prompt_mismatch = refl
parse-value distribution_suspicious = refl
parse-value prompt_in_cooldown = refl
parse-value superseded = refl
parse-value prompt_full = refl
parse-value prompt_out_of_range = refl
parse-value grail_fail = refl
parse-value hash_duplicate = refl
parse-value logprob_mismatch = refl
parse-value reward_mismatch = refl
parse-value out_of_zone = refl
parse-value rate_limited = refl
parse-value batch_filled = refl
parse-value wrong_rollout_count = refl
parse-value protocol_version_mismatch = refl
parse-value window_mismatch = refl
parse-value window_not_active = refl
parse-value bad_schema = refl
parse-value bad_tokens = refl
parse-value tokens_mismatch = refl
parse-value bad_termination = refl
parse-value boxed_answer_tampered = refl
parse-value token_tampered = refl
parse-value malformed_final_answer = refl
parse-value reward_shape_suspicious = refl
parse-value reward_distribution = refl
parse-value wrong_checkpoint = refl
parse-value merkle_root_mismatch = refl
parse-value wrong_randomness = refl
parse-value hotkey_not_registered = refl
parse-value registration_unavailable = refl
parse-value protocol_mismatch = refl
parse-value generation_contract_mismatch = refl
parse-value proof_capacity_abort = refl
parse-value worker_dropped = refl
parse-value stale_round = refl
parse-value future_round = refl
parse-value seed_mismatch = refl
parse-value precommit_required = refl
parse-value precommit_invalid = refl
parse-value precommit_expired = refl

pub data WindowState : Type 0 where
  open_window training publishing ready : WindowState

abbrev pub is_open : WindowState → Bool
is_open WindowState.open_window = true
is_open _ = false
