-- ===== src/Validator/Batcher/Acceptance.antt =====
-- What `accept_submission` (validator/batcher.py) answers and does, branch by branch, and what
-- holds after any number of calls.
use subnet.Base.{
  ◌+◌, false, none, some, List, [], ◌∷◌, ◌++◌, ◌==◌, nat_eq, ◌≡◌, ◌↔◌, inl, inr, refl, sym, ap,
  subst, arith, String, string_eq, append-nil, Option-cases, if◌then◌else◌,
}
use subnet.Base.Dict
use subnet.Base.Text.{codes}
use subnet.Protocol.Bytes.{Bytes, from_hex}
use subnet.Protocol.Reason.{RejectReason, value}
use subnet.Protocol.Request.{BatchSubmissionRequest, BatchSubmissionResponse}
use subnet.Validator.Accepted.{ValidSubmission}
use subnet.Validator.Cooldown.{CooldownMap}
use subnet.Validator.Batcher.Outcome.{ok, reject, raise, Outcome-cases}
use subnet.Validator.Batcher.Checks.{World}
use subnet.Validator.Batcher.State.{
  Batcher, Checked, count_reject, submission_of, verify, accept_submission, update_seal,
  append_valid, claim,
}
use subnet.Validator.Batcher.Admission.{IsAdmissible, verify_sound, verify_total}
use subnet.Validator.Batcher.Claims.{
  HasMerkleRoot, has_root, accepted_response, IsConsistent, count_reject-IsConsistent,
  take_in-IsConsistent,
}

abbrev pub rejected_response : RejectReason → BatchSubmissionResponse
rejected_response reason = record { accepted = false; reason = reason }

-- What a refusal leaves as it was.
pub record IsRefusedWith {F : Type 0} (reason : RejectReason) (b b' : Batcher F) : Type 0 where
  pub valid : b'.valid ≡ b.valid
  pub claimed_prompts : b'.claimed_prompts ≡ b.claimed_prompts
  pub seal_flag : b'.seal_flag ≡ b.seal_flag
  pub counted :
      (k : String)
      → Dict.get k 0 b'.reject_counts ≡ (
          if k == value reason
          then Dict.get k 0 b.reject_counts + 1
          else Dict.get k 0 b.reject_counts)

module _ {F : Type 0} (w : World F) (cooldown : CooldownMap) (now : F) where
  accept_rejected :
      (r : BatchSubmissionRequest F) (b : Batcher F) {reason : RejectReason}
      → verify w cooldown b r ≡ reject reason
      → accept_submission w cooldown now r b
        ≡ (some (rejected_response reason), count_reject reason b)
  unfolding accept_submission
  accept_rejected r b h = rw (accept_submission, h) refl

  accept_raised :
      (r : BatchSubmissionRequest F) (b : Batcher F)
      → verify w cooldown b r ≡ raise
      → accept_submission w cooldown now r b ≡ (none, b)
  unfolding accept_submission
  accept_raised r b h = rw (accept_submission, h) refl

  accept_ok :
      (r : BatchSubmissionRequest F) (b : Batcher F) {c : Checked F} {root : Bytes}
      → verify w cooldown b r ≡ ok c
      → from_hex (codes r.merkle_root) ≡ some root
      → accept_submission w cooldown now r b ≡ (
        some accepted_response,
        update_seal cooldown (append_valid (submission_of r c root now) (claim r.prompt_idx b)),
      )
  unfolding accept_submission
  accept_ok r b h h' = rw (accept_submission, h, h') refl

  -- For a request whose merkle root has the schema's 64 hex digits, in any state of the batcher:
  -- the answer is ACCEPTED exactly if the request is for the batcher's window and checkpoint and
  -- for a prompt that exists, is not in cooldown and is not claimed, each rollout's text earns the
  -- claimed reward, the rewards' spread is in the zone, and every rollout's commit passes the
  -- schema, token, prompt, signature, proof, termination, logprob and distribution checks.
  pub accept_submission_iff :
      (r : BatchSubmissionRequest F) (b : Batcher F)
      → HasMerkleRoot r
      → ((accept_submission w cooldown now r b).0 ≡ some accepted_response)
        ↔ IsAdmissible w cooldown b r
  accept_submission_iff r b hex = (
    (λ h. elim (Outcome-cases (verify w cooldown b r)) [
      | inl (c, e) ↦ verify_sound w cooldown b r e
      | inr (inl (reason, e)) ↦ absurd (cc (ap (λ p. p.0) (accept_rejected r b e)))
      | inr (inr e) ↦ absurd (cc (ap (λ p. p.0) (accept_raised r b e)))
    ]),
    (λ h.
        let (c, e) = verify_total w cooldown b r h in
        let (root, e') = has_root r hex in ap (λ p. p.0) (accept_ok r b e e')),
  )

  pub accept_submission-IsConsistent :
      (r : BatchSubmissionRequest F) (b : Batcher F)
      → HasMerkleRoot r
      → IsConsistent w cooldown b
      → IsConsistent w cooldown (accept_submission w cooldown now r b).1
  unfolding submission_of
  accept_submission-IsConsistent r b hex c = elim (Outcome-cases (verify w cooldown b r)) [
    | inl (checked, e) ↦
        let (root, e') = has_root r hex in
        let ((same, hash, inside, open_prompt, new), rewards, zone, rollouts) =
          verify_sound w cooldown b r e in
        subst (λ p. IsConsistent w cooldown p.1) (sym (accept_ok r b e e'))
          (take_in-IsConsistent w cooldown b (submission_of r checked root now) open_prompt new c)
    | inr (inl (reason, e)) ↦
        subst (λ p. IsConsistent w cooldown p.1) (sym (accept_rejected r b e))
          (count_reject-IsConsistent w cooldown b reason c)
    | inr (inr e) ↦ subst (λ p. IsConsistent w cooldown p.1) (sym (accept_raised r b e)) c
  ]

  -- What a call does to the list of submissions: it stays or grows by one at the end.
  pub accept_submission_grows :
      (r : BatchSubmissionRequest F) (b : Batcher F)
      → (more : List (ValidSubmission F)) × ((accept_submission w cooldown now r b).1.valid
          ≡ b.valid ++ more)
  unfolding accept_submission count_reject update_seal append_valid claim
  accept_submission_grows r b = elim (Outcome-cases (verify w cooldown b r)) [
    | inl (c, e) ↦ elim (Option-cases (from_hex (codes r.merkle_root))) [
      | inl e' ↦ ([], rw (accept_submission, e, e') (sym (append-nil b.valid)))
      | inr (root, e') ↦ (submission_of r c root now ∷ [], rw (accept_submission, e, e') refl)
    ]
    | inr (inl (reason, e)) ↦ ([], rw (accept_submission, e) (sym (append-nil b.valid)))
    | inr (inr e) ↦ ([], rw (accept_submission, e) (sym (append-nil b.valid)))
  ]

  count_reject-IsRefusedWith :
      (reason : RejectReason) (b : Batcher F) → IsRefusedWith reason b (count_reject reason b)
  unfolding count_reject
  count_reject-IsRefusedWith reason b = record {
    valid = refl;
    claimed_prompts = refl;
    seal_flag = refl;
    counted = λ k. ground (
      arith,
      Dict.lookup-set k (value reason) (Dict.get (value reason) 0 b.reject_counts + 1)
          b.reject_counts,
      string_eq.beq_iff k (value reason),
    );
  }

  -- A refusal with a reason leaves the submissions, the claims and the seal flag as they were, and
  -- raises by one the count under the reason's wire string and no other count.
  pub refusal_counted :
      (r : BatchSubmissionRequest F) (b : Batcher F) (reason : RejectReason)
      → (accept_submission w cooldown now r b).0 ≡ some (rejected_response reason)
      → IsRefusedWith reason b (accept_submission w cooldown now r b).1
  unfolding accept_submission
  refusal_counted r b reason h = elim (Outcome-cases (verify w cooldown b r)) [
    | inl (c, e) ↦ elim (Option-cases (from_hex (codes r.merkle_root))) [
      | inl e' ↦ absurd (cc (rw (accept_submission, e, e') at h))
      | inr (root, e') ↦ absurd (cc (rw (accept_submission, e, e') at h))
    ]
    | inr (inl (other, e)) ↦
        let same : other ≡ reason = cc (rw (accept_submission, e) at h) in
        rw (accept_submission, e)
          (subst (λ o. IsRefusedWith reason b (count_reject o b)) (sym same)
            (count_reject-IsRefusedWith reason b))
    | inr (inr e) ↦ absurd (cc (rw (accept_submission, e) at h))
  ]
