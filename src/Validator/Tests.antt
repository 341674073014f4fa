-- ===== src/Validator/Tests.antt =====
-- The theorems on the batcher and its helpers at concrete values.
use subnet.Base.{
  pos, false, some, [], ◌∷◌, ◌++◌, replicate, length, ◌≡◌, ◌↔◌, inl, inr, refl, arith,
}
use subnet.Samples.{fixed, hashes, rng, sized, fixed_ranked, rng-IsRng}
use subnet.Base.Text.{codes}
use subnet.Protocol.Samples.{request, tokens40, certain}
use subnet.Protocol.Bytes.{clean_hex, from_hex}
use subnet.Validator.Verifier.{verify_logprobs_claim}
use subnet.Validator.Verifier.Layouts.{verify_logprobs_claim_layouts}
use subnet.Validator.Samples.{world, cooldown, opened, late_request, submission, busy}
use subnet.Validator.Cooldown.{CooldownMap, is_in_cooldown}
use subnet.Validator.Selection.{select_batch}
use subnet.Validator.Selection.Fifo.{Served, select_batch-Served}
use subnet.Validator.Batcher.State.{
  init, count_reject, accept_submission, verify, gates, seal_batch,
}
use subnet.Validator.Batcher.Admission.{IsAdmissible}
use subnet.Validator.Batcher.Claims.{accepted_response, IsConsistent}
use subnet.Validator.Batcher.Acceptance.{accept_submission_iff}
use subnet.Validator.Batcher.Runs.{accept_all, window-IsConsistent, first_claim_wins}
use subnet.Validator.Batcher.Sealing.{earliest, CoolsDown, seal_batch-IsConsistent}

accept_submission_iff_example :
    ((accept_submission world cooldown (pos 5) request opened).0 ≡ some accepted_response)
    ↔ IsAdmissible world cooldown opened request
accept_submission_iff_example =
    accept_submission_iff world cooldown (pos 5) request opened (refl, refl)

window-IsConsistent_example : IsConsistent world cooldown (
    accept_all world cooldown
      ((pos 5, request) ∷ (pos 6, late_request) ∷ (pos 7, request) ∷ [])
      opened)
unfolding init
window-IsConsistent_example =
    window-IsConsistent world cooldown
      ((pos 5, request) ∷ (pos 6, late_request) ∷ (pos 7, request) ∷ []) 3 false "0aff" "c"
      ((refl, refl), ((refl, refl), ((refl, refl), tt)))

busy-IsConsistent : IsConsistent world cooldown busy
unfolding is_in_cooldown
busy-IsConsistent = record {
  distinct = ((λ m. elim m [ inl e ↦ absurd (omega (arith, e)) | inr n ↦ n ]), ((λ m. m), tt));
  eligible = (refl, (refl, tt));
  claims = λ p. (
    (λ m. elim m [ inl e ↦ inr (inl e) | inr (inl e) ↦ inl e | inr (inr n) ↦ absurd n ]),
    (λ m. elim m [ inl e ↦ inr (inl e) | inr (inl e) ↦ inl e | inr (inr n) ↦ absurd n ]),
  );
  sealed = refl;
}

first_claim_wins_example : submission 7 "b" (pos 10) ≡ submission 7 "b" (pos 10)
unfolding accept_all accept_submission verify gates count_reject
first_claim_wins_example =
    first_claim_wins world cooldown ((pos 6, late_request) ∷ []) busy (submission 7 "b" (pos 10))
      (submission 7 "b" (pos 10)) ((refl, refl), tt) busy-IsConsistent (inr (inl refl))
      (inr (inl refl)) refl

seal_batch-IsConsistent_example :
    (cooldown' : CooldownMap) × (seal_batch world cooldown busy
      ≡ some (earliest world busy, cooldown'))
    × (length (earliest world busy) ≡ 2)
    × CoolsDown 3 (earliest world busy) cooldown cooldown'
seal_batch-IsConsistent_example = seal_batch-IsConsistent world cooldown busy busy-IsConsistent

select_batch-Served_example :
    Served fixed sized codes cooldown 3 fixed_ranked 1
      (submission 8 "a" (pos 20))
      (select_batch fixed sized codes busy.valid 1 3 cooldown)
unfolding is_in_cooldown
select_batch-Served_example =
    select_batch-Served fixed sized codes cooldown 3 fixed_ranked busy.valid 1
      (submission 8 "a" (pos 20)) (inl refl) refl

verify_logprobs_claim_layouts_example :
    verify_logprobs_claim fixed hashes rng tokens40 4 36
      (replicate 4 (pos 1) ++ replicate 36 (pos 0))
      certain
      "0aff"
    ≡ verify_logprobs_claim fixed hashes rng tokens40 4 36 (replicate 36 (pos 0)) certain "0aff"
unfolding clean_hex from_hex
verify_logprobs_claim_layouts_example =
    verify_logprobs_claim_layouts fixed hashes rng rng-IsRng tokens40 (replicate 4 (pos 1))
      (replicate 36 (pos 0)) certain "0aff" {seed = 10 ∷ 255 ∷ []} refl (omega arith) refl
