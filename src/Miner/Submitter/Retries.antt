-- ===== src/Miner/Submitter/Retries.antt =====
-- miner/submitter.py: what the retries come to.
use subnet.Base.{
  ℕ, zero, suc, ◌+◌, ◌<◌, true, false, Option, none, some, [], ◌∷◌, ◌≡◌, ◌⊎◌, inl, inr, refl, sym,
  ap, ◌∙◌, arith, take, if◌then◌else◌, ◌==◌, nat_eq, leb, Bool-cases,
}
use subnet.Protocol.Reason.{RejectReason}
use subnet.Protocol.Request.{BatchSubmissionResponse}
use subnet.Miner.Submitter.{
  Exchange, failed, replied, Sent, returned, submission_error, Turn, again, give, attempts,
  post_turn, post_bytes_turn, parsed, rejected, is_client_error, retry_delays,
}

-- The attempt `k` is the first whose answer is not retried, and it gives `result`.
abbrev pub Decides : {A : Type 0} → (Exchange A → Turn A) → (ℕ → Exchange A) → ℕ → Sent A → Type 0
Decides turn net k result = ((j : ℕ) → j < k → turn (net j) ≡ again) × (turn (net k) ≡ give result)

Turn-cases : {A : Type 0} (t : Turn A) → (t ≡ again) ⊎ ((r : Sent A) × (t ≡ give r))
Turn-cases again = inl refl
Turn-cases (give r) = inr (r, refl)

only_zero : (j : ℕ) (P : ℕ → Type 0) → P 0 → j < 1 → P j
only_zero zero P a lt = a
only_zero (suc j) P a lt = absurd (omega arith)

below_two : (P : ℕ → Type 0) → P 0 → P 1 → (j : ℕ) → j < 2 → P j
below_two P a b zero lt = a
below_two P a b (suc zero) lt = b
below_two P a b (suc (suc j)) lt = absurd (omega arith)

below_three : (P : ℕ → Type 0) → P 0 → P 1 → P 2 → (j : ℕ) → j < 3 → P j
below_three P a b c zero lt = a
below_three P a b c (suc zero) lt = b
below_three P a b c (suc (suc zero)) lt = c
below_three P a b c (suc (suc (suc j))) lt = absurd (omega arith)

module _ {A : Type 0} (turn : Exchange A → Turn A) (net : ℕ → Exchange A) where
  decided :
      (k : ℕ) (result : Sent A)
      → k < 3
      → Decides turn net k result
      → attempts turn net retry_delays 0 ≡ (result, k + 1, take k retry_delays)
  unfolding attempts
  decided zero result lt (before, now) = rw now refl
  decided (suc zero) result lt (before, now) = rw (before 0 (omega arith), now) refl
  decided (suc (suc zero)) result lt (before, now) =
      rw (before 0 (omega arith), before 1 (omega arith), now) refl
  decided (suc (suc (suc k))) result lt d = absurd (omega (arith, lt))

  undecided :
      ((k : ℕ) → k < 3 → turn (net k) ≡ again)
      → attempts turn net retry_delays 0 ≡ (submission_error, 3, 1 ∷ 2 ∷ [])
  unfolding attempts
  undecided all = rw (all 0 (omega arith), all 1 (omega arith), all 2 (omega arith)) refl

  -- Either some attempt decides, or all three are to be retried.
  attempts_cases :
      ((k : ℕ) × (result : Sent A) × (k < 3) × Decides turn net k result)
      ⊎ ((k : ℕ) → k < 3 → turn (net k) ≡ again)
  attempts_cases = elim (Turn-cases (turn (net 0))) [
    | inr (r, e) ↦ inl (0, r, omega arith, ((λ j lt. absurd (omega arith)), e))
    | inl a ↦ elim (Turn-cases (turn (net 1))) [
      | inr (r, e) ↦
          inl (1, r, omega arith, ((λ j lt. only_zero j (λ n. turn (net n) ≡ again) a lt), e))
      | inl b ↦ elim (Turn-cases (turn (net 2))) [
        | inr (r, e) ↦ inl (2, r, omega arith, (below_two (λ n. turn (net n) ≡ again) a b, e))
        | inl c ↦ inr (below_three (λ n. turn (net n) ≡ again) a b c)
      ]
    ]
  ]

  -- Of three attempts at most, the first answer that is not to be retried decides, and nothing is
  -- sent after it; if there is none, the call fails after the third. Before the second attempt it
  -- sleeps one second, before the third two, and never after the last.
  pub attempts_decide :
      ((k : ℕ) × (result : Sent A) × (k < 3)
        × Decides turn net k result
        × (attempts turn net retry_delays 0 ≡ (result, k + 1, take k retry_delays)))
      ⊎ (((k : ℕ) → k < 3 → turn (net k) ≡ again)
          × (attempts turn net retry_delays 0 ≡ (submission_error, 3, 1 ∷ 2 ∷ [])))
  attempts_decide = elim attempts_cases [
    | inl (k, r, lt, d) ↦ inl (k, r, lt, d, decided k r lt d)
    | inr all ↦ inr (all, undecided all)
  ]

  -- The result of a call is an attempt's, or the error after the last.
  attempts_result :
      ((k : ℕ) × (k < 3) × (turn (net k) ≡ give (attempts turn net retry_delays 0).0))
      ⊎ ((attempts turn net retry_delays 0).0 ≡ submission_error)
  attempts_result = elim attempts_decide [
    | inl (k, r, lt, d, e) ↦ inl (k, lt, d.1 ∙ ap (λ v. give v.0) (sym e))
    | inr (_, e) ↦ inr (ap (λ v. v.0) e)
  ]

-- A status that is neither a client's nor a server's error.
below_errors : (status : ℕ) → is_client_error status ≡ false → leb 500 status ≡ false → status < 400
below_errors status c e = ground arith

again_ne_give : {A : Type 0} {r : Sent A} → again ≡ give r → ⊥
again_ne_give e = cc

not_rejected :
    {r : BatchSubmissionResponse} (reason : RejectReason)
    → give (returned (rejected reason)) ≡ give (returned r)
    → r.accepted ≡ true
    → ⊥
not_rejected reason e a = cc

-- An answer that is taken as it is.
abbrev pub Accepts : Exchange BatchSubmissionResponse → BatchSubmissionResponse → Type 0
Accepts x r = (status : ℕ) × (x ≡ replied status (some r)) × (status < 400)

parsed_accepted :
    (status : ℕ) (body : Option BatchSubmissionResponse) (r : BatchSubmissionResponse)
    → is_client_error status ≡ false
    → leb 500 status ≡ false
    → give (parsed body) ≡ give (returned r)
    → Accepts (replied status body) r
parsed_accepted status none r c s e = absurd (cc)
parsed_accepted status (some body) r c s e = (status, (cc), below_errors status c s)

pub post_turn_accepted :
    (x : Exchange BatchSubmissionResponse) (r : BatchSubmissionResponse)
    → post_turn x ≡ give (returned r)
    → r.accepted ≡ true
    → Accepts x r
unfolding post_turn
post_turn_accepted failed r e a = absurd (cc)
post_turn_accepted (replied status body) r e a = elim (Bool-cases (status == 503)) [
  | inl closed ↦
      absurd (not_rejected RejectReason.window_not_active (rw (closed, post_turn) at e) a)
  | inr ok ↦ elim (Bool-cases (is_client_error status)) [
    | inl client ↦ elim (Bool-cases (status == 409)) [
      | inl other ↦
          absurd
            (not_rejected RejectReason.window_mismatch (rw (ok, client, other, post_turn) at e) a)
      | inr bad ↦
          absurd (not_rejected RejectReason.bad_prompt_idx (rw (ok, client, bad, post_turn) at e) a)
    ]
    | inr fine ↦ elim (Bool-cases (leb 500 status)) [
      | inl server ↦ absurd (again_ne_give (rw (ok, fine, server, post_turn) at e))
      | inr done ↦ parsed_accepted status body r fine done (rw (ok, fine, done, post_turn) at e)
    ]
  ]
]

pub post_bytes_turn_accepted :
    (x : Exchange BatchSubmissionResponse) (r : BatchSubmissionResponse)
    → post_bytes_turn x ≡ give (returned r)
    → r.accepted ≡ true
    → Accepts x r
unfolding post_bytes_turn
post_bytes_turn_accepted failed r e a = absurd (cc)
post_bytes_turn_accepted (replied status body) r e a = elim (Bool-cases (status == 503)) [
  | inl closed ↦
      absurd (not_rejected RejectReason.window_not_active (rw (closed, post_bytes_turn) at e) a)
  | inr ok ↦ elim (Bool-cases (is_client_error status)) [
    | inl client ↦ absurd (
        not_rejected
          (if status == 409 then RejectReason.window_mismatch else RejectReason.bad_prompt_idx)
          (rw (ok, client, post_bytes_turn) at e) a)
    | inr fine ↦ elim (Bool-cases (leb 500 status)) [
      | inl server ↦ absurd (again_ne_give (rw (ok, fine, server, post_bytes_turn) at e))
      | inr done ↦
          parsed_accepted status body r fine done (rw (ok, fine, done, post_bytes_turn) at e)
    ]
  ]
]

-- A call that accepts took an answer of one of its three attempts.
pub accepted_attempt :
    (turn : Exchange BatchSubmissionResponse → Turn BatchSubmissionResponse)
    (net : ℕ → Exchange BatchSubmissionResponse) (r : BatchSubmissionResponse)
    → ((x : Exchange BatchSubmissionResponse)
        → turn x ≡ give (returned r)
        → r.accepted ≡ true
        → Accepts x r)
    → (attempts turn net retry_delays 0).0 ≡ returned r
    → r.accepted ≡ true
    → (k : ℕ) × (k < 3) × Accepts (net k) r
accepted_attempt turn net r taken e a = elim (attempts_result turn net) [
  | inl (k, lt, now) ↦ (k, lt, taken (net k) (now ∙ ap give e) a)
  | inr fails ↦ absurd (cc)
]
