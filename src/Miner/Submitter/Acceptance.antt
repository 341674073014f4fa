-- ===== src/Miner/Submitter/Acceptance.antt =====
-- miner/submitter.py: what an accepted submission means.
use subnet.Base.{
  Option-cases, ℕ, ◌<◌, true, Option, none, some, List, [], ◌∷◌, String, ◌≡◌, ◌⊎◌, inl, inr, refl,
  ap, ◌∙◌, ◌==◌, nat_eq, arith, leb, Bool-cases, to_set, string_eq,
}
use subnet.Base.Text.{text_length}
use subnet.Protocol.Bytes.{Bytes}
use subnet.Protocol.Reason.{RejectReason}
use subnet.Protocol.Request.{BatchSubmissionRequest, BatchSubmissionResponse, env_names}
use subnet.Miner.Submitter.{
  Exchange, failed, replied, Sent, returned, submission_error, network_error, PrecommitRequest,
  PrecommitResponse, post_turn, post_bytes_turn, rejected, Client, Network, submit_batch_v2,
  submit_with_precommit, commit_to, precommit_fields, is_valid_precommit, send_built,
  after_precommit, reveal_under, build_precommit,
}
use subnet.Miner.Submitter.Retries.{
  Accepts, accepted_attempt, post_turn_accepted, post_bytes_turn_accepted,
}

-- The precommit was accepted with a receipt, under which the payload was revealed and accepted.
abbrev pub RevealAccepted :
    {F : Type 0} → Network F → Bytes → PrecommitRequest → BatchSubmissionResponse → Type 0
RevealAccepted net payload precommit response =
    (status : ℕ) × (verdict : PrecommitResponse) × (receipt : String) × (k : ℕ) × (net.precommit
        precommit
      ≡ replied status (some verdict))
    × (verdict.accepted ≡ true)
    × (verdict.receipt_id ≡ some receipt)
    × (k < 3)
    × Accepts (net.reveal payload receipt k) response

not_accepted :
    {response : BatchSubmissionResponse} (reason : RejectReason)
    → returned (rejected reason) ≡ returned response
    → response.accepted ≡ true
    → ⊥
not_accepted reason e a = cc

invalid_ne_returned : {A : Type 0} {a : A} → Sent.invalid ≡ returned a → ⊥
invalid_ne_returned e = cc

error_ne_returned : {A : Type 0} {a : A} → submission_error ≡ returned a → ⊥
error_ne_returned e = cc

reveal_under_accepted :
    {F : Type 0} (net : Network F) (payload : Bytes) (precommit : PrecommitRequest) (status : ℕ)
    (verdict : PrecommitResponse) (response : BatchSubmissionResponse)
    → net.precommit precommit ≡ replied status (some verdict)
    → reveal_under net payload verdict ≡ returned response
    → response.accepted ≡ true
    → RevealAccepted net payload precommit response
unfolding reveal_under
reveal_under_accepted net payload precommit status verdict response sent e a =
    elim (Bool-cases verdict.accepted) [
      | inr refused ↦ absurd (not_accepted verdict.reason (rw (refused, reveal_under) at e) a)
      | inl granted ↦ elim (Option-cases verdict.receipt_id) [
        | inl missing ↦ absurd (error_ne_returned (rw (granted, missing, reveal_under) at e))
        | inr (receipt, given) ↦ elim (Bool-cases (text_length receipt == 0)) [
          | inl blank ↦ absurd (error_ne_returned (rw (granted, given, blank, reveal_under) at e))
          | inr there ↦
              let (k, lt, taken) =
                accepted_attempt post_bytes_turn (net.reveal payload receipt) response
                  (λ x now ok. post_bytes_turn_accepted x response now ok)
                  (rw (granted, given, there, reveal_under) at e) a in
              (status, verdict, receipt, k, sent, granted, given, lt, taken)
        ]
      ]
    ]

module _ {F : Type 0} (net : Network F) (r : BatchSubmissionRequest F) where
  -- The request was posted as it is and accepted.
  abbrev pub DirectlyAccepted : BatchSubmissionResponse → Type 0
  DirectlyAccepted response = (k : ℕ) × (k < 3) × Accepts (net.direct r k) response

  after_precommit_accepted :
      (payload : Bytes) (precommit : PrecommitRequest) (x : Exchange PrecommitResponse)
      (response : BatchSubmissionResponse)
      → net.precommit precommit ≡ x
      → after_precommit net r payload x ≡ returned response
      → response.accepted ≡ true
      → DirectlyAccepted response ⊎ RevealAccepted net payload precommit response
  unfolding after_precommit
  after_precommit_accepted payload precommit failed response sent e a = absurd (cc)
  after_precommit_accepted payload precommit (replied status body) response sent e a =
      elim (Bool-cases (status == 404)) [
        | inl absent ↦ inl (
            accepted_attempt post_turn (net.direct r) response
              (λ x now ok. post_turn_accepted x response now ok) (rw (absent, after_precommit) at e)
              a)
        | inr present ↦ elim (Bool-cases (leb 400 status)) [
          | inl bad ↦ absurd (error_ne_returned (rw (present, bad, after_precommit) at e))
          | inr fine ↦ elim (Option-cases body) [
            | inl unread ↦
                absurd (invalid_ne_returned (rw (present, fine, unread, after_precommit) at e))
            | inr (verdict, read) ↦ inr (
                reveal_under_accepted net payload precommit status verdict response
                  (sent ∙ ap (replied status) read) (rw (present, fine, read, after_precommit) at e)
                  a)
          ]
        ]
      ]

-- The commitment is to these bytes, which are the request's, and is signed.
abbrev pub Commits :
    {F : Type 0} → Client F → BatchSubmissionRequest F → Bytes → PrecommitRequest → Type 0
Commits client r payload precommit =
    (payload ≡ client.dump r)
    × (precommit.fields.payload_sha256 ≡ client.hexdigest payload)
    × (precommit.precommit_signature ≡ client.sign_precommit precommit.fields)

built_Commits :
    {F : Type 0} (client : Client F) (r : BatchSubmissionRequest F)
    (built : Bytes × PrecommitRequest) (payload : Bytes) (precommit : PrecommitRequest)
    → Commits client r built.0 built.1
    → returned built ≡ returned (payload, precommit)
    → Commits client r payload precommit
built_Commits client r built payload precommit c e = ground arith

commit_to-Commits :
    {F : Type 0} (client : Client F) (r : BatchSubmissionRequest F) (randomness : String)
    (environments : List String) (payload : Bytes) (precommit : PrecommitRequest)
    → commit_to client randomness r environments ≡ returned (payload, precommit)
    → Commits client r payload precommit
unfolding commit_to
commit_to-Commits client r randomness [] payload precommit e = absurd (cc)
commit_to-Commits client r randomness (_ ∷ _ ∷ _) payload precommit e = absurd (cc)
commit_to-Commits client r randomness (environment ∷ []) payload precommit e =
    let fields = precommit_fields client randomness r environment in
    elim (Bool-cases (is_valid_precommit fields (client.sign_precommit fields))) [
      | inl valid ↦
          built_Commits client r
            (
              client.dump r,
              record { fields = fields; precommit_signature = client.sign_precommit fields },
            )
            payload precommit (refl, refl, refl) (rw (valid, commit_to) at e)
      | inr bad ↦ absurd (invalid_ne_returned (rw (bad, commit_to) at e))
    ]

module _ {F : Type 0} (client : Client F) (net : Network F) (r : BatchSubmissionRequest F) where
  send_built_accepted :
      (built : Sent (Bytes × PrecommitRequest)) (response : BatchSubmissionResponse)
      → send_built net r built ≡ returned response
      → response.accepted ≡ true
      → DirectlyAccepted net r response
        ⊎ ((payload : Bytes) × (precommit : PrecommitRequest) × (built
              ≡ returned (payload, precommit))
            × RevealAccepted net payload precommit response)
  unfolding send_built
  send_built_accepted submission_error response e a = absurd (cc)
  send_built_accepted Sent.invalid response e a = absurd (cc)
  send_built_accepted network_error response e a = absurd (cc)
  send_built_accepted (returned (payload, precommit)) response e a =
      elim (after_precommit_accepted net r payload precommit (net.precommit precommit) response refl
        e a) [ inl direct ↦ inl direct | inr reveal ↦ inr (payload, precommit, refl, reveal) ]

  -- A submission that the miner counts as accepted was answered so by the validator, in one of at
  -- most three posts, with a status below 400: either of the request itself, or, after a precommit
  -- that was accepted with a receipt, of the revealed payload under that receipt, which is the
  -- serialised request, whose hash the precommit carries and signs.
  pub submit_batch_v2_accepted :
      (randomness : Option String) (response : BatchSubmissionResponse)
      → submit_batch_v2 client net randomness r ≡ returned response
      → response.accepted ≡ true
      → DirectlyAccepted net r response
        ⊎ ((payload : Bytes) × (precommit : PrecommitRequest) × Commits client r payload precommit
            × RevealAccepted net payload precommit response)
  unfolding submit_batch_v2 submit_with_precommit build_precommit
  submit_batch_v2_accepted none response e a = inl (
      accepted_attempt post_turn (net.direct r) response
        (λ x now ok. post_turn_accepted x response now ok) e a)
  submit_batch_v2_accepted (some randomness) response e a =
      elim (send_built_accepted (build_precommit client randomness r) response e a) [
        | inl direct ↦ inl direct
        | inr (payload, precommit, built, revealed) ↦ inr (
          payload,
          precommit,
          commit_to-Commits client r randomness (to_set (env_names r.rollouts)) payload precommit
              built,
          revealed,
        )
      ]
