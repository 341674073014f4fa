-- ===== src/Miner/Submitter/EndToEnd.antt =====
-- miner/submitter.py against validator/server.py and validator/service.py: what the miner is told
-- when its messages reach this validator.
use subnet.Base.{
  true, Option, none, some, String, ◌≡◌, inl, inr, refl, if◌then◌else◌, ◌==◌, nat_eq, Bool-cases,
}
use subnet.Base.Float.{Float}
use subnet.Protocol.Bytes.{Bytes}
use subnet.Protocol.Reason.{RejectReason}
use subnet.Protocol.Request.{BatchSubmissionRequest, BatchSubmissionResponse}
use subnet.Validator.Server.{HttpReply, answer, http_error}
use subnet.Validator.Service
use subnet.Validator.Service.{Service, Config}
use subnet.Validator.Service.Coherence.{Coherent}
use subnet.Validator.Service.Replies.{in_window, handle_submit-Coherent}
use subnet.Miner.Submitter.{
  Exchange, replied, returned, Client, Network, PrecommitRequest, attempts, post_turn, rejected,
  retry_delays, build_precommit, submit_batch_v2, submit_with_precommit, send_built,
  after_precommit,
}

-- FastAPI puts a reply on the wire: an answer has status 200 and its own fields.
abbrev pub wire : {A : Type 0} → HttpReply A → Exchange A
wire (answer a) = replied 200 (some a)
wire (http_error status detail) = replied status none

module _ {F Model : Type 0} (fl : Float F) (config : Config F Model) where
  -- The messages reach the service in the state `s`. It has no route `/submit/precommit`, which
  -- FastAPI answers with 404.
  abbrev pub reaches : F → Service F Model → Network F
  reaches now s = record {
    precommit = λ _. replied 404 none;
    direct = λ r _. wire (Service.handle_submit fl config now r s).0;
    reveal = λ _ _ _. replied 404 none;
  }

  -- What the miner should be told: provisional acceptance of a request for the open window,
  -- window_mismatch for another, window_not_active outside a window.
  abbrev pub told : BatchSubmissionRequest F → Service F Model → BatchSubmissionResponse
  told r s =
      if in_window s.phase
      then (if r.window_start == s.window_n
          then record { accepted = true; reason = RejectReason.accepted }
          else rejected RejectReason.window_mismatch)
      else rejected RejectReason.window_not_active

  direct-told :
      (now : F) (r : BatchSubmissionRequest F) (s : Service F Model)
      → Coherent s
      → (attempts post_turn
          (λ _. wire (Service.handle_submit fl config now r s).0)
          retry_delays
          0).0
        ≡ returned (told r s)
  unfolding attempts post_turn
  direct-told now r s c =
      let (reply, _, _) = handle_submit-Coherent fl config now r s c in
      elim (Bool-cases (in_window s.phase)) [
        | inr outside ↦ rw (reply, outside) refl
        | inl inside ↦ elim (Bool-cases (r.window_start == s.window_n)) [
          | inl ours ↦ rw (reply, inside, ours) refl
          | inr other ↦ rw (reply, inside, other) refl
        ]
      ]

  -- With or without the handshake, if the network delivers and the request can be committed to:
  -- the miner is told of acceptance, window_mismatch or window_not_active just as the service
  -- stands, and never gets an error.
  pub submit_batch_v2-reaches :
      (client : Client F) (now : F) (r : BatchSubmissionRequest F) (s : Service F Model)
      (randomness : Option String)
      → Coherent s
      → ((seed : String)
          → randomness ≡ some seed
          → (sent : Bytes × PrecommitRequest) × (build_precommit client seed r ≡ returned sent))
      → submit_batch_v2 client (reaches now s) randomness r ≡ returned (told r s)
  unfolding submit_batch_v2 submit_with_precommit send_built after_precommit
  submit_batch_v2-reaches client now r s none c built = direct-told now r s c
  submit_batch_v2-reaches client now r s (some seed) c built =
      let ((payload, precommit), e) = built seed refl in rw (e, send_built) (direct-told now r s c)
