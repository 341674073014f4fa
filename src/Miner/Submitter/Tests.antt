-- ===== src/Miner/Submitter/Tests.antt =====
-- The theorems on the submitter at concrete networks.
use subnet.Base.{
  ℕ, zero, suc, ◌+◌, ℤ, pos, true, some, none, [], ◌∷◌, String, ◌≡◌, ◌⊎◌, refl, subst, take, ◌<◌,
}
use subnet.Samples.{fixed}
use subnet.Protocol.Bytes.{Bytes}
use subnet.Protocol.Reason.{RejectReason}
use subnet.Protocol.Request.{BatchSubmissionRequest, BatchSubmissionResponse}
use subnet.Protocol.Samples.{request}
use subnet.Validator.Service.Samples.{config, accepting, accepting-Coherent}
use subnet.Miner.Submitter.{
  Exchange, failed, replied, Sent, returned, submission_error, again, Client, Network,
  PrecommitRequest, attempts, post_turn, post_bytes_turn, retry_delays, submit_batch_v2,
  build_precommit, precommit_fields, submit_with_precommit,
}
use subnet.Miner.Submitter.Retries.{Decides, attempts_decide}
use subnet.Miner.Submitter.Acceptance.{
  DirectlyAccepted, RevealAccepted, Commits, submit_batch_v2_accepted,
}
use subnet.Miner.Submitter.EndToEnd.{reaches, told, submit_batch_v2-reaches}

abbrev signed : BatchSubmissionRequest ℤ
signed = record request { nonce = "n" }

abbrev granted : BatchSubmissionResponse
granted = record { accepted = true; reason = RejectReason.accepted }

-- The first answer is lost, the second is a 502, the third is taken.
abbrev flaky : ℕ → Exchange BatchSubmissionResponse
flaky zero = failed
flaky (suc zero) = replied 502 none
flaky (suc (suc n)) = replied 200 (some granted)

abbrev digest : String
digest = "00000000000000000000000000000000000000000000000000000000000000aa"

abbrev client : Client ℤ
client = record {
  dump = λ r. 1 ∷ r.prompt_idx ∷ [];
  hexdigest = λ _. digest;
  sign_precommit = λ _. "abcd";
}

-- A network that grants the precommit, whose reveal is flaky.
abbrev network : Network ℤ
network = record {
  precommit = λ _. replied 200 (
      some
        (record { accepted = true; reason = RejectReason.accepted; receipt_id = some "receipt" }));
  direct = λ _ _. replied 404 none;
  reveal = λ _ _ n. flaky n;
}

attempts_decide_example :
    ((k : ℕ) × (result : Sent BatchSubmissionResponse) × (k < 3)
      × Decides post_turn flaky k result
      × (attempts post_turn flaky retry_delays 0 ≡ (result, k + 1, take k retry_delays)))
    ⊎ (((k : ℕ) → k < 3 → post_turn (flaky k) ≡ again)
        × (attempts post_turn flaky retry_delays 0 ≡ (submission_error, 3, 1 ∷ 2 ∷ [])))
attempts_decide_example = attempts_decide post_turn flaky

submits_granted : submit_batch_v2 client network (some "0a") signed ≡ returned granted
unfolding submit_batch_v2 submit_with_precommit build_precommit attempts post_bytes_turn
submits_granted = refl

submit_batch_v2_accepted_example :
    DirectlyAccepted network signed granted
    ⊎ ((payload : Bytes) × (precommit : PrecommitRequest) × Commits client signed payload precommit
        × RevealAccepted network payload precommit granted)
submit_batch_v2_accepted_example =
    submit_batch_v2_accepted client network signed (some "0a") granted submits_granted refl

abbrev Committed : String → Type 0
Committed seed =
    (sent : Bytes × PrecommitRequest) × (build_precommit client seed signed ≡ returned sent)

some_eq : {a b : String} → some a ≡ some b → a ≡ b
some_eq e = cc

submits-Committed : Committed "0a"
unfolding build_precommit
submits-Committed = (
  (
    client.dump signed,
    record { fields = precommit_fields client "0a" signed "e"; precommit_signature = "abcd" },
  ),
  refl,
)

submit_batch_v2-reaches_example :
    submit_batch_v2 client (reaches fixed config (pos 5) accepting) (some "0a") signed
    ≡ returned (told fixed config signed accepting)
submit_batch_v2-reaches_example =
    submit_batch_v2-reaches fixed config client (pos 5) signed accepting (some "0a")
      accepting-Coherent (λ seed e. subst Committed (some_eq e) submits-Committed)
