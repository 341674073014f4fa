-- ===== src/Miner/Submitter.antt =====
-- miner/submitter.py: the client that posts submissions. What the network does is an argument: for
-- each attempt of a request, an `Exchange`. The two requests of the handshake, the direct post and
-- the reveal are told apart, since they carry different bytes.
pub mod Retries
pub mod Acceptance
pub mod EndToEnd
mod Tests
use subnet.Base.{
  ℕ, ◌+◌, Bool, true, false, ◌&&◌, not, Option, none, some, List, [], ◌∷◌, if◌then◌else◌, ◌==◌,
  nat_eq, string_eq, String, ltb, leb, ◌||◌, length, to_set,
}
use subnet.Base.Text.{text_length, is_hex_text}
use subnet.Protocol.Bytes.{Bytes}
use subnet.Protocol.Reason.{RejectReason}
use subnet.Protocol.Request.{BatchSubmissionRequest, BatchSubmissionResponse, env_names}
use subnet.Protocol.Signatures.{Precommit}

-- One request and its answer: a RequestError or TimeoutException, or a status with what
-- `model_validate(resp.json())` makes of the body.
pub data Exchange (A : Type 0) : Type 0 where
  failed : Exchange A
  replied : ℕ → Option A → Exchange A

-- What a call of the client comes to: a value, a SubmissionError, the exception of a body that does
-- not parse or a message that is not valid, or the network's own exception.
pub data Sent (A : Type 0) : Type 0 where
  returned : A → Sent A
  submission_error invalid network_error : Sent A

-- What the body of a retry loop does with an answer.
pub data Turn (A : Type 0) : Type 0 where
  again : Turn A
  give : Sent A → Turn A

-- _RETRY_DELAYS
abbrev pub retry_delays : List ℕ
retry_delays = 1 ∷ 2 ∷ 4 ∷ []

abbrev pub parsed : {A : Type 0} → Option A → Sent A
parsed none = Sent.invalid
parsed (some a) = returned a

abbrev pub rejected : RejectReason → BatchSubmissionResponse
rejected reason = record { accepted = false; reason = reason }

-- `400 <= status < 500`
abbrev pub is_client_error : ℕ → Bool
is_client_error status = leb 400 status && ltb status 500

-- The answers for a `BatchSubmissionResponse` in `_post_with_retry`.
unfoldable pub post_turn : Exchange BatchSubmissionResponse → Turn BatchSubmissionResponse
post_turn failed = again
post_turn (replied status body) =
    if status == 503
    then give (returned (rejected RejectReason.window_not_active))
    else if is_client_error status
    then (if status == 409
        then give (returned (rejected RejectReason.window_mismatch))
        else give (returned (rejected RejectReason.bad_prompt_idx)))
    else if leb 500 status
    then again
    else give (parsed body)

-- `_post_with_retry` for any other response model.
unfoldable pub post_other_turn : {A : Type 0} → Exchange A → Turn A
post_other_turn failed = again
post_other_turn (replied status body) =
    if is_client_error status
    then give submission_error
    else if leb 500 status
    then again
    else give (parsed body)

unfoldable pub get_turn : {A : Type 0} → Exchange A → Turn A
get_turn failed = again
get_turn (replied status body) =
    if status == 503
    then give submission_error
    else if status == 404
    then give submission_error
    else if is_client_error status
    then give submission_error
    else if leb 500 status
    then again
    else give (parsed body)

unfoldable pub post_bytes_turn : Exchange BatchSubmissionResponse → Turn BatchSubmissionResponse
post_bytes_turn failed = again
post_bytes_turn (replied status body) =
    if status == 503
    then give (returned (rejected RejectReason.window_not_active))
    else if is_client_error status
    then give (
        returned (
          rejected
            (if status == 409 then RejectReason.window_mismatch else RejectReason.bad_prompt_idx)))
    else if leb 500 status
    then again
    else give (parsed body)

-- `if attempt < len(_RETRY_DELAYS): sleep(delay)`
abbrev pub sleep : ℕ → List ℕ → List ℕ → List ℕ
sleep delay [] slept = slept
sleep delay (_ ∷ _) slept = delay ∷ slept

-- The loop over the delays, from the attempt `n` on: the result, the number of the attempts that
-- were made, and the sleeps in between.
unfoldable pub attempts :
    {A : Type 0} → (Exchange A → Turn A) → (ℕ → Exchange A) → List ℕ → ℕ → Sent A × ℕ × List ℕ
attempts turn net [] n = (submission_error, n, [])
attempts turn net (delay ∷ delays) n = elim (turn (net n)) [
  | give result ↦ (result, n + 1, [])
  | again ↦
      let (result, made, slept) = attempts turn net delays (n + 1) in
      (result, made, sleep delay delays slept)
]

abbrev pub post_with_retry :
    (ℕ → Exchange BatchSubmissionResponse) → Sent BatchSubmissionResponse × ℕ × List ℕ
post_with_retry net = attempts post_turn net retry_delays 0

abbrev pub get_with_retry : {A : Type 0} → (ℕ → Exchange A) → Sent A × ℕ × List ℕ
get_with_retry net = attempts get_turn net retry_delays 0

abbrev pub post_bytes_with_retry :
    (ℕ → Exchange BatchSubmissionResponse) → Sent BatchSubmissionResponse × ℕ × List ℕ
post_bytes_with_retry net = attempts post_bytes_turn net retry_delays 0

-- `SubmissionPrecommitRequest`: the signed fields less the randomness, which is not transmitted.
pub record PrecommitRequest : Type 0 where
  pub fields : Precommit
  pub precommit_signature : String

pub record PrecommitResponse : Type 0 where
  pub accepted : Bool
  pub reason : RejectReason
  pub receipt_id : Option String

-- The constraints of the fields that the request does not have already.
abbrev pub is_valid_precommit : Precommit → String → Bool
is_valid_precommit p signature =
    (ltb 0 (text_length p.environment) && leb (text_length p.environment) 64)
    && (ltb 0 p.payload_bytes
        && ((text_length p.payload_sha256 == 64) && is_hex_text p.payload_sha256))
    && ltb 0 (text_length p.nonce)
    && ((leb 2 (text_length signature) && leb (text_length signature) 256) && is_hex_text signature)

-- The serialisation of the request (`model_dump_json().encode()`), `sha256(...).hexdigest()` and
-- the wallet's `sign_precommit(...).hex()`.
pub record Client (F : Type 0) : Type 0 where
  pub dump : BatchSubmissionRequest F → Bytes
  pub hexdigest : Bytes → String
  pub sign_precommit : Precommit → String

-- What the validator's side and the network answer to each message.
pub record Network (F : Type 0) : Type 0 where
  pub precommit : PrecommitRequest → Exchange PrecommitResponse
  pub direct : BatchSubmissionRequest F → ℕ → Exchange BatchSubmissionResponse
  pub reveal : Bytes → String → ℕ → Exchange BatchSubmissionResponse

module _ {F : Type 0} (client : Client F) where
  abbrev pub precommit_fields : String → BatchSubmissionRequest F → String → Precommit
  precommit_fields randomness r environment = record {
    miner_hotkey = r.miner_hotkey;
    window_start = r.window_start;
    prompt_idx = r.prompt_idx;
    merkle_root = r.merkle_root;
    checkpoint_hash = r.checkpoint_hash;
    environment = environment;
    payload_bytes = length (client.dump r);
    payload_sha256 = client.hexdigest (client.dump r);
    drand_round = r.drand_round;
    randomness = randomness;
    protocol_version = r.protocol_version;
    nonce = r.nonce;
    generation_profile_id = r.generation_profile_id;
  }

  -- The environments of the rollouts; there must be exactly one.
  unfoldable pub commit_to :
      String → BatchSubmissionRequest F → List String → Sent (Bytes × PrecommitRequest)
  commit_to randomness r [] = submission_error
  commit_to randomness r (environment ∷ []) =
      let fields = precommit_fields randomness r environment in
      let signature = client.sign_precommit fields in
      if is_valid_precommit fields signature
      then returned (client.dump r, record { fields = fields; precommit_signature = signature })
      else Sent.invalid
  commit_to randomness r (_ ∷ _ ∷ _) = submission_error

  -- `_build_precommit`: the payload and the signed commitment to it.
  unfoldable pub build_precommit :
      String → BatchSubmissionRequest F → Sent (Bytes × PrecommitRequest)
  unfolding commit_to
  build_precommit randomness r = commit_to randomness r (to_set (env_names r.rollouts))

-- The second phase, by the answer to the precommit.
unfoldable pub reveal_under :
    {F : Type 0} → Network F → Bytes → PrecommitResponse → Sent BatchSubmissionResponse
reveal_under net payload verdict =
    if verdict.accepted
    then elim verdict.receipt_id [
      | none ↦ submission_error
      | some receipt ↦
          if text_length receipt == 0
          then submission_error
          else (post_bytes_with_retry (net.reveal payload receipt)).0
    ]
    else returned (rejected verdict.reason)

unfoldable pub after_precommit :
    {F : Type 0}
    → Network F
    → BatchSubmissionRequest F
    → Bytes
    → Exchange PrecommitResponse
    → Sent BatchSubmissionResponse
unfolding reveal_under
after_precommit net r payload failed = network_error
after_precommit net r payload (replied status body) =
    if status == 404
    then (post_with_retry (net.direct r)).0
    else if leb 400 status
    then submission_error
    else elim body [ none ↦ Sent.invalid | some verdict ↦ reveal_under net payload verdict ]

-- The precommit is posted once.
unfoldable pub send_built :
    {F : Type 0}
    → Network F
    → BatchSubmissionRequest F
    → Sent (Bytes × PrecommitRequest)
    → Sent BatchSubmissionResponse
unfolding after_precommit
send_built net r submission_error = submission_error
send_built net r Sent.invalid = Sent.invalid
send_built net r network_error = network_error
send_built net r (returned (payload, precommit)) =
    after_precommit net r payload (net.precommit precommit)

module _ {F : Type 0} (client : Client F) where
  -- `_submit_with_precommit`
  unfoldable pub submit_with_precommit :
      Network F → String → BatchSubmissionRequest F → Sent BatchSubmissionResponse
  unfolding send_built
  submit_with_precommit net randomness r = send_built net r (build_precommit client randomness r)

  -- `submit_batch_v2`, with the wallet and the randomness or without.
  unfoldable pub submit_batch_v2 :
      Network F → Option String → BatchSubmissionRequest F → Sent BatchSubmissionResponse
  submit_batch_v2 net none r = (post_with_retry (net.direct r)).0
  submit_batch_v2 net (some randomness) r = submit_with_precommit net randomness r

-- An entry of `metagraph.axons`.
pub record Axon : Type 0 where
  pub ip : Option String
  pub port : Option ℕ

-- The address of a routable axon, if it is one.
unfoldable pub routable : ℕ → Axon → Option (String × ℕ)
routable port axon = elim axon.ip [
  | none ↦ none
  | some ip ↦
      if (text_length ip == 0) || (ip == "0.0.0.0")
      then none
      else some (ip, elim axon.port [ none ↦ port | some own ↦ if own == 0 then port else own ])
]

-- `discover_validator_url`: the host and port of the URL, or none for a NoValidatorFoundError.
unfoldable pub discover_validator_url : ℕ → List (Bool × Axon) → Option (String × ℕ)
discover_validator_url port [] = none
discover_validator_url port ((permit, axon) ∷ entries) =
    let rest = discover_validator_url port entries in
    if permit then elim (routable port axon) [ none ↦ rest | some url ↦ some url ] else rest

-- `fetch_verdicts`, and `get_window_state_v2_with_resp`, which do not retry.
unfoldable pub fetch_verdicts : {A : Type 0} → Exchange A → Option A
fetch_verdicts failed = none
fetch_verdicts (replied status body) = if status == 200 then body else none

unfoldable pub get_window_state_v2_with_resp : {A : Type 0} → Exchange A → Sent A
get_window_state_v2_with_resp failed = network_error
get_window_state_v2_with_resp (replied status body) =
    if leb 400 status then submission_error else parsed body
