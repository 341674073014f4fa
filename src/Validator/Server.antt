-- ===== src/Validator/Server.antt =====
-- validator/server.py: `ValidatorServer`, the endpoints over the open window's batcher, and the
-- worker that empties the queue. The batchers live on a heap, since the server, the service and
-- the queue refer to the same ones: a reference is an index into `batchers`.
pub mod Stamps
use subnet.Base.{
  ℕ, pos, ℤ, leb_ℤ, Bool, true, false, not, Option, none, some, List, [], ◌∷◌, ◌++◌, if◌then◌else◌,
  ◌==◌, nat_eq, String, length, get_elem?, set_at, sorted,
}
use subnet.Protocol.Reason.{RejectReason, WindowState, is_open}
use subnet.Protocol.Request.{BatchSubmissionRequest, BatchSubmissionResponse}
use subnet.Validator.Cooldown.{CooldownMap, current_cooldown_set}
use subnet.Validator.Batcher.Checks.{World}
use subnet.Validator.Batcher.State.{Batcher, accept_submission}

-- validator/checkpoint.py `ManifestEntry`
pub record ManifestEntry : Type 0 where
  pub checkpoint_n : ℕ
  pub repo_id : String
  pub revision : String
  pub signature : String

pub record Server (F : Type 0) : Type 0 where
  pub active_batcher : Option ℕ
  pub current_state : WindowState
  pub current_checkpoint : Option ManifestEntry
  pub has_worker : Bool
  pub submit_queue : List (BatchSubmissionRequest F × ℕ)

-- A reply, or an HTTPException with its status and detail; an exception gives status 500.
pub data HttpReply (A : Type 0) : Type 0 where
  answer : A → HttpReply A
  http_error : ℕ → String → HttpReply A

-- The answer of `/state` (`GrpoBatchState`), less the optional fields of the generation contract,
-- which the handler leaves unset. It does not set `randomness` either, whose default is empty.
pub record StateReply : Type 0 where
  pub state : WindowState
  pub window_n : ℕ
  pub anchor_block : ℕ
  pub cooldown_prompts : List ℤ
  pub valid_submissions : ℕ
  pub checkpoint_n : ℕ
  pub checkpoint_repo_id : Option String
  pub checkpoint_revision : Option String
  pub randomness : String

abbrev pub checkpoint_number : Option ManifestEntry → ℕ
checkpoint_number none = 0
checkpoint_number (some cp) = cp.checkpoint_n

abbrev pub checkpoint_repo : Option ManifestEntry → Option String
checkpoint_repo none = none
checkpoint_repo (some cp) = some cp.repo_id

abbrev pub checkpoint_rev : Option ManifestEntry → Option String
checkpoint_rev none = none
checkpoint_rev (some cp) = some cp.revision

abbrev pub reply_of : Option BatchSubmissionResponse → HttpReply BatchSubmissionResponse
reply_of none = http_error 500 "Internal Server Error"
reply_of (some response) = answer response

abbrev pub refused : RejectReason → HttpReply BatchSubmissionResponse
refused reason = answer (record { accepted = false; reason = reason })

module _ {F : Type 0} where
  -- `batcher.accept_submission(request)` through a reference.
  unfoldable pub accept_at :
      World F
      → CooldownMap
      → F
      → BatchSubmissionRequest F
      → ℕ
      → List (Batcher F)
      → Option BatchSubmissionResponse × List (Batcher F)
  accept_at w cooldown now r i batchers = elim (get_elem? batchers i) [
    | none ↦ (none, batchers)
    | some b ↦ (
      (accept_submission w cooldown now r b).0,
      set_at i (accept_submission w cooldown now r b).1 batchers,
    )
  ]

  -- `POST /submit`: the reply, the server and the batchers after it.
  unfoldable pub submit :
      World F
      → CooldownMap
      → F
      → BatchSubmissionRequest F
      → Server F
      → List (Batcher F)
      → HttpReply BatchSubmissionResponse × Server F × List (Batcher F)
  submit w cooldown now r server batchers = elim (is_open server.current_state) [
    | false ↦ (refused RejectReason.window_not_active, server, batchers)
    | true ↦ elim server.active_batcher [
      | none ↦ (http_error 503 "no_active_window", server, batchers)
      | some i ↦ elim (get_elem? batchers i) [
        | none ↦ (http_error 500 "Internal Server Error", server, batchers)
        | some b ↦ elim (r.window_start == b.window_start) [
          | false ↦ (http_error 409 "window_mismatch", server, batchers)
          | true ↦ elim server.has_worker [
            | false ↦
                let (response, batchers') = accept_at w cooldown now r i batchers in
                (reply_of response, server, batchers')
            | true ↦ (
              answer (record { accepted = true; reason = RejectReason.accepted }),
              record server { submit_queue = server.submit_queue ++ (r, i) ∷ [] },
              batchers,
            )
          ]
        ]
      ]
    ]
  ]

  -- One round of `_submit_worker`: the oldest entry of the queue is judged; an exception is logged.
  unfoldable pub work :
      World F → CooldownMap → F → Server F → List (Batcher F) → Server F × List (Batcher F)
  work w cooldown now server batchers = elim server.submit_queue [
    | [] ↦ (server, batchers)
    | (r, i) ∷ queue ↦
        (record server { submit_queue = queue }, (accept_at w cooldown now r i batchers).1)
  ]

  -- `GET /state`
  unfoldable pub state_reply : CooldownMap → Server F → List (Batcher F) → HttpReply StateReply
  state_reply cooldown server batchers = elim server.active_batcher [
    | none ↦ http_error 503 "no_active_window"
    | some i ↦ elim (get_elem? batchers i) [
      | none ↦ http_error 500 "Internal Server Error"
      | some b ↦ answer (record {
        state = server.current_state;
        window_n = b.window_start;
        anchor_block = b.window_start;
        cooldown_prompts = sorted leb_ℤ (current_cooldown_set (pos b.window_start) cooldown);
        valid_submissions = length b.valid;
        checkpoint_n = checkpoint_number server.current_checkpoint;
        checkpoint_repo_id = checkpoint_repo server.current_checkpoint;
        checkpoint_revision = checkpoint_rev server.current_checkpoint;
        randomness = "";
      })
    ]
  ]

  -- `GET /checkpoint`
  unfoldable pub checkpoint_reply : Server F → HttpReply ManifestEntry
  checkpoint_reply server = elim server.current_checkpoint [
    | none ↦ http_error 404 "no_checkpoint"
    | some cp ↦ answer cp
  ]

  -- `GET /health`: the open window's number.
  unfoldable pub health : Server F → List (Batcher F) → Option ℕ
  health server batchers = elim server.active_batcher [
    | none ↦ none
    | some i ↦ elim (get_elem? batchers i) [ none ↦ none | some b ↦ some b.window_start ]
  ]
