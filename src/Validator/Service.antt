-- ===== src/Validator/Service.antt =====
-- validator/service.py: `ValidationService`, the life cycle of windows. The coroutine `run` is cut
-- at its awaits: `Phase` says where it stands, and each function below runs up to the next await.
-- Between them the server and its worker act. What the chain, HF, R2 and torch answer are
-- arguments; an exception is `none`.
pub mod Steps
pub mod Coherence
pub mod Boot
pub mod Replies
pub mod Cycle
pub mod Spacing
pub mod Samples
mod Tests
use subnet.Base.{
  ℕ, ◌+◌, ◌-◌, ◌%◌, pos, ℤ, Bool, true, false, not, ◌&&◌, ◌||◌, Option, none, some, List, [], ◌∷◌,
  ◌++◌, map, if◌then◌else◌, ◌==◌, nat_eq, String, ltb, leb, length, get_elem?, set_at,
}
use subnet.Base.Dict.{Dict}
use subnet.Base.Float.{Float}
use subnet.Protocol.Constants.{b_batch, bootstrap_windows}
use subnet.Protocol.Reason.{WindowState}
use subnet.Protocol.Request.{BatchSubmissionRequest, BatchSubmissionResponse}
use subnet.Validator.Accepted.{ValidSubmission}
use subnet.Validator.Archive.{BatchEntry, ArchivedWindow}
use subnet.Validator.Cooldown.{CooldownMap}
use subnet.Validator.Batcher.Checks.{World}
use subnet.Validator.Batcher.State.{Batcher, init, seal_batch}
use subnet.Validator.Ema.{update_ema, weights_to_set}
use subnet.Validator.Server
use subnet.Validator.Server.{Server, ManifestEntry, HttpReply}

-- Where `run` stands. `opened`: the randomness is awaited; `accepting`: the seal event or the
-- timeout; `publishing` and `archiving`: the upload of the checkpoint and of the window, with the
-- local variables `batch` and `trained`; `weighing`: the chain's block number.
pub data Phase (F : Type 0) : Type 0 where
  between opened accepting weighing : Phase F
  publishing : List (ValidSubmission F) → Bool → Phase F
  archiving : List (ValidSubmission F) → Phase F

-- `sealed` logs the batches, newest first, with their windows; `archives` is what R2 has.
pub record Service (F Model : Type 0) : Type 0 where
  pub phase : Phase F
  pub model : Model
  pub batchers : List (Batcher F)
  pub server : Server F
  pub cooldown_map : CooldownMap
  pub window_n : ℕ
  pub checkpoint_n : ℕ
  pub miner_scores_ema : Dict String F
  pub manifest : Option ManifestEntry
  pub active_batcher : Option ℕ
  pub current_window_state : WindowState
  pub last_weight_block : ℕ
  pub sealed : List (ℕ × List (ValidSubmission F))
  pub archives : List ArchivedWindow

-- CHECKPOINT_PUBLISH_INTERVAL_WINDOWS
abbrev pub publish_every : ℕ
publish_every = 10

-- SUBNET_START_BLOCK
abbrev pub subnet_start : ℕ
subnet_start = 0

unfoldable pub is_bootstrap_window : ℕ → ℕ → Bool
is_bootstrap_window window_start start =
    if ltb window_start start then false else ltb (window_start - start) bootstrap_windows

-- `cp.revision if cp else ""`
abbrev pub revision_of : Option ManifestEntry → String
revision_of none = ""
revision_of (some cp) = cp.revision

-- What a service is built with: the batcher's surroundings under the current model, `train_step`
-- on a batch and a window (it changes the model in place, so every batcher sees it, and returns it
-- or raises: `false`), the wallet's signature of a checkpoint's number and revision, the
-- repository, and WEIGHT_SUBMISSION_INTERVAL.
pub record Config (F Model : Type 0) : Type 0 where
  pub world : Model → World F
  pub train_step : Model → List (ValidSubmission F) → ℕ → Model × Bool
  pub sign : ℕ → String → String
  pub repo_id : String
  pub weight_submission_interval : ℕ

abbrev pub hotkeys : {F : Type 0} → List (ValidSubmission F) → List String
hotkeys batch = map (λ sub. sub.hotkey) batch

abbrev pub archive_of : {F : Type 0} → ℕ → List (ValidSubmission F) → ArchivedWindow
archive_of window batch = record {
  window_start = pos window;
  batch = map (λ sub. record { hotkey = sub.hotkey; prompt_idx = pos sub.prompt_idx }) batch;
}

module _ {F Model : Type 0} where
  -- `_set_state`
  abbrev pub set_state : WindowState → Service F Model → Service F Model
  set_state state s = record s {
    current_window_state = state;
    server = record s.server { current_state = state };
  }

  abbrev pub set_active : Option ℕ → Service F Model → Service F Model
  set_active active s = record s {
    active_batcher = active;
    server = record s.server { active_batcher = active };
  }

  -- The batcher of the next window.
  abbrev pub next_batcher : Service F Model → Batcher F
  next_batcher s =
      record (init (s.window_n + 1) (is_bootstrap_window (s.window_n + 1) subnet_start)) {
        current_checkpoint_hash = revision_of s.manifest;
      }

  -- `_open_window`
  unfoldable pub open_window : Service F Model → Service F Model
  unfolding init
  open_window s = set_state WindowState.open_window (
      set_active (some (length s.batchers)) (record s {
        phase = Phase.opened;
        window_n = s.window_n + 1;
        batchers = s.batchers ++ next_batcher s ∷ [];
      }))

  -- `except Exception` of `run`: the window is given up.
  unfoldable pub abort : Service F Model → Service F Model
  abort s = set_state WindowState.ready (set_active none (record s { phase = Phase.between }))

  -- `_set_window_randomness`, with what `_derive_randomness` returns.
  unfoldable pub set_window_randomness : String → Service F Model → Service F Model
  set_window_randomness randomness s = record s {
    phase = Phase.accepting;
    batchers = elim s.active_batcher [
      | none ↦ s.batchers
      | some i ↦ elim (get_elem? s.batchers i) [
        | none ↦ s.batchers
        | some b ↦ set_at i (record b { randomness = randomness }) s.batchers
      ]
    ];
  }

  abbrev pub active : Service F Model → Option (Batcher F)
  active s = elim s.active_batcher [ none ↦ none | some i ↦ get_elem? s.batchers i ]

  module _ (fl : Float F) (config : Config F Model) where
    -- `seal_batch` and `_update_ema`, with the batch.
    unfoldable pub seal_window :
        Batcher F → Service F Model → Option (List (ValidSubmission F) × Service F Model)
    seal_window b s = elim (seal_batch (config.world s.model) s.cooldown_map b) [
      | none ↦ none
      | some (batch, cooldown') ↦ some (
        batch,
        record s {
          cooldown_map = cooldown';
          miner_scores_ema = update_ema fl (hotkeys batch) s.miner_scores_ema;
          sealed = (b.window_start, batch) ∷ s.sealed;
        },
      )
    ]

    -- The training of a full batch.
    unfoldable pub train_window : List (ValidSubmission F) → Service F Model → Service F Model
    train_window batch s = elim (leb b_batch (length batch)) [
      | false ↦ set_state WindowState.publishing (record s { phase = Phase.publishing batch false })
      | true ↦
          let (model, returned) = config.train_step s.model batch s.window_n in
          elim returned [
            | false ↦ abort (record s { model = model })
            | true ↦
                set_state WindowState.publishing
                  (record s { model = model; phase = Phase.publishing batch true })
          ]
    ]

    -- `_train_and_publish` up to the upload of the checkpoint.
    unfoldable pub seal_and_train : Service F Model → Service F Model
    seal_and_train s = elim (active s) [
      | none ↦ record s { phase = Phase.weighing }
      | some b ↦ elim (seal_window b (set_state WindowState.training s)) [
        | none ↦ abort s
        | some (batch, s') ↦ train_window batch s'
      ]
    ]

    abbrev pub has_manifest : Service F Model → Bool
    has_manifest s = elim s.manifest [ none ↦ false | some _ ↦ true ]

    -- `should_publish`
    abbrev pub should_publish : Service F Model → Bool
    should_publish s = (s.window_n % publish_every == 0) || not (has_manifest s)

    -- `CheckpointStore.publish`'s entry
    abbrev pub next_entry : String → Service F Model → ManifestEntry
    next_entry revision s = record {
      checkpoint_n = s.checkpoint_n + 1;
      repo_id = config.repo_id;
      revision = revision;
      signature = config.sign (s.checkpoint_n + 1) revision;
    }

    -- The upload of the checkpoint came back with a revision, or failed.
    unfoldable pub publish :
        Option String → List (ValidSubmission F) → Bool → Service F Model → Service F Model
    publish revision batch trained s = elim (trained && should_publish s) [
      | false ↦ record s { phase = Phase.archiving batch }
      | true ↦ elim revision [
        | none ↦ record s { phase = Phase.archiving batch }
        | some rev ↦ record s {
          phase = Phase.archiving batch;
          manifest = some (next_entry rev s);
          checkpoint_n = s.checkpoint_n + 1;
          server = record s.server { current_checkpoint = some (next_entry rev s) };
        }
      ]
    ]

    -- `_archive_window`, whose upload went through or not, and the end of `_train_and_publish`.
    unfoldable pub archive_window :
        Bool → List (ValidSubmission F) → Service F Model → Service F Model
    archive_window uploaded batch s = set_state WindowState.ready (
        set_active none (record s {
          phase = Phase.weighing;
          archives = elim (active s) [
            | none ↦ s.archives
            | some b ↦
                if uploaded then s.archives ++ archive_of b.window_start batch ∷ [] else s.archives
          ];
        }))

    -- `_submit_weights`: nothing is sent if there is no weight; else the chain answers.
    unfoldable pub submit_weights : Dict String ℕ → Bool → Service F Model → Bool
    submit_weights uids answer s = elim (weights_to_set fl uids s.miner_scores_ema) [
      | [] ↦ true
      | _ ∷ _ ↦ answer
    ]

    -- The weight cadence at the end of the loop, at the chain's current block.
    unfoldable pub weigh : ℕ → Dict String ℕ → Bool → Service F Model → Service F Model
    weigh current_block uids answer s = record s {
      phase = Phase.between;
      last_weight_block =
          if ltb current_block (s.last_weight_block + config.weight_submission_interval)
          then s.last_weight_block
          else if submit_weights uids answer s
          then current_block
          else s.last_weight_block;
    }

    -- A request arrives; the worker takes the next one.
    unfoldable pub handle_submit :
        F
        → BatchSubmissionRequest F
        → Service F Model
        → HttpReply BatchSubmissionResponse × Service F Model
    handle_submit now r s =
        let (reply, server, batchers) =
          Server.submit (config.world s.model) s.cooldown_map now r s.server s.batchers in
        (reply, record s { server = server; batchers = batchers })

    unfoldable pub handle_work : F → Service F Model → Service F Model
    handle_work now s =
        let (server, batchers) =
          Server.work (config.world s.model) s.cooldown_map now s.server s.batchers in
        record s { server = server; batchers = batchers }
