-- ===== src/Validator/Service/Steps.antt =====
-- validator/service.py `run`: the steps of the service and of its server as a relation. The
-- coroutine advances from one await to the next, with whatever the outside answers; between any
-- two of its steps a request may arrive or the worker may judge the oldest queued one.
use subnet.Base.{ℕ, String, Bool, true, Option, none, List, [], ◌≡◌, ◌⊎◌}
use subnet.Base.Dict.{Dict}
use subnet.Base.Float.{Float}
use subnet.Protocol.Reason.{WindowState}
use subnet.Protocol.Request.{BatchSubmissionRequest}
use subnet.Validator.Accepted.{ValidSubmission}
use subnet.Validator.Cooldown.{CooldownMap}
use subnet.Validator.Server.{ManifestEntry}
use subnet.Validator.Service
use subnet.Validator.Service.{Service, Config, Phase}

-- The service before its first window, with what the bootstrap found: the model, the rebuilt
-- cooldown, the numbers of the last window and checkpoint, the scores, the resumed manifest and
-- the chain's block. The server runs its worker.
abbrev pub start :
    {F Model : Type 0}
    → Model
    → CooldownMap
    → ℕ
    → ℕ
    → Dict String F
    → Option ManifestEntry
    → ℕ
    → Service F Model
start model cooldown window_n checkpoint_n scores manifest block = record {
  phase = Phase.between;
  model = model;
  batchers = [];
  server = record {
    active_batcher = none;
    current_state = WindowState.ready;
    current_checkpoint = manifest;
    has_worker = true;
    submit_queue = [];
  };
  cooldown_map = cooldown;
  window_n = window_n;
  checkpoint_n = checkpoint_n;
  miner_scores_ema = scores;
  manifest = manifest;
  active_batcher = none;
  current_window_state = WindowState.ready;
  last_weight_block = block;
  sealed = [];
  archives = [];
}

module _ {F Model : Type 0} (fl : Float F) (config : Config F Model) where
  -- The coroutine goes on. The awaits of the randomness and of the chain's block may raise; an
  -- upload's exception is caught.
  pub data Advance (s t : Service F Model) : Type 0 where
    opens : s.phase ≡ Phase.between → t ≡ Service.open_window s → Advance s t
    randomizes :
        (randomness : String)
        → s.phase ≡ Phase.opened
        → t ≡ Service.set_window_randomness randomness s
        → Advance s t
    seals : s.phase ≡ Phase.accepting → t ≡ Service.seal_and_train fl config s → Advance s t
    publishes :
        (batch : List (ValidSubmission F)) (trained : Bool) (revision : Option String)
        → s.phase ≡ Phase.publishing batch trained
        → t ≡ Service.publish fl config revision batch trained s
        → Advance s t
    archives :
        (batch : List (ValidSubmission F)) (uploaded : Bool)
        → s.phase ≡ Phase.archiving batch
        → t ≡ Service.archive_window fl config uploaded batch s
        → Advance s t
    weighs :
        (current_block : ℕ) (uids : Dict String ℕ) (submitted : Bool)
        → s.phase ≡ Phase.weighing
        → t ≡ Service.weigh fl config current_block uids submitted s
        → Advance s t
    fails :
        (s.phase ≡ Phase.opened) ⊎ (s.phase ≡ Phase.weighing) → t ≡ Service.abort s → Advance s t

  pub data Serve (s t : Service F Model) : Type 0 where
    submits :
        (now : F) (r : BatchSubmissionRequest F)
        → t ≡ (Service.handle_submit fl config now r s).1
        → Serve s t
    works : (now : F) → t ≡ Service.handle_work fl config now s → Serve s t

  pub data Step (s t : Service F Model) : Type 0 where
    advance : Advance s t → Step s t
    serve : Serve s t → Step s t

  pub data Reach (s : Service F Model) : Service F Model → Type 0 where
    here : Reach s s
    next : {t u : Service F Model} → Reach s t → Step t u → Reach s u
