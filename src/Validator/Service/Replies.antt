-- ===== src/Validator/Service/Replies.antt =====
-- validator/server.py under validator/service.py: what the endpoints answer at a state that the
-- service may stand in.
use subnet.Base.{
  ℕ, String, Bool, true, false, Option, none, some, List, [], ◌∷◌, ◌++◌, get_elem?, pos, leb_ℤ,
  sorted, length, ◌≡◌, ◌==◌, nat_eq, if◌then◌else◌, inl, inr, refl, sym, ap, ◌∙◌, Bool-cases,
}
use subnet.Base.Float.{Float}
use subnet.Protocol.Reason.{RejectReason, WindowState, is_open}
use subnet.Protocol.Request.{BatchSubmissionRequest, BatchSubmissionResponse}
use subnet.Validator.Batcher.State.{Batcher}
use subnet.Validator.Cooldown.{current_cooldown_set}
use subnet.Validator.Server
use subnet.Validator.Server.{ManifestEntry, HttpReply, http_error, answer, StateReply, submit}
use subnet.Validator.Server.Stamps.{stamp, stamps, get_elem?-map}
use subnet.Validator.Service
use subnet.Validator.Service.{Service, Config, Phase}
use subnet.Validator.Service.Coherence.{HasStamp, Stands, Coherent}

-- The coroutine waits for the randomness or for the seal.
abbrev pub in_window : {F : Type 0} → Phase F → Bool
in_window Phase.opened = true
in_window Phase.accepting = true
in_window _ = false

-- The answer of `/submit`, by the service's own phase and window.
abbrev pub expected_reply :
    {F Model : Type 0}
    → BatchSubmissionRequest F
    → Service F Model
    → HttpReply BatchSubmissionResponse
expected_reply r s =
    if in_window s.phase
    then (if r.window_start == s.window_n
        then answer (record { accepted = true; reason = RejectReason.accepted })
        else http_error 409 "window_mismatch")
    else Server.refused RejectReason.window_not_active

-- What `/submit` adds to the queue: in the window, a request for it, with the active batcher.
abbrev pub expected_queue :
    {F Model : Type 0}
    → BatchSubmissionRequest F
    → Service F Model
    → List (BatchSubmissionRequest F × ℕ)
expected_queue r s =
    if in_window s.phase
    then (if r.window_start == s.window_n
        then elim s.active_batcher [
          | none ↦ s.server.submit_queue
          | some i ↦ s.server.submit_queue ++ (r, i) ∷ []
        ]
        else s.server.submit_queue)
    else s.server.submit_queue

-- What a phase in the window and one outside it stand for.
Stands-in_window :
    {F : Type 0} (state : WindowState) (active : Option ℕ) (manifest : Option ManifestEntry) (n : ℕ)
    (fs : List (ℕ × String)) (phase : Phase F)
    → Stands state active manifest n fs phase
    → in_window phase ≡ true
    → (state ≡ WindowState.open_window) × HasStamp (Service.revision_of manifest) active n fs
Stands-in_window state active manifest n fs Phase.opened st e = st
Stands-in_window state active manifest n fs Phase.accepting st e = st
Stands-in_window state active manifest n fs Phase.between st e = absurd (cc)
Stands-in_window state active manifest n fs Phase.weighing st e = absurd (cc)
Stands-in_window state active manifest n fs (Phase.publishing _ _) st e = absurd (cc)
Stands-in_window state active manifest n fs (Phase.archiving _) st e = absurd (cc)

Stands-outside :
    {F : Type 0} (state : WindowState) (active : Option ℕ) (manifest : Option ManifestEntry) (n : ℕ)
    (fs : List (ℕ × String)) (phase : Phase F)
    → Stands state active manifest n fs phase
    → in_window phase ≡ false
    → is_open state ≡ false
Stands-outside state active manifest n fs Phase.opened st e = absurd (cc)
Stands-outside state active manifest n fs Phase.accepting st e = absurd (cc)
Stands-outside state active manifest n fs Phase.between st e = ap is_open st.0
Stands-outside state active manifest n fs Phase.weighing st e = ap is_open st.0
Stands-outside state active manifest n fs (Phase.publishing _ _) st e = ap is_open st.0
Stands-outside state active manifest n fs (Phase.archiving _) st e = ap is_open st.0

module _ {F Model : Type 0} (s : Service F Model) (c : Coherent s) where
  -- In the window the server has the window's batcher, which requires the manifest's revision.
  server-in_window :
      in_window s.phase ≡ true
      → (s.server.current_state ≡ WindowState.open_window)
        × ((i : ℕ) × (b : Batcher F) × (s.server.active_batcher ≡ some i)
            × (get_elem? s.batchers i ≡ some b)
            × (b.window_start ≡ s.window_n)
            × (b.current_checkpoint_hash ≡ Service.revision_of s.manifest))
  server-in_window e =
      let (state, (i, active, at)) =
        Stands-in_window s.current_window_state s.active_batcher s.manifest s.window_n
          (stamps s.batchers) s.phase c.stands e in
      let (b, inside, stamped) =
        get_elem?-map stamp s.batchers i (s.window_n, Service.revision_of s.manifest) at in
      (
        ap (λ v. v.1) c.mirrors ∙ state,
        (
          i,
          b,
          ap (λ v. v.0) c.mirrors ∙ active,
          inside,
          ap (λ v. v.0) stamped,
          ap (λ v. v.1) stamped,
        ),
      )

  server-outside : in_window s.phase ≡ false → is_open s.server.current_state ≡ false
  server-outside e =
      ap (λ v. is_open v.1) c.mirrors
      ∙ Stands-outside s.current_window_state s.active_batcher s.manifest s.window_n
          (stamps s.batchers) s.phase c.stands e

abbrev pub shown : Option String → String
shown none = ""
shown (some revision) = revision

shown-checkpoint_rev :
    (manifest : Option ManifestEntry)
    → Service.revision_of manifest ≡ shown (Server.checkpoint_rev manifest)
shown-checkpoint_rev none = refl
shown-checkpoint_rev (some entry) = refl

module _ {F Model : Type 0} (fl : Float F) (config : Config F Model) where
  -- `/submit` at a coherent state: outside the window the answer is window_not_active; in the
  -- window, 409 if the request is for another one, and else a provisional accepted, with the
  -- request and the window's batcher put last in the queue. There is no other answer, the queue
  -- does not change otherwise, and no batcher changes.
  pub handle_submit-Coherent :
      (now : F) (r : BatchSubmissionRequest F) (s : Service F Model)
      → Coherent s
      → ((Service.handle_submit fl config now r s).0 ≡ expected_reply r s)
        × ((Service.handle_submit fl config now r s).1.server.submit_queue ≡ expected_queue r s)
        × ((Service.handle_submit fl config now r s).1.batchers ≡ s.batchers)
  unfolding Service.handle_submit Server.submit
  handle_submit-Coherent now r s c = elim (Bool-cases (in_window s.phase)) [
    | inr outside ↦ rw (outside, server-outside s c outside, submit) (refl, refl, refl)
    | inl inside ↦
        let (state, (i, b, active, found, window, hash)) = server-in_window s c inside in
        let worker : s.server.has_worker ≡ true = ap (λ v. v.3) c.mirrors in
        let same : s.active_batcher ≡ some i = sym (ap (λ v. v.0) c.mirrors) ∙ active in
        elim (Bool-cases (r.window_start == s.window_n)) [
          | inl ours ↦
              rw (inside, state, active, found, window, ours, worker, same, submit)
                (refl, refl, refl)
          | inr other ↦ rw (inside, state, active, found, window, other, submit) (refl, refl, refl)
        ]
  ]

module _ {F Model : Type 0} where
  -- `/state` in an open window: it answers, with the service's window and the state open, and the
  -- revision it shows is the checkpoint that the window's batcher requires (the empty hash, which
  -- requires none, if it shows no revision); the randomness it shows is empty, whatever the
  -- batcher's is.
  pub state_reply-in_window :
      (s : Service F Model)
      → Coherent s
      → in_window s.phase ≡ true
      → (reply : StateReply) × (b : Batcher F) × (Server.state_reply s.cooldown_map s.server
            s.batchers
          ≡ answer reply)
        × (Service.active s ≡ some b)
        × (reply.window_n ≡ s.window_n)
        × (reply.state ≡ WindowState.open_window)
        × (b.current_checkpoint_hash ≡ shown reply.checkpoint_revision)
        × (reply.randomness ≡ "")
  unfolding Server.state_reply
  state_reply-in_window s c e =
      let (state, (i, b, active, found, window, hash)) = server-in_window s c e in
      let same : s.active_batcher ≡ some i = sym (ap (λ v. v.0) c.mirrors) ∙ active in
      (
        record {
          state = s.server.current_state;
          window_n = b.window_start;
          anchor_block = b.window_start;
          cooldown_prompts =
              sorted leb_ℤ (current_cooldown_set (pos b.window_start) s.cooldown_map);
          valid_submissions = length b.valid;
          checkpoint_n = Server.checkpoint_number s.server.current_checkpoint;
          checkpoint_repo_id = Server.checkpoint_repo s.server.current_checkpoint;
          checkpoint_revision = Server.checkpoint_rev s.server.current_checkpoint;
          randomness = "";
        },
        b,
        rw (active, found, Server.state_reply) refl,
        rw (same, found) refl,
        window,
        state,
        hash
            ∙ (shown-checkpoint_rev s.manifest
                ∙ ap (λ v. shown (Server.checkpoint_rev v.2)) (sym c.mirrors)),
        refl,
      )
