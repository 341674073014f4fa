-- ===== src/Miner/Engine/Trigger/Scheduling.antt =====
-- miner/engine.py: the branches of the trigger loop that schedule a fire task, against `Within`.
use subnet.Base.{
  ℕ, ◌+◌, ◌-◌, max, ◌≤◌, ℤ, nat_eq, string_eq, Bool, true, false, not, ◌&&◌, Option, List, [], ◌∷◌,
  ◌==◌, if◌then◌else◌, elem, length, ltb, String, ◌≡◌, refl, sym, arith, Bool-cases, and_true, inl,
  inr, ◌∙◌,
}
use subnet.Base.Dict
use subnet.Base.Dict.{Dict}
use subnet.Protocol.Reason.{is_open}
use subnet.Validator.Server.{StateReply}
use subnet.Miner.Engine.{
  Entry, Settings, Engine, Task, Stage, Pull, fire_as_ready, should_fire_for_window,
}
use subnet.Miner.Engine.Trigger.{
  refresh, schedule, no_tasks, fire_ready, fire_burst, fire_branch, prune_old, tick_after, advance,
}
use subnet.Miner.Engine.Trigger.Within.{
  get-keep, elem-keep, is_armed, reserved-append, Within, Within-same, refresh-keeps,
  is_armed-of_ready, not_armed, gates,
}

module _ {R : Type 0} (s : Settings) (state : StateReply) (sent : List (ℕ × Entry R)) (p : ℕ)
    (near : p ≤ state.window_n + 64) where
  pub schedule_ready-Within :
      (e : Engine R)
      → is_armed s state.window_n ≡ true
      → e.tasks ≡ []
      → Within s e sent p
      → Within s (schedule state (8 - Dict.get state.window_n 0 e.submitted_count) e) sent p
  schedule_ready-Within e a t v = record {
    counted = v.counted;
    bounded = λ k. rw t (ground (arith, v.bounded k, v.counted state.window_n near));
    burst = λ k r b x. rw t (ground (arith, v.burst k r b x));
  }

  pub schedule_burst-Within :
      (e : Engine R)
      → is_armed s state.window_n ≡ false
      → elem state.window_n e.fired_windows ≡ false
      → Within s e sent p
      → Within s
          (schedule state 8 (record e { fired_windows = state.window_n ∷ e.fired_windows }))
          sent
          p
  schedule_burst-Within e a x v = record {
    counted = v.counted;
    bounded = λ k. ground (
      arith,
      v.bounded k,
      v.burst state.window_n near a x,
      reserved-append k e.tasks
          (record { state = state; budget = 8; stage = Stage.scheduled } ∷ []),
    );
    burst = λ k r b y. ground (
      arith,
      v.burst k r b,
      reserved-append k e.tasks
          (record { state = state; budget = 8; stage = Stage.scheduled } ∷ []),
    );
  }

  pub fire_ready-Within :
      (e : Engine R)
      → is_armed s state.window_n ≡ true
      → Within s e sent p
      → Within s (fire_ready state e) sent p
  unfolding fire_ready
  fire_ready-Within e a v =
      let test =
        is_open state.state
        && not (state.randomness == "")
        && ltb 0 (8 - Dict.get state.window_n 0 e.submitted_count)
        && ltb 0 (length e.pool)
        && no_tasks e.tasks in
      elim (Bool-cases test) [
        | inl c ↦ rw c (schedule_ready-Within e a (idle e.tasks (and_true _ _ c).1) v)
        | inr c ↦ rw c v
      ]
    where
      idle : (tasks : List (Task R)) → no_tasks tasks ≡ true → tasks ≡ []
      idle [] h = refl
      idle (t ∷ tasks) h = absurd (cc)

  pub fire_burst-Within :
      (e : Engine R)
      → ((state.randomness == "") ≡ false → is_armed s state.window_n ≡ false)
      → Within s e sent p
      → Within s (fire_burst state e) sent p
  unfolding fire_burst
  fire_burst-Within e a v =
      elim (Bool-cases
        (should_fire_for_window state e.fired_windows e.logged_empty_windows (length e.pool))) [
          | inl c ↦ let (x, r) = gate c in rw c (schedule_burst-Within e (a r) x v)
          | inr c ↦ rw c (logged _)
        ]
    where
      gate :
          should_fire_for_window state e.fired_windows e.logged_empty_windows (length e.pool) ≡ true
          → (elem state.window_n e.fired_windows ≡ false) × ((state.randomness == "") ≡ false)
      gate c = gates state e.fired_windows e.logged_empty_windows (length e.pool) c

      logged :
          (b : Bool)
          → Within s
              (if b
                then record e { logged_empty_windows = state.window_n ∷ e.logged_empty_windows }
                else e)
              sent
              p
      logged true = record { counted = v.counted; bounded = v.bounded; burst = v.burst }
      logged false = v

  pub fire_branch-Within :
      (e : Engine R) → Within s e sent p → Within s (fire_branch s state e) sent p
  unfolding fire_branch
  fire_branch-Within e v = elim (Bool-cases (fire_as_ready s state.window_n state.randomness)) [
    | inl c ↦ rw c (fire_ready-Within e (is_armed-of_ready s state.window_n state.randomness c) v)
    | inr c ↦ rw c (fire_burst-Within e (not_armed s state.window_n state.randomness c) v)
  ]

module _ {R : Type 0} where
  pub prune_old-Within :
      (s : Settings) (n p : ℕ) (e : Engine R) (sent : List (ℕ × Entry R))
      → Within s e sent p
      → Within s (prune_old n e) sent (max p n)
  unfolding prune_old
  prune_old-Within s n p e sent v = record {
    counted = λ k r. get-keep n k e.submitted_count (omega arith) ∙ v.counted k (omega arith);
    bounded = v.bounded;
    burst = λ k r a x.
        v.burst k (omega arith) a (sym (elem-keep n k e.fired_windows (omega arith)) ∙ x);
  }

  pub refresh-Within :
      (s : Settings) (state : StateReply) (polls : List (String × Option (List ℤ))) (e : Engine R)
      (sent : List (ℕ × Entry R)) (p : ℕ)
      → Within s e sent p
      → Within s (refresh s state polls e) sent p
  refresh-Within s state polls e sent p v =
      let (c, w, t) = refresh-keeps s state polls e in
      Within-same s e (refresh s state polls e) sent p p (sym c) (sym w) (sym t) (omega arith) v

  pub tick_after-Within :
      (s : Settings) (state : StateReply) (pull : Pull) (e : Engine R) (sent : List (ℕ × Entry R))
      (p : ℕ)
      → p ≤ state.window_n + 64
      → Within s e sent p
      → Within s (tick_after s state pull e) sent (max p state.window_n)
  unfolding tick_after advance
  tick_after-Within s state (Pull.advanced n revision) e sent p near v =
      Within-same s e _ sent p (max p state.window_n) refl refl refl (omega arith) v
  tick_after-Within s state Pull.unchanged e sent p near v =
      prune_old-Within s state.window_n p _ sent (fire_branch-Within s state sent p near e v)
  tick_after-Within s state Pull.failed e sent p near v =
      prune_old-Within s state.window_n p _ sent (fire_branch-Within s state sent p near e v)
