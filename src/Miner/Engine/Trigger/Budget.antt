-- ===== src/Miner/Engine/Trigger/Budget.antt =====
-- miner/engine.py: how many submissions the trigger loop posts for a window, whatever the order of
-- refreshes, decisions, fire tasks, answers and bakes.
use subnet.Base.{
  ℕ, ◌+◌, ◌≤◌, nat_eq, string_eq, List, [], ◌∷◌, ◌++◌, ◌==◌, if◌then◌else◌, length, ◌≡◌, refl,
  arith,
}
use subnet.Miner.Engine.{
  Entry, Settings, Engine, Task, Stage, max_submissions_per_hotkey_per_window,
}
use subnet.Miner.Engine.Fire.{drain, drain_pool, requeue}
use subnet.Miner.Engine.Trigger.{start_task, append_entry, Run, posted, Move, Moves}
use subnet.Miner.Engine.Trigger.Within.{
  sent_in, reserved, reserved-append, sent_in-posted, get-reserve, length-drain, Within,
  Within-same,
}
use subnet.Miner.Engine.Trigger.Scheduling.{refresh-Within, tick_after-Within}

module _ {R : Type 0} where
  reserved-started :
      (k : ℕ) (t : Task R) (fire : List (Entry R)) (before after : List (Task R))
      → reserved k (
          if length fire == 0
          then before ++ after
          else before ++ record t { stage = Stage.posting fire } ∷ after)
        ≡ reserved k before + reserved k after
  reserved-started k t [] before after = reserved-append k before after
  reserved-started k t (entry ∷ fire) before after =
      ground (
        arith,
        reserved-append k before (record t { stage = Stage.posting (entry ∷ fire) } ∷ after),
      )

  reserved-scheduled :
      (k : ℕ) (t : Task R) (before after tasks : List (Task R))
      → tasks ≡ before ++ t ∷ after
      → t.stage ≡ Stage.scheduled
      → reserved k tasks
        ≡ reserved k before + ((if t.state.window_n == k then t.budget else 0) + reserved k after)
  reserved-scheduled k t before after tasks e h =
      rw (e, reserved-append k before (t ∷ after), h) refl

  start_task-Within :
      (s : Settings) (before : List (Task R)) (t : Task R) (after : List (Task R)) (e : Engine R)
      (sent : List (ℕ × Entry R)) (p : ℕ)
      → e.tasks ≡ before ++ t ∷ after
      → t.stage ≡ Stage.scheduled
      → Within s e sent p
      → Within s
          (start_task s before t after e).0
          (sent ++ posted t.state.window_n (start_task s before t after e).1)
          p
  unfolding start_task drain_pool
  start_task-Within s before t after e sent p split stage v =
      let n = t.state.window_n in
      let taken = (drain s t.state t.budget e.pool).fire in
      let cap = length-drain s t.state t.budget e.pool in
      record {
        counted = λ k r. ground (
          arith,
          v.counted k r,
          get-reserve k n taken e.submitted_count,
          sent_in-posted k n sent taken,
        );
        bounded = λ k. ground (
          arith,
          cap,
          v.bounded k,
          sent_in-posted k n sent taken,
          reserved-started k t taken before after,
          reserved-scheduled k t before after e.tasks split stage,
        );
        burst = λ k r a x. ground (
          arith,
          cap,
          v.burst k r a x,
          sent_in-posted k n sent taken,
          reserved-started k t taken before after,
          reserved-scheduled k t before after e.tasks split stage,
        );
      }

  finish-Within :
      (s : Settings) (before : List (Task R)) (t : Task R) (after : List (Task R)) (e f : Engine R)
      (fire : List (Entry R)) (sent : List (ℕ × Entry R)) (p : ℕ)
      → e.tasks ≡ before ++ t ∷ after
      → t.stage ≡ Stage.posting fire
      → e.submitted_count ≡ f.submitted_count
      → e.fired_windows ≡ f.fired_windows
      → f.tasks ≡ before ++ after
      → Within s e sent p
      → Within s f sent p
  finish-Within s before t after e f fire sent p split stage c w left v =
      let same : (k : ℕ) → reserved k f.tasks ≡ reserved k e.tasks = λ k.
        rw
          (left, split, reserved-append k before (t ∷ after), stage, reserved-append k before after)
          (omega arith) in
      record {
        counted = λ k r. rw (← c) (v.counted k r);
        bounded = λ k. rw (same k) (v.bounded k);
        burst = λ k r a x. rw (same k) (v.burst k r a (rw w x));
      }

  append_entry-keeps :
      (s : Settings) (entry : Entry R) (e : Engine R)
      → (e.submitted_count ≡ (append_entry s entry e).submitted_count)
        × (e.fired_windows ≡ (append_entry s entry e).fired_windows)
        × (e.tasks ≡ (append_entry s entry e).tasks)
  unfolding append_entry
  append_entry-keeps s entry e = ground arith

  Move-Within :
      (s : Settings) (w v : Run R)
      → Move s w v
      → Within s w.engine w.sent w.peak
      → Within s v.engine v.sent v.peak
  Move-Within s w v (Move.refreshes state polls) h =
      refresh-Within s state polls w.engine w.sent w.peak h
  Move-Within s w v (Move.decides state pull near) h =
      tick_after-Within s state pull w.engine w.sent w.peak near h
  Move-Within s w v (Move.fire before t after split stage) h =
      start_task-Within s before t after w.engine w.sent w.peak split stage h
  Move-Within s w v (Move.finish before t after results split stage) h =
      unfold requeue in
      finish-Within s before t after w.engine _ _ w.sent w.peak split stage refl refl refl h
  Move-Within s w v (Move.bake entry) h =
      let (c, f, t) = append_entry-keeps s entry w.engine in
      Within-same s w.engine (append_entry s entry w.engine) w.sent w.peak w.peak c f t
        (omega arith) h

  Moves-Within :
      (s : Settings) (w v : Run R)
      → Moves s w v
      → Within s w.engine w.sent w.peak
      → Within s v.engine v.sent v.peak
  Moves-Within s w v Moves.here h = h
  Moves-Within s w v (Moves.next {v = u} moves last) h =
      Move-Within s u v last (Moves-Within s w u moves h)

  -- An engine that has scheduled and posted nothing.
  abbrev pub fresh : Engine R → Run R
  fresh e = record {
    engine = record e { submitted_count = []; fired_windows = []; tasks = [] };
    sent = [];
    peak = 0;
  }

  -- From a fresh engine, whatever the interleaving of refreshes, decisions, fire tasks, their
  -- answers and bakes, at most eight submissions are posted for any window, and those that the
  -- scheduled tasks may still post fit under the same limit, provided that no decision goes back
  -- by more than 64 windows.
  pub Moves-budget :
      (s : Settings) (e : Engine R) (w : Run R)
      → Moves s (fresh e) w
      → (k : ℕ)
      → sent_in k w.sent + reserved k w.engine.tasks ≤ max_submissions_per_hotkey_per_window
  Moves-budget s e w moves =
      (Moves-Within s (fresh e) w moves (record {
        counted = λ k r. refl;
        bounded = λ k. omega arith;
        burst = λ k r a x. refl;
      })).bounded
