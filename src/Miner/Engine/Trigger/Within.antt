-- ===== src/Miner/Engine/Trigger/Within.antt =====
-- miner/engine.py: the counts of the trigger loop, and the invariant on what it posts for a window.
use subnet.Base.{
  ℕ, zero, suc, ◌+◌, ◌≤◌, ℤ, nat_eq, string_eq, Bool, true, false, not, ◌||◌, Option, List, [], ◌∷◌,
  ◌++◌, ◌==◌, if◌then◌else◌, elem, length, ltb, keep, String, ◌≡◌, refl, arith,
}
use subnet.Base.Dict
use subnet.Base.Dict.{Dict}
use subnet.Validator.Server.{StateReply}
use subnet.Miner.Engine.{
  Entry, Settings, Engine, Task, Stage, active_prompt_range, fire_as_ready, should_fire_for_window,
}
use subnet.Miner.Engine.Fire.{drain, reserve, fire_first, keep_first, drop_first}
use subnet.Miner.Engine.Trigger.{flush, cache_randomness, refresh, is_within_64, posted}

pub get-set :
    (j k v : ℕ) (d : Dict ℕ ℕ)
    → Dict.get j 0 (Dict.set k v d) ≡ (if j == k then v else Dict.get j 0 d)
get-set j k v d = ground (arith, Dict.lookup-set j k v d)

pub get-keep :
    (n k : ℕ) (d : Dict ℕ ℕ)
    → n ≤ k + 64
    → Dict.get k 0 (keep (λ c. is_within_64 n c.0) d) ≡ Dict.get k 0 d
get-keep n k [] h = refl
get-keep n k ((j, v) ∷ d) h = ground (arith, get-keep n k d h)

pub elem-keep : (n k : ℕ) (xs : List ℕ) → n ≤ k + 64 → elem k (keep (is_within_64 n) xs) ≡ elem k xs
elem-keep n k [] h = refl
elem-keep n k (x ∷ xs) h = ground (arith, elem-keep n k xs h)

-- The window's prompt range is armed: its entries are fired as they get ready.
abbrev pub is_armed : Settings → ℕ → Bool
is_armed s k = s.forced_seed_enforce || not (ltb k s.prompt_range_from_window)

module _ {R : Type 0} where
  -- The submissions posted for a window.
  abbrev pub sent_in : ℕ → List (ℕ × Entry R) → ℕ
  sent_in k [] = 0
  sent_in k ((w, entry) ∷ sent) = if w == k then suc (sent_in k sent) else sent_in k sent

  -- What the scheduled tasks may still post for it.
  abbrev held : ℕ → ℕ → ℕ → Stage R → ℕ
  held k w budget Stage.scheduled = if w == k then budget else 0
  held k w budget (Stage.posting fire) = 0

  abbrev pub reserved : ℕ → List (Task R) → ℕ
  reserved k [] = 0
  reserved k (t ∷ tasks) = held k t.state.window_n t.budget t.stage + reserved k tasks

  pub reserved-append :
      (k : ℕ) (xs ys : List (Task R)) → reserved k (xs ++ ys) ≡ reserved k xs + reserved k ys
  reserved-append k [] ys = omega arith
  reserved-append k (x ∷ xs) ys = omega (arith, reserved-append k xs ys)

  pub sent_in-posted :
      (k w : ℕ) (sent : List (ℕ × Entry R)) (fire : List (Entry R))
      → sent_in k (sent ++ posted w fire) ≡ sent_in k sent + (if w == k then length fire else 0)
  sent_in-posted k w [] [] = ground arith
  sent_in-posted k w [] (entry ∷ fire) = ground (arith, sent_in-posted k w [] fire)
  sent_in-posted k w ((v, entry) ∷ sent) fire = ground (arith, sent_in-posted k w sent fire)

  pub get-reserve :
      (k w : ℕ) (fire : List (Entry R)) (counts : Dict ℕ ℕ)
      → Dict.get k 0 (reserve w fire counts)
        ≡ Dict.get k 0 counts + (if w == k then length fire else 0)
  unfolding reserve
  get-reserve k w [] counts = ground arith
  get-reserve k w (entry ∷ fire) counts =
      ground (arith, get-set k w (Dict.get w 0 counts + length (entry ∷ fire)) counts)

  pub length-drain :
      (s : Settings) (state : StateReply) (budget : ℕ) (pool : List (Entry R))
      → length (drain s state budget pool).fire ≤ budget
  unfolding drain fire_first keep_first drop_first
  length-drain s state budget [] = omega arith
  length-drain s state zero (entry ∷ pool) = ground (arith, length-drain s state zero pool)
  length-drain s state (suc budget) (entry ∷ pool) =
      ground (arith, length-drain s state (suc budget) pool, length-drain s state budget pool)

  pub record Within (s : Settings) (e : Engine R) (sent : List (ℕ × Entry R)) (peak : ℕ)
      : Type 0 where
    pub counted : (k : ℕ) → peak ≤ k + 64 → Dict.get k 0 e.submitted_count ≡ sent_in k sent
    pub bounded : (k : ℕ) → sent_in k sent + reserved k e.tasks ≤ 8
    pub burst :
        (k : ℕ)
        → peak ≤ k + 64
        → is_armed s k ≡ false
        → elem k e.fired_windows ≡ false
        → sent_in k sent + reserved k e.tasks ≡ 0

  -- The invariant looks at three fields of the engine.
  pub Within-same :
      (s : Settings) (e f : Engine R) (sent : List (ℕ × Entry R)) (p q : ℕ)
      → e.submitted_count ≡ f.submitted_count
      → e.fired_windows ≡ f.fired_windows
      → e.tasks ≡ f.tasks
      → p ≤ q
      → Within s e sent p
      → Within s f sent q
  Within-same s e f sent p q c w t h v = record {
    counted = λ k r. rw (← c) (v.counted k (omega arith));
    bounded = λ k. rw (← t) (v.bounded k);
    burst = λ k r a x. rw (← t) (v.burst k (omega arith) a (rw w x));
  }

  pub refresh-keeps :
      (s : Settings) (state : StateReply) (polls : List (String × Option (List ℤ))) (e : Engine R)
      → ((refresh s state polls e).submitted_count ≡ e.submitted_count)
        × ((refresh s state polls e).fired_windows ≡ e.fired_windows)
        × ((refresh s state polls e).tasks ≡ e.tasks)
  unfolding refresh flush cache_randomness
  refresh-keeps s state polls e = ground arith

pub is_armed-of_ready :
    (s : Settings) (n : ℕ) (r : String) → fire_as_ready s n r ≡ true → is_armed s n ≡ true
unfolding fire_as_ready active_prompt_range
is_armed-of_ready s n r h = ground arith

pub not_armed :
    (s : Settings) (n : ℕ) (r : String)
    → fire_as_ready s n r ≡ false
    → (r == "") ≡ false
    → is_armed s n ≡ false
unfolding fire_as_ready active_prompt_range
not_armed s n r h k = ground arith

pub gates :
    (state : StateReply) (fired forfeit : List ℕ) (pool_size : ℕ)
    → should_fire_for_window state fired forfeit pool_size ≡ true
    → (elem state.window_n fired ≡ false) × ((state.randomness == "") ≡ false)
unfolding should_fire_for_window
gates state fired forfeit pool_size h = ground arith
