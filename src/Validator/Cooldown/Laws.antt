-- ===== src/Validator/Cooldown/Laws.antt =====
-- The cooldown predicate of validator/cooldown.py after the map's operations.
use subnet.Base.{
  ℕ, ℤ, pos, ◌-ℤ◌, ◌<ℤ◌, ltb_ℤ, true, none, some, [], ◌∷◌, if◌then◌else◌, ◌==◌, ◌&&◌, ◌≡◌, ◌↔◌,
  refl, arith, not, ◌⊎◌, inl, inr, int_beq, int_beq_iff, In, Bool-cases, Option-cases, int_eq,
  nat_eq,
}
use subnet.Base.Dict
use subnet.Base.Dict.{Dict}
use subnet.Validator.Cooldown.{
  CooldownMap, record_batched, is_recent, is_in_cooldown, recent_prompts, current_cooldown_set,
}

pub is_recent_iff :
    (n : ℕ) (current last : ℤ) → (is_recent n current last ≡ true) ↔ (current -ℤ last <ℤ pos n)
unfolding is_recent
is_recent_iff n current last = ground arith

-- Batching a prompt at window `w` succeeds, touches no other prompt, and puts this one into
-- cooldown for exactly the windows `c` with `c - w < cooldown_windows` (for none if that is 0).
is_in_cooldown-record_batched :
    (idx w : ℕ) (other c : ℤ) (m : CooldownMap)
    → (m' : CooldownMap) × (record_batched (pos idx) (pos w) m ≡ some m')
      × (is_in_cooldown other c m' ≡ (
          if other == pos idx
          then not (m.cooldown_windows == 0) && ltb_ℤ (c -ℤ pos w) (pos m.cooldown_windows)
          else is_in_cooldown other c m))
unfolding record_batched is_in_cooldown is_recent
is_in_cooldown-record_batched idx w other c m = (
  record m { last_batched = Dict.set (pos idx) (pos w) m.last_batched },
  ground arith,
  ground (arith, Dict.lookup-set other (pos idx) (pos w) m.last_batched),
)

pub lookup-record_batched :
    (idx w : ℤ) (other : ℤ) (m : CooldownMap) {m' : CooldownMap}
    → record_batched idx w m ≡ some m'
    → (Dict.lookup other m'.last_batched
        ≡ (if other == idx then some w else Dict.lookup other m.last_batched))
      × (m'.cooldown_windows ≡ m.cooldown_windows)
unfolding record_batched
lookup-record_batched idx w other m h = ground (arith, Dict.lookup-set other idx w m.last_batched)

-- A negative prompt or window is refused.
pub record_batched_negative :
    (idx w : ℤ) (m : CooldownMap) → (idx <ℤ pos 0) ⊎ (w <ℤ pos 0) → record_batched idx w m ≡ none
unfolding record_batched
record_batched_negative idx w m h = ground arith

-- Keys of a dict stand once.
abbrev pub HasDistinctKeys : Dict ℤ ℤ → Type 0
HasDistinctKeys [] = Unit
HasDistinctKeys ((k, v) ∷ d) = (Dict.lookup k d ≡ none) × HasDistinctKeys d

recent_prompts-In :
    (n : ℕ) (c idx : ℤ) (d : Dict ℤ ℤ)
    → HasDistinctKeys d
    → In idx (recent_prompts n c d)
    → (last : ℤ) × (Dict.lookup idx d ≡ some last) × (is_recent n c last ≡ true)
unfolding recent_prompts
recent_prompts-In n c idx [] u h = absurd h
recent_prompts-In n c idx ((k, last) ∷ d) u h = elim (Bool-cases (is_recent n c last)) [
  | inl recent ↦
      let m : (idx ≡ k) ⊎ In idx (recent_prompts n c d) = rw recent at h in
      elim m [
        | inl same ↦ (last, ground (arith, int_beq_iff idx k), recent)
        | inr later ↦
            let (v, found, r) = recent_prompts-In n c idx d u.1 later in
            (v, ground (arith, int_beq_iff idx k), r)
      ]
  | inr old ↦
      let (v, found, r) = recent_prompts-In n c idx d u.1 (rw old at h) in
      (v, ground (arith, int_beq_iff idx k), r)
]

In-recent_prompts :
    (n : ℕ) (c idx last : ℤ) (d : Dict ℤ ℤ)
    → Dict.lookup idx d ≡ some last
    → is_recent n c last ≡ true
    → In idx (recent_prompts n c d)
unfolding recent_prompts
In-recent_prompts n c idx last [] h r = absurd (cc)
In-recent_prompts n c idx last ((k, v) ∷ d) h r = elim (Bool-cases (int_beq idx k)) [
  | inl same ↦ let e : v ≡ last = ground arith in rw (e, r) (inl ((int_beq_iff idx k).0 same))
  | inr other ↦
      let ih : In idx (recent_prompts n c d) = In-recent_prompts n c idx last d (ground arith) r in
      elim (Bool-cases (is_recent n c v)) [ inl recent ↦ rw recent (inr ih) | inr old ↦ rw old ih ]
]

-- On a map whose keys stand once, the set that `/state` publishes holds exactly the prompts that
-- `is_in_cooldown` refuses.
pub current_cooldown_set_iff :
    (idx c : ℤ) (m : CooldownMap)
    → HasDistinctKeys m.last_batched
    → In idx (current_cooldown_set c m) ↔ (is_in_cooldown idx c m ≡ true)
unfolding current_cooldown_set is_in_cooldown
current_cooldown_set_iff idx c m u = (forth, back)
  where
    forth : In idx (current_cooldown_set c m) → is_in_cooldown idx c m ≡ true
    forth h = elim (Bool-cases (m.cooldown_windows == 0)) [
      | inl zero_windows ↦ absurd (rw zero_windows at h)
      | inr some_windows ↦
          let (last, found, r) =
            recent_prompts-In m.cooldown_windows c idx m.last_batched u (rw some_windows at h) in
          rw (some_windows, found, r)
    ]

    back : is_in_cooldown idx c m ≡ true → In idx (current_cooldown_set c m)
    back h = elim (Bool-cases (m.cooldown_windows == 0)) [
      | inl zero_windows ↦ absurd (ground arith)
      | inr some_windows ↦ elim (Option-cases (Dict.lookup idx m.last_batched)) [
        | inl missing ↦ absurd (ground arith)
        | inr (last, found) ↦
            rw some_windows
              (In-recent_prompts m.cooldown_windows c idx last m.last_batched found (ground arith))
      ]
    ]

set-HasDistinctKeys :
    (k v : ℤ) (d : Dict ℤ ℤ) → HasDistinctKeys d → HasDistinctKeys (Dict.set k v d)
set-HasDistinctKeys k v [] u = (refl, tt)
set-HasDistinctKeys k v ((j, w) ∷ d) u = ground (
  arith,
  set-HasDistinctKeys k v d u.1,
  Dict.lookup-set j k v d,
  int_beq_iff k j,
  int_beq_iff j k,
)

-- `record_batched` keeps the keys apart.
pub record_batched-HasDistinctKeys :
    (idx w : ℤ) (m : CooldownMap) {m' : CooldownMap}
    → HasDistinctKeys m.last_batched
    → record_batched idx w m ≡ some m'
    → HasDistinctKeys m'.last_batched
unfolding record_batched
record_batched-HasDistinctKeys idx w m u h =
    ground (arith, set-HasDistinctKeys idx w m.last_batched u)
