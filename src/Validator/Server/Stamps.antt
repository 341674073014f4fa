-- ===== src/Validator/Server/Stamps.antt =====
-- validator/server.py: what the endpoints and the worker leave as it is.
use subnet.Base.{
  Option-cases, ℕ, zero, suc, String, Bool, Option, some, List, [], ◌∷◌, ◌++◌, length, map,
  get_elem?, set_at, ◌≡◌, inl, inr, refl, ap, arith,
}
use subnet.Protocol.Reason.{WindowState}
use subnet.Protocol.Request.{BatchSubmissionRequest}
use subnet.Validator.Cooldown.{CooldownMap}
use subnet.Validator.Batcher.Checks.{World}
use subnet.Validator.Batcher.State.{
  Batcher, accept_submission, count_reject, claim, append_valid, update_seal,
}
use subnet.Validator.Server.{Server, ManifestEntry, accept_at, submit, work}

-- What no call changes in a batcher: its window and its checkpoint.
abbrev pub stamp : {F : Type 0} → Batcher F → ℕ × String
stamp b = (b.window_start, b.current_checkpoint_hash)

abbrev pub stamps : {F : Type 0} → List (Batcher F) → List (ℕ × String)
stamps batchers = map stamp batchers

pub stamps-append_last :
    {F : Type 0} (batchers : List (Batcher F)) (b : Batcher F)
    → get_elem? (stamps (batchers ++ b ∷ [])) (length batchers) ≡ some (stamp b)
stamps-append_last [] b = refl
stamps-append_last (x ∷ xs) b = stamps-append_last xs b

pub get_elem?-map :
    {A B : Type 0} (f : A → B) (xs : List A) (i : ℕ) (b : B)
    → get_elem? (map f xs) i ≡ some b
    → (a : A) × (get_elem? xs i ≡ some a) × (f a ≡ b)
get_elem?-map f [] i b h = absurd (cc)
get_elem?-map f (x ∷ xs) zero b h = (x, refl, (cc))
get_elem?-map f (x ∷ xs) (suc i) b h = get_elem?-map f xs i b h

pub map-set_at :
    {A B : Type 0} (f : A → B) (xs : List A) (i : ℕ) (a old : A)
    → get_elem? xs i ≡ some old
    → f a ≡ f old
    → map f (set_at i a xs) ≡ map f xs
map-set_at f [] i a old h e = refl
map-set_at f (x ∷ xs) zero a old h e = ground arith
map-set_at f (x ∷ xs) (suc i) a old h e = ap (λ ys. f x ∷ ys) (map-set_at f xs i a old h e)

module _ {F : Type 0} (w : World F) (cooldown : CooldownMap) (now : F)
    (r : BatchSubmissionRequest F) where
  accept_submission-stamp :
      (b : Batcher F) → stamp (accept_submission w cooldown now r b).1 ≡ stamp b
  unfolding accept_submission count_reject claim append_valid update_seal
  accept_submission-stamp b = ground arith

  accept_at-stamps :
      (i : ℕ) (batchers : List (Batcher F))
      → stamps (accept_at w cooldown now r i batchers).1 ≡ stamps batchers
  unfolding accept_at
  accept_at-stamps i batchers = elim (Option-cases (get_elem? batchers i)) [
    | inl e ↦ rw (accept_at, e) refl
    | inr (b, e) ↦
        rw (accept_at, e)
          (map-set_at stamp batchers i (accept_submission w cooldown now r b).1 b e
            (accept_submission-stamp b))
  ]

-- The server apart from its queue.
abbrev pub face : {F : Type 0} → Server F → Option ℕ × WindowState × Option ManifestEntry × Bool
face server =
    (server.active_batcher, server.current_state, server.current_checkpoint, server.has_worker)

module _ {F : Type 0} (w : World F) (cooldown : CooldownMap) (now : F) where
  pub submit-face :
      (r : BatchSubmissionRequest F) (server : Server F) (batchers : List (Batcher F))
      → (face (submit w cooldown now r server batchers).1 ≡ face server)
        × (stamps (submit w cooldown now r server batchers).2 ≡ stamps batchers)
  unfolding submit
  submit-face r server batchers = grind (arith, accept_at-stamps)

  pub work-face :
      (server : Server F) (batchers : List (Batcher F))
      → (face (work w cooldown now server batchers).0 ≡ face server)
        × (stamps (work w cooldown now server batchers).1 ≡ stamps batchers)
  unfolding work
  work-face server batchers = grind (arith, accept_at-stamps)
