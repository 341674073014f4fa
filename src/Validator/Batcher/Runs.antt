-- ===== src/Validator/Batcher/Runs.antt =====
-- Any number of calls to `accept_submission` within a window, in the order in which they take the
-- lock. Each carries the time at which it ends.
use subnet.Base.{
  ℕ, Bool, List, [], ◌∷◌, nat_eq, All, In, Distinct, ◌≡◌, inl, inr, refl, sym, subst, String,
  In-append_left, In-map,
}
use subnet.Protocol.Request.{BatchSubmissionRequest}
use subnet.Validator.Accepted.{ValidSubmission}
use subnet.Validator.Cooldown.{CooldownMap}
use subnet.Validator.Selection.Fifo.{prompts}
use subnet.Validator.Batcher.Checks.{World}
use subnet.Validator.Batcher.State.{Batcher, init, accept_submission}
use subnet.Validator.Batcher.Claims.{HasMerkleRoot, IsConsistent}
use subnet.Validator.Batcher.Acceptance.{accept_submission-IsConsistent, accept_submission_grows}

-- Distinct keys tell members apart.
Distinct-prompts :
    {F : Type 0} (xs : List (ValidSubmission F)) (s t : ValidSubmission F)
    → Distinct (prompts xs)
    → In s xs
    → In t xs
    → t.prompt_idx ≡ s.prompt_idx
    → t ≡ s
Distinct-prompts [] s t d m m' e = absurd m
Distinct-prompts (x ∷ xs) s t (new, d) (inl p) (inl q) e = cc
Distinct-prompts (x ∷ xs) s t (new, d) (inl p) (inr m') e =
    absurd (new (subst (λ i. In i (prompts xs)) (cc) (In-map (λ u. u.prompt_idx) t xs m')))
Distinct-prompts (x ∷ xs) s t (new, d) (inr m) (inl q) e =
    absurd (new (subst (λ i. In i (prompts xs)) (cc) (In-map (λ u. u.prompt_idx) s xs m)))
Distinct-prompts (x ∷ xs) s t (new, d) (inr m) (inr m') e = Distinct-prompts xs s t d m m' e

module _ {F : Type 0} (w : World F) (cooldown : CooldownMap) where
  unfoldable pub accept_all : List (F × BatchSubmissionRequest F) → Batcher F → Batcher F
  accept_all [] b = b
  accept_all ((now, r) ∷ calls) b = accept_all calls (accept_submission w cooldown now r b).1

  abbrev pub IsParsed : F × BatchSubmissionRequest F → Type 0
  IsParsed call = HasMerkleRoot call.1

  pub accept_all-IsConsistent :
      (calls : List (F × BatchSubmissionRequest F)) (b : Batcher F)
      → All IsParsed calls
      → IsConsistent w cooldown b
      → IsConsistent w cooldown (accept_all calls b)
  unfolding accept_all
  accept_all-IsConsistent [] b h c = c
  accept_all-IsConsistent ((now, r) ∷ calls) b (h, hs) c =
      accept_all-IsConsistent calls _ hs (accept_submission-IsConsistent w cooldown now r b h c)

  -- From a new batcher with any randomness and checkpoint hash, after any sequence of calls whose
  -- merkle roots have 64 hex digits: the prompts of the accepted submissions are distinct and out
  -- of cooldown, they are exactly the claimed prompts, and the seal flag is set exactly if there
  -- are eight accepted submissions or more.
  pub window-IsConsistent :
      (calls : List (F × BatchSubmissionRequest F)) (window : ℕ) (bootstrap : Bool)
      → (randomness checkpoint_hash : String) → All IsParsed calls
      → IsConsistent w cooldown (
          accept_all calls (record (init window bootstrap) {
            randomness = randomness;
            current_checkpoint_hash = checkpoint_hash;
          }))
  unfolding init
  window-IsConsistent calls window bootstrap randomness checkpoint_hash h =
      accept_all-IsConsistent calls _ h
        (record { distinct = tt; eligible = tt; claims = λ p. (λ m. m, λ m. m); sealed = refl })

  In-accept_all :
      (calls : List (F × BatchSubmissionRequest F)) (b : Batcher F) (s : ValidSubmission F)
      → In s b.valid
      → In s (accept_all calls b).valid
  unfolding accept_all
  In-accept_all [] b s m = m
  In-accept_all ((now, r) ∷ calls) b s m =
      let (more, e) = accept_submission_grows w cooldown now r b in
      In-accept_all calls _ s (subst (In s) (sym e) (In-append_left s b.valid more m))

  -- In a consistent state, a submission that was taken stays the only one for its prompt, whatever
  -- calls follow: every later submission for this prompt in the list is this very one.
  pub first_claim_wins :
      (calls : List (F × BatchSubmissionRequest F)) (b : Batcher F) (s t : ValidSubmission F)
      → All IsParsed calls
      → IsConsistent w cooldown b
      → In s b.valid
      → In t (accept_all calls b).valid
      → t.prompt_idx ≡ s.prompt_idx
      → t ≡ s
  first_claim_wins calls b s t h c m m' e =
      Distinct-prompts (accept_all calls b).valid s t (accept_all-IsConsistent calls b h c).distinct
        (In-accept_all calls b s m) m' e
