-- ===== src/Validator/Batcher/Claims.antt =====
-- What the batcher's state says of the submissions it took, kept by every call.
use subnet.Base.{
  ℕ, zero, suc, ◌+◌, ◌*◌, pos, Bool, true, false, not, some, List, [], ◌∷◌, ◌++◌, nat_eq, leb, elem,
  length, all, keep, to_set, All, In, Distinct, ◌≡◌, ◌↔◌, inl, inr, refl, sym, ap, subst, ◌∙◌,
  arith, Bool-cases, and_true, In-append, In-append_left, In-append_right, In-of_elem,
  not_In_of_elem, length-append, length-map, string_eq,
}
use subnet.Base.Text.{codes, is_hex, is_hex_text, text_length}
use subnet.Protocol.Bytes.{Bytes, from_hex, is_space, hex_value}
use subnet.Protocol.Reason.{RejectReason}
use subnet.Protocol.Request.{BatchSubmissionRequest, BatchSubmissionResponse}
use subnet.Validator.Accepted.{ValidSubmission}
use subnet.Validator.Cooldown.{CooldownMap, is_in_cooldown}
use subnet.Validator.Selection.Fifo.{prompts, Eligible}
use subnet.Validator.Batcher.Checks.{World}
use subnet.Validator.Batcher.State.{
  Batcher, init, count_reject, eligible_prompts, update_seal, claim, append_valid,
}

-- The schema's pattern for `merkle_root`.
abbrev pub HasMerkleRoot : {F : Type 0} → BatchSubmissionRequest F → Type 0
HasMerkleRoot r = (text_length r.merkle_root ≡ 64) × (is_hex_text r.merkle_root ≡ true)

from_hex_pair :
    (c d : ℕ) (cs : List ℕ) {bs : Bytes}
    → is_hex c ≡ true
    → is_hex d ≡ true
    → from_hex cs ≡ some bs
    → from_hex (c ∷ d ∷ cs) ≡ some ((16 * hex_value c + hex_value d) ∷ bs)
unfolding from_hex
from_hex_pair c d cs hc hd h =
    let space : is_space c ≡ false = ground arith in rw (from_hex, space, hc, hd, h) refl

from_hex_total :
    (n : ℕ) (cs : List ℕ)
    → length cs ≡ 2 * n
    → all is_hex cs ≡ true
    → (bs : Bytes) × (from_hex cs ≡ some bs)
unfolding from_hex
from_hex_total n [] e h = ([], refl)
from_hex_total n (c ∷ []) e h = absurd (omega (arith, e))
from_hex_total zero (c ∷ d ∷ cs) e h = absurd (omega (arith, e))
from_hex_total (suc n) (c ∷ d ∷ cs) e h =
    let (hc, h') = and_true (is_hex c) (all is_hex (d ∷ cs)) h in
    let (hd, hs) = and_true (is_hex d) (all is_hex cs) h' in
    let (bs, e') = from_hex_total n cs (omega (arith, e)) hs in
    ((16 * hex_value c + hex_value d) ∷ bs, from_hex_pair c d cs hc hd e')

pub has_root :
    {F : Type 0} (r : BatchSubmissionRequest F)
    → HasMerkleRoot r
    → (root : Bytes) × (from_hex (codes r.merkle_root) ≡ some root)
has_root r (long, hex) = from_hex_total 32 (codes r.merkle_root) (omega (arith, long)) hex

abbrev pub accepted_response : BatchSubmissionResponse
accepted_response = record { accepted = true; reason = RejectReason.accepted }

-- If all are kept and none stands twice, the comprehension is the list.
keep-All : (p : ℕ → Bool) (xs : List ℕ) → All (λ x. p x ≡ true) xs → keep p xs ≡ xs
keep-All p [] h = refl
keep-All p (x ∷ xs) (h, hs) = rw h (ap (λ ys. x ∷ ys) (keep-All p xs hs))

to_set_all : (xs : List ℕ) → Distinct xs → to_set xs ≡ xs
to_set_all [] d = refl
to_set_all (x ∷ xs) (new, d) = elim (Bool-cases (elem x xs)) [
  | inl old ↦ absurd (new (In-of_elem x xs old))
  | inr other ↦ rw other (ap (λ ys. x ∷ ys) (to_set_all xs d))
]

Distinct-snoc : (xs : List ℕ) (x : ℕ) → Distinct xs → (¬ In x xs) → Distinct (xs ++ x ∷ [])
Distinct-snoc [] x d n = ((λ m. absurd m), tt)
Distinct-snoc (y ∷ xs) x (new, d) n = (
  (λ m. elim (In-append y xs (x ∷ []) m) [
    | inl old ↦ new old
    | inr (inl same) ↦ n (inl (sym same))
    | inr (inr nowhere) ↦ absurd nowhere
  ]),
  Distinct-snoc xs x d (λ m. n (inr m)),
)

All-snoc :
    {A : Type 0} (P : A → Type 0) (xs : List A) (x : A) → All P xs → P x → All P (xs ++ x ∷ [])
All-snoc P [] x h p = (p, tt)
All-snoc P (y ∷ xs) x (h, hs) p = (h, All-snoc P xs x hs p)

module _ {F : Type 0} (w : World F) where
  prompts-snoc :
      (subs : List (ValidSubmission F)) (s : ValidSubmission F)
      → prompts (subs ++ s ∷ []) ≡ prompts subs ++ s.prompt_idx ∷ []
  prompts-snoc [] s = refl
  prompts-snoc (x ∷ subs) s = ap (λ ps. x.prompt_idx ∷ ps) (prompts-snoc subs s)

  open_prompts :
      (cooldown : CooldownMap) (window : ℕ) (subs : List (ValidSubmission F))
      → All (Eligible cooldown window) subs
      → All (λ p. not (is_in_cooldown (pos p) (pos window) cooldown) ≡ true) (prompts subs)
  open_prompts cooldown window [] h = tt
  open_prompts cooldown window (s ∷ subs) (h, hs) =
      (ground arith, open_prompts cooldown window subs hs)

  length-eligible_prompts :
      (cooldown : CooldownMap) (window : ℕ) (subs : List (ValidSubmission F))
      → All (Eligible cooldown window) subs
      → Distinct (prompts subs)
      → length (eligible_prompts cooldown window subs) ≡ length subs
  unfolding eligible_prompts
  length-eligible_prompts cooldown window subs h d =
      ap (λ ps. length (to_set ps))
        (keep-All _ (prompts subs) (open_prompts cooldown window subs h))
      ∙ ap length (to_set_all (prompts subs) d)
      ∙ length-map subs (λ s. s.prompt_idx)

  -- Taken prompts are distinct and were open, the claims are these prompts, and the seal flag
  -- says whether the batch is full.
  pub record IsConsistent (cooldown : CooldownMap) (b : Batcher F) : Type 0 where
    pub distinct : Distinct (prompts b.valid)
    pub eligible : All (Eligible cooldown b.window_start) b.valid
    pub claims : (p : ℕ) → In p (prompts b.valid) ↔ In p b.claimed_prompts
    pub sealed : b.seal_flag ≡ leb 8 (length b.valid)

  pub init-IsConsistent :
      (cooldown : CooldownMap) (window : ℕ) (bootstrap : Bool)
      → IsConsistent cooldown (init window bootstrap)
  unfolding init
  init-IsConsistent cooldown window bootstrap = record {
    distinct = tt;
    eligible = tt;
    claims = λ p. (λ m. m, λ m. m);
    sealed = refl;
  }

  pub count_reject-IsConsistent :
      (cooldown : CooldownMap) (b : Batcher F) (reason : RejectReason)
      → IsConsistent cooldown b
      → IsConsistent cooldown (count_reject reason b)
  unfolding count_reject
  count_reject-IsConsistent cooldown b reason c = record {
    distinct = c.distinct;
    eligible = c.eligible;
    claims = c.claims;
    sealed = c.sealed;
  }

  -- The step at the end of `_accept_locked`.
  abbrev pub take_in : CooldownMap → ValidSubmission F → Batcher F → Batcher F
  take_in cooldown s b = update_seal cooldown (append_valid s (claim s.prompt_idx b))

  pub take_in-IsConsistent :
      (cooldown : CooldownMap) (b : Batcher F) (s : ValidSubmission F)
      → Eligible cooldown b.window_start s
      → elem s.prompt_idx b.claimed_prompts ≡ false
      → IsConsistent cooldown b
      → IsConsistent cooldown (take_in cooldown s b)
  unfolding update_seal append_valid claim
  take_in-IsConsistent cooldown b s open_prompt new c =
      let fresh : ¬ In s.prompt_idx (prompts b.valid) =
        λ m. not_In_of_elem s.prompt_idx b.claimed_prompts new ((c.claims s.prompt_idx).0 m) in
      let distinct : Distinct (prompts (b.valid ++ s ∷ [])) =
        subst Distinct (sym (prompts-snoc b.valid s))
          (Distinct-snoc (prompts b.valid) s.prompt_idx c.distinct fresh) in
      let eligible : All (Eligible cooldown b.window_start) (b.valid ++ s ∷ []) =
        All-snoc _ b.valid s c.eligible open_prompt in
      record {
        distinct = distinct;
        eligible = eligible;
        claims = λ p. (
          (λ m.
              elim (In-append p (prompts b.valid) (s.prompt_idx ∷ [])
                (subst (In p) (prompts-snoc b.valid s) m)) [
                  | inl old ↦ inr ((c.claims p).0 old)
                  | inr (inl same) ↦ inl same
                  | inr (inr nowhere) ↦ absurd nowhere
                ]),
          (λ m. subst (In p) (sym (prompts-snoc b.valid s)) (elim m [
            | inl same ↦ In-append_right p (prompts b.valid) (s.prompt_idx ∷ []) (inl same)
            | inr old ↦ In-append_left p (prompts b.valid) (s.prompt_idx ∷ []) ((c.claims p).1 old)
          ])),
        );
        sealed = ground (
          arith,
          c.sealed,
          length-append b.valid (s ∷ []),
          length-eligible_prompts cooldown b.window_start (b.valid ++ s ∷ []) eligible distinct,
        );
      }
