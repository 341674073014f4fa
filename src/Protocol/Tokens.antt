-- ===== src/Protocol/Tokens.antt =====
-- protocol/tokens.py: the checks of `verify_tokens`. A `ModelConfig` holds what
-- shared/hf_compat.py reads off the model's configuration: the vocabulary size, if it has one,
-- and the context length.
use subnet.Base.{
  ℕ, ℤ, pos, ◌≤ℤ◌, ◌<ℤ◌, ltb_ℤ, leb_ℤ, ◌≤◌, ◌<◌, Bool, true, false, ◌&&◌, ◌||◌, not, Option, none,
  some, List, [], ◌∷◌, ltb, length, all, All, ◌≡◌, ◌↔◌, arith,
}

pub record ModelConfig : Type 0 where
  pub vocab_size : Option ℕ
  pub max_context_length : ℕ

-- `t < 0 or t >= vocab_size`, negated
abbrev pub is_valid_token : ℕ → ℤ → Bool
is_valid_token vocab_size t = not (ltb_ℤ t (pos 0) || leb_ℤ (pos vocab_size) t)

-- `_validate_token_ids`
unfoldable pub validate_token_ids : List ℤ → ℕ → Bool
validate_token_ids tokens vocab_size = all (is_valid_token vocab_size) tokens

-- `_validate_sequence_length`
unfoldable pub validate_sequence_length : List ℤ → ModelConfig → Bool
validate_sequence_length tokens c = not (ltb c.max_context_length (length tokens))

unfoldable pub verify_tokens : List ℤ → ModelConfig → Bool
unfolding validate_sequence_length
verify_tokens [] c = false
verify_tokens (t ∷ tokens) c = elim c.vocab_size [
  | none ↦ validate_sequence_length (t ∷ tokens) c
  | some n ↦ validate_token_ids (t ∷ tokens) n && validate_sequence_length (t ∷ tokens) c
]

validate_token_ids_iff :
    (tokens : List ℤ) (n : ℕ)
    → (validate_token_ids tokens n ≡ true) ↔ All (λ t. (pos 0 ≤ℤ t) × (t <ℤ pos n)) tokens
unfolding validate_token_ids
validate_token_ids_iff [] n = ground arith
validate_token_ids_iff (t ∷ tokens) n = ground (arith, validate_token_ids_iff tokens n)

-- Under a vocabulary of `n` tokens the check accepts exactly the lists that are not empty, no
-- longer than the context, and made of ids in [0, n).
verify_tokens_iff :
    (tokens : List ℤ) (n limit : ℕ)
    → (verify_tokens tokens (record { vocab_size = some n; max_context_length = limit }) ≡ true) ↔ (
        (0 < length tokens)
        × (length tokens ≤ limit)
        × All (λ t. (pos 0 ≤ℤ t) × (t <ℤ pos n)) tokens)
unfolding verify_tokens
verify_tokens_iff [] n limit = ground arith
verify_tokens_iff (t ∷ tokens) n limit = ground (arith, validate_token_ids_iff (t ∷ tokens) n)
