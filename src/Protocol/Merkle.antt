-- ===== src/Protocol/Merkle.antt =====
-- protocol/merkle.py: the canonical Merkle root of a rollout group. `sha256` and the canonical
-- JSON of a rollout at its index (`_canonical_json`) are parameters. The while loop runs on fuel.
pub mod Root
use subnet.Base.{
  ℕ, zero, suc, ◌+◌, ◌*◌, ◌/◌, ◌%◌, Bool, true, false, ◌&&◌, Option, none, some, List, [], ◌∷◌,
  ◌++◌, if◌then◌else◌, ◌==◌, nat_eq, string_eq, String, length, leb, map, Eq,
}
use subnet.Base.Maybe.{◌>>=◌}
use subnet.Base.Text.{codes}
use subnet.Protocol.Bytes.{Bytes}
use subnet.Protocol.Request.{RolloutSubmission, BatchSubmissionRequest}

abbrev pub leaf_domain : Bytes
leaf_domain = codes "reliquary-rollout-leaf-v2" ++ (0 ∷ [])

abbrev pub node_domain : Bytes
node_domain = codes "reliquary-rollout-node-v2" ++ (0 ∷ [])

abbrev pub selection_domain : Bytes
selection_domain = codes "reliquary-selection-stream-v1" ++ (0 ∷ [])

abbrev pub hex_digit : ℕ → ℕ
hex_digit n = if leb n 9 then 48 + n else 87 + n

-- `digest.hex()`
unfoldable pub hex_text : Bytes → List ℕ
hex_text [] = []
hex_text (b ∷ bs) = hex_digit (b / 16) ∷ hex_digit (b % 16) ∷ hex_text bs

-- `str.lower()` on a text of hex digits
abbrev pub lower : List ℕ → List ℕ
lower [] = []
lower (c ∷ cs) = (if leb b'A' c && leb c b'Z' then c + 32 else c) ∷ lower cs

abbrev pub same_text : List ℕ → List ℕ → Bool
same_text [] [] = true
same_text (x ∷ xs) (y ∷ ys) = (x == y) && same_text xs ys
same_text _ _ = false

-- The payloads under the leaves, each with its index.
unfoldable pub payloads :
    {F : Type 0} → (ℕ → RolloutSubmission F → Bytes) → ℕ → List (RolloutSubmission F) → List Bytes
payloads canonical_json index [] = []
payloads canonical_json index (r ∷ rs) =
    canonical_json index r ∷ payloads canonical_json (index + 1) rs

module _ (sha256 : Bytes → Bytes) where
  abbrev pub node : Bytes → Bytes → Bytes
  node left right = sha256 (node_domain ++ (left ++ right))

  -- One round of the loop: an odd leaf is paired with itself.
  unfoldable pub parents : List Bytes → List Bytes
  parents [] = []
  parents (left ∷ []) = node left left ∷ []
  parents (left ∷ right ∷ leaves) = node left right ∷ parents leaves

  -- The loop, with fuel for its rounds. `none` is the ValueError on no leaves, or no fuel left.
  unfoldable pub root_from : ℕ → List Bytes → Option Bytes
  root_from fuel [] = none
  root_from fuel (leaf ∷ []) = some leaf
  root_from zero (l ∷ r ∷ leaves) = none
  root_from (suc fuel) (l ∷ r ∷ leaves) = root_from fuel (parents (l ∷ r ∷ leaves))

  abbrev pub leaf : Bytes → Bytes
  leaf payload = sha256 (leaf_domain ++ payload)

  module _ {F : Type 0} (canonical_json : ℕ → RolloutSubmission F → Bytes) where
    unfoldable pub compute_rollouts_merkle_root : List (RolloutSubmission F) → Option Bytes
    compute_rollouts_merkle_root rollouts =
        root_from (length rollouts) (map leaf (payloads canonical_json 0 rollouts))

    -- `submission_merkle_matches`
    unfoldable pub submission_merkle_matches : BatchSubmissionRequest F → Bool
    submission_merkle_matches request = elim (compute_rollouts_merkle_root request.rollouts) [
      | none ↦ false
      | some expected ↦ same_text (lower (codes request.merkle_root)) (hex_text expected)
    ]

  -- The digest for the choice of a representative: `selection_json` is the canonical JSON of the
  -- groups' environments, indices and tokens.
  unfoldable pub compute_rollouts_selection_digest :
      {F : Type 0}
      → (List (RolloutSubmission F) → Bytes)
      → List (RolloutSubmission F)
      → Option Bytes
  compute_rollouts_selection_digest selection_json [] = none
  compute_rollouts_selection_digest selection_json (r ∷ rs) =
      some (sha256 (selection_domain ++ selection_json (r ∷ rs)))
