-- ===== src/Protocol/Grail.antt =====
-- protocol/grail_verifier.py: the sketch of a hidden state and its check, and validator/verifier.py
-- `verify_commitment_proofs` over the challenged positions.
-- torch computes the hidden states and selects the largest activations of a row: a `Forward` is
-- the result of that for one commit. Python's floats are the parameter `fl`. `none` is an
-- exception (a bad seed, an index out of range).
mod Defs
pub mod Sketch
pub mod Proofs
unfoldable pub use Defs.*
