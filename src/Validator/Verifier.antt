-- ===== src/Validator/Verifier.antt =====
-- validator/verifier.py: the checks on one rollout, and the zone test on a group.
-- Floats are the parameter `fl`, numpy's statistics the parameter `Numpy`. `none` in a result
-- stands for an exception unless said otherwise.
mod Defs
pub mod Layouts
unfoldable pub use Defs.*
