-- ===== src/Validator/Batcher.antt =====
-- validator/batcher.py: `GrpoWindowBatcher`, which takes the submissions of one window.
pub mod Outcome
pub mod Checks
pub mod State
pub mod Admission
pub mod Claims
pub mod Acceptance
pub mod Runs
pub mod Sealing
