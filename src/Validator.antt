-- ===== src/Validator.antt =====
-- The validator of the subnet (reliquary/validator).
pub mod Archive
pub mod Accepted
pub mod Selection
pub mod Cooldown
pub mod Ema
pub mod Verifier
pub mod Batcher
pub mod Server
pub mod Service
pub mod Resume
mod Tests
pub mod Samples
