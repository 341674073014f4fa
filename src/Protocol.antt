-- ===== src/Protocol.antt =====
-- The wire protocol (reliquary/protocol, reliquary/shared).
pub mod Constants
pub mod Reason
pub mod Commit
pub mod Request
pub mod Bytes
pub mod Crypto
pub mod Signatures
pub mod Merkle
pub mod PromptRange
pub mod Grail
pub mod Tokens
mod Tests
mod MessageTests
pub mod Samples
