-- ===== src/Miner.antt =====
-- miner: the parts of the miner that decide without the GPU.
pub mod Submitter
pub mod Mix
pub mod Termination
pub mod Bft
pub mod Engine
pub mod Prompts
pub mod Compose
