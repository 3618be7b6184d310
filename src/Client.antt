-- ===== src/Client.antt =====
-- The client's mapping from Ethereum hashes to Substrate blocks, and the worker that fills it.
pub mod Consensus
pub mod Mapping
pub mod Sync
