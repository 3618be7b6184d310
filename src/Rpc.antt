-- ===== src/Rpc.antt =====
-- The RPC client's cache (client/rpc/src/cache).
pub mod Lru
pub mod Request
pub mod Estimate
