-- ===== src/Precompiles.antt =====
-- The utilities for precompiles (precompiles/src): the set of precompiles with its checks.
pub mod Checks
pub mod Set
