-- ===== src/Ethereum.antt =====
-- The Ethereum pallet (frame/ethereum, primitives/ethereum): transactions, their validation, and
-- the block that they build.
pub mod Transaction
pub mod Validation
pub mod Execute
pub mod Block
pub mod Apply
pub mod Hooks
pub mod Extrinsic
pub mod Instances
mod Tests
mod Runs
