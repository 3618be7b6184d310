-- ===== src/Evm.antt =====
-- The EVM pallet's metering, validation and state (primitives/evm, frame/evm).
pub mod Weight
pub mod Gas
pub mod Meter
pub mod Validation
pub mod Runner
pub mod Substate
pub mod Accounts
pub mod Recording
pub mod Fees
