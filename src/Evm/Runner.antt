-- ===== src/Evm/Runner.antt =====
-- The runner of frame/evm/src/runner/stack.rs: validation and execution of a transaction.
pub mod Price
pub mod Admission
pub mod Charge
pub mod Execute
pub mod Settlement
pub mod Entry
pub mod Return
mod Runs
mod Tests
