-- ===== src/Lib.antt =====
-- Frontier, the Ethereum compatibility layer of Substrate: the runtime's Ethereum pallet, the EVM
-- pallet with its meters and fees, and the client that maps Ethereum hashes to Substrate blocks.
--
-- An Ethereum transaction (Ethereum/Transaction) is checked by `CheckEvmTransaction`
-- (Evm/Validation), called by the Ethereum pallet for the pool and for a block
-- (Ethereum/Validation) and by the runner's own `validate`. The pallet hands it to the runner
-- (Ethereum/Execute, Evm/Runner/Entry), whose `execute_inner` withdraws the fee at the price of a
-- fee pallet (Fees), runs the executor and corrects the fee by an adapter (Evm/Fees). A receipt of
-- it becomes pending (Ethereum/Apply), and at the end of the block the pending transactions become
-- an Ethereum block (Ethereum/Block, Ethereum/Hooks); it comes in an extrinsic that carries its own
-- signature (Ethereum/Extrinsic). The execution runs in nested frames
-- (Evm/Substate) on accounts and storage (Evm/Accounts), and each access is recorded
-- (Evm/Recording) in a weight meter (Evm/Weight) and a storage meter (Evm/Meter); Evm/Gas turns
-- gas into weight and back. A block's digest carries its Ethereum block or hashes
-- (Client/Consensus), from which a worker (Client/Sync) fills the mapping database
-- (Client/Mapping). The RPC server caches what it reads (Rpc/Lru)
-- and estimates the gas of a request (Rpc/Estimate).
-- A call repairs accounts that an old version left without references (Sufficients).
-- Calls of precompiles go through a set of them with checks and a limit on recursion (Precompiles).
--
-- The files, and the code they follow:
--   - Evm/Weight: `WeightInfo`, primitives/evm/src/lib.rs.
--   - Evm/Gas: `FixedGasWeightMapping`, frame/evm/src/lib.rs.
--   - Evm/Meter: `StorageMeter`, frame/evm/src/runner/meter.rs.
--   - Evm/Validation: primitives/evm/src/validation.rs.
--   - Evm/Runner, Evm/Substate, Evm/Recording: frame/evm/src/runner/stack.rs, with
--     primitives/evm/src/storage_oog.rs.
--   - Evm/Runner/Entry: the trait `Runner`, frame/evm/src/runner/mod.rs, and its entry points.
--   - Evm/Fees: `EVMFungibleAdapter`, and in Evm/Fees/Currency `EVMCurrencyAdapter`, of
--     frame/evm/src/lib.rs.
--   - Ethereum/Transaction: primitives/ethereum/src/lib.rs.
--   - Ethereum/Validation, Ethereum/Execute, Ethereum/Apply, Ethereum/Block, Ethereum/Hooks:
--     frame/ethereum/src/lib.rs.
--   - Ethereum/Extrinsic: the functions of `Call` in frame/ethereum/src/lib.rs,
--     primitives/self-contained/src, and `SelfContainedCall` of template/runtime/src/lib.rs.
--   - Evm/Accounts: code and metadata of accounts in frame/evm/src/lib.rs, and the storage caches
--     of frame/evm/src/runner/stack.rs.
--   - Fees/BaseFee, Fees/DynamicFee: frame/base-fee/src/lib.rs, frame/dynamic-fee/src/lib.rs.
--   - Sufficients: frame/hotfix-sufficients/src/lib.rs.
--   - Precompiles/Checks, Precompiles/Set: precompiles/src/precompile_set.rs.
--   - Client/Consensus: primitives/consensus/src/lib.rs.
--   - Client/Mapping: client/db/src/kv/mod.rs.
--   - Client/Sync: client/mapping-sync/src/kv/mod.rs.
--   - Rpc/Lru: client/rpc/src/cache/lru_cache.rs.
--   - Rpc/Request, Rpc/Estimate: `estimate_gas` with the fees and errors of a request,
--     client/rpc/src/eth/execute.rs.
--   - Base: words, lists and tests that all of them share.
-- An operation has the name of its function. Operations that change a `&mut self` take the state
-- last and return the new one, with the `Result` beside it, so that what an error leaves behind can
-- be seen. Hashes, addresses and keys are numbers. The files Tests and Runs run the definitions, on
-- instances of the parameters such as those of Ethereum/Instances.
--
-- Words: u64 and U256 values are natural numbers; a checked or saturating operation takes the
-- largest value of its type, and in an estimation of gas an operation that leaves U256 is a panic.
-- Fuel: the eviction loop of the cache runs on one more than the number of its entries, since each
-- round removes one, and the binary search of an estimation on at least the highest gas limit,
-- since each round narrows its bracket; all other loops are structural. Calls among contracts and
-- precompiles are limited by a depth, as in the executor; the u16 levels of recursion are unbounded
-- numbers, which the executor's depth of calls keeps far below 65536.
--
-- Parameters, for code of other crates: the gasometer and the metadata of the evm crate, the run of
-- the executor and of the precompiles, the currency with its imbalances, the storage transactions
-- of sp_io, `CountedStorageMap` of frame-support, hashes, blooms and the root of receipts, the
-- recovery of a signer, `Permill` of sp-arithmetic, the accounts of frame-system, the database of
-- sp-database, the block chain and the runtime API, also where it runs a request for the server,
-- and `LruMap` of schnellru. Each is a record of operations with the laws that are relied on, and
-- each has a concrete instance among the tests.
--
-- Not modelled: the reentrancy guard of the runner and the migration of old blocks, which only some
-- builds have, the precompiles themselves, the SQL database and the rest of the RPC server (each is
-- a component of its own around this core), and log output and metrics everywhere.
pub mod Base
pub mod Evm
pub mod Ethereum
pub mod Precompiles
pub mod Fees
pub mod Client
pub mod Rpc
pub mod Sufficients
