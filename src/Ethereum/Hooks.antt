-- ===== src/Ethereum/Hooks.antt =====
-- The hooks, the call and the genesis of the Ethereum pallet, frame/ethereum/src/lib.rs. `none` is a
-- panic of the runtime. The recovery of a signer and the weights of the storage are parameters.
pub mod Digest
pub mod Chain
use frontier.Base.{
  ℕ, Bool, true, false, Option, none, some, List, [], ◌∷◌, ◌-◌, ◌==◌, if◌then◌else◌, min,
  saturating_sub, max_u32, max_u128,
}
use frontier.Evm.Weight.{Result, ok, err, Weight}
use frontier.Evm.Runner.Price.{add_weight}
use frontier.Client.Consensus.{EthereumBlock, FindLogError, Found, PreLog, find_pre_log}
use frontier.Ethereum.Transaction.{Transaction}
use frontier.Ethereum.Validation.{
  InvalidTransaction, ValidTransaction, validate_transaction_in_block, validate_transaction_in_pool,
}
use frontier.Ethereum.Execute.{CallOrCreateInfo, DispatchError, Pallet, context}
use frontier.Ethereum.Block.{
  EthereumStorageSchema, Outside, PostLogContent, Storage, Surroundings, store_block,
}
use frontier.Ethereum.Apply.{Applied, PostDispatchInfo, apply_validated_transaction}

-- An origin, seen by `ensure_ethereum_transaction`.
pub data Origin : Type 0 where
  ethereum_transaction : ℕ → Origin
  other : Origin

-- The error of `transact`.
pub data TransactError : Type 0 where
  bad_origin : TransactError
  dispatch : DispatchError → TransactError

abbrev pub ensure_ethereum_transaction : Origin → Result TransactError ℕ
ensure_ethereum_transaction (Origin.ethereum_transaction n) = ok n
ensure_ethereum_transaction Origin.other = err TransactError.bad_origin

-- The weights of the storage.
pub record Weights : Type 0 where
  pub kill_storage : Weight
  pub reads_writes : ℕ → ℕ → Weight
  pub writes : ℕ → Weight

-- The configuration of the pallet; `pre_transactions` are the transactions of a block in a digest,
-- which the model of the digest only has by their hashes.
pub record Config (W : Type 0) : Type 1 where
  pub outside : Outside
  pub pallet : Pallet W
  pub extra_data_length : ℕ
  pub post_log_content : PostLogContent
  pub block_hash_count : ℕ
  pub weights : Weights
  pub recover_signer : Transaction → Option ℕ
  pub pre_transactions : EthereumBlock → List Transaction
  pub surroundings : W → Surroundings

module _ {W : Type 0} (c : Config W) where
  open c use {outside, pallet}

  abbrev pub State : Type 0
  State = W × Storage outside

  abbrev pub apply : ℕ → Transaction → State → Applied outside c.extra_data_length pallet
  apply source t x = apply_validated_transaction outside c.extra_data_length pallet source t x

  abbrev pub found_pre_log : Storage outside → Found PreLog
  found_pre_log s = find_pre_log outside.decoder s.digest

  abbrev pub content_unless : Found PreLog → Option PostLogContent
  content_unless (ok pre) = none
  content_unless (err e) = some c.post_log_content

  -- `BlockHash::remove`
  abbrev pub remove_hash : ℕ → (ℕ → ℕ) → ℕ → ℕ
  remove_hash number hashes n = if n == number then 0 else hashes n

  -- The window of block hashes moves on; the hash of the genesis block stays.
  unfoldable pub prune : ℕ → Storage outside → Storage outside
  prune n s =
      let to_remove = saturating_sub (saturating_sub n c.block_hash_count) 1 in
      if to_remove == 0
      then s
      else record s { block_hash = remove_hash (min to_remove max_u32) s.block_hash }

  -- `n` is the number of the block, and `block_number` that of frame-system.
  unfoldable pub on_finalize : ℕ → ℕ → State → State
  on_finalize n block_number (w, s) = (
    w,
    prune n (
        store_block outside (content_unless (found_pre_log s)) (c.surroundings w)
          (min block_number max_u128) s),
  )

  -- The weight of an applied transaction, added to `weight`; `none` is a failed `expect`.
  abbrev pub add_actual :
      Weight → Result DispatchError (PostDispatchInfo × CallOrCreateInfo) → Option Weight
  add_actual weight (err e) = none
  add_actual weight (ok (info, value)) =
      some (elim info.actual_weight [ some actual ↦ add_weight weight actual | none ↦ weight ])

  -- One transaction of a block in the digest.
  abbrev pub apply_valid :
      Weight
      → Transaction
      → ℕ
      → State
      → Result InvalidTransaction (Unit {0})
      → Option (Weight × State)
  apply_valid weight t source x (err e) = none
  apply_valid weight t source x (ok valid) =
      let (x', result) = apply source t x in
      elim (add_actual weight result) [ none ↦ none | some weight' ↦ some (weight', x') ]

  unfoldable pub apply_pre : Weight → Transaction → State → Option (Weight × State)
  apply_pre weight t (w, s) = elim (c.recover_signer t) [
    | none ↦ none
    | some source ↦
        apply_valid weight t source (w, s)
          (validate_transaction_in_block (context pallet w) source t)
  ]

  unfoldable pub apply_block : Weight → List Transaction → State → Option (Weight × State)
  apply_block weight [] x = some (weight, x)
  apply_block weight (t ∷ ts) x = elim (apply_pre weight t x) [
    | none ↦ none
    | some (weight', x') ↦ apply_block weight' ts x'
  ]

  abbrev pub initialize : Found PreLog → State → Option (Weight × State)
  initialize (ok (PreLog.block block)) x =
      apply_block c.weights.kill_storage (c.pre_transactions block) x
  initialize (err e) x = some (c.weights.kill_storage, x)

  unfoldable pub on_initialize : State → Option (Weight × State)
  on_initialize (w, s) = elim (initialize (found_pre_log s) (w, s)) [
    | none ↦ none
    | some (weight, x) ↦ some (add_weight weight (c.weights.reads_writes 2 2), x)
  ]

  unfoldable pub on_runtime_upgrade : State → Weight × State
  on_runtime_upgrade (w, s) =
      (c.weights.writes 1, (w, record s { schema = some EthereumStorageSchema.v3 }))

  abbrev pub transacted :
      Applied outside c.extra_data_length pallet → State × Result TransactError PostDispatchInfo
  transacted (x, ok (info, value)) = (x, ok info)
  transacted (x, err e) = (x, err (TransactError.dispatch e))

  abbrev pub transact_unless :
      Found PreLog
      → ℕ
      → Transaction
      → State
      → Option (State × Result TransactError PostDispatchInfo)
  transact_unless (ok pre) source t x = none
  transact_unless (err e) source t x = some (transacted (apply source t x))

  abbrev pub transact_as :
      Result TransactError ℕ
      → Transaction
      → State
      → Option (State × Result TransactError PostDispatchInfo)
  transact_as (err e) t x = some (x, err e)
  transact_as (ok source) t (w, s) = transact_unless (found_pre_log s) source t (w, s)

  unfoldable pub transact :
      Origin → Transaction → State → Option (State × Result TransactError PostDispatchInfo)
  transact origin t x = transact_as (ensure_ethereum_transaction origin) t x

  unfoldable pub genesis_build : State → State
  genesis_build (w, s) = (
    w,
    record (store_block outside none (c.surroundings w) 0 s) {
      schema = some EthereumStorageSchema.v3;
    },
  )

  -- `EthereumBlockHashMapping::block_hash`
  abbrev pub block_hash : Storage outside → ℕ → ℕ
  block_hash s number = s.block_hash number
