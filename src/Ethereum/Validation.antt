-- ===== src/Ethereum/Validation.antt =====
-- The validation of an Ethereum transaction in the pool and in a block, frame/ethereum/src/lib.rs.
pub mod Laws
use frontier.Base.{
  ℕ, Bool, true, false, Option, none, some, List, [], ◌∷◌, ◌-◌, min, ltb, leb, ◌==◌, if◌then◌else◌,
  length, saturating_sub, checked_sub, max_u64,
}
use frontier.Evm.Weight.{Result, ok, err, Weight}
use frontier.Evm.Gas.{GasConfig, gas_to_weight}
use frontier.Evm.Validation.{
  Account, CheckEvmTransaction, Gasometer, Checked, TransactionValidationError, ◌>>◌, fail_if,
  validate_in_pool_for, validate_in_block_for, with_chain_id, with_base_fee, with_balance_for,
  with_eip7702_authorization_list,
}
use frontier.Evm.Runner.Price.{Chain, map_err}
use frontier.Ethereum.Transaction.{
  Transaction, TransactionData, from_transaction, to_check_input, proof_size_base_cost, is_eip7702,
}

-- `InvalidTransaction` of sp-runtime, as far as it is used.
pub data InvalidTransaction : Type 0 where
  payment future stale bad_signer bad_proof : InvalidTransaction
  custom : ℕ → InvalidTransaction

-- `From<TransactionValidationError> for InvalidTransactionWrapper`; a custom error carries the
-- position of the error in its enumeration.
unfoldable pub invalid : TransactionValidationError → InvalidTransaction
invalid TransactionValidationError.gas_limit_too_low = InvalidTransaction.custom 0
invalid TransactionValidationError.gas_limit_too_high = InvalidTransaction.custom 1
invalid TransactionValidationError.gas_price_too_low = InvalidTransaction.custom 2
invalid TransactionValidationError.priority_fee_too_high = InvalidTransaction.custom 3
invalid TransactionValidationError.balance_too_low = InvalidTransaction.payment
invalid TransactionValidationError.tx_nonce_too_low = InvalidTransaction.stale
invalid TransactionValidationError.tx_nonce_too_high = InvalidTransaction.future
invalid TransactionValidationError.invalid_fee_input = InvalidTransaction.custom 7
invalid TransactionValidationError.invalid_chain_id = InvalidTransaction.custom 8
invalid TransactionValidationError.invalid_signature = InvalidTransaction.custom 9
invalid TransactionValidationError.empty_authorization_list = InvalidTransaction.custom 10
invalid TransactionValidationError.authorization_list_too_large = InvalidTransaction.custom 11
invalid TransactionValidationError.unknown_error = InvalidTransaction.custom 12

-- What the pallet reads around a transaction: the gasometer and its configuration, the gas mapping,
-- the length of encoded data, the chain, and the codes of accounts.
pub record Context : Type 1 where
  pub gasometer : Gasometer
  pub evm_config : gasometer.Config
  pub gas_config : GasConfig
  pub encoded_len : TransactionData → ℕ
  pub chain : Chain
  pub account_code : ℕ → List ℕ

-- `ValidTransaction` of sp-runtime: the tags that a transaction provides and requires, an address
-- with a nonce each, and its priority.
pub record ValidTransaction : Type 0 where
  pub priority : ℕ
  pub requires : List (ℕ × ℕ)
  pub provides : List (ℕ × ℕ)

-- A weight limit with a proof size goes with the base cost of the transaction's own size.
abbrev pub limit_proof_size : Weight → ℕ → Option Weight × Option ℕ
limit_proof_size w base = if ltb 0 w.proof_size then (some w, some base) else (none, none)

-- The pool's priority for gas_price, max_fee_per_gas and max_priority_fee_per_gas, as a u64.
unfoldable pub priority_of : ℕ → Option ℕ → Option ℕ → Option ℕ → Result InvalidTransaction ℕ
priority_of base_fee (some price) none none = ok (min (saturating_sub price base_fee) max_u64)
priority_of base_fee none (some max_fee) none = ok 0
priority_of base_fee none (some max_fee) (some priority) =
    ok (min (min (saturating_sub max_fee base_fee) priority) max_u64)
priority_of base_fee _ _ _ = err InvalidTransaction.payment

-- A nonce ahead of the account's requires the one before it.
abbrev pub required : ℕ → ℕ → ℕ → List (ℕ × ℕ)
required origin nonce account_nonce =
    if ltb account_nonce nonce then (origin, nonce - 1) ∷ [] else []

abbrev pub with_priority :
    ℕ → ℕ → ℕ → Result InvalidTransaction ℕ → Result InvalidTransaction ValidTransaction
with_priority origin nonce account_nonce (err e) = err e
with_priority origin nonce account_nonce (ok priority) = ok (record {
  priority = priority;
  requires = required origin nonce account_nonce;
  provides = (origin, nonce) ∷ [];
})

abbrev pub on_ok :
    {A B : Type 0}
    → Result InvalidTransaction A
    → Result InvalidTransaction B
    → Result InvalidTransaction B
on_ok (ok a) k = k
on_ok (err e) k = err e

module _ (c : Context) where
  open c use {gasometer, evm_config, gas_config, encoded_len, chain, account_code}

  unfoldable pub transaction_weight : TransactionData → Option Weight × Option ℕ
  transaction_weight t =
      limit_proof_size (gas_to_weight gas_config (min t.gas_limit max_u64) true)
        (proof_size_base_cost encoded_len t)

  -- The check that both validations build.
  unfoldable pub check : TransactionData → CheckEvmTransaction gasometer.Config
  check t = record {
    config = record {
      evm_config = evm_config;
      block_gas_limit = chain.block_gas_limit;
      base_fee = chain.base_fee;
      chain_id = chain.chain_id;
      is_transactional = true;
    };
    transaction = to_check_input t;
    weight_limit = (transaction_weight t).0;
    proof_size_base_cost = (transaction_weight t).1;
  }

  -- The checks after the one of the pool or of the block.
  unfoldable pub common_checks :
      CheckEvmTransaction gasometer.Config → Account → Bool → Checked (Unit {0})
  common_checks k who eip7702 =
      with_chain_id k
      >> (with_base_fee k >> (with_balance_for k who >> with_eip7702_authorization_list k eip7702))

  unfoldable pub validate_transaction_in_block :
      ℕ → Transaction → Result InvalidTransaction (Unit {0})
  validate_transaction_in_block origin transaction =
      let k = check (from_transaction transaction) in
      let who = chain.account_basic origin in
      map_err invalid
        (validate_in_block_for gasometer k who >> common_checks k who (is_eip7702 transaction))

  unfoldable pub pool_checks : ℕ → Transaction → Result InvalidTransaction (Unit {0})
  pool_checks origin transaction =
      let k = check (from_transaction transaction) in
      let who = chain.account_basic origin in
      map_err invalid
        (validate_in_pool_for gasometer k who >> common_checks k who (is_eip7702 transaction))

  -- EIP-3607, then the priority and the tags.
  unfoldable pub tagged : ℕ → TransactionData → Result InvalidTransaction ValidTransaction
  tagged origin t =
      if length (account_code origin) == 0
      then with_priority origin t.nonce (chain.account_basic origin).nonce
          (priority_of chain.base_fee t.gas_price t.max_fee_per_gas t.max_priority_fee_per_gas)
      else err InvalidTransaction.bad_signer

  unfoldable pub validate_transaction_in_pool :
      ℕ → Transaction → Result InvalidTransaction ValidTransaction
  validate_transaction_in_pool origin transaction =
      on_ok (pool_checks origin transaction) (tagged origin (from_transaction transaction))
