-- ===== src/Ethereum/Tests.antt =====
-- Runs of the validation of Ethereum transactions, and of their execution by the stack runner.
use frontier.Base.{ℕ, ◌≡◌, ◌↔◌, refl, arith, false, Option, none, List, [], ◌∷◌}
use frontier.Evm.Weight.{ok, err}
use frontier.Evm.Gas.{GasConfig, gas_to_weight}
use frontier.Evm.Validation.{
  validate_in_block_for, validate_in_pool_for, with_balance_for, with_base_fee, with_chain_id,
  with_eip7702_authorization_list,
}
use frontier.Evm.Validation.Tests.{by_length}
use frontier.Evm.Runner.Price.{Chain}
use frontier.Evm.Runner.Execute.{Executed, ExitReason, Start, IsPrecompileResult, World}
use frontier.Evm.Runner.Entry.{Evm, TransactArgs}
use frontier.Evm.Fees.{fungible_adapter}
use frontier.Ethereum.Instances.{funds_of, is_ledger, ledger, provider}
use frontier.Ethereum.Transaction.{
  Action, Transaction, from_transaction, proof_size_base_cost, to_check_input,
}
use frontier.Ethereum.Validation.{
  Context, InvalidTransaction, ValidTransaction, check, common_checks, pool_checks, priority_of,
  tagged, transaction_weight, validate_transaction_in_block, validate_transaction_in_pool,
}
use frontier.Ethereum.Validation.Laws.{validate_in_block-iff_ready, validate_in_pool-chains}
use frontier.Ethereum.Execute.{CallOrCreateInfo, execute, parts}
use frontier.Ethereum.Execute.Admitted.{pallet, validated-Executes}

abbrev chain : Chain
chain = record {
  base_fee = 10;
  base_fee_weight = record { ref_time = 25; proof_size = 0 };
  account_basic = λ a. record { balance = 1_000_000; nonce = 3 };
  account_basic_weight = record { ref_time = 25; proof_size = 0 };
  block_gas_limit = 1_000_000;
  chain_id = 42;
}

abbrev gas_config : GasConfig
gas_config = record {
  weight_per_gas = record { ref_time = 25_000; proof_size = 0 };
  base_extrinsic = record { ref_time = 1_000; proof_size = 0 };
  pov_size_ratio = 4;
}

abbrev context : Context
context = record {
  gasometer = by_length;
  evm_config = tt;
  gas_config = gas_config;
  encoded_len = λ t. 100;
  chain = chain;
  account_code = λ a. [];
}

abbrev transfer : ℕ → Transaction
transfer nonce = Transaction.eip1559 (record {
  chain_id = 42;
  nonce = nonce;
  max_priority_fee_per_gas = 2;
  max_fee_per_gas = 20;
  gas_limit = 30_000;
  action = Action.call 5;
  value = 7;
  input = 1 ∷ 2 ∷ [];
  access_list = [];
})

in_block : validate_transaction_in_block context 1 (transfer 3) ≡ ok tt
unfolding validate_transaction_in_block check from_transaction to_check_input transaction_weight
    proof_size_base_cost gas_to_weight common_checks validate_in_block_for with_chain_id
    with_base_fee with_balance_for with_eip7702_authorization_list
in_block = refl

abbrev tags : ℕ → List (ℕ × ℕ) → ValidTransaction
tags nonce requires = record { priority = 2; requires = requires; provides = (1, nonce) ∷ [] }

in_pool : validate_transaction_in_pool context 1 (transfer 3) ≡ ok (tags 3 [])
unfolding validate_transaction_in_pool pool_checks tagged priority_of check from_transaction
    to_check_input transaction_weight proof_size_base_cost gas_to_weight common_checks
    validate_in_pool_for with_chain_id with_base_fee with_balance_for
    with_eip7702_authorization_list
in_pool = refl

in_pool_next : validate_transaction_in_pool context 1 (transfer 4) ≡ ok (tags 4 ((1, 3) ∷ []))
unfolding validate_transaction_in_pool pool_checks tagged priority_of check from_transaction
    to_check_input transaction_weight proof_size_base_cost gas_to_weight common_checks
    validate_in_pool_for with_chain_id with_base_fee with_balance_for
    with_eip7702_authorization_list
in_pool_next = refl

-- A nonce ahead of the account's is no error in the pool, and one in a block.
ahead : validate_transaction_in_block context 1 (transfer 4) ≡ err InvalidTransaction.future
unfolding validate_transaction_in_block check from_transaction to_check_input transaction_weight
    proof_size_base_cost gas_to_weight common_checks validate_in_block_for with_chain_id
    with_base_fee with_balance_for with_eip7702_authorization_list
    frontier.Ethereum.Validation.invalid
ahead = refl

validate_in_block-iff_ready_example :
    (validate_transaction_in_block context 1 (transfer 3) ≡ ok tt) ↔ (
      (v : ValidTransaction) × (validate_transaction_in_pool context 1 (transfer 3) ≡ ok v)
      × (v.requires ≡ []))
validate_in_block-iff_ready_example = validate_in_block-iff_ready context 1 (transfer 3) refl

validate_in_pool-chains_example : (tags 4 ((1, 3) ∷ [])).requires ≡ (tags 3 []).provides
unfolding from_transaction
validate_in_pool-chains_example =
    validate_in_pool-chains context 1 (transfer 3) (transfer 4) refl in_pool in_pool_next
      (omega arith)

abbrev run :
    TransactArgs
    → Start provider (fungible_adapter ledger 9)
    → World provider (fungible_adapter ledger 9)
    → Executed provider (fungible_adapter ledger 9) (List ℕ)
run a s w = record {
  reason = ExitReason.succeed 0;
  value = [];
  used_gas = 21_000;
  weight_info = s.weight_info;
  storage_meter = s.storage_meter;
  deletes = [];
  logs = [];
  storage_oog = false;
  proof_size_after = none;
  world = w;
}

-- An executor that uses 21,000 gas.
abbrev evm : Evm provider (fungible_adapter ledger 9)
evm = record {
  gasometer = by_length;
  chain = λ w. chain;
  storage_growth_ratio = 0;
  pov_size_ratio = 4;
  get_proof_size = λ w. none;
  keccak_256 = λ bytes. 0;
  check_create_origin = λ caller. ok tt;
  on_create = λ owner contract w. w;
  is_precompile = λ a gas w. (IsPrecompileResult.answer 0, w);
  create_address = λ scheme s w. 77;
  transact_call = run;
  transact_create = run;
  transact_create2 = run;
}

abbrev world : World provider (fungible_adapter ledger 9)
world = record {
  accounts = record {
    codes = λ a. none;
    codes_metadata = λ a. none;
    storages = λ a i. 0;
    provider = tt;
  };
  funds = funds_of 1_000_000;
  events = [];
}

validated-Executes_example :
    (r : Option ℕ × Option ℕ × CallOrCreateInfo) × ((execute
        (pallet provider ledger 9 is_ledger evm tt gas_config (λ t. 100))
        1
        (transfer 3)
        none
        world).1
      ≡ ok r)
unfolding parts
validated-Executes_example =
    validated-Executes provider ledger 9 is_ledger evm tt gas_config (λ t. 100) world 1 (transfer 3)
      (λ a gas. (IsPrecompileResult.answer 0, refl)) (omega arith) (omega arith) (omega arith) refl
      (λ e. refl) in_block
