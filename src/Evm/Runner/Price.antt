-- ===== src/Evm/Runner/Price.antt =====
-- `Runner::validate` of frame/evm/src/runner/stack.rs, and the fee per gas of `execute_inner`.
use frontier.Base.{
  ℕ, Bool, true, false, List, Option, none, some, min, ◌==◌, if◌then◌else◌, saturating_add,
  saturating_sub, unwrap_or, max_u64, max_u256,
}
use frontier.Evm.Weight.{Result, ok, err, Weight}
use frontier.Evm.Validation.{
  Account, AccessList, AuthorizationList, CheckEvmTransaction, CheckEvmTransactionInput, Gasometer,
  Checked, TransactionValidationError, ◌>>◌, validate_in_block_for, with_base_fee, with_balance_for,
}

-- The arguments of `validate` that describe the transaction.
pub record Request : Type 0 where
  pub source : ℕ
  pub target : Option ℕ
  pub input : List ℕ
  pub value : ℕ
  pub gas_limit : ℕ
  pub max_fee_per_gas : Option ℕ
  pub max_priority_fee_per_gas : Option ℕ
  pub nonce : Option ℕ
  pub access_list : AccessList
  pub authorization_list : AuthorizationList
  pub is_transactional : Bool
  pub weight_limit : Option Weight
  pub proof_size_base_cost : Option ℕ

-- What the pallet's configuration and storage give to `validate`: `FeeCalculator::min_gas_price`,
-- `account_basic`, `BlockGasLimit` and `ChainId`.
pub record Chain : Type 0 where
  pub base_fee : ℕ
  pub base_fee_weight : Weight
  pub account_basic : ℕ → Account
  pub account_basic_weight : Weight
  pub block_gas_limit : ℕ
  pub chain_id : ℕ

-- `RunnerError`, over the error type.
pub record RunnerError (E : Type 0) : Type 0 where
  pub error : E
  pub weight : Weight

abbrev pub add_weight : Weight → Weight → Weight
add_weight a b = record {
  ref_time = saturating_add max_u64 a.ref_time b.ref_time;
  proof_size = saturating_add max_u64 a.proof_size b.proof_size;
}

abbrev pub map_err : {E F : Type 0} {A : Type 0} → (E → F) → Result E A → Result F A
map_err f (ok a) = ok a
map_err f (err e) = err (f e)

-- The check that `validate` builds.
abbrev pub check_input : Chain → Request → CheckEvmTransactionInput
check_input chain r = record {
  chain_id = some chain.chain_id;
  to = r.target;
  input = r.input;
  nonce = unwrap_or r.nonce (chain.account_basic r.source).nonce;
  gas_limit = r.gas_limit;
  gas_price = none;
  max_fee_per_gas = r.max_fee_per_gas;
  max_priority_fee_per_gas = r.max_priority_fee_per_gas;
  value = r.value;
  access_list = r.access_list;
  authorization_list = r.authorization_list;
}

abbrev pub check : {Config : Type 0} → Config → Chain → Request → CheckEvmTransaction Config
check evm_config chain r = record {
  config = record {
    evm_config = evm_config;
    block_gas_limit = chain.block_gas_limit;
    base_fee = chain.base_fee;
    chain_id = chain.chain_id;
    is_transactional = r.is_transactional;
  };
  transaction = check_input chain r;
  weight_limit = r.weight_limit;
  proof_size_base_cost = r.proof_size_base_cost;
}

abbrev pub run_checks :
    (g : Gasometer) → CheckEvmTransaction g.Config → Account → Checked (Unit {0})
run_checks g c who = validate_in_block_for g c who >> with_base_fee c >> with_balance_for c who

unfoldable pub validate :
    (g : Gasometer)
    → g.Config
    → Chain
    → Request
    → Result (RunnerError TransactionValidationError) (Unit {0})
unfolding validate_in_block_for with_base_fee with_balance_for
validate g evm_config chain r =
    map_err
      (λ e. record {
        error = e;
        weight = add_weight chain.base_fee_weight chain.account_basic_weight;
      })
      (run_checks g (check evm_config chain r) (chain.account_basic r.source))

-- `total_fee_per_gas` in `execute_inner`, on max_fee_per_gas and max_priority_fee_per_gas; `none`
-- is the error `GasPriceTooLow`.
unfoldable pub total_fee_per_gas : Bool → ℕ → Option ℕ → Option ℕ → Option ℕ
total_fee_per_gas false base_fee max_fee priority = some 0
total_fee_per_gas true base_fee (some max_fee) none = if max_fee == 0 then some 0 else some base_fee
total_fee_per_gas true base_fee (some max_fee) (some priority) =
    if max_fee == 0
    then some 0
    else some (saturating_add max_u256 base_fee (min (saturating_sub max_fee base_fee) priority))
total_fee_per_gas true base_fee none priority = none
