-- ===== src/Evm/Runner/Entry.antt =====
-- `call`, `create` and `create2` of frame/evm/src/runner/stack.rs, and the trait `Runner` of
-- frame/evm/src/runner/mod.rs that they implement. `execute` is that of a build without the feature
-- `forbid-evm-reentrancy`. The executor of the evm crate is a parameter.
use frontier.Base.{ℕ, Bool, true, false, Option, none, some, List, [], unwrap_or}
use frontier.Evm.Weight.{Result, ok, err, Weight}
use frontier.Evm.Accounts.{Provider}
use frontier.Evm.Validation.{AccessList, AuthorizationList, Gasometer, TransactionValidationError}
use frontier.Evm.Runner.Price.{Chain, Request, RunnerError, validate}
use frontier.Evm.Runner.Execute.{
  Error, IsPrecompileResult, OnCharge, World, Start, Executed, Executor, ExecutionInfo,
  execute_inner,
}
use frontier.Ethereum.Transaction.{Authorization, authorization_tuples}

-- The arguments that `call`, `create` and `create2` share.
pub record Transact : Type 0 where
  pub source : ℕ
  pub input : List ℕ
  pub value : ℕ
  pub gas_limit : ℕ
  pub max_fee_per_gas : Option ℕ
  pub max_priority_fee_per_gas : Option ℕ
  pub nonce : Option ℕ
  pub access_list : AccessList
  pub authorization_list : List Authorization
  pub is_transactional : Bool
  pub should_validate : Bool
  pub weight_limit : Option Weight
  pub proof_size_base_cost : Option ℕ

-- The trait `Runner`, on a state `W` and for an EVM configuration.
pub record Runner (W Config : Type 0) : Type 0 where
  pub call : Config → Transact → ℕ → W → W × Result (RunnerError Error) (ExecutionInfo (List ℕ))
  pub create : Config → Transact → W → W × Result (RunnerError Error) (ExecutionInfo ℕ)

-- `From<TransactionValidationError> for Error`
unfoldable pub from_validation_error : TransactionValidationError → Error
from_validation_error TransactionValidationError.gas_limit_too_low = Error.gas_limit_too_low
from_validation_error TransactionValidationError.gas_limit_too_high = Error.gas_limit_too_high
from_validation_error TransactionValidationError.balance_too_low = Error.balance_low
from_validation_error TransactionValidationError.tx_nonce_too_low = Error.invalid_nonce
from_validation_error TransactionValidationError.tx_nonce_too_high = Error.invalid_nonce
from_validation_error TransactionValidationError.gas_price_too_low = Error.gas_price_too_low
from_validation_error TransactionValidationError.priority_fee_too_high = Error.gas_price_too_low
from_validation_error TransactionValidationError.invalid_fee_input = Error.gas_price_too_low
from_validation_error TransactionValidationError.invalid_chain_id = Error.invalid_chain_id
from_validation_error TransactionValidationError.invalid_signature = Error.invalid_signature
from_validation_error TransactionValidationError.empty_authorization_list = Error.undefined
from_validation_error TransactionValidationError.authorization_list_too_large = Error.undefined
from_validation_error TransactionValidationError.unknown_error = Error.undefined

-- `CreateScheme` of the evm crate; `salted` is `Create2`.
pub data CreateScheme : Type 0 where
  legacy : ℕ → CreateScheme
  salted : ℕ → ℕ → ℕ → CreateScheme

-- The arguments of the executor's `transact_call`, `transact_create` and `transact_create2`; `at`
-- is the target of a call, and the salt of a `create2`.
pub record TransactArgs : Type 0 where
  pub source : ℕ
  pub at : Option ℕ
  pub value : ℕ
  pub input : List ℕ
  pub gas_limit : ℕ
  pub access_list : AccessList
  pub authorization_list : AuthorizationList

module _ (p : Provider) (charge : OnCharge) where
  -- The executor with the precompiles, and what the configuration supplies.
  pub record Evm : Type 1 where
    pub gasometer : Gasometer
    pub chain : World p charge → Chain
    pub storage_growth_ratio : ℕ
    pub pov_size_ratio : ℕ
    pub get_proof_size : World p charge → Option ℕ
    pub keccak_256 : List ℕ → ℕ
    pub check_create_origin : ℕ → Result Error (Unit {0})
    pub on_create : ℕ → ℕ → World p charge → World p charge
    pub is_precompile : ℕ → ℕ → World p charge → IsPrecompileResult × World p charge
    pub create_address : CreateScheme → Start p charge → World p charge → ℕ
    pub transact_call : TransactArgs → Start p charge → World p charge → Executed p charge (List ℕ)
    pub transact_create :
        TransactArgs → Start p charge → World p charge → Executed p charge (List ℕ)
    pub transact_create2 :
        TransactArgs → Start p charge → World p charge → Executed p charge (List ℕ)

module _ (p : Provider) (charge : OnCharge) (evm : Evm p charge) where
  open evm use {gasometer}

  abbrev pub Outcome : Type 0 → Type 0
  Outcome R = World p charge × Result (RunnerError Error) (ExecutionInfo R)

  abbrev pub args : Transact → Option ℕ → TransactArgs
  args t at = record {
    source = t.source;
    at = at;
    value = t.value;
    input = t.input;
    gas_limit = t.gas_limit;
    access_list = t.access_list;
    authorization_list = authorization_tuples t.authorization_list;
  }

  abbrev pub request : Transact → Option ℕ → Request
  request t target = record {
    source = t.source;
    target = target;
    input = t.input;
    value = t.value;
    gas_limit = t.gas_limit;
    max_fee_per_gas = t.max_fee_per_gas;
    max_priority_fee_per_gas = t.max_priority_fee_per_gas;
    nonce = t.nonce;
    access_list = t.access_list;
    authorization_list = authorization_tuples t.authorization_list;
    is_transactional = t.is_transactional;
    weight_limit = t.weight_limit;
    proof_size_base_cost = t.proof_size_base_cost;
  }

  abbrev pub convert_error :
      Result (RunnerError TransactionValidationError) (Unit {0})
      → Result (RunnerError Error) (Unit {0})
  unfolding from_validation_error
  convert_error (ok v) = ok v
  convert_error (err e) = err (record { error = from_validation_error e.error; weight = e.weight })

  -- `if validate { Self::validate(..)?; }`
  unfoldable pub validate_if :
      gasometer.Config
      → Transact
      → Option ℕ
      → World p charge
      → Result (RunnerError Error) (Unit {0})
  validate_if config t target w = elim t.should_validate [
    | true ↦ convert_error (validate gasometer config (evm.chain w) (request t target))
    | false ↦ ok tt
  ]

  -- `execute`: the price is the one at the start.
  unfoldable pub execute :
      {R : Type 0} → Executor p charge R → Transact → World p charge → Outcome R
  execute x t w =
      execute_inner p charge x
        (record {
          source = t.source;
          gas_limit = t.gas_limit;
          max_fee_per_gas = t.max_fee_per_gas;
          max_priority_fee_per_gas = t.max_priority_fee_per_gas;
          is_transactional = t.is_transactional;
          base_fee = (evm.chain w).base_fee;
          weight = (evm.chain w).base_fee_weight;
          weight_limit = t.weight_limit;
          proof_size_base_cost = t.proof_size_base_cost;
          measured_proof_size_before = unwrap_or (evm.get_proof_size w) 0;
          storage_growth_ratio = evm.storage_growth_ratio;
          pov_size_ratio = evm.pov_size_ratio;
        })
        w

  abbrev pub unless_refused :
      {R : Type 0} → Result (RunnerError Error) (Unit {0}) → World p charge → Outcome R → Outcome R
  unless_refused (ok _) w k = k
  unless_refused (err e) w k = (w, err e)

  -- The closure of `call`.
  abbrev pub call_executor : TransactArgs → Executor p charge (List ℕ)
  call_executor a = record {
    default = [];
    is_precompile = evm.is_precompile;
    run = evm.transact_call a;
  }

  unfoldable pub call : gasometer.Config → Transact → ℕ → World p charge → Outcome (List ℕ)
  call config t target w =
      unless_refused (validate_if config t (some target) w) w
        (execute (call_executor (args t (some target))) t w)

  -- An execution of which only the address is returned.
  abbrev pub at_address : ℕ → Executed p charge (List ℕ) → Executed p charge ℕ
  at_address address e = record {
    reason = e.reason;
    value = address;
    used_gas = e.used_gas;
    weight_info = e.weight_info;
    storage_meter = e.storage_meter;
    deletes = e.deletes;
    logs = e.logs;
    storage_oog = e.storage_oog;
    proof_size_after = e.proof_size_after;
    world = e.world;
  }

  -- The closures of `create` and `create2`: the address is announced before the code runs.
  abbrev pub create_executor :
      CreateScheme
      → (Start p charge → World p charge → Executed p charge (List ℕ))
      → ℕ
      → Executor p charge ℕ
  create_executor scheme transact source = record {
    default = 0;
    is_precompile = evm.is_precompile;
    run = λ s w.
        let address = evm.create_address scheme s w in
        at_address address (transact s (evm.on_create source address w));
  }

  abbrev pub map_refusal :
      World p charge → Result Error (Unit {0}) → Result (RunnerError Error) (Unit {0})
  map_refusal w (ok v) = ok v
  map_refusal w (err e) = err (record { error = e; weight = (evm.chain w).base_fee_weight })

  unfoldable pub create : gasometer.Config → Transact → World p charge → Outcome ℕ
  create config t w = unless_refused (map_refusal w (evm.check_create_origin t.source)) w (
      unless_refused (validate_if config t none w) w (
        execute
          (create_executor (CreateScheme.legacy t.source) (evm.transact_create (args t none))
            t.source)
          t w))

  unfoldable pub create2 : gasometer.Config → ℕ → Transact → World p charge → Outcome ℕ
  create2 config salt t w = unless_refused (map_refusal w (evm.check_create_origin t.source)) w (
      unless_refused (validate_if config t none w) w (
        execute
          (create_executor (CreateScheme.salted t.source (evm.keccak_256 t.input) salt)
            (evm.transact_create2 (args t (some salt))) t.source)
          t w))

  -- The stack runner.
  unfoldable pub stack_runner : Runner (World p charge) gasometer.Config
  stack_runner = record { call = call; create = create }
