-- ===== src/Ethereum/Execute.antt =====
-- `execute` of frame/ethereum/src/lib.rs: a transaction is handed to the runner of the EVM pallet.
pub mod Laws
pub mod Admitted
use frontier.Base.{ℕ, Bool, true, false, Option, none, some, List, [], min, max_u64}
use frontier.Evm.Weight.{Result, ok, err, Weight}
use frontier.Evm.Gas.{GasConfig}
use frontier.Evm.Validation.{AccessList, Gasometer}
use frontier.Evm.Runner.Price.{Chain, RunnerError}
use frontier.Evm.Runner.Execute.{Error, ExecutionInfo}
use frontier.Evm.Runner.Entry.{Transact, Runner}
use frontier.Ethereum.Transaction.{
  Action, Authorization, Transaction, TransactionData, from_transaction,
}
use frontier.Ethereum.Validation.{Context, transaction_weight}

-- What the pallet is built on, where `W` is the state that a runner changes.
pub record Pallet (W : Type 0) : Type 1 where
  pub gasometer : Gasometer
  pub evm_config : gasometer.Config
  pub gas_config : GasConfig
  pub encoded_len : TransactionData → ℕ
  pub chain : W → Chain
  pub account_code : W → ℕ → List ℕ
  pub runner : Runner W gasometer.Config

pub data CallOrCreateInfo : Type 0 where
  call : ExecutionInfo (List ℕ) → CallOrCreateInfo
  create : ExecutionInfo ℕ → CallOrCreateInfo

-- `DispatchErrorWithPostInfo`
pub record DispatchError : Type 0 where
  pub actual_weight : Option Weight
  pub pays_fee : Bool
  pub error : Error

-- The tuple that `execute` reads from a transaction.
pub record Parts : Type 0 where
  pub input : List ℕ
  pub value : ℕ
  pub gas_limit : ℕ
  pub max_fee_per_gas : Option ℕ
  pub max_priority_fee_per_gas : Option ℕ
  pub nonce : Option ℕ
  pub action : Action
  pub access_list : AccessList
  pub authorization_list : List Authorization

-- A gas price is both the maximal fee and the priority fee.
unfoldable pub parts : Transaction → Parts
parts (Transaction.legacy t) = record {
  input = t.input;
  value = t.value;
  gas_limit = t.gas_limit;
  max_fee_per_gas = some t.gas_price;
  max_priority_fee_per_gas = some t.gas_price;
  nonce = some t.nonce;
  action = t.action;
  access_list = [];
  authorization_list = [];
}
parts (Transaction.eip2930 t) = record {
  input = t.input;
  value = t.value;
  gas_limit = t.gas_limit;
  max_fee_per_gas = some t.gas_price;
  max_priority_fee_per_gas = some t.gas_price;
  nonce = some t.nonce;
  action = t.action;
  access_list = t.access_list;
  authorization_list = [];
}
parts (Transaction.eip1559 t) = record {
  input = t.input;
  value = t.value;
  gas_limit = t.gas_limit;
  max_fee_per_gas = some t.max_fee_per_gas;
  max_priority_fee_per_gas = some t.max_priority_fee_per_gas;
  nonce = some t.nonce;
  action = t.action;
  access_list = t.access_list;
  authorization_list = [];
}
parts (Transaction.eip7702 t) = record {
  input = t.input;
  value = t.value;
  gas_limit = t.gas_limit;
  max_fee_per_gas = some t.max_fee_per_gas;
  max_priority_fee_per_gas = some t.max_priority_fee_per_gas;
  nonce = some t.nonce;
  action = t.destination;
  access_list = t.access_list;
  authorization_list = t.authorization_list;
}

abbrev pub Executed : Type 0
Executed = Result DispatchError (Option ℕ × Option ℕ × CallOrCreateInfo)

abbrev pub dispatch_error : RunnerError Error → DispatchError
dispatch_error e = record { actual_weight = some e.weight; pays_fee = true; error = e.error }

abbrev pub called : ℕ → Result (RunnerError Error) (ExecutionInfo (List ℕ)) → Executed
called target (err e) = err (dispatch_error e)
called target (ok info) = ok (some target, none, CallOrCreateInfo.call info)

abbrev pub created : Result (RunnerError Error) (ExecutionInfo ℕ) → Executed
created (err e) = err (dispatch_error e)
created (ok info) = ok (none, some info.value, CallOrCreateInfo.create info)

abbrev pub unwrap_config : {C : Type 0} → Option C → C → C
unwrap_config none d = d
unwrap_config (some c) d = c

module _ {W : Type 0} (p : Pallet W) where
  -- What the validation reads in a state.
  abbrev pub context : W → Context
  context w = record {
    gasometer = p.gasometer;
    evm_config = p.evm_config;
    gas_config = p.gas_config;
    encoded_len = p.encoded_len;
    chain = p.chain w;
    account_code = p.account_code w;
  }

  -- The arguments of the runner, which does not validate again.
  unfoldable pub transact_args : ℕ → Transaction → W → Transact
  transact_args from transaction w =
      let t = parts transaction in
      let limit = transaction_weight (context w) (from_transaction transaction) in
      record {
        source = from;
        input = t.input;
        value = t.value;
        gas_limit = min t.gas_limit max_u64;
        max_fee_per_gas = t.max_fee_per_gas;
        max_priority_fee_per_gas = t.max_priority_fee_per_gas;
        nonce = t.nonce;
        access_list = t.access_list;
        authorization_list = t.authorization_list;
        is_transactional = true;
        should_validate = false;
        weight_limit = limit.0;
        proof_size_base_cost = limit.1;
      }

  -- The `match action`.
  abbrev pub execute_action : p.gasometer.Config → Transact → Action → W → W × Executed
  execute_action config t (Action.call target) w =
      let (w', res) = p.runner.call config t target w in (w', called target res)
  execute_action config t Action.create w =
      let (w', res) = p.runner.create config t w in (w', created res)

  unfoldable pub execute : ℕ → Transaction → Option p.gasometer.Config → W → W × Executed
  execute from transaction config w =
      execute_action (unwrap_config config p.evm_config) (transact_args from transaction w)
        (parts transaction).action w
