-- ===== src/Rpc/Request.antt =====
-- Requests, their fees and the errors of the RPC server: client/rpc-core/src/types and
-- client/rpc/src/eth/execute.rs.
use frontier.Base.{ℕ, Option, none, some, List, ltb, if◌then◌else◌}
use frontier.Evm.Weight.{ExitError, Result, ok, err}
use frontier.Evm.Runner.Execute.{ExitReason}

-- The errors of the server.
pub data RpcError : Type 0 where
  both_fee_kinds priority_above_fee gas_limit_too_high insufficient_funds : RpcError
  out_of_gas block_unavailable : RpcError
  exceeds_allowance : ℕ → RpcError
  evm_error : ExitError → RpcError
  evm_fatal : ℕ → RpcError
  reverted : List ℕ → RpcError
  runtime_error : ℕ → RpcError

-- `TransactionRequest`, as far as it is read here.
pub record TransactionRequest : Type 0 where
  pub from : Option ℕ
  pub to : Option ℕ
  pub gas_price : Option ℕ
  pub max_fee_per_gas : Option ℕ
  pub max_priority_fee_per_gas : Option ℕ
  pub gas : Option ℕ
  pub value : Option ℕ
  pub input : Option (List ℕ)

pub record FeeDetails : Type 0 where
  pub gas_price : Option ℕ
  pub max_fee_per_gas : Option ℕ
  pub max_priority_fee_per_gas : Option ℕ
  pub fee_cap : ℕ

pub record ExecutableResult : Type 0 where
  pub output : List ℕ
  pub exit_reason : ExitReason
  pub used_gas : ℕ

unfoldable pub fee_details : Option ℕ → Option ℕ → Option ℕ → Result RpcError FeeDetails
fee_details (some price) (some max_fee) (some priority) = err RpcError.both_fee_kinds
fee_details (some price) none none = ok (record {
  gas_price = some price;
  max_fee_per_gas = none;
  max_priority_fee_per_gas = none;
  fee_cap = price;
})
fee_details none (some max_fee) (some priority) =
    if ltb max_fee priority
    then err RpcError.priority_above_fee
    else ok (record {
      gas_price = none;
      max_fee_per_gas = some max_fee;
      max_priority_fee_per_gas = some priority;
      fee_cap = max_fee;
    })
fee_details _ _ _ = ok (record {
  gas_price = none;
  max_fee_per_gas = none;
  max_priority_fee_per_gas = some 0;
  fee_cap = 0;
})

-- A revert's message is not decoded here: the data goes with the error.
unfoldable pub error_on_execution_failure : ExitReason → List ℕ → Result RpcError (Unit {0})
error_on_execution_failure (ExitReason.succeed kind) output = ok tt
error_on_execution_failure (ExitReason.error (ExitError.out_of_gas raised)) output =
    err RpcError.out_of_gas
error_on_execution_failure (ExitReason.error e) output = err (RpcError.evm_error e)
error_on_execution_failure (ExitReason.revert kind) output = err (RpcError.reverted output)
error_on_execution_failure (ExitReason.fatal kind) output = err (RpcError.evm_fatal kind)
