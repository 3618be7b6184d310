-- ===== src/Rpc/Estimate/Tests.antt =====
-- Runs of the estimation of gas, with a runtime that needs 30000 gas.
use frontier.Base.{
  ℕ, ◌*◌, ◌≤◌, ◌<◌, ◌≡◌, refl, arith, Bool, true, false, Option, none, some, [], ◌∷◌, ltb,
}
use frontier.Evm.Weight.{Result, ok}
use frontier.Evm.Runner.Execute.{ExitReason}
use frontier.Rpc.Request.{
  RpcError, TransactionRequest, FeeDetails, ExecutableResult, fee_details,
  error_on_execution_failure,
}
use frontier.Rpc.Estimate.{
  Estimate, Api, estimate_gas, estimate_from, verdict, executable, hone, highest_limit, recap_of,
  check_first, check_exit, search, iterate, narrow, simple_transfer, block_limit, estimate_within,
  min_gas_per_tx, max_limit, Verdict,
}
use frontier.Rpc.Estimate.Laws.{
  IsMetered, IsEstimated, estimate_gas-IsEstimated, estimate_from-Reverts,
}

abbrev answer : Bool → ExecutableResult
answer true = record { output = 8 ∷ []; exit_reason = ExitReason.revert 0; used_gas = 25_000 }
answer false = record { output = []; exit_reason = ExitReason.succeed 0; used_gas = 30_000 }

abbrev answered : Bool → Result RpcError ExecutableResult
answered low = ok (answer low)

abbrev api : Api
api = record {
  adapt_request = λ request. request;
  account_code_at = λ address. ok (1 ∷ []);
  block_gas_limit = some 100_000;
  execute_gas_limit_multiplier = 10;
  gas_limit_multiplier_support = true;
  balance = λ address. ok 0;
  run = λ request details gas mode. answered (ltb gas 30_000);
}

abbrev request_with : Option ℕ → TransactionRequest
request_with limit = record {
  from = none;
  to = some 7;
  gas_price = none;
  max_fee_per_gas = none;
  max_priority_fee_per_gas = none;
  gas = limit;
  value = none;
  input = none;
}

abbrev no_fees : FeeDetails
no_fees = record {
  gas_price = none;
  max_fee_per_gas = none;
  max_priority_fee_per_gas = some 0;
  fee_cap = 0;
}

answer-IsMetered :
    (low : Bool) (gas : ℕ) (x : ExecutableResult)
    → ltb gas 30_000 ≡ low
    → answered low ≡ ok x
    → verdict x.exit_reason x.output ≡ Verdict.enough
    → (min_gas_per_tx ≤ gas) × (min_gas_per_tx < x.used_gas * 3) × (x.used_gas ≤ gas)
unfolding verdict
answer-IsMetered true gas x low ran suffices = absurd (ground arith)
answer-IsMetered false gas x low ran suffices = ground arith

api-bounds :
    (limit : ℕ)
    → block_limit api ≡ ok limit
    → (limit ≤ 1_000_000) × (max_limit api limit ≤ 1_000_000)
unfolding block_limit
api-bounds limit e = ground arith

api-IsMetered : IsMetered api
unfolding IsMetered
api-IsMetered request details gas x ran suffices =
    answer-IsMetered (ltb gas 30_000) gas x refl ran suffices

searched : estimate_gas api true 40 (request_with none) ≡ Estimate.found 31_781
unfolding estimate_gas simple_transfer estimate_within block_limit highest_limit fee_details
    recap_of estimate_from executable check_first check_exit error_on_execution_failure hone search
    iterate narrow verdict
searched = refl

estimate_gas-IsEstimated_example :
    IsEstimated api (request_with none) (estimate_gas api true 1_000_000 (request_with none))
estimate_gas-IsEstimated_example =
    estimate_gas-IsEstimated api (request_with none) 1_000_000 1_000_000 api-IsMetered
      (record { fueled = omega arith; small = omega arith }) api-bounds

estimate_from-Reverts_example :
    estimate_from api true 0 (request_with (some 26_000)) no_fees 50_000 1_000_000
    ≡ Estimate.failed (RpcError.reverted (8 ∷ []))
estimate_from-Reverts_example =
    estimate_from-Reverts api true 0 (request_with (some 26_000)) no_fees 50_000 1_000_000 26_000
      (answer true) 0 refl (omega arith) (omega arith) refl refl
