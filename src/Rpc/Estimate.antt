-- ===== src/Rpc/Estimate.antt =====
-- The estimation of gas, `estimate_gas` of client/rpc/src/eth/execute.rs. The runtime API that runs a
-- request, in each of its versions, is a parameter.
pub mod Search
pub mod Transfer
pub mod Limits
pub mod Exits
pub mod Laws
mod Tests
use frontier.Base.{
  ℕ, zero, suc, ◌+◌, ◌-◌, ◌*◌, ◌/◌, Bool, true, false, not, ◌||◌, ◌&&◌, Option, none, some, List,
  [], min, leb, ltb, ◌==◌, length, max_u256, if◌then◌else◌, unwrap_or,
}
use frontier.Evm.Weight.{ExitError, Result, ok, err}
use frontier.Evm.Runner.Execute.{ExitReason}
use frontier.Rpc.Request.{
  RpcError, TransactionRequest, FeeDetails, ExecutableResult, fee_details,
  error_on_execution_failure,
}

-- What is read of the block and of the runtime. `run` is the call or the creation of a request with
-- fees, a gas limit and the estimate mode, in the version of the runtime; that this version cannot
-- be read is an error of `run`.
pub record Api : Type 0 where
  pub adapt_request : TransactionRequest → TransactionRequest
  pub account_code_at : ℕ → Result RpcError (List ℕ)
  pub block_gas_limit : Option ℕ
  pub execute_gas_limit_multiplier : ℕ
  pub gas_limit_multiplier_support : Bool
  pub balance : ℕ → Result RpcError ℕ
  pub run : TransactionRequest → FeeDetails → ℕ → Bool → Result RpcError ExecutableResult

abbrev pub min_gas_per_tx : ℕ
min_gas_per_tx = 21_000

-- What an estimation ends in; a panic is an operation of U256 that leaves its range or divides by
-- zero.
pub data Estimate : Type 0 where
  found : ℕ → Estimate
  failed : RpcError → Estimate
  panic out_of_fuel : Estimate

-- An operation of U256 with the result `n`, and what follows it.
abbrev pub unless_overflow : {A : Type 0} → ℕ → A → A → A
unless_overflow n overflow a = if leb n max_u256 then a else overflow

abbrev pub or_failed : {A : Type 0} → Result RpcError A → (A → Estimate) → Estimate
or_failed (ok a) k = k a
or_failed (err e) k = Estimate.failed e

-- What an iteration does on an exit: the limit was enough, or too low, or it is an error.
pub data Verdict : Type 0 where
  enough too_low : Verdict
  refused : RpcError → Verdict

abbrev pub refused_by : Result RpcError (Unit {0}) → Verdict
refused_by (ok u) = Verdict.too_low
refused_by (err e) = Verdict.refused e

unfoldable pub verdict : ExitReason → List ℕ → Verdict
verdict (ExitReason.succeed kind) output = Verdict.enough
verdict (ExitReason.revert kind) output = Verdict.too_low
verdict (ExitReason.error (ExitError.out_of_gas raised)) output = Verdict.too_low
verdict (ExitReason.error (ExitError.invalid_code opcode)) output = Verdict.too_low
verdict reason output = refused_by (error_on_execution_failure reason output)

-- The variables of the loop, `previous` for `previous_highest`.
pub record Bracket : Type 0 where
  pub lowest : ℕ
  pub highest : ℕ
  pub mid : ℕ
  pub previous : ℕ

pub data Step : Type 0 where
  done : Estimate → Step
  continue : Bracket → Step

abbrev pub verdict_of : Result RpcError ExecutableResult → Verdict
verdict_of (err e) = Verdict.refused e
verdict_of (ok x) = verdict x.exit_reason x.output

unfoldable pub narrow : Bracket → Verdict → Step
narrow s (Verdict.refused e) = Step.done (Estimate.failed e)
narrow s Verdict.too_low = unless_overflow (s.highest + s.mid) (Step.done Estimate.panic) (
    Step.continue (record {
      lowest = s.mid;
      highest = s.highest;
      mid = (s.highest + s.mid) / 2;
      previous = s.previous;
    }))
narrow s Verdict.enough =
    if ltb s.previous s.mid || s.previous == 0
    then Step.done Estimate.panic
    else unless_overflow ((s.previous - s.mid) * 10) (Step.done Estimate.panic) (
        if ltb ((s.previous - s.mid) * 10 / s.previous) 1
        then Step.done (Estimate.found s.mid)
        else unless_overflow (s.mid + s.lowest) (Step.done Estimate.panic) (
            Step.continue (record {
              lowest = s.lowest;
              highest = s.mid;
              mid = (s.mid + s.lowest) / 2;
              previous = s.mid;
            })))

-- The binary search, where `executable` runs the request with a gas limit, out of estimate mode.
module _ (executable : ℕ → Result RpcError ExecutableResult) where
  -- The test of the loop and one iteration.
  unfoldable pub iterate : Bracket → Step
  iterate s =
      if ltb s.highest s.lowest
      then Step.done Estimate.panic
      else if leb (s.highest - s.lowest) 1
      then Step.done (Estimate.found s.highest)
      else narrow s (verdict_of (executable s.mid))

  unfoldable pub search : ℕ → Bracket → Estimate
  search zero s = Estimate.out_of_fuel
  search (suc fuel) s = elim (iterate s) [ Step.done e ↦ e | Step.continue t ↦ search fuel t ]

-- The highest gas limit tried first, before the account's balance is read.
unfoldable pub highest_limit : Option ℕ → Bool → ℕ → ℕ → Result RpcError ℕ
highest_limit (some amount) supported limit max_gas_limit =
    if ltb max_gas_limit amount then err RpcError.gas_limit_too_high else ok amount
highest_limit none supported limit max_gas_limit = ok (if supported then max_gas_limit else limit)

-- The recap of a limit with what the sender's balance pays for.
unfoldable pub recap : ℕ → Option ℕ → ℕ → ℕ → Result RpcError ℕ
recap balance value fee_cap highest =
    if ltb balance (unwrap_or value 0)
    then err RpcError.insufficient_funds
    else ok (min highest ((balance - unwrap_or value 0) / fee_cap))

unfoldable pub recap_with : Result RpcError ℕ → Option ℕ → ℕ → ℕ → Result RpcError ℕ
recap_with (err e) value fee_cap highest = err e
recap_with (ok balance) value fee_cap highest = recap balance value fee_cap highest

unfoldable pub recap_of : Api → Option ℕ → Option ℕ → ℕ → ℕ → Result RpcError ℕ
recap_of api none value fee_cap highest = ok highest
recap_of api (some from) value fee_cap highest =
    if fee_cap == 0 then ok highest else recap_with (api.balance from) value fee_cap highest

-- `executable`: the request's own gas limit is used where it is less.
unfoldable pub executable :
    Api → TransactionRequest → FeeDetails → Bool → ℕ → Result RpcError ExecutableResult
executable api request details estimate_mode gas_limit =
    api.run request details (min (unwrap_or request.gas gas_limit) gas_limit) estimate_mode

abbrev pub is_some : {A : Type 0} → Option A → Bool
is_some none = false
is_some (some a) = true

-- The exit of the second run, with `max_gas_limit`, of a request that reverted.
unfoldable pub check_again : ℕ → Result RpcError ExecutableResult → Result RpcError (Unit {0})
check_again cap (err e) = err e
check_again cap (ok x) = elim x.exit_reason [
  | ExitReason.succeed kind ↦ err (RpcError.exceeds_allowance cap)
  | ExitReason.error e ↦ error_on_execution_failure (ExitReason.error e) x.output
  | ExitReason.revert kind ↦ error_on_execution_failure (ExitReason.revert kind) x.output
  | ExitReason.fatal kind ↦ error_on_execution_failure (ExitReason.fatal kind) x.output
]

-- The exit of the first run; `again` is the second one, `named` that the request has a gas limit or
-- a gas price.
unfoldable pub check_exit :
    ℕ → Bool → Result RpcError ExecutableResult → ExitReason → List ℕ → Result RpcError (Unit {0})
check_exit cap named again (ExitReason.error (ExitError.out_of_gas raised)) output =
    err (RpcError.exceeds_allowance cap)
check_exit cap true again (ExitReason.revert kind) output = check_again cap again
check_exit cap named again reason output = error_on_execution_failure reason output

-- What follows the first run, `binary_search` being the feature of the build.
unfoldable pub hone :
    Api → Bool → ℕ → TransactionRequest → FeeDetails → ℕ → ExecutableResult → Estimate
hone api false fuel request details highest first = Estimate.found first.used_gas
hone api true fuel request details highest first =
    unless_overflow (first.used_gas * 3) Estimate.panic (
      unless_overflow (highest + min_gas_per_tx) Estimate.panic (
        search (executable api request details false) fuel (record {
          lowest = min_gas_per_tx;
          highest = highest;
          mid = min (first.used_gas * 3) ((highest + min_gas_per_tx) / 2);
          previous = highest;
        })))

-- The check of the first run's exit, which may run again with `max_gas_limit`.
unfoldable pub check_first :
    Api
    → Bool
    → TransactionRequest
    → FeeDetails
    → ℕ
    → ℕ
    → ExecutableResult
    → Result RpcError (Unit {0})
check_first api binary_search request details highest max_gas_limit first =
    check_exit highest (is_some request.gas || is_some request.gas_price)
      (executable api request details (not binary_search) max_gas_limit) first.exit_reason
      first.output

-- The body from the first run on.
unfoldable pub estimate_from : Api → Bool → ℕ → TransactionRequest → FeeDetails → ℕ → ℕ → Estimate
estimate_from api binary_search fuel request details highest max_gas_limit =
    or_failed (executable api request details (not binary_search) highest) (λ first.
      or_failed (check_first api binary_search request details highest max_gas_limit first)
        (λ _. hone api binary_search fuel request details highest first))

abbrev pub has_no_data : Option (List ℕ) → Bool
has_no_data none = true
has_no_data (some bytes) = length bytes == 0

-- Whether the request is a transfer to an account without code.
unfoldable pub simple_transfer : Api → TransactionRequest → Result RpcError Bool
simple_transfer api request = elim (has_no_data request.input) [
  | false ↦ ok false
  | true ↦ elim request.to [
    | none ↦ ok false
    | some to ↦ elim (api.account_code_at to) [ err e ↦ err e | ok code ↦ ok (length code == 0) ]
  ]
]

unfoldable pub block_limit : Api → Result RpcError ℕ
block_limit api = elim api.block_gas_limit [
  | none ↦ err RpcError.block_unavailable
  | some limit ↦ ok limit
]

abbrev pub max_limit : Api → ℕ → ℕ
max_limit api limit = limit * api.execute_gas_limit_multiplier

-- From the block's gas limit on.
unfoldable pub estimate_within : Api → Bool → ℕ → TransactionRequest → ℕ → Estimate
estimate_within api binary_search fuel request limit =
    let max_gas_limit = max_limit api limit in
    unless_overflow max_gas_limit Estimate.panic (
      or_failed (highest_limit request.gas api.gas_limit_multiplier_support limit max_gas_limit)
        (λ top.
          or_failed
            (fee_details request.gas_price request.max_fee_per_gas request.max_priority_fee_per_gas)
            (λ details.
              or_failed (recap_of api request.from request.value details.fee_cap top) (λ highest.
                estimate_from api binary_search fuel request details highest max_gas_limit))))

unfoldable pub estimate_gas : Api → Bool → ℕ → TransactionRequest → Estimate
estimate_gas api binary_search fuel original =
    let request = api.adapt_request original in
    or_failed (simple_transfer api request) (λ simple.
      if simple
      then Estimate.found min_gas_per_tx
      else or_failed (block_limit api)
          (λ limit. estimate_within api binary_search fuel request limit))
