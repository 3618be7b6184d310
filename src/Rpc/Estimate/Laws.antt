-- ===== src/Rpc/Estimate/Laws.antt =====
-- The estimation of gas as a whole, with the binary search of the feature
-- `rpc-binary-search-estimate`, of client/rpc/src/eth/execute.rs.
use frontier.Base.{
  ℕ, ◌+◌, ◌*◌, ◌/◌, ◌≤◌, ◌<◌, ◌≡◌, refl, ◌∙◌, ap, arith, Bool, true, false, not, ◌||◌, some, min,
  leb, max_u256, if◌then◌else◌, ◌⊎◌, inl, inr, unwrap_or,
}
use frontier.Evm.Weight.{Result, ok, err}
use frontier.Evm.Runner.Execute.{ExitReason}
use frontier.Rpc.Request.{
  RpcError, TransactionRequest, FeeDetails, ExecutableResult, error_on_execution_failure,
  fee_details,
}
use frontier.Rpc.Estimate.{
  Estimate, Verdict, Api, min_gas_per_tx, verdict, verdict_of, executable, check_again, check_exit,
  estimate_from, check_first, hone, estimate_within, estimate_gas, simple_transfer, block_limit,
  max_limit, highest_limit, recap_of, or_failed, is_some,
}
use frontier.Rpc.Estimate.Limits.{le_trans, highest_limit-le, recap_of-le}
use frontier.Rpc.Estimate.Transfer.{IsTransfer, simple_transfer-IsTransfer}
use frontier.Rpc.Estimate.Exits.{check_exit-enough}
use frontier.Rpc.Estimate.Search.{IsAnswer, search-IsAnswer}

-- Every run that succeeds has the intrinsic gas of a transaction, and uses more than a third of it
-- after refunds, and no more than its limit.
unfoldable pub IsMetered : Api → Type 0
IsMetered api =
    (request : TransactionRequest) (details : FeeDetails) (gas : ℕ) (x : ExecutableResult)
    → api.run request details gas false ≡ ok x
    → verdict x.exit_reason x.output ≡ Verdict.enough
    → (min_gas_per_tx ≤ gas) × (min_gas_per_tx < x.used_gas * 3) × (x.used_gas ≤ gas)

-- A bound on limits that are far from the largest U256, and fuel for them.
pub record IsEnough (most fuel : ℕ) : Type 0 where
  pub fueled : most ≤ fuel
  pub small : most * 10 ≤ max_u256

-- An estimate is the gas of a simple transfer, or a limit with which a run succeeded at the fees of
-- the request; an error is allowed.
unfoldable pub IsEstimated : Api → TransactionRequest → Estimate → Type 0
IsEstimated api request (Estimate.found g) =
    ((g ≡ min_gas_per_tx) × IsTransfer api request)
    ⊎ ((details : FeeDetails) × (fee_details request.gas_price request.max_fee_per_gas
            request.max_priority_fee_per_gas
          ≡ ok details)
        × (verdict_of (executable api request details false g) ≡ Verdict.enough))
IsEstimated api request (Estimate.failed e) = Unit
IsEstimated api request Estimate.panic = ⊥
IsEstimated api request Estimate.out_of_fuel = ⊥

module _ (api : Api) (request : TransactionRequest) where
  or_failed-IsEstimated :
      {A : Type 0} (r : Result RpcError A) (k : A → Estimate)
      → ((a : A) → r ≡ ok a → IsEstimated api request (k a))
      → IsEstimated api request (or_failed r k)
  unfolding IsEstimated
  or_failed-IsEstimated (ok a) k next = next a refl
  or_failed-IsEstimated (err e) k next = tt

  IsAnswer-IsEstimated :
      (details : FeeDetails) (top : ℕ) (e : Estimate)
      → (fee_details request.gas_price request.max_fee_per_gas request.max_priority_fee_per_gas
          ≡ ok details)
      → IsAnswer (executable api request details false) top e
      → IsEstimated api request e
  unfolding IsAnswer IsEstimated
  IsAnswer-IsEstimated details top (Estimate.found g) fees (bound, seen) = inr (details, fees, seen)
  IsAnswer-IsEstimated details top (Estimate.failed e) fees a = tt
  IsAnswer-IsEstimated details top Estimate.panic fees a = a
  IsAnswer-IsEstimated details top Estimate.out_of_fuel fees a = a

  start :
      (highest used : ℕ)
      → 21_000 < used * 3
      → ((21_000 < min (used * 3) ((highest + 21_000) / 2))
          × (min (used * 3) ((highest + 21_000) / 2) < highest))
        ⊎ (highest ≤ 21_001)
  start highest used lt = ground (arith, lt)

  hone-IsEstimated :
      (most fuel : ℕ) (details : FeeDetails) (highest : ℕ) (first : ExecutableResult)
      → (fee_details request.gas_price request.max_fee_per_gas request.max_priority_fee_per_gas
          ≡ ok details)
      → IsMetered api
      → highest ≤ most
      → IsEnough most fuel
      → executable api request details false highest ≡ ok first
      → verdict first.exit_reason first.output ≡ Verdict.enough
      → IsEstimated api request (hone api true fuel request details highest first)
  unfolding hone executable IsMetered
  hone-IsEstimated most fuel details highest first fees m le bound ran suffices =
      let (enough_gas, used, limited) = m request details _ first ran suffices in
      let fueled = bound.fueled in
      let small = bound.small in
      let least : 21_000 ≤ highest = omega (arith, enough_gas) in
      let thrice : leb (first.used_gas * 3) max_u256 ≡ true = ground (arith, limited, le, small) in
      let sum : leb (highest + min_gas_per_tx) max_u256 ≡ true = ground (arith, least, le, small) in
      rw (thrice, sum)
        (IsAnswer-IsEstimated details highest _ fees (
          search-IsAnswer (executable api request details false) fuel _
            (record {
              middle = start highest first.used_gas used;
              ordered = least;
              kept = refl;
              small = omega (arith, le, small);
              positive = omega (arith, least);
              suffices = rw ran suffices;
            })
            (omega (arith, le, fueled))))

  estimate_from-IsEstimated :
      (most fuel : ℕ) (details : FeeDetails) (highest max_gas_limit : ℕ)
      → (fee_details request.gas_price request.max_fee_per_gas request.max_priority_fee_per_gas
          ≡ ok details)
      → IsMetered api
      → highest ≤ most
      → IsEnough most fuel
      → IsEstimated api request (estimate_from api true fuel request details highest max_gas_limit)
  unfolding estimate_from check_first
  estimate_from-IsEstimated most fuel details highest max_gas_limit fees m le bound =
      or_failed-IsEstimated (executable api request details false highest) _ (λ first ran.
        or_failed-IsEstimated (check_first api true request details highest max_gas_limit first)
          (λ _. hone api true fuel request details highest first)
          (λ _ passed. hone-IsEstimated most fuel details highest first fees m le bound ran (
            check_exit-enough highest (is_some request.gas || is_some request.gas_price)
              (executable api request details false max_gas_limit) first.exit_reason first.output
              passed)))

  estimate_within-IsEstimated :
      (most fuel limit : ℕ)
      → IsMetered api
      → IsEnough most fuel
      → limit ≤ most
      → max_limit api limit ≤ most
      → IsEstimated api request (estimate_within api true fuel request limit)
  unfolding estimate_within
  estimate_within-IsEstimated most fuel limit m b le bound =
      let small = b.small in
      let fits : leb (max_limit api limit) max_u256 ≡ true = ground (arith, bound, small) in
      rw fits (
        or_failed-IsEstimated
          (highest_limit request.gas api.gas_limit_multiplier_support limit (max_limit api limit)) _
          (λ top capped.
            or_failed-IsEstimated
              (fee_details request.gas_price request.max_fee_per_gas
                request.max_priority_fee_per_gas)
              _
              (λ details fees.
                or_failed-IsEstimated (recap_of api request.from request.value details.fee_cap top)
                  (λ highest.
                    estimate_from api true fuel request details highest (max_limit api limit))
                  (λ highest paid.
                    estimate_from-IsEstimated most fuel details highest (max_limit api limit) fees m
                      (le_trans highest top most
                        (recap_of-le api request.from request.value details.fee_cap top highest
                          paid)
                        (highest_limit-le request.gas api.gas_limit_multiplier_support limit
                          (max_limit api limit) top most le bound capped))
                      b))))

  unless_simple-IsEstimated :
      (most fuel : ℕ) (simple : Bool)
      → IsMetered api
      → IsEnough most fuel
      → ((limit : ℕ) → block_limit api ≡ ok limit → (limit ≤ most) × (max_limit api limit ≤ most))
      → simple_transfer api request ≡ ok simple
      → IsEstimated api request (
          if simple
          then Estimate.found min_gas_per_tx
          else or_failed (block_limit api) (estimate_within api true fuel request))
  unfolding IsEstimated
  unless_simple-IsEstimated most fuel true m b bounds seen =
      inl (refl, simple_transfer-IsTransfer api request seen)
  unless_simple-IsEstimated most fuel false m b bounds seen =
      or_failed-IsEstimated (block_limit api) _ (λ limit e.
        let (le, bound) = bounds limit e in
        estimate_within-IsEstimated most fuel limit m b le bound)

-- With the binary search, for a block gas limit that with its multiple is within a bound, ten times
-- the bound below 2^256 and as much fuel as the bound: an estimation ends, without a panic, in an
-- error, or in 21000 for a request that has no data or empty data, to an account without code, or
-- in a gas limit with which a run of the adapted request at its fees succeeded. This holds where
-- every run that succeeds was given 21000 gas, uses more than a third of that and no more than it
-- was given.
pub estimate_gas-IsEstimated :
    (api : Api) (request : TransactionRequest) (most fuel : ℕ)
    → IsMetered api
    → IsEnough most fuel
    → ((limit : ℕ) → block_limit api ≡ ok limit → (limit ≤ most) × (max_limit api limit ≤ most))
    → IsEstimated api (api.adapt_request request) (estimate_gas api true fuel request)
unfolding estimate_gas
estimate_gas-IsEstimated api request most fuel m b bounds =
    let adapted = api.adapt_request request in
    or_failed-IsEstimated api adapted (simple_transfer api adapted) _
      (λ simple seen. unless_simple-IsEstimated api adapted most fuel simple m b bounds seen)

executable-own_limit :
    (api : Api) (request : TransactionRequest) (details : FeeDetails) (mode : Bool) (gas limit : ℕ)
    → request.gas ≡ some gas
    → gas ≤ limit
    → executable api request details mode limit ≡ api.run request details gas mode
unfolding executable
executable-own_limit api request details mode gas limit own le =
    ap (λ n. api.run request details n mode)
      (ap (λ o. min (unwrap_or o limit) limit) own ∙ omega (arith, le))

-- A request with its own gas limit, no higher than the highest limit and than the largest one, whose
-- first run reverts is refused with the data of this run: the second run has the request's limit
-- again, so that the estimation never says that more gas than the allowance is required.
pub estimate_from-Reverts :
    (api : Api) (binary_search : Bool) (fuel : ℕ) (request : TransactionRequest)
    (details : FeeDetails) (highest max_gas_limit gas : ℕ) (first : ExecutableResult) (kind : ℕ)
    → request.gas ≡ some gas
    → gas ≤ highest
    → gas ≤ max_gas_limit
    → api.run request details gas (not binary_search) ≡ ok first
    → first.exit_reason ≡ ExitReason.revert kind
    → estimate_from api binary_search fuel request details highest max_gas_limit
      ≡ Estimate.failed (RpcError.reverted first.output)
unfolding estimate_from check_first check_exit check_again error_on_execution_failure
estimate_from-Reverts api binary_search fuel request details highest max_gas_limit gas first kind
      own le most ran reverts =
    let mode = not binary_search in
    let run_at : (limit : ℕ) → gas ≤ limit → executable api request details mode limit ≡ ok first =
      λ limit bound. executable-own_limit api request details mode gas limit own bound ∙ ran in
    let named : is_some request.gas ≡ true = ap is_some own in
    rw (run_at highest le, named, run_at max_gas_limit most, reverts) refl
