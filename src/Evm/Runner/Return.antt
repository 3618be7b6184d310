-- ===== src/Evm/Runner/Return.antt =====
-- When `execute_inner` of frame/evm/src/runner/stack.rs returns a result.
use frontier.Base.{
  ℕ, ◌*◌, ◌≤◌, ◌≡◌, refl, true, Option, none, some, [], arith, checked_mul, saturating_sub,
  max_u256,
}
use frontier.Evm.Weight.{ok, Weight, WeightInfo, new_from_weight_limit, with_proof_size}
use frontier.Evm.Accounts.{Provider, code}
use frontier.Evm.Validation.{proof_size_affordable}
use frontier.Evm.Runner.Price.{total_fee_per_gas}
use frontier.Evm.Runner.Execute.{
  IsPrecompileResult, OnCharge, World, Executor, Call, ExecutionInfo, after_precompile, ExitReason,
  Executed, Start, start_meter, with_weight_info, finish, gas_after, handle_storage_oog,
  execute_paid, with_price, execute_with, execute_inner, Outcome,
}

pub mul_le_mul : (c a b : ℕ) → a ≤ b → c * a ≤ c * b
mul_le_mul c a b h = grind arith

-- A base cost within the proof size limit is accepted at the start of an execution.
pub affordable-new_from_weight_limit :
    (limit : Option Weight) (base : Option ℕ)
    → proof_size_affordable limit base ≡ true
    → (info : Option WeightInfo) × (new_from_weight_limit limit base ≡ ok info)
unfolding new_from_weight_limit
affordable-new_from_weight_limit none base h = (none, refl)
affordable-new_from_weight_limit (some w) none h = (_, refl)
affordable-new_from_weight_limit (some w) (some b) h = (some (with_proof_size w b), ground arith)

module _ (p : Provider) (charge : OnCharge) {R : Type 0} (x : Executor p charge R) where
  abbrev pub Returns : Outcome p charge x → Type 0
  Returns o = (info : ExecutionInfo R) × (o.1 ≡ ok info)

  finish-Returns :
      (c : Call) (price : ℕ) (fee : charge.LiquidityInfo) (e : Executed p charge R)
      (r : ExitReason × R × ℕ)
      → Returns (finish p charge x c price fee e r)
  finish-Returns c price fee e (reason, value, effective) = (_, refl)

  execute_paid-Returns :
      (c : Call) (gas_limit : ℕ) (info : Option WeightInfo) (price : ℕ) (w : World p charge)
      (paid : charge.LiquidityInfo × charge.Funds)
      → Returns (execute_paid p charge x c gas_limit info price w paid)
  unfolding gas_after handle_storage_oog
  execute_paid-Returns c gas_limit info price w (fee, funds) =
      let start : Start p charge = record {
        gas_limit = gas_limit;
        weight_info = info;
        storage_meter = start_meter c.storage_growth_ratio gas_limit;
      } in
      let e = x.run start (record w { funds = funds }) in
      finish-Returns c price fee e
        (handle_storage_oog p charge x gas_limit (gas_after p charge x c e) e)

  module _ (c : Call) (w : World p charge) (info : Option WeightInfo) (price : ℕ)
      (transactional : c.is_transactional ≡ true) (eoa : code p w.accounts c.source ≡ [])
      (priced : total_fee_per_gas true c.base_fee c.max_fee_per_gas c.max_priority_fee_per_gas
        ≡ some price)
      (fits : price * c.gas_limit ≤ max_u256)
      (solvent : (fee : ℕ)
        → fee ≤ price * c.gas_limit
        → (paid : charge.LiquidityInfo × charge.Funds) × (charge.withdraw_fee c.source fee w.funds
            ≡ ok paid)) where
    execute_with-Returns :
        (gas_limit : ℕ)
        → gas_limit ≤ c.gas_limit
        → Returns (execute_with p charge x c info gas_limit w)
    unfolding total_fee_per_gas
    execute_with-Returns gas_limit le =
        let most = mul_le_mul price gas_limit c.gas_limit le in
        let (paid, e) = solvent (price * gas_limit) most in
        let total : checked_mul max_u256 price gas_limit ≡ some (price * gas_limit) =
          ground (arith, most, fits) in
        rw (transactional, eoa, execute_with, priced, with_price, total, e)
          (execute_paid-Returns c gas_limit info price w paid)

    -- The precompile check leaves the state, whatever it answers.
    after_precompile-Returns :
        (r : IsPrecompileResult) → Returns (after_precompile p charge x c info (r, w))
    after_precompile-Returns IsPrecompileResult.out_of_gas = (_, refl)
    after_precompile-Returns (IsPrecompileResult.answer extra) =
        execute_with-Returns (saturating_sub c.gas_limit extra) (omega arith)

    pub execute_inner-Returns :
        {r : IsPrecompileResult}
        → new_from_weight_limit c.weight_limit c.proof_size_base_cost ≡ ok info
        → x.is_precompile c.source c.gas_limit w ≡ (r, w)
        → Returns (execute_inner p charge x c w)
    unfolding execute_inner
    execute_inner-Returns {r} admitted answered =
        rw (admitted, with_weight_info, answered) (after_precompile-Returns r)
