-- ===== src/Evm/Runner/Execute.antt =====
-- `execute_inner` of frame/evm/src/runner/stack.rs, with `handle_storage_oog` of
-- primitives/evm/src/storage_oog.rs. The payment of fees, the precompiles and the run of the
-- executor (the closure `f`) are parameters.

use frontier.Base.{
  ℕ, Bool, true, false, not, ◌&&◌, Option, none, some, List, [], ◌∷◌, ◌++◌, ◌/◌, max, ltb, ◌==◌,
  if◌then◌else◌, length, checked_mul, saturating_add, saturating_mul, saturating_sub, unwrap_or,
  max_u64, max_u256,
}
use frontier.Evm.Weight.{ExitError, Result, ok, err, Weight, WeightInfo, new_from_weight_limit}
use frontier.Evm.Meter.{StorageMeter, new, storage_to_gas}
use frontier.Evm.Accounts.{Provider, Accounts, code, remove_account}
use frontier.Evm.Substate.{Log}
use frontier.Evm.Runner.Price.{RunnerError, total_fee_per_gas}

-- `Error` of the EVM pallet.
pub data Error : Type 0 where
  balance_low fee_overflow payment_overflow withdraw_failed gas_price_too_low : Error
  invalid_nonce gas_limit_too_low gas_limit_too_high invalid_chain_id invalid_signature : Error
  reentrancy transaction_must_come_from_eoa undefined create_origin_not_allowed : Error

-- `ExitReason` of the evm crate; a success or a revert of any kind is the number of its kind.
pub data ExitReason : Type 0 where
  succeed : ℕ → ExitReason
  revert : ℕ → ExitReason
  error : ExitError → ExitReason
  fatal : ℕ → ExitReason

pub data IsPrecompileResult : Type 0 where
  answer : ℕ → IsPrecompileResult
  out_of_gas : IsPrecompileResult

-- `OnChargeEVMTransaction`, on the funds of all accounts.
pub record OnCharge : Type 1 where
  pub Funds : Type 0
  pub LiquidityInfo : Type 0
  pub withdraw_fee : ℕ → ℕ → Funds → Result Error (LiquidityInfo × Funds)
  pub correct_and_deposit_fee : ℕ → ℕ → ℕ → LiquidityInfo → Funds → LiquidityInfo × Funds
  pub pay_priority_fee : LiquidityInfo → Funds → Funds

module _ (p : Provider) (charge : OnCharge) where
  -- What an execution changes.
  pub record World : Type 0 where
    pub accounts : Accounts p
    pub funds : charge.Funds
    pub events : List Log

  -- What `execute_inner` gives to the executor.
  pub record Start : Type 0 where
    pub gas_limit : ℕ
    pub weight_info : Option WeightInfo
    pub storage_meter : Option StorageMeter

  -- What the executor leaves: `storage_oog` is the flag of that name, and `proof_size_after` what
  -- `get_proof_size` answers afterwards.
  pub record Executed (R : Type 0) : Type 0 where
    pub reason : ExitReason
    pub value : R
    pub used_gas : ℕ
    pub weight_info : Option WeightInfo
    pub storage_meter : Option StorageMeter
    pub deletes : List ℕ
    pub logs : List Log
    pub storage_oog : Bool
    pub proof_size_after : Option ℕ
    pub world : World

  pub record Executor (R : Type 0) : Type 0 where
    pub default : R
    pub is_precompile : ℕ → ℕ → World → IsPrecompileResult × World
    pub run : Start → World → Executed R

-- The arguments of `execute_inner`, and the two ratios of the pallet's configuration.
pub record Call : Type 0 where
  pub source : ℕ
  pub gas_limit : ℕ
  pub max_fee_per_gas : Option ℕ
  pub max_priority_fee_per_gas : Option ℕ
  pub is_transactional : Bool
  pub base_fee : ℕ
  pub weight : Weight
  pub weight_limit : Option Weight
  pub proof_size_base_cost : Option ℕ
  pub measured_proof_size_before : ℕ
  pub storage_growth_ratio : ℕ
  pub pov_size_ratio : ℕ

-- `ExecutionInfoV2`; `standard` and `effective` are its `UsedGas`.
pub record ExecutionInfo (R : Type 0) : Type 0 where
  pub exit_reason : ExitReason
  pub value : R
  pub standard : ℕ
  pub effective : ℕ
  pub weight_info : Option WeightInfo
  pub logs : List Log

-- The storage meter, where growth is limited.
abbrev pub start_meter : ℕ → ℕ → Option StorageMeter
unfolding new
start_meter ratio gas_limit = if ltb 0 ratio then some (new (gas_limit / ratio)) else none

abbrev pub storage_gas : ℕ → Option StorageMeter → ℕ
unfolding storage_to_gas
storage_gas ratio none = 0
storage_gas ratio (some meter) = storage_to_gas ratio meter

-- `weight_info().unwrap_or_default().proof_size_usage.unwrap_or_default()`
abbrev pub estimated_proof_size : Option WeightInfo → ℕ
estimated_proof_size none = 0
estimated_proof_size (some w) = unwrap_or w.proof_size_usage 0

-- The measured proof size with the base cost, unless it is above the estimate.
abbrev pub actual_proof_size : Option ℕ → ℕ → Option ℕ → ℕ → ℕ
actual_proof_size base before none estimated = estimated
actual_proof_size base before (some measured) estimated =
    let actual = saturating_add max_u64 (unwrap_or base 0) (saturating_sub measured before) in
    if ltb estimated actual then estimated else actual

module _ (p : Provider) (charge : OnCharge) {R : Type 0} (x : Executor p charge R) where
  -- The closure under `handle_storage_oog`: the effective gas.
  unfoldable pub gas_after : Call → Executed p charge R → ℕ
  gas_after c e =
      max
        (max e.used_gas (
          saturating_mul max_u64
            (actual_proof_size c.proof_size_base_cost c.measured_proof_size_before
              e.proof_size_after (estimated_proof_size e.weight_info))
            c.pov_size_ratio))
        (storage_gas c.storage_growth_ratio e.storage_meter)

  -- With the flag raised the execution is out of gas, whatever it returned.
  unfoldable pub handle_storage_oog : ℕ → ℕ → Executed p charge R → ExitReason × R × ℕ
  handle_storage_oog gas_limit effective e =
      if e.storage_oog
      then (ExitReason.error (ExitError.out_of_gas true), x.default, gas_limit)
      else (e.reason, e.value, effective)

  abbrev pub remove_all : List ℕ → Accounts p → Accounts p
  remove_all [] s = s
  remove_all (a ∷ as') s = remove_all as' (remove_account p a s)

  abbrev pub Outcome : Type 0
  Outcome = World p charge × Result (RunnerError Error) (ExecutionInfo R)

  abbrev pub refuse : Call → World p charge → Error → Outcome
  refuse c w e = (w, err (record { error = e; weight = c.weight }))

  -- From the fee paid for the effective gas to the end.
  abbrev pub finish :
      Call → ℕ → charge.LiquidityInfo → Executed p charge R → ExitReason × R × ℕ → Outcome
  finish c price fee e (reason, value, effective) =
      let (tip, funds) =
        charge.correct_and_deposit_fee c.source (saturating_mul max_u256 effective price)
          (saturating_mul max_u256 effective c.base_fee) fee e.world.funds in
      (
        record {
          accounts = remove_all e.deletes e.world.accounts;
          funds = charge.pay_priority_fee tip funds;
          events = e.world.events ++ e.logs;
        },
        ok (record {
          exit_reason = reason;
          value = value;
          standard = e.used_gas;
          effective = effective;
          weight_info = e.weight_info;
          logs = e.logs;
        }),
      )

  abbrev pub execute_paid :
      Call
      → ℕ
      → Option WeightInfo
      → ℕ
      → World p charge
      → charge.LiquidityInfo × charge.Funds
      → Outcome
  unfolding gas_after handle_storage_oog
  execute_paid c gas_limit weight_info price w (fee, funds) =
      let e =
        x.run
          (record {
            gas_limit = gas_limit;
            weight_info = weight_info;
            storage_meter = start_meter c.storage_growth_ratio gas_limit;
          })
          (record w { funds = funds }) in
      finish c price fee e (handle_storage_oog gas_limit (gas_after c e) e)

  abbrev pub withdrawn :
      Call
      → ℕ
      → Option WeightInfo
      → ℕ
      → World p charge
      → Result Error (charge.LiquidityInfo × charge.Funds)
      → Outcome
  withdrawn c gas_limit weight_info price w (err e) = refuse c w e
  withdrawn c gas_limit weight_info price w (ok paid) =
      execute_paid c gas_limit weight_info price w paid

  abbrev pub with_total : Call → ℕ → Option WeightInfo → ℕ → World p charge → Option ℕ → Outcome
  with_total c gas_limit weight_info price w none = refuse c w Error.fee_overflow
  with_total c gas_limit weight_info price w (some total) =
      withdrawn c gas_limit weight_info price w (charge.withdraw_fee c.source total w.funds)

  abbrev pub with_price : Call → ℕ → Option WeightInfo → World p charge → Option ℕ → Outcome
  with_price c gas_limit weight_info w none = refuse c w Error.gas_price_too_low
  with_price c gas_limit weight_info w (some price) =
      with_total c gas_limit weight_info price w (checked_mul max_u256 price gas_limit)

  -- EIP-3607, then the price.
  abbrev pub execute_with : Call → Option WeightInfo → ℕ → World p charge → Outcome
  unfolding total_fee_per_gas
  execute_with c weight_info gas_limit w =
      if c.is_transactional && not (length (code p w.accounts c.source) == 0)
      then refuse c w Error.transaction_must_come_from_eoa
      else with_price c gas_limit weight_info w (
          total_fee_per_gas c.is_transactional c.base_fee c.max_fee_per_gas
            c.max_priority_fee_per_gas)

  abbrev pub after_precompile :
      Call → Option WeightInfo → IsPrecompileResult × World p charge → Outcome
  after_precompile c weight_info (IsPrecompileResult.out_of_gas, w) = (
    w,
    ok (record {
      exit_reason = ExitReason.error (ExitError.out_of_gas false);
      value = x.default;
      standard = c.gas_limit;
      effective = c.gas_limit;
      weight_info = weight_info;
      logs = [];
    }),
  )
  after_precompile c weight_info (IsPrecompileResult.answer extra_cost, w) =
      execute_with c weight_info (saturating_sub c.gas_limit extra_cost) w

  abbrev pub with_weight_info :
      Call → World p charge → Result (Unit {0}) (Option WeightInfo) → Outcome
  with_weight_info c w (err e) = refuse c w Error.gas_limit_too_low
  with_weight_info c w (ok weight_info) =
      after_precompile c weight_info (x.is_precompile c.source c.gas_limit w)

  unfoldable pub execute_inner : Call → World p charge → Outcome
  unfolding execute_with execute_paid new_from_weight_limit
  execute_inner c w =
      with_weight_info c w (new_from_weight_limit c.weight_limit c.proof_size_base_cost)
