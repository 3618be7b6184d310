-- ===== src/Evm/Runner/Runs.antt =====
-- Runs of `execute_inner`, with one sender's funds.
use frontier.Base.{
  ℕ, ◌+◌, ◌-◌, ◌≤◌, ◌≡◌, refl, false, true, Option, none, some, [], ◌∷◌, arith, min, leb,
  if◌then◌else◌,
}
use frontier.Evm.Weight.{Result, ok, err, WeightInfo, new_from_weight_limit, with_proof_size}
use frontier.Evm.Meter.{StorageMeter, new, storage_to_gas}
use frontier.Evm.Accounts.{Provider}
use frontier.Evm.Runner.Execute.{
  Error, ExitReason, IsPrecompileResult, OnCharge, World, Start, Executor, Call,
  estimated_proof_size, execute_inner,
}
use frontier.Evm.Runner.Settlement.{
  IsWithin, Settles, proof_size_limit, meter_usage, meter_limit, execute_inner-Settles,
}

abbrev provider : Provider
provider = record {
  P = Unit;
  create_account = λ a q. q;
  remove_account = λ a q. q;
  keccak_256 = λ bytes. 0;
  check_create_origin = λ caller. ok tt;
}

abbrev withdraw : ℕ → ℕ → ℕ → Result Error (ℕ × ℕ)
withdraw who fee funds = if leb fee funds then ok (fee, funds - fee) else err (Error.balance_low)

-- The fee is taken, and what is above the corrected fee is given back.
abbrev wallet : OnCharge
wallet = record {
  Funds = ℕ;
  LiquidityInfo = ℕ;
  withdraw_fee = withdraw;
  correct_and_deposit_fee =
      λ who corrected base paid funds. (corrected - base, funds + (paid - corrected));
  pay_priority_fee = λ tip funds. funds;
}

abbrev fill : Option StorageMeter → Option StorageMeter
fill none = none
fill (some m) = some (record m { usage = m.limit })

fill-fits : (m : Option StorageMeter) → meter_usage (fill m) ≤ meter_limit m
fill-fits none = omega arith
fill-fits (some m) = omega arith

abbrev use_up : Option WeightInfo → Option WeightInfo
use_up none = none
use_up (some w) = some (record w { proof_size_usage = w.proof_size_limit })

-- An executor that uses 21,000 gas and all the storage growth and proof size it may.
abbrev greedy : Executor provider wallet ℕ
greedy = record {
  default = 0;
  is_precompile = λ a gas w. (IsPrecompileResult.answer 1_000, w);
  run = λ s w. record {
    reason = ExitReason.succeed 0;
    value = 7;
    used_gas = min 21_000 s.gas_limit;
    weight_info = use_up s.weight_info;
    storage_meter = fill s.storage_meter;
    deletes = 4 ∷ [];
    logs = [];
    storage_oog = false;
    proof_size_after = none;
    world = w;
  };
}

use_up-fits : (o : Option WeightInfo) → estimated_proof_size (use_up o) ≤ proof_size_limit o
use_up-fits none = omega arith
use_up-fits (some w) = omega arith

greedy-IsWithin :
    (s : Start provider wallet) (w : World provider wallet)
    → IsWithin provider wallet s (greedy.run s w)
greedy-IsWithin s w = record {
  gas = omega arith;
  proof_size = use_up-fits s.weight_info;
  storage = fill-fits s.storage_meter;
}

abbrev world : World provider wallet
world = record {
  accounts = record {
    codes = λ a. none;
    codes_metadata = λ a. none;
    storages = λ a i. 0;
    provider = tt;
  };
  funds = 1_000_000;
  events = [];
}

abbrev call : Call
call = record {
  source = 1;
  gas_limit = 31_000;
  max_fee_per_gas = some 20;
  max_priority_fee_per_gas = some 2;
  is_transactional = true;
  base_fee = 10;
  weight = record { ref_time = 25; proof_size = 0 };
  weight_limit = some (record { ref_time = 1_000; proof_size = 5_000 });
  proof_size_base_cost = some 100;
  measured_proof_size_before = 0;
  storage_growth_ratio = 366;
  pov_size_ratio = 4;
}

-- The storage growth asks for more than the execution: 29,646 gas at a price of 12.
charged_growth : (execute_inner provider wallet greedy call world).0.funds ≡ 644_248
unfolding execute_inner storage_to_gas new
charged_growth = refl

execute_inner-Settles_example :
    Settles provider wallet greedy 30_000 call world
      (execute_inner provider wallet greedy call world)
unfolding new_from_weight_limit
execute_inner-Settles_example =
    execute_inner-Settles provider wallet greedy greedy-IsWithin call world world 1_000
      (some (with_proof_size (record { ref_time = 1_000; proof_size = 5_000 }) 100)) refl refl
      (omega arith)
