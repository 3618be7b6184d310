-- ===== src/Evm/Gas.antt =====
-- `FixedGasWeightMapping` of frame/evm/src/lib.rs: Ethereum gas and Substrate weight.
pub mod Laws
mod Tests
use frontier.Base.{
  ℕ, Bool, true, false, Option, none, some, ◌/◌, ltb, if◌then◌else◌, checked_div, saturating_mul,
  saturating_sub, max_u64,
}
use frontier.Evm.Weight.{Weight}

-- The configuration: `WeightPerGas`, the base weight of a normal extrinsic, and
-- `GasLimitPovSizeRatio`.
pub record GasConfig : Type 0 where
  pub weight_per_gas : Weight
  pub base_extrinsic : Weight
  pub pov_size_ratio : ℕ

abbrev pub scale : Weight → ℕ → Weight
scale w gas = record {
  ref_time = saturating_mul max_u64 w.ref_time gas;
  proof_size = saturating_mul max_u64 w.proof_size gas;
}

abbrev pub without_base : Bool → Weight → Weight → Weight
without_base true base w = record {
  ref_time = saturating_sub w.ref_time base.ref_time;
  proof_size = saturating_sub w.proof_size base.proof_size;
}
without_base false base w = w

unfoldable pub gas_to_weight : GasConfig → ℕ → Bool → Weight
gas_to_weight c gas without_base_weight =
    let w = without_base without_base_weight c.base_extrinsic (scale c.weight_per_gas gas) in
    if ltb 0 c.pov_size_ratio then record w { proof_size = gas / c.pov_size_ratio } else w

-- `none` is the panic of a division by zero.
unfoldable pub weight_to_gas : GasConfig → Weight → Option ℕ
weight_to_gas c w = checked_div w.ref_time c.weight_per_gas.ref_time
