-- ===== src/Evm/Gas/Tests.antt =====
-- Runs of the gas mapping.
use frontier.Base.{◌≡◌, refl, true}
use frontier.Evm.Gas.{GasConfig, gas_to_weight}

abbrev config : GasConfig
config = record {
  weight_per_gas = record { ref_time = 20_000; proof_size = 0 };
  base_extrinsic = record { ref_time = 5_000_000; proof_size = 0 };
  pov_size_ratio = 4;
}

without_base_weight :
    gas_to_weight config 30_002 true ≡ record { ref_time = 595_040_000; proof_size = 7_500 }
unfolding gas_to_weight
without_base_weight = refl
