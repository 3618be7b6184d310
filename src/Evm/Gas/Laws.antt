-- ===== src/Evm/Gas/Laws.antt =====
-- The two directions of the gas mapping in frame/evm/src/lib.rs against each other.
use frontier.Base.{
  ℕ, ◌+◌, ◌*◌, ◌/◌, ◌≤◌, ◌<◌, ◌≡◌, Bool, false, some, arith, lt→ltb, max_u64, ap, subst, ◌∙◌,
}
use native.Mathlib.Nat.{div-mul-le_self, mul-div_left, mul_comm, lt-mul-div-succ}
use frontier.Evm.Gas.{GasConfig, gas_to_weight, weight_to_gas}

-- With a weight for each gas, and a total that is a u64, the gas of the weight of some gas is that
-- gas, the base weight included.
pub weight_to_gas-gas_to_weight :
    (c : GasConfig) (gas : ℕ)
    → 1 ≤ c.weight_per_gas.ref_time
    → c.weight_per_gas.ref_time * gas ≤ max_u64
    → weight_to_gas c (gas_to_weight c gas false) ≡ some gas
unfolding gas_to_weight weight_to_gas
weight_to_gas-gas_to_weight c gas pos fits =
    let r = c.weight_per_gas.ref_time in
    let exact : r * gas / r ≡ gas = ap (λ n. n / r) (mul_comm r gas) ∙ mul-div_left gas pos in
    ground (arith, pos, fits, exact)

-- With a ratio of gas to proof size, the proof size of the weight of some gas is the largest one
-- whose price is within that gas, with or without the base weight.
pub gas_to_weight-proof_size :
    (c : GasConfig) (gas : ℕ) (without_base_weight : Bool)
    → 1 ≤ c.pov_size_ratio
    → let size = (gas_to_weight c gas without_base_weight).proof_size in
      (size * c.pov_size_ratio ≤ gas) × (gas < (size + 1) * c.pov_size_ratio)
unfolding gas_to_weight
gas_to_weight-proof_size c gas without_base_weight pos =
    rw (lt→ltb 0 c.pov_size_ratio pos, gas_to_weight)
      (
        div-mul-le_self gas c.pov_size_ratio,
        subst (λ n. gas < n) (mul_comm c.pov_size_ratio (gas / c.pov_size_ratio + 1))
            (lt-mul-div-succ gas pos),
      )
