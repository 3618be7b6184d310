-- ===== src/Fees/BaseFee.antt =====
-- The base fee pallet, frame/base-fee/src/lib.rs. A `Permill` is its parts, at most a million.
-- Weights that only report costs are left out.
pub mod Laws
mod Tests
use frontier.Base.{
  ℕ, ◌+◌, ◌-◌, ◌*◌, ◌/◌, ◌≤◌, Bool, true, false, Option, none, some, List, [], ◌∷◌, ◌++◌, min, max,
  ltb, leb, ◌==◌, if◌then◌else◌, checked_mul, checked_div, saturating_add, saturating_sub,
  unwrap_or, max_u256,
}

abbrev pub million : ℕ
million = 1_000_000

-- `Permill` of sp-arithmetic, on parts: `from_rational`, and the division and product of two
-- fractions. A result is a fraction, and a product is at most its first factor.
pub record Permill : Type 0 where
  pub from_rational : ℕ → ℕ → ℕ
  pub div : ℕ → ℕ → ℕ
  pub mul : ℕ → ℕ → ℕ
  pub div_le : (a b : ℕ) → div a b ≤ million
  pub mul_le : (a b : ℕ) → mul a b ≤ a

-- `Permill::from_parts`
abbrev pub from_parts : ℕ → ℕ
from_parts n = min n million

-- The pallet's configuration: `BaseFeeThreshold` and `DefaultBaseFeePerGas`. The thresholds are in
-- order, as `clamp` asks of them.
pub record Config : Type 0 where
  pub lower : ℕ
  pub ideal : ℕ
  pub upper : ℕ
  pub default_base_fee : ℕ
  pub lower_le_upper : lower ≤ upper

pub data Event : Type 0 where
  new_base_fee_per_gas : ℕ → Event
  base_fee_overflow : Event
  new_elasticity : ℕ → Event

pub record State : Type 0 where
  pub base_fee_per_gas : ℕ
  pub elasticity : ℕ
  pub events : List Event

abbrev pub deposit_event : Event → State → State
deposit_event e s = record s { events = s.events ++ e ∷ [] }

-- `build` of the genesis configuration.
unfoldable pub genesis : ℕ → ℕ → State
genesis base_fee elasticity = record {
  base_fee_per_gas = base_fee;
  elasticity = elasticity;
  events = [];
}

-- `checked_div(1_000_000).unwrap_or_else(U256::zero)`
abbrev pub normalize : ℕ → ℕ
normalize scaled = unwrap_or (checked_div scaled million) 0

-- The lowest base fee: the default one, scaled by the ideal fullness.
unfoldable pub lowest_base_fee : Config → ℕ
lowest_base_fee c =
    unwrap_or
      (checked_div (unwrap_or (checked_mul max_u256 c.default_base_fee c.ideal) c.default_base_fee)
        million)
      c.default_base_fee

-- The two closures of `mutate`, on what `checked_mul` of the base fee and the coefficient gave.
abbrev pub increased : Option ℕ → State → State
increased none s = deposit_event Event.base_fee_overflow s
increased (some scaled) s = record s {
  base_fee_per_gas = saturating_add max_u256 s.base_fee_per_gas (normalize scaled);
}

abbrev pub decreased : ℕ → Option ℕ → State → State
decreased lowest none s = deposit_event Event.base_fee_overflow s
decreased lowest (some scaled) s =
    let bf = saturating_sub s.base_fee_per_gas (normalize scaled) in
    record s { base_fee_per_gas = if leb lowest bf then bf else lowest }

module _ (p : Permill) (c : Config) where
  -- The fullness of the block, clamped to the thresholds and scaled to the range between them.
  unfoldable pub usage : ℕ → ℕ → ℕ
  usage weight max_weight =
      p.div (max c.lower (min c.upper (p.from_rational weight max_weight)) - c.lower)
        (c.upper - c.lower)

  -- What is left of the elasticity at a distance from the target.
  abbrev pub coefficient : ℕ → ℕ → ℕ
  coefficient elasticity distance = p.mul elasticity (from_parts (distance * 2))

  -- Towards the fee for a block of this usage.
  abbrev pub adjust : ℕ → State → State
  unfolding lowest_base_fee
  adjust used s =
      if ltb c.ideal used
      then increased
          (checked_mul max_u256 s.base_fee_per_gas (coefficient s.elasticity (used - c.ideal))) s
      else if ltb used c.ideal
      then decreased (lowest_base_fee c)
          (checked_mul max_u256 s.base_fee_per_gas (coefficient s.elasticity (c.ideal - used))) s
      else s

  -- `on_finalize`, from the block's weight and the maximal one.
  unfoldable pub on_finalize : ℕ → ℕ → State → State
  unfolding usage adjust
  on_finalize weight max_weight s =
      if s.elasticity == 0 then s else adjust (usage weight max_weight) s

pub data Origin : Type 0 where
  root : Origin
  other : ℕ → Origin

unfoldable pub set_base_fee_per_gas_inner : ℕ → State → State
set_base_fee_per_gas_inner value s = record s { base_fee_per_gas = value }

unfoldable pub set_elasticity_inner : ℕ → State → State
set_elasticity_inner value s = record s { elasticity = value }

-- The calls: `none` is the error `BadOrigin`.
unfoldable pub set_base_fee_per_gas : Origin → ℕ → State → Option State
unfolding set_base_fee_per_gas_inner
set_base_fee_per_gas Origin.root fee s =
    some (deposit_event (Event.new_base_fee_per_gas fee) (set_base_fee_per_gas_inner fee s))
set_base_fee_per_gas (Origin.other who) fee s = none

unfoldable pub set_elasticity : Origin → ℕ → State → Option State
unfolding set_elasticity_inner
set_elasticity Origin.root elasticity s =
    some (deposit_event (Event.new_elasticity elasticity) (set_elasticity_inner elasticity s))
set_elasticity (Origin.other who) elasticity s = none

-- `FeeCalculator::min_gas_price`, without its weight.
unfoldable pub min_gas_price : State → ℕ
min_gas_price s = s.base_fee_per_gas
