-- ===== src/Fees/DynamicFee.antt =====
-- The dynamic fee pallet, frame/dynamic-fee/src/lib.rs: block authors move the minimal gas price
-- towards a target, by a bounded amount in each block. `none` is a panic.
pub mod Laws
mod Tests
use frontier.Base.{
  ℕ, ◌+◌, ◌/◌, Bool, true, false, Option, none, some, min, max, leb, ◌==◌, if◌then◌else◌,
  saturating_add, saturating_sub, max_u256,
}

pub record State : Type 0 where
  pub min_gas_price : ℕ
  pub target_min_gas_price : Option ℕ

unfoldable pub genesis : ℕ → State
genesis price = record { min_gas_price = price; target_min_gas_price = none }

unfoldable pub on_initialize : State → State
on_initialize s = record s { target_min_gas_price = none }

-- `MinGasPrice / MinGasPriceBoundDivisor + 1` in U256: the division panics at 0, the sum above the
-- largest value.
unfoldable pub price_bound : ℕ → ℕ → Option ℕ
price_bound divisor price =
    if divisor == 0
    then none
    else if leb (price / divisor + 1) max_u256
    then some (price / divisor + 1)
    else none

abbrev pub clamp_to : ℕ → ℕ → ℕ → ℕ
clamp_to price bound target =
    min (saturating_add max_u256 price bound) (max (saturating_sub price bound) target)

abbrev pub approach : Option ℕ → ℕ → State → Option State
approach none target s = none
approach (some bound) target s =
    some (record {
      min_gas_price = clamp_to s.min_gas_price bound target;
      target_min_gas_price = none;
    })

abbrev pub finalize : ℕ → Option ℕ → State → Option State
unfolding price_bound
finalize divisor none s = some s
finalize divisor (some target) s = approach (price_bound divisor s.min_gas_price) target s

unfoldable pub on_finalize : ℕ → State → Option State
unfolding finalize
on_finalize divisor s = finalize divisor s.target_min_gas_price s

pub data Origin : Type 0 where
  unsigned : Origin
  other : ℕ → Origin

pub data Dispatch : Type 0 where
  done : State → Dispatch
  bad_origin : Dispatch
  panic : Dispatch

-- A second target in a block fails the assertion.
abbrev pub note_target : Option ℕ → ℕ → State → Dispatch
note_target none target s = Dispatch.done (record s { target_min_gas_price = some target })
note_target (some earlier) target s = Dispatch.panic

unfoldable pub note_min_gas_price_target : Origin → ℕ → State → Dispatch
note_min_gas_price_target Origin.unsigned target s = note_target s.target_min_gas_price target s
note_min_gas_price_target (Origin.other who) target s = Dispatch.bad_origin

-- `FeeCalculator::min_gas_price`, without its weight.
unfoldable pub min_gas_price : State → ℕ
min_gas_price s = s.min_gas_price
