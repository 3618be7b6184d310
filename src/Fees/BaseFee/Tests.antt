-- ===== src/Fees/BaseFee/Tests.antt =====
-- Runs of the base fee pallet.
use frontier.Base.{ℕ, ◌/◌, ◌*◌, ◌≤◌, ◌≡◌, refl, List, [], ◌∷◌, arith, min}
use frontier.Fees.BaseFee.{
  Permill, Config, State, genesis, usage, on_finalize, million, lowest_base_fee,
}
use frontier.Fees.BaseFee.Laws.{
  IsValid, Moves, run_blocks, on_finalize-Moves, run_blocks-genesis-IsValid,
}

mul_fraction_le : (a b : ℕ) → a * min b million / million ≤ a
mul_fraction_le a b =
    let m = min b million in
    let h : m ≤ million = omega arith in let k : a * m ≤ a * million = grind arith in omega arith

-- Fractions that round down, with a denominator of at least 1.
abbrev rounding_down : Permill
rounding_down = record {
  from_rational = λ a b. min (a * million / b) million;
  div = λ a b. min (a * million / b) million;
  mul = λ a b. a * min b million / million;
  div_le = λ a b. omega arith;
  mul_le = mul_fraction_le;
}

abbrev config : Config
config = record {
  lower = 0;
  ideal = 500_000;
  upper = million;
  default_base_fee = 1000;
  lower_le_upper = omega arith;
}

abbrev start : State
start = record { base_fee_per_gas = 1_000_000; elasticity = 125_000; events = [] }

-- A full block raises the fee by an eighth, an empty one lowers it by an eighth.
full_block : (on_finalize rounding_down config 80 80 start).base_fee_per_gas ≡ 1_125_000
unfolding on_finalize
full_block = refl

empty_block : (on_finalize rounding_down config 0 80 start).base_fee_per_gas ≡ 875_000
unfolding on_finalize
empty_block = refl

start-IsValid : IsValid rounding_down config start
unfolding lowest_base_fee
start-IsValid = record { lowest = omega arith; word = omega arith; fraction = omega arith }

on_finalize-Moves_example :
    Moves rounding_down config start
      (on_finalize rounding_down config 80 80 start)
      (usage rounding_down config 80 80)
on_finalize-Moves_example = on_finalize-Moves rounding_down config 80 80 start start-IsValid

abbrev blocks : List (ℕ × ℕ)
blocks = (80, 80) ∷ (0, 80) ∷ (40, 80) ∷ []

run_blocks-genesis-IsValid_example :
    IsValid rounding_down config
      (run_blocks rounding_down config blocks (genesis 1_000_000 125_000))
unfolding lowest_base_fee
run_blocks-genesis-IsValid_example =
    run_blocks-genesis-IsValid rounding_down config blocks 1_000_000 125_000 (omega arith)
      (omega arith) (omega arith)
