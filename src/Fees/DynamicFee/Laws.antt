-- ===== src/Fees/DynamicFee/Laws.antt =====
-- Whole blocks of frame/dynamic-fee/src/lib.rs, whose authors name a target.
use frontier.Base.{ℕ, zero, suc, ◌+◌, ◌-◌, ◌/◌, ◌≤◌, ◌≡◌, Option, none, some, arith, max_u256}
use frontier.Fees.DynamicFee.{
  State, Origin, Dispatch, on_initialize, on_finalize, note_min_gas_price_target,
}

abbrev pub and_then : Dispatch → (State → Option State) → Option State
and_then (Dispatch.done s) k = k s
and_then Dispatch.bad_origin k = none
and_then Dispatch.panic k = none

-- A block whose inherent notes a target.
unfoldable pub run_block : ℕ → ℕ → State → Option State
unfolding on_initialize on_finalize note_min_gas_price_target
run_block divisor target s =
    and_then (note_min_gas_price_target Origin.unsigned target (on_initialize s))
      (on_finalize divisor)

-- The distance between two prices.
abbrev pub distance : ℕ → ℕ → ℕ
distance a b = (a - b) + (b - a)

-- What a block does: no panic; the target is used up; the price moves by at most the bound, never
-- past the target, and it moves unless it is there.
abbrev pub Approaches : ℕ → ℕ → State → Option State → Type 0
Approaches divisor target s none = ⊥
Approaches divisor target s (some s') =
    (s'.target_min_gas_price ≡ none)
    × (distance s.min_gas_price s'.min_gas_price ≤ s.min_gas_price / divisor + 1)
    × (distance s.min_gas_price s'.min_gas_price + distance s'.min_gas_price target
        ≡ distance s.min_gas_price target)
    × (distance s'.min_gas_price target ≤ distance s.min_gas_price target - 1)
    × (s'.min_gas_price ≤ max_u256)

-- With a divisor of at least 2, and a price and a target that are U256 values, a block that notes
-- the target runs without a panic, whatever target was left over; the price moves by at most
-- price / divisor + 1, straight towards the target and not past it, and at least by 1 unless it is
-- there.
pub run_block-Approaches :
    (divisor target : ℕ) (s : State)
    → 2 ≤ divisor
    → target ≤ max_u256
    → s.min_gas_price ≤ max_u256
    → Approaches divisor target s (run_block divisor target s)
unfolding run_block
run_block-Approaches divisor target s d t p = ground arith

abbrev pub and_run : Option State → (State → Option State) → Option State
and_run none k = none
and_run (some s) k = k s

-- `n` blocks whose authors all note the same target.
unfoldable pub run_blocks : ℕ → ℕ → ℕ → State → Option State
run_blocks zero divisor target s = some s
run_blocks (suc n) divisor target s =
    and_run (run_block divisor target s) (run_blocks n divisor target)

abbrev pub HasPrice : ℕ → Option State → Type 0
HasPrice price none = ⊥
HasPrice price (some s) = s.min_gas_price ≡ price

-- With a divisor of at least 2, and a price and a target that are U256 values: as many blocks as
-- the price is away from the target, or more, bring the price to the target and hold it there.
pub run_blocks-HasPrice :
    (n divisor target : ℕ) (s : State)
    → 2 ≤ divisor
    → target ≤ max_u256
    → s.min_gas_price ≤ max_u256
    → distance s.min_gas_price target ≤ n
    → HasPrice target (run_blocks n divisor target s)
unfolding run_blocks
run_blocks-HasPrice zero divisor target s d t p near = omega arith
run_blocks-HasPrice (suc n) divisor target s d t p near =
    go (run_blocks-HasPrice n divisor target) (run_block divisor target s)
      (run_block-Approaches divisor target s d t p)
  where
    go :
        ((s' : State)
          → 2 ≤ divisor
          → target ≤ max_u256
          → s'.min_gas_price ≤ max_u256
          → distance s'.min_gas_price target ≤ n
          → HasPrice target (run_blocks n divisor target s'))
        → (o : Option State) → Approaches divisor target s o
        → HasPrice target (and_run o (run_blocks n divisor target))
    go later none h = h
    go later (some s') h = later s' d t h.4 (omega arith)
