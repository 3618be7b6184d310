-- ===== src/Fees/DynamicFee/Tests.antt =====
-- Runs of the dynamic fee pallet.
use frontier.Base.{◌≡◌, refl, none, some, arith}
use frontier.Fees.DynamicFee.{State, Dispatch, Origin, note_min_gas_price_target}
use frontier.Fees.DynamicFee.Laws.{
  Approaches, HasPrice, run_block, run_blocks, run_block-Approaches, run_blocks-HasPrice,
}

abbrev at_100 : State
at_100 = record { min_gas_price = 100; target_min_gas_price = none }

second_target :
    note_min_gas_price_target Origin.unsigned 7
      (record { min_gas_price = 100; target_min_gas_price = some 6 })
    ≡ Dispatch.panic
unfolding note_min_gas_price_target
second_target = refl

run_block-Approaches_example : Approaches 10 150 at_100 (run_block 10 150 at_100)
run_block-Approaches_example =
    run_block-Approaches 10 150 at_100 (omega arith) (omega arith) (omega arith)

run_blocks-HasPrice_example : HasPrice 103 (run_blocks 3 10 103 at_100)
run_blocks-HasPrice_example =
    run_blocks-HasPrice 3 10 103 at_100 (omega arith) (omega arith) (omega arith) (omega arith)
