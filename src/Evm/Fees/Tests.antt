-- ===== src/Evm/Fees/Tests.antt =====
-- Runs of the fee adapter, on balances.
use frontier.Base.{◌≡◌, refl, arith, some}
use frontier.Evm.Fees.{correct_and_deposit_fee}
use frontier.Evm.Fees.Laws.{Splits, correct_and_deposit_fee-Splits}
use frontier.Ethereum.Instances.{funds_of, is_ledger, ledger}

correct_and_deposit_fee-Splits_example :
    Splits ledger 9 is_ledger 1 600_000 210_000 252_000
      (funds_of 400_000)
      (correct_and_deposit_fee ledger 9 1 252_000 210_000 (some 600_000) (funds_of 400_000))
correct_and_deposit_fee-Splits_example =
    correct_and_deposit_fee-Splits ledger 9 is_ledger 1 600_000 210_000 252_000 (funds_of 400_000)
      (omega arith) (omega arith)

-- The refund is 348,000, and the tip what is above the base fee.
divided :
    (correct_and_deposit_fee ledger 9 1 252_000 210_000 (some 600_000) (funds_of 400_000)).0
    ≡ some 42_000
unfolding correct_and_deposit_fee
divided = refl
