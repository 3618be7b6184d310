-- ===== src/Evm/Meter/Tests.antt =====
-- Runs of the storage meter.
use frontier.Base.{◌≡◌, refl, false, List, [], ◌∷◌}
use frontier.Evm.Weight.{err}
use frontier.Evm.Meter.{MeterError, GasCost, StorageTarget, new, record_amount}
use frontier.Evm.Meter.Laws.{IsValid, Charge, charge_all, charge_all-new-IsValid}

abbrev charges : List Charge
charges =
    Charge.opcode (GasCost.sstore 0 0 1 false) (StorageTarget.slot 7 3)
    ∷ Charge.amount 100
    ∷ Charge.opcode (GasCost.sstore 0 1 2 false) (StorageTarget.slot 7 3)
    ∷ []

record_over : record_amount 201 (new 200) ≡ (new 200, err MeterError.limit_exceeded)
unfolding new record_amount
record_over = refl

charge_all-new-IsValid_example : IsValid (charge_all charges (new 200))
charge_all-new-IsValid_example = charge_all-new-IsValid 200 charges
