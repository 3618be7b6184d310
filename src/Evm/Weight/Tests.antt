-- ===== src/Evm/Weight/Tests.antt =====
-- Runs of the weight meter.
use frontier.Base.{◌≡◌, refl, some, List, [], ◌∷◌, arith}
use frontier.Evm.Weight.{
  err, Weight, WeightInfo, with_proof_size, new_from_weight_limit, try_consume,
  try_record_proof_size_or_fail,
}
use frontier.Evm.Weight.Laws.{IsValid, Op, run_ops, new-run_ops-IsValid}

abbrev limits : Weight
limits = record { ref_time = 1000; proof_size = 500 }

abbrev meter : WeightInfo
meter = with_proof_size limits 100

meter-IsValid : IsValid meter
meter-IsValid = ground arith

new_too_small : new_from_weight_limit (some limits) (some 501) ≡ err tt
unfolding new_from_weight_limit
new_too_small = refl

-- A charge that does not fit uses up the limit.
record_over : (try_record_proof_size_or_fail 401 meter).0.proof_size_usage ≡ some 500
unfolding try_record_proof_size_or_fail try_consume
record_over = refl

abbrev ops : List Op
ops = Op.charge_ref_time 700 ∷ Op.charge_proof_size 450 ∷ Op.refund_proof 50 ∷ []

new-run_ops-IsValid_example : IsValid (run_ops ops meter)
unfolding new_from_weight_limit
new-run_ops-IsValid_example =
    new-run_ops-IsValid limits (some 100) ops (omega arith) (omega arith) refl
