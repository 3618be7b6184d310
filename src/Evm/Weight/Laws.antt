-- ===== src/Evm/Weight/Laws.antt =====
-- Charges and refunds on the `WeightInfo` of primitives/evm/src/lib.rs.
use frontier.Base.{
  ℕ, ◌+◌, ◌≤◌, ◌<◌, ◌≡◌, ◌≢◌, ◌⊎◌, inl, inr, refl, Bool-cases, Option, none, some, List, [], ◌∷◌,
  arith, leb, max_u64,
}
use frontier.Evm.Weight.{
  ExitError, Result, ok, err, Weight, WeightInfo, new_from_weight_limit, try_consume, record_usage,
  refunded, try_record_ref_time_or_fail, try_record_proof_size_or_fail, refund_proof_size,
  refund_ref_time,
}

-- A usage is at most its limit, where there are both, and the limit is a u64.
abbrev pub IsWithin : Option ℕ → Option ℕ → Type 0
IsWithin (some usage) (some limit) = (usage ≤ limit) × (limit ≤ max_u64)
IsWithin (some usage) none = Unit
IsWithin none limit = Unit

pub record IsValid (w : WeightInfo) : Type 0 where
  pub ref_time : IsWithin w.ref_time_usage w.ref_time_limit
  pub proof_size : IsWithin w.proof_size_usage w.proof_size_limit

-- What a charge of `cost` does to one usage. If the sum fits below the limit it is the new usage.
-- If not, the usage becomes the limit and the error is `OutOfGas`, with the flag raised unless the
-- sum overflowed a u64. Without a usage or a limit nothing changes.
abbrev pub Charges : Option ℕ → Option ℕ → ℕ → Option ℕ → Result ExitError (Unit {0}) → Type 0
Charges (some usage) (some limit) cost after r =
    ((usage + cost ≤ limit) × (after ≡ some (usage + cost)) × (r ≡ ok tt))
    ⊎ ((limit < usage + cost)
        × (after ≡ some limit)
        × (r ≡ err (ExitError.out_of_gas (leb (usage + cost) max_u64))))
Charges (some usage) none cost after r = (after ≡ some usage) × (r ≡ ok tt)
Charges none limit cost after r = (after ≡ none) × (r ≡ ok tt)

record_usage-Charges :
    (usage limit : Option ℕ) (cost : ℕ)
    → IsWithin usage limit
    → let (after, r) = record_usage usage limit cost in Charges usage limit cost after r
unfolding try_consume
record_usage-Charges (some usage) (some limit) cost v =
    elim (Bool-cases (leb (usage + cost) limit)) [
      | inl fits ↦ inl (ground arith, ground arith, ground arith)
      | inr over ↦ inr (ground arith, ground arith, ground arith)
    ]
record_usage-Charges (some usage) none cost v = (refl, refl)
record_usage-Charges none limit cost v = (refl, refl)

record_usage-IsWithin :
    (usage limit : Option ℕ) (cost : ℕ)
    → IsWithin usage limit
    → IsWithin (record_usage usage limit cost).0 limit
unfolding try_consume
record_usage-IsWithin (some usage) (some limit) cost v = ground arith
record_usage-IsWithin (some usage) none cost v = tt
record_usage-IsWithin none limit cost v = tt

refunded-IsWithin :
    (usage limit : Option ℕ) (amount : ℕ)
    → IsWithin usage limit
    → IsWithin (refunded usage amount) limit
refunded-IsWithin (some usage) (some limit) amount v = omega arith
refunded-IsWithin (some usage) none amount v = tt
refunded-IsWithin none limit amount v = tt

refunded-record_usage :
    (usage limit : Option ℕ) (cost : ℕ)
    → (record_usage usage limit cost).1 ≡ ok tt
    → limit ≢ none
    → refunded (record_usage usage limit cost).0 cost ≡ usage
unfolding try_consume
refunded-record_usage (some usage) (some limit) cost h n = ground arith
refunded-record_usage (some usage) none cost h n = absurd (n refl)
refunded-record_usage none limit cost h n = refl

-- With a usage within its limit, charging the proof size is exact: a cost that fits is added, and
-- one that does not fit sets the usage to the limit and fails; the reference time stays.
pub try_record_proof_size-Charges :
    (w : WeightInfo) (cost : ℕ)
    → IsValid w
    → let (w', r) = try_record_proof_size_or_fail cost w in
      Charges w.proof_size_usage w.proof_size_limit cost w'.proof_size_usage r
      × (w'.ref_time_usage ≡ w.ref_time_usage)
      × (w'.proof_size_limit ≡ w.proof_size_limit)
      × (w'.ref_time_limit ≡ w.ref_time_limit)
unfolding try_record_proof_size_or_fail
try_record_proof_size-Charges w cost v =
    (record_usage-Charges w.proof_size_usage w.proof_size_limit cost v.proof_size, refl, refl, refl)

-- The operations of a `WeightInfo`, in the order of the source.
pub data Op : Type 0 where
  charge_ref_time charge_proof_size refund_proof refund_time : ℕ → Op

unfoldable pub run_op : Op → WeightInfo → WeightInfo
run_op (Op.charge_ref_time c) w = (try_record_ref_time_or_fail c w).0
run_op (Op.charge_proof_size c) w = (try_record_proof_size_or_fail c w).0
run_op (Op.refund_proof c) w = refund_proof_size c w
run_op (Op.refund_time c) w = refund_ref_time c w

unfoldable pub run_ops : List Op → WeightInfo → WeightInfo
run_ops [] w = w
run_ops (o ∷ os) w = run_ops os (run_op o w)

pub run_op-IsValid : (o : Op) (w : WeightInfo) → IsValid w → IsValid (run_op o w)
unfolding run_op try_record_ref_time_or_fail try_record_proof_size_or_fail refund_proof_size
    refund_ref_time
run_op-IsValid (Op.charge_ref_time c) w v = record {
  ref_time = record_usage-IsWithin _ _ c v.ref_time;
  proof_size = v.proof_size;
}
run_op-IsValid (Op.charge_proof_size c) w v = record {
  ref_time = v.ref_time;
  proof_size = record_usage-IsWithin _ _ c v.proof_size;
}
run_op-IsValid (Op.refund_proof c) w v = record {
  ref_time = v.ref_time;
  proof_size = refunded-IsWithin _ _ c v.proof_size;
}
run_op-IsValid (Op.refund_time c) w v = record {
  ref_time = refunded-IsWithin _ _ c v.ref_time;
  proof_size = v.proof_size;
}

run_ops-IsValid : (os : List Op) (w : WeightInfo) → IsValid w → IsValid (run_ops os w)
unfolding run_ops
run_ops-IsValid [] w v = v
run_ops-IsValid (o ∷ os) w v = run_ops-IsValid os (run_op o w) (run_op-IsValid o w v)

-- Any sequence of charges and refunds on the meter that `new_from_weight_limit` makes from a
-- weight of u64 components leaves both usages within their limits.
pub new-run_ops-IsValid :
    (weight : Weight) (base : Option ℕ) (os : List Op) {w : WeightInfo}
    → weight.ref_time ≤ max_u64
    → weight.proof_size ≤ max_u64
    → new_from_weight_limit (some weight) base ≡ ok (some w)
    → IsValid (run_ops os w)
unfolding new_from_weight_limit
new-run_ops-IsValid weight (some base) os {w} hr hp e = run_ops-IsValid os w (ground arith)
new-run_ops-IsValid weight none os {w} hr hp e = run_ops-IsValid os w (ground arith)

-- Where the proof size is limited, refunding a charge that succeeded gives the meter back as it
-- was before the charge.
pub refund_proof_size-try_record :
    (w : WeightInfo) (cost : ℕ)
    → w.proof_size_limit ≢ none
    → (try_record_proof_size_or_fail cost w).1 ≡ ok tt
    → refund_proof_size cost (try_record_proof_size_or_fail cost w).0 ≡ w
unfolding try_record_proof_size_or_fail refund_proof_size
refund_proof_size-try_record w cost n h =
    let e = refunded-record_usage w.proof_size_usage w.proof_size_limit cost h n in
    λ i. record w { proof_size_usage = e i }
