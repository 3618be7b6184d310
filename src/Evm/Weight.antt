-- ===== src/Evm/Weight.antt =====
-- `WeightInfo` of primitives/evm/src/lib.rs: the reference time and proof size that an EVM
-- execution has used, with their limits. `set_storage_oog` (storage_oog.rs) is always followed by a
-- return of `OutOfGas`, so that error carries whether the flag was raised on the way.
pub mod Laws
mod Tests
use frontier.Base.{
  ℕ, Bool, true, false, Option, none, some, ltb, leb, checked_add, saturating_sub, max_u64,
  if◌then◌else◌,
}

-- `ExitError` of the evm crate, with the errors that this code raises. `out_of_gas raised` stands
-- for `OutOfGas`; `raised` says that `set_storage_oog` was called just before.
pub data ExitError : Type 0 where
  out_of_gas : Bool → ExitError
  out_of_fund : ExitError
  invalid_code : ℕ → ExitError
  other : ℕ → ExitError

-- A Rust `Result<A, E>`.
pub data Result {ℓ κ} (E : Type κ) (A : Type ℓ) : Type (ℓ ⊔ κ) where
  ok : A → Result E A
  err : E → Result E A

-- `Weight` of sp-weights, read by its two components.
pub record Weight : Type 0 where
  pub ref_time : ℕ
  pub proof_size : ℕ

pub record WeightInfo : Type 0 where
  pub ref_time_limit : Option ℕ
  pub proof_size_limit : Option ℕ
  pub ref_time_usage : Option ℕ
  pub proof_size_usage : Option ℕ

abbrev pub with_proof_size : Weight → ℕ → WeightInfo
with_proof_size w base = record {
  ref_time_limit = some w.ref_time;
  proof_size_limit = some w.proof_size;
  ref_time_usage = some 0;
  proof_size_usage = some base;
}

abbrev pub without_proof_size : Weight → WeightInfo
without_proof_size w = record {
  ref_time_limit = some w.ref_time;
  proof_size_limit = none;
  ref_time_usage = some 0;
  proof_size_usage = none;
}

-- The error is the text "must provide Some valid weight limit or None".
unfoldable pub new_from_weight_limit :
    Option Weight → Option ℕ → Result (Unit {0}) (Option WeightInfo)
new_from_weight_limit none base = ok none
new_from_weight_limit (some w) (some base) =
    if leb base w.proof_size then ok (some (with_proof_size w base)) else err tt
new_from_weight_limit (some w) none = ok (some (without_proof_size w))

-- `try_consume(cost, limit, usage)`
unfoldable pub try_consume : ℕ → ℕ → ℕ → Result ExitError ℕ
try_consume cost limit usage = elim (checked_add max_u64 usage cost) [
  | none ↦ err (ExitError.out_of_gas false)
  | some used ↦ if ltb limit used then err (ExitError.out_of_gas true) else ok used
]

-- The usage after a charge, and what the charge returned.
abbrev pub charged : ℕ → Result ExitError ℕ → Option ℕ × Result ExitError (Unit {0})
charged limit (ok used) = (some used, ok tt)
charged limit (err e) = (some limit, err e)

-- Without a usage or without a limit nothing is recorded.
abbrev pub record_usage : Option ℕ → Option ℕ → ℕ → Option ℕ × Result ExitError (Unit {0})
unfolding try_consume
record_usage (some usage) (some limit) cost = charged limit (try_consume cost limit usage)
record_usage (some usage) none cost = (some usage, ok tt)
record_usage none limit cost = (none, ok tt)

unfoldable pub try_record_ref_time_or_fail :
    ℕ → WeightInfo → WeightInfo × Result ExitError (Unit {0})
unfolding record_usage
try_record_ref_time_or_fail cost w =
    let (usage, r) = record_usage w.ref_time_usage w.ref_time_limit cost in
    (record w { ref_time_usage = usage }, r)

unfoldable pub try_record_proof_size_or_fail :
    ℕ → WeightInfo → WeightInfo × Result ExitError (Unit {0})
unfolding record_usage
try_record_proof_size_or_fail cost w =
    let (usage, r) = record_usage w.proof_size_usage w.proof_size_limit cost in
    (record w { proof_size_usage = usage }, r)

abbrev pub refunded : Option ℕ → ℕ → Option ℕ
refunded none amount = none
refunded (some usage) amount = some (saturating_sub usage amount)

unfoldable pub refund_proof_size : ℕ → WeightInfo → WeightInfo
refund_proof_size amount w = record w { proof_size_usage = refunded w.proof_size_usage amount }

unfoldable pub refund_ref_time : ℕ → WeightInfo → WeightInfo
refund_ref_time amount w = record w { ref_time_usage = refunded w.ref_time_usage amount }

abbrev pub remaining : Option ℕ → Option ℕ → Option ℕ
remaining (some usage) (some limit) = some (saturating_sub limit usage)
remaining (some usage) none = none
remaining none limit = none

unfoldable pub remaining_proof_size : WeightInfo → Option ℕ
remaining_proof_size w = remaining w.proof_size_usage w.proof_size_limit

unfoldable pub remaining_ref_time : WeightInfo → Option ℕ
remaining_ref_time w = remaining w.ref_time_usage w.ref_time_limit
