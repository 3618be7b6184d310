-- ===== src/Evm/Meter.antt =====
-- `StorageMeter` of frame/evm/src/runner/meter.rs: the storage growth of one transaction against a
-- limit. H160 and H256 are the numbers that they spell; `H256::default()` is 0.
pub mod Laws
mod Tests
use frontier.Base.{
  ℕ, Bool, true, false, not, ◌&&◌, Option, none, some, List, [], ltb, ◌==◌, if◌then◌else◌,
  checked_add, saturating_sub, saturating_mul, max_u64, contains, insert, pair_eq,
}
use frontier.Evm.Weight.{Result, ok, err}

-- `MeterError::LimitExceeded`. Each return of it follows a call of `set_storage_oog`.
pub data MeterError : Type 0 where
  limit_exceeded : MeterError

pub record StorageMeter : Type 0 where
  pub usage : ℕ
  pub limit : ℕ
  pub recorded_new_entries : List (ℕ × ℕ)

-- `GasCost` and `StorageTarget` of the evm crate, as far as the meter reads them.
pub data GasCost : Type 0 where
  sstore : ℕ → ℕ → ℕ → Bool → GasCost
  other : GasCost

pub data StorageTarget : Type 0 where
  unrelated : StorageTarget
  address : ℕ → StorageTarget
  slot : ℕ → ℕ → StorageTarget

-- `ACCOUNT_STORAGE_PROOF_SIZE`
abbrev pub account_storage_proof_size : ℕ
account_storage_proof_size = 116

unfoldable pub new : ℕ → StorageMeter
new limit = record { usage = 0; limit = limit; recorded_new_entries = [] }

abbrev pub Recorded : Type 0
Recorded = StorageMeter × Result MeterError (Unit {0})

-- `StorageMeter::record`
unfoldable pub record_amount : ℕ → StorageMeter → Recorded
record_amount amount m = elim (checked_add max_u64 m.usage amount) [
  | none ↦ (m, err MeterError.limit_exceeded)
  | some usage ↦
      if ltb m.limit usage
      then (m, err MeterError.limit_exceeded)
      else (record m { usage = usage }, ok tt)
]

abbrev pub remember : ℕ × ℕ → Recorded → Recorded
remember key (m, ok _) =
    (record m { recorded_new_entries = insert key m.recorded_new_entries }, ok tt)
remember key (m, err e) = (m, err e)

-- The slot is charged once in a transaction: when a write first makes it non-zero.
abbrev pub record_new_entry : ℕ × ℕ → ℕ → ℕ → StorageMeter → Recorded
record_new_entry key original value m =
    if not (contains m.recorded_new_entries key) && original == 0 && not (value == 0)
    then remember key (record_amount account_storage_proof_size m)
    else (m, ok tt)

-- The fields of `SStore` are original, current, new and target_is_cold. The opcode is not read.
unfoldable pub record_dynamic_opcode_cost : GasCost → StorageTarget → StorageMeter → Recorded
unfolding record_amount
record_dynamic_opcode_cost (GasCost.sstore original current value cold) (StorageTarget.slot a i) m =
    record_new_entry (a, i) original value m
record_dynamic_opcode_cost (GasCost.sstore _ _ _ _) (StorageTarget.address a) m = (m, ok tt)
record_dynamic_opcode_cost (GasCost.sstore _ _ _ _) StorageTarget.unrelated m = (m, ok tt)
record_dynamic_opcode_cost GasCost.other target m = (m, ok tt)

unfoldable pub available : StorageMeter → ℕ
available m = saturating_sub m.limit m.usage

unfoldable pub storage_to_gas : ℕ → StorageMeter → ℕ
storage_to_gas ratio m = saturating_mul max_u64 m.usage ratio
