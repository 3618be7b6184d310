-- ===== src/Evm/Meter/Laws.antt =====
-- Sequences of charges on the meter of frame/evm/src/runner/meter.rs.
use frontier.Base.{
  ℕ, ◌*◌, ◌≤◌, ◌≡◌, ◌≢◌, Bool, true, List, [], ◌∷◌, arith, length, contains, pair_eq,
  contains-insert,
}
use frontier.Evm.Weight.{Result, ok}
use frontier.Evm.Meter.{
  StorageMeter, MeterError, GasCost, StorageTarget, new, record_amount, record_dynamic_opcode_cost,
  account_storage_proof_size,
}

-- The charges that the runner makes on a meter: an amount, or a storage write.
pub data Charge : Type 0 where
  amount : ℕ → Charge
  opcode : GasCost → StorageTarget → Charge

unfoldable pub charge : Charge → StorageMeter → StorageMeter
charge (Charge.amount n) m = (record_amount n m).0
charge (Charge.opcode g t) m = (record_dynamic_opcode_cost g t m).0

unfoldable pub charge_all : List Charge → StorageMeter → StorageMeter
charge_all [] m = m
charge_all (c ∷ cs) m = charge_all cs (charge c m)

-- The usage is within the limit, and pays for every slot that was recorded as new.
pub record IsValid (m : StorageMeter) : Type 0 where
  pub within : m.usage ≤ m.limit
  pub paid : account_storage_proof_size * length m.recorded_new_entries ≤ m.usage

record_amount-IsValid : (n : ℕ) (m : StorageMeter) → IsValid m → IsValid (record_amount n m).0
unfolding record_amount
record_amount-IsValid n m v = ground arith

record_dynamic-IsValid :
    (g : GasCost) (t : StorageTarget) (m : StorageMeter)
    → IsValid m
    → IsValid (record_dynamic_opcode_cost g t m).0
unfolding record_dynamic_opcode_cost
record_dynamic-IsValid (GasCost.sstore o c n cold) (StorageTarget.slot a i) m v = ground arith
record_dynamic-IsValid (GasCost.sstore o c n cold) (StorageTarget.address a) m v = v
record_dynamic-IsValid (GasCost.sstore o c n cold) StorageTarget.unrelated m v = v
record_dynamic-IsValid GasCost.other t m v = v

pub charge-IsValid : (c : Charge) (m : StorageMeter) → IsValid m → IsValid (charge c m)
unfolding charge
charge-IsValid (Charge.amount n) m v = record_amount-IsValid n m v
charge-IsValid (Charge.opcode g t) m v = record_dynamic-IsValid g t m v

charge_all-IsValid : (cs : List Charge) (m : StorageMeter) → IsValid m → IsValid (charge_all cs m)
unfolding charge_all
charge_all-IsValid [] m v = v
charge_all-IsValid (c ∷ cs) m v = charge_all-IsValid cs (charge c m) (charge-IsValid c m v)

-- After any sequence of charges on a new meter, the usage is at most the limit, and at least the
-- price of the slots that were recorded as new.
pub charge_all-new-IsValid : (limit : ℕ) (cs : List Charge) → IsValid (charge_all cs (new limit))
unfolding new
charge_all-new-IsValid limit cs = charge_all-IsValid cs (new limit) (ground arith)

-- A write to a slot that has been recorded in this transaction is free.
record_dynamic-recorded :
    (original current value : ℕ) (cold : Bool) (a i : ℕ) (m : StorageMeter)
    → contains m.recorded_new_entries (a, i) ≡ true
    → record_dynamic_opcode_cost
        (GasCost.sstore original current value cold)
        (StorageTarget.slot a i)
        m
      ≡ (m, ok tt)
unfolding record_dynamic_opcode_cost
record_dynamic-recorded original current value cold a i m h = ground arith

abbrev pub first_write :
    ℕ → ℕ → Bool → ℕ → ℕ → StorageMeter → StorageMeter × Result MeterError (Unit {0})
first_write current value cold a i =
    record_dynamic_opcode_cost (GasCost.sstore 0 current value cold) (StorageTarget.slot a i)

first_write-records :
    (c v : ℕ) (cold : Bool) (a i : ℕ) (m : StorageMeter)
    → v ≢ 0
    → (first_write c v cold a i m).1 ≡ ok tt
    → contains (first_write c v cold a i m).0.recorded_new_entries (a, i) ≡ true
unfolding record_dynamic_opcode_cost
first_write-records c v cold a i m n h =
    ground (arith, contains-insert (a, i) m.recorded_new_entries (a, i))

-- Two writes to one slot cost what the first one does: when the first creates the slot and is
-- accepted, the second leaves the meter as it is, whatever values it carries.
pub record_dynamic_twice :
    (c v o' c' v' : ℕ) (cold cold' : Bool) (a i : ℕ) (m : StorageMeter)
    → v ≢ 0
    → (first_write c v cold a i m).1 ≡ ok tt
    → record_dynamic_opcode_cost
        (GasCost.sstore o' c' v' cold')
        (StorageTarget.slot a i)
        (first_write c v cold a i m).0
      ≡ ((first_write c v cold a i m).0, ok tt)
record_dynamic_twice c v o' c' v' cold cold' a i m n h =
    record_dynamic-recorded o' c' v' cold' a i (first_write c v cold a i m).0
      (first_write-records c v cold a i m n h)
