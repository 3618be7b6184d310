-- ===== src/Evm/Recording/Within.antt =====
-- Sequences of calls of the recording interface in frame/evm/src/runner/stack.rs.
use frontier.Base.{ℕ, Option, none, some, List, [], ◌∷◌}
use frontier.Evm.Weight.{Result, ok, err, WeightInfo}
use frontier.Evm.Weight.Laws as WL
use frontier.Evm.Weight.Laws.{run_op, run_op-IsValid}
use frontier.Evm.Meter.{
  StorageMeter, MeterError, GasCost, StorageTarget, record_amount, record_dynamic_opcode_cost,
}
use frontier.Evm.Meter.Laws as ML
use frontier.Evm.Meter.Laws.{charge-IsValid}
use frontier.Evm.Accounts.{Provider}
use frontier.Evm.Recording.{
  RecordingState, ExternalOperation, Opcode, AccessedStorage, Action, Outcome, ◌>>◌, charge,
  record_address_code_read, record_opcode, with_weight, with_meter, put_meter, then_ok,
  record_external_operation, record_external_dynamic_opcode_cost, record_external_cost,
  write_proof_size, account_basic_proof_size, is_empty_check_proof_size, refund_external_cost,
  code_growth, if_limited, accessed_storage, record_target, charge_ref_time, charge_proof_size,
  grow, refund_weight, record_write, record_cost,
}
use frontier.Evm.Recording.Laws.{
  Keeps, record_opcode-Keeps, record_address_code_read-Keeps, if_limited-Keeps, charge-Keeps,
  >>-Keeps, charge_ref_time-Keeps, charge_proof_size-Keeps,
}

abbrev pub WeightFits : Option WeightInfo → Type 0
WeightFits none = Unit
WeightFits (some w) = WL.IsValid w

abbrev pub MeterFits : Option StorageMeter → Type 0
MeterFits none = Unit
MeterFits (some sm) = ML.IsValid sm

module _ (p : Provider) where
  -- Usages are within their limits, and the storage meter pays for the slots it has recorded.
  pub record IsValid (s : RecordingState p) : Type 0 where
    pub weight : WeightFits s.weight_info
    pub meter : MeterFits s.storage_meter

  abbrev Holds : Outcome p → Type 0
  Holds o = IsValid o.0

  -- A step on the storage meter keeps it valid.
  abbrev KeepsMeter : (StorageMeter → StorageMeter × Result MeterError (Unit {0})) → Type 0
  KeepsMeter k = (sm : StorageMeter) → ML.IsValid sm → ML.IsValid (k sm).0

  with_weight-Holds :
      (o : Option WeightInfo) (k : Action p) (s : RecordingState p)
      → Keeps p k
      → WeightFits o
      → IsValid s
      → Holds (with_weight p o k s)
  with_weight-Holds none k s h w v = v
  with_weight-Holds (some wi) k s h w v = record {
    weight = h (record { weight = wi; recorded = s.recorded; accounts = s.accounts }) w;
    meter = v.meter;
  }

  put_meter-Holds :
      (r : StorageMeter × Result MeterError (Unit {0})) (s : RecordingState p)
      → ML.IsValid r.0
      → IsValid s
      → Holds (put_meter p r s)
  put_meter-Holds (sm, ok _) s h v = record { weight = v.weight; meter = h }
  put_meter-Holds (sm, err _) s h v = record { weight = v.weight; meter = h }

  with_meter-Holds :
      (o : Option StorageMeter) (k : StorageMeter → StorageMeter × Result MeterError (Unit {0}))
      (s : RecordingState p)
      → KeepsMeter k
      → MeterFits o
      → IsValid s
      → Holds (with_meter p o k s)
  with_meter-Holds none k s h m v = v
  with_meter-Holds (some sm) k s h m v = put_meter-Holds (k sm) s (h sm m) v

  then_ok-Holds :
      (o : Outcome p) (k : RecordingState p → Outcome p)
      → Holds o
      → ((s : RecordingState p) → IsValid s → Holds (k s))
      → Holds (then_ok p o k)
  then_ok-Holds (s, ok _) k v h = h s v
  then_ok-Holds (s, err e) k v h = v

  record_amount-KeepsMeter : (n : ℕ) → KeepsMeter (record_amount n)
  unfolding ML.charge
  record_amount-KeepsMeter n sm v = charge-IsValid (ML.Charge.amount n) sm v

  record_dynamic-KeepsMeter :
      (g : GasCost) (t : StorageTarget) → KeepsMeter (record_dynamic_opcode_cost g t)
  unfolding ML.charge
  record_dynamic-KeepsMeter g t sm v = charge-IsValid (ML.Charge.opcode g t) sm v

  grow-KeepsMeter : (growth : Option ℕ) → KeepsMeter (grow p growth)
  grow-KeepsMeter none sm v = v
  grow-KeepsMeter (some n) sm v = record_amount-KeepsMeter n sm v

  record_write-Holds :
      (o : Option WeightInfo) (len : ℕ) (s : RecordingState p)
      → WeightFits o
      → IsValid s
      → Holds (record_write p o len s)
  unfolding record_write
  record_write-Holds none len s w v = v
  record_write-Holds (some wi) len s w v =
      then_ok-Holds (with_weight p (some wi) (charge p write_proof_size) s) _
        (with_weight-Holds (some wi) (charge p write_proof_size) s (charge-Keeps p write_proof_size)
          w v)
        (λ t u.
          with_meter-Holds t.storage_meter (record_amount (code_growth p len)) t
            (record_amount-KeepsMeter _) u.meter u)

  record_external_operation-Holds :
      (limit : ℕ) (op : ExternalOperation) (s : RecordingState p)
      → IsValid s
      → Holds (record_external_operation p limit op s)
  unfolding record_external_operation
  record_external_operation-Holds limit ExternalOperation.account_basic_read s v =
      with_weight-Holds s.weight_info (charge p account_basic_proof_size) s
        (charge-Keeps p account_basic_proof_size) v.weight v
  record_external_operation-Holds limit ExternalOperation.is_empty s v =
      with_weight-Holds s.weight_info (charge p is_empty_check_proof_size) s
        (charge-Keeps p is_empty_check_proof_size) v.weight v
  record_external_operation-Holds limit (ExternalOperation.address_code_read a) s v =
      with_weight-Holds s.weight_info (record_address_code_read p limit a) s
        (record_address_code_read-Keeps p limit a) v.weight v
  record_external_operation-Holds limit (ExternalOperation.delegation_resolution a) s v =
      with_weight-Holds s.weight_info (record_address_code_read p limit a) s
        (record_address_code_read-Keeps p limit a) v.weight v
  record_external_operation-Holds limit (ExternalOperation.write len) s v =
      record_write-Holds s.weight_info len s v.weight v

  record_target-Holds :
      (limit : ℕ) (opcode : Opcode) (target : Option (Option AccessedStorage))
      (s : RecordingState p)
      → IsValid s
      → Holds (record_target p limit opcode target s)
  unfolding record_target
  record_target-Holds limit opcode none s v = v
  record_target-Holds limit opcode (some target) s v =
      with_weight-Holds s.weight_info (if_limited p (record_opcode p limit opcode target)) s
        (if_limited-Keeps p (record_opcode p limit opcode target)
          (record_opcode-Keeps p limit opcode target))
        v.weight v

  record_dynamic-Holds :
      (limit : ℕ) (opcode : Opcode) (g : GasCost) (target : StorageTarget) (s : RecordingState p)
      → IsValid s
      → Holds (record_external_dynamic_opcode_cost p limit opcode g target s)
  unfolding record_external_dynamic_opcode_cost
  record_dynamic-Holds limit opcode g target s v =
      then_ok-Holds (with_meter p s.storage_meter (record_dynamic_opcode_cost g target) s) _
        (with_meter-Holds s.storage_meter (record_dynamic_opcode_cost g target) s
          (record_dynamic-KeepsMeter g target) v.meter v)
        (λ t u. record_target-Holds limit opcode (accessed_storage p target t.recorded) t u)

  record_cost-Holds :
      (o : Option WeightInfo) (ref_time proof_size growth : Option ℕ) (s : RecordingState p)
      → WeightFits o
      → IsValid s
      → Holds (record_cost p o ref_time proof_size growth s)
  record_cost-Holds none ref_time proof_size growth s w v = v
  record_cost-Holds (some wi) ref_time proof_size growth s w v =
      then_ok-Holds
        (with_weight p (some wi)
          (◌>>◌ p (charge_ref_time p ref_time) (charge_proof_size p proof_size)) s)
        _
        (with_weight-Holds (some wi)
          (◌>>◌ p (charge_ref_time p ref_time) (charge_proof_size p proof_size)) s
          (>>-Keeps p (charge_ref_time p ref_time) (charge_proof_size p proof_size)
            (charge_ref_time-Keeps p ref_time) (charge_proof_size-Keeps p proof_size))
          w v)
        (λ t u.
          with_meter-Holds t.storage_meter (grow p growth) t (grow-KeepsMeter growth) u.meter u)

  refund_weight-Fits :
      (o : Option WeightInfo) (ref_time proof_size : Option ℕ)
      → WeightFits o
      → WeightFits (refund_weight p o ref_time proof_size)
  unfolding run_op
  refund_weight-Fits none ref_time proof_size w = w
  refund_weight-Fits (some wi) none none w = w
  refund_weight-Fits (some wi) (some r) none w = run_op-IsValid (WL.Op.refund_time r) wi w
  refund_weight-Fits (some wi) none (some q) w = run_op-IsValid (WL.Op.refund_proof q) wi w
  refund_weight-Fits (some wi) (some r) (some q) w =
      run_op-IsValid (WL.Op.refund_proof q) (run_op (WL.Op.refund_time r) wi)
        (run_op-IsValid (WL.Op.refund_time r) wi w)

  -- The calls that the executor makes on the recording interface.
  pub data Call : Type 0 where
    operation : ℕ → ExternalOperation → Call
    dynamic : ℕ → Opcode → GasCost → StorageTarget → Call
    cost : Option ℕ → Option ℕ → Option ℕ → Call
    refund : Option ℕ → Option ℕ → Call

  unfoldable pub run_call : Call → RecordingState p → RecordingState p
  run_call (Call.operation limit op) s = (record_external_operation p limit op s).0
  run_call (Call.dynamic limit opcode g t) s =
      (record_external_dynamic_opcode_cost p limit opcode g t s).0
  run_call (Call.cost ref_time proof_size growth) s =
      (record_external_cost p ref_time proof_size growth s).0
  run_call (Call.refund ref_time proof_size) s = refund_external_cost p ref_time proof_size s

  unfoldable pub run_calls : List Call → RecordingState p → RecordingState p
  run_calls [] s = s
  run_calls (c ∷ cs) s = run_calls cs (run_call c s)

  run_call-IsValid : (c : Call) (s : RecordingState p) → IsValid s → IsValid (run_call c s)
  unfolding run_call record_external_cost refund_external_cost
  run_call-IsValid (Call.operation limit op) s v = record_external_operation-Holds limit op s v
  run_call-IsValid (Call.dynamic limit opcode g t) s v = record_dynamic-Holds limit opcode g t s v
  run_call-IsValid (Call.cost ref_time proof_size growth) s v =
      record_cost-Holds s.weight_info ref_time proof_size growth s v.weight v
  run_call-IsValid (Call.refund ref_time proof_size) s v = record {
    weight = refund_weight-Fits s.weight_info ref_time proof_size v.weight;
    meter = v.meter;
  }

  -- From a valid state, any sequence of external operations, opcode costs, costs of precompiles and
  -- refunds, failed ones included, ends in a valid state: reference time, proof size and storage
  -- growth are within their limits, and the storage meter covers every slot that it has recorded.
  pub run_calls-IsValid :
      (cs : List Call) (s : RecordingState p) → IsValid s → IsValid (run_calls cs s)
  unfolding run_calls
  run_calls-IsValid [] s v = v
  run_calls-IsValid (c ∷ cs) s v = run_calls-IsValid cs (run_call c s) (run_call-IsValid c s v)
