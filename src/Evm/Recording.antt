-- ===== src/Evm/Recording.antt =====
-- The external costs that `SubstrateStackState` of frame/evm/src/runner/stack.rs records: proof
-- size and reference time in the weight info, storage growth in the storage meter, and what has
-- been recorded already. `create_contract_limit` of the gasometer's configuration is an argument
-- (0 where there is none).
pub mod Laws
pub mod Within
pub mod Reads
mod Tests
use frontier.Base.{
  ℕ, ◌+◌, Bool, true, false, Option, none, some, List, [], ◌∷◌, ◌++◌, length, min, ltb, ◌==◌,
  if◌then◌else◌, contains, insert, nat_eq, pair_eq, saturating_add, saturating_sub, max_u64,
}
use frontier.Evm.Weight.{
  ExitError, Result, ok, err, WeightInfo, try_record_proof_size_or_fail,
  try_record_ref_time_or_fail, refund_proof_size, refund_ref_time, remaining_proof_size,
}
use frontier.Evm.Meter.{
  StorageMeter, MeterError, GasCost, StorageTarget, account_storage_proof_size, record_amount,
  record_dynamic_opcode_cost,
}
use frontier.Evm.Accounts.{Provider, Accounts, CodeMetadata, code, account_code_metadata}

abbrev pub account_basic_proof_size : ℕ
account_basic_proof_size = 108

abbrev pub account_codes_metadata_proof_size : ℕ
account_codes_metadata_proof_size = 76

abbrev pub write_proof_size : ℕ
write_proof_size = 32

abbrev pub is_empty_check_proof_size : ℕ
is_empty_check_proof_size = 93

abbrev pub account_codes_key_size : ℕ
account_codes_key_size = 36

-- `Recorded`; of the map `account_storages` only the keys are read.
pub record Recorded : Type 0 where
  pub account_codes : List ℕ
  pub account_storages : List (ℕ × ℕ)

-- `ExternalOperation` and the opcodes that the recording tells apart.
pub data ExternalOperation : Type 0 where
  account_basic_read is_empty : ExternalOperation
  address_code_read delegation_resolution : ℕ → ExternalOperation
  write : ℕ → ExternalOperation

pub data Opcode : Type 0 where
  balance extcodesize extcodecopy extcodehash : Opcode
  callcode call delegatecall staticcall : Opcode
  sload sstore create create2 suicide : Opcode
  other : ℕ → Opcode

-- `AccessedStorage`, where the target is new.
pub data AccessedStorage : Type 0 where
  account_codes : ℕ → AccessedStorage
  account_storages : ℕ × ℕ → AccessedStorage

module _ (p : Provider) where
  -- What the recording works on while there is a weight info.
  pub record Meters : Type 0 where
    pub weight : WeightInfo
    pub recorded : Recorded
    pub accounts : Accounts p

  pub record RecordingState : Type 0 where
    pub weight_info : Option WeightInfo
    pub recorded : Recorded
    pub storage_meter : Option StorageMeter
    pub accounts : Accounts p

  abbrev pub Action : Type 0
  Action = Meters → Meters × Result ExitError (Unit {0})

  abbrev pub return : Action
  return s = (s, ok tt)

  abbrev pub fail : ExitError → Action
  fail e s = (s, err e)

  abbrev pub after :
      Meters × Result ExitError (Unit {0}) → Action → Meters × Result ExitError (Unit {0})
  after (s, ok _) k = k s
  after (s, err e) k = (s, err e)

  infixr 5 ◌>>◌
  abbrev pub ◌>>◌ : Action → Action → Action
  ◌>>◌ m k s = after (m s) k

  -- `weight_info.try_record_proof_size_or_fail(cost)?`
  abbrev pub charge : ℕ → Action
  charge cost s =
      let (w, r) = try_record_proof_size_or_fail cost s.weight in (record s { weight = w }, r)

  abbrev pub refund : ℕ → Action
  refund amount s = (record s { weight = refund_proof_size amount s.weight }, ok tt)

  abbrev pub push_code : ℕ → Action
  push_code a s = (
    record s {
      recorded = record (s.recorded) { account_codes = s.recorded.account_codes ++ a ∷ [] };
    },
    ok tt,
  )

  abbrev pub add_slot : ℕ × ℕ → Action
  add_slot key s = (
    record s {
      recorded = record (s.recorded) { account_storages = insert key s.recorded.account_storages };
    },
    ok tt,
  )

  -- Once `estimate` has been charged: the real size of the code takes its place.
  abbrev pub settle : Bool → ℕ → CodeMetadata × Accounts p → Action
  settle raised estimate (meta, accounts) s =
      if ltb estimate meta.size
      then (record s { accounts = accounts }, err (ExitError.out_of_gas raised))
      else refund (saturating_sub estimate meta.size) (record s { accounts = accounts })

  -- Charge an estimate, look the size up, and refund the difference. `raised` says whether a code
  -- above the estimate raises the storage flag.
  abbrev pub charge_estimate : Bool → ℕ → ℕ → Action
  charge_estimate raised estimate a =
      charge estimate >> (λ s. settle raised estimate (account_code_metadata p a s.accounts) s)

  abbrev pub charge_known_or : Option CodeMetadata → Action → Action
  charge_known_or (some meta) unknown = charge meta.size
  charge_known_or none unknown = unknown

  -- The charges for the code of an account that has some.
  abbrev pub charge_code : ℕ → ℕ → Option CodeMetadata → Action
  charge_code limit a known =
      charge account_codes_metadata_proof_size
      >> (charge_known_or known (charge_estimate true limit a) >> push_code a)

  -- Nothing for a recorded address; only the emptiness check for an account without code.
  unfoldable pub record_address_code_read : ℕ → ℕ → Action
  record_address_code_read limit a s =
      (if contains s.recorded.account_codes a
          then return
          else (charge is_empty_check_proof_size
              >> (if length (code p s.accounts a) == 0
                  then return
                  else charge_code limit a (s.accounts.codes_metadata a))))
        s

  -- The closure `record_account_codes_proof_size`, with what is left of the proof size.
  abbrev pub charge_remaining : Option ℕ → ℕ → ℕ → Action
  charge_remaining none size_limit a = return
  charge_remaining (some remaining) size_limit a =
      charge_estimate false (min remaining size_limit) a

  abbrev pub base_size : Bool → ℕ
  base_size true =
      saturating_add max_u64 account_codes_metadata_proof_size is_empty_check_proof_size
  base_size false = account_codes_metadata_proof_size

  -- The estimate is cut down to what remains; a code above it is an error without the flag.
  abbrev pub charge_size : ℕ → ℕ → Action
  charge_size size_limit a s =
      charge_known_or (s.accounts.codes_metadata a)
        (charge_remaining (remaining_proof_size s.weight) size_limit a) s

  unfoldable pub record_account_codes_proof_size : ℕ → ℕ → Bool → Action
  record_account_codes_proof_size size_limit a empty_check =
      charge (base_size empty_check) >> charge_size size_limit a

  -- What an opcode costs at a target that has not been recorded.
  abbrev pub with_code : Option AccessedStorage → (ℕ → Action) → Action
  with_code (some (AccessedStorage.account_codes a)) k = k a
  with_code (some (AccessedStorage.account_storages key)) k = return
  with_code none k = return

  abbrev pub with_slot : Option AccessedStorage → (ℕ × ℕ → Action) → Action
  with_slot (some (AccessedStorage.account_codes a)) k = return
  with_slot (some (AccessedStorage.account_storages key)) k = k key
  with_slot none k = return

  abbrev pub read_code : ℕ → Bool → Option AccessedStorage → Action
  unfolding record_account_codes_proof_size
  read_code size_limit empty_check target =
      with_code target
        (λ a. record_account_codes_proof_size size_limit a empty_check >> push_code a)

  abbrev pub touch_slot : ℕ → Option AccessedStorage → Action
  touch_slot cost target = with_slot target (λ key. charge cost >> add_slot key)

  unfoldable pub record_opcode : ℕ → Opcode → Option AccessedStorage → Action
  unfolding read_code
  record_opcode size_limit Opcode.balance target = charge account_basic_proof_size
  record_opcode size_limit Opcode.extcodesize target = read_code size_limit false target
  record_opcode size_limit Opcode.extcodecopy target = read_code size_limit false target
  record_opcode size_limit Opcode.extcodehash target = read_code size_limit false target
  record_opcode size_limit Opcode.callcode target = read_code size_limit true target
  record_opcode size_limit Opcode.call target = read_code size_limit true target
  record_opcode size_limit Opcode.delegatecall target = read_code size_limit true target
  record_opcode size_limit Opcode.staticcall target = read_code size_limit true target
  record_opcode size_limit Opcode.sload target = touch_slot account_storage_proof_size target
  record_opcode size_limit Opcode.sstore target =
      touch_slot (saturating_add max_u64 write_proof_size account_storage_proof_size) target
  record_opcode size_limit Opcode.create target = charge write_proof_size
  record_opcode size_limit Opcode.create2 target = charge write_proof_size
  record_opcode size_limit Opcode.suicide target = charge is_empty_check_proof_size
  record_opcode size_limit (Opcode.other n) target = return

  abbrev pub Outcome : Type 0
  Outcome = RecordingState × Result ExitError (Unit {0})

  abbrev pub put_meters : Meters × Result ExitError (Unit {0}) → RecordingState → Outcome
  put_meters (m, r) s =
      (record s { weight_info = some m.weight; recorded = m.recorded; accounts = m.accounts }, r)

  -- `if let Some(weight_info) = weight_info { … }`
  abbrev pub with_weight : Option WeightInfo → Action → RecordingState → Outcome
  with_weight none k s = (s, ok tt)
  with_weight (some w) k s =
      put_meters (k (record { weight = w; recorded = s.recorded; accounts = s.accounts })) s

  -- A charge on the storage meter, if there is one; its error becomes `OutOfGas`.
  abbrev pub put_meter : StorageMeter × Result MeterError (Unit {0}) → RecordingState → Outcome
  put_meter (sm, ok _) s = (record s { storage_meter = some sm }, ok tt)
  put_meter (sm, err _) s = (record s { storage_meter = some sm }, err (ExitError.out_of_gas true))

  abbrev pub with_meter :
      Option StorageMeter
      → (StorageMeter → StorageMeter × Result MeterError (Unit {0}))
      → RecordingState
      → Outcome
  with_meter none k s = (s, ok tt)
  with_meter (some sm) k s = put_meter (k sm) s

  abbrev pub then_ok : Outcome → (RecordingState → Outcome) → Outcome
  then_ok (s, ok _) k = k s
  then_ok (s, err e) k = (s, err e)

  -- `len.as_u64()` wants a length that fits.
  abbrev pub code_growth : ℕ → ℕ
  code_growth len =
      saturating_add max_u64
        (saturating_add max_u64 account_codes_key_size account_codes_metadata_proof_size) len

  -- With a weight info a write is charged, then the meter; without one nothing happens.
  abbrev pub record_write : Option WeightInfo → ℕ → RecordingState → Outcome
  unfolding record_amount
  record_write none len s = (s, ok tt)
  record_write (some w) len s =
      then_ok (with_weight (some w) (charge write_proof_size) s)
        (λ t. with_meter t.storage_meter (record_amount (code_growth len)) t)

  unfoldable pub record_external_operation : ℕ → ExternalOperation → RecordingState → Outcome
  unfolding record_address_code_read record_write
  record_external_operation limit ExternalOperation.account_basic_read s =
      with_weight s.weight_info (charge account_basic_proof_size) s
  record_external_operation limit ExternalOperation.is_empty s =
      with_weight s.weight_info (charge is_empty_check_proof_size) s
  record_external_operation limit (ExternalOperation.address_code_read a) s =
      with_weight s.weight_info (record_address_code_read limit a) s
  record_external_operation limit (ExternalOperation.delegation_resolution a) s =
      with_weight s.weight_info (record_address_code_read limit a) s
  record_external_operation limit (ExternalOperation.write len) s = record_write s.weight_info len s

  -- The target, unless it is recorded: `none` is the early return.
  abbrev pub accessed_storage : StorageTarget → Recorded → Option (Option AccessedStorage)
  accessed_storage (StorageTarget.address a) r =
      if contains r.account_codes a then none else some (some (AccessedStorage.account_codes a))
  accessed_storage (StorageTarget.slot a i) r =
      if contains r.account_storages (a, i)
      then none
      else some (some (AccessedStorage.account_storages (a, i)))
  accessed_storage StorageTarget.unrelated r = some none

  -- Without a limit on the proof size nothing is recorded.
  abbrev pub if_limited : Action → Action
  if_limited k s = elim s.weight.proof_size_limit [ none ↦ (s, ok tt) | some limit ↦ k s ]

  abbrev pub record_target : ℕ → Opcode → Option (Option AccessedStorage) → RecordingState → Outcome
  unfolding record_opcode
  record_target limit opcode none s = (s, ok tt)
  record_target limit opcode (some target) s =
      with_weight s.weight_info (if_limited (record_opcode limit opcode target)) s

  unfoldable pub record_external_dynamic_opcode_cost :
      ℕ → Opcode → GasCost → StorageTarget → RecordingState → Outcome
  unfolding record_target record_dynamic_opcode_cost
  record_external_dynamic_opcode_cost limit opcode gas_cost target s =
      then_ok (with_meter s.storage_meter (record_dynamic_opcode_cost gas_cost target) s)
        (λ t. record_target limit opcode (accessed_storage target t.recorded) t)

  abbrev pub charge_ref_time : Option ℕ → Action
  charge_ref_time none s = (s, ok tt)
  charge_ref_time (some amount) s =
      let (w, r) = try_record_ref_time_or_fail amount s.weight in (record s { weight = w }, r)

  abbrev pub charge_proof_size : Option ℕ → Action
  charge_proof_size none s = (s, ok tt)
  charge_proof_size (some amount) s = charge amount s

  abbrev pub grow : Option ℕ → StorageMeter → StorageMeter × Result MeterError (Unit {0})
  grow none sm = (sm, ok tt)
  grow (some amount) sm = record_amount amount sm

  abbrev pub record_cost :
      Option WeightInfo → Option ℕ → Option ℕ → Option ℕ → RecordingState → Outcome
  record_cost none ref_time proof_size storage_growth s = (s, ok tt)
  record_cost (some w) ref_time proof_size storage_growth s =
      then_ok (with_weight (some w) (charge_ref_time ref_time >> charge_proof_size proof_size) s)
        (λ t. with_meter t.storage_meter (grow storage_growth) t)

  -- Without a weight info no storage growth is recorded either.
  unfoldable pub record_external_cost : Option ℕ → Option ℕ → Option ℕ → RecordingState → Outcome
  record_external_cost ref_time proof_size storage_growth s =
      record_cost s.weight_info ref_time proof_size storage_growth s

  abbrev pub refund_opt : (ℕ → WeightInfo → WeightInfo) → Option ℕ → WeightInfo → WeightInfo
  refund_opt f none w = w
  refund_opt f (some amount) w = f amount w

  abbrev pub refund_weight : Option WeightInfo → Option ℕ → Option ℕ → Option WeightInfo
  refund_weight none ref_time proof_size = none
  refund_weight (some w) ref_time proof_size =
      some (refund_opt refund_proof_size proof_size (refund_opt refund_ref_time ref_time w))

  unfoldable pub refund_external_cost : Option ℕ → Option ℕ → RecordingState → RecordingState
  refund_external_cost ref_time proof_size s = record s {
    weight_info = refund_weight s.weight_info ref_time proof_size;
  }
