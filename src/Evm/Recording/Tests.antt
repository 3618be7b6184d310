-- ===== src/Evm/Recording/Tests.antt =====
-- Runs of the recording interface.
use frontier.Base.{◌≡◌, refl, none, some, List, [], ◌∷◌, arith}
use frontier.Evm.Weight.{
  ok, WeightInfo, try_record_proof_size_or_fail, try_consume, refund_proof_size,
}
use frontier.Evm.Meter.{StorageTarget, GasCost}
use frontier.Evm.Accounts.{Provider, Accounts, account_code_metadata}
use frontier.Evm.Accounts.Laws.{IsCoherent}
use frontier.Evm.Recording.{
  Meters, RecordingState, Opcode, ExternalOperation, record_address_code_read,
  record_external_dynamic_opcode_cost, record_opcode,
}
use frontier.Evm.Recording.Within.{IsValid, Call, run_calls, run_calls-IsValid}
use frontier.Evm.Recording.Reads.{
  Paid, first_read, record_address_code_read-Paid, slot_recorded_once,
}

-- A provider whose hash is the same for all codes.
abbrev provider : Provider
provider = record {
  P = Unit;
  create_account = λ a p. p;
  remove_account = λ a p. p;
  keccak_256 = λ bytes. 0xc5d2460186f7233c927e7db2dcc703c0e500b653ca82273b7bfad8045d85a470;
  check_create_origin = λ caller. ok tt;
}

-- Every account has a code of three bytes, not cached.
abbrev accounts : Accounts provider
accounts = record {
  codes = λ a. some (96 ∷ 1 ∷ 2 ∷ []);
  codes_metadata = λ a. none;
  storages = λ a i. 0;
  provider = tt;
}

accounts-IsCoherent : IsCoherent provider accounts
accounts-IsCoherent a meta h = absurd (ground arith)

abbrev weight : WeightInfo
weight = record {
  ref_time_limit = some 1000;
  proof_size_limit = some 50_000;
  ref_time_usage = some 0;
  proof_size_usage = some 100;
}

abbrev meters : Meters provider
meters = record {
  weight = weight;
  recorded = record { account_codes = []; account_storages = [] };
  accounts = accounts;
}

abbrev state : RecordingState provider
state = record {
  weight_info = some weight;
  recorded = record { account_codes = []; account_storages = [] };
  storage_meter = some (record { usage = 0; limit = 300; recorded_new_entries = [] });
  accounts = accounts;
}

state-IsValid : IsValid provider state
state-IsValid = record { weight = ground arith; meter = ground arith }

-- The estimate of 24,576 bytes is charged and given back but for the three bytes of the code.
read_cost : (record_address_code_read provider 24_576 7 meters).0.weight.proof_size_usage ≡ some 272
unfolding record_address_code_read try_record_proof_size_or_fail try_consume refund_proof_size
    account_code_metadata
read_cost = refl

record_address_code_read-Paid_example :
    Paid provider 272 (record_address_code_read provider 24_576 7 meters)
record_address_code_read-Paid_example =
    record_address_code_read-Paid provider 24_576 7 100 50_000 meters refl accounts-IsCoherent refl
      refl refl (ground arith)

abbrev calls : List (Call provider)
calls =
    Call.operation 24_576 (ExternalOperation.address_code_read 7)
    ∷ Call.dynamic 24_576 Opcode.sload GasCost.other (StorageTarget.slot 7 1)
    ∷ Call.cost (some 2000) none (some 100)
    ∷ Call.refund (some 50) none
    ∷ []

run_calls-IsValid_example : IsValid provider (run_calls provider calls state)
run_calls-IsValid_example = run_calls-IsValid provider calls state state-IsValid

slot_recorded_once_example :
    record_external_dynamic_opcode_cost provider 24_576 Opcode.sload GasCost.other
      (StorageTarget.slot 7 1)
      (first_read provider 24_576 7 1 state).0
    ≡ ((first_read provider 24_576 7 1 state).0, ok tt)
unfolding record_external_dynamic_opcode_cost record_opcode try_record_proof_size_or_fail
    try_consume
slot_recorded_once_example =
    slot_recorded_once provider 24_576 7 1 Opcode.sload state refl (ground arith) refl
