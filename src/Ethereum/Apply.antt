-- ===== src/Ethereum/Apply.antt =====
-- `apply_validated_transaction` of frame/ethereum/src/lib.rs: a transaction is executed and its
-- receipt becomes pending.
pub mod Receipts
pub mod Sequence
use frontier.Base.{
  ℕ, ◌+◌, ◌-◌, ◌*◌, Bool, true, false, Option, none, some, List, [], ◌∷◌, ◌++◌, length, take, drop,
  min, max, ltb, leb, if◌then◌else◌, saturating_add, saturating_sub, unwrap_or, max_u32, max_u64,
  max_u256,
}
use frontier.Evm.Weight.{Result, ok, err, Weight, WeightInfo}
use frontier.Evm.Gas.{GasConfig, gas_to_weight}
use frontier.Evm.Substate.{Log}
use frontier.Evm.Runner.Execute.{ExecutionInfo, ExitReason}
use frontier.Ethereum.Transaction.{Transaction}
use frontier.Ethereum.Execute.{CallOrCreateInfo, DispatchError, Pallet, execute}
use frontier.Ethereum.Block.{
  Entry, Executed, Outside, Receipt, ReceiptData, Storage, TransactionStatus, logs_bloom,
  receipt_data,
}

-- `PostDispatchInfo`
pub record PostDispatchInfo : Type 0 where
  pub actual_weight : Option Weight
  pub pays_fee : Bool

-- `U256::from_big_endian`
abbrev pub from_big_endian : ℕ → List ℕ → ℕ
from_big_endian acc [] = acc
from_big_endian acc (b ∷ bs) = from_big_endian (acc * 256 + b) bs

-- The message of a revert: at most `limit` bytes of the string that the data encodes, or the data.
-- `usize` has 32 bits in the runtime's Wasm.
unfoldable pub revert_message : ℕ → List ℕ → List ℕ
revert_message limit bytes =
    let message_len = min (from_big_endian 0 (take 32 (drop 36 bytes))) max_u32 in
    let message_end = saturating_add max_u32 68 (min message_len limit) in
    if ltb 68 (length bytes)
    then (if leb message_end (length bytes) then take (message_end - 68) (drop 68 bytes) else bytes)
    else bytes

abbrev pub extra_data : ℕ → ExitReason → List ℕ → List ℕ
extra_data limit (ExitReason.revert kind) bytes = revert_message limit bytes
extra_data limit (ExitReason.succeed kind) bytes = []
extra_data limit (ExitReason.error e) bytes = []
extra_data limit (ExitReason.fatal kind) bytes = []

-- The tuple of the `match info.clone()`; `contract` is the status' contract address.
pub record Outcome : Type 0 where
  pub reason : ExitReason
  pub contract : Option ℕ
  pub logs : List Log
  pub weight_info : Option WeightInfo
  pub standard : ℕ
  pub effective : ℕ
  pub dest : Option ℕ
  pub extra : List ℕ

unfoldable pub outcome : ℕ → Option ℕ → CallOrCreateInfo → Outcome
outcome limit to (CallOrCreateInfo.call info) = record {
  reason = info.exit_reason;
  contract = none;
  logs = info.logs;
  weight_info = info.weight_info;
  standard = info.standard;
  effective = info.effective;
  dest = to;
  extra = extra_data limit info.exit_reason info.value;
}
outcome limit to (CallOrCreateInfo.create info) = record {
  reason = info.exit_reason;
  contract = some info.value;
  logs = info.logs;
  weight_info = info.weight_info;
  standard = info.standard;
  effective = info.effective;
  dest = some info.value;
  extra = [];
}

abbrev pub status_code : ExitReason → ℕ
status_code (ExitReason.succeed kind) = 1
status_code (ExitReason.revert kind) = 0
status_code (ExitReason.error e) = 0
status_code (ExitReason.fatal kind) = 0

-- The proof size that was used replaces the one of the gas.
abbrev pub with_usage : Option WeightInfo → Weight → Weight
with_usage none w = w
with_usage (some info) w = elim info.proof_size_usage [
  | none ↦ w
  | some usage ↦ record w { proof_size = usage }
]

unfoldable pub post_info : GasConfig → Outcome → PostDispatchInfo
post_info config x = record {
  actual_weight = some (
      with_usage x.weight_info
        (gas_to_weight config (max (min x.standard max_u64) (min x.effective max_u64)) true));
  pays_fee = false;
}

module _ (o : Outside) (extra_data_length : ℕ) where
  open o use {bloom, pending}

  unfoldable pub status_of : ℕ → Transaction → ℕ → Option ℕ → Outcome → TransactionStatus bloom
  status_of source transaction index to x = record {
    transaction_hash = o.transaction_hash transaction;
    transaction_index = index;
    from = source;
    to = to;
    contract_address = x.contract;
    logs = x.logs;
    logs_bloom = logs_bloom bloom x.logs bloom.default;
  }

  -- On top of the gas of the receipt before.
  abbrev pub cumulative : Option (Entry bloom) → ℕ → ℕ
  cumulative none effective = effective
  cumulative (some (transaction, status, receipt)) effective =
      saturating_add max_u256 (receipt_data bloom receipt).used_gas effective

  -- A receipt is of the kind of its transaction.
  abbrev pub receipt_of : Transaction → ReceiptData bloom → Receipt bloom
  receipt_of (Transaction.legacy t) d = Receipt.legacy d
  receipt_of (Transaction.eip2930 t) d = Receipt.eip2930 d
  receipt_of (Transaction.eip1559 t) d = Receipt.eip1559 d
  receipt_of (Transaction.eip7702 t) d = Receipt.eip7702 d

  unfoldable pub receipt :
      Transaction → Option (Entry bloom) → TransactionStatus bloom → Outcome → Receipt bloom
  receipt transaction before status x = receipt_of transaction (record {
    status_code = status_code x.reason;
    used_gas = cumulative before x.effective;
    logs_bloom = status.logs_bloom;
    logs = status.logs;
  })

  -- What is kept of an execution.
  unfoldable pub record_execution : ℕ → Transaction → Option ℕ → Outcome → Storage o → Storage o
  record_execution source transaction to x s =
      let index = pending.count s.queue in
      let status = status_of source transaction index to x in
      let before = pending.get (saturating_sub index 1) s.queue in
      record s {
        queue =
            pending.insert index (transaction, status, receipt transaction before status x) s.queue;
        events =
            s.events
            ++ (record {
              from = source;
              to = unwrap_or x.dest 0;
              transaction_hash = o.transaction_hash transaction;
              exit_reason = x.reason;
              extra_data = x.extra;
            }
                ∷ []);
      }

  module _ {W : Type 0} (p : Pallet W) where
    abbrev pub Applied : Type 0
    Applied = (W × Storage o) × Result DispatchError (PostDispatchInfo × CallOrCreateInfo)

    abbrev pub applied :
        ℕ
        → Transaction
        → Storage o
        → W × Result DispatchError (Option ℕ × Option ℕ × CallOrCreateInfo)
        → Applied
    applied source transaction s (w, err e) = ((w, s), err e)
    applied source transaction s (w, ok (to, created, info)) =
        let x = outcome extra_data_length to info in
        ((w, record_execution source transaction to x s), ok (post_info p.gas_config x, info))

    unfoldable pub apply_validated_transaction : ℕ → Transaction → W × Storage o → Applied
    apply_validated_transaction source transaction (w, s) =
        applied source transaction s (execute p source transaction none w)
