-- ===== src/Ethereum/Transaction.antt =====
-- `Transaction` of the ethereum crate, by the fields that are read, and the `TransactionData` of
-- primitives/ethereum/src/lib.rs. The length of an encoding is a parameter.
use frontier.Base.{ℕ, Bool, true, false, Option, none, some, List, [], map, saturating_add, max_u32}
use frontier.Evm.Validation.{AccessList, AuthorizationList, CheckEvmTransactionInput}

-- `TransactionAction`
pub data Action : Type 0 where
  call : ℕ → Action
  create : Action

-- An item of an authorization list; `authorizing_address` is `none` where it cannot be recovered.
pub record Authorization : Type 0 where
  pub chain_id : ℕ
  pub address : ℕ
  pub nonce : ℕ
  pub authorizing_address : Option ℕ

-- `chain_id` is the one that the signature of a legacy transaction carries.
pub record LegacyTransaction : Type 0 where
  pub nonce : ℕ
  pub gas_price : ℕ
  pub gas_limit : ℕ
  pub action : Action
  pub value : ℕ
  pub input : List ℕ
  pub chain_id : Option ℕ

pub record Eip2930Transaction : Type 0 where
  pub chain_id : ℕ
  pub nonce : ℕ
  pub gas_price : ℕ
  pub gas_limit : ℕ
  pub action : Action
  pub value : ℕ
  pub input : List ℕ
  pub access_list : AccessList

pub record Eip1559Transaction : Type 0 where
  pub chain_id : ℕ
  pub nonce : ℕ
  pub max_priority_fee_per_gas : ℕ
  pub max_fee_per_gas : ℕ
  pub gas_limit : ℕ
  pub action : Action
  pub value : ℕ
  pub input : List ℕ
  pub access_list : AccessList

pub record Eip7702Transaction : Type 0 where
  pub chain_id : ℕ
  pub nonce : ℕ
  pub max_priority_fee_per_gas : ℕ
  pub max_fee_per_gas : ℕ
  pub gas_limit : ℕ
  pub destination : Action
  pub value : ℕ
  pub input : List ℕ
  pub access_list : AccessList
  pub authorization_list : List Authorization

pub data Transaction : Type 0 where
  legacy : LegacyTransaction → Transaction
  eip2930 : Eip2930Transaction → Transaction
  eip1559 : Eip1559Transaction → Transaction
  eip7702 : Eip7702Transaction → Transaction

pub record TransactionData : Type 0 where
  pub action : Action
  pub input : List ℕ
  pub nonce : ℕ
  pub gas_limit : ℕ
  pub gas_price : Option ℕ
  pub max_fee_per_gas : Option ℕ
  pub max_priority_fee_per_gas : Option ℕ
  pub value : ℕ
  pub chain_id : Option ℕ
  pub access_list : AccessList
  pub authorization_list : List Authorization

-- `From<&Transaction> for TransactionData`
unfoldable pub from_transaction : Transaction → TransactionData
from_transaction (Transaction.legacy t) = record {
  action = t.action;
  input = t.input;
  nonce = t.nonce;
  gas_limit = t.gas_limit;
  gas_price = some t.gas_price;
  max_fee_per_gas = none;
  max_priority_fee_per_gas = none;
  value = t.value;
  chain_id = t.chain_id;
  access_list = [];
  authorization_list = [];
}
from_transaction (Transaction.eip2930 t) = record {
  action = t.action;
  input = t.input;
  nonce = t.nonce;
  gas_limit = t.gas_limit;
  gas_price = some t.gas_price;
  max_fee_per_gas = none;
  max_priority_fee_per_gas = none;
  value = t.value;
  chain_id = some t.chain_id;
  access_list = t.access_list;
  authorization_list = [];
}
from_transaction (Transaction.eip1559 t) = record {
  action = t.action;
  input = t.input;
  nonce = t.nonce;
  gas_limit = t.gas_limit;
  gas_price = none;
  max_fee_per_gas = some t.max_fee_per_gas;
  max_priority_fee_per_gas = some t.max_priority_fee_per_gas;
  value = t.value;
  chain_id = some t.chain_id;
  access_list = t.access_list;
  authorization_list = [];
}
from_transaction (Transaction.eip7702 t) = record {
  action = t.destination;
  input = t.input;
  nonce = t.nonce;
  gas_limit = t.gas_limit;
  gas_price = none;
  max_fee_per_gas = some t.max_fee_per_gas;
  max_priority_fee_per_gas = some t.max_priority_fee_per_gas;
  value = t.value;
  chain_id = some t.chain_id;
  access_list = t.access_list;
  authorization_list = t.authorization_list;
}

-- The length of the encoded data with 65 bytes of signature and two indices; `usize` has 32 bits in
-- the runtime's Wasm.
unfoldable pub proof_size_base_cost : (TransactionData → ℕ) → TransactionData → ℕ
proof_size_base_cost encoded_len t =
    saturating_add max_u32 (saturating_add max_u32 (saturating_add max_u32 (encoded_len t) 65) 1) 1

abbrev pub target : Action → Option ℕ
target (Action.call to) = some to
target Action.create = none

-- One authorization, as the checks and the executor take it.
abbrev pub authorization_tuple : Authorization → ℕ × ℕ × ℕ × Option ℕ
authorization_tuple d = (d.chain_id, d.address, d.nonce, d.authorizing_address)

abbrev pub authorization_tuples : List Authorization → AuthorizationList
authorization_tuples = map authorization_tuple

-- `From<TransactionData> for CheckEvmTransactionInput`
unfoldable pub to_check_input : TransactionData → CheckEvmTransactionInput
to_check_input t = record {
  chain_id = t.chain_id;
  to = target t.action;
  input = t.input;
  nonce = t.nonce;
  gas_limit = t.gas_limit;
  gas_price = t.gas_price;
  max_fee_per_gas = t.max_fee_per_gas;
  max_priority_fee_per_gas = t.max_priority_fee_per_gas;
  value = t.value;
  access_list = t.access_list;
  authorization_list = authorization_tuples t.authorization_list;
}

-- `matches!(transaction, Transaction::EIP7702(_))`
abbrev pub is_eip7702 : Transaction → Bool
is_eip7702 (Transaction.legacy t) = false
is_eip7702 (Transaction.eip2930 t) = false
is_eip7702 (Transaction.eip1559 t) = false
is_eip7702 (Transaction.eip7702 t) = true
