-- ===== src/Evm/Validation.antt =====
-- `CheckEvmTransaction` of primitives/evm/src/validation.rs. A check returns `ok tt` where the
-- source returns `Ok(self)`.
pub mod Laws
pub mod Tests
use frontier.Base.{
  ℕ, Bool, true, false, not, ◌&&◌, ◌||◌, Option, none, some, List, min, ltb, leb, ◌==◌,
  if◌then◌else◌, length, checked_add, saturating_add, saturating_mul, unwrap_or, max_u64, max_u256,
}
use frontier.Evm.Weight.{Result, ok, err, Weight}

-- `evm::backend::Basic`
pub record Account : Type 0 where
  pub balance : ℕ
  pub nonce : ℕ

abbrev pub AccessList : Type 0
AccessList = List (ℕ × List ℕ)

abbrev pub AuthorizationList : Type 0
AuthorizationList = List (ℕ × ℕ × ℕ × Option ℕ)

pub record CheckEvmTransactionInput : Type 0 where
  pub chain_id : Option ℕ
  pub to : Option ℕ
  pub input : List ℕ
  pub nonce : ℕ
  pub gas_limit : ℕ
  pub gas_price : Option ℕ
  pub max_fee_per_gas : Option ℕ
  pub max_priority_fee_per_gas : Option ℕ
  pub value : ℕ
  pub access_list : AccessList
  pub authorization_list : AuthorizationList

-- The gasometer of the evm crate: the costs of a call and of a creation from their input and
-- lists, and whether a fresh gasometer with a gas limit (a u64) can record a cost.
pub record Gasometer : Type 1 where
  pub Config : Type 0
  pub Cost : Type 0
  pub call_transaction_cost : List ℕ → AccessList → AuthorizationList → Cost
  pub create_transaction_cost : List ℕ → AccessList → AuthorizationList → Cost
  pub can_record : ℕ → Config → Cost → Bool

pub record CheckEvmTransactionConfig (Config : Type 0) : Type 0 where
  pub evm_config : Config
  pub block_gas_limit : ℕ
  pub base_fee : ℕ
  pub chain_id : ℕ
  pub is_transactional : Bool

pub record CheckEvmTransaction (Config : Type 0) : Type 0 where
  pub config : CheckEvmTransactionConfig Config
  pub transaction : CheckEvmTransactionInput
  pub weight_limit : Option Weight
  pub proof_size_base_cost : Option ℕ

pub data TransactionValidationError : Type 0 where
  gas_limit_too_low gas_limit_too_high gas_price_too_low : TransactionValidationError
  priority_fee_too_high balance_too_low : TransactionValidationError
  tx_nonce_too_low tx_nonce_too_high : TransactionValidationError
  invalid_fee_input invalid_chain_id invalid_signature : TransactionValidationError
  empty_authorization_list authorization_list_too_large : TransactionValidationError
  unknown_error : TransactionValidationError

abbrev pub Checked : Type 0 → Type 0
Checked A = Result TransactionValidationError A

infixl 5 ◌>>=◌ ◌>>◌
abbrev pub ◌>>=◌ : {A B : Type 0} → Checked A → (A → Checked B) → Checked B
ok a >>= f = f a
err e >>= f = err e

abbrev pub ◌>>◌ : {A : Type 0} → Checked (Unit {0}) → Checked A → Checked A
m >> k = m >>= λ _. k

-- `if c { return Err(e) }`
abbrev pub fail_if : Bool → TransactionValidationError → Checked (Unit {0})
fail_if true e = err e
fail_if false e = ok tt

-- The cases of `transaction_fee_input` on gas_price, max_fee_per_gas, max_priority_fee_per_gas.
abbrev pub fee_input : Bool → ℕ → Option ℕ → Option ℕ → Option ℕ → Checked (ℕ × Option ℕ)
fee_input transactional base_fee (some price) none none = ok (price, some price)
fee_input transactional base_fee none (some max_fee) none = ok (max_fee, some base_fee)
fee_input transactional base_fee none (some max_fee) (some priority) =
    if ltb max_fee priority
    then err TransactionValidationError.priority_fee_too_high
    else ok
        (max_fee, some (min (unwrap_or (checked_add max_u256 base_fee priority) max_u256) max_fee))
fee_input true base_fee _ _ _ = err TransactionValidationError.invalid_fee_input
fee_input false base_fee _ _ _ = ok (0, none)

abbrev pub max_authorization_list_size : ℕ
max_authorization_list_size = 255

-- `weight_limit.proof_size().checked_sub(proof_size_base_cost)`, where there are both.
abbrev pub proof_size_affordable : Option Weight → Option ℕ → Bool
proof_size_affordable (some limit) (some base) = leb base limit.proof_size
proof_size_affordable (some limit) none = true
proof_size_affordable none base = true

module _ {Config : Type 0} (self : CheckEvmTransaction Config) where
  unfoldable pub transaction_fee_input : Checked (ℕ × Option ℕ)
  transaction_fee_input =
      fee_input self.config.is_transactional self.config.base_fee self.transaction.gas_price
        self.transaction.max_fee_per_gas self.transaction.max_priority_fee_per_gas

  unfoldable pub with_chain_id : Checked (Unit {0})
  with_chain_id = elim self.transaction.chain_id [
    | some chain_id ↦
        fail_if (not (chain_id == self.config.chain_id)) TransactionValidationError.invalid_chain_id
    | none ↦ ok tt
  ]

  unfoldable pub with_base_fee : Checked (Unit {0})
  unfolding transaction_fee_input
  with_base_fee = do
    fees ← transaction_fee_input
    fail_if ((self.config.is_transactional || ltb 0 fees.0) && ltb fees.0 self.config.base_fee)
        TransactionValidationError.gas_price_too_low

  -- `total_payment` is the value and the largest possible fee, each saturating in U256.
  abbrev pub total_payment : ℕ → ℕ
  total_payment max_fee =
      saturating_add max_u256 self.transaction.value
        (saturating_mul max_u256 max_fee self.transaction.gas_limit)

  unfoldable pub with_balance_for : Account → Checked (Unit {0})
  unfolding transaction_fee_input
  with_balance_for who = do
    fees ← transaction_fee_input
    fail_if
        ((self.config.is_transactional
            || ltb 0 (saturating_mul max_u256 fees.0 self.transaction.gas_limit))
          && ltb who.balance (total_payment fees.0))
        TransactionValidationError.balance_too_low

  unfoldable pub with_eip7702_authorization_list : Bool → Checked (Unit {0})
  with_eip7702_authorization_list is_eip7702 =
      if is_eip7702
      then (fail_if (length self.transaction.authorization_list == 0)
            TransactionValidationError.empty_authorization_list
          >> fail_if (ltb max_authorization_list_size (length self.transaction.authorization_list))
              TransactionValidationError.authorization_list_too_large)
      else ok tt

module _ (g : Gasometer) (self : CheckEvmTransaction g.Config) where
  open g use {Cost, call_transaction_cost, create_transaction_cost, can_record}

  -- A call if there is a target, else a creation.
  abbrev pub transaction_cost : Option ℕ → Cost
  transaction_cost (some to) =
      call_transaction_cost self.transaction.input self.transaction.access_list
        self.transaction.authorization_list
  transaction_cost none =
      create_transaction_cost self.transaction.input self.transaction.access_list
        self.transaction.authorization_list

  -- The gasometer starts from the gas limit cut down to a u64.
  abbrev pub gas_covers_data : Bool
  gas_covers_data =
      can_record (min self.transaction.gas_limit max_u64) self.config.evm_config
        (transaction_cost self.transaction.to)

  unfoldable pub validate_common : Checked (Unit {0})
  validate_common =
      if self.config.is_transactional
      then (fail_if (not (proof_size_affordable self.weight_limit self.proof_size_base_cost))
            TransactionValidationError.gas_limit_too_low
          >> fail_if (not gas_covers_data) TransactionValidationError.gas_limit_too_low
          >> fail_if (ltb self.config.block_gas_limit self.transaction.gas_limit)
              TransactionValidationError.gas_limit_too_high)
      else ok tt

  unfoldable pub validate_in_pool_for : Account → Checked (Unit {0})
  unfolding validate_common
  validate_in_pool_for who =
      if ltb self.transaction.nonce who.nonce
      then err TransactionValidationError.tx_nonce_too_low
      else validate_common

  unfoldable pub validate_in_block_for : Account → Checked (Unit {0})
  unfolding validate_common
  validate_in_block_for who =
      if ltb who.nonce self.transaction.nonce
      then err TransactionValidationError.tx_nonce_too_high
      else if ltb self.transaction.nonce who.nonce
      then err TransactionValidationError.tx_nonce_too_low
      else validate_common
