-- ===== src/Ethereum/Execute/Laws.antt =====
-- `execute` of frame/ethereum/src/lib.rs after the validation of a block.
use frontier.Base.{ℕ, ◌+◌, ◌*◌, ◌≤◌, ◌<◌, ◌≡◌, true, some, arith, min, max_u256, unwrap_or}
use frontier.Evm.Weight.{ok}
use frontier.Evm.Validation.{Account, transaction_fee_input, with_base_fee, with_balance_for}
use frontier.Evm.Runner.Price.{total_fee_per_gas}
use frontier.Ethereum.Transaction.{Transaction, from_transaction, to_check_input}
use frontier.Ethereum.Execute.{parts}
use frontier.Ethereum.Validation.{Context, check}

-- The fee that the runner takes for a transaction in advance, for `price` and at most `max_fee` per
-- gas: the validation announces the same price.
pub record IsPriced (c : Context) (t : Transaction) (balance max_fee price : ℕ) : Type 0 where
  pub announced : transaction_fee_input (check c (from_transaction t)) ≡ ok (max_fee, some price)
  pub charged :
      total_fee_per_gas true c.chain.base_fee
        (parts t).max_fee_per_gas
        (parts t).max_priority_fee_per_gas
      ≡ some price
  pub above : c.chain.base_fee ≤ price
  pub below : price ≤ max_fee
  pub funds : (parts t).value + max_fee * (parts t).gas_limit ≤ balance

pub priced :
    (c : Context) (t : Transaction) (who : Account)
    → who.balance < max_u256
    → unwrap_or (parts t).max_fee_per_gas 0 ≤ max_u256
    → with_base_fee (check c (from_transaction t)) ≡ ok tt
    → with_balance_for (check c (from_transaction t)) who ≡ ok tt
    → (max_fee : ℕ) × (price : ℕ) × IsPriced c t who.balance max_fee price
unfolding with_base_fee with_balance_for check to_check_input from_transaction parts
    total_fee_per_gas
priced c (Transaction.legacy t) who b m h h' = (t.gas_price, t.gas_price, ground arith)
priced c (Transaction.eip2930 t) who b m h h' = (t.gas_price, t.gas_price, ground arith)
priced c (Transaction.eip1559 t) who b m h h' = (
  t.max_fee_per_gas,
  min (c.chain.base_fee + t.max_priority_fee_per_gas) t.max_fee_per_gas,
  ground arith,
)
priced c (Transaction.eip7702 t) who b m h h' = (
  t.max_fee_per_gas,
  min (c.chain.base_fee + t.max_priority_fee_per_gas) t.max_fee_per_gas,
  ground arith,
)
