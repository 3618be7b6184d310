-- ===== src/Evm/Runner/Charge.antt =====
-- The price of `execute_inner` (frame/evm/src/runner/stack.rs) against the one that the checks of
-- primitives/evm/src/validation.rs announce.
use frontier.Base.{
  ℕ, ◌+◌, ◌≤◌, ◌≡◌, ◌≢◌, true, none, some, arith, min, max_u256, Option-cases, inl, inr,
}
use frontier.Evm.Weight.{ok}
use frontier.Evm.Runner.Price.{total_fee_per_gas}
use frontier.Evm.Validation.{CheckEvmTransaction, transaction_fee_input, with_base_fee}

-- For a transactional check without a gas price and with a maximal fee that is not zero, which
-- passes `with_base_fee`: the price that the runner charges is the effective price that
-- `transaction_fee_input` announced, and it lies between the base fee and the maximal fee.
pub total_fee_per_gas-fee_input :
    {Config : Type 0} (c : CheckEvmTransaction Config) {max_fee : ℕ}
    → c.config.is_transactional ≡ true
    → c.transaction.gas_price ≡ none
    → c.transaction.max_fee_per_gas ≡ some max_fee
    → max_fee ≢ 0
    → max_fee ≤ max_u256
    → with_base_fee c ≡ ok tt
    → (price : ℕ) × (transaction_fee_input c ≡ ok (max_fee, some price))
      × (total_fee_per_gas true c.config.base_fee c.transaction.max_fee_per_gas
            c.transaction.max_priority_fee_per_gas
          ≡ some price)
      × (c.config.base_fee ≤ price)
      × (price ≤ max_fee)
unfolding with_base_fee total_fee_per_gas
total_fee_per_gas-fee_input c {max_fee} t p f n b h =
    elim (Option-cases c.transaction.max_priority_fee_per_gas) [
      | inl without ↦ (c.config.base_fee, ground arith, ground arith, ground arith, ground arith)
      | inr (priority, e) ↦ (
        min (c.config.base_fee + priority) max_fee,
        ground arith,
        ground arith,
        ground arith,
        ground arith,
      )
    ]
