-- ===== src/Evm/Validation/Laws.antt =====
-- The checks of primitives/evm/src/validation.rs against each other and against their limits.
use frontier.Base.{◌≤◌, ◌≡◌, ◌↔◌, true, arith, length}
use frontier.Evm.Weight.{ok}
use frontier.Evm.Validation.{
  Account, CheckEvmTransaction, Gasometer, validate_in_block_for, validate_in_pool_for,
  with_eip7702_authorization_list,
}

-- A transaction fits the next block exactly when the pool accepts it and its nonce is not ahead of
-- the account's.
pub validate_in_block-iff_pool :
    (g : Gasometer) (c : CheckEvmTransaction g.Config) (who : Account)
    → (validate_in_block_for g c who ≡ ok tt)
      ↔ ((validate_in_pool_for g c who ≡ ok tt) × (c.transaction.nonce ≤ who.nonce))
unfolding validate_in_block_for validate_in_pool_for
validate_in_block-iff_pool g c who =
    ((λ h. (ground arith, ground arith)), (λ (h, le). ground arith))

-- An EIP-7702 transaction passes exactly when it carries between 1 and 255 authorizations.
pub with_eip7702-iff_length :
    {Config : Type 0} (c : CheckEvmTransaction Config)
    → (with_eip7702_authorization_list c true ≡ ok tt) ↔ (
        (1 ≤ length c.transaction.authorization_list)
        × (length c.transaction.authorization_list ≤ 255))
unfolding with_eip7702_authorization_list
with_eip7702-iff_length c = ((λ h. (ground arith, ground arith)), (λ (lo, hi). ground arith))
