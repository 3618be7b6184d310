-- ===== src/Evm/Validation/Tests.antt =====
-- Runs of the checks on a transaction.
use frontier.Base.{ℕ, ◌+◌, ◌*◌, ◌≡◌, refl, true, none, some, [], ◌∷◌, length, leb}
use frontier.Evm.Weight.{ok, err}
use frontier.Evm.Validation.{
  Account, CheckEvmTransaction, Gasometer, TransactionValidationError, with_balance_for,
  transaction_fee_input,
}

-- A gasometer that asks 21,000 for a call or a creation, and 16 for each byte.
abbrev pub by_length : Gasometer
by_length = record {
  Config = Unit;
  Cost = ℕ;
  call_transaction_cost = λ input access authorizations. 21_000 + 16 * length input;
  create_transaction_cost = λ input access authorizations. 53_000 + 16 * length input;
  can_record = λ limit config cost. leb cost limit;
}

abbrev check : CheckEvmTransaction Unit
check = record {
  config = record {
    evm_config = tt;
    block_gas_limit = 1_000_000;
    base_fee = 10;
    chain_id = 42;
    is_transactional = true;
  };
  transaction = record {
    chain_id = some 42;
    to = some 5;
    input = 1 ∷ 2 ∷ [];
    nonce = 3;
    gas_limit = 30_000;
    gas_price = none;
    max_fee_per_gas = some 20;
    max_priority_fee_per_gas = some 2;
    value = 7;
    access_list = [];
    authorization_list = (42, 1, 0, none) ∷ [];
  };
  weight_limit = none;
  proof_size_base_cost = none;
}

abbrev sender : Account
sender = record { balance = 600_007; nonce = 3 }

-- The price is the base fee with the priority fee, and the balance must cover the maximal fee.
effective_price : transaction_fee_input check ≡ ok (20, some 12)
unfolding transaction_fee_input
effective_price = refl

enough : with_balance_for check sender ≡ ok tt
unfolding with_balance_for
enough = refl

one_short :
    with_balance_for check (record { balance = 600_006; nonce = 3 })
    ≡ err TransactionValidationError.balance_too_low
unfolding with_balance_for
one_short = refl
