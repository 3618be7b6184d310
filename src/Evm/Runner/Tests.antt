-- ===== src/Evm/Runner/Tests.antt =====
-- Runs of the runner's validation and of its price.
use frontier.Base.{ℕ, ◌≤◌, ◌≡◌, ◌↔◌, refl, true, none, some, [], ◌∷◌, arith}
use frontier.Evm.Weight.{ok, Weight}
use frontier.Evm.Validation.{transaction_fee_input, with_base_fee}
use frontier.Evm.Validation.Tests.{by_length}
use frontier.Evm.Runner.Price.{Chain, Request, check, total_fee_per_gas, validate}
use frontier.Evm.Runner.Admission.{IsAdmissible, validate-IsAdmissible}
use frontier.Evm.Runner.Charge.{total_fee_per_gas-fee_input}

abbrev one_read : Weight
one_read = record { ref_time = 25; proof_size = 0 }

abbrev chain : Chain
chain = record {
  base_fee = 10;
  base_fee_weight = one_read;
  account_basic = λ a. record { balance = 600_007; nonce = 3 };
  account_basic_weight = one_read;
  block_gas_limit = 1_000_000;
  chain_id = 42;
}

abbrev request : Request
request = record {
  source = 1;
  target = some 5;
  input = 1 ∷ 2 ∷ [];
  value = 7;
  gas_limit = 30_000;
  max_fee_per_gas = some 20;
  max_priority_fee_per_gas = some 2;
  nonce = none;
  access_list = [];
  authorization_list = [];
  is_transactional = true;
  weight_limit = none;
  proof_size_base_cost = none;
}

-- The request is accepted; with one more to transfer it is not.
accepted : validate by_length tt chain request ≡ ok tt
unfolding validate
accepted = refl

validate-IsAdmissible_example : (validate by_length tt chain request ≡ ok tt) ↔ (
    (max_fee : ℕ) × IsAdmissible by_length (check tt chain request) (chain.account_basic 1) max_fee)
validate-IsAdmissible_example = validate-IsAdmissible by_length tt chain request refl (omega arith)

total_fee_per_gas-fee_input_example :
    (price : ℕ) × (transaction_fee_input (check tt chain request) ≡ ok (20, some price))
    × (total_fee_per_gas true 10 (some 20) (some 2) ≡ some price)
    × (10 ≤ price)
    × (price ≤ 20)
unfolding with_base_fee
total_fee_per_gas-fee_input_example =
    total_fee_per_gas-fee_input (check tt chain request) refl refl refl (ground arith) (omega arith)
      refl
