-- ===== src/Evm/Runner/Admission.antt =====
-- `Runner::validate` of frame/evm/src/runner/stack.rs against terms in exact arithmetic.
use frontier.Base.{
  ℕ, ◌+◌, ◌*◌, ◌≤◌, ◌<◌, ◌≡◌, true, Option, none, some, refl, ◌↔◌, arith, max_u256, Option-cases,
  inl, inr,
}
use frontier.Evm.Weight.{ok, err, Result}
use frontier.Evm.Runner.Price.{Chain, Request, check, map_err, run_checks, validate}
use frontier.Evm.Validation.{
  Account, CheckEvmTransaction, Gasometer, validate_in_block_for, with_base_fee, with_balance_for,
  gas_covers_data, proof_size_affordable,
}

-- A priority fee, if there is one, is at most the maximal fee.
abbrev pub PriorityFits : Option ℕ → ℕ → Type 0
PriorityFits none max_fee = Unit
PriorityFits (some priority) max_fee = priority ≤ max_fee

-- The terms on which a transaction with a maximal fee (EIP-1559) enters a block, in exact
-- arithmetic.
module _ (g : Gasometer) (c : CheckEvmTransaction g.Config) (who : Account) where
  pub record IsAdmissible (max_fee : ℕ) : Type 0 where
    pub fee : c.transaction.max_fee_per_gas ≡ some max_fee
    pub priority : PriorityFits c.transaction.max_priority_fee_per_gas max_fee
    pub nonce : c.transaction.nonce ≡ who.nonce
    pub proof_size : proof_size_affordable c.weight_limit c.proof_size_base_cost ≡ true
    pub data_gas : gas_covers_data g c ≡ true
    pub gas_limit : c.transaction.gas_limit ≤ c.config.block_gas_limit
    pub base_fee : c.config.base_fee ≤ max_fee
    pub funds : c.transaction.value + max_fee * c.transaction.gas_limit ≤ who.balance

  -- In exact arithmetic, for a transaction without a gas price and a balance that is not the
  -- largest U256.
  run_checks-IsAdmissible :
      c.config.is_transactional ≡ true
      → c.transaction.gas_price ≡ none
      → who.balance < max_u256
      → run_checks g c who ≡ ok tt
      → (max_fee : ℕ) × IsAdmissible max_fee
  unfolding validate_in_block_for with_base_fee with_balance_for
  run_checks-IsAdmissible t p b h = elim (Option-cases c.transaction.max_fee_per_gas) [
    | inl missing ↦ absurd (ground arith)
    | inr (max_fee, e) ↦ (max_fee, ground arith)
  ]

  IsAdmissible-run_checks :
      (max_fee : ℕ)
      → c.config.is_transactional ≡ true
      → c.transaction.gas_price ≡ none
      → who.balance < max_u256
      → IsAdmissible max_fee
      → run_checks g c who ≡ ok tt
  unfolding validate_in_block_for with_base_fee with_balance_for
  IsAdmissible-run_checks max_fee t p b a =
      elim (Option-cases c.transaction.max_priority_fee_per_gas) [
        | inl without ↦ ground (arith, a.fee, a.nonce)
        | inr (priority, e) ↦ ground (arith, a.fee, a.nonce)
      ]

map_err-eq-ok :
    {E F : Type 0} (f : E → F) (m : Result E (Unit {0})) → map_err f m ≡ ok tt → m ≡ ok tt
map_err-eq-ok f (ok a) h = refl
map_err-eq-ok f (err e) h = absurd (ground arith)

-- The runner validates a transactional request exactly when it is admissible: its nonce is the
-- account's, its proof size and data are paid for, its gas limit is within the block's, its maximal
-- fee covers the base fee and the priority fee, and the account holds the value and the largest fee
-- in exact arithmetic. This holds for accounts whose balance is below the largest U256.
pub validate-IsAdmissible :
    (g : Gasometer) (config : g.Config) (chain : Chain) (r : Request)
    → r.is_transactional ≡ true
    → (chain.account_basic r.source).balance < max_u256
    → (validate g config chain r ≡ ok tt) ↔ (
        (max_fee : ℕ) × IsAdmissible g
          (check config chain r)
          (chain.account_basic r.source)
          max_fee)
unfolding validate
validate-IsAdmissible g config chain r t b =
    let c = check config chain r in
    let who = chain.account_basic r.source in
    (
      (λ h. run_checks-IsAdmissible g c who t refl b (map_err-eq-ok _ (run_checks g c who) h)),
      (λ a. rw (IsAdmissible-run_checks g c who a.0 t refl b a.1)),
    )
