-- ===== src/Evm/Fees.antt =====
-- The adapter that pays the fees of a transaction, `EVMFungibleAdapter` of frame/evm/src/lib.rs. The currency is a parameter, with the handler of the base fee. A credit or a
-- debt is its amount; dropping one is written out.
pub mod Laws
pub mod Currency
mod Tests
use frontier.Base.{
  ℕ, Bool, true, false, ◌&&◌, Option, none, some, List, ◌==◌, ltb, if◌then◌else◌, min,
  saturating_sub, ◌≡◌,
}
use frontier.Evm.Weight.{Result, ok, err}
use frontier.Evm.Runner.Execute.{Error, OnCharge}

-- `Imbalance::split` and `Imbalance::offset`, on amounts: `offset` leaves a credit or a debt.
pub record Imbalance : Type 0 where
  pub split : ℕ → ℕ → ℕ × ℕ
  pub offset : ℕ → ℕ → Result ℕ ℕ

-- `fungible::Balanced` with `OnUnbalanced`, on the funds of all accounts.
pub record Balanced : Type 1 where
  pub Funds : Type 0
  pub imbalance : Imbalance
  pub max_balance : ℕ
  pub withdraw : ℕ → ℕ → Funds → Result (Unit {0}) (ℕ × Funds)
  pub deposit : ℕ → ℕ → Funds → Result (Unit {0}) (ℕ × Funds)
  pub drop_credit : ℕ → Funds → Funds
  pub drop_debt : ℕ → Funds → Funds
  pub on_unbalanced : ℕ → Funds → Funds

-- A withdrawal's credit, or `BalanceLow`.
abbrev pub taken : {F : Type 0} → Result (Unit {0}) (ℕ × F) → Result Error (Option ℕ × F)
taken (ok (credit, funds)) = ok (some credit, funds)
taken (err e) = err Error.balance_low

-- A deposit's debt, or none.
abbrev pub or_zero : {F : Type 0} → F → Result (Unit {0}) (ℕ × F) → ℕ × F
or_zero funds (ok (debt, funds')) = (debt, funds')
or_zero funds (err e) = (0, funds)

-- `paid.offset(refund).same().unwrap_or_else(zero)`: a debt that is left is dropped.
abbrev pub adjusted : {F : Type 0} → (ℕ → F → F) → Result ℕ ℕ → F → ℕ × F
adjusted drop (ok credit) funds = (credit, funds)
adjusted drop (err debt) funds = (0, drop debt funds)

-- The credit goes to the handler of the base fee, and the rest is the tip.
abbrev pub ration : {F : Type 0} → (ℕ → F → F) → ℕ × ℕ → F → Option ℕ × F
ration on_unbalanced (base_fee, tip) funds = (some tip, on_unbalanced base_fee funds)

module _ (f : Balanced) (author : ℕ) where
  open f use {Funds, imbalance, max_balance}

  unfoldable pub withdraw_fee : ℕ → ℕ → Funds → Result Error (Option ℕ × Funds)
  withdraw_fee who fee funds =
      if fee == 0 then ok (none, funds) else taken (f.withdraw who (min fee max_balance) funds)

  -- After the refund.
  abbrev pub deposit_fee : ℕ → ℕ → ℕ × Funds → Option ℕ × Funds
  deposit_fee paid base_fee (refund, funds) =
      let (credit, funds') = adjusted f.drop_debt (imbalance.offset paid refund) funds in
      ration f.on_unbalanced (imbalance.split credit (min base_fee max_balance)) funds'

  unfoldable pub correct_and_deposit_fee : ℕ → ℕ → ℕ → Option ℕ → Funds → Option ℕ × Funds
  correct_and_deposit_fee who corrected_fee base_fee none funds = (none, funds)
  correct_and_deposit_fee who corrected_fee base_fee (some paid) funds =
      let refund_amount = saturating_sub paid (min corrected_fee max_balance) in
      deposit_fee paid base_fee (or_zero funds (f.deposit who refund_amount funds))

  -- The debt of the deposit and the tip are both dropped.
  unfoldable pub pay_priority_fee : Option ℕ → Funds → Funds
  pay_priority_fee none funds = funds
  pay_priority_fee (some tip) funds =
      let (debt, funds') = or_zero funds (f.deposit author tip funds) in
      f.drop_credit tip (f.drop_debt debt funds')

  abbrev pub fungible_adapter : OnCharge
  fungible_adapter = record {
    Funds = Funds;
    LiquidityInfo = Option ℕ;
    withdraw_fee = withdraw_fee;
    correct_and_deposit_fee = correct_and_deposit_fee;
    pay_priority_fee = pay_priority_fee;
  }
