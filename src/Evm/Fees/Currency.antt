-- ===== src/Evm/Fees/Currency.antt =====
-- The adapter `EVMCurrencyAdapter` of frame/evm/src/lib.rs, on a currency with imbalances, which is a
-- parameter.
use frontier.Base.{ℕ, Bool, ◌&&◌, Option, none, some, ◌==◌, ltb, if◌then◌else◌, min, saturating_sub}
use frontier.Evm.Weight.{Result, ok}
use frontier.Evm.Runner.Execute.{Error, OnCharge}
use frontier.Evm.Fees.{Imbalance, adjusted, or_zero, ration, taken}

-- The part of `Currency` that `EVMCurrencyAdapter` uses; `make_free_balance_be` answers with its
-- positive imbalance, if it is one.
pub record Currency : Type 1 where
  pub Funds : Type 0
  pub imbalance : Imbalance
  pub max_balance : ℕ
  pub minimum_balance : ℕ
  pub total_balance : ℕ → Funds → ℕ
  pub withdraw : ℕ → ℕ → Funds → Result (Unit {0}) (ℕ × Funds)
  pub deposit_into_existing : ℕ → ℕ → Funds → Result (Unit {0}) (ℕ × Funds)
  pub make_free_balance_be : ℕ → ℕ → Funds → Option ℕ × Funds
  pub drop_negative : ℕ → Funds → Funds
  pub drop_positive : ℕ → Funds → Funds
  pub on_unbalanced : ℕ → Funds → Funds

module _ (c : Currency) (author : ℕ) where
  open c use {Funds, imbalance, max_balance}

  unfoldable pub withdraw_fee : ℕ → ℕ → Funds → Result Error (Option ℕ × Funds)
  withdraw_fee who fee funds =
      if fee == 0 then ok (none, funds) else taken (c.withdraw who (min fee max_balance) funds)

  -- A refund to an account that has become empty, where there is no existential deposit.
  abbrev pub needs_revival : ℕ → ℕ → Funds → Bool
  needs_revival who refund funds =
      c.minimum_balance == 0 && (ltb 0 refund && c.total_balance who funds == 0)

  abbrev pub positive : Option ℕ × Funds → ℕ × Funds
  positive (none, funds) = (0, funds)
  positive (some p, funds) = (p, funds)

  -- The refund again, in place of the imbalance of the first, which is dropped.
  abbrev pub revive : ℕ → ℕ → ℕ × Funds → ℕ × Funds
  revive who refund_amount (refund, funds) =
      if needs_revival who refund_amount funds
      then (let (p, funds') = positive (c.make_free_balance_be who refund_amount funds) in
          (p, c.drop_positive refund funds'))
      else (refund, funds)

  -- After the refund.
  abbrev pub deposit_fee : ℕ → ℕ → ℕ × Funds → Option ℕ × Funds
  deposit_fee paid base_fee (refund, funds) =
      let (credit, funds') = adjusted c.drop_positive (imbalance.offset paid refund) funds in
      ration c.on_unbalanced (imbalance.split credit (min base_fee max_balance)) funds'

  unfoldable pub correct_and_deposit_fee : ℕ → ℕ → ℕ → Option ℕ → Funds → Option ℕ × Funds
  correct_and_deposit_fee who corrected_fee base_fee none funds = (none, funds)
  correct_and_deposit_fee who corrected_fee base_fee (some paid) funds =
      let refund_amount = saturating_sub paid (min corrected_fee max_balance) in
      deposit_fee paid base_fee
        (revive who refund_amount (or_zero funds (c.deposit_into_existing who refund_amount funds)))

  -- The imbalance of the deposit and the tip are both dropped.
  unfoldable pub pay_priority_fee : Option ℕ → Funds → Funds
  pay_priority_fee none funds = funds
  pay_priority_fee (some tip) funds =
      let (p, funds') = or_zero funds (c.deposit_into_existing author tip funds) in
      c.drop_negative tip (c.drop_positive p funds')

  abbrev pub currency_adapter : OnCharge
  currency_adapter = record {
    Funds = Funds;
    LiquidityInfo = Option ℕ;
    withdraw_fee = withdraw_fee;
    correct_and_deposit_fee = correct_and_deposit_fee;
    pay_priority_fee = pay_priority_fee;
  }
