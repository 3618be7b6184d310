-- ===== src/Evm/Fees/Laws.antt =====
-- The balances behind `EVMFungibleAdapter` of frame/evm/src/lib.rs.
use frontier.Base.{
  ℕ, ◌+◌, ◌-◌, ◌≤◌, ◌≡◌, refl, arith, Option, none, some, min, saturating_sub, ◌==◌, Bool-cases,
  inl, inr,
}
use frontier.Evm.Weight.{Result, ok, err}
use frontier.Evm.Fees.{Balanced, correct_and_deposit_fee, or_zero, pay_priority_fee, withdraw_fee}

-- What a currency keeps: a withdrawal within the reducible balance, which moves exactly its amount,
-- deposits, and imbalances, on accounts with a `balance`; the `issuance` counts all credits and
-- debts that are dropped.
pub record IsLedger (f : Balanced) : Type 0 where
  pub balance : ℕ → f.Funds → ℕ
  pub reducible : ℕ → f.Funds → ℕ
  pub issuance : f.Funds → ℕ
  pub reducible_le : (who : ℕ) (funds : f.Funds) → reducible who funds ≤ f.max_balance
  pub withdrawn :
      (who amount : ℕ) (funds : f.Funds)
      → amount ≤ reducible who funds
      → (funds' : f.Funds) × (f.withdraw who amount funds ≡ ok (amount, funds'))
        × (balance who funds' + amount ≡ balance who funds)
        × (issuance funds' ≡ issuance funds)
  pub deposited :
      (who amount : ℕ) (funds : f.Funds) {debt : ℕ} {funds' : f.Funds}
      → f.deposit who amount funds ≡ ok (debt, funds')
      → (debt ≤ amount)
        × (balance who funds' ≡ balance who funds + debt)
        × (issuance funds' ≡ issuance funds)
  pub split :
      (credit amount : ℕ) → f.imbalance.split credit amount ≡ (min amount credit, credit - amount)
  pub offset :
      (credit debt : ℕ) → debt ≤ credit → f.imbalance.offset credit debt ≡ ok (credit - debt)
  pub issuance-drop_credit :
      (n : ℕ) (funds : f.Funds) → issuance (f.drop_credit n funds) ≡ issuance funds - n
  pub issuance-drop_debt :
      (n : ℕ) (funds : f.Funds) → issuance (f.drop_debt n funds) ≡ issuance funds + n

module _ (f : Balanced) (author : ℕ) (l : IsLedger f) where
  open l use {balance, reducible, issuance}

  -- Any fee within the reducible balance can be withdrawn.
  pub withdraw_fee-Succeeds :
      (who fee : ℕ) (funds : f.Funds)
      → fee ≤ reducible who funds
      → (paid : Option ℕ) × (funds' : f.Funds) × (withdraw_fee f author who fee funds
          ≡ ok (paid, funds'))
        × (balance who funds' + fee ≡ balance who funds)
  unfolding withdraw_fee
  withdraw_fee-Succeeds who fee funds le =
      let most = l.reducible_le who funds in
      let same : min fee f.max_balance ≡ fee = omega (arith, le, most) in
      elim (Bool-cases (fee == 0)) [
        | inl zero ↦ (none, funds, rw zero refl, ground (arith, zero))
        | inr positive ↦
            let (funds', e, moved, _) = l.withdrawn who fee funds le in
            (some fee, funds', rw (positive, same, e) refl, moved)
      ]

  deposit-outcome :
      (who amount : ℕ) (funds : f.Funds) (r : Result (Unit {0}) (ℕ × f.Funds))
      → f.deposit who amount funds ≡ r
      → ((or_zero funds r).0 ≤ amount)
        × (balance who (or_zero funds r).1 ≡ balance who funds + (or_zero funds r).0)
        × (issuance (or_zero funds r).1 ≡ issuance funds)
  deposit-outcome who amount funds (ok (debt, funds')) e = l.deposited who amount funds e
  deposit-outcome who amount funds (err u) e = (omega arith, omega arith, refl)

  -- A deposit that may fail.
  or_zero-deposit :
      (who amount : ℕ) (funds : f.Funds)
      → let r = or_zero funds (f.deposit who amount funds) in
        (r.0 ≤ amount)
        × (balance who r.1 ≡ balance who funds + r.0)
        × (issuance r.1 ≡ issuance funds)
  or_zero-deposit who amount funds =
      deposit-outcome who amount funds (f.deposit who amount funds) refl

  -- How a fee that was paid is divided.
  pub record Splits (who paid base_fee corrected : ℕ) (funds : f.Funds) (r : Option ℕ × f.Funds)
      : Type 0 where
    pub refund : ℕ
    pub share : ℕ
    pub tip : ℕ
    pub refunded : f.Funds
    pub result : r ≡ (some tip, f.on_unbalanced share refunded)
    pub refund_le : refund ≤ paid - corrected
    pub to_sender : balance who refunded ≡ balance who funds + refund
    pub share_min : share ≡ min base_fee (paid - refund)
    pub whole : refund + share + tip ≡ paid

  -- The correction of a fee that was paid in advance, at most the largest balance and no less than
  -- the corrected fee: at most the difference goes back to the sender, whose balance grows by
  -- exactly that; of what is left the handler of the base fee gets the base fee, or all if that is
  -- less, and the rest is the tip: nothing of the payment is lost, also where the refund fails.
  pub correct_and_deposit_fee-Splits :
      (who paid base_fee corrected : ℕ) (funds : f.Funds)
      → paid ≤ f.max_balance
      → corrected ≤ paid
      → Splits who paid base_fee corrected funds
          (correct_and_deposit_fee f author who corrected base_fee (some paid) funds)
  unfolding correct_and_deposit_fee
  correct_and_deposit_fee-Splits who paid base_fee corrected funds most le =
      let amount = saturating_sub paid (min corrected f.max_balance) in
      let r = or_zero funds (f.deposit who amount funds) in
      let (small, to_sender, _) = or_zero-deposit who amount funds in
      let back : f.imbalance.offset paid r.0 ≡ ok (paid - r.0) =
        l.offset paid r.0 (omega (arith, small)) in
      let parts = l.split (paid - r.0) (min base_fee f.max_balance) in
      record {
        refund = r.0;
        share = min (min base_fee f.max_balance) (paid - r.0);
        tip = paid - r.0 - min base_fee f.max_balance;
        refunded = r.1;
        result = rw (back, parts) refl;
        refund_le = omega (arith, small, most, le);
        to_sender = to_sender;
        share_min = omega (arith, most);
        whole = omega (arith, small, most, le);
      }

  -- Whatever part of the tip reaches the author is what the issuance keeps of it.
  pub pay_priority_fee-issuance :
      (tip : ℕ) (funds : f.Funds)
      → tip ≤ issuance funds
      → (paid : ℕ) × (funds' : f.Funds) × (balance author funds' ≡ balance author funds + paid)
        × (paid ≤ tip)
        × (pay_priority_fee f author (some tip) funds ≡ f.drop_credit tip (f.drop_debt paid funds'))
        × (issuance (pay_priority_fee f author (some tip) funds) + (tip - paid) ≡ issuance funds)
  unfolding pay_priority_fee
  pay_priority_fee-issuance tip funds le =
      let r = or_zero funds (f.deposit author tip funds) in
      let (small, to_author, same) = or_zero-deposit author tip funds in
      (
        r.0,
        r.1,
        to_author,
        small,
        refl,
        omega (
          arith,
          l.issuance-drop_credit tip (f.drop_debt r.0 r.1),
          l.issuance-drop_debt r.0 r.1,
          same,
          small,
          le,
        ),
      )
