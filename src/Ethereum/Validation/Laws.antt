-- ===== src/Ethereum/Validation/Laws.antt =====
-- The two validations of frame/ethereum/src/lib.rs against each other, and the tags of the pool.
use frontier.Base.{
  ℕ, ◌+◌, ◌≤◌, ◌≡◌, ◌↔◌, refl, [], ◌∷◌, length, ◌==◌, sym, ◌∙◌, arith, Bool-cases, inl, inr,
}
use frontier.Evm.Weight.{Result, ok, err}
use frontier.Evm.Validation.{
  Account, CheckEvmTransaction, Gasometer, Checked, ◌>>◌, validate_in_block_for,
  validate_in_pool_for,
}
use frontier.Evm.Validation.Laws.{validate_in_block-iff_pool}
use frontier.Evm.Runner.Price.{map_err}
use frontier.Ethereum.Transaction.{
  Transaction, TransactionData, from_transaction, to_check_input, is_eip7702,
}
use frontier.Ethereum.Validation.{
  Context, InvalidTransaction, ValidTransaction, check, common_checks, invalid, pool_checks, tagged,
  priority_of, with_priority, required, on_ok, validate_transaction_in_block,
  validate_transaction_in_pool,
}

pub map_err-eq-ok :
    {E F : Type 0} {A : Type 0} (f : E → F) (m : Result E A) {a : A} → map_err f m ≡ ok a → m ≡ ok a
map_err-eq-ok f (ok b) h = ground arith
map_err-eq-ok f (err e) h = absurd (ground arith)

pub >>-eq-ok : (m k : Checked (Unit {0})) → (m >> k) ≡ ok tt → (m ≡ ok tt) × (k ≡ ok tt)
>>-eq-ok (ok a) k h = (refl, h)
>>-eq-ok (err e) k h = absurd (ground arith)

-- Behind either nonce check the other checks are the same.
block-iff-pool :
    (g : Gasometer) (k : CheckEvmTransaction g.Config) (who : Account) (rest : Checked (Unit {0}))
    → (map_err invalid (validate_in_block_for g k who >> rest) ≡ ok tt) ↔ (
        (map_err invalid (validate_in_pool_for g k who >> rest) ≡ ok tt)
        × (k.transaction.nonce ≤ who.nonce))
block-iff-pool g k who rest = (
  λ h.
      let (checked, others) =
        >>-eq-ok (validate_in_block_for g k who) rest
          (map_err-eq-ok invalid (validate_in_block_for g k who >> rest) h) in
      let (pool, nonce) = (validate_in_block-iff_pool g k who).0 checked in
      (rw (pool, others), nonce),
  λ (h, nonce).
      let (checked, others) =
        >>-eq-ok (validate_in_pool_for g k who) rest
          (map_err-eq-ok invalid (validate_in_pool_for g k who >> rest) h) in
      rw ((validate_in_block-iff_pool g k who).1 (checked, nonce), others),
)

required-nil : (origin nonce account : ℕ) → (required origin nonce account ≡ []) ↔ (nonce ≤ account)
required-nil origin nonce account = (λ h. ground arith, λ h. ground arith)

with_priority-eq-ok :
    (origin nonce account : ℕ) (r : Result InvalidTransaction ℕ) {v : ValidTransaction}
    → with_priority origin nonce account r ≡ ok v
    → (v.provides ≡ (origin, nonce) ∷ []) × (v.requires ≡ required origin nonce account)
with_priority-eq-ok origin nonce account (err e) h = absurd (ground arith)
with_priority-eq-ok origin nonce account (ok p) h = (ground arith, ground arith)

on_ok-eq-ok :
    {A B : Type 0} (m : Result InvalidTransaction A) (k : Result InvalidTransaction B) {b : B}
    → on_ok m k ≡ ok b
    → (a : A) × (m ≡ ok a) × (k ≡ ok b)
on_ok-eq-ok (ok a) k h = (a, refl, h)
on_ok-eq-ok (err e) k h = absurd (ground arith)

-- The fees of a transaction have a priority, whatever its type.
priority_total :
    (base_fee : ℕ) (t : Transaction)
    → let d = from_transaction t in
      (priority : ℕ) × (priority_of base_fee d.gas_price d.max_fee_per_gas
          d.max_priority_fee_per_gas
        ≡ ok priority)
unfolding priority_of from_transaction
priority_total base_fee (Transaction.legacy t) = (_, refl)
priority_total base_fee (Transaction.eip2930 t) = (_, refl)
priority_total base_fee (Transaction.eip1559 t) = (_, refl)
priority_total base_fee (Transaction.eip7702 t) = (_, refl)

module _ (c : Context) (origin : ℕ) where
  abbrev account_nonce : ℕ
  account_nonce = (c.chain.account_basic origin).nonce

  tagged-tags :
      (d : TransactionData) {v : ValidTransaction}
      → tagged c origin d ≡ ok v
      → (v.provides ≡ (origin, d.nonce) ∷ []) × (v.requires ≡ required origin d.nonce account_nonce)
  unfolding tagged
  tagged-tags d h = elim (Bool-cases (length (c.account_code origin) == 0)) [
    | inl eoa ↦ with_priority-eq-ok origin d.nonce account_nonce _ (rw eoa at h)
    | inr contract ↦ absurd (ground (arith, contract))
  ]

  -- A transaction that passes the pool's checks, with its tags.
  tagged-of :
      (t : Transaction) {v : ValidTransaction}
      → validate_transaction_in_pool c origin t ≡ ok v
      → (pool_checks c origin t ≡ ok tt)
        × (v.provides ≡ (origin, (from_transaction t).nonce) ∷ [])
        × (v.requires ≡ required origin (from_transaction t).nonce account_nonce)
  unfolding validate_transaction_in_pool
  tagged-of t h =
      let (_, checked, tags) =
        on_ok-eq-ok (pool_checks c origin t) (tagged c origin (from_transaction t)) h in
      let (provides, requires) = tagged-tags (from_transaction t) tags in
      (checked, provides, requires)

  -- Without code at the sender, the other checks passed give a valid transaction.
  pool_valid :
      (t : Transaction)
      → c.account_code origin ≡ []
      → pool_checks c origin t ≡ ok tt
      → (v : ValidTransaction) × (validate_transaction_in_pool c origin t ≡ ok v)
  unfolding validate_transaction_in_pool tagged
  pool_valid t eoa h =
      let nonce = (from_transaction t).nonce in
      let (priority, e) = priority_total c.chain.base_fee t in
      (
        record {
          priority = priority;
          requires = required origin nonce account_nonce;
          provides = (origin, nonce) ∷ [];
        },
        rw (h, eoa, e) refl,
      )

  -- For a sender without code, a transaction is valid in the next block exactly when the pool takes
  -- it as one that requires no other.
  pub validate_in_block-iff_ready :
      (t : Transaction)
      → c.account_code origin ≡ []
      → (validate_transaction_in_block c origin t ≡ ok tt) ↔ (
          (v : ValidTransaction) × (validate_transaction_in_pool c origin t ≡ ok v)
          × (v.requires ≡ []))
  unfolding validate_transaction_in_block pool_checks check to_check_input
  validate_in_block-iff_ready t eoa =
      let k = check c (from_transaction t) in
      let who = c.chain.account_basic origin in
      let same = block-iff-pool c.gasometer k who (common_checks c k who (is_eip7702 t)) in
      let none_required = required-nil origin (from_transaction t).nonce account_nonce in
      (
        λ h.
            let (checks, nonce) = same.0 h in
            let (v, valid) = pool_valid t eoa checks in
            let (_, _, requires) = tagged-of t valid in
            (v, valid, requires ∙ none_required.1 nonce),
        λ (v, valid, ready).
            let (checks, _, requires) = tagged-of t valid in
            same.1 (checks, none_required.0 (sym requires ∙ ready)),
      )

  -- Two transactions of one sender that the pool takes, the second with the nonce after the first's:
  -- the second requires exactly the tag that the first provides.
  pub validate_in_pool-chains :
      (t t' : Transaction) {v v' : ValidTransaction}
      → (from_transaction t').nonce ≡ (from_transaction t).nonce + 1
      → validate_transaction_in_pool c origin t ≡ ok v
      → validate_transaction_in_pool c origin t' ≡ ok v'
      → (c.chain.account_basic origin).nonce ≤ (from_transaction t).nonce
      → v'.requires ≡ v.provides
  validate_in_pool-chains t t' next h h' ahead =
      let (_, provides, _) = tagged-of t h in
      let (_, _, requires) = tagged-of t' h' in rw (provides, requires, next) (ground arith)
