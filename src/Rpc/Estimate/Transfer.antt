-- ===== src/Rpc/Estimate/Transfer.antt =====
-- The transfers for which `estimate_gas` of client/rpc/src/eth/execute.rs runs nothing.
use frontier.Base.{
  ℕ, ◌≡◌, refl, sym, ap, ◌∙◌, arith, true, none, some, List, [], ◌∷◌, length, ◌==◌, Bool-cases,
  Option-cases, ◌⊎◌, inl, inr,
}
use frontier.Evm.Weight.{Result, ok, err}
use frontier.Rpc.Request.{RpcError, TransactionRequest}
use frontier.Rpc.Estimate.{Api, has_no_data, simple_transfer}

-- A transfer without data to an account without code.
unfoldable pub IsTransfer : Api → TransactionRequest → Type 0
IsTransfer api request =
    ((request.input ≡ none) ⊎ (request.input ≡ some []))
    × ((to : ℕ) × (request.to ≡ some to) × (api.account_code_at to ≡ ok []))

length-nil : {A : Type 0} (xs : List A) → length xs == 0 ≡ true → xs ≡ []
length-nil [] h = refl
length-nil (x ∷ xs) h = absurd (ground arith)

module _ (api : Api) (request : TransactionRequest) where
  no_data : has_no_data request.input ≡ true → (request.input ≡ none) ⊎ (request.input ≡ some [])
  no_data h = elim (Option-cases request.input) [
    | inl missing ↦ inl missing
    | inr (bytes, e) ↦ inr (e ∙ ap (λ bs. some bs) (length-nil bytes (ap has_no_data (sym e) ∙ h)))
  ]

  Result-cases :
      {A : Type 0} (r : Result RpcError A) → ((e : RpcError) × (r ≡ err e)) ⊎ ((a : A) × (r ≡ ok a))
  Result-cases (err e) = inl (e, refl)
  Result-cases (ok a) = inr (a, refl)

  pub simple_transfer-IsTransfer : simple_transfer api request ≡ ok true → IsTransfer api request
  unfolding simple_transfer IsTransfer
  simple_transfer-IsTransfer h = elim (Bool-cases (has_no_data request.input)) [
    | inr some_data ↦ absurd (ground arith)
    | inl empty ↦ elim (Option-cases request.to) [
      | inl creation ↦ absurd (ground arith)
      | inr (to, e) ↦ elim (Result-cases (api.account_code_at to)) [
        | inl (error, e') ↦ absurd (ground arith)
        | inr (bytes, e') ↦
            (no_data empty, (to, e, e' ∙ ap (λ bs. ok bs) (length-nil bytes (ground arith))))
      ]
    ]
  ]
