-- ===== src/Rpc/Estimate/Limits.antt =====
-- The limit that `estimate_gas` of client/rpc/src/eth/execute.rs tries first.
use frontier.Base.{
  ℕ, ◌≤◌, ◌≡◌, arith, Bool, true, false, Option, none, some, ◌==◌, Bool-cases, inl, inr,
}
use frontier.Evm.Weight.{Result, ok, err}
use frontier.Rpc.Request.{RpcError}
use frontier.Rpc.Estimate.{Api, highest_limit, recap, recap_with, recap_of}

pub le_trans : (a b c : ℕ) → a ≤ b → b ≤ c → a ≤ c
le_trans a b c p q = omega (arith, p, q)

pub highest_limit-le :
    (gas : Option ℕ) (supported : Bool) (limit most top fuel : ℕ)
    → limit ≤ fuel
    → most ≤ fuel
    → highest_limit gas supported limit most ≡ ok top
    → top ≤ fuel
unfolding highest_limit
highest_limit-le (some amount) supported limit most top fuel le bound e = ground arith
highest_limit-le none true limit most top fuel le bound e = ground arith
highest_limit-le none false limit most top fuel le bound e = ground arith

recap-le :
    (balance : ℕ) (value : Option ℕ) (fee_cap top highest : ℕ)
    → recap balance value fee_cap top ≡ ok highest
    → highest ≤ top
unfolding recap
recap-le balance value fee_cap top highest e = ground arith

recap_with-le :
    (balance : Result RpcError ℕ) (value : Option ℕ) (fee_cap top highest : ℕ)
    → recap_with balance value fee_cap top ≡ ok highest
    → highest ≤ top
unfolding recap_with
recap_with-le (err e) value fee_cap top highest h = absurd (ground arith)
recap_with-le (ok balance) value fee_cap top highest h =
    recap-le balance value fee_cap top highest h

pub recap_of-le :
    (api : Api) (from value : Option ℕ) (fee_cap top highest : ℕ)
    → recap_of api from value fee_cap top ≡ ok highest
    → highest ≤ top
unfolding recap_of
recap_of-le api none value fee_cap top highest e = ground arith
recap_of-le api (some who) value fee_cap top highest e = elim (Bool-cases (fee_cap == 0)) [
  | inl free ↦ ground arith
  | inr priced ↦ recap_with-le (api.balance who) value fee_cap top highest (ground (arith, priced))
]
