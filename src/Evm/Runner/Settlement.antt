-- ===== src/Evm/Runner/Settlement.antt =====
-- The gas and the fee that `execute_inner` of frame/evm/src/runner/stack.rs settles on.
use frontier.Base.{
  Bool-cases, ℕ, ◌+◌, ◌-◌, ◌*◌, ◌/◌, ◌≤◌, ◌<◌, ◌≡◌, ◌⊎◌, Bool, true, false, min, max, inl, inr,
  refl, ap, not, ◌&&◌, Option, none, some, arith, length, ◌==◌, ltb, leb, leb→le, saturating_mul,
  unwrap_or, max_u64, max_u256,
}
use native.Mathlib.Nat.{div-mul-le_self}
use frontier.Evm.Weight.{Result, ok, err, Weight, WeightInfo, new_from_weight_limit}
use frontier.Evm.Meter.{StorageMeter, new, storage_to_gas}
use frontier.Evm.Accounts.{Provider, code}
use frontier.Evm.Runner.Price.{total_fee_per_gas}
use frontier.Evm.Runner.Execute.{
  Error, ExitReason, IsPrecompileResult, OnCharge, World, Start, Executed, Executor, Call,
  start_meter, storage_gas, estimated_proof_size, actual_proof_size, gas_after, handle_storage_oog,
  finish, withdrawn, with_total, with_price, execute_with, execute_inner, Outcome,
}

abbrev pub proof_size_limit : Option WeightInfo → ℕ
proof_size_limit none = 0
proof_size_limit (some w) = unwrap_or w.proof_size_limit 0

abbrev pub weight_proof_size : Option Weight → ℕ
weight_proof_size none = 0
weight_proof_size (some w) = w.proof_size

abbrev pub meter_usage : Option StorageMeter → ℕ
meter_usage none = 0
meter_usage (some m) = m.usage

abbrev pub meter_limit : Option StorageMeter → ℕ
meter_limit none = 0
meter_limit (some m) = m.limit

saturating_mul_le : (top a b : ℕ) → saturating_mul top a b ≤ a * b
saturating_mul_le top a b = ground arith

mul_le_mul : (a b c : ℕ) → a ≤ b → a * c ≤ b * c
mul_le_mul a b c h = grind arith

actual_le :
    (base : Option ℕ) (before : ℕ) (measured : Option ℕ) (estimated : ℕ)
    → actual_proof_size base before measured estimated ≤ estimated
actual_le base before none estimated = omega arith
actual_le base before (some m) estimated = ground arith

new_from_weight_limit-limit :
    (limit : Option Weight) (base : Option ℕ) {info : Option WeightInfo}
    → new_from_weight_limit limit base ≡ ok info
    → proof_size_limit info ≤ weight_proof_size limit
unfolding new_from_weight_limit
new_from_weight_limit-limit none base h = ground arith
new_from_weight_limit-limit (some w) none h = ground arith
new_from_weight_limit-limit (some w) (some b) h = ground arith

start_meter-limit :
    (ratio gas_limit : ℕ) → meter_limit (start_meter ratio gas_limit) ≤ gas_limit / ratio
unfolding new
start_meter-limit ratio gas_limit = elim (Bool-cases (ltb 0 ratio)) [
  | inl limited ↦ rw (limited, meter_limit) (omega arith)
  | inr unlimited ↦ rw (unlimited, meter_limit) (omega arith)
]

storage_gas-le :
    (ratio gas_limit : ℕ) (meter : Option StorageMeter)
    → meter_usage meter ≤ meter_limit (start_meter ratio gas_limit)
    → storage_gas ratio meter ≤ gas_limit
unfolding new storage_to_gas
storage_gas-le ratio gas_limit none h = omega arith
storage_gas-le ratio gas_limit (some m) h =
    let bound : m.usage ≤ gas_limit / ratio = omega (arith, h, start_meter-limit ratio gas_limit) in
    omega (
      arith,
      saturating_mul_le max_u64 m.usage ratio,
      mul_le_mul m.usage (gas_limit / ratio) ratio bound,
      div-mul-le_self gas_limit ratio,
    )

-- The price of a gas, from the base fee, the maximal fee and the priority fee: nothing outside of
-- transactions or for a maximal fee of zero, the base fee without a priority fee, and else the sum
-- of both, as far as the maximal fee allows, and never below the base fee.
abbrev pub IsPrice : Bool → ℕ → Option ℕ → Option ℕ → ℕ → Type 0
IsPrice false base_fee max_fee priority price = price ≡ 0
IsPrice true base_fee none priority price = ⊥
IsPrice true base_fee (some max_fee) none price =
    ((max_fee ≡ 0) × (price ≡ 0)) ⊎ ((0 < max_fee) × (price ≡ base_fee))
IsPrice true base_fee (some max_fee) (some priority) price =
    ((max_fee ≡ 0) × (price ≡ 0))
    ⊎ ((0 < max_fee) × (price ≡ min max_u256 (min (base_fee + priority) (max base_fee max_fee))))

total_fee_per_gas-IsPrice :
    (transactional : Bool) (base_fee : ℕ) (max_fee priority : Option ℕ) {price : ℕ}
    → total_fee_per_gas transactional base_fee max_fee priority ≡ some price
    → IsPrice transactional base_fee max_fee priority price
unfolding total_fee_per_gas
total_fee_per_gas-IsPrice false base_fee max_fee priority e = ground arith
total_fee_per_gas-IsPrice true base_fee none priority e = ground arith
total_fee_per_gas-IsPrice true base_fee (some max_fee) none e = ground arith
total_fee_per_gas-IsPrice true base_fee (some max_fee) (some priority) e = ground arith

module _ (p : Provider) (charge : OnCharge) {R : Type 0} where
  -- An execution ends within the gas, the proof size and the storage growth that it was given.
  pub record IsWithin (s : Start p charge) (e : Executed p charge R) : Type 0 where
    pub gas : e.used_gas ≤ s.gas_limit
    pub proof_size : estimated_proof_size e.weight_info ≤ proof_size_limit s.weight_info
    pub storage : meter_usage e.storage_meter ≤ meter_limit s.storage_meter

module _ (p : Provider) (charge : OnCharge) {R : Type 0} (x : Executor p charge R) where
  gas_after-le :
      (c : Call) (gas_limit : ℕ) (info : Option WeightInfo) (e : Executed p charge R)
      → IsWithin p charge
          (record {
            gas_limit = gas_limit;
            weight_info = info;
            storage_meter = start_meter c.storage_growth_ratio gas_limit;
          })
          e
      → proof_size_limit info * c.pov_size_ratio ≤ gas_limit
      → gas_after p charge x c e ≤ gas_limit
  unfolding gas_after
  gas_after-le c gas_limit info e v h =
      let actual =
        actual_proof_size c.proof_size_base_cost c.measured_proof_size_before e.proof_size_after
          (estimated_proof_size e.weight_info) in
      let measured =
        actual_le c.proof_size_base_cost c.measured_proof_size_before e.proof_size_after
          (estimated_proof_size e.weight_info) in
      omega (
        arith,
        v.gas,
        h,
        saturating_mul_le max_u64 actual c.pov_size_ratio,
        mul_le_mul actual (proof_size_limit info) c.pov_size_ratio
            (omega (arith, measured, v.proof_size)),
        storage_gas-le c.storage_growth_ratio gas_limit e.storage_meter v.storage,
      )

  -- What an execution with `gas_limit` left leaves of a world `w`. An error leaves it as it was.
  -- A result was paid for in advance at the price for the whole limit; the gas charged is within
  -- the limit, and the fee is corrected to that gas at that price.
  abbrev pub Settles : ℕ → Call → World p charge → Outcome p charge x → Type 0
  Settles gas_limit c w (w', err e) = w' ≡ w
  Settles gas_limit c w (w', ok info) =
      (info.effective ≤ gas_limit)
      × ((price : ℕ) × (fee : charge.LiquidityInfo) × (paid : charge.Funds) × (after : charge.Funds)
          × IsPrice c.is_transactional c.base_fee c.max_fee_per_gas c.max_priority_fee_per_gas price
          × (charge.withdraw_fee c.source (price * gas_limit) w.funds ≡ ok (fee, paid))
          × (info.effective * price ≤ price * gas_limit)
          × (w'.funds ≡ (
              let (tip, funds) =
                charge.correct_and_deposit_fee c.source (info.effective * price)
                  (saturating_mul max_u256 info.effective c.base_fee) fee after in
              charge.pay_priority_fee tip funds)))

  finish-Settles :
      (c : Call) (gas_limit price : ℕ) (fee : charge.LiquidityInfo) (paid : charge.Funds)
      (w : World p charge) (e : Executed p charge R) (r : ExitReason × R × ℕ)
      → IsPrice c.is_transactional c.base_fee c.max_fee_per_gas c.max_priority_fee_per_gas price
      → r.2 ≤ gas_limit
      → price * gas_limit ≤ max_u256
      → charge.withdraw_fee c.source (price * gas_limit) w.funds ≡ ok (fee, paid)
      → Settles gas_limit c w (finish p charge x c price fee e r)
  finish-Settles c gas_limit price fee paid w e (reason, value, effective) priced h top wd =
      let le : effective * price ≤ price * gas_limit =
        grind (arith, mul_le_mul effective gas_limit price h) in
      let exact : saturating_mul max_u256 effective price ≡ effective * price =
        ground (arith, le, top) in
      (
        h,
        (
          price,
          fee,
          paid,
          e.world.funds,
          priced,
          wd,
          le,
          ap
              (λ n.
                let (tip, funds) =
                  charge.correct_and_deposit_fee c.source n
                    (saturating_mul max_u256 effective c.base_fee) fee e.world.funds in
                charge.pay_priority_fee tip funds)
              exact,
        ),
      )

  handle_storage_oog-le :
      (gas_limit effective : ℕ) (e : Executed p charge R)
      → effective ≤ gas_limit
      → (handle_storage_oog p charge x gas_limit effective e).2 ≤ gas_limit
  unfolding handle_storage_oog
  handle_storage_oog-le gas_limit effective e h = elim (Bool-cases e.storage_oog) [
    | inl raised ↦ rw raised (omega arith)
    | inr not_raised ↦ rw not_raised h
  ]

  module _
      (within : (s : Start p charge) (w : World p charge) → IsWithin p charge s (x.run s w)) where
    withdrawn-Settles :
        (c : Call) (gas_limit : ℕ) (info : Option WeightInfo) (price : ℕ) (w : World p charge)
        (r : Result Error (charge.LiquidityInfo × charge.Funds))
        → IsPrice c.is_transactional c.base_fee c.max_fee_per_gas c.max_priority_fee_per_gas price
        → proof_size_limit info * c.pov_size_ratio ≤ gas_limit
        → price * gas_limit ≤ max_u256
        → charge.withdraw_fee c.source (price * gas_limit) w.funds ≡ r
        → Settles gas_limit c w (withdrawn p charge x c gas_limit info price w r)
    unfolding gas_after handle_storage_oog
    withdrawn-Settles c gas_limit info price w (err e) priced pov top wd = refl
    withdrawn-Settles c gas_limit info price w (ok (fee, paid)) priced pov top wd =
        let start : Start p charge = record {
          gas_limit = gas_limit;
          weight_info = info;
          storage_meter = start_meter c.storage_growth_ratio gas_limit;
        } in
        let e = x.run start (record w { funds = paid }) in
        finish-Settles c gas_limit price fee paid w e
          (handle_storage_oog p charge x gas_limit (gas_after p charge x c e) e) priced
          (handle_storage_oog-le gas_limit (gas_after p charge x c e) e
            (gas_after-le c gas_limit info e (within start (record w { funds = paid })) pov))
          top wd

    with_price-Settles :
        (c : Call) (gas_limit : ℕ) (info : Option WeightInfo) (w : World p charge)
        (price : Option ℕ)
        → total_fee_per_gas c.is_transactional c.base_fee c.max_fee_per_gas
            c.max_priority_fee_per_gas
          ≡ price
        → proof_size_limit info * c.pov_size_ratio ≤ gas_limit
        → Settles gas_limit c w (with_price p charge x c gas_limit info w price)
    with_price-Settles c gas_limit info w none e pov = refl
    with_price-Settles c gas_limit info w (some price) e pov =
        elim (Bool-cases (leb (price * gas_limit) max_u256)) [
          | inl fits ↦
              rw (fits, with_total)
                (withdrawn-Settles c gas_limit info price w
                  (charge.withdraw_fee c.source (price * gas_limit) w.funds)
                  (total_fee_per_gas-IsPrice c.is_transactional c.base_fee c.max_fee_per_gas
                    c.max_priority_fee_per_gas e)
                  pov (leb→le (price * gas_limit) max_u256 fits) refl)
          | inr over ↦ rw (over, with_total) refl
        ]

    execute_with-Settles :
        (c : Call) (gas_limit : ℕ) (info : Option WeightInfo) (w : World p charge)
        → proof_size_limit info * c.pov_size_ratio ≤ gas_limit
        → Settles gas_limit c w (execute_with p charge x c info gas_limit w)
    unfolding total_fee_per_gas
    execute_with-Settles c gas_limit info w pov =
        elim (Bool-cases (c.is_transactional && not (length (code p w.accounts c.source) == 0))) [
          | inl contract ↦ rw (contract, execute_with) refl
          | inr eoa ↦ rw (eoa, execute_with) (with_price-Settles c gas_limit info w _ refl pov)
        ]

    -- What `execute_inner` does when the weight limit is accepted and the precompile check answers
    -- with an extra cost, for an executor that ends within the gas, the proof size and the storage
    -- growth that it is given, and a proof size limit whose price is within the gas that is left:
    -- an error leaves the world as the check left it. A result was paid for in advance, for all the
    -- gas left, at the price that is charged in the end: nothing outside of transactions or for a
    -- maximal fee of zero, the base fee without a priority fee, and else the sum of both, as far as
    -- the maximal fee (but no less than the base fee) and U256 allow. The gas charged in the end, for
    -- storage growth and proof size too, is at most the gas left, and the sender's fee is corrected
    -- to this gas at this price, which does not overflow.
    pub execute_inner-Settles :
        (c : Call) (w w' : World p charge) (extra : ℕ) (info : Option WeightInfo)
        → new_from_weight_limit c.weight_limit c.proof_size_base_cost ≡ ok info
        → x.is_precompile c.source c.gas_limit w ≡ (IsPrecompileResult.answer extra, w')
        → weight_proof_size c.weight_limit * c.pov_size_ratio ≤ c.gas_limit - extra
        → Settles (c.gas_limit - extra) c w' (execute_inner p charge x c w)
    unfolding execute_inner
    execute_inner-Settles c w w' extra info new_ok answered pov =
        rw (new_ok, answered)
          (execute_with-Settles c (c.gas_limit - extra) info w' (
            omega (
              arith,
              pov,
              mul_le_mul (proof_size_limit info) (weight_proof_size c.weight_limit) c.pov_size_ratio
                  (new_from_weight_limit-limit c.weight_limit c.proof_size_base_cost new_ok),
            )))
