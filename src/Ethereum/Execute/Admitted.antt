-- ===== src/Ethereum/Execute/Admitted.antt =====
-- `execute` of frame/ethereum/src/lib.rs on the stack runner of frame/evm/src/runner/stack.rs.
use frontier.Base.{
  ℕ, ◌+◌, ◌*◌, ◌≤◌, ◌<◌, ◌≡◌, refl, true, Option, none, some, List, [], arith, min, max_u64,
  max_u256, unwrap_or,
}
use frontier.Evm.Weight.{Result, ok}
use frontier.Evm.Gas.{GasConfig}
use frontier.Evm.Accounts.{Provider, code}
use frontier.Evm.Validation.{
  validate_in_block_for, proof_size_affordable, CheckEvmTransaction, Gasometer, Account,
  with_base_fee, with_balance_for, with_chain_id, with_eip7702_authorization_list,
}
use frontier.Evm.Runner.Price.{RunnerError}
use frontier.Evm.Runner.Execute.{
  Error, ExecutionInfo, IsPrecompileResult, OnCharge, World, Executor,
}
use frontier.Evm.Runner.Entry
use frontier.Evm.Runner.Entry.{
  Evm, Runner, Transact, CreateScheme, args, call_executor, create_executor, stack_runner, call,
  create, validate_if,
}
use frontier.Evm.Runner.Return.{affordable-new_from_weight_limit, execute_inner-Returns, mul_le_mul}
use frontier.Evm.Fees.{Balanced, fungible_adapter}
use frontier.Evm.Fees.Laws.{IsLedger, withdraw_fee-Succeeds}
use frontier.Ethereum.Transaction.{
  Action, Transaction, TransactionData, from_transaction, is_eip7702,
}
use frontier.Ethereum.Validation.{
  Context, check, common_checks, invalid, validate_transaction_in_block, transaction_weight,
}
use frontier.Ethereum.Validation.Laws.{>>-eq-ok, map_err-eq-ok}
use frontier.Ethereum.Execute.{
  Pallet, parts, context, transact_args, execute, execute_action, CallOrCreateInfo, called, created,
}
use frontier.Ethereum.Execute.Laws.{IsPriced, priced}

validate_in_block-affordable :
    (g : Gasometer) (k : CheckEvmTransaction g.Config) (who : Account)
    → k.config.is_transactional ≡ true
    → validate_in_block_for g k who ≡ ok tt
    → proof_size_affordable k.weight_limit k.proof_size_base_cost ≡ true
unfolding validate_in_block_for
validate_in_block-affordable g k who t h = ground arith

-- What the checks of a block leave for the runner.
record IsReady (c : Context) (t : Transaction) (who : Account) : Type 0 where
  max_fee : ℕ
  price : ℕ
  fee : IsPriced c t who.balance max_fee price
  affordable :
      let limit = transaction_weight c (from_transaction t) in
      proof_size_affordable limit.0 limit.1 ≡ true

block-IsReady :
    (c : Context) (origin : ℕ) (t : Transaction)
    → (c.chain.account_basic origin).balance < max_u256
    → unwrap_or (parts t).max_fee_per_gas 0 ≤ max_u256
    → validate_transaction_in_block c origin t ≡ ok tt
    → IsReady c t (c.chain.account_basic origin)
unfolding validate_transaction_in_block common_checks check
block-IsReady c origin t b m h =
    let k = check c (from_transaction t) in
    let who = c.chain.account_basic origin in
    let eip7702 = with_eip7702_authorization_list k (is_eip7702 t) in
    let (in_block, h1) =
      >>-eq-ok (validate_in_block_for c.gasometer k who) (common_checks c k who (is_eip7702 t))
        (map_err-eq-ok invalid _ h) in
    let (_, h2) = >>-eq-ok (with_chain_id k) _ h1 in
    let (base_fee, h3) = >>-eq-ok (with_base_fee k) _ h2 in
    let (balance, _) = >>-eq-ok (with_balance_for k who) eip7702 h3 in
    let (max_fee, price, fee) = priced c t who b m base_fee balance in
    record {
      max_fee = max_fee;
      price = price;
      fee = fee;
      affordable = validate_in_block-affordable c.gasometer k who refl in_block;
    }

le_mul : (a b c : ℕ) → a ≤ b → a * c ≤ b * c
le_mul a b c h = grind arith

called-ok :
    (target : ℕ) {res : Result (RunnerError Error) (ExecutionInfo (List ℕ))}
    {info : ExecutionInfo (List ℕ)}
    → res ≡ ok info
    → (r : Option ℕ × Option ℕ × CallOrCreateInfo) × (called target res ≡ ok r)
called-ok target {res} {info} e = ((some target, none, CallOrCreateInfo.call info), rw e refl)

created-ok :
    {res : Result (RunnerError Error) (ExecutionInfo ℕ)} {info : ExecutionInfo ℕ}
    → res ≡ ok info
    → (r : Option ℕ × Option ℕ × CallOrCreateInfo) × (created res ≡ ok r)
created-ok {res} {info} e = ((none, some info.value, CallOrCreateInfo.create info), rw e refl)

payment_le :
    (price max_fee gas_limit top value balance : ℕ)
    → price ≤ max_fee
    → value + max_fee * gas_limit ≤ balance
    → price * min gas_limit top ≤ balance
payment_le price max_fee gas_limit top value balance le h = omega (
  arith,
  h,
  mul_le_mul price (min gas_limit top) gas_limit (omega arith),
  le_mul price max_fee gas_limit le,
)

-- The pallet on the stack runner.
module _ (p : Provider) (charge : OnCharge) (evm : Evm p charge) (config : evm.gasometer.Config)
    (gas_config : GasConfig) (encoded_len : TransactionData → ℕ) where
  abbrev pub stack_pallet : Pallet (World p charge)
  stack_pallet = record {
    gasometer = evm.gasometer;
    evm_config = config;
    gas_config = gas_config;
    encoded_len = encoded_len;
    chain = evm.chain;
    account_code = λ w. code p w.accounts;
    runner = stack_runner p charge evm;
  }

  module _ (w : World p charge) (from : ℕ)
      (quiet : (a gas : ℕ) → (r : IsPrecompileResult) × (evm.is_precompile a gas w ≡ (r, w)))
      (solvent : (fee : ℕ)
        → fee ≤ ((evm.chain w).account_basic from).balance
        → (paid : charge.LiquidityInfo × charge.Funds) × (charge.withdraw_fee from fee w.funds
            ≡ ok paid))
      (t : Transaction) (bounded : ((evm.chain w).account_basic from).balance < max_u256)
      (word : unwrap_or (parts t).max_fee_per_gas 0 ≤ max_u256) (eoa : code p w.accounts from ≡ [])
      (valid : validate_transaction_in_block (context stack_pallet w) from t ≡ ok tt) where
    execute-Returns :
        {R : Type 0} (x : Executor p charge R)
        → x.is_precompile ≡ evm.is_precompile
        → (info : ExecutionInfo R) × ((Entry.execute p charge evm x
              (transact_args stack_pallet from t w)
              w).1
            ≡ ok info)
    unfolding Entry.execute transact_args
    execute-Returns x same =
        let ready = block-IsReady (context stack_pallet w) from t bounded word valid in
        let (info, admitted) = affordable-new_from_weight_limit _ _ ready.affordable in
        let (r, answered) = quiet from (min (parts t).gas_limit max_u64) in
        let most : ready.price * min (parts t).gas_limit max_u64
            ≤ ((evm.chain w).account_basic from).balance =
          payment_le ready.price ready.max_fee (parts t).gas_limit max_u64 (parts t).value _
            ready.fee.below ready.fee.funds in
        execute_inner-Returns p charge x _ w info ready.price refl eoa ready.fee.charged
          (omega (arith, most, bounded)) (λ fee le. solvent fee (omega (arith, le, most))) {r = r}
          admitted (rw same answered)

    execute_action-Executes :
        (a : Action)
        → (a ≡ Action.create → evm.check_create_origin from ≡ ok tt)
        → (r : Option ℕ × Option ℕ × CallOrCreateInfo) × ((execute_action stack_pallet config
              (transact_args stack_pallet from t w)
              a
              w).1
            ≡ ok r)
    unfolding stack_runner call create validate_if transact_args
    execute_action-Executes (Action.call target) creator =
        let args' = args p charge evm (transact_args stack_pallet from t w) (some target) in
        let (info, e) = execute-Returns (call_executor p charge evm args') refl in
        called-ok target e
    execute_action-Executes Action.create creator =
        let transact = transact_args stack_pallet from t w in
        let x =
          create_executor p charge evm (CreateScheme.legacy from)
            (evm.transact_create (args p charge evm transact none)) from in
        let (info, e) = execute-Returns x refl in rw (creator refl) (created-ok e)

    -- A valid transaction is executed.
    executes :
        ((parts t).action ≡ Action.create → evm.check_create_origin from ≡ ok tt)
        → (r : Option ℕ × Option ℕ × CallOrCreateInfo) × ((execute stack_pallet from t none w).1
            ≡ ok r)
    unfolding execute
    executes creator = execute_action-Executes (parts t).action creator

-- The same where the fees are paid by `EVMFungibleAdapter`.
module _ (p : Provider) (f : Balanced) (author : ℕ) (l : IsLedger f)
    (evm : Evm p (fungible_adapter f author)) (config : evm.gasometer.Config)
    (gas_config : GasConfig) (encoded_len : TransactionData → ℕ) where
  abbrev pub pallet : Pallet (World p (fungible_adapter f author))
  pallet = stack_pallet p (fungible_adapter f author) evm config gas_config encoded_len

  -- A transaction that is valid in a block, from a sender without code, whose maximal fee is a word
  -- and whose balance is below the largest word and within what the currency lets withdraw, is
  -- executed: `execute` returns a result, not an error. The check of precompiles leaves the state
  -- as it is, and the sender of a creation may create.
  pub validated-Executes :
      (w : World p (fungible_adapter f author)) (from : ℕ) (t : Transaction)
      → ((a gas : ℕ) → (r : IsPrecompileResult) × (evm.is_precompile a gas w ≡ (r, w)))
      → ((evm.chain w).account_basic from).balance ≤ l.reducible from w.funds
      → ((evm.chain w).account_basic from).balance < max_u256
      → unwrap_or (parts t).max_fee_per_gas 0 ≤ max_u256
      → code p w.accounts from ≡ []
      → ((parts t).action ≡ Action.create → evm.check_create_origin from ≡ ok tt)
      → validate_transaction_in_block (context pallet w) from t ≡ ok tt
      → (r : Option ℕ × Option ℕ × CallOrCreateInfo) × ((execute pallet from t none w).1 ≡ ok r)
  validated-Executes w from t quiet funded bounded word eoa creator valid =
      executes p (fungible_adapter f author) evm config gas_config encoded_len w from quiet
        (λ fee le.
          let (paid, funds', e, moved) =
            withdraw_fee-Succeeds f author l from fee w.funds (omega (arith, le, funded)) in
          ((paid, funds'), e))
        t bounded word eoa valid creator
