-- ===== src/Ethereum/Extrinsic/Tests.antt =====
-- A run of an extrinsic with an Ethereum transaction.
use frontier.Base.{ℕ, ◌+◌, ◌≡◌, refl, none, some}
use frontier.Evm.Weight.{ok}
use frontier.Evm.Gas.{gas_to_weight}
use frontier.Evm.Validation.{
  validate_in_block_for, with_balance_for, with_base_fee, with_chain_id,
  with_eip7702_authorization_list,
}
use frontier.Client.Consensus.{find_kind, find_pre_log}
use frontier.Ethereum.Transaction.{
  Action, Transaction, from_transaction, proof_size_base_cost, to_check_input,
}
use frontier.Ethereum.Validation as Validation
use frontier.Ethereum.Validation.{common_checks, transaction_weight, validate_transaction_in_block}
use frontier.Ethereum.Execute.{CallOrCreateInfo, execute, parts}
use frontier.Ethereum.Block.{Storage}
use frontier.Ethereum.Apply.{
  Outcome, PostDispatchInfo, apply_validated_transaction, outcome, post_info, record_execution,
}
use frontier.Ethereum.Hooks.{transact}
use frontier.Ethereum.Runs.{config, counter, info, legacy, outside, start}
use frontier.Ethereum.Extrinsic.{
  Preamble, RuntimeCall, System, apply, apply_checked, apply_self_contained, check,
  check_self_contained, pre_dispatch_self_contained,
}
use frontier.Ethereum.Extrinsic.Laws.{IsIncluded, apply_checked-IsIncluded}

-- The state of the system is the weight that is used; there are no other calls.
abbrev system : System ℕ
system = record {
  config = config;
  X = Unit;
  F = Unit;
  Z = ℕ;
  weight_validate = λ len z. ok len;
  weight_prepare = λ len next z. ok (z + next);
  bare_post_dispatch = λ len result z. ok z;
  check_generic = λ preamble x. ok tt;
  apply_generic = λ format call len st. none;
}

abbrev transfer : Transaction
transfer = legacy (Action.call 5)

abbrev result : Outcome
result = outcome 30 (some 5) (CallOrCreateInfo.call (info 0))

abbrev after : Storage outside
after = record_execution outside 30 1 transfer (some 5) result start

abbrev paid : PostDispatchInfo
paid = post_info counter.gas_config result

included :
    apply_checked system
      (check system (Preamble.unsigned 0) (RuntimeCall.ethereum_transact transfer))
      10
      (0, (0, start))
    ≡ some ((10, (1, after)), ok (ok paid))
unfolding check check_self_contained apply pre_dispatch_self_contained validate_transaction_in_block
    Validation.check from_transaction to_check_input transaction_weight proof_size_base_cost
    gas_to_weight common_checks validate_in_block_for with_chain_id with_base_fee with_balance_for
    with_eip7702_authorization_list apply_self_contained transact find_pre_log find_kind
    apply_validated_transaction execute parts
included = refl

apply_checked-IsIncluded_example : IsIncluded system transfer (0, start) (1, after) (ok paid)
apply_checked-IsIncluded_example =
    apply_checked-IsIncluded system (Preamble.unsigned 0) transfer 10 (0, (0, start))
      {st' = (10, (1, after))} included
