-- ===== src/Precompiles/Set/Tests.antt =====
-- Runs of a set of precompiles, on a runtime whose state is the gas that is left.
use frontier.Base.{
  ℕ, ◌-◌, ◌≡◌, refl, true, false, none, some, [], ◌∷◌, ◌==◌, leb, if◌then◌else◌, ◌||◌,
}
use frontier.Evm.Weight.{ExitError, Result, ok, err}
use frontier.Precompiles.Checks.{
  Checks, Handle, IsPrecompileResult, PrecompileFailure, RevertMessage, Runtime,
  callable_by_precompile, callable_by_contract, common_checks, for_all_selectors, get_address_type,
  no_checks, record_db_read, subcall_with_max_nesting, tuple,
}
use frontier.Precompiles.Set.{
  Code, Event, Fragment, Fragments, State, call, execute, guarded, is_precompile, nested, run_code,
  says_true,
}
use frontier.Precompiles.Set.Composition.{IsPlain, answers, execute-answers, starting_with-captures}
use frontier.Precompiles.Set.Nesting.{Keeps, call-Keeps}

abbrev charge : ℕ → ℕ → Result ExitError ℕ
charge cost gas = if leb cost gas then ok (gas - cost) else err (ExitError.out_of_gas false)

-- The addresses 7 and 8 are precompiles, and 20 is a contract.
abbrev runtime : Runtime ℕ
runtime = record {
  remaining_gas = λ gas. gas;
  is_precompile = λ a gas. IsPrecompileResult.answer (a == 7 || a == 8) 0;
  is_contract_being_constructed = λ a gas. false;
  record_cost = charge;
  record_external_cost = λ ref_time proof_size growth gas. ok gas;
  db_read_gas_cost = 100;
  code_size = λ a gas. (if a == 20 then 5 else 0, gas);
}

abbrev to_seven : ℕ → Handle
to_seven caller = record { code_address = 7; address = 7; caller = caller; input = [] }

-- It calls itself, and gives back what that gives.
abbrev itself : ℕ → Handle → Code ℕ
itself gas h = Code.subcall gas (to_seven 7) (λ gas' reply. Code.done gas' reply)

abbrev nesting : Checks
nesting = tuple (
    subcall_with_max_nesting 1
    ∷ callable_by_precompile for_all_selectors
    ∷ callable_by_contract for_all_selectors
    ∷ [])

abbrev set : Fragment ℕ
set = Fragment.tuple (
    Fragments.cons (Fragment.removed_precompile_at 8)
      (Fragments.cons (Fragment.precompile_at 0 7 nesting itself) Fragments.nil))

abbrev start : State ℕ
start = record { levels = λ c a. 0; world = 1_000; log = [] }

abbrev contract : ℕ → Handle → Code ℕ
contract gas h = Code.done gas (ok [])

-- The third level is one too many.
third :
    (call runtime set contract 5 (to_seven 1) start).1
    ≡ err (PrecompileFailure.revert RevertMessage.too_high_nesting)
unfolding call execute guarded common_checks get_address_type record_db_read nested run_code tuple
third = refl

twice :
    (call runtime set contract 5 (to_seven 1) start).0.log
    ≡ Event.leave 0 7 ∷ Event.leave 0 7 ∷ Event.enter 0 7 1 ∷ Event.enter 0 7 1 ∷ []
unfolding call execute guarded common_checks get_address_type record_db_read nested run_code tuple
twice = refl

call-Keeps_example : Keeps start (call runtime set contract 5 (to_seven 1) start).0
call-Keeps_example =
    call-Keeps runtime set contract 5 (to_seven 1) start
      (record { level = λ c a. refl; within = tt })

execute-answers_example :
    answers (execute runtime (λ h st. (st, ok [])) set (to_seven 1) start).1
    ≡ says_true (is_precompile set 7 1_000)
unfolding IsPlain
execute-answers_example =
    execute-answers runtime (λ h st. (st, ok [])) set (to_seven 1) start 1_000 (tt, (tt, tt))

-- Its inner set has the addresses from 1,000 on; a contract that calls address 7 is refused.
abbrev prefixed : Fragment ℕ
prefixed =
    Fragment.starting_with 0 (leb 1_000) no_checks (λ gas h. none)
      (λ a gas. IsPrecompileResult.answer true 0)

starting_with-captures_example :
    ((execute runtime (λ h st. (st, ok [])) prefixed (to_seven 20) start).1
      ≡ some (err (PrecompileFailure.revert RevertMessage.not_by_contracts)))
    × (says_true (is_precompile prefixed 7 1_000) ≡ false)
unfolding common_checks get_address_type record_db_read
starting_with-captures_example =
    starting_with-captures runtime (λ h st. (st, ok [])) 0 (leb 1_000) no_checks (λ gas h. none)
      (λ a gas. IsPrecompileResult.answer true 0) (to_seven 20) start refl refl refl
