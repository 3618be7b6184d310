-- ===== src/Rpc/Estimate/Exits.antt =====
-- The exits that `estimate_gas` of client/rpc/src/eth/execute.rs lets pass.
use frontier.Base.{ℕ, ◌≡◌, refl, arith, Bool, true, false, List}
use frontier.Evm.Weight.{ExitError, Result, ok}
use frontier.Evm.Runner.Execute.{ExitReason}
use frontier.Rpc.Request.{RpcError, ExecutableResult, error_on_execution_failure}
use frontier.Rpc.Estimate.{Verdict, verdict, check_again, check_exit}

error_on_execution_failure-enough :
    (reason : ExitReason) (output : List ℕ)
    → error_on_execution_failure reason output ≡ ok tt
    → verdict reason output ≡ Verdict.enough
unfolding error_on_execution_failure verdict
error_on_execution_failure-enough (ExitReason.succeed kind) output e = refl
error_on_execution_failure-enough (ExitReason.error (ExitError.out_of_gas raised)) output e =
    absurd (ground arith)
error_on_execution_failure-enough (ExitReason.error ExitError.out_of_fund) output e =
    absurd (ground arith)
error_on_execution_failure-enough (ExitReason.error (ExitError.invalid_code n)) output e =
    absurd (ground arith)
error_on_execution_failure-enough (ExitReason.error (ExitError.other n)) output e =
    absurd (ground arith)
error_on_execution_failure-enough (ExitReason.revert kind) output e = absurd (ground arith)
error_on_execution_failure-enough (ExitReason.fatal kind) output e = absurd (ground arith)

check_again-refuses :
    (cap : ℕ) (again : Result RpcError ExecutableResult) → ¬ (check_again cap again ≡ ok tt)
unfolding check_again error_on_execution_failure
check_again-refuses cap again e = ground arith

pub check_exit-enough :
    (cap : ℕ) (named : Bool) (again : Result RpcError ExecutableResult) (reason : ExitReason)
    (output : List ℕ)
    → check_exit cap named again reason output ≡ ok tt
    → verdict reason output ≡ Verdict.enough
unfolding check_exit
check_exit-enough cap named again (ExitReason.succeed kind) output e =
    error_on_execution_failure-enough (ExitReason.succeed kind) output e
check_exit-enough cap named again (ExitReason.error (ExitError.out_of_gas raised)) output e =
    absurd (ground arith)
check_exit-enough cap named again (ExitReason.error ExitError.out_of_fund) output e =
    error_on_execution_failure-enough (ExitReason.error ExitError.out_of_fund) output e
check_exit-enough cap named again (ExitReason.error (ExitError.invalid_code n)) output e =
    error_on_execution_failure-enough (ExitReason.error (ExitError.invalid_code n)) output e
check_exit-enough cap named again (ExitReason.error (ExitError.other n)) output e =
    error_on_execution_failure-enough (ExitReason.error (ExitError.other n)) output e
check_exit-enough cap true again (ExitReason.revert kind) output e =
    absurd (check_again-refuses cap again e)
check_exit-enough cap false again (ExitReason.revert kind) output e =
    error_on_execution_failure-enough (ExitReason.revert kind) output e
check_exit-enough cap named again (ExitReason.fatal kind) output e =
    error_on_execution_failure-enough (ExitReason.fatal kind) output e
