-- ===== src/Precompiles/Set.antt =====
-- Precompiles and sets of them, precompiles/src/precompile_set.rs. A precompile is a `Code` that may
-- call other addresses; the calls go through the set again, as in the executor of the evm crate,
-- whose limit on the depth of calls is a parameter. Execution is logged.
pub mod Composition
pub mod Nesting
mod Tests
use frontier.Base.{
  ℕ, zero, suc, ◌-◌, Bool, true, false, ◌&&◌, Option, none, some, List, [], ◌∷◌, ◌++◌, ◌==◌, leb,
  ltb, if◌then◌else◌, contains, nat_eq,
}
use frontier.Evm.Weight.{ExitError, Result, ok, err}
use frontier.Precompiles.Checks.{
  Checks, EvmResult, Handle, IsPrecompileResult, PrecompileFailure, RevertMessage, Runtime,
  common_checks, is_precompile_or_fail, or_else, unwrap_or_bool,
}

-- `PrecompileResult`, by the output.
abbrev pub PrecompileResult : Type 0
PrecompileResult = EvmResult (List ℕ)

-- The start of an execution in a cell at an address with a limit, and its end.
pub data Event : Type 0 where
  enter : ℕ → ℕ → ℕ → Event
  leave : ℕ → ℕ → Event

-- A run of code: it ends in a result, or calls an address and goes on with the reply.
pub data Code (S : Type 0) : Type 0 where
  done : S → PrecompileResult → Code S
  subcall : S → Handle → (S → PrecompileResult → Code S) → Code S

-- The recursion levels of each fragment (`current_recursion_level`, by a cell and an address), the
-- state of the executor, and the log, latest first. A level is a u16 in the source; that it
-- overflows at 65536 nested executions, far beyond the executor's depth of calls, is left out.
pub record State (S : Type 0) : Type 0 where
  pub levels : ℕ → ℕ → ℕ
  pub world : S
  pub log : List Event

abbrev pub set_level : ℕ → ℕ → ℕ → (ℕ → ℕ → ℕ) → ℕ → ℕ → ℕ
set_level cell address level levels c a = if c == cell && a == address then level else levels c a

mutual
  -- `PrecompileSetFragment`, by its implementations; `cell` names the level of an instance. The
  -- inner set of `starting_with` answers with the code to run, and for each address.
  pub data Fragment (S : Type 0) : Type 0 where
    precompile_at : ℕ → ℕ → Checks → (S → Handle → Code S) → Fragment S
    starting_with :
        ℕ
        → (ℕ → Bool)
        → Checks
        → (S → Handle → Option (Code S))
        → (ℕ → ℕ → IsPrecompileResult)
        → Fragment S
    revert_precompile : ℕ → Fragment S
    removed_precompiles_at : List ℕ → Fragment S
    removed_precompile_at : ℕ → Fragment S
    in_range : ℕ → ℕ → Fragment S → Fragment S
    tuple : Fragments S → Fragment S

  pub data Fragments (S : Type 0) : Type 0 where
    nil : Fragments S
    cons : Fragment S → Fragments S → Fragments S

abbrev pub too_high_nesting : PrecompileResult
too_high_nesting = err (PrecompileFailure.revert RevertMessage.too_high_nesting)

abbrev pub limit_of : Option (Option ℕ) → Option ℕ
limit_of none = some 0
limit_of (some limit) = limit

abbrev pub is_true : EvmResult Bool → Bool
is_true (ok b) = b
is_true (err e) = false

abbrev pub some_result : PrecompileResult → Option PrecompileResult
some_result result = some result

module _ {S : Type 0} where
  -- What a `RestrictiveHandle` does with a subcall, where `call` is that of the handle.
  unfoldable pub run_code :
      (Handle → State S → State S × PrecompileResult)
      → Bool
      → Code S
      → State S
      → State S × PrecompileResult
  run_code call allow_subcalls (Code.done s result) st = (record st { world = s }, result)
  run_code call true (Code.subcall s h k) st =
      let (st', reply) = call h (record st { world = s }) in
      run_code call true (k st'.world reply) st'
  run_code call false (Code.subcall s h k) st =
      run_code call false (k s (err (PrecompileFailure.revert RevertMessage.subcalls_disabled))) st

  abbrev pub enter_level : ℕ → ℕ → ℕ → State S → State S
  enter_level cell address limit st = record st {
    levels = set_level cell address (suc (st.levels cell address)) st.levels;
    log = Event.enter cell address limit ∷ st.log;
  }

  abbrev pub leave_level : ℕ → ℕ → State S → State S
  leave_level cell address st = record st {
    levels = set_level cell address (st.levels cell address - 1) st.levels;
    log = Event.leave cell address ∷ st.log;
  }

  -- Between the two blocks that count the level; `none` is no limit.
  unfoldable pub nested :
      {A : Type 0}
      → Option ℕ
      → ℕ
      → ℕ
      → (PrecompileResult → A)
      → (State S → State S × A)
      → State S
      → State S × A
  nested none cell address answer run st = run st
  nested (some limit) cell address answer run st =
      if ltb limit (st.levels cell address)
      then (st, answer too_high_nesting)
      else (let (st', result) = run (enter_level cell address limit st) in
          (leave_level cell address st', result))

  -- What follows the common checks.
  abbrev pub checked :
      {A : Type 0}
      → State S
      → S × EvmResult (Unit {0})
      → (PrecompileResult → A)
      → (State S → State S × A)
      → State S × A
  checked st (s, ok passed) answer k = k (record st { world = s })
  checked st (s, err e) answer k = (record st { world = s }, answer (err e))

module _ {S : Type 0} (r : Runtime S) (call : Handle → State S → State S × PrecompileResult) where
  abbrev pub Answer : Type 0
  Answer = State S × Option PrecompileResult

  abbrev pub run_some : Bool → Option (Code S) → State S → Answer
  run_some allow none st = (st, none)
  run_some allow (some code) st =
      let (st', result) = run_code call allow code st in (st', some result)

  -- The body that `PrecompileAt` and `PrecompileSetStartingWith` share, from the common checks on.
  unfoldable pub guarded : ℕ → Checks → (S → Handle → Option (Code S)) → Handle → State S → Answer
  guarded cell c code h st = checked st (common_checks r c h st.world) some_result (
      nested (limit_of c.recursion_limit) cell h.code_address some_result
        (λ st'. run_some (unwrap_or_bool c.allow_subcalls false) (code st'.world h) st'))

  abbrev pub refuse_if : Bool → RevertMessage → State S → Answer
  refuse_if true message st = (st, some (err (PrecompileFailure.revert message)))
  refuse_if false message st = (st, none)

  abbrev pub otherwise : Answer → (State S → Answer) → Answer
  otherwise (st, some result) k = (st, some result)
  otherwise (st, none) k = k st

  abbrev pub only_if : Bool → State S → Answer → Answer
  only_if true st a = a
  only_if false st a = (st, none)

  unfoldable mutual
    pub execute : Fragment S → Handle → State S → Answer
    execute (Fragment.precompile_at cell a c code) h st =
        only_if (a == h.code_address) st (guarded cell c (λ s h'. some (code s h')) h st)
    execute (Fragment.starting_with cell prefix c code inner) h st =
        only_if (is_true (is_precompile_or_fail r h.code_address (r.remaining_gas st.world))) st
          (guarded cell c code h st)
    execute (Fragment.revert_precompile a) h st =
        refuse_if (a == h.code_address) RevertMessage.always_reverts st
    execute (Fragment.removed_precompiles_at as') h st =
        refuse_if (contains as' h.code_address) RevertMessage.removed st
    execute (Fragment.removed_precompile_at a) h st =
        refuse_if (a == h.code_address) RevertMessage.removed st
    execute (Fragment.in_range first last f) h st =
        only_if (leb first h.code_address && leb h.code_address last) st (execute f h st)
    execute (Fragment.tuple fs) h st = execute_all fs h st

    pub execute_all : Fragments S → Handle → State S → Answer
    execute_all Fragments.nil h st = (st, none)
    execute_all (Fragments.cons f fs) h st =
        otherwise (execute f h st) (λ st'. execute_all fs h st')

-- `is_precompile`, by the address and the gas.
abbrev pub at_no_cost : Bool → IsPrecompileResult
at_no_cost b = IsPrecompileResult.answer b 0

abbrev pub says_true : IsPrecompileResult → Bool
says_true (IsPrecompileResult.answer b cost) = b
says_true IsPrecompileResult.out_of_gas = false

module _ {S : Type 0} where
  unfoldable mutual
    pub is_precompile : Fragment S → ℕ → ℕ → IsPrecompileResult
    is_precompile (Fragment.precompile_at cell a c code) address gas = at_no_cost (address == a)
    is_precompile (Fragment.starting_with cell prefix c code inner) address gas =
        if prefix address then inner address gas else at_no_cost false
    is_precompile (Fragment.revert_precompile a) address gas = at_no_cost (address == a)
    is_precompile (Fragment.removed_precompiles_at as') address gas =
        at_no_cost (contains as' address)
    is_precompile (Fragment.removed_precompile_at a) address gas = at_no_cost (address == a)
    is_precompile (Fragment.in_range first last f) address gas =
        if leb first address && leb address last
        then is_precompile f address gas
        else at_no_cost false
    is_precompile (Fragment.tuple fs) address gas = is_precompile_all fs address gas

    pub is_precompile_all : Fragments S → ℕ → ℕ → IsPrecompileResult
    is_precompile_all Fragments.nil address gas = at_no_cost false
    is_precompile_all (Fragments.cons f fs) address gas =
        if says_true (is_precompile f address gas)
        then at_no_cost true
        else is_precompile_all fs address gas

-- A call of an address with `depth` calls still allowed: the set answers, or else a contract runs.
module _ {S : Type 0} (r : Runtime S) (set : Fragment S) (contract : S → Handle → Code S) where
  abbrev pub or_contract :
      (Handle → State S → State S × PrecompileResult)
      → Handle
      → State S × Option PrecompileResult
      → State S × PrecompileResult
  or_contract call h (st, some result) = (st, result)
  or_contract call h (st, none) = run_code call true (contract st.world h) st

  unfoldable pub call : ℕ → Handle → State S → State S × PrecompileResult
  call zero h st = (st, err (PrecompileFailure.error (ExitError.other 0)))
  call (suc depth) h st = or_contract (call depth) h (execute r (call depth) set h st)
