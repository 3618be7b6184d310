-- ===== src/Precompiles/Set/Nesting.antt =====
-- The nesting of precompiles that the recursion levels of precompiles/src/precompile_set.rs allow.
use frontier.Base.{
  ℕ, zero, suc, ◌-◌, ◌≤◌, ◌≡◌, refl, ◌∙◌, arith, Bool, Bool-cases, inl, inr, true, false, ◌&&◌,
  Option, none, some, List, [], ◌∷◌, ◌==◌, ltb, if◌then◌else◌,
}
use frontier.Evm.Weight.{ok, err}
use frontier.Precompiles.Checks.{
  Checks, EvmResult, Handle, PrecompileFailure, RevertMessage, Runtime,
}
use frontier.Precompiles.Set.{
  Answer, Code, Event, Fragment, Fragments, PrecompileResult, State, call, checked, enter_level,
  execute, execute_all, guarded, leave_level, limit_of, nested, only_if, or_contract, otherwise,
  refuse_if, run_code, run_some, some_result,
}

-- The executions in a cell at an address that have started and not ended.
abbrev pub open_count : ℕ → ℕ → List Event → ℕ
open_count c a [] = 0
open_count c a (Event.enter cell address limit ∷ log) =
    if c == cell && a == address then suc (open_count c a log) else open_count c a log
open_count c a (Event.leave cell address ∷ log) =
    if c == cell && a == address then open_count c a log - 1 else open_count c a log

-- Each execution starts while no more than its limit are open, and ends while one is open.
abbrev pub IsWithin : List Event → Type 0
IsWithin [] = Unit
IsWithin (Event.enter cell address limit ∷ log) =
    (open_count cell address log ≤ limit) × IsWithin log
IsWithin (Event.leave cell address ∷ log) = (1 ≤ open_count cell address log) × IsWithin log

module _ {S : Type 0} where
  pub record IsCounted (st : State S) : Type 0 where
    pub level : (c a : ℕ) → st.levels c a ≡ open_count c a st.log
    pub within : IsWithin st.log

  -- From one state to another with the same levels.
  pub record Keeps (st st' : State S) : Type 0 where
    pub counted : IsCounted st'
    pub same : (c a : ℕ) → st'.levels c a ≡ st.levels c a

  world-Keeps : (st : State S) (s : S) → IsCounted st → Keeps st (record st { world = s })
  world-Keeps st s i = record {
    counted = record { level = i.level; within = i.within };
    same = λ c a. refl;
  }

  trans-Keeps : (st st' st'' : State S) → Keeps st st' → Keeps st' st'' → Keeps st st''
  trans-Keeps st st' st'' k k' = record {
    counted = k'.counted;
    same = λ c a. k'.same c a ∙ k.same c a;
  }

  enter-IsCounted :
      (cell address limit : ℕ) (st : State S)
      → IsCounted st
      → st.levels cell address ≤ limit
      → IsCounted (enter_level cell address limit st)
  enter-IsCounted cell address limit st i le = record {
    level = λ c a. ground (arith, i.level c a, i.level cell address);
    within = (ground (arith, i.level cell address, le), i.within);
  }

  -- After an execution that kept the levels.
  leave-Keeps :
      (cell address limit : ℕ) (st st' : State S)
      → Keeps (enter_level cell address limit st) st'
      → Keeps st (leave_level cell address st')
  leave-Keeps cell address limit st st' k = record {
    counted = record {
      level = λ c a. ground (arith, k.counted.level c a, k.counted.level cell address);
      within =
          (ground (arith, k.counted.level cell address, k.same cell address), k.counted.within);
    };
    same = λ c a. ground (arith, k.same c a, k.same cell address);
  }

  nested-Keeps :
      {A : Type 0} (limit : Option ℕ) (cell address : ℕ) (answer : PrecompileResult → A)
      (run : State S → State S × A)
      → ((st : State S) → IsCounted st → Keeps st (run st).0)
      → (st : State S) → IsCounted st
      → Keeps st (nested limit cell address answer run st).0
  unfolding nested
  nested-Keeps none cell address answer run k st i = k st i
  nested-Keeps (some limit) cell address answer run k st i =
      elim (Bool-cases (ltb limit (st.levels cell address))) [
        | inl over ↦ rw over (world-Keeps st st.world i)
        | inr fits ↦
            let entered = enter_level cell address limit st in
            rw fits (
              leave-Keeps cell address limit st (run entered).0
                (k entered (enter-IsCounted cell address limit st i (ground (arith, fits)))))
      ]

  module _ (call' : Handle → State S → State S × PrecompileResult)
      (keeps : (h : Handle) (st : State S) → IsCounted st → Keeps st (call' h st).0) where
    run_code-Keeps :
        (allow : Bool) (code : Code S) (st : State S)
        → IsCounted st
        → Keeps st (run_code call' allow code st).0
    unfolding run_code
    run_code-Keeps allow (Code.done s result) st i = world-Keeps st s i
    run_code-Keeps true (Code.subcall s h k) st i =
        let there = world-Keeps st s i in
        let after = call' h (record st { world = s }) in
        let back = keeps h (record st { world = s }) there.counted in
        trans-Keeps st after.0 _ (trans-Keeps st (record st { world = s }) after.0 there back)
          (run_code-Keeps true (k after.0.world after.1) after.0 back.counted)
    run_code-Keeps false (Code.subcall s h k) st i =
        run_code-Keeps false (k s (err (PrecompileFailure.revert RevertMessage.subcalls_disabled)))
          st i

    run_some-Keeps :
        (r : Runtime S) (allow : Bool) (code : Option (Code S)) (st : State S)
        → IsCounted st
        → Keeps st (run_some r call' allow code st).0
    run_some-Keeps r allow none st i = world-Keeps st st.world i
    run_some-Keeps r allow (some code) st i = run_code-Keeps allow code st i

    checked-Keeps :
        {A : Type 0} (st : State S) (p : S × EvmResult (Unit {0})) (answer : PrecompileResult → A)
        (run : State S → State S × A)
        → ((st : State S) → IsCounted st → Keeps st (run st).0)
        → IsCounted st
        → Keeps st (checked st p answer run).0
    checked-Keeps st (s, ok passed) answer run k i =
        let there = world-Keeps st s i in
        trans-Keeps st (record st { world = s }) _ there (k (record st { world = s }) there.counted)
    checked-Keeps st (s, err e) answer run k i = world-Keeps st s i

    guarded-Keeps :
        (r : Runtime S) (cell : ℕ) (c : Checks) (code : S → Handle → Option (Code S)) (h : Handle)
        (st : State S)
        → IsCounted st
        → Keeps st (guarded r call' cell c code h st).0
    unfolding guarded
    guarded-Keeps r cell c code h st i =
        checked-Keeps st _ some_result _
          (nested-Keeps (limit_of c.recursion_limit) cell h.code_address some_result _
            (λ st'. run_some-Keeps r _ (code st'.world h) st'))
          i

    only_if-Keeps :
        (r : Runtime S) (b : Bool) (st : State S) (a : Answer r call')
        → IsCounted st
        → Keeps st a.0
        → Keeps st (only_if r call' b st a).0
    only_if-Keeps r true st a i k = k
    only_if-Keeps r false st a i k = world-Keeps st st.world i

    refuse_if-Keeps :
        (r : Runtime S) (b : Bool) (message : RevertMessage) (st : State S)
        → IsCounted st
        → Keeps st (refuse_if r call' b message st).0
    refuse_if-Keeps r true message st i = world-Keeps st st.world i
    refuse_if-Keeps r false message st i = world-Keeps st st.world i

    otherwise-Keeps :
        (r : Runtime S) (st : State S) (a : Answer r call') (k : State S → Answer r call')
        → ((st : State S) → IsCounted st → Keeps st (k st).0)
        → Keeps st a.0
        → Keeps st (otherwise r call' a k).0
    otherwise-Keeps r st (st', some result) k kk kept = kept
    otherwise-Keeps r st (st', none) k kk kept =
        trans-Keeps st st' (k st').0 kept (kk st' kept.counted)

    mutual
      unfolding execute

      execute-Keeps :
          (r : Runtime S) (f : Fragment S) (h : Handle) (st : State S)
          → IsCounted st
          → Keeps st (execute r call' f h st).0
      execute-Keeps r (Fragment.precompile_at cell a c code) h st i =
          only_if-Keeps r _ st _ i (guarded-Keeps r cell c _ h st i)
      execute-Keeps r (Fragment.starting_with cell prefix c code inner) h st i =
          only_if-Keeps r _ st _ i (guarded-Keeps r cell c code h st i)
      execute-Keeps r (Fragment.revert_precompile a) h st i = refuse_if-Keeps r _ _ st i
      execute-Keeps r (Fragment.removed_precompiles_at as') h st i = refuse_if-Keeps r _ _ st i
      execute-Keeps r (Fragment.removed_precompile_at a) h st i = refuse_if-Keeps r _ _ st i
      execute-Keeps r (Fragment.in_range first last f) h st i =
          only_if-Keeps r _ st _ i (execute-Keeps r f h st i)
      execute-Keeps r (Fragment.tuple fs) h st i = execute_all-Keeps r fs h st i

      execute_all-Keeps :
          (r : Runtime S) (fs : Fragments S) (h : Handle) (st : State S)
          → IsCounted st
          → Keeps st (execute_all r call' fs h st).0
      execute_all-Keeps r Fragments.nil h st i = world-Keeps st st.world i
      execute_all-Keeps r (Fragments.cons f fs) h st i =
          otherwise-Keeps r st (execute r call' f h st) (execute_all r call' fs h)
            (λ st' i'. execute_all-Keeps r fs h st' i') (execute-Keeps r f h st i)

  module _ (r : Runtime S) (set : Fragment S) (contract : S → Handle → Code S) where
    or_contract-Keeps :
        (depth : ℕ) (h : Handle) (st : State S) (a : State S × Option PrecompileResult)
        → ((h : Handle) (st : State S) → IsCounted st → Keeps st (call r set contract depth h st).0)
        → Keeps st a.0
        → Keeps st (or_contract r set contract (call r set contract depth) h a).0
    or_contract-Keeps depth h st (st', some result) kk kept = kept
    or_contract-Keeps depth h st (st', none) kk kept =
        trans-Keeps st st' _ kept (
          run_code-Keeps (call r set contract depth) kk true (contract st'.world h) st'
            kept.counted)

    -- From a state whose recursion levels count the open executions of its log: whatever contracts
    -- and precompiles a call runs, to any depth, and whatever their results, each execution of a
    -- precompile under a limit starts while at most that many are open in its fragment at its
    -- address, the levels still count the open ones, and at the end they are those of the start.
    pub call-Keeps :
        (depth : ℕ) (h : Handle) (st : State S)
        → IsCounted st
        → Keeps st (call r set contract depth h st).0
    unfolding call
    call-Keeps zero h st i = world-Keeps st st.world i
    call-Keeps (suc depth) h st i =
        or_contract-Keeps depth h st (execute r (call r set contract depth) set h st)
          (call-Keeps depth)
          (execute-Keeps (call r set contract depth) (call-Keeps depth) r set h st i)
