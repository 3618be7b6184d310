-- ===== src/Precompiles/Set/Composition.antt =====
-- Which addresses a set of precompiles answers for, precompiles/src/precompile_set.rs.
use frontier.Base.{
  ℕ, ◌≡◌, refl, sym, ◌∙◌, arith, Bool, Bool-cases, inl, inr, true, false, ◌&&◌, ◌||◌, Option, none,
  some, ◌==◌, ltb, leb, if◌then◌else◌, contains, nat_eq,
}
use frontier.Evm.Weight.{ok, err}
use frontier.Precompiles.Checks.{
  Checks, EvmResult, Handle, IsPrecompileResult, PrecompileFailure, RevertMessage, Runtime,
  common_checks,
}
use frontier.Precompiles.Set.{
  Answer, Code, Fragment, Fragments, PrecompileResult, State, at_no_cost, checked, execute,
  execute_all, guarded, is_precompile, is_precompile_all, limit_of, nested, only_if, otherwise,
  refuse_if, says_true, some_result,
}

-- No part of the set is one with a prefix.
unfoldable mutual
  pub IsPlain : {S : Type 0} → Fragment S → Type 0
  IsPlain (Fragment.precompile_at cell a c code) = Unit
  IsPlain (Fragment.starting_with cell prefix c code inner) = true ≡ false
  IsPlain (Fragment.revert_precompile a) = Unit
  IsPlain (Fragment.removed_precompiles_at as') = Unit
  IsPlain (Fragment.removed_precompile_at a) = Unit
  IsPlain (Fragment.in_range first last f) = IsPlain f
  IsPlain (Fragment.tuple fs) = ArePlain fs

  pub ArePlain : {S : Type 0} → Fragments S → Type 0
  ArePlain Fragments.nil = Unit
  ArePlain (Fragments.cons f fs) = IsPlain f × ArePlain fs

abbrev pub answers : Option PrecompileResult → Bool
answers none = false
answers (some result) = true

module _ {S : Type 0} (r : Runtime S) (call' : Handle → State S → State S × PrecompileResult) where
  nested-answers :
      (limit : Option ℕ) (cell address : ℕ) (run : State S → Answer r call') (st : State S)
      → ((st : State S) → answers (run st).1 ≡ true)
      → answers (nested limit cell address some_result run st).1 ≡ true
  unfolding nested
  nested-answers none cell address run st k = k st
  nested-answers (some limit) cell address run st k =
      elim (Bool-cases (ltb limit (st.levels cell address))) [
        | inl over ↦ rw over refl
        | inr fits ↦ rw fits (k _)
      ]

  checked-answers :
      (st : State S) (p : S × EvmResult (Unit {0})) (run : State S → Answer r call')
      → ((st : State S) → answers (run st).1 ≡ true)
      → answers (checked st p some_result run).1 ≡ true
  checked-answers st (s, ok passed) run k = k _
  checked-answers st (s, err e) run k = refl

  guarded-answers :
      (cell : ℕ) (c : Checks) (code : S → Handle → Code S) (h : Handle) (st : State S)
      → answers (guarded r call' cell c (λ s h'. some (code s h')) h st).1 ≡ true
  unfolding guarded
  guarded-answers cell c code h st =
      checked-answers st _ _ (λ st'.
        nested-answers (limit_of c.recursion_limit) cell h.code_address _ st' (λ st''. refl))

  only_if-answers :
      (b : Bool) (st : State S) (a : Answer r call')
      → answers (only_if r call' b st a).1 ≡ (b && answers a.1)
  only_if-answers true st a = refl
  only_if-answers false st a = refl

  refuse_if-answers :
      (b : Bool) (message : RevertMessage) (st : State S)
      → answers (refuse_if r call' b message st).1 ≡ b
  refuse_if-answers true message st = refl
  refuse_if-answers false message st = refl

  range-answers :
      (inside : Bool) (p : IsPrecompileResult) {b : Bool}
      → b ≡ says_true p
      → (inside && b) ≡ says_true (if inside then p else at_no_cost false)
  range-answers true p h = h
  range-answers false p h = refl

  otherwise-answers :
      (a : Answer r call') (k : State S → Answer r call') {b rest : Bool}
      → answers a.1 ≡ b
      → ((st : State S) → answers (k st).1 ≡ rest)
      → answers (otherwise r call' a k).1 ≡ (b || rest)
  otherwise-answers (st, some result) k {b} {rest} h hk = rw (sym h) refl
  otherwise-answers (st, none) k {b} {rest} h hk = rw (sym h) (hk st)

  cons-answers :
      (b : Bool) (rest : IsPrecompileResult)
      → (b || says_true rest) ≡ says_true (if b then at_no_cost true else rest)
  cons-answers true rest = refl
  cons-answers false rest = refl

  mutual
    unfolding execute is_precompile IsPlain

    answer_of :
        (f : Fragment S) (h : Handle) (st : State S) (gas : ℕ)
        → IsPlain f
        → answers (execute r call' f h st).1 ≡ says_true (is_precompile f h.code_address gas)
    answer_of (Fragment.precompile_at cell a c code) h st gas plain =
        only_if-answers (a == h.code_address) st
          (guarded r call' cell c (λ s h'. some (code s h')) h st)
        ∙ rw (guarded-answers cell c code h st) (ground arith)
    answer_of (Fragment.starting_with cell prefix c code inner) h st gas plain =
        let no : true ≡ false = plain in absurd (ground (arith, no))
    answer_of (Fragment.revert_precompile a) h st gas plain =
        refuse_if-answers (a == h.code_address) _ st ∙ ground arith
    answer_of (Fragment.removed_precompiles_at as') h st gas plain =
        refuse_if-answers (contains as' h.code_address) _ st
    answer_of (Fragment.removed_precompile_at a) h st gas plain =
        refuse_if-answers (a == h.code_address) _ st ∙ ground arith
    answer_of (Fragment.in_range first last f) h st gas plain =
        let inside = leb first h.code_address && leb h.code_address last in
        only_if-answers inside st (execute r call' f h st)
        ∙ range-answers inside (is_precompile f h.code_address gas) (answer_of f h st gas plain)
    answer_of (Fragment.tuple fs) h st gas plain = answer_of_all fs h st gas plain

    answer_of_all :
        (fs : Fragments S) (h : Handle) (st : State S) (gas : ℕ)
        → ArePlain fs
        → answers (execute_all r call' fs h st).1
          ≡ says_true (is_precompile_all fs h.code_address gas)
    answer_of_all Fragments.nil h st gas plain = refl
    answer_of_all (Fragments.cons f fs) h st gas (plain, plains) =
        otherwise-answers (execute r call' f h st) (execute_all r call' fs h)
          (answer_of f h st gas plain) (λ st'. answer_of_all fs h st' gas plains)
        ∙ cons-answers (says_true (is_precompile f h.code_address gas))
            (is_precompile_all fs h.code_address gas)

  -- In any state of the execution, a set without parts with a prefix gives an answer to a call
  -- exactly when it says that the called address is one of its precompiles, at any gas; the
  -- answer may be an error.
  pub execute-answers :
      (f : Fragment S) (h : Handle) (st : State S) (gas : ℕ)
      → IsPlain f
      → answers (execute r call' f h st).1 ≡ says_true (is_precompile f h.code_address gas)
  execute-answers f h st gas plain = answer_of f h st gas plain

  -- A set with a prefix answers by the precompiles of the whole runtime, not by its own: where the
  -- runtime has a precompile at an address without the prefix, and the checks of this set refuse
  -- the call, the set answers with their error, although it does not have the address.
  pub starting_with-captures :
      (cell : ℕ) (prefix : ℕ → Bool) (c : Checks) (code : S → Handle → Option (Code S))
      (inner : ℕ → ℕ → IsPrecompileResult) (h : Handle) (st : State S) {cost : ℕ} {s : S}
      {e : PrecompileFailure}
      → prefix h.code_address ≡ false
      → r.is_precompile h.code_address (r.remaining_gas st.world)
        ≡ IsPrecompileResult.answer true cost
      → common_checks r c h st.world ≡ (s, err e)
      → ((execute r call' (Fragment.starting_with cell prefix c code inner) h st).1 ≡ some (err e))
        × (says_true (
              is_precompile
                (Fragment.starting_with cell prefix c code inner)
                h.code_address
                (r.remaining_gas st.world))
            ≡ false)
  unfolding execute is_precompile guarded
  starting_with-captures cell prefix c code inner h st outside known refused =
      (rw (known, refused) refl, rw outside refl)
