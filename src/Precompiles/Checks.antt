-- ===== src/Precompiles/Checks.antt =====
-- The checks on a call of a precompile, precompiles/src/precompile_set.rs.
use frontier.Base.{
  ℕ, ◌+◌, ◌*◌, Bool, true, false, not, ◌&&◌, Option, none, some, List, [], ◌∷◌, ◌==◌, if◌then◌else◌,
}
use frontier.Evm.Weight.{ExitError, Result, ok, err}

-- `IsPrecompileResult` of the evm crate.
pub data IsPrecompileResult : Type 0 where
  answer : Bool → ℕ → IsPrecompileResult
  out_of_gas : IsPrecompileResult

-- The reverts of this file; `own` is one of a precompile itself.
pub data RevertMessage : Type 0 where
  delegate_call not_by_precompiles not_by_contracts too_high_nesting : RevertMessage
  subcalls_disabled always_reverts removed : RevertMessage
  own : List ℕ → RevertMessage

-- `PrecompileFailure` of the evm crate.
pub data PrecompileFailure : Type 0 where
  error : ExitError → PrecompileFailure
  revert : RevertMessage → PrecompileFailure

abbrev pub EvmResult : Type 0 → Type 0
EvmResult A = Result PrecompileFailure A

-- `PrecompileChecks`
pub record Checks : Type 0 where
  pub recursion_limit : Option (Option ℕ)
  pub accept_delegate_call : Option Bool
  pub callable_by_smart_contract : ℕ → Option ℕ → Option Bool
  pub callable_by_precompile : ℕ → Option ℕ → Option Bool
  pub allow_subcalls : Option Bool

-- The defaults of the trait.
abbrev pub no_checks : Checks
no_checks = record {
  recursion_limit = none;
  accept_delegate_call = none;
  callable_by_smart_contract = λ caller selector. none;
  callable_by_precompile = λ caller selector. none;
  allow_subcalls = none;
}

abbrev pub or_else : {A : Type 0} → Option A → Option A → Option A
or_else (some a) o = some a
or_else none o = o

-- A tuple of checks: the first that decides.
unfoldable pub tuple : List Checks → Checks
tuple [] = no_checks
tuple (c ∷ cs) =
    let rest = tuple cs in
    record {
      recursion_limit = or_else c.recursion_limit rest.recursion_limit;
      accept_delegate_call = or_else c.accept_delegate_call rest.accept_delegate_call;
      callable_by_smart_contract = λ caller selector.
          or_else (c.callable_by_smart_contract caller selector)
            (rest.callable_by_smart_contract caller selector);
      callable_by_precompile = λ caller selector.
          or_else (c.callable_by_precompile caller selector)
            (rest.callable_by_precompile caller selector);
      allow_subcalls = or_else c.allow_subcalls rest.allow_subcalls;
    }

abbrev pub accept_delegate_call : Checks
accept_delegate_call = record no_checks { accept_delegate_call = some true }

abbrev pub subcall_with_max_nesting : ℕ → Checks
subcall_with_max_nesting limit = record no_checks {
  recursion_limit = some (some limit);
  allow_subcalls = some true;
}

-- `SelectorFilter`
abbrev pub SelectorFilter : Type 0
SelectorFilter = ℕ → Option ℕ → Bool

abbrev pub for_all_selectors : SelectorFilter
for_all_selectors caller selector = true

abbrev pub only_from : ℕ → SelectorFilter
only_from who caller selector = caller == who

abbrev pub callable_by_contract : SelectorFilter → Checks
callable_by_contract filter = record no_checks {
  callable_by_smart_contract = λ caller selector. some (filter caller selector);
}

abbrev pub callable_by_precompile : SelectorFilter → Checks
callable_by_precompile filter = record no_checks {
  callable_by_precompile = λ caller selector. some (filter caller selector);
}

-- What a handle says of the call: `address` and `caller` are of its context.
pub record Handle : Type 0 where
  pub code_address : ℕ
  pub address : ℕ
  pub caller : ℕ
  pub input : List ℕ

-- What the handle and the runtime answer, on a state `S`.
pub record Runtime (S : Type 0) : Type 0 where
  pub remaining_gas : S → ℕ
  pub is_precompile : ℕ → ℕ → IsPrecompileResult
  pub is_contract_being_constructed : ℕ → S → Bool
  pub record_cost : ℕ → S → Result ExitError S
  pub record_external_cost : Option ℕ → Option ℕ → Option ℕ → S → Result ExitError S
  pub db_read_gas_cost : ℕ
  pub code_size : ℕ → S → ℕ × S

pub data AddressType : Type 0 where
  eoa precompile contract : AddressType

abbrev pub unwrap_or_bool : Option Bool → Bool → Bool
unwrap_or_bool none d = d
unwrap_or_bool (some b) d = b

-- `selector`: the first four bytes, big endian.
abbrev pub selector : List ℕ → Option ℕ
selector (a ∷ b ∷ c ∷ d ∷ bytes) = some (((a * 256 + b) * 256 + c) * 256 + d)
selector _ = none

abbrev pub account_codes_metadata_proof_size : ℕ
account_codes_metadata_proof_size = 76

abbrev pub is_precompile_of : IsPrecompileResult → EvmResult Bool
is_precompile_of (IsPrecompileResult.answer is_precompile extra_cost) = ok is_precompile
is_precompile_of IsPrecompileResult.out_of_gas =
    err (PrecompileFailure.error (ExitError.out_of_gas false))

module _ {S : Type 0} (r : Runtime S) where
  abbrev pub is_precompile_or_fail : ℕ → ℕ → EvmResult Bool
  is_precompile_or_fail address gas = is_precompile_of (r.is_precompile address gas)

  abbrev pub is_ok_true : EvmResult Bool → Bool
  is_ok_true (ok b) = b
  is_ok_true (err e) = false

  abbrev pub and_then : Result ExitError S → (S → Result ExitError S) → Result ExitError S
  and_then (ok s) k = k s
  and_then (err e) k = err e

  -- `PrecompileHandleExt::record_db_read`
  unfoldable pub record_db_read : ℕ → S → Result ExitError S
  record_db_read data_max_encoded_len s =
      and_then (r.record_cost r.db_read_gas_cost s)
        (r.record_external_cost none (some data_max_encoded_len) none)

  -- No code is an account of its owner.
  abbrev pub by_code : ℕ × S → AddressType × S
  by_code (size, s) = (if size == 0 then AddressType.eoa else AddressType.contract, s)

  abbrev pub by_metadata : ℕ → Result ExitError S → Result ExitError (AddressType × S)
  by_metadata address (err e) = err e
  by_metadata address (ok s) = ok (by_code (r.code_size address s))

  unfoldable pub get_address_type : ℕ → S → Result ExitError (AddressType × S)
  get_address_type address s =
      if is_ok_true (is_precompile_or_fail address (r.remaining_gas s))
      then ok (AddressType.precompile, s)
      else if r.is_contract_being_constructed address s
      then ok (AddressType.contract, s)
      else by_metadata address (record_db_read account_codes_metadata_proof_size s)

  abbrev pub allow_if : Bool → RevertMessage → S → S × EvmResult (Unit {0})
  allow_if true message s = (s, ok tt)
  allow_if false message s = (s, err (PrecompileFailure.revert message))

  -- The match on the caller's type; an error of the gas leaves the state of before.
  abbrev pub caller_allowed :
      Checks → Handle → S → Result ExitError (AddressType × S) → S × EvmResult (Unit {0})
  caller_allowed c h s (err e) = (s, err (PrecompileFailure.error e))
  caller_allowed c h s (ok (AddressType.eoa, s')) = (s', ok tt)
  caller_allowed c h s (ok (AddressType.precompile, s')) =
      allow_if (unwrap_or_bool (c.callable_by_precompile h.caller (selector h.input)) false)
        RevertMessage.not_by_precompiles s'
  caller_allowed c h s (ok (AddressType.contract, s')) =
      allow_if (unwrap_or_bool (c.callable_by_smart_contract h.caller (selector h.input)) false)
        RevertMessage.not_by_contracts s'

  unfoldable pub common_checks : Checks → Handle → S → S × EvmResult (Unit {0})
  common_checks c h s =
      if not (unwrap_or_bool c.accept_delegate_call false) && not (h.code_address == h.address)
      then (s, err (PrecompileFailure.revert RevertMessage.delegate_call))
      else caller_allowed c h s (get_address_type h.caller s)
