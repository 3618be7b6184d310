-- ===== src/Ethereum/Extrinsic.antt =====
-- The way of an Ethereum transaction through an extrinsic: the functions of `Call` in
-- frame/ethereum/src/lib.rs, `check` and `apply` of primitives/self-contained, and the runtime's
-- `SelfContainedCall` (template/runtime/src/lib.rs). Extrinsics that are not self-contained, and
-- the weight of a block (`CheckWeight`), belong to Substrate: parameters.
pub mod Laws
mod Tests
use frontier.Base.{ℕ, Bool, true, false, Option, none, some, List}
use frontier.Evm.Weight.{Result, ok, err}
use frontier.Ethereum.Transaction.{Transaction}
use frontier.Ethereum.Execute.{context}
use frontier.Ethereum.Validation.{
  InvalidTransaction, ValidTransaction, validate_transaction_in_block, validate_transaction_in_pool,
}
use frontier.Ethereum.Apply.{PostDispatchInfo}
use frontier.Ethereum.Hooks.{Config, Origin, State, TransactError, transact}

-- `RuntimeCall`, by whether it is `Ethereum(transact { .. })`.
pub data RuntimeCall (X : Type 0) : Type 0 where
  ethereum_transact : Transaction → RuntimeCall X
  other : X → RuntimeCall X

-- `Preamble` of sp-runtime: a signed extrinsic, or one that is bare or general.
pub data Preamble : Type 0 where
  signed : ℕ → Preamble
  unsigned : ℕ → Preamble

-- `CheckedSignature`, over the formats of extrinsics that are not self-contained.
pub data CheckedSignature (F : Type 0) : Type 0 where
  generic_delegated : F → CheckedSignature F
  self_contained : ℕ → CheckedSignature F

pub record CheckedExtrinsic (X F : Type 0) : Type 0 where
  pub signature : CheckedSignature F
  pub function : RuntimeCall X

-- `Z` is the state of frame-system, and a dispatch of other calls changes all.
pub record System (W : Type 0) : Type 1 where
  pub config : Config W
  pub X : Type 0
  pub F : Type 0
  pub Z : Type 0
  pub weight_validate : ℕ → Z → Result InvalidTransaction ℕ
  pub weight_prepare : ℕ → ℕ → Z → Result InvalidTransaction Z
  pub bare_post_dispatch :
      ℕ → Result TransactError PostDispatchInfo → Z → Result InvalidTransaction Z
  pub check_generic : Preamble → X → Result InvalidTransaction F
  pub apply_generic :
      F
      → RuntimeCall X
      → ℕ
      → Z × State config
      → Option
          ((Z × State config) × Result InvalidTransaction (Result TransactError PostDispatchInfo))

module _ {W : Type 0} (y : System W) where
  open y use {config, X, F, Z}

  abbrev pub Call : Type 0
  Call = RuntimeCall X

  abbrev pub Whole : Type 0
  Whole = Z × State config

  -- What an applied extrinsic leaves; `none` is a panic.
  abbrev pub Applied : Type 0
  Applied = Option (Whole × Result InvalidTransaction (Result TransactError PostDispatchInfo))

  abbrev pub is_self_contained : Call → Bool
  is_self_contained (RuntimeCall.ethereum_transact t) = true
  is_self_contained (RuntimeCall.other x) = false

  -- An invalid signature is error 9 of `TransactionValidationError`.
  abbrev pub signer_or_invalid : Option ℕ → Result InvalidTransaction ℕ
  signer_or_invalid none = err (InvalidTransaction.custom 9)
  signer_or_invalid (some signer) = ok signer

  unfoldable pub check_self_contained : Call → Option (Result InvalidTransaction ℕ)
  check_self_contained (RuntimeCall.ethereum_transact t) =
      some (signer_or_invalid (config.recover_signer t))
  check_self_contained (RuntimeCall.other x) = none

  abbrev pub in_pool :
      ℕ
      → Transaction
      → State config
      → Result InvalidTransaction ℕ
      → Result InvalidTransaction ValidTransaction
  in_pool origin t (w, s) (err e) = err e
  in_pool origin t (w, s) (ok next_len) =
      validate_transaction_in_pool (context config.pallet w) origin t

  unfoldable pub validate_self_contained :
      Call → ℕ → ℕ → Whole → Option (Result InvalidTransaction ValidTransaction)
  validate_self_contained (RuntimeCall.ethereum_transact t) origin len (z, st) =
      some (in_pool origin t st (y.weight_validate len z))
  validate_self_contained (RuntimeCall.other x) origin len st = none

  -- `do_validate` and then `do_prepare`.
  abbrev pub prepare : ℕ → Z → Result InvalidTransaction ℕ → Result InvalidTransaction Z
  prepare len z (err e) = err e
  prepare len z (ok next_len) = y.weight_prepare len next_len z

  abbrev pub in_block :
      ℕ
      → Transaction
      → Whole
      → Result InvalidTransaction Z
      → Whole × Result InvalidTransaction (Unit {0})
  in_block origin t (z, st) (err e) = ((z, st), err e)
  in_block origin t (z, (w, s)) (ok z') =
      ((z', (w, s)), validate_transaction_in_block (context config.pallet w) origin t)

  unfoldable pub pre_dispatch_self_contained :
      Call → ℕ → ℕ → Whole → Whole × Option (Result InvalidTransaction (Unit {0}))
  pre_dispatch_self_contained (RuntimeCall.ethereum_transact t) origin len (z, st) =
      let (st', r) = in_block origin t (z, st) (prepare len z (y.weight_validate len z)) in
      (st', some r)
  pre_dispatch_self_contained (RuntimeCall.other x) origin len st = (st, none)

  -- A dispatch is transactional: an error leaves the state as it was.
  abbrev pub transactional :
      State config
      → State config × Result TransactError PostDispatchInfo
      → State config × Result TransactError PostDispatchInfo
  transactional st (st', ok info) = (st', ok info)
  transactional st (st', err e) = (st, err e)

  -- `none` is a panic, in the answer for a function that is self-contained.
  unfoldable pub apply_self_contained :
      Call
      → ℕ
      → State config
      → Option (Option (State config × Result TransactError PostDispatchInfo))
  apply_self_contained (RuntimeCall.ethereum_transact t) signer st =
      some (elim (transact config (Origin.ethereum_transaction signer) t st) [
        | none ↦ none
        | some r ↦ some (transactional st r)
      ])
  apply_self_contained (RuntimeCall.other x) signer st = none

  abbrev pub self_contained_or :
      Call → Option (Result InvalidTransaction ℕ) → Result InvalidTransaction (CheckedExtrinsic X F)
  self_contained_or function none = err InvalidTransaction.bad_proof
  self_contained_or function (some (err e)) = err e
  self_contained_or function (some (ok signer)) =
      ok (record { signature = CheckedSignature.self_contained signer; function = function })

  abbrev pub delegated :
      Call → Result InvalidTransaction F → Result InvalidTransaction (CheckedExtrinsic X F)
  delegated function (err e) = err e
  delegated function (ok format) =
      ok (record { signature = CheckedSignature.generic_delegated format; function = function })

  -- `UncheckedExtrinsic::check`
  unfoldable pub check : Preamble → Call → Result InvalidTransaction (CheckedExtrinsic X F)
  check (Preamble.signed n) (RuntimeCall.ethereum_transact t) = err InvalidTransaction.bad_proof
  check (Preamble.unsigned n) (RuntimeCall.ethereum_transact t) =
      self_contained_or (RuntimeCall.ethereum_transact t)
        (check_self_contained (RuntimeCall.ethereum_transact t))
  check preamble (RuntimeCall.other x) =
      delegated (RuntimeCall.other x) (y.check_generic preamble x)

  -- After the dispatch.
  abbrev pub posted :
      State config
      → Z
      → Result TransactError PostDispatchInfo
      → Result InvalidTransaction Z
      → Applied
  posted st z result (err e) = some ((z, st), err e)
  posted st z result (ok z') = some ((z', st), ok result)

  abbrev pub dispatched :
      ℕ → Whole → Option (Option (State config × Result TransactError PostDispatchInfo)) → Applied
  dispatched len st none = some (st, err InvalidTransaction.bad_proof)
  dispatched len st (some none) = none
  dispatched len (z, st) (some (some (st', result))) =
      posted st' z result (y.bare_post_dispatch len result z)

  abbrev pub pre_dispatched :
      Call → ℕ → ℕ → Whole × Option (Result InvalidTransaction (Unit {0})) → Applied
  pre_dispatched function signer len (st, none) = some (st, err InvalidTransaction.bad_proof)
  pre_dispatched function signer len (st, some (err e)) = some (st, err e)
  pre_dispatched function signer len ((z, st), some (ok valid)) =
      dispatched len (z, st) (apply_self_contained function signer st)

  -- `CheckedExtrinsic::apply`
  unfoldable pub apply : CheckedExtrinsic X F → ℕ → Whole → Applied
  apply e len st = elim e.signature [
    | CheckedSignature.generic_delegated format ↦ y.apply_generic format e.function len st
    | CheckedSignature.self_contained signer ↦
        pre_dispatched e.function signer len (pre_dispatch_self_contained e.function signer len st)
  ]

  -- An extrinsic of a block: checked, then applied.
  abbrev pub apply_checked : Result InvalidTransaction (CheckedExtrinsic X F) → ℕ → Whole → Applied
  apply_checked (err e) len st = some (st, err e)
  apply_checked (ok e) len st = apply e len st
