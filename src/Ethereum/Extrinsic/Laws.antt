-- ===== src/Ethereum/Extrinsic/Laws.antt =====
-- What an Ethereum transaction has passed when it is included in a block: frame/ethereum/src/lib.rs
-- and primitives/self-contained together.
use frontier.Base.{
  ℕ, ◌≤◌, ◌⊎◌, List, [], length, ◌≡◌, refl, subst, arith, Option, Option-cases, inl, inr, none,
  some,
}
use frontier.Evm.Weight.{Result, ok, err}
use frontier.Client.Consensus.{FindLogError, Found, PreLog, find_pre_log}
use frontier.Client.Consensus.Laws.{find_kind-fails, logs_of}
use frontier.Ethereum.Transaction.{Transaction}
use frontier.Ethereum.Execute.{context}
use frontier.Ethereum.Validation.{InvalidTransaction, validate_transaction_in_block}
use frontier.Ethereum.Apply.{PostDispatchInfo}
use frontier.Ethereum.Hooks.{
  Config, Origin, State, TransactError, found_pre_log, transact, transact_unless, transacted,
}
use frontier.Ethereum.Hooks as Hooks
use frontier.Ethereum.Extrinsic.{
  CheckedSignature, Preamble, RuntimeCall, System, Whole, apply, apply_checked,
  apply_self_contained, check, check_self_contained, dispatched, in_block, posted,
  pre_dispatch_self_contained, pre_dispatched, prepare, transactional,
}

module _ {W : Type 0} (y : System W) where
  open y use {config, Z}

  abbrev Outcome : Type 0
  Outcome = State config × Result TransactError PostDispatchInfo

  posted-eq-ok :
      (st : State config) (z : Z) (result : Result TransactError PostDispatchInfo)
      (r : Result InvalidTransaction Z) {st' : Whole y}
      {result' : Result TransactError PostDispatchInfo}
      → posted y st z result r ≡ some (st', ok result')
      → (st'.1 ≡ st) × (result' ≡ result)
  posted-eq-ok st z result (err e) h = absurd (ground arith)
  posted-eq-ok st z result (ok z') h = (ground arith, ground arith)

  dispatched-eq-ok :
      (len : ℕ) (z : Z) (st : State config) (o : Option (Option Outcome)) {st' : Whole y}
      {result : Result TransactError PostDispatchInfo}
      → dispatched y len (z, st) o ≡ some (st', ok result)
      → (p : Outcome) × (o ≡ some (some p)) × (st'.1 ≡ p.0) × (result ≡ p.1)
  dispatched-eq-ok len z st none h = absurd (ground arith)
  dispatched-eq-ok len z st (some none) h = absurd (ground arith)
  dispatched-eq-ok len z st (some (some (st1, result1))) h =
      let (same, same') = posted-eq-ok st1 z result1 (y.bare_post_dispatch len result1 z) h in
      ((st1, result1), refl, same, same')

  -- A transaction that is dispatched, where the digest does not have exactly one pre-runtime log.
  abbrev pub pre_logs : State config → List PreLog
  pre_logs st = logs_of config.outside.decoder.try_pre st.1.digest

  pub record Dispatches (signer : ℕ) (t : Transaction) (st : State config) (p : Outcome)
      : Type 0 where
    pub not_one : (pre_logs st ≡ []) ⊎ (2 ≤ length (pre_logs st))
    pub outcome : p ≡ transactional y st (transacted config (Hooks.apply config signer t st))

  not_one_log :
      (st : State config) {e : FindLogError}
      → found_pre_log config st.1 ≡ err e
      → (pre_logs st ≡ []) ⊎ (2 ≤ length (pre_logs st))
  unfolding find_pre_log
  not_one_log st h = find_kind-fails config.outside.decoder.try_pre st.1.digest h

  unless-Dispatches :
      (signer : ℕ) (t : Transaction) (st : State config) (f : Found PreLog) {p : Outcome}
      → found_pre_log config st.1 ≡ f
      → some (elim (transact_unless config f signer t st) [
        | none ↦ none
        | some r ↦ some (transactional y st r)
      ])
        ≡ some (some p)
      → Dispatches signer t st p
  unless-Dispatches signer t st (ok pre) e h = absurd (ground arith)
  unless-Dispatches signer t st (err e') e h = record {
    not_one = not_one_log st e;
    outcome = ground arith;
  }

  apply-Dispatches :
      (signer : ℕ) (t : Transaction) (st : State config) {p : Outcome}
      → apply_self_contained y (RuntimeCall.ethereum_transact t) signer st ≡ some (some p)
      → Dispatches signer t st p
  unfolding apply_self_contained transact
  apply-Dispatches signer t st h = unless-Dispatches signer t st (found_pre_log config st.1) refl h

  in_block-eq-ok :
      (origin : ℕ) (t : Transaction) (z : Z) (st : State config) (r : Result InvalidTransaction Z)
      → (in_block y origin t (z, st) r).1 ≡ ok tt
      → ((in_block y origin t (z, st) r).0.1 ≡ st)
        × (validate_transaction_in_block (context config.pallet st.0) origin t ≡ ok tt)
  in_block-eq-ok origin t z st (err e) h = absurd (ground arith)
  in_block-eq-ok origin t z (w, s) (ok z') h = (refl, h)

  pre_dispatched-eq-ok :
      (function : RuntimeCall y.X) (signer len : ℕ)
      (q : Whole y × Result InvalidTransaction (Unit {0})) {st' : Whole y}
      {result : Result TransactError PostDispatchInfo}
      → pre_dispatched y function signer len (q.0, some q.1) ≡ some (st', ok result)
      → (q.1 ≡ ok tt)
        × (dispatched y len q.0 (apply_self_contained y function signer q.0.1)
            ≡ some (st', ok result))
  pre_dispatched-eq-ok function signer len (st, err e) h = absurd (ground arith)
  pre_dispatched-eq-ok function signer len ((z, st), ok valid) h = (refl, h)

  -- What holds of a transaction that was included, where `st` is the state before.
  pub record IsIncluded (t : Transaction) (st st' : State config)
      (result : Result TransactError PostDispatchInfo) : Type 0 where
    pub signer : ℕ
    pub recovered : config.recover_signer t ≡ some signer
    pub valid : validate_transaction_in_block (context config.pallet st.0) signer t ≡ ok tt
    pub dispatches : Dispatches signer t st (st', result)

  apply-IsIncluded :
      (signer len : ℕ) (t : Transaction) (st : Whole y) {st' : Whole y}
      {result : Result TransactError PostDispatchInfo}
      → config.recover_signer t ≡ some signer
      → apply y
          (record {
            signature = CheckedSignature.self_contained signer;
            function = RuntimeCall.ethereum_transact t;
          })
          len
          st
        ≡ some (st', ok result)
      → IsIncluded t st.1 st'.1 result
  unfolding apply pre_dispatch_self_contained
  apply-IsIncluded signer len t (z, st) {st'} {result} recovered h =
      let weighed = prepare y len z (y.weight_validate len z) in
      let q = in_block y signer t (z, st) weighed in
      let (passed, rest) = pre_dispatched-eq-ok (RuntimeCall.ethereum_transact t) signer len q h in
      let (same, valid) = in_block-eq-ok signer t z st weighed passed in
      let (p, applied, left, right) =
        dispatched-eq-ok len q.0.0 q.0.1
          (apply_self_contained y (RuntimeCall.ethereum_transact t) signer q.0.1) rest in
      let d = apply-Dispatches signer t q.0.1 applied in
      record {
        signer = signer;
        recovered = recovered;
        valid = valid;
        dispatches = rw (left, right) (subst (λ s. Dispatches signer t s p) same d);
      }

  -- An extrinsic with an Ethereum transaction that is checked and applied with a result, whatever
  -- its preamble: a signer was recovered from the transaction, the transaction was valid in the
  -- block for this signer in the state before, and the digest had no pre-runtime log with a block to
  -- import, or had two of them or more; what the extrinsic leaves is what applying the transaction from this signer leaves, or the state before
  -- where that failed.
  pub apply_checked-IsIncluded :
      (preamble : Preamble) (t : Transaction) (len : ℕ) (st : Whole y) {st' : Whole y}
      {result : Result TransactError PostDispatchInfo}
      → apply_checked y (check y preamble (RuntimeCall.ethereum_transact t)) len st
        ≡ some (st', ok result)
      → IsIncluded t st.1 st'.1 result
  unfolding check check_self_contained
  apply_checked-IsIncluded (Preamble.signed n) t len st h = absurd (ground arith)
  apply_checked-IsIncluded (Preamble.unsigned n) t len st h =
      elim (Option-cases (config.recover_signer t)) [
        | inl invalid ↦ absurd (ground (arith, invalid))
        | inr (signer, e) ↦ apply-IsIncluded signer len t st e (rw e at h)
      ]
