-- ===== src/Ethereum/Apply/Receipts.antt =====
-- The receipts that `apply_validated_transaction` of frame/ethereum/src/lib.rs leaves pending, and
-- the block that `store_block` makes of them, for a sequence of transactions.
use frontier.Base.{
  ℕ, suc, ◌+◌, ◌-◌, ◌≤◌, ◌≡◌, refl, ap, ◌∙◌, arith, Bool, true, false, if◌then◌else◌, Option, some,
  List, [], ◌∷◌, ◌++◌, length, length-append, map, max_u256,
}
use mathlib.Core.List.{append-nil, append_assoc}
use frontier.Ethereum.Transaction.{Transaction}
use frontier.Evm.Runner.Execute.{ExitReason}
use frontier.Ethereum.Block.{
  Entry, Outside, Receipt, ReceiptData, logs_bloom, Storage, receipt_data,
}
use frontier.Ethereum.Block.Pending.{Holds, block_gas, insert-Holds, get-last}
use frontier.Ethereum.Apply.{
  Outcome, cumulative, receipt, receipt_of, record_execution, status_code, status_of,
}

-- A transaction that was executed: its source, its target, and what came of it.
pub record Ran : Type 0 where
  pub source : ℕ
  pub transaction : Transaction
  pub to : Option ℕ
  pub outcome : Outcome

abbrev pub is_success : ExitReason → Bool
is_success (ExitReason.succeed kind) = true
is_success reason = false

-- The gas of a sequence.
abbrev pub total : List Ran → ℕ
total [] = 0
total (r ∷ rs) = r.outcome.effective + total rs

module _ (o : Outside) (extra_data_length : ℕ) where
  open o use {bloom, pending}

  -- The receipt that has the kind of a transaction.
  abbrev pub of_kind : Transaction → ReceiptData bloom → Receipt bloom
  of_kind (Transaction.legacy t) d = Receipt.legacy d
  of_kind (Transaction.eip2930 t) d = Receipt.eip2930 d
  of_kind (Transaction.eip1559 t) d = Receipt.eip1559 d
  of_kind (Transaction.eip7702 t) d = Receipt.eip7702 d

  -- The entry of a transaction at an index, with the gas used up to its end.
  abbrev pub entry_at : ℕ → ℕ → Ran → Entry bloom
  entry_at index gas r =
      let seen = logs_bloom bloom r.outcome.logs bloom.default in
      (
        r.transaction,
        record {
          transaction_hash = o.transaction_hash r.transaction;
          transaction_index = index;
          from = r.source;
          to = r.to;
          contract_address = r.outcome.contract;
          logs = r.outcome.logs;
          logs_bloom = seen;
        },
        of_kind r.transaction (record {
          status_code = if is_success r.outcome.reason then 1 else 0;
          used_gas = gas;
          logs_bloom = seen;
          logs = r.outcome.logs;
        }),
      )

  -- The entries of a sequence, from an index and an amount of gas on.
  abbrev pub entries : ℕ → ℕ → List Ran → List (Entry bloom)
  entries index gas [] = []
  entries index gas (r ∷ rs) =
      entry_at index (gas + r.outcome.effective) r
      ∷ entries (suc index) (gas + r.outcome.effective) rs

  -- The next receipt starts from an amount of gas.
  abbrev pub Carries : ℕ → pending.M → Type 0
  Carries gas m =
      (effective : ℕ)
      → gas + effective ≤ max_u256
      → cumulative o extra_data_length (pending.get (pending.count m - 1) m) effective
        ≡ gas + effective

  receipt_data-of_kind :
      (t : Transaction) (d : ReceiptData bloom) → receipt_data bloom (of_kind t d) ≡ d
  receipt_data-of_kind (Transaction.legacy t) d = refl
  receipt_data-of_kind (Transaction.eip2930 t) d = refl
  receipt_data-of_kind (Transaction.eip1559 t) d = refl
  receipt_data-of_kind (Transaction.eip7702 t) d = refl

  entry_gas :
      (index gas : ℕ) (r : Ran) (effective : ℕ)
      → gas + effective ≤ max_u256
      → cumulative o extra_data_length (some (entry_at index gas r)) effective ≡ gas + effective
  entry_gas index gas r effective h = rw (receipt_data-of_kind r.transaction) (ground arith)

  receipt_of_kind :
      (t : Transaction) (d : ReceiptData bloom) → receipt_of o extra_data_length t d ≡ of_kind t d
  receipt_of_kind (Transaction.legacy t) d = refl
  receipt_of_kind (Transaction.eip2930 t) d = refl
  receipt_of_kind (Transaction.eip1559 t) d = refl
  receipt_of_kind (Transaction.eip7702 t) d = refl

  status_code-is_success :
      (reason : ExitReason) → status_code reason ≡ (if is_success reason then 1 else 0)
  status_code-is_success (ExitReason.succeed kind) = refl
  status_code-is_success (ExitReason.revert kind) = refl
  status_code-is_success (ExitReason.error e) = refl
  status_code-is_success (ExitReason.fatal kind) = refl

  new_entry :
      (r : Ran) (before : Option (Entry bloom)) (count index gas : ℕ)
      → count ≡ index
      → cumulative o extra_data_length before r.outcome.effective ≡ gas
      → let status = status_of o extra_data_length r.source r.transaction count r.to r.outcome in
        (r.transaction, status, receipt o extra_data_length r.transaction before status r.outcome)
        ≡ entry_at index gas r
  unfolding receipt status_of
  new_entry r before count index gas e e' =
      rw (e, e', receipt_of_kind, status_code-is_success r.outcome.reason) refl

  record_execution-Holds :
      (vs : List (Entry bloom)) (gas : ℕ) (r : Ran) (s : Storage o)
      → Holds pending vs s.queue
      → Carries gas s.queue
      → gas + r.outcome.effective ≤ max_u256
      → let s' = record_execution o extra_data_length r.source r.transaction r.to r.outcome s in
        Holds pending (vs ++ (entry_at (length vs) (gas + r.outcome.effective) r ∷ [])) s'.queue
        × Carries (gas + r.outcome.effective) s'.queue
  unfolding record_execution
  record_execution-Holds vs gas r s h c le =
      let gas' = gas + r.outcome.effective in
      let v = entry_at (length vs) gas' r in
      let m = s.queue in
      let same =
        new_entry r (pending.get (pending.count m - 1) m) (pending.count m) (length vs) gas'
          h.counted (c r.outcome.effective le) in
      let held = insert-Holds pending vs v m h in
      rw same (
        held,
        λ effective le'.
            ap (λ last. cumulative o extra_data_length last effective)
              (get-last pending vs v (pending.insert (pending.count m) v m) held)
            ∙ entry_gas (length vs) gas' r effective le',
      )

  abbrev pub record_all : List Ran → Storage o → Storage o
  record_all [] s = s
  record_all (r ∷ rs) s =
      record_all rs (record_execution o extra_data_length r.source r.transaction r.to r.outcome s)

  pub record_all-Holds :
      (vs : List (Entry bloom)) (gas : ℕ) (rs : List Ran) (s : Storage o)
      → Holds pending vs s.queue
      → Carries gas s.queue
      → gas + total rs ≤ max_u256
      → Holds pending (vs ++ entries (length vs) gas rs) (record_all rs s).queue
  record_all-Holds vs gas [] s h c le = rw append-nil h
  record_all-Holds vs gas (r ∷ rs) s h c le =
      let gas' = gas + r.outcome.effective in
      let v = entry_at (length vs) gas' r in
      let (h', c') = record_execution-Holds vs gas r s h c (omega (arith, le)) in
      let rest =
        record_all-Holds (vs ++ (v ∷ [])) gas' rs
          (record_execution o extra_data_length r.source r.transaction r.to r.outcome s) h' c'
          (omega (arith, le)) in
      rw (length-append vs v, append_assoc vs (v ∷ []) (entries (suc (length vs)) gas' rs)) at rest

  pub block_gas-entries :
      (index gas : ℕ) (rs : List Ran) → block_gas o (entries index gas rs) gas ≡ gas + total rs
  block_gas-entries index gas [] = omega arith
  block_gas-entries index gas (r ∷ rs) =
      let gas' = gas + r.outcome.effective in
      ap (λ d. block_gas o (entries (suc index) gas' rs) d.used_gas)
        (receipt_data-of_kind r.transaction _)
      ∙ block_gas-entries (suc index) gas' rs
      ∙ omega arith

  pub transactions-entries :
      (index gas : ℕ) (rs : List Ran)
      → map (λ v. v.0) (entries index gas rs) ≡ map (λ r. r.transaction) rs
  transactions-entries index gas [] = refl
  transactions-entries index gas (r ∷ rs) =
      ap (λ ts. r.transaction ∷ ts)
        (transactions-entries (suc index) (gas + r.outcome.effective) rs)
