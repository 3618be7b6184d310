-- ===== src/Ethereum/Apply/Sequence.antt =====
-- A sequence of transactions that `apply_validated_transaction` of frame/ethereum/src/lib.rs applies
-- one after the other, and the block of it.
use frontier.Base.{
  ℕ, ◌-◌, ◌≤◌, ◌≡◌, refl, sym, ap, ◌∙◌, arith, Option, none, some, List, [], ◌∷◌, ◌++◌, map,
  max_u256,
}
use frontier.Evm.Weight.{Result, ok, err}
use frontier.Ethereum.Transaction.{Transaction}
use frontier.Ethereum.Execute.{CallOrCreateInfo, DispatchError, Pallet, execute}
use frontier.Ethereum.Block.{Outside, PostLogContent, Storage, Surroundings, store_block, new_block}
use frontier.Ethereum.Block.Pending.{Holds}
use frontier.Ethereum.Block.Stored.{Builds, block_of, store_block-Builds}
use frontier.Ethereum.Apply.{Outcome, applied, apply_validated_transaction, outcome}
use frontier.Ethereum.Apply.Receipts.{
  Ran, block_gas-entries, entries, record_all, record_all-Holds, total, transactions-entries,
}

module _ (o : Outside) (extra_data_length : ℕ) where
  open o use {bloom, pending}

  -- What came of an execution: a creation has the address of its contract, a call has none.
  abbrev pub came_of : Option ℕ → CallOrCreateInfo → Outcome
  came_of to (CallOrCreateInfo.call info) = record {
    reason = info.exit_reason;
    contract = none;
    logs = info.logs;
    weight_info = info.weight_info;
    standard = info.standard;
    effective = info.effective;
    dest = to;
    extra = (outcome extra_data_length to (CallOrCreateInfo.call info)).extra;
  }
  came_of to (CallOrCreateInfo.create info) = record {
    reason = info.exit_reason;
    contract = some info.value;
    logs = info.logs;
    weight_info = info.weight_info;
    standard = info.standard;
    effective = info.effective;
    dest = some info.value;
    extra = [];
  }

  module _ {W : Type 0} (p : Pallet W) where
    abbrev ran :
        ℕ → Transaction → Result DispatchError (Option ℕ × Option ℕ × CallOrCreateInfo) → List Ran
    ran source t (err e) = []
    ran source t (ok (to, created, info)) =
        record { source = source; transaction = t; to = to; outcome = came_of to info } ∷ []

    -- The transactions that are executed without an error, in order.
    abbrev pub executed : List (ℕ × Transaction) → W → List Ran
    executed [] w = []
    executed ((source, t) ∷ ts) w =
        let (w', result) = execute p source t none w in ran source t result ++ executed ts w'

    abbrev pub apply_all : List (ℕ × Transaction) → W × Storage o → W × Storage o
    apply_all [] x = x
    apply_all ((source, t) ∷ ts) x =
        apply_all ts (apply_validated_transaction o extra_data_length p source t x).0

    record_all-append :
        (rs rs' : List Ran) (s : Storage o)
        → record_all o extra_data_length (rs ++ rs') s
          ≡ record_all o extra_data_length rs' (record_all o extra_data_length rs s)
    record_all-append [] rs' s = refl
    record_all-append (r ∷ rs) rs' s = record_all-append rs rs' _

    applied-ran :
        (source : ℕ) (t : Transaction) (s : Storage o)
        (res : W × Result DispatchError (Option ℕ × Option ℕ × CallOrCreateInfo))
        → (applied o extra_data_length p source t s res).0
          ≡ (res.0, record_all o extra_data_length (ran source t res.1) s)
    unfolding outcome
    applied-ran source t s (w, err e) = refl
    applied-ran source t s (w, ok (to, created, CallOrCreateInfo.call info)) = refl
    applied-ran source t s (w, ok (to, created, CallOrCreateInfo.create info)) = refl

    apply_all-executed :
        (ts : List (ℕ × Transaction)) (w : W) (s : Storage o)
        → (apply_all ts (w, s)).1 ≡ record_all o extra_data_length (executed ts w) s
    unfolding apply_validated_transaction
    apply_all-executed [] w s = refl
    apply_all-executed ((source, t) ∷ ts) w s =
        let result = execute p source t none w in
        ap (λ x. (apply_all ts x).1) (applied-ran source t s result)
        ∙ apply_all-executed ts result.0 (record_all o extra_data_length (ran source t result.1) s)
        ∙ sym (record_all-append (ran source t result.1) (executed ts result.0) s)

  -- The block of a sequence of transactions that starts with no pending transaction, for a total
  -- gas in the bounds of a word.
  module _ {W : Type 0} (p : Pallet W) where
    apply_all-Holds :
        (ts : List (ℕ × Transaction)) (w : W) (s : Storage o)
        → Holds pending [] s.queue
        → total (executed p ts w) ≤ max_u256
        → Holds pending
            (entries o extra_data_length 0 0 (executed p ts w))
            (apply_all p ts (w, s)).1.queue
    apply_all-Holds ts w s h le = rw (apply_all-executed p ts w s) (
        record_all-Holds o extra_data_length [] 0 (executed p ts w) s h
          (λ effective le'. rw (h.found (pending.count s.queue - 1)) (omega arith))
          (omega (arith, le)))

    -- What is reported of the executed transactions in a block.
    pub record Reports (content : Option PostLogContent) (e : Surroundings) (number : ℕ)
        (s s' : Storage o) (rs : List Ran) : Type 0 where
      pub builds : Builds o content e number s (entries o extra_data_length 0 0 rs) s'
      pub gas_used :
          (block_of o e number s (entries o extra_data_length 0 0 rs)).header.gas_used ≡ total rs
      pub transactions :
          (block_of o e number s (entries o extra_data_length 0 0 rs)).transactions
          ≡ map (λ r. r.transaction) rs

    -- For transactions applied one after the other, from no pending transaction, whose gas together
    -- is below 2^256: the block that is stored has exactly those that were executed without an
    -- error, in order. Each has a status with its hash, its position, its sender, its target, the
    -- address of the contract it created, and its logs with their bloom; and a receipt of its kind
    -- with the code 1 if it succeeded and else 0, the gas summed up to it, and the same logs and
    -- bloom. The gas used of the block is the sum of all effective gas. Nothing is pending
    -- afterwards.
    pub apply_all-Reports :
        (content : Option PostLogContent) (e : Surroundings) (number : ℕ)
        (ts : List (ℕ × Transaction)) (w : W) (s : Storage o)
        → Holds pending [] s.queue
        → total (executed p ts w) ≤ max_u256
        → Reports content e number
            (apply_all p ts (w, s)).1
            (store_block o content e number (apply_all p ts (w, s)).1)
            (executed p ts w)
    unfolding new_block
    apply_all-Reports content e number ts w s h le =
        let rs = executed p ts w in
        record {
          builds =
              store_block-Builds o content e number (apply_all p ts (w, s)).1
                (entries o extra_data_length 0 0 rs) (apply_all-Holds ts w s h le);
          gas_used = block_gas-entries o extra_data_length 0 0 rs ∙ omega arith;
          transactions = transactions-entries o extra_data_length 0 0 rs;
        }
