-- ===== src/Ethereum/Block.antt =====
-- The block that the Ethereum pallet builds at the end of a Substrate block: `store_block` of
-- frame/ethereum/src/lib.rs, with the storage items of the pallet.
pub mod Pending
pub mod Stored
use frontier.Base.{
  ℕ, zero, suc, ◌-◌, ltb, if◌then◌else◌, Option, none, some, List, [], ◌∷◌, ◌++◌, ◌≡◌, ◌≢◌, map,
  ◌==◌,
}
use frontier.Evm.Substate.{Log}
use frontier.Evm.Runner.Execute.{ExitReason}
use frontier.Client.Consensus.{EthereumBlock, Decoder, PostLog, from_block}
use frontier.Ethereum.Transaction.{Transaction}

-- `Bloom` of ethereum-types, and `accrue` of raw bytes for an address and for a topic.
pub record BloomFilter : Type 1 where
  pub Bloom : Type 0
  pub default : Bloom
  pub accrue_address : ℕ → Bloom → Bloom
  pub accrue_topic : ℕ → Bloom → Bloom

-- `CountedStorageMap` of frame-support, on indices.
pub record CountedMap (V : Type 0) : Type 1 where
  pub M : Type 0
  pub empty : M
  pub count : M → ℕ
  pub get : ℕ → M → Option V
  pub insert : ℕ → V → M → M
  pub take : ℕ → M → Option V × M
  pub count-empty : count empty ≡ 0
  pub get-empty : (i : ℕ) → get i empty ≡ none
  pub count-insert : (i : ℕ) (v : V) (m : M) → get i m ≡ none → count (insert i v m) ≡ suc (count m)
  pub get-insert_same : (i : ℕ) (v : V) (m : M) → get i (insert i v m) ≡ some v
  pub get-insert_other : (i j : ℕ) (v : V) (m : M) → j ≢ i → get j (insert i v m) ≡ get j m
  pub take-value : (i : ℕ) (m : M) → (take i m).0 ≡ get i m
  pub count-take : (i : ℕ) (m : M) {v : V} → get i m ≡ some v → count (take i m).1 ≡ count m - 1
  pub get-take_same : (i : ℕ) (m : M) → get i (take i m).1 ≡ none
  pub get-take_other : (i j : ℕ) (m : M) → j ≢ i → get j (take i m).1 ≡ get j m

module _ (b : BloomFilter) where
  -- The data of every kind of receipt.
  pub record ReceiptData : Type 0 where
    pub status_code : ℕ
    pub used_gas : ℕ
    pub logs_bloom : b.Bloom
    pub logs : List Log

  pub data Receipt : Type 0 where
    legacy : ReceiptData → Receipt
    eip2930 : ReceiptData → Receipt
    eip1559 : ReceiptData → Receipt
    eip7702 : ReceiptData → Receipt

  pub record TransactionStatus : Type 0 where
    pub transaction_hash : ℕ
    pub transaction_index : ℕ
    pub from : ℕ
    pub to : Option ℕ
    pub contract_address : Option ℕ
    pub logs : List Log
    pub logs_bloom : b.Bloom

  -- An entry of `Pending`.
  abbrev pub Entry : Type 0
  Entry = Transaction × TransactionStatus × Receipt

  -- `PartialHeader` of the ethereum crate; the extra data is empty, and the difficulty, the mix hash
  -- and the nonce are zero.
  pub record PartialHeader : Type 0 where
    pub parent_hash : ℕ
    pub beneficiary : ℕ
    pub state_root : ℕ
    pub receipts_root : ℕ
    pub logs_bloom : b.Bloom
    pub number : ℕ
    pub gas_limit : ℕ
    pub gas_used : ℕ
    pub timestamp : ℕ

  -- `Block::new` adds to the header the root of the transactions, and that of no ommers.
  pub record Block : Type 0 where
    pub header : PartialHeader
    pub transactions : List Transaction

  abbrev pub receipt_data : Receipt → ReceiptData
  receipt_data (Receipt.legacy d) = d
  receipt_data (Receipt.eip2930 d) = d
  receipt_data (Receipt.eip1559 d) = d
  receipt_data (Receipt.eip7702 d) = d

  abbrev pub accrue_topics : List ℕ → b.Bloom → b.Bloom
  accrue_topics [] bloom = bloom
  accrue_topics (topic ∷ topics) bloom = accrue_topics topics (b.accrue_topic topic bloom)

  unfoldable pub logs_bloom : List Log → b.Bloom → b.Bloom
  logs_bloom [] bloom = bloom
  logs_bloom (log ∷ logs) bloom =
      logs_bloom logs (accrue_topics log.topics (b.accrue_address log.address bloom))

-- `Event::Executed`
pub record Executed : Type 0 where
  pub from : ℕ
  pub to : ℕ
  pub transaction_hash : ℕ
  pub exit_reason : ExitReason
  pub extra_data : List ℕ

pub data PostLogContent : Type 0 where
  block_and_txn_hashes only_block_hash : PostLogContent

pub data EthereumStorageSchema : Type 0 where
  v1 v2 v3 : EthereumStorageSchema

-- What `store_block` reads around the storage.
pub record Surroundings : Type 0 where
  pub state_root : ℕ
  pub block_gas_limit : ℕ
  pub timestamp : ℕ

-- What the pallet takes from elsewhere: hashes and the root of the receipts' encodings, the author
-- from a digest, and the encoding of a log as an item of a digest.
pub record Outside : Type 1 where
  pub bloom : BloomFilter
  pub pending : CountedMap (Entry bloom)
  pub transaction_hash : Transaction → ℕ
  pub header_hash : Block bloom → ℕ
  pub receipts_root : List (Receipt bloom) → ℕ
  pub decoder : Decoder
  pub consensus_item : PostLog → decoder.Item
  pub find_author : List decoder.Item → ℕ

module _ (o : Outside) where
  open o use {bloom, pending, decoder}

  -- The storage of the pallet, with the digest and the events of frame-system.
  pub record Storage : Type 0 where
    pub queue : pending.M
    pub current_block : Option (Block bloom)
    pub current_receipts : Option (List (Receipt bloom))
    pub current_transaction_statuses : Option (List (TransactionStatus bloom))
    pub block_hash : ℕ → ℕ
    pub digest : List decoder.Item
    pub events : List Executed
    pub schema : Option EthereumStorageSchema

  -- The variables of the loop of `store_block`.
  pub record Collected : Type 0 where
    pub transactions : List Transaction
    pub statuses : List (TransactionStatus bloom)
    pub receipts : List (Receipt bloom)
    pub bloom_so_far : bloom.Bloom
    pub cumulative_gas_used : ℕ

  unfoldable pub push : Option (Entry bloom) → Collected → Collected
  push none c = c
  push (some (transaction, status, receipt)) c = record {
    transactions = c.transactions ++ (transaction ∷ []);
    statuses = c.statuses ++ (status ∷ []);
    receipts = c.receipts ++ (receipt ∷ []);
    bloom_so_far = logs_bloom bloom (receipt_data bloom receipt).logs c.bloom_so_far;
    cumulative_gas_used = (receipt_data bloom receipt).used_gas;
  }

  -- The loop over the `rest` indices from `index` on.
  unfoldable pub collect : ℕ → ℕ → pending.M → Collected → pending.M × Collected
  collect zero index m c = (m, c)
  collect (suc rest) index m c =
      let (entry, m') = pending.take index m in collect rest (suc index) m' (push entry c)

  abbrev pub nothing_collected : Collected
  nothing_collected = record {
    transactions = [];
    statuses = [];
    receipts = [];
    bloom_so_far = bloom.default;
    cumulative_gas_used = 0;
  }

  -- The block of what was collected.
  unfoldable pub new_block : Surroundings → ℕ → Storage → Collected → Block bloom
  new_block e number s c = record {
    header = record {
      parent_hash = if ltb 0 number then s.block_hash (number - 1) else 0;
      beneficiary = o.find_author s.digest;
      state_root = e.state_root;
      receipts_root = o.receipts_root c.receipts;
      logs_bloom = c.bloom_so_far;
      number = number;
      gas_limit = e.block_gas_limit;
      gas_used = c.cumulative_gas_used;
      timestamp = e.timestamp;
    };
    transactions = c.transactions;
  }

  -- A block as the digest's logs see it.
  abbrev pub hashed : Block bloom → EthereumBlock
  hashed block = record {
    header_hash = o.header_hash block;
    transactions = map o.transaction_hash block.transactions;
  }

  unfoldable pub post_log : Option PostLogContent → Block bloom → List decoder.Item
  unfolding from_block
  post_log none block = []
  post_log (some PostLogContent.block_and_txn_hashes) block =
      o.consensus_item (PostLog.hashes (from_block (hashed block))) ∷ []
  post_log (some PostLogContent.only_block_hash) block =
      o.consensus_item (PostLog.block_hash (o.header_hash block)) ∷ []

  -- `BlockHash::insert`
  abbrev pub set_hash : ℕ → ℕ → (ℕ → ℕ) → ℕ → ℕ
  set_hash number hash hashes n = if n == number then hash else hashes n

  -- After the loop.
  unfoldable pub store :
      Option PostLogContent → Surroundings → ℕ → Storage → pending.M × Collected → Storage
  store content e number s (m, c) =
      let block = new_block e number s c in
      record s {
        queue = m;
        current_block = some block;
        current_receipts = some c.receipts;
        current_transaction_statuses = some c.statuses;
        block_hash = set_hash number (o.header_hash block) s.block_hash;
        digest = s.digest ++ post_log content block;
      }

  unfoldable pub store_block : Option PostLogContent → Surroundings → ℕ → Storage → Storage
  store_block content e number s =
      store content e number s (collect (pending.count s.queue) 0 s.queue nothing_collected)
