-- ===== src/Client/Mapping.antt =====
-- The key-value mapping database, client/db/src/kv/mod.rs. The database of sp-database and the
-- encoding of its values are a parameter: four typed views and an atomic commit. The write lock is
-- not modelled: a call is one step.
pub mod Laws
pub mod Transactions
pub mod Journal
mod Tests
use frontier.Base.{
  ℕ, suc, ◌+◌, ◌%◌, ◌^◌, ◌≡◌, Bool, true, false, Option, none, some, List, [], ◌∷◌, ◌++◌, ◌==◌,
  if◌then◌else◌, contains, nat_eq,
}
use frontier.Evm.Weight.{Result, ok, err}

-- What a `get` and the decoding of its value give.
pub data Read (A : Type 0) : Type 0 where
  missing corrupt : Read A
  found : A → Read A

pub record TransactionMetadata : Type 0 where
  pub substrate_block_hash : ℕ
  pub ethereum_block_hash : ℕ
  pub ethereum_index : ℕ

-- One `transaction.set`, by column.
pub data Change : Type 0 where
  set_synced : ℕ → Change
  set_block : ℕ → List ℕ → Change
  set_transaction : ℕ → List TransactionMetadata → Change
  set_tips : List ℕ → Change

-- A column after some changes: the last one of a key counts.
abbrev pub synced_after : List Change → ℕ → Read Bool → Read Bool
synced_after [] h r = r
synced_after (Change.set_synced k ∷ cs) h r = synced_after cs h (if k == h then found true else r)
synced_after (Change.set_block k l ∷ cs) h r = synced_after cs h r
synced_after (Change.set_transaction k l ∷ cs) h r = synced_after cs h r
synced_after (Change.set_tips l ∷ cs) h r = synced_after cs h r

abbrev pub block_after : List Change → ℕ → Read (List ℕ) → Read (List ℕ)
block_after [] h r = r
block_after (Change.set_synced k ∷ cs) h r = block_after cs h r
block_after (Change.set_block k l ∷ cs) h r = block_after cs h (if k == h then found l else r)
block_after (Change.set_transaction k l ∷ cs) h r = block_after cs h r
block_after (Change.set_tips l ∷ cs) h r = block_after cs h r

abbrev pub transaction_after :
    List Change → ℕ → Read (List TransactionMetadata) → Read (List TransactionMetadata)
transaction_after [] h r = r
transaction_after (Change.set_synced k ∷ cs) h r = transaction_after cs h r
transaction_after (Change.set_block k l ∷ cs) h r = transaction_after cs h r
transaction_after (Change.set_transaction k l ∷ cs) h r =
    transaction_after cs h (if k == h then found l else r)
transaction_after (Change.set_tips l ∷ cs) h r = transaction_after cs h r

abbrev pub tips_after : List Change → Read (List ℕ) → Read (List ℕ)
tips_after [] r = r
tips_after (Change.set_synced k ∷ cs) r = tips_after cs r
tips_after (Change.set_block k l ∷ cs) r = tips_after cs r
tips_after (Change.set_transaction k l ∷ cs) r = tips_after cs r
tips_after (Change.set_tips l ∷ cs) r = tips_after cs (found l)

-- The database. A commit fails or makes all its changes.
pub record Database : Type 1 where
  pub Db : Type 0
  pub synced : Db → ℕ → Read Bool
  pub block_mapping : Db → ℕ → Read (List ℕ)
  pub transaction_mapping : Db → ℕ → Read (List TransactionMetadata)
  pub syncing_tips : Db → Read (List ℕ)
  pub commit : List Change → Db → Option Db
  pub synced-commit :
      (cs : List Change) (d : Db) (h : ℕ) {d' : Db}
      → commit cs d ≡ some d'
      → synced d' h ≡ synced_after cs h (synced d h)
  pub block-commit :
      (cs : List Change) (d : Db) (h : ℕ) {d' : Db}
      → commit cs d ≡ some d'
      → block_mapping d' h ≡ block_after cs h (block_mapping d h)
  pub transaction-commit :
      (cs : List Change) (d : Db) (h : ℕ) {d' : Db}
      → commit cs d ≡ some d'
      → transaction_mapping d' h ≡ transaction_after cs h (transaction_mapping d h)
  pub tips-commit :
      (cs : List Change) (d : Db) {d' : Db}
      → commit cs d ≡ some d'
      → syncing_tips d' ≡ tips_after cs (syncing_tips d)

-- The error texts, by where they come from.
pub data Error : Type 0 where
  decode commit_failed multiple_logs hash_mismatch header_not_found : Error
  genesis_not_found leaves_failed api_failed : Error

pub record MappingCommitment : Type 0 where
  pub block_hash : ℕ
  pub ethereum_block_hash : ℕ
  pub ethereum_transaction_hashes : List ℕ

-- A value that is not there reads as a default; one that cannot be decoded is an error.
abbrev pub read_or : {A : Type 0} → A → Read A → Result Error A
read_or d missing = ok d
read_or d corrupt = err Error.decode
read_or d (found a) = ok a

abbrev pub read_opt : {A : Type 0} → Read A → Result Error (Option A)
read_opt missing = ok none
read_opt corrupt = err Error.decode
read_opt (found a) = ok (some a)

-- The Substrate hashes of an Ethereum block once `h` is among them. An undecodable entry is
-- replaced.
abbrev pub add_hash : ℕ → Result Error (Option (List ℕ)) → List ℕ
add_hash h (ok (some hashes)) = if contains hashes h then hashes else hashes ++ h ∷ []
add_hash h (ok none) = h ∷ []
add_hash h (err e) = h ∷ []

abbrev pub cons_change : Change → Result Error (List Change) → Result Error (List Change)
cons_change c (ok cs) = ok (c ∷ cs)
cons_change c (err e) = err e

module _ (db : Database) where
  open db use {Db, synced, block_mapping, transaction_mapping, syncing_tips, commit}

  unfoldable pub current_syncing_tips : Db → Result Error (List ℕ)
  current_syncing_tips d = read_or [] (syncing_tips d)

  abbrev pub committed : Db → Option Db → Db × Result Error (Unit {0})
  committed d none = (d, err Error.commit_failed)
  committed d (some d') = (d', ok tt)

  unfoldable pub write_current_syncing_tips : List ℕ → Db → Db × Result Error (Unit {0})
  write_current_syncing_tips tips d = committed d (commit (Change.set_tips tips ∷ []) d)

  unfoldable pub is_synced : ℕ → Db → Result Error Bool
  is_synced h d = read_or false (synced d h)

  unfoldable pub block_hash : ℕ → Db → Result Error (Option (List ℕ))
  block_hash h d = read_opt (block_mapping d h)

  unfoldable pub transaction_metadata : ℕ → Db → Result Error (List TransactionMetadata)
  transaction_metadata h d = read_or [] (transaction_mapping d h)

  unfoldable pub write_none : ℕ → Db → Db × Result Error (Unit {0})
  write_none h d = committed d (commit (Change.set_synced h ∷ []) d)

  -- The entry of the transaction at position `i`; the index is a u32.
  abbrev pub entry : MappingCommitment → ℕ → TransactionMetadata
  entry c i = record {
    substrate_block_hash = c.block_hash;
    ethereum_block_hash = c.ethereum_block_hash;
    ethereum_index = i % 2 ^ 32;
  }

  abbrev pub add_entry :
      MappingCommitment
      → ℕ
      → ℕ
      → Result Error (List TransactionMetadata)
      → Result Error (List Change)
      → Result Error (List Change)
  add_entry c i h (err e) rest = err e
  add_entry c i h (ok metadata) rest =
      cons_change (Change.set_transaction h (metadata ++ entry c i ∷ [])) rest

  -- The loop over the transaction hashes from position `i`; it reads the database as it was.
  unfoldable pub transaction_changes :
      MappingCommitment → ℕ → List ℕ → Db → Result Error (List Change)
  unfolding transaction_metadata
  transaction_changes c i [] d = ok []
  transaction_changes c i (h ∷ hs) d =
      add_entry c i h (transaction_metadata h d) (transaction_changes c (suc i) hs d)

  abbrev pub commit_hashes :
      MappingCommitment → Result Error (List Change) → Db → Db × Result Error (Unit {0})
  unfolding block_hash
  commit_hashes c (err e) d = (d, err e)
  commit_hashes c (ok cs) d = committed d (
      commit
        (Change.set_block c.ethereum_block_hash
            (add_hash c.block_hash (block_hash c.ethereum_block_hash d))
          ∷ (cs ++ Change.set_synced c.block_hash ∷ []))
        d)

  unfoldable pub write_hashes : MappingCommitment → Db → Db × Result Error (Unit {0})
  unfolding commit_hashes transaction_changes
  write_hashes c d = commit_hashes c (transaction_changes c 0 c.ethereum_transaction_hashes d) d
