-- ===== src/Client/Sync.antt =====
-- The worker that fills the mapping database from the chain, client/mapping-sync/src/kv/mod.rs.
-- The chain (headers, leaves, best block, the runtime API), the storage override, the sync oracle
-- and the channels of the subscribers are parameters.
pub mod Laws
mod Tests
pub mod Progress
use frontier.Base.{
  ℕ, zero, suc, Bool, true, false, not, ◌&&◌, Option, none, some, List, [], ◌∷◌, ◌++◌, ltb, leb,
  ◌==◌, if◌then◌else◌,
}
use frontier.Evm.Weight.{Result, ok, err}
use frontier.Client.Consensus.{
  EthereumBlock, Hashes, from_block, Log, PreLog, PostLog, FindLogError, Found, Decoder, find_log,
}
use frontier.Client.Mapping.{
  Database, Error, MappingCommitment, current_syncing_tips, write_current_syncing_tips, is_synced,
  write_none, write_hashes,
}

pub data SyncStrategy : Type 0 where
  normal parachain : SyncStrategy

module _ (d : Decoder) where
  -- A Substrate header.
  pub record Header : Type 0 where
    pub hash : ℕ
    pub number : ℕ
    pub parent_hash : ℕ
    pub digest : List d.Item

-- What the block chain and its runtime answer. `genesis_block` is the runtime's version of the
-- Ethereum API at a block, with the current Ethereum block by that API, if there is one.
pub record Chain (d : Decoder) : Type 1 where
  pub leaves : Result Error (List ℕ)
  pub header : ℕ → Result Error (Option (Header d))
  pub best_number : ℕ
  pub best_hash : ℕ
  pub api_version : ℕ → Result Error (Option ℕ)
  pub current_block : ℕ → Result Error (Option EthereumBlock)
  pub current_block_before_version_2 : ℕ → Result Error (Option EthereumBlock)
  pub stored_block : ℕ → Option EthereumBlock
  pub is_major_syncing : Bool
  -- Whether a send to a subscriber's channel succeeds.
  pub Sink : Type 0
  pub unbounded_send : Sink → ℕ → Bool → Bool

module _ (db : Database) where
  abbrev pub Write : Type 0
  Write = db.Db → db.Db × Result Error (Unit {0})

  abbrev pub refuse : Error → Write
  refuse e s = (s, err e)

module _ (db : Database) {d : Decoder} (chain : Chain d) where
  -- The commitment of a block for its Ethereum hashes.
  abbrev pub gen_from_hashes : ℕ → Hashes → MappingCommitment
  gen_from_hashes block hashes = record {
    block_hash = block;
    ethereum_block_hash = hashes.block_hash;
    ethereum_transaction_hashes = hashes.transaction_hashes;
  }

  abbrev pub write_block : ℕ → EthereumBlock → Write db
  unfolding from_block
  write_block block b = write_hashes db (gen_from_hashes block (from_block b))

  -- A digest that names only the hash of the Ethereum block: the stored block must have it.
  abbrev pub write_expected : ℕ → ℕ → Option EthereumBlock → Write db
  unfolding write_block
  write_expected block expected none = write_none db block
  write_expected block expected (some b) =
      if not (b.header_hash == expected) then refuse db Error.hash_mismatch else write_block block b

  abbrev pub write_log : ℕ → Found Log → Write db
  unfolding write_expected
  write_log block (ok (Log.pre (PreLog.block b))) = write_block block b
  write_log block (ok (Log.post (PostLog.hashes hashes))) =
      write_hashes db (gen_from_hashes block hashes)
  write_log block (ok (Log.post (PostLog.block b))) = write_block block b
  write_log block (ok (Log.post (PostLog.block_hash expected))) =
      write_expected block expected (chain.stored_block block)
  write_log block (err FindLogError.not_found) = write_none db block
  write_log block (err FindLogError.multiple_logs) = refuse db Error.multiple_logs

  unfoldable pub sync_block : Header d → Write db
  unfolding write_log
  sync_block h = write_log h.hash (find_log d h.digest)

  abbrev pub write_genesis_block : ℕ → Result Error (Option EthereumBlock) → Write db
  write_genesis_block block (err e) = refuse db e
  write_genesis_block block (ok none) = refuse db Error.genesis_not_found
  write_genesis_block block (ok (some b)) = write_hashes db (record {
    block_hash = block;
    ethereum_block_hash = b.header_hash;
    ethereum_transaction_hashes = [];
  })

  abbrev pub write_genesis : ℕ → Result Error (Option ℕ) → Write db
  write_genesis block (err e) = refuse db e
  write_genesis block (ok none) = write_none db block
  write_genesis block (ok (some version)) = write_genesis_block block (
      if ltb 1 version
      then chain.current_block block
      else chain.current_block_before_version_2 block)

  unfoldable pub sync_genesis_block : Header d → Write db
  sync_genesis_block h = write_genesis h.hash (chain.api_version h.hash)

  -- A header that is still to be synced.
  abbrev pub checked_header :
      ℕ → Result Error (Option (Header d)) → Result Error (Option (Header d))
  checked_header sync_from (ok (some h)) = if leb sync_from h.number then ok (some h) else ok none
  checked_header sync_from (ok none) = err Error.header_not_found
  checked_header sync_from (err e) = err Error.header_not_found

  abbrev pub unless_synced :
      Result Error Bool → Result Error (Option (Header d)) → Result Error (Option (Header d))
  unless_synced (err e) r = err e
  unless_synced (ok true) r = ok none
  unless_synced (ok false) r = r

  unfoldable pub fetch_header : ℕ → ℕ → db.Db → Result Error (Option (Header d))
  fetch_header sync_from tip s =
      unless_synced (is_synced db tip s) (checked_header sync_from (chain.header tip))

  -- The `while let Some(tip) = tips.pop()`. A `Vec` used as a stack is a list
  -- with its last element first, in the database and among the leaves too. The result is the first
  -- header to operate on, with the tips below it.
  abbrev pub or_else :
      {A : Type 0}
      → Result Error (Option A)
      → List ℕ
      → Result Error (Option A × List ℕ)
      → Result Error (Option A × List ℕ)
  or_else (err e) rest later = err e
  or_else (ok (some h)) rest later = ok (some h, rest)
  or_else (ok none) rest later = later

  unfoldable pub pop_tips : ℕ → List ℕ → db.Db → Result Error (Option (Header d) × List ℕ)
  unfolding fetch_header
  pop_tips sync_from [] s = ok (none, [])
  pop_tips sync_from (tip ∷ tips) s =
      let later = pop_tips sync_from tips s in or_else (fetch_header sync_from tip s) tips later

  -- `sinks.retain`: while in major syncing every subscriber is dropped, else those whose channel
  -- is closed; the others are told.
  unfoldable pub notify : ℕ → List chain.Sink → List chain.Sink
  notify hash [] = []
  notify hash (sink ∷ sinks) =
      if not chain.is_major_syncing && chain.unbounded_send sink hash (chain.best_hash == hash)
      then sink ∷ notify hash sinks
      else notify hash sinks

  pub record State : Type 0 where
    pub store : db.Db
    pub sinks : List chain.Sink

  abbrev pub Outcome : Type 0
  Outcome = State × Result Error Bool

  -- `?` after a write; then go on with the new store.
  abbrev pub after_write : db.Db × Result Error (Unit {0}) → State → (State → Outcome) → Outcome
  after_write (s, err e) st k = (record st { store = s }, err e)
  after_write (s, ok _) st k = k (record st { store = s })

  abbrev pub finish : Header d → State → Outcome
  finish h st = (record st { sinks = notify h.hash st.sinks }, ok true)

  -- A parachain worker does not run ahead of the best block.
  abbrev pub is_ahead : SyncStrategy → Header d → Bool
  is_ahead SyncStrategy.normal h = false
  is_ahead SyncStrategy.parachain h = ltb chain.best_number h.number

  -- The genesis block has no parent to go on with; another block's parent is the next tip.
  abbrev pub operate : SyncStrategy → Header d → List ℕ → State → Outcome
  unfolding sync_block sync_genesis_block
  operate strategy h tips st =
      if h.number == 0
      then after_write (sync_genesis_block h st.store) st
          (λ st'. after_write (write_current_syncing_tips db tips st'.store) st' (finish h))
      else if is_ahead strategy h
      then (st, ok false)
      else after_write (sync_block h st.store) st (λ st'.
        after_write (write_current_syncing_tips db (h.parent_hash ∷ tips) st'.store) st' (finish h))

  abbrev pub operate_on : SyncStrategy → Result Error (Option (Header d) × List ℕ) → State → Outcome
  unfolding operate
  operate_on strategy (err e) st = (st, err e)
  operate_on strategy (ok (some h, tips)) st = operate strategy h tips st
  operate_on strategy (ok (none, tips)) st =
      after_write (write_current_syncing_tips db tips st.store) st (λ st'. (st', ok false))

  -- Without tips the leaves of the chain are the tips; without leaves there is nothing to do.
  abbrev pub start_tips : Result Error (List ℕ) → Result Error (List ℕ)
  start_tips (err e) = err e
  start_tips (ok []) = chain.leaves
  start_tips (ok (tip ∷ tips)) = ok (tip ∷ tips)

  abbrev pub from_tips : SyncStrategy → ℕ → Result Error (List ℕ) → State → Outcome
  unfolding operate_on pop_tips
  from_tips strategy sync_from (err e) st = (st, err e)
  from_tips strategy sync_from (ok []) st = (st, ok false)
  from_tips strategy sync_from (ok (tip ∷ tips)) st =
      operate_on strategy (pop_tips sync_from (tip ∷ tips) st.store) st

  unfoldable pub sync_one_block : SyncStrategy → ℕ → State → Outcome
  unfolding from_tips
  sync_one_block strategy sync_from st =
      from_tips strategy sync_from (start_tips (current_syncing_tips db st.store)) st

  -- The loop of `sync_blocks` from a value of `synced_any`: `||` does not evaluate its right side
  -- once the left one is true.
  abbrev pub next_round : Bool → Outcome → State → Outcome
  next_round true later st = (st, ok true)
  next_round false later st = later

  abbrev pub continue_with : Outcome → (Bool → State → Outcome) → Outcome
  continue_with (st, err e) k = (st, err e)
  continue_with (st, ok synced) k = k synced st

  unfoldable pub sync_from_round : ℕ → Bool → SyncStrategy → ℕ → State → Outcome
  unfolding sync_one_block
  sync_from_round zero synced_any strategy sync_from st = (st, ok synced_any)
  sync_from_round (suc n) synced_any strategy sync_from st =
      continue_with (next_round synced_any (sync_one_block strategy sync_from st) st)
        (λ synced st'. sync_from_round n synced strategy sync_from st')

  unfoldable pub sync_blocks : ℕ → SyncStrategy → ℕ → State → Outcome
  unfolding sync_from_round
  sync_blocks limit strategy sync_from st = sync_from_round limit false strategy sync_from st
