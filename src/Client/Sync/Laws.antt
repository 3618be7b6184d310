-- ===== src/Client/Sync/Laws.antt =====
-- `sync_block` and `sync_genesis_block` of client/mapping-sync/src/kv/mod.rs against the database.
use frontier.Base.{
  ℕ, ◌≡◌, ◌≢◌, refl, true, Option, none, some, List, [], ◌∷◌, arith, ==_refl, ◌==◌, Bool-cases, inl,
  inr,
}
use frontier.Evm.Weight.{Result, ok, err}
use frontier.Client.Consensus.{
  EthereumBlock, Decoder, Log, PreLog, PostLog, FindLogError, Found, find_log, from_block,
}
use frontier.Client.Mapping.{
  Database, Error, MappingCommitment, Change, write_current_syncing_tips, block_hash, is_synced,
  write_none, write_hashes, committed, commit_hashes, transaction_changes,
}
use frontier.Client.Mapping.Laws.{all_changes, write_hashes-Maps, ==_ne}
use frontier.Client.Sync.{
  Header, Chain, sync_block, sync_genesis_block, write_log, write_expected, write_genesis,
  write_genesis_block,
}

module _ (db : Database) where
  open db use {Db}

  -- A write marks the block `b` as synced and no other, or it fails and changes nothing.
  abbrev pub Marks : ℕ → Db → Db × Result Error (Unit {0}) → Type 0
  Marks b s (s', ok _) =
      (is_synced db b s' ≡ ok true) × ((h : ℕ) → h ≢ b → is_synced db h s' ≡ is_synced db h s)
  Marks b s (s', err _) = s' ≡ s

  -- A tip write keeps what is synced.
  abbrev pub Keeps : Db → Db × Result Error (Unit {0}) → Type 0
  Keeps s (s', ok _) = (h : ℕ) → is_synced db h s' ≡ is_synced db h s
  Keeps s (s', err _) = s' ≡ s

  write_none-Marks : (b : ℕ) (s : Db) → Marks b s (write_none db b s)
  unfolding write_none is_synced
  write_none-Marks b s = go (db.commit (Change.set_synced b ∷ []) s) refl
    where
      go :
          (o : Option Db)
          → db.commit (Change.set_synced b ∷ []) s ≡ o
          → Marks b s (committed db s o)
      go none e = refl
      go (some s') e = (
        rw (db.synced-commit _ s b e) (rw (==_refl b)),
        λ h n. rw (db.synced-commit _ s h e) (rw (==_ne b h n)),
      )

  pub write_tips-Keeps : (tips : List ℕ) (s : Db) → Keeps s (write_current_syncing_tips db tips s)
  unfolding write_current_syncing_tips is_synced
  write_tips-Keeps tips s = go (db.commit (Change.set_tips tips ∷ []) s) refl
    where
      go :
          (o : Option Db) → db.commit (Change.set_tips tips ∷ []) s ≡ o → Keeps s (committed db s o)
      go none e = refl
      go (some s') e = λ h. rw (db.synced-commit _ s h e)

  committed-err :
      (s : Db) (o : Option Db) {s' : Db} {e : Error} → committed db s o ≡ (s', err e) → s' ≡ s
  committed-err s none h = ground arith
  committed-err s (some s'') h = absurd (ground arith)

  commit_hashes-err :
      (c : MappingCommitment) (changes : Result Error (List Change)) (s : Db) {s' : Db} {e : Error}
      → commit_hashes db c changes s ≡ (s', err e)
      → s' ≡ s
  unfolding block_hash
  commit_hashes-err c (err e) s h = ground arith
  commit_hashes-err c (ok cs) s h = committed-err s (db.commit (all_changes db c cs s) s) h

  write_hashes-Marks : (c : MappingCommitment) (s : Db) → Marks c.block_hash s (write_hashes db c s)
  unfolding write_hashes
  write_hashes-Marks c s = go (write_hashes db c s) refl
    where
      go : (o : Db × Result Error (Unit {0})) → write_hashes db c s ≡ o → Marks c.block_hash s o
      go (s', ok _) e = let m = write_hashes-Maps db c s e in (m.synced, m.other_synced)
      go (s', err _) e =
          commit_hashes-err c (transaction_changes db c 0 c.ethereum_transaction_hashes s) s e

  module _ {d : Decoder} (chain : Chain d) where
    write_expected-Marks :
        (b expected : ℕ) (stored : Option EthereumBlock) (s : Db)
        → Marks b s (write_expected db chain b expected stored s)
    unfolding from_block
    write_expected-Marks b expected none s = write_none-Marks b s
    write_expected-Marks b expected (some block) s =
        elim (Bool-cases (block.header_hash == expected)) [
          | inl same ↦ rw same (write_hashes-Marks _ s)
          | inr other ↦ rw other refl
        ]

    write_log-Marks :
        (b : ℕ) (found : Found Log) (s : Db) → Marks b s (write_log db chain b found s)
    unfolding from_block
    write_log-Marks b (ok (Log.pre (PreLog.block block))) s = write_hashes-Marks _ s
    write_log-Marks b (ok (Log.post (PostLog.hashes hashes))) s = write_hashes-Marks _ s
    write_log-Marks b (ok (Log.post (PostLog.block block))) s = write_hashes-Marks _ s
    write_log-Marks b (ok (Log.post (PostLog.block_hash expected))) s =
        write_expected-Marks b expected (chain.stored_block b) s
    write_log-Marks b (err FindLogError.not_found) s = write_none-Marks b s
    write_log-Marks b (err FindLogError.multiple_logs) s = refl

    -- `sync_block`, whatever the digest, the storage and the database answer: it succeeds and marks
    -- the block as synced, and no other block, or it fails and leaves the database as it was.
    pub sync_block-Marks : (h : Header d) (s : Db) → Marks h.hash s (sync_block db chain h s)
    unfolding sync_block
    sync_block-Marks h s = write_log-Marks h.hash (find_log d h.digest) s

    write_genesis_block-Marks :
        (b : ℕ) (block : Result Error (Option EthereumBlock)) (s : Db)
        → Marks b s (write_genesis_block db chain b block s)
    write_genesis_block-Marks b (err e) s = refl
    write_genesis_block-Marks b (ok none) s = refl
    write_genesis_block-Marks b (ok (some block)) s = write_hashes-Marks _ s

    write_genesis-Marks :
        (b : ℕ) (version : Result Error (Option ℕ)) (s : Db)
        → Marks b s (write_genesis db chain b version s)
    write_genesis-Marks b (err e) s = refl
    write_genesis-Marks b (ok none) s = write_none-Marks b s
    write_genesis-Marks b (ok (some version)) s = write_genesis_block-Marks b _ s

    -- `sync_genesis_block` too succeeds and marks the block, and no other, or changes nothing.
    pub sync_genesis_block-Marks :
        (h : Header d) (s : Db) → Marks h.hash s (sync_genesis_block db chain h s)
    unfolding sync_genesis_block
    sync_genesis_block-Marks h s = write_genesis-Marks h.hash (chain.api_version h.hash) s
