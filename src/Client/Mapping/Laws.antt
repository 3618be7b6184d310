-- ===== src/Client/Mapping/Laws.antt =====
-- Writing to and reading from the mapping database of client/db/src/kv/mod.rs.
use frontier.Base.{
  ℕ, suc, ◌≡◌, ◌≢◌, ◌⊎◌, inl, inr, Bool-cases, contains, refl, ◌∙◌, Bool, true, false, Option, none,
  some, List, [], ◌∷◌, ◌++◌, ◌==◌, arith, nat_eq, ==_refl,
}
use frontier.Evm.Weight.{Result, ok, err}
use frontier.Client.Mapping.{
  Read, TransactionMetadata, Change, synced_after, block_after, tips_after, Database, Error,
  MappingCommitment, add_hash, is_synced, block_hash, transaction_metadata, write_hashes,
  transaction_changes, commit_hashes, committed, add_entry,
}

pub ==_ne : (a b : ℕ) → b ≢ a → (a == b) ≡ false
==_ne a b h = ground arith

module _ (db : Database) where
  open db use {Db}

  -- The changes of the loop set transactions only.
  abbrev OnlyTransactions : Result Error (List Change) → Type 0
  OnlyTransactions (err e) = Unit
  OnlyTransactions (ok cs) =
      ((h : ℕ) (r : Read Bool) (tail : List Change)
        → synced_after (cs ++ tail) h r ≡ synced_after tail h r)
      × ((h : ℕ) (r : Read (List ℕ)) (tail : List Change)
          → block_after (cs ++ tail) h r ≡ block_after tail h r)
      × ((r : Read (List ℕ)) (tail : List Change) → tips_after (cs ++ tail) r ≡ tips_after tail r)

  add_entry-OnlyTransactions :
      (c : MappingCommitment) (i h : ℕ) (old : Result Error (List TransactionMetadata))
      (rest : Result Error (List Change))
      → OnlyTransactions rest
      → OnlyTransactions (add_entry db c i h old rest)
  add_entry-OnlyTransactions c i h (err e) rest o = tt
  add_entry-OnlyTransactions c i h (ok metadata) (err e) o = tt
  add_entry-OnlyTransactions c i h (ok metadata) (ok cs) o = (o.0, o.1, o.2)

  transaction_changes-Only :
      (c : MappingCommitment) (i : ℕ) (hs : List ℕ) (d : Db)
      → OnlyTransactions (transaction_changes db c i hs d)
  unfolding transaction_changes
  transaction_changes-Only c i [] d = ((λ h r tail. refl), (λ h r tail. refl), (λ r tail. refl))
  transaction_changes-Only c i (h ∷ hs) d =
      add_entry-OnlyTransactions c i h (transaction_metadata db h d) _
        (transaction_changes-Only c (suc i) hs d)

  pub committed-ok :
      (d : Db) (o : Option Db) {d' : Db} → committed db d o ≡ (d', ok tt) → o ≡ some d'
  committed-ok d none h = absurd (ground arith)
  committed-ok d (some e) h = ground arith

  -- The list of an Ethereum block after a write of a block: what was read before, with the block
  -- behind it unless it is there; alone where there was no list or none that can be decoded.
  abbrev pub IsListed : ℕ → Result Error (Option (List ℕ)) → List ℕ → Type 0
  IsListed h (ok (some old)) hashes =
      ((contains old h ≡ true) × (hashes ≡ old))
      ⊎ ((contains old h ≡ false) × (hashes ≡ old ++ h ∷ []))
  IsListed h (ok none) hashes = hashes ≡ h ∷ []
  IsListed h (err e) hashes = hashes ≡ h ∷ []

  add_hash-IsListed :
      (h : ℕ) (before : Result Error (Option (List ℕ))) → IsListed h before (add_hash h before)
  add_hash-IsListed h (ok (some old)) = elim (Bool-cases (contains old h)) [
    | inl there ↦ inl (there, rw there refl)
    | inr new ↦ inr (new, rw new refl)
  ]
  add_hash-IsListed h (ok none) = refl
  add_hash-IsListed h (err e) = refl

  -- What a successful write of a commitment shows, besides the transactions.
  pub record Maps (c : MappingCommitment) (d d' : Db) : Type 0 where
    pub synced : is_synced db c.block_hash d' ≡ ok true
    pub hashes : List ℕ
    pub block : block_hash db c.ethereum_block_hash d' ≡ ok (some hashes)
    pub listed : IsListed c.block_hash (block_hash db c.ethereum_block_hash d) hashes
    pub other_synced : (h : ℕ) → h ≢ c.block_hash → is_synced db h d' ≡ is_synced db h d
    pub other_block : (h : ℕ) → h ≢ c.ethereum_block_hash → block_hash db h d' ≡ block_hash db h d

  -- The changes of a commitment, around those of its transactions.
  abbrev pub all_changes : MappingCommitment → List Change → Db → List Change
  all_changes c cs d =
      Change.set_block c.ethereum_block_hash
        (add_hash c.block_hash (block_hash db c.ethereum_block_hash d))
      ∷ (cs ++ Change.set_synced c.block_hash ∷ [])

  commit_hashes-Maps :
      (c : MappingCommitment) (changes : Result Error (List Change)) (d : Db) {d' : Db}
      → OnlyTransactions changes
      → commit_hashes db c changes d ≡ (d', ok tt)
      → Maps c d d'
  unfolding is_synced commit_hashes block_hash
  commit_hashes-Maps c (err e) d o h = absurd (ground arith)
  commit_hashes-Maps c (ok cs) d {d'} o h =
      let cs' = all_changes c cs d in
      let e = committed-ok d (db.commit cs' d) h in
      let tail = Change.set_synced c.block_hash ∷ [] in
      let sy = λ (k : ℕ). db.synced-commit cs' d k e ∙ o.0 k (db.synced d k) tail in
      let bl = λ (k : ℕ). db.block-commit cs' d k e ∙ o.1 k _ tail in
      record {
        synced = rw (sy c.block_hash) (rw (==_refl c.block_hash));
        hashes = add_hash c.block_hash (block_hash db c.ethereum_block_hash d);
        listed = add_hash-IsListed c.block_hash (block_hash db c.ethereum_block_hash d);
        block = rw (bl c.ethereum_block_hash) (rw (==_refl c.ethereum_block_hash));
        other_synced = λ k n. rw (sy k) (rw (==_ne c.block_hash k n));
        other_block = λ k n. rw (bl k) (rw (==_ne c.ethereum_block_hash k n));
      }

  -- A write of a commitment that succeeds marks its block as synced and lists it under its Ethereum
  -- block: behind the hashes that were there, unless it is among them, where the list stays as it
  -- was; and alone where there was no list, or one that cannot be decoded. Other blocks are synced
  -- or not as before, and other Ethereum blocks keep their lists.
  pub write_hashes-Maps :
      (c : MappingCommitment) (d : Db) {d' : Db} → write_hashes db c d ≡ (d', ok tt) → Maps c d d'
  unfolding write_hashes
  write_hashes-Maps c d h =
      commit_hashes-Maps c _ d (transaction_changes-Only c 0 c.ethereum_transaction_hashes d) h
