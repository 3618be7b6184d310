-- ===== src/Client/Mapping/Transactions.antt =====
-- `write_hashes` of client/db/src/kv/mod.rs: the transactions of a block, and a second write.
use frontier.Base.{
  ℕ, suc, ◌+◌, ◌%◌, ◌^◌, ◌≡◌, refl, sym, ap, inl, inr, ◌∙◌, subst, true, false, Option, none, some,
  List, [], ◌∷◌, ◌++◌, ◌==◌, arith, contains, nat_eq, length, ==_refl,
}
use frontier.Evm.Weight.{Result, ok, err}
use frontier.Client.Mapping.{
  Read, found, TransactionMetadata, Change, transaction_after, Database, Error, MappingCommitment,
  add_hash, block_hash, transaction_metadata, write_hashes, entry, transaction_changes,
  commit_hashes, add_entry,
}
use frontier.Client.Mapping.Laws.{IsListed, committed-ok, write_hashes-Maps}

module _ (db : Database) where
  open db use {Db}

  -- The changes leave the entries of a transaction alone.
  abbrev Skips : ℕ → Result Error (List Change) → Type 0
  Skips t (err e) = Unit
  Skips t (ok cs) =
      (r : Read (List TransactionMetadata)) (tail : List Change)
      → transaction_after (cs ++ tail) t r ≡ transaction_after tail t r

  -- The changes set the entries of a transaction.
  abbrev Sets : ℕ → List TransactionMetadata → Result Error (List Change) → Type 0
  Sets t l (err e) = Unit
  Sets t l (ok cs) =
      (r : Read (List TransactionMetadata)) (tail : List Change)
      → transaction_after (cs ++ tail) t r ≡ transaction_after tail t (found l)

  add_entry-Skips :
      (c : MappingCommitment) (i h t : ℕ) (old : Result Error (List TransactionMetadata))
      (rest : Result Error (List Change))
      → (h == t) ≡ false
      → Skips t rest
      → Skips t (add_entry db c i h old rest)
  add_entry-Skips c i h t (err e) rest n s = tt
  add_entry-Skips c i h t (ok metadata) (err e) n s = tt
  add_entry-Skips c i h t (ok metadata) (ok cs) n s = λ r tail. rw (n, transaction_after) (s r tail)

  add_entry-later :
      (c : MappingCommitment) (i h t : ℕ) (l : List TransactionMetadata)
      (old : Result Error (List TransactionMetadata)) (rest : Result Error (List Change))
      → Sets t l rest
      → Sets t l (add_entry db c i h old rest)
  add_entry-later c i h t l (err e) rest s = tt
  add_entry-later c i h t l (ok metadata) (err e) s = tt
  add_entry-later c i h t l (ok metadata) (ok cs) s = λ r tail. s _ tail

  add_entry-Sets :
      (c : MappingCommitment) (i t : ℕ) (metadata : List TransactionMetadata)
      (rest : Result Error (List Change))
      → Skips t rest
      → Sets t (metadata ++ entry db c i ∷ []) (add_entry db c i t (ok metadata) rest)
  add_entry-Sets c i t metadata (err e) s = tt
  add_entry-Sets c i t metadata (ok cs) s =
      λ r tail. rw (==_refl t, transaction_after) (s (found (metadata ++ entry db c i ∷ [])) tail)

  transaction_changes-Skips :
      (c : MappingCommitment) (i t : ℕ) (hs : List ℕ) (d : Db)
      → contains hs t ≡ false
      → Skips t (transaction_changes db c i hs d)
  unfolding transaction_changes
  transaction_changes-Skips c i t [] d n = λ r tail. refl
  transaction_changes-Skips c i t (h ∷ hs) d n =
      add_entry-Skips c i h t (transaction_metadata db h d) (transaction_changes db c (suc i) hs d)
        (ground arith) (transaction_changes-Skips c (suc i) t hs d (ground arith))

  transaction_changes-Sets :
      (c : MappingCommitment) (i t : ℕ) (before hs : List ℕ) (d : Db)
      (metadata : List TransactionMetadata)
      → contains hs t ≡ false
      → transaction_metadata db t d ≡ ok metadata
      → Sets t
          (metadata ++ entry db c (i + length before) ∷ [])
          (transaction_changes db c i (before ++ t ∷ hs) d)
  unfolding transaction_changes
  transaction_changes-Sets c i t [] hs d metadata n e = rw e (
      subst
        (λ k.
          Sets t (metadata ++ entry db c k ∷ [])
            (add_entry db c i t (ok metadata) (transaction_changes db c (suc i) hs d)))
        (omega arith)
        (add_entry-Sets c i t metadata (transaction_changes db c (suc i) hs d)
          (transaction_changes-Skips c (suc i) t hs d n)))
  transaction_changes-Sets c i t (h ∷ before) hs d metadata n e =
      add_entry-later c i h t (metadata ++ entry db c (i + suc (length before)) ∷ [])
        (transaction_metadata db h d) (transaction_changes db c (suc i) (before ++ t ∷ hs) d)
        (subst
          (λ k.
            Sets t (metadata ++ entry db c k ∷ [])
              (transaction_changes db c (suc i) (before ++ t ∷ hs) d))
          (omega arith) (transaction_changes-Sets c (suc i) t before hs d metadata n e))

  commit_hashes-Sets :
      (c : MappingCommitment) (changes : Result Error (List Change)) (d : Db) {d' : Db} (t : ℕ)
      (l : List TransactionMetadata)
      → Sets t l changes
      → commit_hashes db c changes d ≡ (d', ok tt)
      → transaction_metadata db t d' ≡ ok l
  unfolding commit_hashes transaction_metadata
  commit_hashes-Sets c (err e) d t l s h = absurd (ground arith)
  commit_hashes-Sets c (ok cs) d t l s h =
      let tail = Change.set_synced c.block_hash ∷ [] in
      let cs' =
        Change.set_block c.ethereum_block_hash
          (add_hash c.block_hash (block_hash db c.ethereum_block_hash d))
        ∷ (cs ++ tail) in
      rw (db.transaction-commit cs' d t (committed-ok db d (db.commit cs' d) h) ∙ s _ tail)

  -- A write of a commitment that succeeds appends to a transaction's entries the block's two hashes
  -- and the transaction's position (as a u32), if the transaction does not occur again after that
  -- position in the block.
  pub write_hashes-transaction :
      (c : MappingCommitment) (before hs : List ℕ) (t : ℕ) (d : Db) {d' : Db}
      (metadata : List TransactionMetadata)
      → c.ethereum_transaction_hashes ≡ before ++ t ∷ hs
      → contains hs t ≡ false
      → transaction_metadata db t d ≡ ok metadata
      → write_hashes db c d ≡ (d', ok tt)
      → transaction_metadata db t d'
        ≡ ok (
            metadata
            ++ record {
              substrate_block_hash = c.block_hash;
              ethereum_block_hash = c.ethereum_block_hash;
              ethereum_index = length before % 2 ^ 32;
            }
              ∷ [])
  unfolding write_hashes
  write_hashes-transaction c before hs t d metadata position n e h =
      commit_hashes-Sets c (transaction_changes db c 0 c.ethereum_transaction_hashes d) d t _
        (rw position (
          subst
            (λ k.
              Sets t (metadata ++ entry db c k ∷ [])
                (transaction_changes db c 0 (before ++ t ∷ hs) d))
            (omega arith) (transaction_changes-Sets c 0 t before hs d metadata n e)))
        h

  contains-append_self : (hs : List ℕ) (h : ℕ) → contains (hs ++ h ∷ []) h ≡ true
  contains-append_self [] h = rw (==_refl h)
  contains-append_self (x ∷ hs) h = ground (arith, contains-append_self hs h)

  IsListed-contains :
      (h : ℕ) (before : Result Error (Option (List ℕ))) (hashes : List ℕ)
      → IsListed db h before hashes
      → contains hashes h ≡ true
  IsListed-contains h (ok (some old)) hashes (inl (there, same)) = rw same there
  IsListed-contains h (ok (some old)) hashes (inr (new, behind)) =
      rw behind (contains-append_self old h)
  IsListed-contains h (ok none) hashes alone = rw alone (rw (==_refl h))
  IsListed-contains h (err e) hashes alone = rw alone (rw (==_refl h))

  IsListed-again :
      (h : ℕ) (before : Result Error (Option (List ℕ))) (old hashes : List ℕ)
      → before ≡ ok (some old)
      → contains old h ≡ true
      → IsListed db h before hashes
      → hashes ≡ old
  IsListed-again h before old hashes e there listed =
      elim (subst (λ r. IsListed db h r hashes) e listed) [
        | inl (_, same) ↦ same
        | inr (new, _) ↦ absurd (ground (arith, there, new))
      ]

  -- Writing the same commitment again leaves the list of its Ethereum block as the first write left
  -- it: a block is listed once.
  pub write_hashes_twice :
      (c : MappingCommitment) (d : Db) {d' d'' : Db}
      → write_hashes db c d ≡ (d', ok tt)
      → write_hashes db c d' ≡ (d'', ok tt)
      → block_hash db c.ethereum_block_hash d'' ≡ block_hash db c.ethereum_block_hash d'
  write_hashes_twice c d h h' =
      let m = write_hashes-Maps db c d h in
      let m' = write_hashes-Maps db c _ h' in
      m'.block
      ∙ ap (λ hs. ok (some hs))
          (IsListed-again c.block_hash _ m.hashes m'.hashes m.block
            (IsListed-contains c.block_hash _ m.hashes m.listed) m'.listed)
      ∙ sym m.block
