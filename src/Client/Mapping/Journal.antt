-- ===== src/Client/Mapping/Journal.antt =====
-- A concrete database for the tests: the journal of its changes.
use frontier.Base.{ℕ, ◌≡◌, refl, Bool, some, List, [], ◌∷◌, ◌++◌, arith}
use frontier.Client.Mapping.{
  Database, Read, missing, Change, TransactionMetadata, synced_after, block_after,
  transaction_after, tips_after,
}

pub synced_after-append :
    (d cs : List Change) (h : ℕ) (r : Read Bool)
    → synced_after (d ++ cs) h r ≡ synced_after cs h (synced_after d h r)
synced_after-append [] cs h r = refl
synced_after-append (Change.set_synced k ∷ d) cs h r = synced_after-append d cs h _
synced_after-append (Change.set_block k l ∷ d) cs h r = synced_after-append d cs h r
synced_after-append (Change.set_transaction k l ∷ d) cs h r = synced_after-append d cs h r
synced_after-append (Change.set_tips l ∷ d) cs h r = synced_after-append d cs h r

pub block_after-append :
    (d cs : List Change) (h : ℕ) (r : Read (List ℕ))
    → block_after (d ++ cs) h r ≡ block_after cs h (block_after d h r)
block_after-append [] cs h r = refl
block_after-append (Change.set_synced k ∷ d) cs h r = block_after-append d cs h r
block_after-append (Change.set_block k l ∷ d) cs h r = block_after-append d cs h _
block_after-append (Change.set_transaction k l ∷ d) cs h r = block_after-append d cs h r
block_after-append (Change.set_tips l ∷ d) cs h r = block_after-append d cs h r

pub transaction_after-append :
    (d cs : List Change) (h : ℕ) (r : Read (List TransactionMetadata))
    → transaction_after (d ++ cs) h r ≡ transaction_after cs h (transaction_after d h r)
transaction_after-append [] cs h r = refl
transaction_after-append (Change.set_synced k ∷ d) cs h r = transaction_after-append d cs h r
transaction_after-append (Change.set_block k l ∷ d) cs h r = transaction_after-append d cs h r
transaction_after-append (Change.set_transaction k l ∷ d) cs h r = transaction_after-append d cs h _
transaction_after-append (Change.set_tips l ∷ d) cs h r = transaction_after-append d cs h r

pub tips_after-append :
    (d cs : List Change) (r : Read (List ℕ))
    → tips_after (d ++ cs) r ≡ tips_after cs (tips_after d r)
tips_after-append [] cs r = refl
tips_after-append (Change.set_synced k ∷ d) cs r = tips_after-append d cs r
tips_after-append (Change.set_block k l ∷ d) cs r = tips_after-append d cs r
tips_after-append (Change.set_transaction k l ∷ d) cs r = tips_after-append d cs r
tips_after-append (Change.set_tips l ∷ d) cs r = tips_after-append d cs _

pub appended : {d d' : List Change} → some d ≡ some d' → d' ≡ d
appended e = ground arith

-- A database that keeps all changes, the first one first, and never fails to commit.
abbrev pub journal : Database
journal = record {
  Db = List Change;
  synced = λ d h. synced_after d h missing;
  block_mapping = λ d h. block_after d h missing;
  transaction_mapping = λ d h. transaction_after d h missing;
  syncing_tips = λ d. tips_after d missing;
  commit = λ cs d. some (d ++ cs);
  synced-commit = λ cs d h {d'} e. rw (appended e) (synced_after-append d cs h missing);
  block-commit = λ cs d h {d'} e. rw (appended e) (block_after-append d cs h missing);
  transaction-commit = λ cs d h {d'} e. rw (appended e) (transaction_after-append d cs h missing);
  tips-commit = λ cs d {d'} e. rw (appended e) (tips_after-append d cs missing);
}
