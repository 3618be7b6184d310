-- ===== src/Evm/Accounts/Laws.antt =====
-- The metadata cache of frame/evm/src/lib.rs against the codes, and the storage cache of
-- frame/evm/src/runner/stack.rs against the values at the start of a transaction.
use frontier.Base.{
  ℕ, ◌≡◌, refl, ap, length, ◌∙◌, Option, none, some, List, [], ◌∷◌, arith, unwrap_or, Option-cases,
  inl, inr, if◌then◌else◌, ◌==◌, ◌&&◌, Bool-cases,
}
use frontier.Evm.Weight.{ExitError, Result, ok, err}
use frontier.Evm.Accounts.{
  Provider, Accounts, CodeMetadata, Slots, code, from_code, empty_code_hash, compute_metadata,
  account_code_metadata, remove_account, create_account, create_if, allowed, store_code, storage,
  original_storage, set_storage, cache_original,
}

module _ (p : Provider) where
  -- The size and the hash of the account's code.
  abbrev pub code_facts : ℕ → Accounts p → CodeMetadata
  code_facts a s = record { size = length (code p s a); hash = p.keccak_256 (code p s a) }

  -- Cached metadata is that of the code.
  abbrev pub IsCoherent : Accounts p → Type 0
  IsCoherent s =
      (a : ℕ) (meta : CodeMetadata) → s.codes_metadata a ≡ some meta → meta ≡ code_facts a s

  store_code-IsCoherent :
      (a : ℕ) (bytes : List ℕ) (s : Accounts p) → IsCoherent s → IsCoherent (store_code p a bytes s)
  unfolding from_code
  store_code-IsCoherent a [] s v = v
  store_code-IsCoherent a (byte ∷ bytes) s v = λ b meta h. ground (arith, v b meta)

  created-IsCoherent :
      (r : Result ExitError (Unit {0})) (a : ℕ) (bytes : List ℕ) (s : Accounts p)
      → IsCoherent s
      → IsCoherent (create_if p r a bytes s).0
  created-IsCoherent (ok _) a bytes s v = store_code-IsCoherent a bytes s v
  created-IsCoherent (err e) a bytes s v = v

  create_account-IsCoherent :
      (a : ℕ) (bytes : List ℕ) (caller : Option ℕ) (s : Accounts p)
      → IsCoherent s
      → IsCoherent (create_account p a bytes caller s).0
  unfolding create_account
  create_account-IsCoherent a bytes caller s v = created-IsCoherent (allowed p caller) a bytes s v

  remove_account-IsCoherent :
      (a : ℕ) (s : Accounts p) → IsCoherent s → IsCoherent (remove_account p a s)
  unfolding remove_account
  remove_account-IsCoherent a s v b meta h = ground (arith, v b meta)

  -- The answer to a metadata query is that of the code, and the query changes no code.
  abbrev pub Answers : ℕ → Accounts p → CodeMetadata × Accounts p → Type 0
  Answers a s (meta, s') =
      (meta.size ≡ length (code p s a))
      × (meta.hash ≡ p.keccak_256 (code p s a))
      × IsCoherent s'
      × (s'.codes ≡ s.codes)
      × (s'.storages ≡ s.storages)

  compute_metadata-Answers :
      (bytes : List ℕ) (a : ℕ) (s : Accounts p)
      → p.keccak_256 [] ≡ empty_code_hash
      → code p s a ≡ bytes
      → IsCoherent s
      → Answers a s (compute_metadata p bytes a s)
  unfolding from_code
  compute_metadata-Answers [] a s h e v = (ground arith, ground arith, v, refl, refl)
  compute_metadata-Answers (byte ∷ bytes) a s h e v =
      (ground arith, ground arith, (λ b meta k. ground (arith, v b meta)), refl, refl)

  -- Where the cached metadata agrees with the codes, and `EMPTY_CODE_HASH` is the hash of no
  -- bytes: a query answers with the size and hash of the code, cached or not; the cache still
  -- agrees, and neither codes nor storage change.
  pub account_code_metadata-Answers :
      (a : ℕ) (s : Accounts p)
      → p.keccak_256 [] ≡ empty_code_hash
      → IsCoherent s
      → Answers a s (account_code_metadata p a s)
  unfolding account_code_metadata
  account_code_metadata-Answers a s h v = elim (Option-cases (s.codes_metadata a)) [
    | inl missing ↦
        rw (missing, account_code_metadata) (compute_metadata-Answers (code p s a) a s h refl v)
    | inr (meta, e) ↦
        rw (e, account_code_metadata)
          (ap (λ m. m.size) (v a meta e), ap (λ m. m.hash) (v a meta e), v, refl, refl)
  ]

  -- What the pallet does to the codes of accounts.
  pub data Op : Type 0 where
    create : ℕ → List ℕ → Option ℕ → Op
    remove : ℕ → Op
    query : ℕ → Op

  unfoldable pub run_op : Op → Accounts p → Accounts p
  run_op (Op.create a bytes caller) s = (create_account p a bytes caller s).0
  run_op (Op.remove a) s = remove_account p a s
  run_op (Op.query a) s = (account_code_metadata p a s).1

  unfoldable pub run_ops : List Op → Accounts p → Accounts p
  run_ops [] s = s
  run_ops (o ∷ os) s = run_ops os (run_op o s)

  run_op-IsCoherent :
      (o : Op) (s : Accounts p)
      → p.keccak_256 [] ≡ empty_code_hash
      → IsCoherent s
      → IsCoherent (run_op o s)
  unfolding run_op
  run_op-IsCoherent (Op.create a bytes caller) s h v = create_account-IsCoherent a bytes caller s v
  run_op-IsCoherent (Op.remove a) s h v = remove_account-IsCoherent a s v
  run_op-IsCoherent (Op.query a) s h v = (account_code_metadata-Answers a s h v).2

  -- If `EMPTY_CODE_HASH` is the hash of no bytes, creating, removing and querying accounts in any
  -- order keeps the cached metadata in agreement with the codes.
  pub run_ops-IsCoherent :
      (os : List Op) (s : Accounts p)
      → p.keccak_256 [] ≡ empty_code_hash
      → IsCoherent s
      → IsCoherent (run_ops os s)
  unfolding run_ops
  run_ops-IsCoherent [] s h v = v
  run_ops-IsCoherent (o ∷ os) s h v =
      run_ops-IsCoherent os (run_op o s) h (run_op-IsCoherent o s h v)

  -- The writes of a transaction, in order: address, slot and value.
  unfoldable pub set_storages : List (ℕ × ℕ × ℕ) → Slots p → Slots p
  set_storages [] s = s
  set_storages ((a, i, value) ∷ ws) s = set_storages ws (set_storage p a i value s)

  -- The value that a slot has after the writes, from the value that it had.
  unfoldable pub last_write : List (ℕ × ℕ × ℕ) → ℕ → ℕ → ℕ → ℕ
  last_write [] a i old = old
  last_write ((b, j, value) ∷ ws) a i old =
      last_write ws a i (if b == a && j == i then value else old)

  unwrap_or-cache_original :
      (cached : Option ℕ) (old value : ℕ)
      → unwrap_or (cache_original p cached old value) value ≡ unwrap_or cached old
  unwrap_or-cache_original (some c) old value = refl
  unwrap_or-cache_original none old value = ground arith

  original-set_storage :
      (b j value : ℕ) (s : Slots p) (a i : ℕ)
      → original_storage p (set_storage p b j value s) a i ≡ original_storage p s a i
  unfolding original_storage set_storage
  original-set_storage b j value s a i = elim (Bool-cases (b == a && j == i)) [
    | inl hit ↦
        ground
          (arith, hit, unwrap_or-cache_original (s.originals a i) (s.accounts.storages a i) value)
    | inr miss ↦ ground (arith, miss)
  ]

  storage-set_storage :
      (b j value : ℕ) (s : Slots p) (a i : ℕ)
      → storage p (set_storage p b j value s) a i
        ≡ (if b == a && j == i then value else storage p s a i)
  unfolding set_storage
  storage-set_storage b j value s a i = refl

  -- After any writes, every slot reads as the last value written to it, and `original_storage`
  -- still answers what it did before the writes.
  pub set_storages-original :
      (ws : List (ℕ × ℕ × ℕ)) (s : Slots p) (a i : ℕ)
      → (original_storage p (set_storages ws s) a i ≡ original_storage p s a i)
        × (storage p (set_storages ws s) a i ≡ last_write ws a i (storage p s a i))
  unfolding set_storages last_write
  set_storages-original [] s a i = (refl, refl)
  set_storages-original ((b, j, value) ∷ ws) s a i =
      let (original, last) = set_storages-original ws (set_storage p b j value s) a i in
      (original ∙ original-set_storage b j value s a i, rw last (rw storage-set_storage))
