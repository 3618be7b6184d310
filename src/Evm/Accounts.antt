-- ===== src/Evm/Accounts.antt =====
-- The code and storage of EVM accounts in the pallet's storage (frame/evm/src/lib.rs), and the
-- storage cache of `SubstrateStackState` (frame/evm/src/runner/stack.rs).
pub mod Laws
mod Tests
use frontier.Base.{
  ℕ, Bool, true, false, not, ◌&&◌, Option, none, some, List, [], ◌∷◌, length, ◌==◌, if◌then◌else◌,
  unwrap_or,
}
use frontier.Evm.Weight.{ExitError, Result, ok, err}

pub record CodeMetadata : Type 0 where
  pub size : ℕ
  pub hash : ℕ

-- What the runtime's configuration supplies: the hash of sp_io, the account provider (by address,
-- through the address mapping) and the filter on who may create contracts.
pub record Provider : Type 1 where
  pub P : Type 0
  pub create_account : ℕ → P → P
  pub remove_account : ℕ → P → P
  pub keccak_256 : List ℕ → ℕ
  pub check_create_origin : ℕ → Result ExitError (Unit {0})

-- A storage map of the pallet: a function from the keys, changed at one key.
abbrev pub update {ℓ} : {V : Type ℓ} → (ℕ → V) → ℕ → V → ℕ → V
update f k v j = if k == j then v else f j

abbrev pub update₂ {ℓ} : {V : Type ℓ} → (ℕ → ℕ → V) → ℕ → ℕ → V → ℕ → ℕ → V
update₂ f k l v i j = if k == i && l == j then v else f i j

-- `AccountCodes`, `AccountCodesMetadata` and `AccountStorages`; a storage slot that is not there
-- reads as `H256::default()`, which is 0.
module _ (p : Provider) where
  pub record Accounts : Type 0 where
    pub codes : ℕ → Option (List ℕ)
    pub codes_metadata : ℕ → Option CodeMetadata
    pub storages : ℕ → ℕ → ℕ
    pub provider : p.P

abbrev pub code_of : Option (List ℕ) → List ℕ
code_of none = []
code_of (some code) = code

abbrev pub empty_code_hash : ℕ
empty_code_hash = 0xc5d2460186f7233c927e7db2dcc703c0e500b653ca82273b7bfad8045d85a470

-- `code.is_empty()`
abbrev pub is_empty : List ℕ → Bool
is_empty [] = true
is_empty (x ∷ xs) = false

module _ (p : Provider) where
  unfoldable pub from_code : List ℕ → CodeMetadata
  from_code code = record { size = length code; hash = p.keccak_256 code }

  -- `AccountCodes::get`
  abbrev pub code : Accounts p → ℕ → List ℕ
  code s a = code_of (s.codes a)

  abbrev pub compute_metadata : List ℕ → ℕ → Accounts p → CodeMetadata × Accounts p
  compute_metadata [] a s = (record { size = 0; hash = empty_code_hash }, s)
  compute_metadata (b ∷ bs) a s = (
    from_code (b ∷ bs),
    record s { codes_metadata = update s.codes_metadata a (some (from_code (b ∷ bs))) },
  )

  -- A cached entry is returned; else it is computed, and cached unless the code is empty.
  unfoldable pub account_code_metadata : ℕ → Accounts p → CodeMetadata × Accounts p
  unfolding from_code
  account_code_metadata a s = elim (s.codes_metadata a) [
    | some meta ↦ (meta, s)
    | none ↦ compute_metadata (code s a) a s
  ]

  -- The provider is told only where the account had code.
  abbrev pub forget : Option (List ℕ) → ℕ → p.P → p.P
  forget none a q = q
  forget (some c) a q = p.remove_account a q

  unfoldable pub remove_account : ℕ → Accounts p → Accounts p
  remove_account a s = record {
    codes = update s.codes a none;
    codes_metadata = update s.codes_metadata a none;
    storages = update s.storages a (λ _. 0);
    provider = forget (s.codes a) a s.provider;
  }

  -- The provider is told only where the account had no code.
  abbrev pub announce : Option (List ℕ) → ℕ → p.P → p.P
  announce none a q = p.create_account a q
  announce (some c) a q = q

  abbrev pub store_code : ℕ → List ℕ → Accounts p → Accounts p
  store_code a [] s = s
  store_code a (b ∷ bs) s = record s {
    codes = update s.codes a (some (b ∷ bs));
    codes_metadata = update s.codes_metadata a (some (from_code (b ∷ bs)));
    provider = announce (s.codes a) a s.provider;
  }

  abbrev pub allowed : Option ℕ → Result ExitError (Unit {0})
  allowed none = ok tt
  allowed (some caller) = p.check_create_origin caller

  abbrev pub create_if :
      Result ExitError (Unit {0})
      → ℕ
      → List ℕ
      → Accounts p
      → Accounts p × Result ExitError (Unit {0})
  create_if (ok _) a bytes s = (store_code a bytes s, ok tt)
  create_if (err e) a bytes s = (s, err e)

  unfoldable pub create_account :
      ℕ → List ℕ → Option ℕ → Accounts p → Accounts p × Result ExitError (Unit {0})
  unfolding from_code
  create_account a bytes caller s = create_if (allowed caller) a bytes s

  -- The caches `original_storage` and `transient_storage` of a transaction, beside the accounts.
  pub record Slots : Type 0 where
    pub accounts : Accounts p
    pub originals : ℕ → ℕ → Option ℕ
    pub transients : ℕ → ℕ → Option ℕ

  abbrev pub storage : Slots → ℕ → ℕ → ℕ
  storage s = s.accounts.storages

  -- The value at the start of the transaction.
  unfoldable pub original_storage : Slots → ℕ → ℕ → ℕ
  original_storage s a i = unwrap_or (s.originals a i) (storage s a i)

  unfoldable pub transient_storage : Slots → ℕ → ℕ → ℕ
  transient_storage s a i = unwrap_or (s.transients a i) 0

  -- The entry after the cache is filled: a vacant entry takes the old value if that changes.
  abbrev pub cache_original : Option ℕ → ℕ → ℕ → Option ℕ
  cache_original (some cached) old value = some cached
  cache_original none old value = if old == value then none else some old

  -- Writing `H256::default()` removes the slot, which then reads as 0.
  unfoldable pub set_storage : ℕ → ℕ → ℕ → Slots → Slots
  set_storage a i value s = record s {
    accounts = record (s.accounts) { storages = update₂ s.accounts.storages a i value };
    originals = update₂ s.originals a i (cache_original (s.originals a i) (storage s a i) value);
  }

  unfoldable pub set_transient_storage : ℕ → ℕ → ℕ → Slots → Slots
  set_transient_storage a i value s = record s {
    transients = update₂ s.transients a i (some value);
  }

  unfoldable pub reset_storage : ℕ → Slots → Slots
  reset_storage a s = record s {
    accounts = record (s.accounts) { storages = update s.accounts.storages a (λ _. 0) };
  }
