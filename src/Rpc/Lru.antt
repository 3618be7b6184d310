-- ===== src/Rpc/Lru.antt =====
-- `LRUCacheByteLimited` of client/rpc/src/cache/lru_cache.rs: a least-recently-used map with a limit
-- on the encoded size of its values. `LruMap` of schnellru is a parameter; the metrics are left out.
pub mod Laws
mod Tests
use frontier.Base.{
  ℕ, zero, suc, ◌+◌, ◌-◌, ◌≡◌, ◌==◌, if◌then◌else◌, Option, none, some, List, [], ◌∷◌, ◌++◌, length,
  ltb, true, false,
}

module _ {V : Type 0} where
  -- The entries without a key.
  abbrev pub erase : ℕ → List (ℕ × V) → List (ℕ × V)
  erase k [] = []
  erase k ((j, v) ∷ es) = if j == k then erase k es else (j, v) ∷ erase k es

  abbrev pub lookup : ℕ → List (ℕ × V) → Option V
  lookup k [] = none
  lookup k ((j, v) ∷ es) = if j == k then some v else lookup k es

-- The map with an unlimited limiter: `entries` lists it from the oldest to the newest. `insert`
-- makes its entry the newest, in place of an older one of that key; `get` makes what it finds the
-- newest.
pub record LruMap (V : Type 0) : Type 1 where
  pub Map : Type 0
  pub empty : Map
  pub entries : Map → List (ℕ × V)
  pub get : ℕ → Map → Option V × Map
  pub pop_oldest : Map → Option ((ℕ × V) × Map)
  pub insert : ℕ → V → Map → Map
  pub entries-empty : entries empty ≡ []
  pub get-lookup : (k : ℕ) (m : Map) → (get k m).0 ≡ lookup k (entries m)
  pub get-found :
      (k : ℕ) (m : Map) {v : V}
      → lookup k (entries m) ≡ some v
      → entries (get k m).1 ≡ erase k (entries m) ++ (k, v) ∷ []
  pub get-missing :
      (k : ℕ) (m : Map) → lookup k (entries m) ≡ none → entries (get k m).1 ≡ entries m
  pub pop-empty : (m : Map) → entries m ≡ [] → pop_oldest m ≡ none
  pub pop-oldest :
      (m : Map) (e : ℕ × V) (es : List (ℕ × V))
      → entries m ≡ e ∷ es
      → (m' : Map) × (pop_oldest m ≡ some (e, m')) × (entries m' ≡ es)
  pub entries-insert :
      (k : ℕ) (v : V) (m : Map) → entries (insert k v m) ≡ erase k (entries m) ++ (k, v) ∷ []

module _ {V : Type 0} (lru : LruMap V) (encoded_size : V → ℕ) where
  pub record Cache : Type 0 where
    pub cache : lru.Map
    pub max_size : ℕ
    pub size : ℕ

  unfoldable pub new : ℕ → Cache
  new max_size = record { cache = lru.empty; max_size = max_size; size = 0 }

  unfoldable pub get : ℕ → Cache → Option V × Cache
  get k c = let (v, m) = lru.get k c.cache in (v, record c { cache = m })

  -- The `while` of `put`, on fuel; `none` means that the fuel ran out.
  unfoldable pub evict : ℕ → ℕ → ℕ → lru.Map → Option (ℕ × lru.Map)
  evict zero max_size size m = none
  evict (suc fuel) max_size size m = elim (ltb max_size size) [
    | false ↦ some (size, m)
    | true ↦ elim (lru.pop_oldest m) [
      | none ↦ some (size, m)
      | some ((k, v), m') ↦ evict fuel max_size (size - encoded_size v) m'
    ]
  ]

  abbrev pub store : ℕ → V → Cache → Option (ℕ × lru.Map) → Option Cache
  store k v c none = none
  store k v c (some (size, m)) = some (record c { cache = lru.insert k v m; size = size })

  -- The fuel is one more than the number of entries.
  unfoldable pub put : ℕ → V → Cache → Option Cache
  unfolding evict
  put k v c =
      store k v c
        (evict (suc (length (lru.entries c.cache))) c.max_size (c.size + encoded_size v) c.cache)
