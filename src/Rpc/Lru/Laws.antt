-- ===== src/Rpc/Lru/Laws.antt =====
-- `put` of client/rpc/src/cache/lru_cache.rs against the entries and the sizes of their values.
use frontier.Base.{
  ℕ, ◌+◌, ◌-◌, ◌≤◌, ◌≡◌, refl, ap, if◌then◌else◌, Option, none, some, List, [], ◌∷◌, ◌++◌, ltb,
  ◌==◌, false, arith, ◌⊎◌, Bool-cases, inl, inr,
}
use frontier.Rpc.Lru.{LruMap, Cache, erase, lookup, evict, put}

module _ {V : Type 0} (encoded_size : V → ℕ) where
  -- The encoded size of all values.
  abbrev pub total : List (ℕ × V) → ℕ
  total [] = 0
  total ((k, v) ∷ es) = encoded_size v + total es

  -- Eviction on the list of entries: the size counted, and what stays.
  abbrev pub evicted : ℕ → ℕ → List (ℕ × V) → ℕ × List (ℕ × V)
  evicted max_size size [] = (size, [])
  evicted max_size size ((k, v) ∷ es) =
      if ltb max_size size then evicted max_size (size - encoded_size v) es else (size, (k, v) ∷ es)

  total-append : (xs ys : List (ℕ × V)) → total (xs ++ ys) ≡ total xs + total ys
  total-append [] ys = omega arith
  total-append ((k, v) ∷ xs) ys = omega (arith, total-append xs ys)

  pub total-erase : (k : ℕ) (xs : List (ℕ × V)) → total (erase k xs) ≤ total xs
  total-erase k [] = omega arith
  total-erase k ((j, v) ∷ xs) = ground (arith, total-erase k xs)

  abbrev size_of : Option V → ℕ
  size_of none = 0
  size_of (some v) = encoded_size v

  -- Erasing a key takes away what is found under it.
  pub total-erase_found :
      (k : ℕ) (xs : List (ℕ × V)) {old : V}
      → lookup k xs ≡ some old
      → total (erase k xs) + encoded_size old ≤ total xs
  total-erase_found k [] h = absurd (ground arith)
  total-erase_found k ((j, v) ∷ xs) {old} h = elim (Bool-cases (j == k)) [
    | inl same ↦
        let value : some v ≡ some old = rw same at h in
        let size : encoded_size v ≡ encoded_size old = ap size_of value in
        rw same (omega (arith, size, total-erase k xs))
    | inr apart ↦
        let later : lookup k xs ≡ some old = rw apart at h in
        rw apart (omega (arith, total-erase_found k xs later))
  ]

module _ {V : Type 0} (lru : LruMap V) (encoded_size : V → ℕ) where
  -- The loop ends within its fuel, with the map that list eviction describes.
  abbrev Evicts : ℕ × List (ℕ × V) → Option (ℕ × lru.Map) → Type 0
  Evicts (size, es) none = ⊥
  Evicts (size, es) (some (size', m)) = (size' ≡ size) × (lru.entries m ≡ es)

  -- The size counts at least what the entries hold.
  abbrev pub IsCounted : Cache lru encoded_size → Type 0
  IsCounted c = total encoded_size (lru.entries c.cache) ≤ c.size

  -- What `put` leaves: the size counts the entries, the new one among them, and it is within the
  -- limit unless the new entry is the only one.
  abbrev pub Stored : ℕ → V → ℕ → Option (Cache lru encoded_size) → Type 0
  Stored k v max_size none = ⊥
  Stored k v max_size (some c) =
      IsCounted c
      × (c.max_size ≡ max_size)
      × ((es : List (ℕ × V)) × (lru.entries c.cache ≡ es ++ (k, v) ∷ [])
          × ((c.size ≤ max_size) ⊎ (es ≡ [])))

  -- With room for it, on a counted cache `put` of a key that is there, whatever else the cache
  -- holds, adds the new value's size and keeps counting the old value, which is gone: the size is at
  -- least the old value's above what the cache holds.
  pub put-overcounts :
      (k : ℕ)
      → (v old : V) → (c : Cache lru encoded_size) → lookup k (lru.entries c.cache) ≡ some old
      → IsCounted c
      → c.size + encoded_size v ≤ c.max_size
      → (c' : Cache lru encoded_size) × (put lru encoded_size k v c ≡ some c')
        × (total encoded_size (lru.entries c'.cache) + encoded_size old ≤ c'.size)
  unfolding put evict
  put-overcounts k v old c held counted room =
      let fits : ltb c.max_size (c.size + encoded_size v) ≡ false = ground (arith, room) in
      (
        record c { cache = lru.insert k v c.cache; size = c.size + encoded_size v },
        rw (fits, put, evict) refl,
        rw (lru.entries-insert k v c.cache) (
            omega (
              arith,
              counted,
              total-erase_found encoded_size k (lru.entries c.cache) held,
              total-append encoded_size (erase k (lru.entries c.cache)) ((k, v) ∷ []),
            )),
      )
