-- ===== src/Rpc/Lru/Tests.antt =====
-- Runs of the cache, on a map that is its list of entries.
use frontier.Base.{ℕ, ◌+◌, ◌≤◌, ◌≡◌, refl, Option, none, some, List, [], ◌∷◌, ◌++◌, arith}
use frontier.Rpc.Lru.{LruMap, Cache, erase, lookup, put}
use frontier.Rpc.Lru.Laws.{total, put-overcounts}

abbrev touch : {V : Type 0} → ℕ → List (ℕ × V) → Option V → List (ℕ × V)
touch k m none = m
touch k m (some v) = erase k m ++ (k, v) ∷ []

abbrev take_oldest : {V : Type 0} → List (ℕ × V) → Option ((ℕ × V) × List (ℕ × V))
take_oldest [] = none
take_oldest (e ∷ es) = some (e, es)

-- The values are their own sizes.
abbrev by_list : LruMap ℕ
by_list = record {
  Map = List (ℕ × ℕ);
  empty = [];
  entries = λ m. m;
  get = λ k m. (lookup k m, touch k m (lookup k m));
  pop_oldest = take_oldest;
  insert = λ k v m. erase k m ++ (k, v) ∷ [];
  entries-empty = refl;
  get-lookup = λ k m. refl;
  get-found = λ k m {v} e. rw e refl;
  get-missing = λ k m e. rw e refl;
  pop-empty = λ m e. rw e refl;
  pop-oldest = λ m e es h. (es, rw h refl, refl);
  entries-insert = λ k v m. refl;
}

abbrev cache : Cache by_list (λ v. v)
cache = record { cache = (1, 40) ∷ (2, 50) ∷ []; max_size = 100; size = 90 }

-- The oldest entry makes room for the new one.
evicted_oldest :
    put by_list (λ v. v) 3 30 cache
    ≡ some (record { cache = (2, 50) ∷ (3, 30) ∷ []; max_size = 100; size = 80 })
unfolding put
evicted_oldest = refl

abbrev pair : Cache by_list (λ v. v)
pair = record { cache = (1, 40) ∷ (2, 20) ∷ []; max_size = 100; size = 60 }

put-overcounts_example :
    (c : Cache by_list (λ v. v)) × (put by_list (λ v. v) 1 10 pair ≡ some c)
    × (total (λ v. v) c.cache + 40 ≤ c.size)
put-overcounts_example =
    put-overcounts by_list (λ v. v) 1 10 40 pair refl (omega arith) (omega arith)
