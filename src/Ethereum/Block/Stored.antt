-- ===== src/Ethereum/Block/Stored.antt =====
-- What `store_block` of frame/ethereum/src/lib.rs makes of a list of pending transactions.
use frontier.Base.{
  ℕ, ◌≡◌, refl, ap, ◌∙◌, arith, Option, some, List, [], ◌++◌, length, get_elem?, map,
}
use frontier.Ethereum.Block.{
  Outside, Entry, Block, Collected, PostLogContent, Storage, Surroundings, collect, new_block,
  nothing_collected, post_log, set_hash, store, store_block,
}
use frontier.Ethereum.Block.Pending.{Holds, collect-Drained, push_all-entries, with_entries}

module _ (o : Outside) where
  open o use {bloom, pending}

  -- The block of a list of entries.
  abbrev pub block_of : Surroundings → ℕ → Storage o → List (Entry bloom) → Block bloom
  block_of e number s vs = new_block o e number s (with_entries o vs (nothing_collected o))

  pub record Builds (content : Option PostLogContent) (e : Surroundings) (number : ℕ)
      (s : Storage o) (vs : List (Entry bloom)) (s' : Storage o) : Type 0 where
    pub drained : Holds pending [] s'.queue
    pub block : s'.current_block ≡ some (block_of e number s vs)
    pub receipts : s'.current_receipts ≡ some (map (λ v. v.2) vs)
    pub statuses : s'.current_transaction_statuses ≡ some (map (λ v. v.1) vs)
    pub hash :
        s'.block_hash ≡ set_hash o number (o.header_hash (block_of e number s vs)) s.block_hash
    pub digest : s'.digest ≡ s.digest ++ post_log o content (block_of e number s vs)

  store-Builds :
      (content : Option PostLogContent) (e : Surroundings) (number : ℕ) (s : Storage o)
      (vs : List (Entry bloom)) (r : pending.M × Collected o)
      → Holds pending [] r.0
      → r.1 ≡ with_entries o vs (nothing_collected o)
      → Builds content e number s vs (store o content e number s r)
  unfolding store
  store-Builds content e number s vs (m, c) h same = rw same (record {
    drained = h;
    block = refl;
    receipts = refl;
    statuses = refl;
    hash = refl;
    digest = refl;
  })

  -- When `Pending` holds a list of entries at the indices from 0 on, `store_block` empties it and
  -- makes a block of the entries' transactions in order, whose gas is that of the last receipt and
  -- whose bloom is of all logs; it keeps the receipts and the statuses in order, the block's hash
  -- under its number, and the chosen log in the digest.
  pub store_block-Builds :
      (content : Option PostLogContent) (e : Surroundings) (number : ℕ) (s : Storage o)
      (vs : List (Entry bloom))
      → Holds pending vs s.queue
      → Builds content e number s vs (store_block o content e number s)
  unfolding store_block
  store_block-Builds content e number s vs h =
      let d =
        collect-Drained o 0 vs s.queue (nothing_collected o)
          (λ j i e'. h.found j ∙ ap (get_elem? vs) (omega (arith, e'))) in
      rw (h.counted, store_block)
        (store-Builds content e number s vs (collect o (length vs) 0 s.queue (nothing_collected o))
          (record {
            counted = omega (arith, d.remaining, h.counted);
            found = λ j. d.gone j (omega arith);
          })
          (d.collected ∙ push_all-entries o vs (nothing_collected o)))
