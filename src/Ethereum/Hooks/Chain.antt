-- ===== src/Ethereum/Hooks/Chain.antt =====
-- The chain of blocks that `on_finalize` of frame/ethereum/src/lib.rs makes, and the hashes that it
-- remembers.
use frontier.Base.{
  ℕ, suc, ◌+◌, ◌-◌, ◌≤◌, ◌<◌, ◌≡◌, ◌≢◌, ◌⊎◌, inl, inr, refl, subst, ap, ◌∙◌, arith, Option, some,
  List, [], ◌∷◌, length, min, max_u32, max_u128,
}
use frontier.Ethereum.Block.{Block, Storage, new_block, store, store_block}
use frontier.Ethereum.Hooks.{Config, content_unless, found_pre_log, on_finalize, prune}

module _ {W : Type 0} (c : Config W) where
  open c use {outside}

  -- What a Substrate block brings: the state of the EVM, and its pending transactions and digest.
  pub record Input : Type 0 where
    pub world : W
    pub queue : outside.pending.M
    pub digest : List outside.decoder.Item

  -- A block, up to its end.
  abbrev pub finalize_block : ℕ → Input → Storage outside → Storage outside
  finalize_block n i s =
      (on_finalize c n n (i.world, record s { queue = i.queue; digest = i.digest })).1

  abbrev pub finalize_all : ℕ → List Input → Storage outside → Storage outside
  finalize_all n [] s = s
  finalize_all n (i ∷ is) s = finalize_all (suc n) is (finalize_block n i s)

  -- The current block after each of them.
  abbrev pub blocks : ℕ → List Input → Storage outside → List (Option (Block outside.bloom))
  blocks n [] s = []
  blocks n (i ∷ is) s =
      (finalize_block n i s).current_block ∷ blocks (suc n) is (finalize_block n i s)

  -- A remembered block has its hash under its number.
  abbrev pub Remembered : (ℕ → ℕ) → ℕ → ℕ → ℕ → Type 0
  Remembered hashes last n hash = last ≤ n + c.block_hash_count → hashes n ≡ hash

  -- Blocks with the numbers from `n` on, each with the hash of the one before as its parent, of
  -- which the last ones are remembered.
  abbrev pub Linked : (ℕ → ℕ) → ℕ → ℕ → ℕ → List (Option (Block outside.bloom)) → Type 0
  Linked hashes last n parent [] = Unit
  Linked hashes last n parent (block ∷ blocks) =
      (b : Block outside.bloom) × (block ≡ some b)
      × (b.header.number ≡ n)
      × (b.header.parent_hash ≡ parent)
      × Remembered hashes last n (outside.header_hash b)
      × Linked hashes last (suc n) (outside.header_hash b) blocks

  -- The window that `on_finalize` keeps.
  abbrev pub Kept : ℕ → ℕ → Type 0
  Kept n k = (k ≡ 0) ⊎ (n ≤ k + c.block_hash_count)

  pub prune-current_block :
      (n : ℕ) (s : Storage outside) → (prune c n s).current_block ≡ s.current_block
  unfolding prune
  prune-current_block n s = ground arith

  prune_keeps :
      (n k : ℕ) (s : Storage outside)
      → n ≤ max_u32
      → Kept n k
      → (prune c n s).block_hash k ≡ s.block_hash k
  unfolding prune
  prune_keeps n k s le (inl e) = ground arith
  prune_keeps n k s le (inr h) = ground arith

  -- One block: its number, its parent, and the hashes after it.
  record Extends (n : ℕ) (s s' : Storage outside) : Type 0 where
    block : Block outside.bloom
    current : s'.current_block ≡ some block
    number : block.header.number ≡ n
    parent : block.header.parent_hash ≡ s.block_hash (n - 1)
    hash : s'.block_hash n ≡ outside.header_hash block
    kept : (k : ℕ) → k ≢ n → Kept n k → s'.block_hash k ≡ s.block_hash k

  finalize_block-Extends :
      (n : ℕ) (i : Input) (s : Storage outside)
      → 0 < n
      → n ≤ max_u32
      → Extends n s (finalize_block n i s)
  unfolding on_finalize store_block store new_block
  finalize_block-Extends n i s pos le =
      let before : Storage outside = record s { queue = i.queue; digest = i.digest } in
      let content = content_unless c (found_pre_log c before) in
      let s1 = store_block outside content (c.surroundings i.world) (min n max_u128) before in
      let same : min n max_u128 ≡ n = omega (arith, le) in
      record {
        block = _;
        current = prune-current_block n s1;
        number = same;
        parent = ground (arith, pos, same);
        hash = prune_keeps n n s1 le (inr (omega arith)) ∙ ground (arith, same);
        kept = λ k other window. prune_keeps n k s1 le window ∙ ground (arith, same, other);
      }

  finalize_all_keeps :
      (n : ℕ) (is : List Input) (s : Storage outside) (k : ℕ)
      → 0 < n
      → n + length is ≤ suc max_u32
      → k < n
      → n + length is ≤ suc (k + c.block_hash_count)
      → (finalize_all n is s).block_hash k ≡ s.block_hash k
  finalize_all_keeps n [] s k pos le lt window = refl
  finalize_all_keeps n (i ∷ is) s k pos le lt window =
      finalize_all_keeps (suc n) is (finalize_block n i s) k (omega arith) (omega (arith, le))
        (omega (arith, lt)) (omega (arith, window))
      ∙ (finalize_block-Extends n i s pos (omega (arith, le))).kept k
          (λ e. absurd (omega (arith, e, lt))) (inr (omega (arith, window)))

  relink :
      (hashes : ℕ → ℕ) (n : ℕ) (bs : List (Option (Block outside.bloom))) {last last' p p' : ℕ}
      → last ≡ last'
      → p ≡ p'
      → Linked hashes last n p bs
      → Linked hashes last' n p' bs
  relink hashes n bs {last} {last'} {p} {p'} e e' l =
      subst (λ x. Linked hashes x n p' bs) e (subst (λ x. Linked hashes last n x bs) e' l)

  -- Substrate blocks, one after the other from a number that is not zero, up to the largest u32:
  -- whatever each brings, the Ethereum blocks stored are numbered in this order, each has the hash
  -- of the one before as its parent hash, and the first the one stored under the number before;
  -- after the last, each block that is not older than the configured count still has its hash under
  -- its number.
  pub finalize_all-Linked :
      (n : ℕ) (is : List Input) (s : Storage outside)
      → 0 < n
      → n + length is ≤ suc max_u32
      → Linked
          (finalize_all n is s).block_hash
          (n + length is - 1)
          n
          (s.block_hash (n - 1))
          (blocks n is s)
  finalize_all-Linked n [] s pos le = tt
  finalize_all-Linked n (i ∷ is) s pos le =
      let s' = finalize_block n i s in
      let one = finalize_block-Extends n i s pos (omega (arith, le)) in
      (
        one.block,
        one.current,
        one.number,
        one.parent,
        λ recent.
            finalize_all_keeps (suc n) is s' n (omega arith) (omega (arith, le)) (omega arith)
              (omega (arith, recent))
            ∙ one.hash,
        relink (finalize_all (suc n) is s').block_hash (suc n) (blocks (suc n) is s') (omega arith)
            (ap s'.block_hash (omega arith) ∙ one.hash)
            (finalize_all-Linked (suc n) is s' (omega arith) (omega (arith, le))),
      )
