-- ===== src/Ethereum/Hooks/Digest.antt =====
-- The log that `on_finalize` of frame/ethereum/src/lib.rs leaves in a digest, as the client finds it
-- (primitives/consensus/src/lib.rs).
use frontier.Base.{
  ◌≡◌, refl, ap, ◌∙◌, ◌⊎◌, inl, inr, arith, ℕ, Option, none, some, List, [], ◌∷◌, ◌++◌, min,
  max_u128,
}
use mathlib.Core.List.{append_assoc}
use frontier.Evm.Weight.{ok}
use frontier.Client.Consensus.{
  Decoder, Log, PreLog, PostLog, find_kind, find_log, find_pre_log, map_log, ok_or_not_found,
  from_block,
}
use frontier.Client.Consensus.Laws.{all_logs, find_log-only, only, to_list}
use frontier.Ethereum.Block.{
  Block, PostLogContent, Storage, collect, hashed, new_block, nothing_collected, post_log, store,
  store_block,
}
use frontier.Ethereum.Hooks.Chain.{prune-current_block}
use frontier.Ethereum.Hooks.{Config, content_unless, found_pre_log, on_finalize, prune}

split-nil :
    (pre : Option PreLog) (post : Option PostLog) (rest : List Log)
    → to_list (map_log Log.pre pre) ++ (to_list (map_log Log.post post) ++ rest) ≡ []
    → (pre ≡ none) × (rest ≡ [])
split-nil none none rest h = (refl, h)
split-nil none (some q) rest h = absurd (ground arith)
split-nil (some p) post rest h = absurd (ground arith)

split-one :
    (pre : Option PreLog) (post : Option PostLog) (rest : List Log) {l : PreLog}
    → to_list (map_log Log.pre pre) ++ (to_list (map_log Log.post post) ++ rest) ≡ Log.pre l ∷ []
    → ((pre ≡ some l) × (rest ≡ [])) ⊎ ((pre ≡ none) × (rest ≡ Log.pre l ∷ []))
split-one none none rest h = inr (refl, h)
split-one none (some q) rest h = absurd (ground arith)
split-one (some p) none rest h = inl (ground arith, ground arith)
split-one (some p) (some q) rest h = absurd (ground arith)

module _ (d : Decoder) where
  open d use {Item, try_pre, try_post}

  no_pre_log :
      (found : Option PreLog) (items : List Item)
      → all_logs d items ≡ []
      → find_kind try_pre found items ≡ ok_or_not_found found
  unfolding find_kind
  no_pre_log found [] h = refl
  no_pre_log found (item ∷ items) h =
      let (none', rest) = split-nil (try_pre item) (try_post item) (all_logs d items) h in
      rw none' (no_pre_log found items rest)

  one_pre_log :
      (items : List Item) {l : PreLog}
      → all_logs d items ≡ Log.pre l ∷ []
      → find_kind try_pre none items ≡ ok l
  unfolding find_kind
  one_pre_log [] h = absurd (ground arith)
  one_pre_log (item ∷ items) {l} h =
      elim (split-one (try_pre item) (try_post item) (all_logs d items) h) [
        | inl (here, rest) ↦ rw here (no_pre_log (some l) items rest)
        | inr (none', rest) ↦ rw none' (one_pre_log items rest)
      ]

  all_logs-append :
      (items items' : List Item)
      → all_logs d (items ++ items') ≡ all_logs d items ++ all_logs d items'
  all_logs-append [] items' = refl
  all_logs-append (item ∷ items) items' = simp (all_logs-append items items', append_assoc) refl

module _ {W : Type 0} (c : Config W) where
  open c use {outside}

  prune-digest : (n : ℕ) (s : Storage outside) → (prune c n s).digest ≡ s.digest
  unfolding prune
  prune-digest n s = ground arith

  -- The log of a block.
  abbrev pub log_of : Block outside.bloom → PostLogContent → PostLog
  log_of b PostLogContent.block_and_txn_hashes = PostLog.hashes (from_block (hashed outside b))
  log_of b PostLogContent.only_block_hash = PostLog.block_hash (outside.header_hash b)

  -- What a digest announces: the log it had, or the one of the new block.
  abbrev pub announced : Option PreLog → Block outside.bloom → Log
  announced (some l) b = Log.pre l
  announced none b = Log.post (log_of b c.post_log_content)

  find_pre_log-option :
      (pre : Option PreLog) (s : Storage outside)
      → all_logs outside.decoder s.digest ≡ to_list (map_log Log.pre pre)
      → found_pre_log c s ≡ ok_or_not_found pre
  unfolding find_pre_log
  find_pre_log-option none s h = no_pre_log outside.decoder none s.digest h
  find_pre_log-option (some l) s h = one_pre_log outside.decoder s.digest h

  module _
      (codec : (l : PostLog)
        → (outside.decoder.try_pre (outside.consensus_item l) ≡ none)
          × (outside.decoder.try_post (outside.consensus_item l) ≡ some l)) where
    all_logs-item :
        (l : PostLog) → all_logs outside.decoder (outside.consensus_item l ∷ []) ≡ Log.post l ∷ []
    all_logs-item l = let (not_pre, post) = codec l in rw (not_pre, post) refl

    all_logs-post_log :
        (content : PostLogContent) (b : Block outside.bloom)
        → all_logs outside.decoder (post_log outside (some content) b)
          ≡ Log.post (log_of b content) ∷ []
    unfolding post_log from_block
    all_logs-post_log PostLogContent.block_and_txn_hashes b = all_logs-item _
    all_logs-post_log PostLogContent.only_block_hash b = all_logs-item _

    only-announced :
        (pre : Option PreLog) (b : Block outside.bloom)
        → only (
            to_list (map_log Log.pre pre)
            ++ all_logs outside.decoder
                (post_log outside (content_unless c (ok_or_not_found pre)) b))
          ≡ ok (announced pre b)
    unfolding post_log
    only-announced (some l) b = refl
    only-announced none b = rw (all_logs-post_log c.post_log_content b) refl

    -- For a digest that has no log of Frontier, or only the log of a block to import, and a codec
    -- that reads consensus items back as they were made: after `on_finalize` the client finds
    -- exactly one log, the one for import where there was one, and otherwise the configured log of
    -- the block that was just stored.
    pub on_finalize-find_log :
        (pre : Option PreLog) (n block_number : ℕ) (w : W) (s : Storage outside)
        → all_logs outside.decoder s.digest ≡ to_list (map_log Log.pre pre)
        → let s' = (on_finalize c n block_number (w, s)).1 in
          (b : Block outside.bloom) × (s'.current_block ≡ some b)
          × (find_log outside.decoder s'.digest ≡ ok (announced pre b))
    unfolding on_finalize store_block store
    on_finalize-find_log pre n block_number w s h =
        let content = content_unless c (ok_or_not_found pre) in
        let s1 = store_block outside content (c.surroundings w) (min block_number max_u128) s in
        let r =
          collect outside (outside.pending.count s.queue) 0 s.queue (nothing_collected outside) in
        let b = new_block outside (c.surroundings w) (min block_number max_u128) s r.1 in
        let added = all_logs outside.decoder (post_log outside content b) in
        rw (find_pre_log-option pre s h) (
          b,
          prune-current_block c n s1,
          ap (find_log outside.decoder) (prune-digest n s1)
              ∙ find_log-only outside.decoder s1.digest
              ∙ ap only (
                  all_logs-append outside.decoder s.digest (post_log outside content b)
                  ∙ ap (λ ls. ls ++ added) h)
              ∙ only-announced pre b,
        )
