-- ===== src/Client/Sync/Progress.antt =====
-- `sync_one_block` and `sync_blocks` of client/mapping-sync/src/kv/mod.rs.
use frontier.Base.{
  ℕ, zero, suc, ◌≤◌, ◌≡◌, refl, ◌∙◌, Bool, true, false, Option, none, some, List, [], ◌∷◌, arith,
  leb, ◌==◌, Bool-cases, contains, nat_eq, ◌⊎◌, inl, inr, subst, sym,
}
use frontier.Evm.Weight.{Result, ok, err}
use frontier.Client.Consensus.{Decoder}
use frontier.Client.Mapping.{
  Database, Error, is_synced, write_current_syncing_tips, current_syncing_tips,
}
use frontier.Client.Sync.{
  Header, Chain, State, SyncStrategy, Outcome, sync_block, sync_genesis_block, checked_header,
  unless_synced, fetch_header, or_else, pop_tips, after_write, finish, is_ahead, operate,
  operate_on, start_tips, from_tips, sync_one_block, sync_from_round, sync_blocks, continue_with,
}
use frontier.Client.Sync.Laws.{
  Marks, Keeps, write_tips-Keeps, sync_block-Marks, sync_genesis_block-Marks,
}

module _ (db : Database) {d : Decoder} (chain : Chain d) where
  module _ (sync_from : ℕ) where
    -- A header to operate on: a tip was read as not synced, and the chain has this header at it, which
    -- is not below the first block to sync.
    abbrev IsChecked :
        Result Error (Option (Header d))
        → Result Error Bool
        → Result Error (Option (Header d))
        → Type 0
    IsChecked r b (ok (some h)) = (b ≡ ok false) × (r ≡ ok (some h)) × (sync_from ≤ h.number)
    IsChecked r b (ok none) = Unit
    IsChecked r b (err e) = Unit

    checked_header-IsChecked :
        (r : Result Error (Option (Header d)))
        → IsChecked r (ok false) (checked_header db chain sync_from r)
    checked_header-IsChecked (ok (some h)) = elim (Bool-cases (leb sync_from h.number)) [
      | inl above ↦ rw above (refl, refl, ground (arith, above))
      | inr below ↦ rw below tt
    ]
    checked_header-IsChecked (ok none) = tt
    checked_header-IsChecked (err e) = tt

    unless_synced-IsChecked :
        (b : Result Error Bool) (r : Result Error (Option (Header d)))
        → IsChecked r b (unless_synced db chain b (checked_header db chain sync_from r))
    unless_synced-IsChecked (ok true) r = tt
    unless_synced-IsChecked (ok false) r = checked_header-IsChecked r
    unless_synced-IsChecked (err e) r = tt

    -- The header that the chain has at one of the tips, which is not synced in a store.
    pub record IsFetched (s : db.Db) (tips : List ℕ) (header : Header d) : Type 0 where
      pub tip : ℕ
      pub among : contains tips tip ≡ true
      pub unsynced : is_synced db tip s ≡ ok false
      pub found : chain.header tip ≡ ok (some header)
      pub recent : sync_from ≤ header.number

    abbrev IsPopped : db.Db → List ℕ → Result Error (Option (Header d) × List ℕ) → Type 0
    IsPopped s tips (ok (some h, rest)) = IsFetched s tips h
    IsPopped s tips (ok (none, rest)) = Unit
    IsPopped s tips (err e) = Unit

    IsPopped-cons :
        (s : db.Db) (tip : ℕ) (tips : List ℕ) (r : Result Error (Option (Header d) × List ℕ))
        → IsPopped s tips r
        → IsPopped s (tip ∷ tips) r
    IsPopped-cons s tip tips (ok (some h, rest)) f = record {
      tip = f.tip;
      among = ground (arith, f.among);
      unsynced = f.unsynced;
      found = f.found;
      recent = f.recent;
    }
    IsPopped-cons s tip tips (ok (none, rest)) f = tt
    IsPopped-cons s tip tips (err e) f = tt

    or_else-IsPopped :
        (s : db.Db) (tip : ℕ) (tips : List ℕ) (r : Result Error (Option (Header d)))
        (later : Result Error (Option (Header d) × List ℕ))
        → IsChecked (chain.header tip) (is_synced db tip s) r
        → IsPopped s (tip ∷ tips) later
        → IsPopped s (tip ∷ tips) (or_else db chain r tips later)
    or_else-IsPopped s tip tips (ok (some h)) later (unsynced, found, recent) b = record {
      tip = tip;
      among = ground arith;
      unsynced = unsynced;
      found = found;
      recent = recent;
    }
    or_else-IsPopped s tip tips (ok none) later a b = b
    or_else-IsPopped s tip tips (err e) later a b = tt

    pop_tips-IsPopped :
        (tips : List ℕ) (s : db.Db) → IsPopped s tips (pop_tips db chain sync_from tips s)
    unfolding pop_tips fetch_header
    pop_tips-IsPopped [] s = tt
    pop_tips-IsPopped (tip ∷ tips) s =
        or_else-IsPopped s tip tips (fetch_header db chain sync_from tip s) _
          (unless_synced-IsChecked (is_synced db tip s) (chain.header tip))
          (IsPopped-cons s tip tips _ (pop_tips-IsPopped tips s))

    -- The tips that a round starts from: those of the database, or the leaves where it has none.
    abbrev pub StartsFrom : db.Db → List ℕ → Type 0
    StartsFrom s tips =
        (current_syncing_tips db s ≡ ok tips)
        ⊎ ((current_syncing_tips db s ≡ ok []) × (chain.leaves ≡ ok tips))

    -- What a round that reports success did to a store.
    pub record IsSynced (before after : db.Db) : Type 0 where
      pub tips : List ℕ
      pub header : Header d
      pub starts : StartsFrom before tips
      pub fetched : IsFetched before tips header
      pub marked : is_synced db header.hash after ≡ ok true

    abbrev Achieves : db.Db → Outcome db chain → Type 0
    Achieves before (st, ok true) = IsSynced before st.store
    Achieves before (st, ok false) = Unit
    Achieves before (st, err e) = Unit

    -- A write that marks a block, then one of the tips.
    two_writes-Achieves :
        (start : List ℕ) (h : Header d) (tips : List ℕ) (st : State db chain)
        (o : db.Db × Result Error (Unit {0}))
        → StartsFrom st.store start
        → IsFetched st.store start h
        → Marks db h.hash st.store o
        → Achieves st.store (
            after_write db chain o st (λ st'.
              after_write db chain
                (write_current_syncing_tips db tips st'.store)
                st'
                (finish db chain h)))
    two_writes-Achieves start h tips st (s', err e) b f m = tt
    two_writes-Achieves start h tips st (s', ok _) b f m =
        go (write_current_syncing_tips db tips s') (write_tips-Keeps db tips s')
      where
        go :
            (o : db.Db × Result Error (Unit {0}))
            → Keeps db s' o
            → Achieves st.store
                (after_write db chain o (record st { store = s' }) (finish db chain h))
        go (s'', err e) k = tt
        go (s'', ok _) k = record {
          tips = start;
          header = h;
          starts = b;
          fetched = f;
          marked = k h.hash ∙ m.0;
        }

    operate-Achieves :
        (strategy : SyncStrategy) (start : List ℕ) (h : Header d) (tips : List ℕ)
        (st : State db chain)
        → StartsFrom st.store start
        → IsFetched st.store start h
        → Achieves st.store (operate db chain strategy h tips st)
    unfolding operate
    operate-Achieves strategy start h tips st b f = elim (Bool-cases (h.number == 0)) [
      | inl genesis ↦ rw genesis (
          two_writes-Achieves start h tips st (sync_genesis_block db chain h st.store) b f
            (sync_genesis_block-Marks db chain h st.store))
      | inr later ↦ rw later (elim (Bool-cases (is_ahead db chain strategy h)) [
        | inl ahead ↦ rw ahead tt
        | inr behind ↦ rw behind (
            two_writes-Achieves start h (h.parent_hash ∷ tips) st (sync_block db chain h st.store) b
              f (sync_block-Marks db chain h st.store))
      ])
    ]

    no_header-Achieves :
        (st : State db chain) (o : db.Db × Result Error (Unit {0}))
        → Achieves st.store (after_write db chain o st (λ st'. (st', ok false)))
    no_header-Achieves st (s, ok _) = tt
    no_header-Achieves st (s, err e) = tt

    operate_on-Achieves :
        (strategy : SyncStrategy) (start : List ℕ) (r : Result Error (Option (Header d) × List ℕ))
        (st : State db chain)
        → StartsFrom st.store start
        → IsPopped st.store start r
        → Achieves st.store (operate_on db chain strategy r st)
    unfolding operate
    operate_on-Achieves strategy start (err e) st b f = tt
    operate_on-Achieves strategy start (ok (some header, tips)) st b f =
        operate-Achieves strategy start header tips st b f
    operate_on-Achieves strategy start (ok (none, tips)) st b f =
        no_header-Achieves st (write_current_syncing_tips db tips st.store)

    abbrev Started : db.Db → Result Error (List ℕ) → Type 0
    Started s (ok tips) = StartsFrom s tips
    Started s (err e) = Unit

    leaves-Started :
        (s : db.Db) (leaves : Result Error (List ℕ))
        → current_syncing_tips db s ≡ ok []
        → chain.leaves ≡ leaves
        → Started s leaves
    leaves-Started s (ok tips) none_before e = inr (none_before, e)
    leaves-Started s (err e') none_before e = tt

    start_tips-Started :
        (s : db.Db) (r : Result Error (List ℕ))
        → current_syncing_tips db s ≡ r
        → Started s (start_tips db chain r)
    start_tips-Started s (err e') e = tt
    start_tips-Started s (ok []) e = leaves-Started s chain.leaves e refl
    start_tips-Started s (ok (tip ∷ tips)) e = inl e

    from_tips-Achieves :
        (strategy : SyncStrategy) (tips : Result Error (List ℕ)) (st : State db chain)
        → Started st.store tips
        → Achieves st.store (from_tips db chain strategy sync_from tips st)
    unfolding operate_on pop_tips
    from_tips-Achieves strategy (err e) st b = tt
    from_tips-Achieves strategy (ok []) st b = tt
    from_tips-Achieves strategy (ok (tip ∷ tips)) st b =
        operate_on-Achieves strategy (tip ∷ tips)
          (pop_tips db chain sync_from (tip ∷ tips) st.store) st b
          (pop_tips-IsPopped (tip ∷ tips) st.store)

    -- A round of the worker that reports success started from the tips of the database, or from the
    -- chain's leaves where it had none; one of these tips was not synced, the chain has at it a
    -- header whose number is at least the first one to sync, and the block of this header is marked
    -- as synced afterwards.
    pub sync_one_block-Achieves :
        (strategy : SyncStrategy) (st st' : State db chain)
        → sync_one_block db chain strategy sync_from st ≡ (st', ok true)
        → IsSynced st.store st'.store
    unfolding sync_one_block
    sync_one_block-Achieves strategy st st' e = subst (Achieves st.store) e (
        from_tips-Achieves strategy (start_tips db chain (current_syncing_tips db st.store)) st
          (start_tips-Started st.store (current_syncing_tips db st.store) refl))

    rounds_done :
        (n : ℕ) (strategy : SyncStrategy) (st : State db chain)
        → sync_from_round db chain n true strategy sync_from st ≡ (st, ok true)
    unfolding sync_from_round
    rounds_done zero strategy st = refl
    rounds_done (suc n) strategy st = rounds_done n strategy st

    -- `sync_blocks` stops at the first round that syncs a block: if the first round succeeds, then
    -- for every limit from 1 on the outcome is that of this one round.
    pub sync_blocks_once :
        (n : ℕ) (strategy : SyncStrategy) (st st' : State db chain)
        → sync_one_block db chain strategy sync_from st ≡ (st', ok true)
        → sync_blocks db chain (suc n) strategy sync_from st ≡ (st', ok true)
    unfolding sync_blocks
    sync_blocks_once n strategy st st' e =
        subst
          (λ o.
            continue_with db chain o
              (λ synced s. sync_from_round db chain n synced strategy sync_from s)
            ≡ (st', ok true))
          (sym e) (rounds_done n strategy st')
