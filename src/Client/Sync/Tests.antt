-- ===== src/Client/Sync/Tests.antt =====
-- Runs of the worker on a chain of three blocks.
use frontier.Base.{
  ℕ, ◌+◌, ◌≡◌, refl, Bool, true, false, Option, none, some, List, [], ◌∷◌, ◌==◌, if◌then◌else◌,
}
use frontier.Evm.Weight.{ok}
use frontier.Client.Consensus.{find_log}
use frontier.Client.Consensus.Tests.{decoder, Item}
use frontier.Client.Mapping.{
  is_synced, write_hashes, current_syncing_tips, write_current_syncing_tips, block_hash,
  transaction_metadata,
}
use frontier.Client.Mapping.Journal.{journal}
use frontier.Client.Sync.{
  Header, Chain, State, SyncStrategy, sync_block, sync_one_block, sync_blocks, fetch_header, notify,
}
use frontier.Client.Sync.Laws.{Marks, sync_block-Marks}
use frontier.Client.Sync.Progress.{IsSynced, sync_one_block-Achieves, sync_blocks_once}

-- Block `n` has the hash `100 + n`, and a log of the Ethereum block `200 + n` from 1 on.
abbrev header : ℕ → ℕ → List Item → Header decoder
header n parent digest = record {
  hash = 100 + n;
  number = n;
  parent_hash = parent;
  digest = digest;
}

abbrev header_at : ℕ → Option (Header decoder)
header_at h =
    if h == 102
    then some (header 2 101 (Item.post_hash 202 ∷ []))
    else if h == 101
    then some (header 1 100 (Item.post_hash 201 ∷ []))
    else if h == 100
    then some (header 0 0 [])
    else none

abbrev chain : Chain decoder
chain = record {
  leaves = ok (102 ∷ []);
  header = λ h. ok (header_at h);
  best_number = 2;
  best_hash = 102;
  api_version = λ h. ok (some 2);
  current_block = λ h. ok (some (record { header_hash = 200; transactions = [] }));
  current_block_before_version_2 = λ h. ok none;
  stored_block = λ h. some (record { header_hash = 100 + h; transactions = 7 ∷ [] });
  is_major_syncing = false;
  Sink = Bool;
  unbounded_send = λ sink hash best. sink;
}

abbrev start : State journal chain
start = record { store = []; sinks = true ∷ false ∷ [] }

abbrev first : State journal chain
first = (sync_one_block journal chain SyncStrategy.normal 0 start).0

-- The first round syncs the leaf, tells the subscriber that is still there, and puts the parent
-- among the tips.
first_round :
    (is_synced journal 102 first.store ≡ ok true)
    × (current_syncing_tips journal first.store ≡ ok (101 ∷ []))
    × (first.sinks ≡ true ∷ [])
unfolding sync_one_block sync_block find_log write_hashes write_current_syncing_tips
    current_syncing_tips is_synced notify transaction_metadata block_hash fetch_header
first_round = (refl, refl, refl)

-- With a limit of 3 blocks, the parent is still not synced.
limit_of_three :
    is_synced journal 101 (sync_blocks journal chain 3 SyncStrategy.normal 0 start).0.store
    ≡ ok false
unfolding sync_blocks sync_one_block sync_block find_log write_hashes write_current_syncing_tips
    current_syncing_tips is_synced notify transaction_metadata block_hash fetch_header
limit_of_three = refl

sync_block-Marks_example :
    Marks journal 102 [] (sync_block journal chain (header 2 101 (Item.post_hash 202 ∷ [])) [])
sync_block-Marks_example =
    sync_block-Marks journal chain (header 2 101 (Item.post_hash 202 ∷ [])) []

sync_one_block-Achieves_example : IsSynced journal chain 0 [] first.store
unfolding sync_one_block sync_block find_log write_hashes write_current_syncing_tips
    current_syncing_tips is_synced notify transaction_metadata block_hash fetch_header
sync_one_block-Achieves_example =
    sync_one_block-Achieves journal chain 0 SyncStrategy.normal start first refl

sync_blocks_once_example :
    sync_blocks journal chain 3 SyncStrategy.normal 0 start ≡ (first, ok true)
unfolding sync_one_block sync_block find_log write_hashes write_current_syncing_tips
    current_syncing_tips is_synced notify transaction_metadata block_hash fetch_header
sync_blocks_once_example = sync_blocks_once journal chain 0 2 SyncStrategy.normal start first refl
