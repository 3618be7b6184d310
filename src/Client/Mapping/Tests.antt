-- ===== src/Client/Mapping/Tests.antt =====
-- Runs of the mapping database, on a journal of its changes.
use frontier.Base.{◌≡◌, refl, List, [], ◌∷◌}
use frontier.Evm.Weight.{ok}
use frontier.Client.Mapping.{
  Change, MappingCommitment, block_hash, transaction_metadata, write_hashes, entry,
}
use frontier.Client.Mapping.Laws.{Maps, write_hashes-Maps}
use frontier.Client.Mapping.Transactions.{write_hashes-transaction}
use frontier.Client.Mapping.Journal.{journal}

abbrev commitment : MappingCommitment
commitment = record {
  block_hash = 50;
  ethereum_block_hash = 60;
  ethereum_transaction_hashes = 71 ∷ 72 ∷ [];
}

abbrev after_one : List Change
after_one = (write_hashes journal commitment []).0

-- A second write of a commitment repeats the metadata of its transactions.
written_twice :
    transaction_metadata journal 72 (write_hashes journal commitment after_one).0
    ≡ ok (entry journal commitment 1 ∷ entry journal commitment 1 ∷ [])
unfolding write_hashes transaction_metadata block_hash
written_twice = refl

write_hashes-Maps_example : Maps journal commitment [] after_one
unfolding write_hashes transaction_metadata block_hash
write_hashes-Maps_example = write_hashes-Maps journal commitment [] refl

write_hashes-transaction_example :
    transaction_metadata journal 72 after_one
    ≡ ok (record { substrate_block_hash = 50; ethereum_block_hash = 60; ethereum_index = 1 } ∷ [])
unfolding write_hashes transaction_metadata block_hash
write_hashes-transaction_example =
    write_hashes-transaction journal commitment (71 ∷ []) [] 72 [] [] refl refl refl refl
