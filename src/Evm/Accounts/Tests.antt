-- ===== src/Evm/Accounts/Tests.antt =====
-- Runs of the accounts and of the storage cache.
use frontier.Base.{ℕ, ◌+◌, ◌≡◌, refl, none, List, [], ◌∷◌, arith}
use frontier.Evm.Weight.{ok}
use frontier.Evm.Accounts.{
  Provider, Accounts, Slots, empty_code_hash, account_code_metadata, original_storage, storage,
  set_storage,
}
use frontier.Evm.Accounts.Laws.{
  Answers, IsCoherent, Op, run_ops, set_storages, last_write, account_code_metadata-Answers,
  run_ops-IsCoherent, set_storages-original,
}

abbrev hash_from : ℕ → List ℕ → ℕ
hash_from seed [] = seed
hash_from seed (b ∷ bs) = hash_from (seed + b) bs

-- A provider that counts its accounts, with a hash that gives `EMPTY_CODE_HASH` for no bytes.
abbrev provider : Provider
provider = record {
  P = ℕ;
  create_account = λ a n. n + 1;
  remove_account = λ a n. n + 1;
  keccak_256 = hash_from empty_code_hash;
  check_create_origin = λ caller. ok tt;
}

abbrev empty : Accounts provider
empty = record { codes = λ a. none; codes_metadata = λ a. none; storages = λ a i. 0; provider = 0 }

empty-IsCoherent : IsCoherent provider empty
empty-IsCoherent a meta h = absurd (ground arith)

account_code_metadata-Answers_example :
    Answers provider 4 empty (account_code_metadata provider 4 empty)
account_code_metadata-Answers_example =
    account_code_metadata-Answers provider 4 empty refl empty-IsCoherent

abbrev ops : List (Op provider)
ops = Op.create 4 (96 ∷ 0 ∷ []) none ∷ Op.query 4 ∷ Op.remove 4 ∷ Op.query 4 ∷ []

run_ops-IsCoherent_example : IsCoherent provider (run_ops provider ops empty)
run_ops-IsCoherent_example = run_ops-IsCoherent provider ops empty refl empty-IsCoherent

abbrev slots : Slots provider
slots = record { accounts = empty; originals = λ a i. none; transients = λ a i. none }

abbrev writes : List (ℕ × ℕ × ℕ)
writes = (4, 1, 9) ∷ (4, 2, 8) ∷ (4, 1, 7) ∷ []

last_write_of_slot : storage provider (set_storages provider writes slots) 4 1 ≡ 7
unfolding set_storages set_storage
last_write_of_slot = refl

set_storages-original_example :
    (original_storage provider (set_storages provider writes slots) 4 1
      ≡ original_storage provider slots 4 1)
    × (storage provider (set_storages provider writes slots) 4 1 ≡ last_write provider writes 4 1 0)
set_storages-original_example = set_storages-original provider writes slots 4 1
