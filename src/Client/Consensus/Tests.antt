-- ===== src/Client/Consensus/Tests.antt =====
-- Runs of the search for the Ethereum log of a digest.
use frontier.Base.{ℕ, ◌≡◌, refl, Option, none, some, [], ◌∷◌}
use frontier.Evm.Weight.{ok, err}
use frontier.Client.Consensus.{
  Decoder, PreLog, PostLog, Log, FindLogError, find_log, find_pre_log, find_kind,
}
use frontier.Client.Consensus.Laws.{find_log-only}

-- Digest items: one that is no log of the engine, and one that names an Ethereum block.
pub data Item : Type 0 where
  unrelated : Item
  post_hash : ℕ → Item

abbrev pub to_post : Item → Option PostLog
to_post Item.unrelated = none
to_post (Item.post_hash h) = some (PostLog.block_hash h)

abbrev pub decoder : Decoder
decoder = record { Item = Item; try_pre = λ item. none; try_post = to_post }

-- Two pre-runtime logs are no pre-runtime log for `transact`, which asks only for an error.
two_pre_logs :
    find_pre_log
      (record { Item = PreLog; try_pre = λ item. some item; try_post = λ item. none })
      (PreLog.block (record { header_hash = 1; transactions = [] })
        ∷ PreLog.block (record { header_hash = 2; transactions = [] })
        ∷ [])
    ≡ err FindLogError.multiple_logs
unfolding find_pre_log find_kind
two_pre_logs = refl

two_logs :
    find_log decoder (Item.post_hash 1 ∷ Item.unrelated ∷ Item.post_hash 1 ∷ [])
    ≡ err FindLogError.multiple_logs
unfolding find_log
two_logs = refl

find_log-only_example :
    find_log decoder (Item.unrelated ∷ Item.post_hash 3 ∷ []) ≡ ok (Log.post (PostLog.block_hash 3))
find_log-only_example = find_log-only decoder (Item.unrelated ∷ Item.post_hash 3 ∷ [])
