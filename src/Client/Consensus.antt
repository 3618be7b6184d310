-- ===== src/Client/Consensus.antt =====
-- The Ethereum logs in a block's digest, primitives/consensus/src/lib.rs. Decoding a digest item as
-- a pre-runtime or a consensus log of the Frontier engine belongs to sp-runtime: a parameter.
pub mod Laws
pub mod Tests
use frontier.Base.{ℕ, Bool, true, false, Option, none, some, List, [], ◌∷◌}
use frontier.Evm.Weight.{Result, ok, err}

-- `ethereum::BlockV3`, as far as it is read: the hash of its header and of its transactions.
pub record EthereumBlock : Type 0 where
  pub header_hash : ℕ
  pub transactions : List ℕ

pub record Hashes : Type 0 where
  pub block_hash : ℕ
  pub transaction_hashes : List ℕ

-- `Hashes::from_block`
unfoldable pub from_block : EthereumBlock → Hashes
from_block b = record { block_hash = b.header_hash; transaction_hashes = b.transactions }

pub data PreLog : Type 0 where
  block : EthereumBlock → PreLog

pub data PostLog : Type 0 where
  hashes : Hashes → PostLog
  block : EthereumBlock → PostLog
  block_hash : ℕ → PostLog

pub data Log : Type 0 where
  pre : PreLog → Log
  post : PostLog → Log

pub data FindLogError : Type 0 where
  not_found multiple_logs : FindLogError

-- A digest item, by `try_to` for each kind of log.
pub record Decoder : Type 1 where
  pub Item : Type 0
  pub try_pre : Item → Option PreLog
  pub try_post : Item → Option PostLog

abbrev pub Found : Type 0 → Type 0
Found L = Result FindLogError L

-- `found.ok_or(FindLogError::NotFound)`
abbrev pub ok_or_not_found : {L : Type 0} → Option L → Found L
ok_or_not_found none = err FindLogError.not_found
ok_or_not_found (some l) = ok l

-- One `match (log, found.is_some())`: an error, or the new value of `found`.
abbrev pub note_log : {L : Type 0} → Option L → Option L → Found (Option L)
note_log (some l) (some earlier) = err FindLogError.multiple_logs
note_log (some l) none = ok (some l)
note_log none found = ok found

-- `?` on the way.
abbrev pub and_then : {A B : Type 0} → Found A → (A → Found B) → Found B
and_then (ok a) k = k a
and_then (err e) k = err e

-- The function `_find_log`, for one kind of log.
unfoldable pub find_kind : {Item L : Type 0} → (Item → Option L) → Option L → List Item → Found L
find_kind try_to found [] = ok_or_not_found found
find_kind try_to found (item ∷ items) =
    and_then (note_log (try_to item) found) (λ found'. find_kind try_to found' items)

abbrev pub map_log : {A B : Type 0} → (A → B) → Option A → Option B
map_log f none = none
map_log f (some a) = some (f a)

module _ (d : Decoder) where
  open d use {Item, try_pre, try_post}

  unfoldable pub find_pre_log : List Item → Found PreLog
  unfolding find_kind
  find_pre_log items = find_kind try_pre none items

  unfoldable pub find_post_log : List Item → Found PostLog
  unfolding find_kind
  find_post_log items = find_kind try_post none items

  -- The loop of `find_log`: each item is tried as a pre-runtime log, then as a consensus log.
  unfoldable pub find_log_from : Option Log → List Item → Found Log
  find_log_from found [] = ok_or_not_found found
  find_log_from found (item ∷ items) =
      and_then (note_log (map_log Log.pre (try_pre item)) found) (λ found'.
        and_then (note_log (map_log Log.post (try_post item)) found')
          (λ found''. find_log_from found'' items))

  unfoldable pub find_log : List Item → Found Log
  unfolding find_log_from
  find_log items = find_log_from none items

  abbrev pub forget : Found Log → Found (Unit {0})
  forget (ok l) = ok tt
  forget (err e) = err e

  unfoldable pub ensure_log : List Item → Found (Unit {0})
  unfolding find_log
  ensure_log items = forget (find_log items)
