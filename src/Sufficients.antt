-- ===== src/Sufficients.antt =====
-- The repair of account references, frame/hotfix-sufficients/src/lib.rs. The accounts of
-- frame-system and the address mapping are parameters.
pub mod Laws
mod Tests
use frontier.Base.{
  ℕ, ◌==◌, Bool, true, false, not, ◌&&◌, ◌||◌, List, [], ◌∷◌, leb, length, if◌then◌else◌,
  saturating_add, max_u32,
}
use frontier.Evm.Weight.{Result, ok, err}

-- What is called of frame-system, and the mapping of addresses to accounts.
pub record System : Type 1 where
  pub State : Type 0
  pub into_account_id : ℕ → ℕ
  pub account_nonce : ℕ → State → ℕ
  pub consumers : ℕ → State → ℕ
  pub providers : ℕ → State → ℕ
  pub sufficients : ℕ → State → ℕ
  pub inc_sufficients : ℕ → State → State

pub data HotfixError : Type 0 where
  bad_origin max_address_count_exceeded : HotfixError

abbrev pub max_address_count : ℕ
max_address_count = 1000

module _ (f : System) where
  unfoldable pub refs : f.State → ℕ → ℕ
  refs s who =
      saturating_add max_u32 (saturating_add max_u32 (f.consumers who s) (f.providers who s))
        (f.sufficients who s)

  unfoldable pub is_broken : f.State → ℕ → Bool
  is_broken s who = not (f.account_nonce who s == 0) && refs s who == 0

  -- The body of the loop, on an account.
  unfoldable pub repair : ℕ → f.State → f.State
  repair who s = if is_broken s who then f.inc_sufficients who s else s

  unfoldable pub repair_all : List ℕ → f.State → f.State
  repair_all [] s = s
  repair_all (address ∷ rest) s = repair_all rest (repair (f.into_account_id address) s)

  -- `is_signed` is what `ensure_signed` says of the origin.
  unfoldable pub hotfix_inc_account_sufficients :
      Bool → List ℕ → f.State → f.State × Result HotfixError (Unit {0})
  hotfix_inc_account_sufficients is_signed addresses s =
      if not is_signed
      then (s, err HotfixError.bad_origin)
      else if leb (length addresses) max_address_count
      then (repair_all addresses s, ok tt)
      else (s, err HotfixError.max_address_count_exceeded)
