-- ===== src/Sufficients/Tests.antt =====
-- Runs of the repair, on accounts as a function.
use frontier.Base.{◌<◌, ◌↔◌, ℕ, suc, ◌+◌, ◌==◌, ◌≡◌, refl, arith, true, [], ◌∷◌, if◌then◌else◌}
use frontier.Evm.Weight.{ok}
use frontier.Sufficients.{System, is_broken, hotfix_inc_account_sufficients}
use frontier.Sufficients.Laws.{
  IsCounting, IsRepaired, is_listed, hotfix_inc_account_sufficients-IsRepaired,
}

-- Account 4 has no nonce; no account has consumers or providers.
abbrev system : System
system = record {
  State = ℕ → ℕ;
  into_account_id = λ address. address + 1;
  account_nonce = λ who s. if who == 4 then 0 else 3;
  consumers = λ who s. 0;
  providers = λ who s. 0;
  sufficients = λ who s. s who;
  inc_sufficients = λ who s other. if who == other then suc (s other) else s other;
}

abbrev empty : ℕ → ℕ
empty who = 0

system-IsCounting : IsCounting system
system-IsCounting = record {
  first = λ who s e. ground (arith, e);
  others = λ who other s e. rw e refl;
  nonces = λ who other s. refl;
  consumed = λ who other s. refl;
  provided = λ who other s. refl;
}

hotfix_inc_account_sufficients-IsRepaired_example :
    IsRepaired system empty
      (hotfix_inc_account_sufficients system true (6 ∷ 3 ∷ 6 ∷ []) empty).0
      7
      (is_listed system 7 (6 ∷ 3 ∷ 6 ∷ []))
    × ((hotfix_inc_account_sufficients system true (6 ∷ 3 ∷ 6 ∷ []) empty).1 ≡ ok tt)
    × ((is_broken system empty 7 ≡ true) ↔ (
        (0 < 3) × (system.consumers 7 empty ≡ 0) × (system.providers 7 empty ≡ 0) × (empty 7 ≡ 0)))
hotfix_inc_account_sufficients-IsRepaired_example =
    hotfix_inc_account_sufficients-IsRepaired system system-IsCounting (6 ∷ 3 ∷ 6 ∷ []) empty 7
      (omega arith)
