-- ===== src/Ethereum/Instances.antt =====
-- A counted map by a function and a currency by balances, for the tests of the Ethereum pallet.
use frontier.Base.{
  ℕ, suc, ◌+◌, ◌-◌, ◌≡◌, ◌≢◌, refl, arith, Bool, true, false, Option, none, some, ◌==◌, leb,
  if◌then◌else◌, min,
}
use frontier.Evm.Weight.{Result, ok, err}
use frontier.Evm.Accounts.{Provider}
use frontier.Evm.Fees.{Balanced}
use frontier.Evm.Fees.Laws.{IsLedger}
use frontier.Ethereum.Block.{CountedMap}

module _ (V : Type 0) where
  pub record Counted : Type 0 where
    pub size : ℕ
    pub at : ℕ → Option V

  abbrev pub is_none : Option V → Bool
  is_none none = true
  is_none (some v) = false

  abbrev pub put : ℕ → Option V → (ℕ → Option V) → ℕ → Option V
  put i v at j = if j == i then v else at j

  abbrev pub insert_at : ℕ → V → Counted → Counted
  insert_at i v m = record {
    size = if is_none (m.at i) then suc m.size else m.size;
    at = put i (some v) m.at;
  }

  abbrev pub remove_at : ℕ → Counted → Counted
  remove_at i m = record {
    size = if is_none (m.at i) then m.size else m.size - 1;
    at = put i none m.at;
  }

  pub put-same : (i : ℕ) (v : Option V) (at : ℕ → Option V) → put i v at i ≡ v
  put-same i v at = ground arith

  pub put-other : (i j : ℕ) (v : Option V) (at : ℕ → Option V) → j ≢ i → put i v at j ≡ at j
  put-other i j v at h = ground (arith, h)

  abbrev pub function_map : CountedMap V
  function_map = record {
    M = Counted;
    empty = record { size = 0; at = λ i. none };
    count = λ m. m.size;
    get = λ i m. m.at i;
    insert = insert_at;
    take = λ i m. (m.at i, remove_at i m);
    count-empty = refl;
    get-empty = λ i. refl;
    count-insert = λ i v m h. rw h refl;
    get-insert_same = λ i v m. put-same i (some v) m.at;
    get-insert_other = λ i j v m h. put-other i j (some v) m.at h;
    take-value = λ i m. refl;
    count-take = λ i m {v} h. rw h refl;
    get-take_same = λ i m. put-same i none m.at;
    get-take_other = λ i j m h. put-other i j none m.at h;
  }

pub record Balances : Type 0 where
  pub balances : ℕ → ℕ
  pub total : ℕ

abbrev pub set : ℕ → ℕ → (ℕ → ℕ) → ℕ → ℕ
set who amount balances a = if a == who then amount else balances a

abbrev pub withdraw : ℕ → ℕ → Balances → Result (Unit {0}) (ℕ × Balances)
withdraw who amount b =
    if leb amount (b.balances who)
    then ok (amount, record b { balances = set who (b.balances who - amount) b.balances })
    else err tt

abbrev pub ledger : Balanced
ledger = record {
  Funds = Balances;
  imbalance = record {
    split = λ credit amount. (min amount credit, credit - amount);
    offset = λ credit debt. if leb debt credit then ok (credit - debt) else err (debt - credit);
  };
  max_balance = 340282366920938463463374607431768211455;
  withdraw = withdraw;
  deposit = λ who amount b.
      ok (amount, record b { balances = set who (b.balances who + amount) b.balances });
  drop_credit = λ n b. record b { total = b.total - n };
  drop_debt = λ n b. record b { total = b.total + n };
  on_unbalanced = λ n b. record b { total = b.total - n };
}

abbrev pub funds_of : ℕ → Balances
funds_of n = record { balances = λ a. n; total = 10_000_000 }

abbrev pub is_ledger : IsLedger ledger
is_ledger = record {
  balance = λ a b. b.balances a;
  reducible = λ a b. min (b.balances a) 340282366920938463463374607431768211455;
  issuance = λ b. b.total;
  reducible_le = λ a b. omega arith;
  withdrawn = λ who amount b le. (
    record b { balances = set who (b.balances who - amount) b.balances },
    ground (arith, le),
    ground (arith, le),
    refl,
  );
  deposited =
      λ who amount b {debt} {funds'} e. (ground (arith, e), ground (arith, e), ground (arith, e));
  split = λ credit amount. refl;
  offset = λ credit debt le. ground (arith, le);
  issuance-drop_credit = λ n b. refl;
  issuance-drop_debt = λ n b. refl;
}

abbrev pub provider : Provider
provider = record {
  P = Unit;
  create_account = λ a q. q;
  remove_account = λ a q. q;
  keccak_256 = λ bytes. 0;
  check_create_origin = λ caller. ok tt;
}
