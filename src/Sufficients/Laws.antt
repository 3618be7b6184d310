-- ===== src/Sufficients/Laws.antt =====
-- What the repair of frame/hotfix-sufficients/src/lib.rs does to each account.
use frontier.Base.{
  ℕ, ◌<◌, ◌↔◌, ◌==◌, ◌≤◌, ◌≡◌, refl, sym, ap, subst, ◌∙◌, arith, Bool, true, false, not, ◌&&◌, ◌||◌,
  List, [], ◌∷◌, length, leb, if◌then◌else◌, Bool-cases, inl, inr,
}
use frontier.Evm.Weight.{ok}
use frontier.Sufficients.{
  System, refs, is_broken, repair, repair_all, hotfix_inc_account_sufficients, max_address_count,
}

-- A first reference makes one; nothing else of any account changes.
pub record IsCounting (f : System) : Type 0 where
  pub first :
      (who : ℕ) (s : f.State)
      → f.sufficients who s ≡ 0
      → f.sufficients who (f.inc_sufficients who s) ≡ 1
  pub others :
      (who other : ℕ) (s : f.State)
      → who == other ≡ false
      → f.sufficients other (f.inc_sufficients who s) ≡ f.sufficients other s
  pub nonces :
      (who other : ℕ) (s : f.State)
      → f.account_nonce other (f.inc_sufficients who s) ≡ f.account_nonce other s
  pub consumed :
      (who other : ℕ) (s : f.State)
      → f.consumers other (f.inc_sufficients who s) ≡ f.consumers other s
  pub provided :
      (who other : ℕ) (s : f.State)
      → f.providers other (f.inc_sufficients who s) ≡ f.providers other s

and_zero : (b : Bool) → (b && false) ≡ false
and_zero true = refl
and_zero false = refl

and_one : (b : Bool) → (b && true) ≡ b
and_one true = refl
and_one false = refl

and_not : (b c : Bool) → (b && c) ≡ false → b ≡ (b && not c)
and_not true true e = absurd (ground arith)
and_not true false e = refl
and_not false c e = refl

if_later :
    (b now later : Bool) (n : ℕ)
    → (if (b && not now) && later then 1 else (if b && now then 1 else n))
      ≡ (if b && (now || later) then 1 else n)
if_later true true later n = refl
if_later true false later n = refl
if_later false now later n = refl

not_or : (b now later : Bool) → ((b && not now) && not later) ≡ (b && not (now || later))
not_or true true later = refl
not_or true false later = refl
not_or false now later = refl

compare_self : (n : ℕ) → n == n ≡ true
compare_self n = ground arith

same_number : (m n : ℕ) → m == n ≡ true → m ≡ n
same_number m n e = ground arith

module _ (f : System) where
  unfoldable pub is_listed : ℕ → List ℕ → Bool
  is_listed who [] = false
  is_listed who (address ∷ rest) = f.into_account_id address == who || is_listed who rest

  -- The account after the repair of a list that names it or not: a broken one that is named has one
  -- reference, and all else is as before.
  pub record IsRepaired (before after : f.State) (who : ℕ) (named : Bool) : Type 0 where
    pub counted :
        f.sufficients who after
        ≡ (if is_broken f before who && named then 1 else f.sufficients who before)
    pub nonce : f.account_nonce who after ≡ f.account_nonce who before
    pub consumed : f.consumers who after ≡ f.consumers who before
    pub provided : f.providers who after ≡ f.providers who before
    pub broken : is_broken f after who ≡ (is_broken f before who && not named)

  module _ (l : IsCounting f) where
    -- What a reference more does to a broken account.
    inc-IsRepaired :
        (who : ℕ) (s : f.State)
        → is_broken f s who ≡ true
        → IsRepaired s (f.inc_sufficients who s) who true
    unfolding is_broken refs
    inc-IsRepaired who s broken =
        let none_before : f.sufficients who s ≡ 0 = ground arith in
        let one = l.first who s none_before in
        record {
          counted = rw broken one;
          nonce = l.nonces who who s;
          consumed = l.consumed who who s;
          provided = l.provided who who s;
          broken = ground (arith, one);
        }

    inc-others :
        (who other : ℕ) (s : f.State)
        → who == other ≡ false
        → IsRepaired s (f.inc_sufficients who s) other false
    unfolding is_broken refs
    inc-others who other s apart = record {
      counted = rw (and_zero (is_broken f s other)) (l.others who other s apart);
      nonce = l.nonces who other s;
      consumed = l.consumed who other s;
      provided = l.provided who other s;
      broken =
          rw
            (
              l.nonces who other s,
              l.consumed who other s,
              l.provided who other s,
              l.others who other s apart,
            )
            (sym (and_one (is_broken f s other)));
    }

    unchanged :
        (s : f.State) (who : ℕ) (named : Bool)
        → (is_broken f s who && named) ≡ false
        → IsRepaired s s who named
    unchanged s who named e = record {
      counted = rw e refl;
      nonce = refl;
      consumed = refl;
      provided = refl;
      broken = and_not (is_broken f s who) named e;
    }

    whole_named :
        (id who : ℕ) (s : f.State)
        → is_broken f s id ≡ false
        → (is_broken f s who && id == who) ≡ false
    whole_named id who s whole = elim (Bool-cases (id == who)) [
      | inl same ↦ rw (ap (is_broken f s) (sym (same_number id who same)), whole) refl
      | inr apart ↦ rw apart (and_zero (is_broken f s who))
    ]

    repair-IsRepaired : (id who : ℕ) (s : f.State) → IsRepaired s (repair f id s) who (id == who)
    unfolding repair
    repair-IsRepaired id who s = elim (Bool-cases (is_broken f s id)) [
      | inl broken ↦ elim (Bool-cases (id == who)) [
        | inl same ↦
            subst (λ w. IsRepaired s (repair f id s) w (id == w)) (same_number id who same)
              (rw (broken, compare_self id) (inc-IsRepaired id s broken))
        | inr apart ↦ rw (broken, apart) (inc-others id who s apart)
      ]
      | inr whole ↦ rw whole (unchanged s who (id == who) (whole_named id who s whole))
    ]

    or_later :
        (before middle after : f.State) (who : ℕ) (now later : Bool)
        → IsRepaired before middle who now
        → IsRepaired middle after who later
        → IsRepaired before after who (now || later)
    or_later before middle after who now later a b = record {
      counted =
          b.counted
          ∙ rw (a.broken, a.counted)
              (if_later (is_broken f before who) now later (f.sufficients who before));
      nonce = b.nonce ∙ a.nonce;
      consumed = b.consumed ∙ a.consumed;
      provided = b.provided ∙ a.provided;
      broken = b.broken ∙ rw a.broken (not_or (is_broken f before who) now later);
    }

    pub repair_all-IsRepaired :
        (addresses : List ℕ) (s : f.State) (who : ℕ)
        → IsRepaired s (repair_all f addresses s) who (is_listed who addresses)
    unfolding repair_all is_listed
    repair_all-IsRepaired [] s who = unchanged s who false (and_zero (is_broken f s who))
    repair_all-IsRepaired (address ∷ rest) s who =
        let id = f.into_account_id address in
        or_later s (repair f id s) _ who (id == who) (is_listed who rest)
          (repair-IsRepaired id who s) (repair_all-IsRepaired rest (repair f id s) who)

    is_broken_iff :
        (s : f.State) (who : ℕ)
        → (is_broken f s who ≡ true) ↔ (
            (0 < f.account_nonce who s)
            × (f.consumers who s ≡ 0)
            × (f.providers who s ≡ 0)
            × (f.sufficients who s ≡ 0))
    unfolding is_broken refs
    is_broken_iff s who = ground arith

    -- A signed call with at most 1000 addresses succeeds and repairs exactly the broken accounts
    -- that the list names, those with a nonce and no consumer, provider or sufficient reference:
    -- each has one sufficient reference after it, however often it is named, and is not broken.
    -- Every other account keeps its count, and all keep their nonces, consumers and providers. This
    -- holds for accounts where a first reference makes one and changes nothing else.
    pub hotfix_inc_account_sufficients-IsRepaired :
        (addresses : List ℕ) (s : f.State) (who : ℕ)
        → length addresses ≤ max_address_count
        → IsRepaired s
            (hotfix_inc_account_sufficients f true addresses s).0
            who
            (is_listed who addresses)
          × ((hotfix_inc_account_sufficients f true addresses s).1 ≡ ok tt)
          × ((is_broken f s who ≡ true) ↔ (
              (0 < f.account_nonce who s)
              × (f.consumers who s ≡ 0)
              × (f.providers who s ≡ 0)
              × (f.sufficients who s ≡ 0)))
    unfolding hotfix_inc_account_sufficients
    hotfix_inc_account_sufficients-IsRepaired addresses s who le =
        let short : leb (length addresses) max_address_count ≡ true = ground (arith, le) in
        rw short (repair_all-IsRepaired addresses s who, refl, is_broken_iff s who)
