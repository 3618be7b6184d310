-- ===== src/Base/Lists.antt =====
-- Lists measured by native numbers, membership tests, and sets as lists without repetition.
use Prim.Native.Nat.{ℕ, zero, suc}
use mathlib.Core.Path.{◌≡◌, refl, ap}
use mathlib.Core.Logic.{◌≢◌, ◌↔◌, inl, inr}
use mathlib.Core.Bool.{Bool, true, false, ◌&&◌, ◌||◌}
use mathlib.Core.Option.{Option, none, some}
use mathlib.Core.List.{List, [], ◌∷◌, ◌++◌}
use native.Mathlib.Omega.{arith}
use frontier.Base.Tests.{◌==◌, ==_iff, if◌then◌else◌, Bool-cases}

-- `PartialEq`, with the law that it decides equality.
pub record Eq {ℓ} (A : Type ℓ) : Type ℓ where
  pub beq : A → A → Bool
  pub beq_iff : (a b : A) → (beq a b ≡ true) ↔ (a ≡ b)

pub pair_beq_iff : (p q : ℕ × ℕ) → ((p.0 == q.0 && p.1 == q.1) ≡ true) ↔ (p ≡ q)
pair_beq_iff (a, b) (c, d) = (ground arith, ground arith)

instance abbrev pub nat_eq : Eq ℕ
nat_eq = record { beq = λ a b. a == b; beq_iff = ==_iff }

instance abbrev pub pair_eq : Eq (ℕ × ℕ)
pair_eq = record { beq = λ p q. p.0 == q.0 && p.1 == q.1; beq_iff = pair_beq_iff }

module _ {ℓ} {A : Type ℓ} where
  abbrev pub length : List A → ℕ
  length [] = 0
  length (x ∷ xs) = suc (length xs)

  abbrev pub get_elem? : List A → ℕ → Option A
  get_elem? [] n = none
  get_elem? (x ∷ xs) zero = some x
  get_elem? (x ∷ xs) (suc n) = get_elem? xs n

  abbrev pub take : ℕ → List A → List A
  take zero xs = []
  take (suc n) [] = []
  take (suc n) (x ∷ xs) = x ∷ take n xs

  abbrev pub drop : ℕ → List A → List A
  drop zero xs = xs
  drop (suc n) [] = []
  drop (suc n) (x ∷ xs) = drop n xs

module _ {ℓ} {A : Type ℓ} ⦃e : Eq A⦄ where
  abbrev pub contains : List A → A → Bool
  contains [] a = false
  contains (x ∷ xs) a = e.beq x a || contains xs a

  -- `BTreeSet::insert`
  abbrev pub insert : A → List A → List A
  insert a xs = if contains xs a then xs else a ∷ xs

  -- `BTreeSet::append`: every element of the second set goes into the first.
  abbrev pub union : List A → List A → List A
  union xs [] = xs
  union xs (y ∷ ys) = insert y (union xs ys)

  pub contains-insert :
      (a : A) (xs : List A) (b : A) → contains (insert a xs) b ≡ (e.beq a b || contains xs b)
  contains-insert a xs b = elim (Bool-cases (e.beq a b)) [
    | inl same ↦ ground (arith, e.beq_iff a b)
    | inr other ↦ ground arith
  ]

  pub contains-union :
      (xs ys : List A) (b : A) → contains (union xs ys) b ≡ (contains xs b || contains ys b)
  contains-union xs [] b = ground arith
  contains-union xs (y ∷ ys) b =
      rw (contains-insert y (union xs ys) b, contains-union xs ys b) (ground arith)

pub get_elem?-append :
    {V : Type 0} (vs : List V) (v : V) (i : ℕ)
    → i ≢ length vs
    → get_elem? (vs ++ (v ∷ [])) i ≡ get_elem? vs i
get_elem?-append [] v zero h = absurd (h refl)
get_elem?-append [] v (suc i) h = refl
get_elem?-append (w ∷ vs) v zero h = refl
get_elem?-append (w ∷ vs) v (suc i) h = get_elem?-append vs v i (λ e. h (ap suc e))

pub get_elem?-append_last :
    {V : Type 0} (vs : List V) (v : V) → get_elem? (vs ++ (v ∷ [])) (length vs) ≡ some v
get_elem?-append_last [] v = refl
get_elem?-append_last (w ∷ vs) v = get_elem?-append_last vs v

pub get_elem?-length : {V : Type 0} (vs : List V) → get_elem? vs (length vs) ≡ none
get_elem?-length [] = refl
get_elem?-length (v ∷ vs) = get_elem?-length vs

pub length-append : {V : Type 0} (vs : List V) (v : V) → length (vs ++ (v ∷ [])) ≡ suc (length vs)
length-append [] v = refl
length-append (w ∷ vs) v = ap suc (length-append vs v)
