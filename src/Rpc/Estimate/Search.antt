-- ===== src/Rpc/Estimate/Search.antt =====
-- The binary search of `estimate_gas` of client/rpc/src/eth/execute.rs.
use frontier.Base.{
  ℕ, zero, suc, ◌+◌, ◌-◌, ◌*◌, ◌/◌, ◌≤◌, ◌<◌, ◌≡◌, refl, arith, true, false, max_u256, ◌||◌, leb,
  ltb, ◌==◌, Bool-cases, ◌⊎◌, inl, inr,
}
use frontier.Evm.Weight.{Result}
use frontier.Rpc.Request.{RpcError, ExecutableResult}
use frontier.Rpc.Estimate.{Estimate, Verdict, Bracket, Step, verdict_of, narrow, iterate, search}

module _ (run : ℕ → Result RpcError ExecutableResult) where
  -- A bracket whose highest limit was seen to be enough.
  pub record IsBracket (s : Bracket) : Type 0 where
    pub middle : ((s.lowest < s.mid) × (s.mid < s.highest)) ⊎ (s.highest ≤ s.lowest + 1)
    pub ordered : s.lowest ≤ s.highest
    pub kept : s.previous ≡ s.highest
    pub small : s.highest * 10 ≤ max_u256
    pub positive : 0 < s.highest
    pub suffices : verdict_of (run s.highest) ≡ Verdict.enough

  -- A limit up to `top` that is enough, or the error of a run with a limit up to `top`.
  unfoldable pub IsAnswer : ℕ → Estimate → Type 0
  IsAnswer top (Estimate.found g) = (g ≤ top) × (verdict_of (run g) ≡ Verdict.enough)
  IsAnswer top (Estimate.failed e) = (g : ℕ) × (g ≤ top) × (verdict_of (run g) ≡ Verdict.refused e)
  IsAnswer top Estimate.panic = ⊥
  IsAnswer top Estimate.out_of_fuel = ⊥

  unfoldable IsStep : Bracket → Step → Type 0
  IsStep s (Step.done e) = IsAnswer s.highest e
  IsStep s (Step.continue t) =
      IsBracket t × (t.highest - t.lowest < s.highest - s.lowest) × (t.highest ≤ s.highest)

  between :
      (low high : ℕ)
      → low < high
      → ((low < (high + low) / 2) × ((high + low) / 2 < high)) ⊎ (high ≤ low + 1)
  between low high lt = ground (arith, lt)

  narrow-IsStep :
      (s : Bracket) (v : Verdict)
      → IsBracket s
      → verdict_of (run s.mid) ≡ v
      → s.lowest < s.mid
      → s.mid < s.highest
      → IsStep s (narrow s v)
  unfolding narrow IsStep IsAnswer
  narrow-IsStep s (Verdict.refused e) b seen above below = (s.mid, omega (arith, below), seen)
  narrow-IsStep s Verdict.too_low b seen above below =
      let small = b.small in
      let fits : leb (s.highest + s.mid) max_u256 ≡ true = ground (arith, small, below) in
      rw fits (
        record {
          middle = between s.mid s.highest below;
          ordered = omega (arith, below);
          kept = b.kept;
          small = small;
          positive = b.positive;
          suffices = b.suffices;
        },
        omega (arith, above, below),
        omega (arith),
      )
  narrow-IsStep s Verdict.enough b seen above below =
      let kept = b.kept in
      let small = b.small in
      let difference : leb ((s.previous - s.mid) * 10) max_u256 ≡ true =
        ground (arith, kept, small) in
      let sum : leb (s.mid + s.lowest) max_u256 ≡ true = ground (arith, small, above, below) in
      let guard : (ltb s.previous s.mid || s.previous == 0) ≡ false = ground (arith, kept, below) in
      elim (Bool-cases (ltb ((s.previous - s.mid) * 10 / s.previous) 1)) [
        | inl close ↦ rw (guard, difference, close) (omega (arith, below), seen)
        | inr far ↦
            rw (guard, difference, far, sum)
              (
                record {
                  middle = between s.lowest s.mid above;
                  ordered = omega (arith, above);
                  kept = refl;
                  small = omega (arith, small, below);
                  positive = omega (arith, above);
                  suffices = seen;
                },
                omega (arith, above, below),
                omega (arith, below),
              )
      ]

  iterate-IsStep : (s : Bracket) → IsBracket s → IsStep s (iterate run s)
  unfolding iterate IsStep IsAnswer
  iterate-IsStep s b =
      let ordered = b.ordered in
      let guard : ltb s.highest s.lowest ≡ false = ground (arith, ordered) in
      elim (Bool-cases (leb (s.highest - s.lowest) 1)) [
        | inl narrowed ↦ rw (guard, narrowed) (omega (arith), b.suffices)
        | inr wide ↦
            rw (guard, wide)
              (elim b.middle [
                | inl (above, below) ↦ narrow-IsStep s (verdict_of (run s.mid)) b refl above below
                | inr close ↦ absurd (ground (arith, wide, close))
              ])
      ]

  IsAnswer-raise : (low top : ℕ) (e : Estimate) → low ≤ top → IsAnswer low e → IsAnswer top e
  unfolding IsAnswer
  IsAnswer-raise low top (Estimate.found g) le (bound, seen) = (omega (arith, le, bound), seen)
  IsAnswer-raise low top (Estimate.failed e) le (g, bound, seen) =
      (g, omega (arith, le, bound), seen)
  IsAnswer-raise low top Estimate.panic le a = a
  IsAnswer-raise low top Estimate.out_of_fuel le a = a

  pub search-IsAnswer :
      (fuel : ℕ) (s : Bracket)
      → IsBracket s
      → s.highest < fuel + s.lowest
      → IsAnswer s.highest (search run fuel s)
  unfolding search IsStep
  search-IsAnswer zero s b lt = let ordered = b.ordered in absurd (omega (arith, ordered, lt))
  search-IsAnswer (suc fuel) s b lt =
      (elim (iterate run s)
          as (λ x.
            IsStep s x
            → IsAnswer s.highest
                (elim x [ Step.done e ↦ e | Step.continue t ↦ search run fuel t ])) [
                  | Step.done e ↦ λ answer. answer
                  | Step.continue t ↦ λ (c, smaller, le).
                      let ordered = c.ordered in
                      let before = b.ordered in
                      IsAnswer-raise t.highest s.highest _ le
                        (search-IsAnswer fuel t c (omega (arith, lt, smaller, ordered, before)))
                ])
        (iterate-IsStep s b)
