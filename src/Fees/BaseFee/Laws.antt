-- ===== src/Fees/BaseFee/Laws.antt =====
-- The end of a block in frame/base-fee/src/lib.rs.
use frontier.Base.{
  ℕ, ◌+◌, ◌-◌, ◌*◌, ◌/◌, ◌≤◌, ◌<◌, ◌≡◌, ◌⊎◌, inl, inr, refl, List, [], ◌∷◌, arith, max_u256,
  Bool-cases, ltb, false, lt→ltb, sym, ◌==◌, checked_mul,
}
use frontier.Fees.BaseFee.{
  Permill, Config, State, million, from_parts, lowest_base_fee, genesis, usage, on_finalize, adjust,
  coefficient, increased, decreased,
}

lt_cases : (a b : ℕ) → (a < b) ⊎ (b < a) ⊎ (a ≡ b)
lt_cases a b = ground arith

not_ltb : (a b : ℕ) → b ≤ a → ltb a b ≡ false
not_ltb a b h = ground arith

module _ (p : Permill) (c : Config) where
  -- The fee lies between the lowest fee and the largest U256, and the elasticity is a fraction.
  pub record IsValid (s : State) : Type 0 where
    pub lowest : lowest_base_fee c ≤ s.base_fee_per_gas
    pub word : s.base_fee_per_gas ≤ max_u256
    pub fraction : s.elasticity ≤ million

  -- What the end of a block may do to the fee at an elasticity `e`: raise it by at most the
  -- fraction `e`, or lower it by at most the fraction `e`, by which side of the target the usage is.
  pub record Moves (s s' : State) (used : ℕ) : Type 0 where
    pub valid : IsValid s'
    pub elasticity : s'.elasticity ≡ s.elasticity
    pub up : s'.base_fee_per_gas ≤ s.base_fee_per_gas + s.base_fee_per_gas * s.elasticity / million
    pub down :
        s.base_fee_per_gas ≤ s'.base_fee_per_gas + s.base_fee_per_gas * s.elasticity / million
    pub direction :
        ((c.ideal < used) × (s.base_fee_per_gas ≤ s'.base_fee_per_gas))
        ⊎ ((used < c.ideal) × (s'.base_fee_per_gas ≤ s.base_fee_per_gas))
        ⊎ ((used ≡ c.ideal) × (s' ≡ s))

  div_mono : (a b : ℕ) → a ≤ b → a / million ≤ b / million
  div_mono a b h = omega arith

  scaled_le : (bf k e : ℕ) → k ≤ e → bf * k / million ≤ bf * e / million
  scaled_le bf k e h = div_mono (bf * k) (bf * e) (grind arith)

  increased-bounds :
      (s : State) (k : ℕ)
      → k ≤ s.elasticity
      → IsValid s
      → let s' = increased (checked_mul max_u256 s.base_fee_per_gas k) s in
        IsValid s'
        × (s'.elasticity ≡ s.elasticity)
        × (s.base_fee_per_gas ≤ s'.base_fee_per_gas)
        × (s'.base_fee_per_gas ≤ s.base_fee_per_gas + s.base_fee_per_gas * s.elasticity / million)
  increased-bounds s k h v = ground (arith, scaled_le s.base_fee_per_gas k s.elasticity h)

  decreased-bounds :
      (s : State) (k : ℕ)
      → k ≤ s.elasticity
      → IsValid s
      → let s' = decreased (lowest_base_fee c) (checked_mul max_u256 s.base_fee_per_gas k) s in
        IsValid s'
        × (s'.elasticity ≡ s.elasticity)
        × (s'.base_fee_per_gas ≤ s.base_fee_per_gas)
        × (s.base_fee_per_gas ≤ s'.base_fee_per_gas + s.base_fee_per_gas * s.elasticity / million)
  decreased-bounds s k h v = ground (arith, scaled_le s.base_fee_per_gas k s.elasticity h)

  adjust-Moves : (used : ℕ) (s : State) → IsValid s → Moves s (adjust p c used s) used
  unfolding adjust
  adjust-Moves used s v = elim (lt_cases c.ideal used) [
    | inl above ↦
        let k = coefficient p c s.elasticity (used - c.ideal) in
        let (valid, same, grows, bound) =
          increased-bounds s k (p.mul_le s.elasticity (from_parts ((used - c.ideal) * 2))) v in
        rw (lt→ltb c.ideal used above) (record {
          valid = valid;
          elasticity = same;
          up = bound;
          down = omega arith;
          direction = inl (above, grows);
        })
    | inr (inl below) ↦
        let k = coefficient p c s.elasticity (c.ideal - used) in
        let (valid, same, falls, bound) =
          decreased-bounds s k (p.mul_le s.elasticity (from_parts ((c.ideal - used) * 2))) v in
        rw (not_ltb c.ideal used (omega arith), lt→ltb used c.ideal below)
          (record {
            valid = valid;
            elasticity = same;
            up = omega arith;
            down = bound;
            direction = inr (inl (below, falls));
          })
    | inr (inr same) ↦
        rw (not_ltb c.ideal used (omega arith), not_ltb used c.ideal (omega arith))
          (record {
            valid = v;
            elasticity = refl;
            up = omega arith;
            down = omega arith;
            direction = inr (inr (sym same, refl));
          })
  ]

  unmoved : (used : ℕ) (s : State) → IsValid s → Moves s s used
  unmoved used s v = record {
    valid = v;
    elasticity = refl;
    up = omega arith;
    down = omega arith;
    direction = elim (lt_cases c.ideal used) [
      | inl above ↦ inl (above, omega arith)
      | inr (inl below) ↦ inr (inl (below, omega arith))
      | inr (inr same) ↦ inr (inr (sym same, refl))
    ];
  }

  -- The end of a block, from a valid state: the fee stays between the lowest fee and the largest
  -- U256, the elasticity stays, the fee moves by at most the elasticity's fraction of itself, and
  -- it does not fall in a block above the target, does not rise in one below it, and stays in one
  -- at the target.
  pub on_finalize-Moves :
      (weight max_weight : ℕ) (s : State)
      → IsValid s
      → Moves s (on_finalize p c weight max_weight s) (usage p c weight max_weight)
  unfolding on_finalize
  on_finalize-Moves weight max_weight s v = elim (Bool-cases (s.elasticity == 0)) [
    | inl constant ↦ rw constant (unmoved (usage p c weight max_weight) s v)
    | inr moving ↦ rw moving (adjust-Moves (usage p c weight max_weight) s v)
  ]

  -- Blocks in order: weight and maximal weight of each.
  unfoldable pub run_blocks : List (ℕ × ℕ) → State → State
  run_blocks [] s = s
  run_blocks ((weight, max_weight) ∷ bs) s = run_blocks bs (on_finalize p c weight max_weight s)

  -- From a genesis with a fee between the lowest one and the largest U256 and an elasticity of at
  -- most one, the fee is in that range after any sequence of blocks.
  pub run_blocks-genesis-IsValid :
      (blocks : List (ℕ × ℕ)) (fee elasticity : ℕ)
      → lowest_base_fee c ≤ fee
      → fee ≤ max_u256
      → elasticity ≤ million
      → IsValid (run_blocks blocks (genesis fee elasticity))
  unfolding genesis run_blocks
  run_blocks-genesis-IsValid blocks fee elasticity lo hi e =
      go blocks (genesis fee elasticity) (record { lowest = lo; word = hi; fraction = e })
    where
      go : (bs : List (ℕ × ℕ)) (s : State) → IsValid s → IsValid (run_blocks bs s)
      go [] s v = v
      go ((weight, max_weight) ∷ bs) s v =
          go bs (on_finalize p c weight max_weight s)
            (on_finalize-Moves weight max_weight s v).valid
