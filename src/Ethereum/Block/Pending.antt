-- ===== src/Ethereum/Block/Pending.antt =====
-- The pending transactions of the Ethereum pallet (frame/ethereum/src/lib.rs) as a list.
use frontier.Base.{
  ℕ, suc, ◌+◌, ◌-◌, ◌≤◌, ◌<◌, ◌≡◌, ◌≢◌, refl, sym, Bool-cases, inl, inr, ◌==◌, ap, ◌∙◌, arith, none,
  some, List, [], ◌∷◌, ◌++◌, length, get_elem?, get_elem?-append, get_elem?-append_last,
  get_elem?-length, length-append, map,
}
use mathlib.Core.List.{append-nil, append_assoc}
use frontier.Ethereum.Block.{
  CountedMap, Outside, Entry, Collected, receipt_data, logs_bloom, push, collect,
}

-- The map holds the list at the indices from 0 on, and nothing else.
module _ {V : Type 0} (p : CountedMap V) where
  -- From an index on, the map holds the elements of a list, and nothing after them.
  abbrev pub Segment : ℕ → List V → p.M → Type 0
  Segment k vs m = (j i : ℕ) → j ≡ k + i → p.get j m ≡ get_elem? vs i

  pub record Holds (vs : List V) (m : p.M) : Type 0 where
    pub counted : p.count m ≡ length vs
    pub found : (i : ℕ) → p.get i m ≡ get_elem? vs i

  pub empty-Holds : Holds [] p.empty
  empty-Holds = record { counted = p.count-empty; found = λ i. p.get-empty i }

module _ {V : Type 0} (p : CountedMap V) where
  at_end : (vs : List V) (m : p.M) → Holds p vs m → p.get (p.count m) m ≡ none
  at_end vs m h = h.found (p.count m) ∙ ap (get_elem? vs) h.counted ∙ get_elem?-length vs

  pub insert-Holds :
      (vs : List V) (v : V) (m : p.M)
      → Holds p vs m
      → Holds p (vs ++ (v ∷ [])) (p.insert (p.count m) v m)
  insert-Holds vs v m h = record {
    counted =
        p.count-insert (p.count m) v m (at_end vs m h)
        ∙ ap suc h.counted
        ∙ sym (length-append vs v);
    found = λ i. elim (Bool-cases (i == p.count m)) [
      | inl last ↦
          let e : i ≡ p.count m = ground (arith, last) in
          rw (e) (
            p.get-insert_same (p.count m) v m
            ∙ sym (ap (get_elem? (vs ++ (v ∷ []))) h.counted ∙ get_elem?-append_last vs v))
      | inr other ↦
          let apart : i ≢ p.count m = λ e. absurd (ground (arith, other, e)) in
          p.get-insert_other (p.count m) i v m apart
          ∙ h.found i
          ∙ sym (get_elem?-append vs v i (λ e. apart (e ∙ sym h.counted)))
    ];
  }

  -- The entry before the end.
  pub get-last :
      (vs : List V) (v : V) (m : p.M)
      → Holds p (vs ++ (v ∷ [])) m
      → p.get (p.count m - 1) m ≡ some v
  get-last vs v m h =
      let e : p.count m - 1 ≡ length vs = omega (arith, h.counted, length-append vs v) in
      h.found (p.count m - 1) ∙ ap (get_elem? (vs ++ (v ∷ []))) e ∙ get_elem?-append_last vs v

  -- Taking an element leaves the rest.
  take-Segment :
      (k : ℕ) (v : V) (vs : List V) (m : p.M)
      → Segment p k (v ∷ vs) m
      → Segment p (suc k) vs (p.take k m).1
  take-Segment k v vs m h = λ j i e.
      p.get-take_other k j m (λ same. absurd (omega (arith, e, same)))
      ∙ h j (suc i) (omega (arith, e))

module _ (o : Outside) where
  open o use {bloom, pending}

  -- Every entry, pushed in order.
  abbrev pub push_all : List (Entry bloom) → Collected o → Collected o
  push_all [] c = c
  push_all (v ∷ vs) c = push_all vs (push o (some v) c)

  -- The loop over a segment collects its entries and takes them away.
  pub record Drained (k : ℕ) (vs : List (Entry bloom)) (m : pending.M) (c : Collected o)
      (r : pending.M × Collected o) : Type 0 where
    pub collected : r.1 ≡ push_all vs c
    pub remaining : pending.count r.0 ≡ pending.count m - length vs
    pub gone : (j : ℕ) → k ≤ j → pending.get j r.0 ≡ none
    pub kept : (j : ℕ) → j < k → pending.get j r.0 ≡ pending.get j m

  pub collect-Drained :
      (k : ℕ) (vs : List (Entry bloom)) (m : pending.M) (c : Collected o)
      → Segment pending k vs m
      → Drained k vs m c (collect o (length vs) k m c)
  unfolding collect
  collect-Drained k [] m c h = record {
    collected = refl;
    remaining = omega arith;
    gone = λ j le. h j (j - k) (omega arith);
    kept = λ j lt. refl;
  }
  collect-Drained k (v ∷ vs) m c h =
      let first : pending.get k m ≡ some v = h k 0 (omega arith) in
      let taken : (pending.take k m).0 ≡ some v = pending.take-value k m ∙ first in
      let rest =
        collect-Drained (suc k) vs (pending.take k m).1 (push o (some v) c)
          (take-Segment pending k v vs m h) in
      rw (taken, collect)
        (record {
          collected = rest.collected;
          remaining = omega (arith, rest.remaining, pending.count-take k m first);
          gone = λ j le. elim (Bool-cases (j == k)) [
            | inl same ↦
                let e : j ≡ k = ground (arith, same) in
                rw e (rest.kept k (omega arith) ∙ pending.get-take_same k m)
            | inr other ↦ rest.gone j (ground (arith, other, le))
          ];
          kept = λ j lt.
              rest.kept j (omega (arith, lt))
              ∙ pending.get-take_other k j m (λ e. absurd (omega (arith, e, lt)));
        })

  -- What `collect` gathers from nothing.
  abbrev pub block_gas : List (Entry bloom) → ℕ → ℕ
  block_gas [] last = last
  block_gas ((t, status, receipt) ∷ vs) last = block_gas vs (receipt_data bloom receipt).used_gas

  abbrev pub block_bloom : List (Entry bloom) → bloom.Bloom → bloom.Bloom
  block_bloom [] acc = acc
  block_bloom ((t, status, receipt) ∷ vs) acc =
      block_bloom vs (logs_bloom bloom (receipt_data bloom receipt).logs acc)

  abbrev pub with_entries : List (Entry bloom) → Collected o → Collected o
  with_entries vs c = record {
    transactions = c.transactions ++ map (λ v. v.0) vs;
    statuses = c.statuses ++ map (λ v. v.1) vs;
    receipts = c.receipts ++ map (λ v. v.2) vs;
    bloom_so_far = block_bloom vs c.bloom_so_far;
    cumulative_gas_used = block_gas vs c.cumulative_gas_used;
  }

  pub push_all-entries :
      (vs : List (Entry bloom)) (c : Collected o) → push_all vs c ≡ with_entries vs c
  unfolding push
  push_all-entries [] c = simp (append-nil) refl
  push_all-entries ((t, status, receipt) ∷ vs) c =
      push_all-entries vs (push o (some (t, status, receipt)) c) ∙ simp (append_assoc) refl
