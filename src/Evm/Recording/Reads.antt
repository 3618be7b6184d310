-- ===== src/Evm/Recording/Reads.antt =====
-- The cost of reads that frame/evm/src/runner/stack.rs records: the code of an account, and a slot.
use frontier.Base.{
  ℕ, ◌+◌, ◌≡◌, ◌≢◌, refl, Bool, true, false, List, ◌∷◌, ◌==◌, Option, none, some, arith, length,
  contains, contains-insert, nat_eq, pair_eq, [], ap, sym, subst,
}
use frontier.Evm.Weight.{
  ExitError, Result, ok, err, WeightInfo, try_record_proof_size_or_fail, try_consume,
  refund_proof_size,
}
use frontier.Evm.Meter.{StorageTarget, GasCost}
use frontier.Evm.Accounts.{
  Provider, Accounts, CodeMetadata, code, from_code, account_code_metadata, empty_code_hash,
}
use frontier.Evm.Accounts.Laws.{IsCoherent, account_code_metadata-Answers}
use frontier.Evm.Recording.{
  Meters, RecordingState, Opcode, Action, after, charge, charge_estimate, settle, charge_known_or,
  push_code, charge_code, record_address_code_read, record_external_dynamic_opcode_cost,
  record_opcode,
}

module _ (p : Provider) where
  -- After a success: the proof size used, its limit, and the accounts.
  abbrev Spent : ℕ → ℕ → Accounts p → Meters p × Result ExitError (Unit {0}) → Type 0
  Spent used limit accounts (s, ok _) =
      (s.weight.proof_size_usage ≡ some used)
      × (s.weight.proof_size_limit ≡ some limit)
      × (s.accounts ≡ accounts)
  Spent used limit accounts (s, err _) = Unit

  -- After a success: the proof size used.
  abbrev pub Paid : ℕ → Meters p × Result ExitError (Unit {0}) → Type 0
  Paid used (s, ok _) = s.weight.proof_size_usage ≡ some used
  Paid used (s, err _) = Unit

  after-Paid :
      (o : Meters p × Result ExitError (Unit {0})) (k : Action p) (used limit total : ℕ)
      (accounts : Accounts p)
      → Spent used limit accounts o
      → ((s : Meters p)
          → s.weight.proof_size_usage ≡ some used
          → s.weight.proof_size_limit ≡ some limit
          → s.accounts ≡ accounts
          → Paid total (k s))
      → Paid total (after p o k)
  after-Paid (s, ok _) k used limit total accounts h next = next s h.0 h.1 h.2
  after-Paid (s, err e) k used limit total accounts h next = tt

  charged-Spent :
      (s : Meters p) (used limit cost : ℕ) (accounts : Accounts p)
      → s.weight.proof_size_usage ≡ some used
      → s.weight.proof_size_limit ≡ some limit
      → s.accounts ≡ accounts
      → Spent (used + cost) limit accounts (charge p cost s)
  unfolding try_record_proof_size_or_fail try_consume
  charged-Spent s used limit cost accounts hu hl ha = ground arith

  settle-Paid :
      (raised : Bool) (estimate used : ℕ) (found : CodeMetadata × Accounts p) (s : Meters p)
      → s.weight.proof_size_usage ≡ some (used + estimate)
      → Paid (used + found.0.size) (settle p raised estimate found s)
  unfolding refund_proof_size
  settle-Paid raised estimate used (meta, accounts) s h = ground arith

  charge_estimate-Paid :
      (raised : Bool) (estimate a used limit : ℕ) (s : Meters p)
      → p.keccak_256 [] ≡ empty_code_hash
      → IsCoherent p s.accounts
      → s.weight.proof_size_usage ≡ some used
      → s.weight.proof_size_limit ≡ some limit
      → Paid (used + length (code p s.accounts a)) (charge_estimate p raised estimate a s)
  unfolding from_code
  charge_estimate-Paid raised estimate a used limit s hash v hu hl =
      after-Paid (charge p estimate s) _ (used + estimate) limit
        (used + length (code p s.accounts a)) s.accounts
        (charged-Spent s used limit estimate s.accounts hu hl refl)
        (λ t tu tl ta.
          let found = account_code_metadata p a t.accounts in
          subst (λ n. Paid (used + n) (settle p raised estimate found t)) (size_found t ta)
            (settle-Paid raised estimate used found t tu))
    where
      size_found :
          (t : Meters p)
          → t.accounts ≡ s.accounts
          → (account_code_metadata p a t.accounts).0.size ≡ length (code p s.accounts a)
      size_found t ta =
          subst (λ acc. (account_code_metadata p a acc).0.size ≡ length (code p s.accounts a))
            (sym ta) ((account_code_metadata-Answers p a s.accounts hash v).0)

  Spent-Paid :
      (o : Meters p × Result ExitError (Unit {0})) (accounts : Accounts p) (used limit : ℕ)
      → Spent used limit accounts o
      → Paid used o
  Spent-Paid (s, ok _) accounts used limit h = h.0
  Spent-Paid (s, err e) accounts used limit h = tt

  charge_known-Paid :
      (known : Option CodeMetadata) (limit a used : ℕ) (max : ℕ) (s : Meters p)
      → p.keccak_256 [] ≡ empty_code_hash
      → IsCoherent p s.accounts
      → s.accounts.codes_metadata a ≡ known
      → s.weight.proof_size_usage ≡ some used
      → s.weight.proof_size_limit ≡ some max
      → Paid
          (used + length (code p s.accounts a))
          (charge_known_or p known (charge_estimate p true limit a) s)
  unfolding from_code
  charge_known-Paid none limit a used max s hash v k hu hl =
      charge_estimate-Paid true limit a used max s hash v hu hl
  charge_known-Paid (some meta) limit a used max s hash v k hu hl =
      subst (λ n. Paid (used + n) (charge p meta.size s))
        (ap (λ (m : CodeMetadata). m.size) (v a meta k))
        (Spent-Paid (charge p meta.size s) s.accounts (used + meta.size) max
          (charged-Spent s used max meta.size s.accounts hu hl refl))

  -- Pushing the address changes nothing of the proof size.
  push_code-Paid :
      (o : Meters p × Result ExitError (Unit {0})) (a used : ℕ)
      → Paid used o
      → Paid used (after p o (push_code p a))
  push_code-Paid (s, ok _) a used h = h
  push_code-Paid (s, err e) a used h = tt

  charge_code-Paid :
      (limit a used max : ℕ) (s : Meters p)
      → p.keccak_256 [] ≡ empty_code_hash
      → IsCoherent p s.accounts
      → s.weight.proof_size_usage ≡ some used
      → s.weight.proof_size_limit ≡ some max
      → Paid
          (used + 76 + length (code p s.accounts a))
          (charge_code p limit a (s.accounts.codes_metadata a) s)
  charge_code-Paid limit a used max s hash v hu hl =
      let known = s.accounts.codes_metadata a in
      after-Paid (charge p 76 s) _ (used + 76) max (used + 76 + length (code p s.accounts a))
        s.accounts (charged-Spent s used max 76 s.accounts hu hl refl)
        (λ t tu tl ta.
          push_code-Paid (charge_known_or p known (charge_estimate p true limit a) t) a
            (used + 76 + length (code p s.accounts a))
            (subst
              (λ acc.
                Paid (used + 76 + length (code p acc a))
                  (charge_known_or p known (charge_estimate p true limit a) t))
              ta
              (charge_known-Paid known limit a (used + 76) max t hash
                (subst (IsCoherent p) (sym ta) v)
                (ap (λ (acc : Accounts p). acc.codes_metadata a) ta) tu tl)))

  -- Reading an address that is not recorded and has code, with a limit on the proof size and a
  -- coherent metadata cache: if the read succeeds, it adds the emptiness check (93), the metadata
  -- (76) and the size of the code to the proof size, whether the size was cached or was first
  -- charged as an estimate and then refunded.
  pub record_address_code_read-Paid :
      (limit a used max : ℕ) (s : Meters p)
      → p.keccak_256 [] ≡ empty_code_hash
      → IsCoherent p s.accounts
      → s.weight.proof_size_usage ≡ some used
      → s.weight.proof_size_limit ≡ some max
      → contains s.recorded.account_codes a ≡ false
      → code p s.accounts a ≢ []
      → Paid (used + 93 + 76 + length (code p s.accounts a)) (record_address_code_read p limit a s)
  unfolding record_address_code_read
  record_address_code_read-Paid limit a used max s hash v hu hl new n =
      rw (new, some_length (code p s.accounts a) n)
        (after-Paid (charge p 93 s) _ (used + 93) max
          (used + 93 + 76 + length (code p s.accounts a)) s.accounts
          (charged-Spent s used max 93 s.accounts hu hl refl)
          (λ t tu tl ta.
            subst
              (λ acc.
                Paid (used + 93 + 76 + length (code p acc a))
                  (charge_code p limit a (acc.codes_metadata a) t))
              ta
              (charge_code-Paid limit a (used + 93) max t hash (subst (IsCoherent p) (sym ta) v) tu
                tl)))
    where
      some_length : (bytes : List ℕ) → bytes ≢ [] → (length bytes == 0) ≡ false
      some_length [] h = absurd (h refl)
      some_length (x ∷ xs) h = ground arith

  -- A read of a slot, under a weight info that limits the proof size.
  abbrev pub first_read :
      ℕ → ℕ → ℕ → RecordingState p → RecordingState p × Result ExitError (Unit {0})
  first_read limit a i =
      record_external_dynamic_opcode_cost p limit Opcode.sload GasCost.other
        (StorageTarget.slot a i)

  first_read-recorded :
      (limit a i : ℕ) (s : RecordingState p) {w : WeightInfo}
      → s.weight_info ≡ some w
      → w.proof_size_limit ≢ none
      → (first_read limit a i s).1 ≡ ok tt
      → contains (first_read limit a i s).0.recorded.account_storages (a, i) ≡ true
  unfolding record_external_dynamic_opcode_cost record_opcode
  first_read-recorded limit a i s hw n h =
      ground (arith, contains-insert (a, i) s.recorded.account_storages (a, i))

  recorded_slot-free :
      (limit a i : ℕ) (opcode : Opcode) (s : RecordingState p)
      → contains s.recorded.account_storages (a, i) ≡ true
      → record_external_dynamic_opcode_cost p limit opcode GasCost.other (StorageTarget.slot a i) s
        ≡ (s, ok tt)
  unfolding record_external_dynamic_opcode_cost
  recorded_slot-free limit a i opcode s h = ground arith

  -- After a read of a slot that succeeded under a limited weight info, no opcode whose gas cost is
  -- not a storage write is charged for that slot again: the whole recording state stays.
  pub slot_recorded_once :
      (limit a i : ℕ) (opcode : Opcode) (s : RecordingState p) {w : WeightInfo}
      → s.weight_info ≡ some w
      → w.proof_size_limit ≢ none
      → (first_read limit a i s).1 ≡ ok tt
      → record_external_dynamic_opcode_cost p limit opcode GasCost.other
          (StorageTarget.slot a i)
          (first_read limit a i s).0
        ≡ ((first_read limit a i s).0, ok tt)
  slot_recorded_once limit a i opcode s hw n h =
      recorded_slot-free limit a i opcode (first_read limit a i s).0
        (first_read-recorded limit a i s hw n h)
