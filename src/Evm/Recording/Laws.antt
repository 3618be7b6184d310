-- ===== src/Evm/Recording/Laws.antt =====
-- Lemmas on the actions of frame/evm/src/runner/stack.rs that record proof size: each keeps a valid
-- weight info valid.
use frontier.Base.{
  ℕ, Bool, Option, none, some, Bool-cases, Option-cases, inl, inr, true, false, contains, nat_eq,
  length, ◌==◌, ltb, if◌then◌else◌, saturating_sub,
}
use frontier.Evm.Weight.{ExitError, Result, ok, err, remaining_proof_size}
use frontier.Evm.Weight.Laws as WL
use frontier.Evm.Weight.Laws.{run_op, run_op-IsValid}
use frontier.Evm.Accounts.{Provider, Accounts, CodeMetadata, code, account_code_metadata}
use frontier.Evm.Recording.{
  Meters, Opcode, AccessedStorage, Action, after, ◌>>◌, charge, refund, settle, charge_estimate,
  charge_known_or, charge_remaining, record_address_code_read, record_account_codes_proof_size,
  read_code, touch_slot, record_opcode, push_code, add_slot, return, base_size, charge_size,
  charge_code, account_codes_metadata_proof_size, is_empty_check_proof_size, if_limited,
  charge_ref_time, charge_proof_size,
}

module _ (p : Provider) where
  -- An action keeps the weight info within its limits.
  abbrev pub Keeps : Action p → Type 0
  Keeps k = (s : Meters p) → WL.IsValid s.weight → WL.IsValid (k s).0.weight

  pub charge-Keeps : (cost : ℕ) → Keeps (charge p cost)
  unfolding run_op
  charge-Keeps cost s v = run_op-IsValid (WL.Op.charge_proof_size cost) s.weight v

  pub charge_ref_time-Keeps : (amount : Option ℕ) → Keeps (charge_ref_time p amount)
  unfolding run_op
  charge_ref_time-Keeps none s v = v
  charge_ref_time-Keeps (some amount) s v = run_op-IsValid (WL.Op.charge_ref_time amount) s.weight v

  pub charge_proof_size-Keeps : (amount : Option ℕ) → Keeps (charge_proof_size p amount)
  charge_proof_size-Keeps none s v = v
  charge_proof_size-Keeps (some amount) s v = charge-Keeps amount s v

  refund-Keeps : (amount : ℕ) → Keeps (refund p amount)
  unfolding run_op
  refund-Keeps amount s v = run_op-IsValid (WL.Op.refund_proof amount) s.weight v

  after-Keeps :
      (o : Meters p × Result ExitError (Unit {0})) (k : Action p)
      → WL.IsValid o.0.weight
      → Keeps k
      → WL.IsValid (after p o k).0.weight
  after-Keeps (s, ok _) k v h = h s v
  after-Keeps (s, err e) k v h = v

  pub >>-Keeps : (m k : Action p) → Keeps m → Keeps k → Keeps (◌>>◌ p m k)
  >>-Keeps m k hm hk s v = after-Keeps (m s) k (hm s v) hk

  if-Keeps : (b : Bool) (m k : Action p) → Keeps m → Keeps k → Keeps (if b then m else k)
  if-Keeps true m k hm hk = hm
  if-Keeps false m k hm hk = hk

  return-Keeps : Keeps (return p)
  return-Keeps s v = v

  settle-Keeps :
      (raised : Bool) (estimate : ℕ) (found : CodeMetadata × Accounts p)
      → Keeps (settle p raised estimate found)
  settle-Keeps raised estimate (meta, accounts) s v = elim (Bool-cases (ltb estimate meta.size)) [
    | inl above ↦ rw above v
    | inr within ↦
        rw within
          (refund-Keeps (saturating_sub estimate meta.size) (record s { accounts = accounts }) v)
  ]

  charge_estimate-Keeps :
      (raised : Bool) (estimate a : ℕ) → Keeps (charge_estimate p raised estimate a)
  charge_estimate-Keeps raised estimate a =
      >>-Keeps (charge p estimate) _ (charge-Keeps estimate)
        (λ s. settle-Keeps raised estimate (account_code_metadata p a s.accounts) s)

  charge_known_or-Keeps :
      (known : Option CodeMetadata) (unknown : Action p)
      → Keeps unknown
      → Keeps (charge_known_or p known unknown)
  charge_known_or-Keeps (some meta) unknown h = charge-Keeps meta.size
  charge_known_or-Keeps none unknown h = h

  push_code-Keeps : (a : ℕ) → Keeps (push_code p a)
  push_code-Keeps a s v = v

  add_slot-Keeps : (key : ℕ × ℕ) → Keeps (add_slot p key)
  add_slot-Keeps key s v = v

  charge_code-Keeps :
      (limit a : ℕ) (known : Option CodeMetadata) → Keeps (charge_code p limit a known)
  charge_code-Keeps limit a known =
      >>-Keeps (charge p account_codes_metadata_proof_size) _
        (charge-Keeps account_codes_metadata_proof_size)
        (>>-Keeps (charge_known_or p known (charge_estimate p true limit a)) (push_code p a)
          (charge_known_or-Keeps known _ (charge_estimate-Keeps true limit a)) (push_code-Keeps a))

  pub record_address_code_read-Keeps : (limit a : ℕ) → Keeps (record_address_code_read p limit a)
  unfolding record_address_code_read
  record_address_code_read-Keeps limit a s v =
      if-Keeps (contains s.recorded.account_codes a) (return p) _ return-Keeps
        (>>-Keeps (charge p is_empty_check_proof_size) _ (charge-Keeps is_empty_check_proof_size) (
          if-Keeps (length (code p s.accounts a) == 0) (return p) _ return-Keeps
            (charge_code-Keeps limit a (s.accounts.codes_metadata a))))
        s v

  charge_remaining-Keeps : (left : Option ℕ) (limit a : ℕ) → Keeps (charge_remaining p left limit a)
  charge_remaining-Keeps none limit a = return-Keeps
  charge_remaining-Keeps (some left) limit a = charge_estimate-Keeps false _ a

  record_account_codes-Keeps :
      (limit a : ℕ) (empty_check : Bool)
      → Keeps (record_account_codes_proof_size p limit a empty_check)
  unfolding record_account_codes_proof_size
  record_account_codes-Keeps limit a empty_check =
      >>-Keeps (charge p (base_size p empty_check)) (charge_size p limit a)
        (charge-Keeps (base_size p empty_check))
        (λ s.
          charge_known_or-Keeps (s.accounts.codes_metadata a) _
            (charge_remaining-Keeps (remaining_proof_size s.weight) limit a) s)

  read_code-Keeps :
      (limit : ℕ) (empty_check : Bool) (target : Option AccessedStorage)
      → Keeps (read_code p limit empty_check target)
  unfolding read_code
  read_code-Keeps limit empty_check none = return-Keeps
  read_code-Keeps limit empty_check (some (AccessedStorage.account_codes a)) =
      >>-Keeps (record_account_codes_proof_size p limit a empty_check) (push_code p a)
        (record_account_codes-Keeps limit a empty_check) (push_code-Keeps a)
  read_code-Keeps limit empty_check (some (AccessedStorage.account_storages key)) = return-Keeps

  touch_slot-Keeps : (cost : ℕ) (target : Option AccessedStorage) → Keeps (touch_slot p cost target)
  touch_slot-Keeps cost none = return-Keeps
  touch_slot-Keeps cost (some (AccessedStorage.account_codes a)) = return-Keeps
  touch_slot-Keeps cost (some (AccessedStorage.account_storages key)) =
      >>-Keeps (charge p cost) (add_slot p key) (charge-Keeps cost) (add_slot-Keeps key)

  pub record_opcode-Keeps :
      (limit : ℕ) (opcode : Opcode) (target : Option AccessedStorage)
      → Keeps (record_opcode p limit opcode target)
  unfolding record_opcode
  record_opcode-Keeps limit Opcode.balance target = charge-Keeps _
  record_opcode-Keeps limit Opcode.extcodesize target = read_code-Keeps limit false target
  record_opcode-Keeps limit Opcode.extcodecopy target = read_code-Keeps limit false target
  record_opcode-Keeps limit Opcode.extcodehash target = read_code-Keeps limit false target
  record_opcode-Keeps limit Opcode.callcode target = read_code-Keeps limit true target
  record_opcode-Keeps limit Opcode.call target = read_code-Keeps limit true target
  record_opcode-Keeps limit Opcode.delegatecall target = read_code-Keeps limit true target
  record_opcode-Keeps limit Opcode.staticcall target = read_code-Keeps limit true target
  record_opcode-Keeps limit Opcode.sload target = touch_slot-Keeps _ target
  record_opcode-Keeps limit Opcode.sstore target = touch_slot-Keeps _ target
  record_opcode-Keeps limit Opcode.create target = charge-Keeps _
  record_opcode-Keeps limit Opcode.create2 target = charge-Keeps _
  record_opcode-Keeps limit Opcode.suicide target = charge-Keeps _
  record_opcode-Keeps limit (Opcode.other n) target = return-Keeps

  pub if_limited-Keeps : (k : Action p) → Keeps k → Keeps (if_limited p k)
  if_limited-Keeps k h s v = elim (Option-cases s.weight.proof_size_limit) [
    | inl unlimited ↦ rw (unlimited, if_limited) v
    | inr (limit, e) ↦ rw (e, if_limited) (h s v)
  ]
