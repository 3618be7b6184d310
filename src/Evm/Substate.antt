-- ===== src/Evm/Substate.antt =====
-- `SubstrateStackSubstate` of frame/evm/src/runner/stack.rs: the nested frames of an EVM execution.
-- The chain of `parent` boxes is a list; the storage host functions of sp_io and the metadata of
-- the evm crate are parameters.
pub mod Trace
pub mod Rollback
mod Tests
use frontier.Base.{
  ℕ, Bool, false, ◌||◌, not, Option, none, some, List, [], ◌∷◌, ◌++◌, ◌≡◌, contains, insert, union,
  nat_eq,
}
use frontier.Evm.Weight.{ExitError, Result, ok, err}

-- The externalities with their nested transactions (`start_transaction`, `commit_transaction`,
-- `rollback_transaction`): reads see `current`, and `saved` lists what the open transactions would
-- roll back to, the innermost first.
pub record Externalities (S : Type 0) : Type 1 where
  pub Ext : Type 0
  pub current : Ext → S
  pub saved : Ext → List S
  pub write : S → Ext → Ext
  pub start : Ext → Ext
  pub commit : Ext → Ext
  pub rollback : Ext → Ext
  pub current-write : (s : S) (x : Ext) → current (write s x) ≡ s
  pub saved-write : (s : S) (x : Ext) → saved (write s x) ≡ saved x
  pub current-start : (x : Ext) → current (start x) ≡ current x
  pub saved-start : (x : Ext) → saved (start x) ≡ current x ∷ saved x
  pub current-commit :
      (x : Ext) {s : S} {r : List S} → saved x ≡ s ∷ r → current (commit x) ≡ current x
  pub saved-commit : (x : Ext) {s : S} {r : List S} → saved x ≡ s ∷ r → saved (commit x) ≡ r
  pub current-rollback : (x : Ext) {s : S} {r : List S} → saved x ≡ s ∷ r → current (rollback x) ≡ s
  pub saved-rollback : (x : Ext) {s : S} {r : List S} → saved x ≡ s ∷ r → saved (rollback x) ≡ r

-- `StackSubstateMetadata` of the evm crate. A `swallow` takes the parent's metadata and the
-- child's; it may change the parent's and still fail. `is_accessed` looks into `accessed()`.
pub record Metadata : Type 1 where
  pub M : Type 0
  pub spit_child : M → ℕ → Bool → M
  pub swallow_commit : M → M → M × Result ExitError (Unit {0})
  pub swallow_revert : M → M → M × Result ExitError (Unit {0})
  pub swallow_discard : M → M → M × Result ExitError (Unit {0})
  pub accessed : M → Option (List ℕ × List (ℕ × ℕ))

pub record Log : Type 0 where
  pub address : ℕ
  pub topics : List ℕ
  pub payload : List ℕ

module _ (m : Metadata) where
  -- `SubstrateStackSubstate` without its parent.
  pub record Frame : Type 0 where
    pub metadata : m.M
    pub deletes : List ℕ
    pub creates : List ℕ
    pub logs : List Log

  pub record Substate : Type 0 where
    pub top : Frame
    pub parents : List Frame

module _ {m : Metadata} where
  -- The frame that `enter` starts from the metadata of the frame around it.
  abbrev pub fresh_frame : m.M → Frame m
  fresh_frame metadata = record { metadata = metadata; deletes = []; creates = []; logs = [] }

  abbrev pub update_top : (Frame m → Frame m) → Substate m → Substate m
  update_top f s = record s { top = f s.top }

  unfoldable pub set_deleted : ℕ → Substate m → Substate m
  set_deleted a = update_top (λ f. record f { deletes = insert a f.deletes })

  unfoldable pub set_created : ℕ → Substate m → Substate m
  set_created a = update_top (λ f. record f { creates = insert a f.creates })

  unfoldable pub log : Log → Substate m → Substate m
  log l = update_top (λ f. record f { logs = f.logs ++ l ∷ [] })

  -- A test on the top frame, then on each parent.
  abbrev pub any_frame : (Frame m → Bool) → List (Frame m) → Bool
  any_frame p [] = false
  any_frame p (f ∷ fs) = p f || any_frame p fs

  unfoldable pub deleted : ℕ → Substate m → Bool
  deleted a s = any_frame (λ f. contains f.deletes a) (s.top ∷ s.parents)

  unfoldable pub created : ℕ → Substate m → Bool
  created a s = any_frame (λ f. contains f.creates a) (s.top ∷ s.parents)

  abbrev pub frame_accessed : (List ℕ × List (ℕ × ℕ) → Bool) → Frame m → Bool
  frame_accessed f fr = elim (m.accessed fr.metadata) [ none ↦ false | some a ↦ f a ]

  unfoldable pub recursive_is_cold : (List ℕ × List (ℕ × ℕ) → Bool) → Substate m → Bool
  recursive_is_cold f s = not (any_frame (frame_accessed f) (s.top ∷ s.parents))

  -- What `exit_commit` adds to the parent.
  abbrev pub merge_commit : Frame m → Frame m → Frame m
  merge_commit exited parent = record {
    metadata = parent.metadata;
    deletes = union parent.deletes exited.deletes;
    creates = union parent.creates exited.creates;
    logs = parent.logs ++ exited.logs;
  }

-- How a frame ends.
pub data Exit : Type 0 where
  commit revert discard : Exit

module _ (m : Metadata) {S : Type 0} (x : Externalities S) where
  -- The substate with the host's storage.
  pub record State : Type 0 where
    pub substate : Substate m
    pub ext : x.Ext

  unfoldable pub enter : ℕ → Bool → State → State
  enter gas_limit is_static s = record {
    substate = record {
      top = fresh_frame (m.spit_child s.substate.top.metadata gas_limit is_static);
      parents = s.substate.top ∷ s.substate.parents;
    };
    ext = x.start s.ext;
  }

  -- The outcome of an exit: `none` is the panic of `expect` on the root substate.
  abbrev pub Outcome : Type 0
  Outcome = Option (State × Result ExitError (Unit {0}))

  -- The rest of an exit after the metadata is merged: with an error (`?`) the storage transaction
  -- stays open.
  abbrev pub finish_exit :
      (Frame m → Frame m)
      → (x.Ext → x.Ext)
      → Frame m
      → List (Frame m)
      → x.Ext
      → m.M × Result ExitError (Unit {0})
      → State × Result ExitError (Unit {0})
  finish_exit merge close parent rest ext (metadata, ok _) = (
    record {
      substate = record { top = merge (record parent { metadata = metadata }); parents = rest };
      ext = close ext;
    },
    ok tt,
  )
  finish_exit merge close parent rest ext (metadata, err e) = (
    record {
      substate = record { top = record parent { metadata = metadata }; parents = rest };
      ext = ext;
    },
    err e,
  )

  abbrev pub exit_commit_from : Frame m → List (Frame m) → x.Ext → Outcome
  exit_commit_from exited [] ext = none
  exit_commit_from exited (parent ∷ rest) ext = some (
      finish_exit (merge_commit exited) x.commit parent rest ext
        (m.swallow_commit parent.metadata exited.metadata))

  abbrev pub exit_revert_from : Frame m → List (Frame m) → x.Ext → Outcome
  exit_revert_from exited [] ext = none
  exit_revert_from exited (parent ∷ rest) ext = some (
      finish_exit (λ f. f) x.rollback parent rest ext
        (m.swallow_revert parent.metadata exited.metadata))

  abbrev pub exit_discard_from : Frame m → List (Frame m) → x.Ext → Outcome
  exit_discard_from exited [] ext = none
  exit_discard_from exited (parent ∷ rest) ext = some (
      finish_exit (λ f. f) x.rollback parent rest ext
        (m.swallow_discard parent.metadata exited.metadata))

  unfoldable pub exit_commit : State → Outcome
  exit_commit s = exit_commit_from s.substate.top s.substate.parents s.ext

  unfoldable pub exit_revert : State → Outcome
  exit_revert s = exit_revert_from s.substate.top s.substate.parents s.ext

  unfoldable pub exit_discard : State → Outcome
  exit_discard s = exit_discard_from s.substate.top s.substate.parents s.ext

  abbrev pub exit : Exit → State → Outcome
  exit Exit.commit s = exit_commit s
  exit Exit.revert s = exit_revert s
  exit Exit.discard s = exit_discard s
