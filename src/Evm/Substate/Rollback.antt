-- ===== src/Evm/Substate/Rollback.antt =====
-- The exits of a frame in frame/evm/src/runner/stack.rs: what shows after a commit, a revert and a
-- discard.
use frontier.Base.{
  ℕ, Bool, ◌≡◌, refl, sym, subst, ◌∙◌, none, some, List, ◌∷◌, ◌++◌, arith, contains-union, nat_eq,
}
use frontier.Evm.Weight.{ExitError, Result, ok, err}
use frontier.Evm.Substate.{
  Externalities, Metadata, Frame, State, Exit, enter, exit, exit_commit, exit_revert, exit_discard,
  Outcome, exit_commit_from, finish_exit, deleted, created, merge_commit,
}
use frontier.Evm.Substate.Trace.{
  Act, Acts, then_ok, run_act, run_acts, IsBalanced, run_acts-IsBalanced,
}

module _ (m : Metadata) {S : Type 0} (x : Externalities S) where
  -- What the top frame and the storage show is as in `s`.
  pub record SameView (s s' : State m x) : Type 0 where
    pub storage : x.current s'.ext ≡ x.current s.ext
    pub logs : s'.substate.top.logs ≡ s.substate.top.logs
    pub deletes : s'.substate.top.deletes ≡ s.substate.top.deletes
    pub creates : s'.substate.top.creates ≡ s.substate.top.creates
    pub parents : s'.substate.parents ≡ s.substate.parents

  -- After a success the view is that of `s`; there is no panic.
  abbrev pub Undoes : State m x → Outcome m x → Type 0
  Undoes s none = ⊥
  Undoes s (some (s', ok _)) = SameView s s'
  Undoes s (some (s', err _)) = Unit

  finish_exit-Undoes :
      (s : State m x) (ext : x.Ext) (merged : m.M × Result ExitError (Unit {0}))
      → x.current (x.rollback ext) ≡ x.current s.ext
      → Undoes s
          (some (finish_exit m x (λ f. f) x.rollback s.substate.top s.substate.parents ext merged))
  finish_exit-Undoes s ext (metadata, ok _) h = record {
    storage = h;
    logs = refl;
    deletes = refl;
    creates = refl;
    parents = refl;
  }
  finish_exit-Undoes s ext (metadata, err e) h = tt

  abbrev pub RollsBack : Exit → Type 0
  RollsBack Exit.commit = ⊥
  RollsBack Exit.revert = Unit
  RollsBack Exit.discard = Unit

  exit-Undoes :
      (gas : ℕ) (is_static : Bool) (e : Exit) (s : State m x) (o : Outcome m x)
      → RollsBack e
      → IsBalanced m x (enter m x gas is_static s) o
      → Undoes s (then_ok m x o (exit m x e))
  unfolding enter exit_revert exit_discard
  exit-Undoes gas is_static e s none b h = h
  exit-Undoes gas is_static e s (some (s', err _)) b h = tt
  exit-Undoes gas is_static Exit.commit s (some (s', ok _)) b h = absurd b
  exit-Undoes gas is_static Exit.revert s (some (s', ok _)) b h = rw h.0 (
      finish_exit-Undoes s s'.ext
        (m.swallow_revert s.substate.top.metadata s'.substate.top.metadata)
        (x.current-rollback s'.ext (h.1 ∙ x.saved-start s.ext)))
  exit-Undoes gas is_static Exit.discard s (some (s', ok _)) b h = rw h.0 (
      finish_exit-Undoes s s'.ext
        (m.swallow_discard s.substate.top.metadata s'.substate.top.metadata)
        (x.current-rollback s'.ext (h.1 ∙ x.saved-start s.ext)))

  -- A frame that ends by a revert or a discard, whatever ran inside it, nested frames included:
  -- if it ends without an error, then storage, logs, deletions, creations and parents are those of
  -- before the frame.
  pub frame-Undoes :
      (gas : ℕ) (is_static : Bool) (body : Acts S) (e : Exit) (s : State m x)
      → RollsBack e
      → Undoes s (run_act m x (Act.frame gas is_static body e) s)
  unfolding run_act
  frame-Undoes gas is_static body e s b =
      exit-Undoes gas is_static e s (run_acts m x body (enter m x gas is_static s)) b
        (run_acts-IsBalanced m x body (enter m x gas is_static s))

  -- What a commit shows: the answers to `deleted` and `created` stay, storage stays, and the logs
  -- of the frame follow those of its parent.
  abbrev pub Commits : State m x → Frame m → Outcome m x → Type 0
  Commits s p none = ⊥
  Commits s p (some (s', ok _)) =
      ((a : ℕ) → deleted a s'.substate ≡ deleted a s.substate)
      × ((a : ℕ) → created a s'.substate ≡ created a s.substate)
      × (x.current s'.ext ≡ x.current s.ext)
      × (s'.substate.top.logs ≡ p.logs ++ s.substate.top.logs)
  Commits s p (some (s', err _)) = Unit

  finish_exit-Commits :
      (s : State m x) (p : Frame m) (ps : List (Frame m))
      (merged : m.M × Result ExitError (Unit {0}))
      → s.substate.parents ≡ p ∷ ps
      → x.current (x.commit s.ext) ≡ x.current s.ext
      → Commits s p
          (some (finish_exit m x (merge_commit s.substate.top) x.commit p ps s.ext merged))
  unfolding deleted created
  finish_exit-Commits s p ps (metadata, ok _) hp h = (
    λ a. rw (hp, contains-union p.deletes s.substate.top.deletes a) (ground arith),
    λ a. rw (hp, contains-union p.creates s.substate.top.creates a) (ground arith),
    h,
    refl,
  )
  finish_exit-Commits s p ps (metadata, err e) hp h = tt

  -- `exit_commit` below a parent, with a storage transaction open: unless merging the metadata
  -- fails, `deleted` and `created` answer as before for every address, the storage that is read
  -- stays, and the logs are the parent's followed by the frame's.
  pub exit_commit-Commits :
      (s : State m x) {p : Frame m} {ps : List (Frame m)} {c : S} {r : List S}
      → s.substate.parents ≡ p ∷ ps
      → x.saved s.ext ≡ c ∷ r
      → Commits s p (exit_commit m x s)
  unfolding exit_commit
  exit_commit-Commits s {p} {ps} hp hs =
      subst (λ fs. Commits s p (exit_commit_from m x s.substate.top fs s.ext)) (sym hp)
        (finish_exit-Commits s p ps (m.swallow_commit p.metadata s.substate.top.metadata) hp
          (x.current-commit s.ext hs))
