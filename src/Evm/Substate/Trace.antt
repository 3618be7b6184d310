-- ===== src/Evm/Substate/Trace.antt =====
-- Executions as trees of nested frames over the substate of frame/evm/src/runner/stack.rs: what the
-- executor may do, and the frames and storage transactions that are open.
use frontier.Base.{ℕ, Bool, ◌≡◌, refl, ◌∙◌, none, some, List, ◌∷◌}
use frontier.Evm.Weight.{ExitError, Result, ok, err}
use frontier.Evm.Substate.{
  Externalities, Metadata, Log, Frame, Substate, State, Exit, enter, exit, exit_commit, exit_revert,
  exit_discard, set_deleted, set_created, log, Outcome, finish_exit, merge_commit,
}

-- One action of the executor: on the top frame, on the storage, or a whole nested frame.
mutual
  pub data Act (S : Type 0) : Type 0 where
    emit : Log → Act S
    delete : ℕ → Act S
    create : ℕ → Act S
    store : (S → S) → Act S
    frame : ℕ → Bool → Acts S → Exit → Act S

  pub data Acts (S : Type 0) : Type 0 where
    done : Acts S
    next : Act S → Acts S → Acts S

module _ (m : Metadata) {S : Type 0} (x : Externalities S) where
  -- Go on unless the outcome is an error or a panic.
  abbrev pub then_ok : Outcome m x → (State m x → Outcome m x) → Outcome m x
  then_ok none k = none
  then_ok (some (s, ok _)) k = k s
  then_ok (some (s, err e)) k = some (s, err e)

  abbrev pub on_substate : (Substate m → Substate m) → State m x → Outcome m x
  on_substate f s = some (record s { substate = f s.substate }, ok tt)

  unfoldable mutual
    pub run_act : Act S → State m x → Outcome m x
    run_act (Act.emit l) s = on_substate (log l) s
    run_act (Act.delete a) s = on_substate (set_deleted a) s
    run_act (Act.create a) s = on_substate (set_created a) s
    run_act (Act.store f) s = some (record s { ext = x.write (f (x.current s.ext)) s.ext }, ok tt)
    run_act (Act.frame gas is_static body e) s =
        then_ok (run_acts body (enter m x gas is_static s)) (exit m x e)

    pub run_acts : Acts S → State m x → Outcome m x
    run_acts Acts.done s = some (s, ok tt)
    run_acts (Acts.next a as') s = then_ok (run_act a s) (run_acts as')

  -- No panic; and after a success the parents and the open storage transactions are those of
  -- before.
  abbrev pub IsBalanced : State m x → Outcome m x → Type 0
  IsBalanced s none = ⊥
  IsBalanced s (some (s', ok _)) =
      (s'.substate.parents ≡ s.substate.parents) × (x.saved s'.ext ≡ x.saved s.ext)
  IsBalanced s (some (s', err _)) = Unit

  -- What an exit does when it succeeds: the parents below it and the outer transactions are left.
  abbrev Exits : List (Frame m) → List S → Outcome m x → Type 0
  Exits ps r none = ⊥
  Exits ps r (some (s', ok _)) = (s'.substate.parents ≡ ps) × (x.saved s'.ext ≡ r)
  Exits ps r (some (s', err _)) = Unit

  finish_exit-Exits :
      (merge : Frame m → Frame m) (close : x.Ext → x.Ext) (p : Frame m) (ps : List (Frame m))
      (ext : x.Ext) (merged : m.M × Result ExitError (Unit {0})) {r : List S}
      → x.saved (close ext) ≡ r
      → Exits ps r (some (finish_exit m x merge close p ps ext merged))
  finish_exit-Exits merge close p ps ext (metadata, ok _) h = (refl, h)
  finish_exit-Exits merge close p ps ext (metadata, err e) h = tt

  exit-Exits :
      (e : Exit) (s : State m x) {p : Frame m} {ps : List (Frame m)} {c : S} {r : List S}
      → s.substate.parents ≡ p ∷ ps
      → x.saved s.ext ≡ c ∷ r
      → Exits ps r (exit m x e s)
  unfolding exit_commit exit_revert exit_discard
  exit-Exits Exit.commit s {p} {ps} hp hs = rw hp (
      finish_exit-Exits (merge_commit s.substate.top) x.commit p ps s.ext
        (m.swallow_commit p.metadata s.substate.top.metadata) (x.saved-commit s.ext hs))
  exit-Exits Exit.revert s {p} {ps} hp hs = rw hp (
      finish_exit-Exits (λ f. f) x.rollback p ps s.ext
        (m.swallow_revert p.metadata s.substate.top.metadata) (x.saved-rollback s.ext hs))
  exit-Exits Exit.discard s {p} {ps} hp hs = rw hp (
      finish_exit-Exits (λ f. f) x.rollback p ps s.ext
        (m.swallow_discard p.metadata s.substate.top.metadata) (x.saved-rollback s.ext hs))

  Exits-IsBalanced :
      (s : State m x) (o : Outcome m x)
      → Exits s.substate.parents (x.saved s.ext) o
      → IsBalanced s o
  Exits-IsBalanced s none h = h
  Exits-IsBalanced s (some (s', ok _)) h = h
  Exits-IsBalanced s (some (s', err _)) h = h

  -- A body that is balanced from the entered state, followed by an exit.
  exit-IsBalanced :
      (gas : ℕ) (is_static : Bool) (e : Exit) (s : State m x) (o : Outcome m x)
      → IsBalanced (enter m x gas is_static s) o
      → IsBalanced s (then_ok o (exit m x e))
  unfolding enter
  exit-IsBalanced gas is_static e s none h = h
  exit-IsBalanced gas is_static e s (some (s', ok _)) h =
      Exits-IsBalanced s (exit m x e s') (exit-Exits e s' h.0 (h.1 ∙ x.saved-start s.ext))
  exit-IsBalanced gas is_static e s (some (s', err _)) h = tt

  then_ok-IsBalanced :
      (s : State m x) (o : Outcome m x) (k : State m x → Outcome m x)
      → IsBalanced s o
      → ((s' : State m x) → IsBalanced s' (k s'))
      → IsBalanced s (then_ok o k)
  then_ok-IsBalanced s none k h rest = h
  then_ok-IsBalanced s (some (s', err _)) k h rest = tt
  then_ok-IsBalanced s (some (s', ok _)) k h rest = go (k s') (rest s')
    where
      go : (o : Outcome m x) → IsBalanced s' o → IsBalanced s o
      go none b = b
      go (some (s'', ok _)) b = (b.0 ∙ h.0, b.1 ∙ h.1)
      go (some (s'', err _)) b = tt

  mutual
    unfolding run_act set_deleted set_created log

    act-IsBalanced : (a : Act S) (s : State m x) → IsBalanced s (run_act a s)
    act-IsBalanced (Act.emit l) s = (refl, refl)
    act-IsBalanced (Act.delete a) s = (refl, refl)
    act-IsBalanced (Act.create a) s = (refl, refl)
    act-IsBalanced (Act.store f) s = (refl, x.saved-write _ s.ext)
    act-IsBalanced (Act.frame gas is_static body e) s =
        exit-IsBalanced gas is_static e s _ (acts-IsBalanced body (enter m x gas is_static s))

    acts-IsBalanced : (as' : Acts S) (s : State m x) → IsBalanced s (run_acts as' s)
    acts-IsBalanced Acts.done s = (refl, refl)
    acts-IsBalanced (Acts.next a as') s =
        then_ok-IsBalanced s (run_act a s) (run_acts as') (act-IsBalanced a s)
          (λ s'. acts-IsBalanced as' s')

  -- Any tree of nested frames, from any state: no exit meets the root substate (`expect` does not
  -- panic), and a run that succeeds leaves as many parents and open storage transactions as it
  -- found, with the same contents.
  pub run_acts-IsBalanced : (acts : Acts S) (s : State m x) → IsBalanced s (run_acts acts s)
  run_acts-IsBalanced acts s = acts-IsBalanced acts s
