-- ===== src/Evm/Substate/Tests.antt =====
-- Runs of nested frames.
use frontier.Base.{◌+◌, ◌*◌, ℕ, ◌≡◌, refl, false, none, some, List, [], ◌∷◌, nat_eq, arith}
use frontier.Evm.Weight.{ok}
use frontier.Evm.Substate.{
  Externalities, Metadata, Log, State, Exit, fresh_frame, enter, exit_commit, exit_revert,
  set_deleted, log,
}
use frontier.Evm.Substate.Trace.{Act, Acts, run_act, run_acts, IsBalanced, run_acts-IsBalanced}
use frontier.Evm.Substate.Rollback.{Undoes, Commits, frame-Undoes, exit_commit-Commits}

-- Externalities as a stack of the states to go back to.
abbrev drop_saved : ℕ × List ℕ → ℕ × List ℕ
drop_saved (s, []) = (s, [])
drop_saved (s, saved ∷ rest) = (s, rest)

abbrev restore : ℕ × List ℕ → ℕ × List ℕ
restore (s, []) = (s, [])
restore (s, saved ∷ rest) = (saved, rest)

restore-current : (x : ℕ × List ℕ) {s : ℕ} {r : List ℕ} → x.1 ≡ s ∷ r → (restore x).0 ≡ s
restore-current x h = ground arith

restore-saved : (x : ℕ × List ℕ) {s : ℕ} {r : List ℕ} → x.1 ≡ s ∷ r → (restore x).1 ≡ r
restore-saved x h = ground arith

drop_saved-current : (x : ℕ × List ℕ) {s : ℕ} {r : List ℕ} → x.1 ≡ s ∷ r → (drop_saved x).0 ≡ x.0
drop_saved-current x h = ground arith

drop_saved-saved : (x : ℕ × List ℕ) {s : ℕ} {r : List ℕ} → x.1 ≡ s ∷ r → (drop_saved x).1 ≡ r
drop_saved-saved x h = ground arith

abbrev stack : Externalities ℕ
stack = record {
  Ext = ℕ × List ℕ;
  current = λ x. x.0;
  saved = λ x. x.1;
  write = λ s x. (s, x.1);
  start = λ x. (x.0, x.0 ∷ x.1);
  commit = drop_saved;
  rollback = restore;
  current-write = λ s x. refl;
  saved-write = λ s x. refl;
  current-start = λ x. refl;
  saved-start = λ x. refl;
  current-commit = drop_saved-current;
  saved-commit = drop_saved-saved;
  current-rollback = restore-current;
  saved-rollback = restore-saved;
}

-- Metadata that count the frames that have ended.
abbrev counting : Metadata
counting = record {
  M = ℕ;
  spit_child = λ n gas is_static. 0;
  swallow_commit = λ n k. (n + k + 1, ok tt);
  swallow_revert = λ n k. (n + k + 1, ok tt);
  swallow_discard = λ n k. (n + k + 1, ok tt);
  accessed = λ n. none;
}

abbrev start : State counting stack
start = record { substate = record { top = fresh_frame 0; parents = [] }; ext = (5, []) }

abbrev note : Log
note = record { address = 9; topics = []; payload = 1 ∷ [] }

-- Write, log, and a frame inside that writes and reverts.
abbrev body : Acts ℕ
body = Acts.next (Act.store (λ s. s + 1)) (
    Acts.next (Act.emit note) (
      Acts.next (Act.delete 8) (
        Acts.next (Act.frame 100 false (Acts.next (Act.store (λ s. s * 10)) Acts.done) Exit.revert)
          Acts.done)))

committed_frame :
    run_act counting stack (Act.frame 500 false body Exit.commit) start
    ≡ some (
      record {
        substate = record {
          top = record { metadata = 2; deletes = 8 ∷ []; creates = []; logs = note ∷ [] };
          parents = [];
        };
        ext = (6, []);
      },
      ok tt,
    )
unfolding run_act enter exit_commit exit_revert log set_deleted
committed_frame = refl

run_acts-IsBalanced_example : IsBalanced counting stack start (run_acts counting stack body start)
run_acts-IsBalanced_example = run_acts-IsBalanced counting stack body start

frame-Undoes_example :
    Undoes counting stack start
      (run_act counting stack (Act.frame 500 false body Exit.revert) start)
frame-Undoes_example = frame-Undoes counting stack 500 false body Exit.revert start tt

abbrev inner : State counting stack
inner = record {
  substate = record {
    top = record { metadata = 0; deletes = 8 ∷ []; creates = []; logs = note ∷ [] };
    parents = record { metadata = 0; deletes = 7 ∷ []; creates = []; logs = note ∷ [] } ∷ [];
  };
  ext = (6, 5 ∷ []);
}

exit_commit-Commits_example :
    Commits counting stack inner
      (record { metadata = 0; deletes = 7 ∷ []; creates = []; logs = note ∷ [] })
      (exit_commit counting stack inner)
exit_commit-Commits_example = exit_commit-Commits counting stack inner refl refl
