-- ===== src/Run/Service/Race.antt =====
-- `RunService.transition` (run-service.ts) reads a row, decides, and then writes by the id alone.
-- Here another writer comes between the decision and the write.
use open_rush.Prelude.{ℕ, String, true, false, some, ◌≡◌, refl, arith, eq_iff}
use open_rush.Run.Status.{
  RunStatus, finalizing_metadata_commit, finalized, completed, failed, can_transition,
}
use open_rush.Run.Db.{Run, RunUpdates, no_updates, Rows, apply_updates, find_by_id}
use open_rush.Run.DbLaws.{find-write}
use open_rush.Run.Service.{ok, transition_updates, transition_check, transition_write, transition}
use open_rush.Run.Service.Transition.{transition_taken, transition_write_lem}

transition_check_lem :
    (now : ℕ) (i : String) (to : RunStatus) (extra : RunUpdates) (rows : Rows) (run : Run)
    → find_by_id i rows ≡ some run
    → can_transition run.status to ≡ true
    → transition_check now i to extra rows ≡ (ok (transition_updates now run to extra), rows)
unfolding transition_check
transition_check_lem now i to extra rows run found e = ground arith

-- The row that a write leaves.
find-transition_write :
    (now : ℕ) (i : String) (to : RunStatus) (u : RunUpdates) (rows : Rows) (run : Run)
    → find_by_id i rows ≡ some run
    → find_by_id i (transition_write now i to u rows).1 ≡ some (apply_updates now to u run)
find-transition_write now i to u rows run found = ground (
  arith,
  transition_write_lem now i to u rows run found,
  find-write now i i to u rows,
  eq_iff i i,
)

find-transition :
    (now : ℕ) (i : String) (to : RunStatus) (extra : RunUpdates) (rows : Rows) (run : Run)
    → find_by_id i rows ≡ some run
    → can_transition run.status to ≡ true
    → find_by_id i (transition now i to extra rows).1
      ≡ some (apply_updates now to (transition_updates now run to extra) run)
find-transition now i to extra rows run found e = ground (
  arith,
  transition_taken now i to extra rows run found e,
  find-write now i i to (transition_updates now run to extra) rows,
  eq_iff i i,
)

status-apply_updates :
    (now : ℕ) (to : RunStatus) (u : RunUpdates) (run : Run)
    → (apply_updates now to u run).status ≡ to
unfolding apply_updates
status-apply_updates now to u run = refl

-- The table after the orchestrator's last two transitions.
abbrev pub commit : ℕ → String → Rows → Rows
commit now i rows =
    (transition now i completed no_updates (transition now i finalized no_updates rows).1).1

commit_edge : (s : RunStatus) → s ≡ finalizing_metadata_commit → can_transition s finalized ≡ true
unfolding can_transition
commit_edge s e = rw e refl

finalized_edge : (s : RunStatus) → s ≡ finalized → can_transition s completed ≡ true
unfolding can_transition
finalized_edge s e = rw e refl

fail_edge : (s : RunStatus) → s ≡ finalizing_metadata_commit → can_transition s failed ≡ true
unfolding can_transition
fail_edge s e = rw e refl

completed_edge : can_transition completed failed ≡ false
unfolding can_transition
completed_edge = refl

find-commit :
    (now : ℕ) (i : String) (rows : Rows) (run : Run)
    → find_by_id i rows ≡ some run
    → run.status ≡ finalizing_metadata_commit
    → (r : Run) × (find_by_id i (commit now i rows) ≡ some r) × (r.status ≡ completed)
find-commit now i rows run found at =
    let u = transition_updates now run finalized no_updates in
    let mid = apply_updates now finalized u run in
    let first =
      find-transition now i finalized no_updates rows run found (commit_edge run.status at) in
    let v = transition_updates now mid completed no_updates in
    (
      apply_updates now completed v mid,
      find-transition now i completed no_updates (transition now i finalized no_updates rows).1 mid
          first (finalized_edge mid.status (status-apply_updates now finalized u run)),
      status-apply_updates now completed v mid,
    )

-- A run in finalizing_metadata_commit, whose transition to failed is decided before the
-- orchestrator commits the run and written after, ends as failed although it was completed
-- before the write, and the machine has no edge from completed to failed.
pub lost_completion :
    (now : ℕ) (i : String) (extra : RunUpdates) (rows : Rows) (run : Run)
    → find_by_id i rows ≡ some run
    → run.status ≡ finalizing_metadata_commit
    → let rows' = commit now i rows in
      (u : RunUpdates) × (transition_check now i failed extra rows ≡ (ok u, rows))
      × ((r : Run) × (find_by_id i rows' ≡ some r) × (r.status ≡ completed))
      × ((r : Run) × (find_by_id i (transition_write now i failed u rows').1 ≡ some r)
          × (r.status ≡ failed))
      × (can_transition completed failed ≡ false)
lost_completion now i extra rows run found at =
    let u = transition_updates now run failed extra in
    let done = find-commit now i rows run found at in
    (
      u,
      transition_check_lem now i failed extra rows run found (fail_edge run.status at),
      done,
      (
        apply_updates now failed u done.0,
        find-transition_write now i failed u (commit now i rows) done.0 done.1,
        status-apply_updates now failed u done.0,
      ),
      completed_edge,
    )
