-- ===== src/Run/Service/Cancel.antt =====
-- `RunService.cancelRun` and `RunService.retry`: their status matrices (run-service.ts).
use open_rush.Prelude.{
  ℕ, ◌+◌, ◌≤◌, ◌<◌, String, true, [], ◌∷◌, none, map, ◌||◌, ap, false, some, ◌≡◌, refl, inl, inr,
  if◌then◌else◌, ◌==◌, ==-eq, ◌∙◌, string_eq, nat_eq, arith, leb, Bool-cases, not,
}
use open_rush.Run.Status.{
  RunStatus, queued, completed, failed, finalized, finalizing_retryable_failed, status_eq,
  can_transition, is_terminal,
}
use open_rush.Run.Db.{Run, RunUpdates, Rows, apply_updates, write_row, find_by_id}
use open_rush.Run.Service.{
  run_already_terminal, run_cannot_cancel, only_failed_retry, max_retries_exceeded, ok, err,
  transition_updates, cancelled_message, with_message, cancel_check, cancel_run, retry_check,
  retry_updates, retry,
}
use mathlib.Core.Path.{subst}
use open_rush.Run.DbLaws.{find-write}
use open_rush.Run.Service.Transition.{transition_taken}

cancel_check_lem :
    (i : String) (s : RunStatus)
    → cancel_check i s ≡ (
        if s == completed || s == failed || s == finalized
        then err (run_already_terminal i s)
        else if s == finalizing_retryable_failed
        then err (run_cannot_cancel i s)
        else ok tt)
unfolding cancel_check can_transition
cancel_check_lem i queued = refl
cancel_check_lem i _ = refl

cancel_edge :
    (s : RunStatus)
    → (s == completed || s == failed || s == finalized) ≡ false
    → (s == finalizing_retryable_failed) ≡ false
    → can_transition s failed ≡ true
unfolding can_transition
cancel_edge queued h k = refl
cancel_edge s h k = ground arith

-- What a cancellation writes.
abbrev pub cancel_updates : ℕ → RunUpdates
cancel_updates now = record (with_message cancelled_message) { completed_at = some now }

transition_updates-failed :
    (now : ℕ) (run : Run) (text : String)
    → transition_updates now run failed (with_message text)
      ≡ record (with_message text) { completed_at = some now }
unfolding transition_updates is_terminal
transition_updates-failed now run text = refl

-- A row that a user has cancelled.
abbrev pub cancelled_row : ℕ → Run → Run
cancelled_row now r = record r {
  status = failed;
  error_message = some "cancelled by user";
  completed_at = some now;
  updated_at = now;
}

-- The rows with the row of an id changed.
abbrev pub change_row : String → (Run → Run) → Rows → Rows
change_row i change rows = map (λ r. if r.id == i then change r else r) rows

write_row-change_row :
    (now : ℕ) (i : String) (to : RunStatus) (u : RunUpdates) (rows : Rows)
    → write_row now i to u rows ≡ change_row i (apply_updates now to u) rows
unfolding write_row
write_row-change_row now i to u [] = refl
write_row-change_row now i to u (r ∷ rows) =
    ap (λ rest. (if r.id == i then apply_updates now to u r else r) ∷ rest)
      (write_row-change_row now i to u rows)

apply_updates-cancelled :
    (now : ℕ) (run : Run)
    → apply_updates now failed (cancel_updates now) run ≡ cancelled_row now run
unfolding apply_updates
apply_updates-cancelled now run = refl

cancelled_table :
    (now : ℕ) (i : String) (rows : Rows)
    → write_row now i failed (cancel_updates now) rows ≡ change_row i (cancelled_row now) rows
unfolding apply_updates
cancelled_table now i rows = write_row-change_row now i failed (cancel_updates now) rows

-- Cancelling a run that exists: in completed, failed and finalized it reports that the run is
-- over, in finalizing_retryable_failed that it cannot be cancelled, and both leave the table as
-- it was; in each of the other eleven statuses it makes the run failed, with the message
-- "cancelled by user", an end time and a new time of update, and changes nothing else in the run
-- and in the table.
pub cancel_run_lem :
    (now : ℕ) (i : String) (rows : Rows) (run : Run)
    → find_by_id i rows ≡ some run
    → cancel_run now i rows ≡ (
        if run.status == completed || run.status == failed || run.status == finalized
        then (err (run_already_terminal i run.status), rows)
        else if run.status == finalizing_retryable_failed
        then (err (run_cannot_cancel i run.status), rows)
        else (ok (cancelled_row now run), change_row i (cancelled_row now) rows))
unfolding cancel_run
cancel_run_lem now i rows run found =
    elim (Bool-cases (run.status == completed || run.status == failed || run.status == finalized)) [
      | inl over ↦ rw over (ground (arith, rw over at (cancel_check_lem i run.status)))
      | inr live ↦ elim (Bool-cases (run.status == finalizing_retryable_failed)) [
        | inl waits ↦
            rw (live, waits) (ground (arith, rw (live, waits) at (cancel_check_lem i run.status)))
        | inr free ↦
            rw (live, free)
              (ground (
                arith,
                rw (live, free) at (cancel_check_lem i run.status),
                transition_taken now i failed (with_message cancelled_message) rows run found
                    (cancel_edge run.status live free),
                transition_updates-failed now run cancelled_message,
                apply_updates-cancelled now run,
                cancelled_table now i rows,
              ))
      ]
    ]

retry_check_lem :
    (run : Run)
    → retry_check run ≡ (
        if not (run.status == failed)
        then err only_failed_retry
        else if leb run.max_retries run.retry_count
        then err max_retries_exceeded
        else ok tt)
unfolding retry_check
retry_check_lem run = refl

retry_edge : (s : RunStatus) → (s == failed) ≡ true → can_transition s queued ≡ true
unfolding can_transition
retry_edge queued h = cc
retry_edge s h = ground arith

transition_updates-queued :
    (now : ℕ) (run : Run)
    → transition_updates now run queued (retry_updates run) ≡ retry_updates run
unfolding transition_updates is_terminal
transition_updates-queued now run = refl

-- A row that is run again.
abbrev pub requeued_row : ℕ → Run → Run
requeued_row now r = record r {
  status = queued;
  retry_count = r.retry_count + 1;
  error_message = none;
  updated_at = now;
}

apply_updates-requeued :
    (now : ℕ) (run : Run) → apply_updates now queued (retry_updates run) run ≡ requeued_row now run
unfolding apply_updates
apply_updates-requeued now run = refl

module _ (now : ℕ) (i : String) (rows : Rows) (run : Run)
    (found : find_by_id i rows ≡ some run) where
  retry_other : (run.status == failed) ≡ false → retry now i rows ≡ (err only_failed_retry, rows)
  unfolding retry
  retry_other other = ground (arith, retry_check_lem run)

  retry_spent :
      (run.status == failed) ≡ true
      → run.max_retries ≤ run.retry_count
      → retry now i rows ≡ (err max_retries_exceeded, rows)
  unfolding retry
  retry_spent was_failed spent =
      let full : leb run.max_retries run.retry_count ≡ true = ground arith in
      ground (arith, rw (was_failed, full) at (retry_check_lem run))

  retry_taken :
      (run.status == failed) ≡ true
      → run.retry_count < run.max_retries
      → retry now i rows
        ≡ (ok (requeued_row now run), write_row now i queued (retry_updates run) rows)
  unfolding retry
  retry_taken was_failed left =
      let room : leb run.max_retries run.retry_count ≡ false = ground arith in
      ground (
        arith,
        rw (was_failed, room) at (retry_check_lem run),
        transition_taken now i queued (retry_updates run) rows run found
            (retry_edge run.status was_failed),
        transition_updates-queued now run,
        apply_updates-requeued now run,
      )

  find-requeued :
      (j : String)
      → find_by_id j (write_row now i queued (retry_updates run) rows)
        ≡ (if i == j then some (requeued_row now run) else find_by_id j rows)
  find-requeued j = elim (Bool-cases (i == j)) [
    | inl same ↦
        let found' : find_by_id j rows ≡ some run =
          subst (λ k. find_by_id k rows ≡ some run) (==-eq i j same) found in
        find-write now i j queued (retry_updates run) rows
        ∙ rw (same, found') (ap (λ r. some r) (apply_updates-requeued now run))
    | inr other ↦ find-write now i j queued (retry_updates run) rows ∙ rw other refl
  ]

-- Retrying a run that exists succeeds exactly if the run is failed and has retries left. Then it
-- is queued, with one retry more, no error message and a new time of update, and is as before
-- otherwise; a look-up by its id then finds it so, and one by another id finds what it found
-- before. Otherwise the table stays as it was.
pub retry_lem :
    (now : ℕ) (i : String) (rows : Rows) (run : Run)
    → find_by_id i rows ≡ some run
    → ((run.status == failed) ≡ false → retry now i rows ≡ (err only_failed_retry, rows))
      × ((run.status == failed) ≡ true
          → run.max_retries ≤ run.retry_count
          → retry now i rows ≡ (err max_retries_exceeded, rows))
      × ((run.status == failed) ≡ true
          → run.retry_count < run.max_retries
          → ((retry now i rows).0 ≡ ok (requeued_row now run))
            × ((j : String)
                → find_by_id j (retry now i rows).1
                  ≡ (if i == j then some (requeued_row now run) else find_by_id j rows)))
retry_lem now i rows run found = (
  λ other. retry_other now i rows run found other,
  λ was_failed spent. retry_spent now i rows run found was_failed spent,
  λ was_failed left.
      let e = retry_taken now i rows run found was_failed left in
      (ap (λ p. p.0) e, λ j. ap (λ p. find_by_id j p.1) e ∙ find-requeued now i rows run found j),
)
