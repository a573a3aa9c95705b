-- ===== src/Run/Tests.antt =====
-- Runs of the model of packages/control-plane/src/run/ on concrete rows.
use open_rush.Prelude.{
  ◌≤◌, ◌<◌, ◌||◌, String, true, false, List, [], ◌∷◌, ◌++◌, none, some, ◌≡◌, refl, ◌⊎◌, ◌==◌,
  string_eq, if◌then◌else◌, arith,
}
use open_rush.Run.Status.{
  status_eq, queued, provisioning, preparing, running, finalizing_prepare, finalizing_uploading,
  finalizing_verifying, finalizing_metadata_commit, finalized, completed, failed, can_transition,
  is_terminal,
}
use open_rush.Run.Contract.{is_valid_run_transition}
use open_rush.Run.Machine.{AllIn, only_published, only_decided, can_transition-is_valid}
use open_rush.Run.Db.{
  Run, CreateRunInput, no_updates, Rows, RunUpdates, create, update_status,
  find_latest_by_idempotency_key, new_row, apply_updates, write_row, find_by_id,
}
use open_rush.Run.Service.{
  run_not_found, scope_idempotency_key, only_failed_retry, max_retries_exceeded, invalid_transition,
  idempotency_conflict, ok, err, Idempotency, create_run_with_idempotency, transition_updates,
  transition_check, transition_write, transition, with_message, cancel_run, retry,
}
use open_rush.Run.Service.Transition.{transition_taken, transition-ok, transition-err}
use open_rush.Run.Service.Moves.{Op, create_op, transition_op, apply_op}
use open_rush.Run.Service.Valid.{apply_ops, IsValid, apply_ops-IsValid}
use open_rush.Run.Service.Passed.{shown, completed-passed}
use open_rush.Run.Service.Cancel.{
  cancelled_row, change_row, requeued_row, cancel_run_lem, retry_lem,
}
use open_rush.Run.Service.Race.{commit, lost_completion}
use open_rush.Run.Service.Replay.{
  since_of, fresh_row, create_run_with_idempotency_twice, create_run_with_idempotency-agent,
}

abbrev request : CreateRunInput
request = record {
  agent_id = "agent-1";
  prompt = "build it";
  task_id = none;
  conversation_id = none;
  parent_run_id = none;
  provider = none;
  connection_mode = none;
  model_id = none;
  trigger_source = none;
  agent_definition_version = some 2;
  idempotency_key = none;
  idempotency_request_hash = none;
}

abbrev life : List Op
life =
    create_op 10 "run-1" request none
    ∷ transition_op 11 "run-1" provisioning none
    ∷ transition_op 12 "run-1" preparing none
    ∷ transition_op 13 "run-1" running none
    ∷ transition_op 14 "run-1" finalizing_prepare none
    ∷ transition_op 15 "run-1" finalizing_uploading none
    ∷ transition_op 16 "run-1" finalizing_verifying none
    ∷ transition_op 17 "run-1" finalizing_metadata_commit none
    ∷ []

abbrev rest_of_life : List Op
rest_of_life =
    transition_op 18 "run-1" finalized none ∷ transition_op 19 "run-1" completed none ∷ []

abbrev one_run : Rows
one_run = new_row 10 "run-1" request ∷ []

abbrev committing : Run
committing = record (new_row 10 "run-1" request) { status = finalizing_metadata_commit }

abbrev finished : Run
finished = record (new_row 10 "run-1" request) {
  status = completed;
  updated_at = 19;
  started_at = some 13;
  completed_at = some 19;
}

whole_life : find_by_id "run-1" (apply_ops (life ++ rest_of_life) []) ≡ some finished
unfolding find_by_id apply_ops apply_op transition create_run_with_idempotency new_row apply_updates
    can_transition is_terminal write_row create update_status
whole_life = refl

apply_ops-IsValid_example : IsValid finished
apply_ops-IsValid_example = apply_ops-IsValid (life ++ rest_of_life) "run-1" finished whole_life

completed-passed_example :
    AllIn
      (queued ∷ provisioning ∷ preparing ∷ running ∷ finalizing_prepare ∷ finalizing_uploading
        ∷ finalizing_verifying ∷ finalizing_metadata_commit ∷ finalized ∷ [])
      (shown "run-1" (life ++ rest_of_life) [])
completed-passed_example = completed-passed (life ++ rest_of_life) "run-1" finished whole_life refl

can_transition-is_valid_example :
    (only_published queued failed ≡ true
      → (can_transition queued failed ≡ false) × (is_valid_run_transition queued failed ≡ true))
    × (only_decided queued failed ≡ true
        → (can_transition queued failed ≡ true) × (is_valid_run_transition queued failed ≡ false))
    × ((only_published queued failed || only_decided queued failed) ≡ false
        → can_transition queued failed ≡ is_valid_run_transition queued failed)
can_transition-is_valid_example = can_transition-is_valid queued failed

found_one : find_by_id "run-1" one_run ≡ some (new_row 10 "run-1" request)
unfolding find_by_id new_row
found_one = refl

queued_one : (new_row 10 "run-1" request).status ≡ queued
unfolding new_row
queued_one = refl

-- A queued run may be provisioned; a queued run may not be completed.
provisioned :
    let u = transition_updates 11 (new_row 10 "run-1" request) provisioning no_updates in
    transition 11 "run-1" provisioning no_updates one_run ≡ (
      ok (apply_updates 11 provisioning u (new_row 10 "run-1" request)),
      write_row 11 "run-1" provisioning u one_run,
    )
provisioned =
    transition_taken 11 "run-1" provisioning no_updates one_run (new_row 10 "run-1" request)
      found_one (unfold can_transition new_row in refl)

transition-ok_example :
    let u = transition_updates 11 (new_row 10 "run-1" request) provisioning no_updates in
    (run : Run) × (find_by_id "run-1" one_run ≡ some run)
    × (can_transition run.status provisioning ≡ true)
    × ((apply_updates 11 provisioning u (new_row 10 "run-1" request)).status ≡ provisioning)
    × ((j : String)
        → find_by_id j (write_row 11 "run-1" provisioning u one_run) ≡ (
            if "run-1" == j
            then some (apply_updates 11 provisioning u (new_row 10 "run-1" request))
            else find_by_id j one_run))
transition-ok_example =
    transition-ok 11 "run-1" provisioning no_updates one_run
      (write_row 11 "run-1" provisioning
        (transition_updates 11 (new_row 10 "run-1" request) provisioning no_updates) one_run)
      (apply_updates 11 provisioning
        (transition_updates 11 (new_row 10 "run-1" request) provisioning no_updates)
        (new_row 10 "run-1" request))
      provisioned

refused :
    transition 11 "run-1" completed no_updates one_run
    ≡ (err (invalid_transition queued completed), one_run)
unfolding transition new_row find_by_id can_transition
refused = refl

transition-err_example :
    (one_run ≡ one_run)
    × (((find_by_id "run-1" one_run ≡ none) × (invalid_transition queued completed ≡ run_not_found))
        ⊎ ((run : Run) × (find_by_id "run-1" one_run ≡ some run)
            × (can_transition run.status completed ≡ false)
            × (invalid_transition queued completed ≡ invalid_transition run.status completed)))
transition-err_example =
    transition-err 11 "run-1" completed no_updates one_run one_run
      (invalid_transition queued completed) refused

cancel_run_lem_example : cancel_run 20 "run-1" one_run ≡ (
  ok (cancelled_row 20 (new_row 10 "run-1" request)),
  change_row "run-1" (cancelled_row 20) one_run,
)
unfolding new_row
cancel_run_lem_example = cancel_run_lem 20 "run-1" one_run (new_row 10 "run-1" request) found_one

abbrev broken : Run
broken = record (new_row 10 "run-1" request) { status = failed; retry_count = 1 }

found_broken : find_by_id "run-1" (broken ∷ []) ≡ some broken
unfolding find_by_id new_row
found_broken = refl

retry_lem_example :
    ((broken.status == failed) ≡ false
      → retry 20 "run-1" (broken ∷ []) ≡ (err only_failed_retry, broken ∷ []))
    × ((broken.status == failed) ≡ true
        → broken.max_retries ≤ broken.retry_count
        → retry 20 "run-1" (broken ∷ []) ≡ (err max_retries_exceeded, broken ∷ []))
    × ((broken.status == failed) ≡ true
        → broken.retry_count < broken.max_retries
        → ((retry 20 "run-1" (broken ∷ [])).0 ≡ ok (requeued_row 20 broken))
          × ((j : String)
              → find_by_id j (retry 20 "run-1" (broken ∷ [])).1 ≡ (
                  if "run-1" == j
                  then some (requeued_row 20 broken)
                  else find_by_id j (broken ∷ []))))
retry_lem_example = retry_lem 20 "run-1" (broken ∷ []) broken found_broken

-- The failed run with a retry left is queued again.
retried :
    (retry 20 "run-1" (broken ∷ [])).0
    ≡ ok (record (new_row 10 "run-1" request) { status = queued; retry_count = 2; updated_at = 20 })
unfolding new_row
retried =
    let (other, spent, taken) = retry_lem 20 "run-1" (broken ∷ []) broken found_broken in
    (taken refl (omega arith)).0

found_committing : find_by_id "run-1" (committing ∷ []) ≡ some committing
unfolding find_by_id new_row
found_committing = refl

lost_completion_example :
    (u : RunUpdates) × (transition_check 20 "run-1" failed (with_message "x") (committing ∷ [])
      ≡ (ok u, committing ∷ []))
    × ((r : Run) × (find_by_id "run-1" (commit 20 "run-1" (committing ∷ [])) ≡ some r)
        × (r.status ≡ completed))
    × ((r : Run) × (find_by_id "run-1"
            (transition_write 20 "run-1" failed u (commit 20 "run-1" (committing ∷ []))).1
          ≡ some r)
        × (r.status ≡ failed))
    × (can_transition completed failed ≡ false)
lost_completion_example =
    lost_completion 20 "run-1" (with_message "x") (committing ∷ []) committing found_committing refl

abbrev keyed : Idempotency
keyed = record { key = "k"; request_hash = "h"; now_ms = none; window_ms = none }

abbrev rekeyed : Idempotency
rekeyed = record { key = "k"; request_hash = "other"; now_ms = none; window_ms = none }

nothing_found :
    find_latest_by_idempotency_key (scope_idempotency_key "agent-1" "k") (since_of 10 keyed) []
    ≡ none
unfolding find_latest_by_idempotency_key
nothing_found = refl

create_run_with_idempotency_twice_example :
    (r : Run) × (rows' : Rows) × (create_run_with_idempotency 10 "run-1" request (some keyed) []
      ≡ (ok r, rows'))
    × (rows' ≡ r ∷ [])
    × (create_run_with_idempotency 20 "run-2" request (some rekeyed) rows'
        ≡ (err (idempotency_conflict "k" "run-1" "h" "other"), rows'))
create_run_with_idempotency_twice_example =
    create_run_with_idempotency_twice 10 20 "run-1" "run-2" request request keyed rekeyed []
      nothing_found refl refl (omega arith) (omega arith)

first_created :
    create_run_with_idempotency 10 "run-1" request (some keyed) []
    ≡ (ok (fresh_row 10 "run-1" request keyed []), fresh_row 10 "run-1" request keyed [] ∷ [])
unfolding create_run_with_idempotency find_latest_by_idempotency_key new_row create
first_created = refl

create_run_with_idempotency-agent_example :
    (fresh_row 10 "run-1" request keyed []).agent_id ≡ request.agent_id
create_run_with_idempotency-agent_example =
    create_run_with_idempotency-agent 10 "run-1" request keyed []
      (fresh_row 10 "run-1" request keyed [] ∷ []) (fresh_row 10 "run-1" request keyed [])
      first_created
