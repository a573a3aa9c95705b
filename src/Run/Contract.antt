-- ===== src/Run/Contract.antt =====
-- The run statuses as packages/contracts/src/enums.ts publishes them.
use open_rush.Prelude.{Bool, List, [], ◌∷◌, includes}
use open_rush.Run.Status.{
  RunStatus, queued, provisioning, preparing, running, finalizing_prepare, finalizing_uploading,
  finalizing_verifying, finalizing_metadata_commit, finalized, completed, failed,
  worker_unreachable, finalizing_retryable_failed, finalizing_timeout,
  finalizing_manual_intervention, status_eq,
}

-- `VALID_RUN_TRANSITIONS`
unfoldable pub valid_run_transitions : RunStatus → List RunStatus
valid_run_transitions queued = provisioning ∷ failed ∷ []
valid_run_transitions provisioning = preparing ∷ failed ∷ []
valid_run_transitions preparing = running ∷ failed ∷ []
valid_run_transitions running = finalizing_prepare ∷ failed ∷ worker_unreachable ∷ []
valid_run_transitions finalizing_prepare =
    finalizing_uploading ∷ failed ∷ finalizing_retryable_failed ∷ []
valid_run_transitions finalizing_uploading =
    finalizing_verifying ∷ failed ∷ finalizing_retryable_failed ∷ []
valid_run_transitions finalizing_verifying =
    finalizing_metadata_commit ∷ failed ∷ finalizing_retryable_failed ∷ []
valid_run_transitions finalizing_metadata_commit =
    finalized ∷ failed ∷ finalizing_retryable_failed ∷ []
valid_run_transitions finalized = completed ∷ []
valid_run_transitions completed = []
valid_run_transitions failed = queued ∷ []
valid_run_transitions worker_unreachable = failed ∷ running ∷ []
valid_run_transitions finalizing_retryable_failed = finalizing_uploading ∷ finalizing_timeout ∷ []
valid_run_transitions finalizing_timeout = finalizing_manual_intervention ∷ []
valid_run_transitions finalizing_manual_intervention = failed ∷ []

-- `isValidRunTransition`
unfoldable pub is_valid_run_transition : RunStatus → RunStatus → Bool
unfolding valid_run_transitions
is_valid_run_transition from to = includes (valid_run_transitions from) to

-- `TERMINAL_RUN_STATUSES`
unfoldable pub terminal_run_statuses : List RunStatus
terminal_run_statuses = completed ∷ []

-- `RETRYABLE_RUN_STATUSES`
unfoldable pub retryable_run_statuses : List RunStatus
retryable_run_statuses = failed ∷ []
