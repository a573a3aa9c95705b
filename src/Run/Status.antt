-- ===== src/Run/Status.antt =====
-- The run state machine of packages/control-plane/src/run/run-state-machine.ts.
use open_rush.Prelude.{
  ℕ, String, Bool, ◌||◌, List, [], ◌∷◌, ◌≡◌, refl, Equal, nat_beq, code_beq_iff, ◌==◌, includes,
  get_elem?, some, none,
}
use text.Mathlib.Text.{starts_with}

pub data RunStatus : Type 0 where
  queued provisioning preparing running : RunStatus
  finalizing_prepare finalizing_uploading finalizing_verifying : RunStatus
  finalizing_metadata_commit finalized completed failed worker_unreachable : RunStatus
  finalizing_retryable_failed finalizing_timeout finalizing_manual_intervention : RunStatus

-- The place of a status in the union type, by which two statuses are compared.
abbrev pub status_code : RunStatus → ℕ
status_code queued = 0
status_code provisioning = 1
status_code preparing = 2
status_code running = 3
status_code finalizing_prepare = 4
status_code finalizing_uploading = 5
status_code finalizing_verifying = 6
status_code finalizing_metadata_commit = 7
status_code finalized = 8
status_code completed = 9
status_code failed = 10
status_code worker_unreachable = 11
status_code finalizing_retryable_failed = 12
status_code finalizing_timeout = 13
status_code finalizing_manual_intervention = 14

abbrev pub all_statuses : List RunStatus
all_statuses =
    queued ∷ provisioning ∷ preparing ∷ running ∷ finalizing_prepare ∷ finalizing_uploading
    ∷ finalizing_verifying ∷ finalizing_metadata_commit ∷ finalized ∷ completed ∷ failed
    ∷ worker_unreachable ∷ finalizing_retryable_failed ∷ finalizing_timeout
    ∷ finalizing_manual_intervention ∷ []

pub status_of : ℕ → RunStatus
status_of n = elim (get_elem? all_statuses n) [ some s ↦ s | none ↦ queued ]

pub status_of-status_code : (s : RunStatus) → status_of (status_code s) ≡ s
unfolding status_of
status_of-status_code queued = refl
status_of-status_code _ = refl

abbrev pub status_beq : RunStatus → RunStatus → Bool
status_beq a b = nat_beq (status_code a) (status_code b)

instance abbrev pub status_eq : Equal RunStatus
status_eq = record {
  test = status_beq;
  agrees = code_beq_iff status_code status_of status_of-status_code;
}

-- The literal of a status.
abbrev pub status_text : RunStatus → String
status_text queued = "queued"
status_text provisioning = "provisioning"
status_text preparing = "preparing"
status_text running = "running"
status_text finalizing_prepare = "finalizing_prepare"
status_text finalizing_uploading = "finalizing_uploading"
status_text finalizing_verifying = "finalizing_verifying"
status_text finalizing_metadata_commit = "finalizing_metadata_commit"
status_text finalized = "finalized"
status_text completed = "completed"
status_text failed = "failed"
status_text worker_unreachable = "worker_unreachable"
status_text finalizing_retryable_failed = "finalizing_retryable_failed"
status_text finalizing_timeout = "finalizing_timeout"
status_text finalizing_manual_intervention = "finalizing_manual_intervention"

-- `TRANSITIONS`. Every status has a row, so the `?? []` of its readers is never taken.
unfoldable pub transitions : RunStatus → List RunStatus
transitions queued = provisioning ∷ failed ∷ []
transitions provisioning = preparing ∷ failed ∷ []
transitions preparing = running ∷ failed ∷ []
transitions running = finalizing_prepare ∷ failed ∷ worker_unreachable ∷ []
transitions worker_unreachable = running ∷ failed ∷ []
transitions finalizing_prepare = finalizing_uploading ∷ failed ∷ []
transitions finalizing_uploading = finalizing_verifying ∷ finalizing_retryable_failed ∷ failed ∷ []
transitions finalizing_verifying =
    finalizing_metadata_commit ∷ finalizing_retryable_failed ∷ failed ∷ []
transitions finalizing_metadata_commit = finalized ∷ failed ∷ []
transitions finalized = completed ∷ []
transitions finalizing_retryable_failed = finalizing_uploading ∷ finalizing_timeout ∷ []
transitions finalizing_timeout = finalizing_manual_intervention ∷ failed ∷ []
transitions finalizing_manual_intervention = failed ∷ []
transitions completed = []
transitions failed = queued ∷ []

unfoldable pub can_transition : RunStatus → RunStatus → Bool
unfolding transitions
can_transition from to = includes (transitions from) to

unfoldable pub is_terminal : RunStatus → Bool
is_terminal status = status == completed || status == failed

unfoldable pub is_finalizing : RunStatus → Bool
is_finalizing status = starts_with (status_text status) "finalizing_" || status == finalized
