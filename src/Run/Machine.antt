-- ===== src/Run/Machine.antt =====
-- What the run state machine guarantees (run-state-machine.ts), and where the published one of
-- packages/contracts/src/enums.ts differs from it.
use open_rush.Prelude.{
  Bool, true, false, ◌||◌, ◌&&◌, List, [], ◌∷◌, ◌≡◌, refl, ◌↔◌, ◌⊎◌, inl, inr, includes, all, All,
  ◌==◌, arith, Bool-cases, ==-eq,
}
use open_rush.Run.Status.{
  RunStatus, queued, provisioning, preparing, running, finalizing_prepare, finalizing_uploading,
  finalizing_verifying, finalizing_metadata_commit, finalized, completed, failed,
  worker_unreachable, finalizing_retryable_failed, finalizing_timeout,
  finalizing_manual_intervention, status_eq, can_transition, is_terminal, is_finalizing,
}
use open_rush.Run.Contract.{is_valid_run_transition, terminal_run_statuses, retryable_run_statuses}

-- A life of a run: the statuses that it has had, the latest first, each reached from the one
-- before by an edge of the machine.
pub data History : RunStatus → List RunStatus → Type 0 where
  created : History queued (queued ∷ [])
  moved :
      {s t : RunStatus} {l : List RunStatus}
      → History s l
      → can_transition s t ≡ true
      → History t (t ∷ l)

-- The statuses that a run has had whenever it is in the given one.
abbrev pub passed : RunStatus → List RunStatus
passed queued = queued ∷ []
passed provisioning = provisioning ∷ queued ∷ []
passed preparing = preparing ∷ provisioning ∷ queued ∷ []
passed running = running ∷ preparing ∷ provisioning ∷ queued ∷ []
passed worker_unreachable = running ∷ preparing ∷ provisioning ∷ queued ∷ []
passed finalizing_prepare = finalizing_prepare ∷ running ∷ preparing ∷ provisioning ∷ queued ∷ []
passed finalizing_uploading =
    finalizing_uploading ∷ finalizing_prepare ∷ running ∷ preparing ∷ provisioning ∷ queued ∷ []
passed finalizing_retryable_failed =
    finalizing_uploading ∷ finalizing_prepare ∷ running ∷ preparing ∷ provisioning ∷ queued ∷ []
passed finalizing_timeout =
    finalizing_uploading ∷ finalizing_prepare ∷ running ∷ preparing ∷ provisioning ∷ queued ∷ []
passed finalizing_manual_intervention =
    finalizing_uploading ∷ finalizing_prepare ∷ running ∷ preparing ∷ provisioning ∷ queued ∷ []
passed finalizing_verifying =
    finalizing_verifying ∷ finalizing_uploading ∷ finalizing_prepare ∷ running ∷ preparing
    ∷ provisioning ∷ queued ∷ []
passed finalizing_metadata_commit =
    finalizing_metadata_commit ∷ finalizing_verifying ∷ finalizing_uploading ∷ finalizing_prepare
    ∷ running ∷ preparing ∷ provisioning ∷ queued ∷ []
passed finalized =
    finalized ∷ finalizing_metadata_commit ∷ finalizing_verifying ∷ finalizing_uploading
    ∷ finalizing_prepare ∷ running ∷ preparing ∷ provisioning ∷ queued ∷ []
passed completed =
    completed ∷ finalized ∷ finalizing_metadata_commit ∷ finalizing_verifying ∷ finalizing_uploading
    ∷ finalizing_prepare ∷ running ∷ preparing ∷ provisioning ∷ queued ∷ []
passed failed = queued ∷ []

-- Every status of `xs` stands in `l`.
abbrev pub AllIn : List RunStatus → List RunStatus → Type 0
AllIn xs l = All (λ v. includes l v ≡ true) xs

abbrev pub extends : RunStatus → List RunStatus → List RunStatus → Bool
extends t old new = all (λ v. t == v || includes old v) new

pub edge-passed :
    (s t : RunStatus) → can_transition s t ≡ true → extends t (passed s) (passed t) ≡ true
unfolding can_transition
edge-passed queued t h = ground arith
edge-passed _ t h = ground arith

pub includes_of_AllIn :
    (old l : List RunStatus) (v : RunStatus)
    → AllIn old l
    → includes old v ≡ true
    → includes l v ≡ true
includes_of_AllIn [] l v k h = cc
includes_of_AllIn (x ∷ xs) l v k h = elim (Bool-cases (x == v)) [
  | inl same ↦ rw (==-eq x v same) at k.0
  | inr other ↦ includes_of_AllIn xs l v k.1 (rw other at h)
]

-- The statuses for which `is_finalizing` answers true.
abbrev finalizing_flag : RunStatus → Bool
finalizing_flag finalizing_prepare = true
finalizing_flag finalizing_uploading = true
finalizing_flag finalizing_verifying = true
finalizing_flag finalizing_metadata_commit = true
finalizing_flag finalized = true
finalizing_flag finalizing_retryable_failed = true
finalizing_flag finalizing_timeout = true
finalizing_flag finalizing_manual_intervention = true
finalizing_flag _ = false

is_finalizing_lem : (s : RunStatus) → is_finalizing s ≡ finalizing_flag s
unfolding is_finalizing
is_finalizing_lem queued = refl
is_finalizing_lem _ = refl

-- A run that is finalizing stays so, by every legal transition, until it is completed or failed.
is_finalizing-step :
    (s t : RunStatus)
    → is_finalizing s ≡ true
    → can_transition s t ≡ true
    → (is_finalizing t ≡ true) ⊎ (is_terminal t ≡ true)
unfolding can_transition is_terminal
is_finalizing-step queued t h e = ground (arith, is_finalizing_lem queued)
is_finalizing-step s t h e = ground (arith, is_finalizing_lem s, is_finalizing_lem t)

-- The two edges that only the published machine has, and the one that only the service's has.
abbrev pub only_published : RunStatus → RunStatus → Bool
only_published from to =
    (from == finalizing_prepare || from == finalizing_metadata_commit)
    && to == finalizing_retryable_failed

abbrev pub only_decided : RunStatus → RunStatus → Bool
only_decided from to = from == finalizing_timeout && to == failed

-- The service's machine and the published one agree on every pair of statuses but three. From
-- finalizing_prepare and from finalizing_metadata_commit to finalizing_retryable_failed, the
-- published one allows the step and the service's refuses it; from finalizing_timeout to failed,
-- the service's allows the step and the published one refuses it.
pub can_transition-is_valid :
    (s t : RunStatus)
    → (only_published s t ≡ true
        → (can_transition s t ≡ false) × (is_valid_run_transition s t ≡ true))
      × (only_decided s t ≡ true
          → (can_transition s t ≡ true) × (is_valid_run_transition s t ≡ false))
      × ((only_published s t || only_decided s t) ≡ false
          → can_transition s t ≡ is_valid_run_transition s t)
unfolding can_transition is_valid_run_transition
can_transition-is_valid queued t = ground arith
can_transition-is_valid s t = ground arith

-- The published terminal statuses are exactly those that the service's machine never leaves, and
-- the service calls a status terminal exactly if it is published as terminal or as retryable.
pub is_terminal_iff :
    (s : RunStatus)
    → ((includes terminal_run_statuses s ≡ true) ↔ ((t : RunStatus) → can_transition s t ≡ false))
      × (is_terminal s ≡ (includes terminal_run_statuses s || includes retryable_run_statuses s))
unfolding can_transition is_terminal terminal_run_statuses retryable_run_statuses
is_terminal_iff s = (
  (
    λ h t. ground arith,
    λ h. ground (arith, h failed, h completed, h queued, h finalizing_uploading),
  ),
  ground arith,
)
