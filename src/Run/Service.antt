-- ===== src/Run/Service.antt =====
-- `RunService` of packages/control-plane/src/run/run-service.ts, over the rows of Run/Db. A method
-- takes the rows and gives its result, or the error that it throws, with the rows that it leaves.
-- The database has the transaction hook `createWithIdempotencyTx`, as drizzle-run-db.ts has; the
-- fallback for test doubles without it is left out.
pub mod Transition
pub mod Moves
pub mod Valid
pub mod Passed
pub mod Cancel
pub mod Race
pub mod Replay
use open_rush.Prelude.{
  ℕ, ◌+◌, ◌-◌, String, Bool, true, false, ◌&&◌, ◌||◌, not, List, [], ◌∷◌, Option, none, some, leb,
  if◌then◌else◌, ◌≡◌, refl, ◌⊎◌, inl, inr, ◌==◌, nat_eq, string_eq, option_eq, includes,
}
use Prim.Native.String
use mathlib.Core.Option.{get_or}
use open_rush.Run.Status.{
  RunStatus, queued, provisioning, preparing, running, finalizing_prepare, finalizing_uploading,
  finalizing_verifying, finalizing_metadata_commit, finalized, completed, failed,
  worker_unreachable, finalizing_timeout, finalizing_manual_intervention, status_eq, can_transition,
  is_terminal,
}
use open_rush.Run.Db.{
  Run, CreateRunInput, RunUpdates, no_updates, Rows, create, find_by_id, update_status,
  list_by_agent, find_stuck_runs, find_latest_by_idempotency_key,
}

pub data RunError : Type 0 where
  run_not_found : RunError
  run_not_found_error : String → RunError
  invalid_transition : RunStatus → RunStatus → RunError
  run_already_terminal : String → RunStatus → RunError
  run_cannot_cancel : String → RunStatus → RunError
  only_failed_retry : RunError
  max_retries_exceeded : RunError
  replay_scope_violation : String → String → RunError
  -- the key, the id and the hash of the run that has it, and the hash that came in
  idempotency_conflict : String → String → String → String → RunError

pub data Result {ℓ} (A : Type ℓ) : Type ℓ where
  ok : A → Result A
  err : RunError → Result A

pub Result-cases : (r : Result (Unit {0})) → (r ≡ ok tt) ⊎ ((e : RunError) × (r ≡ err e))
Result-cases (ok u) = inl refl
Result-cases (err e) = inr (e, refl)

-- A method that may throw: its result and the rows that it leaves.
abbrev pub M {ℓ} : Type ℓ → Type ℓ
M A = Rows → Result A × Rows

infixl 5 ◌>>=◌
abbrev pub ◌>>=◌ {ℓ κ} : {A : Type ℓ} {B : Type κ} → M A → (A → M B) → M B
◌>>=◌ m f rows = let (r, rows') = m rows in elim r [ ok a ↦ f a rows' | err e ↦ (err e, rows') ]

abbrev pub pure {ℓ} : {A : Type ℓ} → A → M A
pure a rows = (ok a, rows)

abbrev pub throw {ℓ} : {A : Type ℓ} → RunError → M A
throw e rows = (err e, rows)

abbrev pub require {ℓ} : {A : Type ℓ} → Option A → RunError → M A
require none e = throw e
require (some a) e = pure a

abbrev pub db_create : ℕ → String → CreateRunInput → M Run
db_create now row_id input rows = let (r, rows') = create now row_id input rows in (ok r, rows')

abbrev pub db_find : String → M (Option Run)
db_find row_id rows = (ok (find_by_id row_id rows), rows)

abbrev pub db_update : ℕ → String → RunStatus → RunUpdates → M (Option Run)
db_update now row_id to u rows =
    let (r, rows') = update_status now row_id to u rows in (ok r, rows')

-- A string that JavaScript takes for true.
abbrev pub truthy : Option String → Bool
truthy none = false
truthy (some String.[]) = false
truthy (some (String.◌∷◌ c s)) = true

-- The version of the parent, if it has one that is not 0.
abbrev pub parent_version : Option Run → Option ℕ
parent_version none = none
parent_version (some p) = elim p.agent_definition_version [
  | none ↦ none
  | some v ↦ if v == 0 then none else some v
]

unfoldable pub resolve_create_input : CreateRunInput → Rows → CreateRunInput
resolve_create_input input rows = elim input.agent_definition_version [
  | some v ↦ input
  | none ↦ elim input.parent_run_id [
    | none ↦ input
    | some parent ↦
        if truthy (some parent)
        then elim (parent_version (find_by_id parent rows)) [
          | none ↦ input
          | some v ↦ record input { agent_definition_version = some v }
        ]
        else input
  ]
]

unfoldable pub create_run : ℕ → String → CreateRunInput → M Run
unfolding resolve_create_input
create_run now row_id input rows = db_create now row_id (resolve_create_input input rows) rows

abbrev pub idempotency_window_ms : ℕ
idempotency_window_ms = 86400000

unfoldable pub scope_idempotency_key : String → String → String
scope_idempotency_key agent key = String.◌++◌ (String.◌++◌ (String.◌++◌ "agent:" agent) "|") key

pub record Idempotency : Type 0 where
  pub key : String
  pub request_hash : String
  pub now_ms : Option ℕ
  pub window_ms : Option ℕ

-- The hook's `onExisting`: replay, conflict, or a row of another agent.
unfoldable pub on_existing : Idempotency → String → Run → Result Run
on_existing idem agent existing =
    if not (existing.agent_id == agent)
    then err (replay_scope_violation existing.agent_id agent)
    else if existing.idempotency_request_hash == some idem.request_hash
    then ok existing
    else err (
        idempotency_conflict idem.key existing.id (get_or existing.idempotency_request_hash "")
          idem.request_hash)

-- `createWithIdempotencyTx`: the look-up and the insertion are one transaction.
unfoldable pub create_with_idempotency_tx :
    ℕ → String → CreateRunInput → String → ℕ → (Run → Result Run) → M Run
create_with_idempotency_tx now row_id input key since existing_result rows =
    elim (find_latest_by_idempotency_key key since rows) [
      | some existing ↦ (existing_result existing, rows)
      | none ↦ db_create now row_id input rows
    ]

-- The input with the scoped key and the body hash.
unfoldable pub with_idempotency : CreateRunInput → Idempotency → CreateRunInput
with_idempotency input idem = record input {
  idempotency_key = some (scope_idempotency_key input.agent_id idem.key);
  idempotency_request_hash = some idem.request_hash;
}

unfoldable pub create_run_with_idempotency :
    ℕ → String → CreateRunInput → Option Idempotency → M Run
unfolding resolve_create_input scope_idempotency_key on_existing create_with_idempotency_tx
    with_idempotency
create_run_with_idempotency now row_id input none rows =
    db_create now row_id (resolve_create_input input rows) rows
create_run_with_idempotency now row_id input (some idem) rows =
    let resolved = resolve_create_input input rows in
    let since = get_or idem.now_ms now - get_or idem.window_ms idempotency_window_ms in
    create_with_idempotency_tx now row_id (with_idempotency resolved idem)
      (scope_idempotency_key resolved.agent_id idem.key) since (on_existing idem resolved.agent_id)
      rows

abbrev pub no_value {ℓ} : {A : Type ℓ} → Option A → Bool
no_value none = true
no_value (some v) = false

-- What `transition` writes besides the status. (The copy of `extra.errorMessage` onto itself is
-- left out: the spread has brought it already.)
unfoldable pub transition_updates : ℕ → Run → RunStatus → RunUpdates → RunUpdates
transition_updates now run to extra = record extra {
  started_at = if to == running && no_value run.started_at then some now else extra.started_at;
  completed_at = if is_terminal to then some now else extra.completed_at;
}

-- `transition` up to its write: it reads the row and decides.
unfoldable pub transition_check : ℕ → String → RunStatus → RunUpdates → M RunUpdates
unfolding transition_updates
transition_check now row_id to extra = do
  found ← db_find row_id
  run ← require found run_not_found
  if can_transition run.status to
      then pure (transition_updates now run to extra)
      else throw (invalid_transition run.status to)

-- The write of `transition`: it names the row by its id alone.
unfoldable pub transition_write : ℕ → String → RunStatus → RunUpdates → M Run
transition_write now row_id to updates = do
  updated ← db_update now row_id to updates
  require updated run_not_found

unfoldable pub transition : ℕ → String → RunStatus → RunUpdates → M Run
unfolding transition_check transition_write
transition now row_id to extra = do
  updates ← transition_check now row_id to extra
  transition_write now row_id to updates

abbrev pub cancelled_message : String
cancelled_message = "cancelled by user"

abbrev pub cancellable_states : List RunStatus
cancellable_states =
    queued ∷ provisioning ∷ preparing ∷ running ∷ worker_unreachable ∷ finalizing_prepare
    ∷ finalizing_uploading ∷ finalizing_verifying ∷ finalizing_metadata_commit ∷ finalizing_timeout
    ∷ finalizing_manual_intervention ∷ []

abbrev pub cancel_already_terminal : List RunStatus
cancel_already_terminal = completed ∷ failed ∷ finalized ∷ []

-- The updates that carry an error message and nothing else.
abbrev pub with_message : String → RunUpdates
with_message text = record no_updates { error_message = some (some text) }

-- The decision of `cancelRun`.
unfoldable pub cancel_check : String → RunStatus → Result (Unit {0})
cancel_check row_id s =
    if includes cancel_already_terminal s
    then err (run_already_terminal row_id s)
    else if not (includes cancellable_states s) || not (can_transition s failed)
    then err (run_cannot_cancel row_id s)
    else ok tt

unfoldable pub cancel_run : ℕ → String → M Run
unfolding cancel_check
cancel_run now row_id = do
  found ← db_find row_id
  run ← require found (run_not_found_error row_id)
  (λ rows. (cancel_check row_id run.status, rows)) >>= λ _.
      transition now row_id failed (with_message cancelled_message)

unfoldable pub set_active_stream_id : ℕ → String → String → M (Unit {0})
set_active_stream_id now row_id stream = do
  found ← db_find row_id
  run ← require found run_not_found
  _ ← db_update now row_id run.status (record no_updates { active_stream_id = some (some stream) })
  pure tt

-- The decision of `retry`.
unfoldable pub retry_check : Run → Result (Unit {0})
retry_check run =
    if not (run.status == failed)
    then err only_failed_retry
    else if leb run.max_retries run.retry_count
    then err max_retries_exceeded
    else ok tt

-- The updates of `retry`.
abbrev pub retry_updates : Run → RunUpdates
retry_updates run = record no_updates {
  retry_count = some (run.retry_count + 1);
  error_message = some none;
}

unfoldable pub retry : ℕ → String → M Run
unfolding retry_check
retry now row_id = do
  found ← db_find row_id
  run ← require found run_not_found
  (λ rows. (retry_check run, rows)) >>= λ _. transition now row_id queued (retry_updates run)

abbrev pub recover_message : String
recover_message = "Worker unreachable timeout"

-- The loop of `recoverStuckRuns` over the rows that were found; it ends at the first error.
unfoldable pub recover_each : ℕ → Rows → M Rows
recover_each now [] = pure []
recover_each now (run ∷ stuck) =
    let more = recover_each now stuck in
    if run.status == worker_unreachable
    then (do
      updated ← transition now run.id failed (with_message recover_message)
      recovered ← more
      pure (updated ∷ recovered))
    else more

unfoldable pub recover_stuck_runs : ℕ → Option ℕ → M Rows
unfolding recover_each
recover_stuck_runs now older_than rows =
    recover_each now (find_stuck_runs now (get_or older_than 120000) rows) rows

unfoldable pub get_by_id : String → Rows → Option Run
get_by_id row_id rows = find_by_id row_id rows

unfoldable pub list_runs : String → Option ℕ → Rows → Rows
list_runs agent limit rows = list_by_agent agent limit rows
