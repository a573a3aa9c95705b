-- ===== src/Run/Service/Moves.antt =====
-- Every method of `RunService` (run-service.ts), as steps of one relation on the table.
use open_rush.Prelude.{
  ℕ, ◌+◌, ◌≤◌, String, Bool, true, false, [], ◌∷◌, ◌++◌, Option, none, some, ◌≡◌, ◌⊎◌, inl, inr,
  ◌==◌, string_eq, nat_eq, arith, Bool-cases, Option-cases, ◌-◌,
}
use mathlib.Core.Option.{get_or}
use open_rush.Run.Status.{RunStatus, queued, failed, worker_unreachable, status_eq, can_transition}
use open_rush.Run.Db.{
  Run, CreateRunInput, RunUpdates, no_updates, Rows, new_row, create, write_row, find_by_id,
  find_stuck_runs, find_latest_by_idempotency_key,
}
use open_rush.Run.DbLaws.{update_status_lem}
use open_rush.Run.Service.{
  RunError, run_not_found, run_not_found_error, Result, ok, err, Result-cases, M, cancelled_message,
  Idempotency, create_run_with_idempotency, resolve_create_input, create_with_idempotency_tx,
  on_existing, scope_idempotency_key, with_idempotency, idempotency_window_ms, require, ◌>>=◌, pure,
  transition_updates, transition, with_message, cancel_check, cancel_run, set_active_stream_id,
  retry_check, retry_updates, retry, recover_message, recover_each, recover_stuck_runs,
}
use open_rush.Run.Service.Transition.{transition-cases}

-- A retry count that a transition brings along fits the run.
abbrev pub RetryFits : Option ℕ → Run → Type 0
RetryFits none run = Unit
RetryFits (some n) run = n ≤ run.max_retries

-- One write of the service.
pub data Move (rows : Rows) : Rows → Type 0 where
  insert :
      (now : ℕ) (row_id : String) (input : CreateRunInput)
      → Move rows (rows ++ new_row now row_id input ∷ [])
  edge :
      (now : ℕ) (i : String) (to : RunStatus) (extra : RunUpdates) (run : Run)
      → find_by_id i rows ≡ some run
      → can_transition run.status to ≡ true
      → RetryFits extra.retry_count run
      → Move rows (write_row now i to (transition_updates now run to extra) rows)
  stream :
      (now : ℕ) (i : String) (name : String) (run : Run)
      → find_by_id i rows ≡ some run
      → Move rows (
          write_row now i run.status
            (record no_updates { active_stream_id = some (some name) })
            rows)

pub data Moves (rows : Rows) : Rows → Type 0 where
  done : Moves rows rows
  next : {mid rows' : Rows} → Moves rows mid → Move mid rows' → Moves rows rows'

-- A method that writes once at most.
pub data One (rows : Rows) : Rows → Type 0 where
  unchanged : One rows rows
  one : {rows' : Rows} → Move rows rows' → One rows rows'

One-Moves : {a b : Rows} → One a b → Moves a b
One-Moves unchanged = done
One-Moves (one m) = next done m

Moves-trans : {a b c : Rows} → Moves a b → Moves b c → Moves a c
Moves-trans p done = p
Moves-trans p (next q m) = next (Moves-trans p q) m

-- The public methods that write. The callers of `transition` bring an error message or nothing.
pub data Op : Type 0 where
  create_op : ℕ → String → CreateRunInput → Option Idempotency → Op
  transition_op : ℕ → String → RunStatus → Option (Option String) → Op
  cancel_op : ℕ → String → Op
  stream_op : ℕ → String → String → Op
  retry_op : ℕ → String → Op
  recover_op : ℕ → Option ℕ → Op

-- The table after a call of the method.
unfoldable pub apply_op : Op → Rows → Rows
apply_op (create_op now row_id input idem) rows =
    (create_run_with_idempotency now row_id input idem rows).1
apply_op (transition_op now i to message) rows =
    (transition now i to (record no_updates { error_message = message }) rows).1
apply_op (cancel_op now i) rows = (cancel_run now i rows).1
apply_op (stream_op now i name) rows = (set_active_stream_id now i name rows).1
apply_op (retry_op now i) rows = (retry now i rows).1
apply_op (recover_op now older_than) rows = (recover_stuck_runs now older_than rows).1

transition-One :
    (now : ℕ) (i : String) (to : RunStatus) (extra : RunUpdates) (rows : Rows)
    → ((run : Run) → find_by_id i rows ≡ some run → RetryFits extra.retry_count run)
    → One rows (transition now i to extra rows).1
transition-One now i to extra rows fits = elim (transition-cases now i to extra rows) [
  | inl (missing, e) ↦ rw e unchanged
  | inr (inl (run, found, illegal, e)) ↦ rw e unchanged
  | inr (inr (run, found, legal, e)) ↦
      rw e (one (edge now i to extra run found legal (fits run found)))
]

-- `cancelRun` fails before it writes, or is a transition.
pub cancel_run-cases :
    (now : ℕ) (i : String) (rows : Rows)
    → ((e : RunError) × (cancel_run now i rows ≡ (err e, rows)))
      ⊎ ((run : Run) × (find_by_id i rows ≡ some run)
          × (cancel_check i run.status ≡ ok tt)
          × (cancel_run now i rows ≡ transition now i failed (with_message cancelled_message) rows))
unfolding cancel_run
cancel_run-cases now i rows = elim (Option-cases (find_by_id i rows)) [
  | inl missing ↦ inl (run_not_found_error i, ground arith)
  | inr (run, found) ↦ elim (Result-cases (cancel_check i run.status)) [
    | inl go ↦ inr (run, found, go, ground arith)
    | inr (e, stop) ↦ inl (e, ground arith)
  ]
]

-- So does `retry`.
pub retry-cases :
    (now : ℕ) (i : String) (rows : Rows)
    → ((e : RunError) × (retry now i rows ≡ (err e, rows)))
      ⊎ ((run : Run) × (find_by_id i rows ≡ some run)
          × (retry_check run ≡ ok tt)
          × (retry now i rows ≡ transition now i queued (retry_updates run) rows))
unfolding retry
retry-cases now i rows = elim (Option-cases (find_by_id i rows)) [
  | inl missing ↦ inl (run_not_found, ground arith)
  | inr (run, found) ↦ elim (Result-cases (retry_check run)) [
    | inl go ↦ inr (run, found, go, ground arith)
    | inr (e, stop) ↦ inl (e, ground arith)
  ]
]

retry_check-lt : (run : Run) → retry_check run ≡ ok tt → run.retry_count + 1 ≤ run.max_retries
unfolding retry_check
retry_check-lt run h = ground arith

retry_fits :
    (i : String) (rows : Rows) (run : Run)
    → find_by_id i rows ≡ some run
    → retry_check run ≡ ok tt
    → (other : Run) → find_by_id i rows ≡ some other
    → RetryFits (retry_updates run).retry_count other
retry_fits i rows run found go other found' = ground (arith, retry_check-lt run)

tx-One :
    (now : ℕ) (row_id : String) (input : CreateRunInput) (key : String) (since : ℕ)
    (existing_result : Run → Result Run) (rows : Rows)
    → One rows (create_with_idempotency_tx now row_id input key since existing_result rows).1
unfolding create_with_idempotency_tx create
tx-One now row_id input key since existing_result rows =
    elim (Option-cases (find_latest_by_idempotency_key key since rows)) [
      | inl fresh ↦ rw (fresh, create_with_idempotency_tx) (one (insert now row_id input))
      | inr (old, replay) ↦ rw (replay, create_with_idempotency_tx) unchanged
    ]

create-One :
    (now : ℕ) (row_id : String) (input : CreateRunInput) (idem : Option Idempotency) (rows : Rows)
    → One rows (create_run_with_idempotency now row_id input idem rows).1
unfolding create_run_with_idempotency create
create-One now row_id input none rows = one (insert now row_id (resolve_create_input input rows))
create-One now row_id input (some idem) rows =
    let resolved = resolve_create_input input rows in
    tx-One now row_id (with_idempotency resolved idem)
      (scope_idempotency_key resolved.agent_id idem.key)
      (get_or idem.now_ms now - get_or idem.window_ms idempotency_window_ms)
      (on_existing idem resolved.agent_id) rows

set_active_stream_id-One :
    (now : ℕ) (i name : String) (rows : Rows) → One rows (set_active_stream_id now i name rows).1
unfolding set_active_stream_id
set_active_stream_id-One now i name rows = elim (Option-cases (find_by_id i rows)) [
  | inl missing ↦ rw (missing, require) unchanged
  | inr (run, found) ↦
      let u = record no_updates { active_stream_id = some (some name) } in
      rw (found, require)
        (rw (update_status_lem now i run.status u rows run found)
          (one (stream now i name run found)))
]

bind-Moves {ℓ κ} :
    {A : Type ℓ} {B : Type κ} (m : M A) (f : A → M B) (rows : Rows)
    → Moves rows (m rows).1
    → ((a : A) (mid : Rows) → Moves mid (f a mid).1)
    → Moves rows ((m >>= f) rows).1
bind-Moves {A} {B} m f rows h k = go (m rows) h
  where
    go : (p : Result A × Rows) → Moves rows p.1 → Moves rows (((λ (z : Rows). p) >>= f) rows).1
    go (ok a, mid) q = Moves-trans q (k a mid)
    go (err e, mid) q = q

recover_each-Moves : (now : ℕ) (stuck rows : Rows) → Moves rows (recover_each now stuck rows).1
unfolding recover_each
recover_each-Moves now [] rows = done
recover_each-Moves now (run ∷ stuck) rows = elim (Bool-cases (run.status == worker_unreachable)) [
  | inl lost ↦ rw lost (
      bind-Moves (transition now run.id failed (with_message recover_message))
        (λ updated. recover_each now stuck >>= λ recovered. pure (updated ∷ recovered)) rows
        (One-Moves
          (transition-One now run.id failed (with_message recover_message) rows (λ r f. tt)))
        (λ updated mid.
          bind-Moves (recover_each now stuck) (λ recovered. pure (updated ∷ recovered)) mid
            (recover_each-Moves now stuck mid) (λ recovered last. done)))
  | inr other ↦ rw other (recover_each-Moves now stuck rows)
]

cancel_run-One : (now : ℕ) (i : String) (rows : Rows) → One rows (cancel_run now i rows).1
cancel_run-One now i rows = elim (cancel_run-cases now i rows) [
  | inl (e, q) ↦ rw q unchanged
  | inr (run, found, go, q) ↦
      rw q (transition-One now i failed (with_message cancelled_message) rows (λ r f. tt))
]

retry-One : (now : ℕ) (i : String) (rows : Rows) → One rows (retry now i rows).1
retry-One now i rows = elim (retry-cases now i rows) [
  | inl (e, q) ↦ rw q unchanged
  | inr (run, found, go, q) ↦
      rw q (transition-One now i queued (retry_updates run) rows (retry_fits i rows run found go))
]

-- Every method but `recoverStuckRuns` writes once at most.
abbrev pub is_single : Op → Bool
is_single (recover_op now older_than) = false
is_single _ = true

pub apply_op-One : (op : Op) (rows : Rows) → is_single op ≡ true → One rows (apply_op op rows)
unfolding apply_op
apply_op-One (create_op now row_id input idem) rows h = create-One now row_id input idem rows
apply_op-One (transition_op now i to message) rows h =
    transition-One now i to (record no_updates { error_message = message }) rows (λ run f. tt)
apply_op-One (cancel_op now i) rows h = cancel_run-One now i rows
apply_op-One (stream_op now i name) rows h = set_active_stream_id-One now i name rows
apply_op-One (retry_op now i) rows h = retry-One now i rows
apply_op-One (recover_op now older_than) rows h = ground arith

-- Every method writes only by moves: it inserts queued runs, changes a status along an edge of
-- the machine, or sets a stream id.
pub apply_op-Moves : (op : Op) (rows : Rows) → Moves rows (apply_op op rows)
unfolding apply_op recover_stuck_runs
apply_op-Moves (create_op now row_id input idem) rows =
    One-Moves (create-One now row_id input idem rows)
apply_op-Moves (transition_op now i to message) rows =
    One-Moves
      (transition-One now i to (record no_updates { error_message = message }) rows (λ run f. tt))
apply_op-Moves (cancel_op now i) rows = One-Moves (cancel_run-One now i rows)
apply_op-Moves (stream_op now i name) rows = One-Moves (set_active_stream_id-One now i name rows)
apply_op-Moves (retry_op now i) rows = One-Moves (retry-One now i rows)
apply_op-Moves (recover_op now older_than) rows =
    recover_each-Moves now (find_stuck_runs now (get_or older_than 120000) rows) rows
