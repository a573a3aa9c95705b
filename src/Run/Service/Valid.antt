-- ===== src/Run/Service/Valid.antt =====
-- What holds of every row that `RunService` (run-service.ts) can produce.
use open_rush.Prelude.{
  ℕ, ◌≤◌, String, Bool, true, false, ◌&&◌, List, [], ◌∷◌, Option, none, some, ◌≡◌, refl, ◌⊎◌, inl,
  inr, if◌then◌else◌, ◌==◌, string_eq, arith, eq_iff, Bool-cases, Option-cases,
}
use mathlib.Core.Option
use open_rush.Run.Status.{
  RunStatus, queued, running, failed, status_eq, can_transition, is_terminal,
}
use open_rush.Run.Machine.{History, created, moved}
use open_rush.Run.Db.{
  Run, CreateRunInput, RunUpdates, no_updates, Rows, new_row, or_else, apply_updates, write_row,
  find_by_id,
}
use open_rush.Run.DbLaws.{find-write, find-append}
use open_rush.Run.Service.{no_value, transition_updates}
use open_rush.Run.Service.Moves.{
  RetryFits, Move, insert, edge, stream, Moves, done, next, Op, apply_op, apply_op-Moves,
}

-- The statuses that a run reaches only by running.
unfoldable pub has_run : RunStatus → Bool
has_run queued = false
has_run RunStatus.provisioning = false
has_run RunStatus.preparing = false
has_run failed = false
has_run _ = true

-- The retries stay within their bound, a run that has run has a start time, a completed or failed
-- one has an end time, and its status is the end of a life that the machine allows.
pub record IsValid (r : Run) : Type 0 where
  pub retries_bounded : r.retry_count ≤ r.max_retries
  pub started : (has_run r.status && no_value r.started_at) ≡ false
  pub ended : (is_terminal r.status && no_value r.completed_at) ≡ false
  pub lived : (l : List RunStatus) × History r.status l

has_run-edge :
    (s t : RunStatus)
    → can_transition s t ≡ true
    → has_run t ≡ true
    → (has_run s ≡ true) ⊎ (t ≡ running)
unfolding can_transition has_run
has_run-edge queued t e h = ground arith
has_run-edge _ t e h = ground arith

new_row-IsValid :
    (now : ℕ) (row_id : String) (input : CreateRunInput) → IsValid (new_row now row_id input)
unfolding new_row has_run is_terminal
new_row-IsValid now row_id input = record {
  retries_bounded = omega arith;
  started = refl;
  ended = refl;
  lived = (queued ∷ [], created);
}

fits-le :
    (n : Option ℕ) (run : Run)
    → RetryFits n run
    → run.retry_count ≤ run.max_retries
    → Option.get_or n run.retry_count ≤ run.max_retries
fits-le none run h k = k
fits-le (some n) run h k = h

started-edge :
    (s t : RunStatus) (now : ℕ) (at extra : Option ℕ)
    → can_transition s t ≡ true
    → (has_run s && no_value at) ≡ false
    → (has_run t && no_value (or_else (if t == running && no_value at then some now else extra) at))
      ≡ false
started-edge s t now at extra e h = elim (Bool-cases (has_run t)) [
  | inr fresh ↦ rw fresh refl
  | inl ran ↦ elim (has_run-edge s t e ran) [
    | inl before ↦ ground (arith, before)
    | inr now_running ↦ ground (arith, now_running)
  ]
]

edge-IsValid :
    (now : ℕ) (to : RunStatus) (extra : RunUpdates) (run : Run)
    → IsValid run
    → can_transition run.status to ≡ true
    → RetryFits extra.retry_count run
    → IsValid (apply_updates now to (transition_updates now run to extra) run)
unfolding apply_updates transition_updates
edge-IsValid now to extra run v e fits = record {
  retries_bounded = fits-le extra.retry_count run fits v.retries_bounded;
  started = started-edge run.status to now run.started_at extra.started_at e v.started;
  ended = ground arith;
  lived = (to ∷ v.lived.0, moved v.lived.1 e);
}

stream-IsValid :
    (now : ℕ) (run : Run) (name : String)
    → IsValid run
    → IsValid (
        apply_updates now run.status
          (record no_updates { active_stream_id = some (some name) })
          run)
unfolding apply_updates
stream-IsValid now run name v = record {
  retries_bounded = v.retries_bounded;
  started = v.started;
  ended = v.ended;
  lived = v.lived;
}

-- Every row that a look-up by id finds.
abbrev pub AllValid : Rows → Type 0
AllValid rows = (j : String) (r : Run) → find_by_id j rows ≡ some r → IsValid r

write-AllValid :
    (now : ℕ) (i : String) (to : RunStatus) (u : RunUpdates) (rows : Rows) (run : Run)
    → find_by_id i rows ≡ some run
    → IsValid (apply_updates now to u run)
    → AllValid rows
    → AllValid (write_row now i to u rows)
write-AllValid now i to u rows run found v all j r h = elim (Bool-cases (i == j)) [
  | inl same ↦
      let written : apply_updates now to u run ≡ r =
        ground (arith, find-write now i j to u rows, eq_iff i j) in
      rw written at v
  | inr other ↦ all j r (ground (arith, find-write now i j to u rows))
]

Move-AllValid : {rows rows' : Rows} → Move rows rows' → AllValid rows → AllValid rows'
Move-AllValid {rows} (insert now row_id input) all j r h = elim (Option-cases (find_by_id j rows)) [
  | inr (old, found) ↦ all j r (ground (arith, find-append j rows (new_row now row_id input)))
  | inl fresh ↦
      let inserted : new_row now row_id input ≡ r =
        ground (arith, find-append j rows (new_row now row_id input)) in
      rw inserted at (new_row-IsValid now row_id input)
]
Move-AllValid {rows} (edge now i to extra run found e fits) all j r h =
    write-AllValid now i to (transition_updates now run to extra) rows run found
      (edge-IsValid now to extra run (all i run found) e fits) all j r h
Move-AllValid {rows} (stream now i name run found) all j r h =
    write-AllValid now i run.status (record no_updates { active_stream_id = some (some name) }) rows
      run found (stream-IsValid now run name (all i run found)) all j r h

Moves-AllValid : {rows rows' : Rows} → Moves rows rows' → AllValid rows → AllValid rows'
Moves-AllValid done all = all
Moves-AllValid (next ms m) all = Move-AllValid m (Moves-AllValid ms all)

-- Each method keeps every row valid.
pub apply_op-AllValid : (op : Op) (rows : Rows) → AllValid rows → AllValid (apply_op op rows)
apply_op-AllValid op rows all = Moves-AllValid (apply_op-Moves op rows) all

-- A sequence of calls, the first call first.
unfoldable pub apply_ops : List Op → Rows → Rows
apply_ops [] rows = rows
apply_ops (op ∷ ops) rows = apply_ops ops (apply_op op rows)

apply_ops-AllValid : (ops : List Op) (rows : Rows) → AllValid rows → AllValid (apply_ops ops rows)
unfolding apply_ops
apply_ops-AllValid [] rows all = all
apply_ops-AllValid (op ∷ ops) rows all =
    apply_ops-AllValid ops (apply_op op rows) (apply_op-AllValid op rows all)

no_rows-AllValid : AllValid []
unfolding find_by_id
no_rows-AllValid j r h = cc

-- After any calls on an empty table every run has at most its maximum of retries, a start time
-- once it has run, an end time if it is completed or failed, and a status at the end of a life
-- along the edges of the machine.
pub apply_ops-IsValid :
    (ops : List Op) (j : String) (r : Run) → find_by_id j (apply_ops ops []) ≡ some r → IsValid r
apply_ops-IsValid ops j r h = apply_ops-AllValid ops [] no_rows-AllValid j r h
