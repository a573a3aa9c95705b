-- ===== src/Run/Service/Transition.antt =====
-- `RunService.transition`: what it does on each branch (run-service.ts).
use open_rush.Prelude.{
  ℕ, String, true, false, none, some, ◌≡◌, refl, ◌⊎◌, inl, inr, if◌then◌else◌, ◌==◌, string_eq,
  arith, eq_iff, Bool-cases, Option-cases,
}
use open_rush.Run.Status.{RunStatus, can_transition}
use open_rush.Run.Db.{Run, RunUpdates, Rows, apply_updates, write_row, find_by_id}
use open_rush.Run.DbLaws.{find-write, update_status_lem}
use open_rush.Run.Service.{
  RunError, run_not_found, invalid_transition, ok, err, transition_updates, transition_write,
  transition,
}

module _ (now : ℕ) (i : String) (to : RunStatus) where
  pub transition_write_lem :
      (u : RunUpdates) (rows : Rows) (run : Run)
      → find_by_id i rows ≡ some run
      → transition_write now i to u rows
        ≡ (ok (apply_updates now to u run), write_row now i to u rows)
  unfolding transition_write
  transition_write_lem u rows run h = ground (arith, update_status_lem now i to u rows run)

  module _ (extra : RunUpdates) (rows : Rows) where
    pub transition_missing :
        find_by_id i rows ≡ none → transition now i to extra rows ≡ (err run_not_found, rows)
    unfolding transition
    transition_missing h = ground arith

    pub transition_refused :
        (run : Run)
        → find_by_id i rows ≡ some run
        → can_transition run.status to ≡ false
        → transition now i to extra rows ≡ (err (invalid_transition run.status to), rows)
    unfolding transition
    transition_refused run h e = ground arith

    pub transition_taken :
        (run : Run)
        → find_by_id i rows ≡ some run
        → can_transition run.status to ≡ true
        → let u = transition_updates now run to extra in
          transition now i to extra rows
          ≡ (ok (apply_updates now to u run), write_row now i to u rows)
    unfolding transition
    transition_taken run h e =
        ground (arith, transition_write_lem (transition_updates now run to extra) rows run)

    -- The three branches.
    pub transition-cases :
        ((find_by_id i rows ≡ none) × (transition now i to extra rows ≡ (err run_not_found, rows)))
        ⊎ ((run : Run) × (find_by_id i rows ≡ some run)
            × (can_transition run.status to ≡ false)
            × (transition now i to extra rows ≡ (err (invalid_transition run.status to), rows)))
        ⊎ ((run : Run) × (find_by_id i rows ≡ some run)
            × (can_transition run.status to ≡ true)
            × (transition now i to extra rows ≡ (
              ok (apply_updates now to (transition_updates now run to extra) run),
              write_row now i to (transition_updates now run to extra) rows,
            )))
    transition-cases = elim (Option-cases (find_by_id i rows)) [
      | inl missing ↦ inl (missing, transition_missing missing)
      | inr (run, found) ↦ elim (Bool-cases (can_transition run.status to)) [
        | inl legal ↦ inr (inr (run, found, legal, transition_taken run found legal))
        | inr illegal ↦ inr (inl (run, found, illegal, transition_refused run found illegal))
      ]
    ]

apply_updates-status :
    (now : ℕ) (to : RunStatus) (u : RunUpdates) (run : Run)
    → (apply_updates now to u run).status ≡ to
unfolding apply_updates
apply_updates-status now to u run = refl

-- A transition that succeeds has found the run in a status from which the machine allows the
-- new one. It answers the row as it then stands in the table, with the new status, and changes
-- no other row.
pub transition-ok :
    (now : ℕ) (i : String) (to : RunStatus) (extra : RunUpdates) (rows rows' : Rows) (r : Run)
    → transition now i to extra rows ≡ (ok r, rows')
    → (run : Run) × (find_by_id i rows ≡ some run)
      × (can_transition run.status to ≡ true)
      × (r.status ≡ to)
      × ((j : String) → find_by_id j rows' ≡ (if i == j then some r else find_by_id j rows))
transition-ok now i to extra rows rows' r h = elim (transition-cases now i to extra rows) [
  | inl (missing, e) ↦ absurd (cc)
  | inr (inl (run, found, illegal, e)) ↦ absurd (cc)
  | inr (inr (run, found, legal, e)) ↦
      let u = transition_updates now run to extra in
      (
        run,
        found,
        legal,
        ground (arith, apply_updates-status now to u run),
        λ j. ground (arith, find-write now i j to u rows, eq_iff i j),
      )
]

-- A transition that fails leaves the table as it was. It fails for a missing run, or for a
-- status from which the machine does not allow the new one.
pub transition-err :
    (now : ℕ) (i : String) (to : RunStatus) (extra : RunUpdates) (rows rows' : Rows) (e : RunError)
    → transition now i to extra rows ≡ (err e, rows')
    → (rows' ≡ rows)
      × (((find_by_id i rows ≡ none) × (e ≡ run_not_found))
          ⊎ ((run : Run) × (find_by_id i rows ≡ some run)
              × (can_transition run.status to ≡ false)
              × (e ≡ invalid_transition run.status to)))
transition-err now i to extra rows rows' e h = elim (transition-cases now i to extra rows) [
  | inl (missing, q) ↦ (ground arith, inl (missing, ground arith))
  | inr (inl (run, found, illegal, q)) ↦ (ground arith, inr (run, found, illegal, ground arith))
  | inr (inr (run, found, legal, q)) ↦ absurd (cc)
]
