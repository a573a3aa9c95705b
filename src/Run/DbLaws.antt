-- ===== src/Run/DbLaws.antt =====
-- Reading the `runs` table after a write.
use open_rush.Prelude.{
  ℕ, String, [], ◌∷◌, ◌++◌, none, some, ◌≡◌, refl, inl, inr, if◌then◌else◌, ◌==◌, string_eq, arith,
  eq_iff, Bool-cases,
}
use mathlib.Core.Option
use open_rush.Run.Status.{RunStatus}
use open_rush.Run.Db.{
  Run, RunUpdates, Rows, apply_updates, write_row, find_by_id, update_status, or_else,
}

pub find-write :
    (now : ℕ) (i j : String) (to : RunStatus) (u : RunUpdates) (rows : Rows)
    → find_by_id j (write_row now i to u rows) ≡ (
        if i == j
        then Option.map (apply_updates now to u) (find_by_id j rows)
        else find_by_id j rows)
unfolding find_by_id write_row apply_updates
find-write now i j to u [] = ground arith
find-write now i j to u (r ∷ rows) = elim (Bool-cases (r.id == i)) [
  | inl same ↦
      rw same
        (ground (arith, eq_iff r.id i, eq_iff r.id j, eq_iff i j, find-write now i j to u rows))
  | inr other ↦
      rw other
        (ground (arith, eq_iff r.id i, eq_iff r.id j, eq_iff i j, find-write now i j to u rows))
]

pub find-append :
    (j : String) (rows : Rows) (row : Run)
    → find_by_id j (rows ++ row ∷ [])
      ≡ or_else (find_by_id j rows) (if row.id == j then some row else none)
unfolding find_by_id
find-append j [] row = refl
find-append j (r ∷ rows) row = ground (arith, find-append j rows row)

-- A write that hits its row, and what a read finds after it.
pub update_status_lem :
    (now : ℕ) (i : String) (to : RunStatus) (u : RunUpdates) (rows : Rows) (run : Run)
    → find_by_id i rows ≡ some run
    → update_status now i to u rows ≡ (some (apply_updates now to u run), write_row now i to u rows)
unfolding update_status
update_status_lem now i to u rows run h = ground (arith, find-write now i i to u rows, eq_iff i i)
