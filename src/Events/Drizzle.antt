-- ===== src/Events/Drizzle.antt =====
-- `DrizzleEventStore` of packages/control-plane/src/drizzle-event-store.ts, over the rows of
-- `run_events` in the order of their insertion. The advisory lock makes `appendAssignSeq` one step;
-- the row's id and time are what the database draws, and are handed in. What PostgreSQL does with
-- a value that a column does not take, or takes as another, is a parameter, and so is which runs
-- there are.
pub mod Refines
pub mod Reads
use open_rush.Prelude.{
  ℕ, ◌+◌, String, Bool, true, false, ◌&&◌, List, [], ◌∷◌, ◌++◌, map, Option, none, some, leb, any,
  ◌==◌, string_eq, nat_eq, find, filter, if◌then◌else◌,
}
use mathlib.Core.Option.{get_or}
use open_rush.Prelude.Json.{ℤ, pos, negsuc, gt_ℤ}
use open_rush.Prelude.Pages.{sort_by}
use open_rush.Events.{
  RunEvent, NewEvent, InsertResult, GapDetectionResult, sort_by_seq, run_event, max_seq, minus_one,
  sort_seqs, gaps_of,
}

abbrev pub Rows : Type 0
Rows = List RunEvent

-- The row with a run's id and a number, which the table's unique key makes the only one.
abbrev pub is_row : String → ℕ → RunEvent → Bool
is_row run n e = e.run_id == run && e.seq == n

abbrev pub rows_of : String → Rows → Rows
rows_of run rows = filter (λ e. e.run_id == run) rows

-- The columns' types: the row as the table keeps it, a `jsonb` payload included, or `none` where
-- the statement throws. The foreign key: whether there is a run of an id.
pub record Columns : Type 0 where
  pub kept : RunEvent → Option RunEvent
  pub has_run : String → Bool

-- `INSERT … ON CONFLICT DO NOTHING RETURNING *`: `none` where it throws, and no row where the key
-- is taken, which `appendAssignSeq` throws at. The foreign key is looked up for a row that is inserted.
abbrev pub insert_kept : Columns → Option RunEvent → Rows → Option (Option RunEvent) × Rows
insert_kept db none rows = (none, rows)
insert_kept db (some e) rows =
    if any (is_row e.run_id e.seq) rows
    then (some none, rows)
    else if db.has_run e.run_id
    then (some (some e), rows ++ e ∷ [])
    else (none, rows)

abbrev pub insert_row : Columns → RunEvent → Rows → Option (Option RunEvent) × Rows
insert_row db e rows = insert_kept db (db.kept e) rows

abbrev pub existing_row : Option RunEvent → Rows → Option InsertResult × Rows
existing_row none rows = (none, rows)
existing_row (some e) rows = (some (record { inserted = false; event = e }), rows)

abbrev pub after_insert : String → ℕ → Option (Option RunEvent) × Rows → Option InsertResult × Rows
after_insert run n (none, rows) = (none, rows)
after_insert run n (some (some e), rows) = (some (record { inserted = true; event = e }), rows)
after_insert run n (some none, rows) = existing_row (find (is_row run n) rows) rows

-- `append`; `none` is a call that throws.
unfoldable pub append_row :
    Columns → String → ℕ → NewEvent → Option ℕ → Rows → Option InsertResult × Rows
append_row db id now e none rows = (none, rows)
append_row db id now e (some n) rows =
    after_insert e.run_id n (insert_row db (run_event id now n e) rows)

-- `MAX(seq)` over a run's rows.
abbrev pub sql_max : Rows → Option ℕ
sql_max [] = none
sql_max (e ∷ es) = some (max_seq e.seq es)

abbrev pub inserted_or_throw : Option (Option RunEvent) × Rows → Option InsertResult × Rows
inserted_or_throw (none, rows) = (none, rows)
inserted_or_throw (some (some e), rows) = (some (record { inserted = true; event = e }), rows)
inserted_or_throw (some none, rows) = (none, rows)

unfoldable pub assign_row : Columns → String → ℕ → NewEvent → Rows → Option InsertResult × Rows
assign_row db id now e rows =
    inserted_or_throw
      (insert_row db (run_event id now (get_or (sql_max (rows_of e.run_id rows)) 0 + 1) e) rows)

-- `ORDER BY seq`
unfoldable pub select_events : String → ℤ → Rows → List RunEvent
select_events run after_seq rows =
    sort_by_seq (filter (λ e. e.run_id == run && gt_ℤ e.seq after_seq) rows)

abbrev pub seq_desc : RunEvent → RunEvent → Bool
seq_desc x y = leb y.seq x.seq

abbrev pub head_seq : Rows → ℤ
head_seq [] = minus_one
head_seq (e ∷ es) = pos e.seq

-- `ORDER BY seq DESC LIMIT 1`
unfoldable pub select_last_seq : String → Rows → ℤ
select_last_seq run rows = head_seq (sort_by seq_desc (rows_of run rows))

unfoldable pub select_gaps : String → Rows → GapDetectionResult
unfolding select_events
select_gaps run rows = gaps_of (sort_seqs (map (λ e. e.seq) (select_events run minus_one rows)))
