-- ===== src/Events/Tests.antt =====
-- The event store on concrete events.
use open_rush.Prelude.{
  ℕ, ◌<◌, String, true, false, ◌&&◌, ◌||◌, not, List, [], ◌∷◌, ◌++◌, none, some, ◌≡◌, refl, ltb,
  map, find, if◌then◌else◌, ◌==◌, string_eq, nat_eq, All, any, includes,
}
use open_rush.Prelude.Json.{Json, null, str, pos}
use open_rush.Events.{
  RunEvent, NewEvent, Store, insert_by_seq, sort_by_seq, run_event, append, append_assign_seq,
  get_events, max_seq, minus_one, get_last_seq, detect_gaps,
}
use open_rush.Events.Append.{
  IsOrdered, Write, at_seq, assigned, apply_writes, no_events, apply_writes-IsOrdered,
  append_assign_seq_lem,
}
use open_rush.Events.Drizzle.{Columns, append_row, assign_row, select_last_seq}
use open_rush.Events.Drizzle.Refines.{TakesWrites, run_rows, run_store}
use open_rush.Events.Drizzle.Reads.{ReadsAgree, run_rows-run_store}
use open_rush.Events.Resume.{append_twice, assign_all, get_events_resume}
use open_rush.Events.Gaps.{includes-detect_gaps}

abbrev delta : NewEvent
delta = record {
  run_id = "run-1";
  event_type = "text-delta";
  payload = str "hi";
  schema_version = none;
}

-- Two assigned numbers, one that leaves a gap, and one of another run.
abbrev writes : List Write
writes =
    assigned "e1" 1 delta
    ∷ at_seq "e2" 2 delta (some 5)
    ∷ assigned "e3" 3 delta
    ∷ at_seq "e4" 4 delta (some 3)
    ∷ at_seq "e5" 5 (record delta { run_id = "run-2" }) (some 0)
    ∷ []

abbrev written : Store
written = apply_writes writes no_events

written_seqs : map (λ e. e.seq) (written "run-1") ≡ 1 ∷ 3 ∷ 5 ∷ 6 ∷ []
unfolding apply_writes append append_assign_seq sort_by_seq insert_by_seq run_event
written_seqs = refl

apply_writes-IsOrdered_example : IsOrdered "run-1" (written "run-1")
apply_writes-IsOrdered_example = apply_writes-IsOrdered writes "run-1"

append_assign_seq_lem_example :
    let (res, store') = append_assign_seq "e6" 6 delta written in
    ((j : String)
      → store' j
        ≡ (if delta.run_id == j then written delta.run_id ++ res.event ∷ [] else written j))
    × All (λ x. x.seq < res.event.seq) (written delta.run_id)
    × (get_last_seq delta.run_id store' ≡ pos res.event.seq)
append_assign_seq_lem_example =
    append_assign_seq_lem "e6" 6 delta written apply_writes-IsOrdered_example

free_at_four : find (λ x. x.run_id == delta.run_id && x.seq == 4) (written delta.run_id) ≡ none
unfolding apply_writes append append_assign_seq sort_by_seq insert_by_seq run_event
free_at_four = refl

append_twice_example :
    (stored : RunEvent) × ((append "e7" 7 delta (some 4) written).0
      ≡ some (record { inserted = true; event = stored }))
    × (append "e8" 8
          (record delta { payload = null })
          (some 4)
          (append "e7" 7 delta (some 4) written).1
        ≡ (
          some (record { inserted = false; event = stored }),
          (append "e7" 7 delta (some 4) written).1,
        ))
append_twice_example =
    append_twice "e7" "e8" 7 8 delta (record delta { payload = null }) 4 written free_at_four refl

abbrev later : List (String × ℕ × NewEvent)
later = ("e9", 9, delta) ∷ ("e10", 10, record delta { run_id = "run-2" }) ∷ ("e11", 11, delta) ∷ []

read_on :
    map (λ e. e.seq) (get_events "run-1" (get_last_seq "run-1" written) (assign_all later written))
    ≡ 7 ∷ 8 ∷ []
unfolding apply_writes append append_assign_seq sort_by_seq insert_by_seq run_event get_events
    get_last_seq
read_on = refl

get_events_resume_example :
    get_events "run-1" minus_one written
      ++ get_events "run-1" (get_last_seq "run-1" written) (assign_all later written)
    ≡ get_events "run-1" minus_one (assign_all later written)
get_events_resume_example = get_events_resume writes "run-1" later

includes-detect_gaps_example : includes (detect_gaps "run-1" written).missing_seqs 4 ≡ (
    any (λ e. ltb e.seq 4) (written "run-1")
    && any (λ e. ltb 4 e.seq) (written "run-1")
    && not (any (λ e. e.seq == 4) (written "run-1")))
includes-detect_gaps_example = includes-detect_gaps "run-1" written 4 apply_writes-IsOrdered_example

-- A table that takes a text as a payload, and null in place of everything else.
abbrev kept_payload : Json → Json
kept_payload (str s) = str s
kept_payload v = null

abbrev columns : Columns
columns = record {
  kept = λ e. some (record e { payload = kept_payload e.payload });
  has_run = λ run. run == "run-1" || run == "run-2";
}

writes_taken : TakesWrites columns writes no_events
unfolding run_event
writes_taken = ((refl, refl), ((refl, refl), ((refl, refl), ((refl, refl), ((refl, refl), tt)))))

run_rows-run_store_example :
    ((run_rows columns writes []).0 ≡ (run_store writes no_events).0)
    × ReadsAgree (run_rows columns writes []).1 (run_store writes no_events).1
run_rows-run_store_example = run_rows-run_store columns writes writes_taken

-- The events of the table, read in order, and the last number.
table_run : select_last_seq "run-1" (run_rows columns writes []).1 ≡ pos 6
unfolding run_rows append_row assign_row run_event select_last_seq max_seq
table_run = refl

-- An event of a run that is not there throws.
unknown_run : append_row columns "e9" 9 (record delta { run_id = "run-3" }) (some 1) [] ≡ (none, [])
unfolding append_row run_event
unknown_run = refl
