-- ===== src/Events/Drizzle/Refines.antt =====
-- `DrizzleEventStore` answers as `InMemoryEventStore` does.
use mathlib.Core.Option.{get_or}
use mathlib.Core.Path.{subst}
use mathlib.Core.List.{append-nil}
use open_rush.Prelude.{
  ℕ, ◌+◌, String, Bool, true, false, List, [], ◌∷◌, ◌++◌, Option, none, some, ◌≡◌, ◌≢◌, refl, sym,
  ap, ◌∙◌, inl, inr, arith, ◌==◌, ==-eq, string_eq, nat_eq, All, Bool-cases, Option-cases, any,
  find,
}
use open_rush.Events.{
  RunEvent, NewEvent, InsertResult, Store, set_events, sort_by_seq, run_event, append,
  append_assign_seq, max_seq, insert_by_seq,
}
use open_rush.Events.Order.{Increasing, max_seq_bounds}
use open_rush.Prelude.Pages.{filter-append_last}
use open_rush.Events.Append.{
  IsOrdered, Write, at_seq, assigned, append-IsOrdered, append_assign_seq-IsOrdered, find-none-ne,
  All-ne_of_le,
}
use open_rush.Events.Sorting.{
  sort-append_new, sort-Increasing, sort-All, find-sort_by_seq, find-numbered-none, max_seq-sort,
}
use open_rush.Events.Drizzle.{
  Rows, Columns, is_row, rows_of, insert_row, append_row, assign_row, sql_max,
}

-- What the table holds for a run, in the order of the numbers.
abbrev pub View : Rows → Store → Type 0
View rows store = (run : String) → sort_by_seq (rows_of run rows) ≡ store run

abbrev pub Ordered : Store → Type 0
Ordered store = (run : String) → IsOrdered run (store run)

-- A row of a run is looked up among the run's rows.
find-rows_of :
    (run : String) (n : ℕ) (rows : Rows)
    → find (is_row run n) (rows_of run rows) ≡ find (is_row run n) rows
find-rows_of run n [] = refl
find-rows_of run n (e ∷ rows) = elim (Bool-cases (e.run_id == run)) [
  | inl own ↦ rw own (ground (arith, find-rows_of run n rows))
  | inr other ↦ rw other (find-rows_of run n rows)
]

pub find-View :
    (run : String) (n : ℕ) (rows : Rows) (store : Store)
    → View rows store
    → Ordered store
    → find (is_row run n) (store run) ≡ find (is_row run n) rows
find-View run n rows store view ordered =
    let sorted = subst Increasing (sym (view run)) (ordered run).ascending in
    ap (find (is_row run n)) (sym (view run))
    ∙ find-sort_by_seq run n (rows_of run rows) sorted
    ∙ find-rows_of run n rows

sql_max_lem : (rows : Rows) → get_or (sql_max rows) 0 ≡ max_seq 0 rows
unfolding max_seq
sql_max_lem [] = refl
sql_max_lem (e ∷ es) = ap (λ m. max_seq m es) (ground arith)

max_seq-View :
    (run : String) (rows : Rows) (store : Store)
    → View rows store
    → get_or (sql_max (rows_of run rows)) 0 ≡ max_seq 0 (store run)
max_seq-View run rows store view =
    sql_max_lem (rows_of run rows)
    ∙ sym (max_seq-sort 0 (rows_of run rows))
    ∙ ap (max_seq 0) (view run)

-- A row with a new number, added on both sides.
View-insert :
    (e : RunEvent) (rows : Rows) (store : Store)
    → View rows store
    → Ordered store
    → All (λ x. x.seq ≢ e.seq) (store e.run_id)
    → View (rows ++ e ∷ []) (set_events e.run_id (sort_by_seq (store e.run_id ++ e ∷ [])) store)
View-insert e rows store view ordered new run = elim (Bool-cases (e.run_id == run)) [
  | inl own ↦
      let at_run = subst (λ r. All (λ x. x.seq ≢ e.seq) (store r)) (==-eq e.run_id run own) new in
      let fresh =
        sort-All (λ x. x.seq ≢ e.seq) (rows_of run rows)
          (subst (All (λ x. x.seq ≢ e.seq)) (sym (view run)) at_run) in
      let left : sort_by_seq (rows_of run rows ++ e ∷ []) ≡ insert_by_seq e (store run) =
        sort-append_new (rows_of run rows) e fresh ∙ ap (insert_by_seq e) (view run) in
      let right : sort_by_seq (store run ++ e ∷ []) ≡ insert_by_seq e (store run) =
        sort-append_new (store run) e at_run
        ∙ ap (insert_by_seq e) (sort-Increasing (store run) (ordered run).ascending) in
      let same = ==-eq e.run_id run own in
      rw (filter-append_last (λ x. x.run_id == run) rows e, own)
        (left ∙ sym right ∙ ap (λ r. sort_by_seq (store r ++ e ∷ [])) (sym same))
  | inr other ↦
      rw (filter-append_last (λ x. x.run_id == run) rows e, other)
        (ap sort_by_seq (append-nil (rows_of run rows)) ∙ view run)
]

any-find : (p : RunEvent → Bool) (rows : Rows) → find p rows ≡ none → any p rows ≡ false
any-find p [] h = refl
any-find p (e ∷ rows) h = ground (arith, any-find p rows)

find-any :
    (p : RunEvent → Bool) (rows : Rows) (e : RunEvent) → find p rows ≡ some e → any p rows ≡ true
find-any p [] e h = ground arith
find-any p (x ∷ rows) e h = ground (arith, find-any p rows e)

-- The result of a write and what it leaves, on both sides.
abbrev pub write_row : Columns → Write → Rows → Option InsertResult × Rows
write_row db (at_seq id now e n) rows = append_row db id now e n rows
write_row db (assigned id now e) rows = assign_row db id now e rows

-- The columns keep the row of an event as it is, and there is the run that it names.
abbrev pub Takes : Columns → String → ℕ → ℕ → NewEvent → Type 0
Takes db id now n e =
    (db.kept (run_event id now n e) ≡ some (run_event id now n e)) × (db.has_run e.run_id ≡ true)

-- The same for the row of a write, where the store has these events.
abbrev pub TakesWrite : Columns → Write → Store → Type 0
TakesWrite db (at_seq id now e none) store = Unit
TakesWrite db (at_seq id now e (some n)) store = Takes db id now n e
TakesWrite db (assigned id now e) store = Takes db id now (max_seq 0 (store e.run_id) + 1) e

abbrev some_first : InsertResult × Store → Option InsertResult × Store
some_first (r, store) = (some r, store)

abbrev pub write_store : Write → Store → Option InsertResult × Store
write_store (at_seq id now e n) store = append id now e n store
write_store (assigned id now e) store = some_first (append_assign_seq id now e store)

-- A row whose number is new to its run is inserted.
insert_row-new :
    (db : Columns) (e : RunEvent) (rows : Rows) (store : Store)
    → db.kept e ≡ some e
    → db.has_run e.run_id ≡ true
    → View rows store
    → Ordered store
    → All (λ x. x.seq ≢ e.seq) (store e.run_id)
    → insert_row db e rows ≡ (some (some e), rows ++ e ∷ [])
insert_row-new db e rows store same known view ordered new =
    let absent =
      sym (find-View e.run_id e.seq rows store view ordered)
      ∙ find-numbered-none e.run_id e.seq (store e.run_id) new in
    rw (same, any-find (is_row e.run_id e.seq) rows absent, known) refl

abbrev Agree : Option InsertResult × Rows → Option InsertResult × Store → Type 0
Agree left right = (left.0 ≡ right.0) × View left.1 right.1

module _ (db : Columns) where
  append_row-Agree :
      (id : String) (now n : ℕ) (e : NewEvent) (rows : Rows) (store : Store)
      → Takes db id now n e
      → View rows store
      → Ordered store
      → Agree (append_row db id now e (some n) rows) (append id now e (some n) store)
  unfolding append_row append run_event
  append_row-Agree id now n e rows store (same, known) view ordered =
      elim (Option-cases (find (is_row e.run_id n) rows)) [
        | inl absent ↦
            let missing = find-View e.run_id n rows store view ordered ∙ absent in
            let new = find-none-ne e.run_id n (store e.run_id) (ordered e.run_id).own missing in
            let row = run_event id now n e in
            rw (insert_row-new db row rows store same known view ordered new, append, missing)
              (refl, View-insert row rows store view ordered new)
        | inr (old, present) ↦
            let found = find-View e.run_id n rows store view ordered ∙ present in
            rw (same, find-any (is_row e.run_id n) rows old present, present, append, found)
              (refl, view)
      ]

  assign_row-Agree :
      (id : String) (now : ℕ) (e : NewEvent) (rows : Rows) (store : Store)
      → Takes db id now (max_seq 0 (store e.run_id) + 1) e
      → View rows store
      → Ordered store
      → Agree (assign_row db id now e rows) (some_first (append_assign_seq id now e store))
  unfolding assign_row append_assign_seq run_event
  assign_row-Agree id now e rows store (same, known) view ordered =
      let top = max_seq 0 (store e.run_id) in
      let new = All-ne_of_le top (store e.run_id) (max_seq_bounds 0 (store e.run_id)).1 in
      let row = run_event id now (top + 1) e in
      rw
        (
          max_seq-View e.run_id rows store view,
          insert_row-new db row rows store same known view ordered new,
        )
        (refl, View-insert row rows store view ordered new)

  write_lem :
      (w : Write) (rows : Rows) (store : Store)
      → TakesWrite db w store
      → View rows store
      → Ordered store
      → Agree (write_row db w rows) (write_store w store)
  write_lem (at_seq id now e none) rows store takes view ordered =
      unfold append_row append in (refl, view)
  write_lem (at_seq id now e (some n)) rows store takes view ordered =
      append_row-Agree id now n e rows store takes view ordered
  write_lem (assigned id now e) rows store takes view ordered =
      assign_row-Agree id now e rows store takes view ordered

write_store-Ordered : (w : Write) (store : Store) → Ordered store → Ordered (write_store w store).1
write_store-Ordered (at_seq id now e n) store h = append-IsOrdered id now e n store h
write_store-Ordered (assigned id now e) store h = append_assign_seq-IsOrdered id now e store h

-- Writes one after the other: their results, and what they leave.
abbrev pub note {ℓ} :
    {A : Type ℓ}
    → Option InsertResult
    → List (Option InsertResult) × A
    → List (Option InsertResult) × A
note r (rs, a) = (r ∷ rs, a)

unfoldable pub run_rows : Columns → List Write → Rows → List (Option InsertResult) × Rows
run_rows db [] rows = ([], rows)
run_rows db (w ∷ ws) rows = let (r, rows') = write_row db w rows in note r (run_rows db ws rows')

unfoldable pub run_store : List Write → Store → List (Option InsertResult) × Store
run_store [] store = ([], store)
run_store (w ∷ ws) store = let (r, store') = write_store w store in note r (run_store ws store')

-- The same for writes one after the other.
abbrev pub TakesWrites : Columns → List Write → Store → Type 0
TakesWrites db [] store = Unit
TakesWrites db (w ∷ ws) store = TakesWrite db w store × TakesWrites db ws (write_store w store).1

pub runs_lem :
    (db : Columns) (ws : List Write) (rows : Rows) (store : Store)
    → TakesWrites db ws store
    → View rows store
    → Ordered store
    → ((run_rows db ws rows).0 ≡ (run_store ws store).0)
      × View (run_rows db ws rows).1 (run_store ws store).1
      × Ordered (run_store ws store).1
unfolding run_rows run_store
runs_lem db [] rows store takes view ordered = (refl, view, ordered)
runs_lem db (w ∷ ws) rows store takes view ordered =
    let (same, seen) = write_lem db w rows store takes.0 view ordered in
    let (rest, after, kept) =
      runs_lem db ws _ _ takes.1 seen (write_store-Ordered w store ordered) in
    (rw (same, rest), after, kept)
