-- ===== src/Events/Drizzle/Reads.antt =====
-- The queries of `DrizzleEventStore` and the reads of `InMemoryEventStore`.
use mathlib.Core.Path.{subst}
use open_rush.Prelude.{
  ℕ, ◌≤◌, String, List, [], ◌∷◌, map, ◌≡◌, refl, sym, ap, ◌∙◌, inl, inr, arith, leb, ltb,
  if◌then◌else◌, ◌==◌, string_eq, nat_eq, Bool-cases, filter,
}
use open_rush.Prelude.Json.{ℤ, pos, negsuc, gt_ℤ}
use open_rush.Prelude.Pages.{sort_by, insert_by, filter-and}
use open_rush.Events.{
  RunEvent, Store, insert_by_seq, sort_by_seq, get_events, get_last_seq, detect_gaps, minus_one,
  last_seq_of, gaps_of, sort_seqs,
}
use open_rush.Events.Order.{Increasing}
use open_rush.Events.Append.{Write, no_events}
use open_rush.Events.Sorting.{filter-sort, insert-Increasing}
use open_rush.Events.Drizzle.{
  Columns, Rows, rows_of, select_events, select_last_seq, select_gaps, seq_desc, head_seq,
}
use open_rush.Events.Drizzle.Refines.{TakesWrites, View, Ordered, run_rows, run_store, runs_lem}

abbrev above : ℕ → ℤ → ℤ
above n (pos m) = pos (if ltb m n then n else m)
above n (negsuc k) = pos n

abbrev top : Rows → ℤ
top [] = minus_one
top (e ∷ rows) = above e.seq (top rows)

head_seq-insert :
    (x : RunEvent) (rows : Rows)
    → head_seq (insert_by seq_desc x rows) ≡ above x.seq (head_seq rows)
head_seq-insert x [] = refl
head_seq-insert x (y ∷ rows) = ground arith

head_seq-sort : (rows : Rows) → head_seq (sort_by seq_desc rows) ≡ top rows
head_seq-sort [] = refl
head_seq-sort (x ∷ rows) =
    head_seq-insert x (sort_by seq_desc rows) ∙ ap (above x.seq) (head_seq-sort rows)

last_at_least :
    (z : RunEvent) (es : List RunEvent)
    → Increasing (z ∷ es)
    → (m : ℕ) × (last_seq_of (z ∷ es) ≡ pos m) × (z.seq ≤ m)
unfolding last_seq_of
last_at_least z [] h = (z.seq, refl, omega arith)
last_at_least z (y ∷ es) h =
    let (m, last, low) = last_at_least y es h.1 in (m, last, omega (arith, low, h.0.0))

last_seq_of_skip :
    (x y z : RunEvent) (es : List RunEvent)
    → last_seq_of (y ∷ insert_by_seq x (z ∷ es)) ≡ last_seq_of (insert_by_seq x (z ∷ es))
unfolding last_seq_of insert_by_seq
last_seq_of_skip x y z es = elim (Bool-cases (leb x.seq z.seq)) [
  | inl first ↦ rw first
  | inr later ↦ rw later
]

last_seq_of-insert :
    (x : RunEvent) (es : List RunEvent)
    → Increasing es
    → last_seq_of (insert_by_seq x es) ≡ above x.seq (last_seq_of es)
unfolding last_seq_of insert_by_seq
last_seq_of-insert x [] h = refl
last_seq_of-insert x (y ∷ []) h = elim (Bool-cases (leb x.seq y.seq)) [
  | inl first ↦ rw first (ap pos (ground arith))
  | inr later ↦ rw later (ap pos (ground arith))
]
last_seq_of-insert x (y ∷ z ∷ es) h = elim (Bool-cases (leb x.seq y.seq)) [
  | inl first ↦
      let (m, last, low) = last_at_least z es h.1 in
      rw (first, last) (ap pos (ground (arith, low, h.0.0)))
  | inr later ↦ rw later (last_seq_of_skip x y z es ∙ last_seq_of-insert x (z ∷ es) h.1)
]

last_seq_of-sort :
    (rows : Rows) → Increasing (sort_by_seq rows) → last_seq_of (sort_by_seq rows) ≡ top rows
unfolding sort_by_seq
last_seq_of-sort [] h = unfold last_seq_of in refl
last_seq_of-sort (x ∷ rows) h =
    let (rest, new) = insert-Increasing x (sort_by_seq rows) h in
    last_seq_of-insert x (sort_by_seq rows) rest ∙ ap (above x.seq) (last_seq_of-sort rows rest)

-- The three reads agree.
pub record ReadsAgree (rows : Rows) (store : Store) : Type 0 where
  pub events :
      (run : String) (after : ℤ) → select_events run after rows ≡ get_events run after store
  pub last_seq : (run : String) → select_last_seq run rows ≡ get_last_seq run store
  pub gaps : (run : String) → select_gaps run rows ≡ detect_gaps run store

module _ (rows : Rows) (store : Store) (view : View rows store) (ordered : Ordered store) where
  sorted : (run : String) → Increasing (sort_by_seq (rows_of run rows))
  sorted run = subst Increasing (sym (view run)) (ordered run).ascending

  events_agree :
      (run : String) (after : ℤ) → select_events run after rows ≡ get_events run after store
  unfolding select_events get_events
  events_agree run after = rw (filter-and (λ e. e.run_id == run) (λ e. gt_ℤ e.seq after) rows) (
      filter-sort (λ e. gt_ℤ e.seq after) (rows_of run rows) (sorted run)
      ∙ ap (filter (λ e. gt_ℤ e.seq after)) (view run))

  last_seq_agrees : (run : String) → select_last_seq run rows ≡ get_last_seq run store
  unfolding select_last_seq get_last_seq
  last_seq_agrees run =
      head_seq-sort (rows_of run rows)
      ∙ sym (last_seq_of-sort (rows_of run rows) (sorted run))
      ∙ ap last_seq_of (view run)

  filter_whole : (es : List RunEvent) → filter (λ e. gt_ℤ e.seq minus_one) es ≡ es
  filter_whole [] = refl
  filter_whole (e ∷ es) = ap (λ r. e ∷ r) (filter_whole es)

  gaps_agree : (run : String) → select_gaps run rows ≡ detect_gaps run store
  unfolding select_gaps detect_gaps
  gaps_agree run =
      let all : get_events run minus_one store ≡ store run =
        unfold get_events in filter_whole (store run) in
      ap (λ es. gaps_of (sort_seqs (map (λ e. e.seq) es))) (events_agree run minus_one ∙ all)

-- Where the columns of the table keep each row that is written as it is and there are the runs that
-- the writes name: from an empty table and an empty store, the same writes, with the ids and the
-- times that the database drew, have the same results in `DrizzleEventStore` as in
-- `InMemoryEventStore`, errors for a number that is none included, and leave the two with the same
-- answers to `getEvents`, `getLastSeq` and `detectGaps`.
pub run_rows-run_store :
    (db : Columns) (ws : List Write)
    → TakesWrites db ws no_events
    → ((run_rows db ws []).0 ≡ (run_store ws no_events).0)
      × ReadsAgree (run_rows db ws []).1 (run_store ws no_events).1
run_rows-run_store db ws takes =
    let (same, view, ordered) =
      runs_lem db ws [] no_events takes (λ run. unfold sort_by_seq in refl)
        (λ run. record { ascending = tt; own = tt }) in
    (
      same,
      record {
        events = events_agree _ _ view ordered;
        last_seq = last_seq_agrees _ _ view ordered;
        gaps = gaps_agree _ _ view ordered;
      },
    )
