-- ===== src/Events/Append.antt =====
-- What `append`, `appendAssignSeq` and `getEvents` promise (event-store.ts).
use open_rush.Prelude.{
  ℕ, ◌+◌, ◌≤◌, ◌<◌, String, ◌&&◌, List, [], ◌∷◌, ◌++◌, Option, none, some, ◌≡◌, refl, ap, ◌∙◌, ◌≢◌,
  inl, inr, arith, if◌then◌else◌, ◌==◌, string_eq, nat_eq, eq_iff, All, All-append, Bool-cases,
  Option-cases, find,
}
use mathlib.Core.Path.{subst}
use open_rush.Prelude.Json.{pos}
use open_rush.Events.{
  RunEvent, NewEvent, Store, set_events, sort_by_seq, run_event, append, max_seq, append_assign_seq,
  last_seq_of, get_last_seq,
}
use open_rush.Events.Order.{
  Increasing, All-sort_by_seq, sort_by_seq-Increasing, sort_by_seq-append, max_seq_bounds,
}

-- The events of a run are in strictly ascending order of their numbers, and are its own.
pub record IsOrdered (run : String) (es : List RunEvent) : Type 0 where
  pub ascending : Increasing es
  pub own : All (λ e. e.run_id ≡ run) es

run_event-run : (id : String) (now n : ℕ) (e : NewEvent) → (run_event id now n e).run_id ≡ e.run_id
unfolding run_event
run_event-run id now n e = refl

run_event-seq : (id : String) (now n : ℕ) (e : NewEvent) → (run_event id now n e).seq ≡ n
unfolding run_event
run_event-seq id now n e = refl

pub find-none-ne :
    (run : String) (n : ℕ) (es : List RunEvent)
    → All (λ e. e.run_id ≡ run) es
    → find (λ x. x.run_id == run && x.seq == n) es ≡ none
    → All (λ x. x.seq ≢ n) es
find-none-ne run n [] h k = tt
find-none-ne run n (e ∷ es) h k = (
  ground (arith, eq_iff e.run_id run, h.0),
  find-none-ne run n es h.1 (ground (arith, eq_iff e.run_id run, h.0)),
)

sort-IsOrdered :
    (run : String) (es : List RunEvent) (e : RunEvent)
    → IsOrdered run es
    → e.run_id ≡ run
    → All (λ x. x.seq ≢ e.seq) es
    → IsOrdered run (sort_by_seq (es ++ e ∷ []))
sort-IsOrdered run es e o own new = record {
  ascending = sort_by_seq-Increasing es e o.ascending new;
  own =
      All-sort_by_seq (λ x. x.run_id ≡ run) (es ++ e ∷ [])
        (All-append (λ x. x.run_id ≡ run) es (e ∷ []) o.own (own, tt));
}

set_events-IsOrdered :
    (run j : String) (es : List RunEvent) (store : Store)
    → IsOrdered run es
    → IsOrdered j (store j)
    → IsOrdered j (set_events run es store j)
set_events-IsOrdered run j es store new old = elim (Bool-cases (run == j)) [
  | inl same ↦ rw same (subst (λ k. IsOrdered k es) ((eq_iff run j).0 same) new)
  | inr other ↦ rw other old
]

-- The stored events after an insertion.
insert-IsOrdered :
    (id : String) (now n : ℕ) (e : NewEvent) (store : Store) (j : String)
    → ((run : String) → IsOrdered run (store run))
    → All (λ x. x.seq ≢ n) (store e.run_id)
    → IsOrdered j
        (set_events e.run_id (sort_by_seq (store e.run_id ++ run_event id now n e ∷ [])) store j)
insert-IsOrdered id now n e store j h new =
    set_events-IsOrdered e.run_id j (sort_by_seq (store e.run_id ++ run_event id now n e ∷ []))
      store
      (sort-IsOrdered e.run_id (store e.run_id) (run_event id now n e) (h e.run_id)
        (run_event-run id now n e) (rw (run_event-seq id now n e) new))
      (h j)

pub append-IsOrdered :
    (id : String) (now : ℕ) (e : NewEvent) (n : Option ℕ) (store : Store)
    → ((run : String) → IsOrdered run (store run))
    → (j : String) → IsOrdered j ((append id now e n store).1 j)
unfolding append
append-IsOrdered id now e none store h j = h j
append-IsOrdered id now e (some n) store h j =
    elim (Option-cases (find (λ x. x.run_id == e.run_id && x.seq == n) (store e.run_id))) [
      | inr (old, found) ↦ rw (found, append) (h j)
      | inl fresh ↦
          rw (fresh, append)
            (insert-IsOrdered id now n e store j h
              (find-none-ne e.run_id n (store e.run_id) (h e.run_id).own fresh))
    ]

pub All-ne_of_le :
    (n : ℕ) (es : List RunEvent) → All (λ x. x.seq ≤ n) es → All (λ x. x.seq ≢ n + 1) es
All-ne_of_le n [] h = tt
All-ne_of_le n (e ∷ es) h = (omega arith, All-ne_of_le n es h.1)

pub append_assign_seq-IsOrdered :
    (id : String) (now : ℕ) (e : NewEvent) (store : Store)
    → ((run : String) → IsOrdered run (store run))
    → (j : String) → IsOrdered j ((append_assign_seq id now e store).1 j)
unfolding append_assign_seq
append_assign_seq-IsOrdered id now e store h j =
    insert-IsOrdered id now (max_seq 0 (store e.run_id) + 1) e store j h (
      All-ne_of_le (max_seq 0 (store e.run_id)) (store e.run_id)
        (max_seq_bounds 0 (store e.run_id)).1)

-- The two ways to write: with a number of the caller's, and with one that the store assigns.
pub data Write : Type 0 where
  at_seq : String → ℕ → NewEvent → Option ℕ → Write
  assigned : String → ℕ → NewEvent → Write

unfoldable pub apply_write : Write → Store → Store
apply_write (at_seq id now e n) store = (append id now e n store).1
apply_write (assigned id now e) store = (append_assign_seq id now e store).1

unfoldable pub apply_writes : List Write → Store → Store
unfolding apply_write
apply_writes [] store = store
apply_writes (w ∷ ws) store = apply_writes ws (apply_write w store)

abbrev pub no_events : Store
no_events run = []

apply_writes_keeps :
    (ws : List Write) (store : Store)
    → ((run : String) → IsOrdered run (store run))
    → (run : String) → IsOrdered run (apply_writes ws store run)
unfolding apply_writes
apply_writes_keeps [] store h = h
apply_writes_keeps (at_seq id now e n ∷ ws) store h =
    apply_writes_keeps ws (append id now e n store).1 (append-IsOrdered id now e n store h)
apply_writes_keeps (assigned id now e ∷ ws) store h =
    apply_writes_keeps ws (append_assign_seq id now e store).1
      (append_assign_seq-IsOrdered id now e store h)

-- After any writes, of both kinds and to any runs, the events of each run are its own and stand in
-- strictly ascending order of their numbers: no number is given twice.
pub apply_writes-IsOrdered :
    (ws : List Write) (run : String) → IsOrdered run (apply_writes ws no_events run)
apply_writes-IsOrdered ws run =
    apply_writes_keeps ws no_events (λ r. record { ascending = tt; own = tt }) run

All-le-lt : (n : ℕ) (es : List RunEvent) → All (λ x. x.seq ≤ n) es → All (λ x. x.seq < n + 1) es
All-le-lt n [] h = tt
All-le-lt n (e ∷ es) h = (omega arith, All-le-lt n es h.1)

last_seq_of-append : (es : List RunEvent) (e : RunEvent) → last_seq_of (es ++ e ∷ []) ≡ pos e.seq
unfolding last_seq_of
last_seq_of-append [] e = refl
last_seq_of-append (x ∷ []) e = refl
last_seq_of-append (x ∷ y ∷ ys) e = last_seq_of-append (y ∷ ys) e

last_after :
    (run : String) (es : List RunEvent) (store : Store) (e : RunEvent)
    → last_seq_of es ≡ pos e.seq
    → get_last_seq run (set_events run es store) ≡ pos e.seq
unfolding get_last_seq
last_after run es store e h = ground (arith, eq_iff run run)

-- On a run in order, `appendAssignSeq` puts the new event at the end, with a number above all that
-- are there, which `getLastSeq` then answers; the other runs keep their events.
pub append_assign_seq_lem :
    (id : String) (now : ℕ) (e : NewEvent) (store : Store)
    → IsOrdered e.run_id (store e.run_id)
    → let (res, store') = append_assign_seq id now e store in
      ((j : String)
        → store' j ≡ (if e.run_id == j then store e.run_id ++ res.event ∷ [] else store j))
      × All (λ x. x.seq < res.event.seq) (store e.run_id)
      × (get_last_seq e.run_id store' ≡ pos res.event.seq)
unfolding append_assign_seq
append_assign_seq_lem id now e store o =
    let es = store e.run_id in
    let stored = run_event id now (max_seq 0 es + 1) e in
    let below : All (λ x. x.seq < stored.seq) es =
      rw (run_event-seq id now (max_seq 0 es + 1) e)
        (All-le-lt (max_seq 0 es) es (max_seq_bounds 0 es).1) in
    let sorted = sort_by_seq-append es stored o.ascending below in
    (
      λ j. ap (λ l. if e.run_id == j then l else store j) sorted,
      below,
      last_after e.run_id (sort_by_seq (es ++ stored ∷ [])) store stored
          (ap last_seq_of sorted ∙ last_seq_of-append es stored),
    )
