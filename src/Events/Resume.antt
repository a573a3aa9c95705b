-- ===== src/Events/Resume.antt =====
-- Repeating a write, and reading on from a number (event-store.ts).
use open_rush.Prelude.{
  ℕ, ◌<◌, String, Bool, true, false, ◌&&◌, List, [], ◌∷◌, ◌++◌, none, some, ◌≡◌, refl, ap, sym, ◌∙◌,
  inl, inr, arith, ◌==◌, ==-eq, string_eq, nat_eq, eq_iff, All, Bool-cases, find, filter,
}
use open_rush.Prelude.Json.{gt_ℤ}
use open_rush.Events.{
  RunEvent, NewEvent, Store, set_events, insert_by_seq, sort_by_seq, run_event, append, get_events,
  minus_one, last_seq_of, get_last_seq, append_assign_seq,
}
use open_rush.Events.Order.{Increasing}
use open_rush.Events.Append.{
  IsOrdered, append_assign_seq_lem, append_assign_seq-IsOrdered, Write, apply_writes, no_events,
  apply_writes-IsOrdered,
}
use open_rush.Prelude.Pages.{filter-append_last}
use mathlib.Core.List.{append-nil, append_assoc}
use mathlib.Core.Path.{subst}

find-insert_other :
    (p : RunEvent → Bool) (x : RunEvent) (es : List RunEvent)
    → p x ≡ false
    → find p (insert_by_seq x es) ≡ find p es
unfolding insert_by_seq
find-insert_other p x [] h = ground arith
find-insert_other p x (e ∷ es) h = ground (arith, find-insert_other p x es h)

find-insert_self :
    (p : RunEvent → Bool) (x : RunEvent) (es : List RunEvent)
    → p x ≡ true
    → find p es ≡ none
    → find p (insert_by_seq x es) ≡ some x
unfolding insert_by_seq
find-insert_self p x [] h k = ground arith
find-insert_self p x (e ∷ es) h k = ground (arith, find-insert_self p x es h)

find-sort :
    (p : RunEvent → Bool) (es : List RunEvent) (e : RunEvent)
    → find p es ≡ none
    → p e ≡ true
    → find p (sort_by_seq (es ++ e ∷ [])) ≡ some e
unfolding sort_by_seq
find-sort p [] e h k = find-insert_self p e [] k refl
find-sort p (x ∷ xs) e h k =
    ground (arith, find-sort p xs e, find-insert_other p x (sort_by_seq (xs ++ e ∷ [])))

run_event_matches :
    (id : String) (now n : ℕ) (e : NewEvent)
    → ((run_event id now n e).run_id == e.run_id && (run_event id now n e).seq == n) ≡ true
unfolding run_event
run_event_matches id now n e = ground (arith, eq_iff e.run_id e.run_id)

module _ (id : String) (now n : ℕ) (e : NewEvent) (store : Store) where
  append_existing :
      (old : RunEvent)
      → find (λ x. x.run_id == e.run_id && x.seq == n) (store e.run_id) ≡ some old
      → append id now e (some n) store ≡ (some (record { inserted = false; event = old }), store)
  unfolding append
  append_existing old h = rw (h, append) refl

  append_free :
      find (λ x. x.run_id == e.run_id && x.seq == n) (store e.run_id) ≡ none
      → append id now e (some n) store ≡ (
        some (record { inserted = true; event = run_event id now n e }),
        set_events e.run_id (sort_by_seq (store e.run_id ++ run_event id now n e ∷ [])) store,
      )
  unfolding append
  append_free h = rw (h, append) refl

  -- What is found at the number after the insertion.
  find_after :
      find (λ x. x.run_id == e.run_id && x.seq == n) (store e.run_id) ≡ none
      → find
          (λ x. x.run_id == e.run_id && x.seq == n)
          (set_events e.run_id
            (sort_by_seq (store e.run_id ++ run_event id now n e ∷ []))
            store
            e.run_id)
        ≡ some (run_event id now n e)
  find_after h = rw ((eq_iff e.run_id e.run_id).1 refl) (
      find-sort (λ x. x.run_id == e.run_id && x.seq == n) (store e.run_id) (run_event id now n e) h
        (run_event_matches id now n e))

-- Writing at a number that is free inserts the event. Writing at the same number of the same run
-- again, whatever the second event is, inserts nothing and answers the first one.
pub append_twice :
    (id id' : String) (now now' : ℕ) (e e' : NewEvent) (n : ℕ) (store : Store)
    → find (λ x. x.run_id == e.run_id && x.seq == n) (store e.run_id) ≡ none
    → e'.run_id ≡ e.run_id
    → (stored : RunEvent) × ((append id now e (some n) store).0
        ≡ some (record { inserted = true; event = stored }))
      × (append id' now' e' (some n) (append id now e (some n) store).1 ≡ (
        some (record { inserted = false; event = stored }),
        (append id now e (some n) store).1,
      ))
append_twice id id' now now' e e' n store free same =
    let stored = run_event id now n e in
    let after = set_events e.run_id (sort_by_seq (store e.run_id ++ stored ∷ [])) store in
    let first = append_free id now n e store free in
    (
      stored,
      ap (λ p. p.0) first,
      rw first
          (append_existing id' now' n e' after stored (rw same (find_after id now n e store free))),
    )

filter-all : (es : List RunEvent) → filter (λ e. gt_ℤ e.seq minus_one) es ≡ es
filter-all [] = refl
filter-all (e ∷ es) = ap (λ l. e ∷ l) (filter-all es)

-- The last number of a list that ascends, against the list's numbers and against one above them.
first_below_last :
    (n : ℕ) (e : RunEvent) (es : List RunEvent)
    → All (λ x. n < x.seq) (e ∷ es)
    → gt_ℤ n (last_seq_of (e ∷ es)) ≡ false
unfolding last_seq_of
first_below_last n e [] h = ground (arith, h.0)
first_below_last n e (x ∷ es) h = first_below_last n x es h.1

filter-last :
    (es : List RunEvent) → Increasing es → filter (λ e. gt_ℤ e.seq (last_seq_of es)) es ≡ []
unfolding last_seq_of
filter-last [] h = refl
filter-last (e ∷ []) h = ground arith
filter-last (e ∷ x ∷ es) h = rw (first_below_last e.seq x es h.0) (filter-last (x ∷ es) h.1)

above_last :
    (n : ℕ) (es rest : List RunEvent)
    → All (λ x. x.seq < n) (es ++ rest)
    → gt_ℤ n (last_seq_of es) ≡ true
unfolding last_seq_of
above_last n [] rest h = refl
above_last n (e ∷ []) rest h = ground (arith, h.0)
above_last n (e ∷ x ∷ es) rest h = above_last n (x ∷ es) rest h.1

-- Events that came after those that a reader has seen, all with numbers above the last of them.
record Extends (seen es : List RunEvent) : Type 0 where
  rest : List RunEvent
  joined : es ≡ seen ++ rest
  higher : filter (λ e. gt_ℤ e.seq (last_seq_of seen)) rest ≡ rest

Extends-append :
    (seen es : List RunEvent) (e : RunEvent)
    → Extends seen es
    → All (λ x. x.seq < e.seq) es
    → Extends seen (es ++ e ∷ [])
Extends-append seen es e h below =
    let k = last_seq_of seen in
    let top : gt_ℤ e.seq k ≡ true =
      above_last e.seq seen h.rest (subst (All (λ x. x.seq < e.seq)) h.joined below) in
    record {
      rest = h.rest ++ e ∷ [];
      joined = ap (λ l. l ++ e ∷ []) h.joined ∙ append_assoc seen h.rest (e ∷ []);
      higher = filter-append_last (λ x. gt_ℤ x.seq k) h.rest e ∙ rw (top, h.higher) refl;
    }

-- Calls of `appendAssignSeq`, the first one first: the event's id, the time and the event.
abbrev pub assign_all : List (String × ℕ × NewEvent) → Store → Store
assign_all [] store = store
assign_all ((id, now, e) ∷ later) store = assign_all later (append_assign_seq id now e store).1

assign_one :
    (run : String) (seen : List RunEvent) (id : String) (now : ℕ) (e : NewEvent) (store : Store)
    → IsOrdered e.run_id (store e.run_id)
    → Extends seen (store run)
    → Extends seen ((append_assign_seq id now e store).1 run)
assign_one run seen id now e store o h =
    let (put, below, last) = append_assign_seq_lem id now e store o in
    subst (Extends seen) (sym (put run)) (elim (Bool-cases (e.run_id == run)) [
      | inl own ↦
          let same = ==-eq e.run_id run own in
          let at_run = subst (λ r. Extends seen (store r)) (sym same) h in
          rw own (Extends-append seen (store e.run_id) _ at_run below)
      | inr other ↦ rw other h
    ])

assign_all-Extends :
    (run : String) (seen : List RunEvent) (later : List (String × ℕ × NewEvent)) (store : Store)
    → ((r : String) → IsOrdered r (store r))
    → Extends seen (store run)
    → Extends seen (assign_all later store run)
assign_all-Extends run seen [] store o h = h
assign_all-Extends run seen ((id, now, e) ∷ later) store o h =
    assign_all-Extends run seen later (append_assign_seq id now e store).1
      (append_assign_seq-IsOrdered id now e store o)
      (assign_one run seen id now e store (o e.run_id) h)

filter-join :
    (p : RunEvent → Bool) (xs ys : List RunEvent) → filter p (xs ++ ys) ≡ filter p xs ++ filter p ys
filter-join p [] ys = refl
filter-join p (x ∷ xs) ys = elim (Bool-cases (p x)) [
  | inl kept ↦ rw kept (ap (λ l. x ∷ l) (filter-join p xs ys))
  | inr gone ↦ rw gone (filter-join p xs ys)
]

Extends-read :
    (seen es : List RunEvent)
    → Increasing seen
    → Extends seen es
    → seen ++ filter (λ e. gt_ℤ e.seq (last_seq_of seen)) es ≡ es
Extends-read seen es up h =
    let p = λ (e : RunEvent). gt_ℤ e.seq (last_seq_of seen) in
    ap (λ l. seen ++ l)
      (ap (filter p) h.joined
        ∙ filter-join p seen h.rest
        ∙ ap (λ l. l ++ filter p h.rest) (filter-last seen up)
        ∙ h.higher)
    ∙ sym h.joined

-- After any writes, of both kinds and to any runs, a reader gets all events of a run and the last
-- number. Then come any calls of `appendAssignSeq`, for this run and for others. What the reader
-- now gets after that number, put behind what it has, is all of the run's events in their order:
-- it misses none and sees none twice.
pub get_events_resume :
    (ws : List Write) (run : String) (later : List (String × ℕ × NewEvent))
    → let store = apply_writes ws no_events in
      let after = assign_all later store in
      get_events run minus_one store ++ get_events run (get_last_seq run store) after
      ≡ get_events run minus_one after
unfolding get_events get_last_seq
get_events_resume ws run later =
    let store = apply_writes ws no_events in
    let after = assign_all later store in
    let o = λ (r : String). apply_writes-IsOrdered ws r in
    let start : Extends (store run) (store run) = record {
      rest = [];
      joined = sym (append-nil (store run));
      higher = refl;
    } in
    let grown = assign_all-Extends run (store run) later store o start in
    let read = Extends-read (store run) (after run) (o run).ascending grown in
    ap (λ l. l ++ filter (λ e. gt_ℤ e.seq (last_seq_of (store run))) (after run))
      (filter-all (store run))
    ∙ read
    ∙ sym (filter-all (after run))
