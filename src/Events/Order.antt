-- ===== src/Events/Order.antt =====
-- The order of a run's events (event-store.ts).
use open_rush.Prelude.{
  ℕ, ◌≤◌, ◌<◌, List, [], ◌∷◌, ◌++◌, ◌≡◌, refl, sym, ◌≢◌, inl, inr, arith, leb, ltb, if◌then◌else◌,
  All, All-append, Bool-cases,
}
use open_rush.Events.{RunEvent, insert_by_seq, sort_by_seq, max_seq}

-- Strictly ascending sequence numbers.
abbrev pub Increasing : List RunEvent → Type 0
Increasing [] = Unit {0}
Increasing (e ∷ es) = All (λ x. e.seq < x.seq) es × Increasing es

module _ (P : RunEvent → Type 0) where
  All-insert_by_seq :
      (e : RunEvent) (es : List RunEvent) → P e → All P es → All P (insert_by_seq e es)
  unfolding insert_by_seq
  All-insert_by_seq e [] p h = (p, tt)
  All-insert_by_seq e (x ∷ xs) p h = elim (Bool-cases (leb e.seq x.seq)) [
    | inl first ↦ rw first (p, h)
    | inr later ↦ rw later (h.0, All-insert_by_seq e xs p h.1)
  ]

  pub All-sort_by_seq : (es : List RunEvent) → All P es → All P (sort_by_seq es)
  unfolding sort_by_seq
  All-sort_by_seq [] h = tt
  All-sort_by_seq (x ∷ xs) h = All-insert_by_seq x (sort_by_seq xs) h.0 (All-sort_by_seq xs h.1)

All-weaken :
    (n m : ℕ) (es : List RunEvent) → n ≤ m → All (λ x. m < x.seq) es → All (λ x. n < x.seq) es
All-weaken n m [] h k = tt
All-weaken n m (x ∷ xs) h k = (omega arith, All-weaken n m xs h k.1)

insert_by_seq-Increasing :
    (e : RunEvent) (es : List RunEvent)
    → Increasing es
    → All (λ x. x.seq ≢ e.seq) es
    → Increasing (insert_by_seq e es)
unfolding insert_by_seq
insert_by_seq-Increasing e [] h k = (tt, tt)
insert_by_seq-Increasing e (x ∷ xs) h k = elim (Bool-cases (leb e.seq x.seq)) [
  | inl first ↦
      let lt : e.seq < x.seq = ground (arith, k.0) in
      rw first ((lt, All-weaken e.seq x.seq xs (omega arith) h.0), h)
  | inr later ↦
      let lt : x.seq < e.seq = ground arith in
      rw later
        (All-insert_by_seq (λ y. x.seq < y.seq) e xs lt h.0, insert_by_seq-Increasing e xs h.1 k.1)
]

pub All-ne_of_lt : (n : ℕ) (es : List RunEvent) → All (λ x. n < x.seq) es → All (λ x. x.seq ≢ n) es
All-ne_of_lt n [] h = tt
All-ne_of_lt n (x ∷ xs) h = (omega arith, All-ne_of_lt n xs h.1)

-- Sorting ascending events with one more, whose number is new, gives ascending events.
pub sort_by_seq-Increasing :
    (es : List RunEvent) (e : RunEvent)
    → Increasing es
    → All (λ x. x.seq ≢ e.seq) es
    → Increasing (sort_by_seq (es ++ e ∷ []))
unfolding sort_by_seq
sort_by_seq-Increasing [] e h k = insert_by_seq-Increasing e [] tt tt
sort_by_seq-Increasing (x ∷ xs) e h k =
    insert_by_seq-Increasing x (sort_by_seq (xs ++ e ∷ [])) (sort_by_seq-Increasing xs e h.1 k.1) (
      All-sort_by_seq (λ y. y.seq ≢ x.seq) (xs ++ e ∷ [])
        (All-append (λ y. y.seq ≢ x.seq) xs (e ∷ []) (All-ne_of_lt x.seq xs h.0)
          ((λ q. k.0 (sym q)), tt)))

insert_by_seq-ge :
    (e : RunEvent) (es : List RunEvent) → All (λ x. e.seq < x.seq) es → insert_by_seq e es ≡ e ∷ es
unfolding insert_by_seq
insert_by_seq-ge e [] h = refl
insert_by_seq-ge e (x ∷ xs) h = ground arith

-- An event above all others goes to the end.
pub sort_by_seq-append :
    (es : List RunEvent) (e : RunEvent)
    → Increasing es
    → All (λ x. x.seq < e.seq) es
    → sort_by_seq (es ++ e ∷ []) ≡ es ++ e ∷ []
unfolding sort_by_seq
sort_by_seq-append [] e h k = insert_by_seq-ge e [] tt
sort_by_seq-append (x ∷ xs) e h k =
    rw (sort_by_seq-append xs e h.1 k.1) (
      insert_by_seq-ge x (xs ++ e ∷ []) (All-append (λ y. x.seq < y.seq) xs (e ∷ []) h.0 (k.0, tt)))

-- `max_seq` is an upper bound, and one of the numbers or the start.
pub max_seq_bounds :
    (m : ℕ) (es : List RunEvent) → (m ≤ max_seq m es) × All (λ x. x.seq ≤ max_seq m es) es
unfolding max_seq
max_seq_bounds m [] = (omega arith, tt)
max_seq_bounds m (e ∷ es) =
    let m' = if ltb m e.seq then e.seq else m in
    let (low, rest) = max_seq_bounds m' es in (ground arith, (ground arith, rest))
