-- ===== src/Events/Sorting.antt =====
-- Sorting by number, and what does not depend on the order of the rows (drizzle-event-store.ts).
use open_rush.Prelude.{
  ℕ, ◌≤◌, ◌<◌, String, Bool, true, false, ◌&&◌, List, [], ◌∷◌, ◌++◌, none, some, ◌≡◌, ◌≢◌, refl,
  sym, ap, ◌∙◌, inl, inr, arith, leb, ltb, if◌then◌else◌, ◌==◌, string_eq, nat_eq, All, All-filter,
  Bool-cases, find, filter,
}
use mathlib.Core.Path.{subst}
use open_rush.Events.{RunEvent, insert_by_seq, sort_by_seq, max_seq}
use open_rush.Events.Order.{Increasing, All-ne_of_lt}

insert_comm :
    (x y : RunEvent) (es : List RunEvent)
    → x.seq ≢ y.seq
    → insert_by_seq x (insert_by_seq y es) ≡ insert_by_seq y (insert_by_seq x es)
unfolding insert_by_seq
insert_comm x y [] h = ground arith
insert_comm x y (z ∷ es) h = ground (arith, insert_comm x y es h)

abbrev Above : ℕ → List RunEvent → Type 0
Above n = All (λ y. n ≤ y.seq)

Above-weaken : (m n : ℕ) (es : List RunEvent) → m ≤ n → All (λ y. n < y.seq) es → Above m es
Above-weaken m n [] h k = tt
Above-weaken m n (y ∷ es) h k = (omega (arith, h, k.0), Above-weaken m n es h k.1)

insert_first : (x : RunEvent) (es : List RunEvent) → Above x.seq es → insert_by_seq x es ≡ x ∷ es
unfolding insert_by_seq
insert_first x [] h = refl
insert_first x (y ∷ es) h = ground (arith, h.0)

pub sort-append_new :
    (es : List RunEvent) (y : RunEvent)
    → All (λ x. x.seq ≢ y.seq) es
    → sort_by_seq (es ++ y ∷ []) ≡ insert_by_seq y (sort_by_seq es)
unfolding sort_by_seq
sort-append_new [] y h = refl
sort-append_new (x ∷ es) y h =
    ap (insert_by_seq x) (sort-append_new es y h.1) ∙ insert_comm x y (sort_by_seq es) h.0

pub sort-Increasing : (es : List RunEvent) → Increasing es → sort_by_seq es ≡ es
unfolding sort_by_seq
sort-Increasing [] h = refl
sort-Increasing (x ∷ es) h =
    rw (sort-Increasing es h.1) (insert_first x es (Above-weaken x.seq x.seq es (omega arith) h.0))

module _ (P : RunEvent → Type 0) where
  insert-All : (x : RunEvent) (es : List RunEvent) → All P (insert_by_seq x es) → P x × All P es
  unfolding insert_by_seq
  insert-All x [] h = (h.0, tt)
  insert-All x (y ∷ es) h = elim (Bool-cases (leb x.seq y.seq)) [
    | inl first ↦ rw first at h
    | inr later ↦
        let parts : P y × All P (insert_by_seq x es) = rw later at h in
        let (px, rest) = insert-All x es parts.1 in (px, (parts.0, rest))
  ]

  pub sort-All : (es : List RunEvent) → All P (sort_by_seq es) → All P es
  unfolding sort_by_seq
  sort-All [] h = tt
  sort-All (x ∷ es) h = let (px, rest) = insert-All x (sort_by_seq es) h in (px, sort-All es rest)

-- An insertion into ascending events that gives ascending events is of a new number.
pub insert-Increasing :
    (x : RunEvent) (es : List RunEvent)
    → Increasing (insert_by_seq x es)
    → Increasing es × All (λ y. y.seq ≢ x.seq) es
unfolding insert_by_seq
insert-Increasing x [] h = (tt, tt)
insert-Increasing x (y ∷ es) h = elim (Bool-cases (leb x.seq y.seq)) [
  | inl first ↦
      let parts : Increasing (x ∷ y ∷ es) = rw first at h in
      (parts.1, All-ne_of_lt x.seq (y ∷ es) parts.0)
  | inr later ↦
      let parts : Increasing (y ∷ insert_by_seq x es) = rw later at h in
      let (rest, new) = insert-Increasing x es parts.1 in
      let (above, others) = insert-All (λ z. y.seq < z.seq) x es parts.0 in
      ((others, rest), ((λ e. omega (arith, e, above)), new))
]

find-insert :
    (p : RunEvent → Bool) (x : RunEvent) (es : List RunEvent)
    → (p x ≡ true → find p es ≡ none)
    → find p (insert_by_seq x es) ≡ find p (x ∷ es)
unfolding insert_by_seq
find-insert p x [] h = refl
find-insert p x (y ∷ es) h = elim (Bool-cases (leb x.seq y.seq)) [
  | inl first ↦ rw first
  | inr later ↦
      let rest = find-insert p x es (λ k. ground (arith, h k)) in
      elim (Bool-cases (p x)) [
        | inl here ↦ ground (arith, h here, rest)
        | inr there ↦ ground (arith, rest)
      ]
]

abbrev pub numbered : String → ℕ → RunEvent → Bool
numbered run n e = e.run_id == run && e.seq == n

pub find-numbered-none :
    (run : String) (n : ℕ) (es : List RunEvent)
    → All (λ y. y.seq ≢ n) es
    → find (numbered run n) es ≡ none
find-numbered-none run n [] h = refl
find-numbered-none run n (y ∷ es) h = ground (arith, h.0, find-numbered-none run n es h.1)

pub find-sort_by_seq :
    (run : String) (n : ℕ) (es : List RunEvent)
    → Increasing (sort_by_seq es)
    → find (numbered run n) (sort_by_seq es) ≡ find (numbered run n) es
unfolding sort_by_seq
find-sort_by_seq run n [] h = refl
find-sort_by_seq run n (x ∷ es) h =
    let (rest, new) = insert-Increasing x (sort_by_seq es) h in
    let alone : numbered run n x ≡ true → find (numbered run n) (sort_by_seq es) ≡ none = λ k.
      let same : x.seq ≡ n = ground (arith, k) in
      find-numbered-none run n (sort_by_seq es)
        (subst (λ m. All (λ y. y.seq ≢ m) (sort_by_seq es)) same new) in
    find-insert (numbered run n) x (sort_by_seq es) alone
    ∙ ap (λ o. if numbered run n x then some x else o) (find-sort_by_seq run n es rest)

insert-filter :
    (p : RunEvent → Bool) (x : RunEvent) (es : List RunEvent)
    → Increasing es
    → p x ≡ true
    → filter p (insert_by_seq x es) ≡ insert_by_seq x (filter p es)
unfolding insert_by_seq
insert-filter p x [] h k = rw k
insert-filter p x (y ∷ es) h k = elim (Bool-cases (leb x.seq y.seq)) [
  | inl first ↦
      let low : Above x.seq (y ∷ es) =
        (ground arith, Above-weaken x.seq y.seq es (ground arith) h.0) in
      rw (first, k) (sym (insert_first x (filter p (y ∷ es)) (All-filter _ p (y ∷ es) low)))
  | inr later ↦ elim (Bool-cases (p y)) [
    | inl kept ↦ rw (later, kept) (rw later (ap (λ r. y ∷ r) (insert-filter p x es h.1 k)))
    | inr gone ↦ rw (later, gone) (insert-filter p x es h.1 k)
  ]
]

skip-filter :
    (p : RunEvent → Bool) (x : RunEvent) (es : List RunEvent)
    → p x ≡ false
    → filter p (insert_by_seq x es) ≡ filter p es
unfolding insert_by_seq
skip-filter p x [] k = rw k
skip-filter p x (y ∷ es) k = ground (arith, k, skip-filter p x es k)

pub filter-sort :
    (p : RunEvent → Bool) (es : List RunEvent)
    → Increasing (sort_by_seq es)
    → sort_by_seq (filter p es) ≡ filter p (sort_by_seq es)
unfolding sort_by_seq
filter-sort p [] h = refl
filter-sort p (x ∷ es) h =
    let (rest, new) = insert-Increasing x (sort_by_seq es) h in
    elim (Bool-cases (p x)) [
      | inl kept ↦ rw (kept, insert-filter p x (sort_by_seq es) rest kept, filter-sort p es rest)
      | inr gone ↦ rw (gone, skip-filter p x (sort_by_seq es) gone, filter-sort p es rest)
    ]

max_seq-insert :
    (m : ℕ) (x : RunEvent) (es : List RunEvent)
    → max_seq m (insert_by_seq x es) ≡ max_seq m (x ∷ es)
unfolding insert_by_seq max_seq
max_seq-insert m x [] = refl
max_seq-insert m x (y ∷ es) = elim (Bool-cases (leb x.seq y.seq)) [
  | inl first ↦ rw first
  | inr later ↦ rw later (
      max_seq-insert (if ltb m y.seq then y.seq else m) x es
      ∙ ap (λ k. max_seq k es) (ground arith))
]

pub max_seq-sort : (m : ℕ) (es : List RunEvent) → max_seq m (sort_by_seq es) ≡ max_seq m es
unfolding sort_by_seq max_seq
max_seq-sort m [] = refl
max_seq-sort m (x ∷ es) =
    max_seq-insert m x (sort_by_seq es) ∙ max_seq-sort (if ltb m x.seq then x.seq else m) es
