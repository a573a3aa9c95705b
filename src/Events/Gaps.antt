-- ===== src/Events/Gaps.antt =====
-- `detectGaps` (event-store.ts).
use open_rush.Prelude.{
  ℕ, zero, suc, ◌+◌, ◌-◌, ◌≤◌, ◌<◌, String, Bool, true, false, ◌&&◌, not, List, [], ◌∷◌, map, ◌≡◌,
  refl, ◌∙◌, inl, inr, arith, leb, ltb, ◌==◌, nat_eq, Bool-cases, includes, any,
}
use native.Mathlib.Decide.{ℕ_discrete}
use open_rush.Events.{RunEvent, Store, scan_gaps, last_or, sort_seqs, gaps_of, detect_gaps}
use open_rush.Events.Order.{Increasing}
use open_rush.Events.Append.{IsOrdered}

includes-scan_gaps :
    (seqs : List ℕ) (i count j : ℕ)
    → includes (scan_gaps seqs i count) j ≡ (leb i j && ltb j (i + count) && not (includes seqs j))
unfolding scan_gaps
includes-scan_gaps seqs i zero j = ground arith
includes-scan_gaps seqs i (suc count) j = elim (Bool-cases (i == j)) [
  | inl same ↦
      let e : i ≡ j = ground arith in rw e (ground (arith, includes-scan_gaps seqs (j + 1) count j))
  | inr other ↦ ground (arith, includes-scan_gaps seqs (i + 1) count j)
]

abbrev seqs_of : List RunEvent → List ℕ
seqs_of es = map (λ e. e.seq) es

sort_seqs-sorted : (es : List RunEvent) → Increasing es → sort_seqs (seqs_of es) ≡ seqs_of es
unfolding sort_seqs
sort_seqs-sorted [] h = refl
sort_seqs-sorted (e ∷ []) h = refl
sort_seqs-sorted (e ∷ x ∷ xs) h =
    rw (sort_seqs-sorted (x ∷ xs) h.1) (let lt : e.seq < x.seq = h.0.0 in ground arith)

-- A number below the first, or above the last, of ascending events.
any-below :
    (e : RunEvent) (es : List RunEvent) (j : ℕ)
    → Increasing (e ∷ es)
    → any (λ x. ltb x.seq j) (e ∷ es) ≡ ltb e.seq j
any-below e [] j h = ground arith
any-below e (x ∷ xs) j h = let lt : e.seq < x.seq = h.0.0 in ground (arith, any-below x xs j h.1)

last_ge :
    (y : RunEvent) (ys : List RunEvent) → Increasing (y ∷ ys) → y.seq ≤ last_or y.seq (seqs_of ys)
last_ge y [] k = omega arith
last_ge y (z ∷ zs) k = omega (arith, last_ge z zs k.1, k.0.0)

any-above :
    (e : RunEvent) (es : List RunEvent) (j : ℕ)
    → Increasing (e ∷ es)
    → any (λ x. ltb j x.seq) (e ∷ es) ≡ ltb j (last_or e.seq (seqs_of es))
any-above e [] j h = ground arith
any-above e (x ∷ xs) j h = ground (arith, any-above x xs j h.1, last_ge x xs h.1, h.0.0)

includes-any : (es : List RunEvent) (j : ℕ) → includes (seqs_of es) j ≡ any (λ x. x.seq == j) es
includes-any [] j = refl
includes-any (e ∷ es) j = ground (arith, includes-any es j)

last_or-includes : (n : ℕ) (ns : List ℕ) → includes (n ∷ ns) (last_or n ns) ≡ true
last_or-includes n [] = ground arith
last_or-includes n (m ∷ ms) = ground (arith, last_or-includes m ms)

last_included : (n : ℕ) (ns : List ℕ) (j : ℕ) → j ≡ last_or n ns → includes (n ∷ ns) j ≡ true
last_included n ns j h = rw h (last_or-includes n ns)

-- Between the ends, both of which are there, it makes no difference whether they count.
inner_bounds :
    (n last count j : ℕ) (seen : Bool)
    → n ≤ last
    → count ≡ last + 1 - n
    → (j ≡ n → seen ≡ true)
    → (j ≡ last → seen ≡ true)
    → (leb n j && ltb j (n + count) && not seen) ≡ (ltb n j && ltb j last && not seen)
inner_bounds n last count j true h c p q = ground arith
inner_bounds n last count j false h c p q = elim (ℕ_discrete j n) [
  | yes e ↦ absurd (cc (p e))
  | no e ↦ elim (ℕ_discrete j last) [ yes f ↦ absurd (cc (q f)) | no f ↦ ground arith ]
]

gaps_lem :
    (es : List RunEvent) (j : ℕ)
    → Increasing es
    → includes (gaps_of (seqs_of es)).missing_seqs j
      ≡ (any (λ e. ltb e.seq j) es && any (λ e. ltb j e.seq) es && not (any (λ e. e.seq == j) es))
unfolding gaps_of
gaps_lem [] j h = refl
gaps_lem (e ∷ es) j h =
    let n = e.seq in
    let last = last_or n (seqs_of es) in
    includes-scan_gaps (n ∷ seqs_of es) n (last + 1 - n) j
    ∙ inner_bounds n last (last + 1 - n) j (includes (n ∷ seqs_of es) j) (last_ge e es h) refl
        (λ same. ground arith) (last_included n (seqs_of es) j)
    ∙ rw (any-below e es j h, any-above e es j h, ← includes-any (e ∷ es) j) refl

-- `detectGaps` reports a number as missing exactly if the run has an event below it and one above
-- it but none at it.
pub includes-detect_gaps :
    (run : String) (store : Store) (j : ℕ)
    → IsOrdered run (store run)
    → includes (detect_gaps run store).missing_seqs j ≡ (
        any (λ e. ltb e.seq j) (store run)
        && any (λ e. ltb j e.seq) (store run)
        && not (any (λ e. e.seq == j) (store run)))
unfolding detect_gaps
includes-detect_gaps run store j o =
    rw (sort_seqs-sorted (store run) o.ascending) (gaps_lem (store run) j o.ascending)
