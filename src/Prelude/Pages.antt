-- ===== src/Prelude/Pages.antt =====
-- Rows in the order of a query, and the pages of a keyset cursor over them.
use open_rush.Prelude.Tests.{if◌then◌else◌, Bool-cases, ltb, leb}
use open_rush.Prelude.Lists.{filter, take, length, length-append, All, All-append, All-filter}
use Prim.Native.Nat.{ℕ, zero, suc, ◌≤◌, ◌<◌}
use mathlib.Core.Path.{◌≡◌, refl, ap}
use mathlib.Core.Bool.{Bool, ◌&&◌}
use mathlib.Core.Logic.{inl, inr}
use mathlib.Core.List.{List, [], ◌∷◌, ◌++◌, append-nil}
use native.Mathlib.Omega.{arith}

module _ {ℓ} {A : Type ℓ} (leq : A → A → Bool) where
  -- `ORDER BY`, as an insertion sort; `leq x y` says that `x` may stand before `y`.
  abbrev pub insert_by : A → List A → List A
  insert_by x [] = x ∷ []
  insert_by x (y ∷ ys) = let later = y ∷ insert_by x ys in if leq x y then x ∷ y ∷ ys else later

  abbrev pub sort_by : List A → List A
  sort_by [] = []
  sort_by (x ∷ xs) = insert_by x (sort_by xs)

module _ {ℓ} {A : Type ℓ} where
  abbrev pub rev : List A → List A
  rev [] = []
  rev (x ∷ xs) = rev xs ++ x ∷ []

  pub rev-append_last : (xs : List A) (x : A) → rev (xs ++ x ∷ []) ≡ x ∷ rev xs
  rev-append_last [] x = refl
  rev-append_last (y ∷ ys) x = rw (rev-append_last ys x)

  pub length-rev : (xs : List A) → length (rev xs) ≡ length xs
  length-rev [] = refl
  length-rev (x ∷ xs) = omega (arith, length-append (rev xs) (x ∷ []), length-rev xs)

  pub filter-append_last :
      (p : A → Bool) (xs : List A) (x : A)
      → filter p (xs ++ x ∷ []) ≡ filter p xs ++ filter p (x ∷ [])
  filter-append_last p [] x = refl
  filter-append_last p (y ∷ ys) x = elim (Bool-cases (p y)) [
    | inl kept ↦ rw (kept, filter-append_last p ys x)
    | inr gone ↦ rw (gone, filter-append_last p ys x)
  ]

  pub filter-and :
      (p q : A → Bool) (xs : List A) → filter (λ x. p x && q x) xs ≡ filter q (filter p xs)
  filter-and p q [] = refl
  filter-and p q (x ∷ xs) = elim (Bool-cases (p x)) [
    | inl kept ↦ rw (kept, filter-and p q xs)
    | inr gone ↦ rw (gone, filter-and p q xs)
  ]

  pub rev-filter : (p : A → Bool) (xs : List A) → rev (filter p xs) ≡ filter p (rev xs)
  rev-filter p [] = refl
  rev-filter p (x ∷ xs) = elim (Bool-cases (p x)) [
    | inl kept ↦ rw (filter-append_last p (rev xs) x, kept, rev-filter p xs)
    | inr gone ↦ rw (filter-append_last p (rev xs) x, gone, rev-filter p xs, append-nil)
  ]

  pub take-suc_le : (n : ℕ) (xs : List A) → length (take (suc n) xs) ≤ n → take (suc n) xs ≡ xs
  take-suc_le zero [] h = refl
  take-suc_le zero (x ∷ xs) h = absurd (omega arith)
  take-suc_le (suc n) [] h = refl
  take-suc_le (suc n) (x ∷ xs) h = ap (λ r. x ∷ r) (take-suc_le n xs (omega arith))

  pub take-take-suc : (n : ℕ) (xs : List A) → take n (take (suc n) xs) ≡ take n xs
  take-take-suc zero xs = refl
  take-take-suc (suc n) [] = refl
  take-take-suc (suc n) (x ∷ xs) = ap (λ r. x ∷ r) (take-take-suc n xs)

  pub take_short : (n : ℕ) (xs : List A) → length xs ≤ n → take n xs ≡ xs
  take_short zero [] h = refl
  take_short zero (x ∷ xs) h = absurd (omega arith)
  take_short (suc n) [] h = refl
  take_short (suc n) (x ∷ xs) h = ap (λ r. x ∷ r) (take_short n xs (omega arith))

  -- A list with more than a page: the page, its last element and what follows.
  pub page_split :
      (n : ℕ) (xs : List A)
      → suc n < length (take (suc (suc n)) xs)
      → (front : List A) × (z : A) × (rest : List A) × (xs ≡ front ++ z ∷ rest)
        × (take (suc n) xs ≡ front ++ z ∷ [])
  page_split zero [] h = absurd (omega arith)
  page_split zero (x ∷ xs) h = ([], x, xs, refl, refl)
  page_split (suc n) [] h = absurd (omega arith)
  page_split (suc n) (x ∷ xs) h =
      let (front, z, rest, whole, page) = page_split n xs (omega arith) in
      (x ∷ front, z, rest, ap (λ r. x ∷ r) whole, ap (λ r. x ∷ r) page)

module _ {ℓ} {A : Type ℓ} (key : A → ℕ) where
  abbrev pub Ascending : List A → Type 0
  Ascending [] = Unit
  Ascending (x ∷ xs) = All (λ y. key x < key y) xs × Ascending xs

  abbrev pub Descending : List A → Type 0
  Descending [] = Unit
  Descending (x ∷ xs) = All (λ y. key y < key x) xs × Descending xs

  abbrev pub desc : A → A → Bool
  desc x y = leb (key y) (key x)

  abbrev pub below_key : ℕ → A → Bool
  below_key c x = ltb (key x) c

  Descending-append :
      (xs : List A) (z : A)
      → Descending xs
      → All (λ y. key z < key y) xs
      → Descending (xs ++ z ∷ [])
  Descending-append [] z d h = (tt, tt)
  Descending-append (x ∷ xs) z d h =
      (All-append (λ y. key y < key x) xs (z ∷ []) d.0 (h.0, tt), Descending-append xs z d.1 h.1)

  All-rev {κ} : (P : A → Type κ) (xs : List A) → All P xs → All P (rev xs)
  All-rev P [] h = h
  All-rev P (x ∷ xs) h = All-append P (rev xs) (x ∷ []) (All-rev P xs h.1) (h.0, tt)

  pub rev-Descending : (xs : List A) → Ascending xs → Descending (rev xs)
  rev-Descending [] h = tt
  rev-Descending (x ∷ xs) h =
      Descending-append (rev xs) x (rev-Descending xs h.1) (All-rev (λ y. key x < key y) xs h.0)

  insert_last :
      (x : A) (ys : List A) → All (λ y. key x < key y) ys → insert_by desc x ys ≡ ys ++ x ∷ []
  insert_last x [] h = refl
  insert_last x (y ∷ ys) h = ground (arith, h.0, insert_last x ys h.1)

  -- What was inserted in ascending order is listed in reverse.
  pub sort_by-Ascending : (xs : List A) → Ascending xs → sort_by desc xs ≡ rev xs
  sort_by-Ascending [] h = refl
  sort_by-Ascending (x ∷ xs) h =
      rw (sort_by-Ascending xs h.1) (insert_last x (rev xs) (All-rev (λ y. key x < key y) xs h.0))

  pub filter-Ascending : (p : A → Bool) (xs : List A) → Ascending xs → Ascending (filter p xs)
  filter-Ascending p [] h = tt
  filter-Ascending p (x ∷ xs) h =
      let small : All (λ y. key x < key y) (filter p xs) = All-filter _ p xs h.0 in
      let rest : Ascending (filter p xs) = filter-Ascending p xs h.1 in
      elim (Bool-cases (p x)) [ inl kept ↦ rw kept (small, rest) | inr gone ↦ rw gone rest ]

  All-middle {κ} :
      (P : A → Type κ) (front : List A) (z : A) (rest : List A) → All P (front ++ z ∷ rest) → P z
  All-middle P [] z rest h = h.0
  All-middle P (x ∷ front) z rest h = All-middle P front z rest h.1

  filter-All : (c : ℕ) (xs : List A) → All (λ y. key y < c) xs → filter (below_key c) xs ≡ xs
  filter-All c [] h = refl
  filter-All c (x ∷ xs) h = ground (arith, h.0, filter-All c xs h.1)

  -- The rows below the key of one of them are those behind it.
  pub filter-below_key :
      (front : List A) (z : A) (rest : List A)
      → Descending (front ++ z ∷ rest)
      → filter (below_key (key z)) (front ++ z ∷ rest) ≡ rest
  filter-below_key [] z rest h = ground (arith, filter-All (key z) rest h.0)
  filter-below_key (x ∷ front) z rest h =
      let above = All-middle (λ y. key y < key x) front z rest h.0 in
      ground (arith, above, filter-below_key front z rest h.1)
