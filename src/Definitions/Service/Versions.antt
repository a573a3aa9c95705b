-- ===== src/Definitions/Service/Versions.antt =====
-- The pages of `listVersions`.
use open_rush.Prelude.{
  ℕ, zero, suc, ◌+◌, ◌≤◌, ◌<◌, String, Bool, true, false, List, [], ◌∷◌, ◌++◌, map, length,
  length-append, take, Option, none, some, ◌≡◌, refl, sym, ap, ◌∙◌, inl, inr, ◌==◌, string_eq,
  nat_eq, Bool-cases, find, filter, any, ltb, All, arith,
}
use mathlib.Core.List.{append_assoc}
use open_rush.Prelude.Json.{pos}
use open_rush.Prelude.Pages.{
  filter-and, rev, length-rev, Ascending, rev-filter, rev-Descending, sort_by-Ascending,
  filter-Ascending, filter-below_key, page_split, take-suc_le, take-take-suc, take_short,
}
use open_rush.Definitions.{
  AgentRow, VersionRow, Db, VersionSummary, Number, int, fraction, clamp_limit, clamp, Result, ok,
  err,
}
use open_rush.Definitions.Fields.{version_row_to_summary}
use open_rush.Definitions.Service.{
  find_agent, ListVersionsResult, list_versions, version_page, version_rows, below, last_version,
}
use open_rush.Definitions.Service.Tables.{versions_of, Counts}
use open_rush.Definitions.Service.Moves.{HasHistory, history_of}

-- A client that asks for page after page, at most `fuel` of them.
abbrev pub follow :
    (Option ℕ → List VersionSummary) → Result ListVersionsResult → List VersionSummary
follow rest (err e) = []
follow rest (ok page) = elim page.next_cursor [
  | none ↦ page.items
  | some c ↦ page.items ++ rest (some c)
]

unfoldable pub walk : ℕ → String → Option Number → Option ℕ → Db → List VersionSummary
walk zero agent limit cursor db = []
walk (suc fuel) agent limit cursor db =
    follow (λ c. walk fuel agent limit c db) (list_versions agent limit cursor db)

Counts-Ascending : (n : ℕ) (vs : List VersionRow) → Counts n vs → Ascending (λ v. v.version) vs
Counts-Ascending n [] c = tt
Counts-Ascending n (v ∷ vs) c =
    (above (suc n) vs (omega (arith, c.0)) c.1, Counts-Ascending (suc n) vs c.1)
  where
    above :
        (m : ℕ) (ws : List VersionRow)
        → v.version < m
        → Counts m ws
        → All (λ w. v.version < w.version) ws
    above m [] h c = tt
    above m (w ∷ ws) h c = (omega (arith, c.0, h), above (suc m) ws (omega (arith, h)) c.1)

filter-true {ℓ} : {A : Type ℓ} (xs : List A) → filter (λ x. true) xs ≡ xs
filter-true [] = refl
filter-true (x ∷ xs) = ap (λ r. x ∷ r) (filter-true xs)

clamp_bounds : (n : ℕ) → (1 ≤ clamp n) × (clamp n ≤ 200)
clamp_bounds n = (ground arith, ground arith)

pub clamp_limit_bounds :
    (limit : Option Number) → (1 ≤ clamp_limit limit) × (clamp_limit limit ≤ 200)
clamp_limit_bounds (some (int (pos n))) = clamp_bounds n
clamp_limit_bounds (some (fraction (pos n))) = clamp_bounds n
clamp_limit_bounds _ = (omega arith, omega arith)

positive_suc : (n : ℕ) → 1 ≤ n → (m : ℕ) × (n ≡ suc m)
positive_suc zero h = absurd (omega arith)
positive_suc (suc m) h = (m, refl)

map-append {ℓ κ} :
    {A : Type ℓ} {B : Type κ} (f : A → B) (xs ys : List A) → map f (xs ++ ys) ≡ map f xs ++ map f ys
map-append f [] ys = refl
map-append f (x ∷ xs) ys = ap (λ r. f x ∷ r) (map-append f xs ys)

last_version-append :
    (front : List VersionRow) (z : VersionRow)
    → last_version (map version_row_to_summary (front ++ z ∷ [])) ≡ some z.version
unfolding version_row_to_summary
last_version-append [] z = refl
last_version-append (x ∷ []) z = refl
last_version-append (x ∷ y ∷ front) z = last_version-append (y ∷ front) z

version_rows_lem :
    (agent : String) (cursor : Option ℕ) (n : ℕ) (db : Db)
    → Counts 1 (versions_of agent db)
    → version_rows agent cursor n db ≡ take n (filter (below cursor) (rev (versions_of agent db)))
version_rows_lem agent cursor n db counts =
    let order =
      filter-Ascending (λ v. v.version) (below cursor) (versions_of agent db)
        (Counts-Ascending 1 _ counts) in
    rw (filter-and (λ v. v.agent_id == agent) (below cursor) db.versions) (
      ap (take n) (
        sort_by-Ascending (λ v. v.version) _ order
        ∙ rev-filter (below cursor) (versions_of agent db)))

any_of_found {ℓ} :
    {A : Type ℓ} (p : A → Bool) (xs : List A) (a : A) → find p xs ≡ some a → any p xs ≡ true
any_of_found p [] a e = ground arith
any_of_found p (x ∷ xs) a e = ground (arith, any_of_found p xs a)

ltb-false : (a b : ℕ) → b ≤ a → ltb a b ≡ false
ltb-false a b h = ground arith

last_page :
    (n : ℕ) (zs : List VersionRow)
    → ltb (suc n) (length (take (suc n + 1) zs)) ≡ false
    → version_page (suc n) (take (suc n + 1) zs)
      ≡ record { items = map version_row_to_summary zs; next_cursor = none }
last_page n zs h =
    let next : suc n + 1 ≡ suc (suc n) = omega arith in
    let over = rw next at h in
    let whole = take-suc_le (suc n) zs (ground arith) in
    let short : length zs ≤ suc n = ground (arith, ap length whole) in
    rw (next, whole, take_short (suc n) zs short) (rw (ltb-false (suc n) (length zs) short))

more_page :
    (n : ℕ) (front : List VersionRow) (z : VersionRow) (zs : List VersionRow)
    → ltb (suc n) (length (take (suc n + 1) zs)) ≡ true
    → take (suc n) zs ≡ front ++ z ∷ []
    → version_page (suc n) (take (suc n + 1) zs) ≡ record {
      items = map version_row_to_summary (front ++ z ∷ []);
      next_cursor = some z.version;
    }
more_page n front z zs h page =
    let next : suc n + 1 ≡ suc (suc n) = omega arith in
    rw (h, next, take-take-suc (suc n) zs, page, last_version-append front z)

module _ (agent : String) (db : Db) (row : AgentRow) (limit : Option Number) (n : ℕ)
    (found : find_agent agent db ≡ some row) (counts : Counts 1 (versions_of agent db))
    (clamped : clamp_limit limit ≡ suc n) where
  list_versions_lem :
      (cursor : Option ℕ)
      → list_versions agent limit cursor db
        ≡ ok (
            version_page
              (suc n)
              (take (suc n + 1) (filter (below cursor) (rev (versions_of agent db)))))
  unfolding list_versions
  list_versions_lem cursor = rw (
    any_of_found (λ r. r.id == agent) db.agents row found,
    clamped,
    version_rows_lem agent cursor (suc n + 1) db counts,
  )

  abbrev WalksFrom : ℕ → Type 0
  WalksFrom fuel =
      (cursor : Option ℕ) (front zs : List VersionRow)
      → rev (versions_of agent db) ≡ front ++ zs
      → filter (below cursor) (rev (versions_of agent db)) ≡ zs
      → length zs < fuel
      → walk fuel agent limit cursor db ≡ map version_row_to_summary zs

  below_page :
      (front page : List VersionRow) (z : VersionRow) (rest : List VersionRow)
      → rev (versions_of agent db) ≡ (front ++ page) ++ z ∷ rest
      → filter (below (some z.version)) (rev (versions_of agent db)) ≡ rest
  below_page front page z rest whole =
      let ordered = rev-Descending (λ v. v.version) _ (Counts-Ascending 1 _ counts) in
      rw whole (filter-below_key (λ v. v.version) (front ++ page) z rest (rw whole at ordered))

  walk_more :
      (fuel : ℕ) (ih : WalksFrom fuel) (cursor : Option ℕ) (front zs page : List VersionRow)
      (z : VersionRow) (rest : List VersionRow)
      → rev (versions_of agent db) ≡ front ++ zs
      → filter (below cursor) (rev (versions_of agent db)) ≡ zs
      → length zs < suc fuel
      → ltb (suc n) (length (take (suc n + 1) zs)) ≡ true
      → zs ≡ page ++ z ∷ rest
      → take (suc n) zs ≡ page ++ z ∷ []
      → walk (suc fuel) agent limit cursor db ≡ map version_row_to_summary zs
  unfolding walk
  walk_more fuel ih cursor front zs page z rest whole left h more split taken =
      let last = more_page n page z zs more taken in
      let whole' : rev (versions_of agent db) ≡ (front ++ page) ++ z ∷ rest =
        whole ∙ rw split (sym (append_assoc front page (z ∷ rest))) in
      let moved : rev (versions_of agent db) ≡ ((front ++ page) ++ z ∷ []) ++ rest =
        whole' ∙ sym (append_assoc (front ++ page) (z ∷ []) rest) in
      let shorter : length rest < fuel =
        omega (arith, h, ap length split, length-append page (z ∷ rest)) in
      let next = ih (some z.version) _ rest moved (below_page front page z rest whole') shorter in
      rw (list_versions_lem cursor, left, last) (rw next (joined split))
    where
      joined :
          zs ≡ page ++ z ∷ rest
          → map version_row_to_summary (page ++ z ∷ []) ++ map version_row_to_summary rest
            ≡ map version_row_to_summary zs
      joined e =
          sym (map-append version_row_to_summary (page ++ z ∷ []) rest)
          ∙ ap (map version_row_to_summary) (append_assoc page (z ∷ []) rest ∙ sym e)

  walk_rest :
      (fuel : ℕ) (cursor : Option ℕ) (front zs : List VersionRow)
      → rev (versions_of agent db) ≡ front ++ zs
      → filter (below cursor) (rev (versions_of agent db)) ≡ zs
      → length zs < fuel
      → walk fuel agent limit cursor db ≡ map version_row_to_summary zs
  unfolding walk
  walk_rest zero cursor front zs whole left h = absurd (omega arith)
  walk_rest (suc fuel) cursor front zs whole left h =
      elim (Bool-cases (ltb (suc n) (length (take (suc n + 1) zs)))) [
        | inl more ↦
            let next : suc n + 1 ≡ suc (suc n) = omega arith in
            let longer = rw next at more in
            let (page, z, rest, split, taken) = page_split n zs (ground arith) in
            walk_more fuel (walk_rest fuel) cursor front zs page z rest whole left h more split
              taken
        | inr over ↦ rw (list_versions_lem cursor, left, last_page n zs over)
      ]

-- After complete calls from empty tables, a client that follows the cursors of `listVersions` with
-- any limit gets a summary of every version of the definition exactly once, newest first, after at
-- most one request more than there are versions.
pub walk_lem :
    (fuel : ℕ) (agent : String) (limit : Option Number) (db : Db) (row : AgentRow)
    → HasHistory db
    → find_agent agent db ≡ some row
    → row.current_version < fuel
    → walk fuel agent limit none db ≡ map version_row_to_summary (rev (versions_of agent db))
walk_lem fuel agent limit db row h found enough =
    let past = history_of db agent row h found in
    let (n, clamped) = positive_suc (clamp_limit limit) (clamp_limit_bounds limit).0 in
    walk_rest agent db row limit n found past.counts clamped fuel none [] _ refl (filter-true _)
      (omega (arith, past.total, length-rev (versions_of agent db)))
