-- ===== src/Definitions/Service/Tables.antt =====
-- What the statements of the service do to the two tables, read one definition at a time.
use open_rush.Prelude.{
  ℕ, suc, ◌+◌, ◌≤◌, ◌<◌, String, Bool, true, false, List, [], ◌∷◌, ◌++◌, Option, none, some, ◌≡◌,
  refl, ap, ◌∙◌, inl, inr, ◌==◌, ==-eq, string_eq, nat_eq, Bool-cases, find, filter, any, length,
  arith,
}
use mathlib.Core.Option
use open_rush.Definitions.{AgentRow, VersionRow, Db}
use open_rush.Definitions.Service.{is_version, write_agent}

abbrev pub versions_of : String → Db → List VersionRow
versions_of agent db = filter (λ v. v.agent_id == agent) db.versions

abbrev pub rows_of : String → List VersionRow → List VersionRow
rows_of agent rows = filter (λ v. v.agent_id == agent) rows

-- The rows are numbered from `n` on, in the order in which they were inserted.
abbrev pub Counts : ℕ → List VersionRow → Type 0
Counts n [] = Unit
Counts n (v ∷ vs) = (v.version ≡ n) × Counts (suc n) vs

abbrev pub find_version : ℕ → List VersionRow → Option VersionRow
find_version n vs = find (λ v. v.version == n) vs

pub find-append_absent {ℓ} :
    {A : Type ℓ} (p : A → Bool) (xs ys : List A) → any p xs ≡ false → find p (xs ++ ys) ≡ find p ys
find-append_absent p [] ys h = refl
find-append_absent p (x ∷ xs) ys h = ground (arith, find-append_absent p xs ys)

pub find-none-any {ℓ} :
    {A : Type ℓ} (p : A → Bool) (xs : List A) → find p xs ≡ none → any p xs ≡ false
find-none-any p [] h = refl
find-none-any p (x ∷ xs) h = ground (arith, find-none-any p xs)

pub any-false-find {ℓ} :
    {A : Type ℓ} (p : A → Bool) (xs : List A) → any p xs ≡ false → find p xs ≡ none
any-false-find p [] h = refl
any-false-find p (x ∷ xs) h = ground (arith, any-false-find p xs)

pub find-append_found {ℓ} :
    {A : Type ℓ} (p : A → Bool) (xs ys : List A) (a : A)
    → find p xs ≡ some a
    → find p (xs ++ ys) ≡ some a
find-append_found p [] ys a h = ground arith
find-append_found p (x ∷ xs) ys a h = ground (arith, find-append_found p xs ys a)

pub filter-append {ℓ} :
    {A : Type ℓ} (p : A → Bool) (xs ys : List A) → filter p (xs ++ ys) ≡ filter p xs ++ filter p ys
filter-append p [] ys = refl
filter-append p (x ∷ xs) ys = elim (Bool-cases (p x)) [
  | inl kept ↦ rw (kept, filter-append p xs ys)
  | inr gone ↦ rw (gone, filter-append p xs ys)
]

-- A version of an agent is looked up among the agent's rows.
pub find-is_version :
    (agent : String) (n : ℕ) (rows : List VersionRow)
    → find (is_version agent n) rows ≡ find_version n (rows_of agent rows)
find-is_version agent n [] = refl
find-is_version agent n (v ∷ rows) = elim (Bool-cases (v.agent_id == agent)) [
  | inl own ↦ rw (own, find-is_version agent n rows)
  | inr other ↦ rw (other, find-is_version agent n rows)
]

pub any-is_version :
    (agent : String) (n : ℕ) (rows : List VersionRow)
    → any (is_version agent n) rows ≡ any (λ v. v.version == n) (rows_of agent rows)
any-is_version agent n [] = refl
any-is_version agent n (v ∷ rows) = elim (Bool-cases (v.agent_id == agent)) [
  | inl own ↦ rw (own, any-is_version agent n rows)
  | inr other ↦ rw (other, any-is_version agent n rows)
]

pub any-Counts-false :
    (from n : ℕ) (vs : List VersionRow)
    → Counts from vs
    → from + length vs ≤ n
    → any (λ v. v.version == n) vs ≡ false
any-Counts-false from n [] c h = refl
any-Counts-false from n (v ∷ vs) c h =
    let rest = any-Counts-false (suc from) n vs c.1 (omega arith) in ground (arith, c.0)

pub find_version-Counts :
    (from n : ℕ) (vs : List VersionRow)
    → Counts from vs
    → from ≤ n
    → n < from + length vs
    → (v : VersionRow) × (find_version n vs ≡ some v) × (v.version ≡ n)
find_version-Counts from n [] c h k = absurd (omega arith)
find_version-Counts from n (v ∷ vs) c h k = elim (Bool-cases (v.version == n)) [
  | inl here ↦ (v, rw here, ==-eq v.version n here)
  | inr other ↦
      let (w, found, number) =
        find_version-Counts (suc from) n vs c.1 (ground (arith, c.0)) (omega arith) in
      (w, rw (other, found), number)
]

pub Counts-append :
    (from : ℕ) (vs : List VersionRow) (v : VersionRow)
    → Counts from vs
    → v.version ≡ from + length vs
    → Counts from (vs ++ v ∷ [])
Counts-append from [] v c h = (omega arith, tt)
Counts-append from (w ∷ vs) v c h = (c.0, Counts-append (suc from) vs v c.1 (omega arith))

-- An update of one row is seen under its id only.
pub find-write_agent :
    (f : AgentRow → AgentRow) (agent : String) (rows : List AgentRow) (r : AgentRow)
    → ((r : AgentRow) → (f r).id ≡ r.id)
    → find (λ r. r.id == agent) rows ≡ some r
    → find (λ r. r.id == agent) (write_agent f agent rows) ≡ some (f r)
find-write_agent f agent [] r same h = ground arith
find-write_agent f agent (s ∷ rows) r same h = elim (Bool-cases (s.id == agent)) [
  | inl own ↦
      let here : ((f s).id == agent) ≡ true = ap (λ x. x == agent) (same s) ∙ own in
      rw (own, here) (ap (Option.map f) (rw own at h))
  | inr other ↦ ground (arith, find-write_agent f agent rows r same)
]

pub find-write_agent_other :
    (f : AgentRow → AgentRow) (agent b : String) (rows : List AgentRow)
    → ((r : AgentRow) → (f r).id ≡ r.id)
    → (agent == b) ≡ false
    → find (λ r. r.id == b) (write_agent f agent rows) ≡ find (λ r. r.id == b) rows
find-write_agent_other f agent b [] same h = refl
find-write_agent_other f agent b (s ∷ rows) same h = elim (Bool-cases (s.id == agent)) [
  | inl own ↦
      rw (own, same s, ==-eq s.id agent own, h) (find-write_agent_other f agent b rows same h)
  | inr other ↦ rw (other, find-write_agent_other f agent b rows same h)
]
