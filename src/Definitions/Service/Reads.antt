-- ===== src/Definitions/Service/Reads.antt =====
-- What `get` and `getByVersion` read.
use mathlib.Core.Path.{subst}
use mathlib.Core.Option.{get_or}
use open_rush.Prelude.{
  ℕ, zero, suc, ◌≤◌, String, Bool, true, List, [], ◌∷◌, some, ◌≡◌, refl, sym, ap, ◌∙◌, inl, inr,
  string_eq, nat_eq, Bool-cases, Option-cases, find, All, arith,
}
use open_rush.Prelude.Json.{pos}
use open_rush.Definitions.{
  Key, AgentRow, VersionRow, Db, AgentDefinition, Number, int, DefinitionError, not_found,
  invalid_input, version_not_found, Result, ok, err, positive_integer,
}
use open_rush.Definitions.Fields.{row_to_definition, snapshot_to_definition}
use open_rush.Definitions.Service.{find_agent, get, get_by_version}
use open_rush.Definitions.Service.Spread.{read_snapshot_field-object_of, or_fallback_defined}
use open_rush.Definitions.Service.Tables.{versions_of, find_version, find-is_version}
use open_rush.Definitions.Service.Moves.{IsSnapshot}

-- `getByVersion` reads the fields of the snapshot, whatever the row says.
pub snapshot_to_definition-editable :
    (row : AgentRow) (v : VersionRow) (k : Key) (shot : IsSnapshot v)
    → (snapshot_to_definition row v).editable k ≡ shot.0 k
unfolding snapshot_to_definition
snapshot_to_definition-editable row v k (e, stored, full) =
    rw (stored, read_snapshot_field-object_of e k) (or_fallback_defined (e k) _ (full k))

pub All-find {ℓ κ} :
    {A : Type ℓ} (P : A → Type κ) (p : A → Bool) (xs : List A) (a : A)
    → All P xs
    → find p xs ≡ some a
    → P a
All-find P p [] a h e = ground arith
All-find P p (x ∷ xs) a h e = elim (Bool-cases (p x)) [
  | inl here ↦ let met : some x ≡ some a = rw here at e in subst P (ap (λ o. get_or o x) met) h.0
  | inr later ↦ All-find P p xs a h.1 (ground arith)
]

pub get_by_version_found :
    (agent : String) (version : Number) (n : ℕ) (row : AgentRow) (v : VersionRow) (db : Db)
    → positive_integer version ≡ some n
    → find_agent agent db ≡ some row
    → find_version n (versions_of agent db) ≡ some v
    → get_by_version agent version db ≡ ok (snapshot_to_definition row v)
unfolding get_by_version
get_by_version_found agent version n row v db number found stored =
    rw (number, found, find-is_version agent n db.versions, stored)

-- What `getByVersion` read when it returned a definition.
pub record VersionRead (agent : String) (version : Number) (db : Db) (d : AgentDefinition)
    : Type 0 where
  pub n : ℕ
  pub row : AgentRow
  pub v : VersionRow
  pub number : positive_integer version ≡ some n
  pub found : find_agent agent db ≡ some row
  pub stored : find_version n (versions_of agent db) ≡ some v
  pub result : snapshot_to_definition row v ≡ d

pub ok-injective {ℓ} : {A : Type ℓ} {a b : A} → ok a ≡ ok b → a ≡ b
ok-injective e = ground (arith, e)

pub not_both {ℓ} :
    {A : Type ℓ} {r : Result A} {a : A} (e : DefinitionError) → r ≡ err e → r ≡ ok a → ⊥
not_both e f g = ground (arith, f, g)

pub get_by_version-VersionRead :
    (agent : String) (version : Number) (db : Db) (d : AgentDefinition)
    → get_by_version agent version db ≡ ok d
    → VersionRead agent version db d
get_by_version-VersionRead agent version db d e = elim (Option-cases (positive_integer version)) [
  | inl bad ↦ absurd (
      not_both {r = get_by_version agent version db} (invalid_input "version" version)
        (unfold get_by_version in rw bad) e)
  | inr (n, number) ↦ elim (Option-cases (find_agent agent db)) [
    | inl missing ↦ absurd (
        not_both {r = get_by_version agent version db} (not_found agent)
          (unfold get_by_version in rw (number, missing)) e)
    | inr (row, found) ↦ elim (Option-cases (find_version n (versions_of agent db))) [
      | inl absent ↦ absurd (
          not_both {r = get_by_version agent version db} (version_not_found agent n)
            (unfold get_by_version in
              rw (number, found, find-is_version agent n db.versions, absent))
            e)
      | inr (v, stored) ↦
          let read = get_by_version_found agent version n row v db number found stored in
          record {
            n = n;
            row = row;
            v = v;
            number = number;
            found = found;
            stored = stored;
            result = ok-injective (sym read ∙ e);
          }
    ]
  ]
]

pub positive_integer-int : (n : ℕ) → 1 ≤ n → positive_integer (int (pos n)) ≡ some n
positive_integer-int zero h = absurd (omega arith)
positive_integer-int (suc n) h = refl

pub find-holds {ℓ} :
    {A : Type ℓ} (p : A → Bool) (xs : List A) (a : A) → find p xs ≡ some a → p a ≡ true
find-holds p [] a e = ground arith
find-holds p (x ∷ xs) a e = elim (Bool-cases (p x)) [
  | inl here ↦
      let met : some x ≡ some a = rw here at e in
      subst (λ y. p y ≡ true) (ap (λ o. get_or o x) met) here
  | inr later ↦ find-holds p xs a (ground arith)
]

pub get_row :
    (db : Db) (agent : String) (d : AgentDefinition)
    → get agent db ≡ ok d
    → (row : AgentRow) × (find_agent agent db ≡ some row) × (row_to_definition row ≡ d)
get_row db agent d e = elim (Option-cases (find_agent agent db)) [
  | inl missing ↦
      absurd (not_both {r = get agent db} (not_found agent) (unfold get in rw missing) e)
  | inr (row, found) ↦
      let got : get agent db ≡ ok (row_to_definition row) = unfold get in rw found in
      (row, found, ok-injective (sym got ∙ e))
]
