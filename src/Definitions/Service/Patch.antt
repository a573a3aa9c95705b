-- ===== src/Definitions/Service/Patch.antt =====
-- `patch`: what it returns, and that no two patches are accepted for one observed version.
use mathlib.Core.Option.{get_or}
use open_rush.Prelude.{
  ℕ, ◌+◌, ◌≤◌, String, false, List, Option, none, some, ◌≡◌, refl, sym, ap, ◌∙◌, ◌⊎◌, inl, inr,
  ◌==◌, string_eq, All, arith,
}
use open_rush.Definitions.{
  Key, AgentRow, Db, AgentDefinition, PatchAgentDefinitionInput, DefinitionError, ok, err,
  positive_integer,
}
use open_rush.Definitions.Fields.{
  camel, property, extract_editable, row_to_definition, pick_editable_patch,
}
use open_rush.Definitions.Service.{find_agent, patched, patch, get}
use open_rush.Definitions.Service.Spread.{
  kept, field-pick_editable_patch, pick_editable_patch-AllDefined, extract_editable-patched,
}
use open_rush.Definitions.Service.Tables.{find-write_agent, find-write_agent_other}
use open_rush.Definitions.Service.Moves.{HasHistory, patched_db, patch_move}
use open_rush.Definitions.Service.Outcome.{Reason, Accepted, patch-cases}
use open_rush.Definitions.Service.History.{
  Op, IsComplete, apply_ops, Move-HasHistory, apply_ops-HasHistory,
}
use open_rush.Definitions.Service.Later.{apply_ops-Later}
use open_rush.Definitions.Service.Reads.{not_both}

-- What an accepted patch returns: the fields of the body that are not `undefined` over those of the
-- row, and the next version.
pub record Patched (now : ℕ) (input : PatchAgentDefinitionInput) (row : AgentRow)
    (d : AgentDefinition) : Type 0 where
  pub editable :
      (k : Key)
      → d.editable k ≡ get_or (kept (property (camel k) input.fields)) (extract_editable row k)
  pub id : d.id ≡ row.id
  pub project_id : d.project_id ≡ row.project_id
  pub current_version : d.current_version ≡ row.current_version + 1
  pub archived_at : d.archived_at ≡ none
  pub created_at : d.created_at ≡ row.created_at
  pub updated_at : d.updated_at ≡ now

patched-Patched :
    (now : ℕ) (input : PatchAgentDefinitionInput) (row : AgentRow)
    → row.archived_at ≡ none
    → Patched now input row (
        row_to_definition
          (patched now (row.current_version + 1) (pick_editable_patch input.fields) row))
unfolding row_to_definition
patched-Patched now input row open_row = record {
  editable = λ k.
      extract_editable-patched now (row.current_version + 1) (pick_editable_patch input.fields) row
        k (pick_editable_patch-AllDefined input.fields)
      ∙ rw (field-pick_editable_patch input.fields k);
  id = refl;
  project_id = refl;
  current_version = refl;
  archived_at = open_row;
  created_at = refl;
  updated_at = refl;
}

get-patched_db :
    (now : ℕ) (agent : String) (input : PatchAgentDefinitionInput) (row : AgentRow) (db : Db)
    → find_agent agent db ≡ some row
    → let p = pick_editable_patch input.fields in
      get agent (patched_db now agent input p row db)
      ≡ ok (row_to_definition (patched now (row.current_version + 1) p row))
unfolding get
get-patched_db now agent input row db found = rw (
    find-write_agent (patched now (row.current_version + 1) (pick_editable_patch input.fields))
      agent db.agents row (λ r. refl) found)

-- After complete calls from empty tables, a patch is refused, for the reason that its error names,
-- and changes nothing; or its If-Match is the current version of a definition that is not archived,
-- and it returns that definition with the values of the body over the old ones and with the next
-- version, which `get` then returns too, while `get` of any other definition returns what it did.
pub patch_lem :
    (now : ℕ) (agent : String) (input : PatchAgentDefinitionInput) (db : Db)
    → HasHistory db
    → ((e : DefinitionError) × (patch now agent input db ≡ (err e, db)) × Reason agent input db e)
      ⊎ ((row : AgentRow) × (d : AgentDefinition) × Accepted agent input db row
          × ((patch now agent input db).0 ≡ ok d)
          × (get agent (patch now agent input db).1 ≡ ok d)
          × ((b : String) → (agent == b) ≡ false → get b (patch now agent input db).1 ≡ get b db)
          × Patched now input row d)
patch_lem now agent input db h = elim (patch-cases now agent input db h) [
  | inl refused ↦ inl refused
  | inr (row, accepted, e) ↦
      let p = pick_editable_patch input.fields in
      let others : (b : String)
          → (agent == b) ≡ false
          → get b (patched_db now agent input p row db) ≡ get b db =
        λ b other.
          unfold get in
          rw (
            find-write_agent_other (patched now (row.current_version + 1) p) agent b db.agents
              (λ r. refl) other) in
      inr (
        row,
        _,
        accepted,
        rw e,
        rw e (get-patched_db now agent input row db accepted.present),
        rw e others,
        patched-Patched now input row accepted.not_archived,
      )
]

abbrev version_or_zero : Option AgentRow → ℕ
version_or_zero none = 0
version_or_zero (some r) = r.current_version

abbrev or_zero : Option ℕ → ℕ
or_zero o = get_or o 0

-- A definition that is past the observed version accepts no patch for it.
past_version :
    (now : ℕ) (agent : String) (input : PatchAgentDefinitionInput) (db : Db) (row : AgentRow)
    (n : ℕ)
    → HasHistory db
    → find_agent agent db ≡ some row
    → positive_integer input.if_match_version ≡ some n
    → n + 1 ≤ row.current_version
    → (e : DefinitionError) × (patch now agent input db ≡ (err e, db))
past_version now agent input db row n h found observed past =
    elim (patch-cases now agent input db h) [
      | inl (e, refused, _) ↦ (e, refused)
      | inr (r, accepted, _) ↦
          let same = ap version_or_zero (sym found ∙ accepted.present) in
          let seen = ap or_zero (sym observed ∙ accepted.observed) in
          absurd (omega (arith, same, seen, past))
    ]

-- After complete calls from empty tables, once a patch is accepted for an observed version, every
-- later patch of that definition with the same If-Match is refused and changes nothing, whatever
-- complete calls come between: no update is lost.
pub patch_once :
    (now now' : ℕ) (agent : String) (input input' : PatchAgentDefinitionInput) (db : Db)
    (ops : List Op) (d : AgentDefinition)
    → HasHistory db
    → All IsComplete ops
    → (patch now agent input db).0 ≡ ok d
    → input'.if_match_version ≡ input.if_match_version
    → let db' = apply_ops ops (patch now agent input db).1 in
      (e : DefinitionError) × (patch now' agent input' db' ≡ (err e, db'))
patch_once now now' agent input input' db ops d h full accepted same =
    elim (patch-cases now agent input db h) [
      | inl (e, refused, _) ↦ absurd (not_both e (ap (λ out. out.0) refused) accepted)
      | inr (row, met, done) ↦
          let p = pick_editable_patch input.fields in
          let db' = patched_db now agent input p row db in
          let h' =
            Move-HasHistory
              (patch_move now agent input p row met.present
                (pick_editable_patch-AllDefined input.fields))
              h in
          let found =
            find-write_agent (patched now (row.current_version + 1) p) agent db.agents row
              (λ r. refl) met.present in
          let after = apply_ops-Later ops db' agent _ full h' found in
          rw done (
            past_version now' agent input' (apply_ops ops db') after.row' row.current_version
              (apply_ops-HasHistory ops db' full h') after.found (rw same met.observed)
              after.later.current_version)
    ]
