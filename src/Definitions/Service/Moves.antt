-- ===== src/Definitions/Service/Moves.antt =====
-- Every call of the service as one of four moves on the two tables.
use open_rush.Prelude.{
  ℕ, ◌+◌, ◌≤◌, String, List, [], ◌∷◌, ◌++◌, length, Option, none, some, ◌≡◌, refl, ◌⊎◌, inl, inr,
  ◌==◌, nat_eq, string_eq, Bool-cases, Option-cases, any, All, arith,
}
use mathlib.Core.Path.{subst}
use open_rush.Definitions.{
  Editable, Partial, AgentRow, VersionRow, Db, CreateAgentDefinitionInput,
  PatchAgentDefinitionInput, unique_violation, ok, err,
}
use open_rush.Definitions.Fields.{with_nulls, extract_editable, row_to_definition, object_of}
use open_rush.Definitions.Service.{
  find_agent, insert_version, write_agent, new_agent, first_version, create, next_version, patched,
  archive_row, archive, update_agent,
}
use open_rush.Definitions.Service.Spread.{IsFull, AllDefined}
use open_rush.Definitions.Service.Tables.{
  versions_of, Counts, find_version, any-is_version, any-Counts-false, any-false-find,
  find-write_agent,
}

-- The tables after a creation, a patch and an archival.
abbrev pub created_db : ℕ → String → CreateAgentDefinitionInput → Db → Db
created_db now row_id input db =
    let row = new_agent now row_id input in
    record {
      agents = db.agents ++ row ∷ [];
      versions = db.versions ++ first_version now input row ∷ [];
    }

abbrev pub patched_db : ℕ → String → PatchAgentDefinitionInput → Partial → AgentRow → Db → Db
patched_db now agent input p row db = record {
  agents = write_agent (patched now (row.current_version + 1) p) agent db.agents;
  versions = db.versions ++ next_version now agent input p row ∷ [];
}

abbrev pub archived_db : ℕ → String → Db → Db
archived_db now agent db = record db { agents = write_agent (archive_row now) agent db.agents }

pub data Move (db : Db) : Db → Type 0 where
  stay : Move db db
  create_move :
      (now : ℕ) (row_id : String) (input : CreateAgentDefinitionInput)
      → IsFull (with_nulls input.fields)
      → find_agent row_id db ≡ none
      → Move db (created_db now row_id input db)
  patch_move :
      (now : ℕ) (agent : String) (input : PatchAgentDefinitionInput) (p : Partial) (row : AgentRow)
      → find_agent agent db ≡ some row
      → AllDefined p
      → Move db (patched_db now agent input p row db)
  archive_move :
      (now : ℕ) (agent : String) (row : AgentRow)
      → find_agent agent db ≡ some row
      → Move db (archived_db now agent db)

-- What is kept of one definition: its versions are numbered 1, 2, … up to the current one, every
-- snapshot has all the fields, and the newest snapshot has those of the row.
abbrev pub IsSnapshot : VersionRow → Type 0
IsSnapshot v = (e : Editable) × (v.snapshot ≡ some (object_of e)) × IsFull e

pub record HistoryOf (row : AgentRow) (vs : List VersionRow) : Type 0 where
  pub counts : Counts 1 vs
  pub total : length vs ≡ row.current_version
  pub positive : 1 ≤ row.current_version
  pub latest :
      (v : VersionRow) × (find_version row.current_version vs ≡ some v)
      × (v.snapshot ≡ some (object_of (extract_editable row)))
  pub full : IsFull (extract_editable row)
  pub snapshots : All IsSnapshot vs

abbrev pub Story : Option AgentRow → List VersionRow → Type 0
Story none vs = vs ≡ []
Story (some row) vs = HistoryOf row vs

abbrev pub HasHistory : Db → Type 0
HasHistory db = (agent : String) → Story (find_agent agent db) (versions_of agent db)

pub history_of :
    (db : Db) (agent : String) (row : AgentRow)
    → HasHistory db
    → find_agent agent db ≡ some row
    → HistoryOf row (versions_of agent db)
history_of db agent row h found = subst (λ o. Story o (versions_of agent db)) found (h agent)

pub no_versions :
    (db : Db) (agent : String)
    → HasHistory db
    → find_agent agent db ≡ none
    → versions_of agent db ≡ []
no_versions db agent h missing = subst (λ o. Story o (versions_of agent db)) missing (h agent)

-- No insertion of a version meets a taken key.
pub insert_version_next :
    (db : Db) (agent : String) (row : AgentRow) (v : VersionRow)
    → HasHistory db
    → find_agent agent db ≡ some row
    → v.agent_id ≡ agent
    → v.version ≡ row.current_version + 1
    → insert_version v db ≡ ok (record db { versions = db.versions ++ v ∷ [] })
insert_version_next db agent row v h found own number =
    let past = history_of db agent row h found in
    let free =
      any-Counts-false 1 (row.current_version + 1) (versions_of agent db) past.counts
        (omega (arith, past.total)) in
    rw (own, number, any-is_version agent (row.current_version + 1) db.versions, free)

pub create-cases :
    (now : ℕ) (row_id : String) (input : CreateAgentDefinitionInput) (db : Db)
    → HasHistory db
    → ((find_agent row_id db ≡ none)
        × (create now row_id input db ≡ (
          ok (row_to_definition (new_agent now row_id input)),
          created_db now row_id input db,
        )))
      ⊎ (create now row_id input db ≡ (err unique_violation, db))
unfolding create
create-cases now row_id input db h = elim (Bool-cases (any (λ r. r.id == row_id) db.agents)) [
  | inl taken ↦ inr (unfold new_agent in rw taken)
  | inr free ↦
      let missing = any-false-find (λ r. r.id == row_id) db.agents free in
      inl (
        missing,
        unfold new_agent in
            rw (free, any-is_version row_id 1 db.versions, no_versions db row_id h missing),
      )
]

pub archive-Move : (now : ℕ) (agent : String) (db : Db) → Move db (archive now agent db).1
unfolding archive
archive-Move now agent db = elim (Option-cases (find_agent agent db)) [
  | inl missing ↦ rw missing stay
  | inr (row, found) ↦ elim (Option-cases row.archived_at) [
    | inl open_row ↦
        let kept = find-write_agent (archive_row now) agent db.agents row (λ r. refl) found in
        rw (found, open_row) (unfold update_agent in rw kept (archive_move now agent row found))
    | inr (t, closed) ↦ rw (found, closed) stay
  ]
]
