-- ===== src/Definitions/Service/Later.antt =====
-- What calls keep of a definition that is there: its identity, its versions, its numbering.
use mathlib.Core.List.{append-nil, append_assoc}
use open_rush.Prelude.{
  ℕ, ◌+◌, ◌≤◌, String, true, List, [], ◌∷◌, ◌++◌, Option, none, some, ◌≡◌, refl, sym, ap, ◌∙◌, inl,
  inr, ◌==◌, ==-eq, string_eq, nat_eq, Bool-cases, All, arith,
}
use open_rush.Definitions.{AgentRow, VersionRow, Db}
use open_rush.Definitions.Service.{find_agent, new_agent, patched, archive_row, write_agent}
use open_rush.Definitions.Service.Tables.{
  versions_of, rows_of, find-append_found, filter-append, find-write_agent, find-write_agent_other,
}
use open_rush.Definitions.Service.Moves.{
  Move, stay, create_move, patch_move, archive_move, HasHistory,
}
use open_rush.Definitions.Service.History.{Op, IsComplete, apply_ops, op-Move, Move-HasHistory}

-- A later row of the same definition.
pub record LaterRow (row row' : AgentRow) : Type 0 where
  pub project_id : row'.project_id ≡ row.project_id
  pub created_at : row'.created_at ≡ row.created_at
  pub id : row'.id ≡ row.id
  pub current_version : row.current_version ≤ row'.current_version

pub LaterRow-refl : (row : AgentRow) → LaterRow row row
LaterRow-refl row = record {
  project_id = refl;
  created_at = refl;
  id = refl;
  current_version = omega arith;
}

pub LaterRow-trans : {r s t : AgentRow} → LaterRow r s → LaterRow s t → LaterRow r t
LaterRow-trans p q = record {
  project_id = q.project_id ∙ p.project_id;
  created_at = q.created_at ∙ p.created_at;
  id = q.id ∙ p.id;
  current_version = omega (arith, p.current_version, q.current_version);
}

-- The definition is still there, and its versions have only been added to.
pub record Later (agent : String) (row : AgentRow) (db db' : Db) : Type 0 where
  pub row' : AgentRow
  pub found : find_agent agent db' ≡ some row'
  pub later : LaterRow row row'
  pub added : List VersionRow
  pub versions : versions_of agent db' ≡ versions_of agent db ++ added

Later-found :
    (agent : String) (row row' : AgentRow) (db db' : Db) (vs : List VersionRow)
    → find_agent agent db' ≡ some row'
    → LaterRow row row'
    → db'.versions ≡ db.versions ++ vs
    → Later agent row db db'
Later-found agent row row' db db' vs found later grown = record {
  row' = row';
  found = found;
  later = later;
  added = rows_of agent vs;
  versions = ap (rows_of agent) grown ∙ filter-append (λ v. v.agent_id == agent) db.versions vs;
}

-- An update of rows that keeps their identity gives later rows.
Later-write :
    (f : AgentRow → AgentRow) (id agent : String) (row : AgentRow) (db db' : Db)
    (vs : List VersionRow)
    → ((r : AgentRow) → (f r).id ≡ r.id)
    → find_agent agent db ≡ some row
    → ((id == agent) ≡ true → LaterRow row (f row))
    → db'.agents ≡ write_agent f id db.agents
    → db'.versions ≡ db.versions ++ vs
    → Later agent row db db'
Later-write f id agent row db db' vs same found later written grown =
    elim (Bool-cases (id == agent)) [
      | inl own ↦
          Later-found agent row (f row) db db' vs
            (rw (written, ==-eq id agent own) (find-write_agent f agent db.agents row same found))
            (later own) grown
      | inr other ↦
          Later-found agent row row db db' vs
            (rw written (find-write_agent_other f id agent db.agents same other ∙ found))
            (LaterRow-refl row) grown
    ]

abbrev version_or_zero : Option AgentRow → ℕ
version_or_zero none = 0
version_or_zero (some r) = r.current_version

pub Move-Later :
    {db db' : Db} (agent : String) (row : AgentRow)
    → Move db db'
    → find_agent agent db ≡ some row
    → Later agent row db db'
Move-Later {db} agent row stay found =
    Later-found agent row row db db [] found (LaterRow-refl row) (sym (append-nil db.versions))
Move-Later {db} agent row (create_move now row_id input full missing) found =
    Later-found agent row row db _ _
      (find-append_found (λ r. r.id == agent) db.agents (new_agent now row_id input ∷ []) row found)
      (LaterRow-refl row) refl
Move-Later {db} agent row (patch_move now id input p r there defined) found =
    Later-write (patched now (r.current_version + 1) p) id agent row db _ _ (λ r. refl) found
      (λ own.
        let met : some r ≡ some row =
          sym there ∙ ap (λ i. find_agent i db) (==-eq id agent own) ∙ found in
        let same = ap version_or_zero met in
        record {
          project_id = refl;
          created_at = refl;
          id = refl;
          current_version = omega (arith, same);
        })
      refl refl
Move-Later {db} agent row (archive_move now id r there) found =
    Later-write (archive_row now) id agent row db _ [] (λ r. refl) found
      (λ own. record {
        project_id = refl;
        created_at = refl;
        id = refl;
        current_version = omega arith;
      })
      refl (sym (append-nil db.versions))

Later-trans :
    {agent : String} {row : AgentRow} {db db' db'' : Db} (p : Later agent row db db')
    → Later agent p.row' db' db''
    → Later agent row db db''
Later-trans p q = record {
  row' = q.row';
  found = q.found;
  later = LaterRow-trans p.later q.later;
  added = p.added ++ q.added;
  versions = q.versions ∙ rw p.versions (append_assoc _ p.added q.added);
}

pub apply_ops-Later :
    (ops : List Op) (db : Db) (agent : String) (row : AgentRow)
    → All IsComplete ops
    → HasHistory db
    → find_agent agent db ≡ some row
    → Later agent row db (apply_ops ops db)
unfolding apply_ops
apply_ops-Later [] db agent row full h found = Move-Later agent row stay found
apply_ops-Later (op ∷ ops) db agent row full h found =
    let move = op-Move op db full.0 h in
    let first = Move-Later agent row move found in
    Later-trans first
      (apply_ops-Later ops _ agent first.row' full.1 (Move-HasHistory move h) first.found)
