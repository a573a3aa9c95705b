-- ===== src/Definitions/Service/Frozen.antt =====
-- What later calls leave of a version: `getByVersion` and `get` over time.
use mathlib.Core.Path.{subst}
use open_rush.Prelude.{
  ℕ, ◌≤◌, ◌<◌, String, List, some, ◌≡◌, refl, sym, ap, ◌∙◌, ◌==◌, ==-eq, string_eq, nat_eq, All,
  arith,
}
use open_rush.Prelude.Json.{pos}
use open_rush.Definitions.{
  Key, AgentRow, VersionRow, Db, AgentDefinition, Number, int, version_not_found, ok, err,
}
use open_rush.Definitions.Fields.{extract_editable, row_to_definition, snapshot_to_definition}
use open_rush.Definitions.Service.{find_agent, get, get_by_version}
use open_rush.Definitions.Service.Tables.{
  versions_of, find_version, find-is_version, find-append_found, find_version-Counts,
  any-Counts-false, any-false-find,
}
use open_rush.Definitions.Service.Moves.{IsSnapshot, HasHistory, history_of}
use open_rush.Definitions.Service.History.{Op, IsComplete, apply_ops}
use open_rush.Definitions.Service.Later.{LaterRow, apply_ops-Later}
use open_rush.Definitions.Service.Reads.{
  snapshot_to_definition-editable, All-find, get_by_version_found, get_by_version-VersionRead,
  positive_integer-int, find-holds, get_row,
}

-- What a version shows, apart from whether its definition is archived.
pub record SameVersion (d d' : AgentDefinition) : Type 0 where
  pub editable : (k : Key) → d'.editable k ≡ d.editable k
  pub id : d'.id ≡ d.id
  pub project_id : d'.project_id ≡ d.project_id
  pub current_version : d'.current_version ≡ d.current_version
  pub created_at : d'.created_at ≡ d.created_at
  pub updated_at : d'.updated_at ≡ d.updated_at

snapshot_to_definition-SameVersion :
    (row row' : AgentRow) (v : VersionRow)
    → IsSnapshot v
    → LaterRow row row'
    → SameVersion (snapshot_to_definition row v) (snapshot_to_definition row' v)
snapshot_to_definition-SameVersion row row' v shot later = record {
  editable = λ k.
      snapshot_to_definition-editable row' v k shot
      ∙ sym (snapshot_to_definition-editable row v k shot);
  id = unfold snapshot_to_definition in later.id;
  project_id = unfold snapshot_to_definition in later.project_id;
  current_version = unfold snapshot_to_definition in refl;
  created_at = unfold snapshot_to_definition in later.created_at;
  updated_at = unfold snapshot_to_definition in refl;
}

-- A version that `getByVersion` returns, it returns after any further complete calls, with the same
-- fields, ids and times.
pub get_by_version-apply_ops :
    (ops : List Op) (db : Db) (agent : String) (version : Number) (d : AgentDefinition)
    → All IsComplete ops
    → HasHistory db
    → get_by_version agent version db ≡ ok d
    → (d' : AgentDefinition) × (get_by_version agent version (apply_ops ops db) ≡ ok d')
      × SameVersion d d'
get_by_version-apply_ops ops db agent version d full h e =
    let read = get_by_version-VersionRead agent version db d e in
    let past = history_of db agent read.row h read.found in
    let after = apply_ops-Later ops db agent read.row full h read.found in
    let shot =
      All-find IsSnapshot (λ v. v.version == read.n) (versions_of agent db) read.v past.snapshots
        read.stored in
    let still : find_version read.n (versions_of agent (apply_ops ops db)) ≡ some read.v =
      ap (find_version read.n) after.versions
      ∙ find-append_found (λ v. v.version == read.n) (versions_of agent db) after.added read.v
          read.stored in
    (
      snapshot_to_definition after.row' read.v,
      get_by_version_found agent version read.n after.row' read.v _ read.number after.found still,
      rw (← read.result)
          (snapshot_to_definition-SameVersion read.row after.row' read.v shot after.later),
    )

-- The number, the fields and the archival of a definition.
abbrev pub Shows : AgentDefinition → AgentDefinition → Type 0
Shows d d' =
    ((k : Key) → d'.editable k ≡ d.editable k)
    × (d'.current_version ≡ d.current_version)
    × (d'.archived_at ≡ d.archived_at)

current_version_read :
    (db : Db) (agent : String) (row : AgentRow)
    → HasHistory db
    → find_agent agent db ≡ some row
    → (d' : AgentDefinition) × (get_by_version agent (int (pos row.current_version)) db ≡ ok d')
      × Shows (row_to_definition row) d'
current_version_read db agent row h found =
    let past = history_of db agent row h found in
    let (v, stored, shot) = past.latest in
    let number = positive_integer-int row.current_version past.positive in
    let last = find-holds (λ v. v.version == row.current_version) (versions_of agent db) v stored in
    (
      snapshot_to_definition row v,
      get_by_version_found agent _ row.current_version row v db number found stored,
      (
        unfold row_to_definition in
            λ k. snapshot_to_definition-editable row v k (extract_editable row, shot, past.full),
        unfold snapshot_to_definition row_to_definition in ==-eq v.version row.current_version last,
        unfold snapshot_to_definition row_to_definition in refl,
      ),
    )

-- The current version, read by its number, has the fields, the number and the archival that `get`
-- returns, after any complete calls from empty tables.
pub get_by_version-get :
    (db : Db) (agent : String) (d : AgentDefinition)
    → HasHistory db
    → get agent db ≡ ok d
    → (d' : AgentDefinition) × (get_by_version agent (int (pos d.current_version)) db ≡ ok d')
      × Shows d d'
get_by_version-get db agent d h e =
    let (row, found, same) = get_row db agent d e in
    subst
      (λ d.
        (d' : AgentDefinition) × (get_by_version agent (int (pos d.current_version)) db ≡ ok d')
        × Shows d d')
      same (unfold row_to_definition in current_version_read db agent row h found)

-- Of a definition that is there, `getByVersion` returns each version from 1 to the current one, and
-- reports that there is no other.
pub get_by_version_lem :
    (db : Db) (agent : String) (row : AgentRow) (n : ℕ)
    → HasHistory db
    → find_agent agent db ≡ some row
    → 1 ≤ n
    → (n ≤ row.current_version
        → (d : AgentDefinition) × (get_by_version agent (int (pos n)) db ≡ ok d)
          × (d.current_version ≡ n))
      × (row.current_version < n
          → get_by_version agent (int (pos n)) db ≡ err (version_not_found agent n))
get_by_version_lem db agent row n h found positive =
    let past = history_of db agent row h found in
    let number = positive_integer-int n positive in
    (
      λ within.
          let (v, stored, same) =
            find_version-Counts 1 n (versions_of agent db) past.counts positive
              (omega (arith, past.total, within)) in
          (
            snapshot_to_definition row v,
            get_by_version_found agent _ n row v db number found stored,
            unfold snapshot_to_definition in same,
          ),
      λ beyond.
          let free =
            any-Counts-false 1 n (versions_of agent db) past.counts
              (omega (arith, past.total, beyond)) in
          let absent = any-false-find (λ v. v.version == n) (versions_of agent db) free in
          unfold get_by_version in rw (number, found, find-is_version agent n db.versions, absent),
    )
