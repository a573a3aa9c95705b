-- ===== src/Definitions/Service.antt =====
-- `AgentDefinitionService` of packages/control-plane/src/agent-definition-service.ts. A method is a
-- function from the two tables to its result, or the error that it throws, and the tables that it
-- leaves. The row lock of a transaction makes it one step; `now` is the clock's reading, and
-- `row_id` the id that the database draws. That a column may not be null or not be longer than it
-- is declared is not checked.
pub mod Spread
pub mod Tables
pub mod Moves
pub mod Outcome
pub mod Stories
pub mod History
pub mod Later
pub mod Reads
pub mod Frozen
pub mod Patch
pub mod Versions
mod Tests
use open_rush.Prelude.{
  ℕ, ◌+◌, String, Bool, true, false, ◌&&◌, not, List, [], ◌∷◌, ◌++◌, map, Option, none, some, ltb,
  leb, if◌then◌else◌, ◌==◌, string_eq, nat_eq, find, filter, any, take, length,
}
use open_rush.Prelude.Json.{Json, undefined, or_null}
use open_rush.Prelude.Pages.{sort_by}
use open_rush.Definitions.{
  Key, config, key_eq, Editable, Partial, AgentRow, VersionRow, Db, AgentDefinition, Number,
  CreateAgentDefinitionInput, PatchAgentDefinitionInput, VersionSummary, DefinitionError, not_found,
  invalid_input, version_not_found, version_conflict, archived, empty_patch, unique_violation,
  Result, ok, err, positive_integer, clamp_limit,
}
use open_rush.Definitions.Fields.{
  with_nulls, extract_editable, row_to_definition, object_of, snapshot_to_definition,
  version_row_to_summary, pick_editable_patch, field, spread,
}

abbrev pub find_agent : String → Db → Option AgentRow
find_agent agent db = find (λ r. r.id == agent) db.agents

abbrev pub is_version : String → ℕ → VersionRow → Bool
is_version agent n v = v.agent_id == agent && v.version == n

-- An insertion fails where the table's key is taken.
abbrev pub insert_agent : AgentRow → Db → Result Db
insert_agent row db =
    if any (λ r. r.id == row.id) db.agents
    then err unique_violation
    else ok (record db { agents = db.agents ++ row ∷ [] })

abbrev pub insert_version : VersionRow → Db → Result Db
insert_version v db =
    if any (is_version v.agent_id v.version) db.versions
    then err unique_violation
    else ok (record db { versions = db.versions ++ v ∷ [] })

abbrev pub write_agent : (AgentRow → AgentRow) → String → List AgentRow → List AgentRow
write_agent f agent [] = []
write_agent f agent (r ∷ rows) =
    let rest = write_agent f agent rows in (if r.id == agent then f r else r) ∷ rest

abbrev pub or_not_found : String → Option AgentRow → Result AgentDefinition
or_not_found agent none = err (not_found agent)
or_not_found agent (some row) = ok (row_to_definition row)

-- `UPDATE agents SET … WHERE id = … RETURNING *`, and the check that a row came back.
unfoldable pub update_agent : (AgentRow → AgentRow) → String → Db → Result AgentDefinition × Db
update_agent f agent db =
    let db' : Db = record db { agents = write_agent f agent db.agents } in
    (or_not_found agent (find_agent agent db'), db')

abbrev pub commit {ℓ} : {A : Type ℓ} → Db → Result A → Db → Result A × Db
commit db (ok a) db' = (ok a, db')
commit db (err e) db' = (err e, db)

-- A transaction whose body throws leaves the tables as they were.
abbrev pub transaction {ℓ} : {A : Type ℓ} → (Db → Result A × Db) → Db → Result A × Db
transaction body db = let (r, db') = body db in commit db r db'

unfoldable pub new_agent : ℕ → String → CreateAgentDefinitionInput → AgentRow
new_agent now row_id input = record {
  id = row_id;
  project_id = input.project_id;
  columns = with_nulls input.fields;
  created_by = input.created_by;
  current_version = 1;
  archived_at = none;
  created_at = now;
  updated_at = now;
}

abbrev pub first_version : ℕ → CreateAgentDefinitionInput → AgentRow → VersionRow
first_version now input row = record {
  agent_id = row.id;
  version = 1;
  snapshot = some (object_of (extract_editable row));
  change_note = input.change_note;
  created_by = input.created_by;
  created_at = now;
}

abbrev pub then_return : AgentDefinition → Db → Result Db → Result AgentDefinition × Db
then_return d db (ok db') = (ok d, db')
then_return d db (err e) = (err e, db)

abbrev pub create_history :
    ℕ → CreateAgentDefinitionInput → AgentRow → Db → Result Db → Result AgentDefinition × Db
create_history now input row db (err e) = (err e, db)
create_history now input row db (ok db') =
    then_return (row_to_definition row) db' (insert_version (first_version now input row) db')

unfoldable pub create : ℕ → String → CreateAgentDefinitionInput → Db → Result AgentDefinition × Db
unfolding new_agent
create now row_id input = transaction λ db.
    let row = new_agent now row_id input in create_history now input row db (insert_agent row db)

unfoldable pub get : String → Db → Result AgentDefinition
get agent db = or_not_found agent (find_agent agent db)

abbrev pub or_version_not_found : String → ℕ → AgentRow → Option VersionRow → Result AgentDefinition
or_version_not_found agent n row none = err (version_not_found agent n)
or_version_not_found agent n row (some v) = ok (snapshot_to_definition row v)

abbrev pub get_version_of : String → ℕ → Option AgentRow → Db → Result AgentDefinition
get_version_of agent n none db = err (not_found agent)
get_version_of agent n (some row) db =
    or_version_not_found agent n row (find (is_version agent n) db.versions)

abbrev pub get_checked : String → Number → Option ℕ → Db → Result AgentDefinition
get_checked agent version none db = err (invalid_input "version" version)
get_checked agent version (some n) db = get_version_of agent n (find_agent agent db) db

unfoldable pub get_by_version : String → Number → Db → Result AgentDefinition
get_by_version agent version db = get_checked agent version (positive_integer version) db

-- `ORDER BY version DESC`
abbrev pub version_desc : VersionRow → VersionRow → Bool
version_desc v w = leb w.version v.version

abbrev pub below : Option ℕ → VersionRow → Bool
below none v = true
below (some cursor) v = ltb v.version cursor

pub record ListVersionsResult : Type 0 where
  pub items : List VersionSummary
  pub next_cursor : Option ℕ

abbrev pub last_version : List VersionSummary → Option ℕ
last_version [] = none
last_version (v ∷ []) = some v.version
last_version (v ∷ w ∷ vs) = last_version (w ∷ vs)

-- The rows are one more than the page, where another page follows.
abbrev pub version_page : ℕ → List VersionRow → ListVersionsResult
version_page limit rows =
    let items = map version_row_to_summary (take limit rows) in
    record {
      items = items;
      next_cursor = if ltb limit (length rows) then last_version items else none;
    }

abbrev pub version_rows : String → Option ℕ → ℕ → Db → List VersionRow
version_rows agent cursor n db =
    take n (sort_by version_desc (filter (λ v. v.agent_id == agent && below cursor v) db.versions))

unfoldable pub list_versions : String → Option Number → Option ℕ → Db → Result ListVersionsResult
list_versions agent limit cursor db =
    let n = clamp_limit limit in
    if any (λ r. r.id == agent) db.agents
    then ok (version_page n (version_rows agent cursor (n + 1) db))
    else err (not_found agent)

-- `p.k = v`
abbrev pub set_field : Key → Json → Partial → Partial
set_field k v [] = (k, v) ∷ []
set_field k v ((j, w) ∷ p) =
    let rest = set_field k v p in if j == k then (j, v) ∷ p else (j, w) ∷ rest

abbrev pub is_defined : Json → Bool
is_defined undefined = false
is_defined _ = true

abbrev pub config_value : Option Json → Json
config_value none = undefined
config_value (some v) = or_null v

-- The editable columns that a patch sets, with the undefined ones stripped.
unfoldable pub update_values : Partial → Partial
update_values p = filter (λ e. is_defined e.1) (set_field config (config_value (field config p)) p)

abbrev pub patched : ℕ → ℕ → Partial → AgentRow → AgentRow
patched now next p r = record r {
  columns = spread r.columns (update_values p);
  current_version = next;
  updated_at = now;
}

abbrev pub check_version : String → ℕ → AgentRow → Option ℕ → Result AgentRow
check_version agent n row (some t) = err (archived agent t)
check_version agent n row none =
    if row.current_version == n then ok row else err (version_conflict agent n row.current_version)

abbrev pub patch_check : String → ℕ → Option AgentRow → Result AgentRow
patch_check agent n none = err (not_found agent)
patch_check agent n (some row) = check_version agent n row row.archived_at

abbrev pub next_version : ℕ → String → PatchAgentDefinitionInput → Partial → AgentRow → VersionRow
next_version now agent input p row = record {
  agent_id = agent;
  version = row.current_version + 1;
  snapshot = some (object_of (spread (extract_editable row) p));
  change_note = input.change_note;
  created_by = input.updated_by;
  created_at = now;
}

abbrev pub write_patch :
    ℕ → String → Partial → AgentRow → Db → Result Db → Result AgentDefinition × Db
write_patch now agent p row db (err e) = (err e, db)
write_patch now agent p row db (ok db') =
    update_agent (patched now (row.current_version + 1) p) agent db'

abbrev pub patch_row :
    ℕ
    → String
    → PatchAgentDefinitionInput
    → Partial
    → Db
    → Result AgentRow
    → Result AgentDefinition × Db
patch_row now agent input p db (err e) = (err e, db)
patch_row now agent input p db (ok row) =
    write_patch now agent p row db (insert_version (next_version now agent input p row) db)

abbrev pub patch_picked :
    ℕ → String → PatchAgentDefinitionInput → ℕ → Partial → Db → Result AgentDefinition × Db
patch_picked now agent input n [] db = (err empty_patch, db)
patch_picked now agent input n (e ∷ p) db =
    transaction
      (λ db. patch_row now agent input (e ∷ p) db (patch_check agent n (find_agent agent db))) db

abbrev pub patch_checked :
    ℕ → String → PatchAgentDefinitionInput → Option ℕ → Db → Result AgentDefinition × Db
patch_checked now agent input none db =
    (err (invalid_input "ifMatchVersion" input.if_match_version), db)
patch_checked now agent input (some n) db =
    patch_picked now agent input n (pick_editable_patch input.fields) db

unfoldable pub patch : ℕ → String → PatchAgentDefinitionInput → Db → Result AgentDefinition × Db
unfolding update_agent
patch now agent input db =
    patch_checked now agent input (positive_integer input.if_match_version) db

abbrev pub archive_row : ℕ → AgentRow → AgentRow
archive_row now r = record r { archived_at = some now; updated_at = now }

abbrev pub archive_unless : ℕ → String → AgentRow → Option ℕ → Db → Result AgentDefinition × Db
archive_unless now agent row (some t) db = (ok (row_to_definition row), db)
archive_unless now agent row none db = update_agent (archive_row now) agent db

abbrev pub archive_found : ℕ → String → Option AgentRow → Db → Result AgentDefinition × Db
archive_found now agent none db = (err (not_found agent), db)
archive_found now agent (some row) db = archive_unless now agent row row.archived_at db

unfoldable pub archive : ℕ → String → Db → Result AgentDefinition × Db
unfolding update_agent
archive now agent = transaction λ db. archive_found now agent (find_agent agent db) db
