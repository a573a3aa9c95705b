-- ===== src/Run/Db.antt =====
-- The rows of the `runs` table and the statements on them: the types of
-- packages/control-plane/src/run/run-service.ts and the queries of drizzle-run-db.ts, over the list
-- of the table's rows. Times are milliseconds; `now` is the clock's reading in the call, and `id`
-- the row id that the database draws.
use open_rush.Prelude.{
  ℕ, ◌+◌, String, ◌&&◌, not, List, [], ◌∷◌, ◌++◌, Option, none, some, ltb, leb, if◌then◌else◌, ◌==◌,
  string_eq, option_eq, find, filter, take, includes,
}
use mathlib.Core.Option.{get_or}
use open_rush.Run.Status.{RunStatus, queued, completed, failed, status_eq}

pub record Run : Type 0 where
  pub id : String
  pub agent_id : String
  pub task_id : Option String
  pub conversation_id : Option String
  pub parent_run_id : Option String
  pub status : RunStatus
  pub prompt : String
  pub provider : String
  pub connection_mode : String
  pub model_id : Option String
  pub trigger_source : String
  pub agent_definition_version : Option ℕ
  pub idempotency_key : Option String
  pub idempotency_request_hash : Option String
  pub active_stream_id : Option String
  pub retry_count : ℕ
  pub max_retries : ℕ
  pub error_message : Option String
  pub created_at : ℕ
  pub updated_at : ℕ
  pub started_at : Option ℕ
  pub completed_at : Option ℕ

-- A field that is left out and one that is null are read alike by every reader.
pub record CreateRunInput : Type 0 where
  pub agent_id : String
  pub prompt : String
  pub task_id : Option String
  pub conversation_id : Option String
  pub parent_run_id : Option String
  pub provider : Option String
  pub connection_mode : Option String
  pub model_id : Option String
  pub trigger_source : Option String
  pub agent_definition_version : Option ℕ
  pub idempotency_key : Option String
  pub idempotency_request_hash : Option String

-- `Partial<Run>`, for the fields that `updateStatus` reads. The outer `none` is a field left out,
-- and `some none` a field set to null.
pub record RunUpdates : Type 0 where
  pub started_at : Option ℕ
  pub completed_at : Option ℕ
  pub error_message : Option (Option String)
  pub active_stream_id : Option (Option String)
  pub retry_count : Option ℕ

abbrev pub no_updates : RunUpdates
no_updates = record {
  started_at = none;
  completed_at = none;
  error_message = none;
  active_stream_id = none;
  retry_count = none;
}

abbrev pub Rows : Type 0
Rows = List Run

-- `a ?? b` for a nullable `b`.
abbrev pub or_else {ℓ} : {A : Type ℓ} → Option A → Option A → Option A
or_else none b = b
or_else (some a) b = some a

-- `buildInsertValues`, with the column defaults of packages/db/src/schema/runs.ts.
unfoldable pub new_row : ℕ → String → CreateRunInput → Run
new_row now row_id input = record {
  id = row_id;
  agent_id = input.agent_id;
  task_id = input.task_id;
  conversation_id = input.conversation_id;
  parent_run_id = input.parent_run_id;
  status = queued;
  prompt = input.prompt;
  provider = get_or input.provider "claude-code";
  connection_mode = get_or input.connection_mode "anthropic";
  model_id = input.model_id;
  trigger_source = get_or input.trigger_source "user";
  agent_definition_version = input.agent_definition_version;
  idempotency_key = input.idempotency_key;
  idempotency_request_hash = input.idempotency_request_hash;
  active_stream_id = none;
  retry_count = 0;
  max_retries = 3;
  error_message = none;
  created_at = now;
  updated_at = now;
  started_at = none;
  completed_at = none;
}

unfoldable pub create : ℕ → String → CreateRunInput → Rows → Run × Rows
create now row_id input rows = let row = new_row now row_id input in (row, rows ++ row ∷ [])

unfoldable pub find_by_id : String → Rows → Option Run
find_by_id row_id rows = find (λ r. r.id == row_id) rows

-- The columns that `updateStatus` sets.
unfoldable pub apply_updates : ℕ → RunStatus → RunUpdates → Run → Run
apply_updates now to u r = record r {
  status = to;
  updated_at = now;
  started_at = or_else u.started_at r.started_at;
  completed_at = or_else u.completed_at r.completed_at;
  error_message = get_or u.error_message r.error_message;
  active_stream_id = get_or u.active_stream_id r.active_stream_id;
  retry_count = get_or u.retry_count r.retry_count;
}

-- `UPDATE runs SET … WHERE id = …`
unfoldable pub write_row : ℕ → String → RunStatus → RunUpdates → Rows → Rows
write_row now row_id to u [] = []
write_row now row_id to u (r ∷ rows) =
    let rest = write_row now row_id to u rows in
    (if r.id == row_id then apply_updates now to u r else r) ∷ rest

-- … `RETURNING *`
unfoldable pub update_status : ℕ → String → RunStatus → RunUpdates → Rows → Option Run × Rows
unfolding write_row find_by_id
update_status now row_id to u rows =
    let rows' = write_row now row_id to u rows in (find_by_id row_id rows', rows')

-- `ORDER BY created_at DESC`, as an insertion sort.
unfoldable pub insert_desc : Run → Rows → Rows
insert_desc r [] = r ∷ []
insert_desc r (s ∷ rows) =
    let later = s ∷ insert_desc r rows in
    if leb s.created_at r.created_at then r ∷ s ∷ rows else later

unfoldable pub order_desc : Rows → Rows
unfolding insert_desc
order_desc [] = []
order_desc (r ∷ rows) = insert_desc r (order_desc rows)

unfoldable pub list_by_agent : String → Option ℕ → Rows → Rows
unfolding order_desc
list_by_agent agent limit rows =
    take (get_or limit 50) (order_desc (filter (λ r. r.agent_id == agent) rows))

-- `updated_at < now - olderThanMs`, without the subtraction.
unfoldable pub find_stuck_runs : ℕ → ℕ → Rows → Rows
find_stuck_runs now older_than rows =
    filter
      (λ r.
        not (includes (completed ∷ failed ∷ []) r.status) && ltb (r.updated_at + older_than) now)
      rows

-- The first row of a `LIMIT 1`.
abbrev pub first : Rows → Option Run
first [] = none
first (r ∷ rows) = some r

unfoldable pub find_latest_by_idempotency_key : String → ℕ → Rows → Option Run
unfolding order_desc
find_latest_by_idempotency_key key since rows =
    first (order_desc (filter (λ r. r.idempotency_key == some key && leb since r.created_at) rows))
