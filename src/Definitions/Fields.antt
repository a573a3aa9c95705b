-- ===== src/Definitions/Fields.antt =====
-- The mapping between rows, snapshots and definitions of agent-definition-service.ts.
use mathlib.Core.Option.{get_or}
use open_rush.Prelude.{
  String, List, [], ◌∷◌, map, Option, none, some, if◌then◌else◌, ◌==◌, string_eq,
}
use open_rush.Prelude.Json.{Json, undefined, null, arr, nil, or_null}
use open_rush.Definitions.{
  Key, name, description, icon, provider_type, model, system_prompt, append_system_prompt,
  allowed_tools, skills, mcp_servers, max_steps, delivery_mode, config, editable_keys, key_eq,
  Editable, Partial, Object, AgentRow, VersionRow, AgentDefinition, VersionSummary,
}

-- The property's name in an object of the service.
abbrev pub camel : Key → String
camel name = "name"
camel description = "description"
camel icon = "icon"
camel provider_type = "providerType"
camel model = "model"
camel system_prompt = "systemPrompt"
camel append_system_prompt = "appendSystemPrompt"
camel allowed_tools = "allowedTools"
camel skills = "skills"
camel mcp_servers = "mcpServers"
camel max_steps = "maxSteps"
camel delivery_mode = "deliveryMode"
camel config = "config"

abbrev pub snake_keys : Key → String
snake_keys name = "name"
snake_keys description = "description"
snake_keys icon = "icon"
snake_keys provider_type = "provider_type"
snake_keys model = "model"
snake_keys system_prompt = "system_prompt"
snake_keys append_system_prompt = "append_system_prompt"
snake_keys allowed_tools = "allowed_tools"
snake_keys skills = "skills"
snake_keys mcp_servers = "mcp_servers"
snake_keys max_steps = "max_steps"
snake_keys delivery_mode = "delivery_mode"
snake_keys config = "config"

-- `?? null` on the nullable fields.
abbrev pub with_nulls : Editable → Editable
with_nulls e name = e name
with_nulls e description = or_null (e description)
with_nulls e icon = or_null (e icon)
with_nulls e provider_type = e provider_type
with_nulls e model = or_null (e model)
with_nulls e system_prompt = or_null (e system_prompt)
with_nulls e append_system_prompt = or_null (e append_system_prompt)
with_nulls e allowed_tools = e allowed_tools
with_nulls e skills = e skills
with_nulls e mcp_servers = e mcp_servers
with_nulls e max_steps = e max_steps
with_nulls e delivery_mode = e delivery_mode
with_nulls e config = or_null (e config)

unfoldable pub extract_editable : AgentRow → Editable
extract_editable row = with_nulls row.columns

unfoldable pub row_to_definition : AgentRow → AgentDefinition
row_to_definition row = record {
  editable = extract_editable row;
  id = row.id;
  project_id = row.project_id;
  current_version = row.current_version;
  archived_at = row.archived_at;
  created_at = row.created_at;
  updated_at = row.updated_at;
}

-- The object that a snapshot is stored as.
unfoldable pub object_of : Editable → Object
object_of e = map (λ k. (camel k, e k)) editable_keys

-- `o[p]`, where `p in o`
abbrev pub property : String → Object → Option Json
property p [] = none
property p ((q, v) ∷ o) = let rest = property p o in if q == p then some v else rest

-- `v === undefined ? fallback : v`
abbrev pub or_fallback : Json → Json → Json
or_fallback undefined fallback = fallback
or_fallback v fallback = v

abbrev pub first_of : Option Json → Option Json → Json
first_of (some v) o = v
first_of none o = get_or o undefined

unfoldable pub read_snapshot_field : Object → Key → Json
read_snapshot_field snapshot k =
    first_of (property (camel k) snapshot) (property (snake_keys k) snapshot)

abbrev pub fallback_of : AgentRow → Editable
fallback_of row name = row.columns name
fallback_of row provider_type = row.columns provider_type
fallback_of row allowed_tools = arr nil
fallback_of row skills = arr nil
fallback_of row mcp_servers = arr nil
fallback_of row max_steps = row.columns max_steps
fallback_of row delivery_mode = row.columns delivery_mode
fallback_of row _ = null

unfoldable pub snapshot_to_definition : AgentRow → VersionRow → AgentDefinition
unfolding read_snapshot_field
snapshot_to_definition row v = record {
  editable = λ k. or_fallback (read_snapshot_field (get_or v.snapshot []) k) (fallback_of row k);
  id = row.id;
  project_id = row.project_id;
  current_version = v.version;
  archived_at = row.archived_at;
  created_at = row.created_at;
  updated_at = v.created_at;
}

unfoldable pub version_row_to_summary : VersionRow → VersionSummary
version_row_to_summary v = record {
  version = v.version;
  change_note = v.change_note;
  created_by = v.created_by;
  created_at = v.created_at;
}

abbrev pub pick_one : Key → Option Json → Partial → Partial
pick_one k none out = out
pick_one k (some undefined) out = out
pick_one k (some v) out = (k, v) ∷ out

abbrev pub pick_each : Object → List Key → Partial
pick_each input [] = []
pick_each input (k ∷ ks) = pick_one k (property (camel k) input) (pick_each input ks)

unfoldable pub pick_editable_patch : Object → Partial
pick_editable_patch input = pick_each input editable_keys

-- `p[k]`, where `k in p`
abbrev pub field : Key → Partial → Option Json
field k [] = none
field k ((j, v) ∷ p) = let rest = field k p in if j == k then some v else rest

-- `{ ...e, ...p }`
abbrev pub spread : Editable → Partial → Editable
spread e p k = get_or (field k p) (e k)
