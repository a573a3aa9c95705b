-- ===== src/Definitions/Service/Tests.antt =====
-- The service on two definitions.
use open_rush.Prelude.{
  String, false, List, [], ◌∷◌, map, none, some, ◌≡◌, ◌⊎◌, refl, ◌==◌, string_eq, arith,
}
use open_rush.Prelude.Json.{null, undefined, num, str, arr, nil, pos}
use open_rush.Prelude.Pages.{rev}
use open_rush.Definitions.{
  name, description, icon, provider_type, model, system_prompt, append_system_prompt, allowed_tools,
  skills, mcp_servers, max_steps, delivery_mode, config, Editable, AgentRow, Db, empty_db,
  AgentDefinition, int, CreateAgentDefinitionInput, PatchAgentDefinitionInput, DefinitionError,
  Result, ok, err,
}
use open_rush.Definitions.Fields.{
  with_nulls, pick_editable_patch, row_to_definition, version_row_to_summary,
}
use open_rush.Definitions.Service.{new_agent, patched, create, patch, get, get_by_version}
use open_rush.Definitions.Service.Spread.{IsFull}
use open_rush.Definitions.Service.Tables.{versions_of}
use open_rush.Definitions.Service.Moves.{HasHistory}
use open_rush.Definitions.Service.Outcome.{Reason, Accepted}
use open_rush.Definitions.Service.History.{
  Op, create_op, patch_op, archive_op, apply_ops, apply_ops-HasHistory, empty-HasHistory,
}
use open_rush.Definitions.Service.Frozen.{
  SameVersion, Shows, get_by_version-apply_ops, get_by_version-get,
}
use open_rush.Definitions.Service.Patch.{Patched, patch_lem, patch_once}
use open_rush.Definitions.Service.Versions.{walk, walk_lem}

abbrev fields : Editable
fields name = str "reviewer"
fields description = undefined
fields icon = null
fields provider_type = str "claude-code"
fields model = null
fields system_prompt = undefined
fields append_system_prompt = null
fields allowed_tools = arr nil
fields skills = arr nil
fields mcp_servers = arr nil
fields max_steps = num "30"
fields delivery_mode = str "chat"
fields config = null

fields_IsFull : IsFull (with_nulls fields)
fields_IsFull name = refl
fields_IsFull _ = refl

abbrev creation : CreateAgentDefinitionInput
creation = record { project_id = "p"; fields = fields; change_note = none; created_by = some "u" }

abbrev rename : PatchAgentDefinitionInput
rename = record {
  fields = ("name", str "auditor") ∷ ("icon", undefined) ∷ ("x", null) ∷ [];
  if_match_version = int (pos 1);
  change_note = some "renamed";
  updated_by = some "u";
}

-- A definition that has been created and renamed, and another one.
abbrev calls : List Op
calls = create_op 10 "a" creation ∷ create_op 15 "b" creation ∷ patch_op 20 "a" rename ∷ []

abbrev made : Db
made = apply_ops (create_op 10 "a" creation ∷ create_op 15 "b" creation ∷ []) empty_db

abbrev edited : Db
edited = apply_ops calls empty_db

made-HasHistory : HasHistory made
made-HasHistory =
    apply_ops-HasHistory (create_op 10 "a" creation ∷ create_op 15 "b" creation ∷ []) empty_db
      (fields_IsFull, (fields_IsFull, tt)) empty-HasHistory

apply_ops-HasHistory_example : HasHistory edited
apply_ops-HasHistory_example =
    apply_ops-HasHistory calls empty_db (fields_IsFull, (fields_IsFull, (tt, tt))) empty-HasHistory

patch_lem_example :
    ((e : DefinitionError) × (patch 20 "a" rename made ≡ (err e, made)) × Reason "a" rename made e)
    ⊎ ((row : AgentRow) × (d : AgentDefinition) × Accepted "a" rename made row
        × ((patch 20 "a" rename made).0 ≡ ok d)
        × (get "a" (patch 20 "a" rename made).1 ≡ ok d)
        × ((b : String) → ("a" == b) ≡ false → get b (patch 20 "a" rename made).1 ≡ get b made)
        × Patched 20 rename row d)
patch_lem_example = patch_lem 20 "a" rename made made-HasHistory

renamed : AgentDefinition
renamed = row_to_definition (patched 20 2 ((name, str "auditor") ∷ []) (new_agent 10 "a" creation))

patch_once_example :
    (e : DefinitionError) × (patch 30 "a" rename
        (apply_ops (archive_op 25 "b" ∷ []) (patch 20 "a" rename made).1)
      ≡ (err e, apply_ops (archive_op 25 "b" ∷ []) (patch 20 "a" rename made).1))
unfolding patch apply_ops renamed pick_editable_patch create
patch_once_example =
    patch_once 20 30 "a" rename rename made (archive_op 25 "b" ∷ []) renamed made-HasHistory
      (tt, tt) refl refl

-- The first version of the renamed definition still has the old name; the rename has the number 2.
pick_editable_patch_run : pick_editable_patch rename.fields ≡ (name, str "auditor") ∷ []
unfolding pick_editable_patch
pick_editable_patch_run = refl

abbrev first : AgentDefinition
first = record {
  editable = with_nulls fields;
  id = "a";
  project_id = "p";
  current_version = 1;
  archived_at = none;
  created_at = 10;
  updated_at = 10;
}

abbrev found_or_first : Result AgentDefinition → AgentDefinition
found_or_first (ok d) = d
found_or_first (err e) = first

abbrev read_version : Db → AgentDefinition
read_version db = found_or_first (get_by_version "a" (int (pos 1)) db)

get_by_version-apply_ops_example :
    (d' : AgentDefinition) × (get_by_version "a"
        (int (pos 1))
        (apply_ops (patch_op 20 "a" rename ∷ []) made)
      ≡ ok d')
    × SameVersion (read_version made) d'
unfolding get_by_version apply_ops create
get_by_version-apply_ops_example =
    get_by_version-apply_ops (patch_op 20 "a" rename ∷ []) made "a" (int (pos 1))
      (read_version made) (tt, tt) made-HasHistory refl

get_by_version-get_example :
    (d' : AgentDefinition) × (get_by_version "a" (int (pos 2)) edited ≡ ok d') × Shows renamed d'
unfolding renamed get apply_ops patch pick_editable_patch create row_to_definition
get_by_version-get_example = get_by_version-get edited "a" renamed apply_ops-HasHistory_example refl

walk_lem_example :
    walk 3 "a" (some (int (pos 1))) none edited
    ≡ map version_row_to_summary (rev (versions_of "a" edited))
unfolding apply_ops patch pick_editable_patch create
walk_lem_example =
    walk_lem 3 "a" (some (int (pos 1))) edited
      (patched 20 2 ((name, str "auditor") ∷ []) (new_agent 10 "a" creation))
      apply_ops-HasHistory_example refl (omega arith)
