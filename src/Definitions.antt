-- ===== src/Definitions.antt =====
-- The versioned agent definitions of packages/control-plane/src/agent-definition-service.ts: the
-- types of the service and the rows of its two tables. The casts of the source change no value, so
-- a field holds a JavaScript value. Times are microseconds, as the database keeps them; columns
-- that no method reads are left out.
pub mod Fields
pub mod Service
use open_rush.Prelude.{
  ℕ, zero, suc, String, Bool, true, false, List, [], ◌∷◌, Option, none, some, ◌≡◌, refl, Equal,
  nat_beq, code_beq_iff, get_elem?, min, ltb, if◌then◌else◌,
}
use open_rush.Prelude.Json.{Json, ℤ, pos}

-- `keyof AgentDefinitionEditable`
pub data Key : Type 0 where
  name description icon provider_type model system_prompt append_system_prompt : Key
  allowed_tools skills mcp_servers max_steps delivery_mode config : Key

abbrev pub editable_keys : List Key
editable_keys =
    name ∷ description ∷ icon ∷ provider_type ∷ model ∷ system_prompt ∷ append_system_prompt
    ∷ allowed_tools ∷ skills ∷ mcp_servers ∷ max_steps ∷ delivery_mode ∷ config ∷ []

abbrev pub key_code : Key → ℕ
key_code name = 0
key_code description = 1
key_code icon = 2
key_code provider_type = 3
key_code model = 4
key_code system_prompt = 5
key_code append_system_prompt = 6
key_code allowed_tools = 7
key_code skills = 8
key_code mcp_servers = 9
key_code max_steps = 10
key_code delivery_mode = 11
key_code config = 12

pub key_of : ℕ → Key
key_of n = elim (get_elem? editable_keys n) [ some k ↦ k | none ↦ name ]

pub key_of-key_code : (k : Key) → key_of (key_code k) ≡ k
unfolding key_of
key_of-key_code name = refl
key_of-key_code _ = refl

instance abbrev pub key_eq : Equal Key
key_eq = record {
  agrees = code_beq_iff key_code key_of key_of-key_code;
  test = λ j k. nat_beq (key_code j) (key_code k);
}

-- `AgentDefinitionEditable`: a value for each of its keys.
abbrev pub Editable : Type 0
Editable = Key → Json

-- `Partial<AgentDefinitionEditable>`, in the order in which the keys were set.
abbrev pub Partial : Type 0
Partial = List (Key × Json)

-- A JavaScript object: `Record<string, unknown>`.
abbrev pub Object : Type 0
Object = List (String × Json)

-- A row of `agents`.
pub record AgentRow : Type 0 where
  pub id : String
  pub project_id : String
  pub columns : Editable
  pub created_by : Option String
  pub current_version : ℕ
  pub archived_at : Option ℕ
  pub created_at : ℕ
  pub updated_at : ℕ

-- A row of `agent_definition_versions`.
pub record VersionRow : Type 0 where
  pub agent_id : String
  pub version : ℕ
  pub snapshot : Option Object
  pub change_note : Option String
  pub created_by : Option String
  pub created_at : ℕ

pub record Db : Type 0 where
  pub agents : List AgentRow
  pub versions : List VersionRow

abbrev pub empty_db : Db
empty_db = record { agents = []; versions = [] }

pub record AgentDefinition : Type 0 where
  pub editable : Editable
  pub id : String
  pub project_id : String
  pub current_version : ℕ
  pub archived_at : Option ℕ
  pub created_at : ℕ
  pub updated_at : ℕ

-- A JavaScript number: `fraction z` lies strictly between `z` and the next integer.
pub data Number : Type 0 where
  int : ℤ → Number
  fraction : ℤ → Number
  not_finite : Number

pub record CreateAgentDefinitionInput : Type 0 where
  pub project_id : String
  pub fields : Editable
  pub change_note : Option String
  pub created_by : Option String

-- The editable keys of the body are those of `fields`, which may have others.
pub record PatchAgentDefinitionInput : Type 0 where
  pub fields : Object
  pub if_match_version : Number
  pub change_note : Option String
  pub updated_by : Option String

pub record VersionSummary : Type 0 where
  pub version : ℕ
  pub change_note : Option String
  pub created_by : Option String
  pub created_at : ℕ

-- The error classes. `unique_violation` is the database's, where a key is taken.
pub data DefinitionError : Type 0 where
  not_found : String → DefinitionError
  invalid_input : String → Number → DefinitionError
  version_not_found : String → ℕ → DefinitionError
  version_conflict : String → ℕ → ℕ → DefinitionError
  archived : String → ℕ → DefinitionError
  empty_patch unique_violation : DefinitionError

pub data Result {ℓ} (A : Type ℓ) : Type ℓ where
  ok : A → Result A
  err : DefinitionError → Result A

-- `Number.isInteger(v) && v >= 1`
abbrev pub positive_integer : Number → Option ℕ
positive_integer (int (pos (suc n))) = some (suc n)
positive_integer _ = none

abbrev pub clamp : ℕ → ℕ
clamp n = if ltb n 1 then 50 else min n 200

abbrev pub clamp_limit : Option Number → ℕ
clamp_limit (some (int (pos n))) = clamp n
clamp_limit (some (fraction (pos n))) = clamp n
clamp_limit _ = 50
