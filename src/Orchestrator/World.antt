-- ===== src/Orchestrator/World.antt =====
-- `RunOrchestratorDeps` of packages/control-plane/src/run/run-orchestrator.ts, and the state of a
-- call of `execute`. A dependency is a function of a world `W`, which may throw; other processes
-- may change the world too, which such a function then includes. The trace has every call of a
-- dependency, the last one first, with whether it returned.
use open_rush.Prelude.{
  ℕ, String, Bool, true, false, List, [], ◌∷◌, Option, none, some, ◌≡◌, refl, ◌⊎◌, inl, inr,
}
use open_rush.Prelude.Json.{Json, ℤ}
use open_rush.Run.Status.{RunStatus}
use open_rush.Run.Db.{Run, RunUpdates}
use open_rush.Events.{RunEvent}

pub data Outcome {ℓ} (A : Type ℓ) : Type ℓ where
  returned : A → Outcome A
  -- the message of the error
  thrown : String → Outcome A

pub Outcome-cases {ℓ} :
    {A : Type ℓ} (r : Outcome A) → ((a : A) × (r ≡ returned a)) ⊎ ((e : String) × (r ≡ thrown e))
Outcome-cases (returned a) = inl (a, refl)
Outcome-cases (thrown e) = inr (e, refl)

abbrev pub has_returned {ℓ} : {A : Type ℓ} → Outcome A → Bool
has_returned (returned a) = true
has_returned (thrown e) = false

-- The entries of `Record<string, string>`, by which a spread overwrites.
abbrev pub Env : Type 0
Env = List (String × String)

pub record AgentConfig : Type 0 where
  pub created_by : Option String
  pub allowed_tools : List String
  pub max_steps : ℕ
  pub name : String
  pub is_builtin : Bool
  pub system_prompt : Option String
  pub append_system_prompt : Option String

pub record AgentContext : Type 0 where
  pub agent_config : AgentConfig
  pub project_id : String
  pub env : Env
  pub model_alias : String

pub record LlmGrant : Type 0 where
  pub token_id : String
  pub env : Env

pub record IssueForRunInput : Type 0 where
  pub run_id : String
  pub agent_id : String
  pub project_id : String
  pub owner_user_id : Option String
  pub model_alias : String
  pub ttl_seconds : Option ℕ

pub record CreateSandboxOptions : Type 0 where
  pub agent_id : String
  pub env : Option Env
  pub ttl_seconds : ℕ

-- The options of `sendPrompt`; those of the agent are absent together.
pub record PromptRequest : Type 0 where
  pub agent_worker_url : String
  pub prompt : String
  pub session_id : String
  pub env : Option Env
  pub agent : Option AgentContext

pub data DoneStatus : Type 0 where
  success failed_with_error cancelled : DoneStatus

-- The payloads of the events that the orchestrator writes itself, and a chunk of the worker.
pub data Payload : Type 0 where
  run_started : String → String → ℕ → Payload
  usage : Json → Payload
  -- the error is absent where its message is empty
  run_done : DoneStatus → Option String → Payload
  chunk : Json → Json → Payload

-- A call of a dependency.
pub data Call : Type 0 where
  transition_call : String → RunStatus → Call
  resolve_project_call : String → Call
  prepare_context_call : String → String → Call
  issue_token_call : IssueForRunInput → Call
  create_sandbox_call : CreateSandboxOptions → Call
  health_check_call : String → Call
  restore_checkpoint_call : String → Call
  endpoint_url_call : String → ℕ → Call
  send_prompt_call : PromptRequest → Call
  -- without a number, `appendAssignSeq`
  append_call : String → Payload → Option ℕ → Call
  aggregate_usage_call : String → Call
  read_events_call : String → Call
  last_seq_call : String → Call
  create_checkpoint_call : String → List RunEvent → ℤ → Call
  revoke_tokens_call : String → Call
  release_lock_call : String → Call
  destroy_sandbox_call : String → Call

-- An asynchronous method of a dependency.
abbrev pub Method : Type 0 → Type 0 → Type 0
Method W A = W → Outcome A × W

pub record LlmAccess (W : Type 0) : Type 0 where
  pub issue_for_run : IssueForRunInput → Method W LlmGrant
  pub revoke_for_run : String → Method W ℕ
  pub aggregate_usage : String → Method W (Option Json)

pub record Checkpoints (W : Type 0) : Type 0 where
  -- the events of the snapshot that is restored
  pub restore_checkpoint : String → Method W (Option (List RunEvent))
  pub create_checkpoint : String → List RunEvent → ℤ → Method W (Unit {0})

pub record Deps (W : Type 0) : Type 0 where
  pub get_by_id : String → Method W (Option Run)
  pub transition : String → RunStatus → RunUpdates → Method W Run
  pub create_sandbox : CreateSandboxOptions → Method W String
  pub health_check : String → Method W (Unit {0})
  pub get_endpoint_url : String → ℕ → Method W (Option String)
  pub destroy : String → Method W (Unit {0})
  pub append : String → Payload → Option ℕ → Method W (Unit {0})
  pub get_events : String → Method W (List RunEvent)
  pub get_last_seq : String → Method W ℤ
  -- `fetch` of the worker's `/prompt`, and the reads of the body that it answers with
  pub send_prompt : PromptRequest → Method W (List (Outcome String))
  pub checkpoint_service : Option (Checkpoints W)
  pub agent_executor : Option (String → String → Method W AgentContext)
  pub llm_access : Option (LlmAccess W)
  pub resolve_project_id_for_agent : Option (String → Method W (Option String))
  pub release_task_lock : Option (String → Method W (Unit {0}))
  -- `getDevAgentWorkerUrl`, `OPENRUSH_V1_EVENTS_ENABLED` and `JSON.parse`
  pub dev_agent_worker_url : Option String
  pub v1_events_enabled : Bool
  pub parse_json : String → Option Json
  -- the text that a value other than a text adds to a `join`, which is empty where it is falsy
  pub join_text : Json → String

-- The time stamp is left out: nothing reads it.
pub record StreamEvent : Type 0 where
  pub type : Json
  pub event_data : Json
  pub seq : ℕ

-- The world, the trace, the ids that the creation of a sandbox returned (the last one first), the
-- buffer of `createIncrementalSave`, and the variables of `execute` that its `catch` and `finally`
-- read.
pub record State (W : Type 0) : Type 0 where
  pub world : W
  pub trace : List (Call × Bool)
  pub created_ids : List String
  pub buffer : List StreamEvent
  pub sandbox_id : Option String
  pub run_started_emitted : Bool
  pub run_done_emitted : Bool

abbrev pub start : {W : Type 0} → W → State W
start w = record {
  world = w;
  trace = [];
  created_ids = [];
  buffer = [];
  sandbox_id = none;
  run_started_emitted = false;
  run_done_emitted = false;
}

abbrev pub M {ℓ} : Type 0 → Type ℓ → Type ℓ
M W A = State W → Outcome A × State W

module _ {W : Type 0} where
  -- What follows a call: nothing where it threw.
  unfoldable pub and_then {ℓ κ} : {A : Type ℓ} {B : Type κ} → (A → M W B) → Outcome A → M W B
  and_then f (returned a) s = f a s
  and_then f (thrown e) s = (thrown e, s)

  infixl 5 ◌>>=◌
  unfoldable pub ◌>>=◌ {ℓ κ} : {A : Type ℓ} {B : Type κ} → M W A → (A → M W B) → M W B
  unfolding and_then
  ◌>>=◌ m f s = and_then f ((m s).0) ((m s).1)

  unfoldable pub pure {ℓ} : {A : Type ℓ} → A → M W A
  pure a s = (returned a, s)

  unfoldable pub throw {ℓ} : {A : Type ℓ} → String → M W A
  throw e s = (thrown e, s)

  unfoldable pub or_catch {ℓ} : {A : Type ℓ} → (String → M W A) → Outcome A → M W A
  or_catch f (returned a) s = (returned a, s)
  or_catch f (thrown e) s = f e s

  -- `try m catch (e) { f(e) }`
  unfoldable pub catch {ℓ} : {A : Type ℓ} → M W A → (String → M W A) → M W A
  unfolding or_catch
  catch m f s = or_catch f ((m s).0) ((m s).1)

  -- A call of a dependency, which the trace notes.
  unfoldable pub call {ℓ} : {A : Type ℓ} → Call → (W → Outcome A × W) → M W A
  call c method s = (
    (method s.world).0,
    record s {
      world = (method s.world).1;
      trace = (c, has_returned ((method s.world).0)) ∷ s.trace;
    },
  )

  abbrev pub note_created : Outcome String → State W → State W
  note_created (returned i) s = record s { created_ids = i ∷ s.created_ids }
  note_created (thrown e) s = s

  -- `sandboxProvider.create`, whose answers are noted too.
  unfoldable pub create_call : CreateSandboxOptions → (W → Outcome String × W) → M W String
  unfolding call
  create_call options method s =
      let (r, s') = call (Call.create_sandbox_call options) method s in (r, note_created r s')

  unfoldable pub set_buffer : List StreamEvent → M W (Unit {0})
  set_buffer events s = (returned tt, record s { buffer = events })

  unfoldable pub get_buffer : M W (List StreamEvent)
  get_buffer s = (returned s.buffer, s)

  unfoldable pub set_sandbox : String → M W (Unit {0})
  set_sandbox i s = (returned tt, record s { sandbox_id = some i })

  unfoldable pub set_started : Bool → M W (Unit {0})
  set_started b s = (returned tt, record s { run_started_emitted = b })

  unfoldable pub set_done : M W (Unit {0})
  set_done s = (returned tt, record s { run_done_emitted = true })

  -- `try { await m } catch { console.error(…) }`
  abbrev pub attempt : M W (Unit {0}) → M W (Unit {0})
  attempt m = catch m (λ e. pure tt)

  abbrev pub when : Bool → M W (Unit {0}) → M W (Unit {0})
  when true m = m
  when false m = pure tt

  -- What is done with a value that may be absent.
  abbrev pub given {ℓ κ} : {A : Type ℓ} {B : Type κ} → Option A → M W B → (A → M W B) → M W B
  given none m f = m
  given (some a) m f = f a
