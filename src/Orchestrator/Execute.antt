-- ===== src/Orchestrator/Execute.antt =====
-- `execute` and `finalize` of packages/control-plane/src/run/run-orchestrator.ts. The reading of
-- the snapshot in `tryRestoreCheckpoint` is `restored_text`.
use open_rush.Prelude.{
  String, Bool, true, false, ◌&&◌, not, List, [], ◌∷◌, ◌++◌, Option, none, some, if◌then◌else◌,
  ◌||◌, ◌==◌, string_eq,
}
use Prim.Native.String
use mathlib.Core.Option
use open_rush.Prelude.Json.{Json}
use open_rush.Run.Status.{
  RunStatus, provisioning, preparing, running, finalizing_prepare, finalizing_uploading,
  finalizing_verifying, finalizing_metadata_commit, finalized, completed, failed,
}
use open_rush.Run.Db.{Run, RunUpdates, no_updates}
use open_rush.Run.Service.{with_message, truthy}
use open_rush.Events.{RunEvent}
use open_rush.Orchestrator.World
use open_rush.Orchestrator.World.{
  IssueForRunInput, CreateSandboxOptions, PromptRequest, Outcome, returned, thrown, Env,
  AgentContext, LlmGrant, DoneStatus, success, failed_with_error, Payload, Call, LlmAccess,
  Checkpoints, Deps, State, M, ◌>>=◌, pure, throw, catch, call, create_call, set_sandbox,
  set_started, set_done, attempt, given, when,
}
use open_rush.Orchestrator.Stream.{append_event, consume_stream, get_field}

-- `{ ...(agentContext?.env ?? {}), ...(grant?.env ?? {}) }`: the later entry of a name counts.
unfoldable pub sandbox_env : Option AgentContext → Option LlmGrant → Option Env
sandbox_env none none = none
sandbox_env (some context) none = some context.env
sandbox_env none (some grant) = some grant.env
sandbox_env (some context) (some grant) = some (context.env ++ grant.env)

-- `event.payload?.content ?? event.payload?.delta ?? ''`
abbrev pub content_of : Json → Json
content_of (Json.obj fs) = elim (get_field "content" fs) [
  | Json.undefined ↦ get_field "delta" fs
  | Json.null ↦ get_field "delta" fs
  | v ↦ v
]
content_of _ = Json.undefined

-- What a value adds to `textParts.join('')`.
abbrev pub text_of : (Json → String) → Json → String
text_of join_text Json.undefined = ""
text_of join_text Json.null = ""
text_of join_text (Json.str s) = s
text_of join_text v = join_text v

abbrev pub is_text_delta : RunEvent → Bool
is_text_delta e = e.event_type == "text-delta" || e.event_type == "text_delta"

unfoldable pub restored_text : (Json → String) → List RunEvent → String
restored_text join_text [] = ""
restored_text join_text (e ∷ events) =
    let rest = restored_text join_text events in
    if is_text_delta e then String.◌++◌ (text_of join_text (content_of e.payload)) rest else rest

unfoldable pub full_prompt : Option String → String → String
full_prompt none prompt = prompt
full_prompt (some restored) prompt =
    if truthy (some restored)
    then (String.◌++◌
        (String.◌++◌ (String.◌++◌ "[Restored from checkpoint]\n\nPrevious context:\n" restored)
          "\n\nNew prompt:\n")
        prompt)
    else prompt

-- `error ? { status, error } : { status }`
abbrev pub error_of : Option String → Option String
error_of e = if truthy e then e else none

module _ {W : Type 0} (deps : Deps W) (run_id : String) where
  unfoldable pub transition : RunStatus → RunUpdates → M W (Unit {0})
  transition to extra =
      call (Call.transition_call run_id to) (deps.transition run_id to extra) >>= λ _. pure tt

  -- `if (!value) throw new Error(message)`
  unfoldable pub truthy_or_throw : String → Option String → M W String
  truthy_or_throw message none = throw message
  truthy_or_throw message (some value) = if truthy (some value) then pure value else throw message

  unfoldable pub prepare_agent : String → M W (Option AgentContext)
  unfolding truthy_or_throw
  prepare_agent agent_id = given deps.agent_executor (pure none) (λ prepare_context.
      given deps.resolve_project_id_for_agent (pure none) (λ resolve. do
        project ← call (Call.resolve_project_call agent_id) (resolve agent_id)
        project_id ← truthy_or_throw (String.◌++◌ "Project not found for agent " agent_id) project
        context ←
            call (Call.prepare_context_call agent_id project_id)
              (prepare_context agent_id project_id)
        pure (some context)))

  unfoldable pub issue_grant : String → Option AgentContext → M W (Option LlmGrant)
  issue_grant agent_id none = pure none
  issue_grant agent_id (some context) = given deps.llm_access (pure none) (λ llm.
      let input : IssueForRunInput = record {
        run_id = run_id;
        agent_id = agent_id;
        project_id = context.project_id;
        owner_user_id = context.agent_config.created_by;
        model_alias = context.model_alias;
        ttl_seconds = none;
      } in
      call (Call.issue_token_call input) (llm.issue_for_run input) >>= λ grant. pure (some grant))

  unfoldable pub try_restore_checkpoint : String → M W (Option String)
  unfolding restored_text
  try_restore_checkpoint parent = given deps.checkpoint_service (pure none) (λ checkpoints.
      catch
        (call (Call.restore_checkpoint_call parent) (checkpoints.restore_checkpoint parent)
          >>= λ found. pure (Option.map (restored_text deps.join_text) found))
        (λ e. pure none))

  unfoldable pub restore_parent : Option Run → M W (Option String)
  unfolding try_restore_checkpoint
  restore_parent none = pure none
  restore_parent (some run) =
      if truthy run.parent_run_id
      then (given run.parent_run_id (pure none) (λ parent. try_restore_checkpoint parent))
      else pure none

  unfoldable pub endpoint_url : String → M W String
  unfolding truthy_or_throw
  endpoint_url sandbox = do
    found ←
        given deps.dev_agent_worker_url
          (call (Call.endpoint_url_call sandbox 8787) (deps.get_endpoint_url sandbox 8787))
          (λ url. pure (some url))
    truthy_or_throw "Sandbox endpoint URL not available" found

  -- Whether an event was written.
  unfoldable pub emit_run_started : String → Option Run → M W Bool
  unfolding append_event
  emit_run_started agent_id none = pure false
  emit_run_started agent_id (some run) = given run.agent_definition_version (pure false) (λ version.
      append_event deps run_id (Payload.run_started run_id agent_id version) none >>= λ _.
      pure true)

  unfoldable pub emit_run_done : DoneStatus → Option String → M W (Unit {0})
  unfolding append_event
  emit_run_done status error =
      append_event deps run_id (Payload.run_done status (error_of error)) none

  -- The call of `emitRunStarted` with the assignment of its result.
  unfoldable pub start_events : String → Option Run → M W (Unit {0})
  unfolding emit_run_started
  start_events agent_id run =
      when deps.v1_events_enabled (emit_run_started agent_id run >>= set_started)

  unfoldable pub emit_usage : M W (Unit {0})
  unfolding append_event
  emit_usage = given deps.llm_access (pure tt) (λ llm. when deps.v1_events_enabled (
      attempt (
        call (Call.aggregate_usage_call run_id) (llm.aggregate_usage run_id) >>= λ usage.
        given usage (pure tt) (λ u. append_event deps run_id (Payload.usage u) none))))

  -- `if (v1 && runStartedEmitted && !runDoneEmitted) …`, with the assignment after the emission.
  unfoldable pub emit_done_once : DoneStatus → Option String → M W (Unit {0})
  unfolding emit_run_done
  emit_done_once status error s =
      when (deps.v1_events_enabled && s.run_started_emitted && not s.run_done_emitted)
        (emit_run_done status error >>= λ _. set_done) s

  -- `if (v1 && runStartedEmitted) …` at the end of a stream that was consumed.
  unfoldable pub emit_success : M W (Unit {0})
  unfolding emit_run_done
  emit_success s =
      when (deps.v1_events_enabled && s.run_started_emitted)
        (emit_run_done success none >>= λ _. set_done) s

  unfoldable pub create_checkpoint : M W (Unit {0})
  create_checkpoint = given deps.checkpoint_service (pure tt) (λ checkpoints. attempt (
      call (Call.read_events_call run_id) (deps.get_events run_id) >>= λ events.
      call (Call.last_seq_call run_id) (deps.get_last_seq run_id) >>= λ last.
      call (Call.create_checkpoint_call run_id events last)
        (checkpoints.create_checkpoint run_id events last)))

  unfoldable pub finalize : M W (Unit {0})
  unfolding transition create_checkpoint
  finalize = do
    _ ← transition finalizing_prepare no_updates
    _ ← create_checkpoint
    _ ← transition finalizing_uploading no_updates
    _ ← transition finalizing_verifying no_updates
    _ ← transition finalizing_metadata_commit no_updates
    _ ← transition finalized no_updates
    transition completed no_updates

  -- From the sandbox on: steps 2 to 6.
  unfoldable pub run_in_sandbox :
      String → String → Option Run → Option AgentContext → Option Env → String → M W (Unit {0})
  unfolding transition restore_parent endpoint_url start_events emit_usage emit_success finalize
  run_in_sandbox prompt agent_id run context env sandbox = do
    _ ← transition preparing no_updates
    _ ← call (Call.health_check_call sandbox) (deps.health_check sandbox)
    restored ← restore_parent run
    url ← endpoint_url sandbox
    _ ← transition running no_updates
    _ ← start_events agent_id run
    let request : PromptRequest = record {
      agent_worker_url = url;
      prompt = full_prompt restored prompt;
      session_id = run_id;
      env = env;
      agent = context;
    }
    reads ← call (Call.send_prompt_call request) (deps.send_prompt request)
    _ ← consume_stream deps run_id reads
    _ ← emit_usage
    _ ← emit_success
    finalize

  -- What stands under `try`.
  unfoldable pub try_body : String → String → Option Run → M W (Unit {0})
  unfolding prepare_agent issue_grant sandbox_env run_in_sandbox
  try_body prompt agent_id run = do
    _ ← transition provisioning no_updates
    context ← prepare_agent agent_id
    grant ← issue_grant agent_id context
    let env = sandbox_env context grant
    let options : CreateSandboxOptions = record {
      agent_id = agent_id;
      env = env;
      ttl_seconds = 3600;
    }
    sandbox ← create_call options (deps.create_sandbox options)
    _ ← set_sandbox sandbox
    run_in_sandbox prompt agent_id run context env sandbox

  unfoldable pub on_error : String → M W (Unit {0})
  unfolding emit_done_once transition
  on_error message = do
    _ ← attempt (emit_done_once failed_with_error (some message))
    attempt (transition failed (with_message message))

  unfoldable pub revoke_tokens : M W (Unit {0})
  revoke_tokens = given deps.llm_access (pure tt) (λ llm.
      attempt (call (Call.revoke_tokens_call run_id) (llm.revoke_for_run run_id) >>= λ n. pure tt))

  unfoldable pub release_lock : M W (Unit {0})
  release_lock =
      given deps.release_task_lock (pure tt)
        (λ release. attempt (call (Call.release_lock_call run_id) (release run_id)))

  -- The promise of `destroy` is not awaited; its call is the last one that `execute` makes.
  unfoldable pub destroy_id : Option String → M W (Unit {0})
  destroy_id none = pure tt
  destroy_id (some sandbox) =
      if truthy (some sandbox)
      then attempt (call (Call.destroy_sandbox_call sandbox) (deps.destroy sandbox))
      else pure tt

  unfoldable pub destroy_sandbox : M W (Unit {0})
  unfolding destroy_id
  destroy_sandbox s = destroy_id s.sandbox_id s

  -- What stands under `finally`.
  unfoldable pub finally_body : M W (Unit {0})
  unfolding revoke_tokens release_lock destroy_sandbox
  finally_body = do _ ← revoke_tokens; _ ← release_lock; destroy_sandbox

  -- `try … catch … finally …` of the run that was read.
  unfoldable pub execute_run : String → String → Option Run → M W (Unit {0})
  unfolding try_body on_error finally_body
  execute_run prompt agent_id run =
      catch (try_body prompt agent_id run) on_error >>= λ _. finally_body

  -- What follows the read of the run, which stands before the `try`.
  unfoldable pub execute_found :
      String → String → Outcome (Option Run) → W → Outcome (Unit {0}) × State W
  unfolding execute_run
  execute_found prompt agent_id (thrown e) w = (thrown e, World.start w)
  execute_found prompt agent_id (returned run) w = execute_run prompt agent_id run (World.start w)

  -- The read of the run is not part of the trace.
  unfoldable pub execute : String → String → W → Outcome (Unit {0}) × State W
  unfolding execute_found
  execute prompt agent_id w =
      let (found, w') = deps.get_by_id run_id w in execute_found prompt agent_id found w'
