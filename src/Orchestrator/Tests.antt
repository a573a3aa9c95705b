-- ===== src/Orchestrator/Tests.antt =====
-- The orchestrator's properties at concrete inputs (run-orchestrator.ts, llm-access-service.ts).
use open_rush.Prelude.{ℕ, suc, true, false, [], ◌∷◌, none, some, ◌≡◌, refl}
use open_rush.Prelude.Json.{Json, pos}
use open_rush.Run.Db.{Run, new_row}
use open_rush.Orchestrator.World.{
  returned, thrown, has_returned, AgentContext, LlmGrant, IssueForRunInput, Deps, Method, ◌>>=◌,
  catch, call, create_call, pure, set_sandbox, set_started, set_buffer, throw, set_done, start,
  Payload, failed_with_error,
}
use open_rush.Orchestrator.Execute.{execute, execute_run, sandbox_env}
use open_rush.Orchestrator.Stream.{consume_stream}
use open_rush.Orchestrator.Marks.{marks, done_failed}
use open_rush.Orchestrator.Markers.{execute-is_well_marked, is_well_marked}
use open_rush.Orchestrator.Cleanup.{execute_run_lem, is_cleaned_up, destroyed}
use open_rush.Orchestrator.Access.{
  LlmAccessConfig, issue_for_run, value_in, issue_for_run-sandbox_env,
}

abbrev answer : {W : Type 0} {A : Type 0} → A → Method W A
answer a w = (returned a, w)

abbrev a_run : Run
a_run = new_row 5 "r1" (record {
  agent_id = "a1";
  prompt = "go";
  task_id = none;
  conversation_id = none;
  parent_run_id = none;
  provider = none;
  connection_mode = none;
  model_id = none;
  trigger_source = none;
  agent_definition_version = some 2;
  idempotency_key = none;
  idempotency_request_hash = none;
})

-- The world counts the events that were written. The stream breaks off.
abbrev deps : Deps ℕ
deps = record {
  get_by_id = λ i. answer (some a_run);
  transition = λ i to u. answer a_run;
  create_sandbox = λ o. answer "s1";
  health_check = λ i. answer tt;
  get_endpoint_url = λ i port. answer (some "http://s1");
  destroy = λ i w. (thrown "gone", w);
  append = λ i p n w. (returned tt, suc w);
  get_events = λ i. answer [];
  get_last_seq = λ i. answer (pos 1);
  send_prompt = λ r. answer (returned "data: {}\ndata: " ∷ thrown "reset" ∷ []);
  checkpoint_service = none;
  agent_executor = none;
  llm_access = none;
  resolve_project_id_for_agent = none;
  release_task_lock = some (λ i. answer tt);
  dev_agent_worker_url = none;
  v1_events_enabled = true;
  parse_json = λ s. some Json.null;
  join_text = λ v. "";
}

marks_of_deps :
    marks ((execute deps "r1" "go" "a1" 0).1).trace
    ≡ Payload.run_done failed_with_error (some "reset") ∷ Payload.run_started "r1" "a1" 2 ∷ []
unfolding execute marks ◌>>=◌ catch call create_call pure set_sandbox new_row set_started
    consume_stream set_buffer throw set_done
marks_of_deps = refl

execute-is_well_marked_example :
    let trace = ((execute deps "r1" "go" "a1" 0).1).trace in
    is_well_marked (marks trace) (done_failed trace) ≡ true
execute-is_well_marked_example = execute-is_well_marked deps "r1" "go" "a1" 0

execute_run_lem_example :
    let (r, s) = execute_run deps "r1" "go" "a1" (some a_run) (start 0) in
    (has_returned r ≡ true) × (is_cleaned_up s.created_ids (destroyed s.trace) ≡ true)
execute_run_lem_example = execute_run_lem deps "r1" "go" "a1" (some a_run) 0

abbrev a_context : AgentContext
a_context = record {
  agent_config = record {
    created_by = none;
    allowed_tools = [];
    max_steps = 9;
    name = "coder";
    is_builtin = false;
    system_prompt = none;
    append_system_prompt = none;
  };
  project_id = "p1";
  env = ("HOME", "/w") ∷ ("ANTHROPIC_AUTH_TOKEN", "vault-key") ∷ [];
  model_alias = "sonnet";
}

abbrev a_config : LlmAccessConfig
a_config = record { router_base_url = "http://llm-router:8790"; default_ttl_seconds = none }

abbrev an_input : IssueForRunInput
an_input = record {
  run_id = "r1";
  agent_id = "a1";
  project_id = "p1";
  owner_user_id = none;
  model_alias = "sonnet";
  ttl_seconds = none;
}

abbrev a_grant : LlmGrant
a_grant = record {
  token_id = "t1";
  env =
      ("ANTHROPIC_BASE_URL", "http://llm-router:8790")
      ∷ ("ANTHROPIC_AUTH_TOKEN", "secret")
      ∷ ("ANTHROPIC_MODEL", "sonnet")
      ∷ [];
}

a_grant_issued :
    (issue_for_run {W = ℕ} (λ row. answer "t1") a_config 0 "secret" "hash" an_input 0).0
    ≡ returned a_grant
unfolding issue_for_run
a_grant_issued = refl

issue_for_run-sandbox_env_example :
    let env = sandbox_env (some a_context) (some a_grant) in
    (value_in "ANTHROPIC_BASE_URL" env ≡ some "http://llm-router:8790")
    × (value_in "ANTHROPIC_AUTH_TOKEN" env ≡ some "secret")
    × (value_in "ANTHROPIC_MODEL" env ≡ some "sonnet")
issue_for_run-sandbox_env_example =
    issue_for_run-sandbox_env {W = ℕ} (λ row. answer "t1") a_config 0 "secret" "hash" an_input 0
      a_grant a_context a_grant_issued
