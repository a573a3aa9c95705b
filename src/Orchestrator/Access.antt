-- ===== src/Orchestrator/Access.antt =====
-- `LlmAccessService` of packages/control-plane/src/llm/llm-access-service.ts, the credentials of a
-- run for the gateway, and how they meet the vault's variables in the sandbox.
use open_rush.Prelude.{
  ℕ, ◌+◌, ◌*◌, String, List, [], ◌∷◌, ◌++◌, Option, none, some, ◌≡◌, refl, if◌then◌else◌, ◌==◌,
  string_eq, Option-cases, inl, inr, sym, ap, ◌∙◌,
}
use mathlib.Core.Option.{get_or}
use open_rush.Orchestrator.World.{
  Outcome, returned, thrown, Env, AgentContext, LlmGrant, IssueForRunInput, Method,
}
use open_rush.Orchestrator.Execute.{sandbox_env}

-- The row that the token store is given.
pub record NewRouterToken : Type 0 where
  pub token_hash : String
  pub subject_type : String
  pub run_id : String
  pub agent_id : String
  pub project_id : String
  pub owner_user_id : Option String
  pub allowed_model_aliases : List String
  pub expires_at : ℕ

pub record LlmAccessConfig : Type 0 where
  pub router_base_url : String
  pub default_ttl_seconds : Option ℕ

abbrev pub default_router_token_ttl_seconds : ℕ
default_router_token_ttl_seconds = 3900

unfoldable pub router_token : LlmAccessConfig → ℕ → String → IssueForRunInput → NewRouterToken
router_token config now hash ctx = record {
  token_hash = hash;
  subject_type = "run";
  run_id = ctx.run_id;
  agent_id = ctx.agent_id;
  project_id = ctx.project_id;
  owner_user_id = ctx.owner_user_id;
  allowed_model_aliases = ctx.model_alias ∷ [];
  expires_at =
      now
      + get_or ctx.ttl_seconds (get_or config.default_ttl_seconds default_router_token_ttl_seconds)
        * 1000;
}

unfoldable pub grant_env : LlmAccessConfig → String → IssueForRunInput → Env
grant_env config plaintext ctx =
    ("ANTHROPIC_BASE_URL", config.router_base_url)
    ∷ ("ANTHROPIC_AUTH_TOKEN", plaintext)
    ∷ ("ANTHROPIC_MODEL", ctx.model_alias)
    ∷ []

abbrev pub grant_of : Env → Outcome String → Outcome LlmGrant
grant_of env (returned row_id) = returned (record { token_id = row_id; env = env })
grant_of env (thrown e) = thrown e

-- The token and its hash, which are drawn outside, and the store's `create`, which gives the row's
-- id, are handed in.
unfoldable pub issue_for_run :
    {W : Type 0}
    → (NewRouterToken → Method W String)
    → LlmAccessConfig
    → ℕ
    → String
    → String
    → IssueForRunInput
    → Method W LlmGrant
unfolding router_token grant_env
issue_for_run create config now plaintext hash ctx w =
    let (r, w') = create (router_token config now hash ctx) w in
    (grant_of (grant_env config plaintext ctx) r, w')

-- The value of a variable: its last entry counts.
abbrev pub env_value : String → Env → Option String
env_value name [] = none
env_value name ((n, v) ∷ env) =
    let later = env_value name env in
    elim later [ some u ↦ some u | none ↦ if n == name then some v else none ]

abbrev pub or_value : Option String → Option String → Option String
or_value (some v) o = some v
or_value none o = o

env_value-append :
    (name : String) (e f : Env)
    → env_value name (e ++ f) ≡ or_value (env_value name f) (env_value name e)
env_value-append name [] f = elim (Option-cases (env_value name f)) [
  | inl absent ↦ rw absent refl
  | inr (v, found) ↦ rw found refl
]
env_value-append name ((n, v) ∷ e) f = elim (Option-cases (env_value name f)) [
  | inl absent ↦ rw (env_value-append name e f, absent) refl
  | inr (u, found) ↦ rw (env_value-append name e f, found) refl
]

abbrev pub value_in : String → Option Env → Option String
value_in name none = none
value_in name (some env) = env_value name env

-- Whatever the vault holds, a sandbox with a grant sees the grant's value of each variable that the
-- grant sets, and the vault's value of every other.
sandbox_env_lem :
    (context : AgentContext) (grant : LlmGrant) (name : String)
    → value_in name (sandbox_env (some context) (some grant))
      ≡ or_value (env_value name grant.env) (env_value name context.env)
unfolding sandbox_env
sandbox_env_lem context grant name = env_value-append name context.env grant.env

abbrev env_of : Env → Outcome LlmGrant → Env
env_of env (returned grant) = grant.env
env_of env (thrown e) = env

env_of-grant_of : (env : Env) (r : Outcome String) → env_of env (grant_of env r) ≡ env
env_of-grant_of env (returned row_id) = refl
env_of-grant_of env (thrown e) = refl

issue_for_run-env :
    {W : Type 0} (create : NewRouterToken → Method W String) (config : LlmAccessConfig) (now : ℕ)
    (plaintext hash : String) (ctx : IssueForRunInput) (w : W) (grant : LlmGrant)
    → (issue_for_run create config now plaintext hash ctx w).0 ≡ returned grant
    → grant.env ≡ grant_env config plaintext ctx
unfolding issue_for_run
issue_for_run-env create config now plaintext hash ctx w grant h =
    sym (ap (env_of (grant_env config plaintext ctx)) h)
    ∙ env_of-grant_of _ ((create (router_token config now hash ctx) w).0)

-- If the store creates the row, then in the sandbox of the run the base URL, the credential and the
-- model are the gateway's, the minted token and the run's model, whatever the vault holds.
pub issue_for_run-sandbox_env :
    {W : Type 0} (create : NewRouterToken → Method W String) (config : LlmAccessConfig) (now : ℕ)
    (plaintext hash : String) (ctx : IssueForRunInput) (w : W) (grant : LlmGrant)
    (context : AgentContext)
    → (issue_for_run create config now plaintext hash ctx w).0 ≡ returned grant
    → let env = sandbox_env (some context) (some grant) in
      (value_in "ANTHROPIC_BASE_URL" env ≡ some config.router_base_url)
      × (value_in "ANTHROPIC_AUTH_TOKEN" env ≡ some plaintext)
      × (value_in "ANTHROPIC_MODEL" env ≡ some ctx.model_alias)
unfolding grant_env
issue_for_run-sandbox_env create config now plaintext hash ctx w grant context h =
    let e = issue_for_run-env create config now plaintext hash ctx w grant h in
    (
      sandbox_env_lem context grant _ ∙ rw e refl,
      sandbox_env_lem context grant _ ∙ rw e refl,
      sandbox_env_lem context grant _ ∙ rw e refl,
    )
