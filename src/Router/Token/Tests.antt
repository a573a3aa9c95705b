-- ===== src/Router/Token/Tests.antt =====
-- Authentication at concrete inputs (packages/llm-router/src/auth/router-token.ts).
use open_rush.Prelude.{List, [], ◌∷◌, ◌++◌, none, some, ◌≡◌, refl, arith}
use open_rush.Router.Token.{
  Subject, run, Call, Op, answered, invalidated, authenticate, apply_op, apply_ops,
}
use open_rush.Router.Token.Revoked.{authenticate-none}

abbrev a_subject : Subject
a_subject = record {
  token_id = "t1";
  subject_type = run;
  run_id = some "r1";
  agent_id = none;
  project_id = some "p1";
  owner_user_id = none;
  allowed_model_aliases = [];
  max_cost_usd = none;
  max_requests_per_minute = some 60;
}

abbrev active : Call
active = record { hash = "h1"; now = 995; answer = some a_subject; answered_at = 1000 }

abbrev elsewhere : Call
elsewhere = record { hash = "h2"; now = 2000; answer = none; answered_at = 2010 }

abbrev late : Call
late = record { hash = "h1"; now = 16000; answer = none; answered_at = 16005 }

abbrev early : Call
early = record { hash = "h1"; now = 15999; answer = none; answered_at = 16005 }

abbrev before : List Op
before = answered active ∷ invalidated "t2" ∷ []

abbrev after : List Op
after = answered elsewhere ∷ []

-- One millisecond earlier the cache still lets the token pass.
early_passes :
    (authenticate 15000 early
      (apply_ops 15000 (answered active ∷ answered elsewhere ∷ []) (λ k. none))).0
    ≡ some a_subject
unfolding authenticate apply_ops apply_op
early_passes = refl

authenticate-none_example :
    (authenticate 15000 late (apply_ops 15000 (before ++ after) (λ k. none))).0 ≡ none
authenticate-none_example =
    authenticate-none 15000 1000 before after late refl refl refl (omega arith)
