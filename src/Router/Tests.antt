-- ===== src/Router/Tests.antt =====
-- Metering and budgets at concrete inputs (packages/llm-router/src).
use open_rush.Prelude.{
  ◌+◌, ◌*◌, ◌≤◌, ◌<◌, String, true, false, ◌&&◌, List, [], ◌∷◌, none, some, any, ◌≡◌, refl,
  if◌then◌else◌, ◌==◌, string_eq,
}
use open_rush.Router.Cost.{
  parse_price_to_micros, WireUsage, ModelPricing, compute_cost_micros, compute_cost_micros_lem,
}
use open_rush.Router.Cost.Rounding.{parse_price_to_micros_lem}
use open_rush.Router.Scope.{BudgetScope, project, day, window_key_for}
use open_rush.Router.Deltas.{
  CallRecord, aggregate_budget_deltas, aggregate_budget_deltas_lem, are_distinct, sum_at, owed,
}
use open_rush.Router.Budget.{
  BudgetRow, CacheEntry, decide, decide_iff, is_binding, has_scope, is_refusal,
}
use open_rush.Prelude.{ℕ, arith}
use open_rush.Router.Recorder.{
  Event, enqueued, timer, started, settled, limits, fresh, run, drain, flush, step, enqueue, start,
  settle, run_chain,
}
use open_rush.Router.Recorder.Conserves.{Conserved, calls_of}
use open_rush.Router.Recorder.Drains.{Drained, drain-Drained, run_lem}

abbrev a_usage : WireUsage
a_usage = record {
  tokens_in = 3;
  tokens_out = 1;
  tokens_cache_write = 0;
  tokens_cache_read = 0;
  tokens_reasoning = 0;
}

abbrev a_pricing : ModelPricing
a_pricing = record {
  price_input_per_mtok = some " 3.000000";
  price_output_per_mtok = some "15";
  price_cache_write_per_mtok = some "-1";
  price_cache_read_per_mtok = none;
  price_reasoning_per_mtok = some "0.0000005";
}

a_cost : compute_cost_micros a_usage a_pricing ≡ 24
unfolding compute_cost_micros
a_cost = refl

compute_cost_micros_lem_example :
    let cost = compute_cost_micros a_usage a_pricing in
    let exact =
      3 * parse_price_to_micros (some " 3.000000")
      + 1 * parse_price_to_micros (some "15")
      + 0 * parse_price_to_micros (some "-1")
      + 0 * parse_price_to_micros none
      + 0 * parse_price_to_micros (some "0.0000005") in
    (cost * 1000000 ≤ exact + 500000) × (exact + 500000 < cost * 1000000 + 1000000)
compute_cost_micros_lem_example = compute_cost_micros_lem a_usage a_pricing

-- Half of the last place: seven digits behind the point.
parse_price_to_micros_lem_example :
    let micros = parse_price_to_micros (some "12.3456785") in
    (2 * (micros * 10000000) ≤ 2 * (123456785 * 1000000) + 10000000)
    × (2 * (123456785 * 1000000) < 2 * (micros * 10000000) + 10000000)
parse_price_to_micros_lem_example = parse_price_to_micros_lem "12" "3456785" refl refl

rounded_up : parse_price_to_micros (some "12.3456785") ≡ 12345679
unfolding parse_price_to_micros
rounded_up = refl

abbrev a_call : CallRecord
a_call = record {
  agent_id = none;
  project_id = some "p1";
  owner_user_id = none;
  tokens_in = 10;
  tokens_cache_write = 0;
  tokens_cache_read = 5;
  tokens_out = 2;
  cost_usd = "0.25";
  started_at = "2026-09-08T23:59:59.000Z";
}

abbrev a_key : String
a_key = "project:p1|2026-09"

a_key_sum : sum_at (λ b. b.micros) a_key (aggregate_budget_deltas (a_call ∷ a_call ∷ [])) ≡ 500000
unfolding aggregate_budget_deltas
a_key_sum = refl

aggregate_budget_deltas_lem_example :
    let deltas = aggregate_budget_deltas (a_call ∷ a_call ∷ []) in
    (are_distinct deltas ≡ true)
    × (sum_at (λ b. b.micros) a_key deltas
        ≡ owed (λ r. parse_price_to_micros (some r.cost_usd)) a_key (a_call ∷ a_call ∷ []))
    × (sum_at (λ b. b.tokens) a_key deltas
        ≡ owed
            (λ r. r.tokens_in + r.tokens_cache_write + r.tokens_cache_read + r.tokens_out)
            a_key
            (a_call ∷ a_call ∷ []))
aggregate_budget_deltas_lem_example = aggregate_budget_deltas_lem (a_call ∷ a_call ∷ []) a_key

abbrev project_scope : BudgetScope
project_scope = record { subject_type = project; subject_id = some "p1" }

abbrev a_row : BudgetRow
a_row = record {
  subject_type = project;
  subject_id = some "p1";
  window = day;
  limit_usd = "5";
  enforce = true;
}

abbrev an_entry : CacheEntry
an_entry = record {
  scope = some project_scope;
  rows = a_row ∷ [];
  used = λ k. if k == "2026-09-08" then some 5000000 else none;
  expires_at = 0;
}

an_entry_refused : decide an_entry "2026-09-08T10:00:00.000Z" ≡ some (project_scope, day)
unfolding decide window_key_for parse_price_to_micros
an_entry_refused = refl

decide_iff_example : is_refusal (decide an_entry "2026-09-08T10:00:00.000Z") ≡ (
    has_scope an_entry.scope && any (is_binding an_entry "2026-09-08T10:00:00.000Z") (a_row ∷ []))
decide_iff_example = decide_iff an_entry "2026-09-08T10:00:00.000Z" refl

-- Seven calls at a recorder of two a batch and three in the queue: one batch is refused by the
-- store, and the oldest call in the queue has to go.
abbrev a_burst : List (Event ℕ)
a_burst =
    enqueued 1
    ∷ enqueued 2
    ∷ started
    ∷ enqueued 3
    ∷ enqueued 4
    ∷ enqueued 5
    ∷ enqueued 6
    ∷ settled false
    ∷ started
    ∷ settled true
    ∷ enqueued 7
    ∷ timer
    ∷ []

run_burst : run (limits (some 2) (some 3)) a_burst fresh ≡ record {
  queue = 6 ∷ 7 ∷ [];
  in_flight = none;
  flushes = 4;
  dropped = 3;
  written = 2;
  failures = 1;
  stored = 4 ∷ 5 ∷ [];
}
unfolding run step enqueue flush start settle limits
run_burst = refl

drain_burst :
    drain (limits (some 2) (some 3)) (λ _ _. true) 3 (run (limits (some 2) (some 3)) a_burst fresh)
    ≡ record {
      queue = [];
      in_flight = none;
      flushes = 0;
      dropped = 3;
      written = 4;
      failures = 1;
      stored = 4 ∷ 5 ∷ 6 ∷ 7 ∷ [];
    }
unfolding run step enqueue flush start settle limits drain run_chain
drain_burst = refl

drain-Drained_example : Drained (calls_of a_burst) (
    drain (limits (some 2) (some 3)) (λ _ _. true) 3 (run (limits (some 2) (some 3)) a_burst fresh))
drain-Drained_example =
    drain-Drained (some 2) (some 3) a_burst (λ _ _. true) 3 (rw run_burst (omega arith))

run_lem_example :
    Conserved
      (limits (some 2) (some 3))
      (calls_of a_burst)
      (run (limits (some 2) (some 3)) a_burst fresh)
run_lem_example = run_lem (some 2) (some 3) a_burst
