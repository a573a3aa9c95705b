-- ===== src/Runtime/Tests.antt =====
-- The guards of the agent runtime at concrete inputs (packages/agent-runtime/src).
use open_rush.Prelude.{
  ℕ, ◌≤◌, true, false, ◌&&◌, [], ◌∷◌, none, some, ◌≡◌, refl, length, filter, ltb, arith,
  if◌then◌else◌,
}
use open_rush.Runtime.Retry.{
  Attempt, returned, thrown, default_retry_config, with_retry, with_retry_lem, all_fail_again,
  fails_again,
}
use open_rush.Runtime.RateLimiter.{acquire_all, acquire_all_lem, is_active}
use open_rush.Runtime.BudgetGuard.{BudgetConfig, BudgetUsage, check, record_usage, check_stays}

-- Two time-outs and then an answer.
abbrev flaky : ℕ → Attempt ℕ
flaky n = if ltb n 2 then thrown (some "timeout") else returned 7

flaky_run : with_retry flaky default_retry_config (λ n. 10) ≡ (returned 7, 1010 ∷ 2010 ∷ [])
unfolding with_retry
flaky_run = refl

with_retry_lem_example :
    let (r, sleeps) = with_retry flaky default_retry_config (λ n. 10) in
    (r ≡ flaky (length sleeps))
    × (length sleeps ≤ 3)
    × (all_fail_again flaky default_retry_config (λ n. 10) 0 (length sleeps) ≡ true)
    × ((ltb (length sleeps) 3 && fails_again flaky default_retry_config (λ n. 10) (length sleeps))
        ≡ false)
with_retry_lem_example = with_retry_lem flaky default_retry_config (λ n. 10)

granted_times : (acquire_all 2 (5 ∷ 6 ∷ 7 ∷ 60006 ∷ []) [] []).1 ≡ 5 ∷ 6 ∷ 60006 ∷ []
unfolding acquire_all
granted_times = refl

acquire_all_lem_example :
    let granted = (acquire_all 2 (5 ∷ 6 ∷ 7 ∷ 60006 ∷ []) [] []).1 in
    length (filter (is_active 60006) granted) ≤ 2
acquire_all_lem_example = acquire_all_lem 2 (5 ∷ 6 ∷ 7 ∷ 60006 ∷ []) refl

abbrev a_config : BudgetConfig
a_config = record { max_tokens = some 100; max_cost_cents = none; max_duration_ms = some 5000 }

abbrev a_usage : BudgetUsage
a_usage = record { tokens = 120; cost_cents = 3; started_at = 1000 }

a_usage_refused : (check a_config 2000 a_usage).allowed ≡ false
unfolding check
a_usage_refused = refl

check_stays_example : (check a_config 3000 (record_usage 5 1 a_usage)).allowed ≡ false
check_stays_example = check_stays a_config 2000 3000 a_usage 5 1 (omega arith) a_usage_refused
