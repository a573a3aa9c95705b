-- ===== src/Runtime/BudgetGuard.antt =====
-- `BudgetGuard` of packages/agent-runtime/src/budget.ts. The time of a call is handed in.
-- Amounts and limits are natural numbers, and a clock that goes back counts as no time.
use open_rush.Prelude.{
  ℕ, ◌+◌, ◌-◌, ◌≤◌, Bool, true, false, ◌&&◌, not, Option, none, some, leb, if◌then◌else◌, ◌≡◌, refl,
  sym, ◌∙◌, arith,
}

pub record BudgetConfig : Type 0 where
  pub max_tokens : Option ℕ
  pub max_cost_cents : Option ℕ
  pub max_duration_ms : Option ℕ

pub record BudgetUsage : Type 0 where
  pub tokens : ℕ
  pub cost_cents : ℕ
  pub started_at : ℕ

pub data BudgetExceededReason : Type 0 where
  token_limit cost_limit duration_limit : BudgetExceededReason

pub record BudgetCheckResult : Type 0 where
  pub allowed : Bool
  pub reason : Option BudgetExceededReason
  pub usage : BudgetUsage

abbrev pub fresh_usage : ℕ → BudgetUsage
fresh_usage now = record { tokens = 0; cost_cents = 0; started_at = now }

unfoldable pub record_usage : ℕ → ℕ → BudgetUsage → BudgetUsage
record_usage tokens cost_cents usage = record usage {
  tokens = usage.tokens + tokens;
  cost_cents = usage.cost_cents + cost_cents;
}

-- `limit !== undefined && used >= limit`
abbrev pub is_reached : Option ℕ → ℕ → Bool
is_reached none used = false
is_reached (some limit) used = leb limit used

abbrev refused : BudgetExceededReason → BudgetUsage → BudgetCheckResult
refused reason usage = record { allowed = false; reason = some reason; usage = usage }

unfoldable pub check : BudgetConfig → ℕ → BudgetUsage → BudgetCheckResult
check config now usage =
    if is_reached config.max_tokens usage.tokens
    then refused token_limit usage
    else if is_reached config.max_cost_cents usage.cost_cents
    then refused cost_limit usage
    else if is_reached config.max_duration_ms (now - usage.started_at)
    then refused duration_limit usage
    else record { allowed = true; reason = none; usage = usage }

is_reached-grows :
    (limit : Option ℕ) (m n : ℕ) → m ≤ n → is_reached limit m ≡ true → is_reached limit n ≡ true
is_reached-grows none m n h k = k
is_reached-grows (some limit) m n h k = ground arith

refusal_order :
    (a b c : Bool) (usage : BudgetUsage)
    → (if a
        then refused token_limit usage
        else if b
        then refused cost_limit usage
        else if c
        then refused duration_limit usage
        else record { allowed = true; reason = none; usage = usage }).allowed
      ≡ (not a && not b && not c)
refusal_order true b c usage = refl
refusal_order false true c usage = refl
refusal_order false false true usage = refl
refusal_order false false false usage = refl

check_iff :
    (config : BudgetConfig) (now : ℕ) (usage : BudgetUsage)
    → (check config now usage).allowed ≡ (
        not (is_reached config.max_tokens usage.tokens)
        && not (is_reached config.max_cost_cents usage.cost_cents)
        && not (is_reached config.max_duration_ms (now - usage.started_at)))
unfolding check
check_iff config now usage =
    refusal_order _ _ (is_reached config.max_duration_ms (now - usage.started_at)) usage

none_less :
    (a b c a' b' c' : Bool)
    → (a ≡ true → a' ≡ true)
    → (b ≡ true → b' ≡ true)
    → (c ≡ true → c' ≡ true)
    → (not a && not b && not c) ≡ false
    → (not a' && not b' && not c') ≡ false
none_less true b c a' b' c' f g h k = rw (f refl) refl
none_less false true c a' b' c' f g h k = rw (g refl) (ground arith)
none_less false false true a' b' c' f g h k = rw (h refl) (ground arith)
none_less false false false a' b' c' f g h k = ground arith

-- Once `check` refuses, it refuses at every later time and after whatever else is recorded: only
-- `reset` lets a run go on.
pub check_stays :
    (config : BudgetConfig) (now later : ℕ) (usage : BudgetUsage) (tokens cost_cents : ℕ)
    → now ≤ later
    → (check config now usage).allowed ≡ false
    → (check config later (record_usage tokens cost_cents usage)).allowed ≡ false
unfolding record_usage
check_stays config now later usage tokens cost_cents h k =
    check_iff config later (record_usage tokens cost_cents usage)
    ∙ none_less _ _ _ _ _ _
        (is_reached-grows config.max_tokens usage.tokens (usage.tokens + tokens) (omega arith))
        (is_reached-grows config.max_cost_cents usage.cost_cents (usage.cost_cents + cost_cents)
          (omega arith))
        (is_reached-grows config.max_duration_ms (now - usage.started_at) (later - usage.started_at)
          (omega arith))
        (sym (check_iff config now usage) ∙ k)
