-- ===== src/Router/Scope.antt =====
-- The scopes and windows of a budget, packages/llm-router/src/budget/scope.ts and window.ts.
use Prim.Native.String
use open_rush.Prelude.{
  ℕ, zero, suc, String, Bool, List, [], ◌∷◌, ◌++◌, Option, none, Equal, nat_beq, code_beq_iff, ◌≡◌,
  refl, if◌then◌else◌,
}
use mathlib.Core.Option.{get_or}
use open_rush.Run.Service.{truthy}

pub data BudgetSubjectType : Type 0 where
  global project user agent : BudgetSubjectType

abbrev pub subject_code : BudgetSubjectType → ℕ
subject_code global = 0
subject_code project = 1
subject_code user = 2
subject_code agent = 3

abbrev pub subject_of : ℕ → BudgetSubjectType
subject_of zero = global
subject_of (suc zero) = project
subject_of (suc (suc zero)) = user
subject_of _ = agent

pub subject_of-code : (t : BudgetSubjectType) → subject_of (subject_code t) ≡ t
subject_of-code global = refl
subject_of-code _ = refl

abbrev pub subject_beq : BudgetSubjectType → BudgetSubjectType → Bool
subject_beq a b = nat_beq (subject_code a) (subject_code b)

instance abbrev pub subject_eq : Equal BudgetSubjectType
subject_eq = record {
  test = subject_beq;
  agrees = code_beq_iff subject_code subject_of subject_of-code;
}

abbrev pub subject_text : BudgetSubjectType → String
subject_text global = "global"
subject_text project = "project"
subject_text user = "user"
subject_text agent = "agent"

pub record BudgetScope : Type 0 where
  pub subject_type : BudgetSubjectType
  pub subject_id : Option String

-- The columns of a token that scopes are read off.
pub record Subject : Type 0 where
  pub agent_id : Option String
  pub project_id : Option String
  pub owner_user_id : Option String

-- The scope of a column, if it is filled.
abbrev pub scope_if : BudgetSubjectType → Option String → List BudgetScope
scope_if t subject =
    if truthy subject then record { subject_type = t; subject_id = subject } ∷ [] else []

abbrev pub global_scope : BudgetScope
global_scope = record { subject_type = global; subject_id = none }

unfoldable pub resolve_scopes : Subject → List BudgetScope
resolve_scopes subject =
    scope_if agent subject.agent_id
    ++ (scope_if project subject.project_id
        ++ (scope_if user subject.owner_user_id ++ global_scope ∷ []))

unfoldable pub scope_key : BudgetScope → String
scope_key scope =
    String.◌++◌ (subject_text scope.subject_type) (String.◌++◌ ":" (get_or scope.subject_id ""))

pub data BudgetWindow : Type 0 where
  day month total : BudgetWindow

abbrev pub budget_windows : List BudgetWindow
budget_windows = day ∷ month ∷ total ∷ []

-- `slice(0, n)`
abbrev slice_to : ℕ → String → String
slice_to zero s = String.[]
slice_to (suc n) String.[] = String.[]
slice_to (suc n) (String.◌∷◌ c s) = String.◌∷◌ c (slice_to n s)

-- The time is given by its `toISOString`.
unfoldable pub window_key_for : BudgetWindow → String → String
window_key_for day iso = slice_to 10 iso
window_key_for month iso = slice_to 7 iso
window_key_for total iso = "total"
