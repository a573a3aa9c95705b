-- ===== src/Router/Budget.antt =====
-- `BudgetService.check` of packages/llm-router/src/budget/budget-service.ts. The store is a pair of
-- functions that give `none` where they throw; a time is given in milliseconds and as
-- `toISOString`. The text and the waiting time of a refusal are left out.
use Prim.Native.String
use open_rush.Prelude.{
  ℕ, ◌+◌, String, Bool, true, false, ◌&&◌, ◌||◌, not, List, [], ◌∷◌, ◌++◌, Option, none, some, map,
  any, find, filter, ltb, leb, if◌then◌else◌, ◌==◌, string_eq, option_eq, Bool-cases, Option-cases,
  inl, inr, ◌≡◌, refl, ap, ◌∙◌, ◌⊎◌, arith,
}
use mathlib.Core.Option.{get_or}
use mathlib.Core.Path.{subst}
use open_rush.Router.Cost.{parse_price_to_micros}
use open_rush.Router.Scope.{
  BudgetSubjectType, subject_eq, BudgetScope, Subject, resolve_scopes, scope_key, BudgetWindow, day,
  month, total, budget_windows, window_key_for,
}

pub record BudgetRow : Type 0 where
  pub subject_type : BudgetSubjectType
  pub subject_id : Option String
  pub window : BudgetWindow
  pub limit_usd : String
  pub enforce : Bool

pub record BudgetStore : Type 0 where
  pub find_budgets : List BudgetScope → Option (List BudgetRow)
  pub find_usage : BudgetScope → List String → Option (String → Option String)

pub record CacheEntry : Type 0 where
  pub scope : Option BudgetScope
  pub rows : List BudgetRow
  pub used : String → Option ℕ
  pub expires_at : ℕ

abbrev pub Cache : Type 0
Cache = String → Option CacheEntry

unfoldable pub same_scope : BudgetRow → BudgetScope → Bool
same_scope row scope = row.subject_type == scope.subject_type && row.subject_id == scope.subject_id

abbrev is_window : BudgetWindow → BudgetWindow → Bool
is_window day day = true
is_window month month = true
is_window total total = true
is_window _ _ = false

-- The nearest of the scopes that has a budget.
unfoldable pub nearest : List BudgetScope → List BudgetRow → Option BudgetScope
unfolding same_scope
nearest scopes budgets = find (λ s. any (λ b. same_scope b s) budgets) scopes

abbrev pub is_nonempty : List BudgetRow → Bool
is_nonempty [] = false
is_nonempty (r ∷ rows) = true

abbrev parsed : (String → Option String) → String → Option ℕ
parsed raw key = elim (raw key) [
  | none ↦ none
  | some cost ↦ some (parse_price_to_micros (some cost))
]

-- `load` past the cache: the entry, or nothing where the store throws.
unfoldable pub load_entry : BudgetStore → List BudgetScope → String → ℕ → Option CacheEntry
unfolding nearest window_key_for
load_entry store scopes iso expires_at = elim (store.find_budgets scopes) [
  | none ↦ none
  | some budgets ↦ elim (nearest scopes budgets) [
    | none ↦ some (record { scope = none; rows = []; used = λ k. none; expires_at = expires_at })
    | some scope ↦
        let rows = filter (λ b. same_scope b scope) budgets in
        elim (store.find_usage scope (map (λ r. window_key_for r.window iso) rows)) [
          | none ↦ none
          | some raw ↦ some (record {
            scope = some scope;
            rows = rows;
            used = parsed raw;
            expires_at = expires_at;
          })
        ]
  ]
]

abbrev cache_key : List BudgetScope → String
cache_key [] = ""
cache_key (s ∷ []) = scope_key s
cache_key (s ∷ scopes) = String.◌++◌ (String.◌++◌ (scope_key s) ">") (cache_key scopes)

abbrev keep : ℕ → String → Option CacheEntry → Cache → Cache
keep ttl key none cache k = cache k
keep ttl key (some e) cache k = if leb 1 ttl && k == key then some e else cache k

-- A hit that is not too old, or the entry that is loaded, which is kept unless the TTL is 0.
unfoldable pub load : BudgetStore → ℕ → Subject → ℕ → String → Cache → Option CacheEntry × Cache
unfolding resolve_scopes load_entry
load store ttl subject now iso cache =
    let scopes = resolve_scopes subject in
    let key = cache_key scopes in
    let fresh = load_entry store scopes iso (now + ttl) in
    let kept = keep ttl key fresh cache in
    elim (cache key) [
      | none ↦ (fresh, kept)
      | some hit ↦ if ltb now hit.expires_at then (some hit, cache) else (fresh, kept)
    ]

-- Whether a window's row is enforced and used up.
unfoldable pub is_exceeded : CacheEntry → String → BudgetWindow → Bool
is_exceeded entry iso window = elim (find (λ r. is_window r.window window) entry.rows) [
  | none ↦ false
  | some row ↦
      let used = get_or (entry.used (window_key_for window iso)) 0 in
      if ltb used (parse_price_to_micros (some row.limit_usd)) then false else row.enforce
]

-- The loop over the windows: the first one that refuses.
abbrev first_exceeded : CacheEntry → String → List BudgetWindow → Option BudgetWindow
first_exceeded entry iso [] = none
first_exceeded entry iso (w ∷ windows) =
    let rest = first_exceeded entry iso windows in if is_exceeded entry iso w then some w else rest

abbrev refuse : BudgetScope → Option BudgetWindow → Option (BudgetScope × BudgetWindow)
refuse scope none = none
refuse scope (some w) = some (scope, w)

-- The scope and the window of a refusal; `none` lets the call pass.
unfoldable pub decide : CacheEntry → String → Option (BudgetScope × BudgetWindow)
unfolding is_exceeded
decide entry iso = elim entry.scope [
  | none ↦ none
  | some scope ↦
      if is_nonempty entry.rows
      then refuse scope (first_exceeded entry iso budget_windows)
      else none
]

unfoldable pub check :
    BudgetStore → ℕ → Subject → ℕ → String → Cache → Option (BudgetScope × BudgetWindow) × Cache
unfolding load decide
check store ttl subject now iso cache =
    let (entry, cache') = load store ttl subject now iso cache in
    elim entry [ none ↦ (none, cache') | some e ↦ (decide e iso, cache') ]

abbrev pub is_refusal : Option (BudgetScope × BudgetWindow) → Bool
is_refusal none = false
is_refusal (some r) = true

abbrev pub has_scope : Option BudgetScope → Bool
has_scope none = false
has_scope (some s) = true

-- Whether a budget is set for a scope.
abbrev pub has_budget : List BudgetRow → BudgetScope → Bool
has_budget budgets s = any (λ b. same_scope b s) budgets

abbrev is_some_window : Option BudgetWindow → Bool
is_some_window none = false
is_some_window (some w) = true

first_exceeded-any :
    (e : CacheEntry) (iso : String) (ws : List BudgetWindow)
    → is_some_window (first_exceeded e iso ws) ≡ any (is_exceeded e iso) ws
first_exceeded-any e iso [] = refl
first_exceeded-any e iso (w ∷ ws) = elim (Bool-cases (is_exceeded e iso w)) [
  | inl over ↦ rw over refl
  | inr under ↦ rw (under, first_exceeded-any e iso ws) refl
]

refusal_of :
    (scope : BudgetScope) (o : Option BudgetWindow) → is_refusal (refuse scope o) ≡ is_some_window o
refusal_of scope none = refl
refusal_of scope (some w) = refl

decide_rows :
    (e : CacheEntry) (iso : String) (scope : BudgetScope)
    → is_refusal
        (if is_nonempty e.rows then refuse scope (first_exceeded e iso budget_windows) else none)
      ≡ (is_nonempty e.rows && any (is_exceeded e iso) budget_windows)
decide_rows e iso scope = elim (Bool-cases (is_nonempty e.rows)) [
  | inl full ↦ rw full (refusal_of scope _ ∙ first_exceeded-any e iso budget_windows)
  | inr empty ↦ rw empty refl
]

-- What was used of a row's budget has reached its limit, and the row is enforced.
abbrev pub is_binding : CacheEntry → String → BudgetRow → Bool
is_binding e iso r =
    r.enforce
    && leb (parse_price_to_micros (some r.limit_usd))
        (get_or (e.used (window_key_for r.window iso)) 0)

-- The rows of a window.
abbrev pub is_of : BudgetWindow → BudgetRow → Bool
is_of window r = is_window r.window window

-- No window has two rows.
abbrev pub are_single : List BudgetRow → Bool
are_single [] = true
are_single (r ∷ rows) = not (any (is_of r.window) rows) && are_single rows

-- `is_exceeded` over given rows.
abbrev over : CacheEntry → String → List BudgetRow → BudgetWindow → Bool
over e iso rows w = elim (find (λ r. is_window r.window w) rows) [
  | none ↦ false
  | some row ↦
      let used = get_or (e.used (window_key_for w iso)) 0 in
      if ltb used (parse_price_to_micros (some row.limit_usd)) then false else row.enforce
]

module _ (e : CacheEntry) (iso : String) where
  over_head :
      (w : BudgetWindow) (r : BudgetRow) (rows : List BudgetRow)
      → r.window ≡ w
      → is_of w r ≡ true
      → over e iso (r ∷ rows) w ≡ is_binding e iso r
  over_head w r rows same own =
      rw (over, own)
        (subst
          (λ v.
            (if ltb (get_or (e.used (window_key_for v iso)) 0)
                (parse_price_to_micros (some r.limit_usd))
              then false
              else r.enforce)
            ≡ is_binding e iso r)
          same (ground arith))

  over_tail :
      (w : BudgetWindow) (r : BudgetRow) (rows : List BudgetRow)
      → is_of w r ≡ false
      → over e iso (r ∷ rows) w ≡ over e iso rows w
  over_tail w r rows other = rw (over, other) refl

  over_none :
      (w : BudgetWindow) (rows : List BudgetRow)
      → any (is_of w) rows ≡ false
      → over e iso rows w ≡ false
  over_none w [] h = refl
  over_none w (r ∷ rows) h = elim (Bool-cases (is_of w r)) [
    | inl own ↦ ground (arith, own)
    | inr other ↦ over_tail w r rows other ∙ over_none w rows (rw other at h)
  ]

  over_cons :
      (w : BudgetWindow) (r : BudgetRow) (rows : List BudgetRow)
      → r.window ≡ w
      → any (is_of w) rows ≡ false
      → any (over e iso (r ∷ rows)) budget_windows
        ≡ (is_binding e iso r || any (over e iso rows) budget_windows)
  over_cons day r rows h lone =
      rw
        (
          over_head day r rows h (rw h refl),
          over_tail month r rows (rw h refl),
          over_tail total r rows (rw h refl),
          over_none day rows lone,
        )
        refl
  over_cons month r rows h lone =
      rw
        (
          over_tail day r rows (rw h refl),
          over_head month r rows h (rw h refl),
          over_tail total r rows (rw h refl),
          over_none month rows lone,
        )
        (ground arith)
  over_cons total r rows h lone =
      rw
        (
          over_tail day r rows (rw h refl),
          over_tail month r rows (rw h refl),
          over_head total r rows h (rw h refl),
          over_none total rows lone,
        )
        (ground arith)

  over-any :
      (rows : List BudgetRow)
      → are_single rows ≡ true
      → any (over e iso rows) budget_windows ≡ any (is_binding e iso) rows
  over-any [] h = refl
  over-any (r ∷ rows) h =
      over_cons r.window r rows refl (ground arith)
      ∙ ap (λ b. is_binding e iso r || b) (over-any rows (ground arith))

has_scope_rows :
    (e : CacheEntry) (iso : String) (rows : List BudgetRow)
    → (is_nonempty rows && any (is_binding e iso) rows) ≡ any (is_binding e iso) rows
has_scope_rows e iso [] = refl
has_scope_rows e iso (r ∷ rows) = refl

-- Where no window has two rows (the table's unique key), a call is refused exactly if a budgeted
-- scope was found and one of its rows, whatever its window, is enforced and what is used in that
-- window has reached the row's limit.
pub decide_iff :
    (e : CacheEntry) (iso : String)
    → are_single e.rows ≡ true
    → is_refusal (decide e iso) ≡ (has_scope e.scope && any (is_binding e iso) e.rows)
unfolding decide is_exceeded
decide_iff e iso single = elim (Option-cases e.scope) [
  | inl absent ↦ rw absent refl
  | inr (scope, found) ↦ rw found (
      decide_rows e iso scope
      ∙ ap (λ b. is_nonempty e.rows && b) (over-any e iso e.rows single)
      ∙ has_scope_rows e iso e.rows)
]

picked :
    (b : Bool) (x s : BudgetScope) (rest : Option BudgetScope)
    → (if b then some x else rest) ≡ some s
    → ((b ≡ true) × (x ≡ s)) ⊎ ((b ≡ false) × (rest ≡ some s))
picked true x s rest h = inl (refl, ap (λ o. get_or o x) h)
picked false x s rest h = inr (refl, h)

-- The scope that a budget is read from is the nearest one that has a budget: the scopes before it
-- have none.
nearest_lem :
    (scopes : List BudgetScope) (budgets : List BudgetRow) (s : BudgetScope)
    → nearest scopes budgets ≡ some s
    → (before : List BudgetScope) × (after : List BudgetScope) × (scopes ≡ before ++ s ∷ after)
      × (any (has_budget budgets) before ≡ false)
      × (has_budget budgets s ≡ true)
unfolding nearest
nearest_lem [] budgets s h = absurd (cc)
nearest_lem (x ∷ scopes) budgets s h = elim (picked (has_budget budgets x) x s _ h) [
  | inl (set, e) ↦
      ([], scopes, ap (λ y. y ∷ scopes) e, refl, subst (λ y. has_budget budgets y ≡ true) e set)
  | inr (unset, rest) ↦
      let (before, after, e, none_before, set) = nearest_lem scopes budgets s rest in
      (x ∷ before, after, ap (λ ys. x ∷ ys) e, rw unset none_before, set)
]
