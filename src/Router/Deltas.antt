-- ===== src/Router/Deltas.antt =====
-- `aggregateBudgetDeltas` of packages/llm-router/src/metering/budget-delta.ts. The buckets are the
-- entries of the map in the order of their insertion; a delta's cost is in micro-dollars.
use Prim.Native.String
use open_rush.Prelude.{
  ℕ, ◌+◌, String, Bool, true, false, ◌&&◌, ◌||◌, not, List, [], ◌∷◌, ◌++◌, Option, none, some, any,
  if◌then◌else◌, ◌==◌, string_eq, Bool-cases, inl, inr, eq_iff, ◌≡◌, refl, ◌∙◌, arith,
}
use open_rush.Run.Service.{truthy}
use open_rush.Router.Cost.{parse_price_to_micros}
use open_rush.Router.Scope.{
  BudgetSubjectType, project, user, agent, subject_text, day, month, total, BudgetScope, scope_if,
  global_scope, scope_key, BudgetWindow, budget_windows, window_key_for,
}

-- The columns of a call's record that are read; the start as `toISOString` gives it.
pub record CallRecord : Type 0 where
  pub agent_id : Option String
  pub project_id : Option String
  pub owner_user_id : Option String
  pub tokens_in : ℕ
  pub tokens_cache_write : ℕ
  pub tokens_cache_read : ℕ
  pub tokens_out : ℕ
  pub cost_usd : String
  pub started_at : String

unfoldable pub scopes_of : CallRecord → List BudgetScope
scopes_of record_ =
    global_scope
    ∷ (scope_if project record_.project_id
        ++ (scope_if user record_.owner_user_id ++ scope_if agent record_.agent_id))

unfoldable pub tokens_of : CallRecord → ℕ
tokens_of r = r.tokens_in + r.tokens_cache_write + r.tokens_cache_read + r.tokens_out

-- A bucket, with its key.
pub record Bucket : Type 0 where
  pub key : String
  pub scope : BudgetScope
  pub window_key : String
  pub micros : ℕ
  pub tokens : ℕ
  pub calls : ℕ

-- What one call adds to one bucket, as the bucket that it would start.
unfoldable pub share : CallRecord → BudgetScope → BudgetWindow → Bucket
unfolding scope_key window_key_for tokens_of parse_price_to_micros
share r scope window =
    let window_key = window_key_for window r.started_at in
    record {
      key = String.◌++◌ (String.◌++◌ (scope_key scope) "|") window_key;
      scope = scope;
      window_key = window_key;
      micros = parse_price_to_micros (some r.cost_usd);
      tokens = tokens_of r;
      calls = 1;
    }

abbrev each_window : CallRecord → BudgetScope → List BudgetWindow → List Bucket
each_window r scope [] = []
each_window r scope (w ∷ windows) = share r scope w ∷ each_window r scope windows

abbrev each_scope : CallRecord → List BudgetScope → List Bucket
each_scope r [] = []
each_scope r (s ∷ scopes) = each_window r s budget_windows ++ each_scope r scopes

-- The shares of all calls, in the order of the three loops.
unfoldable pub shares : List CallRecord → List Bucket
unfolding share scopes_of
shares [] = []
shares (r ∷ records) = each_scope r (scopes_of r) ++ shares records

abbrev plus : Bucket → Bucket → Bucket
plus b s = record b {
  micros = b.micros + s.micros;
  tokens = b.tokens + s.tokens;
  calls = b.calls + 1;
}

-- The body of the loops: the bucket of the key grows, or a new one is set.
unfoldable pub add_share : Bucket → List Bucket → List Bucket
add_share s [] = s ∷ []
add_share s (b ∷ buckets) =
    let rest = add_share s buckets in
    (if b.key == s.key then plus b s else b) ∷ (if b.key == s.key then buckets else rest)

unfoldable pub add_shares : List Bucket → List Bucket → List Bucket
unfolding add_share
add_shares [] buckets = buckets
add_shares (s ∷ rest) buckets = add_shares rest (add_share s buckets)

unfoldable pub aggregate_budget_deltas : List CallRecord → List Bucket
unfolding shares add_shares
aggregate_budget_deltas records = add_shares (shares records) []

-- The sum of a column over the entries of a key.
abbrev pub sum_at : (Bucket → ℕ) → String → List Bucket → ℕ
sum_at f key [] = 0
sum_at f key (b ∷ bs) = (if b.key == key then f b else 0) + sum_at f key bs

abbrev pub has_key : String → List Bucket → Bool
has_key key bs = any (λ b. b.key == key) bs

-- No two entries have the same key.
abbrev pub are_distinct : List Bucket → Bool
are_distinct [] = true
are_distinct (b ∷ bs) = not (has_key b.key bs) && are_distinct bs

module _ (f : Bucket → ℕ) (additive : (b s : Bucket) → f (plus b s) ≡ f b + f s) where
  sum_plus :
      (key : String) (b s : Bucket) (n : ℕ)
      → (b.key == s.key) ≡ true
      → (if b.key == key then f (plus b s) else 0) + n
        ≡ ((if b.key == key then f b else 0) + n) + ((if s.key == key then f s else 0) + 0)
  sum_plus key b s n h =
      ground (arith, additive b s, eq_iff b.key s.key, eq_iff b.key key, eq_iff s.key key)

  sum-add_share :
      (key : String) (s : Bucket) (bs : List Bucket)
      → sum_at f key (add_share s bs) ≡ sum_at f key bs + sum_at f key (s ∷ [])
  unfolding add_share
  sum-add_share key s [] = ground arith
  sum-add_share key s (b ∷ bs) = elim (Bool-cases (b.key == s.key)) [
    | inl same ↦ rw same (sum_plus key b s (sum_at f key bs) same)
    | inr other ↦ rw (other, sum-add_share key s bs) (ground arith)
  ]

  sum-add_shares :
      (key : String) (ss bs : List Bucket)
      → sum_at f key (add_shares ss bs) ≡ sum_at f key bs + sum_at f key ss
  unfolding add_shares
  sum-add_shares key [] bs = ground arith
  sum-add_shares key (s ∷ ss) bs =
      sum-add_shares key ss (add_share s bs) ∙ ground (arith, sum-add_share key s bs)

key_or :
    (k l key : String) (b : Bool)
    → (k == l) ≡ true
    → (k == key || b) ≡ ((k == key || b) || l == key)
key_or k l key b h = ground (arith, eq_iff k l, eq_iff k key, eq_iff l key)

distinct_next :
    (k l : String) (known d d' : Bool)
    → (not known && d) ≡ true
    → (k == l) ≡ false
    → (d ≡ true → d' ≡ true)
    → (not (known || l == k) && d') ≡ true
distinct_next k l false true d' h o g = rw (g refl) (ground (arith, eq_iff k l, eq_iff l k))
distinct_next k l known d d' h o g = ground arith

has_key-add_share :
    (key : String) (s : Bucket) (bs : List Bucket)
    → has_key key (add_share s bs) ≡ has_key key bs || s.key == key
unfolding add_share
has_key-add_share key s [] = ground arith
has_key-add_share key s (b ∷ bs) = elim (Bool-cases (b.key == s.key)) [
  | inl same ↦ rw same (key_or b.key s.key key (has_key key bs) same)
  | inr other ↦ rw (other, has_key-add_share key s bs) (ground arith)
]

are_distinct-add_share :
    (s : Bucket) (bs : List Bucket) → are_distinct bs ≡ true → are_distinct (add_share s bs) ≡ true
unfolding add_share
are_distinct-add_share s [] h = refl
are_distinct-add_share s (b ∷ bs) h = elim (Bool-cases (b.key == s.key)) [
  | inl same ↦ rw same h
  | inr other ↦
      rw (other, has_key-add_share b.key s bs)
        (distinct_next b.key s.key (has_key b.key bs) (are_distinct bs)
          (are_distinct (add_share s bs)) h other (are_distinct-add_share s bs))
]

are_distinct-add_shares :
    (ss bs : List Bucket) → are_distinct bs ≡ true → are_distinct (add_shares ss bs) ≡ true
unfolding add_shares
are_distinct-add_shares [] bs h = h
are_distinct-add_shares (s ∷ ss) bs h =
    are_distinct-add_shares ss (add_share s bs) (are_distinct-add_share s bs h)

-- What a call adds at a key for the three windows of one subject, which is written in front of
-- the day, the month or `total`.
abbrev pub at_windows : ℕ → String → String → String → ℕ
at_windows amount key subject iso =
    (if String.◌++◌ (String.◌++◌ subject "|") (window_key_for day iso) == key then amount else 0)
    + (if String.◌++◌ (String.◌++◌ subject "|") (window_key_for month iso) == key
        then amount
        else 0)
    + (if String.◌++◌ (String.◌++◌ subject "|") "total" == key then amount else 0)

-- The same for a subject of the call that may be absent or the empty text.
abbrev pub at_subject : ℕ → String → String → Option String → String → ℕ
at_subject amount key kind none iso = 0
at_subject amount key kind (some i) iso =
    if truthy (some i) then at_windows amount key (String.◌++◌ kind (String.◌++◌ ":" i)) iso else 0

-- What the calls owe at a key: each one once to everyone, to its project, its user and its agent,
-- and there to its day, its month and the total.
abbrev pub owed : (CallRecord → ℕ) → String → List CallRecord → ℕ
owed amount key [] = 0
owed amount key (r ∷ records) =
    at_windows (amount r) key "global:" r.started_at
    + at_subject (amount r) key "project" r.project_id r.started_at
    + at_subject (amount r) key "user" r.owner_user_id r.started_at
    + at_subject (amount r) key "agent" r.agent_id r.started_at
    + owed amount key records

sum-append :
    (f : Bucket → ℕ) (key : String) (xs ys : List Bucket)
    → sum_at f key (xs ++ ys) ≡ sum_at f key xs + sum_at f key ys
sum-append f key [] ys = ground arith
sum-append f key (x ∷ xs) ys = let e = sum-append f key xs ys in ground arith

module _ (f : Bucket → ℕ) (amount : CallRecord → ℕ)
    (columns : (r : CallRecord) (s : BudgetScope) (w : BudgetWindow) → f (share r s w) ≡ amount r)
    (key : String) where
  sum-each_window :
      (r : CallRecord) (s : BudgetScope)
      → sum_at f key (each_window r s budget_windows)
        ≡ at_windows (amount r) key (scope_key s) r.started_at
  unfolding share window_key_for
  sum-each_window r s = rw (columns r s day, columns r s month, columns r s total) (omega arith)

  sum-each_scope :
      (r : CallRecord) (xs ys : List BudgetScope)
      → sum_at f key (each_scope r (xs ++ ys))
        ≡ sum_at f key (each_scope r xs) + sum_at f key (each_scope r ys)
  sum-each_scope r [] ys = omega arith
  sum-each_scope r (s ∷ xs) ys =
      let windows = each_window r s budget_windows in
      let whole = sum-append f key windows (each_scope r (xs ++ ys)) in
      let front = sum-append f key windows (each_scope r xs) in
      let rest = sum-each_scope r xs ys in whole ∙ omega (arith, front, rest)

  sum-one :
      (r : CallRecord) (s : BudgetScope)
      → sum_at f key (each_scope r (s ∷ [])) ≡ at_windows (amount r) key (scope_key s) r.started_at
  sum-one r s =
      let e = sum-append f key (each_window r s budget_windows) [] in
      e ∙ omega (arith, sum-each_window r s)

  sum-global :
      (r : CallRecord)
      → sum_at f key (each_scope r (global_scope ∷ []))
        ≡ at_windows (amount r) key "global:" r.started_at
  unfolding scope_key
  sum-global r = sum-one r global_scope

  sum-scope_if :
      (r : CallRecord) (t : BudgetSubjectType) (subject : Option String)
      → sum_at f key (each_scope r (scope_if t subject))
        ≡ at_subject (amount r) key (subject_text t) subject r.started_at
  unfolding scope_key
  sum-scope_if r t none = refl
  sum-scope_if r t (some i) = elim (Bool-cases (truthy (some i))) [
    | inl filled ↦ rw filled (sum-one r (record { subject_type = t; subject_id = some i }))
    | inr empty ↦ rw empty refl
  ]

  sum-scopes_of :
      (r : CallRecord)
      → sum_at f key (each_scope r (scopes_of r))
        ≡ at_windows (amount r) key "global:" r.started_at
          + at_subject (amount r) key "project" r.project_id r.started_at
          + at_subject (amount r) key "user" r.owner_user_id r.started_at
          + at_subject (amount r) key "agent" r.agent_id r.started_at
  unfolding scopes_of
  sum-scopes_of r =
      let projects = scope_if project r.project_id in
      let users = scope_if user r.owner_user_id in
      let agents = scope_if agent r.agent_id in
      let e1 = sum-each_scope r (global_scope ∷ []) (projects ++ (users ++ agents)) in
      let e2 = sum-each_scope r projects (users ++ agents) in
      let e3 = sum-each_scope r users agents in
      let g : sum_at f key (each_scope r (global_scope ∷ []))
          ≡ at_windows (amount r) key "global:" r.started_at =
        sum-global r in
      let p = sum-scope_if r project r.project_id in
      let u = sum-scope_if r user r.owner_user_id in
      let a = sum-scope_if r agent r.agent_id in e1 ∙ omega (arith, e2, e3, g, p, u, a)

  sum-shares : (records : List CallRecord) → sum_at f key (shares records) ≡ owed amount key records
  unfolding shares
  sum-shares [] = refl
  sum-shares (r ∷ records) =
      let e = sum-append f key (each_scope r (scopes_of r)) (shares records) in
      e ∙ omega (arith, sum-scopes_of r, sum-shares records)

-- The deltas of a batch have no key twice, so that one statement writes no row twice, and nothing
-- is lost or counted twice: for every key, the costs of the deltas with it add up to what the calls
-- cost there, each call once to everyone and to its project, its user and its agent (where it has
-- them), and there once to its day, its month and the total; and so do the tokens (input, cache
-- write, cache read and output).
pub aggregate_budget_deltas_lem :
    (records : List CallRecord) (key : String)
    → let deltas = aggregate_budget_deltas records in
      (are_distinct deltas ≡ true)
      × (sum_at (λ b. b.micros) key deltas
          ≡ owed (λ r. parse_price_to_micros (some r.cost_usd)) key records)
      × (sum_at (λ b. b.tokens) key deltas
          ≡ owed
              (λ r. r.tokens_in + r.tokens_cache_write + r.tokens_cache_read + r.tokens_out)
              key
              records)
unfolding aggregate_budget_deltas
aggregate_budget_deltas_lem records key = (
  are_distinct-add_shares (shares records) [] refl,
  sum-add_shares (λ b. b.micros) (λ b s. refl) key (shares records) []
      ∙ ground arith
      ∙ sum-shares (λ b. b.micros) (λ r. parse_price_to_micros (some r.cost_usd))
          (λ r s w. unfold share in refl) key records,
  sum-add_shares (λ b. b.tokens) (λ b s. refl) key (shares records) []
      ∙ ground arith
      ∙ sum-shares (λ b. b.tokens)
          (λ r. r.tokens_in + r.tokens_cache_write + r.tokens_cache_read + r.tokens_out)
          (λ r s w. unfold share tokens_of in refl) key records,
)
