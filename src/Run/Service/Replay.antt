-- ===== src/Run/Service/Replay.antt =====
-- `createRunWithIdempotency` (run-service.ts): replays, conflicts and the agent's scope.
use open_rush.Prelude.{
  ℕ, ◌-◌, ◌≤◌, String, Bool, true, false, ◌&&◌, List, [], ◌∷◌, ◌++◌, Option, none, some, ◌≡◌, refl,
  ap, if◌then◌else◌, ◌==◌, string_eq, option_eq, arith, leb, eq_iff, Option-cases, filter, inl, inr,
  ◌≢◌,
}
use mathlib.Core.Option.{get_or}
use open_rush.Run.Db.{
  Run, CreateRunInput, Rows, first, insert_desc, order_desc, new_row, create,
  find_latest_by_idempotency_key,
}
use open_rush.Run.Service.{
  idempotency_conflict, ok, err, resolve_create_input, idempotency_window_ms, with_idempotency,
  scope_idempotency_key, Idempotency, on_existing, create_run_with_idempotency,
}

filter-snoc {ℓ} :
    {A : Type ℓ} (p : A → Bool) (xs : List A) (y : A)
    → filter p (xs ++ y ∷ []) ≡ filter p xs ++ (if p y then y ∷ [] else [])
filter-snoc p [] y = ground arith
filter-snoc p (x ∷ xs) y = ground (arith, filter-snoc p xs y)

first-insert_desc : (r : Run) (rows : Rows) → first (insert_desc r rows) ≢ none
unfolding insert_desc
first-insert_desc r [] = ground arith
first-insert_desc r (s ∷ rows) = ground arith

first-order_desc : (rows : Rows) → first (order_desc rows) ≡ none → rows ≡ []
unfolding order_desc
first-order_desc [] h = refl
first-order_desc (r ∷ rows) h = absurd (first-insert_desc r (order_desc rows) h)

-- The rows that the look-up of a key in a window sees.
abbrev pub in_window : String → ℕ → Run → Bool
in_window key since r = r.idempotency_key == some key && leb since r.created_at

filter-cons-nil {ℓ} :
    {A : Type ℓ} (p : A → Bool) (x : A) (xs : List A)
    → filter p (x ∷ xs) ≡ []
    → (p x ≡ false) × (filter p xs ≡ [])
filter-cons-nil p x xs e = ground arith

unseen_later :
    (key : String) (since later : ℕ) (r : Run)
    → since ≤ later
    → in_window key since r ≡ false
    → in_window key later r ≡ false
unseen_later key since later r h e = ground arith

in_window-later :
    (key : String) (since later : ℕ) (rows : Rows)
    → since ≤ later
    → filter (in_window key since) rows ≡ []
    → filter (in_window key later) rows ≡ []
in_window-later key since later [] h e = refl
in_window-later key since later (r ∷ rows) h e =
    let (unseen, rest) = filter-cons-nil (in_window key since) r rows e in
    rw (unseen_later key since later r h unseen) (in_window-later key since later rows h rest)

find_latest-none :
    (key : String) (since : ℕ) (rows : Rows)
    → find_latest_by_idempotency_key key since rows ≡ none
    → filter (in_window key since) rows ≡ []
unfolding find_latest_by_idempotency_key
find_latest-none key since rows h = first-order_desc (filter (in_window key since) rows) h

-- A row that is appended to rows which the later window does not see is the one found.
find_latest-append :
    (key : String) (since later : ℕ) (rows : Rows) (row : Run)
    → since ≤ later
    → find_latest_by_idempotency_key key since rows ≡ none
    → in_window key later row ≡ true
    → find_latest_by_idempotency_key key later (rows ++ row ∷ []) ≡ some row
unfolding find_latest_by_idempotency_key
find_latest-append key since later rows row h missing seen =
    let unseen = in_window-later key since later rows h (find_latest-none key since rows missing) in
    rw (filter-snoc (in_window key later) rows row, unseen, seen) refl

resolve_create_input-agent :
    (input : CreateRunInput) (rows : Rows)
    → (resolve_create_input input rows).agent_id ≡ input.agent_id
unfolding resolve_create_input
resolve_create_input-agent input rows = ground arith

-- The start of the window of a request.
abbrev pub since_of : ℕ → Idempotency → ℕ
since_of now idem = get_or idem.now_ms now - get_or idem.window_ms idempotency_window_ms

module _ (now : ℕ) (id : String) (input : CreateRunInput) (idem : Idempotency) (rows : Rows) where
  -- The row that a fresh request inserts.
  abbrev pub fresh_row : Run
  fresh_row = new_row now id (with_idempotency (resolve_create_input input rows) idem)

  abbrev pub look_up : Option Run
  look_up =
      find_latest_by_idempotency_key (scope_idempotency_key input.agent_id idem.key)
        (since_of now idem) rows

  create_fresh :
      look_up ≡ none
      → create_run_with_idempotency now id input (some idem) rows
        ≡ (ok fresh_row, rows ++ fresh_row ∷ [])
  unfolding create_run_with_idempotency create
  create_fresh h = ground (arith, resolve_create_input-agent input rows)

  create_existing :
      (old : Run)
      → look_up ≡ some old
      → create_run_with_idempotency now id input (some idem) rows
        ≡ (on_existing idem input.agent_id old, rows)
  unfolding create_run_with_idempotency
  create_existing old h = ground (arith, resolve_create_input-agent input rows)

  fresh_row-agent : fresh_row.agent_id ≡ input.agent_id
  unfolding new_row with_idempotency
  fresh_row-agent = resolve_create_input-agent input rows

  fresh_row-key : fresh_row.idempotency_key ≡ some (scope_idempotency_key input.agent_id idem.key)
  unfolding new_row with_idempotency
  fresh_row-key =
      ap (λ a. some (scope_idempotency_key a idem.key)) (resolve_create_input-agent input rows)

in_window_own :
    (key : String) (since : ℕ) (r : Run)
    → r.idempotency_key ≡ some key
    → since ≤ r.created_at
    → in_window key since r ≡ true
in_window_own key since r e h = rw e (ground (arith, eq_iff key key))

-- What the hook answers for the row of an earlier request of the same agent.
on_existing-fresh_row :
    (now : ℕ) (id : String) (input : CreateRunInput) (idem idem' : Idempotency) (rows : Rows)
    → on_existing idem' input.agent_id (fresh_row now id input idem rows) ≡ (
        if idem.request_hash == idem'.request_hash
        then ok (fresh_row now id input idem rows)
        else err (idempotency_conflict idem'.key id idem.request_hash idem'.request_hash))
unfolding on_existing new_row with_idempotency
on_existing-fresh_row now id input idem idem' rows = ground (
  arith,
  resolve_create_input-agent input rows,
  eq_iff input.agent_id input.agent_id,
  eq_iff (resolve_create_input input rows).agent_id input.agent_id,
)

fresh_row-created :
    (now : ℕ) (id : String) (input : CreateRunInput) (idem : Idempotency) (rows : Rows)
    → (fresh_row now id input idem rows).created_at ≡ now
unfolding new_row
fresh_row-created now id input idem rows = refl

-- A request whose key has no run in its window inserts a run. A second request of the same agent
-- with the same key, whose window starts no earlier and still holds that run, then inserts
-- nothing: with the same body hash it answers the first run, and with another it is refused as a
-- conflict that names the first run and both hashes.
pub create_run_with_idempotency_twice :
    (now now' : ℕ) (id id' : String) (input input' : CreateRunInput) (idem idem' : Idempotency)
    (rows : Rows)
    → find_latest_by_idempotency_key
        (scope_idempotency_key input.agent_id idem.key)
        (since_of now idem)
        rows
      ≡ none
    → input'.agent_id ≡ input.agent_id
    → idem'.key ≡ idem.key
    → since_of now idem ≤ since_of now' idem'
    → since_of now' idem' ≤ now
    → (r : Run) × (rows' : Rows) × (create_run_with_idempotency now id input (some idem) rows
        ≡ (ok r, rows'))
      × (rows' ≡ rows ++ r ∷ [])
      × (create_run_with_idempotency now' id' input' (some idem') rows' ≡ (
        (if idem.request_hash == idem'.request_hash
            then ok r
            else err (idempotency_conflict idem.key id idem.request_hash idem'.request_hash)),
        rows',
      ))
create_run_with_idempotency_twice now now' id id' input input' idem idem' rows fresh agent key start
      kept =
    let r = fresh_row now id input idem rows in
    let seen : find_latest_by_idempotency_key (scope_idempotency_key input.agent_id idem.key)
          (since_of now' idem') (rows ++ r ∷ [])
        ≡ some r =
      find_latest-append (scope_idempotency_key input.agent_id idem.key) (since_of now idem)
        (since_of now' idem') rows r start fresh
        (in_window_own (scope_idempotency_key input.agent_id idem.key) (since_of now' idem') r
          (fresh_row-key now id input idem rows)
          (rw (fresh_row-created now id input idem rows) kept)) in
    let found : look_up now' id' input' idem' (rows ++ r ∷ []) ≡ some r = rw (agent, key) seen in
    (
      r,
      rows ++ r ∷ [],
      create_fresh now id input idem rows fresh,
      refl,
      ground (
        arith,
        create_existing now' id' input' idem' (rows ++ r ∷ []) r found,
        on_existing-fresh_row now id input idem idem' rows,
      ),
    )

on_existing-agent :
    (idem : Idempotency) (agent : String) (old r : Run)
    → on_existing idem agent old ≡ ok r
    → r.agent_id ≡ agent
unfolding on_existing
on_existing-agent idem agent old r h = ground (arith, eq_iff old.agent_id agent)

-- Whatever the table holds, the run that a request with a key answers belongs to the agent of the
-- request.
pub create_run_with_idempotency-agent :
    (now : ℕ) (id : String) (input : CreateRunInput) (idem : Idempotency) (rows rows' : Rows)
    (r : Run)
    → create_run_with_idempotency now id input (some idem) rows ≡ (ok r, rows')
    → r.agent_id ≡ input.agent_id
create_run_with_idempotency-agent now id input idem rows rows' r h =
    elim (Option-cases (look_up now id input idem rows)) [
      | inl fresh ↦
          let same : fresh_row now id input idem rows ≡ r =
            cc (create_fresh now id input idem rows fresh) in
          rw (← same) (fresh_row-agent now id input idem rows)
      | inr (old, found) ↦
          on_existing-agent idem input.agent_id old r
            (cc (create_existing now id input idem rows old found))
    ]
