-- ===== src/Run/Service/Passed.antt =====
-- The statuses that the table shows of a run, call by call (run-service.ts).
use mathlib.Core.Option
use mathlib.Core.Option.{get_or}
use mathlib.Core.List.{append_assoc}
use mathlib.Core.Path.{subst}
use open_rush.Prelude.{
  ℕ, String, true, ◌||◌, List, [], ◌∷◌, ◌++◌, Option, none, some, ◌≡◌, refl, sym, ap, ◌∙◌, ◌⊎◌, inl,
  inr, if◌then◌else◌, ◌==◌, string_eq, ==-eq, includes, Bool-cases, Option-cases,
}
use mathlib.Core.Bool.{and-eq-true_iff}
use open_rush.Run.Status.{
  RunStatus, queued, provisioning, preparing, running, finalizing_prepare, finalizing_uploading,
  finalizing_verifying, finalizing_metadata_commit, finalized, failed, completed,
  worker_unreachable, status_eq,
}
use open_rush.Run.Machine.{passed, AllIn, extends, edge-passed, includes_of_AllIn}
use open_rush.Run.Db.{
  Run, CreateRunInput, RunUpdates, no_updates, Rows, new_row, apply_updates, write_row, find_by_id,
  find_stuck_runs,
}
use open_rush.Run.DbLaws.{find-write, find-append}
use open_rush.Run.Service.{
  Result, ok, err, M, ◌>>=◌, pure, transition, transition_updates, with_message, recover_message,
  recover_each, recover_stuck_runs,
}
use open_rush.Run.Service.Transition.{transition-cases}
use open_rush.Run.Service.Moves.{
  Move, insert, edge, stream, One, unchanged, one, Op, create_op, transition_op, cancel_op,
  stream_op, retry_op, recover_op, apply_op, apply_op-One,
}
use open_rush.Run.Service.Valid.{apply_ops}

-- What the table shows of a run.
abbrev pub status_at : String → Rows → Option RunStatus
status_at j rows = Option.map (λ (r : Run). r.status) (find_by_id j rows)

abbrev pub as_list : Option RunStatus → List RunStatus
as_list none = []
as_list (some s) = s ∷ []

-- What the table shows of a run before the calls and after each of them, the first first.
unfoldable pub shown : String → List Op → Rows → List RunStatus
shown j [] rows = as_list (status_at j rows)
shown j (op ∷ ops) rows = as_list (status_at j rows) ++ shown j ops (apply_op op rows)

abbrev passed_at : Option RunStatus → List RunStatus
passed_at none = []
passed_at (some s) = passed s

-- From one status to the next, no stage is passed over.
abbrev Follows : Option RunStatus → Option RunStatus → Type 0
Follows o o' = (t : RunStatus) → o' ≡ some t → extends t (passed_at o) (passed t) ≡ true

extends-same : (s : RunStatus) → extends s (passed s) (passed s) ≡ true
extends-same queued = refl
extends-same _ = refl

Follows-some :
    (o : Option RunStatus) (s : RunStatus)
    → extends s (passed_at o) (passed s) ≡ true
    → Follows o (some s)
Follows-some o s h t e =
    subst (λ u. extends u (passed_at o) (passed u) ≡ true) (ap (λ p. get_or p s) e) h

Follows-same : (o : Option RunStatus) → Follows o o
Follows-same none t h = cc
Follows-same (some s) t h = Follows-some (some s) s (extends-same s) t h

-- A run that is recovered.
abbrev Failing : Option RunStatus → Option RunStatus → Type 0
Failing o o' = (o' ≡ o) ⊎ (((s : RunStatus) × (o ≡ some s)) × (o' ≡ some failed))

Failing-trans : (a b c : Option RunStatus) → Failing a b → Failing b c → Failing a c
Failing-trans a b c (inl p) (inl q) = inl (q ∙ p)
Failing-trans a b c (inl p) (inr ((s, e), q)) = inr ((s, sym p ∙ e), q)
Failing-trans a b c (inr (h, p)) (inl q) = inr (h, q ∙ p)
Failing-trans a b c (inr (h, p)) (inr (k, q)) = inr (h, q)

extends-failed : (s : RunStatus) → extends failed (passed s) (passed failed) ≡ true
extends-failed queued = refl
extends-failed _ = refl

Follows-Failing : (o o' : Option RunStatus) → Failing o o' → Follows o o'
Follows-Failing o o' (inl e) = subst (Follows o) (sym e) (Follows-same o)
Follows-Failing o o' (inr ((s, e), f)) =
    subst (Follows o) (sym f) (
      subst (λ p. Follows p (some failed)) (sym e)
        (Follows-some (some s) failed (extends-failed s)))

-- What the table shows after a write.
status_at-write :
    (now : ℕ) (i j : String) (to : RunStatus) (u : RunUpdates) (rows : Rows) (run : Run)
    → find_by_id i rows ≡ some run
    → status_at j (write_row now i to u rows) ≡ (if i == j then some to else status_at j rows)
unfolding apply_updates
status_at-write now i j to u rows run found = elim (Bool-cases (i == j)) [
  | inl same ↦
      let here : find_by_id j rows ≡ some run =
        subst (λ k. find_by_id k rows ≡ some run) (==-eq i j same) found in
      ap (Option.map (λ (r : Run). r.status)) (find-write now i j to u rows) ∙ rw (same, here) refl
  | inr other ↦
      ap (Option.map (λ (r : Run). r.status)) (find-write now i j to u rows) ∙ rw other refl
]

status_at-same :
    (i j : String) (rows : Rows) (run : Run)
    → find_by_id i rows ≡ some run
    → (i == j) ≡ true
    → status_at j rows ≡ some run.status
status_at-same i j rows run found same =
    ap (Option.map (λ (r : Run). r.status))
      (subst (λ k. find_by_id k rows ≡ some run) (==-eq i j same) found)

write-Follows :
    (now : ℕ) (i j : String) (to : RunStatus) (u : RunUpdates) (rows : Rows) (run : Run)
    → find_by_id i rows ≡ some run
    → extends to (passed run.status) (passed to) ≡ true
    → Follows (status_at j rows) (status_at j (write_row now i to u rows))
write-Follows now i j to u rows run found h =
    subst (Follows (status_at j rows)) (sym (status_at-write now i j to u rows run found))
      (elim (Bool-cases (i == j)) [
        | inl same ↦
            rw (same, status_at-same i j rows run found same) (Follows-some (some run.status) to h)
        | inr other ↦ rw other (Follows-same (status_at j rows))
      ])

status_at-append :
    (now : ℕ) (j row_id : String) (input : CreateRunInput) (rows : Rows)
    → (status_at j (rows ++ new_row now row_id input ∷ []) ≡ status_at j rows)
      ⊎ ((status_at j rows ≡ none)
          × (status_at j (rows ++ new_row now row_id input ∷ []) ≡ some queued))
unfolding new_row
status_at-append now j row_id input rows =
    let e = find-append j rows (new_row now row_id input) in
    let m = ap (Option.map (λ (r : Run). r.status)) e in
    elim (Option-cases (find_by_id j rows)) [
      | inr (old, found) ↦ inl (m ∙ rw found refl)
      | inl fresh ↦ elim (Bool-cases (row_id == j)) [
        | inl own ↦ inr (rw fresh refl, m ∙ rw (fresh, own) refl)
        | inr other ↦ inl (m ∙ rw (fresh, other) refl)
      ]
    ]

Move-Follows :
    (j : String) {rows rows' : Rows}
    → Move rows rows'
    → Follows (status_at j rows) (status_at j rows')
Move-Follows j {rows} (insert now row_id input) = elim (status_at-append now j row_id input rows) [
  | inl same ↦ subst (Follows (status_at j rows)) (sym same) (Follows-same (status_at j rows))
  | inr (fresh, new) ↦
      subst (Follows (status_at j rows)) (sym new)
        (subst (λ o. Follows o (some queued)) (sym fresh) (Follows-some none queued refl))
]
Move-Follows j {rows} (edge now i to extra run found legal fits) =
    write-Follows now i j to (transition_updates now run to extra) rows run found
      (edge-passed run.status to legal)
Move-Follows j {rows} (stream now i name run found) =
    write-Follows now i j run.status (record no_updates { active_stream_id = some (some name) })
      rows run found (extends-same run.status)

One-Follows :
    (j : String) {rows rows' : Rows}
    → One rows rows'
    → Follows (status_at j rows) (status_at j rows')
One-Follows j {rows} unchanged = Follows-same (status_at j rows)
One-Follows j (one m) = Move-Follows j m

transition-Failing :
    (j : String) (now : ℕ) (i : String) (extra : RunUpdates) (rows : Rows)
    → Failing (status_at j rows) (status_at j (transition now i failed extra rows).1)
transition-Failing j now i extra rows = elim (transition-cases now i failed extra rows) [
  | inl (missing, e) ↦ rw e (inl refl)
  | inr (inl (run, found, illegal, e)) ↦ rw e (inl refl)
  | inr (inr (run, found, legal, e)) ↦
      let w =
        status_at-write now i j failed (transition_updates now run failed extra) rows run found in
      elim (Bool-cases (i == j)) [
        | inl same ↦
            rw e (inr ((run.status, status_at-same i j rows run found same), w ∙ rw same refl))
        | inr other ↦ rw e (inl (w ∙ rw other refl))
      ]
]

bind-Failing {ℓ κ} :
    {A : Type ℓ} {B : Type κ} (j : String) (m : M A) (f : A → M B) (rows : Rows)
    → Failing (status_at j rows) (status_at j (m rows).1)
    → ((a : A) (mid : Rows) → Failing (status_at j mid) (status_at j (f a mid).1))
    → Failing (status_at j rows) (status_at j ((m >>= f) rows).1)
bind-Failing {A} {B} j m f rows h k = go (m rows) h
  where
    go :
        (p : Result A × Rows)
        → Failing (status_at j rows) (status_at j p.1)
        → Failing (status_at j rows) (status_at j (((λ (z : Rows). p) >>= f) rows).1)
    go (ok a, mid) q = Failing-trans _ _ _ q (k a mid)
    go (err e, mid) q = q

recover_each-Failing :
    (j : String) (now : ℕ) (stuck rows : Rows)
    → Failing (status_at j rows) (status_at j (recover_each now stuck rows).1)
unfolding recover_each
recover_each-Failing j now [] rows = inl refl
recover_each-Failing j now (run ∷ stuck) rows =
    elim (Bool-cases (run.status == worker_unreachable)) [
      | inl lost ↦ rw lost (
          bind-Failing j (transition now run.id failed (with_message recover_message))
            (λ updated. recover_each now stuck >>= λ recovered. pure (updated ∷ recovered)) rows
            (transition-Failing j now run.id (with_message recover_message) rows)
            (λ updated mid.
              bind-Failing j (recover_each now stuck) (λ recovered. pure (updated ∷ recovered)) mid
                (recover_each-Failing j now stuck mid) (λ recovered last. inl refl)))
      | inr other ↦ rw other (recover_each-Failing j now stuck rows)
    ]

apply_op-Follows :
    (j : String) (op : Op) (rows : Rows)
    → Follows (status_at j rows) (status_at j (apply_op op rows))
unfolding apply_op recover_stuck_runs
apply_op-Follows j (recover_op now older_than) rows =
    Follows-Failing _ _
      (recover_each-Failing j now (find_stuck_runs now (get_or older_than 120000) rows) rows)
apply_op-Follows j (create_op now i input idem) rows =
    One-Follows j (apply_op-One (create_op now i input idem) rows refl)
apply_op-Follows j (transition_op now i to message) rows =
    One-Follows j (apply_op-One (transition_op now i to message) rows refl)
apply_op-Follows j (cancel_op now i) rows = One-Follows j (apply_op-One (cancel_op now i) rows refl)
apply_op-Follows j (stream_op now i name) rows =
    One-Follows j (apply_op-One (stream_op now i name) rows refl)
apply_op-Follows j (retry_op now i) rows = One-Follows j (apply_op-One (retry_op now i) rows refl)

includes-last :
    (t : RunStatus) (l : List RunStatus) (v : RunStatus)
    → (t == v || includes l v) ≡ true
    → includes (l ++ t ∷ []) v ≡ true
includes-last t [] v h = h
includes-last t (x ∷ l) v h = elim (Bool-cases (x == v)) [
  | inl here ↦ rw here refl
  | inr other ↦ rw other (includes-last t l v (rw other at h))
]

includes_next :
    (t v : RunStatus) (old l : List RunStatus)
    → AllIn old l
    → (t == v || includes old v) ≡ true
    → (t == v || includes l v) ≡ true
includes_next t v old l k h = elim (Bool-cases (t == v)) [
  | inl here ↦ rw here refl
  | inr other ↦ rw other (includes_of_AllIn old l v k (rw other at h))
]

AllIn-last :
    (t : RunStatus) (old new l : List RunStatus)
    → extends t old new ≡ true
    → AllIn old l
    → AllIn new (l ++ t ∷ [])
AllIn-last t old [] l h k = tt
AllIn-last t old (v ∷ vs) l h k =
    let (here, later) = (and-eq-true_iff _ _).0 h in
    (includes-last t l v (includes_next t v old l k here), AllIn-last t old vs l later k)

-- What was shown has every status that the one shown last stands for.
abbrev Covers : Option RunStatus → List RunStatus → Type 0
Covers o l = AllIn (passed_at o) l

Covers-next :
    (o o' : Option RunStatus) (l : List RunStatus)
    → Follows o o'
    → Covers o l
    → Covers o' (l ++ as_list o')
Covers-next o none l f c = tt
Covers-next o (some t) l f c = AllIn-last t (passed_at o) (passed t) l (f t refl) c

shown-Covers :
    (j : String) (ops : List Op) (rows : Rows) (before : List RunStatus)
    → Covers (status_at j rows) (before ++ as_list (status_at j rows))
    → Covers (status_at j (apply_ops ops rows)) (before ++ shown j ops rows)
unfolding shown apply_ops
shown-Covers j [] rows before c = c
shown-Covers j (op ∷ ops) rows before c =
    let here = as_list (status_at j rows) in
    subst (Covers (status_at j (apply_ops ops (apply_op op rows))))
      (append_assoc before here (shown j ops (apply_op op rows)))
      (shown-Covers j ops (apply_op op rows) (before ++ here) (
        Covers-next (status_at j rows) (status_at j (apply_op op rows)) (before ++ here)
          (apply_op-Follows j op rows) c))

-- After any calls on an empty table, a run that the table shows as completed has passed every
-- stage: for each of queued, provisioning, preparing, running, finalizing_prepare,
-- finalizing_uploading, finalizing_verifying, finalizing_metadata_commit and finalized there was a
-- call after which the table showed this run in that status.
pub completed-passed :
    (ops : List Op) (j : String) (r : Run)
    → find_by_id j (apply_ops ops []) ≡ some r
    → r.status ≡ completed
    → AllIn
        (queued ∷ provisioning ∷ preparing ∷ running ∷ finalizing_prepare ∷ finalizing_uploading
          ∷ finalizing_verifying ∷ finalizing_metadata_commit ∷ finalized ∷ [])
        (shown j ops [])
completed-passed ops j r found over =
    let c = shown-Covers j ops [] [] (unfold find_by_id in tt) in
    let o : status_at j (apply_ops ops []) ≡ some completed =
      ap (Option.map (λ (q : Run). q.status)) found ∙ ap (λ t. some t) over in
    let k : AllIn (passed completed) (shown j ops []) =
      subst (λ p. Covers p (shown j ops [])) o c in
    let (done_, (f, (m, (v, (u, (p, (run, (prep, (prov, (q, end)))))))))) = k in
    (q, (prov, (prep, (run, (p, (u, (v, (m, (f, tt)))))))))
