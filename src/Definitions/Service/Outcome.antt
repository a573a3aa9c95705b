-- ===== src/Definitions/Service/Outcome.antt =====
-- What a patch returns, and what it leaves, on each of its paths.
use open_rush.Prelude.{
  ℕ, ◌+◌, String, true, false, List, [], ◌∷◌, none, some, ◌≡◌, refl, sym, ap, ◌∙◌, ◌⊎◌, inl, inr,
  ◌==◌, ==-eq, nat_eq, string_eq, Bool-cases, Option-cases,
}
use open_rush.Prelude.Json.{Json}
use open_rush.Definitions.{
  Key, Partial, AgentRow, Db, AgentDefinition, PatchAgentDefinitionInput, DefinitionError,
  not_found, invalid_input, version_conflict, archived, empty_patch, Result, ok, err,
  positive_integer,
}
use open_rush.Definitions.Fields.{row_to_definition, pick_editable_patch}
use open_rush.Definitions.Service.{
  find_agent, next_version, patched, patch_check, patch, update_agent,
}
use open_rush.Definitions.Service.Tables.{find-write_agent}
use open_rush.Definitions.Service.Moves.{patched_db, HasHistory, insert_version_next}

-- Why a patch is refused.
pub data Reason (agent : String) (input : PatchAgentDefinitionInput) (db : Db)
    : DefinitionError → Type 0 where
  bad_number :
      positive_integer input.if_match_version ≡ none
      → Reason agent input db (invalid_input "ifMatchVersion" input.if_match_version)
  nothing_to_change : pick_editable_patch input.fields ≡ [] → Reason agent input db empty_patch
  missing : find_agent agent db ≡ none → Reason agent input db (not_found agent)
  is_archived :
      (row : AgentRow) (t : ℕ)
      → find_agent agent db ≡ some row
      → row.archived_at ≡ some t
      → Reason agent input db (archived agent t)
  stale :
      (row : AgentRow) (n : ℕ)
      → find_agent agent db ≡ some row
      → positive_integer input.if_match_version ≡ some n
      → (row.current_version == n) ≡ false
      → Reason agent input db (version_conflict agent n row.current_version)

-- The row that a patch is accepted for.
pub record Accepted (agent : String) (input : PatchAgentDefinitionInput) (db : Db) (row : AgentRow)
    : Type 0 where
  pub present : find_agent agent db ≡ some row
  pub not_archived : row.archived_at ≡ none
  pub observed : positive_integer input.if_match_version ≡ some row.current_version

abbrev pub Outcome :
    ℕ → String → PatchAgentDefinitionInput → Db → Result AgentDefinition × Db → Type 0
Outcome now agent input db out =
    ((e : DefinitionError) × (out ≡ (err e, db)) × Reason agent input db e)
    ⊎ ((row : AgentRow) × Accepted agent input db row
        × (out ≡ (
          ok (
              row_to_definition
                (patched now (row.current_version + 1) (pick_editable_patch input.fields) row)),
          patched_db now agent input (pick_editable_patch input.fields) row db,
        )))

List-cases {ℓ} : {A : Type ℓ} (xs : List A) → (xs ≡ []) ⊎ ((x : A) × (ys : List A) × (xs ≡ x ∷ ys))
List-cases [] = inl refl
List-cases (x ∷ xs) = inr (x, xs, refl)

patch-accepted :
    (now : ℕ) (agent : String) (input : PatchAgentDefinitionInput) (db : Db) (n : ℕ)
    (row : AgentRow) (e : Key × Json) (p : Partial)
    → HasHistory db
    → positive_integer input.if_match_version ≡ some n
    → pick_editable_patch input.fields ≡ e ∷ p
    → find_agent agent db ≡ some row
    → row.archived_at ≡ none
    → (row.current_version == n) ≡ true
    → patch now agent input db ≡ (
      ok (
          row_to_definition
            (patched now (row.current_version + 1) (pick_editable_patch input.fields) row)),
      patched_db now agent input (pick_editable_patch input.fields) row db,
    )
unfolding patch update_agent
patch-accepted now agent input db n row e p h number picked found not_archived same =
    let inserted =
      insert_version_next db agent row (next_version now agent input (e ∷ p) row) h found refl
        refl in
    let updated =
      find-write_agent (patched now (row.current_version + 1) (e ∷ p)) agent db.agents row
        (λ r. refl) found in
    let checked : patch_check agent n (find_agent agent db) ≡ ok row =
      rw found (simp (not_archived, same)) in
    rw (number, picked, checked, inserted, updated)

pub patch-cases :
    (now : ℕ) (agent : String) (input : PatchAgentDefinitionInput) (db : Db)
    → HasHistory db
    → Outcome now agent input db (patch now agent input db)
patch-cases now agent input db h = elim (Option-cases (positive_integer input.if_match_version)) [
  | inl bad ↦ inl (
    invalid_input "ifMatchVersion" input.if_match_version,
    (unfold patch in rw bad),
    bad_number bad,
  )
  | inr (n, number) ↦ elim (List-cases (pick_editable_patch input.fields)) [
    | inl nothing ↦
        inl (empty_patch, (unfold patch in rw (number, nothing)), nothing_to_change nothing)
    | inr (e, p, picked) ↦ elim (Option-cases (find_agent agent db)) [
      | inl absent ↦
          inl (not_found agent, (unfold patch in rw (number, picked, absent)), missing absent)
      | inr (row, found) ↦ elim (Option-cases row.archived_at) [
        | inr (t, closed) ↦ inl (
          archived agent t,
          (unfold patch in rw (number, picked, found) (simp closed)),
          is_archived row t found closed,
        )
        | inl open_row ↦ elim (Bool-cases (row.current_version == n)) [
          | inr other ↦ inl (
            version_conflict agent n row.current_version,
            (unfold patch in rw (number, picked, found) (simp (open_row, other))),
            stale row n found number other,
          )
          | inl same ↦
              let accepted =
                patch-accepted now agent input db n row e p h number picked found open_row same in
              inr (
                row,
                record {
                  present = found;
                  not_archived = open_row;
                  observed = number ∙ ap some (sym (==-eq row.current_version n same));
                },
                accepted,
              )
        ]
      ]
    ]
  ]
]
