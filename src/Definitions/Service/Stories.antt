-- ===== src/Definitions/Service/Stories.antt =====
-- The story of one definition after each kind of move.
use mathlib.Core.Path.{fun_ext}
use mathlib.Core.List.{append-nil}
use open_rush.Prelude.{
  ℕ, ◌+◌, String, Bool, true, false, List, [], ◌∷◌, ◌++◌, length-append, Option, none, some, ◌≡◌,
  refl, sym, ap, ◌∙◌, inl, inr, ◌==◌, ==-eq, string_eq, nat_eq, Bool-cases, find, All-append, arith,
  eq_iff,
}
use open_rush.Prelude.Json.{Json, undefined, or_null}
use open_rush.Definitions.{
  description, icon, model, system_prompt, append_system_prompt, config, Partial, AgentRow,
  VersionRow, Db, CreateAgentDefinitionInput, PatchAgentDefinitionInput,
}
use open_rush.Definitions.Fields.{with_nulls, extract_editable, object_of, spread}
use open_rush.Definitions.Service.{
  find_agent, new_agent, first_version, next_version, patched, archive_row,
}
use open_rush.Definitions.Service.Spread.{
  IsFull, AllDefined, extract_editable-patched, spread-IsFull,
}
use open_rush.Definitions.Service.Tables.{
  versions_of, rows_of, Counts-append, any-Counts-false, find-append_absent, find-none-any,
  filter-append, find-write_agent, find-write_agent_other,
}
use open_rush.Definitions.Service.Moves.{
  created_db, patched_db, archived_db, IsSnapshot, HistoryOf, Story, HasHistory, history_of,
  no_versions,
}

find-append_other {ℓ} :
    {A : Type ℓ} (p : A → Bool) (xs : List A) (y : A)
    → p y ≡ false
    → find p (xs ++ y ∷ []) ≡ find p xs
find-append_other p [] y h = rw h
find-append_other p (x ∷ xs) y h = ground (arith, find-append_other p xs y)

pub versions_of-append_own :
    (agent : String) (vs : List VersionRow) (v : VersionRow)
    → (v.agent_id == agent) ≡ true
    → rows_of agent (vs ++ v ∷ []) ≡ rows_of agent vs ++ v ∷ []
versions_of-append_own agent vs v h = filter-append (λ v. v.agent_id == agent) vs (v ∷ []) ∙ rw h

versions_of-append_other :
    (agent : String) (vs : List VersionRow) (v : VersionRow)
    → (v.agent_id == agent) ≡ false
    → rows_of agent (vs ++ v ∷ []) ≡ rows_of agent vs
versions_of-append_other agent vs v h =
    filter-append (λ v. v.agent_id == agent) vs (v ∷ []) ∙ rw (h, append-nil)

HistoryOf-next :
    (row row' : AgentRow) (vs : List VersionRow) (v : VersionRow)
    → HistoryOf row vs
    → row'.current_version ≡ row.current_version + 1
    → v.version ≡ row.current_version + 1
    → v.snapshot ≡ some (object_of (extract_editable row'))
    → IsFull (extract_editable row')
    → HistoryOf row' (vs ++ v ∷ [])
HistoryOf-next row row' vs v past now number shot full = record {
  counts = Counts-append 1 vs v past.counts (omega (arith, number, past.total));
  total = omega (arith, length-append vs (v ∷ []), past.total, now);
  positive = omega (arith, now);
  latest = (
    v,
    rw now (
        find-append_absent (λ v. v.version == row.current_version + 1) vs (v ∷ [])
          (any-Counts-false 1 (row.current_version + 1) vs past.counts (omega (arith, past.total)))
        ∙ ground (arith, number)),
    shot,
  );
  full = full;
  snapshots =
      All-append IsSnapshot vs (v ∷ []) past.snapshots (((extract_editable row', shot, full)), tt);
}

retell :
    {o o' : Option AgentRow} {vs vs' : List VersionRow}
    → o ≡ o'
    → vs ≡ vs'
    → Story o' vs'
    → Story o vs
retell e f s = rw (e, f) s

text_same : (s : String) → (s == s) ≡ true
text_same s = (eq_iff s s).1 refl

or_null_twice : (v : Json) → or_null (or_null v) ≡ or_null v
or_null_twice undefined = refl
or_null_twice _ = refl

first_HistoryOf :
    (now : ℕ) (row_id : String) (input : CreateAgentDefinitionInput)
    → IsFull (with_nulls input.fields)
    → HistoryOf
        (new_agent now row_id input)
        (first_version now input (new_agent now row_id input) ∷ [])
unfolding new_agent
first_HistoryOf now row_id input full =
    let row = new_agent now row_id input in
    let whole : IsFull (extract_editable row) = unfold extract_editable in nulls_IsFull in
    record {
      counts = (refl, tt);
      total = refl;
      positive = omega arith;
      latest = (_, refl, refl);
      full = whole;
      snapshots = ((extract_editable row, refl, whole), tt);
    }
  where
    nulls_IsFull : IsFull (with_nulls (with_nulls input.fields))
    nulls_IsFull description = rw (or_null_twice (input.fields description)) (full description)
    nulls_IsFull icon = rw (or_null_twice (input.fields icon)) (full icon)
    nulls_IsFull model = rw (or_null_twice (input.fields model)) (full model)
    nulls_IsFull system_prompt =
        rw (or_null_twice (input.fields system_prompt)) (full system_prompt)
    nulls_IsFull append_system_prompt =
        rw (or_null_twice (input.fields append_system_prompt)) (full append_system_prompt)
    nulls_IsFull config = rw (or_null_twice (input.fields config)) (full config)
    nulls_IsFull k = full k

pub created_Story :
    (now : ℕ) (row_id : String) (input : CreateAgentDefinitionInput) (db : Db) (agent : String)
    → IsFull (with_nulls input.fields)
    → find_agent row_id db ≡ none
    → HasHistory db
    → Story
        (find_agent agent (created_db now row_id input db))
        (versions_of agent (created_db now row_id input db))
created_Story now row_id input db agent full missing h = elim (Bool-cases (row_id == agent)) [
  | inl same ↦
      let row = new_agent now row_id input in
      let own = ==-eq row_id agent same in
      let empty : versions_of row_id db ≡ [] = no_versions db row_id h missing in
      let none_yet = rw own at empty in
      let absent = find-none-any (λ r. r.id == row_id) db.agents missing in
      let appeared : find_agent agent (created_db now row_id input db) ≡ some row =
        unfold new_agent in
        rw (← own) (
          find-append_absent (λ r. r.id == row_id) db.agents (row ∷ []) absent
          ∙ rw (text_same row_id)) in
      let told : rows_of agent (db.versions ++ first_version now input row ∷ [])
          ≡ first_version now input row ∷ [] =
        versions_of-append_own agent db.versions (first_version now input row)
          (unfold new_agent in same)
        ∙ rw none_yet in
      retell appeared told (first_HistoryOf now row_id input full)
  | inr other ↦
      let row = new_agent now row_id input in
      let own : (row.id == agent) ≡ false = unfold new_agent in other in
      retell (find-append_other (λ r. r.id == agent) db.agents row own)
        (versions_of-append_other agent db.versions (first_version now input row) own) (h agent)
]

pub patched_Story :
    (now : ℕ) (id : String) (input : PatchAgentDefinitionInput) (p : Partial) (row : AgentRow)
    (db : Db) (agent : String)
    → find_agent id db ≡ some row
    → AllDefined p
    → HasHistory db
    → Story
        (find_agent agent (patched_db now id input p row db))
        (versions_of agent (patched_db now id input p row db))
patched_Story now id input p row db agent found defined h = elim (Bool-cases (id == agent)) [
  | inl same ↦
      let row' = patched now (row.current_version + 1) p row in
      let own = ==-eq id agent same in
      let past = history_of db id row h found in
      let fields : extract_editable row' ≡ spread (extract_editable row) p =
        fun_ext λ k. extract_editable-patched now (row.current_version + 1) p row k defined in
      let whole : IsFull (extract_editable row') =
        rw fields (spread-IsFull (extract_editable row) p past.full defined) in
      let shot = ap (λ e. some (object_of e)) (sym fields) in
      rw (← own) (
        retell
          (find-write_agent (patched now (row.current_version + 1) p) id db.agents row (λ r. refl)
            found)
          (versions_of-append_own id db.versions (next_version now id input p row) (text_same id))
          (HistoryOf-next row row' (versions_of id db) (next_version now id input p row) past refl
            refl shot whole))
  | inr other ↦
      retell
        (find-write_agent_other (patched now (row.current_version + 1) p) id agent db.agents
          (λ r. refl) other)
        (versions_of-append_other agent db.versions (next_version now id input p row) other)
        (h agent)
]

archived_HistoryOf :
    (now : ℕ) (row : AgentRow) (vs : List VersionRow)
    → HistoryOf row vs
    → HistoryOf (archive_row now row) vs
unfolding extract_editable
archived_HistoryOf now row vs past = record {
  counts = past.counts;
  total = past.total;
  positive = past.positive;
  latest = past.latest;
  full = past.full;
  snapshots = past.snapshots;
}

pub archived_Story :
    (now : ℕ) (id : String) (row : AgentRow) (db : Db) (agent : String)
    → find_agent id db ≡ some row
    → HasHistory db
    → Story (find_agent agent (archived_db now id db)) (versions_of agent db)
archived_Story now id row db agent found h = elim (Bool-cases (id == agent)) [
  | inl same ↦
      let past = history_of db id row h found in
      rw (← ==-eq id agent same) (
        retell (find-write_agent (archive_row now) id db.agents row (λ r. refl) found) refl
          (archived_HistoryOf now row _ past))
  | inr other ↦
      retell (find-write_agent_other (archive_row now) id agent db.agents (λ r. refl) other) refl
        (h agent)
]
