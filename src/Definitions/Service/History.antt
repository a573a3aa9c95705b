-- ===== src/Definitions/Service/History.antt =====
-- The version history of every definition, through any sequence of calls.
use open_rush.Prelude.{ℕ, String, List, [], ◌∷◌, refl, inl, inr, string_eq, nat_eq, All}
use open_rush.Definitions.{Db, empty_db, CreateAgentDefinitionInput, PatchAgentDefinitionInput}
use open_rush.Definitions.Fields.{with_nulls}
use open_rush.Definitions.Service.{create, patch, archive}
use open_rush.Definitions.Service.Spread.{IsFull, pick_editable_patch-AllDefined}
use open_rush.Definitions.Service.Moves.{
  Move, stay, create_move, patch_move, archive_move, HasHistory, create-cases, archive-Move,
}
use open_rush.Definitions.Service.Outcome.{patch-cases}
use open_rush.Definitions.Service.Stories.{created_Story, patched_Story, archived_Story}

-- Calls of the service, each with the clock's reading in it.
pub data Op : Type 0 where
  create_op : ℕ → String → CreateAgentDefinitionInput → Op
  patch_op : ℕ → String → PatchAgentDefinitionInput → Op
  archive_op : ℕ → String → Op

unfoldable pub apply_op : Op → Db → Db
apply_op (create_op now row_id input) db = (create now row_id input db).1
apply_op (patch_op now agent input) db = (patch now agent input db).1
apply_op (archive_op now agent) db = (archive now agent db).1

unfoldable pub apply_ops : List Op → Db → Db
unfolding apply_op
apply_ops [] db = db
apply_ops (op ∷ ops) db = apply_ops ops (apply_op op db)

-- A creation has a value for every field that may not be null, as the schema of the API demands.
abbrev pub IsComplete : Op → Type 0
IsComplete (create_op now row_id input) = IsFull (with_nulls input.fields)
IsComplete _ = Unit

pub op-Move : (op : Op) (db : Db) → IsComplete op → HasHistory db → Move db (apply_op op db)
unfolding apply_op
op-Move (create_op now row_id input) db full h = elim (create-cases now row_id input db h) [
  | inl (missing, e) ↦ rw (apply_op, e) (create_move now row_id input full missing)
  | inr e ↦ rw (apply_op, e) stay
]
op-Move (patch_op now agent input) db full h = elim (patch-cases now agent input db h) [
  | inl (_, e, _) ↦ rw (apply_op, e) stay
  | inr (row, accepted, e) ↦
      rw (apply_op, e)
        (patch_move now agent input _ row accepted.present
          (pick_editable_patch-AllDefined input.fields))
]
op-Move (archive_op now agent) db full h = archive-Move now agent db

pub Move-HasHistory : {db db' : Db} → Move db db' → HasHistory db → HasHistory db'
Move-HasHistory stay h = h
Move-HasHistory {db} (create_move now row_id input full missing) h =
    λ agent. created_Story now row_id input db agent full missing h
Move-HasHistory {db} (patch_move now id input p row found defined) h =
    λ agent. patched_Story now id input p row db agent found defined h
Move-HasHistory {db} (archive_move now id row found) h =
    λ agent. archived_Story now id row db agent found h

-- After any sequence of complete calls from empty tables, the versions of every definition are
-- numbered 1, 2, … up to its current version, in the order of their creation; every version has a
-- snapshot of all the fields, and the newest snapshot has the fields of the definition.
pub apply_ops-HasHistory :
    (ops : List Op) (db : Db) → All IsComplete ops → HasHistory db → HasHistory (apply_ops ops db)
unfolding apply_ops
apply_ops-HasHistory [] db full h = h
apply_ops-HasHistory (op ∷ ops) db full h =
    apply_ops-HasHistory ops _ full.1 (Move-HasHistory (op-Move op db full.0 h) h)

pub empty-HasHistory : HasHistory empty_db
empty-HasHistory agent = refl
