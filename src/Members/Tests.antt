-- ===== src/Members/Tests.antt =====
-- Members and their permissions at concrete inputs (packages/control-plane/src/auth).
use open_rush.Prelude.{true, List, [], ◌∷◌, none, ◌≡◌, refl, arith}
use open_rush.Members.{Members, require_owner, count_owners, add_member, update_role, remove_member}
use open_rush.Members.Owners.{
  HasOwner, MemberOp, add_op, update_op, remove_op, apply_ops, apply_ops-HasOwner,
}
use open_rush.Members.Roles.{is_granted}

abbrev rows : Members
rows = record { user_id = "u1"; project_id = "p1"; role = "owner" } ∷ []

rows-HasOwner : HasOwner "p1" rows
unfolding HasOwner count_owners
rows-HasOwner = (refl, omega arith)

abbrev ops : List MemberOp
ops =
    add_op "p1" "u2" none
    ∷ update_op "p1" "u2" "owner"
    ∷ remove_op "p1" "u1"
    ∷ remove_op "p1" "u2"
    ∷ []

apply_ops-HasOwner_example : HasOwner "p1" (apply_ops ops rows)
apply_ops-HasOwner_example = apply_ops-HasOwner "p1" ops rows rows-HasOwner

left_over : apply_ops ops rows ≡ record { user_id = "u2"; project_id = "p1"; role = "owner" } ∷ []
unfolding remove_member update_role add_member
left_over = refl

rows_owner : is_granted (require_owner "u1" "p1" rows) ≡ true
unfolding require_owner
rows_owner = refl
