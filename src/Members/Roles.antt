-- ===== src/Members/Roles.antt =====
-- What a role allows (packages/control-plane/src/auth/authorization.ts).
use open_rush.Prelude.{
  String, Bool, true, false, Option, none, some, if◌then◌else◌, ◌==◌, string_eq, ==-eq, ◌≡◌, refl,
  sym, Bool-cases, inl, inr,
}
use mathlib.Core.Path.{subst}
use open_rush.Members.{
  MemberRecord, Members, Permission, project_read, Access, granted, denied, missing_permission,
  owner_role_required, find_member, has_permission, with_member, require_membership,
  require_permission, require_owner,
}

owner-has_permission : (permission : Permission) → has_permission "owner" permission ≡ true
unfolding has_permission
owner-has_permission project_read = refl
owner-has_permission _ = refl

abbrev pub is_granted : Access → Bool
is_granted (granted m) = true
is_granted (denied e) = false

owner_passes :
    (permission : Permission) (m : MemberRecord)
    → is_granted (if m.role == "owner" then granted m else denied owner_role_required) ≡ true
    → (if has_permission m.role permission
        then granted m
        else denied (missing_permission permission))
      ≡ (if m.role == "owner" then granted m else denied owner_role_required)
owner_passes permission m h = elim (Bool-cases (m.role == "owner")) [
  | inl owner ↦
      let allowed : has_permission m.role permission ≡ true =
        subst (λ r. has_permission r permission ≡ true) (sym (==-eq m.role "owner" owner))
          (owner-has_permission permission) in
      rw (owner, allowed) refl
  | inr other ↦ absurd (cc)
]

owner_member_passes :
    (permission : Permission) (found : Option MemberRecord)
    → is_granted (
        with_member
          (λ m. if m.role == "owner" then granted m else denied owner_role_required)
          found)
      ≡ true
    → with_member
        (λ m.
          if has_permission m.role permission
          then granted m
          else denied (missing_permission permission))
        found
      ≡ with_member (λ m. if m.role == "owner" then granted m else denied owner_role_required) found
unfolding with_member
owner_member_passes permission none h = refl
owner_member_passes permission (some m) h = owner_passes permission m h

-- Whoever passes `requireOwner` passes `requirePermission` for every permission, with the same
-- membership.
require_permission-owner :
    (user project : String) (permission : Permission) (rows : Members)
    → is_granted (require_owner user project rows) ≡ true
    → require_permission user project permission rows ≡ require_owner user project rows
unfolding require_permission require_owner require_membership
require_permission-owner user project permission rows =
    owner_member_passes permission (find_member user project rows)
