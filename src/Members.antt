-- ===== src/Members.antt =====
-- The members of a project: `DrizzleMembershipDb` and `ProjectMemberService` of
-- packages/control-plane/src/auth/drizzle-membership-db.ts and membership-store.ts, and the guard of
-- authorization.ts. A role is the text of its column; the table is the list of its rows.
pub mod Owners
pub mod Roles
mod Tests
use mathlib.Core.Option.{get_or}
use open_rush.Prelude.{
  ℕ, zero, suc, ◌+◌, String, Bool, true, false, ◌&&◌, ◌||◌, not, List, [], ◌∷◌, ◌++◌, Option, none,
  some, any, find, filter, leb, if◌then◌else◌, ◌==◌, string_eq, ◌≡◌, refl, Equal,
}

pub record MemberRecord : Type 0 where
  pub user_id : String
  pub project_id : String
  pub role : String

abbrev pub Members : Type 0
Members = List MemberRecord

abbrev pub is_member : String → String → MemberRecord → Bool
is_member user project m = m.user_id == user && m.project_id == project

unfoldable pub find_member : String → String → Members → Option MemberRecord
find_member user project rows = find (is_member user project) rows

unfoldable pub list_members : String → Members → Members
list_members project rows = filter (λ m. m.project_id == project) rows

-- The insertion fails where the table's key is taken.
unfoldable pub insert_member : String → String → String → Members → Option MemberRecord × Members
insert_member project user role rows =
    let row : MemberRecord = record { user_id = user; project_id = project; role = role } in
    if any (is_member user project) rows then (none, rows) else (some row, rows ++ row ∷ [])

unfoldable pub write_role : String → String → String → Members → Members
write_role project user role [] = []
write_role project user role (m ∷ rows) =
    let rest = write_role project user role rows in
    (if is_member user project m then record m { role = role } else m) ∷ rest

unfoldable pub delete_member : String → String → Members → Members
delete_member project user rows = filter (λ m. not (is_member user project m)) rows

unfoldable pub count_owners : String → Members → ℕ
count_owners project [] = 0
count_owners project (m ∷ rows) =
    (if m.project_id == project && m.role == "owner" then 1 else 0) + count_owners project rows

pub data MemberError : Type 0 where
  last_owner member_not_found concurrent_deletion member_exists : MemberError

pub data Result {ℓ} (A : Type ℓ) : Type ℓ where
  ok : A → Result A
  err : MemberError → Result A

abbrev pub answer : MemberError → Option MemberRecord × Members → Result MemberRecord × Members
answer e (none, rows) = (err e, rows)
answer e (some m, rows) = (ok m, rows)

pub answer-rows :
    (e : MemberError) (o : Option MemberRecord) (rows : Members) → (answer e (o, rows)).1 ≡ rows
answer-rows e none rows = refl
answer-rows e (some m) rows = refl

-- `ProjectMemberService.addMember`; a role that is absent is "member".
unfoldable pub add_member :
    String → String → Option String → Members → Result MemberRecord × Members
unfolding insert_member
add_member project user role rows =
    answer member_exists (insert_member project user (get_or role "member") rows)

abbrev pub is_owner : Option MemberRecord → Bool
is_owner none = false
is_owner (some m) = m.role == "owner"

-- Whether the protection of the last owner stops the change of a member.
unfoldable pub is_last_owner : String → String → Members → Bool
unfolding find_member count_owners
is_last_owner project user rows =
    is_owner (find_member user project rows) && leb (count_owners project rows) 1

unfoldable pub update_role : String → String → String → Members → Result MemberRecord × Members
unfolding is_last_owner write_role find_member
update_role project user role rows =
    let rows' = write_role project user role rows in
    if not (role == "owner") && is_last_owner project user rows
    then (err last_owner, rows)
    else answer member_not_found (find_member user project rows', rows')

-- What `removeMember` does with the member that it found.
unfoldable pub remove_found :
    String → String → Option MemberRecord → Members → Result (Unit {0}) × Members
unfolding is_last_owner delete_member
remove_found project user none rows = (err member_not_found, rows)
remove_found project user (some current) rows =
    if is_last_owner project user rows
    then (err last_owner, rows)
    else if any (is_member user project) rows
    then (ok tt, delete_member project user rows)
    else (err concurrent_deletion, rows)

unfoldable pub remove_member : String → String → Members → Result (Unit {0}) × Members
unfolding remove_found find_member
remove_member project user rows = remove_found project user (find_member user project rows) rows

pub data Permission : Type 0 where
  project_read project_write project_delete project_manage_members : Permission

abbrev permission_text : Permission → String
permission_text project_read = "project:read"
permission_text project_write = "project:write"
permission_text project_delete = "project:delete"
permission_text project_manage_members = "project:manage_members"

unfoldable pub get_role_permissions : String → List Permission
get_role_permissions role =
    if role == "owner"
    then project_read ∷ project_write ∷ project_delete ∷ project_manage_members ∷ []
    else if role == "admin"
    then project_read ∷ project_write ∷ project_manage_members ∷ []
    else if role == "member"
    then project_read ∷ project_write ∷ []
    else []

unfoldable pub has_permission : String → Permission → Bool
unfolding get_role_permissions
has_permission role permission =
    any (λ p. permission_text p == permission_text permission) (get_role_permissions role)

pub data AuthorizationError : Type 0 where
  not_a_member : AuthorizationError
  missing_permission : Permission → AuthorizationError
  owner_role_required : AuthorizationError

pub data Access : Type 0 where
  granted : MemberRecord → Access
  denied : AuthorizationError → Access

-- `requireMembership`, with what its caller goes on to ask of the membership.
unfoldable pub with_member : (MemberRecord → Access) → Option MemberRecord → Access
with_member next none = denied not_a_member
with_member next (some m) = next m

unfoldable pub require_membership : String → String → (MemberRecord → Access) → Members → Access
unfolding find_member with_member
require_membership user project next rows = with_member next (find_member user project rows)

unfoldable pub require_permission : String → String → Permission → Members → Access
unfolding require_membership has_permission
require_permission user project permission rows =
    require_membership user project
      (λ m.
        if has_permission m.role permission
        then granted m
        else denied (missing_permission permission))
      rows

unfoldable pub require_owner : String → String → Members → Access
unfolding require_membership
require_owner user project rows =
    require_membership user project
      (λ m. if m.role == "owner" then granted m else denied owner_role_required) rows
