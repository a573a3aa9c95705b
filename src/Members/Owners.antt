-- ===== src/Members/Owners.antt =====
-- A project keeps an owner (packages/control-plane/src/auth/membership-store.ts).
use mathlib.Core.Path.{subst}
use native.Mathlib.Nat.{le_trans}
use open_rush.Prelude.{
  ◌+◌, ◌≤◌, String, Bool, true, false, ◌&&◌, ◌||◌, not, List, [], ◌∷◌, ◌++◌, Option, none, some,
  any, leb, if◌then◌else◌, ◌==◌, string_eq, ◌≡◌, refl, ap, sym, Bool-cases, inl, inr, eq_iff, ==-eq,
  arith,
}
use open_rush.Members.{
  MemberRecord, Members, is_member, find_member, write_role, delete_member, count_owners, is_owner,
  is_last_owner, update_role, remove_found, remove_member, add_member, insert_member, answer-rows,
  member_not_found,
}

-- The table's key: no two rows have the same user and project.
abbrev pub are_unique : Members → Bool
are_unique [] = true
are_unique (m ∷ rows) = not (any (is_member m.user_id m.project_id) rows) && are_unique rows

write_role-none :
    (project user role : String) (rows : Members)
    → any (is_member user project) rows ≡ false
    → write_role project user role rows ≡ rows
unfolding write_role
write_role-none project user role [] h = refl
write_role-none project user role (m ∷ rows) h = elim (Bool-cases (is_member user project m)) [
  | inl hit ↦ ground (arith)
  | inr miss ↦ rw (miss, write_role-none project user role rows (ground arith)) refl
]

delete_member-none :
    (project user : String) (rows : Members)
    → any (is_member user project) rows ≡ false
    → delete_member project user rows ≡ rows
unfolding delete_member
delete_member-none project user [] h = refl
delete_member-none project user (m ∷ rows) h = elim (Bool-cases (is_member user project m)) [
  | inl hit ↦ ground (arith)
  | inr miss ↦ rw (miss, delete_member-none project user rows (ground arith)) refl
]

-- Who holds the key of a row that is hit is no other row's holder.
key_free :
    (user project : String) (m : MemberRecord) (rows : Members)
    → is_member user project m ≡ true
    → are_unique (m ∷ rows) ≡ true
    → any (is_member user project) rows ≡ false
key_free user project m rows h k =
    let e : m.user_id ≡ user = ==-eq m.user_id user (ground arith) in
    let d : m.project_id ≡ project = ==-eq m.project_id project (ground arith) in
    subst (λ u. any (is_member u project) rows ≡ false) e
      (subst (λ p. any (is_member m.user_id p) rows ≡ false) d (ground arith))

-- A change of a member's role, or the end of a membership, takes one owner away at most, and none
-- where the member was no owner.
write_role-count :
    (p project user role : String) (rows : Members)
    → are_unique rows ≡ true
    → count_owners p rows
      ≤ count_owners p (write_role project user role rows)
        + (if p == project && is_owner (find_member user project rows) then 1 else 0)
unfolding write_role count_owners find_member
write_role-count p project user role [] h = ground arith
write_role-count p project user role (m ∷ rows) h = elim (Bool-cases (is_member user project m)) [
  | inl hit ↦
      rw (hit, write_role-none project user role rows (key_free user project m rows hit h))
        (ground (arith, eq_iff m.project_id p, eq_iff m.project_id project, eq_iff p project))
  | inr miss ↦ rw miss (ground (arith, write_role-count p project user role rows (ground arith)))
]

delete_member-count :
    (p project user : String) (rows : Members)
    → are_unique rows ≡ true
    → count_owners p rows
      ≤ count_owners p (delete_member project user rows)
        + (if p == project && is_owner (find_member user project rows) then 1 else 0)
unfolding delete_member count_owners find_member
delete_member-count p project user [] h = ground arith
delete_member-count p project user (m ∷ rows) h = elim (Bool-cases (is_member user project m)) [
  | inl hit ↦
      rw (hit, delete_member-none project user rows (key_free user project m rows hit h))
        (ground (arith, eq_iff m.project_id p, eq_iff m.project_id project, eq_iff p project))
  | inr miss ↦ rw miss (ground (arith, delete_member-count p project user rows (ground arith)))
]

-- Making a member an owner takes none away.
write_role-owner :
    (p project user : String) (rows : Members)
    → count_owners p rows ≤ count_owners p (write_role project user "owner" rows)
unfolding write_role count_owners
write_role-owner p project user [] = ground arith
write_role-owner p project user (m ∷ rows) = elim (Bool-cases (is_member user project m)) [
  | inl hit ↦ rw hit (ground (arith, write_role-owner p project user rows))
  | inr miss ↦ rw miss (ground (arith, write_role-owner p project user rows))
]

has-write_role :
    (u q project user role : String) (rows : Members)
    → any (is_member u q) (write_role project user role rows) ≡ any (is_member u q) rows
unfolding write_role
has-write_role u q project user role [] = refl
has-write_role u q project user role (m ∷ rows) = elim (Bool-cases (is_member user project m)) [
  | inl hit ↦ rw (hit, has-write_role u q project user role rows) refl
  | inr miss ↦ rw (miss, has-write_role u q project user role rows) refl
]

has-delete_member :
    (u q project user : String) (rows : Members)
    → any (is_member u q) rows ≡ false
    → any (is_member u q) (delete_member project user rows) ≡ false
unfolding delete_member
has-delete_member u q project user [] h = refl
has-delete_member u q project user (m ∷ rows) h = elim (Bool-cases (is_member user project m)) [
  | inl hit ↦ rw hit (has-delete_member u q project user rows (ground arith))
  | inr miss ↦ rw (miss, has-delete_member u q project user rows (ground arith)) (ground arith)
]

write_role_unique :
    (project user role : String) (rows : Members)
    → are_unique rows ≡ true
    → are_unique (write_role project user role rows) ≡ true
unfolding write_role
write_role_unique project user role [] h = refl
write_role_unique project user role (m ∷ rows) h = elim (Bool-cases (is_member user project m)) [
  | inl hit ↦
      rw
        (
          hit,
          has-write_role m.user_id m.project_id project user role rows,
          write_role_unique project user role rows (ground arith),
        )
        (ground arith)
  | inr miss ↦
      rw
        (
          miss,
          has-write_role m.user_id m.project_id project user role rows,
          write_role_unique project user role rows (ground arith),
        )
        (ground arith)
]

delete_member_unique :
    (project user : String) (rows : Members)
    → are_unique rows ≡ true
    → are_unique (delete_member project user rows) ≡ true
unfolding delete_member
delete_member_unique project user [] h = refl
delete_member_unique project user (m ∷ rows) h = elim (Bool-cases (is_member user project m)) [
  | inl hit ↦ rw hit (delete_member_unique project user rows (ground arith))
  | inr miss ↦
      rw (miss, has-delete_member m.user_id m.project_id project user rows (ground arith))
        (delete_member_unique project user rows (ground arith))
]

append-has :
    (u q : String) (row : MemberRecord) (rows : Members)
    → any (is_member u q) (rows ++ row ∷ []) ≡ (any (is_member u q) rows || is_member u q row)
append-has u q row [] = ground arith
append-has u q row (m ∷ rows) = rw (append-has u q row rows) (ground arith)

append_unique :
    (row : MemberRecord) (rows : Members)
    → any (is_member row.user_id row.project_id) rows ≡ false
    → are_unique rows ≡ true
    → are_unique (rows ++ row ∷ []) ≡ true
append_unique row [] free h = refl
append_unique row (m ∷ rows) free h =
    rw
      (
        append-has m.user_id m.project_id row rows,
        append_unique row rows (ground arith) (ground arith),
      )
      (ground (
        arith,
        eq_iff m.user_id row.user_id,
        eq_iff row.user_id m.user_id,
        eq_iff m.project_id row.project_id,
        eq_iff row.project_id m.project_id,
      ))

append-count :
    (p : String) (row : MemberRecord) (rows : Members)
    → count_owners p rows ≤ count_owners p (rows ++ row ∷ [])
unfolding count_owners
append-count p row [] = ground arith
append-count p row (m ∷ rows) = ground (arith, append-count p row rows)

-- What the table keeps: its key, and an owner of a project.
unfoldable pub HasOwner : String → Members → Type 0
HasOwner p rows = (are_unique rows ≡ true) × (1 ≤ count_owners p rows)

-- Where the protection lets a change pass that takes one owner at most, one is left.
owner_left :
    (p project : String) (owner : Bool) (rows rows' : Members)
    → (owner && leb (count_owners project rows) 1) ≡ false
    → 1 ≤ count_owners p rows
    → count_owners p rows ≤ count_owners p rows' + (if p == project && owner then 1 else 0)
    → 1 ≤ count_owners p rows'
owner_left p project owner rows rows' h n k = elim (Bool-cases (p == project)) [
  | inl same ↦
      let e : count_owners p rows ≡ count_owners project rows =
        ap (λ q. count_owners q rows) (==-eq p project same) in
      ground (arith, e)
  | inr other ↦ ground arith
]

update_role-count :
    (p project user role : String) (rows : Members)
    → are_unique rows ≡ true
    → 1 ≤ count_owners p rows
    → (not (role == "owner") && is_last_owner project user rows) ≡ false
    → 1 ≤ count_owners p (write_role project user role rows)
unfolding is_last_owner
update_role-count p project user role rows h n go = elim (Bool-cases (role == "owner")) [
  | inl owner ↦
      subst (λ r. 1 ≤ count_owners p (write_role project user r rows))
        (sym (==-eq role "owner" owner)) (le_trans n (write_role-owner p project user rows))
  | inr other ↦
      owner_left p project (is_owner (find_member user project rows)) rows _ (ground arith) n
        (write_role-count p project user role rows h)
]

update_role-HasOwner :
    (p project user role : String) (rows : Members)
    → HasOwner p rows
    → HasOwner p ((update_role project user role rows).1)
unfolding update_role is_last_owner HasOwner
update_role-HasOwner p project user role rows (h, n) =
    elim (Bool-cases (not (role == "owner") && is_last_owner project user rows)) [
      | inl stop ↦ rw stop (h, n)
      | inr go ↦
          rw
            (
              go,
              answer-rows member_not_found
                  (find_member user project (write_role project user role rows))
                  (write_role project user role rows),
            )
            (
              write_role_unique project user role rows h,
              update_role-count p project user role rows h n go,
            )
    ]

delete_member-HasOwner :
    (p project user : String) (rows : Members)
    → HasOwner p rows
    → is_last_owner project user rows ≡ false
    → HasOwner p (delete_member project user rows)
unfolding is_last_owner HasOwner
delete_member-HasOwner p project user rows (h, n) go = (
  delete_member_unique project user rows h,
  owner_left p project (is_owner (find_member user project rows)) rows _ go n
      (delete_member-count p project user rows h),
)

remove_found-HasOwner :
    (p project user : String) (found : Option MemberRecord) (rows : Members)
    → HasOwner p rows
    → HasOwner p ((remove_found project user found rows).1)
unfolding remove_found
remove_found-HasOwner p project user none rows k = k
remove_found-HasOwner p project user (some m) rows k =
    elim (Bool-cases (is_last_owner project user rows)) [
      | inl stop ↦ rw stop k
      | inr go ↦ elim (Bool-cases (any (is_member user project) rows)) [
        | inl there ↦ rw (go, there) (delete_member-HasOwner p project user rows k go)
        | inr gone ↦ rw (go, gone) k
      ]
    ]

insert-HasOwner :
    (p : String) (row : MemberRecord) (rows : Members)
    → any (is_member row.user_id row.project_id) rows ≡ false
    → HasOwner p rows
    → HasOwner p (rows ++ row ∷ [])
unfolding HasOwner
insert-HasOwner p row rows free (h, n) =
    (append_unique row rows free h, le_trans n (append-count p row rows))

add_member-HasOwner :
    (p project user : String) (role : Option String) (rows : Members)
    → HasOwner p rows
    → HasOwner p ((add_member project user role rows).1)
unfolding add_member insert_member
add_member-HasOwner p project user role rows k =
    elim (Bool-cases (any (is_member user project) rows)) [
      | inl taken ↦ rw taken k
      | inr free ↦ rw free (insert-HasOwner p _ rows free k)
    ]

pub data MemberOp : Type 0 where
  add_op : String → String → Option String → MemberOp
  update_op : String → String → String → MemberOp
  remove_op : String → String → MemberOp

abbrev pub apply_op : MemberOp → Members → Members
apply_op (add_op project user role) rows = (add_member project user role rows).1
apply_op (update_op project user role) rows = (update_role project user role rows).1
apply_op (remove_op project user) rows = (remove_member project user rows).1

abbrev pub apply_ops : List MemberOp → Members → Members
apply_ops [] rows = rows
apply_ops (op ∷ ops) rows = apply_ops ops (apply_op op rows)

apply_op-HasOwner :
    (p : String) (op : MemberOp) (rows : Members) → HasOwner p rows → HasOwner p (apply_op op rows)
unfolding remove_member
apply_op-HasOwner p (add_op project user role) rows k =
    add_member-HasOwner p project user role rows k
apply_op-HasOwner p (update_op project user role) rows k =
    update_role-HasOwner p project user role rows k
apply_op-HasOwner p (remove_op project user) rows k = remove_found-HasOwner p project user _ rows k

-- A project that has an owner keeps one, and no user is twice a member of a project, however its
-- members and those of other projects are added, given another role and removed, one call after
-- the other.
pub apply_ops-HasOwner :
    (p : String) (ops : List MemberOp) (rows : Members)
    → HasOwner p rows
    → HasOwner p (apply_ops ops rows)
apply_ops-HasOwner p [] rows k = k
apply_ops-HasOwner p (op ∷ ops) rows k =
    apply_ops-HasOwner p ops (apply_op op rows) (apply_op-HasOwner p op rows k)
