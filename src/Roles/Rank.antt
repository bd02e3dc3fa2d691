-- ===== src/Roles/Rank.antt =====
-- No request about roles raises anybody to the rank of the one who makes it.
use voxply_server.Common.{
  ◌≡◌, refl, ◌⊎◌, inl, inr, Bool, true, false, ◌&&◌, ◌||◌, All-map₂, Option-cases, some, List,
  String, arith, ◌==◌, eq_iff, All, All-concat, All-map,
}
use voxply_server.Common.Int.{ℤ, pos, ◌≤ℤ◌, ◌<ℤ◌, geb_ℤ-false}
use voxply_server.Exec.{Exec, ◌>>=◌}
use voxply_server.Exec.Rules.{
  Preserves, PreservesAt, Preserves-at, Preserves-of_at, preserves_rules, gets_then, refuse_then,
  Preserves-modify, modify_at,
}
use voxply_server.Sql.{exists_where, delete_where, update_where, insert_row}
use voxply_server.Sql.Laws.{
  All-delete, All-update, All-of_fetch, All-fetch, exists-insert, exists_where_of_delete,
  exists_mono_false,
}
use voxply_server.Sql.Keys.{Distinct, insert-Distinct, delete-Distinct, update-Distinct, fetch_only}
use voxply_server.Db.{Db, RoleRow, RolePermission, UserRole}
use voxply_server.Permissions.{holds_role, roles_of, permissions_of}
use voxply_server.Permissions.Rank.{max_priority_bounds, max_priority_attained}
use voxply_server.Roles.{
  find_role, get_role, insert_permission, insert_role, set_role, rename_role, delete_permissions,
  replace_permissions, set_priority, set_display, delete_assignments, insert_assignment,
  CreateRoleRequest, UpdateRoleRequest, keep_last_owner, create_role, update_role, delete_role,
  assign_role, remove_role, require_not_builtin,
}
use voxply_server.Roles.Ops.{RoleOp, create, update, delete, assign, remove, role_op}

abbrev pub rank : Db → String → ℤ
rank db user = (permissions_of db user).max_priority

pub get_role_then :
    {A : Type 0} {P : Db → Type 0} (id : String) (f : RoleRow → Exec Db A) (s : Db)
    → ((r : RoleRow) → find_role id s ≡ some r → PreservesAt P (f r) s)
    → PreservesAt P (get_role id >>= f) s
unfolding ◌>>=◌ get_role
get_role_then id f s k = elim (Option-cases (find_role id s)) [
  | inl e ↦ record { at = λ h. rw e h }
  | inr (r, e) ↦ record { at = λ h. rw e ((k r e).at h) }
]

-- Every role that `user` holds is at most `most`, or below `actor`.
module _ (actor most : ℤ) (user : String) where
  abbrev Bounded : Db → RoleRow → Type 0
  Bounded db r = holds_role user r.id db ≡ true → (r.priority ≤ℤ most) ⊎ (r.priority <ℤ actor)

  record Ranked (db : Db) : Type 0 where
    distinct : Distinct (λ r. r.id) db.roles
    bounded : All (Bounded db) db.roles

  -- a change of the rows of `roles` that keeps ids and puts no priority at or above `actor`
  update-Ranked :
      (q : RoleRow → Bool) (f : RoleRow → RoleRow)
      → ((r : RoleRow) → (f r).id ≡ r.id)
      → ((r : RoleRow) → ((f r).priority ≡ r.priority) ⊎ ((f r).priority <ℤ actor))
      → (s : Db) → Ranked s
      → Ranked (record s { roles = update_where q f s.roles })
  unfolding holds_role
  update-Ranked q f same low s h = record {
    distinct = update-Distinct (λ r. r.id) q f s.roles same h.distinct;
    bounded = All-update (Bounded s) q f s.roles (λ r p _. raised r p) h.bounded;
  }
    where
      raised : (r : RoleRow) → Bounded s r → Bounded s (f r)
      raised r p held = elim (low r) [ inl e ↦ rw e (p (rw (← same r) held)) | inr l ↦ inr l ]

  insert_role-Ranked :
      (role : RoleRow) → role.priority <ℤ actor → Preserves Ranked (insert_role role)
  unfolding insert_role holds_role
  insert_role-Ranked role low = Preserves-of_at λ s. gets_then _ _ s (
      refuse_then _ _ _ _ s λ free. modify_at _ s λ h. record {
        distinct = insert-Distinct (λ r. r.id) role s.roles (no_id s free) h.distinct;
        bounded = All-concat (Bounded s) s.roles h.bounded (λ _. inr low);
      })
    where
      no_id :
          (s : Db)
          → exists_where (λ r. r.id == role.id || r.name == role.name) s.roles ≡ false
          → exists_where (λ r. r.id == role.id) s.roles ≡ false
      no_id s free = exists_mono_false _ _ (λ r e. ground arith) s.roles free

  -- fewer assignments
  delete_assignments-Ranked : (p : UserRole → Bool) → Preserves Ranked (delete_assignments p)
  unfolding delete_assignments holds_role
  delete_assignments-Ranked p = Preserves-modify _ λ s h. record {
    distinct = h.distinct;
    bounded =
        All-map (Bounded s) _ (λ r b held. b (exists_where_of_delete _ p s.user_roles held)) s.roles
          h.bounded;
  }

  delete_row-Ranked :
      (p : RoleRow → Bool) (s : Db)
      → Ranked s
      → Ranked (record s { roles = delete_where p s.roles })
  unfolding holds_role
  delete_row-Ranked p s h = record {
    distinct = delete-Distinct (λ r. r.id) p s.roles h.distinct;
    bounded = All-delete (Bounded s) p s.roles h.bounded;
  }

  permissions-Ranked :
      (s : Db) (rps : List RolePermission) → Ranked s → Ranked (record s { role_permissions = rps })
  unfolding holds_role
  permissions-Ranked s rps h = record { distinct = h.distinct; bounded = h.bounded }

  insert_permission-Ranked : (id p : String) → Preserves Ranked (insert_permission id p)
  unfolding insert_permission
  insert_permission-Ranked id p = search (preserves_rules, permissions-Ranked)

  replace_permissions-Ranked :
      (id : String) (ps : List String) → Preserves Ranked (replace_permissions id ps)
  unfolding replace_permissions delete_permissions
  replace_permissions-Ranked id ps =
      search (preserves_rules, permissions-Ranked, insert_permission-Ranked)

  set_priority-Ranked :
      (own : ℤ) → own ≡ actor → (id : String) (p : ℤ) → Preserves Ranked (set_priority own id p)
  unfolding set_priority set_role
  set_priority-Ranked own e id p = Preserves-of_at λ s. refuse_then _ _ _ _ s λ low.
      modify_at _ s (update-Ranked _ _ (λ r. refl) (λ r. inr (rw (← e) (geb_ℤ-false p own low))) s)

  rename_role-Ranked : (id name : String) → Preserves Ranked (rename_role id name)
  unfolding rename_role
  rename_role-Ranked id name = Preserves-of_at λ s.
      gets_then _ _ s
        (refuse_then _ _ _ _ s λ _. modify_at _ s (update-Ranked _ _ (λ r. refl) (λ r. inl refl) s))

  set_display-Ranked : (id : String) (flag : Bool) → Preserves Ranked (set_display id flag)
  unfolding set_display set_role
  set_display-Ranked id flag = Preserves-modify _ (update-Ranked _ _ (λ r. refl) (λ r. inl refl))

  -- the role that is given away ranks below `actor`
  record Granting (role_id : String) (db : Db) : Type 0 where
    ranked : Ranked db
    low : All (λ r. (r.id == role_id) ≡ true → r.priority <ℤ actor) db.roles

  grant-Granting :
      (role_id : String) (ur : UserRole)
      → ur.role_id ≡ role_id
      → (s : Db) → Granting role_id s
      → Granting role_id (record s { user_roles = insert_row ur s.user_roles })
  unfolding holds_role
  grant-Granting role_id ur same s h = record {
    ranked = record {
      distinct = h.ranked.distinct;
      bounded = All-map₂ _ _ _ granted s.roles h.ranked.bounded h.low;
    };
    low = h.low;
  }
    where
      granted :
          (r : RoleRow)
          → Bounded s r
          → ((r.id == role_id) ≡ true → r.priority <ℤ actor)
          → Bounded (record s { user_roles = insert_row ur s.user_roles }) r
      granted r b l held = ground (
        arith,
        exists-insert (λ x. x.user_public_key == user && x.role_id == r.id) ur s.user_roles,
        eq_iff ur.role_id r.id,
        eq_iff r.id role_id,
      )

  insert_assignment-Granting :
      (now : ℤ) (pk role_id : String)
      → Preserves (Granting role_id) (insert_assignment now pk role_id)
  unfolding insert_assignment
  insert_assignment-Granting now pk role_id = search (preserves_rules, grant-Granting) depth 12

  module _ (by : String) (s : Db) (own : (permissions_of s by).max_priority ≡ actor) where
    create_role-Ranked :
        (now : ℤ) (id : String) (req : CreateRoleRequest)
        → PreservesAt Ranked (create_role now id by req) s
    unfolding create_role
    create_role-Ranked now id req = gets_then _ _ s (
        refuse_then _ _ _ _ s λ _. refuse_then _ _ _ _ s λ low.
          let below : req.priority <ℤ actor = rw own at (geb_ℤ-false req.priority _ low) in
          Preserves-at (search (preserves_rules, insert_role-Ranked, insert_permission-Ranked)))

    update_role-Ranked :
        (id : String) (req : UpdateRoleRequest) → PreservesAt Ranked (update_role by id req) s
    unfolding update_role require_not_builtin get_role
    update_role-Ranked id req = refuse_then _ _ _ _ s λ _. gets_then _ _ s (
        refuse_then _ _ _ _ s λ _. Preserves-at (
          search
            (
              preserves_rules, set_priority-Ranked, rename_role-Ranked, replace_permissions-Ranked,
              set_display-Ranked,
            )
            depth 12))

    delete_role-Ranked : (id : String) → PreservesAt Ranked (delete_role by id) s
    unfolding delete_role require_not_builtin get_role delete_permissions
    delete_role-Ranked id = Preserves-at (
        search (preserves_rules, delete_assignments-Ranked, permissions-Ranked, delete_row-Ranked)
          depth 12)

    remove_role-Ranked : (pk id : String) → PreservesAt Ranked (remove_role by pk id) s
    unfolding remove_role get_role keep_last_owner
    remove_role-Ranked pk id =
        Preserves-at (search (preserves_rules, delete_assignments-Ranked) depth 12)

    assign_role-Ranked :
        (now : ℤ) (pk id : String) → PreservesAt Ranked (assign_role now by pk id) s
    unfolding assign_role find_role
    assign_role-Ranked now pk id = gets_then _ _ s (
        refuse_then _ _ _ _ s λ _. get_role_then id _ s λ role found. refuse_then _ _ _ _ s λ low.
          let below : role.priority <ℤ actor =
            rw own at (geb_ℤ-false role.priority (permissions_of s by).max_priority low) in
          record {
            at = λ h.
                ((insert_assignment-Granting now pk id).at s (record {
                  ranked = h;
                  low =
                      fetch_only (λ r. r.id) id s.roles (λ r. r.priority <ℤ actor) h.distinct found
                        below;
                })).ranked;
          })

    role_op-Ranked : (op : RoleOp) → Ranked s → Ranked (role_op by op s)
    unfolding role_op
    role_op-Ranked (create now id req) h = (create_role-Ranked now id req).at h
    role_op-Ranked (update id req) h = (update_role-Ranked id req).at h
    role_op-Ranked (delete id) h = (delete_role-Ranked id).at h
    role_op-Ranked (assign now pk id) h = (assign_role-Ranked now pk id).at h
    role_op-Ranked (remove pk id) h = (remove_role-Ranked pk id).at h

before-Ranked :
    (actor : ℤ) (user : String) (s : Db)
    → Distinct (λ r. r.id) s.roles
    → Ranked actor (rank s user) user s
unfolding permissions_of roles_of
before-Ranked actor user s d = record {
  distinct = d;
  bounded =
      All-map _ _ (λ r b held. inl (b held)) s.roles
        (All-of_fetch (λ r. r.priority ≤ℤ rank s user) (λ r. holds_role user r.id s) s.roles
          (max_priority_bounds (roles_of s user)));
}

-- Whatever a request of `by` about roles does, refused or not, each user's rank (the largest
-- priority among the roles he holds) is afterwards at most what it was, or below the rank that `by`
-- had, or 0, the rank of a user without a role. The ids of `roles` are distinct, as its primary key
-- has it.
pub role_op-rank :
    (by : String) (op : RoleOp) (db : Db) (user : String)
    → Distinct (λ r. r.id) db.roles
    → (rank (role_op by op db) user ≡ pos 0)
      ⊎ ((rank (role_op by op db) user ≤ℤ rank db user)
          ⊎ (rank (role_op by op db) user <ℤ rank db by))
unfolding permissions_of roles_of
role_op-rank by op db user d =
    let after =
      role_op-Ranked (rank db by) (rank db user) user by db refl op
        (before-Ranked (rank db by) user db d) in
    max_priority_attained (λ p. (p ≤ℤ rank db user) ⊎ (p <ℤ rank db by))
      (roles_of (role_op by op db) user) (All-fetch _ _ (role_op by op db).roles after.bounded)
