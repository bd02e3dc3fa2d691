-- ===== src/Roles/Owner.antt =====
-- The hub never loses its last owner to a request about roles.
use voxply_server.Common.{
  ◌≤◌, ◌≡◌, Bool, true, false, ◌&&◌, ◌||◌, List, [], ◌∷◌, String, arith, ◌==◌, eq_iff, leb,
}
use voxply_server.Common.Int.{ℤ}
use voxply_server.Exec.Rules.{
  Preserves, PreservesAt, Preserves-at, Preserves-modify, Preserves-of_at, preserves_rules,
  gets_then, refuse_then, modify_at, when_at, when_then, assoc_then,
}
use voxply_server.Sql.{count_where, exists_where}
use voxply_server.Sql.Laws.{
  count-delete-le, count-delete_other, count-delete_sub, count-insert, count_of_none,
}
use voxply_server.Db.{Db, RoleRow, RolePermission, UserRole}
use voxply_server.Permissions.{holds_role}
use voxply_server.Roles.{
  CreateRoleRequest, UpdateRoleRequest, builtin_owner, builtin_everyone, owner_count, get_role,
  insert_permission, insert_role, set_role, rename_role, delete_permissions, replace_permissions,
  set_priority, set_display, delete_assignments, insert_assignment, keep_last_owner, create_role,
  update_role, delete_role, assign_role, remove_role, require_not_builtin,
}
use voxply_server.Roles.Rank.{get_role_then}
use voxply_server.Roles.Ops.{RoleOp, create, update, delete, assign, remove, role_op, role_ops}

abbrev pub is_owner : String → UserRole → Bool
is_owner pk ur = ur.user_public_key == pk && ur.role_id == builtin_owner

-- There is an owner, and the primary key of `user_roles` lets nobody be an owner twice.
pub record IsOwned (db : Db) : Type 0 where
  pub owners : 1 ≤ owner_count db
  pub once : (pk : String) → count_where (is_owner pk) db.user_roles ≤ 1

roles-IsOwned : (s : Db) (rs : List RoleRow) → IsOwned s → IsOwned (record s { roles = rs })
unfolding owner_count
roles-IsOwned s rs h = record { owners = h.owners; once = h.once }

permissions-IsOwned :
    (s : Db) (rps : List RolePermission) → IsOwned s → IsOwned (record s { role_permissions = rps })
unfolding owner_count
permissions-IsOwned s rps h = record { owners = h.owners; once = h.once }

-- taking away assignments of another role
delete_other-IsOwned :
    (p : UserRole → Bool)
    → ((ur : UserRole) → p ur ≡ true → (ur.role_id == builtin_owner) ≡ false)
    → Preserves IsOwned (delete_assignments p)
unfolding delete_assignments owner_count
delete_other-IsOwned p other = Preserves-modify _ λ s h. record {
  owners = omega (
    arith,
    count-delete_other (λ ur. ur.role_id == builtin_owner) p other s.user_roles,
    h.owners,
  );
  once = λ pk. omega (arith, count-delete-le (is_owner pk) p s.user_roles, h.once pk);
}

-- taking away a role that is not built in
delete_ordinary-IsOwned :
    (id : String)
    → (id == builtin_owner || id == builtin_everyone) ≡ false
    → Preserves IsOwned (delete_assignments (λ ur. ur.role_id == id))
delete_ordinary-IsOwned id h = delete_other-IsOwned _ (λ ur e.
    ground (arith, eq_iff ur.role_id id, eq_iff ur.role_id builtin_owner, eq_iff id builtin_owner))

-- taking the role of owner from one of at least two
delete_owner-IsOwned :
    (pk : String) (s : Db)
    → leb (owner_count s) 1 ≡ false
    → PreservesAt IsOwned (delete_assignments (is_owner pk)) s
unfolding delete_assignments owner_count
delete_owner-IsOwned pk s many = modify_at _ s λ h. record {
  owners = ground (
    arith,
    count-delete_sub (λ ur. ur.role_id == builtin_owner) (is_owner pk) (λ ur e. ground arith)
        s.user_roles,
    h.once pk,
  );
  once =
      λ pk'. omega (arith, count-delete-le (is_owner pk') (is_owner pk) s.user_roles, h.once pk');
}

none_before :
    (pk pk' id : String) (rs : List UserRole)
    → exists_where (λ ur. ur.user_public_key == pk && ur.role_id == id) rs ≡ false
    → (pk == pk') ≡ true
    → (id == builtin_owner) ≡ true
    → count_where (is_owner pk') rs ≡ 0
none_before pk pk' id rs none_there e e' =
    count_of_none (is_owner pk') rs
      (rw ((eq_iff pk pk').0 e, (eq_iff id builtin_owner).0 e') at none_there)

insert_assignment-IsOwned :
    (now : ℤ) (pk id : String) → Preserves IsOwned (insert_assignment now pk id)
unfolding insert_assignment owner_count holds_role
insert_assignment-IsOwned now pk id = Preserves-of_at λ s. gets_then _ _ s (
    when_at _ _ s λ absent. gets_then _ _ s (
      refuse_then _ _ _ _ s λ _. modify_at _ s λ h. record {
        owners =
            omega
              (arith, count-insert (λ ur. ur.role_id == builtin_owner) _ s.user_roles, h.owners);
        once = λ pk'. ground (
          arith,
          count-insert (is_owner pk') (new_row) s.user_roles,
          h.once pk',
          none_before pk pk' id s.user_roles,
        );
      }))
  where
    new_row : UserRole
    new_row = record { user_public_key = pk; role_id = id; assigned_at = now }

insert_permission-IsOwned : (id p : String) → Preserves IsOwned (insert_permission id p)
unfolding insert_permission
insert_permission-IsOwned id p = search (preserves_rules, permissions-IsOwned)

module _ (by : String) (s : Db) where
  create_role-IsOwned :
      (now : ℤ) (id : String) (req : CreateRoleRequest)
      → Preserves IsOwned (create_role now id by req)
  unfolding create_role insert_role
  create_role-IsOwned now id req =
      search (preserves_rules, roles-IsOwned, insert_permission-IsOwned) depth 12

  update_role-IsOwned :
      (id : String) (req : UpdateRoleRequest) → Preserves IsOwned (update_role by id req)
  unfolding update_role require_not_builtin get_role set_priority set_role rename_role set_display
      replace_permissions delete_permissions
  update_role-IsOwned id req =
      search (preserves_rules, roles-IsOwned, permissions-IsOwned, insert_permission-IsOwned) depth
        14

  delete_role-IsOwned : (id : String) → PreservesAt IsOwned (delete_role by id) s
  unfolding delete_role require_not_builtin get_role delete_permissions
  delete_role-IsOwned id = refuse_then _ _ _ _ s λ ordinary. Preserves-at (
      search (preserves_rules, delete_ordinary-IsOwned, roles-IsOwned, permissions-IsOwned) depth
        12)

  assign_role-IsOwned : (now : ℤ) (pk id : String) → Preserves IsOwned (assign_role now by pk id)
  unfolding assign_role get_role
  assign_role-IsOwned now pk id = search (preserves_rules, insert_assignment-IsOwned) depth 12

  remove_role-IsOwned : (pk id : String) → PreservesAt IsOwned (remove_role by pk id) s
  unfolding remove_role keep_last_owner
  remove_role-IsOwned pk id = refuse_then _ _ _ _ s λ _. gets_then _ _ s (
      refuse_then _ _ _ _ s λ _. get_role_then id _ s λ role found. refuse_then _ _ _ _ s λ _.
        when_then _ _ _ s
          (λ e. assoc_then _ _ _ s (
            gets_then _ _ s (
              refuse_then _ _ _ _ s
                λ many. rw ((eq_iff id builtin_owner).0 e) (delete_owner-IsOwned pk s many))))
          (λ e. Preserves-at (
            delete_other-IsOwned _ (λ ur t. ground (
              arith,
              eq_iff ur.role_id id,
              eq_iff ur.role_id builtin_owner,
              eq_iff id builtin_owner,
            )))))

  role_op-IsOwned : (op : RoleOp) → IsOwned s → IsOwned (role_op by op s)
  unfolding role_op
  role_op-IsOwned (create now id req) h = (create_role-IsOwned now id req).at s h
  role_op-IsOwned (update id req) h = (update_role-IsOwned id req).at s h
  role_op-IsOwned (delete id) h = (delete_role-IsOwned id).at h
  role_op-IsOwned (assign now pk id) h = (assign_role-IsOwned now pk id).at s h
  role_op-IsOwned (remove pk id) h = (remove_role-IsOwned pk id).at h

-- From a database with an owner, in which nobody holds the role of owner twice, any requests about
-- roles by anybody, refused or not, leave such a database.
pub role_ops-IsOwned :
    (ops : List (String × RoleOp)) (db : Db) → IsOwned db → IsOwned (role_ops ops db)
unfolding role_ops
role_ops-IsOwned [] db h = h
role_ops-IsOwned ((by, op) ∷ ops) db h =
    role_ops-IsOwned ops (role_op by op db) (role_op-IsOwned by db op h)
