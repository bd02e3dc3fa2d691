-- ===== src/Roles.antt =====
-- hub/src/routes/roles.rs and role_models.rs: the administration of roles. The clock and the fresh
-- identifier (`unix_timestamp`, `Uuid::new_v4`) are arguments.
pub mod Ops
pub mod Rank
pub mod Owner
use voxply_server.Common.{
  ℕ, Bool, true, false, not, ◌&&◌, ◌||◌, Option, none, some, List, [], ◌∷◌, map, String, ◌==◌, leb,
}
use Prim.Native.String.{◌++◌}
use voxply_server.Common.Int.{ℤ, geb_ℤ}
use voxply_server.Exec.{
  Exec, Reply, pure, gets, ok_or, modify, refuse_if, when, if_some, for_each, forbidden, not_found,
  conflict, constrained, ◌>>=◌, ◌>>◌,
}
use voxply_server.Sql.{
  count_where, exists_where, fetch_optional, fetch_all, delete_where, update_where, insert_row,
  order_by_desc,
}
use voxply_server.Db.{Db, RoleRow, RolePermission, UserRole}
use voxply_server.Permissions.{user_permissions, require, roles_of, holds_role}

abbrev pub manage_roles : String
manage_roles = "manage_roles"

abbrev pub builtin_owner : String
builtin_owner = "builtin-owner"

abbrev pub builtin_everyone : String
builtin_everyone = "builtin-everyone"

pub record RoleResponse : Type 0 where
  pub id : String
  pub name : String
  pub permissions : List String
  pub priority : ℤ
  pub display_separately : Bool
  pub created_at : ℤ

pub record CreateRoleRequest : Type 0 where
  pub name : String
  pub permissions : List String
  pub priority : ℤ
  pub display_separately : Bool

pub record UpdateRoleRequest : Type 0 where
  pub name : Option String
  pub permissions : Option (List String)
  pub priority : Option ℤ
  pub display_separately : Option Bool

unfoldable pub require_not_builtin : String → Exec Db (Unit {0})
require_not_builtin role_id =
    refuse_if (role_id == builtin_owner || role_id == builtin_everyone) forbidden
      "Cannot modify built-in roles"

unfoldable pub find_role : String → Db → Option RoleRow
find_role role_id db = fetch_optional (λ r. r.id == role_id) db.roles

unfoldable pub get_role : String → Exec Db RoleRow
get_role role_id = do row ← gets (find_role role_id); ok_or not_found "Role not found" row

unfoldable pub role_permissions : String → Db → List String
role_permissions role_id db =
    map (λ rp. rp.permission) (fetch_all (λ rp. rp.role_id == role_id) db.role_permissions)

unfoldable pub respond : Db → RoleRow → RoleResponse
respond db role = record {
  id = role.id;
  name = role.name;
  permissions = role_permissions role.id db;
  priority = role.priority;
  display_separately = role.display_separately;
  created_at = role.created_at;
}

unfoldable pub list_roles : String → Exec Db (List RoleResponse)
unfolding respond
list_roles user = gets (λ db. map (respond db) (order_by_desc (λ r. r.priority) db.roles))

-- `INSERT INTO role_permissions`: the role must exist, and (role_id, permission) is the primary key
unfoldable pub insert_permission : String → String → Exec Db (Unit {0})
insert_permission role_id perm =
    constrained
      (λ db.
        not (exists_where (λ r. r.id == role_id) db.roles)
        || exists_where (λ rp. rp.role_id == role_id && rp.permission == perm) db.role_permissions)
      (λ db. record db {
        role_permissions =
            insert_row (record { role_id = role_id; permission = perm }) db.role_permissions;
      })

-- `id` is the primary key of `roles`, and `name` is unique
unfoldable pub insert_role : RoleRow → Exec Db (Unit {0})
insert_role role = do
  taken ← gets (λ db. exists_where (λ r. r.id == role.id || r.name == role.name) db.roles)
  refuse_if taken conflict ("Role '" ++ (role.name ++ "' already exists"))
  modify (λ db. record db { roles = insert_row role db.roles })

unfoldable pub create_role : ℤ → String → String → CreateRoleRequest → Exec Db RoleResponse
create_role now id user req = do
  perms ← user_permissions user
  require perms manage_roles
  refuse_if (geb_ℤ req.priority perms.max_priority) forbidden
      "Cannot create role with priority >= your own"
  insert_role (record {
    id = id;
    name = req.name;
    priority = req.priority;
    display_separately = req.display_separately;
    created_at = now;
  })
  for_each (insert_permission id) req.permissions
  pure (record {
    id = id;
    name = req.name;
    permissions = req.permissions;
    priority = req.priority;
    display_separately = req.display_separately;
    created_at = now;
  })

-- `UPDATE roles SET ... WHERE id = ?`
unfoldable pub set_role : String → (RoleRow → RoleRow) → Exec Db (Unit {0})
set_role role_id f =
    modify (λ db. record db { roles = update_where (λ r. r.id == role_id) f db.roles })

-- the new name must not be that of another role
unfoldable pub rename_role : String → String → Exec Db (Unit {0})
rename_role role_id name =
    constrained
      (λ db.
        exists_where (λ r. r.id == role_id) db.roles
        && exists_where (λ r. not (r.id == role_id) && r.name == name) db.roles)
      (λ db. record db {
        roles = update_where (λ r. r.id == role_id) (λ r. record r { name = name }) db.roles;
      })

unfoldable pub delete_permissions : String → Exec Db (Unit {0})
delete_permissions role_id = modify (λ db. record db {
  role_permissions = delete_where (λ rp. rp.role_id == role_id) db.role_permissions;
})

unfoldable pub replace_permissions : String → List String → Exec Db (Unit {0})
replace_permissions role_id new_perms = do
  delete_permissions role_id
  for_each (insert_permission role_id) new_perms

-- the block under `if let Some(new_priority) = req.priority`
unfoldable pub set_priority : ℤ → String → ℤ → Exec Db (Unit {0})
set_priority own role_id new_priority = do
  refuse_if (geb_ℤ new_priority own) forbidden "Cannot set priority >= your own"
  set_role role_id (λ r. record r { priority = new_priority })

unfoldable pub set_display : String → Bool → Exec Db (Unit {0})
set_display role_id flag = set_role role_id (λ r. record r { display_separately = flag })

unfoldable pub update_role : String → String → UpdateRoleRequest → Exec Db RoleResponse
update_role user role_id req = do
  require_not_builtin role_id
  perms ← user_permissions user
  require perms manage_roles
  existing ← get_role role_id
  refuse_if (geb_ℤ existing.priority perms.max_priority) forbidden
      "Cannot modify role with priority >= your own"
  if_some req.priority (set_priority perms.max_priority role_id)
  if_some req.name (rename_role role_id)
  if_some req.permissions (replace_permissions role_id)
  if_some req.display_separately (set_display role_id)
  updated ← get_role role_id
  gets (λ db. respond db updated)

unfoldable pub delete_assignments : (UserRole → Bool) → Exec Db (Unit {0})
delete_assignments p = modify (λ db. record db { user_roles = delete_where p db.user_roles })

unfoldable pub delete_role : String → String → Exec Db (Unit {0})
delete_role user role_id = do
  require_not_builtin role_id
  perms ← user_permissions user
  require perms manage_roles
  existing ← get_role role_id
  refuse_if (geb_ℤ existing.priority perms.max_priority) forbidden
      "Cannot delete role with priority >= your own"
  delete_assignments (λ ur. ur.role_id == role_id)
  delete_permissions role_id
  modify (λ db. record db { roles = delete_where (λ r. r.id == role_id) db.roles })

-- `INSERT OR IGNORE INTO user_roles`: a pair that is there is left alone, and a user or a role that
-- does not exist is refused
unfoldable pub insert_assignment : ℤ → String → String → Exec Db (Unit {0})
insert_assignment now public_key role_id = do
  present ← gets (holds_role public_key role_id)
  when (not present) (
      constrained
        (λ db.
          not (exists_where (λ u. u.public_key == public_key) db.users)
          || not (exists_where (λ r. r.id == role_id) db.roles))
        (λ db. record db {
          user_roles =
              insert_row
                (record { user_public_key = public_key; role_id = role_id; assigned_at = now })
                db.user_roles;
        }))

unfoldable pub assign_role : ℤ → String → String → String → Exec Db (Unit {0})
assign_role now user public_key role_id = do
  perms ← user_permissions user
  require perms manage_roles
  role ← get_role role_id
  refuse_if (geb_ℤ role.priority perms.max_priority) forbidden
      "Cannot assign role with priority >= your own"
  insert_assignment now public_key role_id

unfoldable pub owner_count : Db → ℕ
owner_count db = count_where (λ ur. ur.role_id == builtin_owner) db.user_roles

unfoldable pub keep_last_owner : Exec Db (Unit {0})
keep_last_owner = do
  owners ← gets owner_count
  refuse_if (leb owners 1) forbidden "Cannot remove the last owner"

unfoldable pub remove_role : String → String → String → Exec Db (Unit {0})
remove_role user public_key role_id = do
  refuse_if (role_id == builtin_everyone) forbidden "Cannot remove @everyone role"
  perms ← user_permissions user
  require perms manage_roles
  role ← get_role role_id
  refuse_if (geb_ℤ role.priority perms.max_priority) forbidden
      "Cannot remove role with priority >= your own"
  when (role_id == builtin_owner) keep_last_owner
  delete_assignments (λ ur. ur.user_public_key == public_key && ur.role_id == role_id)

unfoldable pub get_user_roles : String → String → Exec Db (List RoleResponse)
get_user_roles user public_key =
    gets (λ db. map (respond db) (order_by_desc (λ r. r.priority) (roles_of db public_key)))

unfoldable pub list_role_members : String → String → Exec Db (List String)
list_role_members user role_id = do
  perms ← user_permissions user
  require perms manage_roles
  gets
      (λ db. map (λ ur. ur.user_public_key) (fetch_all (λ ur. ur.role_id == role_id) db.user_roles))
