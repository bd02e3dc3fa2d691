-- ===== src/Permissions.antt =====
-- hub/src/permissions.rs: the roles of a user, what they permit, and the rank they give.
pub mod Rank
use voxply_server.Common.{Bool, not, ◌&&◌, ◌||◌, List, [], ◌∷◌, map, String, ◌==◌}
use Prim.Native.String.{◌++◌}
use voxply_server.Common.Int.{ℤ, pos, max_ℤ}
use voxply_server.Exec.{Exec, forbidden, refuse_if, gets}
use voxply_server.Sql.{exists_where, fetch_all}
use voxply_server.Db.{Db, RoleRow}

pub record UserPermissions : Type 0 where
  pub roles : List RoleRow
  pub effective : List String
  pub max_priority : ℤ

-- membership in the `HashSet`
unfoldable pub contains : String → List String → Bool
contains p = exists_where (λ q. q == p)

abbrev pub admin : String
admin = "admin"

unfoldable pub has : UserPermissions → String → Bool
has perms permission = contains admin perms.effective || contains permission perms.effective

abbrev pub require : UserPermissions → String → Exec Db (Unit {0})
require perms permission =
    refuse_if (not (has perms permission)) forbidden ("Missing permission: " ++ permission)

-- the rows of `user_roles` that give `role_id` to `user`
unfoldable pub holds_role : String → String → Db → Bool
holds_role user role_id db =
    exists_where (λ ur. ur.user_public_key == user && ur.role_id == role_id) db.user_roles

-- `roles INNER JOIN user_roles ... WHERE user_public_key = ?`; the join meets each role once, since
-- (user_public_key, role_id) is the primary key of `user_roles`
unfoldable pub roles_of : Db → String → List RoleRow
roles_of db user = fetch_all (λ r. holds_role user r.id db) db.roles

-- `SELECT DISTINCT permission ... WHERE role_id IN (...)`, as a set
unfoldable pub fetch_permissions : Db → List String → List String
unfolding contains
fetch_permissions db role_ids =
    map (λ rp. rp.permission) (fetch_all (λ rp. contains rp.role_id role_ids) db.role_permissions)

-- `roles.iter().map(|r| r.priority).max().unwrap_or(0)`
unfoldable pub highest : ℤ → List RoleRow → ℤ
highest p [] = p
highest p (r ∷ rs) = highest (max_ℤ p r.priority) rs

unfoldable pub max_priority : List RoleRow → ℤ
max_priority [] = pos 0
max_priority (r ∷ rs) = highest r.priority rs

unfoldable pub permissions_of : Db → String → UserPermissions
permissions_of db public_key =
    let roles = roles_of db public_key in
    record {
      roles = roles;
      effective = fetch_permissions db (map (λ r. r.id) roles);
      max_priority = max_priority roles;
    }

abbrev pub user_permissions : String → Exec Db UserPermissions
user_permissions public_key = gets (λ db. permissions_of db public_key)
