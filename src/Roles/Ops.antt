-- ===== src/Roles/Ops.antt =====
-- The requests of roles.rs that change the database, as one type, and what a run of them leaves.
use voxply_server.Common.{List, [], ◌∷◌, String}
use voxply_server.Common.Int.{ℤ}
use voxply_server.Db.{Db}
use voxply_server.Roles.{
  CreateRoleRequest, UpdateRoleRequest, create_role, update_role, delete_role, assign_role,
  remove_role,
}

pub data RoleOp : Type 0 where
  create : ℤ → String → CreateRoleRequest → RoleOp
  update : String → UpdateRoleRequest → RoleOp
  delete : String → RoleOp
  assign : ℤ → String → String → RoleOp
  remove : String → String → RoleOp

-- the database after the request, whether it succeeded or not
unfoldable pub role_op : String → RoleOp → Db → Db
role_op user (create now id req) db = (create_role now id user req db).1
role_op user (update role_id req) db = (update_role user role_id req db).1
role_op user (delete role_id) db = (delete_role user role_id db).1
role_op user (assign now public_key role_id) db = (assign_role now user public_key role_id db).1
role_op user (remove public_key role_id) db = (remove_role user public_key role_id db).1

unfoldable pub role_ops : List (String × RoleOp) → Db → Db
role_ops [] db = db
role_ops ((user, op) ∷ ops) db = role_ops ops (role_op user op db)
