-- ===== src/Recovery/Decide.antt =====
-- hub/src/routes/recovery.rs: the part of the admins, who see the requests and decide on them.
use voxply_server.Common.{
  ℕ, Bool, not, ◌&&◌, ◌||◌, Option, none, some, List, [], ◌∷◌, map, String, ◌==◌, if◌then◌else◌,
}
use voxply_server.Common.Int.{ℤ}
use voxply_server.Exec.{Exec, gets, ok_or, modify, refuse_if, not_found, conflict, ◌>>=◌, ◌>>◌}
use voxply_server.Sql.{
  count_where, exists_where, fetch_optional, fetch_all, insert_row, order_by_desc,
}
use voxply_server.Permissions.{user_permissions, require, admin}
use voxply_server.Moderation.{end_sessions}
use voxply_server.Auth.Entry.{user_row}
use voxply_server.Db.{Db, UserRole, RotationRequest}
use voxply_server.Recovery.{PendingRequestAdmin, set_request}

-- ready for a decision or, as the code has it, not yet
unfoldable pub is_open : RotationRequest → Bool
is_open r = r.status == "ready_for_review" || r.status == "pending"

unfoldable pub attestation_count : String → Db → ℕ
attestation_count id db = count_where (λ a. a.request_id == id) db.rotation_attestations

unfoldable pub pending_request : Db → RotationRequest → PendingRequestAdmin
pending_request db r = record {
  id = r.id;
  old_pubkey = r.old_pubkey;
  new_pubkey = r.new_pubkey;
  reason = r.reason;
  status = r.status;
  created_at = r.created_at;
  attestation_count = attestation_count r.id db;
}

unfoldable pub admin_list_pending : String → Exec Db (List PendingRequestAdmin)
admin_list_pending user = do
  perms ← user_permissions user
  require perms admin
  gets (λ db.
      map (pending_request db)
        (order_by_desc (λ r. r.created_at) (fetch_all is_open db.key_rotation_requests)))

unfoldable pub find_request : String → Db → Option RotationRequest
find_request id db = fetch_optional (λ r. r.id == id) db.key_rotation_requests

unfoldable pub fetch_rotation_request : String → Exec Db RotationRequest
fetch_rotation_request id = do
  found ← gets (find_request id)
  ok_or not_found "Rotation request not found" found

-- `INSERT OR IGNORE INTO users`
unfoldable pub ensure_user : ℤ → String → Db → Db
ensure_user now key db = record db {
  users =
      if exists_where (λ u. u.public_key == key) db.users
      then db.users
      else insert_row (user_row now "approved" key none) db.users;
}

-- `INSERT OR IGNORE INTO user_roles ... SELECT` the roles of the old key, one row after the other
unfoldable pub copy_roles : ℤ → String → List UserRole → List UserRole → List UserRole
copy_roles now new [] rows = rows
copy_roles now new (ur ∷ urs) rows =
    let present = exists_where (λ x. x.user_public_key == new && x.role_id == ur.role_id) rows in
    let row : UserRole = record {
      user_public_key = new;
      role_id = ur.role_id;
      assigned_at = now;
    } in
    copy_roles now new urs (if present then rows else insert_row row rows)

unfoldable pub transfer_roles : ℤ → String → String → Db → Db
transfer_roles now old new db = record db {
  user_roles =
      copy_roles now new (fetch_all (λ ur. ur.user_public_key == old) db.user_roles) db.user_roles;
}

-- the columns that a decision sets
abbrev pub decided : ℤ → String → String → RotationRequest → RotationRequest
decided now user status r = record r {
  status = status;
  decided_at = some now;
  decided_by = some user;
}

unfoldable pub admin_approve : ℤ → String → String → Exec Db (Unit {0})
admin_approve now user id = do
  perms ← user_permissions user
  require perms admin
  row ← fetch_rotation_request id
  refuse_if (not (is_open row)) conflict "Request is not in an approvable state"
  modify (ensure_user now row.new_pubkey)
  modify (transfer_roles now row.old_pubkey row.new_pubkey)
  end_sessions row.old_pubkey
  set_request id (decided now user "approved")

unfoldable pub admin_deny : ℤ → String → String → Exec Db (Unit {0})
admin_deny now user id = do
  perms ← user_permissions user
  require perms admin
  row ← fetch_rotation_request id
  refuse_if (not (is_open row)) conflict "Request is not in a deniable state"
  set_request id (decided now user "rejected")
