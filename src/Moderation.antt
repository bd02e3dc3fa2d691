-- ===== src/Moderation.antt =====
-- hub/src/routes/moderation.rs, its hub-wide part: bans, mutes, timeouts and kicks, and the tests
-- that the rest of the hub makes of them. The clock is an argument. A response has the fields of the
-- row that was written. Left out: the audit events (`publish_hub_event`, a task of its own) and the
-- log lines.
pub mod Channel
pub mod Ops
pub mod Guard
pub mod Effects
use voxply_server.Common.{ℕ, Bool, true, not, ◌&&◌, Option, none, some, List, String, ◌==◌}
use voxply_server.Common.Int.{ℤ, geb_ℤ, ltb_ℤ, as_i64, add_i64}
use voxply_server.Exec.{Exec, pure, gets, modify, refuse_if, forbidden, constrained, ◌>>=◌, ◌>>◌}
use voxply_server.Sql.{exists_where, delete_where, insert_row, order_by_desc}
use voxply_server.Db.{Db, BanRow, MuteRow}
use voxply_server.Permissions.{user_permissions, require}

abbrev pub ban_members : String
ban_members = "ban_members"

abbrev pub mute_members : String
mute_members = "mute_members"

abbrev pub timeout_members : String
timeout_members = "timeout_members"

abbrev pub kick_members : String
kick_members = "kick_members"

unfoldable pub require_can_moderate : String → String → String → Exec Db (Unit {0})
require_can_moderate actor_key target_key permission = do
  actor_perms ← user_permissions actor_key
  require actor_perms permission
  target_perms ← user_permissions target_key
  refuse_if (geb_ℤ target_perms.max_priority actor_perms.max_priority) forbidden
      "Cannot moderate a user with equal or higher priority"

-- `REFERENCES users(public_key)`: the key must be that of a user
abbrev pub unknown_user : String → Db → Bool
unknown_user public_key db = not (exists_where (λ u. u.public_key == public_key) db.users)

-- `DELETE FROM sessions WHERE public_key = ?`
unfoldable pub end_sessions : String → Exec Db (Unit {0})
end_sessions public_key =
    modify
      (λ db. record db { sessions = delete_where (λ s. s.public_key == public_key) db.sessions })

-- `INSERT OR REPLACE INTO bans`
unfoldable pub write_ban : BanRow → Exec Db (Unit {0})
write_ban ban = constrained (unknown_user ban.target_public_key) (λ db. record db {
  bans = insert_row ban (delete_where (λ b. b.target_public_key == ban.target_public_key) db.bans);
})

unfoldable pub ban_user : ℤ → String → String → Option String → Exec Db BanRow
ban_user now user target reason = do
  require_can_moderate user target ban_members
  let ban : BanRow = record {
    target_public_key = target;
    banned_by = user;
    reason = reason;
    created_at = now;
  }
  write_ban ban
  end_sessions target
  pure ban

unfoldable pub unban_user : String → String → Exec Db (Unit {0})
unban_user user target_key = do
  perms ← user_permissions user
  require perms ban_members
  modify (λ db. record db { bans = delete_where (λ b. b.target_public_key == target_key) db.bans })

unfoldable pub list_bans : String → Exec Db (List BanRow)
list_bans user = do
  perms ← user_permissions user
  require perms ban_members
  gets (λ db. order_by_desc (λ b. b.created_at) db.bans)

-- `INSERT OR REPLACE INTO mutes`
unfoldable pub write_mute : MuteRow → Exec Db (Unit {0})
write_mute mute = constrained (unknown_user mute.target_public_key) (λ db. record db {
  mutes =
      insert_row mute (delete_where (λ m. m.target_public_key == mute.target_public_key) db.mutes);
})

unfoldable pub mute_user : ℤ → String → String → Option String → Exec Db MuteRow
mute_user now user target reason = do
  require_can_moderate user target mute_members
  let mute : MuteRow = record {
    target_public_key = target;
    muted_by = user;
    reason = reason;
    expires_at = none;
    created_at = now;
  }
  write_mute mute
  pure mute

unfoldable pub unmute_user : String → String → Exec Db (Unit {0})
unmute_user user target_key = do
  perms ← user_permissions user
  require perms mute_members
  modify
      (λ db. record db { mutes = delete_where (λ m. m.target_public_key == target_key) db.mutes })

unfoldable pub list_mutes : String → Exec Db (List MuteRow)
list_mutes user = do
  perms ← user_permissions user
  require perms mute_members
  gets (λ db. order_by_desc (λ m. m.created_at) db.mutes)

-- `duration_seconds` is a `u64`
unfoldable pub timeout_user : ℤ → String → String → Option String → ℕ → Exec Db MuteRow
timeout_user now user target reason duration_seconds = do
  require_can_moderate user target timeout_members
  let mute : MuteRow = record {
    target_public_key = target;
    muted_by = user;
    reason = reason;
    expires_at = some (add_i64 now (as_i64 duration_seconds));
    created_at = now;
  }
  write_mute mute
  pure mute

unfoldable pub kick_user : String → String → Exec Db (Unit {0})
kick_user user target = do require_can_moderate user target kick_members; end_sessions target

unfoldable pub is_banned : String → Db → Bool
is_banned public_key db = exists_where (λ b. b.target_public_key == public_key) db.bans

-- `expires_at IS NULL OR expires_at > ?`
unfoldable pub active : ℤ → Option ℤ → Bool
active now none = true
active now (some t) = ltb_ℤ now t

unfoldable pub is_muted : ℤ → String → Db → Bool
unfolding active
is_muted now public_key db =
    exists_where (λ m. m.target_public_key == public_key && active now m.expires_at) db.mutes
