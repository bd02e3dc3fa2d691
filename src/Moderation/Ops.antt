-- ===== src/Moderation/Ops.antt =====
-- The requests of moderation.rs against a user, as one type.
use voxply_server.Common.{Bool, ◌&&◌, not, Option, String, ℕ}
use voxply_server.Common.Int.{ℤ, geb_ℤ}
use voxply_server.Exec.{Exec, pure, ◌>>◌}
use voxply_server.Db.{Db}
use voxply_server.Permissions.{has, permissions_of}
use voxply_server.Moderation.{
  ban_members, mute_members, timeout_members, kick_members, ban_user, mute_user, timeout_user,
  kick_user,
}
use voxply_server.Moderation.Channel.{channel_ban, channel_ban_v2, voice_mute, channel_voice_mute}

pub data ModOp : Type 0 where
  ban mute kick voice : Option String → ModOp
  timeout : Option String → ℕ → ModOp
  channel : String → Option String → ModOp
  channel_v2 channel_voice : String → ModOp

-- the permission that each asks for
unfoldable pub permission : ModOp → String
permission (ban reason) = ban_members
permission (mute reason) = mute_members
permission (kick reason) = kick_members
permission (voice reason) = mute_members
permission (timeout reason d) = timeout_members
permission (channel id reason) = mute_members
permission (channel_v2 id) = ban_members
permission (channel_voice id) = mute_members

unfoldable pub moderate : ℤ → String → String → ModOp → Exec Db (Unit {0})
unfolding permission
moderate now user target (ban reason) = do ban_user now user target reason; pure tt
moderate now user target (mute reason) = do mute_user now user target reason; pure tt
moderate now user target (kick reason) = kick_user user target
moderate now user target (voice reason) = do voice_mute now user target reason; pure tt
moderate now user target (timeout reason d) = do timeout_user now user target reason d; pure tt
moderate now user target (channel id reason) = do channel_ban now user id target reason; pure tt
moderate now user target (channel_v2 id) = do channel_ban_v2 now user id target; pure tt
moderate now user target (channel_voice id) = do channel_voice_mute now user id target; pure tt

-- the actor has the permission and outranks the target
abbrev pub may_moderate : String → String → String → Db → Bool
may_moderate user target perm db =
    has (permissions_of db user) perm
    && not (geb_ℤ (permissions_of db target).max_priority (permissions_of db user).max_priority)
