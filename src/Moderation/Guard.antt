-- ===== src/Moderation/Guard.antt =====
-- Who may moderate whom.
use Prim.Native.String.{◌++◌}
use voxply_server.Common.{◌≡◌, Bool, false, String, arith, if◌then◌else◌}
use voxply_server.Common.Int.{ℤ}
use voxply_server.Exec.{err, forbidden, ◌>>=◌}
use voxply_server.Db.{Db}
use voxply_server.Permissions.{has, permissions_of}
use voxply_server.Moderation.{require_can_moderate, ban_user, mute_user, timeout_user, kick_user}
use voxply_server.Moderation.Channel.{channel_ban, channel_ban_v2, voice_mute, channel_voice_mute}
use voxply_server.Moderation.Ops.{ModOp, ban, permission, moderate, may_moderate}

-- what a refused actor is told
pub refusal : Bool → String → String
refusal permitted perm =
    if permitted
    then "Cannot moderate a user with equal or higher priority"
    else "Missing permission: " ++ perm

require_refuses :
    (user target perm : String) (db : Db)
    → may_moderate user target perm db ≡ false
    → require_can_moderate user target perm db
      ≡ (err forbidden (refusal (has (permissions_of db user) perm) perm), db)
unfolding require_can_moderate refusal ◌>>=◌
require_refuses user target perm db h = ground arith

-- An actor without the permission that a request asks for, or whose rank is not above the target's,
-- is refused with 403 and the matching message, and the database is left as it was.
pub moderate_refused :
    (now : ℤ) (user target : String) (op : ModOp) (db : Db)
    → may_moderate user target (permission op) db ≡ false
    → moderate now user target op db
      ≡ (err forbidden (refusal (has (permissions_of db user) (permission op)) (permission op)), db)
unfolding moderate ban_user mute_user timeout_user kick_user channel_ban channel_ban_v2 voice_mute
    channel_voice_mute ◌>>=◌
moderate_refused now user target (ban reason) db h = rw (require_refuses user target _ db h)
moderate_refused now user target op db h = rw (require_refuses user target _ db h)
