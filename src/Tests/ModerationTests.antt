-- ===== src/Tests/ModerationTests.antt =====
-- The requests of moderation, on the sample hub.
use voxply_server.Common.{◌≡◌, refl, false, none, some, arith, ◌^◌, Option}
use voxply_server.Common.Int.{ℤ, pos, as_i64, add_i64}
use voxply_server.Exec.{ok, err, forbidden, ◌>>=◌}
use voxply_server.Sql.{fetch_all, exists_where}
use voxply_server.Db.{BanRow, MuteRow}
use voxply_server.Permissions.{
  permissions_of, has, contains, roles_of, holds_role, fetch_permissions, max_priority, highest,
}
use voxply_server.Moderation.{
  require_can_moderate, ban_user, write_ban, end_sessions, unban_user, timeout_user, mute_user,
  write_mute, is_muted,
}
use voxply_server.Moderation.Ops.{ban, permission, moderate, may_moderate}
use voxply_server.Moderation.Guard.{moderate_refused, refusal}
use voxply_server.Moderation.Effects.{timeout_user-too_long}
use voxply_server.Tests.Sample.{hub}

-- bob does not outrank alice
outranked : may_moderate "bob" "alice" (permission (ban none)) hub ≡ false
unfolding permission permissions_of has contains roles_of holds_role fetch_permissions max_priority
    highest fetch_all exists_where
outranked = refl

moderate_refused_example : moderate (pos 9) "bob" "alice" (ban none) hub ≡ (
  err forbidden
      (refusal (has (permissions_of hub "bob") (permission (ban none))) (permission (ban none))),
  hub,
)
moderate_refused_example = moderate_refused (pos 9) "bob" "alice" (ban none) hub outranked

abbrev ban_row : BanRow
ban_row = record {
  target_public_key = "carol";
  banned_by = "bob";
  reason = none;
  created_at = pos 9;
}

abbrev muted_until : Option ℤ → MuteRow
muted_until t = record {
  target_public_key = "carol";
  muted_by = "bob";
  reason = none;
  expires_at = t;
  created_at = pos 9;
}

banned : (ban_user (pos 9) "bob" "carol" none hub).0 ≡ ok ban_row
unfolding ban_user require_can_moderate write_ban end_sessions permissions_of has contains roles_of
    holds_role fetch_permissions max_priority highest fetch_all exists_where ◌>>=◌
banned = refl

muted : (mute_user (pos 9) "bob" "carol" none hub).0 ≡ ok (muted_until none)
unfolding mute_user require_can_moderate write_mute permissions_of has contains roles_of holds_role
    fetch_permissions max_priority highest fetch_all exists_where ◌>>=◌
muted = refl

timed_out : (timeout_user (pos 9) "bob" "carol" none 60 hub).0 ≡ ok (muted_until (some (pos 69)))
unfolding timeout_user require_can_moderate write_mute permissions_of has contains roles_of
    holds_role fetch_permissions max_priority highest fetch_all exists_where add_i64 ◌>>=◌
timed_out = refl

wrapped :
    (timeout_user (pos 9) "bob" "carol" none (2 ^ 63) hub).0
    ≡ ok (muted_until (some (add_i64 (pos 9) (as_i64 (2 ^ 63)))))
unfolding timeout_user require_can_moderate write_mute permissions_of has contains roles_of
    holds_role fetch_permissions max_priority highest fetch_all exists_where ◌>>=◌
wrapped = refl

timeout_user-too_long_example :
    is_muted (pos 10) "carol" (timeout_user (pos 9) "bob" "carol" none (2 ^ 63) hub).1 ≡ false
timeout_user-too_long_example =
    timeout_user-too_long 9 "bob" "carol" none (2 ^ 63) hub
      (muted_until (some (add_i64 (pos 9) (as_i64 (2 ^ 63))))) (omega arith) (omega arith)
      (omega arith) wrapped 10 (omega arith)

lifted : (unban_user "bob" "carol" hub).0 ≡ ok tt
unfolding unban_user permissions_of has contains roles_of holds_role fetch_permissions max_priority
    highest fetch_all exists_where ◌>>=◌
lifted = refl
