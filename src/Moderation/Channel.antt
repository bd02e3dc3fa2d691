-- ===== src/Moderation/Channel.antt =====
-- hub/src/routes/moderation.rs, its part about channels and voice: channel bans (both generations of
-- routes), voice mutes, talk power and raised hands. `created_at`, `muted_at` and `requested_at` are
-- written as decimal text by some routes; the model keeps the number.
use voxply_server.Common.{Bool, not, ◌&&◌, ◌||◌, Option, none, some, List, String, ◌==◌}
use voxply_server.Common.Int.{ℤ, pos}
use voxply_server.Exec.{Exec, pure, gets, modify, when, constrained, ◌>>=◌, ◌>>◌}
use voxply_server.Sql.{
  exists_where, fetch_optional, fetch_all, delete_where, insert_row, order_by_desc,
}
use voxply_server.Db.{
  Db, ChannelBanRow, VoiceMuteRow, ChannelVoiceMuteRow, RaiseHandRow, ChannelSetting,
}
use voxply_server.Permissions.{user_permissions, require, admin}
use voxply_server.Moderation.{require_can_moderate, unknown_user, ban_members, mute_members}

abbrev pub unknown_channel : String → Db → Bool
unknown_channel channel_id db = not (exists_where (λ c. c.id == channel_id) db.channels)

abbrev is_ban_of : String → String → ChannelBanRow → Bool
is_ban_of channel_id target b = b.channel_id == channel_id && b.target_public_key == target

-- `INSERT OR REPLACE INTO channel_bans`
unfoldable pub write_channel_ban : ChannelBanRow → Exec Db (Unit {0})
write_channel_ban ban =
    constrained (λ db. unknown_channel ban.channel_id db || unknown_user ban.target_public_key db)
      (λ db. record db {
        channel_bans =
            insert_row ban
              (delete_where (is_ban_of ban.channel_id ban.target_public_key) db.channel_bans);
      })

unfoldable pub channel_ban : ℤ → String → String → String → Option String → Exec Db ChannelBanRow
channel_ban now user channel_id target reason = do
  require_can_moderate user target mute_members
  let ban : ChannelBanRow = record {
    channel_id = channel_id;
    target_public_key = target;
    banned_by = user;
    reason = reason;
    created_at = now;
  }
  write_channel_ban ban
  pure ban

unfoldable pub list_channel_bans : String → String → Exec Db (List ChannelBanRow)
list_channel_bans user channel_id = do
  perms ← user_permissions user
  require perms mute_members
  gets (λ db.
      order_by_desc (λ b. b.created_at)
        (fetch_all (λ b. b.channel_id == channel_id) db.channel_bans))

unfoldable pub delete_channel_ban : String → String → Exec Db (Unit {0})
delete_channel_ban channel_id target =
    modify (λ db. record db {
      channel_bans = delete_where (is_ban_of channel_id target) db.channel_bans;
    })

unfoldable pub channel_unban : String → String → String → Exec Db (Unit {0})
channel_unban user channel_id target_key = do
  perms ← user_permissions user
  require perms mute_members
  delete_channel_ban channel_id target_key

unfoldable pub channel_ban_v2 : ℤ → String → String → String → Exec Db ChannelBanRow
channel_ban_v2 now user channel_id pubkey = do
  require_can_moderate user pubkey ban_members
  let ban : ChannelBanRow = record {
    channel_id = channel_id;
    target_public_key = pubkey;
    banned_by = user;
    reason = none;
    created_at = now;
  }
  write_channel_ban ban
  pure ban

unfoldable pub channel_unban_v2 : String → String → String → Exec Db (Unit {0})
channel_unban_v2 user channel_id pubkey = do
  perms ← user_permissions user
  require perms ban_members
  delete_channel_ban channel_id pubkey

unfoldable pub list_channel_bans_v2 : String → String → Exec Db (List ChannelBanRow)
list_channel_bans_v2 user channel_id = do
  perms ← user_permissions user
  require perms ban_members
  gets (λ db.
      order_by_desc (λ b. b.created_at)
        (fetch_all (λ b. b.channel_id == channel_id) db.channel_bans))

-- `INSERT OR REPLACE INTO voice_mutes`
unfoldable pub voice_mute : ℤ → String → String → Option String → Exec Db VoiceMuteRow
voice_mute now user target reason = do
  require_can_moderate user target mute_members
  let mute : VoiceMuteRow = record {
    target_public_key = target;
    muted_by = user;
    reason = reason;
    created_at = now;
  }
  constrained (unknown_user target) (λ db. record db {
    voice_mutes =
        insert_row mute (delete_where (λ m. m.target_public_key == target) db.voice_mutes);
  })
  pure mute

unfoldable pub voice_unmute : String → String → Exec Db (Unit {0})
voice_unmute user target_key = do
  perms ← user_permissions user
  require perms mute_members
  modify (λ db. record db {
    voice_mutes = delete_where (λ m. m.target_public_key == target_key) db.voice_mutes;
  })

unfoldable pub list_voice_mutes : String → Exec Db (List VoiceMuteRow)
list_voice_mutes user = do
  perms ← user_permissions user
  require perms mute_members
  gets (λ db. order_by_desc (λ m. m.created_at) db.voice_mutes)

-- `INSERT ... ON CONFLICT(channel_id) DO UPDATE`
unfoldable pub set_talk_power : String → String → ℤ → Exec Db (Unit {0})
set_talk_power user channel_id min_talk_power = do
  perms ← user_permissions user
  require perms admin
  constrained (unknown_channel channel_id) (λ db. record db {
    channel_settings =
        insert_row (record { channel_id = channel_id; min_talk_power = min_talk_power })
          (delete_where (λ c. c.channel_id == channel_id) db.channel_settings);
  })

unfoldable pub power_of : Option ChannelSetting → ℤ
power_of none = pos 0
power_of (some c) = c.min_talk_power

unfoldable pub get_talk_power : String → Exec Db ℤ
get_talk_power channel_id =
    gets (λ db. power_of (fetch_optional (λ c. c.channel_id == channel_id) db.channel_settings))

abbrev is_mute_of : String → String → ChannelVoiceMuteRow → Bool
is_mute_of channel_id pubkey m = m.channel_id == channel_id && m.pubkey == pubkey

-- `channel_voice_mutes` and `raise_hand_requests` refer to no other table
unfoldable pub channel_voice_mute : ℤ → String → String → String → Exec Db ChannelVoiceMuteRow
channel_voice_mute now user channel_id pubkey = do
  require_can_moderate user pubkey mute_members
  let mute : ChannelVoiceMuteRow = record {
    channel_id = channel_id;
    pubkey = pubkey;
    muted_by = user;
    muted_at = now;
  }
  modify (λ db. record db {
    channel_voice_mutes =
        insert_row mute (delete_where (is_mute_of channel_id pubkey) db.channel_voice_mutes);
  })
  pure mute

unfoldable pub channel_voice_unmute : String → String → String → Exec Db (Unit {0})
channel_voice_unmute user channel_id pubkey = do
  perms ← user_permissions user
  require perms mute_members
  modify (λ db. record db {
    channel_voice_mutes = delete_where (is_mute_of channel_id pubkey) db.channel_voice_mutes;
  })

abbrev is_hand_of : String → String → RaiseHandRow → Bool
is_hand_of channel_id pubkey h = h.channel_id == channel_id && h.pubkey == pubkey

-- `id` is the primary key, and (channel_id, pubkey) is unique: a row that has either is replaced
unfoldable pub raise_hand : ℤ → String → String → String → Exec Db RaiseHandRow
raise_hand now id user channel_id = do
  let hand : RaiseHandRow = record {
    id = id;
    channel_id = channel_id;
    pubkey = user;
    requested_at = now;
  }
  modify (λ db. record db {
    raise_hand_requests =
        insert_row hand
          (delete_where (λ h. h.id == id || is_hand_of channel_id user h) db.raise_hand_requests);
  })
  pure hand

unfoldable pub require_mute_members : String → Exec Db (Unit {0})
require_mute_members user = do perms ← user_permissions user; require perms mute_members

unfoldable pub lower_hand : String → String → String → Exec Db (Unit {0})
lower_hand user channel_id pubkey = do
  when (not (pubkey == user)) (require_mute_members user)
  modify (λ db. record db {
    raise_hand_requests = delete_where (is_hand_of channel_id pubkey) db.raise_hand_requests;
  })

unfoldable pub is_channel_voice_muted : String → String → Db → Bool
is_channel_voice_muted channel_id pubkey db =
    exists_where (is_mute_of channel_id pubkey) db.channel_voice_mutes

unfoldable pub has_raised_hand : String → String → Db → Bool
has_raised_hand channel_id pubkey db =
    exists_where (is_hand_of channel_id pubkey) db.raise_hand_requests

unfoldable pub is_channel_banned : String → String → Db → Bool
is_channel_banned channel_id public_key db =
    exists_where (is_ban_of channel_id public_key) db.channel_bans

unfoldable pub is_voice_muted : String → Db → Bool
is_voice_muted public_key db = exists_where (λ m. m.target_public_key == public_key) db.voice_mutes
