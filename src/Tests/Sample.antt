-- ===== src/Tests/Sample.antt =====
-- A small hub: alice owns it, bob moderates, carol is a member and dave has no role. The category
-- c1 holds the channel c2, which has a message and a webhook; c3 is a second category.
use voxply_server.Common.{ℕ, true, false, Option, none, some, [], ◌∷◌, String}
use voxply_server.Common.Int.{pos}
use voxply_server.Db.{Db, User, RoleRow, RolePermission, UserRole, ChannelRow}

abbrev pub user : String → User
user k = record {
  public_key = k;
  display_name = none;
  first_seen_at = pos 1;
  last_seen_at = pos 2;
  approval_status = "approved";
  master_pubkey = none;
  pow_level = 0;
  is_bot = false;
  lobby_status = "none";
  lobby_entered_at = none;
}

abbrev role : String → ℕ → RoleRow
role id p = record {
  id = id;
  name = id;
  priority = pos p;
  display_separately = false;
  created_at = pos 1;
}

abbrev grant : String → String → RolePermission
grant r p = record { role_id = r; permission = p }

abbrev holds : String → String → UserRole
holds k r = record { user_public_key = k; role_id = r; assigned_at = pos 3 }

abbrev pub channel : String → Option String → ℕ → ChannelRow
channel id parent order = record {
  id = id;
  name = id;
  created_by = "alice";
  parent_id = parent;
  is_category = true;
  display_order = pos order;
  description = none;
  icon = none;
  color = none;
  custom_icon_svg = none;
  created_at = pos 4;
  channel_type = "text";
  min_talk_power = pos 0;
}

abbrev pub c1 : ChannelRow
c1 = channel "c1" none 0

abbrev pub c2 : ChannelRow
c2 = record (channel "c2" (some "c1") 1) { is_category = false }

abbrev pub c3 : ChannelRow
c3 = channel "c3" none 2

abbrev pub hub : Db
hub = record {
  users = user "alice" ∷ user "bob" ∷ user "carol" ∷ user "dave" ∷ [];
  sessions =
      record { token = "t1"; public_key = "carol"; created_at = pos 5 }
      ∷ record { token = "t2"; public_key = "bob"; created_at = pos 5 }
      ∷ [];
  roles = role "builtin-owner" 1000 ∷ role "mod" 50 ∷ role "member" 10 ∷ role "helper" 20 ∷ [];
  role_permissions =
      grant "builtin-owner" "admin"
      ∷ grant "mod" "manage_roles"
      ∷ grant "mod" "ban_members"
      ∷ grant "mod" "mute_members"
      ∷ grant "mod" "timeout_members"
      ∷ [];
  user_roles = holds "alice" "builtin-owner" ∷ holds "bob" "mod" ∷ holds "carol" "member" ∷ [];
  bans = [];
  mutes = [];
  channel_bans = [];
  voice_mutes = [];
  channel_voice_mutes = [];
  raise_hand_requests = [];
  channel_settings = [];
  channels = c1 ∷ c2 ∷ c3 ∷ [];
  messages = record { id = "m1"; channel_id = "c2" } ∷ [];
  webhooks = record { id = "w1"; channel_id = "c2" } ∷ [];
  alliance_shared_channels = [];
  invites = [];
  hub_settings = record { key = "max_channel_depth"; value = "3" } ∷ [];
  friends = [];
  dm_outbox = [];
  subkey_certs = [];
  pairing_offers = [];
  dm_messages = [];
  conversations = [];
  conversation_members = [];
  bot_challenges = [];
  challenge_tokens = [];
  bot_tokens = [];
  bot_profiles = [];
  bot_commands = [];
  home_hub_designations = [];
  subkey_revocations = [];
  prefs_blobs = [];
  dm_blocks = [];
  recovery_settings = [];
  recovery_contacts = [];
  key_rotation_requests = [];
  rotation_attestations = [];
}
