-- ===== src/Auth/Frame.antt =====
-- The tables that a sign-in writes, apart from the sessions.
use voxply_server.Common.{String, List, Option}
use voxply_server.Common.Int.{ℤ}
use voxply_server.Exec.Rules.{Preserves, preserves_rules}
use voxply_server.Db.{Db, User, BotProfile, BotCommand, InviteRow, UserRole, ChallengeToken}
use voxply_server.Roles.{insert_assignment}
use voxply_server.Invites.{validate_and_use_invite, refuse_expired, refuse_used_up}
use voxply_server.Auth.Account.{BotMeta, BotCommandDef, Identity}
use voxply_server.Auth.Gates.{
  bot_gate, write_bot_meta, upsert_profile, replace_commands, insert_command, set_user,
}
use voxply_server.Auth.Entry.{upsert_user, first_roles, make_owner, spend_token}
use voxply_server.Auth.Kept.{Keeps}

-- `P` does not depend on them.
pub record Frame (P : Db → Type 0) : Type 0 where
  pub users : (s : Db) (rows : List User) → P s → P (record s { users = rows })
  pub profiles : (s : Db) (rows : List BotProfile) → P s → P (record s { bot_profiles = rows })
  pub commands : (s : Db) (rows : List BotCommand) → P s → P (record s { bot_commands = rows })
  pub invites : (s : Db) (rows : List InviteRow) → P s → P (record s { invites = rows })
  pub roles : (s : Db) (rows : List UserRole) → P s → P (record s { user_roles = rows })
  pub tokens :
      (s : Db) (rows : List ChallengeToken) → P s → P (record s { challenge_tokens = rows })

module _ {P : Db → Type 0} (frame : Frame P) (now : ℤ) where
  insert_command-framed : (key : String) (c : BotCommandDef) → Preserves P (insert_command key c)
  unfolding insert_command
  insert_command-framed key c = search (preserves_rules, frame.commands) depth 12

  replace_commands-framed :
      (key : String) (cs : List BotCommandDef) → Preserves P (replace_commands key cs)
  unfolding replace_commands
  replace_commands-framed key cs =
      search (preserves_rules, insert_command-framed, frame.commands) depth 12

  write_bot_meta-framed :
      (key : String) (meta : BotMeta) → Preserves P (write_bot_meta now key meta)
  unfolding write_bot_meta upsert_profile set_user
  write_bot_meta-framed key meta =
      search (preserves_rules, replace_commands-framed, frame.profiles, frame.users) depth 12

  pub bot_gate-framed : (key : String) (meta : Option BotMeta) → Preserves P (bot_gate now key meta)
  unfolding bot_gate set_user
  bot_gate-framed key meta = search (preserves_rules, write_bot_meta-framed, frame.users) depth 12

  upsert_user-framed : (status : String) (who : Identity) → Preserves P (upsert_user now status who)
  unfolding upsert_user
  upsert_user-framed status who = search (preserves_rules, frame.users)

  invite-framed : (code : String) → Preserves P (validate_and_use_invite now code)
  unfolding validate_and_use_invite refuse_expired refuse_used_up
  invite-framed code = search (preserves_rules, frame.invites) depth 14

  make_owner-framed : (key : String) → Preserves P (make_owner now key)
  unfolding make_owner
  make_owner-framed key = search (preserves_rules, frame.roles) depth 12

  role-framed : (key role_id : String) → Preserves P (insert_assignment now key role_id)
  unfolding insert_assignment
  role-framed key role_id = search (preserves_rules, frame.roles) depth 12

  first_roles-framed : (key : String) → Preserves P (first_roles now key)
  unfolding first_roles
  first_roles-framed key = search (preserves_rules, make_owner-framed, role-framed) depth 12

  spend-framed : (key token : String) → Preserves P (spend_token now key token)
  unfolding spend_token
  spend-framed key token = search (preserves_rules, frame.tokens) depth 14

  pub framed : Keeps P now
  framed = record {
    bots = bot_gate-framed;
    user = upsert_user-framed;
    later = record { invite = invite-framed; roles = first_roles-framed; spend = spend-framed };
  }
