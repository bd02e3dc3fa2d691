-- ===== src/Lobby.antt =====
-- hub/src/routes/lobby.rs: the waiting room of a hub that asks for a proof of work.
pub mod Level
use voxply_server.Common.{
  ℕ, Bool, not, ◌&&◌, ◌||◌, Option, none, some, String, ◌==◌, ltb, leb, if◌then◌else◌, unwrap_or,
  or_else,
}
use voxply_server.Common.Int.{ℤ}
use voxply_server.Common.Text.{split_at_colon, parse_bits}
use voxply_server.Exec.{Exec, pure, gets, ok_or, refuse_if, if_some, bad_request, ◌>>=◌, ◌>>◌}
use voxply_server.Crypto.{Crypto}
use voxply_server.Pow.{verify_security_level}
use voxply_server.Permissions.{user_permissions, require, admin}
use voxply_server.Db.{Db, User}
use voxply_server.Auth.Gates.{setting, find_user, set_user, level_setting}
use voxply_server.Auth.Entry.{pow_level_of}
use voxply_server.BotCheck.{upsert_setting}

pub record LobbyStatusResponse : Type 0 where
  pub status : String
  pub required_level : ℕ
  pub current_level : ℕ
  pub entered_at : Option ℤ
  pub welcome_md : Option String

pub record SubmitPowResponse : Type 0 where
  pub promoted : Bool
  pub new_level : ℕ

pub record LobbyWelcomeResponse : Type 0 where
  pub welcome_md : String
  pub hub_name : String
  pub required_level : ℕ

abbrev pub lobby_status_of : Option User → String
lobby_status_of none = "none"
lobby_status_of (some u) = u.lobby_status

abbrev pub entered_at_of : Option User → Option ℤ
entered_at_of none = none
entered_at_of (some u) = u.lobby_entered_at

unfoldable pub effective_status : String → ℕ → ℕ → String
effective_status lobby_status current_level min_level =
    if lobby_status == "promoted" || leb min_level current_level || leb min_level 0
    then "member"
    else if lobby_status == "lobby"
    then "lobby"
    else if leb min_level 0
    then "member"
    else lobby_status

unfoldable pub status_response : String → Db → LobbyStatusResponse
status_response user db =
    let min_level = level_setting 32 "min_security_level" db in
    let row = find_user user db in
    record {
      status = effective_status (lobby_status_of row) (pow_level_of user db) min_level;
      required_level = min_level;
      current_level = pow_level_of user db;
      entered_at = entered_at_of row;
      welcome_md = setting "lobby_welcome_md" db;
    }

unfoldable pub lobby_status : String → Exec Db LobbyStatusResponse
lobby_status user = gets (status_response user)

-- `max` of two `u32`
abbrev pub max_ℕ : ℕ → ℕ → ℕ
max_ℕ a b = if ltb a b then b else a

-- the columns that a proof sets
unfoldable pub promoted_user : ℤ → ℕ → String → User → User
promoted_user now level status u = record u {
  pow_level = level;
  lobby_status = status;
  lobby_entered_at = or_else u.lobby_entered_at (some now);
}

unfoldable pub submit_pow : Crypto → ℤ → String → String → Exec Db SubmitPowResponse
submit_pow crypto now user pow_proof = do
  min_level ← gets (level_setting 32 "min_security_level")
  parts ←
      ok_or bad_request "Invalid pow_proof format; expected nonce:level" (split_at_colon pow_proof)
  nonce ← ok_or bad_request "Invalid nonce" (parse_bits 64 parts.0)
  claimed_level ← ok_or bad_request "Invalid level" (parse_bits 32 parts.1)
  refuse_if (not (verify_security_level crypto user nonce claimed_level)) bad_request
      "Invalid proof of work"
  current_pow ← gets (pow_level_of user)
  let new_level : ℕ = max_ℕ current_pow claimed_level
  let promoted : Bool = leb min_level new_level && ltb 0 min_level
  set_user user (promoted_user now new_level (if promoted then "promoted" else "lobby"))
  pure (record { promoted = promoted; new_level = new_level })

-- `name` is the hub's own, where no setting has another
unfoldable pub get_welcome : String → String → Exec Db LobbyWelcomeResponse
get_welcome name user = gets (λ db. record {
  welcome_md = unwrap_or (setting "lobby_welcome_md" db) "";
  hub_name = unwrap_or (setting "hub_name" db) name;
  required_level = level_setting 32 "min_security_level" db;
})

unfoldable pub update_lobby_settings : String → Bool → Option String → Exec Db (Unit {0})
update_lobby_settings user lobby_enabled welcome_md = do
  perms ← user_permissions user
  require perms admin
  upsert_setting "lobby_enabled" (if lobby_enabled then "1" else "0")
  if_some welcome_md (upsert_setting "lobby_welcome_md")
