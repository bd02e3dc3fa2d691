-- ===== src/Auth.antt =====
-- hub/src/auth/handlers.rs: signing in. A client asks for a challenge, answers it with a signature, and
-- gets the token of a session.
pub mod Account
pub mod Challenge
pub mod Gates
pub mod Entry
pub mod Middleware
pub mod Replay
pub mod Kept
pub mod Admission
pub mod Owner
pub mod Frame
pub mod Bans
pub mod Session
pub mod FarmToken
use voxply_server.Common.{true, false, not, Option, none, some, List, String, ◌==◌, ℕ, Bool}
use voxply_server.Exec.{
  Exec, pure, gets, modify, refuse_if, when, unauthorized, forbidden, ◌>>=◌, ◌>>◌,
}
use voxply_server.Crypto.{verify_signature}
use voxply_server.Db.{Db}
use voxply_server.Moderation.{is_banned}
use voxply_server.Auth.Account.{
  Env, AppState, VerifyRequest, VerifyResponse, Identity, in_db, resolve_canonical_identity,
}
use voxply_server.Auth.Challenge.{check_challenge}
use voxply_server.Auth.Gates.{
  bot_gate, level_setting, require_security_level, require_pow, require_cert,
}
use voxply_server.Auth.Entry.{
  initial_approval, upsert_user, insert_session, require_invite, assign_first_roles,
  require_challenge_token, scope_of,
}

abbrev pub is_true : Option Bool → Bool
is_true none = false
is_true (some b) = b

-- bans follow the canonical identity
unfoldable pub refuse_banned : String → Exec Db (Unit {0})
refuse_banned key = do banned ← gets (is_banned key); refuse_if banned forbidden "User is banned"

-- what the settings ask for; the level that the hub wants is of use later
unfoldable pub gates : Env → VerifyRequest → Exec Db ℕ
gates env req = do
  min_level ← gets (level_setting 32 "min_security_level")
  require_security_level env.crypto min_level req
  require_pow env.crypto req
  require_cert env req
  pure min_level

-- the writes
unfoldable pub enter : Env → VerifyRequest → Identity → ℕ → Exec Db VerifyResponse
enter env req who min_level = do
  status ← gets initial_approval
  upsert_user env.now status who
  insert_session env.now env.token who.canonical
  require_invite env.now who.canonical req.invite_code
  assign_first_roles env.now who.canonical
  require_challenge_token env.now req
  scope ← gets (scope_of who.canonical min_level)
  pure (record { token = env.token; scope = scope })

unfoldable pub sign_in : Env → VerifyRequest → Exec Db VerifyResponse
sign_in env req = do
  who ← resolve_canonical_identity env.crypto req.public_key req.subkey_cert
  when (is_true req.is_bot) (bot_gate env.now who.canonical req.bot_meta)
  refuse_banned who.canonical
  min_level ← gates env req
  enter env req who min_level

unfoldable pub verify : Env → VerifyRequest → Exec AppState VerifyResponse
verify env req = do
  signed ← check_challenge env.crypto env.instant req
  refuse_if (not (verify_signature env.crypto req.public_key signed.0 signed.1)) unauthorized
      "Invalid signature"
  in_db (sign_in env req)

-- `user` is who the middleware found the request to come from
unfoldable pub renew : Env → String → VerifyRequest → Exec AppState VerifyResponse
renew env user req = do
  signed ← check_challenge env.crypto env.instant req
  refuse_if (not (req.public_key == user)) forbidden
      "Renew pubkey does not match authenticated identity"
  refuse_if (not (verify_signature env.crypto req.public_key signed.0 signed.1)) unauthorized
      "Invalid signature"
  in_db (insert_session env.now env.token user)
  pure (record { token = env.token; scope = "member" })
