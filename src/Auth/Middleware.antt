-- ===== src/Auth/Middleware.antt =====
-- hub/src/auth/middleware.rs: who a request comes from. A token with a `.` is one that the farm signed,
-- any other is that of a session or of a bot. Base64, JSON and the request to the farm are parameters.
use voxply_server.Common.{
  Bool, not, ◌&&◌, Option, none, some, List, String, ◌==◌, is_some, if◌then◌else◌, ℕ, leb,
}
use voxply_server.Common.Text.{split_at_dot, strip_prefix}
use voxply_server.Common.Int.{ℤ, pos, ltb_ℤ, ◌+ℤ◌}
use voxply_server.Exec.{
  Exec, Reply, ok, err, pure, fail, gets, ok_or, modify, refuse_if, when, unauthorized, forbidden,
  ◌>>=◌, ◌>>◌,
}
use voxply_server.Sql.{exists_where, fetch_optional, update_where, insert_row}
use voxply_server.Crypto.{Crypto, verify_signature}
use voxply_server.Db.{Db, Session, User, BotToken}
use voxply_server.Roles.{builtin_everyone, insert_assignment, owner_count}
use voxply_server.Moderation.{is_banned}
use voxply_server.Auth.Account.{AppState, in_db}
use voxply_server.Auth.Gates.{find_user}
use voxply_server.Auth.Entry.{has_roles, user_row, make_owner}

pub record FarmTokenPayload : Type 0 where
  pub exp : ℤ
  pub iss_pk : String
  pub sub : String

-- what a request takes from outside; `farm_info` is the key that the farm at a URL answers with
pub record Caller : Type 0 where
  pub crypto : Crypto
  pub b64_decode : String → Option (List ℕ)
  pub read_payload : List ℕ → Option FarmTokenPayload
  pub farm_info : String → Option String
  pub now : ℤ
  pub path : String

unfoldable pub check_farm_token : Caller → String → String → Exec (Unit {0}) String
check_farm_token caller farm_pubkey token = do
  parts ← ok_or unauthorized "Malformed farm token" (split_at_dot token)
  payload_bytes ← ok_or unauthorized "Invalid farm token encoding" (caller.b64_decode parts.0)
  sig_bytes ← ok_or unauthorized "Invalid farm token signature encoding" (caller.b64_decode parts.1)
  refuse_if (not (verify_signature caller.crypto farm_pubkey payload_bytes sig_bytes)) unauthorized
      "Invalid farm token signature"
  payload ← ok_or unauthorized "Malformed farm token payload" (caller.read_payload payload_bytes)
  refuse_if (not (ltb_ℤ caller.now payload.exp)) unauthorized "Farm token has expired"
  refuse_if (not (payload.iss_pk == farm_pubkey)) unauthorized
      "Farm token iss_pk does not match cached farm pubkey"
  pure payload.sub

unfoldable pub try_verify_farm_token : Caller → String → String → Reply String
try_verify_farm_token caller farm_pubkey token = (check_farm_token caller farm_pubkey token tt).0

abbrev pub farm_refetch_cooldown : ℕ
farm_refetch_cooldown = 60

-- the answer of a second attempt, where the first one was refused
unfoldable pub or_first : Reply String → Reply String → Exec AppState String
or_first (ok sub) first = pure sub
or_first (err c m) (ok sub) = pure sub
or_first (err c m) (err c' m') = fail c' m'

-- the farm's key may have changed: fetch it again, once in sixty seconds
unfoldable pub refetch : Caller → String → Reply String → Exec AppState String
refetch caller token (ok sub) = pure sub
refetch caller token (err c m) = do
  last ← gets (λ s. s.last_farm_pubkey_fetch)
  refuse_if (not (ltb_ℤ (last +ℤ pos farm_refetch_cooldown) caller.now)) c m
  configured ← gets (λ s. s.farm_url)
  url ← ok_or c m configured
  modify (λ s. record s { last_farm_pubkey_fetch = caller.now })
  key ← ok_or c m (caller.farm_info url)
  modify (λ s. record s { cached_farm_pubkey = some key })
  or_first (try_verify_farm_token caller key token) (err c m)

unfoldable pub farm_user : Caller → String → Exec AppState String
farm_user caller token = do
  cached ← gets (λ s. s.cached_farm_pubkey)
  key ← ok_or unauthorized "no_farm_configured" cached
  refetch caller token (try_verify_farm_token caller key token)

unfoldable pub find_session : String → Db → Option Session
find_session token db = fetch_optional (λ s. s.token == token) db.sessions

-- the key that a token stands for, and the status of its user
abbrev joined : Session → Option User → Option (String × String)
joined s none = none
joined s (some u) = some (s.public_key, u.approval_status)

unfoldable pub session_user : String → Db → Option (String × String)
session_user token db = elim (find_session token db) [
  | none ↦ none
  | some s ↦ joined s (find_user s.public_key db)
]

unfoldable pub find_bot_token : String → Db → Option BotToken
find_bot_token token db = fetch_optional (λ b. b.token == token) db.bot_tokens

abbrev or_bot : Option (String × String) → Option BotToken → Option (String × String)
or_bot (some r) bot = some r
or_bot none none = none
or_bot none (some b) = some (b.public_key, "approved")

unfoldable pub token_user : String → Db → Option (String × String)
token_user token db = or_bot (session_user token db) (find_bot_token token db)

unfoldable pub is_revoked : String → Db → Bool
is_revoked key db = exists_where (λ r. r.subkey_pubkey == key) db.subkey_revocations

abbrev pub pending_allowed_path : String
pending_allowed_path = "/me"

unfoldable pub refuse_pending : {S : Type 0} → String → String → Exec S (Unit {0})
refuse_pending path status =
    refuse_if (status == "pending" && not (path == pending_allowed_path)) forbidden
      "Account is pending admin approval"

unfoldable pub hub_user : Caller → String → Exec Db String
hub_user caller token = do
  found ← gets (token_user token)
  row ← ok_or unauthorized "Invalid or expired token" found
  revoked ← gets (is_revoked row.0)
  refuse_if revoked unauthorized "Key has been revoked"
  refuse_pending caller.path row.1
  pure row.0

-- `let _ = statement`: what it refuses is not looked at
unfoldable pub ignore : {S : Type 0} → Exec S (Unit {0}) → Exec S (Unit {0})
ignore m s = (ok tt, (m s).1)

-- the row of a user that comes with a farm token, on the first visit and on later ones
unfoldable pub lazy_upsert : ℤ → String → Db → Db
lazy_upsert now key db = record db {
  users =
      if exists_where (λ u. u.public_key == key) db.users
      then update_where (λ u. u.public_key == key) (λ u. record u { last_seen_at = now }) db.users
      else insert_row (user_row now "approved" key none) db.users;
}

unfoldable pub farm_roles : ℤ → String → Exec Db (Unit {0})
farm_roles now key = do
  owners ← gets owner_count
  when (leb owners 0) (ignore (make_owner now key))
  ignore (insert_assignment now key builtin_everyone)

unfoldable pub approval_of : String → Db → String
approval_of key db = elim (find_user key db) [ none ↦ "approved" | some u ↦ u.approval_status ]

unfoldable pub admit_farm_user : Caller → String → Exec Db (Unit {0})
admit_farm_user caller key = do
  modify (lazy_upsert caller.now key)
  known ← gets (has_roles key)
  when (not known) (farm_roles caller.now key)
  banned ← gets (is_banned key)
  refuse_if banned forbidden "User is banned"
  status ← gets (approval_of key)
  refuse_pending caller.path status

unfoldable pub with_farm_token : Caller → String → Exec AppState String
with_farm_token caller token = do
  key ← farm_user caller token
  in_db (admit_farm_user caller key)
  pure key

unfoldable pub with_token : Caller → String → Exec AppState String
with_token caller token =
    if is_some (split_at_dot token)
    then with_farm_token caller token
    else in_db (hub_user caller token)

-- `header` is that of the name `authorization`
unfoldable pub from_request_parts : Caller → Option String → Exec AppState String
from_request_parts caller header = do
  given ← ok_or unauthorized "Missing Authorization header" header
  token ← ok_or unauthorized "Invalid Authorization format" (strip_prefix "Bearer " given)
  with_token caller token
