-- ===== src/Farm.antt =====
-- farm/src/routes/auth.rs, revoke.rs and, in Farm/Token.antt, farm/src/token.rs: the sign-in at the farm
-- that runs the hubs, and its sessions. The tables are those of farm/src/db/migrations.rs. Random texts
-- and the clock are arguments.
pub mod Token
pub mod Accepted
use voxply_server.Common.{
  ℕ, ◌*◌, Bool, true, not, ◌||◌, Option, none, some, List, String, ◌==◌, is_some, if◌then◌else◌,
}
use voxply_server.Common.Int.{ℤ, pos, ◌+ℤ◌, ltb_ℤ}
use voxply_server.Common.Text.{strip_prefix}
use voxply_server.Exec.{
  Exec, pure, fail, gets, ok_or, modify, refuse_if, when, unauthorized, bad_request,
  internal_server_error, constrained, ◌>>=◌, ◌>>◌,
}
use voxply_server.Sql.{
  exists_where, fetch_optional, delete_where, update_where, insert_row, upsert_row,
}
use voxply_server.Crypto.{verify_signature}
use voxply_server.Farm.Token.{FarmKeys, TokenPayload, sign_token, verify_token}

pub record FarmUser : Type 0 where
  pub public_key : String
  pub master_pubkey : Option String
  pub first_seen_at : ℤ
  pub last_seen_at : ℤ

pub record FarmChallenge : Type 0 where
  pub public_key : String
  pub challenge_hex : String
  pub expires_at : ℤ

pub record FarmSession : Type 0 where
  pub jti : String
  pub public_key : String
  pub issued_at : ℤ
  pub expires_at : ℤ
  pub revoked_at : Option ℤ
  pub scope : String

pub record FarmDb : Type 0 where
  pub farm_users : List FarmUser
  pub pending_challenges : List FarmChallenge
  pub farm_sessions : List FarmSession

pub record FarmVerifyRequest : Type 0 where
  pub public_key : String
  pub signature : String
  pub scope : Option String

-- the clock and a fresh identifier
pub record Instant : Type 0 where
  pub now : ℤ
  pub jti : String

-- thirty days
abbrev pub session_ttl : ℕ
session_ttl = 30 * 24 * 60 * 60

unfoldable pub session_end : ℤ → ℤ
unfolding ◌+ℤ◌
session_end now = now +ℤ pos session_ttl

unfoldable pub minute_later : ℤ → ℤ
unfolding ◌+ℤ◌
minute_later now = now +ℤ pos 60

-- `challenge_hex` is the hex of 32 random bytes
unfoldable pub farm_challenge : ℤ → String → String → Exec FarmDb String
farm_challenge now challenge_hex public_key = do
  modify (λ db. record db {
    pending_challenges =
        upsert_row (λ c. c.public_key) (λ k c. record c { public_key = k })
          (record {
            public_key = public_key;
            challenge_hex = challenge_hex;
            expires_at = minute_later now;
          })
          db.pending_challenges;
  })
  pure challenge_hex

unfoldable pub find_pending : String → FarmDb → Option FarmChallenge
find_pending key db = fetch_optional (λ c. c.public_key == key) db.pending_challenges

unfoldable pub delete_pending : String → FarmDb → FarmDb
delete_pending key db = record db {
  pending_challenges = delete_where (λ c. c.public_key == key) db.pending_challenges;
}

unfoldable pub is_farm_user : String → FarmDb → Bool
is_farm_user key db = exists_where (λ u. u.public_key == key) db.farm_users

unfoldable pub seen : ℤ → String → FarmDb → FarmDb
seen now key db = record db {
  farm_users =
      if is_farm_user key db
      then update_where (λ u. u.public_key == key) (λ u. record u { last_seen_at = now })
          db.farm_users
      else insert_row
          (record {
            public_key = key;
            master_pubkey = none;
            first_seen_at = now;
            last_seen_at = now;
          })
          db.farm_users;
}

unfoldable pub find_farm_session : String → FarmDb → Option FarmSession
find_farm_session jti db = fetch_optional (λ s. s.jti == jti) db.farm_sessions

-- `jti` is the primary key, and the key must be that of a user of the farm
unfoldable pub insert_farm_session : Instant → String → String → Exec FarmDb (Unit {0})
insert_farm_session at key scope =
    constrained
      (λ db. exists_where (λ s. s.jti == at.jti) db.farm_sessions || not (is_farm_user key db))
      (λ db. record db {
        farm_sessions =
            insert_row
              (record {
                jti = at.jti;
                public_key = key;
                issued_at = at.now;
                expires_at = session_end at.now;
                revoked_at = none;
                scope = scope;
              })
              db.farm_sessions;
      })

abbrev pub normalise_scope : Option String → String
normalise_scope none = "member"
normalise_scope (some s) = if s == "lobby" then "lobby" else "member"

-- what the token says
unfoldable pub payload_for : FarmKeys → Instant → String → Option String → String → TokenPayload
payload_for farm at sub master scope = record {
  v = 1;
  iss = farm.farm_url;
  iss_pk = farm.public_key_hex;
  sub = sub;
  master = master;
  jti = at.jti;
  iat = at.now;
  exp = session_end at.now;
  scope = scope;
}

unfoldable pub check_pending : FarmKeys → ℤ → FarmVerifyRequest → Exec FarmDb (Unit {0})
check_pending farm now req = do
  found ← gets (find_pending req.public_key)
  pending ← ok_or unauthorized "No pending challenge for this key" found
  when (not (ltb_ℤ now pending.expires_at))
      (do modify (delete_pending req.public_key); fail unauthorized "Challenge expired")
  challenge_bytes ←
      ok_or internal_server_error "Bad challenge hex in DB"
        (farm.crypto.hex_decode pending.challenge_hex)
  sig_bytes ← ok_or bad_request "Invalid signature hex" (farm.crypto.hex_decode req.signature)
  refuse_if (not (verify_signature farm.crypto req.public_key challenge_bytes sig_bytes))
      unauthorized "Invalid signature"

-- the session and its token
unfoldable pub mint : FarmKeys → Instant → String → Option String → String → Exec FarmDb String
mint farm at sub master scope = do
  insert_farm_session at sub scope
  pure (sign_token farm (payload_for farm at sub master scope))

unfoldable pub farm_verify : FarmKeys → Instant → FarmVerifyRequest → Exec FarmDb String
farm_verify farm at req = do
  check_pending farm at.now req
  modify (delete_pending req.public_key)
  modify (seen at.now req.public_key)
  mint farm at req.public_key none (normalise_scope req.scope)

-- the header `authorization`
abbrev pub extract_bearer : Option String → Option String
extract_bearer none = none
extract_bearer (some header) = strip_prefix "Bearer " header

unfoldable pub farm_renew : FarmKeys → Instant → Option String → Exec FarmDb String
farm_renew farm at header = do
  token ← ok_or unauthorized "Missing or invalid Authorization header" (extract_bearer header)
  old ← verify_token farm at.now token
  mint farm at old.sub old.master old.scope

abbrev revoked : ℤ → Option FarmSession → Bool
revoked now none = true
revoked now (some s) = is_some s.revoked_at || not (ltb_ℤ now s.expires_at)

unfoldable pub revoke_check : ℤ → String → FarmDb → Bool
revoke_check now jti db = revoked now (find_farm_session jti db)
