-- ===== src/Auth/Gates.antt =====
-- hub/src/auth/handlers.rs, `verify`: what a hub may ask of an identity before it lets it in. The
-- settings are rows of `hub_settings`.
use voxply_server.Common.{
  ℕ, Bool, true, false, not, ◌&&◌, ◌||◌, ◌*◌, Option, none, some, List, [], String, ◌==◌, ltb, leb,
  if◌then◌else◌, unwrap_or, map_option,
}
use voxply_server.Common.Int.{ℤ, pos, sub_ℕ, ◌+ℤ◌, ltb_ℤ}
use voxply_server.Common.Text.{parse_bits}
use voxply_server.Exec.{
  Exec, gets, ok_or, modify, refuse_if, when, if_some, for_each, forbidden, bad_request,
  constrained, ◌>>=◌, ◌>>◌,
}
use voxply_server.Sql.{exists_where, fetch_optional, delete_where, update_where, insert_row}
use voxply_server.Crypto.{Crypto, verify_signature}
use voxply_server.Pow.{verify_security_level}
use voxply_server.Db.{Db, User, BotProfile, SubkeyCert}
use voxply_server.Auth.Account.{
  Env, VerifyRequest, BotMeta, BotCommandDef, PowProof, Certification, CertRequire, TrustedIssuer,
}

unfoldable pub setting : String → Db → Option String
setting key db = map_option (λ s. s.value) (fetch_optional (λ s. s.key == key) db.hub_settings)

unfoldable pub find_user : String → Db → Option User
find_user key db = fetch_optional (λ u. u.public_key == key) db.users

unfoldable pub set_user : String → (User → User) → Exec Db (Unit {0})
set_user key f =
    modify (λ db. record db { users = update_where (λ u. u.public_key == key) f db.users })

-- `INSERT INTO bot_profiles ... ON CONFLICT(pubkey) DO UPDATE` of every other column
unfoldable pub bot_profile : ℤ → String → BotMeta → BotProfile
bot_profile now key meta = record {
  pubkey = key;
  name = meta.name;
  avatar_url = meta.avatar_url;
  description = meta.description;
  webhook_url = meta.webhook_url;
  homepage_url = meta.homepage_url;
  capabilities = unwrap_or meta.capabilities [];
  updated_at = now;
}

unfoldable pub upsert_profile : BotProfile → Db → Db
upsert_profile p db = record db {
  bot_profiles =
      if exists_where (λ r. r.pubkey == p.pubkey) db.bot_profiles
      then update_where (λ r. r.pubkey == p.pubkey) (λ r. p) db.bot_profiles
      else insert_row p db.bot_profiles;
}

-- (pubkey, name) is the primary key of `bot_commands`
unfoldable pub insert_command : String → BotCommandDef → Exec Db (Unit {0})
insert_command key cmd =
    constrained (λ db. exists_where (λ c. c.pubkey == key && c.name == cmd.name) db.bot_commands)
      (λ db. record db {
        bot_commands =
            insert_row
              (record {
                pubkey = key;
                name = cmd.name;
                description = cmd.description;
                args = cmd.args;
                scope = unwrap_or cmd.scope "channel";
                privileged = unwrap_or cmd.privileged false;
                cooldown_seconds = unwrap_or cmd.cooldown_seconds (pos 3);
              })
              db.bot_commands;
      })

unfoldable pub replace_commands : String → List BotCommandDef → Exec Db (Unit {0})
replace_commands key cmds = do
  modify (λ db. record db { bot_commands = delete_where (λ c. c.pubkey == key) db.bot_commands })
  for_each (insert_command key) cmds

unfoldable pub write_bot_meta : ℤ → String → BotMeta → Exec Db (Unit {0})
write_bot_meta now key meta = do
  modify (upsert_profile (bot_profile now key meta))
  if_some meta.commands (replace_commands key)
  set_user key (λ u. record u { approval_status = "approved" })

-- the status of a user that is a bot and was invited
unfoldable pub is_invited : Option User → Bool
is_invited none = false
is_invited (some u) = u.approval_status == "bot_pending" || u.approval_status == "approved"

unfoldable pub find_bot : String → Db → Option User
find_bot key db = fetch_optional (λ u. u.public_key == key && u.is_bot) db.users

unfoldable pub bot_gate : ℤ → String → Option BotMeta → Exec Db (Unit {0})
bot_gate now key meta = do
  bot ← gets (find_bot key)
  refuse_if (not (is_invited bot)) forbidden "bot_not_invited"
  set_user key (λ u. record u { is_bot = true })
  if_some meta (write_bot_meta now key)

-- `parse().ok()` of a setting, or 0
unfoldable pub level_setting : ℕ → String → Db → ℕ
level_setting w key db = elim (setting key db) [ none ↦ 0 | some v ↦ unwrap_or (parse_bits w v) 0 ]

unfoldable pub require_security_level : Crypto → ℕ → VerifyRequest → Exec Db (Unit {0})
require_security_level crypto min_level req = when (ltb 0 min_level) (do
  refuse_if (ltb (unwrap_or req.security_level 0) min_level) forbidden
      "Security level is below minimum"
  refuse_if
      (not (
        verify_security_level crypto req.public_key (unwrap_or req.security_nonce 0)
          (unwrap_or req.security_level 0)))
      forbidden "Invalid security level proof")

unfoldable pub check_pow : Crypto → String → ℕ → PowProof → Exec Db (Unit {0})
check_pow crypto key min_pow_level proof = do
  refuse_if (ltb proof.level min_pow_level) forbidden "pow_required"
  nonce ← ok_or bad_request "Invalid pow_proof nonce" (parse_bits 64 proof.nonce)
  refuse_if (not (verify_security_level crypto key nonce proof.level)) forbidden "pow_required"

unfoldable pub require_pow : Crypto → VerifyRequest → Exec Db (Unit {0})
require_pow crypto req = do
  min_pow_level ← gets (level_setting 8 "min_pow_level")
  when (ltb 0 min_pow_level) (do
    proof ← ok_or forbidden "pow_required" req.pow_proof
    check_pow crypto req.public_key min_pow_level proof)

unfoldable pub enough_pow : Option ℕ → Option ℕ → Bool
enough_pow none level = true
enough_pow (some min) none = false
enough_pow (some min) (some level) = leb min level

unfoldable pub member_long_enough : ℤ → Option ℕ → ℤ → Bool
unfolding ◌+ℤ◌
member_long_enough now none since = true
member_long_enough now (some days) since = not (ltb_ℤ (now +ℤ sub_ℕ 0 (days * 86400)) since)

-- the signature of the issuer over the JSON of the payload
unfoldable pub signed_by_issuer : Env → Certification → Bool
signed_by_issuer env cert = elim (env.crypto.hex_decode cert.signature) [
  | none ↦ false
  | some sig ↦ elim (env.payload_json cert.payload) [
    | none ↦ false
    | some json ↦ verify_signature env.crypto cert.payload.issuer_pubkey (env.crypto.utf8 json) sig
  ]
]

unfoldable pub is_trusted : String → List TrustedIssuer → String → Bool
is_trusted mode issuers issuer =
    if mode == "any"
    then true
    else if mode == "trusted"
    then exists_where (λ ti. ti.pubkey == issuer) issuers
    else false

unfoldable pub certifies :
    Env → String → List TrustedIssuer → CertRequire → String → Certification → Bool
certifies env mode issuers rules master cert =
    cert.payload.subject_pubkey == master
    && not (ltb_ℤ cert.payload.expires_at env.now)
    && cert.payload.standing == "good"
    && signed_by_issuer env cert
    && enough_pow rules.min_pow_level cert.payload.pow_level
    && member_long_enough env.now rules.min_member_since_days cert.payload.member_since
    && is_trusted mode issuers cert.payload.issuer_pubkey

abbrev pub master_of_request : VerifyRequest → String
master_of_request req =
    unwrap_or (map_option (λ (c : SubkeyCert). c.master_pubkey) req.subkey_cert) req.public_key

unfoldable pub load_trusted_issuers : Env → Db → List TrustedIssuer
load_trusted_issuers env db =
    unwrap_or (env.read_trusted_issuers (unwrap_or (setting "cert_trusted_issuers" db) "[]")) []

unfoldable pub load_cert_require : Env → Db → CertRequire
load_cert_require env db =
    unwrap_or (env.read_cert_require (unwrap_or (setting "cert_require" db) "{}"))
      (record { min_pow_level = none; min_member_since_days = none })

unfoldable pub load_cert_mode : Db → String
load_cert_mode db = unwrap_or (setting "cert_mode" db) "none"

unfoldable pub require_cert : Env → VerifyRequest → Exec Db (Unit {0})
require_cert env req = do
  mode ← gets load_cert_mode
  issuers ← gets (load_trusted_issuers env)
  rules ← gets (load_cert_require env)
  refuse_if
      (not (mode == "none")
        && not (
            exists_where (certifies env mode issuers rules (master_of_request req))
              (unwrap_or req.certifications [])))
      forbidden "cert_required"
