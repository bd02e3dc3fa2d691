-- ===== src/Auth/Account.antt =====
-- hub/src/auth/handlers.rs and models.rs: the requests of sign-in, and what they are answered from: the
-- shared state of the hub (hub/src/state.rs) as far as sign-in uses it, and what comes from outside.
use voxply_server.Common.{ℕ, Bool, not, ◌&&◌, Option, none, some, List, String, ◌==◌, is_none}
use voxply_server.Common.Int.{ℤ}
use voxply_server.Crypto.{Crypto}
use voxply_server.Exec.{Exec, pure, gets, refuse_if, unauthorized, ◌>>=◌, ◌>>◌}
use voxply_server.Sql.{fetch_optional}
use voxply_server.Db.{Db, SubkeyCert, User}
use voxply_server.Pairing.{verify_cert}

pub record CertPayload : Type 0 where
  pub subject_kind : String
  pub issuer_pubkey : String
  pub issuer_url : String
  pub subject_pubkey : String
  pub member_since : ℤ
  pub standing : String
  pub pow_level : Option ℕ
  pub issued_at : ℤ
  pub expires_at : ℤ
  pub capabilities : List String

pub record Certification : Type 0 where
  pub payload : CertPayload
  pub signature : String

pub record TrustedIssuer : Type 0 where
  pub pubkey : String
  pub url : String
  pub label : String

pub record CertRequire : Type 0 where
  pub min_pow_level : Option ℕ
  pub min_member_since_days : Option ℕ

pub record PowProof : Type 0 where
  pub level : ℕ
  pub nonce : String

pub record BotCommandDef : Type 0 where
  pub name : String
  pub description : String
  pub args : Option String
  pub scope : Option String
  pub privileged : Option Bool
  pub cooldown_seconds : Option ℤ

pub record BotMeta : Type 0 where
  pub name : String
  pub avatar_url : Option String
  pub webhook_url : Option String
  pub description : Option String
  pub homepage_url : Option String
  pub commands : Option (List BotCommandDef)
  pub capabilities : Option (List String)

pub record VerifyRequest : Type 0 where
  pub public_key : String
  pub challenge : String
  pub signature : String
  pub invite_code : Option String
  pub security_nonce : Option ℕ
  pub security_level : Option ℕ
  pub pow_proof : Option PowProof
  pub subkey_cert : Option SubkeyCert
  pub challenge_token : Option String
  pub is_bot : Option Bool
  pub bot_meta : Option BotMeta
  pub certifications : Option (List Certification)

pub record VerifyResponse : Type 0 where
  pub token : String
  pub scope : String

-- What one request takes from outside: the signatures, JSON (`serde_json::to_string` of a payload, and
-- `from_str` of two settings), the monotonic clock in nanoseconds, the time, and a fresh token.
pub record Env : Type 0 where
  pub crypto : Crypto
  pub payload_json : CertPayload → Option String
  pub read_trusted_issuers : String → Option (List TrustedIssuer)
  pub read_cert_require : String → Option CertRequire
  pub instant : ℕ
  pub now : ℤ
  pub token : String

-- an entry of the map `pending_challenges`
pub record PendingChallenge : Type 0 where
  pub public_key : String
  pub challenge_bytes : List ℕ
  pub expires_at : ℕ

pub record AppState : Type 0 where
  pub db : Db
  pub pending_challenges : List PendingChallenge
  pub farm_url : Option String
  pub cached_farm_pubkey : Option String
  pub last_farm_pubkey_fetch : ℤ

-- a handler of the database, run on the state
unfoldable pub in_db : {A : Type 0} → Exec Db A → Exec AppState A
in_db m s = ((m s.db).0, record s { db = (m s.db).1 })

-- the pair (canonical_pubkey, master_pubkey)
pub record Identity : Type 0 where
  pub canonical : String
  pub master_pubkey : Option String

-- `SELECT public_key FROM users WHERE master_pubkey = ?`
unfoldable pub is_option : String → Option String → Bool
is_option k none = Bool.false
is_option k (some k') = k' == k

unfoldable pub find_by_master : String → Db → Option User
find_by_master master db = fetch_optional (λ u. is_option master u.master_pubkey) db.users

unfoldable pub find_legacy : String → Db → Option User
find_legacy key db = fetch_optional (λ u. u.public_key == key && is_none u.master_pubkey) db.users

-- what a certificate resolves to, given the user with its master and the user that upgrades
unfoldable pub canonical_of : SubkeyCert → Option User → Option User → Identity
canonical_of cert (some u) legacy = record {
  canonical = u.public_key;
  master_pubkey = some cert.master_pubkey;
}
canonical_of cert none (some u) = record {
  canonical = u.public_key;
  master_pubkey = some cert.master_pubkey;
}
canonical_of cert none none = record {
  canonical = cert.master_pubkey;
  master_pubkey = some cert.master_pubkey;
}

unfoldable pub resolve_cert : Crypto → String → SubkeyCert → Exec Db Identity
resolve_cert crypto auth_pubkey cert = do
  refuse_if (not (verify_cert crypto cert)) unauthorized "Invalid cert"
  refuse_if (not (cert.subkey_pubkey == auth_pubkey)) unauthorized
      "Cert subkey_pubkey doesn't match auth pubkey"
  existing ← gets (find_by_master cert.master_pubkey)
  legacy ← gets (find_legacy auth_pubkey)
  pure (canonical_of cert existing legacy)

unfoldable pub resolve_canonical_identity : Crypto → String → Option SubkeyCert → Exec Db Identity
resolve_canonical_identity crypto auth_pubkey none =
    pure (record { canonical = auth_pubkey; master_pubkey = none })
resolve_canonical_identity crypto auth_pubkey (some cert) = resolve_cert crypto auth_pubkey cert
