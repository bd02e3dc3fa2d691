-- ===== src/Auth/Entry.antt =====
-- hub/src/auth/handlers.rs, `verify`: what letting an identity in writes, that is its row, its session
-- and its roles, and the invite and the challenge token that it spends.
use voxply_server.Common.{
  ℕ, Bool, true, false, not, ◌&&◌, ◌%◌, ◌^◌, Option, none, some, String, ◌==◌, ltb, leb,
  if◌then◌else◌, unwrap_or, or_else, is_some, length, ◌||◌,
}
use voxply_server.Common.Int.{ℤ, ltb_ℤ}
use voxply_server.Exec.{
  Exec, gets, ok_or, modify, refuse_if, when, forbidden, constrained, ◌>>=◌, ◌>>◌,
}
use voxply_server.Sql.{exists_where, fetch_optional, update_where, insert_row}
use voxply_server.Db.{Db, User, ChallengeToken}
use voxply_server.Moderation.{unknown_user}
use voxply_server.Invites.{is_invite_only, validate_and_use_invite}
use voxply_server.Roles.{builtin_owner, builtin_everyone, insert_assignment, owner_count}
use voxply_server.Auth.Account.{Identity, VerifyRequest}
use voxply_server.Auth.Gates.{setting, find_user}

abbrev pub is_text : String → Option String → Bool
is_text t none = false
is_text t (some v) = v == t

-- the status that a new user starts with
unfoldable pub initial_approval : Db → String
initial_approval db =
    if is_text "true" (setting "require_approval" db) && ltb 0 (length db.users)
    then "pending"
    else "approved"

unfoldable pub user_row : ℤ → String → String → Option String → User
user_row now status key master = record {
  public_key = key;
  display_name = none;
  first_seen_at = now;
  last_seen_at = now;
  approval_status = status;
  master_pubkey = master;
  pow_level = 0;
  is_bot = false;
  lobby_status = "none";
  lobby_entered_at = none;
}

-- the update of the upsert; `COALESCE` keeps a master that is there
unfoldable pub seen_again : ℤ → Option String → User → User
seen_again now master u = record u {
  last_seen_at = now;
  master_pubkey = or_else u.master_pubkey master;
}

unfoldable pub upsert_user : ℤ → String → Identity → Exec Db (Unit {0})
upsert_user now status who = modify (λ db. record db {
  users =
      if exists_where (λ u. u.public_key == who.canonical) db.users
      then update_where (λ u. u.public_key == who.canonical) (seen_again now who.master_pubkey)
          db.users
      else insert_row (user_row now status who.canonical who.master_pubkey) db.users;
})

-- `token` is the primary key of `sessions`, and `public_key` refers to a user
unfoldable pub insert_session : ℤ → String → String → Exec Db (Unit {0})
insert_session now token key =
    constrained (λ db. exists_where (λ s. s.token == token) db.sessions || unknown_user key db)
      (λ db. record db {
        sessions =
            insert_row (record { token = token; public_key = key; created_at = now }) db.sessions;
      })

-- `COUNT(*) ... == 0`
unfoldable pub has_roles : String → Db → Bool
has_roles key db = exists_where (λ ur. ur.user_public_key == key) db.user_roles

unfoldable pub use_invite : ℤ → Option String → Exec Db (Unit {0})
use_invite now code = do
  given ← ok_or forbidden "This hub requires an invite code" code
  validate_and_use_invite now given

unfoldable pub invite_gate : ℤ → Option String → Exec Db (Unit {0})
invite_gate now code = do invited_only ← is_invite_only; when invited_only (use_invite now code)

unfoldable pub require_invite : ℤ → String → Option String → Exec Db (Unit {0})
require_invite now key code = do
  known ← gets (has_roles key)
  when (not known) (invite_gate now code)

-- (user_public_key, role_id) is the primary key of `user_roles`, and both are references
unfoldable pub make_owner : ℤ → String → Exec Db (Unit {0})
make_owner now key =
    constrained
      (λ db.
        exists_where (λ ur. ur.user_public_key == key && ur.role_id == builtin_owner) db.user_roles
        || unknown_user key db
        || not (exists_where (λ r. r.id == builtin_owner) db.roles))
      (λ db. record db {
        user_roles =
            insert_row
              (record { user_public_key = key; role_id = builtin_owner; assigned_at = now })
              db.user_roles;
      })

unfoldable pub first_roles : ℤ → String → Exec Db (Unit {0})
first_roles now key = do
  owners ← gets owner_count
  when (leb owners 0) (make_owner now key)
  insert_assignment now key builtin_everyone

unfoldable pub assign_first_roles : ℤ → String → Exec Db (Unit {0})
assign_first_roles now key = do known ← gets (has_roles key); when (not known) (first_roles now key)

unfoldable pub find_challenge_token : String → Db → Option ChallengeToken
find_challenge_token token db = fetch_optional (λ t. t.token == token) db.challenge_tokens

unfoldable pub spend_token : ℤ → String → String → Exec Db (Unit {0})
spend_token now public_key token = do
  found ← gets (find_challenge_token token)
  row ← ok_or forbidden "Invalid challenge token" found
  refuse_if (is_some row.consumed_at) forbidden "Challenge token already used"
  refuse_if (ltb_ℤ row.expires_at now) forbidden "Challenge token expired"
  refuse_if (not (row.pubkey == public_key)) forbidden "Challenge token pubkey mismatch"
  modify (λ db. record db {
    challenge_tokens =
        update_where (λ t. t.token == token) (λ t. record t { consumed_at = some now })
          db.challenge_tokens;
  })

unfoldable pub challenge_mode : Db → String
challenge_mode db = unwrap_or (setting "challenge_mode" db) "off"

unfoldable pub given_token : ℤ → VerifyRequest → Exec Db (Unit {0})
given_token now req = do
  token ← ok_or forbidden "Challenge token required" req.challenge_token
  spend_token now req.public_key token

unfoldable pub require_challenge_token : ℤ → VerifyRequest → Exec Db (Unit {0})
require_challenge_token now req = do
  mode ← gets challenge_mode
  when (not (mode == "off")) (given_token now req)

abbrev pub lobby_enabled : Db → Bool
lobby_enabled db = elim (setting "lobby_enabled" db) [ none ↦ true | some v ↦ v == "1" ]

-- the level of the user, as a `u32`
unfoldable pub pow_level_of : String → Db → ℕ
pow_level_of key db = elim (find_user key db) [ none ↦ 0 | some u ↦ u.pow_level % 2 ^ 32 ]

unfoldable pub scope_of : String → ℕ → Db → String
scope_of key min_level db =
    if lobby_enabled db && ltb (pow_level_of key db) min_level then "lobby" else "member"
