-- ===== src/Tests/AuthTests.antt =====
-- Signing in to the small hub: carol answers her challenge.
use voxply_server.Common.Text.{split_at}
use voxply_server.Auth.Account.{in_db, resolve_canonical_identity}
use voxply_server.Auth.Challenge.{same_bytes, forget_challenge}
use voxply_server.Auth.{sign_in, refuse_banned, gates, enter}
use voxply_server.Auth.Gates.{
  require_security_level, level_setting, setting, require_pow, require_cert, load_cert_mode,
  load_trusted_issuers, load_cert_require, find_user,
}
use voxply_server.Auth.Entry.{
  initial_approval, upsert_user, seen_again, insert_session, require_invite, has_roles,
  assign_first_roles, require_challenge_token, challenge_mode, scope_of, pow_level_of, user_row,
  make_owner,
}
use voxply_server.Auth.Middleware.{
  farm_user, refetch, try_verify_farm_token, check_farm_token, admit_farm_user, lazy_upsert,
  farm_roles, ignore, refuse_pending,
}
use voxply_server.Moderation.{is_banned}
use voxply_server.Roles.{insert_assignment}
use voxply_server.Sql.{fetch_optional, exists_where, delete_where, update_where, count_where}
use voxply_server.Crypto.{verify_signature}
use voxply_server.Permissions.{holds_role}
use voxply_server.Common.{◌++◌, arith, ◌+◌}
use voxply_server.Common.{◌≡◌, refl, some, none, [], ◌∷◌, List, ◌<◌, ◌≤◌}
use voxply_server.Common.Int.{pos}
use voxply_server.Exec.{ok, err, unauthorized, ◌>>=◌}
use voxply_server.Auth.Account.{
  Env, AppState, VerifyRequest, VerifyResponse, PendingChallenge, Identity,
  resolve_canonical_identity, in_db,
}
use voxply_server.Auth.Challenge.{challenge, check_challenge, find_challenge, challenge_lifetime}
use voxply_server.Auth.Gates.{find_user}
use voxply_server.Auth.{verify}
use voxply_server.Auth.Replay.{verify-verify, Answered, verify-Answered, challenge-check_challenge}
use voxply_server.Auth.Admission.{HasMaster, verify-HasMaster}
use voxply_server.Auth.Bans.{names_banned}
use voxply_server.Exec.{succeeded}
use voxply_server.Common.{◌&&◌, false}
use voxply_server.Auth.Owner.{owners, verify-owners}
use voxply_server.Auth.Bans.{
  Unbanned, AccountOp, signs_in, bans, unbans, kicks, account_ops, account_ops-Unbanned,
}
use voxply_server.Auth.Middleware.{Caller, hub_user, approval_of, with_farm_token}
use voxply_server.Auth.Session.{verdict, verify-hub_user}
use voxply_server.Auth.FarmToken.{Vouched, Admitted, with_farm_token-Admitted}
use voxply_server.Roles.{owner_count}
use voxply_server.Tests.Sample.{hub, user}
use voxply_server.Tests.PairingTests.{crypto, bytes_32}

abbrev app : AppState
app = record {
  db = hub;
  pending_challenges =
      record { public_key = "carol"; challenge_bytes = bytes_32; expires_at = 100 } ∷ [];
  farm_url = some "https://farm.example";
  cached_farm_pubkey = some "farm";
  last_farm_pubkey_fetch = pos 0;
}

abbrev env : Env
env = record {
  crypto = crypto;
  payload_json = λ p. none;
  read_trusted_issuers = λ t. none;
  read_cert_require = λ t. none;
  instant = 50;
  now = pos 200;
  token = "fresh";
}

abbrev request : VerifyRequest
request = record {
  public_key = "carol";
  challenge = "00";
  signature = "signature";
  invite_code = none;
  security_nonce = none;
  security_level = none;
  pow_proof = none;
  subkey_cert = none;
  challenge_token = none;
  is_bot = none;
  bot_meta = none;
  certifications = none;
}

abbrev answer : VerifyResponse
answer = record { token = "fresh"; scope = "member" }

signed_in : (verify env request app).0 ≡ ok answer
unfolding verify check_challenge find_challenge forget_challenge same_bytes fetch_optional
    delete_where verify_signature in_db sign_in resolve_canonical_identity refuse_banned is_banned
    exists_where gates require_security_level level_setting setting require_pow require_cert
    load_cert_mode load_trusted_issuers load_cert_require enter initial_approval upsert_user
    seen_again update_where insert_session require_invite has_roles assign_first_roles
    require_challenge_token challenge_mode scope_of pow_level_of find_user ◌>>=◌
signed_in = refl

verify-verify_example :
    (verify env request (verify env request app).1).0
    ≡ err unauthorized "No pending challenge for this key"
verify-verify_example = verify-verify env env request request app refl

verify-Answered_example :
    (p : PendingChallenge) × (find_challenge "carol" app ≡ some p) × Answered env request p
verify-Answered_example = verify-Answered env request app answer signed_in

decoded : crypto.hex_decode request.signature ≡ some (bytes_32 ++ bytes_32)
decoded = refl

sent : (challenge crypto 20 bytes_32 "carol" app).0 ≡ ok request.challenge
unfolding challenge ◌>>=◌
sent = refl

soon : 50 ≤ 20 + challenge_lifetime
soon = omega arith

challenge-check_challenge_example :
    (check_challenge crypto 50 request (challenge crypto 20 bytes_32 "carol" app).1).0
    ≡ ok (bytes_32, bytes_32 ++ bytes_32)
challenge-check_challenge_example =
    challenge-check_challenge crypto 20 50 bytes_32 (bytes_32 ++ bytes_32) request app refl sent
      decoded soon

-- carol has a master key
abbrev with_master : AppState
with_master = record app {
  db = record hub { users = record (user "carol") { master_pubkey = some "master" } ∷ [] };
}

carol_has : HasMaster "carol" "master" with_master.db
unfolding find_user fetch_optional
carol_has = refl

verify-HasMaster_example : HasMaster "carol" "master" (verify env request with_master).1.db
verify-HasMaster_example = verify-HasMaster env request with_master "carol" "master" carol_has

owned : 0 < owner_count hub
unfolding owner_count count_where
owned = omega arith

verify-owners_example : owners (verify env request app).1.db ≡ owners hub
verify-owners_example = verify-owners env request app owned

hub-Unbanned : Unbanned hub
unfolding is_banned exists_where
hub-Unbanned = (refl, (refl, tt))

abbrev steps : List AccountOp
steps =
    signs_in env request
    ∷ bans (pos 210) "alice" "carol" none
    ∷ signs_in env request
    ∷ unbans "alice" "carol"
    ∷ kicks "alice" "bob"
    ∷ []

account_ops-Unbanned_example :
    Unbanned (account_ops steps app).db
    × ((env' : Env) (req : VerifyRequest)
        → (succeeded (verify env' req (account_ops steps app)).0
            && names_banned req (account_ops steps app).db)
          ≡ false)
account_ops-Unbanned_example = account_ops-Unbanned steps app hub-Unbanned

verify-hub_user_example :
    (who : Identity) × ((resolve_canonical_identity crypto "carol" none hub).0 ≡ ok who)
    × ((caller : Caller)
        → (hub_user caller "fresh" (verify env request app).1.db).0
          ≡ verdict caller who.canonical
              (approval_of who.canonical (verify env request app).1.db)
              (verify env request app).1.db)
verify-hub_user_example = verify-hub_user env request app answer signed_in

-- a token of the farm, for erin
abbrev caller : Caller
caller = record {
  crypto = crypto;
  b64_decode = λ s. some (bytes_32 ++ bytes_32);
  read_payload = λ bytes. some (record { exp = pos 500; iss_pk = "farm"; sub = "erin" });
  farm_info = λ url. none;
  now = pos 200;
  path = "/channels";
}

let_in : (with_farm_token caller "payload.signature" app).0 ≡ ok "erin"
unfolding with_farm_token farm_user refetch try_verify_farm_token check_farm_token split_at
    verify_signature in_db admit_farm_user lazy_upsert has_roles farm_roles ignore make_owner
    insert_assignment owner_count count_where is_banned approval_of refuse_pending exists_where
    fetch_optional find_user user_row holds_role ◌>>=◌
let_in = refl

with_farm_token-Admitted_example :
    Vouched caller "payload.signature" "erin" (with_farm_token caller "payload.signature" app).1
    × Admitted caller "erin" (with_farm_token caller "payload.signature" app).1.db
with_farm_token-Admitted_example =
    with_farm_token-Admitted caller "payload.signature" "erin" app let_in
