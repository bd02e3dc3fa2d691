-- ===== src/Tests/FarmTests.antt =====
-- carol signs in at a farm, and shows its token to a hub.
use voxply_server.Common.{
  ◌≡◌, refl, true, some, none, [], ◌∷◌, ◌++◌, String, Option, ◌==◌, if◌then◌else◌, not, ℕ, List,
  ltb, length,
}
use voxply_server.Common.Int.{ℤ, pos, ◌+ℤ◌, ltb_ℤ}
use voxply_server.Common.Text.{split_at}
use voxply_server.Exec.{ok, ◌>>=◌}
use voxply_server.Sql.{fetch_optional, exists_where, update_where, delete_where}
use voxply_server.Crypto.{verify_signature}
use voxply_server.Auth.Middleware.{Caller, try_verify_farm_token}
use voxply_server.Farm.{
  FarmDb, Instant, FarmVerifyRequest, session_end, payload_for, mint, insert_farm_session,
  farm_verify, check_pending, find_pending, delete_pending, seen, is_farm_user, revoke_check,
}
use voxply_server.Farm.Token.{FarmKeys, sign_token}
use voxply_server.Farm.Accepted.{farm_verify-try_verify_farm_token, hub_view, minted, answer_at}
use voxply_server.Tests.PairingTests.{crypto, bytes_32}

abbrev bytes_64 : List ℕ
bytes_64 = bytes_32 ++ bytes_32

-- a payload is one byte, and a signature 64
abbrev encode : List ℕ → String
encode bytes = if ltb (length bytes) 2 then "AQ" else "c2ln"

abbrev decode : String → Option (List ℕ)
decode s = if s == "AQ" then some (1 ∷ []) else some bytes_64

abbrev farm : FarmKeys
farm = record {
  crypto = crypto;
  sign = λ bytes. bytes_64;
  public_key_hex = "farm";
  farm_url = "farm.example";
  to_vec = λ p. 1 ∷ [];
  from_slice = λ bytes. none;
  b64_encode = encode;
  b64_decode = decode;
}

abbrev at_noon : Instant
at_noon = record { now = pos 1000; jti = "j1" }

abbrev carols : FarmVerifyRequest
carols = record { public_key = "carol"; signature = "signature"; scope = none }

abbrev visited : Caller
visited = record {
  crypto = crypto;
  b64_decode = decode;
  read_payload = λ bytes. some (hub_view (minted farm at_noon carols));
  farm_info = λ url. none;
  now = pos 2000;
  path = "/me";
}

abbrev farm_db : FarmDb
farm_db = record {
  farm_users = [];
  pending_challenges =
      record { public_key = "carol"; challenge_hex = "00"; expires_at = pos 1060 } ∷ [];
  farm_sessions = [];
}

abbrev carols_token : String
carols_token = sign_token farm (minted farm at_noon carols)

signed : verify_signature crypto "farm" (1 ∷ []) bytes_64 ≡ true
unfolding verify_signature
signed = refl

no_dot : split_at 46 "AQ" ≡ none
unfolding split_at
no_dot = refl

let_in : (farm_verify farm at_noon carols farm_db).0 ≡ ok carols_token
unfolding farm_verify check_pending find_pending delete_pending seen is_farm_user mint payload_for
    insert_farm_session verify_signature session_end sign_token fetch_optional exists_where
    update_where delete_where ◌>>=◌ ◌+ℤ◌
let_in = refl

farm_verify-try_verify_farm_token_example :
    (carols_token ≡ sign_token farm (minted farm at_noon carols))
    × (try_verify_farm_token visited "farm" carols_token
        ≡ answer_at visited (session_end (pos 1000)) "carol")
    × ((later : ℤ)
        → revoke_check later
            (minted farm at_noon carols).jti
            (farm_verify farm at_noon carols farm_db).1
          ≡ not (ltb_ℤ later (session_end (pos 1000))))
farm_verify-try_verify_farm_token_example =
    farm_verify-try_verify_farm_token farm visited at_noon carols carols_token farm_db no_dot refl
      refl signed refl let_in
