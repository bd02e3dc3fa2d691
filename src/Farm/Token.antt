-- ===== src/Farm/Token.antt =====
-- farm/src/token.rs: the token that the farm signs and any hub can check. JSON, base64 and the signing
-- key are parameters. A refusal has the status that the callers give it.
use Prim.Native.String.{◌++◌}
use voxply_server.Common.{ℕ, not, Option, List, String, ◌==◌}
use voxply_server.Common.Int.{ℤ, ltb_ℤ}
use voxply_server.Common.Text.{split_at_dot}
use voxply_server.Exec.{Exec, pure, ok_or, refuse_if, unauthorized, ◌>>=◌, ◌>>◌}
use voxply_server.Crypto.{Crypto, verify_signature}

pub record TokenPayload : Type 0 where
  pub v : ℕ
  pub iss : String
  pub iss_pk : String
  pub sub : String
  pub master : Option String
  pub jti : String
  pub iat : ℤ
  pub exp : ℤ
  pub scope : String

-- the farm's key pair and URL, and the packages that its tokens go through
pub record FarmKeys : Type 0 where
  pub crypto : Crypto
  pub sign : List ℕ → List ℕ
  pub public_key_hex : String
  pub farm_url : String
  pub to_vec : TokenPayload → List ℕ
  pub from_slice : List ℕ → Option TokenPayload
  pub b64_encode : List ℕ → String
  pub b64_decode : String → Option (List ℕ)

unfoldable pub sign_token : FarmKeys → TokenPayload → String
sign_token farm payload =
    farm.b64_encode (farm.to_vec payload)
    ++ ("." ++ farm.b64_encode (farm.sign (farm.to_vec payload)))

unfoldable pub verify_token : {S : Type 0} → FarmKeys → ℤ → String → Exec S TokenPayload
verify_token farm now token = do
  parts ← ok_or unauthorized "Token missing '.' separator" (split_at_dot token)
  payload_bytes ← ok_or unauthorized "Invalid base64url in token payload" (farm.b64_decode parts.0)
  sig_bytes ← ok_or unauthorized "Invalid base64url in token signature" (farm.b64_decode parts.1)
  refuse_if (not (verify_signature farm.crypto farm.public_key_hex payload_bytes sig_bytes))
      unauthorized "Token signature verification failed"
  payload ← ok_or unauthorized "Failed to deserialise token payload" (farm.from_slice payload_bytes)
  refuse_if (not (ltb_ℤ now payload.exp)) unauthorized "Token has expired"
  refuse_if (not (payload.iss_pk == farm.public_key_hex)) unauthorized
      "Token iss_pk does not match cached farm pubkey"
  pure payload
