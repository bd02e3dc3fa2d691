-- ===== src/Farm/Accepted.antt =====
-- The farm's token at a hub.
use Prim.Native.String.{◌++◌}
use Prim.Native.String.append
use voxply_server.Common.{
  ◌≡◌, refl, ◌∙◌, ap, true, not, Option, none, some, String, ◌==◌, eq_refl, arith, if◌then◌else◌,
  inl, inr, Option-cases,
}
use voxply_server.Common.Int.{ℤ, ltb_ℤ}
use voxply_server.Common.Text.{split_at_dot, split_at, consed}
use voxply_server.Exec.{Reply, ok, err, unauthorized, ◌>>=◌}
use voxply_server.Crypto.{verify_signature}
use voxply_server.Auth.Middleware.{
  Caller, FarmTokenPayload, check_farm_token, try_verify_farm_token,
}
use voxply_server.Exec.Success.{ok_then}
use voxply_server.Sql.Keys.{fetch-insert}
use voxply_server.Sql.Upsert.{fetch_of_none}
use voxply_server.Farm.Token.{FarmKeys, TokenPayload, sign_token}
use voxply_server.Farm.{
  FarmDb, FarmSession, Instant, FarmVerifyRequest, session_end, normalise_scope, payload_for, mint,
  insert_farm_session, find_farm_session, farm_verify, revoke_check,
}

split_at-dot : (t : String) → split_at_dot ("." ++ t) ≡ some ("", t)
unfolding split_at
split_at-dot t = rw (append.cons, append.nil) refl

-- a text without a dot, before a dot
split_at-append :
    (s t : String) → split_at_dot s ≡ none → split_at_dot (s ++ ("." ++ t)) ≡ some (s, t)
unfolding split_at consed
split_at-append String.[] t h = rw append.nil (split_at-dot t)
split_at-append (String.◌∷◌ c s) t h = elim (Option-cases (split_at_dot s)) [
  | inl e ↦ rw (append.cons, split_at-append s t e) (ground arith)
  | inr (parts, e) ↦ absurd (ground (arith, e))
]

-- what a hub reads of a payload
abbrev pub hub_view : TokenPayload → FarmTokenPayload
hub_view p = record { exp = p.exp; iss_pk = p.iss_pk; sub = p.sub }

-- what a session's token is worth at the farm, and what the farm says of its session
abbrev pub answer_at : Caller → ℤ → String → Reply String
answer_at caller exp sub =
    if ltb_ℤ caller.now exp then ok sub else err unauthorized "Farm token has expired"

module _ (farm : FarmKeys) (caller : Caller) (p : TokenPayload) where
  sign_token-try_verify_farm_token :
      p.iss_pk ≡ farm.public_key_hex
      → split_at_dot (farm.b64_encode (farm.to_vec p)) ≡ none
      → caller.b64_decode (farm.b64_encode (farm.to_vec p)) ≡ some (farm.to_vec p)
      → caller.b64_decode (farm.b64_encode (farm.sign (farm.to_vec p)))
        ≡ some (farm.sign (farm.to_vec p))
      → verify_signature caller.crypto farm.public_key_hex
          (farm.to_vec p)
          (farm.sign (farm.to_vec p))
        ≡ true
      → caller.read_payload (farm.to_vec p) ≡ some (hub_view p)
      → try_verify_farm_token caller farm.public_key_hex (sign_token farm p)
        ≡ answer_at caller p.exp p.sub
  unfolding try_verify_farm_token check_farm_token sign_token ◌>>=◌
  sign_token-try_verify_farm_token own no_dot payload signature signed read =
      let parts : split_at_dot (sign_token farm p)
          ≡ some (farm.b64_encode (farm.to_vec p), farm.b64_encode (farm.sign (farm.to_vec p))) =
        split_at-append (farm.b64_encode (farm.to_vec p))
          (farm.b64_encode (farm.sign (farm.to_vec p))) no_dot in
      ground (arith, parts, payload, signature, signed, read, own, eq_refl farm.public_key_hex)

-- the payload of a sign-in
abbrev pub minted : FarmKeys → Instant → FarmVerifyRequest → TokenPayload
minted farm at req = payload_for farm at req.public_key none (normalise_scope req.scope)

-- the token of a payload, and its session
abbrev Minted : FarmKeys → Instant → TokenPayload → String → FarmDb → Type 0
Minted farm at p token db =
    (token ≡ sign_token farm p)
    × (find_farm_session at.jti db
        ≡ some (record {
          jti = at.jti;
          public_key = p.sub;
          issued_at = at.now;
          expires_at = session_end at.now;
          revoked_at = none;
          scope = p.scope;
        }))

mint-Minted :
    (farm : FarmKeys) (at : Instant) (sub : String) (master : Option String) (scope token : String)
    (db : FarmDb)
    → (mint farm at sub master scope db).0 ≡ ok token
    → Minted farm at
        (payload_for farm at sub master scope)
        token
        (mint farm at sub master scope db).1
unfolding mint insert_farm_session find_farm_session payload_for ◌>>=◌
mint-Minted farm at sub master scope token db h = (
  ground arith,
  ground (
    arith,
    fetch-insert (λ (x : FarmSession). x.jti) at.jti
        (record {
          jti = at.jti;
          public_key = sub;
          issued_at = at.now;
          expires_at = session_end at.now;
          revoked_at = none;
          scope = scope;
        })
        db.farm_sessions,
    fetch_of_none (λ x. x.jti == at.jti) db.farm_sessions,
    eq_refl at.jti,
  ),
)

farm_verify-Minted :
    (farm : FarmKeys) (at : Instant) (req : FarmVerifyRequest) (token : String) (db : FarmDb)
    → (farm_verify farm at req db).0 ≡ ok token
    → Minted farm at (minted farm at req) token (farm_verify farm at req db).1
unfolding farm_verify
farm_verify-Minted farm at req token db h =
    let P : FarmDb → Type 0 = Minted farm at (minted farm at req) token in
    ok_then P _ _ db token h λ _ _ h. ok_then P _ _ _ token h λ _ _ h.
      ok_then P _ _ _ token h
        λ _ _ h. mint-Minted farm at req.public_key none (normalise_scope req.scope) token _ h

-- A sign-in at the farm gives a token that any hub which holds the farm's key takes as one of that user
-- for thirty days and then refuses as expired; until then, and no longer, the farm says of the
-- session with the token's `jti` that it is not revoked. Of base64, JSON and the farm's key pair this asks that what the farm encodes
-- and signs is decoded and verified as such at the hub, and that base64 has no dot.
pub farm_verify-try_verify_farm_token :
    (farm : FarmKeys) (caller : Caller) (at : Instant) (req : FarmVerifyRequest) (token : String)
    (db : FarmDb)
    → split_at_dot (farm.b64_encode (farm.to_vec (minted farm at req))) ≡ none
    → caller.b64_decode (farm.b64_encode (farm.to_vec (minted farm at req)))
      ≡ some (farm.to_vec (minted farm at req))
    → caller.b64_decode (farm.b64_encode (farm.sign (farm.to_vec (minted farm at req))))
      ≡ some (farm.sign (farm.to_vec (minted farm at req)))
    → verify_signature caller.crypto farm.public_key_hex
        (farm.to_vec (minted farm at req))
        (farm.sign (farm.to_vec (minted farm at req)))
      ≡ true
    → caller.read_payload (farm.to_vec (minted farm at req)) ≡ some (hub_view (minted farm at req))
    → (farm_verify farm at req db).0 ≡ ok token
    → (token ≡ sign_token farm (minted farm at req))
      × (try_verify_farm_token caller farm.public_key_hex token
          ≡ answer_at caller (session_end at.now) req.public_key)
      × ((later : ℤ)
          → revoke_check later (minted farm at req).jti (farm_verify farm at req db).1
            ≡ not (ltb_ℤ later (session_end at.now)))
unfolding payload_for revoke_check
farm_verify-try_verify_farm_token farm caller at req token db no_dot payload signature signed read
      h =
    let (made, stored) = farm_verify-Minted farm at req token db h in
    (
      made,
      ap (try_verify_farm_token caller farm.public_key_hex) made
          ∙ sign_token-try_verify_farm_token farm caller (minted farm at req) refl no_dot payload
              signature signed read,
      λ later. rw stored refl,
    )
