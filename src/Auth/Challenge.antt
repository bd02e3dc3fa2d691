-- ===== src/Auth/Challenge.antt =====
-- hub/src/auth/handlers.rs: the challenge that a client signs, and the check of its answer, with which
-- `verify` and `renew` begin.
use voxply_server.Common.{
  ℕ, Bool, true, false, not, ◌&&◌, ◌+◌, ◌*◌, Option, List, [], ◌∷◌, String, ◌==◌, ltb, leb,
}
use voxply_server.Exec.{
  Exec, pure, gets, ok_or, modify, refuse_if, unauthorized, bad_request, ◌>>=◌, ◌>>◌,
}
use voxply_server.Sql.{fetch_optional, delete_where, insert_row}
use voxply_server.Crypto.{Crypto}
use voxply_server.Auth.Account.{AppState, PendingChallenge, VerifyRequest}

unfoldable pub same_bytes : List ℕ → List ℕ → Bool
same_bytes [] [] = true
same_bytes [] (y ∷ ys) = false
same_bytes (x ∷ xs) [] = false
same_bytes (x ∷ xs) (y ∷ ys) = leb x y && leb y x && same_bytes xs ys

unfoldable pub find_challenge : String → AppState → Option PendingChallenge
find_challenge key s = fetch_optional (λ p. p.public_key == key) s.pending_challenges

-- `remove` of the map
unfoldable pub forget_challenge : String → AppState → AppState
forget_challenge key s = record s {
  pending_challenges = delete_where (λ p. p.public_key == key) s.pending_challenges;
}

-- `insert` of the map, which replaces
unfoldable pub put_challenge : PendingChallenge → AppState → AppState
put_challenge p s = record s {
  pending_challenges =
      insert_row p (delete_where (λ q. q.public_key == p.public_key) s.pending_challenges);
}

-- sixty seconds
abbrev pub challenge_lifetime : ℕ
challenge_lifetime = 60 * 1000000000

-- `challenge_bytes` are random; the answer is their hex
unfoldable pub challenge : Crypto → ℕ → List ℕ → String → Exec AppState String
unfolding put_challenge
challenge crypto instant challenge_bytes public_key = do
  modify (
      put_challenge (record {
        public_key = public_key;
        challenge_bytes = challenge_bytes;
        expires_at = instant + challenge_lifetime;
      }))
  pure (crypto.hex_encode challenge_bytes)

-- the bytes that are signed and the signature
unfoldable pub check_challenge : Crypto → ℕ → VerifyRequest → Exec AppState (List ℕ × List ℕ)
check_challenge crypto instant req = do
  found ← gets (find_challenge req.public_key)
  modify (forget_challenge req.public_key)
  pending ← ok_or unauthorized "No pending challenge for this key" found
  refuse_if (ltb pending.expires_at instant) unauthorized "Challenge expired"
  challenge_bytes ← ok_or bad_request "Invalid challenge hex" (crypto.hex_decode req.challenge)
  refuse_if (not (same_bytes challenge_bytes pending.challenge_bytes)) unauthorized
      "Challenge mismatch"
  signature_bytes ← ok_or bad_request "Invalid signature hex" (crypto.hex_decode req.signature)
  pure (challenge_bytes, signature_bytes)
