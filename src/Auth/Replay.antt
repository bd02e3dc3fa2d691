-- ===== src/Auth/Replay.antt =====
-- A challenge is answered once, and only by the holder of the key.
use voxply_server.Common.{
  ◌≡◌, refl, true, false, none, some, ℕ, String, List, [], ◌∷◌, arith, ltb, inl, inr, Option-cases,
  ◌==◌, eq_refl, ap₂, Bool, not, ap, sym, ◌∙◌, ◌≤◌, ◌+◌,
}
use voxply_server.Exec.{ok, err, Exec, unauthorized, ◌>>=◌, ◌>>◌, Status}
use voxply_server.Exec.Rules.{Preserves, preserves_rules, bind_after, bind_ok}
use voxply_server.Sql.{delete_where}
use voxply_server.Sql.Keys.{fetch-delete_key, fetch-insert}
use voxply_server.Crypto.{Crypto, verify_signature}
use voxply_server.Db.{Db}
use voxply_server.Auth.Account.{AppState, PendingChallenge, VerifyRequest, Env, in_db}
use voxply_server.Auth.Challenge.{
  check_challenge, find_challenge, forget_challenge, same_bytes, challenge, put_challenge,
  challenge_lifetime,
}
use voxply_server.Auth.{verify, VerifyResponse, sign_in, refuse_if}

-- no challenge waits for the key
abbrev Gone : String → AppState → Type 0
Gone key s = find_challenge key s ≡ none

forget-Gone : (key : String) (s : AppState) → Gone key (forget_challenge key s)
unfolding find_challenge forget_challenge
forget-Gone key s = ground (
  arith,
  fetch-delete_key (λ (p : PendingChallenge). p.public_key) key key s.pending_challenges,
  eq_refl key,
)

check_challenge-Gone :
    (crypto : Crypto) (instant : ℕ) (req : VerifyRequest) (s : AppState)
    → Gone req.public_key (check_challenge crypto instant req s).1
unfolding check_challenge ◌>>=◌
check_challenge-Gone crypto instant req s = ground (arith, forget-Gone req.public_key s)

in_db-Gone : {A : Type 0} (key : String) (m : Exec Db A) → Preserves (Gone key) (in_db m)
unfolding in_db find_challenge
in_db-Gone key m = record { at = λ s h. h }

verify-Gone :
    (env : Env) (req : VerifyRequest) (s : AppState) → Gone req.public_key (verify env req s).1
unfolding verify
verify-Gone env req s =
    bind_after {P = Gone req.public_key} (check_challenge env.crypto env.instant req) _ s
      (check_challenge-Gone env.crypto env.instant req s)
      (λ a. search (preserves_rules, in_db-Gone) depth 12)

-- After a sign-in with a key, whatever came of it, a second one with that key is refused, unless a new
-- challenge was asked for: an answer cannot be replayed.
pub verify-verify :
    (env env' : Env) (req req' : VerifyRequest) (s : AppState)
    → req'.public_key ≡ req.public_key
    → (verify env' req' (verify env req s).1).0
      ≡ err unauthorized "No pending challenge for this key"
unfolding verify check_challenge ◌>>=◌
verify-verify env env' req req' s same = ground (arith, verify-Gone env req s, same)

same_bytes-same : (xs ys : List ℕ) → same_bytes xs ys ≡ true → xs ≡ ys
unfolding same_bytes
same_bytes-same [] [] h = refl
same_bytes-same [] (y ∷ ys) h = absurd (ground arith)
same_bytes-same (x ∷ xs) [] h = absurd (ground arith)
same_bytes-same (x ∷ xs) (y ∷ ys) h =
    let tail : xs ≡ ys = same_bytes-same xs ys (ground arith) in
    let head : x ≡ y = ground arith in ap₂ (λ z zs. z ∷ zs) head tail

-- The request answers the challenge `p` before it expires, with a signature of its bytes.
pub record Answered (env : Env) (req : VerifyRequest) (p : PendingChallenge) : Type 0 where
  pub live : ltb p.expires_at env.instant ≡ false
  pub answer : env.crypto.hex_decode req.challenge ≡ some p.challenge_bytes
  pub signature : List ℕ
  pub read : env.crypto.hex_decode req.signature ≡ some signature
  pub valid : verify_signature env.crypto req.public_key p.challenge_bytes signature ≡ true

check_challenge-ok :
    (crypto : Crypto) (instant : ℕ) (req : VerifyRequest) (s : AppState) (signed : List ℕ × List ℕ)
    → (check_challenge crypto instant req s).0 ≡ ok signed
    → (p : PendingChallenge) × (find_challenge req.public_key s ≡ some p)
      × (ltb p.expires_at instant ≡ false)
      × (crypto.hex_decode req.challenge ≡ some signed.0)
      × (same_bytes signed.0 p.challenge_bytes ≡ true)
      × (crypto.hex_decode req.signature ≡ some signed.1)
unfolding check_challenge ◌>>=◌
check_challenge-ok crypto instant req s signed h =
    elim (Option-cases (find_challenge req.public_key s)) [
      | inl e ↦ absurd (ground arith)
      | inr (p, e) ↦ (p, e, ground arith, ground arith, ground arith, ground arith)
    ]

check_challenge-forgets :
    (crypto : Crypto) (instant : ℕ) (req : VerifyRequest) (s : AppState)
    → (check_challenge crypto instant req s).1 ≡ forget_challenge req.public_key s
unfolding check_challenge ◌>>=◌
check_challenge-forgets crypto instant req s = ground arith

signed_ok :
    {A : Type 0} (b : Bool) (c : Status) (m : String) (n : Exec AppState A) (s : AppState) (a : A)
    → ((refuse_if (not b) c m >> n) s).0 ≡ ok a
    → (b ≡ true) × ((refuse_if (not b) c m >> n) s ≡ n s)
unfolding ◌>>=◌
signed_ok true c m n s a h = (refl, refl)
signed_ok false c m n s a h = absurd (ground arith)

-- what a sign-in that succeeds has passed, and what it goes on with
pub verify-ok :
    (env : Env) (req : VerifyRequest) (s : AppState) (r : VerifyResponse)
    → (verify env req s).0 ≡ ok r
    → ((p : PendingChallenge) × (find_challenge req.public_key s ≡ some p) × Answered env req p)
      × (verify env req s ≡ in_db (sign_in env req) (forget_challenge req.public_key s))
unfolding verify
verify-ok env req s r h =
    let (signed, checked, after) = bind_ok (check_challenge env.crypto env.instant req) _ s r h in
    let (p, found, live, given, same, sig) =
      check_challenge-ok env.crypto env.instant req s signed checked in
    let (good, rest) =
      signed_ok _ unauthorized "Invalid signature" (in_db (sign_in env req)) _ r
        (ap (λ t. t.0) (sym after) ∙ h) in
    let bytes : signed.0 ≡ p.challenge_bytes = same_bytes-same signed.0 p.challenge_bytes same in
    (
      (
        p,
        found,
        record {
          live = live;
          answer = given ∙ ap some bytes;
          signature = signed.1;
          read = sig;
          valid =
              ap (λ b. verify_signature env.crypto req.public_key b signed.1) (sym bytes) ∙ good;
        },
      ),
      after
          ∙ rest
          ∙ ap (in_db (sign_in env req)) (check_challenge-forgets env.crypto env.instant req s),
    )

-- A sign-in that succeeds has answered a challenge that waited for its key and had not expired, with a
-- signature which the key verifies. What is signed is the random bytes that the hexadecimal text of the
-- challenge decodes to, and not the bytes of that text, as README.md has it.
pub verify-Answered :
    (env : Env) (req : VerifyRequest) (s : AppState) (r : VerifyResponse)
    → (verify env req s).0 ≡ ok r
    → (p : PendingChallenge) × (find_challenge req.public_key s ≡ some p) × Answered env req p
verify-Answered env req s r h = (verify-ok env req s r h).0

same_bytes_refl : (xs : List ℕ) → same_bytes xs xs ≡ true
unfolding same_bytes
same_bytes_refl [] = refl
same_bytes_refl (x ∷ xs) = ground (arith, same_bytes_refl xs)

put_challenge-found :
    (p : PendingChallenge) (s : AppState) → find_challenge p.public_key (put_challenge p s) ≡ some p
unfolding find_challenge put_challenge
put_challenge-found p s = ground (
  arith,
  fetch-insert (λ (q : PendingChallenge). q.public_key) p.public_key p
      (delete_where (λ q. q.public_key == p.public_key) s.pending_challenges),
  fetch-delete_key (λ (q : PendingChallenge). q.public_key) p.public_key p.public_key
      s.pending_challenges,
  eq_refl p.public_key,
)

-- The challenge that a client was sent, given back within sixty seconds with a signature in hex, passes
-- every check but one: what is left is that the key verifies the signature, over the bytes that the text
-- of the challenge decodes to (and not over those of the text, as README.md has it).
pub challenge-check_challenge :
    (crypto : Crypto) (instant later : ℕ) (bytes sig : List ℕ) (req : VerifyRequest) (s : AppState)
    → crypto.hex_decode (crypto.hex_encode bytes) ≡ some bytes
    → (challenge crypto instant bytes req.public_key s).0 ≡ ok req.challenge
    → crypto.hex_decode req.signature ≡ some sig
    → later ≤ instant + challenge_lifetime
    → (check_challenge crypto later req (challenge crypto instant bytes req.public_key s).1).0
      ≡ ok (bytes, sig)
unfolding challenge check_challenge ◌>>=◌
challenge-check_challenge crypto instant later bytes sig req s round sent decoded soon =
    let p : PendingChallenge = record {
      public_key = req.public_key;
      challenge_bytes = bytes;
      expires_at = instant + challenge_lifetime;
    } in
    ground (arith, put_challenge-found p s, same_bytes_refl bytes)
