-- ===== src/Pow.antt =====
-- identity/src/pow.rs: the proof of work behind a public key. SHA-256 is a parameter (Crypto.antt).
-- The search for a nonce has no bound in the source; here it has the fuel of its rounds, and
-- Pow/Search.antt says how much is enough. `none` is a search that goes on.
pub mod Level
pub mod Search
use voxply_server.Common.{
  ℕ, zero, suc, ◌+◌, ◌%◌, ◌^◌, Bool, true, ◌&&◌, Option, none, some, List, [], ◌∷◌, ◌++◌, String,
  ltb, leb, if◌then◌else◌,
}
use voxply_server.Crypto.{Crypto}
use voxply_server.Wire.{le_bytes}

-- `u8::leading_zeros`
unfoldable pub leading_zeros : ℕ → ℕ
leading_zeros byte =
    if leb 128 byte
    then 0
    else if leb 64 byte
    then 1
    else if leb 32 byte
    then 2
    else if leb 16 byte
    then 3
    else if leb 8 byte
    then 4
    else if leb 4 byte
    then 5
    else if leb 2 byte
    then 6
    else if leb 1 byte
    then 7
    else 8

unfoldable pub leading_zero_bits : List ℕ → ℕ
leading_zero_bits [] = 0
leading_zero_bits (byte ∷ hash) =
    let rest = leading_zero_bits hash in if leb byte 0 then 8 + rest else leading_zeros byte

-- the nonce and the level that are returned
abbrev pub found : ℕ → ℕ → Option (ℕ × ℕ)
found nonce level = some (nonce, level)

-- the best level so far, after one more
abbrev pub better : ℕ → ℕ → ℕ
better best level = if ltb best level then level else best

module _ (crypto : Crypto) (public_key_hex : String) where
  unfoldable pub hash_level : ℕ → ℕ
  hash_level nonce =
      leading_zero_bits (crypto.sha256 (crypto.utf8 public_key_hex ++ le_bytes 8 nonce))

  -- the loop at the last nonce that was tried and the best level so far
  unfoldable pub search_from : ℕ → ℕ → ℕ → ℕ → Option (ℕ × ℕ)
  search_from zero target nonce best_level = none
  search_from (suc fuel) target nonce best_level =
      let next = (nonce + 1) % 2 ^ 64 in
      let level = hash_level next in
      let rest = search_from fuel target next (better best_level level) in
      if ltb best_level level && leb target level then found next level else rest

  -- the level of the first nonce, where it is not 0
  unfoldable pub start_level : ℕ → ℕ
  start_level start_nonce = if ltb 0 start_nonce then hash_level start_nonce else 0

  unfoldable pub compute_security_level : ℕ → ℕ → ℕ → Option (ℕ × ℕ)
  compute_security_level fuel start_nonce target_level =
      let later = search_from fuel target_level start_nonce (start_level start_nonce) in
      if ltb 0 start_nonce && leb target_level (start_level start_nonce)
      then found start_nonce (start_level start_nonce)
      else later

  unfoldable pub verify_security_level : ℕ → ℕ → Bool
  verify_security_level nonce claimed_level =
      if leb claimed_level 0 then true else leb claimed_level (hash_level nonce)
