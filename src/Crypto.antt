-- ===== src/Crypto.antt =====
-- What the code calls of other packages for signatures (`hex::encode` and `decode`, ed25519's `verify`, SHA-256,
-- the UTF-8 bytes of a text), as the operations of a record, and the two functions of identity/src
-- that check a signature with them (`verify_signature` of lib.rs, `check_sig` of wire.rs).
use voxply_server.Common.{ℕ, Bool, false, ◌&&◌, Option, none, some, List, String, length, leb}

pub record Crypto : Type 0 where
  pub utf8 : String → List ℕ
  pub hex_encode : List ℕ → String
  pub hex_decode : String → Option (List ℕ)
  -- key, message and signature; a key that is no point of the curve verifies nothing
  pub ed25519_verify : List ℕ → List ℕ → List ℕ → Bool
  pub sha256 : List ℕ → List ℕ

-- the length of an array type
abbrev has_length : ℕ → List ℕ → Bool
has_length n bytes = leb (length bytes) n && leb n (length bytes)

module _ (crypto : Crypto) where
  unfoldable pub verify_signature : String → List ℕ → List ℕ → Bool
  verify_signature public_key_hex message signature_bytes =
      elim (crypto.hex_decode public_key_hex) [
        | none ↦ false
        | some pub_bytes ↦
            has_length 32 pub_bytes
            && has_length 64 signature_bytes
            && crypto.ed25519_verify pub_bytes message signature_bytes
      ]

  unfoldable pub check_sig : String → List ℕ → String → Bool
  check_sig master_pubkey_hex bytes signature_hex = elim (crypto.hex_decode signature_hex) [
    | none ↦ false
    | some sig ↦ verify_signature master_pubkey_hex bytes sig
  ]
