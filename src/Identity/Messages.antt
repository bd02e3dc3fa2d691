-- ===== src/Identity/Messages.antt =====
-- identity/src/wire.rs: the signed lists, revocations and blobs that a master key publishes, and their
-- `verify`.
use voxply_server.Common.{ℕ, Bool, false, none, some, List, String, map}
use voxply_server.Crypto.{Crypto, check_sig}
use voxply_server.Wire.{signing_bytes, home_hub_list, revocation, prefs_blob}

pub record HomeHubList : Type 0 where
  pub master_pubkey : String
  pub hubs : List String
  pub issued_at : ℕ
  pub sequence : ℕ
  pub signature : String

pub record RevocationEntry : Type 0 where
  pub master_pubkey : String
  pub subkey_pubkey : String
  pub revoked_at : ℕ
  pub signature : String

pub record SignedPrefsBlob : Type 0 where
  pub master_pubkey : String
  pub blob_version : ℕ
  pub ciphertext_hex : String
  pub signature : String

module _ (crypto : Crypto) where
  unfoldable pub verify_home_hub_list : HomeHubList → Bool
  verify_home_hub_list l =
      check_sig crypto l.master_pubkey
        (signing_bytes (
          home_hub_list (crypto.utf8 l.master_pubkey) (map crypto.utf8 l.hubs) l.issued_at
            l.sequence))
        l.signature

  unfoldable pub verify_revocation : RevocationEntry → Bool
  verify_revocation r =
      check_sig crypto r.master_pubkey
        (signing_bytes
          (revocation (crypto.utf8 r.master_pubkey) (crypto.utf8 r.subkey_pubkey) r.revoked_at))
        r.signature

  -- the signature is over the digest of the ciphertext
  unfoldable pub verify_prefs_blob : SignedPrefsBlob → Bool
  verify_prefs_blob b = elim (crypto.hex_decode b.ciphertext_hex) [
    | none ↦ false
    | some ciphertext ↦
        check_sig crypto b.master_pubkey
          (signing_bytes
            (prefs_blob (crypto.utf8 b.master_pubkey) b.blob_version (crypto.sha256 ciphertext)))
          b.signature
  ]
