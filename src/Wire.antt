-- ===== src/Wire.antt =====
-- identity/src/wire.rs: the bytes that the signatures of the identity protocol are made over. A text
-- is the list of its UTF-8 bytes. The hash of a prefs blob (SHA-256) is a parameter. Verification
-- itself (`check_sig`, which calls ed25519) is a parameter of the components that use it.
pub mod Bytes
pub mod Injective
use voxply_server.Common.{
  ℕ, zero, suc, ◌/◌, ◌%◌, ◌^◌, Option, none, some, List, [], ◌∷◌, ◌++◌, length,
}
use voxply_server.Common.Text.{codes}

abbrev pub Bytes : Type 0
Bytes = List ℕ

-- the lowest `k` bytes of a number, the lowest first
unfoldable pub le_bytes : ℕ → ℕ → Bytes
le_bytes zero n = []
le_bytes (suc k) n = (n % 256) ∷ le_bytes k (n / 256)

unfoldable pub write_u32_le : ℕ → Bytes
write_u32_le v = le_bytes 4 v

unfoldable pub write_u64_le : ℕ → Bytes
write_u64_le v = le_bytes 8 v

-- `s.len() as u32`
unfoldable pub write_str : Bytes → Bytes
write_str s = write_u32_le (length s % 2 ^ 32) ++ s

unfoldable pub write_each : List Bytes → Bytes
write_each [] = []
write_each (s ∷ v) = write_str s ++ write_each v

unfoldable pub write_str_vec : List Bytes → Bytes
write_str_vec v = write_u32_le (length v % 2 ^ 32) ++ write_each v

-- `match not_after`
unfoldable pub write_optional : Option ℕ → Bytes
write_optional none = 0 ∷ []
write_optional (some t) = 1 ∷ write_u64_le t

pub record PublicHubEntry : Type 0 where
  pub hub_url : Bytes
  pub hub_name : Bytes
  pub joined_at : ℕ

unfoldable pub write_entries : List PublicHubEntry → Bytes
write_entries [] = []
write_entries (e ∷ es) =
    write_str e.hub_url ++ (write_str e.hub_name ++ (write_u64_le e.joined_at ++ write_entries es))

-- What a signature covers: the arguments of each `signing_bytes`. A prefs blob is covered by way of
-- the hash of its ciphertext. `display_name` and `avatar` of PublicHubProfile and `published_at` of
-- DhKeyRecord are no arguments of it.
pub data Signed : Type 0 where
  home_hub_list : (master : Bytes) (hubs : List Bytes) (issued_at sequence : ℕ) → Signed
  subkey_cert :
      (master subkey label : Bytes) (issued_at : ℕ) (not_after : Option ℕ) (fallback : List Bytes)
      → Signed
  revocation : (master subkey : Bytes) (revoked_at : ℕ) → Signed
  prefs_blob : (master : Bytes) (version : ℕ) (digest : Bytes) → Signed
  pairing_offer :
      (master : Bytes) (home_hubs : List Bytes) (token : Bytes) (issued_at expires_at : ℕ) → Signed
  pairing_claim : (token subkey label : Bytes) → Signed
  dh_key : (pubkey dh_pubkey : Bytes) → Signed
  public_profile : (pubkey : Bytes) (hubs : List PublicHubEntry) (issued_at : ℕ) → Signed

-- `b"...\0"`
unfoldable pub tag : Signed → Bytes
tag (home_hub_list m hs i s) = codes "voxply/home-hub-list/v1" ++ 0 ∷ []
tag (subkey_cert m s l i n f) = codes "voxply/subkey-cert/v1" ++ 0 ∷ []
tag (revocation m s r) = codes "voxply/revocation/v1" ++ 0 ∷ []
tag (prefs_blob m v d) = codes "voxply/prefs-blob/v1" ++ 0 ∷ []
tag (pairing_offer m hs t i e) = codes "voxply/pairing-offer/v1" ++ 0 ∷ []
tag (pairing_claim t s l) = codes "voxply/pairing-claim/v1" ++ 0 ∷ []
tag (dh_key p d) = codes "voxply/dh-key/v1" ++ 0 ∷ []
tag (public_profile p hs i) = codes "voxply/public-hub-profile/v1" ++ 0 ∷ []

unfoldable pub body : Signed → Bytes
body (home_hub_list master hubs issued_at sequence) =
    write_str master ++ (write_str_vec hubs ++ (write_u64_le issued_at ++ write_u64_le sequence))
body (subkey_cert master subkey label issued_at not_after fallback) =
    write_str master
    ++ (write_str subkey
        ++ (write_str label
            ++ (write_u64_le issued_at ++ (write_optional not_after ++ write_str_vec fallback))))
body (revocation master subkey revoked_at) =
    write_str master ++ (write_str subkey ++ write_u64_le revoked_at)
body (prefs_blob master version digest) = write_str master ++ (write_u64_le version ++ digest)
body (pairing_offer master home_hubs token issued_at expires_at) =
    write_str master
    ++ (write_str_vec home_hubs
        ++ (write_str token ++ (write_u64_le issued_at ++ write_u64_le expires_at)))
body (pairing_claim token subkey label) = write_str token ++ (write_str subkey ++ write_str label)
body (dh_key pubkey dh_pubkey) = write_str pubkey ++ write_str dh_pubkey
body (public_profile pubkey hubs issued_at) =
    write_str pubkey
    ++ (write_u64_le issued_at ++ (write_u32_le (length hubs % 2 ^ 32) ++ write_entries hubs))

-- `signing_bytes` of every message type
unfoldable pub signing_bytes : Signed → Bytes
signing_bytes m = tag m ++ body m
