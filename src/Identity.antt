-- ===== src/Identity.antt =====
-- hub/src/routes/identity.rs: what a hub keeps for a master key, that is its home hubs, its devices, the
-- keys it has revoked and its preferences, and the list of keys that a user takes no messages from.
-- `master` is the key in the path of the request. Columns of JSON hold the list.
pub mod Messages
pub mod Register
pub mod Versions
pub mod Blocks
use voxply_server.Common.{
  ℕ, Bool, not, ◌&&◌, none, some, Option, List, map, map_option, String, ◌==◌,
}
use voxply_server.Common.Int.{ℤ, pos, as_i64, as_u64, ltb_ℤ}
use voxply_server.Exec.{
  Exec, pure, gets, ok_or, modify, refuse_if, when, if_some, for_each, bad_request, not_found,
  conflict, ◌>>=◌, ◌>>◌,
}
use voxply_server.Sql.{
  exists_where, fetch_optional, fetch_all, delete_where, insert_row, upsert_row, order_by,
}
use voxply_server.Crypto.{Crypto}
use voxply_server.Db.{Db, SubkeyCert, CertRow, DesignationRow, RevocationRow, PrefsRow, DmBlock}
use voxply_server.Pairing.{verify_cert, upsert_cert}
use voxply_server.Identity.Messages.{
  HomeHubList, RevocationEntry, SignedPrefsBlob, verify_home_hub_list, verify_revocation,
  verify_prefs_blob,
}

unfoldable pub find_designation : String → Db → Option DesignationRow
find_designation master db =
    fetch_optional (λ r. r.master_pubkey == master) db.home_hub_designations

abbrev pub home_hubs_of : DesignationRow → HomeHubList
home_hubs_of r = record {
  master_pubkey = r.master_pubkey;
  hubs = r.hubs;
  issued_at = as_u64 r.issued_at;
  sequence = as_u64 r.sequence;
  signature = r.signature;
}

unfoldable pub get_designation : String → Exec Db HomeHubList
get_designation master = do
  found ← gets (find_designation master)
  row ← ok_or not_found "No designation" found
  pure (home_hubs_of row)

unfoldable pub designation_row : ℕ → HomeHubList → DesignationRow
designation_row now body = record {
  master_pubkey = body.master_pubkey;
  hubs = body.hubs;
  issued_at = as_i64 body.issued_at;
  sequence = as_i64 body.sequence;
  signature = body.signature;
  updated_at = pos now;
}

-- the columns that the update of a conflicting row leaves alone
abbrev pub for_master : String → DesignationRow → DesignationRow
for_master k r = record r { master_pubkey = k }

unfoldable pub write_designation : DesignationRow → Db → Db
write_designation row db = record db {
  home_hub_designations = upsert_row (λ r. r.master_pubkey) for_master row db.home_hub_designations;
}

-- `version <= current`
abbrev pub is_stale : ℤ → ℤ → Bool
is_stale version current = not (ltb_ℤ current version)

unfoldable pub put_designation : Crypto → ℕ → String → HomeHubList → Exec Db (Unit {0})
put_designation crypto now master body = do
  refuse_if (not (body.master_pubkey == master)) bad_request
      "master_pubkey mismatch between URL and body"
  refuse_if (not (verify_home_hub_list crypto body)) bad_request "Bad signature"
  current ← gets (find_designation master)
  if_some current (λ row.
      refuse_if (is_stale (as_i64 body.sequence) row.sequence) conflict
        "sequence must exceed current")
  modify (write_designation (designation_row now body))

abbrev pub cert_of : CertRow → SubkeyCert
cert_of r = record {
  master_pubkey = r.master_pubkey;
  subkey_pubkey = r.subkey_pubkey;
  device_label = r.device_label;
  issued_at = as_u64 r.issued_at;
  not_after = map_option as_u64 r.not_after;
  fallback_hubs = r.fallback_hubs;
  signature = r.signature;
}

unfoldable pub list_devices : String → Exec Db (List SubkeyCert)
list_devices master = gets (λ db.
    map cert_of
      (order_by (λ r. r.issued_at) (fetch_all (λ r. r.master_pubkey == master) db.subkey_certs)))

unfoldable pub post_device : Crypto → ℕ → String → SubkeyCert → Exec Db (Unit {0})
post_device crypto now master cert = do
  refuse_if (not (cert.master_pubkey == master)) bad_request
      "master_pubkey mismatch between URL and body"
  refuse_if (not (verify_cert crypto cert)) bad_request "Bad signature"
  modify (upsert_cert now cert)

abbrev pub entry_of : RevocationRow → RevocationEntry
entry_of r = record {
  master_pubkey = r.master_pubkey;
  subkey_pubkey = r.subkey_pubkey;
  revoked_at = as_u64 r.revoked_at;
  signature = r.signature;
}

unfoldable pub list_revocations : String → Exec Db (List RevocationEntry)
list_revocations master = gets (λ db. map entry_of (
    order_by (λ r. r.revoked_at)
      (fetch_all (λ r. r.master_pubkey == master) db.subkey_revocations)))

abbrev pub is_entry_of : RevocationEntry → RevocationRow → Bool
is_entry_of e r = r.master_pubkey == e.master_pubkey && r.subkey_pubkey == e.subkey_pubkey

unfoldable pub revocation_row : ℕ → RevocationEntry → RevocationRow
revocation_row now e = record {
  master_pubkey = e.master_pubkey;
  subkey_pubkey = e.subkey_pubkey;
  revoked_at = as_i64 e.revoked_at;
  signature = e.signature;
  registered_at = pos now;
}

-- `INSERT ... ON CONFLICT(master_pubkey, subkey_pubkey) DO NOTHING`
unfoldable pub post_revocation : Crypto → ℕ → String → RevocationEntry → Exec Db (Unit {0})
post_revocation crypto now master entry = do
  refuse_if (not (entry.master_pubkey == master)) bad_request
      "master_pubkey mismatch between URL and body"
  refuse_if (not (verify_revocation crypto entry)) bad_request "Bad signature"
  present ← gets (λ db. exists_where (is_entry_of entry) db.subkey_revocations)
  when (not present) (
      modify (λ db. record db {
        subkey_revocations = insert_row (revocation_row now entry) db.subkey_revocations;
      }))

unfoldable pub find_prefs : String → Db → Option PrefsRow
find_prefs master db = fetch_optional (λ r. r.master_pubkey == master) db.prefs_blobs

abbrev pub blob_of : PrefsRow → SignedPrefsBlob
blob_of r = record {
  master_pubkey = r.master_pubkey;
  blob_version = as_u64 r.blob_version;
  ciphertext_hex = r.ciphertext_hex;
  signature = r.signature;
}

unfoldable pub get_prefs : String → Exec Db SignedPrefsBlob
get_prefs master = do
  found ← gets (find_prefs master)
  row ← ok_or not_found "No prefs blob" found
  pure (blob_of row)

unfoldable pub prefs_row : ℕ → SignedPrefsBlob → PrefsRow
prefs_row now blob = record {
  master_pubkey = blob.master_pubkey;
  blob_version = as_i64 blob.blob_version;
  ciphertext_hex = blob.ciphertext_hex;
  signature = blob.signature;
  updated_at = pos now;
}

abbrev pub prefs_for : String → PrefsRow → PrefsRow
prefs_for k r = record r { master_pubkey = k }

unfoldable pub write_prefs : PrefsRow → Db → Db
write_prefs row db = record db {
  prefs_blobs = upsert_row (λ r. r.master_pubkey) prefs_for row db.prefs_blobs;
}

unfoldable pub put_prefs : Crypto → ℕ → String → SignedPrefsBlob → Exec Db (Unit {0})
put_prefs crypto now master blob = do
  refuse_if (not (blob.master_pubkey == master)) bad_request
      "master_pubkey mismatch between URL and body"
  refuse_if (not (verify_prefs_blob crypto blob)) bad_request "Bad signature"
  current ← gets (find_prefs master)
  if_some current (λ row.
      refuse_if (is_stale (as_i64 blob.blob_version) row.blob_version) conflict
        "blob_version must exceed current")
  modify (write_prefs (prefs_row now blob))

unfoldable pub is_dm_blocked : String → String → Db → Bool
is_dm_blocked recipient sender db =
    exists_where (λ b. b.owner_pubkey == recipient && b.blocked_pubkey == sender) db.dm_blocks

-- `INSERT OR IGNORE INTO dm_blocks`: the pair is the primary key
unfoldable pub insert_block : String → String → Exec Db (Unit {0})
insert_block owner blocked = do
  present ← gets (is_dm_blocked owner blocked)
  when (not present) (
      modify (λ db. record db {
        dm_blocks =
            insert_row (record { owner_pubkey = owner; blocked_pubkey = blocked }) db.dm_blocks;
      }))

unfoldable pub put_dm_blocks : String → List String → Exec Db (Unit {0})
put_dm_blocks user pubkeys = do
  modify (λ db. record db { dm_blocks = delete_where (λ b. b.owner_pubkey == user) db.dm_blocks })
  for_each (insert_block user) pubkeys

unfoldable pub get_dm_blocks : String → Exec Db (List String)
get_dm_blocks user =
    gets (λ db. map (λ b. b.blocked_pubkey) (fetch_all (λ b. b.owner_pubkey == user) db.dm_blocks))
