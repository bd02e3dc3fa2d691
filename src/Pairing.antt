-- ===== src/Pairing.antt =====
-- hub/src/routes/pairing.rs: a new device is paired by way of an offer that is pending, then claimed,
-- then complete. A request reads the clock several times; the model gives it one time, `now`, in
-- whole seconds. `updated_at` and `created_at` hold that time.
pub mod Invariant
pub mod Status
pub mod Progress
use voxply_server.Common.{
  true, false, [], ◌∷◌, ℕ, ◌-◌, Bool, not, ◌&&◌, Option, none, some, List, map, length, String,
  ◌==◌, ltb, leb, if◌then◌else◌, map_option,
}
use Prim.Native.String.{◌++◌}
use voxply_server.Common.Int.{pos, ltb_ℤ, as_i64}
use voxply_server.Crypto.{Crypto, check_sig}
use voxply_server.Wire.{signing_bytes, pairing_offer, pairing_claim, subkey_cert}
use voxply_server.Exec.{
  Exec, pure, gets, ok_or, modify, refuse_if, when, bad_request, not_found, conflict, gone,
  db_error, ◌>>=◌, ◌>>◌, Reply, err, ok, internal_server_error,
}
use voxply_server.Sql.{exists_where, fetch_optional, delete_where, update_where, insert_row}
use voxply_server.Db.{Db, PairingRow, CertRow, SubkeyCert}

abbrev max_offer_lifetime_secs : ℕ
max_offer_lifetime_secs = 300

pub record PairingOffer : Type 0 where
  pub master_pubkey : String
  pub home_hubs : List String
  pub pairing_token : String
  pub issued_at : ℕ
  pub expires_at : ℕ
  pub signature : String

pub record PairingClaim : Type 0 where
  pub pairing_token : String
  pub subkey_pubkey : String
  pub device_label : String
  pub proof : String

pub record PairingComplete : Type 0 where
  pub pairing_token : String
  pub cert : SubkeyCert
  pub wrapped_blob_key_hex : String

pub data PairingStatus : Type 0 where
  is_pending : PairingStatus
  is_claimed : (subkey_pubkey device_label : String) → PairingStatus
  is_complete : (cert : SubkeyCert) (wrapped_blob_key_hex : String) → PairingStatus
  is_expired : PairingStatus

module _ (crypto : Crypto) where
  -- `verify` of the three messages
  unfoldable pub verify_offer : PairingOffer → Bool
  verify_offer o =
      check_sig crypto o.master_pubkey
        (signing_bytes (
          pairing_offer (crypto.utf8 o.master_pubkey) (map crypto.utf8 o.home_hubs)
            (crypto.utf8 o.pairing_token) o.issued_at o.expires_at))
        o.signature

  unfoldable pub verify_claim : PairingClaim → Bool
  verify_claim c =
      check_sig crypto c.subkey_pubkey
        (signing_bytes (
          pairing_claim (crypto.utf8 c.pairing_token) (crypto.utf8 c.subkey_pubkey)
            (crypto.utf8 c.device_label)))
        c.proof

  unfoldable pub verify_cert : SubkeyCert → Bool
  verify_cert c =
      check_sig crypto c.master_pubkey
        (signing_bytes (
          subkey_cert (crypto.utf8 c.master_pubkey) (crypto.utf8 c.subkey_pubkey)
            (crypto.utf8 c.device_label) c.issued_at c.not_after (map crypto.utf8 c.fallback_hubs)))
        c.signature

unfoldable pub pruned : ℕ → Db → Db
pruned now db = record db {
  pairing_offers = delete_where (λ r. ltb_ℤ r.expires_at (pos now)) db.pairing_offers;
}

unfoldable pub prune_expired : ℕ → Exec Db (Unit {0})
prune_expired now = modify (pruned now)

unfoldable pub find_offer : String → Db → Option PairingRow
find_offer token db = fetch_optional (λ r. r.pairing_token == token) db.pairing_offers

-- `INSERT ... ON CONFLICT(pairing_token) DO NOTHING`
unfoldable pub insert_offer : PairingRow → Exec Db (Unit {0})
insert_offer row = do
  taken ← gets (λ db. exists_where (λ r. r.pairing_token == row.pairing_token) db.pairing_offers)
  when (not taken) (modify (λ db. record db { pairing_offers = insert_row row db.pairing_offers }))

-- `UPDATE pairing_offers SET ... WHERE pairing_token = ? AND state = ?`
unfoldable pub advance : String → String → (PairingRow → PairingRow) → Db → Db
advance token from f db = record db {
  pairing_offers =
      update_where (λ r. r.pairing_token == token && r.state == from) f db.pairing_offers;
}

unfoldable pub offer_row : ℕ → PairingOffer → PairingRow
offer_row now offer = record {
  pairing_token = offer.pairing_token;
  master_pubkey = offer.master_pubkey;
  home_hubs = offer.home_hubs;
  issued_at = as_i64 offer.issued_at;
  expires_at = as_i64 offer.expires_at;
  offer_signature = offer.signature;
  state = "pending";
  subkey_pubkey = none;
  device_label = none;
  claim_proof = none;
  cert = none;
  wrapped_key_hex = none;
  created_at = pos now;
  updated_at = pos now;
}

unfoldable pub post_offer : Crypto → ℕ → PairingOffer → Exec Db (Unit {0})
post_offer crypto now offer = do
  refuse_if (not (verify_offer crypto offer)) bad_request "Bad signature"
  refuse_if (leb offer.expires_at offer.issued_at) bad_request "expires_at must exceed issued_at"
  refuse_if (ltb max_offer_lifetime_secs (offer.expires_at - offer.issued_at)) bad_request
      "offer lifetime exceeds 5 minutes"
  refuse_if (leb offer.expires_at now) bad_request "offer is already expired"
  refuse_if (ltb (length (crypto.utf8 offer.pairing_token)) 32) bad_request
      "pairing_token too short"
  prune_expired now
  insert_offer (offer_row now offer)

-- the columns that a claim sets
unfoldable pub claimed_row : ℕ → PairingClaim → PairingRow → PairingRow
claimed_row now claim r = record r {
  state = "claimed";
  subkey_pubkey = some claim.subkey_pubkey;
  device_label = some claim.device_label;
  claim_proof = some claim.proof;
  updated_at = pos now;
}

unfoldable pub post_claim : Crypto → ℕ → PairingClaim → Exec Db (Unit {0})
post_claim crypto now claim = do
  refuse_if (not (verify_claim crypto claim)) bad_request "Bad proof"
  prune_expired now
  found ← gets (find_offer claim.pairing_token)
  row ← ok_or not_found "Unknown or expired token" found
  refuse_if (ltb_ℤ row.expires_at (pos now)) gone "Token expired"
  refuse_if (not (row.state == "pending")) conflict
      ("Offer already in state '" ++ (row.state ++ "'"))
  modify (advance claim.pairing_token "pending" (claimed_row now claim))

-- `INSERT ... ON CONFLICT(master_pubkey, subkey_pubkey) DO UPDATE`, which keeps `registered_at`
unfoldable pub cert_row : ℕ → SubkeyCert → CertRow
cert_row now c = record {
  master_pubkey = c.master_pubkey;
  subkey_pubkey = c.subkey_pubkey;
  device_label = c.device_label;
  issued_at = as_i64 c.issued_at;
  not_after = map_option as_i64 c.not_after;
  fallback_hubs = c.fallback_hubs;
  signature = c.signature;
  registered_at = pos now;
}

abbrev pub is_cert_of : SubkeyCert → CertRow → Bool
is_cert_of c r = r.master_pubkey == c.master_pubkey && r.subkey_pubkey == c.subkey_pubkey

unfoldable pub upsert_cert : ℕ → SubkeyCert → Db → Db
upsert_cert now c db = record db {
  subkey_certs =
      if exists_where (is_cert_of c) db.subkey_certs
      then update_where (is_cert_of c)
          (λ r. record (cert_row now c) { registered_at = r.registered_at }) db.subkey_certs
      else insert_row (cert_row now c) db.subkey_certs;
}

-- the columns that a completion sets
unfoldable pub complete_row : ℕ → PairingComplete → PairingRow → PairingRow
complete_row now complete r = record r {
  state = "complete";
  cert = some complete.cert;
  wrapped_key_hex = some complete.wrapped_blob_key_hex;
  updated_at = pos now;
}

unfoldable pub is_key : String → Option String → Bool
is_key k none = false
is_key k (some k') = k == k'

-- the two writes are one transaction
unfoldable pub post_complete : Crypto → ℕ → PairingComplete → Exec Db (Unit {0})
post_complete crypto now complete = do
  refuse_if (not (verify_cert crypto complete.cert)) bad_request "Bad cert signature"
  prune_expired now
  found ← gets (find_offer complete.pairing_token)
  row ← ok_or not_found "Unknown or expired token" found
  refuse_if (ltb_ℤ row.expires_at (pos now)) gone "Token expired"
  refuse_if (not (row.state == "claimed")) conflict
      ("Offer not in 'claimed' state (current: '" ++ (row.state ++ "')"))
  refuse_if (not (complete.cert.master_pubkey == row.master_pubkey)) bad_request
      "cert master_pubkey doesn't match offer"
  refuse_if (not (is_key complete.cert.subkey_pubkey row.subkey_pubkey)) bad_request
      "cert subkey_pubkey doesn't match claim"
  modify (λ db.
      advance complete.pairing_token "claimed" (complete_row now complete)
        (upsert_cert now complete.cert db))

-- what a row is answered with; `none` where the handler panics at a column that is null
abbrev claimed_status : Option String → Option String → Option (Reply PairingStatus)
claimed_status (some k) (some l) = some (ok (is_claimed k l))
claimed_status k l = none

abbrev complete_status : Option SubkeyCert → Option String → Option (Reply PairingStatus)
complete_status (some c) (some w) = some (ok (is_complete c w))
complete_status c w = none

unfoldable pub status_of : PairingRow → Option (Reply PairingStatus)
status_of row =
    if row.state == "pending"
    then some (ok is_pending)
    else if row.state == "claimed"
    then claimed_status row.subkey_pubkey row.device_label
    else if row.state == "complete"
    then complete_status row.cert row.wrapped_key_hex
    else some (err internal_server_error "DB error")

unfoldable pub get_status : ℕ → String → Db → Option (Reply PairingStatus)
get_status now token db = elim (find_offer token db) [
  | none ↦ some (err not_found "Unknown token")
  | some row ↦ elim (ltb_ℤ row.expires_at (pos now)) [
    | true ↦ some (ok is_expired)
    | false ↦ status_of row
  ]
]

-- the requests that change the database, and what a run of them leaves
pub data PairingOp : Type 0 where
  offer : ℕ → PairingOffer → PairingOp
  claim : ℕ → PairingClaim → PairingOp
  complete : ℕ → PairingComplete → PairingOp

unfoldable pub pairing_op : Crypto → PairingOp → Db → Db
pairing_op crypto (offer now o) db = (post_offer crypto now o db).1
pairing_op crypto (claim now c) db = (post_claim crypto now c db).1
pairing_op crypto (complete now c) db = (post_complete crypto now c db).1

unfoldable pub pairing_ops : Crypto → List PairingOp → Db → Db
pairing_ops crypto [] db = db
pairing_ops crypto (op ∷ ops) db = pairing_ops crypto ops (pairing_op crypto op db)
