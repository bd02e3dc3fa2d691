-- ===== src/Recovery.antt =====
-- hub/src/routes/recovery.rs: the contacts who may attest that a user has a new key, the requests to
-- take such a key, and the decisions of the admins. The clock and fresh identifiers are arguments:
-- `uuid n` is that of the attestation that has n others after it.
pub mod Decide
pub mod Outcome
pub mod Closed
use voxply_server.Common.{
  ℕ, suc, Bool, true, false, not, ◌&&◌, ◌||◌, ◌%◌, ◌^◌, Option, none, some, List, [], ◌∷◌, map,
  length, String, ◌==◌, ltb, leb, if◌then◌else◌,
}
use voxply_server.Common.Int.{ℤ, pos, ltb_ℤ, as_u64}
use voxply_server.Exec.{
  Exec, pure, gets, ok_or, modify, refuse_if, when, for_each, bad_request, not_found, conflict,
  constrained, ◌>>=◌, ◌>>◌,
}
use voxply_server.Sql.{
  count_where, exists_where, fetch_optional, fetch_all, delete_where, update_where, insert_row,
  order_by, order_by_desc,
}
use voxply_server.Permissions.{user_permissions, require, admin, contains, holds_role}
use voxply_server.Moderation.{end_sessions}
use voxply_server.Db.{
  Db, User, UserRole, RecoverySetting, RecoveryContact, RotationRequest, Attestation,
}

pub record SetContactsRequest : Type 0 where
  pub contacts : List String
  pub threshold : ℕ

pub record ContactsResponse : Type 0 where
  pub owner_pubkey : String
  pub contacts : List String
  pub threshold : ℕ

pub record AttestationInput : Type 0 where
  pub attester : String
  pub signature : String

pub record RotateKeyRequest : Type 0 where
  pub old_pubkey : String
  pub new_pubkey : String
  pub reason : Option String
  pub attestations : List AttestationInput

pub record RotationRequestResponse : Type 0 where
  pub id : String
  pub old_pubkey : String
  pub new_pubkey : String
  pub status : String
  pub created_at : ℤ
  pub attestation_count : ℕ

pub record PendingRequestAdmin : Type 0 where
  pub id : String
  pub old_pubkey : String
  pub new_pubkey : String
  pub reason : Option String
  pub status : String
  pub created_at : ℤ
  pub attestation_count : ℕ

-- `INSERT INTO recovery_settings ... ON CONFLICT(owner_pubkey) DO UPDATE` of the threshold
unfoldable pub upsert_threshold : ℤ → String → ℤ → Db → Db
upsert_threshold now owner threshold db = record db {
  recovery_settings =
      if exists_where (λ r. r.owner_pubkey == owner) db.recovery_settings
      then update_where (λ r. r.owner_pubkey == owner) (λ r. record r { threshold = threshold })
          db.recovery_settings
      else insert_row (record { owner_pubkey = owner; threshold = threshold; created_at = now })
          db.recovery_settings;
}

unfoldable pub is_contact : String → String → Db → Bool
is_contact owner key db =
    exists_where (λ c. c.owner_pubkey == owner && c.contact_pubkey == key) db.recovery_contacts

-- `INSERT OR IGNORE`: the pair is the primary key
unfoldable pub insert_contact : ℤ → String → String → Exec Db (Unit {0})
insert_contact now owner contact = do
  present ← gets (is_contact owner contact)
  when (not present) (
      modify (λ db. record db {
        recovery_contacts =
            insert_row (record { owner_pubkey = owner; contact_pubkey = contact; created_at = now })
              db.recovery_contacts;
      }))

unfoldable pub put_contacts : ℤ → String → SetContactsRequest → Exec Db (Unit {0})
put_contacts now user req = do
  refuse_if (ltb 5 (length req.contacts)) bad_request "Maximum 5 recovery contacts"
  refuse_if (leb req.threshold 0 || ltb (length req.contacts) req.threshold) bad_request
      "threshold must be between 1 and the number of contacts"
  refuse_if (contains user req.contacts) bad_request "You cannot be your own recovery contact"
  modify (upsert_threshold now user (pos req.threshold))
  modify (λ db. record db {
    recovery_contacts = delete_where (λ c. c.owner_pubkey == user) db.recovery_contacts;
  })
  for_each (insert_contact now user) req.contacts

unfoldable pub find_threshold : String → Db → Option RecoverySetting
find_threshold owner db = fetch_optional (λ r. r.owner_pubkey == owner) db.recovery_settings

-- `threshold.unwrap_or(0) as u32`
abbrev pub threshold_or_zero : Option RecoverySetting → ℕ
threshold_or_zero none = 0
threshold_or_zero (some r) = as_u64 r.threshold % 2 ^ 32

unfoldable pub get_contacts : String → Exec Db ContactsResponse
get_contacts user = gets (λ db. record {
  owner_pubkey = user;
  contacts =
      map (λ c. c.contact_pubkey)
        (order_by (λ c. c.created_at)
          (fetch_all (λ c. c.owner_pubkey == user) db.recovery_contacts));
  threshold = threshold_or_zero (find_threshold user db);
})

unfoldable pub delete_contact : String → String → Exec Db (Unit {0})
delete_contact user pubkey = modify (λ db. record db {
  recovery_contacts =
      delete_where (λ c. c.owner_pubkey == user && c.contact_pubkey == pubkey) db.recovery_contacts;
})

-- `id` is the primary key
unfoldable pub insert_request : RotationRequest → Exec Db (Unit {0})
insert_request row =
    constrained (λ db. exists_where (λ r. r.id == row.id) db.key_rotation_requests)
      (λ db. record db { key_rotation_requests = insert_row row db.key_rotation_requests })

-- `UPDATE key_rotation_requests SET ... WHERE id = ?`
unfoldable pub set_request : String → (RotationRequest → RotationRequest) → Exec Db (Unit {0})
set_request id f = modify (λ db. record db {
  key_rotation_requests = update_where (λ r. r.id == id) f db.key_rotation_requests;
})

-- `INSERT OR IGNORE`: `id` is the primary key and (request_id, attester_pubkey) is unique
unfoldable pub insert_attestation : Attestation → Exec Db (Unit {0})
insert_attestation row = do
  present ← gets (λ db.
      exists_where
        (λ a.
          a.id == row.id
          || (a.request_id == row.request_id && a.attester_pubkey == row.attester_pubkey))
        db.rotation_attestations)
  when (not present)
      (modify (λ db. record db { rotation_attestations = insert_row row db.rotation_attestations }))

-- a contact of the old key, and neither of the two keys
unfoldable pub may_attest : RotateKeyRequest → Db → String → Bool
may_attest req db attester =
    not (attester == req.old_pubkey || attester == req.new_pubkey)
    && is_contact req.old_pubkey attester db

-- the loop over the attestations, which counts those that it does not skip
unfoldable pub store_attestations :
    (ℕ → String) → ℤ → String → RotateKeyRequest → ℕ → List AttestationInput → Exec Db ℕ
store_attestations uuid now id req count [] = pure count
store_attestations uuid now id req count (a ∷ later) = do
  allowed ← gets (λ db. may_attest req db a.attester)
  when allowed (
      insert_attestation (record {
        id = uuid (length later);
        request_id = id;
        attester_pubkey = a.attester;
        signature = a.signature;
        attested_at = now;
      }))
  store_attestations uuid now id req (if allowed then suc count else count) later

-- the threshold is reached
abbrev pub status_for : Bool → String
status_for ready = if ready then "ready_for_review" else "pending"

-- the attestations of a request that is stored, and the status that they give it
unfoldable pub attest_request :
    (ℕ → String) → ℤ → String → RotateKeyRequest → ℤ → Exec Db RotationRequestResponse
attest_request uuid now id req threshold = do
  valid_count ← store_attestations uuid now id req 0 req.attestations
  let ready : Bool = not (ltb_ℤ (pos valid_count) threshold)
  when ready (set_request id (λ r. record r { status = "ready_for_review" }))
  pure (record {
    id = id;
    old_pubkey = req.old_pubkey;
    new_pubkey = req.new_pubkey;
    status = status_for ready;
    created_at = now;
    attestation_count = valid_count;
  })

unfoldable pub post_rotate_key :
    (ℕ → String) → ℤ → String → RotateKeyRequest → Exec Db RotationRequestResponse
post_rotate_key uuid now id req = do
  found ← gets (find_threshold req.old_pubkey)
  setting ← ok_or bad_request "The old pubkey has no recovery contacts configured on this hub" found
  refuse_if (req.new_pubkey == req.old_pubkey) bad_request "new_pubkey must differ from old_pubkey"
  insert_request (record {
    id = id;
    old_pubkey = req.old_pubkey;
    new_pubkey = req.new_pubkey;
    reason = req.reason;
    status = "pending";
    created_at = now;
    decided_at = none;
    decided_by = none;
  })
  attest_request uuid now id req setting.threshold
