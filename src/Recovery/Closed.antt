-- ===== src/Recovery/Closed.antt =====
-- A decision on a new key is final.
use voxply_server.Exec.{when}
use voxply_server.Exec.Rules.{Preserves-when}
use voxply_server.Recovery.{attest_request}
use voxply_server.Exec.Rules.{modify_then, Preserves-at}
use voxply_server.Common.{refl}
use voxply_server.Sql.Keys.{fetch-insert}
use voxply_server.Sql.Laws.{fetch_optional-exists}
use voxply_server.Recovery.{
  insert_request, put_contacts, upsert_threshold, insert_contact, delete_contact, post_rotate_key,
  SetContactsRequest,
}
use voxply_server.Exec.Rules.{Preserves-of_at, gets_then, ok_or_then, refuse_then, assoc_then}
use voxply_server.Common.{subst, sym, Bool-cases, inl, inr}
use voxply_server.Db.{Attestation}
use voxply_server.Common.{
  ◌≡◌, refl, sym, subst, ℕ, Bool, true, false, none, some, List, [], ◌∷◌, String, ◌==◌, eq_iff,
  arith, inl, inr, Bool-cases,
}
use voxply_server.Common.Int.{ℤ}
use voxply_server.Exec.{◌>>=◌}
use voxply_server.Exec.Rules.{
  Preserves, Preserves-modify, Preserves-at, preserves_rules, gets_then, ok_or_then, refuse_then,
  assoc_then, Preserves-of_at, modify_then,
}
use voxply_server.Sql.{exists_where, insert_row}
use voxply_server.Sql.Laws.{fetch_optional-exists}
use voxply_server.Sql.Keys.{fetch-update, fetch-insert}
use voxply_server.Moderation.{end_sessions}
use voxply_server.Db.{Db, RotationRequest}
use voxply_server.Recovery.{
  set_request, insert_request, insert_attestation, store_attestations, post_rotate_key,
  RotateKeyRequest, AttestationInput, put_contacts, delete_contact, SetContactsRequest,
  upsert_threshold, insert_contact,
}
use voxply_server.Recovery.Decide.{
  admin_approve, admin_deny, transfer_roles, ensure_user, find_request, fetch_rotation_request,
  decided, is_open,
}

-- the requests that change the state of recovery
pub data RecoveryOp : Type 0 where
  contacts : ℤ → String → SetContactsRequest → RecoveryOp
  forget : (user pubkey : String) → RecoveryOp
  rotate : (ℕ → String) → ℤ → String → RotateKeyRequest → RecoveryOp
  approve deny : ℤ → (user id : String) → RecoveryOp

unfoldable pub recovery_op : RecoveryOp → Db → Db
recovery_op (contacts now user req) db = (put_contacts now user req db).1
recovery_op (forget user pubkey) db = (delete_contact user pubkey db).1
recovery_op (rotate uuid now id req) db = (post_rotate_key uuid now id req db).1
recovery_op (approve now user id) db = (admin_approve now user id db).1
recovery_op (deny now user id) db = (admin_deny now user id db).1

unfoldable pub recovery_ops : List RecoveryOp → Db → Db
recovery_ops [] db = db
recovery_ops (op ∷ ops) db = recovery_ops ops (recovery_op op db)

-- the request `id` is `row`
abbrev Is : String → RotationRequest → Db → Type 0
Is id row db = find_request id db ≡ some row

module _ (id : String) (row : RotationRequest) where
  set_request-Is :
      (other : String) (f : RotationRequest → RotationRequest)
      → ((r : RotationRequest) → (f r).id ≡ r.id)
      → (other == id) ≡ false
      → Preserves (Is id row) (set_request other f)
  unfolding set_request find_request
  set_request-Is other f same apart = Preserves-modify _ λ db h. ground (
    arith,
    fetch-update (λ (r : RotationRequest). r.id) f same other id db.key_rotation_requests,
    eq_iff id other,
    eq_iff other id,
  )

  insert_attestation-Is : (a : Attestation) → Preserves (Is id row) (insert_attestation a)
  unfolding insert_attestation find_request
  insert_attestation-Is a = search preserves_rules depth 12

  store-Is :
      (uuid : ℕ → String) (now : ℤ) (other : String) (req : RotateKeyRequest) (n : ℕ)
      (inputs : List AttestationInput)
      → Preserves (Is id row) (store_attestations uuid now other req n inputs)
  unfolding store_attestations
  store-Is uuid now other req n [] = search preserves_rules
  store-Is uuid now other req n (a ∷ later) =
      let rest : (m : ℕ) → Preserves (Is id row) (store_attestations uuid now other req m later) =
        λ m. store-Is uuid now other req m later in
      search (preserves_rules, insert_attestation-Is, rest) depth 12

  approve-Is :
      (now : ℤ) (user other : String) (db : Db)
      → is_open row ≡ false
      → Is id row db
      → Is id row (admin_approve now user other db).1
  unfolding admin_approve fetch_rotation_request find_request end_sessions set_request
      transfer_roles ensure_user ◌>>=◌
  approve-Is now user other db closed h = ground (
    arith,
    fetch-update (λ (r : RotationRequest). r.id) (decided now user "approved") (λ r. refl) other id
        db.key_rotation_requests,
    eq_iff id other,
    eq_iff other id,
  )

  deny-Is :
      (now : ℤ) (user other : String) (db : Db)
      → is_open row ≡ false
      → Is id row db
      → Is id row (admin_deny now user other db).1
  unfolding admin_deny fetch_rotation_request find_request set_request ◌>>=◌
  deny-Is now user other db closed h = ground (
    arith,
    fetch-update (λ (r : RotationRequest). r.id) (decided now user "rejected") (λ r. refl) other id
        db.key_rotation_requests,
    eq_iff id other,
    eq_iff other id,
  )

  added-Is :
      (new : RotationRequest) (db : Db)
      → Is id row db
      → Is id row (record db { key_rotation_requests = insert_row new db.key_rotation_requests })
  unfolding find_request
  added-Is new db h =
      ground (arith, fetch-insert (λ (r : RotationRequest). r.id) id new db.key_rotation_requests)

  -- a new request has another id
  apart :
      (other : String) (db : Db)
      → exists_where (λ r. r.id == other) db.key_rotation_requests ≡ false
      → Is id row db
      → (other == id) ≡ false
  unfolding find_request
  apart other db fresh h = elim (Bool-cases (other == id)) [
    | inl t ↦
        let here : exists_where (λ r. r.id == other) db.key_rotation_requests ≡ true =
          subst (λ x. exists_where (λ r. r.id == x) db.key_rotation_requests ≡ true)
            (sym ((eq_iff other id).0 t))
            (fetch_optional-exists (λ r. r.id == id) db.key_rotation_requests row h) in
        absurd (ground arith)
    | inr t ↦ t
  ]

  attest-Is :
      (uuid : ℕ → String) (now : ℤ) (other : String) (req : RotateKeyRequest) (threshold : ℤ)
      → (other == id) ≡ false
      → Preserves (Is id row) (attest_request uuid now other req threshold)
  unfolding attest_request
  attest-Is uuid now other req threshold ne =
      let flip : (b : Bool)
          → Preserves (Is id row)
              (when b (set_request other (λ r. record r { status = "ready_for_review" }))) =
        λ b. Preserves-when b _ (λ _. set_request-Is other _ (λ r. refl) ne) in
      search (preserves_rules, store-Is, flip) depth 12

  rotate-Is :
      (uuid : ℕ → String) (now : ℤ) (other : String) (req : RotateKeyRequest)
      → Preserves (Is id row) (post_rotate_key uuid now other req)
  unfolding post_rotate_key insert_request
  rotate-Is uuid now other req = Preserves-of_at λ s. gets_then _ _ s (
      ok_or_then _ _ _ _ s λ setting _. refuse_then _ _ _ _ s λ _. record {
        at = λ h.
            (assoc_then _ _ _ s (
                gets_then _ _ s (
                  assoc_then _ _ _ s (
                    refuse_then _ _ _ _ s λ fresh.
                      let request : RotationRequest = record {
                        id = other;
                        old_pubkey = req.old_pubkey;
                        new_pubkey = req.new_pubkey;
                        reason = req.reason;
                        status = "pending";
                        created_at = now;
                        decided_at = none;
                        decided_by = none;
                      } in
                      modify_then
                        (λ db. record db {
                          key_rotation_requests = insert_row request db.key_rotation_requests;
                        })
                        (attest_request uuid now other req setting.threshold) s (added-Is request s)
                        (Preserves-at (
                          attest-Is uuid now other req setting.threshold
                            (apart other s fresh h))))))).at
              h;
      })

  contacts-Is :
      (now : ℤ) (user : String) (req : SetContactsRequest)
      → Preserves (Is id row) (put_contacts now user req)
  unfolding put_contacts upsert_threshold insert_contact find_request
  contacts-Is now user req = search preserves_rules depth 14

  forget-Is : (user pubkey : String) → Preserves (Is id row) (delete_contact user pubkey)
  unfolding delete_contact find_request
  forget-Is user pubkey = search preserves_rules depth 14

module _ (id : String) (row : RotationRequest) (closed : is_open row ≡ false) where
  recovery_op-Is : (op : RecoveryOp) (db : Db) → Is id row db → Is id row (recovery_op op db)
  unfolding recovery_op
  recovery_op-Is (contacts now user req) db h = (contacts-Is id row now user req).at db h
  recovery_op-Is (forget user pubkey) db h = (forget-Is id row user pubkey).at db h
  recovery_op-Is (rotate uuid now other req) db h = (rotate-Is id row uuid now other req).at db h
  recovery_op-Is (approve now user other) db h = approve-Is id row now user other db closed h
  recovery_op-Is (deny now user other) db h = deny-Is id row now user other db closed h

  -- A request for a new key that an admin has approved or rejected stays as it is, with the decision,
  -- its time and its admin, whatever requests about recovery follow.
  pub recovery_ops-closed :
      (ops : List RecoveryOp) (db : Db)
      → find_request id db ≡ some row
      → find_request id (recovery_ops ops db) ≡ some row
  unfolding recovery_ops
  recovery_ops-closed [] db h = h
  recovery_ops-closed (op ∷ ops) db h =
      recovery_ops-closed ops (recovery_op op db) (recovery_op-Is op db h)
