-- ===== src/Recovery/Outcome.antt =====
-- What a decision on a new key changes.
use voxply_server.Common.{subst, eq_refl, refl}
use voxply_server.Common.{subst}
use voxply_server.Common.{
  ◌≡◌, refl, Bool, true, not, ◌&&◌, ◌||◌, some, List, [], ◌∷◌, String, ◌==◌, eq_iff, if◌then◌else◌,
  arith, inl, inr, Bool-cases,
}
use voxply_server.Common.Int.{ℤ}
use voxply_server.Exec.{ok, ◌>>=◌}
use voxply_server.Sql.{exists_where, fetch_all, insert_row}
use voxply_server.Sql.Laws.{exists-insert}
use voxply_server.Sql.Keys.{present-delete_key, fetch-update}
use voxply_server.Permissions.{holds_role}
use voxply_server.Moderation.{end_sessions}
use voxply_server.Moderation.Effects.{has_session}
use voxply_server.Db.{Db, UserRole, RotationRequest, Session}
use voxply_server.Recovery.{set_request}
use voxply_server.Recovery.Decide.{
  admin_approve, copy_roles, transfer_roles, ensure_user, find_request, fetch_rotation_request,
  decided,
}

exists-fetch :
    {R : Type 0} (p q : R → Bool) (rs : List R)
    → exists_where p (fetch_all q rs) ≡ exists_where (λ r. q r && p r) rs
unfolding exists_where fetch_all
exists-fetch p q [] = refl
exists-fetch p q (r ∷ rs) = ground (arith, exists-fetch p q rs)

abbrev held : String → String → List UserRole → Bool
held k role rows = exists_where (λ x. x.user_public_key == k && x.role_id == role) rows

-- a row for the new key is added only where it is not there, which makes no difference to who holds what
copy_one :
    (now : ℤ) (new role_id : String) (rows : List UserRole) (k role : String)
    → held k role (
        if held new role_id rows
        then rows
        else insert_row
            (record { user_public_key = new; role_id = role_id; assigned_at = now })
            rows)
      ≡ (held k role rows || (new == k && role_id == role))
copy_one now new role_id rows k role = elim (Bool-cases (held new role_id rows)) [
  | inl e ↦ rw e (elim (Bool-cases (new == k && role_id == role)) [
    | inl t ↦
        let here : held k role rows ≡ true =
          subst (λ x. held x role rows ≡ true) ((eq_iff new k).0 (ground arith))
            (subst (λ x. held new x rows ≡ true) ((eq_iff role_id role).0 (ground arith)) e) in
        ground arith
    | inr t ↦ ground arith
  ])
  | inr e ↦ rw e (
      exists-insert (λ x. x.user_public_key == k && x.role_id == role)
        (record { user_public_key = new; role_id = role_id; assigned_at = now }) rows)
]

copy_roles-held :
    (now : ℤ) (new : String) (urs rows : List UserRole) (k role : String)
    → held k role (copy_roles now new urs rows)
      ≡ (held k role rows || (new == k && exists_where (λ x. x.role_id == role) urs))
unfolding copy_roles exists_where
copy_roles-held now new [] rows k role = ground arith
copy_roles-held now new (ur ∷ urs) rows k role = ground (
  arith,
  copy_roles-held now new urs
      (if held new ur.role_id rows
        then rows
        else insert_row (record { user_public_key = new; role_id = ur.role_id; assigned_at = now })
            rows)
      k role,
  copy_one now new ur.role_id rows k role,
)

-- After an approval that succeeds, the new key has the roles of the old one besides its own, nobody
-- else has a role more or less, the old key has no session left, and the request is decided, by this
-- admin at this time.
pub admin_approve-holds_role :
    (now : ℤ) (user id : String) (db : Db) (row : RotationRequest)
    → (admin_approve now user id db).0 ≡ ok tt
    → find_request id db ≡ some row
    → ((k role : String)
        → holds_role k role (admin_approve now user id db).1
          ≡ (holds_role k role db || (row.new_pubkey == k && holds_role row.old_pubkey role db)))
      × ((k : String)
          → has_session k (admin_approve now user id db).1
            ≡ (not (row.old_pubkey == k) && has_session k db))
      × (find_request id (admin_approve now user id db).1 ≡ some (decided now user "approved" row))
unfolding admin_approve fetch_rotation_request find_request end_sessions set_request transfer_roles
    ensure_user holds_role ◌>>=◌
admin_approve-holds_role now user id db row h found = (
  λ k role. ground (
    arith,
    copy_roles-held now row.new_pubkey
        (fetch_all (λ ur. ur.user_public_key == row.old_pubkey) db.user_roles) db.user_roles k role,
    exists-fetch (λ x. x.role_id == role) (λ ur. ur.user_public_key == row.old_pubkey)
        db.user_roles,
  ),
  λ k.
      ground
        (arith, present-delete_key (λ (s : Session). s.public_key) row.old_pubkey k db.sessions),
  ground (
    arith,
    fetch-update (λ (r : RotationRequest). r.id) (decided now user "approved") (λ r. refl) id id
        db.key_rotation_requests,
    eq_refl id,
  ),
)
