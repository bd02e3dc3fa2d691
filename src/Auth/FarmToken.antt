-- ===== src/Auth/FarmToken.antt =====
-- What a request with a farm token has shown.
use voxply_server.Common.{refl}
use voxply_server.Exec.{pure}
use voxply_server.Common.{subst, Option, none}
use voxply_server.Exec.{gets, ok_or, refuse_if, unauthorized, forbidden, ◌>>=◌, ◌>>◌}
use voxply_server.Auth.Middleware.{
  approval_of, pending_allowed_path, farm_user, refuse_pending, admit_farm_user, with_farm_token,
}
use voxply_server.Common.{not, ◌&&◌, eq_iff, false, ◌==◌}
use voxply_server.Exec.Success.{ok_then}
use voxply_server.Auth.Account.{in_db, AppState}
use voxply_server.Db.{Db}
use voxply_server.Moderation.{is_banned}
use voxply_server.Common.{◌≡◌, some, String, arith, Option-cases, inl, inr, ◌∙◌}
use voxply_server.Exec.{Reply, ok, err, ◌>>=◌}
use voxply_server.Auth.Account.{AppState}
use voxply_server.Auth.Middleware.{Caller, refetch, or_first, try_verify_farm_token}

-- the hub holds a key of the farm under which the token is that of `key`
abbrev pub Vouched : Caller → String → String → AppState → Type 0
Vouched caller token key s =
    (pk : String) × (s.cached_farm_pubkey ≡ some pk)
    × (try_verify_farm_token caller pk token ≡ ok key)

-- a user that may go on
abbrev pub Admitted : Caller → String → Db → Type 0
Admitted caller key db =
    (is_banned key db ≡ false)
    × ((approval_of key db == "pending" && not (caller.path == pending_allowed_path)) ≡ false)

refetch-Vouched :
    (caller : Caller) (token pk key : String) (first : Reply String) (s : AppState)
    → s.cached_farm_pubkey ≡ some pk
    → try_verify_farm_token caller pk token ≡ first
    → (refetch caller token first s).0 ≡ ok key
    → Vouched caller token key (refetch caller token first s).1
unfolding refetch or_first ◌>>=◌
refetch-Vouched caller token pk key (ok sub) s held tried h = (pk, held, tried ∙ h)
refetch-Vouched caller token pk key (err c m) s held tried h = elim (Option-cases s.farm_url) [
  | inl e ↦ absurd (ground arith)
  | inr (url, e) ↦ elim (Option-cases (caller.farm_info url)) [
    | inl i ↦ absurd (ground arith)
    | inr (fresh, i) ↦ (fresh, ground arith, ground arith)
  ]
]

module _ (caller : Caller) (token key : String) (s : AppState) where
  held-Vouched :
      (cached : Option String)
      → s.cached_farm_pubkey ≡ cached
      → ((ok_or unauthorized "no_farm_configured" cached >>= λ pk.
            refetch caller token (try_verify_farm_token caller pk token))
          s).0
        ≡ ok key
      → Vouched caller token key
          ((ok_or unauthorized "no_farm_configured" cached >>= λ pk.
              refetch caller token (try_verify_farm_token caller pk token))
            s).1
  unfolding ◌>>=◌
  held-Vouched none e h = absurd (ground arith)
  held-Vouched (some pk) e h = refetch-Vouched caller token pk key _ s e refl h

  farm_user-Vouched :
      (farm_user caller token s).0 ≡ ok key → Vouched caller token key (farm_user caller token s).1
  unfolding farm_user ◌>>=◌
  farm_user-Vouched h = held-Vouched s.cached_farm_pubkey refl h

-- what the checks at the end say of the database that they leave
last_checks :
    (caller : Caller) (key : String) (db : Db) (a : Unit {0})
    → ((gets (is_banned key) >>= λ banned.
          refuse_if banned forbidden "User is banned"
          >> (gets (approval_of key) >>= λ status. refuse_pending caller.path status))
        db).0
      ≡ ok a
    → Admitted caller key
        ((gets (is_banned key) >>= λ banned.
            refuse_if banned forbidden "User is banned"
            >> (gets (approval_of key) >>= λ status. refuse_pending caller.path status))
          db).1
unfolding refuse_pending ◌>>=◌
last_checks caller key db a h = ground (arith, eq_iff caller.path "/me")

admit_farm_user-Admitted :
    (caller : Caller) (key : String) (s : Db) (a : Unit {0})
    → (admit_farm_user caller key s).0 ≡ ok a
    → Admitted caller key (admit_farm_user caller key s).1
unfolding admit_farm_user
admit_farm_user-Admitted caller key s a h =
    let P : Db → Type 0 = Admitted caller key in
    ok_then P _ _ s a h λ _ _ h.
      ok_then P _ _ _ a h λ known _ h. ok_then P _ _ _ a h λ _ _ h. last_checks caller key _ a h

let_in :
    (caller : Caller) (token k key : String) (s : AppState)
    → Vouched caller token k s
    → ((in_db (admit_farm_user caller k) >> pure k) s).0 ≡ ok key
    → Vouched caller token key ((in_db (admit_farm_user caller k) >> pure k) s).1
      × Admitted caller key ((in_db (admit_farm_user caller k) >> pure k) s).1.db
unfolding in_db pure
let_in caller token k key s vouched h =
    ok_then (λ t. Vouched caller token key t × Admitted caller key t.db) _ _ s key h
      λ a e same.
        let same_key : k ≡ key = ground arith in
        subst
          (λ x.
            Vouched caller token x (in_db (admit_farm_user caller k) s).1
            × Admitted caller x (in_db (admit_farm_user caller k) s).1.db)
          same_key (vouched, admit_farm_user-Admitted caller k s.db a e)

-- A request with a farm token is let in only as a user for whom the farm's key that the hub then holds
-- vouches, be it the one it had or one that it has just fetched; that user is not banned, and where he
-- waits for approval, the request is for /me.
pub with_farm_token-Admitted :
    (caller : Caller) (token key : String) (s : AppState)
    → (with_farm_token caller token s).0 ≡ ok key
    → Vouched caller token key (with_farm_token caller token s).1
      × Admitted caller key (with_farm_token caller token s).1.db
unfolding with_farm_token
with_farm_token-Admitted caller token key s h =
    let P : AppState → Type 0 = λ t. Vouched caller token key t × Admitted caller key t.db in
    ok_then P _ _ s key h
      λ k e h. let_in caller token k key _ (farm_user-Vouched caller token k s e) h
