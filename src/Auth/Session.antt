-- ===== src/Auth/Session.antt =====
-- The token that a sign-in gives out is one that the middleware takes.
use voxply_server.Sql.Upsert.{fetch_of_none, fetch_of_exists}
use voxply_server.Auth.Account.{in_db}
use voxply_server.Exec.{◌>>=◌, pure, gets}
use voxply_server.Auth.Replay.{verify-ok}
use voxply_server.Common.{
  ◌≡◌, refl, some, ℕ, String, arith, ◌==◌, eq_refl, ◌∙◌, ap, true, if◌then◌else◌, ◌&&◌, not, sym,
}
use voxply_server.Auth.Kept.{KeepsLater}
use voxply_server.Invites.{validate_and_use_invite, refuse_expired, refuse_used_up}
use voxply_server.Auth.Entry.{make_owner, first_roles, spend_token}
use voxply_server.Roles.{insert_assignment}
use voxply_server.Auth.Middleware.{approval_of, refuse_pending, hub_user, token_user, session_user}
use voxply_server.Auth.Gates.{find_user}
use voxply_server.Auth.Challenge.{forget_challenge}
use voxply_server.Common.{subst}
use voxply_server.Common.Int.{ℤ}
use voxply_server.Exec.{ok, Reply, err}
use voxply_server.Exec.Rules.{preserves_rules}
use voxply_server.Exec.Success.{ok_then, ok_kept, constrained-ok}
use voxply_server.Sql.{exists_where, fetch_optional}
use voxply_server.Sql.Keys.{fetch-insert}
use voxply_server.Db.{Db, Session}
use voxply_server.Auth.Account.{Env, VerifyRequest, VerifyResponse, Identity}
use voxply_server.Auth.Entry.{insert_session}
use voxply_server.Auth.Kept.{
  require_invite-kept, assign_first_roles-kept, require_challenge_token-kept,
}
use voxply_server.Auth.Frame.{Frame, framed}
use voxply_server.Auth.Middleware.{find_session, Caller, is_revoked, pending_allowed_path}
use voxply_server.Auth.{
  enter, resolve_canonical_identity, sign_in, unauthorized, forbidden, in_db, AppState, verify,
  ◌>>=◌, Exec,
}

-- the session `token` is that of `key`, at the time `now`
abbrev Opened : ℤ → String → String → Db → Type 0
Opened now token key db =
    find_session token db ≡ some (record { token = token; public_key = key; created_at = now })

Frame-Opened : (now : ℤ) (token key : String) → Frame (Opened now token key)
unfolding find_session
Frame-Opened now token key = record {
  users = λ s rows h. h;
  profiles = λ s rows h. h;
  commands = λ s rows h. h;
  invites = λ s rows h. h;
  roles = λ s rows h. h;
  tokens = λ s rows h. h;
}

insert_session-Opened :
    (now : ℤ) (token key : String) (s : Db) (a : Unit {0})
    → (insert_session now token key s).0 ≡ ok a
    → Opened now token key (insert_session now token key s).1
unfolding insert_session find_session
insert_session-Opened now token key s a h =
    let (fresh, same) = constrained-ok _ _ s a h in
    ap (λ db. fetch_optional (λ x. x.token == token) db.sessions) same
    ∙ ground (
      arith,
      fetch-insert (λ (x : Session). x.token) token
          (record { token = token; public_key = key; created_at = now }) s.sessions,
      fetch_of_none (λ x. x.token == token) s.sessions,
      eq_refl token,
    )

-- there is a user of the key
abbrev Known : String → Db → Type 0
Known key db = exists_where (λ u. u.public_key == key) db.users ≡ true

later_keeps_users : (key : String) (now : ℤ) → KeepsLater (Known key) now
unfolding validate_and_use_invite refuse_expired refuse_used_up first_roles make_owner
    insert_assignment spend_token
later_keeps_users key now = record {
  invite = λ code. search preserves_rules depth 14;
  roles = λ k. search preserves_rules depth 16;
  spend = λ k token. search preserves_rules depth 14;
}

insert_session-Known :
    (now : ℤ) (token key : String) (s : Db) (a : Unit {0})
    → (insert_session now token key s).0 ≡ ok a
    → Known key (insert_session now token key s).1
unfolding insert_session
insert_session-Known now token key s a h =
    let (fresh, same) = constrained-ok _ _ s a h in
    ap (λ db. exists_where (λ u. u.public_key == key) db.users) same ∙ ground arith

module _ (env : Env) (req : VerifyRequest) (who : Identity) (P : Db → Type 0)
    (later : KeepsLater P env.now)
    (session : (s : Db) (a : Unit {0})
      → (insert_session env.now env.token who.canonical s).0 ≡ ok a
      → P (insert_session env.now env.token who.canonical s).1) where
  -- what the insertion of the session has brought about, holds after the sign-in
  enter-brings :
      (n : ℕ) (s : Db) (r : VerifyResponse)
      → (enter env req who n s).0 ≡ ok r
      → P (enter env req who n s).1
  unfolding enter
  enter-brings n s r h = ok_then P _ _ s r h λ status _ h. ok_then P _ _ _ r h λ _ _ h.
      ok_kept P _ _ _ r h (λ a e. session _ a e)
        (λ _.
          search
            (
              preserves_rules,
              require_invite-kept env.now later,
              assign_first_roles-kept env.now later,
              require_challenge_token-kept env.now later,
            )
            depth 14)

-- the token of the answer is the fresh one
enter-token :
    (env : Env) (req : VerifyRequest) (who : Identity) (n : ℕ) (s : Db) (r : VerifyResponse)
    → (enter env req who n s).0 ≡ ok r
    → r.token ≡ env.token
unfolding enter pure gets
enter-token env req who n s r h =
    let P : Db → Type 0 = λ _. r.token ≡ env.token in
    ok_then P _ _ s r h λ _ _ h. ok_then P _ _ _ r h λ _ _ h. ok_then P _ _ _ r h λ _ _ h.
      ok_then P _ _ _ r h λ _ _ h.
        ok_then P _ _ _ r h
          λ _ _ h. ok_then P _ _ _ r h λ _ _ h. ok_then P _ _ _ r h λ _ _ h. ground arith

-- the session and the user that a sign-in leaves
abbrev Entered : Env → VerifyRequest → VerifyResponse → Db → Db → Type 0
Entered env req r before db =
    (r.token ≡ env.token)
    × (who : Identity) × ((resolve_canonical_identity env.crypto req.public_key req.subkey_cert
          before).0
        ≡ ok who)
    × Opened env.now env.token who.canonical db
    × Known who.canonical db

sign_in-Entered :
    (env : Env) (req : VerifyRequest) (s : Db) (r : VerifyResponse)
    → (sign_in env req s).0 ≡ ok r
    → Entered env req r s (sign_in env req s).1
unfolding sign_in
sign_in-Entered env req s r h =
    let P : Db → Type 0 = Entered env req r s in
    ok_then P _ _ s r h λ who e h. ok_then P _ _ _ r h λ _ _ h. ok_then P _ _ _ r h λ _ _ h.
      ok_then P _ _ _ r h λ n _ h.
        let opened : KeepsLater (Opened env.now env.token who.canonical) env.now =
          (framed (Frame-Opened env.now env.token who.canonical) env.now).later in
        (
          enter-token env req who n _ r h,
          who,
          e,
          enter-brings env req who _ opened (insert_session-Opened env.now env.token who.canonical)
              n _ r h,
          enter-brings env req who _ (later_keeps_users who.canonical env.now)
              (insert_session-Known env.now env.token who.canonical) n _ r h,
        )

-- what the middleware says of the key, whose user has the status `status`
abbrev pub verdict : Caller → String → String → Db → Reply String
verdict caller key status db =
    if is_revoked key db
    then err unauthorized "Key has been revoked"
    else if status == "pending" && not (caller.path == pending_allowed_path)
    then err forbidden "Account is pending admin approval"
    else ok key

-- a handler of the database, run on the state after the challenge is gone
in_db-forget :
    {A : Type 0} (m : Exec Db A) (key : String) (s : AppState)
    → ((in_db m (forget_challenge key s)).0 ≡ (m s.db).0)
      × ((in_db m (forget_challenge key s)).1.db ≡ (m s.db).1)
unfolding in_db forget_challenge
in_db-forget m key s = (refl, refl)

hub_user-verdict :
    (caller : Caller) (now : ℤ) (token key : String) (db : Db)
    → Opened now token key db
    → Known key db
    → (hub_user caller token db).0 ≡ verdict caller key (approval_of key db) db
unfolding hub_user token_user session_user approval_of refuse_pending find_user ◌>>=◌
hub_user-verdict caller now token key db opened known =
    let (u, found) = fetch_of_exists (λ u. u.public_key == key) db.users known in
    ground (arith, opened, found)

-- After a sign-in that succeeds, a request with the token that it answered is one of the user that the key of the
-- sign-in and its certificate resolve to: the middleware answers with that user's key, unless it is
-- revoked, or the user waits for approval and asks for another path than /me.
pub verify-hub_user :
    (env : Env) (req : VerifyRequest) (s : AppState) (r : VerifyResponse)
    → (verify env req s).0 ≡ ok r
    → (who : Identity) × ((resolve_canonical_identity env.crypto req.public_key req.subkey_cert
          s.db).0
        ≡ ok who)
      × ((caller : Caller)
          → (hub_user caller r.token (verify env req s).1.db).0
            ≡ verdict caller who.canonical
                (approval_of who.canonical (verify env req s).1.db)
                (verify env req s).1.db)
verify-hub_user env req s r h =
    let run : verify env req s ≡ in_db (sign_in env req) (forget_challenge req.public_key s) =
      (verify-ok env req s r h).1 in
    let same : ((in_db (sign_in env req) (forget_challenge req.public_key s)).0
          ≡ (sign_in env req s.db).0)
        × ((in_db (sign_in env req) (forget_challenge req.public_key s)).1.db
            ≡ (sign_in env req s.db).1) =
      in_db-forget (sign_in env req) req.public_key s in
    let done : (sign_in env req s.db).0 ≡ ok r = sym same.0 ∙ ap (λ t. t.0) (sym run) ∙ h in
    let (given, who, e, opened, known) = sign_in-Entered env req s.db r done in
    let left : (verify env req s).1.db ≡ (sign_in env req s.db).1 = ap (λ t. t.1.db) run ∙ same.1 in
    (
      who,
      e,
      λ caller.
          ap (λ t. (hub_user caller t (verify env req s).1.db).0) given
          ∙ hub_user-verdict caller env.now env.token who.canonical _
              (subst (Opened env.now env.token who.canonical) (sym left) opened)
              (subst (Known who.canonical) (sym left) known),
    )
