-- ===== src/Auth/Bans.antt =====
-- Nobody who is banned has a session.
use voxply_server.Common.{
  ◌≡◌, refl, ap, sym, ◌∙◌, Bool, false, ◌&&◌, none, some, String, All, Option, Option-cases, inl,
  inr,
}
use voxply_server.Exec.{Reply, ok, err, succeeded}
use voxply_server.Exec.Success.{ok_then}
use voxply_server.Crypto.{Crypto}
use voxply_server.Db.{User, SubkeyCert}
use voxply_server.Auth.Challenge.{forget_challenge}
use voxply_server.Auth.Account.{
  VerifyResponse, canonical_of, find_by_master, find_legacy, resolve_cert,
  resolve_canonical_identity,
}
use voxply_server.Auth.Replay.{verify-ok}
use voxply_server.Auth.Frame.{Frame, framed, bot_gate-framed}
use voxply_server.Exec.Rules.{Preserves-when}
use voxply_server.Sql.Laws.{All-insert}
use voxply_server.Exec.Rules.{reads_then, modify_twice}
use voxply_server.Moderation.{
  ban_user, unban_user, kick_user, require_can_moderate, write_ban, end_sessions,
}
use voxply_server.Sql.Keys.{present-delete_key}
use voxply_server.Sql.Laws.{All-delete_kept, All-delete, exists-insert}
use voxply_server.Db.{BanRow}
use voxply_server.Auth.Kept.{in_db-kept, verify-kept}
use voxply_server.Auth.Account.{in_db}
use voxply_server.Auth.{verify, AppState}
use voxply_server.Common.{List, [], ◌∷◌, All-map, ◌==◌, eq_iff, arith}
use voxply_server.Sql.{delete_where}
use voxply_server.Common.Int.{ℤ}
use voxply_server.Exec.{◌>>=◌, ◌>>◌}
use voxply_server.Exec.Rules.{
  Preserves, PreservesAt, preserves_rules, Preserves-of_at, Preserves-bind, gets_then, refuse_then,
  assoc_then,
}
use voxply_server.Sql.{insert_row}
use voxply_server.Db.{Db, Session}
use voxply_server.Moderation.{is_banned}
use voxply_server.Auth.Account.{Env, VerifyRequest, Identity}
use voxply_server.Auth.Entry.{insert_session}
use voxply_server.Auth.Kept.{enter-kept, gates-kept, resolve-kept}
use voxply_server.Auth.{sign_in, refuse_banned, gates, enter}

-- no session is that of a banned key
abbrev pub Unbanned : Db → Type 0
Unbanned db = All (λ (s : Session). is_banned s.public_key db ≡ false) db.sessions

-- nor is the key `key` banned
abbrev Free : String → Db → Type 0
Free key db = Unbanned db × (is_banned key db ≡ false)

Frame-Unbanned : Frame Unbanned
unfolding is_banned
Frame-Unbanned = record {
  users = λ s rows h. h;
  profiles = λ s rows h. h;
  commands = λ s rows h. h;
  invites = λ s rows h. h;
  roles = λ s rows h. h;
  tokens = λ s rows h. h;
}

Frame-Free : (key : String) → Frame (Free key)
unfolding is_banned
Frame-Free key = record {
  users = λ s rows h. h;
  profiles = λ s rows h. h;
  commands = λ s rows h. h;
  invites = λ s rows h. h;
  roles = λ s rows h. h;
  tokens = λ s rows h. h;
}

session-Free : (now : ℤ) (token key : String) → Preserves (Free key) (insert_session now token key)
unfolding insert_session is_banned
session-Free now token key =
    let added : (s : Db)
        → Free key s
        → Free key (record s {
          sessions =
              insert_row (record { token = token; public_key = key; created_at = now }) s.sessions;
        }) =
      λ s h. (All-insert _ s.sessions h.0 h.1, h.1) in
    search (preserves_rules, added) depth 12

-- after the check, the key stays free of bans to the end of the sign-in
enter-Unbanned :
    (env : Env) (req : VerifyRequest) (who : Identity) (s : Db)
    → PreservesAt Unbanned
        (refuse_banned who.canonical >> (gates env req >>= λ n. enter env req who n))
        s
unfolding refuse_banned
enter-Unbanned env req who s = assoc_then _ _ _ s (
    gets_then _ _ s (
      refuse_then _ _ _ _ s λ free. record {
        at = λ h.
            ((Preserves-bind (gates env req) (λ n. enter env req who n) (gates-kept env req)
                (enter-kept env (framed (Frame-Free who.canonical) env.now) req who
                  (session-Free env.now env.token who.canonical))).at
              s (h, free)).0;
      }))

sign_in-Unbanned : (env : Env) (req : VerifyRequest) → Preserves Unbanned (sign_in env req)
unfolding sign_in
sign_in-Unbanned env req =
    Preserves-bind _ _ (resolve-kept env.crypto req.public_key req.subkey_cert) λ who.
      Preserves-bind _ _
        (Preserves-when _ _ λ _. bot_gate-framed Frame-Unbanned env.now who.canonical req.bot_meta)
        λ _. Preserves-of_at (enter-Unbanned env req who)

-- a ban and the end of the sessions of its target
banned_out :
    (ban : BanRow) (s : Db)
    → Unbanned s
    → Unbanned (record s {
      bans =
          insert_row ban (delete_where (λ b. b.target_public_key == ban.target_public_key) s.bans);
      sessions = delete_where (λ x. x.public_key == ban.target_public_key) s.sessions;
    })
unfolding is_banned
banned_out ban s h =
    All-delete_kept _ (λ x. x.public_key == ban.target_public_key) s.sessions
      (All-map _ _
        (λ x free apart. ground (
          arith,
          exists-insert (λ b. b.target_public_key == x.public_key) ban
              (delete_where (λ b. b.target_public_key == ban.target_public_key) s.bans),
          present-delete_key (λ (b : BanRow). b.target_public_key) ban.target_public_key
              x.public_key s.bans,
          eq_iff ban.target_public_key x.public_key,
          eq_iff x.public_key ban.target_public_key,
        ))
        s.sessions h)

ban_user-Unbanned :
    (now : ℤ) (user target : String) (reason : Option String)
    → Preserves Unbanned (ban_user now user target reason)
unfolding ban_user require_can_moderate write_ban end_sessions
ban_user-Unbanned now user target reason = Preserves-of_at λ s.
    reads_then _ _ s (search preserves_rules depth 12) λ _ _. assoc_then _ _ _ s (
      gets_then _ _ s (
        assoc_then _ _ _ s (
          refuse_then _ _ _ _ s λ known. modify_twice _ _ _ s (
            banned_out
              (record {
                target_public_key = target;
                banned_by = user;
                reason = reason;
                created_at = now;
              })
              s))))

unban_user-Unbanned : (user target : String) → Preserves Unbanned (unban_user user target)
unfolding unban_user is_banned
unban_user-Unbanned user target =
    let lifted : (s : Db)
        → Unbanned s
        → Unbanned (record s { bans = delete_where (λ b. b.target_public_key == target) s.bans }) =
      λ s h.
        All-map _ _
          (λ x free. ground (
            arith,
            present-delete_key (λ (b : BanRow). b.target_public_key) target x.public_key s.bans,
          ))
          s.sessions h in
    search (preserves_rules, lifted) depth 12

kick_user-Unbanned : (user target : String) → Preserves Unbanned (kick_user user target)
unfolding kick_user require_can_moderate end_sessions is_banned
kick_user-Unbanned user target =
    let ended : (s : Db)
        → Unbanned s
        → Unbanned (record s { sessions = delete_where (λ x. x.public_key == target) s.sessions }) =
      λ s h. All-delete _ (λ x. x.public_key == target) s.sessions h in
    search (preserves_rules, ended) depth 14

-- the requests that change sessions and bans
pub data AccountOp : Type 0 where
  signs_in : Env → VerifyRequest → AccountOp
  bans : (now : ℤ) (user target : String) → Option String → AccountOp
  unbans kicks : (user target : String) → AccountOp

unfoldable pub account_op : AccountOp → AppState → AppState
account_op (signs_in env req) s = (verify env req s).1
account_op (bans now user target reason) s = (in_db (ban_user now user target reason) s).1
account_op (unbans user target) s = (in_db (unban_user user target) s).1
account_op (kicks user target) s = (in_db (kick_user user target) s).1

unfoldable pub account_ops : List AccountOp → AppState → AppState
account_ops [] s = s
account_ops (op ∷ ops) s = account_ops ops (account_op op s)

account_op-Unbanned :
    (op : AccountOp) (s : AppState) → Unbanned s.db → Unbanned (account_op op s).db
unfolding account_op
account_op-Unbanned (signs_in env req) s h =
    (verify-kept Unbanned env req (sign_in-Unbanned env req)).at s h
account_op-Unbanned (bans now user target reason) s h =
    (in_db-kept Unbanned _ (ban_user-Unbanned now user target reason)).at s h
account_op-Unbanned (unbans user target) s h =
    (in_db-kept Unbanned _ (unban_user-Unbanned user target)).at s h
account_op-Unbanned (kicks user target) s h =
    (in_db-kept Unbanned _ (kick_user-Unbanned user target)).at s h

-- the user, found by the master key of the certificate, or else by the key that has none yet, is banned
abbrev found_banned : Option User → Option User → Db → Bool
found_banned (some u) legacy db = is_banned u.public_key db
found_banned none (some u) db = is_banned u.public_key db
found_banned none none db = false

abbrev device_banned : String → Option SubkeyCert → Db → Bool
device_banned key none db = is_banned key db
device_banned key (some c) db =
    found_banned (find_by_master c.master_pubkey db) (find_legacy key db) db

-- a request with a banned key, or from a device that a certificate makes one of a banned user
unfoldable pub names_banned : VerifyRequest → Db → Bool
names_banned req db = device_banned req.public_key req.subkey_cert db

-- a key is banned as it was
abbrev Same : Db → String → Db → Type 0
Same before key db = is_banned key db ≡ is_banned key before

Frame-Same : (before : Db) (key : String) → Frame (Same before key)
unfolding is_banned
Frame-Same before key = record {
  users = λ s rows h. h;
  profiles = λ s rows h. h;
  commands = λ s rows h. h;
  invites = λ s rows h. h;
  roles = λ s rows h. h;
  tokens = λ s rows h. h;
}

cert-names :
    (crypto : Crypto) (key : String) (cert : SubkeyCert) (who : Identity) (db : Db)
    → (resolve_cert crypto key cert db).0 ≡ ok who
    → is_banned who.canonical db ≡ false
    → device_banned key (some cert) db ≡ false
unfolding resolve_cert canonical_of ◌>>=◌
cert-names crypto key cert who db h free =
    elim (Option-cases (find_by_master cert.master_pubkey db)) [
      | inl e ↦ elim (Option-cases (find_legacy key db)) [
        | inl e' ↦ ground arith
        | inr (u, e') ↦ ground arith
      ]
      | inr (u, e) ↦ ground arith
    ]

resolve-names :
    (crypto : Crypto) (key : String) (cert : Option SubkeyCert) (who : Identity) (db : Db)
    → (resolve_canonical_identity crypto key cert db).0 ≡ ok who
    → is_banned who.canonical db ≡ false
    → device_banned key cert db ≡ false
unfolding resolve_canonical_identity ◌>>=◌
resolve-names crypto key none who db h free = ground arith
resolve-names crypto key (some cert) who db h free = cert-names crypto key cert who db h free

refuse_banned-ok :
    (key : String) (db : Db) (a : Unit {0})
    → (refuse_banned key db).0 ≡ ok a
    → is_banned key db ≡ false
unfolding refuse_banned ◌>>=◌
refuse_banned-ok key db a h = ground arith

sign_in-names :
    (env : Env) (req : VerifyRequest) (db : Db) (r : VerifyResponse)
    → (sign_in env req db).0 ≡ ok r
    → names_banned req db ≡ false
unfolding sign_in names_banned
sign_in-names env req db r h =
    let P : Db → Type 0 = λ _. device_banned req.public_key req.subkey_cert db ≡ false in
    ok_then P _ _ db r h λ who e h. ok_then P _ _ _ r h λ _ _ h. ok_then P _ _ _ r h λ a checked _.
      let same : Same db who.canonical _ =
        (Preserves-when _ _ λ _.
            bot_gate-framed (Frame-Same db who.canonical) env.now who.canonical req.bot_meta).at
          _
          ((resolve-kept {P = Same db who.canonical} env.crypto req.public_key req.subkey_cert).at
            db refl) in
      resolve-names env.crypto req.public_key req.subkey_cert who db e
        (sym same ∙ refuse_banned-ok who.canonical _ a checked)

in_db-names :
    (env : Env) (req : VerifyRequest) (s : AppState) (r : VerifyResponse)
    → (in_db (sign_in env req) (forget_challenge req.public_key s)).0 ≡ ok r
    → names_banned req s.db ≡ false
unfolding in_db forget_challenge
in_db-names env req s r h = sign_in-names env req s.db r h

verify-names :
    (env : Env) (req : VerifyRequest) (s : AppState) (reply : Reply VerifyResponse)
    → (verify env req s).0 ≡ reply
    → (succeeded reply && names_banned req s.db) ≡ false
verify-names env req s (ok r) h =
    in_db-names env req s r (ap (λ t. t.0) (sym (verify-ok env req s r h).1) ∙ h)
verify-names env req s (err c m) h = refl

account_ops-kept :
    (ops : List AccountOp) (s : AppState) → Unbanned s.db → Unbanned (account_ops ops s).db
unfolding account_ops
account_ops-kept [] s h = h
account_ops-kept (op ∷ ops) s h =
    account_ops-kept ops (account_op op s) (account_op-Unbanned op s h)

-- Whatever sequence of sign-ins, bans, unbans and kicks a hub has been through, none of its sessions
-- is that of a banned key, where that held at the start; and no sign-in then succeeds with a banned key
-- and no certificate, nor with a certificate whose master key a banned user of the hub has, nor, where no
-- user has it, with the key of a banned user who has no master key yet.
pub account_ops-Unbanned :
    (ops : List AccountOp) (s : AppState)
    → Unbanned s.db
    → Unbanned (account_ops ops s).db
      × ((env : Env) (req : VerifyRequest)
          → (succeeded (verify env req (account_ops ops s)).0
              && names_banned req (account_ops ops s).db)
            ≡ false)
account_ops-Unbanned ops s h = (
  account_ops-kept ops s h,
  λ env req. verify-names env req (account_ops ops s) (verify env req (account_ops ops s)).0 refl,
)
