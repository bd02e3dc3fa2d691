-- ===== src/Auth/Kept.antt =====
-- A sign-in keeps whatever each of its statements keeps.
use voxply_server.Common.{ℕ, String, Option, some, none}
use voxply_server.Exec.Rules.{Preserves-bind, Preserves-gets, Preserves-refuse_if}
use voxply_server.Auth.Challenge.{check_challenge, forget_challenge}
use voxply_server.Auth.{sign_in, gates, refuse_banned, enter, verify}
use voxply_server.Auth.Account.{AppState, in_db}
use voxply_server.Exec.{Exec}
use voxply_server.Common.Int.{ℤ}
use voxply_server.Exec.Rules.{Preserves, preserves_rules}
use voxply_server.Crypto.{Crypto}
use voxply_server.Db.{Db, SubkeyCert}
use voxply_server.Invites.{validate_and_use_invite, is_invite_only}
use voxply_server.Auth.Account.{
  Env, VerifyRequest, Identity, BotMeta, PowProof, resolve_canonical_identity, resolve_cert,
}
use voxply_server.Auth.Gates.{
  bot_gate, require_security_level, require_pow, check_pow, require_cert,
}
use voxply_server.Auth.Entry.{
  upsert_user, insert_session, require_invite, invite_gate, use_invite, assign_first_roles,
  first_roles, require_challenge_token, given_token, spend_token,
}
use voxply_server.Auth.{sign_in, gates, refuse_banned, enter, verify}

module _ {P : Db → Type 0} where
  resolve_cert-kept :
      (crypto : Crypto) (key : String) (cert : SubkeyCert)
      → Preserves P (resolve_cert crypto key cert)
  unfolding resolve_cert
  resolve_cert-kept crypto key cert = search preserves_rules depth 12

  pub resolve-kept :
      (crypto : Crypto) (key : String) (cert : Option SubkeyCert)
      → Preserves P (resolve_canonical_identity crypto key cert)
  unfolding resolve_canonical_identity
  resolve-kept crypto key none = search preserves_rules
  resolve-kept crypto key (some cert) = resolve_cert-kept crypto key cert

  require_security_level-kept :
      (crypto : Crypto) (n : ℕ) (req : VerifyRequest)
      → Preserves P (require_security_level crypto n req)
  unfolding require_security_level
  require_security_level-kept crypto n req = search preserves_rules depth 12

  check_pow-kept :
      (crypto : Crypto) (key : String) (n : ℕ) (proof : PowProof)
      → Preserves P (check_pow crypto key n proof)
  unfolding check_pow
  check_pow-kept crypto key n proof = search preserves_rules depth 12

  require_pow-kept : (crypto : Crypto) (req : VerifyRequest) → Preserves P (require_pow crypto req)
  unfolding require_pow
  require_pow-kept crypto req = search (preserves_rules, check_pow-kept) depth 12

  require_cert-kept : (env : Env) (req : VerifyRequest) → Preserves P (require_cert env req)
  unfolding require_cert
  require_cert-kept env req = search preserves_rules depth 12

  pub gates-kept : (env : Env) (req : VerifyRequest) → Preserves P (gates env req)
  unfolding gates
  gates-kept env req =
      search (preserves_rules, require_security_level-kept, require_pow-kept, require_cert-kept)
        depth 16

  refuse_banned-kept : (key : String) → Preserves P (refuse_banned key)
  unfolding refuse_banned
  refuse_banned-kept key = search preserves_rules

-- what each statement keeps that comes after the session
pub record KeepsLater (P : Db → Type 0) (now : ℤ) : Type 0 where
  pub invite : (code : String) → Preserves P (validate_and_use_invite now code)
  pub roles : (key : String) → Preserves P (first_roles now key)
  pub spend : (key token : String) → Preserves P (spend_token now key token)

-- and what those before it keep
pub record Keeps (P : Db → Type 0) (now : ℤ) : Type 0 where
  pub bots : (key : String) (meta : Option BotMeta) → Preserves P (bot_gate now key meta)
  pub user : (status : String) (who : Identity) → Preserves P (upsert_user now status who)
  pub later : KeepsLater P now

module _ {P : Db → Type 0} (now : ℤ) (keeps : KeepsLater P now) where
  use_invite-kept : (code : Option String) → Preserves P (use_invite now code)
  unfolding use_invite
  use_invite-kept code = search (preserves_rules, keeps.invite)

  invite_gate-kept : (code : Option String) → Preserves P (invite_gate now code)
  unfolding invite_gate is_invite_only
  invite_gate-kept code = search (preserves_rules, use_invite-kept)

  pub require_invite-kept :
      (key : String) (code : Option String) → Preserves P (require_invite now key code)
  unfolding require_invite
  require_invite-kept key code = search (preserves_rules, invite_gate-kept)

  pub assign_first_roles-kept : (key : String) → Preserves P (assign_first_roles now key)
  unfolding assign_first_roles
  assign_first_roles-kept key = search (preserves_rules, keeps.roles) depth 12

  given_token-kept : (req : VerifyRequest) → Preserves P (given_token now req)
  unfolding given_token
  given_token-kept req = search (preserves_rules, keeps.spend) depth 12

  pub require_challenge_token-kept :
      (req : VerifyRequest) → Preserves P (require_challenge_token now req)
  unfolding require_challenge_token
  require_challenge_token-kept req = search (preserves_rules, given_token-kept) depth 12

module _ {P : Db → Type 0} (env : Env) (keeps : Keeps P env.now) where
  pub enter-kept :
      (req : VerifyRequest) (who : Identity)
      → Preserves P (insert_session env.now env.token who.canonical)
      → (n : ℕ) → Preserves P (enter env req who n)
  unfolding enter
  enter-kept req who session n = Preserves-bind _ _ (Preserves-gets _) λ status.
      Preserves-bind _ _ (keeps.user status who) λ _. Preserves-bind _ _ session λ _.
        search
          (
            preserves_rules,
            require_invite-kept env.now keeps.later,
            assign_first_roles-kept env.now keeps.later,
            require_challenge_token-kept env.now keeps.later,
          )
          depth 14

  pub sign_in-kept :
      ((key : String) → Preserves P (insert_session env.now env.token key))
      → (req : VerifyRequest) → Preserves P (sign_in env req)
  unfolding sign_in
  sign_in-kept session req =
      let entered : (who : Identity) (n : ℕ) → Preserves P (enter env req who n) =
        λ who. enter-kept req who (session who.canonical) in
      search (preserves_rules, resolve-kept, keeps.bots, refuse_banned-kept, gates-kept, entered)
        depth 16

pub in_db-kept :
    {A : Type 0} (P : Db → Type 0) (m : Exec Db A)
    → Preserves P m
    → Preserves (λ (s : AppState). P s.db) (in_db m)
unfolding in_db
in_db-kept P m k = record { at = λ s h. k.at s.db h }

pub check-kept :
    (P : Db → Type 0) (crypto : Crypto) (instant : ℕ) (req : VerifyRequest)
    → Preserves (λ (s : AppState). P s.db) (check_challenge crypto instant req)
unfolding check_challenge forget_challenge
check-kept P crypto instant req = search preserves_rules depth 20

pub verify-kept :
    (P : Db → Type 0) (env : Env) (req : VerifyRequest)
    → Preserves P (sign_in env req)
    → Preserves (λ (s : AppState). P s.db) (verify env req)
unfolding verify
verify-kept P env req k =
    Preserves-bind _ _ (check-kept P env.crypto env.instant req)
      (λ signed. Preserves-bind _ _ (Preserves-refuse_if _ _ _) (λ _. in_db-kept P _ k))
