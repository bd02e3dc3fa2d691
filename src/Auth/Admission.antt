-- ===== src/Auth/Admission.antt =====
-- What a sign-in leaves alone: the masters of the users that are there, and the owners.
use voxply_server.Common.{
  ◌≡◌, refl, true, none, some, String, List, Option, arith, ◌==◌, Bool-cases, Option-cases, inl,
  inr,
}
use voxply_server.Roles.{insert_assignment}
use voxply_server.Invites.{validate_and_use_invite, refuse_expired, refuse_used_up}
use voxply_server.Auth.{verify}
use voxply_server.Auth.Kept.{Keeps, sign_in-kept, verify-kept}
use voxply_server.Auth.Account.{Env, VerifyRequest, AppState}
use voxply_server.Auth.Entry.{make_owner, spend_token, insert_session}
use voxply_server.Common.Int.{ℤ}
use voxply_server.Auth.Entry.{first_roles}
use voxply_server.Exec.Rules.{Preserves, Preserves-modify, preserves_rules}
use voxply_server.Sql.{exists_where, fetch_optional, update_where}
use voxply_server.Sql.Keys.{fetch-update, fetch-insert}
use voxply_server.Db.{Db, User}
use voxply_server.Auth.Account.{Identity, BotMeta, BotCommandDef}
use voxply_server.Auth.Gates.{
  bot_gate, write_bot_meta, replace_commands, insert_command, set_user, find_user, upsert_profile,
}
use voxply_server.Auth.Entry.{upsert_user, seen_again, user_row}

abbrev pub master : Option User → Option String
master none = none
master (some u) = u.master_pubkey

-- the user `k` has the master `m`
abbrev pub HasMaster : String → String → Db → Type 0
HasMaster k m db = master (find_user k db) ≡ some m

set_user-HasMaster :
    (k m key : String) (f : User → User)
    → ((u : User) → (f u).public_key ≡ u.public_key)
    → ((u : User) → u.master_pubkey ≡ some m → (f u).master_pubkey ≡ some m)
    → (db : Db) → HasMaster k m db
    → HasMaster k m (record db { users = update_where (λ u. u.public_key == key) f db.users })
unfolding find_user
set_user-HasMaster k m key f same keeps db h =
    elim (Option-cases (fetch_optional (λ u. u.public_key == k) db.users)) [
      | inl e ↦ absurd (ground arith)
      | inr (u, e) ↦
          ground (arith, fetch-update (λ (u : User). u.public_key) f same key k db.users, keeps u)
    ]

upsert_user-HasMaster :
    (k m : String) (now : ℤ) (status : String) (who : Identity)
    → Preserves (HasMaster k m) (upsert_user now status who)
unfolding upsert_user find_user seen_again
upsert_user-HasMaster k m now status who = Preserves-modify _ λ db h.
    elim (Bool-cases (exists_where (λ u. u.public_key == who.canonical) db.users)) [
      | inl e ↦ rw e (
          set_user-HasMaster k m who.canonical (seen_again now who.master_pubkey) (λ u. refl)
            (λ u e. ground arith) db h)
      | inr e ↦ rw e (
          ground (
            arith,
            fetch-insert (λ (u : User). u.public_key) k
                (user_row now status who.canonical who.master_pubkey) db.users,
          ))
    ]

insert_command-HasMaster :
    (k m key : String) (c : BotCommandDef) → Preserves (HasMaster k m) (insert_command key c)
unfolding insert_command find_user
insert_command-HasMaster k m key c = search preserves_rules depth 12

replace_commands-HasMaster :
    (k m key : String) (cs : List BotCommandDef)
    → Preserves (HasMaster k m) (replace_commands key cs)
unfolding replace_commands find_user
replace_commands-HasMaster k m key cs = search (preserves_rules, insert_command-HasMaster) depth 12

approve-HasMaster :
    (k m key : String)
    → Preserves (HasMaster k m) (set_user key (λ u. record u { approval_status = "approved" }))
unfolding set_user
approve-HasMaster k m key = Preserves-modify _ (set_user-HasMaster k m key _ (λ u. refl) (λ u e. e))

mark_bot-HasMaster :
    (k m key : String) → Preserves (HasMaster k m) (set_user key (λ u. record u { is_bot = true }))
unfolding set_user
mark_bot-HasMaster k m key =
    Preserves-modify _ (set_user-HasMaster k m key _ (λ u. refl) (λ u e. e))

write_bot_meta-HasMaster :
    (k m : String) (now : ℤ) (key : String) (meta : BotMeta)
    → Preserves (HasMaster k m) (write_bot_meta now key meta)
unfolding write_bot_meta upsert_profile find_user
write_bot_meta-HasMaster k m now key meta =
    search (preserves_rules, replace_commands-HasMaster, approve-HasMaster) depth 12

bot_gate-HasMaster :
    (k m : String) (now : ℤ) (key : String) (meta : Option BotMeta)
    → Preserves (HasMaster k m) (bot_gate now key meta)
unfolding bot_gate
bot_gate-HasMaster k m now key meta =
    search (preserves_rules, write_bot_meta-HasMaster, mark_bot-HasMaster) depth 12

invite-HasMaster :
    (k m : String) (now : ℤ) (code : String)
    → Preserves (HasMaster k m) (validate_and_use_invite now code)
unfolding validate_and_use_invite refuse_expired refuse_used_up find_user
invite-HasMaster k m now code = search preserves_rules depth 14

owner-HasMaster :
    (k m : String) (now : ℤ) (key : String) → Preserves (HasMaster k m) (make_owner now key)
unfolding make_owner find_user
owner-HasMaster k m now key = search preserves_rules depth 12

role-HasMaster :
    (k m : String) (now : ℤ) (key role_id : String)
    → Preserves (HasMaster k m) (insert_assignment now key role_id)
unfolding insert_assignment find_user
role-HasMaster k m now key role_id = search preserves_rules depth 12

first_roles-HasMaster :
    (k m : String) (now : ℤ) (key : String) → Preserves (HasMaster k m) (first_roles now key)
unfolding first_roles
first_roles-HasMaster k m now key =
    search (preserves_rules, owner-HasMaster, role-HasMaster) depth 12

spend-HasMaster :
    (k m : String) (now : ℤ) (key token : String)
    → Preserves (HasMaster k m) (spend_token now key token)
unfolding spend_token find_user
spend-HasMaster k m now key token = search preserves_rules depth 14

session-HasMaster :
    (k m : String) (now : ℤ) (token key : String)
    → Preserves (HasMaster k m) (insert_session now token key)
unfolding insert_session find_user
session-HasMaster k m now token key = search preserves_rules depth 12

-- A master key, once recorded for a user, stays: no sign-in, whatever certificate it brings, and
-- whether it succeeds or not, gives the user another one.
pub verify-HasMaster :
    (env : Env) (req : VerifyRequest) (s : AppState) (k m : String)
    → HasMaster k m s.db
    → HasMaster k m (verify env req s).1.db
verify-HasMaster env req s k m h =
    let keeps : Keeps (HasMaster k m) env.now = record {
      bots = bot_gate-HasMaster k m env.now;
      user = upsert_user-HasMaster k m env.now;
      later = record {
        invite = invite-HasMaster k m env.now;
        roles = first_roles-HasMaster k m env.now;
        spend = spend-HasMaster k m env.now;
      };
    } in
    (verify-kept (HasMaster k m) env req
        (sign_in-kept env keeps (session-HasMaster k m env.now env.token) req)).at
      s h
