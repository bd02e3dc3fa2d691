-- ===== src/Auth/Owner.antt =====
-- Who owns the hub after a sign-in.
use voxply_server.Common.{
  ◌≡◌, refl, String, List, [], ◌∷◌, Option, arith, ◌==◌, ◌<◌, Bool, false, ◌∙◌, subst, length, ap,
}
use voxply_server.Sql.{fetch_all, count_where}
use voxply_server.Common.Int.{ℤ}
use voxply_server.Exec.Rules.{Preserves, preserves_rules, gets_then, when_then, Preserves-at}
use voxply_server.Sql.{insert_row}
use voxply_server.Db.{Db, UserRole}
use voxply_server.Roles.{owner_count, insert_assignment, builtin_everyone, builtin_owner}
use voxply_server.Invites.{validate_and_use_invite, refuse_expired, refuse_used_up}
use voxply_server.Auth.Account.{Env, VerifyRequest, AppState, Identity, BotMeta, BotCommandDef}
use voxply_server.Auth.Gates.{
  bot_gate, write_bot_meta, upsert_profile, replace_commands, insert_command, set_user,
}
use voxply_server.Auth.Entry.{upsert_user, insert_session, first_roles, spend_token}
use voxply_server.Auth.Kept.{Keeps, sign_in-kept, verify-kept}
use voxply_server.Auth.{verify}

-- the rows that make somebody an owner
unfoldable pub owners : Db → List UserRole
owners db = fetch_all (λ ur. ur.role_id == builtin_owner) db.user_roles

-- they are these
abbrev Owners : List UserRole → Db → Type 0
Owners n db = owners db ≡ n

fetch_all-skip :
    {R : Type 0} (q : R → Bool) (r : R) (rs : List R)
    → q r ≡ false
    → fetch_all q (insert_row r rs) ≡ fetch_all q rs
unfolding fetch_all
fetch_all-skip q r [] h = ground arith
fetch_all-skip q r (x ∷ rs) h = ground (arith, fetch_all-skip q r rs)

count-fetch_all :
    {R : Type 0} (q : R → Bool) (rs : List R) → count_where q rs ≡ length (fetch_all q rs)
unfolding fetch_all count_where
count-fetch_all q [] = refl
count-fetch_all q (r ∷ rs) = ground (arith, count-fetch_all q rs)

owner_count-owners : (db : Db) → owner_count db ≡ length (owners db)
unfolding owner_count owners
owner_count-owners db = count-fetch_all (λ ur. ur.role_id == builtin_owner) db.user_roles

module _ (n : List UserRole) where
  insert_command-Owners :
      (key : String) (c : BotCommandDef) → Preserves (Owners n) (insert_command key c)
  unfolding insert_command owners
  insert_command-Owners key c = search preserves_rules depth 12

  replace_commands-Owners :
      (key : String) (cs : List BotCommandDef) → Preserves (Owners n) (replace_commands key cs)
  unfolding replace_commands owners
  replace_commands-Owners key cs = search (preserves_rules, insert_command-Owners) depth 12

  write_bot_meta-Owners :
      (now : ℤ) (key : String) (meta : BotMeta) → Preserves (Owners n) (write_bot_meta now key meta)
  unfolding write_bot_meta upsert_profile set_user owners
  write_bot_meta-Owners now key meta = search (preserves_rules, replace_commands-Owners) depth 12

  bot_gate-Owners :
      (now : ℤ) (key : String) (meta : Option BotMeta)
      → Preserves (Owners n) (bot_gate now key meta)
  unfolding bot_gate set_user owners
  bot_gate-Owners now key meta = search (preserves_rules, write_bot_meta-Owners) depth 12

  upsert_user-Owners :
      (now : ℤ) (status : String) (who : Identity)
      → Preserves (Owners n) (upsert_user now status who)
  unfolding upsert_user owners
  upsert_user-Owners now status who = search preserves_rules

  invite-Owners :
      (now : ℤ) (code : String) → Preserves (Owners n) (validate_and_use_invite now code)
  unfolding validate_and_use_invite refuse_expired refuse_used_up owners
  invite-Owners now code = search preserves_rules depth 14

  spend-Owners : (now : ℤ) (key token : String) → Preserves (Owners n) (spend_token now key token)
  unfolding spend_token owners
  spend-Owners now key token = search preserves_rules depth 14

  session-Owners :
      (now : ℤ) (token key : String) → Preserves (Owners n) (insert_session now token key)
  unfolding insert_session owners
  session-Owners now token key = search preserves_rules depth 12

  everyone-Owners :
      (now : ℤ) (key : String) → Preserves (Owners n) (insert_assignment now key builtin_everyone)
  unfolding insert_assignment owners
  everyone-Owners now key =
      let granted : (s : Db)
          → Owners n s
          → Owners n (record s {
            user_roles =
                insert_row
                  (record { user_public_key = key; role_id = builtin_everyone; assigned_at = now })
                  s.user_roles;
          }) =
        λ s h.
          fetch_all-skip (λ ur. ur.role_id == builtin_owner)
            (record { user_public_key = key; role_id = builtin_everyone; assigned_at = now })
            s.user_roles refl
          ∙ h in
      search (preserves_rules, granted) depth 12

  first_roles-Owners :
      0 < length n → (now : ℤ) (key : String) → Preserves (Owners n) (first_roles now key)
  unfolding first_roles
  first_roles-Owners pos now key = record {
    at = λ s h.
        (gets_then {P = Owners n} owner_count _ s (
            when_then _ _ _ s
              (λ e.
                let counted : owner_count s ≡ length n = owner_count-owners s ∙ ap length h in
                absurd (ground arith))
              (λ _. Preserves-at (everyone-Owners now key)))).at
          h;
  }

-- A sign-in to a hub that has an owner, whatever comes of it, leaves exactly the rows that make somebody
-- an owner: nobody becomes one and nobody ceases to be one.
pub verify-owners :
    (env : Env) (req : VerifyRequest) (s : AppState)
    → 0 < owner_count s.db
    → owners (verify env req s).1.db ≡ owners s.db
verify-owners env req s owned =
    let n : List UserRole = owners s.db in
    let some_owner : 0 < length n = subst (λ k. 0 < k) (owner_count-owners s.db) owned in
    let keeps : Keeps (Owners n) env.now = record {
      bots = bot_gate-Owners n env.now;
      user = upsert_user-Owners n env.now;
      later = record {
        invite = invite-Owners n env.now;
        roles = first_roles-Owners n some_owner env.now;
        spend = spend-Owners n env.now;
      };
    } in
    (verify-kept (Owners n) env req
        (sign_in-kept env keeps (session-Owners n env.now env.token) req)).at
      s refl
