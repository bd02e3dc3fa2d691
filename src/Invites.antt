-- ===== src/Invites.antt =====
-- hub/src/routes/invites.rs: invite codes, their creation, and the check that consumes a use of one at
-- sign-in. The clock and the fresh code (`generate_invite_code`) are arguments.
pub mod Uses
use voxply_server.Common.{
  Bool, true, false, not, Option, none, some, List, [], ◌∷◌, String, ◌==◌, map_option,
}
use voxply_server.Common.Int.{◌+ℤ◌, ℤ, pos, add_i64, ltb_ℤ, geb_ℤ}
use voxply_server.Exec.{
  Exec, pure, gets, ok_or, modify, refuse_if, if_some, forbidden, constrained, ◌>>=◌, ◌>>◌,
}
use voxply_server.Sql.{
  exists_where, fetch_optional, delete_where, update_where, insert_row, order_by_desc,
}
use voxply_server.Db.{Db, InviteRow, Setting}
use voxply_server.Permissions.{user_permissions, require}
use voxply_server.Channels.{manage_channels}

pub record CreateInviteRequest : Type 0 where
  pub max_uses : Option ℤ
  pub expires_in_seconds : Option ℤ

-- `code` is the primary key; the response has the fields of the row
unfoldable pub create_invite : ℤ → String → String → CreateInviteRequest → Exec Db InviteRow
create_invite now code user req = do
  perms ← user_permissions user
  require perms manage_channels
  let invite : InviteRow = record {
    code = code;
    created_by = user;
    max_uses = req.max_uses;
    uses = pos 0;
    expires_at = map_option (add_i64 now) req.expires_in_seconds;
    created_at = now;
  }
  constrained (λ db. exists_where (λ i. i.code == code) db.invites)
      (λ db. record db { invites = insert_row invite db.invites })
  pure invite

unfoldable pub list_invites : String → Exec Db (List InviteRow)
list_invites user = do
  perms ← user_permissions user
  require perms manage_channels
  gets (λ db. order_by_desc (λ i. i.created_at) db.invites)

unfoldable pub revoke_invite : String → String → Exec Db (Unit {0})
revoke_invite user code = do
  perms ← user_permissions user
  require perms manage_channels
  modify (λ db. record db { invites = delete_where (λ i. i.code == code) db.invites })

unfoldable pub find_invite : String → Db → Option InviteRow
find_invite code db = fetch_optional (λ i. i.code == code) db.invites

unfoldable pub refuse_expired : ℤ → ℤ → Exec Db (Unit {0})
refuse_expired now expires_at = refuse_if (ltb_ℤ expires_at now) forbidden "Invite code has expired"

unfoldable pub refuse_used_up : ℤ → ℤ → Exec Db (Unit {0})
refuse_used_up uses max_uses =
    refuse_if (geb_ℤ uses max_uses) forbidden "Invite code has been used up"

-- `UPDATE invites SET uses = uses + 1`
abbrev pub used_once : InviteRow → InviteRow
used_once i = record i { uses = i.uses +ℤ pos 1 }

unfoldable pub validate_and_use_invite : ℤ → String → Exec Db (Unit {0})
validate_and_use_invite now code = do
  found ← gets (find_invite code)
  invite ← ok_or forbidden "Invalid invite code" found
  if_some invite.expires_at (refuse_expired now)
  if_some invite.max_uses (refuse_used_up invite.uses)
  modify (λ db. record db { invites = update_where (λ i. i.code == code) used_once db.invites })

abbrev value_is_true : Option Setting → Bool
value_is_true none = false
value_is_true (some s) = s.value == "true"

unfoldable pub is_invite_only : Exec Db Bool
is_invite_only =
    gets (λ db. value_is_true (fetch_optional (λ s. s.key == "invite_only") db.hub_settings))
