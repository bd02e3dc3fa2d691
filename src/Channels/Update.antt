-- ===== src/Channels/Update.antt =====
-- `update_channel` of hub/src/routes/channels.rs.
use voxply_server.Common.{
  ℕ, ◌+◌, Bool, not, ◌||◌, ◌&&◌, Option, none, some, String, ◌==◌, ltb, is_some,
}
use voxply_server.Common.Int.{ℤ}
use voxply_server.Common.Text.{trim, is_empty}
use voxply_server.Exec.{
  Exec, gets, ok_or, modify, refuse_if, when, if_some, bad_request, not_found, conflict, ◌>>=◌,
  ◌>>◌,
}
use voxply_server.Sql.{exists_where, update_where}
use voxply_server.Db.{Db, ChannelRow}
use voxply_server.Permissions.{UserPermissions, user_permissions, require, admin}
use voxply_server.Channels.{
  manage_channels, find_channel, node_depth, is_ancestor, read_max_depth, require_category,
  enforce_depth,
}

-- `none`: the field is absent; `some none`: it is null
pub record UpdateChannelRequest : Type 0 where
  pub name : Option String
  pub description : Option String
  pub parent_id : Option (Option String)
  pub icon : Option (Option String)
  pub color : Option (Option String)
  pub custom_icon_svg : Option (Option String)
  pub min_talk_power : Option ℤ

abbrev pub manage_channel_icons : String
manage_channel_icons = "manage_channel_icons"

unfoldable pub require_for : UserPermissions → UpdateChannelRequest → Exec Db (Unit {0})
require_for perms req = do
  when (is_some req.name || is_some req.description || is_some req.parent_id)
      (require perms manage_channels)
  when (is_some req.icon || is_some req.color || is_some req.custom_icon_svg)
      (require perms manage_channel_icons)
  when (is_some req.min_talk_power) (require perms admin)

-- the depth check of a move: one level is added to what `node_depth` says of the new place
unfoldable pub enforce_moved_depth : String → String → ℕ → Exec Db (Unit {0})
enforce_moved_depth channel_id parent_id max_depth = do
  parent_depth ← node_depth (some parent_id)
  row ← gets (find_channel channel_id)
  channel ← ok_or not_found "Channel not found" row
  enforce_depth max_depth (parent_depth + 1) channel.is_category

-- the block under `if let Some(parent_id) = parent_option`
unfoldable pub check_move : String → String → Exec Db (Unit {0})
check_move channel_id parent_id = do
  refuse_if (parent_id == channel_id) bad_request "A channel can't be its own parent"
  require_category parent_id
  cyclic ← gets (λ db. is_ancestor db channel_id parent_id)
  refuse_if cyclic bad_request "Cannot move a channel into its own descendant"
  max_depth ← gets read_max_depth
  when (ltb 0 max_depth) (enforce_moved_depth channel_id parent_id max_depth)

-- what the fields of the request that are present make of a row
abbrev pub new_or {ℓ} : {A : Type ℓ} → Option A → A → A
new_or none old = old
new_or (some a) old = a

-- `description` is set to the given text, the others to the given text or to null
abbrev pub text_or : Option String → Option String → Option String
text_or none old = old
text_or (some a) old = some a

unfoldable pub patch : UpdateChannelRequest → ChannelRow → ChannelRow
patch req c = record c {
  description = text_or req.description c.description;
  icon = new_or req.icon c.icon;
  color = new_or req.color c.color;
  custom_icon_svg = new_or req.custom_icon_svg c.custom_icon_svg;
  parent_id = new_or req.parent_id c.parent_id;
  min_talk_power = new_or req.min_talk_power c.min_talk_power;
}

unfoldable pub needs_update : UpdateChannelRequest → Bool
needs_update req =
    is_some req.description
    || is_some req.icon
    || is_some req.color
    || is_some req.custom_icon_svg
    || is_some req.parent_id
    || is_some req.min_talk_power

unfoldable pub write_patch : String → UpdateChannelRequest → Exec Db (Unit {0})
write_patch channel_id req =
    modify (λ db. record db {
      channels = update_where (λ c. c.id == channel_id) (patch req) db.channels;
    })

-- `name` is unique
unfoldable pub rename_channel : String → String → Exec Db (Unit {0})
rename_channel channel_id name = do
  refuse_if (is_empty (trim name)) bad_request "Channel name cannot be empty"
  taken ←
      gets (λ db. exists_where (λ c. not (c.id == channel_id) && c.name == trim name) db.channels)
  refuse_if taken conflict "A channel with that name already exists"
  modify (λ db. record db {
    channels =
        update_where (λ c. c.id == channel_id) (λ c. record c { name = trim name }) db.channels;
  })

unfoldable pub check_parent : String → Option String → Exec Db (Unit {0})
check_parent channel_id parent = if_some parent (check_move channel_id)

unfoldable pub update_channel : String → String → UpdateChannelRequest → Exec Db (Unit {0})
unfolding check_parent needs_update
update_channel user channel_id req = do
  perms ← user_permissions user
  row ← gets (find_channel channel_id)
  channel ← ok_or not_found "Channel not found" row
  require_for perms req
  if_some req.parent_id (check_parent channel_id)
  when (needs_update req) (write_patch channel_id req)
  if_some req.name (rename_channel channel_id)
