-- ===== src/Channels.antt =====
-- hub/src/routes/channels.rs: the tree of categories and channels. The clock and the fresh
-- identifier are arguments. Left out: the voice read-outs, the audit events, and the columns of
-- `messages` beyond the channel.
pub mod Update
pub mod Tree
pub mod Limits
pub mod Acyclic
use voxply_server.Common.{
  ℕ, zero, suc, ◌+◌, ◌-◌, Bool, true, false, not, ◌&&◌, ◌||◌, Option, none, some, List, [], ◌∷◌,
  String, ◌==◌, ltb, leb, if◌then◌else◌,
}
use Prim.Native.String.{◌++◌}
use voxply_server.Common.Int.{ℤ, pos, negsuc, ◌+ℤ◌, max_ℤ}
use voxply_server.Common.Text.{parse_u32}
use voxply_server.Exec.{
  Exec, pure, gets, ok_or, modify, refuse_if, when, if_some, bad_request, not_found, conflict,
  constrained, ◌>>=◌, ◌>>◌,
}
use voxply_server.Sql.{
  count_where, exists_where, fetch_optional, delete_where, update_where, insert_row,
}
use voxply_server.Db.{Db, ChannelRow, Setting}
use voxply_server.Permissions.{user_permissions, require}

abbrev pub manage_channels : String
manage_channels = "manage_channels"

pub record CreateChannelRequest : Type 0 where
  pub name : String
  pub parent_id : Option String
  pub is_category : Bool
  pub description : Option String
  pub channel_type : Option String

unfoldable pub find_channel : String → Db → Option ChannelRow
find_channel id db = fetch_optional (λ c. c.id == id) db.channels

abbrev pub parent_id_of : Option ChannelRow → Option String
parent_id_of none = none
parent_id_of (some c) = c.parent_id

-- `SELECT parent_id FROM channels WHERE id = ?`, flattened
unfoldable pub parent_of : Db → String → Option String
unfolding find_channel
parent_of db id = parent_id_of (find_channel id db)

-- The loop of `node_depth` at `current`, where `depth` may still grow by `left` before it passes 50;
-- `none` is the error "Channel nesting depth exceeds safety limit".
unfoldable pub climb : ℕ → ℕ → Db → String → Option ℕ
climb zero depth db current = elim (parent_of db current) [ none ↦ some depth | some p ↦ none ]
climb (suc left) depth db current = elim (parent_of db current) [
  | none ↦ some depth
  | some p ↦ climb left (depth + 1) db p
]

abbrev pub depth_under : Db → Option String → Option ℕ
depth_under db none = some 0
depth_under db (some pid) = climb 49 1 db pid

unfoldable pub node_depth : Option String → Exec Db ℕ
node_depth parent_id = do
  depth ← gets (λ db. depth_under db parent_id)
  ok_or bad_request "Channel nesting depth exceeds safety limit" depth

-- the loop of `is_ancestor`, with the rounds that are left
unfoldable pub ancestor_within : ℕ → Db → String → String → Bool
ancestor_within zero db candidate current = false
ancestor_within (suc rounds) db candidate current = elim (parent_of db current) [
  | none ↦ false
  | some p ↦ elim (p == candidate) [ true ↦ true | false ↦ ancestor_within rounds db candidate p ]
]

unfoldable pub is_ancestor : Db → String → String → Bool
is_ancestor db candidate start = ancestor_within 50 db candidate start

abbrev depth_setting : Option Setting → Option ℕ
depth_setting none = none
depth_setting (some s) = parse_u32 s.value

abbrev or_zero : Option ℕ → ℕ
or_zero none = 0
or_zero (some n) = n

unfoldable pub read_max_depth : Db → ℕ
read_max_depth db =
    or_zero (depth_setting (fetch_optional (λ s. s.key == "max_channel_depth") db.hub_settings))

-- the parent must exist and be a category
unfoldable pub require_category : String → Exec Db (Unit {0})
require_category parent_id = do
  row ← gets (find_channel parent_id)
  parent ← ok_or not_found "Parent channel not found" row
  refuse_if (not parent.is_category) bad_request "Parent must be a category"

-- the checks of a depth `depth` against the limit `max_depth` of levels, for a row that is a
-- category or not
unfoldable pub enforce_depth : ℕ → ℕ → Bool → Exec Db (Unit {0})
enforce_depth max_depth depth is_category = do
  refuse_if (ltb (max_depth - 1) depth) bad_request "depth_exceeded"
  refuse_if (is_category && leb (max_depth - 1) depth) bad_request "category_at_max_depth"

unfoldable pub enforce_new_depth : ℕ → CreateChannelRequest → Exec Db (Unit {0})
enforce_new_depth max_depth req = do
  new_depth ← node_depth req.parent_id
  enforce_depth max_depth new_depth req.is_category

-- `channel_type` as it is stored
unfoldable pub legal_type : Bool → Option String → Option String
legal_type true requested = some "text"
legal_type false none = some "text"
legal_type false (some t) =
    if t == "text" then some "text" else if t == "forum" then some "forum" else none

abbrev named : Option String → String
named none = ""
named (some t) = t

-- `SELECT COALESCE(MAX(display_order), -1) + 1 FROM channels`
unfoldable pub largest_order : ℤ → List ChannelRow → ℤ
largest_order n [] = n
largest_order n (c ∷ cs) = largest_order (max_ℤ n c.display_order) cs

unfoldable pub next_order : Db → ℤ
unfolding largest_order
next_order db = elim db.channels [
  | [] ↦ negsuc 0 +ℤ pos 1
  | c ∷ cs ↦ largest_order c.display_order cs +ℤ pos 1
]

-- `id` and `name` are unique, and `created_by` refers to a user
unfoldable pub insert_channel : ChannelRow → Exec Db (Unit {0})
insert_channel row = do
  taken ← gets (λ db. exists_where (λ c. c.id == row.id || c.name == row.name) db.channels)
  refuse_if taken conflict ("Channel '" ++ (row.name ++ "' already exists"))
  constrained (λ db. not (exists_where (λ u. u.public_key == row.created_by) db.users))
      (λ db. record db { channels = insert_row row db.channels })

unfoldable pub create_channel : ℤ → String → String → CreateChannelRequest → Exec Db ChannelRow
create_channel now id user req = do
  perms ← user_permissions user
  require perms manage_channels
  if_some req.parent_id require_category
  max_depth ← gets read_max_depth
  when (ltb 0 max_depth) (enforce_new_depth max_depth req)
  channel_type ←
      ok_or bad_request ("unknown channel_type: " ++ named req.channel_type)
        (legal_type req.is_category req.channel_type)
  order ← gets next_order
  let row : ChannelRow = record {
    id = id;
    name = req.name;
    created_by = user;
    parent_id = req.parent_id;
    is_category = req.is_category;
    display_order = order;
    description = req.description;
    icon = none;
    color = none;
    custom_icon_svg = none;
    created_at = now;
    channel_type = channel_type;
    min_talk_power = pos 0;
  }
  insert_channel row
  pure row

-- the index is cast to `i64`
set_order : ℕ → String → Exec Db (Unit {0})
set_order index channel_id = modify (λ db. record db {
  channels =
      update_where (λ c. c.id == channel_id) (λ c. record c { display_order = pos index })
        db.channels;
})

reorder_from : ℕ → List String → Exec Db (Unit {0})
reorder_from index [] = pure tt
reorder_from index (id ∷ ids) = set_order index id >> reorder_from (index + 1) ids

unfoldable pub reorder_channels : String → List String → Exec Db (Unit {0})
unfolding reorder_from set_order
reorder_channels user channel_ids = do
  perms ← user_permissions user
  require perms manage_channels
  reorder_from 0 channel_ids

abbrev pub parent_is : String → Option String → Bool
parent_is id none = false
parent_is id (some p) = p == id

unfoldable pub has_children : String → Db → Bool
has_children id db = ltb 0 (count_where (λ c. parent_is id c.parent_id) db.channels)

-- the clean-up before the row goes
unfoldable pub delete_related : String → Db → Db
delete_related id db = record db {
  messages = delete_where (λ m. m.channel_id == id) db.messages;
  channel_bans = delete_where (λ b. b.channel_id == id) db.channel_bans;
  channel_settings = delete_where (λ s. s.channel_id == id) db.channel_settings;
  alliance_shared_channels = delete_where (λ s. s.channel_id == id) db.alliance_shared_channels;
}

-- `webhooks.channel_id` refers to the row, and nothing deletes the webhooks of a channel
unfoldable pub delete_channel : String → String → Exec Db (Unit {0})
delete_channel user channel_id = do
  perms ← user_permissions user
  require perms manage_channels
  row ← gets (find_channel channel_id)
  channel ← ok_or not_found "Channel not found" row
  occupied ← gets (has_children channel_id)
  refuse_if occupied conflict "Cannot delete: category still has channels"
  modify (delete_related channel_id)
  constrained (λ db. exists_where (λ w. w.channel_id == channel_id) db.webhooks)
      (λ db. record db { channels = delete_where (λ c. c.id == channel_id) db.channels })
