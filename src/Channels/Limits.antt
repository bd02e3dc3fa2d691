-- ===== src/Channels/Limits.antt =====
-- The limit on the depth of the tree (`max_channel_depth`), and the deletion of a channel.
use voxply_server.Common.{
  ℕ, suc, ◌≤◌, ◌<◌, ◌≡◌, subst, inl, inr, true, false, some, String, arith, ◌==◌, eq_iff,
  Option-cases, ◌-◌,
}
use voxply_server.Common.Int.{ℤ}
use voxply_server.Exec.{ok, err, bad_request, internal_server_error, ◌>>=◌}
use voxply_server.Sql.{exists_where}
use voxply_server.Sql.Keys.{present-delete_key}
use voxply_server.Db.{Db, ChannelRow, MessageRow}
use voxply_server.Permissions.{has, permissions_of}
use voxply_server.Channels.{
  CreateChannelRequest, manage_channels, depth_under, node_depth, enforce_depth, enforce_new_depth,
  read_max_depth, create_channel, require_category, find_channel, has_children, delete_related,
  delete_channel,
}
use voxply_server.Channels.Tree.{Depth, depth_under_iff}
use voxply_server.Channels.Update.{enforce_moved_depth}

enforced :
    (m : ℕ) (req : CreateChannelRequest) (db : Db) (a : Unit {0})
    → (enforce_new_depth m req db).0 ≡ ok a
    → (d : ℕ) × (depth_under db req.parent_id ≡ some d)
      × (d ≤ m - 1)
      × (req.is_category ≡ true → d < m - 1)
unfolding enforce_new_depth node_depth enforce_depth ◌>>=◌
enforced m req db a h = elim (Option-cases (depth_under db req.parent_id)) [
  | inl e ↦ absurd (ground arith)
  | inr (d, e) ↦ (d, e, ground arith, λ c. ground arith)
]

create-enforced :
    (now : ℤ) (id user : String) (req : CreateChannelRequest) (db : Db) (row : ChannelRow)
    → (create_channel now id user req db).0 ≡ ok row
    → 0 < read_max_depth db
    → (enforce_new_depth (read_max_depth db) req db).0 ≡ ok tt
unfolding create_channel require_category ◌>>=◌
create-enforced now id user req db row h m = ground arith

-- With a limit of `m` levels set, a channel that is created under `pid` lies on a level below `m`,
-- and a category leaves room for one level more.
pub create_channel-Depth :
    (now : ℤ) (id user : String) (req : CreateChannelRequest) (db : Db) (row : ChannelRow)
    (pid : String)
    → (create_channel now id user req db).0 ≡ ok row
    → 0 < read_max_depth db
    → req.parent_id ≡ some pid
    → (n : ℕ) × Depth db pid n
      × (suc n < read_max_depth db)
      × (req.is_category ≡ true → suc (suc n) < read_max_depth db)
create_channel-Depth now id user req db row pid h m e =
    let (d, at, low, cat) = enforced _ req db tt (create-enforced now id user req db row h m) in
    let (n, below, sum, few) =
      (depth_under_iff db pid d).0 (subst (λ t. depth_under db t ≡ some d) e at) in
    (n, below, omega arith, λ c. let room = cat c in omega arith)

-- Where the limit just allows a plain channel to be created under `pid`, the check of a move refuses
-- to move a plain channel there: `update_channel` adds a level that `node_depth` has counted.
pub enforce_moved_depth-stricter :
    (req : CreateChannelRequest) (x pid : String) (channel : ChannelRow) (db : Db) (n : ℕ)
    → Depth db pid n
    → n ≤ 49
    → req.parent_id ≡ some pid
    → req.is_category ≡ false
    → find_channel x db ≡ some channel
    → (enforce_new_depth (suc (suc n)) req db ≡ (ok tt, db))
      × (enforce_moved_depth x pid (suc (suc n)) db ≡ (err bad_request "depth_exceeded", db))
unfolding enforce_new_depth enforce_moved_depth node_depth enforce_depth ◌>>=◌
enforce_moved_depth-stricter req x pid channel db n below few e plain there =
    let at : depth_under db (some pid) ≡ some (suc n) =
      (depth_under_iff db pid (suc n)).1 (n, below, omega arith, few) in
    (ground arith, ground arith)

-- Deleting a channel that a webhook still refers to fails with 500, keeps the channel, and has by
-- then deleted its messages.
pub delete_channel-loses_messages :
    (user id : String) (channel : ChannelRow) (db : Db)
    → has (permissions_of db user) manage_channels ≡ true
    → find_channel id db ≡ some channel
    → has_children id db ≡ false
    → exists_where (λ w. w.channel_id == id) db.webhooks ≡ true
    → ((delete_channel user id db).0 ≡ err internal_server_error "DB error")
      × (find_channel id (delete_channel user id db).1 ≡ some channel)
      × (exists_where (λ m. m.channel_id == id) (delete_channel user id db).1.messages ≡ false)
unfolding delete_channel delete_related find_channel ◌>>=◌
delete_channel-loses_messages user id channel db may there free hooked = (
  ground arith,
  ground arith,
  ground (
    arith,
    present-delete_key (λ (m : MessageRow). m.channel_id) id id db.messages,
    eq_iff id id,
  ),
)
