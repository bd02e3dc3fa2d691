-- ===== src/Tests/ChannelsTests.antt =====
-- The tree of channels and the requests about it, on the sample hub.
use voxply_server.Common.Text.{parse_bits}
use voxply_server.Common.{
  zero, ◌≡◌, refl, true, false, none, some, String, arith, inl, inr, ◌==◌, eq_iff, ℕ, ◌≤◌, ◌<◌, suc,
  ◌↔◌, ◌⊎◌,
}
use voxply_server.Common.Int.{pos, ◌+ℤ◌}
use voxply_server.Exec.{ok, err, bad_request, internal_server_error, ◌>>=◌}
use voxply_server.Sql.{count_where, fetch_all, exists_where, fetch_optional}
use voxply_server.Tests.Sample.{hub, c2, channel}
use voxply_server.Db.{ChannelRow}
use voxply_server.Common.Text.{parse_bits}
use voxply_server.Permissions.{
  permissions_of, has, contains, roles_of, holds_role, fetch_permissions, max_priority, highest,
}
use voxply_server.Channels.{
  require_category, node_depth, climb, enforce_depth, insert_channel, largest_order, legal_type,
  next_order, CreateChannelRequest, create_channel, delete_channel, find_channel, parent_of,
  has_children, read_max_depth, is_ancestor, enforce_new_depth, manage_channels,
}
use voxply_server.Channels.Tree.{Depth, Ancestor, root, under, is_ancestor_iff}
use voxply_server.Channels.Update.{UpdateChannelRequest, update_channel, enforce_moved_depth}
use voxply_server.Channels.Acyclic.{IsRooted, IsShallow, update_channel-IsRooted}
use voxply_server.Channels.Limits.{
  create_channel-Depth, enforce_moved_depth-stricter, delete_channel-loses_messages,
}

c1_root : Depth hub "c1" 0
unfolding parent_of find_channel fetch_optional
c1_root = root refl

c2_parent : parent_of hub "c2" ≡ some "c1"
unfolding parent_of find_channel fetch_optional
c2_parent = refl

is_ancestor_iff_example :
    (is_ancestor hub "c1" "c2" ≡ true) ↔ ((n : ℕ) × (n ≤ 50) × Ancestor hub n "c2" "c1")
is_ancestor_iff_example = is_ancestor_iff hub "c1" "c2"

-- every channel of the hub, and every id that is none
parent_cases :
    (id : String) → (parent_of hub id ≡ none) ⊎ ((id ≡ "c2") × (parent_of hub id ≡ some "c1"))
unfolding parent_of find_channel fetch_optional
parent_cases id = ground (arith, eq_iff "c1" id, eq_iff "c2" id, eq_iff "c3" id)

parent_c1 : parent_of hub "c1" ≡ none
unfolding parent_of find_channel fetch_optional
parent_c1 = refl

hub-IsRooted : IsRooted hub
hub-IsRooted = record {
  depth =
      λ id. elim (parent_cases id) [ inl e ↦ (0, root e) | inr (same, e) ↦ (1, under e c1_root) ];
}

Depth-le-one : (id : String) (n : ℕ) → Depth hub id n → n ≤ 1
Depth-le-one id zero d = omega arith
Depth-le-one id (suc zero) d = omega arith
Depth-le-one id (suc (suc n)) (under {p = p} e (under {p = q} e' d)) =
    absurd (elim (parent_cases id) [
      | inl none_at ↦ ground arith
      | inr (same, at) ↦ elim (parent_cases p) [
        | inl none_at ↦ ground arith
        | inr (same', at') ↦ ground (arith, c2_parent, parent_c1)
      ]
    ])

hub-IsShallow : IsShallow hub
hub-IsShallow = record { at_most = λ id n d. omega (arith, Depth-le-one id n d) }

abbrev into_c3 : UpdateChannelRequest
into_c3 = record {
  name = some "general";
  description = none;
  parent_id = some (some "c3");
  icon = none;
  color = none;
  custom_icon_svg = none;
  min_talk_power = none;
}

update_channel-IsRooted_example : IsRooted (update_channel "alice" "c2" into_c3 hub).1
update_channel-IsRooted_example =
    update_channel-IsRooted "alice" "c2" into_c3 hub hub-IsShallow hub-IsRooted

abbrev new_channel : CreateChannelRequest
new_channel = record {
  name = "talk";
  parent_id = some "c1";
  is_category = false;
  description = none;
  channel_type = none;
}

abbrev talk : ChannelRow
talk = record (channel "c4" (some "c1") 3) {
  name = "talk";
  is_category = false;
  created_at = pos 9;
}

created : (create_channel (pos 9) "c4" "alice" new_channel hub).0 ≡ ok talk
unfolding create_channel require_category find_channel read_max_depth parse_bits enforce_new_depth
    node_depth climb enforce_depth insert_channel largest_order legal_type next_order parent_of ◌+ℤ◌
    permissions_of has contains roles_of holds_role fetch_permissions max_priority highest
    fetch_optional fetch_all exists_where ◌>>=◌
created = refl

limited : 0 < read_max_depth hub
unfolding read_max_depth parse_bits fetch_optional
limited = omega arith

c2_found : find_channel "c2" hub ≡ some c2
unfolding find_channel fetch_optional
c2_found = refl

may_manage : has (permissions_of hub "alice") manage_channels ≡ true
unfolding permissions_of has contains roles_of holds_role fetch_permissions max_priority highest
    fetch_all exists_where
may_manage = refl

c2_free : has_children "c2" hub ≡ false
unfolding has_children count_where
c2_free = refl

c2_hooked : exists_where (λ w. w.channel_id == "c2") hub.webhooks ≡ true
unfolding exists_where
c2_hooked = refl

create_channel-Depth_example :
    (n : ℕ) × Depth hub "c1" n
    × (suc n < read_max_depth hub)
    × (false ≡ true → suc (suc n) < read_max_depth hub)
create_channel-Depth_example =
    create_channel-Depth (pos 9) "c4" "alice" new_channel hub talk "c1" created limited refl

enforce_moved_depth-stricter_example :
    (enforce_new_depth 2 new_channel hub ≡ (ok tt, hub))
    × (enforce_moved_depth "c2" "c1" 2 hub ≡ (err bad_request "depth_exceeded", hub))
enforce_moved_depth-stricter_example =
    enforce_moved_depth-stricter new_channel "c2" "c1" c2 hub 0 c1_root (omega arith) refl refl
      c2_found

delete_channel-loses_messages_example :
    ((delete_channel "alice" "c2" hub).0 ≡ err internal_server_error "DB error")
    × (find_channel "c2" (delete_channel "alice" "c2" hub).1 ≡ some c2)
    × (exists_where (λ m. m.channel_id == "c2") (delete_channel "alice" "c2" hub).1.messages
        ≡ false)
delete_channel-loses_messages_example =
    delete_channel-loses_messages "alice" "c2" c2 hub may_manage c2_found c2_free c2_hooked
