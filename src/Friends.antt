-- ===== src/Friends.antt =====
-- hub/src/routes/friends.rs: friend requests, their acceptance and removal, and the two lists.
pub mod Consent
use voxply_server.Common.{
  Bool, true, false, not, ◌&&◌, ◌||◌, Option, none, some, List, [], ◌∷◌, map, String, ◌==◌,
  if◌then◌else◌,
}
use voxply_server.Common.Int.{ℤ}
use voxply_server.Common.Text.{is_empty}
use voxply_server.Exec.{
  Exec, pure, gets, modify, refuse_if, when, bad_request, not_found, constrained, ◌>>=◌, ◌>>◌,
}
use voxply_server.Sql.{
  exists_where, fetch_optional, fetch_all, delete_where, update_where, insert_row,
}
use voxply_server.Db.{Db, FriendRow, User}

pub record FriendRequest : Type 0 where
  pub target_public_key : String
  pub hub_url : Option String
  pub display_name : Option String

pub record FriendInfo : Type 0 where
  pub public_key : String
  pub display_name : Option String
  pub hub_url : Option String
  pub since : ℤ

abbrev pub is_from : String → String → FriendRow → Bool
is_from a b r = r.user_a == a && r.user_b == b

abbrev pub has_status : String → String → String → FriendRow → Bool
has_status status a b r = is_from a b r && r.status == status

abbrev pub initial_status : Option String → String
initial_status none = "pending"
initial_status (some hub_url) = "accepted"

-- `INSERT OR IGNORE`: (user_a, user_b) is the primary key, and user_a refers to a user
unfoldable pub insert_friend : FriendRow → Exec Db (Unit {0})
insert_friend row = do
  present ← gets (λ db. exists_where (is_from row.user_a row.user_b) db.friends)
  when (not present) (
      constrained (λ db. not (exists_where (λ u. u.public_key == row.user_a) db.users))
        (λ db. record db { friends = insert_row row db.friends }))

abbrev pub request_row : ℤ → String → FriendRequest → FriendRow
request_row now user req = record {
  user_a = user;
  user_b = req.target_public_key;
  status = initial_status req.hub_url;
  created_at = now;
  hub_url = req.hub_url;
  display_name = req.display_name;
}

unfoldable pub send_friend_request : ℤ → String → FriendRequest → Exec Db (Unit {0})
send_friend_request now user req = do
  refuse_if (req.target_public_key == user) bad_request "Cannot friend yourself"
  insert_friend (request_row now user req)

unfoldable pub accept_row : FriendRow → FriendRow
accept_row r = record r { status = "accepted" }

-- `affected` is whether the update has met a row
unfoldable pub accept_friend_request : String → String → Exec Db (Unit {0})
accept_friend_request user from_key = do
  affected ← gets (λ db. exists_where (has_status "pending" from_key user) db.friends)
  modify (λ db. record db {
    friends = update_where (has_status "pending" from_key user) accept_row db.friends;
  })
  refuse_if (not affected) not_found "No pending request from this user"

unfoldable pub remove_friend : String → String → Exec Db (Unit {0})
remove_friend user target_key = modify (λ db. record db {
  friends = delete_where (λ r. is_from user target_key r || is_from target_key user r) db.friends;
})

abbrev pub name_of : Option User → Option String
name_of none = none
name_of (some u) = u.display_name

unfoldable pub local_name : String → Db → Option String
local_name key db = name_of (fetch_optional (λ u. u.public_key == key) db.users)

-- the name kept with the row, unless there is none or it is empty
unfoldable pub shown_name : Option String → String → Db → Option String
shown_name none key db = local_name key db
shown_name (some n) key db = elim (is_empty n) [ true ↦ local_name key db | false ↦ some n ]

unfoldable pub friend_info : String → Db → FriendRow → FriendInfo
friend_info user db r =
    if r.user_a == user
    then record {
      public_key = r.user_b;
      display_name = shown_name r.display_name r.user_b db;
      hub_url = r.hub_url;
      since = r.created_at;
    }
    else record {
      public_key = r.user_a;
      display_name = shown_name none r.user_a db;
      hub_url = none;
      since = r.created_at;
    }

unfoldable pub list_friends : String → Exec Db (List FriendInfo)
list_friends user = gets (λ db.
    map (friend_info user db) (
      fetch_all (λ r. (r.user_a == user || r.user_b == user) && r.status == "accepted") db.friends))

unfoldable pub pending_info : Db → FriendRow → FriendInfo
pending_info db r = record {
  public_key = r.user_a;
  display_name = local_name r.user_a db;
  hub_url = none;
  since = r.created_at;
}

unfoldable pub list_pending_requests : String → Exec Db (List FriendInfo)
list_pending_requests user = gets (λ db.
    map (pending_info db) (fetch_all (λ r. r.user_b == user && r.status == "pending") db.friends))

-- the requests that change the database
pub data FriendOp : Type 0 where
  send : ℤ → FriendRequest → FriendOp
  accept remove : String → FriendOp

unfoldable pub friend_op : String → FriendOp → Db → Db
friend_op user (send now req) db = (send_friend_request now user req db).1
friend_op user (accept from_key) db = (accept_friend_request user from_key db).1
friend_op user (remove target_key) db = (remove_friend user target_key db).1
