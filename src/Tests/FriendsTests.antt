-- ===== src/Tests/FriendsTests.antt =====
-- carol asks bob, who accepts and later removes her.
use voxply_server.Common.{◌≡◌, refl, true, ◌⊎◌, none, [], ◌∷◌}
use voxply_server.Common.Int.{pos}
use voxply_server.Exec.{◌>>=◌}
use voxply_server.Sql.{exists_where, update_where}
use voxply_server.Db.{Db}
use voxply_server.Friends.{accept, friend_op, accept_friend_request, accept_row}
use voxply_server.Friends.Consent.{befriended, Cause, friend_op-befriended}
use voxply_server.Tests.Sample.{hub}

abbrev asking : Db
asking = record hub {
  friends =
      record {
        user_a = "carol";
        user_b = "bob";
        status = "pending";
        created_at = pos 5;
        hub_url = none;
        display_name = none;
      }
      ∷ [];
}

are_friends : befriended "carol" "bob" (friend_op "bob" (accept "carol") asking) ≡ true
unfolding friend_op accept_friend_request accept_row exists_where update_where ◌>>=◌
are_friends = refl

friend_op-befriended_example :
    (befriended "carol" "bob" asking ≡ true) ⊎ Cause "bob" "carol" "bob" asking (accept "carol")
friend_op-befriended_example =
    friend_op-befriended "bob" (accept "carol") asking "carol" "bob" are_friends
