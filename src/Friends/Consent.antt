-- ===== src/Friends/Consent.antt =====
-- How a friendship comes about and ends.
use voxply_server.Common.{
  ◌≡◌, ◌⊎◌, inl, inr, Bool, Bool-cases, true, false, not, ◌&&◌, ◌||◌, List, [], ◌∷◌, String, arith,
  ◌==◌, eq_iff, is_some, some, none, Option, refl, subst, sym, ap, ◌∙◌,
}
use voxply_server.Common.Int.{ℤ}
use voxply_server.Exec.{◌>>=◌}
use voxply_server.Sql.{exists_where, delete_where, update_where}
use voxply_server.Sql.Laws.{exists-delete, exists_congr, exists-insert, exists_where_of_delete}
use voxply_server.Db.{Db, FriendRow}
use voxply_server.Friends.{
  FriendRequest, FriendOp, send, accept, remove, friend_op, is_from, has_status, initial_status,
  insert_friend, send_friend_request, accept_friend_request, accept_row, remove_friend, request_row,
}

-- an accepted row that names `a` first
abbrev pub befriended : String → String → Db → Bool
befriended a b db = exists_where (has_status "accepted" a b) db.friends

abbrev pub asked : String → String → Db → Bool
asked a b db = exists_where (has_status "pending" a b) db.friends

accepted_of_update :
    (a b from user : String) (rs : List FriendRow)
    → exists_where
        (has_status "accepted" a b)
        (update_where (has_status "pending" from user) accept_row rs)
      ≡ true
    → (exists_where (has_status "accepted" a b) rs ≡ true)
      ⊎ ((from ≡ a) × (user ≡ b) × (exists_where (has_status "pending" a b) rs ≡ true))
unfolding exists_where update_where accept_row
accepted_of_update a b from user [] h = absurd (ground arith)
accepted_of_update a b from user (r ∷ rs) h = ground (
  arith,
  accepted_of_update a b from user rs,
  eq_iff r.user_a a,
  eq_iff r.user_a from,
  eq_iff r.user_b b,
  eq_iff r.user_b user,
)

-- what may have made a friendship: an acceptance by the one who was asked, or a request that names
-- another hub
pub data Cause (by a b : String) (db : Db) : FriendOp → Type 0 where
  accepted : by ≡ b → asked a b db ≡ true → Cause by a b db (accept a)
  remote :
      (now : ℤ) (req : FriendRequest)
      → by ≡ a
      → req.target_public_key ≡ b
      → is_some req.hub_url ≡ true
      → Cause by a b db (send now req)

inserted :
    (a b : String) (row : FriendRow) (db : Db)
    → befriended a b (insert_friend row db).1 ≡ true
    → (befriended a b db ≡ true) ⊎ (has_status "accepted" a b row ≡ true)
unfolding insert_friend ◌>>=◌
inserted a b row db h = ground (arith, exists-insert (has_status "accepted" a b) row db.friends)

named_hub : (o : Option String) → (initial_status o == "accepted") ≡ true → is_some o ≡ true
named_hub none h = absurd (ground arith)
named_hub (some u) h = refl

sent :
    (by : String) (now : ℤ) (req : FriendRequest) (db : Db) (a b : String)
    → befriended a b (send_friend_request now by req db).1 ≡ true
    → (befriended a b db ≡ true) ⊎ (has_status "accepted" a b (request_row now by req) ≡ true)
unfolding send_friend_request ◌>>=◌
sent by now req db a b h = elim (Bool-cases (req.target_public_key == by)) [
  | inl t ↦ inl (ground arith)
  | inr t ↦ inserted a b (request_row now by req) db (ground arith)
]

-- A request about friends makes `b` a friend of `a` only in two ways: `b` accepts what `a` has asked,
-- or `a` sends a request that names a hub for `b`. The latter needs no consent of `b`.
pub friend_op-befriended :
    (by : String) (op : FriendOp) (db : Db) (a b : String)
    → befriended a b (friend_op by op db) ≡ true
    → (befriended a b db ≡ true) ⊎ Cause by a b db op
unfolding friend_op accept_friend_request remove_friend ◌>>=◌
friend_op-befriended by (send now req) db a b h = elim (sent by now req db a b h) [
  | inl e ↦ inl e
  | inr e ↦ inr (
      remote now req (ground (arith, e, eq_iff by a))
        (ground (arith, e, eq_iff req.target_public_key b))
        (named_hub req.hub_url (ground (arith, e))))
]
friend_op-befriended by (accept from) db a b h =
    elim (accepted_of_update a b from by db.friends (ground arith)) [
      | inl e ↦ inl e
      | inr (f, g, p) ↦ inr (subst (λ t. Cause by a b db (accept t)) (sym f) (accepted g p))
    ]
friend_op-befriended by (remove target) db a b h =
    inl (exists_where_of_delete (has_status "accepted" a b) _ db.friends h)

-- the rows that a removal takes, as the pair that they name
abbrev is_between : String → String → String → String → Bool
is_between by target a b = (a == by && b == target) || (a == target && b == by)

kept_row :
    (by target status a b : String) (r : FriendRow)
    → (has_status status a b r && not (is_from by target r || is_from target by r))
      ≡ (not (is_between by target a b) && has_status status a b r)
kept_row by target status a b r = elim (Bool-cases (has_status status a b r)) [
  | inl t ↦
      let first : r.user_a ≡ a = ground (arith, eq_iff r.user_a a) in
      let second : r.user_b ≡ b = ground (arith, eq_iff r.user_b b) in
      ground (
        arith,
        ap (λ x. x == by) first,
        ap (λ x. x == target) first,
        ap (λ x. x == by) second,
        ap (λ x. x == target) second,
      )
  | inr t ↦ ground arith
]

exists-and :
    (c : Bool) (p : FriendRow → Bool) (rs : List FriendRow)
    → exists_where (λ r. c && p r) rs ≡ (c && exists_where p rs)
unfolding exists_where
exists-and true p rs = refl
exists-and false p [] = refl
exists-and false p (r ∷ rs) = exists-and false p rs

kept_rows :
    (by target status a b : String) (rs : List FriendRow)
    → exists_where
        (has_status status a b)
        (delete_where (λ r. is_from by target r || is_from target by r) rs)
      ≡ (not (is_between by target a b) && exists_where (has_status status a b) rs)
kept_rows by target status a b rs =
    exists-delete (has_status status a b) (λ r. is_from by target r || is_from target by r) rs
    ∙ exists_congr _ _ (kept_row by target status a b) rs
    ∙ exists-and (not (is_between by target a b)) (has_status status a b) rs

-- After a removal neither is the other's friend nor has asked him, and the rows of all other pairs
-- are as before.
pub remove_friend-befriended :
    (by target : String) (db : Db) (status a b : String)
    → exists_where (has_status status a b) (remove_friend by target db).1.friends ≡ (
        not ((a == by && b == target) || (a == target && b == by))
        && exists_where (has_status status a b) db.friends)
unfolding remove_friend ◌>>=◌
remove_friend-befriended by target db status a b = kept_rows by target status a b db.friends
