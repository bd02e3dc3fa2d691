-- ===== src/Identity/Blocks.antt =====
-- The keys that a user takes no messages from.
use voxply_server.Common.{subst, refl}
use voxply_server.Common.{
  ◌≡◌, refl, ◌∙◌, Bool, true, ◌&&◌, ◌||◌, List, [], ◌∷◌, String, ◌==◌, eq_iff, if◌then◌else◌, arith,
  inl, inr, Bool-cases,
}
use voxply_server.Exec.{ok, for_each, ◌>>=◌}
use voxply_server.Sql.{exists_where, delete_where}
use voxply_server.Sql.Laws.{exists-insert}
use voxply_server.Sql.Keys.{exists-delete_key}
use voxply_server.Permissions.{contains}
use voxply_server.Db.{Db, DmBlock}
use voxply_server.Identity.{is_dm_blocked, insert_block, put_dm_blocks}

present_already :
    (owner blocked r s : String) (db : Db)
    → is_dm_blocked owner blocked db ≡ true
    → is_dm_blocked r s db ≡ (is_dm_blocked r s db || (owner == r && blocked == s))
present_already owner blocked r s db e = elim (Bool-cases (owner == r && blocked == s)) [
  | inl t ↦
      let here : is_dm_blocked r s db ≡ true =
        subst (λ x. is_dm_blocked x s db ≡ true) ((eq_iff owner r).0 (ground arith))
          (subst (λ x. is_dm_blocked owner x db ≡ true) ((eq_iff blocked s).0 (ground arith)) e) in
      ground arith
  | inr t ↦ ground arith
]

-- an insertion succeeds, and its pair is blocked from then on
insert_block-blocked :
    (owner blocked : String) (db : Db) (r s : String)
    → ((insert_block owner blocked db).0 ≡ ok tt)
      × (is_dm_blocked r s (insert_block owner blocked db).1
          ≡ (is_dm_blocked r s db || (owner == r && blocked == s)))
unfolding insert_block is_dm_blocked ◌>>=◌
insert_block-blocked owner blocked db r s = (
  ground arith,
  elim (Bool-cases (is_dm_blocked owner blocked db)) [
    | inl e ↦ rw e (present_already owner blocked r s db e)
    | inr e ↦ rw e (
        exists-insert (λ b. b.owner_pubkey == r && b.blocked_pubkey == s)
          (record { owner_pubkey = owner; blocked_pubkey = blocked }) db.dm_blocks)
  ],
)

for_each-blocked :
    (owner : String) (keys : List String) (db : Db) (r s : String)
    → ((for_each (insert_block owner) keys db).0 ≡ ok tt)
      × (is_dm_blocked r s (for_each (insert_block owner) keys db).1
          ≡ (is_dm_blocked r s db || (owner == r && contains s keys)))
unfolding for_each contains exists_where ◌>>=◌
for_each-blocked owner [] db r s = (refl, ground arith)
for_each-blocked owner (k ∷ keys) db r s =
    let (done, blocked) = insert_block-blocked owner k db r s in
    let (rest, later) = for_each-blocked owner keys (insert_block owner k db).1 r s in
    (ground arith, ground arith)

cleared_then :
    (user r s : String) (listed : Bool) (db : Db)
    → (is_dm_blocked r s
          (record db { dm_blocks = delete_where (λ b. b.owner_pubkey == user) db.dm_blocks })
        || (user == r && listed))
      ≡ (if user == r then listed else is_dm_blocked r s db)
unfolding is_dm_blocked
cleared_then user r s listed db = ground (
  arith,
  exists-delete_key (λ (b : DmBlock). b.owner_pubkey) (λ b. b.blocked_pubkey == s) user r
      db.dm_blocks,
)

-- Once a user has put a list of keys, it is those keys that are blocked for him, however often the list
-- has them, and nothing has changed for any other user; the request always succeeds.
pub put_dm_blocks-is_dm_blocked :
    (user : String) (keys : List String) (db : Db) (recipient sender : String)
    → ((put_dm_blocks user keys db).0 ≡ ok tt)
      × (is_dm_blocked recipient sender (put_dm_blocks user keys db).1
          ≡ (if user == recipient then contains sender keys else is_dm_blocked recipient sender db))
unfolding put_dm_blocks ◌>>=◌
put_dm_blocks-is_dm_blocked user keys db recipient sender =
    let cleared : Db = record db {
      dm_blocks = delete_where (λ b. b.owner_pubkey == user) db.dm_blocks;
    } in
    let (done, blocked) = for_each-blocked user keys cleared recipient sender in
    (done, blocked ∙ cleared_then user recipient sender (contains sender keys) db)
