-- ===== src/Moderation/Effects.antt =====
-- What a moderation request that succeeds changes, as the enforcement tests see it.
use voxply_server.Common.{
  ◌≡◌, Bool, not, ◌&&◌, ◌||◌, Option, String, arith, ◌==◌, List, ℕ, none, ◌+◌, if◌then◌else◌, ◌<◌,
  ◌^◌, ◌≤◌, false, ltb, some, eq_iff,
}
use voxply_server.Common.Int.{ℤ, add_i64, pos, ltb_ℤ, as_i64}
use voxply_server.Exec.{ok, ◌>>=◌}
use voxply_server.Sql.{exists_where, delete_where}
use voxply_server.Sql.Laws.{exists-insert}
use voxply_server.Sql.Keys.{present-delete_key, exists-delete_key}
use voxply_server.Db.{Db, BanRow, Session, MuteRow}
use voxply_server.Moderation.{
  require_can_moderate, ban_user, write_ban, end_sessions, is_banned, unban_user, timeout_user,
  mute_user, active, write_mute, is_muted, insert_row,
}

add_i64_small : (now d : ℕ) → now + d < 2 ^ 63 → add_i64 (pos now) (as_i64 d) ≡ pos (now + d)
unfolding add_i64
add_i64_small now d h = ground arith

-- the sum with a duration that the cast made negative is not after `now`
add_i64_long :
    (now d t : ℕ)
    → now < 2 ^ 63
    → 2 ^ 63 ≤ d
    → d < 2 ^ 64
    → now ≤ t
    → ltb_ℤ (pos t) (add_i64 (pos now) (as_i64 d)) ≡ false
unfolding add_i64
add_i64_long now d t n lo hi later = ground arith

abbrev pub has_session : String → Db → Bool
has_session k db = exists_where (λ s. s.public_key == k) db.sessions

-- After a ban that succeeds, whoever `k` is, he is banned if he is the target or was banned before,
-- and he has a session only if he had one and is not the target.
ban_user-is_banned :
    (now : ℤ) (user target : String) (reason : Option String) (db : Db) (row : BanRow)
    → (ban_user now user target reason db).0 ≡ ok row
    → (k : String)
    → (is_banned k (ban_user now user target reason db).1 ≡ (target == k || is_banned k db))
      × (has_session k (ban_user now user target reason db).1
          ≡ (not (target == k) && has_session k db))
unfolding ban_user require_can_moderate write_ban end_sessions is_banned ◌>>=◌
ban_user-is_banned now user target reason db row h k = (
  ground (
    arith,
    exists-insert (λ b. b.target_public_key == k)
        (record { target_public_key = target; banned_by = user; reason = reason; created_at = now })
        (delete_where (λ b. b.target_public_key == target) db.bans),
    present-delete_key (λ (b : BanRow). b.target_public_key) target k db.bans,
  ),
  ground (arith, present-delete_key (λ (s : Session). s.public_key) target k db.sessions),
)

mute_row : ℤ → String → String → Option String → Option ℤ → MuteRow
mute_row now user target reason until = record {
  target_public_key = target;
  muted_by = user;
  reason = reason;
  expires_at = until;
  created_at = now;
}

muted_after :
    (now t : ℤ) (user target k : String) (reason : Option String) (until : Option ℤ)
    (rs : List MuteRow)
    → exists_where
        (λ m. m.target_public_key == k && active t m.expires_at)
        (insert_row
          (mute_row now user target reason until)
          (delete_where (λ m. m.target_public_key == target) rs))
      ≡ (if target == k
          then active t until
          else exists_where (λ m. m.target_public_key == k && active t m.expires_at) rs)
unfolding mute_row
muted_after now t user target k reason until rs = ground (
  arith,
  exists-insert (λ m. m.target_public_key == k && active t m.expires_at)
      (mute_row now user target reason until)
      (delete_where (λ m. m.target_public_key == target) rs),
  exists-delete_key (λ (m : MuteRow). m.target_public_key) (λ m. active t m.expires_at) target k rs,
)

-- After a mute that succeeds the target is muted at every time, whatever muted him before; nobody
-- else's state changes.
mute_user-is_muted :
    (now : ℤ) (user target : String) (reason : Option String) (db : Db) (row : MuteRow)
    → (mute_user now user target reason db).0 ≡ ok row
    → (t : ℤ) (k : String)
    → is_muted t k (mute_user now user target reason db).1 ≡ (target == k || is_muted t k db)
unfolding mute_user require_can_moderate write_mute is_muted mute_row active ◌>>=◌
mute_user-is_muted now user target reason db row h t k =
    ground (arith, muted_after now t user target k reason none db.mutes)

-- A timeout that succeeds, of `d` seconds from `now`, where their sum is below 2^63: at every time
-- `t` the target is muted exactly if `t` is before `now + d`, also where an earlier mute was longer
-- or permanent; nobody else's state changes.
timeout_user-is_muted :
    (now : ℕ) (user target : String) (reason : Option String) (d : ℕ) (db : Db) (row : MuteRow)
    → now + d < 2 ^ 63
    → (timeout_user (pos now) user target reason d db).0 ≡ ok row
    → (t : ℕ) (k : String)
    → is_muted (pos t) k (timeout_user (pos now) user target reason d db).1
      ≡ (if target == k then ltb t (now + d) else is_muted (pos t) k db)
unfolding timeout_user require_can_moderate write_mute is_muted mute_row active ◌>>=◌
timeout_user-is_muted now user target reason d db row small h t k = ground (
  arith,
  muted_after (pos now) (pos t) user target k reason (some (add_i64 (pos now) (as_i64 d))) db.mutes,
  add_i64_small now d small,
)

-- A timeout of 2^63 seconds or more, which the request's `u64` allows, leaves the target unmuted at
-- every time from `now` on: the cast to `i64` makes the duration negative.
pub timeout_user-too_long :
    (now : ℕ) (user target : String) (reason : Option String) (d : ℕ) (db : Db) (row : MuteRow)
    → now < 2 ^ 63
    → 2 ^ 63 ≤ d
    → d < 2 ^ 64
    → (timeout_user (pos now) user target reason d db).0 ≡ ok row
    → (t : ℕ) → now ≤ t
    → is_muted (pos t) target (timeout_user (pos now) user target reason d db).1 ≡ false
unfolding timeout_user require_can_moderate write_mute is_muted mute_row active ◌>>=◌
timeout_user-too_long now user target reason d db row n lo hi h t later = ground (
  arith,
  muted_after (pos now) (pos t) user target target reason (some (add_i64 (pos now) (as_i64 d)))
      db.mutes,
  add_i64_long now d t n lo hi later,
  eq_iff target target,
)

-- Lifting a ban or a mute takes it from the one who is named, and from nobody else.
pub unban_user-is_banned :
    (user target : String) (db : Db)
    → (unban_user user target db).0 ≡ ok tt
    → (k : String)
    → is_banned k (unban_user user target db).1 ≡ (not (target == k) && is_banned k db)
unfolding unban_user is_banned ◌>>=◌
unban_user-is_banned user target db h k =
    ground (arith, present-delete_key (λ (b : BanRow). b.target_public_key) target k db.bans)
