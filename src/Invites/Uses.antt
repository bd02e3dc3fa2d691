-- ===== src/Invites/Uses.antt =====
-- How often a code can be used.
use voxply_server.Exec.{succeeded}
use voxply_server.Common.{
  ◌≡◌, refl, none, some, ◌≤◌, ◌<◌, ◌-◌, ℕ, suc, String, arith, false, if◌then◌else◌, ltb, List, [],
  ◌∷◌, length, All, Option, Bool-cases, inl, inr, eq_iff, ap, ◌∙◌, ◌==◌,
}
use voxply_server.Common.Int.{ℤ, pos, ltb_ℤ, ◌+ℤ◌}
use voxply_server.Exec.{if_some, ok, err, forbidden, ◌>>=◌}
use voxply_server.Sql.{update_where}
use voxply_server.Sql.Keys.{fetch-update}
use voxply_server.Db.{Db, InviteRow}
use voxply_server.Invites.{
  find_invite, validate_and_use_invite, refuse_expired, refuse_used_up, used_once,
}

-- the attempts to use one code at a list of times: how many succeed, and the database after them
unfoldable pub redeem : List ℤ → String → Db → ℕ × Db
redeem [] code db = (0, db)
redeem (t ∷ ts) code db =
    let attempt = validate_and_use_invite t code db in
    let rest = redeem ts code attempt.1 in
    (if succeeded attempt.0 then suc rest.0 else rest.0, rest.1)

-- not expired at `t`
abbrev pub Live : Option ℤ → ℤ → Type 0
Live none t = Unit {0}
Live (some e) t = ltb_ℤ e t ≡ false

abbrev using : String → Db → Db
using code db = record db { invites = update_where (λ i. i.code == code) used_once db.invites }

find_using :
    (code : String) (db : Db) (i : InviteRow)
    → find_invite code db ≡ some i
    → find_invite code (using code db) ≡ some (used_once i)
unfolding find_invite
find_using code db i e = ground (
  arith,
  fetch-update (λ (i : InviteRow). i.code) used_once (λ r. refl) code code db.invites,
  eq_iff code code,
)

passes_expiry :
    (t : ℤ) (o : Option ℤ) (db : Db) → Live o t → if_some o (refuse_expired t) db ≡ (ok tt, db)
unfolding refuse_expired ◌>>=◌
passes_expiry t none db live = refl
passes_expiry t (some e) db live = ground arith

module _ (t : ℤ) (code : String) (db : Db) (i : InviteRow) (m u : ℕ)
    (found : find_invite code db ≡ some i) (bound : i.max_uses ≡ some (pos m))
    (uses : i.uses ≡ pos u) (live : Live i.expires_at t) where
  validate-uses : u < m → validate_and_use_invite t code db ≡ (ok tt, using code db)
  unfolding validate_and_use_invite refuse_expired refuse_used_up ◌>>=◌
  validate-uses h = ground (arith, passes_expiry t i.expires_at db live)

  validate-refuses :
      m ≤ u → validate_and_use_invite t code db ≡ (err forbidden "Invite code has been used up", db)
  unfolding validate_and_use_invite refuse_expired refuse_used_up ◌>>=◌
  validate-refuses h = ground (arith, passes_expiry t i.expires_at db live)

plus_one : (u : ℕ) → pos u +ℤ pos 1 ≡ pos (suc u)
unfolding ◌+ℤ◌
plus_one u = ground arith

redeem-count :
    (ts : List ℤ) (code : String) (db : Db) (i : InviteRow) (m u : ℕ)
    → find_invite code db ≡ some i
    → i.max_uses ≡ some (pos m)
    → i.uses ≡ pos u
    → u ≤ m
    → All (Live i.expires_at) ts
    → (redeem ts code db).0 ≡ (if ltb (length ts) (m - u) then length ts else m - u)
unfolding redeem
redeem-count [] code db i m u found bound uses le live = ground arith
redeem-count (t ∷ ts) code db i m u found bound uses le live = elim (Bool-cases (ltb u m)) [
  | inl lt ↦ rw (validate-uses t code db i m u found bound uses live.0 (ground arith)) (
      ground (
        arith,
        redeem-count ts code (using code db) (used_once i) m (suc u) (find_using code db i found)
            bound (ap (λ n. n +ℤ pos 1) uses ∙ plus_one u) (ground arith) live.1,
      ))
  | inr ge ↦
      rw (validate-refuses t code db i m u found bound uses live.0 (ground arith))
        (ground (arith, redeem-count ts code db i m u found bound uses le live.1))
]

-- A code that may be used `m` times is, from its creation on, accepted at the first `m` attempts
-- that come before it expires, and refused at all later ones.
pub redeem-max_uses :
    (ts : List ℤ) (code : String) (db : Db) (i : InviteRow) (m : ℕ)
    → find_invite code db ≡ some i
    → i.max_uses ≡ some (pos m)
    → i.uses ≡ pos 0
    → All (Live i.expires_at) ts
    → (redeem ts code db).0 ≡ (if ltb (length ts) m then length ts else m)
redeem-max_uses ts code db i m found bound uses live =
    ground (arith, redeem-count ts code db i m 0 found bound uses (omega arith) live)
