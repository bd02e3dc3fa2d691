-- ===== src/Permissions/Rank.antt =====
-- The rank of a user: `max_priority` bounds the priority of every role and is one of them.
use voxply_server.Common.{
  ◌≡◌, refl, ◌⊎◌, inl, inr, Bool, true, false, List, [], ◌∷◌, arith, if◌then◌else◌, All,
}
use voxply_server.Common.Int.{ℤ, pos, ◌≤ℤ◌, ltb_ℤ, max_ℤ}
use voxply_server.Db.{RoleRow}
use voxply_server.Permissions.{highest, max_priority}

highest_ge : (p : ℤ) (rs : List RoleRow) → p ≤ℤ highest p rs
unfolding highest
highest_ge p [] = omega arith
highest_ge p (r ∷ rs) = ground (arith, highest_ge (max_ℤ p r.priority) rs)

highest_bounds : (p : ℤ) (rs : List RoleRow) → All (λ r. r.priority ≤ℤ highest p rs) rs
unfolding highest
highest_bounds p [] = tt
highest_bounds p (r ∷ rs) =
    (ground (arith, highest_ge (max_ℤ p r.priority) rs), highest_bounds (max_ℤ p r.priority) rs)

pub max_priority_bounds : (rs : List RoleRow) → All (λ r. r.priority ≤ℤ max_priority rs) rs
unfolding max_priority
max_priority_bounds [] = tt
max_priority_bounds (r ∷ rs) = (highest_ge r.priority rs, highest_bounds r.priority rs)

module _ (Q : ℤ → Type 0) where
  pick : (b : Bool) {p q : ℤ} → Q p → Q q → Q (if b then q else p)
  pick true hp hq = hq
  pick false hp hq = hp

  highest_attained :
      (p : ℤ) (rs : List RoleRow) → Q p → All (λ r. Q r.priority) rs → Q (highest p rs)
  unfolding highest
  highest_attained p [] q h = q
  highest_attained p (r ∷ rs) q h =
      highest_attained (max_ℤ p r.priority) rs (pick (ltb_ℤ p r.priority) q h.0) h.1

  pub max_priority_attained :
      (rs : List RoleRow)
      → All (λ r. Q r.priority) rs
      → (max_priority rs ≡ pos 0) ⊎ Q (max_priority rs)
  unfolding max_priority
  max_priority_attained [] h = inl refl
  max_priority_attained (r ∷ rs) h = inr (highest_attained r.priority rs h.0 h.1)
