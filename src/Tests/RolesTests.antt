-- ===== src/Tests/RolesTests.antt =====
-- The requests about roles, on the sample hub.
use voxply_server.Common.Int.{pos, ◌≤ℤ◌, ◌<ℤ◌}
use voxply_server.Tests.Sample.{hub}
use voxply_server.Roles.Ops.{RoleOp, delete, assign, remove, role_op, role_ops}
use voxply_server.Exec.{◌>>=◌}
use voxply_server.Roles.{owner_count, assign_role, get_role, find_role, insert_assignment}
use voxply_server.Permissions.{
  permissions_of, has, contains, roles_of, holds_role, fetch_permissions, max_priority, highest,
}
use voxply_server.Sql.{count_where, fetch_all, exists_where, fetch_optional}
use voxply_server.Common.{arith, refl}
use voxply_server.Roles.Owner.{IsOwned, role_ops-IsOwned}
use voxply_server.Roles.Rank.{role_op-rank, rank}
use voxply_server.Sql.Keys.{Distinct}
use voxply_server.Common.{◌≡◌, List, ◌⊎◌, String, ◌∷◌, []}

abbrev promote : RoleOp
promote = assign (pos 9) "carol" "helper"

hub_roles-Distinct : Distinct (λ r. r.id) hub.roles
unfolding exists_where
hub_roles-Distinct = (refl, (refl, (refl, (refl, tt))))

role_op-rank_example :
    (rank (role_op "bob" promote hub) "carol" ≡ pos 0)
    ⊎ ((rank (role_op "bob" promote hub) "carol" ≤ℤ rank hub "carol")
        ⊎ (rank (role_op "bob" promote hub) "carol" <ℤ rank hub "bob"))
role_op-rank_example = role_op-rank "bob" promote hub "carol" hub_roles-Distinct

-- carol has been promoted
promoted : rank (role_op "bob" promote hub) "carol" ≡ pos 20
unfolding role_op assign_role get_role find_role insert_assignment permissions_of has contains
    roles_of holds_role fetch_permissions max_priority highest fetch_all exists_where fetch_optional
    ◌>>=◌
promoted = refl

hub-IsOwned : IsOwned hub
unfolding owner_count count_where
hub-IsOwned = record { owners = omega arith; once = λ pk. ground arith }

abbrev abdication : List (String × RoleOp)
abdication = ("alice", remove "alice" "builtin-owner") ∷ ("alice", delete "mod") ∷ []

role_ops-IsOwned_example : IsOwned (role_ops abdication hub)
role_ops-IsOwned_example = role_ops-IsOwned abdication hub hub-IsOwned
