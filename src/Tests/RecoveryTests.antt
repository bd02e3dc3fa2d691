-- ===== src/Tests/RecoveryTests.antt =====
-- carol has lost her key; alice, who owns the hub, approves the new one.
use voxply_server.Common.{
  ◌≡◌, refl, false, some, none, [], ◌∷◌, String, List, ◌==◌, ◌||◌, ◌&&◌, not,
}
use voxply_server.Common.Int.{pos}
use voxply_server.Exec.{ok, ◌>>=◌}
use voxply_server.Sql.{fetch_optional, fetch_all, exists_where, update_where, delete_where}
use voxply_server.Db.{Db, RotationRequest}
use voxply_server.Permissions.{
  holds_role, permissions_of, has, contains, roles_of, fetch_permissions, max_priority, highest,
}
use voxply_server.Moderation.{end_sessions}
use voxply_server.Moderation.Effects.{has_session}
use voxply_server.Recovery.{RotateKeyRequest, set_request}
use voxply_server.Recovery.Decide.{
  admin_approve, find_request, decided, is_open, fetch_rotation_request, ensure_user,
  transfer_roles, copy_roles,
}
use voxply_server.Recovery.Outcome.{admin_approve-holds_role}
use voxply_server.Recovery.Closed.{
  RecoveryOp, rotate, approve, deny, forget, recovery_ops, recovery_ops-closed,
}
use voxply_server.Tests.Sample.{hub}

abbrev asked : RotationRequest
asked = record {
  id = "r1";
  old_pubkey = "carol";
  new_pubkey = "carol2";
  reason = none;
  status = "ready_for_review";
  created_at = pos 100;
  decided_at = none;
  decided_by = none;
}

abbrev with_request : RotationRequest → Db
with_request r = record hub { key_rotation_requests = r ∷ [] }

there : find_request "r1" (with_request asked) ≡ some asked
unfolding find_request fetch_optional
there = refl

approved : (admin_approve (pos 120) "alice" "r1" (with_request asked)).0 ≡ ok tt
unfolding admin_approve fetch_rotation_request find_request is_open ensure_user transfer_roles
    copy_roles end_sessions set_request permissions_of has contains roles_of holds_role
    fetch_permissions max_priority highest fetch_optional fetch_all exists_where update_where
    delete_where ◌>>=◌
approved = refl

admin_approve-holds_role_example :
    ((k role : String)
      → holds_role k role (admin_approve (pos 120) "alice" "r1" (with_request asked)).1 ≡ (
          holds_role k role (with_request asked)
          || ("carol2" == k && holds_role "carol" role (with_request asked))))
    × ((k : String)
        → has_session k (admin_approve (pos 120) "alice" "r1" (with_request asked)).1
          ≡ (not ("carol" == k) && has_session k (with_request asked)))
    × (find_request "r1" (admin_approve (pos 120) "alice" "r1" (with_request asked)).1
        ≡ some (decided (pos 120) "alice" "approved" asked))
admin_approve-holds_role_example =
    admin_approve-holds_role (pos 120) "alice" "r1" (with_request asked) asked approved there

abbrev settled : RotationRequest
settled = decided (pos 120) "alice" "approved" asked

settled_closed : is_open settled ≡ false
unfolding is_open
settled_closed = refl

settled_there : find_request "r1" (with_request settled) ≡ some settled
unfolding find_request fetch_optional
settled_there = refl

abbrev again : RotateKeyRequest
again = record {
  old_pubkey = "carol";
  new_pubkey = "carol3";
  reason = none;
  attestations = record { attester = "bob"; signature = "signature" } ∷ [];
}

abbrev later : List RecoveryOp
later =
    deny (pos 130) "alice" "r1"
    ∷ rotate (λ n. "a1") (pos 140) "r1" again
    ∷ approve (pos 150) "alice" "r1"
    ∷ forget "carol" "bob"
    ∷ []

recovery_ops-closed_example :
    find_request "r1" (recovery_ops later (with_request settled)) ≡ some settled
recovery_ops-closed_example =
    recovery_ops-closed "r1" settled settled_closed later (with_request settled) settled_there
