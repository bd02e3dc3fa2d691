-- ===== src/Tests/IdentityTests.antt =====
-- A master key publishes its home hubs and its preferences, and a user blocks two others.
use voxply_server.Common.Int.{pos}
use voxply_server.Common.{◌≡◌, refl, some, [], ◌∷◌, String, List, ℕ, ◌==◌, arith, ◌⊎◌, ◌<◌}
use voxply_server.Exec.{ok, succeeded, ◌>>=◌}
use voxply_server.Crypto.{check_sig, verify_signature}
use voxply_server.Common.Text.{codes}
use voxply_server.Sql.{fetch_optional}
use voxply_server.Db.{Db, DesignationRow}
use voxply_server.Identity.Messages.{HomeHubList, SignedPrefsBlob, verify_home_hub_list}
use voxply_server.Identity.{
  put_designation, get_designation, designation_row, find_designation, put_dm_blocks, is_dm_blocked,
  home_hubs_of,
}
use voxply_server.Identity.Register.{
  is_taken, put_latest, designations, valid_designation, put_designation-refines,
}
use voxply_server.Identity.Versions.{
  HubsPut, put_designations, put_designations-home_hubs_of, put_designation-get_designation,
}
use voxply_server.Identity.Blocks.{put_dm_blocks-is_dm_blocked}
use voxply_server.Permissions.{contains}
use voxply_server.Common.{if◌then◌else◌}
use voxply_server.Tests.Sample.{hub}
use voxply_server.Tests.PairingTests.{crypto}

abbrev list : ℕ → HomeHubList
list n = record {
  master_pubkey = "master";
  hubs = "hub.example" ∷ [];
  issued_at = 100;
  sequence = n;
  signature = "signature";
}

abbrev blob : SignedPrefsBlob
blob = record {
  master_pubkey = "master";
  blob_version = 4;
  ciphertext_hex = "cafe";
  signature = "signature";
}

put_designation-refines_example :
    (succeeded (put_designation crypto 200 "master" (list 3) hub).0
      ≡ is_taken
          (λ r. r.master_pubkey)
          (λ r. r.sequence)
          (valid_designation crypto "master" (list 3))
          (designation_row 200 (list 3))
          (designations hub))
    × ((k : String)
        → designations (put_designation crypto 200 "master" (list 3) hub).1 k
          ≡ put_latest
              (λ r. r.master_pubkey)
              (λ r. r.sequence)
              (valid_designation crypto "master" (list 3))
              (designation_row 200 (list 3))
              (designations hub)
              k)
put_designation-refines_example = put_designation-refines crypto 200 (list 3) hub "master"

accepted : (put_designation crypto 200 "master" (list 3) hub).0 ≡ ok tt
unfolding put_designation find_designation verify_home_hub_list check_sig verify_signature codes
    fetch_optional ◌>>=◌
accepted = refl

put_designation-get_designation_example :
    (get_designation "master" (put_designation crypto 200 "master" (list 3) hub).1).0 ≡ ok (list 3)
put_designation-get_designation_example =
    put_designation-get_designation crypto 200 "master" (list 3) hub (omega arith) (omega arith)
      accepted

abbrev stored : Db
stored = record hub { home_hub_designations = designation_row 200 (list 3) ∷ [] }

held : find_designation "master" stored ≡ some (designation_row 200 (list 3))
unfolding find_designation fetch_optional designation_row
held = refl

column : (designation_row 200 (list 3)).sequence ≡ pos 3
unfolding designation_row
column = refl

abbrev puts : List HubsPut
puts = (210, "master", list 2) ∷ (220, "master", list 5) ∷ (230, "other", list 9) ∷ []

put_designations-home_hubs_of_example :
    (new : DesignationRow) × (find_designation "master" (put_designations crypto puts stored)
      ≡ some new)
    × ((new ≡ designation_row 200 (list 3)) ⊎ (3 < (home_hubs_of new).sequence))
put_designations-home_hubs_of_example =
    put_designations-home_hubs_of crypto puts stored "master" (designation_row 200 (list 3)) 3 held
      column

put_dm_blocks-is_dm_blocked_example :
    ((put_dm_blocks "alice" ("bob" ∷ "dave" ∷ "bob" ∷ []) hub).0 ≡ ok tt)
    × (is_dm_blocked "alice" "dave" (put_dm_blocks "alice" ("bob" ∷ "dave" ∷ "bob" ∷ []) hub).1 ≡ (
        if "alice" == "alice"
        then contains "dave" ("bob" ∷ "dave" ∷ "bob" ∷ [])
        else is_dm_blocked "alice" "dave" hub))
put_dm_blocks-is_dm_blocked_example =
    put_dm_blocks-is_dm_blocked "alice" ("bob" ∷ "dave" ∷ "bob" ∷ []) hub "alice" "dave"
