-- ===== src/Tests/SeedTests.antt =====
-- A directory of two farms: one asks to be taken off it, then a sweep runs.
use voxply_server.Common.{
  ◌≡◌, refl, true, some, none, List, [], ◌∷◌, ℕ, String, ◌==◌, if◌then◌else◌, All,
}
use voxply_server.Common.Int.{pos}
use voxply_server.Common.Text.{codes}
use voxply_server.Exec.{ok, ◌>>=◌}
use voxply_server.Sql.{fetch_optional}
use voxply_server.Seed.{
  SeedState, SeedDb, FarmRow, FarmPublicInfo, DeregisterRequest, Response, unreachable, response,
  deregister, ed25519_verify, find_farm, tick_seed,
}
use voxply_server.Seed.Listing.{deregister-find_farm, Listed, tick_seed-Listed}
use voxply_server.Tests.PairingTests.{crypto}

abbrev farm_key : String
farm_key = "0123456789abcdef0123456789abcdef0123456789abcdef0123456789abcdef"

abbrev listed : String → FarmRow
listed url = record {
  farm_url = url;
  farm_pubkey = farm_key;
  name = url;
  description = none;
  country = none;
  region = none;
  languages = "[]";
  tags = "[]";
  hub_count = pos 1;
  max_hubs_total = none;
  capacity_pct = none;
  geo_unverified = pos 0;
  last_verified_at = pos 10;
  registered_at = pos 10;
}

abbrev two_farms : SeedDb
two_farms = record { registered_farms = listed "https://a/" ∷ listed "https://b" ∷ [] }

abbrev an_info : FarmPublicInfo
an_info = record {
  public_key = some farm_key;
  allow_discovery_listing = some true;
  hub_count = some (pos 3);
  max_hubs_total = some (pos 4);
}

abbrev answers : String → Response
answers url = if url == "https://a/farm/public-info" then response true "{}" else unreachable

-- the first farm answers, the second does not
abbrev state : SeedState
state = record {
  crypto = crypto;
  is_point = λ key. true;
  verify_strict = λ key message signature. true;
  get = answers;
  get_again = answers;
  from_json = λ body. some an_info;
  read_json = λ body. some an_info;
  to_string = λ l. "[]";
}

abbrev farewell : DeregisterRequest
farewell = record {
  farm_url = "https://b";
  farm_pubkey = farm_key;
  nonce = "00";
  signature = "signature";
}

taken_off : (deregister state farewell two_farms).0 ≡ ok tt
unfolding deregister ed25519_verify find_farm fetch_optional codes ◌>>=◌
taken_off = refl

deregister-find_farm_example :
    (row : FarmRow) × (key nonce signature : List ℕ) × (find_farm "https://b" two_farms ≡ some row)
    × (crypto.hex_decode row.farm_pubkey ≡ some key)
    × (crypto.hex_decode "00" ≡ some nonce)
    × (crypto.hex_decode "signature" ≡ some signature)
    × (true ≡ true)
    × ((url : String)
        → find_farm url (deregister state farewell two_farms).1
          ≡ (if "https://b" == url then none else find_farm url two_farms))
deregister-find_farm_example = deregister-find_farm state farewell two_farms taken_off

tick_seed-Listed_example :
    All (λ r. Listed state r.farm_url) (tick_seed state (pos 20) two_farms).registered_farms
tick_seed-Listed_example = tick_seed-Listed state (pos 20) two_farms
