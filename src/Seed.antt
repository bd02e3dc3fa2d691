-- ===== src/Seed.antt =====
-- seed/src/routes/farms.rs and seed/src/revalidation.rs: the directory of farms, with the table of
-- seed/src/db/migrations.rs. The answers of the farms, strict ed25519 and JSON are parameters. The error
-- of a refusal is its code. The list of farms (`list_farms`) is a read that is left out.
pub mod Listing
use Prim.Native.Char.{Char, code}
use Prim.Native.String.{◌++◌ as append}
use voxply_server.Common.{
  ℕ, zero, suc, ◌+◌, ◌*◌, ◌/◌, Bool, false, not, ◌&&◌, Option, none, some, List, [], ◌∷◌, ◌++◌,
  String, ◌==◌, if◌then◌else◌, unwrap_or, ltb, leb, length,
}
use voxply_server.Common.Int.{ℤ, pos, negsuc, ltb_ℤ, wrap_i64}
use voxply_server.Common.Text.{trim, is_empty}
use voxply_server.Exec.{
  Exec, pure, fail, gets, ok_or, modify, refuse_if, bad_request, not_found, ◌>>=◌, ◌>>◌,
}
use voxply_server.Sql.{exists_where, fetch_optional, delete_where, update_where, insert_row}
use voxply_server.Crypto.{Crypto}

pub record FarmRow : Type 0 where
  pub farm_url : String
  pub farm_pubkey : String
  pub name : String
  pub description : Option String
  pub country : Option String
  pub region : Option String
  pub languages : String
  pub tags : String
  pub hub_count : ℤ
  pub max_hubs_total : Option ℤ
  pub capacity_pct : Option ℤ
  pub geo_unverified : ℤ
  pub last_verified_at : ℤ
  pub registered_at : ℤ

pub record SeedDb : Type 0 where
  pub registered_farms : List FarmRow

pub record FarmPublicInfo : Type 0 where
  pub public_key : Option String
  pub allow_discovery_listing : Option Bool
  pub hub_count : Option ℤ
  pub max_hubs_total : Option ℤ

-- what a request to a farm comes to: no answer, or whether its status is a success, and its body
pub data Response : Type 0 where
  unreachable : Response
  response : Bool → String → Response

-- `get` answers a request, and `get_again` a second one after it; `from_json` reads a body as the
-- struct, `read_json` the members that a JSON value has
pub record SeedState : Type 0 where
  pub crypto : Crypto
  pub is_point : List ℕ → Bool
  pub verify_strict : List ℕ → List ℕ → List ℕ → Bool
  pub get : String → Response
  pub get_again : String → Response
  pub from_json : String → Option FarmPublicInfo
  pub read_json : String → Option FarmPublicInfo
  pub to_string : List String → String

pub record RegisterRequest : Type 0 where
  pub farm_url : String
  pub farm_pubkey : String
  pub name : String
  pub description : Option String
  pub country : Option String
  pub region : Option String
  pub languages : Option (List String)
  pub tags : Option (List String)

pub record DeregisterRequest : Type 0 where
  pub farm_url : String
  pub farm_pubkey : String
  pub nonce : String
  pub signature : String

-- the length of an array type
abbrev is_array : ℕ → List ℕ → Bool
is_array n bytes = leb (length bytes) n && leb n (length bytes)

unfoldable pub ed25519_verify : SeedState → String → List ℕ → String → Exec SeedDb (Unit {0})
ed25519_verify state pubkey_hex message sig_hex = do
  pub_bytes ← ok_or bad_request "invalid_pubkey_hex" (state.crypto.hex_decode pubkey_hex)
  refuse_if (not (is_array 32 pub_bytes)) bad_request "invalid_pubkey_length"
  refuse_if (not (state.is_point pub_bytes)) bad_request "invalid_pubkey"
  sig_bytes ← ok_or bad_request "invalid_signature_hex" (state.crypto.hex_decode sig_hex)
  refuse_if (not (is_array 64 sig_bytes)) bad_request "invalid_signature_length"
  refuse_if (not (state.verify_strict pub_bytes message sig_bytes)) bad_request "signature_mismatch"

-- `trim_end_matches('/')`
unfoldable pub trim_slashes : String → String
trim_slashes String.[] = String.[]
trim_slashes (String.◌∷◌ c s) =
    let rest = trim_slashes s in
    if is_empty rest && leb (code c) 47 && leb 47 (code c) then String.[] else String.◌∷◌ c rest

unfoldable pub probe_url : String → String
probe_url farm_url = append (trim_slashes farm_url) "/farm/public-info"

abbrev pub is_listable : FarmPublicInfo → Bool
is_listable i = unwrap_or i.allow_discovery_listing false

abbrev pub public_info_of : SeedState → Response → Exec SeedDb FarmPublicInfo
public_info_of state unreachable = fail bad_request "farm_not_reachable"
public_info_of state (response success body) = do
  refuse_if (not success) bad_request "farm_not_accepting_listing"
  i ← ok_or bad_request "farm_invalid_public_info" (state.from_json body)
  refuse_if (not (is_listable i)) bad_request "farm_not_accepting_listing"
  pure i

unfoldable pub fetch_public_info : SeedState → String → Exec SeedDb FarmPublicInfo
fetch_public_info state farm_url = public_info_of state (state.get (probe_url farm_url))

-- `hub_count * 100`
unfoldable pub times_100 : ℤ → ℤ
unfolding wrap_i64
times_100 (pos n) = wrap_i64 (pos (n * 100))
times_100 (negsuc n) = wrap_i64 (negsuc (n * 100 + 99))

abbrev negated : ℕ → ℤ
negated zero = pos 0
negated (suc n) = negsuc n

-- the quotient by a positive number, towards zero
unfoldable pub div_i64 : ℤ → ℕ → ℤ
div_i64 (pos n) cap = pos (n / cap)
div_i64 (negsuc n) cap = negated (suc n / cap)

abbrev at_most_100 : ℤ → ℤ
at_most_100 p = if ltb_ℤ (pos 100) p then pos 100 else p

unfoldable pub compute_capacity_pct : ℤ → Option ℤ → Option ℤ
compute_capacity_pct hub_count none = none
compute_capacity_pct hub_count (some (negsuc n)) = none
compute_capacity_pct hub_count (some (pos zero)) = none
compute_capacity_pct hub_count (some (pos (suc n))) =
    some (at_most_100 (div_i64 (times_100 hub_count) (suc n)))

abbrev json_or : String → (List String → String) → Option (List String) → String
json_or other to_string none = other
json_or other to_string (some l) = to_string l

unfoldable pub listing : SeedState → ℤ → RegisterRequest → FarmPublicInfo → FarmRow
listing state now req i = record {
  farm_url = req.farm_url;
  farm_pubkey = req.farm_pubkey;
  name = trim req.name;
  description = req.description;
  country = req.country;
  region = req.region;
  languages = json_or "[\"en\"]" state.to_string req.languages;
  tags = json_or "[]" state.to_string req.tags;
  hub_count = unwrap_or i.hub_count (pos 0);
  max_hubs_total = i.max_hubs_total;
  capacity_pct = compute_capacity_pct (unwrap_or i.hub_count (pos 0)) i.max_hubs_total;
  geo_unverified = pos 0;
  last_verified_at = now;
  registered_at = now;
}

unfoldable pub find_farm : String → SeedDb → Option FarmRow
find_farm url db = fetch_optional (λ f. f.farm_url == url) db.registered_farms

-- `ON CONFLICT(farm_url) DO UPDATE`, which keeps `registered_at`
unfoldable pub write_listing : FarmRow → SeedDb → SeedDb
write_listing row db = record db {
  registered_farms =
      if exists_where (λ f. f.farm_url == row.farm_url) db.registered_farms
      then update_where (λ f. f.farm_url == row.farm_url)
          (λ f. record row { farm_url = f.farm_url; registered_at = f.registered_at })
          db.registered_farms
      else insert_row row db.registered_farms;
}

unfoldable pub register : SeedState → ℤ → RegisterRequest → Exec SeedDb ℤ
register state now req = do
  refuse_if (is_empty req.farm_url) bad_request "missing_farm_url"
  refuse_if (not (is_array 64 (state.crypto.utf8 req.farm_pubkey))) bad_request
      "invalid_farm_pubkey"
  refuse_if (is_empty (trim req.name)) bad_request "missing_name"
  i ← fetch_public_info state req.farm_url
  remote_pk ← ok_or bad_request "farm_missing_public_key" i.public_key
  refuse_if (not (remote_pk == req.farm_pubkey)) bad_request "pubkey_mismatch"
  modify (write_listing (listing state now req i))
  pure now

unfoldable pub delete_farm : String → SeedDb → SeedDb
delete_farm url db = record db {
  registered_farms = delete_where (λ f. f.farm_url == url) db.registered_farms;
}

unfoldable pub deregister : SeedState → DeregisterRequest → Exec SeedDb (Unit {0})
deregister state req = do
  refuse_if (not (is_array 64 (state.crypto.utf8 req.farm_pubkey))) bad_request
      "invalid_farm_pubkey"
  pubkey_bytes ←
      ok_or bad_request "invalid_farm_pubkey_hex" (state.crypto.hex_decode req.farm_pubkey)
  nonce_bytes ← ok_or bad_request "invalid_nonce_hex" (state.crypto.hex_decode req.nonce)
  ed25519_verify state req.farm_pubkey (pubkey_bytes ++ nonce_bytes) req.signature
  found ← gets (find_farm req.farm_url)
  stored ← ok_or not_found "not_listed" found
  refuse_if (not (stored.farm_pubkey == req.farm_pubkey)) bad_request "pubkey_mismatch"
  modify (delete_farm req.farm_url)

-- the sweep
abbrev pub listable : Option FarmPublicInfo → Bool
listable none = false
listable (some i) = is_listable i

abbrev pub keep : SeedState → Response → Bool
keep state unreachable = false
keep state (response success body) = success && listable (state.read_json body)

-- `filter(|&v| v > 0)`
abbrev positive : Option ℤ → Option ℤ
positive none = none
positive (some n) = if ltb_ℤ (pos 0) n then some n else none

unfoldable pub fresh_counts : ℤ → FarmPublicInfo → FarmRow → FarmRow
fresh_counts now i row = record row {
  hub_count = unwrap_or i.hub_count (pos 0);
  max_hubs_total = positive i.max_hubs_total;
  capacity_pct = compute_capacity_pct (unwrap_or i.hub_count (pos 0)) (positive i.max_hubs_total);
  last_verified_at = now;
}

-- the second answer's status is not looked at, only its body
abbrev pub fresh_info : SeedState → Response → Option FarmPublicInfo
fresh_info state unreachable = none
fresh_info state (response success body) = state.read_json body

unfoldable pub refresh : ℤ → String → Option FarmPublicInfo → SeedDb → SeedDb
refresh now url none db = db
refresh now url (some i) db = record db {
  registered_farms = update_where (λ f. f.farm_url == url) (fresh_counts now i) db.registered_farms;
}

unfoldable pub revalidate : SeedState → ℤ → String → SeedDb → SeedDb
revalidate state now url db =
    if keep state (state.get (probe_url url))
    then refresh now url (fresh_info state (state.get_again (probe_url url))) db
    else delete_farm url db

unfoldable pub revalidate_all : SeedState → ℤ → List FarmRow → SeedDb → SeedDb
revalidate_all state now [] db = db
revalidate_all state now (f ∷ farms) db =
    revalidate_all state now farms (revalidate state now f.farm_url db)

-- one sweep; a farm's turn touches its own row only, so that the order of the URLs does not matter
unfoldable pub tick_seed : SeedState → ℤ → SeedDb → SeedDb
tick_seed state now db = revalidate_all state now db.registered_farms db
