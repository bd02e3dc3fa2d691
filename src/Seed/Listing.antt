-- ===== src/Seed/Listing.antt =====
-- Who takes a farm from the directory, and what a sweep leaves in it.
use voxply_server.Common.{
  ◌≡◌, refl, ap, subst, ◌∙◌, ℕ, true, false, Option, some, none, List, [], ◌∷◌, ◌++◌, String, ◌==◌,
  eq_refl, eq_iff, arith, if◌then◌else◌, inl, inr, Bool-cases, Option-cases, All,
}
use voxply_server.Common.Int.{ℤ}
use voxply_server.Exec.{ok, ◌>>=◌}
use voxply_server.Sql.{exists_where}
use voxply_server.Sql.Laws.{All-update, All-delete_kept}
use voxply_server.Sql.Keys.{fetch-delete_key}
use voxply_server.Seed.{
  SeedState, SeedDb, FarmRow, FarmPublicInfo, DeregisterRequest, deregister, ed25519_verify,
  find_farm, delete_farm, keep, probe_url, refresh, fresh_counts, revalidate, revalidate_all,
  tick_seed,
}
use voxply_server.Common.{All-map}

find-delete_farm :
    (gone url : String) (db : SeedDb)
    → find_farm url (delete_farm gone db) ≡ (if gone == url then none else find_farm url db)
unfolding find_farm delete_farm
find-delete_farm gone url db =
    fetch-delete_key (λ (r : FarmRow). r.farm_url) gone url db.registered_farms

-- A farm is taken from the directory on request only by a signature that verifies under the key of its
-- listing, over that key and the nonce; the listing is then gone, and every other is as before.
pub deregister-find_farm :
    (state : SeedState) (req : DeregisterRequest) (db : SeedDb)
    → (deregister state req db).0 ≡ ok tt
    → (row : FarmRow) × (key nonce signature : List ℕ) × (find_farm req.farm_url db ≡ some row)
      × (state.crypto.hex_decode row.farm_pubkey ≡ some key)
      × (state.crypto.hex_decode req.nonce ≡ some nonce)
      × (state.crypto.hex_decode req.signature ≡ some signature)
      × (state.verify_strict key (key ++ nonce) signature ≡ true)
      × ((url : String)
          → find_farm url (deregister state req db).1
            ≡ (if req.farm_url == url then none else find_farm url db))
unfolding deregister ed25519_verify ◌>>=◌
deregister-find_farm state req db h =
    elim (Option-cases (state.crypto.hex_decode req.farm_pubkey)) [
      | inl e ↦ absurd (ground arith)
      | inr (key, k) ↦ elim (Option-cases (state.crypto.hex_decode req.nonce)) [
        | inl e ↦ absurd (ground arith)
        | inr (nonce, n) ↦ elim (Option-cases (state.crypto.hex_decode req.signature)) [
          | inl e ↦ absurd (ground arith)
          | inr (signature, s) ↦ elim (Option-cases (find_farm req.farm_url db)) [
            | inl e ↦ absurd (ground arith)
            | inr (row, f) ↦
                let same : row.farm_pubkey ≡ req.farm_pubkey =
                  (eq_iff row.farm_pubkey req.farm_pubkey).0 (ground arith) in
                let after : (deregister state req db).1 ≡ delete_farm req.farm_url db =
                  ground arith in
                (
                  row,
                  key,
                  nonce,
                  signature,
                  f,
                  ap state.crypto.hex_decode same ∙ k,
                  n,
                  s,
                  ground arith,
                  λ url. ap (find_farm url) after ∙ find-delete_farm req.farm_url url db,
                )
          ]
        ]
      ]
    ]

-- the farm at the URL answers that it may be listed
abbrev pub Listed : SeedState → String → Type 0
Listed state url = keep state (state.get (probe_url url)) ≡ true

-- a row that is none of these farms'
abbrev Other : List FarmRow → FarmRow → Type 0
Other farms r = exists_where (λ f. f.farm_url == r.farm_url) farms ≡ false

-- what is left to do
abbrev Remaining : SeedState → List FarmRow → FarmRow → Type 0
Remaining state farms r = Other farms r → Listed state r.farm_url

module _ (state : SeedState) (now : ℤ) where
  refresh-Remaining :
      (url : String) (farms : List FarmRow) (body : Option FarmPublicInfo) (db : SeedDb)
      → All (Remaining state farms) db.registered_farms
      → All (Remaining state farms) (refresh now url body db).registered_farms
  unfolding refresh fresh_counts
  refresh-Remaining url farms none db h = h
  refresh-Remaining url farms (some i) db h =
      All-update (Remaining state farms) (λ f. f.farm_url == url) (fresh_counts now i)
        db.registered_farms (λ r k _. k) h

  revalidate-Remaining :
      (f : FarmRow) (farms : List FarmRow) (db : SeedDb)
      → All (Remaining state (f ∷ farms)) db.registered_farms
      → All (Remaining state farms) (revalidate state now f.farm_url db).registered_farms
  unfolding revalidate delete_farm exists_where
  revalidate-Remaining f farms db h =
      elim (Bool-cases (keep state (state.get (probe_url f.farm_url)))) [
        | inl e ↦ rw e (
            refresh-Remaining f.farm_url farms _ db (
              All-map (Remaining state (f ∷ farms)) (Remaining state farms)
                (λ r k other. elim (Bool-cases (f.farm_url == r.farm_url)) [
                  | inl same ↦ subst (Listed state) ((eq_iff f.farm_url r.farm_url).0 same) e
                  | inr o ↦ k (ground arith)
                ])
                db.registered_farms h))
        | inr e ↦ rw e (
            All-delete_kept (Remaining state farms) (λ r. r.farm_url == f.farm_url)
              db.registered_farms
              (All-map (Remaining state (f ∷ farms))
                (λ r. (r.farm_url == f.farm_url) ≡ false → Remaining state farms r)
                (λ r k o other.
                  k (ground (arith, eq_iff f.farm_url r.farm_url, eq_iff r.farm_url f.farm_url)))
                db.registered_farms h))
      ]

  revalidate_all-Listed :
      (farms : List FarmRow) (db : SeedDb)
      → All (Remaining state farms) db.registered_farms
      → All (λ r. Listed state r.farm_url) (revalidate_all state now farms db).registered_farms
  unfolding revalidate_all exists_where
  revalidate_all-Listed [] db h =
      All-map (Remaining state []) (λ r. Listed state r.farm_url) (λ r k. k refl)
        db.registered_farms h
  revalidate_all-Listed (f ∷ farms) db h =
      revalidate_all-Listed farms (revalidate state now f.farm_url db)
        (revalidate-Remaining f farms db h)

-- every row is one of them
own_rows :
    (farms : List FarmRow)
    → All (λ r. exists_where (λ f. f.farm_url == r.farm_url) farms ≡ true) farms
unfolding exists_where
own_rows [] = tt
own_rows (f ∷ farms) = (
  ground (arith, eq_refl f.farm_url),
  All-map (λ r. exists_where (λ g. g.farm_url == r.farm_url) farms ≡ true)
      (λ r. exists_where (λ g. g.farm_url == r.farm_url) (f ∷ farms) ≡ true) (λ r k. ground arith)
      farms (own_rows farms),
)

-- After a sweep every farm in the directory is one that has just answered, at its own URL and with a
-- success, that it may be listed.
pub tick_seed-Listed :
    (state : SeedState) (now : ℤ) (db : SeedDb)
    → All (λ r. Listed state r.farm_url) (tick_seed state now db).registered_farms
unfolding tick_seed
tick_seed-Listed state now db = revalidate_all-Listed state now db.registered_farms db (
    All-map (λ r. exists_where (λ f. f.farm_url == r.farm_url) db.registered_farms ≡ true)
      (Remaining state db.registered_farms) (λ r k other. absurd (ground (arith, k, other)))
      db.registered_farms (own_rows db.registered_farms))
