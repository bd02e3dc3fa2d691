-- ===== src/Identity/Register.antt =====
-- What a hub keeps of home hubs and preferences: for each master key the latest version that it was
-- given, where versions are in the order of `i64`. That is a register, a function from keys to what they hold, without any
-- table, which the handlers of the database implement.
use voxply_server.Common.{refl}
use voxply_server.Sql.Upsert.{fetch-upsert}
use voxply_server.Common.{
  ◌≡◌, subst, ℕ, Bool, true, ◌&&◌, Option, none, some, List, [], ◌∷◌, String, ◌==◌, eq_iff, eq_refl,
  if◌then◌else◌, arith, inl, inr, Bool-cases, ap, ◌∙◌, false,
}
use voxply_server.Common.Int.{ℤ, ltb_ℤ}
use voxply_server.Exec.{succeeded, ◌>>=◌}
use voxply_server.Crypto.{Crypto}
use voxply_server.Db.{Db, DesignationRow, PrefsRow}
use voxply_server.Identity.Messages.{HomeHubList, verify_home_hub_list}
use voxply_server.Identity.{
  find_designation, put_designation, designation_row, write_designation, write_prefs,
  SignedPrefsBlob, put_prefs, find_prefs, verify_prefs_blob, prefs_row, for_master,
}

abbrev pub Register : Type 0 → Type 0
Register V = String → Option V

module _ {V : Type 0} (key : V → String) (version : V → ℤ) where
  -- a first version, or a later one
  abbrev pub is_later : Option V → V → Bool
  is_later none v = true
  is_later (some old) v = ltb_ℤ (version old) (version v)

  -- a put of `v`, which is `valid` or not
  abbrev pub is_taken : Bool → V → Register V → Bool
  is_taken valid v reg = valid && is_later (reg (key v)) v

  unfoldable pub put_latest : Bool → V → Register V → Register V
  put_latest valid v reg k = if is_taken valid v reg && key v == k then some v else reg k

  -- the versions that a sequence of puts leaves
  unfoldable pub put_all : List (Bool × V) → Register V → Register V
  put_all [] reg = reg
  put_all ((valid, v) ∷ puts) reg = put_all puts (put_latest valid v reg)

abbrev pub designations : Db → Register DesignationRow
designations db k = find_designation k db

abbrev pub valid_designation : Crypto → String → HomeHubList → Bool
valid_designation crypto master body =
    body.master_pubkey == master && verify_home_hub_list crypto body

written_designation :
    (row : DesignationRow) (db : Db) (taken : Bool) (k : String)
    → designations (if taken then write_designation row db else db) k
      ≡ (if taken && row.master_pubkey == k then some row else designations db k)
unfolding write_designation find_designation
written_designation row db true k =
    fetch-upsert (λ (r : DesignationRow). r.master_pubkey) for_master (λ k r. refl) (λ r. refl) row
      k db.home_hub_designations
written_designation row db false k = refl

module _ (crypto : Crypto) (now : ℕ) (body : HomeHubList) (db : Db) where
  abbrev designation_taken : String → Bool
  designation_taken master =
      is_taken (λ r. r.master_pubkey) (λ r. r.sequence) (valid_designation crypto master body)
        (designation_row now body) (designations db)

  -- whether a put succeeds, and what it writes
  abbrev Carried : String → Type 0
  Carried master =
      (succeeded (put_designation crypto now master body db).0 ≡ designation_taken master)
      × ((put_designation crypto now master body db).1 ≡ (
          if designation_taken master then write_designation (designation_row now body) db else db))

  own_put : Carried body.master_pubkey
  unfolding put_designation find_designation designation_row ◌>>=◌
  own_put = (ground (arith, eq_refl body.master_pubkey), ground (arith, eq_refl body.master_pubkey))

  put_designation-Carried : (master : String) → Carried master
  unfolding put_designation ◌>>=◌
  put_designation-Carried master = elim (Bool-cases (body.master_pubkey == master)) [
    | inl t ↦ subst Carried ((eq_iff body.master_pubkey master).0 t) own_put
    | inr t ↦ (ground arith, ground arith)
  ]

  -- A put of home hubs is one of the register: it succeeds just where the path names the key, the
  -- signature is good and the key has no list or one of a smaller sequence number, both numbers read as
  -- `i64`; then the key holds the new list, and otherwise, and for every other key, everything is as it
  -- was. The reading leaves a `u64` below 2^63 as it is; one of 2^63 or more counts as negative, so that
  -- it is refused after a smaller one.
  pub put_designation-refines :
      (master : String)
      → (succeeded (put_designation crypto now master body db).0
          ≡ is_taken
              (λ r. r.master_pubkey)
              (λ r. r.sequence)
              (valid_designation crypto master body)
              (designation_row now body)
              (designations db))
        × ((k : String)
            → designations (put_designation crypto now master body db).1 k
              ≡ put_latest
                  (λ r. r.master_pubkey)
                  (λ r. r.sequence)
                  (valid_designation crypto master body)
                  (designation_row now body)
                  (designations db)
                  k)
  unfolding put_latest designation_row
  put_designation-refines master =
      let (reply, state) = put_designation-Carried master in
      (
        reply,
        λ k.
            ap (λ t. designations t k) state
            ∙ written_designation (designation_row now body) db (designation_taken master) k,
      )

abbrev pub prefs : Db → Register PrefsRow
prefs db k = find_prefs k db

abbrev pub valid_prefs : Crypto → String → SignedPrefsBlob → Bool
valid_prefs crypto master blob = blob.master_pubkey == master && verify_prefs_blob crypto blob

module _ (crypto : Crypto) (now : ℕ) (blob : SignedPrefsBlob) (db : Db) where
  abbrev prefs_taken : String → Bool
  prefs_taken master =
      is_taken (λ r. r.master_pubkey) (λ r. r.blob_version) (valid_prefs crypto master blob)
        (prefs_row now blob) (prefs db)

  -- whether a put succeeds, and what it writes
  abbrev CarriedPrefs : String → Type 0
  CarriedPrefs master =
      (succeeded (put_prefs crypto now master blob db).0 ≡ prefs_taken master)
      × ((put_prefs crypto now master blob db).1
          ≡ (if prefs_taken master then write_prefs (prefs_row now blob) db else db))
