-- ===== src/Pairing/Status.antt =====
-- What a status request is answered with, over sound pairings.
use voxply_server.Common.{
  ◌≡◌, refl, true, some, String, arith, ◌==◌, eq_iff, ap, ◌⊎◌, Option-cases, inl, inr, Bool-cases,
  subst, ℕ,
}
use voxply_server.Common.Int.{pos, ltb_ℤ}
use voxply_server.Exec.{ok, err, not_found}
use voxply_server.Crypto.{Crypto}
use voxply_server.Db.{Db, PairingRow}
use voxply_server.Pairing.{
  PairingClaim, verify_claim, verify_cert, find_offer, status_of, PairingStatus, is_pending,
  is_claimed, get_status, is_complete, is_expired,
}
use voxply_server.Sql.Laws.{fetch_optional-test, fetch_optional_All}
use voxply_server.Pairing.Invariant.{Sound, at_pending, at_claimed, at_complete, IsPaired}

module _ (crypto : Crypto) where
  -- what stands behind the status that a token is answered with
  abbrev pub Proven : String → PairingStatus → Type 0
  Proven token (is_claimed key label) =
      (c : PairingClaim) × (c.pairing_token ≡ token)
      × (c.subkey_pubkey ≡ key)
      × (c.device_label ≡ label)
      × (verify_claim crypto c ≡ true)
  Proven token (is_complete cert key) =
      (c : PairingClaim) × (c.pairing_token ≡ token)
      × (cert.subkey_pubkey ≡ c.subkey_pubkey)
      × (verify_claim crypto c ≡ true)
      × (verify_cert crypto cert ≡ true)
  Proven token other = Unit {0}

  status_of-Proven :
      (row : PairingRow)
      → Sound crypto row
      → (status : PairingStatus) × (status_of row ≡ some (ok status))
        × Proven row.pairing_token status
  unfolding status_of
  status_of-Proven row (at_pending e n) =
      (is_pending, ground (arith, ap (λ x. x == "pending") e), tt)
  status_of-Proven row (at_claimed d e x k l w n) = (
    is_claimed d.subkey_pubkey d.device_label,
    ground (arith, ap (λ x. x == "pending") e, ap (λ x. x == "claimed") e),
    (d, x, refl, refl, w),
  )
  status_of-Proven row (at_complete d z y e x k l w n a b f g) = (
    is_complete z y,
    ground (
      arith,
      ap (λ x. x == "pending") e,
      ap (λ x. x == "claimed") e,
      ap (λ x. x == "complete") e,
    ),
    (d, x, f, w, g),
  )

  -- Where the stored pairings are sound, a status request is answered with 404 or with a status,
  -- never with 500 or a panic; a device that is shown as claimed has signed a claim with this token,
  -- and a certificate that is handed out is valid and for a device that has.
  pub get_status-Proven :
      (now : ℕ) (token : String) (db : Db)
      → IsPaired crypto db
      → (get_status now token db ≡ some (err not_found "Unknown token"))
        ⊎ ((status : PairingStatus) × (get_status now token db ≡ some (ok status))
            × Proven token status)
  unfolding get_status find_offer
  get_status-Proven now token db h = elim (Option-cases (find_offer token db)) [
    | inl e ↦ inl (ground arith)
    | inr (row, e) ↦
        let same =
          (eq_iff row.pairing_token token).0
            (fetch_optional-test (λ r. r.pairing_token == token) db.pairing_offers e) in
        let (status, answer, behind) = status_of-Proven row (
          fetch_optional_All (λ r. Sound crypto r) (λ r. r.pairing_token == token) db.pairing_offers
            h.sound e) in
        elim (Bool-cases (ltb_ℤ row.expires_at (pos now))) [
          | inl late ↦ inr (is_expired, ground arith, tt)
          | inr early ↦ inr (status, ground arith, subst (λ t. Proven t status) same behind)
        ]
  ]
