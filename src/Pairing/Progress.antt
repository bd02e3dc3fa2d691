-- ===== src/Pairing/Progress.antt =====
-- What a claim and a completion that succeed bring about.
use voxply_server.Common.{
  ◌≡◌, refl, true, some, List, [], ◌∷◌, ◌&&◌, String, arith, ◌==◌, inl, inr, Option-cases, ℕ, Bool,
  Bool-cases, eq_refl,
}
use voxply_server.Exec.{ok, ◌>>=◌}
use voxply_server.Sql.Laws.{exists-insert}
use voxply_server.Sql.{exists_where, fetch_optional, update_where}
use voxply_server.Crypto.{Crypto}
use voxply_server.Db.{Db, PairingRow, SubkeyCert, CertRow}
use voxply_server.Pairing.{
  PairingClaim, is_claimed, find_offer, pruned, prune_expired, post_claim, advance, claimed_row,
  get_status, status_of, post_complete, upsert_cert, cert_row, complete_row, PairingComplete,
  is_complete, is_cert_of,
}

-- the update is seen at the row that the look-up of its token found
fetch-advance :
    (token from : String) (f : PairingRow → PairingRow)
    → ((r : PairingRow) → (f r).pairing_token ≡ r.pairing_token)
    → (rs : List PairingRow) (row : PairingRow)
    → fetch_optional (λ r. r.pairing_token == token) rs ≡ some row
    → (row.state == from) ≡ true
    → fetch_optional
        (λ r. r.pairing_token == token)
        (update_where (λ r. r.pairing_token == token && r.state == from) f rs)
      ≡ some (f row)
unfolding fetch_optional update_where
fetch-advance token from f same [] row e s = absurd (ground arith)
fetch-advance token from f same (r ∷ rs) row e s =
    ground (arith, same r, fetch-advance token from f same rs row)

-- After a claim that succeeds, the status at that time is `claimed`, with the key and the label of
-- the claim.
post_claim-get_status :
    (crypto : Crypto) (now : ℕ) (c : PairingClaim) (db : Db)
    → (post_claim crypto now c db).0 ≡ ok tt
    → get_status now c.pairing_token (post_claim crypto now c db).1
      ≡ some (ok (is_claimed c.subkey_pubkey c.device_label))
unfolding post_claim prune_expired find_offer get_status advance status_of claimed_row ◌>>=◌
post_claim-get_status crypto now c db h =
    elim (Option-cases (find_offer c.pairing_token (pruned now db))) [
      | inl e ↦ absurd (ground arith)
      | inr (row, e) ↦ ground (
        arith,
        fetch-advance c.pairing_token "pending" (claimed_row now c) (λ r. refl)
            (pruned now db).pairing_offers row e,
      )
    ]

abbrev pub is_stored : SubkeyCert → CertRow → Bool
is_stored c r = is_cert_of c r && r.signature == c.signature

updated :
    (now : ℕ) (c : SubkeyCert) (rs : List CertRow)
    → exists_where (is_cert_of c) rs ≡ true
    → exists_where (is_stored c) (
        update_where
          (is_cert_of c)
          (λ r. record (cert_row now c) { registered_at = r.registered_at })
          rs)
      ≡ true
unfolding exists_where update_where cert_row
updated now c [] e = e
updated now c (r ∷ rs) e =
    ground (
      arith,
      updated now c rs,
      eq_refl c.master_pubkey,
      eq_refl c.subkey_pubkey,
      eq_refl c.signature,
    )

-- the certificate is stored, whether its device had one before or not
upserted :
    (now : ℕ) (c : SubkeyCert) (db : Db)
    → exists_where (is_stored c) (upsert_cert now c db).subkey_certs ≡ true
unfolding upsert_cert cert_row
upserted now c db = elim (Bool-cases (exists_where (is_cert_of c) db.subkey_certs)) [
  | inl e ↦ rw e (updated now c db.subkey_certs e)
  | inr e ↦ rw e (
      ground (
        arith,
        exists-insert (is_stored c) (cert_row now c) db.subkey_certs,
        eq_refl c.master_pubkey,
        eq_refl c.subkey_pubkey,
        eq_refl c.signature,
      ))
]

-- After a completion that succeeds, the status at that time is `complete`, with the certificate and
-- the wrapped key of the request, and the hub has the certificate among its own.
pub post_complete-get_status :
    (crypto : Crypto) (now : ℕ) (c : PairingComplete) (db : Db)
    → (post_complete crypto now c db).0 ≡ ok tt
    → (get_status now c.pairing_token (post_complete crypto now c db).1
        ≡ some (ok (is_complete c.cert c.wrapped_blob_key_hex)))
      × (exists_where (is_stored c.cert) (post_complete crypto now c db).1.subkey_certs ≡ true)
unfolding post_complete prune_expired find_offer get_status advance status_of complete_row
    upsert_cert ◌>>=◌
post_complete-get_status crypto now c db h =
    elim (Option-cases (find_offer c.pairing_token (pruned now db))) [
      | inl e ↦ absurd (ground arith)
      | inr (row, e) ↦ (
        ground (
          arith,
          fetch-advance c.pairing_token "claimed" (complete_row now c) (λ r. refl)
              (pruned now db).pairing_offers row e,
        ),
        ground (arith, upserted now c.cert (pruned now db)),
      )
    ]
