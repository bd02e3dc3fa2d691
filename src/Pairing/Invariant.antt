-- ===== src/Pairing/Invariant.antt =====
-- What every stored pairing has been through.
use voxply_server.Common.{
  ◌≡◌, refl, true, false, none, some, All, String, arith, ◌==◌, eq_iff, ap, sym, List, ◌∷◌, [],
}
use voxply_server.Exec.Rules.{
  Preserves, Preserves-of_at, preserves_rules, gets_then, ok_or_then, refuse_then, modify_then,
  modify_at, when_at,
}
use voxply_server.Common.{All-concat, All-map, ℕ}
use voxply_server.Crypto.{Crypto}
use voxply_server.Db.{Db, PairingRow, SubkeyCert}
use voxply_server.Pairing.{
  PairingClaim, PairingOffer, verify_claim, verify_cert, prune_expired, pruned, insert_offer,
  offer_row, post_offer, post_claim, advance, claimed_row, find_offer, complete_row, upsert_cert,
  post_complete, pairing_ops, pairing_op, is_key, PairingComplete, PairingOp, offer, claim,
  complete,
}
use voxply_server.Sql.{exists_where, insert_row}
use voxply_server.Sql.Laws.{All-delete, All-update_by, fetch_optional-test, fetch_optional_All}
use voxply_server.Sql.Keys.{Distinct, insert-Distinct, delete-Distinct, update-Distinct, fetch_only}

-- A pending offer has nothing yet; a claimed one has a claim that the new device signed; a complete
-- one has besides a certificate for that device, signed by the master key of the offer.
pub data Sound (crypto : Crypto) (r : PairingRow) : Type 0 where
  at_pending : r.state ≡ "pending" → r.cert ≡ none → Sound crypto r
  at_claimed :
      (c : PairingClaim)
      → r.state ≡ "claimed"
      → c.pairing_token ≡ r.pairing_token
      → r.subkey_pubkey ≡ some c.subkey_pubkey
      → r.device_label ≡ some c.device_label
      → verify_claim crypto c ≡ true
      → r.cert ≡ none
      → Sound crypto r
  at_complete :
      (c : PairingClaim) (cert : SubkeyCert) (key : String)
      → r.state ≡ "complete"
      → c.pairing_token ≡ r.pairing_token
      → r.subkey_pubkey ≡ some c.subkey_pubkey
      → r.device_label ≡ some c.device_label
      → verify_claim crypto c ≡ true
      → r.cert ≡ some cert
      → r.wrapped_key_hex ≡ some key
      → cert.master_pubkey ≡ r.master_pubkey
      → cert.subkey_pubkey ≡ c.subkey_pubkey
      → verify_cert crypto cert ≡ true
      → Sound crypto r

-- The tokens are distinct, as the primary key has it, and every row is sound.
pub record IsPaired (crypto : Crypto) (db : Db) : Type 0 where
  pub distinct : Distinct (λ r. r.pairing_token) db.pairing_offers
  pub sound : All (λ r. Sound crypto r) db.pairing_offers

-- a text is not equal to two literals
apart : {A : Type 0} (s a b : String) → (a == b) ≡ false → s ≡ a → (s == b) ≡ true → A
apart s a b ne e t = absurd (ground (arith, ap (λ x. x == b) e))

module _ (crypto : Crypto) where
  pruned-IsPaired : (now : ℕ) (s : Db) → IsPaired crypto s → IsPaired crypto (pruned now s)
  unfolding pruned
  pruned-IsPaired now s h = record {
    distinct = delete-Distinct (λ r. r.pairing_token) _ s.pairing_offers h.distinct;
    sound = All-delete (λ r. Sound crypto r) _ s.pairing_offers h.sound;
  }

  insert-IsPaired :
      (row : PairingRow) (s : Db)
      → Sound crypto row
      → exists_where (λ r. r.pairing_token == row.pairing_token) s.pairing_offers ≡ false
      → IsPaired crypto s
      → IsPaired crypto (record s { pairing_offers = insert_row row s.pairing_offers })
  insert-IsPaired row s new free h = record {
    distinct = insert-Distinct (λ r. r.pairing_token) row s.pairing_offers free h.distinct;
    sound = All-concat (λ r. Sound crypto r) s.pairing_offers h.sound new;
  }

  -- an update of the rows with one token in one state
  advance-IsPaired :
      (token from : String) (f : PairingRow → PairingRow) (s : Db)
      → ((r : PairingRow) → (f r).pairing_token ≡ r.pairing_token)
      → All
          (λ r. (r.pairing_token == token) ≡ true → (r.state == from) ≡ true → Sound crypto (f r))
          s.pairing_offers
      → IsPaired crypto s
      → IsPaired crypto (advance token from f s)
  unfolding advance
  advance-IsPaired token from f s same next h = record {
    distinct = update-Distinct (λ r. r.pairing_token) _ f s.pairing_offers same h.distinct;
    sound =
        All-update_by (λ r. Sound crypto r) _ f s.pairing_offers h.sound
          (All-map _ _ (λ r k e. k (ground arith) (ground arith)) s.pairing_offers next);
  }

  insert_offer-IsPaired :
      (row : PairingRow)
      → Sound crypto row
      → Preserves (λ db. IsPaired crypto db) (insert_offer row)
  unfolding insert_offer
  insert_offer-IsPaired row new = Preserves-of_at λ s.
      gets_then _ _ s (when_at _ _ s λ e. modify_at _ s (insert-IsPaired row s new (ground arith)))

  offer-IsPaired :
      (now : ℕ) (o : PairingOffer) → Preserves (λ db. IsPaired crypto db) (post_offer crypto now o)
  unfolding post_offer offer_row prune_expired
  offer-IsPaired now o =
      search (preserves_rules, pruned-IsPaired, insert_offer-IsPaired, at_pending) depth 14

  -- an update of the row that a look-up of its token found
  advance_found :
      (token from : String) (f : PairingRow → PairingRow) (s : Db) (row : PairingRow)
      → ((r : PairingRow) → (f r).pairing_token ≡ r.pairing_token)
      → find_offer token s ≡ some row
      → ((row.pairing_token == token) ≡ true
          → (row.state == from) ≡ true
          → Sound crypto row
          → Sound crypto (f row))
      → IsPaired crypto s
      → IsPaired crypto (advance token from f s)
  unfolding find_offer
  advance_found token from f s row same found next h =
      advance-IsPaired token from f s same
        (All-map _ _ (λ r k t. k t) s.pairing_offers
          (fetch_only (λ r. r.pairing_token) token s.pairing_offers
            (λ r. (r.state == from) ≡ true → Sound crypto (f r)) h.distinct found
            (λ e.
              next (fetch_optional-test (λ r. r.pairing_token == token) s.pairing_offers found) e (
                fetch_optional_All (λ r. Sound crypto r) (λ r. r.pairing_token == token)
                  s.pairing_offers h.sound found))))
        h

  -- what a claim makes of the pending row that it finds
  claimed-Sound :
      (now : ℕ) (c : PairingClaim) (row : PairingRow)
      → verify_claim crypto c ≡ true
      → (row.pairing_token == c.pairing_token) ≡ true
      → (row.state == "pending") ≡ true
      → Sound crypto row
      → Sound crypto (claimed_row now c row)
  unfolding claimed_row
  claimed-Sound now c row v t p (at_pending e n) =
      at_claimed c refl (sym ((eq_iff row.pairing_token c.pairing_token).0 t)) refl refl v n
  claimed-Sound now c row v t p (at_claimed d e x k l w n) =
      apart row.state "claimed" "pending" refl e p
  claimed-Sound now c row v t p (at_complete d z y e x k l w n a b f g) =
      apart row.state "complete" "pending" refl e p

  claim-IsPaired :
      (now : ℕ) (c : PairingClaim) → Preserves (λ db. IsPaired crypto db) (post_claim crypto now c)
  unfolding post_claim prune_expired claimed_row
  claim-IsPaired now c = Preserves-of_at λ s. refuse_then _ _ _ _ s λ v.
      modify_then _ _ s (pruned-IsPaired now s) (
        let t = pruned now s in
        gets_then _ _ t (
          ok_or_then _ _ _ _ t λ row found. refuse_then _ _ _ _ t λ _. refuse_then _ _ _ _ t λ _.
            modify_at _ t (
              advance_found c.pairing_token "pending" (claimed_row now c) t row (λ r. refl) found
                (claimed-Sound now c row (ground arith)))))

  upsert-IsPaired :
      (now : ℕ) (cert : SubkeyCert) (s : Db)
      → IsPaired crypto s
      → IsPaired crypto (upsert_cert now cert s)
  unfolding upsert_cert
  upsert-IsPaired now cert s h = record { distinct = h.distinct; sound = h.sound }

  -- what a completion makes of the claimed row that it finds
  complete-Sound :
      (now : ℕ) (c : PairingComplete) (row : PairingRow)
      → verify_cert crypto c.cert ≡ true
      → (c.cert.master_pubkey == row.master_pubkey) ≡ true
      → is_key c.cert.subkey_pubkey row.subkey_pubkey ≡ true
      → (row.state == "claimed") ≡ true
      → Sound crypto row
      → Sound crypto (complete_row now c row)
  unfolding complete_row is_key
  complete-Sound now c row v m k p (at_pending e n) = apart row.state "pending" "claimed" refl e p
  complete-Sound now c row v m k p (at_claimed d e x y l w n) =
      at_complete d c.cert c.wrapped_blob_key_hex refl x y l w refl refl
        ((eq_iff c.cert.master_pubkey row.master_pubkey).0 m)
        (ground (arith, y, k, eq_iff c.cert.subkey_pubkey d.subkey_pubkey)) v
  complete-Sound now c row v m k p (at_complete d z y e x j l w n a b f g) =
      apart row.state "complete" "claimed" refl e p

  complete-IsPaired :
      (now : ℕ) (c : PairingComplete)
      → Preserves (λ db. IsPaired crypto db) (post_complete crypto now c)
  unfolding post_complete prune_expired complete_row upsert_cert find_offer
  complete-IsPaired now c = Preserves-of_at λ s. refuse_then _ _ _ _ s λ v.
      modify_then _ _ s (pruned-IsPaired now s) (
        let t = pruned now s in
        gets_then _ _ t (
          ok_or_then _ _ _ _ t λ row found. refuse_then _ _ _ _ t λ _. refuse_then _ _ _ _ t λ _.
            refuse_then _ _ _ _ t λ m. refuse_then _ _ _ _ t λ k. modify_at _ t λ h.
              advance_found c.pairing_token "claimed" (complete_row now c)
                (upsert_cert now c.cert t) row (λ r. refl) found
                (λ _. complete-Sound now c row (ground arith) (ground arith) (ground arith))
                (upsert-IsPaired now c.cert t h)))

  pairing_op-IsPaired :
      (op : PairingOp) (db : Db) → IsPaired crypto db → IsPaired crypto (pairing_op crypto op db)
  unfolding pairing_op
  pairing_op-IsPaired (offer now o) db h = (offer-IsPaired now o).at db h
  pairing_op-IsPaired (claim now c) db h = (claim-IsPaired now c).at db h
  pairing_op-IsPaired (complete now c) db h = (complete-IsPaired now c).at db h

  -- Whatever requests about pairings are made, by anybody and in any order, every stored pairing is
  -- sound and tokens stay distinct, if they were: a claimed pairing has a claim that the new device
  -- signed, and a complete one a certificate for that device by the master key of the offer.
  pub pairing_ops-IsPaired :
      (ops : List PairingOp) (db : Db)
      → IsPaired crypto db
      → IsPaired crypto (pairing_ops crypto ops db)
  unfolding pairing_ops
  pairing_ops-IsPaired [] db h = h
  pairing_ops-IsPaired (op ∷ ops) db h =
      pairing_ops-IsPaired ops (pairing_op crypto op db) (pairing_op-IsPaired op db h)
