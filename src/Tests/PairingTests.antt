-- ===== src/Tests/PairingTests.antt =====
-- A device is paired: the offer, the claim and the completion, one after the other.
use voxply_server.Common.{
  ◌≡◌, refl, true, some, none, ◌⊎◌, List, [], ◌∷◌, ◌++◌, String, ◌==◌, if◌then◌else◌, ℕ,
}
use voxply_server.Common.Text.{codes}
use voxply_server.Exec.{ok, err, not_found, ◌>>=◌}
use voxply_server.Sql.{exists_where, fetch_optional, delete_where, update_where}
use voxply_server.Db.{Db, SubkeyCert}
use voxply_server.Crypto.{Crypto, check_sig, verify_signature}
use voxply_server.Pairing.{
  PairingOffer, PairingClaim, PairingComplete, PairingStatus, is_complete, PairingOp, offer, claim,
  complete, pairing_op, pairing_ops, post_offer, post_claim, post_complete, get_status,
  verify_offer, verify_claim, verify_cert, prune_expired, pruned, find_offer, insert_offer,
  offer_row, advance, claimed_row, is_key,
}
use voxply_server.Pairing.Invariant.{IsPaired, pairing_ops-IsPaired}
use voxply_server.Pairing.Status.{Proven, get_status-Proven}
use voxply_server.Pairing.Progress.{is_stored, post_complete-get_status}
use voxply_server.Tests.Sample.{hub}

abbrev bytes_8 : List ℕ
bytes_8 = 1 ∷ 2 ∷ 3 ∷ 4 ∷ 5 ∷ 6 ∷ 7 ∷ 8 ∷ []

abbrev pub bytes_32 : List ℕ
bytes_32 = bytes_8 ++ (bytes_8 ++ (bytes_8 ++ bytes_8))

-- keys decode to 32 bytes and signatures to 64, and every signature is accepted
abbrev pub crypto : Crypto
crypto = record {
  utf8 = codes;
  hex_encode = λ bytes. "00";
  hex_decode = λ s. if s == "signature" then some (bytes_32 ++ bytes_32) else some bytes_32;
  ed25519_verify = λ key message signature. true;
  sha256 = λ bytes. 0 ∷ 31 ∷ [];
}

abbrev token : String
token = "0123456789abcdef0123456789abcdef"

abbrev an_offer : PairingOffer
an_offer = record {
  master_pubkey = "master";
  home_hubs = "hub.example" ∷ [];
  pairing_token = token;
  issued_at = 100;
  expires_at = 400;
  signature = "signature";
}

abbrev a_claim : PairingClaim
a_claim = record {
  pairing_token = token;
  subkey_pubkey = "phone";
  device_label = "my phone";
  proof = "signature";
}

abbrev a_cert : SubkeyCert
a_cert = record {
  master_pubkey = "master";
  subkey_pubkey = "phone";
  device_label = "my phone";
  issued_at = 120;
  not_after = none;
  fallback_hubs = [];
  signature = "signature";
}

abbrev a_completion : PairingComplete
a_completion = record { pairing_token = token; cert = a_cert; wrapped_blob_key_hex = "cafe" }

abbrev steps : List PairingOp
steps = offer 110 an_offer ∷ claim 120 a_claim ∷ complete 130 a_completion ∷ []

hub-IsPaired : IsPaired crypto hub
hub-IsPaired = record { distinct = tt; sound = tt }

pairing_ops-IsPaired_example : IsPaired crypto (pairing_ops crypto steps hub)
pairing_ops-IsPaired_example = pairing_ops-IsPaired crypto steps hub hub-IsPaired

get_status-Proven_example :
    (get_status 140 token (pairing_ops crypto steps hub) ≡ some (err not_found "Unknown token"))
    ⊎ ((status : PairingStatus) × (get_status 140 token (pairing_ops crypto steps hub)
          ≡ some (ok status))
        × Proven crypto token status)
get_status-Proven_example =
    get_status-Proven crypto 140 token (pairing_ops crypto steps hub)
      (pairing_ops-IsPaired crypto steps hub hub-IsPaired)

abbrev offered : Db
offered = pairing_ops crypto (offer 110 an_offer ∷ []) hub

abbrev claimed : Db
claimed = pairing_ops crypto (offer 110 an_offer ∷ claim 120 a_claim ∷ []) hub

claim_accepted : (post_claim crypto 120 a_claim offered).0 ≡ ok tt
unfolding pairing_ops pairing_op post_offer post_claim verify_offer verify_claim check_sig
    verify_signature codes prune_expired pruned find_offer insert_offer offer_row advance
    claimed_row exists_where fetch_optional delete_where update_where ◌>>=◌
claim_accepted = refl

completion_accepted : (post_complete crypto 130 a_completion claimed).0 ≡ ok tt
unfolding pairing_ops pairing_op post_offer post_claim post_complete verify_offer verify_claim
    verify_cert check_sig verify_signature codes prune_expired pruned find_offer insert_offer
    offer_row advance claimed_row is_key exists_where fetch_optional delete_where update_where ◌>>=◌
completion_accepted = refl

post_complete-get_status_example :
    (get_status 130 token (post_complete crypto 130 a_completion claimed).1
      ≡ some (ok (is_complete a_cert "cafe")))
    × (exists_where
          (is_stored a_cert)
          (post_complete crypto 130 a_completion claimed).1.subkey_certs
        ≡ true)
post_complete-get_status_example =
    post_complete-get_status crypto 130 a_completion claimed completion_accepted
