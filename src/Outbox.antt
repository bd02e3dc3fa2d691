-- ===== src/Outbox.antt =====
-- hub/src/dm_worker.rs: one pass of the worker over the direct messages that could not be delivered.
-- The delivery to another hub (`deliver_federated_dm_public`, a HTTP request) is a parameter that
-- gives an error or nothing, as are serde_json's readings of the two columns of JSON text. The loop
-- around the pass (`spawn`) and the log lines are left out. An error of the pass is one of the
-- database: a conversation that is missing.
pub mod Attempts
pub mod Due
use voxply_server.Common.{
  ℕ, zero, suc, ◌+◌, Bool, true, false, not, ◌&&◌, Option, none, some, List, [], ◌∷◌, map, String,
  ◌==◌, is_none, leb,
}
use voxply_server.Common.Int.{ℤ, pos, add_i64, ltb_ℤ}
use voxply_server.Common.Text.{is_empty}
use voxply_server.Exec.{
  Exec, pure, gets, ok_or, modify, for_each, internal_server_error, ◌>>=◌, ◌>>◌,
}
use voxply_server.Sql.{fetch_optional, fetch_all, delete_where, update_where}
use voxply_server.Db.{Db, OutboxRow, DmMessage}

-- `BACKOFF_SECS[attempts]`, or nothing past its end
unfoldable pub backoff_secs : ℕ → Option ℕ
backoff_secs zero = some 10
backoff_secs (suc zero) = some 60
backoff_secs (suc (suc zero)) = some 300
backoff_secs (suc (suc (suc zero))) = some 1800
backoff_secs (suc (suc (suc (suc zero)))) = some 3600
backoff_secs (suc (suc (suc (suc (suc zero))))) = some 21600
backoff_secs (suc (suc (suc (suc (suc (suc zero)))))) = some 86400
backoff_secs (suc (suc (suc (suc (suc (suc (suc attempts))))))) = none

-- `bounced_at IS NULL AND next_attempt_at <= ?`
unfoldable pub is_due : ℤ → OutboxRow → Bool
is_due now r = is_none r.bounced_at && not (ltb_ℤ now r.next_attempt_at)

-- `LIMIT`
unfoldable pub take : {A : Type 0} → ℕ → List A → List A
take zero xs = []
take (suc n) [] = []
take (suc n) (x ∷ xs) = x ∷ take n xs

abbrev pub same_row : OutboxRow → OutboxRow → Bool
same_row row r = r.message_id == row.message_id && r.recipient_hub_url == row.recipient_hub_url

unfoldable pub drop_row : OutboxRow → Exec Db (Unit {0})
drop_row row = modify (λ db. record db { dm_outbox = delete_where (same_row row) db.dm_outbox })

-- what a failed attempt makes of the row: another one later, or a bounce
unfoldable pub failed_row : ℤ → OutboxRow → String → OutboxRow → OutboxRow
failed_row now row error r = elim (backoff_secs row.attempts) [
  | none ↦ record r { attempts = row.attempts + 1; last_error = some error; bounced_at = some now }
  | some secs ↦ record r {
    attempts = row.attempts + 1;
    next_attempt_at = add_i64 now (pos secs);
    last_error = some error;
  }
]

unfoldable pub record_failure : ℤ → OutboxRow → String → Exec Db (Unit {0})
record_failure now row error = modify (λ db. record db {
  dm_outbox = update_where (same_row row) (failed_row now row error) db.dm_outbox;
})

module _ (Attachment Envelope : Type 0) where
  pub record FederatedDmRequest : Type 0 where
    pub message_id : String
    pub conversation_id : String
    pub conv_type : String
    pub sender : String
    pub members : List String
    pub content : Option String
    pub attachments : List Attachment
    pub signature : Option String
    pub created_at : ℤ
    pub encrypted_envelope : Option Envelope

  pub record Outside : Type 0 where
    pub parse_attachments : String → Option (List Attachment)
    pub parse_envelope : String → Option Envelope
    pub deliver : String → FederatedDmRequest → Option String

module _ {Attachment Envelope : Type 0} (outside : Outside Attachment Envelope) where
  -- `.filter(|s| !s.is_empty()).and_then(parse).unwrap_or_default()`
  unfoldable pub read_attachments : Option String → List Attachment
  read_attachments none = []
  read_attachments (some s) = elim (is_empty s) [
    | true ↦ []
    | false ↦ elim (outside.parse_attachments s) [ none ↦ [] | some attachments ↦ attachments ]
  ]

  unfoldable pub read_envelope : Bool → Option String → Option Envelope
  read_envelope true (some s) = outside.parse_envelope s
  read_envelope is_encrypted ciphertext_json = none

  unfoldable pub load_found : DmMessage → Exec Db (Option (FederatedDmRequest Attachment Envelope))
  load_found msg = do
    row ← gets (λ db. fetch_optional (λ c. c.id == msg.conversation_id) db.conversations)
    conversation ← ok_or internal_server_error "no rows returned" row
    members ← gets (λ db.
        map (λ m. m.public_key)
          (fetch_all (λ m. m.conversation_id == msg.conversation_id) db.conversation_members))
    pure (
        some (record {
          message_id = msg.id;
          conversation_id = msg.conversation_id;
          conv_type = conversation.conv_type;
          sender = msg.sender;
          members = members;
          content = msg.content;
          attachments = read_attachments msg.attachments;
          signature = msg.signature;
          created_at = msg.created_at;
          encrypted_envelope = read_envelope msg.is_encrypted msg.ciphertext_json;
        }))

  abbrev pub load_if : Option DmMessage → Exec Db (Option (FederatedDmRequest Attachment Envelope))
  load_if none = pure none
  load_if (some msg) = load_found msg

  unfoldable pub load_envelope : String → Exec Db (Option (FederatedDmRequest Attachment Envelope))
  load_envelope message_id = do
    found ← gets (λ db. fetch_optional (λ m. m.id == message_id) db.dm_messages)
    load_if found

  -- the match on the result of the delivery
  abbrev pub settle : ℤ → OutboxRow → Option String → Exec Db (Unit {0})
  settle now row none = drop_row row
  settle now row (some error) = record_failure now row error

  abbrev pub attempt_loaded :
      ℤ → OutboxRow → Option (FederatedDmRequest Attachment Envelope) → Exec Db (Unit {0})
  attempt_loaded now row none = drop_row row
  attempt_loaded now row (some envelope) =
      settle now row (outside.deliver row.recipient_hub_url envelope)

  -- the body of the loop
  unfoldable pub attempt : ℤ → OutboxRow → Exec Db (Unit {0})
  attempt now row = do envelope ← load_envelope row.message_id; attempt_loaded now row envelope

  unfoldable pub tick : ℤ → Exec Db (Unit {0})
  tick now = do
    due ← gets (λ db. take 100 (fetch_all (is_due now) db.dm_outbox))
    for_each (attempt now) due
