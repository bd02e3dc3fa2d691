-- ===== src/Db.antt =====
-- The hub's database, after hub/src/db/migrations.rs: one list of rows for each table that the
-- modelled handlers touch, with the columns that they read or write. `INTEGER` columns that hold
-- times and priorities are signed, flags are `Bool`, a nullable column
-- is an `Option`, and a column of JSON text holds the value that the text encodes.
mod Accounts
pub use Accounts.*
use voxply_server.Common.{ℕ, Bool, Option, List, String}
use voxply_server.Common.Int.{ℤ}

pub record User : Type 0 where
  pub public_key : String
  pub display_name : Option String
  pub first_seen_at : ℤ
  pub last_seen_at : ℤ
  pub approval_status : String
  pub master_pubkey : Option String
  pub pow_level : ℕ
  pub is_bot : Bool
  pub lobby_status : String
  pub lobby_entered_at : Option ℤ

pub record Session : Type 0 where
  pub token : String
  pub public_key : String
  pub created_at : ℤ

pub record RoleRow : Type 0 where
  pub id : String
  pub name : String
  pub priority : ℤ
  pub display_separately : Bool
  pub created_at : ℤ

pub record RolePermission : Type 0 where
  pub role_id : String
  pub permission : String

pub record UserRole : Type 0 where
  pub user_public_key : String
  pub role_id : String
  pub assigned_at : ℤ

pub record BanRow : Type 0 where
  pub target_public_key : String
  pub banned_by : String
  pub reason : Option String
  pub created_at : ℤ

pub record MuteRow : Type 0 where
  pub target_public_key : String
  pub muted_by : String
  pub reason : Option String
  pub expires_at : Option ℤ
  pub created_at : ℤ

pub record ChannelBanRow : Type 0 where
  pub channel_id : String
  pub target_public_key : String
  pub banned_by : String
  pub reason : Option String
  pub created_at : ℤ

pub record VoiceMuteRow : Type 0 where
  pub target_public_key : String
  pub muted_by : String
  pub reason : Option String
  pub created_at : ℤ

pub record ChannelVoiceMuteRow : Type 0 where
  pub channel_id : String
  pub pubkey : String
  pub muted_by : String
  pub muted_at : ℤ

pub record RaiseHandRow : Type 0 where
  pub id : String
  pub channel_id : String
  pub pubkey : String
  pub requested_at : ℤ

pub record ChannelSetting : Type 0 where
  pub channel_id : String
  pub min_talk_power : ℤ

pub record ChannelRow : Type 0 where
  pub id : String
  pub name : String
  pub created_by : String
  pub parent_id : Option String
  pub is_category : Bool
  pub display_order : ℤ
  pub description : Option String
  pub icon : Option String
  pub color : Option String
  pub custom_icon_svg : Option String
  pub created_at : ℤ
  pub channel_type : String
  pub min_talk_power : ℤ

-- the columns of `messages`, `webhooks` and `alliance_shared_channels` that tie a row to a channel
pub record MessageRow : Type 0 where
  pub id : String
  pub channel_id : String

pub record WebhookRow : Type 0 where
  pub id : String
  pub channel_id : String

pub record SharedChannel : Type 0 where
  pub alliance_id : String
  pub channel_id : String

pub record InviteRow : Type 0 where
  pub code : String
  pub created_by : String
  pub max_uses : Option ℤ
  pub uses : ℤ
  pub expires_at : Option ℤ
  pub created_at : ℤ

pub record Setting : Type 0 where
  pub key : String
  pub value : String

pub record FriendRow : Type 0 where
  pub user_a : String
  pub user_b : String
  pub status : String
  pub created_at : ℤ
  pub hub_url : Option String
  pub display_name : Option String

pub record OutboxRow : Type 0 where
  pub message_id : String
  pub recipient_hub_url : String
  pub attempts : ℕ
  pub next_attempt_at : ℤ
  pub last_error : Option String
  pub bounced_at : Option ℤ

pub record DmMessage : Type 0 where
  pub id : String
  pub conversation_id : String
  pub sender : String
  pub content : Option String
  pub attachments : Option String
  pub signature : Option String
  pub created_at : ℤ
  pub is_encrypted : Bool
  pub ciphertext_json : Option String

pub record Conversation : Type 0 where
  pub id : String
  pub conv_type : String

pub record ConversationMember : Type 0 where
  pub conversation_id : String
  pub public_key : String

-- `SubkeyCert` of identity/src/wire.rs; `cert_json` keeps one whole
pub record SubkeyCert : Type 0 where
  pub master_pubkey : String
  pub subkey_pubkey : String
  pub device_label : String
  pub issued_at : ℕ
  pub not_after : Option ℕ
  pub fallback_hubs : List String
  pub signature : String

pub record CertRow : Type 0 where
  pub master_pubkey : String
  pub subkey_pubkey : String
  pub device_label : String
  pub issued_at : ℤ
  pub not_after : Option ℤ
  pub fallback_hubs : List String
  pub signature : String
  pub registered_at : ℤ

pub record PairingRow : Type 0 where
  pub pairing_token : String
  pub master_pubkey : String
  pub home_hubs : List String
  pub issued_at : ℤ
  pub expires_at : ℤ
  pub offer_signature : String
  pub state : String
  pub subkey_pubkey : Option String
  pub device_label : Option String
  pub claim_proof : Option String
  pub cert : Option SubkeyCert
  pub wrapped_key_hex : Option String
  pub created_at : ℤ
  pub updated_at : ℤ

pub record Db : Type 0 where
  pub users : List User
  pub sessions : List Session
  pub roles : List RoleRow
  pub role_permissions : List RolePermission
  pub user_roles : List UserRole
  pub bans : List BanRow
  pub mutes : List MuteRow
  pub channel_bans : List ChannelBanRow
  pub voice_mutes : List VoiceMuteRow
  pub channel_voice_mutes : List ChannelVoiceMuteRow
  pub raise_hand_requests : List RaiseHandRow
  pub channel_settings : List ChannelSetting
  pub channels : List ChannelRow
  pub messages : List MessageRow
  pub webhooks : List WebhookRow
  pub alliance_shared_channels : List SharedChannel
  pub invites : List InviteRow
  pub hub_settings : List Setting
  pub friends : List FriendRow
  pub dm_outbox : List OutboxRow
  pub subkey_certs : List CertRow
  pub pairing_offers : List PairingRow
  pub dm_messages : List DmMessage
  pub conversations : List Conversation
  pub conversation_members : List ConversationMember
  pub bot_challenges : List BotChallenge
  pub challenge_tokens : List ChallengeToken
  pub bot_tokens : List BotToken
  pub bot_profiles : List BotProfile
  pub bot_commands : List BotCommand
  pub home_hub_designations : List DesignationRow
  pub subkey_revocations : List RevocationRow
  pub prefs_blobs : List PrefsRow
  pub dm_blocks : List DmBlock
  pub recovery_settings : List RecoverySetting
  pub recovery_contacts : List RecoveryContact
  pub key_rotation_requests : List RotationRequest
  pub rotation_attestations : List Attestation
