-- ===== src/Db/Accounts.antt =====
-- hub/src/db/migrations.rs: the tables about keys, that is sign-in, devices and recovery.
use voxply_server.Common.{Bool, Option, List, String}
use voxply_server.Common.Int.{ℤ}

pub record ChallengeToken : Type 0 where
  pub token : String
  pub pubkey : String
  pub issued_at : ℤ
  pub expires_at : ℤ
  pub consumed_at : Option ℤ

pub record BotChallenge : Type 0 where
  pub id : String
  pub pubkey : String
  pub kind : String
  pub expected_answer : Option String
  pub created_at : ℤ
  pub expires_at : ℤ
  pub consumed_at : Option ℤ

pub record BotToken : Type 0 where
  pub token : String
  pub public_key : String
  pub created_by : String
  pub created_at : ℤ

pub record BotProfile : Type 0 where
  pub pubkey : String
  pub name : String
  pub avatar_url : Option String
  pub description : Option String
  pub webhook_url : Option String
  pub homepage_url : Option String
  pub capabilities : List String
  pub updated_at : ℤ

pub record BotCommand : Type 0 where
  pub pubkey : String
  pub name : String
  pub description : String
  pub args : Option String
  pub scope : String
  pub privileged : Bool
  pub cooldown_seconds : ℤ

pub record DesignationRow : Type 0 where
  pub master_pubkey : String
  pub hubs : List String
  pub issued_at : ℤ
  pub sequence : ℤ
  pub signature : String
  pub updated_at : ℤ

pub record RevocationRow : Type 0 where
  pub master_pubkey : String
  pub subkey_pubkey : String
  pub revoked_at : ℤ
  pub signature : String
  pub registered_at : ℤ

pub record PrefsRow : Type 0 where
  pub master_pubkey : String
  pub blob_version : ℤ
  pub ciphertext_hex : String
  pub signature : String
  pub updated_at : ℤ

pub record DmBlock : Type 0 where
  pub owner_pubkey : String
  pub blocked_pubkey : String

pub record RecoverySetting : Type 0 where
  pub owner_pubkey : String
  pub threshold : ℤ
  pub created_at : ℤ

pub record RecoveryContact : Type 0 where
  pub owner_pubkey : String
  pub contact_pubkey : String
  pub created_at : ℤ

pub record RotationRequest : Type 0 where
  pub id : String
  pub old_pubkey : String
  pub new_pubkey : String
  pub reason : Option String
  pub status : String
  pub created_at : ℤ
  pub decided_at : Option ℤ
  pub decided_by : Option String

pub record Attestation : Type 0 where
  pub id : String
  pub request_id : String
  pub attester_pubkey : String
  pub signature : String
  pub attested_at : ℤ
