-- ===== src/Bridge/State.antt =====
-- The records of bridge/src/state.ts. A `Date` is its number of milliseconds.
use erg.Prelude.{ℕ, Option, Text}

pub data ClientType : Type 0 where
  mobile even_hub : ClientType

pub data PairingStatus : Type 0 where
  pending redeemed expired locked : PairingStatus

pub record PairingSessionRecord : Type 0 where
  pub pairing_session_id : Text
  pub code_hash : Text
  pub code_last4 : Text
  pub status : PairingStatus
  pub created_at : ℕ
  pub expires_at : ℕ
  pub redeemed_at : Option ℕ
  pub failed_attempts : ℕ
  pub created_by : Text
  pub platform : Text
  pub device_display_name_hint : Option Text

pub record BootstrapTokenRecord : Type 0 where
  pub token_hash : Text
  pub pairing_session_id : Text
  pub created_at : ℕ
  pub expires_at : ℕ
  pub used_at : Option ℕ

pub data DeviceStatus : Type 0 where
  active revoked repair_required : DeviceStatus

pub record DeviceRecord : Type 0 where
  pub device_id : Text
  pub device_display_name : Text
  pub platform : Text
  pub client_type : ClientType
  pub status : DeviceStatus
  pub created_at : ℕ
  pub last_seen_at : Option ℕ
  pub last_ip : Option Text
  pub last_app_version : Option Text
  pub current_refresh_family_id : Text
  pub revoked_at : Option ℕ
  pub revoke_reason : Option Text

pub data FamilyStatus : Type 0 where
  active revoked compromised : FamilyStatus

pub record RefreshTokenFamilyRecord : Type 0 where
  pub refresh_family_id : Text
  pub device_id : Text
  pub client_type : ClientType
  pub status : FamilyStatus
  pub created_at : ℕ
  pub compromised_at : Option ℕ
  pub revoke_reason : Option Text

pub record RefreshTokenRecord : Type 0 where
  pub refresh_token_id : Text
  pub refresh_family_id : Text
  pub token_hash : Text
  pub parent_refresh_token_id : Option Text
  pub issued_at : ℕ
  pub expires_at : ℕ
  pub used_at : Option ℕ
  pub replaced_by_refresh_token_id : Option Text
  pub revoked_at : Option ℕ

pub record WebSocketTicketRecord : Type 0 where
  pub ticket_hash : Text
  pub ticket_id : Text
  pub device_id : Text
  pub conversation_id : Text
  pub access_expires_at : ℕ
  pub created_at : ℕ
  pub expires_at : ℕ
  pub used_at : Option ℕ

pub data SubjectType : Type 0 where
  device family token : SubjectType

pub record RevocationRecord : Type 0 where
  pub revocation_id : Text
  pub subject_type : SubjectType
  pub subject_id : Text
  pub reason : Text
  pub created_at : ℕ
  pub created_by : Text

pub record ConnectionEventRecord : Type 0 where
  pub connection_event_id : Text
  pub device_id : Text
  pub connection_id : Text
  pub event_type : Text
  pub occurred_at : ℕ
  pub ip : Option Text
  pub close_code : Option ℕ

pub record PromptResultRecord : Type 0 where
  pub device_id : Text
  pub prompt_id : Text
  pub conversation_id : Text
  pub request_id : Text
  pub text : Text
  pub created_at : ℕ
