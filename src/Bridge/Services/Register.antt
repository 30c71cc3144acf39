-- ===== src/Bridge/Services/Register.antt =====
-- services.ts: the registration of a device. `registerDevice`, `consumeBootstrapToken`,
-- `issueRefreshToken` and what they call.
pub mod Bootstrap
pub mod Keeps
use erg.Prelude.{
  ℕ, ◌+◌, Option, none, some, List, [], ◌∷◌, Text, codes, leb, ltb, if◌then◌else◌, is_some, or_else,
  trim,
}
use erg.Bridge.State.{
  ClientType, mobile, even_hub, PairingSessionRecord, BootstrapTokenRecord, DeviceStatus,
  DeviceRecord, FamilyStatus, RefreshTokenFamilyRecord, RefreshTokenRecord,
}
use erg.Bridge.Store.{
  get_pairing_session_by_id, get_bootstrap_token_by_hash, update_bootstrap_token, create_device,
  create_refresh_family, create_refresh_token,
}
use erg.Bridge.Ids.{Bytes, create_id, create_opaque_token}
use erg.Bridge.AccessTokens.{issue}
use erg.Bridge.Services.{
  bootstrap_invalid, bootstrap_used, bootstrap_expired, bootstrap_session_not_found, M, ◌>>=◌, ◌>>◌,
  return, throw_if, modify, gets, or_throw, with_transaction, BridgeConfig, Env, hash,
}
use erg.Bridge.Services.Pairing.{trimmed_or}

abbrev pub access_token_scope : List Text
access_token_scope = codes "device:self" ∷ codes "relay:connect" ∷ codes "turn:send" ∷ []

unfoldable pub normalize_client_type : Option ClientType → ClientType
normalize_client_type none = mobile
normalize_client_type (some mobile) = mobile
normalize_client_type (some even_hub) = even_hub

pub record RefreshPolicy : Type 0 where
  pub sliding_ttl_ms : ℕ
  pub absolute_ttl_ms : ℕ

unfoldable pub select_refresh_policy : ClientType → BridgeConfig → RefreshPolicy
select_refresh_policy even_hub config = record {
  sliding_ttl_ms = config.even_hub_refresh_token_sliding_ttl_ms;
  absolute_ttl_ms = config.even_hub_refresh_token_absolute_ttl_ms;
}
select_refresh_policy mobile config = record {
  sliding_ttl_ms = config.refresh_token_sliding_ttl_ms;
  absolute_ttl_ms = config.refresh_token_absolute_ttl_ms;
}

-- The earlier of the sliding and the absolute expiry.
unfoldable pub refresh_expiry : BridgeConfig → ClientType → ℕ → ℕ → ℕ
unfolding select_refresh_policy
refresh_expiry config client_type family_created_at now =
    let policy = select_refresh_policy client_type config in
    let absolute = family_created_at + policy.absolute_ttl_ms in
    let sliding = now + policy.sliding_ttl_ms in if ltb sliding absolute then sliding else absolute

abbrev parent_id : Option RefreshTokenRecord → Option Text
parent_id none = none
parent_id (some r) = some r.refresh_token_id

-- `issueRefreshToken`: the record, of the raw token and the id that were drawn.
unfoldable pub issue_refresh_token :
    Env
    → DeviceRecord
    → RefreshTokenFamilyRecord
    → Option RefreshTokenRecord
    → ℕ
    → Text
    → Text
    → RefreshTokenRecord
unfolding hash refresh_expiry
issue_refresh_token env device family parent now raw_token id = record {
  refresh_token_id = id;
  refresh_family_id = family.refresh_family_id;
  token_hash = hash env raw_token;
  parent_refresh_token_id = parent_id parent;
  issued_at = now;
  expires_at = refresh_expiry env.config device.client_type family.created_at now;
  used_at = none;
  replaced_by_refresh_token_id = none;
  revoked_at = none;
}

unfoldable pub consume_bootstrap_token : Env → ℕ → Text → M BootstrapTokenRecord
unfolding hash get_bootstrap_token_by_hash update_bootstrap_token
consume_bootstrap_token env now raw_token = do
  found ← gets (λ s. get_bootstrap_token_by_hash s (hash env raw_token))
  token ← or_throw found bootstrap_invalid
  throw_if (is_some token.used_at) bootstrap_used
  throw_if (leb token.expires_at now) bootstrap_expired
  modify (update_bootstrap_token (record token { used_at = some now }))
  return (record token { used_at = some now })

pub record RegisterInput : Type 0 where
  pub bootstrap_token : Text
  pub device_display_name : Option Text
  pub platform : Option Text
  pub app_version : Option Text
  pub client_type : Option ClientType
  pub remote_ip : Option Text

-- The random draws of `registerDevice`: a device id, a family id, a token with its id, and the id
-- of the access token.
pub record RegisterDraws : Type 0 where
  pub device : Bytes
  pub family : Bytes
  pub token : Bytes
  pub token_id : Bytes
  pub access : Bytes

pub record RegisterDeviceResponse : Type 0 where
  pub device_id : Text
  pub access_token : Text
  pub access_expires_at : ℕ
  pub refresh_token : Text
  pub refresh_expires_at : ℕ
  pub refresh_family_id : Text
  pub default_conversation_id : Text
  pub client_type : ClientType

abbrev hint_or : Option Text → Text → Text
hint_or none d = d
hint_or (some t) d = or_else t d

abbrev trim_some : Option Text → Option Text
trim_some none = none
trim_some (some t) = some (trim t)

-- The device that is registered for a pairing session.
unfoldable pub new_device : ℕ → RegisterInput → PairingSessionRecord → Text → Text → DeviceRecord
unfolding trim normalize_client_type
new_device now input session device_id family_id = record {
  device_id = device_id;
  device_display_name =
      trimmed_or input.device_display_name
        (hint_or session.device_display_name_hint (codes "Even Hub device"));
  platform = trimmed_or input.platform session.platform;
  client_type = normalize_client_type input.client_type;
  status = DeviceStatus.active;
  created_at = now;
  last_seen_at = some now;
  last_ip = input.remote_ip;
  last_app_version = trim_some input.app_version;
  current_refresh_family_id = family_id;
  revoked_at = none;
  revoke_reason = none;
}

unfoldable pub new_family : ℕ → DeviceRecord → RefreshTokenFamilyRecord
new_family now device = record {
  refresh_family_id = device.current_refresh_family_id;
  device_id = device.device_id;
  client_type = device.client_type;
  status = FamilyStatus.active;
  created_at = now;
  compromised_at = none;
  revoke_reason = none;
}

-- The part that follows the use of the bootstrap token.
unfoldable pub register_for :
    Env → ℕ → RegisterDraws → RegisterInput → BootstrapTokenRecord → M RegisterDeviceResponse
unfolding get_pairing_session_by_id create_id new_device new_family create_opaque_token
    issue_refresh_token issue create_device create_refresh_family create_refresh_token
register_for env now draws input bootstrap = do
  found ← gets (λ s. get_pairing_session_by_id s bootstrap.pairing_session_id)
  session ← or_throw found bootstrap_session_not_found
  let device =
      new_device now input session (create_id (codes "dev") draws.device)
        (create_id (codes "rtf") draws.family)
  let family = new_family now device
  let raw_token = create_opaque_token (codes "rt") draws.token
  let token =
      issue_refresh_token env device family none now raw_token
        (create_id (codes "rtr") draws.token_id)
  let access =
      issue env.jwt now draws.access device.device_id access_token_scope
        env.config.access_token_ttl_ms
  modify (create_device device)
  modify (create_refresh_family family)
  modify (create_refresh_token token)
  return (record {
    device_id = device.device_id;
    access_token = access.token;
    access_expires_at = access.expires_at;
    refresh_token = raw_token;
    refresh_expires_at = token.expires_at;
    refresh_family_id = family.refresh_family_id;
    default_conversation_id = codes "default";
    client_type = device.client_type;
  })

-- The callback of the transaction.
unfoldable pub register : Env → ℕ → RegisterDraws → RegisterInput → M RegisterDeviceResponse
register env now draws input = do
  bootstrap ← consume_bootstrap_token env now input.bootstrap_token
  register_for env now draws input bootstrap

unfoldable pub register_device : Env → ℕ → RegisterDraws → RegisterInput → M RegisterDeviceResponse
unfolding register with_transaction
register_device env now draws input =
    with_transaction env.config.bridge_store_driver (register env now draws input)
