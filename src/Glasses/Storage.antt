-- ===== src/Glasses/Storage.antt =====
-- glasses/src/storage.ts. The local storage of the host app holds texts, and gives the empty text for a
-- key that was never set.
pub mod Kept
use erg.Prelude.{
  ℕ, Option, none, some, List, [], ◌∷◌, ◌||◌, Text, Map, codes, get, set, get_or, is_empty, or_else,
  trim, if◌then◌else◌,
}

pub record StoredClientConfig : Type 0 where
  pub relay_base_url : Text
  pub device_display_name : Text
  pub legacy_bridge_token : Text
  pub install_id : Text
  pub prompt_draft : Text

pub record StoredDeviceRegistration : Type 0 where
  pub relay_base_url : Text
  pub device_id : Text
  pub refresh_token : Text
  pub device_display_name : Text
  pub default_conversation_id : Text

-- The keys.
pub data Key : Type 0 where
  config_relay_base_url registration_relay_base_url device_id refresh_token : Key
  config_device_display_name registration_device_display_name default_conversation_id : Key
  install_id legacy_bridge_token prompt_draft : Key

abbrev pub storage_key : Key → Text
storage_key config_relay_base_url = codes "openclaw.g2.configRelayBaseUrl"
storage_key registration_relay_base_url = codes "openclaw.g2.relayBaseUrl"
storage_key device_id = codes "openclaw.g2.deviceId"
storage_key refresh_token = codes "openclaw.g2.refreshToken"
storage_key config_device_display_name = codes "openclaw.g2.configDeviceDisplayName"
storage_key registration_device_display_name = codes "openclaw.g2.deviceDisplayName"
storage_key default_conversation_id = codes "openclaw.g2.defaultConversationId"
storage_key install_id = codes "openclaw.g2.installId"
storage_key legacy_bridge_token = codes "openclaw.g2.legacyBridgeToken"
storage_key prompt_draft = codes "openclaw.g2.promptDraft"

abbrev pub Storage : Type 0
Storage = Map Text

-- `getLocalStorage` and `setLocalStorage`
unfoldable pub get_local_storage : Storage → Key → Text
get_local_storage m key = get_or (get m (storage_key key)) []

unfoldable pub set_local_storage : Key → Text → Storage → Storage
set_local_storage key value m = set m (storage_key key) value

-- `value.trim() || d`
abbrev read : Storage → Key → Text → Text
read m key d = or_else (trim (get_local_storage m key)) d

unfoldable pub load_stored_client_config : Storage → StoredClientConfig → StoredClientConfig
unfolding trim
load_stored_client_config m defaults = record {
  relay_base_url =
      read m config_relay_base_url (read m registration_relay_base_url defaults.relay_base_url);
  device_display_name =
      read m config_device_display_name
        (read m registration_device_display_name defaults.device_display_name);
  legacy_bridge_token = read m legacy_bridge_token defaults.legacy_bridge_token;
  install_id = read m install_id defaults.install_id;
  prompt_draft = read m prompt_draft defaults.prompt_draft;
}

-- The registration that five texts make.
unfoldable pub make_registration :
    Text → Text → Text → Text → Text → Option StoredDeviceRegistration
unfolding trim
make_registration url id token name conversation =
    if is_empty (trim url) || is_empty (trim id) || is_empty (trim token)
    then none
    else some (record {
      relay_base_url = trim url;
      device_id = trim id;
      refresh_token = trim token;
      device_display_name = or_else (trim name) (codes "Even Hub device");
      default_conversation_id = or_else (trim conversation) (codes "default");
    })

unfoldable pub load_stored_registration : Storage → Option StoredDeviceRegistration
load_stored_registration m =
    make_registration (get_local_storage m registration_relay_base_url)
      (get_local_storage m device_id) (get_local_storage m refresh_token)
      (get_local_storage m registration_device_display_name)
      (get_local_storage m default_conversation_id)

unfoldable pub save_stored_registration : StoredDeviceRegistration → Storage → Storage
save_stored_registration r m = set_local_storage default_conversation_id r.default_conversation_id (
    set_local_storage registration_device_display_name r.device_display_name (
      set_local_storage refresh_token r.refresh_token (
        set_local_storage device_id r.device_id
          (set_local_storage registration_relay_base_url r.relay_base_url m))))

unfoldable pub save_stored_client_config : StoredClientConfig → Storage → Storage
save_stored_client_config c m = set_local_storage prompt_draft c.prompt_draft (
    set_local_storage install_id c.install_id (
      set_local_storage legacy_bridge_token c.legacy_bridge_token (
        set_local_storage config_device_display_name c.device_display_name
          (set_local_storage config_relay_base_url c.relay_base_url m))))

unfoldable pub clear_stored_registration : Storage → Storage
clear_stored_registration m = set_local_storage default_conversation_id [] (
    set_local_storage registration_device_display_name [] (
      set_local_storage refresh_token []
        (set_local_storage device_id [] (set_local_storage registration_relay_base_url [] m))))
