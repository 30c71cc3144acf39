-- ===== src/Mobile/Companion/Registration.antt =====
-- mobile/src/secure-storage.ts: what is stored of a registration.
use erg.Prelude.{◌||◌, Option, none, some, Text, codes, is_empty, or_else, text_eq, if◌then◌else◌}
use erg.Bridge.State.{ClientType, mobile, even_hub}

pub record DeviceRegistration : Type 0 where
  pub relay_base_url : Text
  pub device_id : Text
  pub refresh_token : Text
  pub device_display_name : Text
  pub default_conversation_id : Text
  pub client_type : ClientType

-- A member that is missing is empty: the source tests them for being truthy.
pub record Parsed : Type 0 where
  pub relay_base_url : Text
  pub device_id : Text
  pub refresh_token : Text
  pub device_display_name : Text
  pub default_conversation_id : Text
  pub client_type : Text

-- An item whose text is no JSON object, or holds one.
pub data Item : Type 0 where
  unreadable : Item
  parsed : Parsed → Item

abbrev pub stored_client_type : Text → ClientType
stored_client_type t = if text_eq t (codes "even_hub") then even_hub else mobile

abbrev pub client_type_text : ClientType → Text
client_type_text mobile = codes "mobile"
client_type_text even_hub = codes "even_hub"

-- `load` of the store.
unfoldable pub load : Option Item → Option DeviceRegistration
unfolding text_eq
load none = none
load (some unreadable) = none
load (some (parsed p)) =
    if is_empty p.relay_base_url || is_empty p.device_id || is_empty p.refresh_token
    then none
    else some (record {
      relay_base_url = p.relay_base_url;
      device_id = p.device_id;
      refresh_token = p.refresh_token;
      device_display_name = or_else p.device_display_name (codes "OpenClaw mobile");
      default_conversation_id = or_else p.default_conversation_id (codes "default");
      client_type = stored_client_type p.client_type;
    })

-- `save` of the store.
unfoldable pub save : DeviceRegistration → Item
save r = parsed (record {
  relay_base_url = r.relay_base_url;
  device_id = r.device_id;
  refresh_token = r.refresh_token;
  device_display_name = r.device_display_name;
  default_conversation_id = r.default_conversation_id;
  client_type = client_type_text r.client_type;
})
