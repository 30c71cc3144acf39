-- ===== src/Bridge/Services/Activity.antt =====
-- services.ts: prompt results, connection events, the list of devices, readiness and cleanup.
pub mod Prompts
pub mod Sorted
use erg.Prelude.{
  ℕ, Bool, true, false, ◌&&◌, Option, none, some, List, [], ◌∷◌, map, Text, codes, leb,
  if◌then◌else◌, is_empty,
}
use erg.Bridge.State.{ClientType, DeviceStatus, DeviceRecord}
use erg.Bridge.Store.{
  State, get_device_by_id, update_device, list_devices as stored_devices, upsert_prompt_result,
  create_connection_event,
}
use erg.Bridge.Store.Cleanup.{cleanup_expired}
use erg.Bridge.Ids.{Bytes, create_id}
use erg.Bridge.Services.{StoreDriver, memory, postgres, BridgeConfig}

pub record PromptInput : Type 0 where
  pub device_id : Text
  pub prompt_id : Text
  pub conversation_id : Text
  pub request_id : Text
  pub text : Text

unfoldable pub mark_prompt_result : ℕ → PromptInput → State → State
unfolding upsert_prompt_result
mark_prompt_result now input s =
    upsert_prompt_result
      (record {
        device_id = input.device_id;
        prompt_id = input.prompt_id;
        conversation_id = input.conversation_id;
        request_id = input.request_id;
        text = input.text;
        created_at = now;
      })
      s

pub record ConnectionInput : Type 0 where
  pub device_id : Text
  pub connection_id : Text
  pub event_type : Text
  pub ip : Option Text
  pub close_code : Option ℕ

unfoldable pub record_connection_event : ℕ → Bytes → ConnectionInput → State → State
unfolding create_connection_event create_id
record_connection_event now bytes input s =
    create_connection_event
      (record {
        connection_event_id = create_id (codes "ce") bytes;
        device_id = input.device_id;
        connection_id = input.connection_id;
        event_type = input.event_type;
        occurred_at = now;
        ip = input.ip;
        close_code = input.close_code;
      })
      s

-- `if (details?.x) device.y = details.x`: a text that is missing or empty changes nothing.
abbrev if_given : Option Text → Option Text → Option Text
if_given none old = old
if_given (some t) old = if is_empty t then old else some t

abbrev touched : ℕ → Option Text → Option Text → DeviceRecord → DeviceRecord
touched now remote_ip app_version d = record d {
  last_seen_at = some now;
  last_ip = if_given remote_ip d.last_ip;
  last_app_version = if_given app_version d.last_app_version;
}

abbrev touch_found : ℕ → Option Text → Option Text → Option DeviceRecord → State → State
touch_found now remote_ip app_version none s = s
touch_found now remote_ip app_version (some d) s =
    update_device (touched now remote_ip app_version d) s

unfoldable pub touch_device : Text → ℕ → Option Text → Option Text → State → State
unfolding get_device_by_id update_device
touch_device device_id now remote_ip app_version s =
    touch_found now remote_ip app_version (get_device_by_id s device_id) s

pub record DeviceSummary : Type 0 where
  pub device_id : Text
  pub device_display_name : Text
  pub platform : Text
  pub status : DeviceStatus
  pub client_type : ClientType
  pub last_seen_at : Option ℕ

abbrev pub summary : DeviceRecord → DeviceSummary
summary d = record {
  device_id = d.device_id;
  device_display_name = d.device_display_name;
  platform = d.platform;
  status = d.status;
  client_type = d.client_type;
  last_seen_at = d.last_seen_at;
}

-- `sort` by the time of creation is stable: a device goes before the later ones.
unfoldable pub insert_by_creation : DeviceRecord → List DeviceRecord → List DeviceRecord
insert_by_creation d [] = d ∷ []
insert_by_creation d (e ∷ ds) =
    if leb d.created_at e.created_at then d ∷ e ∷ ds else e ∷ insert_by_creation d ds

unfoldable pub sort_by_creation : List DeviceRecord → List DeviceRecord
unfolding insert_by_creation
sort_by_creation [] = []
sort_by_creation (d ∷ ds) = insert_by_creation d (sort_by_creation ds)

unfoldable pub list_devices : State → List DeviceSummary
unfolding stored_devices sort_by_creation
list_devices s = map summary (sort_by_creation (stored_devices s))

pub record BridgeReadyResponse : Type 0 where
  pub ready : Bool
  pub storage : StoreDriver
  pub database : Bool
  pub openclaw : Bool

abbrev is_postgres : StoreDriver → Bool
is_postgres memory = false
is_postgres postgres = true

-- `database` says whether the ping of the store returned. `ok` is `ready`.
unfoldable pub check_readiness : BridgeConfig → Bool → Bool → BridgeReadyResponse
check_readiness config database openclaw_healthy = record {
  ready = database && openclaw_healthy && is_postgres config.bridge_store_driver;
  storage = config.bridge_store_driver;
  database = database;
  openclaw = openclaw_healthy;
}

unfoldable pub cleanup_expired_state : BridgeConfig → ℕ → State → State
unfolding cleanup_expired
cleanup_expired_state config now s = (cleanup_expired now config.prompt_result_retention_ms s).0
