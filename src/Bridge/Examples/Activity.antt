-- ===== src/Bridge/Examples/Activity.antt =====
-- services.ts: the theorems on prompt results and the list of devices.
use erg.Prelude.{ℕ, ◌≡◌, none, List, codes, map, text_eq}
use mathlib.Core.List.{Perm}
use erg.Bridge.State.{ClientType, DeviceStatus, DeviceRecord}
use erg.Bridge.Store.{
  State, empty, update_device, list_devices as stored_devices, get_prompt_result,
}
use erg.Bridge.Services.Activity.{PromptInput, summary, mark_prompt_result, list_devices}
use erg.Bridge.Services.Activity.Prompts.{mark_prompt_result-get}
use erg.Bridge.Services.Activity.Sorted.{Ascending, list_devices_lem}

abbrev asked : PromptInput
asked = record {
  device_id = codes "d";
  prompt_id = codes "p:q";
  conversation_id = codes "default";
  request_id = codes "req";
  text = codes "hi";
}

-- Another prompt of the device is not touched.
mark_prompt_result-get_example :
    get_prompt_result (mark_prompt_result 3 asked empty) (codes "d") (codes "q")
    ≡ get_prompt_result empty (codes "d") (codes "q")
unfolding text_eq
mark_prompt_result-get_example =
    mark_prompt_result-get 3 asked empty (codes "d") (codes "q") ((λ e. cc), tt) ((λ e. cc), tt)

abbrev device : List ℕ → ℕ → DeviceRecord
device id created_at = record {
  device_id = id;
  device_display_name = codes "Phone";
  platform = codes "ios";
  client_type = ClientType.mobile;
  status = DeviceStatus.active;
  created_at = created_at;
  last_seen_at = none;
  last_ip = none;
  last_app_version = none;
  current_refresh_family_id = codes "rtf";
  revoked_at = none;
  revoke_reason = none;
}

abbrev two : State
two = update_device (device (codes "dev_1") 7) (update_device (device (codes "dev_2") 9) empty)

list_devices_lem_example :
    (ds : List DeviceRecord) × (list_devices two ≡ map summary ds)
    × Perm (stored_devices two) ds
    × Ascending ds
list_devices_lem_example = list_devices_lem two
