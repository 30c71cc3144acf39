-- ===== src/Bridge/Store.antt =====
-- bridge/src/memory-store.ts: the tables of `InMemoryBridgeStore` and its methods.
-- A method that changes the tables returns them; a record that the source changes in place is put
-- back by the `update…` call that follows, which is the only write that the model makes.
pub mod Coherent
pub mod Upkeep
pub mod Cleanup
use erg.Prelude.{
  Bool, ◌||◌, Option, none, some, List, [], ◌∷◌, ◌++◌, map, Text, Map, codes, text_eq, is_empty,
  if◌then◌else◌, get, set,
}
use erg.Bridge.State.{
  PairingSessionRecord, BootstrapTokenRecord, DeviceRecord, RefreshTokenFamilyRecord,
  RefreshTokenRecord, WebSocketTicketRecord, RevocationRecord, ConnectionEventRecord,
  PromptResultRecord,
}

pub record InMemoryBridgeState : Type 0 where
  pub pairing_sessions : Map PairingSessionRecord
  pub pairing_sessions_by_code_hash : Map Text
  pub bootstrap_tokens : Map BootstrapTokenRecord
  pub devices : Map DeviceRecord
  pub refresh_families : Map RefreshTokenFamilyRecord
  pub refresh_tokens : Map RefreshTokenRecord
  pub refresh_tokens_by_family_id : Map (List Text)
  pub websocket_tickets : Map WebSocketTicketRecord
  pub revocations : List RevocationRecord
  pub connection_events : List ConnectionEventRecord
  pub prompt_results : Map PromptResultRecord

abbrev pub State : Type 0
State = InMemoryBridgeState

abbrev pub empty : State
empty = record {
  pairing_sessions = [];
  pairing_sessions_by_code_hash = [];
  bootstrap_tokens = [];
  devices = [];
  refresh_families = [];
  refresh_tokens = [];
  refresh_tokens_by_family_id = [];
  websocket_tickets = [];
  revocations = [];
  connection_events = [];
  prompt_results = [];
}

-- `createPairingSession` and `updatePairingSession` have one body.
unfoldable pub update_pairing_session : PairingSessionRecord → State → State
update_pairing_session r s = record s {
  pairing_sessions = set s.pairing_sessions r.pairing_session_id r;
  pairing_sessions_by_code_hash =
      set s.pairing_sessions_by_code_hash r.code_hash r.pairing_session_id;
}

unfoldable pub create_pairing_session : PairingSessionRecord → State → State
unfolding update_pairing_session
create_pairing_session r s = update_pairing_session r s

unfoldable pub get_pairing_session_by_id : State → Text → Option PairingSessionRecord
get_pairing_session_by_id s id = get s.pairing_sessions id

-- The index is read with a truthiness test: an empty id finds nothing.
abbrev by_index : State → Option Text → Option PairingSessionRecord
by_index s none = none
by_index s (some id) = if is_empty id then none else get s.pairing_sessions id

unfoldable pub find_pairing_session_by_code_hash : State → Text → Option PairingSessionRecord
find_pairing_session_by_code_hash s hash = by_index s (get s.pairing_sessions_by_code_hash hash)

unfoldable pub update_bootstrap_token : BootstrapTokenRecord → State → State
update_bootstrap_token r s = record s { bootstrap_tokens = set s.bootstrap_tokens r.token_hash r }

unfoldable pub create_bootstrap_token : BootstrapTokenRecord → State → State
unfolding update_bootstrap_token
create_bootstrap_token r s = update_bootstrap_token r s

unfoldable pub get_bootstrap_token_by_hash : State → Text → Option BootstrapTokenRecord
get_bootstrap_token_by_hash s hash = get s.bootstrap_tokens hash

unfoldable pub update_device : DeviceRecord → State → State
update_device r s = record s { devices = set s.devices r.device_id r }

unfoldable pub create_device : DeviceRecord → State → State
unfolding update_device
create_device r s = update_device r s

unfoldable pub get_device_by_id : State → Text → Option DeviceRecord
get_device_by_id s id = get s.devices id

unfoldable pub list_devices : State → List DeviceRecord
list_devices s = map (λ e. e.1) s.devices

unfoldable pub update_refresh_family : RefreshTokenFamilyRecord → State → State
update_refresh_family r s = record s {
  refresh_families = set s.refresh_families r.refresh_family_id r;
}

unfoldable pub create_refresh_family : RefreshTokenFamilyRecord → State → State
unfolding update_refresh_family
create_refresh_family r s = update_refresh_family r s

unfoldable pub get_refresh_family_by_id : State → Text → Option RefreshTokenFamilyRecord
get_refresh_family_by_id s id = get s.refresh_families id

-- A `Set<string>` in the order of insertion.
unfoldable pub contains : List Text → Text → Bool
contains [] k = Bool.false
contains (j ∷ js) k = text_eq j k || contains js k

unfoldable pub add : List Text → Text → List Text
unfolding contains
add js k = if contains js k then js else js ++ k ∷ []

unfoldable pub discard : List Text → Text → List Text
discard [] k = []
discard (j ∷ js) k = let rest = discard js k in if text_eq j k then rest else j ∷ rest

abbrev pub family_set : Option (List Text) → List Text
family_set none = []
family_set (some js) = js

unfoldable pub update_refresh_token : RefreshTokenRecord → State → State
unfolding add
update_refresh_token r s = record s {
  refresh_tokens = set s.refresh_tokens r.token_hash r;
  refresh_tokens_by_family_id =
      set s.refresh_tokens_by_family_id r.refresh_family_id
        (add (family_set (get s.refresh_tokens_by_family_id r.refresh_family_id)) r.token_hash);
}

unfoldable pub create_refresh_token : RefreshTokenRecord → State → State
unfolding update_refresh_token
create_refresh_token r s = update_refresh_token r s

unfoldable pub get_refresh_token_by_hash : State → Text → Option RefreshTokenRecord
get_refresh_token_by_hash s hash = get s.refresh_tokens hash

-- `map` to the records, then `filter` out the missing ones.
abbrev pub present : Option RefreshTokenRecord → List RefreshTokenRecord → List RefreshTokenRecord
present none rs = rs
present (some r) rs = r ∷ rs

unfoldable pub collect : State → List Text → List RefreshTokenRecord
collect s [] = []
collect s (h ∷ hs) = present (get s.refresh_tokens h) (collect s hs)

unfoldable pub list_refresh_tokens_by_family_id : State → Text → List RefreshTokenRecord
unfolding collect
list_refresh_tokens_by_family_id s id =
    collect s (family_set (get s.refresh_tokens_by_family_id id))

unfoldable pub update_websocket_ticket : WebSocketTicketRecord → State → State
update_websocket_ticket r s = record s {
  websocket_tickets = set s.websocket_tickets r.ticket_hash r;
}

unfoldable pub create_websocket_ticket : WebSocketTicketRecord → State → State
unfolding update_websocket_ticket
create_websocket_ticket r s = update_websocket_ticket r s

unfoldable pub get_websocket_ticket_by_hash : State → Text → Option WebSocketTicketRecord
get_websocket_ticket_by_hash s hash = get s.websocket_tickets hash

unfoldable pub create_revocation : RevocationRecord → State → State
create_revocation r s = record s { revocations = s.revocations ++ r ∷ [] }

unfoldable pub create_connection_event : ConnectionEventRecord → State → State
create_connection_event r s = record s { connection_events = s.connection_events ++ r ∷ [] }

-- `${deviceId}:${promptId}`
unfoldable pub prompt_result_key : Text → Text → Text
prompt_result_key device_id prompt_id = device_id ++ codes ":" ++ prompt_id

unfoldable pub upsert_prompt_result : PromptResultRecord → State → State
unfolding prompt_result_key
upsert_prompt_result r s = record s {
  prompt_results = set s.prompt_results (prompt_result_key r.device_id r.prompt_id) r;
}

unfoldable pub get_prompt_result : State → Text → Text → Option PromptResultRecord
unfolding prompt_result_key
get_prompt_result s device_id prompt_id =
    get s.prompt_results (prompt_result_key device_id prompt_id)
