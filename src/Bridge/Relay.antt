-- ===== src/Bridge/Relay.antt =====
-- bridge/src/relay.ts: the connections of the relay. A connection object is held by callbacks after it
-- was replaced, so the objects stand in a table by connection id, and `active_connections` names them.
-- The HTTP upgrade, which calls `consumeWebSocketTicket` and then `bindConnection`, and the log lines
-- are left out. A wait that is due is a call of the callback.
pub mod Messages
pub mod Callbacks
pub mod Live
pub mod Replies
use erg.Prelude.{
  ℕ, ◌+◌, ◌-◌, ◌*◌, ◌/◌, Bool, true, false, Option, none, some, List, [], ◌∷◌, ◌++◌, Text, Map,
  codes, get, set, remove, leb, ltb, ◌==◌, if◌then◌else◌, text_eq,
}
use erg.Bridge.Store.{State}
use erg.Bridge.Ids.{Bytes, create_id}
use erg.Bridge.Services.Access.{ConsumedWebSocketTicket}
use erg.Bridge.Services.Activity.{record_connection_event}

abbrev pub newest_connection_close_code : ℕ
newest_connection_close_code = 4009

abbrev pub revoked_close_code : ℕ
revoked_close_code = 4003

abbrev pub stale_connection_close_code : ℕ
stale_connection_close_code = 4011

abbrev pub server_restart_close_code : ℕ
server_restart_close_code = 4010

-- `is_open` is `ws.readyState === OPEN`. A timer that runs holds its delay.
pub record RelayConnection : Type 0 where
  pub is_open : Bool
  pub connection_id : Text
  pub device_id : Text
  pub conversation_id : Text
  pub access_expires_at : ℕ
  pub remote_ip : Option Text
  pub ready_sent : Bool
  pub last_pong_at_ms : ℕ
  pub heartbeat_timer : Bool
  pub expiring_timer : Option ℕ

pub data ErrorCode : Type 0 where
  invalid_json unknown_message_type hello_required prompt_invalid prompt_interrupted : ErrorCode

-- The JSON frames, by their `type`, with the fields that are not constants.
pub data Frame : Type 0 where
  ready : Text → ℕ → ℕ → ℕ → Frame
  ping : Text → Frame
  token_expiring : ℕ → Frame
  revoked : Text → Frame
  reply_delta : Text → Text → Text → Frame
  reply_final : Text → Text → Text → Text → Frame
  error : ErrorCode → Bool → Option Text → Frame

-- A prompt that waits for the answer of OpenClaw.
pub record PromptCall : Type 0 where
  pub connection_id : Text
  pub prompt_id : Text
  pub conversation_id : Text
  pub request_id : Text
  pub session_key : Text
  pub prompt : Text

pub record Relay : Type 0 where
  pub connections : Map RelayConnection
  pub active_connections : Map Text
  pub store : State
  pub sent : List (Text × Frame)
  pub calls : List PromptCall

pub record RelayConfig : Type 0 where
  pub relay_heartbeat_interval_ms : ℕ
  pub relay_pong_timeout_ms : ℕ
  pub relay_stale_miss_count : ℕ

-- A write to the fields of a connection object.
unfoldable pub put : RelayConnection → Relay → Relay
put c s = record s { connections = set s.connections c.connection_id c }

abbrev pub follow : Map RelayConnection → Option Text → Option RelayConnection
follow connections none = none
follow connections (some id) = get connections id

-- `activeConnections.get(deviceId)`
unfoldable pub active : Relay → Text → Option RelayConnection
active s device_id = follow s.connections (get s.active_connections device_id)

unfoldable pub send_json : RelayConnection → Frame → Relay → Relay
send_json c frame s =
    if c.is_open then record s { sent = s.sent ++ (c.connection_id, frame) ∷ [] } else s

abbrev pub is_same : Option Text → Text → Bool
is_same none id = false
is_same (some other) id = text_eq other id

-- The event that is recorded for a connection that is no longer active.
abbrev pub close_event : Option ℕ → Text
close_event none = codes "closed"
close_event (some code) = if code == revoked_close_code then codes "revoked" else codes "closed"

-- `bytes` are drawn for the id of the connection event.
unfoldable pub cleanup_connection : ℕ → Bytes → RelayConnection → Option ℕ → Relay → Relay
unfolding put record_connection_event
cleanup_connection now bytes c close_code s =
    let quiet : Relay = put (record c { heartbeat_timer = false; expiring_timer = none }) s in
    if is_same (get s.active_connections c.device_id) c.connection_id
    then record quiet {
      active_connections = remove s.active_connections c.device_id;
      store =
          record_connection_event now bytes
            (record {
              device_id = c.device_id;
              connection_id = c.connection_id;
              event_type = close_event close_code;
              ip = c.remote_ip;
              close_code = close_code;
            })
            s.store;
    }
    else quiet

-- `ws.close(code)`, then `cleanupConnection`.
unfoldable pub close_and_cleanup : ℕ → Bytes → RelayConnection → ℕ → Relay → Relay
unfolding put cleanup_connection
close_and_cleanup now bytes c code s =
    let closed : RelayConnection = record c { is_open = false } in
    cleanup_connection now bytes closed (some code) (put closed s)

-- The notice that the access token runs out: a minute ahead, or at once.
unfoldable pub schedule_token_expiring : ℕ → RelayConnection → Relay → Relay
unfolding put send_json
schedule_token_expiring now c s =
    if leb c.access_expires_at (now + 60000)
    then send_json c (token_expiring c.access_expires_at) s
    else put (record c { expiring_timer = some (c.access_expires_at - now - 60000) }) s

unfoldable pub close_existing : ℕ → Bytes → Option RelayConnection → Relay → Relay
unfolding close_and_cleanup
close_existing now bytes none s = s
close_existing now bytes (some existing) s =
    close_and_cleanup now bytes existing newest_connection_close_code s

abbrev pub new_connection : ℕ → Text → Option Text → ConsumedWebSocketTicket → RelayConnection
new_connection now id remote_ip ticket = record {
  is_open = true;
  connection_id = id;
  device_id = ticket.device_id;
  conversation_id = ticket.conversation_id;
  access_expires_at = ticket.access_expires_at;
  remote_ip = remote_ip;
  ready_sent = false;
  last_pong_at_ms = now;
  heartbeat_timer = true;
  expiring_timer = none;
}

-- The bytes are drawn for the connection's id, and for the events of the old and the new one.
unfoldable pub bind_connection :
    ℕ → Bytes → Bytes → Bytes → Option Text → ConsumedWebSocketTicket → Relay → Relay
unfolding active close_existing put create_id record_connection_event schedule_token_expiring
bind_connection now id_bytes old_bytes new_bytes remote_ip ticket s =
    let freed = close_existing now old_bytes (active s ticket.device_id) s in
    let c = new_connection now (create_id (codes "con") id_bytes) remote_ip ticket in
    let bound : Relay = put c freed in
    let active_now : Relay = record bound {
      active_connections = set freed.active_connections c.device_id c.connection_id;
      store =
          record_connection_event now new_bytes
            (record {
              device_id = c.device_id;
              connection_id = c.connection_id;
              event_type = codes "connected";
              ip = c.remote_ip;
              close_code = none;
            })
            freed.store;
    } in
    schedule_token_expiring now c active_now

unfoldable pub revoke_active : ℕ → Bytes → Text → Option RelayConnection → Relay → Relay
unfolding send_json close_and_cleanup
revoke_active now bytes reason none s = s
revoke_active now bytes reason (some c) s =
    close_and_cleanup now bytes c revoked_close_code (send_json c (revoked reason) s)

unfoldable pub revoke_device : ℕ → Bytes → Text → Text → Relay → Relay
unfolding active revoke_active
revoke_device now bytes device_id reason s = revoke_active now bytes reason (active s device_id) s
