-- ===== src/Bridge/Relay/Callbacks.antt =====
-- relay.ts: the callbacks of the relay, and series of them.
use erg.Prelude.{ℕ, Option, none, some, List, [], ◌∷◌, Text, get, if◌then◌else◌, is_some}
use erg.Bridge.Ids.{Bytes}
use erg.Bridge.Services.Access.{ConsumedWebSocketTicket}
use erg.Bridge.Relay.{
  RelayConnection, token_expiring, PromptCall, Relay, RelayConfig, put, send_json,
  cleanup_connection, close_and_cleanup, bind_connection, revoke_device,
}
use erg.Bridge.Relay.Messages.{Payload, on_message, prompt_answered, send_heartbeat}

-- A callback, with the id of the connection object that it holds.
pub data Step : Type 0 where
  upgraded : Bytes → Bytes → Bytes → Option Text → ConsumedWebSocketTicket → Step
  messaged : Bytes → Text → Payload → Step
  heartbeat : Bytes → Text → Step
  expiring : Text → Step
  closed : Bytes → Text → ℕ → Step
  failed : Bytes → Text → Step
  answered : Bytes → Bytes → PromptCall → Text → Step
  device_revoked : Bytes → Text → Text → Step

-- The callback on the object as it is now.
abbrev pub on : Option RelayConnection → (RelayConnection → Relay → Relay) → Relay → Relay
on none f s = s
on (some c) f s = f c s

-- The timer of the notice has run out.
unfoldable pub expiry_due : RelayConnection → Relay → Relay
unfolding put send_json
expiry_due c s =
    send_json c (token_expiring c.access_expires_at) (put (record c { expiring_timer = none }) s)

unfoldable pub socket_closed : ℕ → Bytes → ℕ → RelayConnection → Relay → Relay
unfolding close_and_cleanup
socket_closed now bytes code c s = close_and_cleanup now bytes c code s

unfoldable pub step : RelayConfig → ℕ → Step → Relay → Relay
unfolding on_message send_heartbeat prompt_answered bind_connection revoke_device expiry_due
    socket_closed cleanup_connection
step config now (upgraded id_bytes old_bytes new_bytes ip ticket) s =
    bind_connection now id_bytes old_bytes new_bytes ip ticket s
step config now (messaged bytes id payload) s =
    on (get s.connections id) (λ c. on_message config now bytes c payload) s
step config now (heartbeat bytes id) s =
    on (get s.connections id)
      (λ c t. if c.heartbeat_timer then send_heartbeat config now bytes c t else t) s
step config now (expiring id) s =
    on (get s.connections id) (λ c t. if is_some c.expiring_timer then expiry_due c t else t) s
step config now (closed bytes id code) s =
    on (get s.connections id) (socket_closed now bytes code) s
step config now (failed bytes id) s =
    on (get s.connections id) (λ c. cleanup_connection now bytes c none) s
step config now (answered delta_bytes final_bytes call reply) s =
    on (get s.connections call.connection_id)
      (λ c. prompt_answered now delta_bytes final_bytes c call reply) s
step config now (device_revoked bytes device_id reason) s =
    revoke_device now bytes device_id reason s

unfoldable pub run : RelayConfig → List (ℕ × Step) → Relay → Relay
unfolding step
run config [] s = s
run config ((now, e) ∷ steps) s = run config steps (step config now e s)
