-- ===== src/Mobile/Session.antt =====
-- mobile/src/websocket-session.ts and reconnect.ts. The sockets that the factory made stand in a list,
-- each with what its callbacks hold, and the session names the current one. What the platform does is
-- a step: a socket opens, receives, closes or fails, and the timer is due. Listeners only read, and
-- the last server message, which nothing here reads, is left out.
mod Data
pub mod Resume
pub mod Disconnect
unfoldable pub use Data.*
use erg.Prelude.{
  get_elem?, ℕ, zero, suc, ◌+◌, ◌*◌, ◌^◌, min, Bool, true, false, not, ◌&&◌, ◌||◌, Option, none,
  some, List, [], ◌∷◌, ◌++◌, Text, codes, is_empty, is_some, length, text_eq, ◌==◌, if◌then◌else◌,
}

-- A change of the ready state.
unfoldable pub set_open : Bool → List Socket → ℕ → List Socket
set_open b [] i = []
set_open b (x ∷ xs) zero = record x { is_open = b } ∷ xs
set_open b (x ∷ xs) (suc i) = x ∷ set_open b xs i

-- Whether a text is there and not empty.
abbrev pub is_given : Option Text → Bool
is_given none = false
is_given (some t) = not (is_empty t)

abbrev pub keep_given : Option Text → Option Text
keep_given o = if is_given o then o else none

abbrev pub with_status : Status → Session → SessionState
with_status status s = record {
  status = status;
  connection_id = none;
  access_token_expires_at = none;
  last_event_id = s.last_event_id;
}

-- `connect`; the timer that it clears is forgotten.
unfoldable pub connect :
    WebSocketTicketResponse → Text → Option Text → Option Text → Session → Session
connect ticket conversation_id last_event_id pending_prompt_id s = record s {
  sockets =
      s.sockets
      ++ record {
        url = ticket.ws_url;
        is_open = false;
        conversation_id = conversation_id;
        last_event_id = last_event_id;
        pending_prompt_id = pending_prompt_id;
      }
        ∷ [];
  socket = some (length s.sockets);
  reconnect_timer = none;
  last_ticket = some ticket;
  last_conversation_id = conversation_id;
  last_event_id = last_event_id;
  pending_prompt_id = pending_prompt_id;
  state = record {
    status = Status.connecting;
    connection_id = none;
    access_token_expires_at = none;
    last_event_id = last_event_id;
  };
}

-- Whether a socket is open; there is none under a wrong number.
abbrev pub is_open_socket : Option Socket → Bool
is_open_socket none = false
is_open_socket (some x) = x.is_open

abbrev send_on : Option ℕ → ClientMessage → Session → Session × Bool
send_on none message s = (s, true)
send_on (some i) message s =
    if is_open_socket (get_elem? s.sockets i)
    then (record s { sent = s.sent ++ (i, message) ∷ [] }, false)
    else (s, true)

-- `send`, and whether it throws because the current socket is not open.
unfoldable pub send : ClientMessage → Session → Session × Bool
send message s = send_on s.socket message s

-- The first message on a socket.
unfoldable pub first_message : Socket → ClientMessage
first_message x =
    if is_given x.last_event_id || is_given x.pending_prompt_id
    then resume x.conversation_id (keep_given x.last_event_id) (keep_given x.pending_prompt_id)
    else hello x.conversation_id

abbrev greet : Option Socket → Session → Session
greet none s = s
greet (some x) s = (send (first_message x) s).0

-- `onopen` of a socket.
unfoldable pub opened : ℕ → Session → Session
unfolding set_open send first_message
opened i s =
    greet (get_elem? s.sockets i)
      (record s { sockets = set_open true s.sockets i; reconnect_attempt = 0 })

abbrev is_same : Option Text → Text → Bool
is_same none id = false
is_same (some t) id = text_eq t id

abbrev seen : Text → Session → Session
seen event_id s = record s {
  last_event_id = some event_id;
  state = record s.state { last_event_id = some event_id };
}

-- `onmessage` of a socket.
unfoldable pub received : ServerMessage → Session → Session
unfolding send
received (ready connection_id access_token_expires_at) s = record s {
  state = record {
    status = connected;
    connection_id = some connection_id;
    access_token_expires_at = some access_token_expires_at;
    last_event_id = s.last_event_id;
  };
}
received (reply_delta event_id) s = seen event_id s
received (reply_final event_id prompt_id) s =
    if is_same s.pending_prompt_id prompt_id
    then record (seen event_id s) { pending_prompt_id = none }
    else seen event_id s
received (ping ping_id) s = (send (pong ping_id) s).0
received ServerMessage.other s = s

unfoldable pub is_reconnectable_close_code : ℕ → Bool
is_reconnectable_close_code code = not ((code == 4001) || (code == 4003))

unfoldable pub schedule_reconnect : ReconnectPolicy → (ℕ → ℕ) → Session → Session
unfolding calculate_reconnect_delay_ms
schedule_reconnect policy portion s = record s {
  reconnect_attempt = s.reconnect_attempt + 1;
  state = with_status reconnecting s;
  reconnect_timer = some (calculate_reconnect_delay_ms s.reconnect_attempt policy portion);
}

-- `onclose` of a socket, whichever it is.
unfoldable pub socket_closed : ReconnectPolicy → (ℕ → ℕ) → ℕ → ℕ → Session → Session
unfolding set_open is_reconnectable_close_code schedule_reconnect
socket_closed policy portion i code s =
    let shut : Session = record s {
      sockets = set_open false s.sockets i;
      socket = none;
      state = with_status closed s;
    } in
    if is_reconnectable_close_code code && is_some s.last_ticket
    then schedule_reconnect policy portion shut
    else shut

abbrev close_current : Option ℕ → List Socket → List Socket
close_current none sockets = sockets
close_current (some i) sockets = set_open false sockets i

-- `onerror` closes the current socket, whose `onclose` comes later.
unfoldable pub socket_failed : Session → Session
unfolding set_open
socket_failed s = record s { sockets = close_current s.socket s.sockets }

unfoldable pub disconnect : Session → Session
unfolding set_open
disconnect s = record s {
  sockets = close_current s.socket s.sockets;
  socket = none;
  reconnect_timer = none;
  state = with_status closed s;
}

unfoldable pub replace_ticket : WebSocketTicketResponse → Session → Session
replace_ticket ticket s = record s { last_ticket = some ticket }

-- `sendPrompt`, and whether it throws.
unfoldable pub send_prompt : Text → Text → Session → Session × Bool
unfolding send
send_prompt prompt_id text s =
    send (prompt s.last_conversation_id prompt_id text)
      (record s { pending_prompt_id = some prompt_id })

unfoldable pub handle_network_recovered : ReconnectPolicy → (ℕ → ℕ) → Session → Session
unfolding schedule_reconnect
handle_network_recovered policy portion s =
    if is_some s.last_ticket then schedule_reconnect policy portion s else s

abbrev reconnect_with : Option WebSocketTicketResponse → Session → Session
reconnect_with none s = s
reconnect_with (some ticket) s =
    connect ticket s.last_conversation_id s.last_event_id s.pending_prompt_id s

abbrev fire : Option ℕ → Session → Session
fire none s = s
fire (some delay_ms) s = reconnect_with s.last_ticket s

-- The callback of the reconnect timer; one that was cleared, or never set, does not fire.
unfoldable pub timer_due : Session → Session
unfolding connect
timer_due s = fire s.reconnect_timer s

-- The callbacks, and the calls of the controller. What `Math.random` draws comes with a step.
pub data Step : Type 0 where
  connecting : WebSocketTicketResponse → Text → Option Text → Option Text → Step
  socket_opens : ℕ → Step
  message : ServerMessage → Step
  socket_closes : ℕ → ℕ → (ℕ → ℕ) → Step
  socket_fails : Step
  timer : Step
  disconnecting : Step
  replacing : WebSocketTicketResponse → Step
  prompting : Text → Text → Step
  recovered : (ℕ → ℕ) → Step

unfoldable pub step : ReconnectPolicy → Step → Session → Session
unfolding connect opened received socket_closed socket_failed timer_due disconnect replace_ticket
    send_prompt handle_network_recovered
step policy (Step.connecting ticket conversation_id last_event_id pending) s =
    connect ticket conversation_id last_event_id pending s
step policy (socket_opens i) s = opened i s
step policy (message m) s = received m s
step policy (socket_closes i code portion) s = socket_closed policy portion i code s
step policy socket_fails s = socket_failed s
step policy timer s = timer_due s
step policy disconnecting s = disconnect s
step policy (replacing ticket) s = replace_ticket ticket s
step policy (prompting prompt_id text) s = (send_prompt prompt_id text s).0
step policy (recovered portion) s = handle_network_recovered policy portion s

unfoldable pub run : ReconnectPolicy → List Step → Session → Session
unfolding step
run policy [] s = s
run policy (e ∷ steps) s = run policy steps (step policy e s)
