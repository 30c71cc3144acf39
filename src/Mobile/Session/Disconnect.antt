-- ===== src/Mobile/Session/Disconnect.antt =====
-- websocket-session.ts: what follows a disconnection by the app itself.
use erg.Prelude.{
  get_elem?, ℕ, ◌+◌, ◌≡◌, refl, true, some, [], ◌∷◌, arith, length, length-append, zero, suc, Bool,
  false, Option, none, List, ap,
}
use erg.Mobile.Session.{
  ReconnectPolicy, WebSocketTicketResponse, Session, Socket, set_open, close_current, Status,
  is_reconnectable_close_code, schedule_reconnect, socket_closed, disconnect, connect, timer_due,
  Step, step, run, calculate_reconnect_delay_ms,
}
use erg.Mobile.Session.Resume.{last-elem}

pub length-set_open : (b : Bool) (xs : List Socket) (i : ℕ) → length (set_open b xs i) ≡ length xs
unfolding set_open
length-set_open b [] i = refl
length-set_open b (x ∷ xs) zero = refl
length-set_open b (x ∷ xs) (suc i) = ap suc (length-set_open b xs i)

close_current-length : (o : Option ℕ) (xs : List Socket) → length (close_current o xs) ≡ length xs
close_current-length none xs = refl
close_current-length (some i) xs = length-set_open false xs i

-- If the app disconnects a session that has a ticket, and the socket then closes with the code that it
-- was closed with, which is 1000 in every call, or any other code but 4001 and 4003, the session
-- schedules a reconnection after the delay of its policy, and when that timer fires it makes one new
-- socket, with the URL of the old ticket.
pub disconnect_reconnects :
    (policy : ReconnectPolicy) (portion : ℕ → ℕ) (i code : ℕ) (s : Session)
    (ticket : WebSocketTicketResponse)
    → is_reconnectable_close_code code ≡ true
    → s.last_ticket ≡ some ticket
    → let t = run policy (Step.disconnecting ∷ Step.socket_closes i code portion ∷ []) s in
      let u = run policy (Step.timer ∷ []) t in
      (t.state.status ≡ Status.reconnecting)
      × (t.reconnect_timer ≡ some (calculate_reconnect_delay_ms s.reconnect_attempt policy portion))
      × (u.socket ≡ some (length s.sockets))
      × (length u.sockets ≡ length s.sockets + 1)
      × (get_elem? u.sockets (length s.sockets)
          ≡ some (record {
            url = ticket.ws_url;
            is_open = false;
            conversation_id = s.last_conversation_id;
            last_event_id = s.last_event_id;
            pending_prompt_id = s.pending_prompt_id;
          }))
      × (u.state.status ≡ Status.connecting)
unfolding run step disconnect socket_closed schedule_reconnect timer_due connect
disconnect_reconnects policy portion i code s ticket on has =
    let same = close_current-length s.socket s.sockets in
    let shut = length-set_open false (close_current s.socket s.sockets) i in
    let x : Socket = record {
      url = ticket.ws_url;
      is_open = false;
      conversation_id = s.last_conversation_id;
      last_event_id = s.last_event_id;
      pending_prompt_id = s.pending_prompt_id;
    } in
    let left = set_open false (close_current s.socket s.sockets) i in
    ground (arith, on, has, same, shut, length-append left (x ∷ []), last-elem left x)
