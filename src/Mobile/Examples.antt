-- ===== src/Mobile/Examples.antt =====
-- mobile/src/websocket-session.ts and validation.ts at work on small inputs.
use erg.Prelude.{
  get_elem?, ◌+◌, ◌≡◌, false, refl, none, some, List, [], ◌∷◌, ◌++◌, codes, length, text_eq,
}
use erg.Mobile.Session.{
  default_reconnect_policy, WebSocketTicketResponse, Status, resume, ServerMessage, keep_given,
  Session, initial, connect, is_reconnectable_close_code, calculate_reconnect_delay_ms, Step, run,
}
use erg.Mobile.Session.Resume.{prompt_resumed}
use erg.Mobile.Session.Disconnect.{disconnect_reconnects}

abbrev ticket : WebSocketTicketResponse
ticket = record { ticket = codes "wst_01"; ws_url = codes "wss://relay" }

-- The session whose first socket has been made.
abbrev connected : Session
connected = connect ticket (codes "default") none none initial

-- The reply of an earlier prompt comes, and the connection is lost.
abbrev losing : List Step
losing =
    Step.message (ServerMessage.reply_final (codes "e1") (codes "p00"))
    ∷ Step.socket_closes 0 1006 (λ b. 7)
    ∷ []

prompt_resumed_example :
    let t =
      run default_reconnect_policy (Step.prompting (codes "p1") (codes "hi") ∷ losing) connected in
    (run default_reconnect_policy (Step.timer ∷ Step.socket_opens (length t.sockets) ∷ []) t).sent
    ≡ t.sent
      ++ (
        length t.sockets,
        resume t.last_conversation_id (keep_given t.last_event_id) (some (codes "p1")),
      )
        ∷ []
unfolding run connect text_eq
prompt_resumed_example =
    prompt_resumed default_reconnect_policy (codes "p1") (codes "hi") losing connected ticket 7 refl
      ((λ e. cc), (tt, tt)) refl refl

disconnect_reconnects_example :
    let t =
      run default_reconnect_policy
        (Step.disconnecting ∷ Step.socket_closes 0 1000 (λ b. 7) ∷ [])
        connected in
    let u = run default_reconnect_policy (Step.timer ∷ []) t in
    (t.state.status ≡ Status.reconnecting)
    × (t.reconnect_timer ≡ some (calculate_reconnect_delay_ms 0 default_reconnect_policy (λ b. 7)))
    × (u.socket ≡ some (length connected.sockets))
    × (length u.sockets ≡ length connected.sockets + 1)
    × (get_elem? u.sockets (length connected.sockets)
        ≡ some (record {
          url = codes "wss://relay";
          is_open = false;
          conversation_id = codes "default";
          last_event_id = none;
          pending_prompt_id = none;
        }))
    × (u.state.status ≡ Status.connecting)
unfolding is_reconnectable_close_code connect
disconnect_reconnects_example =
    disconnect_reconnects default_reconnect_policy (λ b. 7) 0 1000 connected ticket refl refl
