-- ===== src/Mobile/Session/Resume.antt =====
-- websocket-session.ts: a prompt that was sent is asked for again after a reconnection.
use erg.Prelude.{
  ℕ, get_elem?, ◌≡◌, ◌≢◌, ◌∙◌, refl, true, false, some, List, [], ◌∷◌, ◌++◌, Text, arith, length,
  All, is_empty, Bool-cases, inl, inr, text_eq_iff, Option-cases,
}
use erg.Mobile.Session.{
  ReconnectPolicy, WebSocketTicketResponse, Socket, Session, ClientMessage, resume, pong, prompt,
  is_open_socket, ServerMessage, set_open, keep_given, is_given, first_message, send, send_prompt,
  opened, received, schedule_reconnect, socket_closed, handle_network_recovered, connect, timer_due,
  Step, step, run,
}

-- A step that leaves the prompt pending: it connects anew for no other conversation, sends no other
-- prompt, and brings no final reply to this one.
abbrev pub Spares : Text → Step → Type 0
Spares p (Step.connecting ticket conversation_id last_event_id pending) = ⊥
Spares p (Step.prompting q text) = ⊥
Spares p (Step.message (ServerMessage.reply_final event_id q)) = q ≢ p
Spares p _ = Unit

-- A message changes nothing but what was sent.
send-pending :
    (m : ClientMessage) (s : Session) → (send m s).0.pending_prompt_id ≡ s.pending_prompt_id
unfolding send
send-pending m s = elim (Option-cases s.socket) [
  | inl missing ↦ rw missing
  | inr (i, at) ↦ elim (Bool-cases (is_open_socket (get_elem? s.sockets i))) [
    | inl on ↦ simp (at, on)
    | inr off ↦ simp (at, off)
  ]
]

step-pending :
    (policy : ReconnectPolicy) (p : Text) (e : Step) (s : Session)
    → Spares p e
    → s.pending_prompt_id ≡ some p
    → (step policy e s).pending_prompt_id ≡ some p
unfolding step opened received socket_closed schedule_reconnect timer_due connect
    handle_network_recovered
step-pending policy p (Step.connecting ticket c l q) s h k = absurd h
step-pending policy p (Step.prompting q text) s h k = absurd h
step-pending policy p (Step.socket_opens i) s h k = elim (Option-cases (get_elem? s.sockets i)) [
  | inl missing ↦ simp (missing, k)
  | inr (x, at) ↦ rw at (
      send-pending (first_message x)
        (record s { sockets = set_open true s.sockets i; reconnect_attempt = 0 })
      ∙ k)
]
step-pending policy p (Step.message (ServerMessage.ready c a)) s h k = k
step-pending policy p (Step.message (ServerMessage.reply_delta e)) s h k = k
step-pending policy p (Step.message (ServerMessage.reply_final e q)) s h k =
    ground (arith, text_eq_iff p q)
step-pending policy p (Step.message (ServerMessage.ping i)) s h k = send-pending (pong i) s ∙ k
step-pending policy p (Step.message ServerMessage.other) s h k = k
step-pending policy p (Step.socket_closes i code portion) s h k = ground arith
step-pending policy p Step.socket_fails s h k = k
step-pending policy p Step.timer s h k = ground arith
step-pending policy p Step.disconnecting s h k = k
step-pending policy p (Step.replacing ticket) s h k = k
step-pending policy p (Step.recovered portion) s h k = ground arith

run-pending :
    (policy : ReconnectPolicy) (p : Text) (steps : List Step) (s : Session)
    → All (Spares p) steps
    → s.pending_prompt_id ≡ some p
    → (run policy steps s).pending_prompt_id ≡ some p
unfolding run
run-pending policy p [] s h k = k
run-pending policy p (e ∷ steps) s (own, h) k =
    run-pending policy p steps (step policy e s) h (step-pending policy p e s own k)

-- The socket that a reconnection makes is the last one.
last-open :
    (xs : List Socket) (x : Socket)
    → get_elem? (set_open true (xs ++ x ∷ []) (length xs)) (length xs)
      ≡ some (record x { is_open = true })
unfolding set_open
last-open [] x = refl
last-open (y ∷ xs) x = last-open xs x

pub last-elem : (xs : List Socket) (x : Socket) → get_elem? (xs ++ x ∷ []) (length xs) ≡ some x
last-elem [] x = refl
last-elem (y ∷ xs) x = last-elem xs x

first_message-resume :
    (x : Socket) (p : Text)
    → x.pending_prompt_id ≡ some p
    → is_empty p ≡ false
    → first_message x ≡ resume x.conversation_id (keep_given x.last_event_id) (some p)
unfolding first_message
first_message-resume x p pending given = elim (Bool-cases (is_given x.last_event_id)) [
  | inl e ↦ ground (arith, e)
  | inr e ↦ ground (arith, e)
]

reconnect-resumes :
    (policy : ReconnectPolicy) (p : Text) (ticket : WebSocketTicketResponse) (delay : ℕ)
    (t : Session)
    → is_empty p ≡ false
    → t.pending_prompt_id ≡ some p
    → t.last_ticket ≡ some ticket
    → t.reconnect_timer ≡ some delay
    → (run policy (Step.timer ∷ Step.socket_opens (length t.sockets) ∷ []) t).sent
      ≡ t.sent
        ++ (length t.sockets, resume t.last_conversation_id (keep_given t.last_event_id) (some p))
          ∷ []
unfolding run step timer_due connect opened send
reconnect-resumes policy p ticket delay t given pending has set =
    let x : Socket = record {
      url = ticket.ws_url;
      is_open = false;
      conversation_id = t.last_conversation_id;
      last_event_id = t.last_event_id;
      pending_prompt_id = some p;
    } in
    ground (
      arith,
      pending,
      has,
      set,
      last-elem t.sockets x,
      last-open t.sockets x,
      first_message-resume x p refl given,
    )

-- A prompt that was sent, or whose sending failed, stays pending through any steps but a new
-- connection by the app, another prompt and its own final reply; if the session then has a ticket and
-- the timer of a reconnection is set, and it fires and the new socket opens, the first message on it
-- resumes the conversation after the last event that was seen, and asks for this prompt.
pub prompt_resumed :
    (policy : ReconnectPolicy) (p text : Text) (steps : List Step) (s : Session)
    (ticket : WebSocketTicketResponse) (delay : ℕ)
    → is_empty p ≡ false
    → All (Spares p) steps
    → (run policy (Step.prompting p text ∷ steps) s).last_ticket ≡ some ticket
    → (run policy (Step.prompting p text ∷ steps) s).reconnect_timer ≡ some delay
    → let t = run policy (Step.prompting p text ∷ steps) s in
      (run policy (Step.timer ∷ Step.socket_opens (length t.sockets) ∷ []) t).sent
      ≡ t.sent
        ++ (length t.sockets, resume t.last_conversation_id (keep_given t.last_event_id) (some p))
          ∷ []
unfolding run step send_prompt
prompt_resumed policy p text steps s ticket delay given spared has set =
    let sent = step policy (Step.prompting p text) s in
    reconnect-resumes policy p ticket delay (run policy steps sent) given
      (run-pending policy p steps sent spared (
        send-pending (prompt s.last_conversation_id p text)
          (record s { pending_prompt_id = some p })))
      has set
