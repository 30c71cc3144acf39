-- ===== src/Bridge/Relay/Messages.antt =====
-- relay.ts: the messages of a client, and the heartbeat.
use erg.Prelude.{
  ℕ, ◌+◌, ◌*◌, ◌/◌, Bool, true, false, not, ◌||◌, Option, none, some, [], ◌∷◌, ◌++◌, Text, codes,
  ltb, if◌then◌else◌, is_empty, trim,
}
use erg.Bridge.State.{PromptResultRecord}
use erg.Bridge.Store.{get_prompt_result}
use erg.Bridge.Ids.{Bytes, create_id}
use erg.Bridge.SessionKey.{normalize_conversation_id, build_mobile_session_key}
use erg.Bridge.Services.Activity.{mark_prompt_result}
use erg.Bridge.Relay.{
  RelayConnection, invalid_json, unknown_message_type, hello_required, prompt_invalid,
  prompt_interrupted, ready, ping, reply_delta, reply_final, error, PromptCall, Relay, RelayConfig,
  put, send_json, close_and_cleanup, stale_connection_close_code,
}

-- A message after `JSON.parse`, by its `type`. A field that is not a string is `none`.
pub data Payload : Type 0 where
  not_json : Payload
  hello : Option Text → Payload
  resume : Option Text → Option Text → Payload
  pong : Payload
  prompt : Option Text → Option Text → Option Text → Payload
  other : Payload

-- `Math.round(ms / 1000)`
abbrev seconds : ℕ → ℕ
seconds ms = (ms + 500) / 1000

abbrev pub trimmed_or_empty : Option Text → Text
trimmed_or_empty none = []
trimmed_or_empty (some t) = trim t

unfoldable pub send_ready : RelayConfig → RelayConnection → Relay → Relay
unfolding put send_json
send_ready config c s =
    if c.ready_sent
    then s
    else send_json c
        (ready c.connection_id (seconds config.relay_heartbeat_interval_ms)
          (seconds config.relay_pong_timeout_ms) c.access_expires_at)
        (put (record c { ready_sent = true }) s)

-- The write of `conversation_id`, if the payload has one.
unfoldable pub set_conversation : Option Text → RelayConnection → RelayConnection
unfolding normalize_conversation_id
set_conversation none c = c
set_conversation (some id) c = record c { conversation_id = normalize_conversation_id id }

unfoldable pub handle_hello : RelayConfig → RelayConnection → Option Text → Relay → Relay
unfolding put set_conversation send_ready
handle_hello config c conversation_id s =
    let named = set_conversation conversation_id c in send_ready config named (put named s)

-- The final reply that is stored, or what is said if there is none.
unfoldable pub answer_pending :
    Bytes → RelayConnection → Text → Option PromptResultRecord → Relay → Relay
unfolding create_id send_json
answer_pending bytes c prompt_id (some r) s =
    send_json c (reply_final (create_id (codes "evt") bytes) r.prompt_id r.text r.request_id) s
answer_pending bytes c prompt_id none s =
    send_json c (error prompt_interrupted true (some prompt_id)) s

unfoldable pub handle_resume :
    RelayConfig → Bytes → RelayConnection → Option Text → Option Text → Relay → Relay
unfolding handle_hello trim get_prompt_result answer_pending
handle_resume config bytes c conversation_id pending_prompt_id s =
    let greeted = handle_hello config c conversation_id s in
    let id = trimmed_or_empty pending_prompt_id in
    if is_empty id
    then greeted
    else answer_pending bytes c id (get_prompt_result greeted.store c.device_id id) greeted

abbrev named_or : Option Text → Text → Text
named_or none d = d
named_or (some id) d = normalize_conversation_id id

-- A prompt that is well formed: a stored result is sent again, and any other goes to OpenClaw.
unfoldable pub start_prompt :
    Bytes → RelayConnection → Text → Text → Text → Option PromptResultRecord → Relay → Relay
unfolding create_id send_json build_mobile_session_key
start_prompt bytes c prompt_id text conversation_id (some r) s =
    send_json c (reply_final (create_id (codes "evt") bytes) r.prompt_id r.text r.request_id) s
start_prompt bytes c prompt_id text conversation_id none s = record s {
  calls =
      s.calls
      ++ record {
        connection_id = c.connection_id;
        prompt_id = prompt_id;
        conversation_id = conversation_id;
        request_id = create_id (codes "req") bytes;
        session_key = build_mobile_session_key c.device_id conversation_id;
        prompt = text;
      }
        ∷ [];
}

-- `handlePrompt`, up to its wait for OpenClaw.
unfoldable pub handle_prompt :
    Bytes → RelayConnection → Option Text → Option Text → Option Text → Relay → Relay
unfolding send_json trim normalize_conversation_id get_prompt_result start_prompt
handle_prompt bytes c prompt_id_input text_input conversation_id s =
    let prompt_id = trimmed_or_empty prompt_id_input in
    let text = trimmed_or_empty text_input in
    if not c.ready_sent
    then send_json c (error hello_required false none) s
    else if is_empty prompt_id || is_empty text
    then send_json c (error prompt_invalid false none) s
    else start_prompt bytes c prompt_id text (named_or conversation_id c.conversation_id)
        (get_prompt_result s.store c.device_id prompt_id) s

-- The rest of `handlePrompt`, with the reply of OpenClaw.
unfoldable pub prompt_answered :
    ℕ → Bytes → Bytes → RelayConnection → PromptCall → Text → Relay → Relay
unfolding mark_prompt_result create_id send_json
prompt_answered now delta_bytes final_bytes c call reply s =
    let stored : Relay = record s {
      store =
          mark_prompt_result now
            (record {
              device_id = c.device_id;
              prompt_id = call.prompt_id;
              conversation_id = call.conversation_id;
              request_id = call.request_id;
              text = reply;
            })
            s.store;
    } in
    send_json c
      (reply_final (create_id (codes "evt") final_bytes) call.prompt_id reply call.request_id)
      (send_json c (reply_delta (create_id (codes "evt") delta_bytes) call.prompt_id reply) stored)

unfoldable pub on_message : RelayConfig → ℕ → Bytes → RelayConnection → Payload → Relay → Relay
unfolding send_json handle_hello handle_resume put handle_prompt
on_message config now bytes c not_json s = send_json c (error invalid_json false none) s
on_message config now bytes c (hello conversation_id) s = handle_hello config c conversation_id s
on_message config now bytes c (resume conversation_id pending) s =
    handle_resume config bytes c conversation_id pending s
on_message config now bytes c pong s = put (record c { last_pong_at_ms = now }) s
on_message config now bytes c (prompt id text conversation_id) s =
    handle_prompt bytes c id text conversation_id s
on_message config now bytes c other s = send_json c (error unknown_message_type false none) s

-- `nowMs - lastPongAtMs > staleAfterMs`
unfoldable pub is_stale : RelayConfig → ℕ → RelayConnection → Bool
is_stale config now c =
    ltb
      (c.last_pong_at_ms
        + (config.relay_heartbeat_interval_ms * config.relay_stale_miss_count
            + config.relay_pong_timeout_ms))
      now

unfoldable pub send_heartbeat : RelayConfig → ℕ → Bytes → RelayConnection → Relay → Relay
unfolding is_stale close_and_cleanup create_id send_json
send_heartbeat config now bytes c s =
    if is_stale config now c
    then close_and_cleanup now bytes c stale_connection_close_code s
    else send_json c (ping (create_id (codes "png") bytes)) s
