-- ===== src/Bridge/Relay/Live/Steps.antt =====
-- relay.ts: at most one connection of a device has its heartbeat running, through every series of
-- callbacks.
use erg.Prelude.{
  ℕ, ◌≡◌, ◌||◌, Bool, true, false, Option, none, some, List, [], ◌∷◌, Text, arith, get, is_empty,
  is_some, Option-cases, Bool-cases, inl, inr, if◌then◌else◌,
}
use erg.Bridge.State.{PromptResultRecord}
use erg.Bridge.Store.{get_prompt_result}
use erg.Bridge.Ids.{Bytes}
use erg.Bridge.Relay.{
  RelayConnection, Relay, RelayConfig, PromptCall, put, stale_connection_close_code,
}
use erg.Bridge.Relay.Live.{
  IsLive, Sits, found-Sits, put-IsLive, send_json-IsLive, cleanup_connection-IsLive,
  close_and_cleanup-IsLive,
}
use erg.Bridge.Relay.Live.Binding.{bind_connection-IsLive, revoke_device-IsLive}
use erg.Bridge.Relay.Messages.{
  Payload, not_json, hello, resume, pong, prompt, other, send_ready, set_conversation, handle_hello,
  answer_pending, handle_resume, start_prompt, handle_prompt, prompt_answered, on_message, is_stale,
  send_heartbeat, trimmed_or_empty,
}
use erg.Bridge.Relay.Callbacks.{
  Step, upgraded, messaged, heartbeat, expiring, closed, failed, answered, device_revoked,
  expiry_due, socket_closed, step, run, on,
}

module _ (s : Relay) (c : RelayConnection) (l : IsLive s) (sits : Sits s c) where
  send_ready-IsLive : (config : RelayConfig) → IsLive (send_ready config c s)
  unfolding send_ready
  send_ready-IsLive config = elim (Bool-cases c.ready_sent) [
    | inl sent ↦ simp sent l
    | inr new ↦
        simp new (send_json-IsLive c _ _ (put-IsLive (record c { ready_sent = true }) s l sits))
  ]

  pong-IsLive : (now : ℕ) → IsLive (put (record c { last_pong_at_ms = now }) s)
  pong-IsLive now = put-IsLive (record c { last_pong_at_ms = now }) s l sits

  expiry_due-IsLive : IsLive (expiry_due c s)
  unfolding expiry_due
  expiry_due-IsLive =
      send_json-IsLive c _ _ (put-IsLive (record c { expiring_timer = none }) s l sits)

  send_heartbeat-IsLive :
      (config : RelayConfig) (now : ℕ) (bytes : Bytes)
      → IsLive (send_heartbeat config now bytes c s)
  unfolding send_heartbeat
  send_heartbeat-IsLive config now bytes = elim (Bool-cases (is_stale config now c)) [
    | inl stale ↦
        rw stale (close_and_cleanup-IsLive now bytes c stale_connection_close_code s l sits)
    | inr fresh ↦ rw fresh (send_json-IsLive c _ s l)
  ]

set_conversation-Sits :
    (o : Option Text) (c : RelayConnection) (s : Relay) → Sits s c → Sits s (set_conversation o c)
unfolding set_conversation
set_conversation-Sits none c s sits = sits
set_conversation-Sits (some id) c s sits = sits

put-Sits : (c d : RelayConnection) (s : Relay) → Sits s d → Sits (put c s) d
unfolding put
put-Sits c d s sits = sits

handle_hello-IsLive :
    (config : RelayConfig) (o : Option Text) (c : RelayConnection) (s : Relay)
    → IsLive s
    → Sits s c
    → IsLive (handle_hello config c o s)
unfolding handle_hello
handle_hello-IsLive config o c s l sits =
    let named = set_conversation o c in
    let named_sits = set_conversation-Sits o c s sits in
    send_ready-IsLive (put named s) named (put-IsLive named s l named_sits)
      (put-Sits named named s named_sits) config

answer_pending-IsLive :
    (bytes : Bytes) (c : RelayConnection) (id : Text) (o : Option PromptResultRecord) (s : Relay)
    → IsLive s
    → IsLive (answer_pending bytes c id o s)
unfolding answer_pending
answer_pending-IsLive bytes c id none s l = send_json-IsLive c _ s l
answer_pending-IsLive bytes c id (some r) s l = send_json-IsLive c _ s l

handle_resume-IsLive :
    (config : RelayConfig) (bytes : Bytes) (c : RelayConnection) (o pending : Option Text)
    (s : Relay)
    → IsLive s
    → Sits s c
    → IsLive (handle_resume config bytes c o pending s)
unfolding handle_resume
handle_resume-IsLive config bytes c o pending s l sits =
    let greeted = handle_hello config c o s in
    let g = handle_hello-IsLive config o c s l sits in
    let id = trimmed_or_empty pending in
    let answered =
      answer_pending-IsLive bytes c id (get_prompt_result greeted.store c.device_id id) greeted g in
    elim (Bool-cases (is_empty id)) [
      | inl none_given ↦ rw none_given g
      | inr given ↦ rw given answered
    ]

start_prompt-IsLive :
    (bytes : Bytes) (c : RelayConnection) (id text conversation : Text)
    (o : Option PromptResultRecord) (s : Relay)
    → IsLive s
    → IsLive (start_prompt bytes c id text conversation o s)
unfolding start_prompt
start_prompt-IsLive bytes c id text conversation (some r) s l = send_json-IsLive c _ s l
start_prompt-IsLive bytes c id text conversation none s l = record {
  keyed = l.keyed;
  live = l.live;
}

handle_prompt-IsLive :
    (bytes : Bytes) (c : RelayConnection) (id text conversation : Option Text) (s : Relay)
    → IsLive s
    → IsLive (handle_prompt bytes c id text conversation s)
unfolding handle_prompt
handle_prompt-IsLive bytes c id text conversation s l = elim (Bool-cases c.ready_sent) [
  | inr early ↦ simp early (send_json-IsLive c _ s l)
  | inl greeted ↦
      elim (Bool-cases (is_empty (trimmed_or_empty id) || is_empty (trimmed_or_empty text))) [
        | inl missing ↦ simp (greeted, missing) (send_json-IsLive c _ s l)
        | inr given ↦ simp (greeted, given) (start_prompt-IsLive bytes c _ _ _ _ s l)
      ]
]

prompt_answered-IsLive :
    (now : ℕ) (delta_bytes final_bytes : Bytes) (c : RelayConnection) (call : PromptCall)
    (reply : Text) (s : Relay)
    → IsLive s
    → IsLive (prompt_answered now delta_bytes final_bytes c call reply s)
unfolding prompt_answered
prompt_answered-IsLive now delta_bytes final_bytes c call reply s l =
    send_json-IsLive c _ _ (send_json-IsLive c _ _ (record { keyed = l.keyed; live = l.live }))

on_message-IsLive :
    (config : RelayConfig) (now : ℕ) (bytes : Bytes) (c : RelayConnection) (p : Payload) (s : Relay)
    → IsLive s
    → Sits s c
    → IsLive (on_message config now bytes c p s)
unfolding on_message
on_message-IsLive config now bytes c not_json s l sits = send_json-IsLive c _ s l
on_message-IsLive config now bytes c (hello o) s l sits = handle_hello-IsLive config o c s l sits
on_message-IsLive config now bytes c (resume o pending) s l sits =
    handle_resume-IsLive config bytes c o pending s l sits
on_message-IsLive config now bytes c pong s l sits = pong-IsLive s c l sits now
on_message-IsLive config now bytes c (prompt id text o) s l sits =
    handle_prompt-IsLive bytes c id text o s l
on_message-IsLive config now bytes c other s l sits = send_json-IsLive c _ s l

-- A callback that acts on the object as it is now.
on-IsLive :
    (s : Relay) (id : Text) (f : RelayConnection → Relay → Relay)
    → IsLive s
    → ((c : RelayConnection) → Sits s c → IsLive (f c s))
    → IsLive (on (get s.connections id) f s)
on-IsLive s id f l keeps = elim (Option-cases (get s.connections id)) [
  | inl missing ↦ rw missing l
  | inr (c, found) ↦ rw found (keeps c (found-Sits s id c l found))
]

if-IsLive : (b : Bool) (s t : Relay) → IsLive s → IsLive t → IsLive (if b then s else t)
if-IsLive true s t l m = l
if-IsLive false s t l m = m

step-IsLive :
    (config : RelayConfig) (now : ℕ) (e : Step) (s : Relay)
    → IsLive s
    → IsLive (step config now e s)
unfolding step socket_closed
step-IsLive config now (upgraded id_bytes old_bytes new_bytes ip ticket) s l =
    bind_connection-IsLive now id_bytes old_bytes new_bytes ip ticket s l
step-IsLive config now (messaged bytes id payload) s l =
    on-IsLive s id _ l (λ c sits. on_message-IsLive config now bytes c payload s l sits)
step-IsLive config now (heartbeat bytes id) s l = on-IsLive s id _ l (λ c sits.
    if-IsLive c.heartbeat_timer _ s (send_heartbeat-IsLive s c l sits config now bytes) l)
step-IsLive config now (expiring id) s l =
    on-IsLive s id _ l
      (λ c sits. if-IsLive (is_some c.expiring_timer) _ s (expiry_due-IsLive s c l sits) l)
step-IsLive config now (closed bytes id code) s l =
    on-IsLive s id _ l (λ c sits. close_and_cleanup-IsLive now bytes c code s l sits)
step-IsLive config now (failed bytes id) s l =
    on-IsLive s id _ l (λ c sits. cleanup_connection-IsLive now bytes c none s l)
step-IsLive config now (answered delta_bytes final_bytes call reply) s l =
    on-IsLive s call.connection_id _ l
      (λ c sits. prompt_answered-IsLive now delta_bytes final_bytes c call reply s l)
step-IsLive config now (device_revoked bytes device_id reason) s l =
    revoke_device-IsLive now bytes device_id reason s l

run-IsLive :
    (config : RelayConfig) (steps : List (ℕ × Step)) (s : Relay)
    → IsLive s
    → IsLive (run config steps s)
unfolding run
run-IsLive config [] s l = l
run-IsLive config ((now, e) ∷ steps) s l =
    run-IsLive config steps (step config now e s) (step-IsLive config now e s l)

-- At most one connection of a device is served: after every series of callbacks from a relay where
-- this holds, two connections of one device whose heartbeats run are the same.
pub one_for_device :
    (config : RelayConfig) (steps : List (ℕ × Step)) (s : Relay) (id id' : Text)
    (c c' : RelayConnection)
    → IsLive s
    → get (run config steps s).connections id ≡ some c
    → get (run config steps s).connections id' ≡ some c'
    → c.heartbeat_timer ≡ true
    → c'.heartbeat_timer ≡ true
    → c.device_id ≡ c'.device_id
    → id ≡ id'
one_for_device config steps s id id' c c' l found found' on on' same =
    let t = run-IsLive config steps s l in
    ground (arith, t.live id c found on, t.live id' c' found' on', same)
