-- ===== src/Bridge/Examples/Servers.antt =====
-- server.ts and openclaw.ts at work on small inputs.
use erg.Prelude.{
  ℕ, zero, suc, ◌+◌, ◌≡◌, ◌≢◌, refl, none, some, List, [], ◌∷◌, Text, arith, codes, get, set,
  text_eq, take,
}
use erg.Bridge.State.{ClientType, DeviceStatus, DeviceRecord}
use erg.Bridge.Store.Upkeep.{upkeep}
use erg.Bridge.Store.{State, empty, update_device}
use erg.Bridge.Store.Coherent.{IsCoherent}
use erg.Bridge.Services.{Env, memory}
use erg.Bridge.Services.Access.{revoke_device, verify_access_token}
use erg.Bridge.Services.Activity.{cleanup_expired_state}
use erg.Bridge.History.{Call, mark_prompt, cleanup, step, run}
use erg.Bridge.History.Coherent.{empty-IsCoherent}
use erg.Bridge.Relay.Live.{IsLive}
use erg.Bridge.OpenClaw.{
  Content, Fetched, answered, value, create_chat_completion, ChatCompletionResult, replied,
}
use erg.Bridge.OpenClaw.Verdict.{verdict, deciding}
use erg.Bridge.OpenClaw.Attempts.{requests, waits, create_chat_completion_lem}
use erg.Bridge.Server.{Server, Request, Body, object, string, parse_bearer_token, sanitize_hud_text}
use erg.Bridge.Server.Routes.{ServerConfig, post_device_revoke}
use erg.Bridge.Server.Turns.{TurnCall, post_turn, turn_ended}
use erg.Bridge.Server.Turns.Again.{IsAllowed, post_turn-IsAllowed, answered_once}
use erg.Bridge.Server.Revocation.{IsRevoked, post_device_revoke-IsRevoked}
use erg.Bridge.Examples.{env}

-- OpenClaw is busy once, and then replies.
abbrev busy_once : ℕ → Fetched
busy_once i = answered (record {
  status = 200;
  status_text = codes "OK";
  text = none;
  json = value (record {
    model = none;
    content = Content.string (elim i [
      | zero ↦ codes "Even AI is busy with another request. Please retry shortly."
      | suc j ↦ codes "Hello"
    ]);
  });
})

create_chat_completion_lem_example :
    let (effects, outcome) = create_chat_completion (codes "m") (codes "s") busy_once in
    (outcome ≡ verdict (codes "m") (codes "s") (busy_once (deciding busy_once)))
    × (requests effects ≡ take (deciding busy_once + 1) (0 ∷ 1 ∷ 2 ∷ []))
    × (waits effects ≡ take (deciding busy_once) (400 ∷ 1200 ∷ []))
create_chat_completion_lem_example = create_chat_completion_lem (codes "m") (codes "s") busy_once

-- Access tokens spell their device, and may send turns.
abbrev turns_env : Env
turns_env = record (env memory) {
  jwt = record {
    sign = λ claims. [];
    verify = λ now token. some (record {
      device_id = some token;
      scope = some (codes "turn:send");
      jti = some (codes "j");
      not_before = 0;
      exp = some 900;
    });
  };
}

abbrev server_config : ServerConfig
server_config = record {
  env = turns_env;
  admin_api_token = codes "adm";
  g2_bridge_token = codes "g2";
  hardware_bridge_token = codes "hw1";
  openclaw_model = codes "m";
  ingest = record { hardware_bridge_dedup_ttl_ms = 100; hardware_bridge_max_batch_size = 5 };
}

abbrev phone : DeviceRecord
phone = record {
  device_id = codes "dev_01";
  device_display_name = codes "Phone";
  platform = codes "ios";
  client_type = ClientType.mobile;
  status = DeviceStatus.active;
  created_at = 3;
  last_seen_at = none;
  last_ip = none;
  last_app_version = none;
  current_refresh_family_id = codes "rtf_09";
  revoked_at = none;
  revoke_reason = none;
}

abbrev paired : State
paired = update_device phone empty

paired-IsCoherent : IsCoherent paired
paired-IsCoherent = search (upkeep, empty-IsCoherent)

-- A server with one device.
abbrev server : Server
server = record {
  relay = record {
    connections = [];
    active_connections = [];
    store = paired;
    sent = [];
    calls = [];
  };
  buckets = [];
  seen = [];
}

server-IsLive : IsLive server.relay
unfolding get
server-IsLive = record { keyed = λ k v e. cc; live = λ id c e on. cc }

abbrev request : Text → Body → Request
request authorization body = record {
  authorization = some authorization;
  forwarded_for = none;
  body = body;
  now = 5;
}

abbrev turn_body : Text → Body
turn_body prompt_id =
    object ((codes "prompt_id", string prompt_id) ∷ (codes "text", string (codes "hi")) ∷ [])

abbrev turn : Text → Request
turn prompt_id = request (codes "Bearer dev_01") (turn_body prompt_id)

abbrev sent : Text → Text → TurnCall
sent prompt_id request_id = record {
  device_id = codes "dev_01";
  turn = record { conversation_id = codes "default"; prompt_id = prompt_id; text = codes "hi" };
  request_id = request_id;
  session_key = codes "mobile:dev_01:conversation:default";
}

serving : Unit {0}
unfolding post_turn turn_ended post_device_revoke parse_bearer_token sanitize_hud_text
    verify_access_token update_device get set text_eq revoke_device
serving = tt

post_turn-IsAllowed_example :
    IsAllowed server_config (turn (codes "p1")) server.relay.store (sent (codes "p1") (codes "r1"))
unfolding serving
post_turn-IsAllowed_example =
    post_turn-IsAllowed server_config (codes "r1") (turn (codes "p1")) server
      (sent (codes "p1") (codes "r1")) refl

abbrev hello : ChatCompletionResult
hello = record { reply = codes "Hello"; model = codes "m"; session_key = codes "s" }

abbrev replied_at_6 : Server
unfolding turn_ended
replied_at_6 =
    (turn_ended 6 (codes "local") (sent (codes "p1") (codes "r1")) (replied hello) server).0

-- A cleanup and a second result, while the first is retained.
abbrev between : List (ℕ × Call)
between =
    (7, cleanup)
    ∷ (
      7,
      mark_prompt (record {
        device_id = codes "dev_01";
        prompt_id = codes "p3";
        conversation_id = codes "c";
        request_id = codes "r3";
        text = codes "Hi";
      }),
    )
    ∷ []

abbrev later : Server
unfolding run step
later = record replied_at_6 {
  relay = record replied_at_6.relay { store = run turns_env between replied_at_6.relay.store };
}

answered_once_example : codes "p2" ≢ codes "p1"
unfolding serving run later cleanup_expired_state
answered_once_example =
    answered_once server_config 6 (codes "local") (sent (codes "p1") (codes "r1"))
      (sent (codes "p2") (codes "r2")) hello (codes "r2") (turn (codes "p2")) server later between
      tt ((omega arith, omega arith), ((omega arith, omega arith), tt)) refl refl refl

post_device_revoke-IsRevoked_example :
    IsRevoked
      (codes "dev_01")
      (post_device_revoke server_config
        (1 ∷ [])
        (2 ∷ [])
        (codes "dev_01")
        (request (codes "Bearer adm") (turn_body []))
        server).0
unfolding serving
post_device_revoke-IsRevoked_example =
    post_device_revoke-IsRevoked server_config (1 ∷ []) (2 ∷ []) (codes "dev_01")
      (request (codes "Bearer adm") (turn_body [])) server
      (record { device_id = codes "dev_01"; revoked_at = 5 }) paired-IsCoherent server-IsLive refl
