-- ===== src/Bridge/Examples/Relays.antt =====
-- relay.ts, rate-limit.ts and hardware-bridge-ingest.ts at work on small inputs.
use erg.Prelude.{
  ℕ, ◌+◌, ◌≤◌, ◌≡◌, refl, true, false, none, some, List, [], ◌∷◌, codes, arith, get, set, text_eq,
  filter, length, All, trim,
}
use erg.Bridge.Store.{empty, contains}
use erg.Bridge.Ids.{create_id}
use erg.Bridge.Services.Access.{ConsumedWebSocketTicket}
use erg.Bridge.RateLimit.{is_active, check_bucket}
use erg.Bridge.RateLimit.Window.{allowed_times, allowed-window, retry-allowed}
use erg.Bridge.Ingest.{HardwareBridgeEvent, Batch, Config, ingest}
use erg.Bridge.Ingest.Dedup.Once.{accepted_later, accepted_once}
use erg.Bridge.Relay.{
  RelayConnection, reply_final, PromptCall, Relay, RelayConfig, send_json, bind_connection,
}
use erg.Bridge.Relay.Live.{IsLive}
use erg.Bridge.Relay.Live.Steps.{one_for_device}
use erg.Bridge.Relay.Messages.{handle_prompt, prompt_answered}
use erg.Bridge.Relay.Callbacks.{Step, run}
use erg.Bridge.Relay.Replies.{prompt_again}

-- Four calls of two keys, of which a limit of 1 in 10 ms lets through the first and the last of `a`.
allowed-window_example :
    length (
      filter (is_active 10 14) (
        allowed_times 1 10
          (codes "a")
          []
          ((codes "a", 1) ∷ (codes "b", 2) ∷ (codes "a", 5) ∷ (codes "a", 12) ∷ [])))
    ≤ 1
allowed-window_example =
    allowed-window 1 10 (codes "a")
      ((codes "a", 1) ∷ (codes "b", 2) ∷ (codes "a", 5) ∷ (codes "a", 12) ∷ []) 14
      (omega arith, (omega arith, (omega arith, (omega arith, tt)))) (omega arith)

retry-allowed_example :
    (check_bucket (check_bucket (1 ∷ []) 1 10 5).0 1 10 (5 + 6)).1.allowed ≡ true
retry-allowed_example = retry-allowed (1 ∷ []) 1 10 5 6 (omega arith) (unfold check_bucket in refl)

abbrev event : HardwareBridgeEvent
event = record {
  event_id = some (codes "evt_1");
  bridge_id = some (codes "laptop");
  device_id = some (codes "g2");
  occurred_at = some (codes "now");
  sequence = some 0;
}

-- One good event twice, and a missing one.
abbrev batch : Batch
batch = record { bridge_id = codes "laptop"; events = some (some event ∷ none ∷ some event ∷ []) }

abbrev limits : Config
limits = record { hardware_bridge_dedup_ttl_ms = 100; hardware_bridge_max_batch_size = 5 }

accepted_once_example :
    All
      (λ ids. contains ids (codes "evt_1") ≡ false)
      (accepted_later limits ((50, batch) ∷ (99, batch) ∷ []) (ingest limits 0 batch []).0)
accepted_once_example =
    accepted_once limits 0 batch ((50, batch) ∷ (99, batch) ∷ []) [] (codes "evt_1") tt
      (unfold ingest get set text_eq contains in refl) (omega arith, (omega arith, tt))

abbrev fresh : Relay
fresh = record { connections = []; active_connections = []; store = empty; sent = []; calls = [] }

fresh-IsLive : IsLive fresh
unfolding get
fresh-IsLive = record { keyed = λ k v e. cc; live = λ id c e on. cc }

abbrev relay_config : RelayConfig
relay_config = record {
  relay_heartbeat_interval_ms = 15000;
  relay_pong_timeout_ms = 5000;
  relay_stale_miss_count = 2;
}

abbrev ticket : ConsumedWebSocketTicket
ticket = record {
  device_id = codes "dev_01";
  conversation_id = codes "default";
  access_expires_at = 900000;
}

-- A device connects twice.
abbrev twice : List (ℕ × Step)
twice =
    (0, Step.upgraded (1 ∷ []) [] [] none ticket)
    ∷ (9, Step.upgraded (2 ∷ []) [] [] none ticket)
    ∷ []

abbrev second : RelayConnection
second = record {
  is_open = true;
  connection_id = codes "con_02";
  device_id = codes "dev_01";
  conversation_id = codes "default";
  access_expires_at = 900000;
  remote_ip = none;
  ready_sent = false;
  last_pong_at_ms = 9;
  heartbeat_timer = true;
  expiring_timer = some 839991;
}

one_for_device_example : codes "con_02" ≡ codes "con_02"
unfolding run bind_connection get set text_eq
one_for_device_example =
    one_for_device relay_config twice fresh (codes "con_02") (codes "con_02") second second
      fresh-IsLive refl refl refl refl refl

abbrev call : PromptCall
call = record {
  connection_id = codes "con_02";
  prompt_id = codes "prm_1";
  conversation_id = codes "default";
  request_id = codes "req_05";
  session_key = codes "mobile:dev_01:conversation:default";
  prompt = codes "hello";
}

abbrev greeted : RelayConnection
greeted = record second { connection_id = codes "con_03"; ready_sent = true }

prompt_again_example :
    let t = prompt_answered 20 (1 ∷ []) (2 ∷ []) second call (codes "hi") fresh in
    handle_prompt (3 ∷ []) greeted (some (codes " prm_1")) (some (codes "hello")) none t
    ≡ send_json greeted
        (reply_final
          (create_id (codes "evt") (3 ∷ []))
          (codes "prm_1")
          (codes "hi")
          (codes "req_05"))
        t
unfolding trim
prompt_again_example =
    prompt_again 20 (1 ∷ []) (2 ∷ []) (3 ∷ []) second greeted call (codes "hi")
      (some (codes " prm_1")) (some (codes "hello")) none fresh refl refl refl refl refl
