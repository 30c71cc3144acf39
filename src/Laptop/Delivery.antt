-- ===== src/Laptop/Delivery.antt =====
-- The laptop bridge with the bridge: laptop-bridge/src/upstream-client.ts sends a batch to the route of
-- bridge/src/server.ts that gives it to bridge/src/hardware-bridge-ingest.ts, and the answer comes back
-- to `flush` of laptop-bridge/src/bridge-runtime.ts, unless the request or the answer is lost.
pub mod Refined
use erg.Prelude.{ℕ, Option, none, some, List, [], ◌∷◌, map, get_elem?, Text, ◌⊎◌, inl, inr}
use erg.Bridge.Ingest
use erg.Bridge.Ingest.{Batch, Response, Config, Seen, Reason, ingest}
use erg.Bridge.Server.Routes.{batch_status}
use erg.Laptop.Buffer.{HardwareBridgeEvent, Queue}
use erg.Laptop.Runtime.{
  LaptopBridgeConfig, Runtime, UpstreamResponse, deliver, flush_ended, Step, step,
}

-- The laptop, the ids that the bridge remembers, and the answers that the bridge gave, the latest first.
pub record System : Type 0 where
  pub runtime : Runtime
  pub seen : Seen
  pub answers : List Response

-- A step of the laptop; a batch that `flush` had read reaches the bridge; an answer, named by its place
-- among those that were given, reaches the laptop; or a delivery ends with an error of the network,
-- whether its request or its answer was lost. An answer may take any time, and others may overtake it.
pub data Happening : Type 0 where
  local : Step → Happening
  reached : ℕ → Queue → Happening
  arrived : ℕ → ℕ → Happening
  failed : Text → Happening

-- `iso` is `toISOString`, and `message` the text of a reason.
module _ (config : LaptopBridgeConfig) (limits : Config) (iso : ℕ → Text)
    (message : Reason → Text) where
  -- An event in the JSON text of a batch, as the bridge reads it.
  abbrev pub wire : HardwareBridgeEvent → Option Ingest.HardwareBridgeEvent
  wire e = some (record {
    event_id = some e.event_id;
    bridge_id = some e.bridge_id;
    device_id = some e.device_id;
    occurred_at = some (iso e.occurred_at);
    sequence = some e.sequence;
  })

  abbrev pub request_body : Queue → Batch
  request_body batch = record { bridge_id = config.bridge_id; events = some (map wire batch) }

  -- The answer as the laptop reads it.
  abbrev pub response_of : Response → UpstreamResponse
  response_of r = record {
    status = batch_status r;
    accepted_event_ids = r.accepted_event_ids;
    duplicate_event_ids = r.duplicate_event_ids;
    rejected_events = map (λ (x : Text × Reason). (x.0, message x.1)) r.rejected_events;
  }

  abbrev pub take_answer : ℕ → Option Response → Runtime → Runtime
  take_answer ended none s = s
  take_answer ended (some r) s = flush_ended ended (deliver (inl (response_of r))) s

  unfoldable pub happen : Happening → System → System
  unfolding step ingest deliver flush_ended
  happen (local e) w = record w { runtime = step config e w.runtime }
  happen (reached now batch) w =
      let (seen, r) = ingest limits now (request_body batch) w.seen in
      record w { seen = seen; answers = r ∷ w.answers }
  happen (arrived i ended) w = record w {
    runtime = take_answer ended (get_elem? w.answers i) w.runtime;
  }
  happen (failed error) w = record w { runtime = flush_ended 0 (deliver (inr error)) w.runtime }

  unfoldable pub run : List Happening → System → System
  unfolding happen
  run [] w = w
  run (h ∷ hs) w = run hs (happen h w)
