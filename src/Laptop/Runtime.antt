-- ===== src/Laptop/Runtime.antt =====
-- laptop-bridge/src/bridge-runtime.ts and upstream-client.ts. A method that waits is cut in two where
-- it waits: what it does before, and what it does with the outcome. `details` of an event and the log
-- lines aside, a step is a callback of the source. Times are in milliseconds.
pub mod Sound
use erg.Prelude.{
  ℕ, ◌+◌, ◌-◌, Bool, true, false, not, ◌&&◌, ◌||◌, Option, none, some, List, [], ◌∷◌, ◌++◌, map,
  Text, codes, is_some, leb, ltb, ◌==◌, if◌then◌else◌, ◌⊎◌, inl, inr,
}
use erg.Bridge.Ids.{Bytes, create_id}
use erg.Laptop.Buffer.{
  AdapterSignal, debug_error, text, sleep_wake_gap, gap_ms, HardwareBridgeEvent, Queue, enqueue,
  peek_batch, acknowledge, calculate_backoff_ms,
}

-- The fields of `LaptopBridgeConfig` that the runtime reads.
pub record LaptopBridgeConfig : Type 0 where
  pub bridge_id : Text
  pub device_id : Text
  pub upstream_max_queue_size : ℕ
  pub upstream_max_batch_size : ℕ
  pub reconnect_initial_ms : ℕ
  pub reconnect_max_ms : ℕ
  pub resume_gap_ms : ℕ

-- `listeners` counts the callbacks that were given to `adapter.onSignal`, which are never taken back.
-- A timer of one shot holds its delay.
pub record Runtime : Type 0 where
  pub queue : Queue
  pub listeners : ℕ
  pub reconnect_attempt : ℕ
  pub reconnect_timer : Option ℕ
  pub flush_timer : Bool
  pub resume_timer : Bool
  pub last_tick_ms : ℕ
  pub sequence : ℕ
  pub last_delivery_at : Option ℕ
  pub last_delivery_error : Option Text
  pub started : Bool

abbrev pub initial : ℕ → Runtime
initial now = record {
  queue = [];
  listeners = 0;
  reconnect_attempt = 0;
  reconnect_timer = none;
  flush_timer = false;
  resume_timer = false;
  last_tick_ms = now;
  sequence = 0;
  last_delivery_at = none;
  last_delivery_error = none;
  started = false;
}

-- `buildEvent`; `this.sequence++` is part of `enqueue_signal`.
unfoldable pub build_event :
    LaptopBridgeConfig → ℕ → Bytes → AdapterSignal → ℕ → HardwareBridgeEvent
unfolding create_id
build_event config now bytes signal sequence = record {
  event_id = create_id (codes "evt") bytes;
  bridge_id = config.bridge_id;
  device_id = config.device_id;
  sequence = sequence;
  occurred_at = now;
  signal = signal;
}

-- `this.buffer.enqueue(this.buildEvent(signal))`
unfoldable pub enqueue_signal : LaptopBridgeConfig → ℕ → Bytes → AdapterSignal → Runtime → Runtime
unfolding build_event enqueue
enqueue_signal config now bytes signal s = record s {
  queue =
      enqueue config.upstream_max_queue_size (build_event config now bytes signal s.sequence)
        s.queue;
  sequence = s.sequence + 1;
}

-- The callback of each listener; each draws its own bytes.
unfoldable pub on_signal : LaptopBridgeConfig → ℕ → List Bytes → AdapterSignal → Runtime → Runtime
unfolding enqueue_signal
on_signal config now [] signal s = s
on_signal config now (bytes ∷ draws) signal s =
    on_signal config now draws signal (enqueue_signal config now bytes signal s)

unfoldable pub schedule_reconnect : LaptopBridgeConfig → Runtime → Runtime
unfolding calculate_backoff_ms
schedule_reconnect config s = if not s.started || is_some s.reconnect_timer then s else record s {
  reconnect_attempt = s.reconnect_attempt + 1;
  reconnect_timer = some (
      calculate_backoff_ms s.reconnect_attempt config.reconnect_initial_ms config.reconnect_max_ms);
}

-- `tryConnect`, once `adapter.connect()` has returned, or thrown an error with a message.
unfoldable pub connect_ended : LaptopBridgeConfig → ℕ → Bytes → Option Text → Runtime → Runtime
unfolding enqueue_signal schedule_reconnect
connect_ended config now bytes none s = record s { reconnect_attempt = 0 }
connect_ended config now bytes (some message) s = schedule_reconnect config (
    enqueue_signal config now bytes
      (debug_error (codes "adapter_connect_failed") (text message) true none) s)

-- `start`, up to its wait for `tryConnect`.
unfoldable pub start : Runtime → Runtime
start s = if s.started then s else record s { started = true; listeners = s.listeners + 1 }

-- The rest of `start`.
unfoldable pub start_ended : Runtime → Runtime
start_ended s = record s { flush_timer = true; resume_timer = true }

-- The callback of the resume timer, up to its call of `tryConnect`.
unfoldable pub tick : LaptopBridgeConfig → ℕ → Bytes → Runtime → Runtime
unfolding enqueue_signal
tick config now bytes s =
    let gap = now - s.last_tick_ms in
    let ticked : Runtime = record s { last_tick_ms = now } in
    if ltb config.resume_gap_ms gap
    then enqueue_signal config now bytes
        (debug_error (codes "laptop_resume_detected") (sleep_wake_gap gap) true (some (gap_ms gap)))
        ticked
    else ticked

-- The callback of the reconnect timer, up to its call of `tryConnect`.
unfoldable pub reconnect_due : Runtime → Runtime
reconnect_due s = record s { reconnect_timer = none }

unfoldable pub stop : Runtime → Runtime
stop s = record s {
  started = false;
  reconnect_timer = none;
  flush_timer = false;
  resume_timer = false;
}

-- The answer of the bridge to a delivery.
pub record UpstreamResponse : Type 0 where
  pub status : ℕ
  pub accepted_event_ids : List Text
  pub duplicate_event_ids : List Text
  pub rejected_events : List (Text × Text)

pub data Delivery : Type 0 where
  delivered : List Text → Delivery
  failed : Text → Delivery

-- `deliver` of the client, with what `fetch` gave: an answer, or an error with a message. The ids are
-- in the order in which `flush` joins them.
unfoldable pub deliver : UpstreamResponse ⊎ Text → Delivery
deliver (inr message) = failed message
deliver (inl response) =
    if not (leb 200 response.status && leb response.status 299)
      && not (response.status == 207)
      && not (response.status == 202)
    then failed (codes "Laptop bridge upstream delivery failed")
    else delivered (
        response.accepted_event_ids
        ++ response.duplicate_event_ids
        ++ map (λ event. event.0) response.rejected_events)

-- `flush`, once the delivery of the batch that it had read has ended.
unfoldable pub flush_ended : ℕ → Delivery → Runtime → Runtime
unfolding acknowledge
flush_ended now (delivered event_ids) s = record s {
  queue = acknowledge event_ids s.queue;
  last_delivery_at = some now;
  last_delivery_error = none;
}
flush_ended now (failed message) s = record s { last_delivery_error = some message }

pub data Step : Type 0 where
  signalled : ℕ → List Bytes → AdapterSignal → Step
  started : Step
  connection_ended : ℕ → Bytes → Option Text → Step
  starting_ended : Step
  ticked : ℕ → Bytes → Step
  reconnecting : Step
  delivery_ended : ℕ → UpstreamResponse ⊎ Text → Step
  stopped : Step

unfoldable pub step : LaptopBridgeConfig → Step → Runtime → Runtime
unfolding on_signal start connect_ended start_ended tick reconnect_due deliver flush_ended stop
step config (signalled now draws signal) s = on_signal config now draws signal s
step config started s = start s
step config (connection_ended now bytes outcome) s = connect_ended config now bytes outcome s
step config starting_ended s = start_ended s
step config (ticked now bytes) s = tick config now bytes s
step config reconnecting s = reconnect_due s
step config (delivery_ended now outcome) s = flush_ended now (deliver outcome) s
step config stopped s = stop s

unfoldable pub run : LaptopBridgeConfig → List Step → Runtime → Runtime
unfolding step
run config [] s = s
run config (e ∷ steps) s = run config steps (step config e s)
