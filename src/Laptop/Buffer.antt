-- ===== src/Laptop/Buffer.antt =====
-- laptop-bridge/src/event-buffer.ts and backoff.ts.
pub mod Queue
use erg.Prelude.{
  ℕ, ◌*◌, ◌^◌, min, Bool, Option, List, [], ◌∷◌, ◌++◌, Text, length, take, ltb, if◌then◌else◌,
}
use erg.Bridge.Store.{contains}

pub data ConnectionState : Type 0 where
  idle scanning pairing connecting connected reconnecting disconnected absent : ConnectionState

pub data Control : Type 0 where
  tap button gesture voice unknown : Control

pub data Action : Type 0 where
  press release toggle activate unknown : Action

pub data Direction : Type 0 where
  rx tx : Direction

-- A measured number is only passed on, and is its text.
abbrev pub Number : Type 0
Number = Text

pub data Message : Type 0 where
  text : Text → Message
  -- `Detected sleep/wake gap of ${gap}ms`
  sleep_wake_gap : ℕ → Message

pub data Details : Type 0 where
  json : Text → Details
  gap_ms : ℕ → Details

-- `AdapterSignal`: what the fields of each kind of event hold.
pub data AdapterSignal : Type 0 where
  device_connection : ConnectionState → Option Text → Option Text → Option Number → AdapterSignal
  telemetry_status : Option Number → Option Bool → Option Number → Option Text → AdapterSignal
  input_control : Control → Action → Option Text → AdapterSignal
  debug_error : Text → Message → Bool → Option Details → AdapterSignal
  debug_raw_ble : Direction → Option Text → Text → AdapterSignal

pub record HardwareBridgeEvent : Type 0 where
  pub event_id : Text
  pub bridge_id : Text
  pub device_id : Text
  pub sequence : ℕ
  pub occurred_at : ℕ
  pub signal : AdapterSignal

abbrev pub Queue : Type 0
Queue = List HardwareBridgeEvent

-- `while (queue.length > maxQueueSize) queue.shift()`
unfoldable pub shrink : ℕ → Queue → Queue
shrink max_queue_size [] = []
shrink max_queue_size (e ∷ queue) =
    let rest = shrink max_queue_size queue in
    if ltb max_queue_size (length (e ∷ queue)) then rest else e ∷ queue

unfoldable pub enqueue : ℕ → HardwareBridgeEvent → Queue → Queue
unfolding shrink
enqueue max_queue_size event queue = shrink max_queue_size (queue ++ event ∷ [])

abbrev pub peek_batch : ℕ → Queue → Queue
peek_batch max_batch_size queue = take max_batch_size queue

-- The loop over the index: an event whose id was acknowledged is spliced out.
unfoldable pub acknowledge : List Text → Queue → Queue
unfolding contains
acknowledge event_ids [] = []
acknowledge event_ids (e ∷ queue) =
    let rest = acknowledge event_ids queue in
    if contains event_ids e.event_id then rest else e ∷ rest

-- `Math.min(maxMs, initialMs * 2 ** Math.max(0, attempt))`
unfoldable pub calculate_backoff_ms : ℕ → ℕ → ℕ → ℕ
calculate_backoff_ms attempt initial_ms max_ms = min max_ms (initial_ms * 2 ^ attempt)
