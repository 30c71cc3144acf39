-- ===== src/Bridge/Ingest.antt =====
-- bridge/src/hardware-bridge-ingest.ts. A batch comes from JSON: any field of an event may be missing.
-- Of an event, the fields that its kind adds are only logged, and left out.
pub mod Dedup
use erg.Prelude.{
  ℕ, ◌+◌, Bool, true, false, not, Option, none, some, List, [], ◌∷◌, Text, Map, codes, get, set,
  is_some, is_empty, get_or, length, leb, ltb, if◌then◌else◌, text_eq, trim,
}
use erg.Bridge.Store.Cleanup.{sweep}

-- A sequence that is negative or not a finite number is `none`.
pub record HardwareBridgeEvent : Type 0 where
  pub event_id : Option Text
  pub bridge_id : Option Text
  pub device_id : Option Text
  pub occurred_at : Option Text
  pub sequence : Option ℕ

-- `events` is `none` if it is not an array. An entry of it may be missing.
pub record Batch : Type 0 where
  pub bridge_id : Text
  pub events : Option (List (Option HardwareBridgeEvent))

pub data Reason : Type 0 where
  batch_bridge_id_required : Reason
  events_required : Reason
  exceeds_max_size : ℕ → Reason
  event_required : Reason
  event_id_required : Reason
  bridge_id_differs : Reason
  device_id_required : Reason
  occurred_at_required : Reason
  sequence_invalid : Reason

pub record Response : Type 0 where
  pub accepted_event_ids : List Text
  pub duplicate_event_ids : List Text
  pub rejected_events : List (Text × Reason)

-- The fields of `BridgeConfig` that the service reads.
pub record Config : Type 0 where
  pub hardware_bridge_dedup_ttl_ms : ℕ
  pub hardware_bridge_max_batch_size : ℕ

-- `seenEventIds`: until when an id is remembered.
abbrev pub Seen : Type 0
Seen = Map ℕ

-- `!value?.trim()`
unfoldable pub is_blank : Option Text → Bool
unfolding trim
is_blank none = true
is_blank (some t) = is_empty (trim t)

abbrev equals : Option Text → Text → Bool
equals none u = false
equals (some t) u = text_eq t u

unfoldable pub validate_hardware_bridge_event : Option HardwareBridgeEvent → Text → Option Reason
unfolding is_blank
validate_hardware_bridge_event none bridge_id = some event_required
validate_hardware_bridge_event (some event) bridge_id =
    if is_blank event.event_id
    then some event_id_required
    else if not (equals event.bridge_id bridge_id)
    then some bridge_id_differs
    else if is_blank event.device_id
    then some device_id_required
    else if is_blank event.occurred_at
    then some occurred_at_required
    else if not (is_some event.sequence)
    then some sequence_invalid
    else none

-- `event?.event_id`, an empty text where it is missing.
abbrev pub id_of : Option HardwareBridgeEvent → Text
id_of none = []
id_of (some event) = get_or event.event_id []

-- `event?.event_id || "unknown"`
abbrev pub id_or_unknown : Option HardwareBridgeEvent → Text
id_or_unknown e = if is_empty (id_of e) then codes "unknown" else id_of e

-- What becomes of one event.
pub data Verdict : Type 0 where
  rejected : Reason → Verdict
  duplicate : Verdict
  accepted : Verdict

abbrev seen_or_new : Option ℕ → Verdict
seen_or_new none = accepted
seen_or_new (some expires_at) = duplicate

unfoldable pub judge : Text → Seen → Option HardwareBridgeEvent → Verdict
unfolding validate_hardware_bridge_event
judge bridge_id seen e = elim (validate_hardware_bridge_event e bridge_id) [
  | some reason ↦ rejected reason
  | none ↦ seen_or_new (get seen (id_of e))
]

abbrev pub remember : Verdict → Text → ℕ → Seen → Seen
remember (rejected reason) id until seen = seen
remember duplicate id until seen = seen
remember accepted id until seen = set seen id until

abbrev pub answer : Verdict → Option HardwareBridgeEvent → Response → Response
answer (rejected reason) e r = record r {
  rejected_events = (id_or_unknown e, reason) ∷ r.rejected_events;
}
answer duplicate e r = record r { duplicate_event_ids = id_of e ∷ r.duplicate_event_ids }
answer accepted e r = record r { accepted_event_ids = id_of e ∷ r.accepted_event_ids }

abbrev pub nothing : Response
nothing = record { accepted_event_ids = []; duplicate_event_ids = []; rejected_events = [] }

-- The loop over the events; each list of the response is in the order of the events.
unfoldable pub ingest_events : ℕ → Text → Seen → List (Option HardwareBridgeEvent) → Seen × Response
unfolding judge
ingest_events until bridge_id seen [] = (seen, nothing)
ingest_events until bridge_id seen (e ∷ events) =
    let verdict = judge bridge_id seen e in
    let (kept, answers) =
      ingest_events until bridge_id (remember verdict (id_of e) until seen) events in
    (kept, answer verdict e answers)

abbrev pub expired : ℕ → ℕ → Bool
expired now expires_at = leb expires_at now

unfoldable pub cleanup_expired : ℕ → Seen → Seen
unfolding sweep
cleanup_expired now seen = (sweep (expired now) seen).0

abbrev pub whole_batch : Reason → Response
whole_batch reason = record nothing { rejected_events = (codes "batch", reason) ∷ [] }

-- The checks of `events`, then the loop.
unfoldable pub ingest_array :
    Config → ℕ → Text → Seen → Option (List (Option HardwareBridgeEvent)) → Seen × Response
unfolding ingest_events
ingest_array config now bridge_id seen none = (seen, whole_batch events_required)
ingest_array config now bridge_id seen (some []) = (seen, whole_batch events_required)
ingest_array config now bridge_id seen (some (e ∷ events)) =
    if ltb config.hardware_bridge_max_batch_size (length (e ∷ events))
    then (seen, whole_batch (exceeds_max_size config.hardware_bridge_max_batch_size))
    else ingest_events (now + config.hardware_bridge_dedup_ttl_ms) bridge_id seen (e ∷ events)

unfoldable pub ingest : Config → ℕ → Batch → Seen → Seen × Response
unfolding cleanup_expired ingest_array trim
ingest config now batch seen =
    let fresh = cleanup_expired now seen in
    if is_empty (trim batch.bridge_id)
    then (fresh, whole_batch batch_bridge_id_required)
    else ingest_array config now batch.bridge_id fresh batch.events
