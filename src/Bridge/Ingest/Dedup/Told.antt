-- ===== src/Bridge/Ingest/Dedup/Told.antt =====
-- hardware-bridge-ingest.ts: the ids that the answer to a batch names.
use erg.Prelude.{
  ℕ, ◌+◌, ◌≤◌, ◌≡◌, ◌∙◌, refl, sym, ap, Bool, false, ◌||◌, Option, some, List, [], ◌∷◌, ◌++◌, map,
  Text, arith, All, length, is_empty, trim, text_eq,
}
use erg.Bridge.Store.{contains}
use erg.Bridge.Ingest.{
  HardwareBridgeEvent, Batch, Response, Config, Seen, Reason, Verdict, rejected, duplicate,
  accepted, judge, remember, answer, id_of, id_or_unknown, ingest_events, ingest_array, ingest,
  cleanup_expired,
}

pub contains-append :
    (xs ys : List Text) (k : Text) → contains (xs ++ ys) k ≡ (contains xs k || contains ys k)
unfolding contains
contains-append [] ys k = refl
contains-append (x ∷ xs) ys k = ground (arith, contains-append xs ys k)

-- The ids of a response, in the order in which the laptop joins them.
abbrev pub told : Response → List Text
told r =
    r.accepted_event_ids
    ++ r.duplicate_event_ids
    ++ map (λ (x : Text × Reason). x.0) r.rejected_events

abbrev rejected_ids : Response → List Text
rejected_ids r = map (λ (x : Text × Reason). x.0) r.rejected_events

told-contains :
    (r : Response) (k : Text)
    → contains (told r) k ≡ (
        (contains r.accepted_event_ids k || contains r.duplicate_event_ids k)
        || contains (rejected_ids r) k)
told-contains r k =
    contains-append (r.accepted_event_ids ++ r.duplicate_event_ids) (rejected_ids r) k
    ∙ ap (λ (b : Bool). b || contains (rejected_ids r) k)
        (contains-append r.accepted_event_ids r.duplicate_event_ids k)

-- One more id, in front of one of three lists.
first_of : (x a b c : Bool) → (((x || a) || b) || c) ≡ (x || ((a || b) || c))
first_of x a b c = ground arith

second_of : (x a b c : Bool) → ((a || (x || b)) || c) ≡ (x || ((a || b) || c))
second_of x a b c = ground arith

third_of : (x a b c : Bool) → ((a || b) || (x || c)) ≡ (x || ((a || b) || c))
third_of x a b c = ground arith

own_id : (e : Option HardwareBridgeEvent) → is_empty (id_of e) ≡ false → id_or_unknown e ≡ id_of e
own_id e named = rw named refl

told-answer :
    (v : Verdict) (e : Option HardwareBridgeEvent) (r : Response) (k : Text)
    → is_empty (id_of e) ≡ false
    → contains (told (answer v e r)) k ≡ (text_eq (id_of e) k || contains (told r) k)
unfolding contains
told-answer (rejected reason) e r k named =
    told-contains (answer (rejected reason) e r) k
    ∙ ap
        (λ (id : Text).
          (contains r.accepted_event_ids k || contains r.duplicate_event_ids k)
          || (text_eq id k || contains (rejected_ids r) k))
        (own_id e named)
    ∙ third_of (text_eq (id_of e) k) (contains r.accepted_event_ids k)
        (contains r.duplicate_event_ids k) (contains (rejected_ids r) k)
    ∙ ap (λ (b : Bool). text_eq (id_of e) k || b) (sym (told-contains r k))
told-answer duplicate e r k named =
    told-contains (answer duplicate e r) k
    ∙ second_of (text_eq (id_of e) k) (contains r.accepted_event_ids k)
        (contains r.duplicate_event_ids k) (contains (rejected_ids r) k)
    ∙ ap (λ (b : Bool). text_eq (id_of e) k || b) (sym (told-contains r k))
told-answer accepted e r k named =
    told-contains (answer accepted e r) k
    ∙ first_of (text_eq (id_of e) k) (contains r.accepted_event_ids k)
        (contains r.duplicate_event_ids k) (contains (rejected_ids r) k)
    ∙ ap (λ (b : Bool). text_eq (id_of e) k || b) (sym (told-contains r k))

-- The loop names the events' own ids.
ingest_events-told :
    (until : ℕ) (bridge_id : Text) (seen : Seen) (events : List (Option HardwareBridgeEvent))
    (k : Text)
    → All (λ e. is_empty (id_of e) ≡ false) events
    → contains (told (ingest_events until bridge_id seen events).1) k
      ≡ contains (map id_of events) k
unfolding ingest_events contains
ingest_events-told until bridge_id seen [] k named = refl
ingest_events-told until bridge_id seen (e ∷ events) k (own, named) =
    let v = judge bridge_id seen e in
    let next = remember v (id_of e) until seen in
    told-answer v e (ingest_events until bridge_id next events).1 k own
    ∙ ap (λ (b : Bool). text_eq (id_of e) k || b)
        (ingest_events-told until bridge_id next events k named)

-- A batch of the right size, whose events have ids, is answered with just these ids.
pub ingest-told :
    (config : Config) (now : ℕ) (batch : Batch) (seen : Seen) (e : Option HardwareBridgeEvent)
    (events : List (Option HardwareBridgeEvent)) (k : Text)
    → is_empty (trim batch.bridge_id) ≡ false
    → batch.events ≡ some (e ∷ events)
    → length (e ∷ events) ≤ config.hardware_bridge_max_batch_size
    → All (λ e. is_empty (id_of e) ≡ false) (e ∷ events)
    → contains (told (ingest config now batch seen).1) k ≡ contains (map id_of (e ∷ events)) k
unfolding ingest ingest_array
ingest-told config now batch seen e events k named given within ids =
    let until = now + config.hardware_bridge_dedup_ttl_ms in
    let fresh = cleanup_expired now seen in
    ground (
      arith,
      named,
      given,
      within,
      ingest_events-told until batch.bridge_id fresh (e ∷ events) k ids,
    )
