-- ===== src/Bridge/Ingest/Dedup/Once.antt =====
-- hardware-bridge-ingest.ts: the answers to a batch, and that an id is accepted once.
use erg.Prelude.{
  ℕ, ◌+◌, ◌<◌, ◌≤◌, ◌≡◌, refl, true, false, Option, none, some, List, [], ◌∷◌, Text, arith, get,
  length, Distinct, is_empty, trim, ltb, Bool-cases, inl, inr, All,
}
use erg.Bridge.Store.{contains}
use erg.Bridge.Store.Cleanup.Sweeps.{get-sweep, Distinct-sweep}
use erg.Bridge.Ingest.{
  HardwareBridgeEvent, Batch, Response, Config, Seen, Reason, batch_bridge_id_required,
  events_required, exceeds_max_size, whole_batch, ingest_array, ingest_events, expired,
  cleanup_expired, ingest,
}
use erg.Bridge.Ingest.Dedup.{
  answers, ingest_events-answers, ingest_events-known, ingest_events-accepted,
  ingest_events-Distinct,
}

-- A batch with an id, and with events within the maximum, gets as many answers as it has events:
-- the accepted, the duplicate and the rejected ones add up.
pub ingest-answers :
    (config : Config) (now : ℕ) (batch : Batch) (seen : Seen)
    (events : List (Option HardwareBridgeEvent))
    → is_empty (trim batch.bridge_id) ≡ false
    → batch.events ≡ some events
    → 0 < length events
    → length events ≤ config.hardware_bridge_max_batch_size
    → answers (ingest config now batch seen).1 ≡ length events
unfolding ingest
ingest-answers config now batch seen [] named given some_events within = absurd (omega arith)
ingest-answers config now batch seen (e ∷ events) named given some_events within =
    let until = now + config.hardware_bridge_dedup_ttl_ms in
    ground (
      arith,
      named,
      given,
      ingest_events-answers until batch.bridge_id (cleanup_expired now seen) (e ∷ events),
    )

module _ (config : Config) (now : ℕ) where
  -- A batch is refused as a whole, or goes through the loop.
  module _ (P : Seen × Response → Type 0) (bridge_id : Text) (fresh : Seen)
      (refused : (reason : Reason) → P (fresh, whole_batch reason))
      (looped : (events : List (Option HardwareBridgeEvent))
        → P (
            ingest_events (now + config.hardware_bridge_dedup_ttl_ms) bridge_id fresh events)) where
    ingest_array-cases :
        (events : Option (List (Option HardwareBridgeEvent)))
        → P (ingest_array config now bridge_id fresh events)
    unfolding ingest_array
    ingest_array-cases none = refused events_required
    ingest_array-cases (some []) = refused events_required
    ingest_array-cases (some (e ∷ events)) =
        elim (Bool-cases (ltb config.hardware_bridge_max_batch_size (length (e ∷ events)))) [
          | inl large ↦ rw large (refused (exceeds_max_size config.hardware_bridge_max_batch_size))
          | inr small ↦ rw small (looped (e ∷ events))
        ]

  ingest-cases :
      (P : Seen × Response → Type 0) (batch : Batch) (seen : Seen)
      → ((reason : Reason) → P (cleanup_expired now seen, whole_batch reason))
      → ((events : List (Option HardwareBridgeEvent))
          → P (
              ingest_events
                (now + config.hardware_bridge_dedup_ttl_ms)
                batch.bridge_id
                (cleanup_expired now seen)
                events))
      → P (ingest config now batch seen)
  unfolding ingest
  ingest-cases P batch seen refused looped = elim (Bool-cases (is_empty (trim batch.bridge_id))) [
    | inl blank ↦ rw blank (refused batch_bridge_id_required)
    | inr named ↦ rw named (
        ingest_array-cases P batch.bridge_id (cleanup_expired now seen) refused looped batch.events)
  ]

  cleanup-known :
      (seen : Seen) (id : Text) (exp : ℕ)
      → Distinct seen
      → get seen id ≡ some exp
      → now < exp
      → get (cleanup_expired now seen) id ≡ some exp
  unfolding cleanup_expired
  cleanup-known seen id exp d known time = ground (arith, get-sweep (expired now) seen id d, known)

  -- A batch at a time when the id is still remembered.
  ingest-known :
      (batch : Batch) (seen : Seen) (id : Text) (exp : ℕ)
      → Distinct seen
      → get seen id ≡ some exp
      → now < exp
      → let (after, r) = ingest config now batch seen in
        (get after id ≡ some exp) × (contains r.accepted_event_ids id ≡ false)
  unfolding contains
  ingest-known batch seen id exp d known time =
      let kept = cleanup-known seen id exp d known time in
      ingest-cases (λ x. (get x.0 id ≡ some exp) × (contains x.1.accepted_event_ids id ≡ false))
        batch seen (λ reason. (kept, refl))
        (λ events. ingest_events-known _ batch.bridge_id events _ id exp kept)

  ingest-accepted :
      (batch : Batch) (seen : Seen) (id : Text)
      → contains (ingest config now batch seen).1.accepted_event_ids id ≡ true
      → get (ingest config now batch seen).0 id ≡ some (now + config.hardware_bridge_dedup_ttl_ms)
  unfolding contains
  ingest-accepted batch seen id =
      ingest-cases
        (λ x.
          contains x.1.accepted_event_ids id ≡ true
          → get x.0 id ≡ some (now + config.hardware_bridge_dedup_ttl_ms))
        batch seen (λ reason inside. absurd (ground arith))
        (λ events. ingest_events-accepted _ batch.bridge_id events _ id)

  ingest-Distinct :
      (batch : Batch) (seen : Seen) → Distinct seen → Distinct (ingest config now batch seen).0
  unfolding cleanup_expired
  ingest-Distinct batch seen d =
      let fresh = Distinct-sweep (expired now) seen d in
      ingest-cases (λ x. Distinct x.0) batch seen (λ reason. fresh)
        (λ events. ingest_events-Distinct _ batch.bridge_id events _ fresh)

-- The batches that follow, at their times: the lists of the ids that are accepted.
pub accepted_later : Config → List (ℕ × Batch) → Seen → List (List Text)
accepted_later config [] seen = []
accepted_later config ((now, batch) ∷ rest) seen =
    let (after, r) = ingest config now batch seen in
    r.accepted_event_ids ∷ accepted_later config rest after

known-accepted_later :
    (config : Config) (rest : List (ℕ × Batch)) (seen : Seen) (id : Text) (exp : ℕ)
    → Distinct seen
    → get seen id ≡ some exp
    → All (λ b. b.0 < exp) rest
    → All (λ ids. contains ids id ≡ false) (accepted_later config rest seen)
unfolding accepted_later
known-accepted_later config [] seen id exp d known times = tt
known-accepted_later config ((now, batch) ∷ rest) seen id exp d known (time, times) =
    let (kept, absent) = ingest-known config now batch seen id exp d known time in
    (
      absent,
      known-accepted_later config rest (ingest config now batch seen).0 id exp
          (ingest-Distinct config now batch seen d) kept times,
    )

-- An event is accepted once: after a batch in which its id was accepted, no batch before the time to
-- live of that id has passed accepts it again, whatever else is sent in between.
pub accepted_once :
    (config : Config) (now : ℕ) (batch : Batch) (rest : List (ℕ × Batch)) (seen : Seen) (id : Text)
    → Distinct seen
    → contains (ingest config now batch seen).1.accepted_event_ids id ≡ true
    → All (λ b. b.0 < now + config.hardware_bridge_dedup_ttl_ms) rest
    → All
        (λ ids. contains ids id ≡ false)
        (accepted_later config rest (ingest config now batch seen).0)
accepted_once config now batch rest seen id d first times =
    known-accepted_later config rest (ingest config now batch seen).0 id
      (now + config.hardware_bridge_dedup_ttl_ms) (ingest-Distinct config now batch seen d)
      (ingest-accepted config now batch seen id first) times
