-- ===== src/Laptop/Delivery/Refined.antt =====
-- The delivery of events as the laptop sees it: a batch that arrives leaves the queue.
use erg.Prelude.{
  ℕ, zero, suc, get_elem?, ◌⊎◌, ◌≤◌, ◌≡◌, ◌∙◌, refl, ap, Bool, false, not, Option, none, some, List,
  [], ◌∷◌, ◌++◌, map, filter, Text, arith, All, length, is_empty, trim, inl, inr,
}
use erg.Bridge.Store.{contains}
use erg.Bridge.Ingest.{Response, Config, Seen, Reason, ingest, id_of}
use erg.Bridge.Ingest.Dedup.Told.{told, ingest-told}
use erg.Bridge.Server.Routes.{batch_status}
use erg.Laptop.Buffer.{HardwareBridgeEvent, Queue, acknowledge}
use erg.Laptop.Runtime.{LaptopBridgeConfig, Runtime, delivered, deliver, flush_ended, Step, step}
use erg.Laptop.Delivery.{
  System, Happening, local, reached, arrived, failed, take_answer, wire, request_body, response_of,
  happen, run,
}

abbrev ids_of : Queue → List Text
ids_of batch = map (λ (b : HardwareBridgeEvent). b.event_id) batch

abbrev is_kept : Queue → HardwareBridgeEvent → Bool
is_kept batch e = not (contains (ids_of batch) e.event_id)

-- The abstract delivery, which knows of no bridge: batches are under way, the latest first, and one that
-- arrives is taken out of the queue.
pub record Abstract : Type 0 where
  pub runtime : Runtime
  pub batches : List Queue

abbrev remove : ℕ → Option Queue → Runtime → Runtime
remove ended none s = s
remove ended (some batch) s = record s {
  queue = filter (is_kept batch) s.queue;
  last_delivery_at = some ended;
  last_delivery_error = none;
}

pub spec : LaptopBridgeConfig → Happening → Abstract → Abstract
spec config (local e) a = record a { runtime = step config e a.runtime }
spec config (reached now batch) a = record a { batches = batch ∷ a.batches }
spec config (arrived i ended) a = record a {
  runtime = remove ended (get_elem? a.batches i) a.runtime;
}
spec config (failed error) a = record a {
  runtime = record a.runtime { last_delivery_error = some error };
}

pub spec_run : LaptopBridgeConfig → List Happening → Abstract → Abstract
unfolding spec
spec_run config [] a = a
spec_run config (h ∷ hs) a = spec_run config hs (spec config h a)

-- A batch as `flush` reads it: not empty, no longer than the bridge allows, of events with ids.
abbrev pub IsBatch : Config → Queue → Type 0
IsBatch limits [] = ⊥
IsBatch limits (e ∷ batch) =
    (length (e ∷ batch) ≤ limits.hardware_bridge_max_batch_size)
    × All (λ (b : HardwareBridgeEvent). is_empty b.event_id ≡ false) (e ∷ batch)

-- The deliveries of the laptop all go through the bridge.
abbrev pub IsSendable : Config → Happening → Type 0
IsSendable limits (reached now batch) = IsBatch limits batch
IsSendable limits (local (Step.delivery_ended now outcome)) = ⊥
IsSendable limits _ = Unit

acknowledge-filter :
    (xs ys : List Text) (queue : Queue)
    → ((k : Text) → contains xs k ≡ contains ys k)
    → acknowledge xs queue
      ≡ filter (λ (e : HardwareBridgeEvent). not (contains ys e.event_id)) queue
unfolding acknowledge
acknowledge-filter xs ys [] same = refl
acknowledge-filter xs ys (e ∷ queue) same =
    ground (arith, same e.event_id, acknowledge-filter xs ys queue same)

module _ (config : LaptopBridgeConfig) (limits : Config) (iso : ℕ → Text)
    (message : Reason → Text) where
  wire-ids : (batch : Queue) → map id_of (map (wire config limits iso message) batch) ≡ ids_of batch
  wire-ids [] = refl
  wire-ids (e ∷ batch) = ap (◌∷◌ e.event_id) (wire-ids batch)

  wire-All :
      (batch : Queue)
      → All (λ (b : HardwareBridgeEvent). is_empty b.event_id ≡ false) batch
      → All (λ e. is_empty (id_of e) ≡ false) (map (wire config limits iso message) batch)
  wire-All [] h = tt
  wire-All (e ∷ batch) (own, h) = (own, wire-All batch h)

  length-wire : (batch : Queue) → length (map (wire config limits iso message) batch) ≡ length batch
  length-wire [] = refl
  length-wire (e ∷ batch) = ap suc (length-wire batch)

  rejected-ids :
      (xs : List (Text × Reason))
      → map (λ (x : Text × Text). x.0) (map (λ (x : Text × Reason). (x.0, message x.1)) xs)
        ≡ map (λ (x : Text × Reason). x.0) xs
  rejected-ids [] = refl
  rejected-ids (x ∷ xs) = ap (◌∷◌ x.0) (rejected-ids xs)

  -- The route answers 202 or 207, which the laptop both takes.
  status-cases :
      (r : Response) (xs : List (Text × Reason))
      → (batch_status (record r { rejected_events = xs }) ≡ 202)
        ⊎ (batch_status (record r { rejected_events = xs }) ≡ 207)
  status-cases r [] = inl refl
  status-cases r (x ∷ xs) = inr refl

  deliver-told :
      (r : Response) → deliver (inl (response_of config limits iso message r)) ≡ delivered (told r)
  unfolding deliver
  deliver-told r =
      let same =
        ap (λ (ids : List Text). delivered (r.accepted_event_ids ++ r.duplicate_event_ids ++ ids))
          (rejected-ids r.rejected_events) in
      elim (status-cases r r.rejected_events) [ inl e ↦ rw e same | inr e ↦ rw e same ]

  -- An answer that names just the events of a batch.
  abbrev Names : Response → Queue → Type 0
  Names r batch = (k : Text) → contains (told r) k ≡ contains (ids_of batch) k

  ingest-Names :
      (now : ℕ) (batch : Queue) (seen : Seen)
      → is_empty (trim config.bridge_id) ≡ false
      → IsBatch limits batch
      → Names (ingest limits now (request_body config limits iso message batch) seen).1 batch
  ingest-Names now [] seen named h k = absurd h
  ingest-Names now (e ∷ batch) seen named h k =
      let send = wire config limits iso message in
      ingest-told limits now (request_body config limits iso message (e ∷ batch)) seen (send e)
        (map send batch) k named refl (rw (length-wire batch) h.0) (wire-All (e ∷ batch) h.1)
      ∙ ap (λ ids. contains ids k) (wire-ids (e ∷ batch))

  -- The answers that were given, against the batches that are under way.
  abbrev AllName : List Response → List Queue → Type 0
  AllName [] [] = Unit
  AllName (r ∷ rs) (b ∷ bs) = Names r b × AllName rs bs
  AllName _ _ = ⊥

  taken :
      (ended : ℕ) (rs : List Response) (bs : List Queue) (i : ℕ) (s : Runtime)
      → AllName rs bs
      → take_answer config limits iso message ended (get_elem? rs i) s
        ≡ remove ended (get_elem? bs i) s
  unfolding flush_ended
  taken ended [] [] i s h = refl
  taken ended (r ∷ rs) (b ∷ bs) zero s h = rw (deliver-told r) (
      ap
        (λ (queue : Queue). record s {
          queue = queue;
          last_delivery_at = some ended;
          last_delivery_error = none;
        })
        (acknowledge-filter (told r) (ids_of b) s.queue h.0))
  taken ended (r ∷ rs) (b ∷ bs) (suc i) s h = taken ended rs bs i s h.1
  taken ended [] (b ∷ bs) i s h = absurd h
  taken ended (r ∷ rs) [] i s h = absurd h

  -- What the simulation keeps.
  record Simulates (w : System) (a : Abstract) : Type 0 where
    same : w.runtime ≡ a.runtime
    named : AllName w.answers a.batches

  happen-Simulates :
      (h : Happening) (w : System) (a : Abstract)
      → is_empty (trim config.bridge_id) ≡ false
      → IsSendable limits h
      → Simulates w a
      → Simulates (happen config limits iso message h w) (spec config h a)
  unfolding happen spec flush_ended deliver
  happen-Simulates (local e) w a id own z = record {
    same = ap (λ (s : Runtime). step config e s) z.same;
    named = z.named;
  }
  happen-Simulates (reached now batch) w a id own z = record {
    same = z.same;
    named = (ingest-Names now batch w.seen id own, z.named);
  }
  happen-Simulates (arrived i ended) w a id own z = record {
    same =
        taken ended w.answers a.batches i w.runtime z.named
        ∙ ap (λ (s : Runtime). remove ended (get_elem? a.batches i) s) z.same;
    named = z.named;
  }
  happen-Simulates (failed error) w a id own z = record {
    same = ap (λ (s : Runtime). record s { last_delivery_error = some error }) z.same;
    named = z.named;
  }

  run-Simulates :
      (hs : List Happening) (w : System) (a : Abstract)
      → is_empty (trim config.bridge_id) ≡ false
      → All (IsSendable limits) hs
      → Simulates w a
      → Simulates (run config limits iso message hs w) (spec_run config hs a)
  unfolding run spec_run
  run-Simulates [] w a id own z = z
  run-Simulates (h ∷ hs) w a id (own, rest) z =
      run-Simulates hs (happen config limits iso message h w) (spec config h a) id rest
        (happen-Simulates h w a id own z)

  -- The laptop and the bridge together refine the abstract delivery: whatever batches reach the bridge,
  -- in whatever order its answers arrive and whichever are lost, the laptop is always in the state in
  -- which each batch whose answer arrived was taken out of its queue, and nothing else. The batches
  -- have to be such as the bridge takes as a whole: not empty, not too long, and of events with ids.
  pub run_refines :
      (hs : List Happening) (s : Runtime) (seen : Seen)
      → is_empty (trim config.bridge_id) ≡ false
      → All (IsSendable limits) hs
      → (run config limits iso message hs
          (record { runtime = s; seen = seen; answers = [] })).runtime
        ≡ (spec_run config hs (record { runtime = s; batches = [] })).runtime
  run_refines hs s seen id own =
      (run-Simulates hs (record { runtime = s; seen = seen; answers = [] })
        (record { runtime = s; batches = [] }) id own (record { same = refl; named = tt })).same
