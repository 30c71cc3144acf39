-- ===== src/Laptop/Runtime/Sound.antt =====
-- bridge-runtime.ts: the queue and the timer through every series of callbacks.
use erg.Prelude.{
  ℕ, ◌+◌, ◌-◌, not, ◌||◌, is_some, ltb, Bool-cases, inl, inr, ◌≤◌, ◌<◌, ◌≡◌, true, false, Option,
  none, some, List, [], ◌∷◌, Text, arith, length, All, get_or,
}
use erg.Bridge.Ids.{Bytes}
use erg.Laptop.Buffer.{AdapterSignal, Queue, calculate_backoff_ms}
use erg.Laptop.Buffer.Queue.{
  enqueue_lem, acknowledge-length, All-enqueue, All-acknowledge, Ascending, enqueue-Ascending,
  acknowledge-Ascending,
}
use erg.Laptop.Runtime.{
  LaptopBridgeConfig, Runtime, build_event, enqueue_signal, on_signal, schedule_reconnect,
  connect_ended, start, start_ended, tick, reconnect_due, stop, Delivery, delivered, failed,
  deliver, flush_ended, Step, step, run,
}

-- The queue is within its bound, its events are in the order of their numbers and older than the next
-- one, and the wait for a reconnection is within its bound.
pub record IsSound (config : LaptopBridgeConfig) (s : Runtime) : Type 0 where
  pub bounded : length s.queue ≤ config.upstream_max_queue_size
  pub ascending : Ascending s.queue
  pub older : All (λ e. e.sequence < s.sequence) s.queue
  pub waits : get_or s.reconnect_timer 0 ≤ config.reconnect_max_ms

All-older : (n : ℕ) (q : Queue) → All (λ e. e.sequence < n) q → All (λ e. e.sequence < n + 1) q
All-older n [] all = tt
All-older n (e ∷ q) (lt, all) = (omega arith, All-older n q all)

module _ (config : LaptopBridgeConfig) where
  enqueue_signal-IsSound :
      (now : ℕ) (bytes : Bytes) (signal : AdapterSignal) (s : Runtime)
      → IsSound config s
      → IsSound config (enqueue_signal config now bytes signal s)
  unfolding enqueue_signal build_event
  enqueue_signal-IsSound now bytes signal s k =
      let e = build_event config now bytes signal s.sequence in
      record {
        bounded = (enqueue_lem config.upstream_max_queue_size e s.queue).1;
        ascending = enqueue-Ascending config.upstream_max_queue_size e s.queue k.ascending k.older;
        older =
            All-enqueue (λ f. f.sequence < s.sequence + 1) config.upstream_max_queue_size e s.queue
              (omega arith) (All-older s.sequence s.queue k.older);
        waits = k.waits;
      }

  on_signal-IsSound :
      (now : ℕ) (draws : List Bytes) (signal : AdapterSignal) (s : Runtime)
      → IsSound config s
      → IsSound config (on_signal config now draws signal s)
  unfolding on_signal
  on_signal-IsSound now [] signal s k = k
  on_signal-IsSound now (bytes ∷ draws) signal s k =
      on_signal-IsSound now draws signal (enqueue_signal config now bytes signal s)
        (enqueue_signal-IsSound now bytes signal s k)

  schedule_reconnect-IsSound :
      (s : Runtime) → IsSound config s → IsSound config (schedule_reconnect config s)
  unfolding schedule_reconnect calculate_backoff_ms
  schedule_reconnect-IsSound s k = elim (Bool-cases (not s.started || is_some s.reconnect_timer)) [
    | inl skip ↦ rw skip k
    | inr due ↦ rw due (record {
      bounded = k.bounded;
      ascending = k.ascending;
      older = k.older;
      waits = omega arith;
    })
  ]

  connect_ended-IsSound :
      (now : ℕ) (bytes : Bytes) (outcome : Option Text) (s : Runtime)
      → IsSound config s
      → IsSound config (connect_ended config now bytes outcome s)
  unfolding connect_ended
  connect_ended-IsSound now bytes none s k = record {
    bounded = k.bounded;
    ascending = k.ascending;
    older = k.older;
    waits = k.waits;
  }
  connect_ended-IsSound now bytes (some message) s k =
      schedule_reconnect-IsSound _ (enqueue_signal-IsSound now bytes _ s k)

  start-IsSound : (s : Runtime) → IsSound config s → IsSound config (start s)
  unfolding start
  start-IsSound s k = elim (Bool-cases s.started) [
    | inl on ↦ simp on k
    | inr off ↦
        simp off (record {
          bounded = k.bounded;
          ascending = k.ascending;
          older = k.older;
          waits = k.waits;
        })
  ]

  tick-IsSound :
      (now : ℕ) (bytes : Bytes) (s : Runtime)
      → IsSound config s
      → IsSound config (tick config now bytes s)
  unfolding tick
  tick-IsSound now bytes s k =
      let t : Runtime = record s { last_tick_ms = now } in
      let same : IsSound config t = record {
        bounded = k.bounded;
        ascending = k.ascending;
        older = k.older;
        waits = k.waits;
      } in
      elim (Bool-cases (ltb config.resume_gap_ms (now - s.last_tick_ms))) [
        | inl long ↦ rw long (enqueue_signal-IsSound now bytes _ t same)
        | inr short ↦ rw short same
      ]

  flush_ended-IsSound :
      (now : ℕ) (d : Delivery) (s : Runtime)
      → IsSound config s
      → IsSound config (flush_ended now d s)
  unfolding flush_ended
  flush_ended-IsSound now (delivered ids) s k = record {
    bounded = omega (arith, acknowledge-length ids s.queue, k.bounded);
    ascending = acknowledge-Ascending ids s.queue k.ascending;
    older = All-acknowledge (λ e. e.sequence < s.sequence) ids s.queue k.older;
    waits = k.waits;
  }
  flush_ended-IsSound now (failed message) s k = record {
    bounded = k.bounded;
    ascending = k.ascending;
    older = k.older;
    waits = k.waits;
  }

  step-IsSound : (e : Step) (s : Runtime) → IsSound config s → IsSound config (step config e s)
  unfolding step start_ended reconnect_due stop
  step-IsSound (Step.signalled now draws signal) s k = on_signal-IsSound now draws signal s k
  step-IsSound Step.started s k = start-IsSound s k
  step-IsSound (Step.connection_ended now bytes outcome) s k =
      connect_ended-IsSound now bytes outcome s k
  step-IsSound Step.starting_ended s k = record {
    bounded = k.bounded;
    ascending = k.ascending;
    older = k.older;
    waits = k.waits;
  }
  step-IsSound (Step.ticked now bytes) s k = tick-IsSound now bytes s k
  step-IsSound Step.reconnecting s k = record {
    bounded = k.bounded;
    ascending = k.ascending;
    older = k.older;
    waits = omega arith;
  }
  step-IsSound (Step.delivery_ended now outcome) s k = flush_ended-IsSound now (deliver outcome) s k
  step-IsSound Step.stopped s k = record {
    bounded = k.bounded;
    ascending = k.ascending;
    older = k.older;
    waits = omega arith;
  }

  -- Through every series of callbacks the queue holds no more events than its maximum, oldest first
  -- in strictly ascending order of their sequence numbers and below the next number, and a
  -- reconnection waits no longer than its maximum.
  pub run-IsSound :
      (steps : List Step) (s : Runtime) → IsSound config s → IsSound config (run config steps s)
  unfolding run
  run-IsSound [] s k = k
  run-IsSound (e ∷ steps) s k = run-IsSound steps (step config e s) (step-IsSound e s k)

-- If a runtime that is not started is started, and `stop` is called while `start` waits for its first
-- connection, `start` still sets its two timers when the wait is over: the runtime is stopped, with
-- both timers running.
pub stop-start_ended :
    (config : LaptopBridgeConfig) (now : ℕ) (bytes : Bytes) (outcome : Option Text) (s : Runtime)
    → s.started ≡ false
    → let t =
        run config
          (Step.started
            ∷ Step.stopped
            ∷ Step.connection_ended now bytes outcome
            ∷ Step.starting_ended
            ∷ [])
          s in
      (t.started ≡ false) × (t.flush_timer ≡ true) × (t.resume_timer ≡ true)
unfolding run start stop connect_ended start_ended schedule_reconnect enqueue_signal
stop-start_ended config now bytes none s off = ground arith
stop-start_ended config now bytes (some message) s off = ground arith
