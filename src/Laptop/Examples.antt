-- ===== src/Laptop/Examples.antt =====
-- laptop-bridge/src at work on small inputs.
use erg.Prelude.{
  ℕ, ◌≤◌, ◌≡◌, refl, true, false, none, some, List, trim, [], ◌∷◌, codes, arith, length,
}
use erg.Laptop.Buffer.{
  ConnectionState, AdapterSignal, device_connection, HardwareBridgeEvent, enqueue,
}
use erg.Laptop.Buffer.Queue.{enqueue_lem}
use erg.Laptop.Runtime.{LaptopBridgeConfig, initial, Step, run}
use erg.Bridge.Ingest.{Config}
use erg.Laptop.Delivery
use erg.Laptop.Delivery.{Happening, local, reached, arrived, failed}
use erg.Laptop.Delivery.Refined.{spec_run, run_refines}
use erg.Laptop.Runtime.Sound.{IsSound, run-IsSound, stop-start_ended}

abbrev connected : AdapterSignal
connected = device_connection ConnectionState.connected none none none

abbrev event : ℕ → HardwareBridgeEvent
event n = record {
  event_id = codes "evt_01";
  bridge_id = codes "laptop";
  device_id = codes "g2";
  sequence = n;
  occurred_at = 0;
  signal = connected;
}

enqueue_lem_example :
    (enqueue 2 (event 3) (event 1 ∷ event 2 ∷ []) ≡ event 2 ∷ event 3 ∷ [])
    × (length (enqueue 2 (event 3) (event 1 ∷ event 2 ∷ [])) ≤ 2)
enqueue_lem_example = enqueue_lem 2 (event 3) (event 1 ∷ event 2 ∷ [])

abbrev config : LaptopBridgeConfig
config = record {
  bridge_id = codes "laptop";
  device_id = codes "g2";
  upstream_max_queue_size = 2;
  upstream_max_batch_size = 2;
  reconnect_initial_ms = 100;
  reconnect_max_ms = 1000;
  resume_gap_ms = 30000;
}

initial-IsSound : IsSound config (initial 0)
initial-IsSound = record { bounded = omega arith; ascending = tt; older = tt; waits = omega arith }

run-IsSound_example : IsSound config (
    run config
      (Step.started
        ∷ Step.connection_ended 1 (1 ∷ []) (some (codes "no adapter"))
        ∷ Step.starting_ended
        ∷ Step.signalled 2 ((2 ∷ []) ∷ []) connected
        ∷ Step.ticked 60000 (3 ∷ [])
        ∷ [])
      (initial 0))
run-IsSound_example =
    run-IsSound config
      (Step.started
        ∷ Step.connection_ended 1 (1 ∷ []) (some (codes "no adapter"))
        ∷ Step.starting_ended
        ∷ Step.signalled 2 ((2 ∷ []) ∷ []) connected
        ∷ Step.ticked 60000 (3 ∷ [])
        ∷ [])
      (initial 0) initial-IsSound

stop-start_ended_example :
    let t =
      run config
        (Step.started
          ∷ Step.stopped
          ∷ Step.connection_ended 1 (1 ∷ []) none
          ∷ Step.starting_ended
          ∷ [])
        (initial 0) in
    (t.started ≡ false) × (t.flush_timer ≡ true) × (t.resume_timer ≡ true)
stop-start_ended_example = stop-start_ended config 1 (1 ∷ []) none (initial 0) refl

abbrev limits : Config
limits = record { hardware_bridge_dedup_ttl_ms = 100; hardware_bridge_max_batch_size = 5 }

-- An event of the adapter is sent, its answer is lost, and it is sent again.
abbrev happenings : List Happening
happenings =
    local (Step.signalled 2 ((1 ∷ []) ∷ []) connected)
    ∷ reached 5 (event 0 ∷ [])
    ∷ failed (codes "network")
    ∷ reached 9 (event 0 ∷ [])
    ∷ arrived 0 11
    ∷ []

run_refines_example :
    (Delivery.run config limits
      (λ t. [])
      (λ r. [])
      happenings
      (record { runtime = initial 0; seen = []; answers = [] })).runtime
    ≡ (spec_run config happenings (record { runtime = initial 0; batches = [] })).runtime
run_refines_example =
    run_refines config limits (λ t. []) (λ r. []) happenings (initial 0) [] (unfold trim in refl)
      (tt, ((omega arith, (refl, tt)), (tt, ((omega arith, (refl, tt)), (tt, tt)))))
