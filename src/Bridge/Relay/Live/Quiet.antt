-- ===== src/Bridge/Relay/Live/Quiet.antt =====
-- relay.ts: `revokeDevice` leaves no connection of its device with a heartbeat.
use erg.Prelude.{
  ℕ, ◌≡◌, ◌∙◌, refl, true, false, Option, none, some, Text, Map, arith, get, set, get-set,
  text_eq_iff, text_eq, ap, Option-cases, Bool-cases, inl, inr,
}
use erg.Bridge.Ids.{Bytes}
use erg.Bridge.Relay.{
  RelayConnection, Frame, put, revoked, Relay, active, send_json, is_same, cleanup_connection,
  close_and_cleanup, revoke_active, revoke_device, revoked_close_code,
}
use erg.Bridge.Store.{create_connection_event}
use erg.Bridge.Services.Activity.{record_connection_event}
use erg.Bridge.Relay.Live.{IsLive}

send_json-connections :
    (c : RelayConnection) (f : Frame) (s : Relay) → (send_json c f s).connections ≡ s.connections
unfolding send_json
send_json-connections c f s = ground arith

abbrev stopped : RelayConnection → RelayConnection
stopped c = record c { is_open = false; heartbeat_timer = false; expiring_timer = none }

close_and_cleanup-connections :
    (now : ℕ) (bytes : Bytes) (c : RelayConnection) (code : ℕ) (s : Relay)
    → (close_and_cleanup now bytes c code s).connections
      ≡ set
          (set s.connections c.connection_id (record c { is_open = false }))
          c.connection_id
          (stopped c)
unfolding close_and_cleanup cleanup_connection put
close_and_cleanup-connections now bytes c code s =
    elim (Bool-cases (is_same (get s.active_connections c.device_id) c.connection_id)) [
      | inl own ↦ rw own
      | inr old ↦ rw old
    ]

-- A connection of the device with a heartbeat is the active one.
live-active :
    (s : Relay) (device_id id : Text) (c : RelayConnection)
    → IsLive s
    → get s.connections id ≡ some c
    → c.device_id ≡ device_id
    → c.heartbeat_timer ≡ true
    → active s device_id ≡ some c
unfolding active
live-active s device_id id c l found own on = ground (arith, l.live id c found on, found, own)

-- The connections after the active one, if there is one, was closed.
revoke_active-connections :
    (now : ℕ) (bytes : Bytes) (reason : Text) (x : RelayConnection) (s : Relay)
    → (revoke_active now bytes reason (some x) s).connections
      ≡ set
          (set s.connections x.connection_id (record x { is_open = false }))
          x.connection_id
          (stopped x)
unfolding revoke_active
revoke_active-connections now bytes reason x s =
    close_and_cleanup-connections now bytes x revoked_close_code (send_json x (revoked reason) s)
    ∙ rw (send_json-connections x (revoked reason) s)

revoke_active-quiet :
    (now : ℕ) (bytes : Bytes) (device_id reason : Text) (o : Option RelayConnection) (s : Relay)
    (id : Text) (c : RelayConnection)
    → IsLive s
    → active s device_id ≡ o
    → get (revoke_active now bytes reason o s).connections id ≡ some c
    → c.device_id ≡ device_id
    → c.heartbeat_timer ≡ false
revoke_active-quiet now bytes device_id reason none s id c l at found own =
    elim (Bool-cases c.heartbeat_timer) [
      | inr off ↦ off
      | inl on ↦
          let live = live-active s device_id id c l (unfold revoke_active in found) own on in
          absurd (ground (arith, live, at))
    ]
revoke_active-quiet now bytes device_id reason (some x) s id c l at found own =
    let open_x : RelayConnection = record x { is_open = false } in
    let k = x.connection_id in
    let after =
      ap (λ (m : Map RelayConnection). get m id) (revoke_active-connections now bytes reason x s) in
    let outer = get-set (set s.connections k open_x) k (stopped x) id in
    let inner = get-set s.connections k open_x id in
    elim (Bool-cases (text_eq k id)) [
      | inl here ↦ ground (arith, after, outer, here, found)
      | inr there ↦ elim (Bool-cases c.heartbeat_timer) [
        | inr off ↦ off
        | inl on ↦
            let old : get s.connections id ≡ some c =
              ground (arith, after, outer, inner, there, found) in
            let live = live-active s device_id id c l old own on in
            let same : x ≡ c = cc (live, at) in
            let key : k ≡ id = cc (l.keyed id c old, same) in
            absurd (ground (arith, (text_eq_iff k id).1 key, there))
      ]
    ]

-- After the revocation of a device no connection of it has its heartbeat running.
pub revoke_device-quiet :
    (now : ℕ) (bytes : Bytes) (device_id reason : Text) (s : Relay) (id : Text)
    (c : RelayConnection)
    → IsLive s
    → get (revoke_device now bytes device_id reason s).connections id ≡ some c
    → c.device_id ≡ device_id
    → c.heartbeat_timer ≡ false
unfolding revoke_device
revoke_device-quiet now bytes device_id reason s id c l found own =
    revoke_active-quiet now bytes device_id reason (active s device_id) s id c l refl found own

-- The devices of the store are left alone.
pub revoke_device-devices :
    (now : ℕ) (bytes : Bytes) (device_id reason : Text) (s : Relay)
    → (revoke_device now bytes device_id reason s).store.devices ≡ s.store.devices
unfolding revoke_device revoke_active close_and_cleanup cleanup_connection send_json put
    record_connection_event create_connection_event
revoke_device-devices now bytes device_id reason s = elim (Option-cases (active s device_id)) [
  | inl missing ↦ rw missing
  | inr (x, at) ↦ rw at (ground arith)
]
