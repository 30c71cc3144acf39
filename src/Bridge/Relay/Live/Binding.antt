-- ===== src/Bridge/Relay/Live/Binding.antt =====
-- relay.ts: a new connection takes the place of the old one of its device, and a revoked device loses
-- its connection.
use erg.Prelude.{
  ℕ, ◌+◌, ◌-◌, leb, ◌≡◌, ◌≢◌, refl, sym, subst, ap, ◌∙◌, true, false, Option, none, some, Text,
  codes, arith, get, set, get-set, get-set_self, text_eq, text_eq_iff, Option-cases, Bool-cases,
  inl, inr,
}
use erg.Bridge.Store.Coherent.{Keyed, Keyed-set}
use erg.Bridge.Ids.{Bytes, create_id}
use erg.Bridge.Services.Access.{ConsumedWebSocketTicket}
use erg.Bridge.Relay.{
  RelayConnection, Frame, revoked, Relay, put, active, send_json, cleanup_connection,
  close_and_cleanup, schedule_token_expiring, close_existing, new_connection, bind_connection,
  revoke_active, revoke_device, newest_connection_close_code, revoked_close_code,
}
use erg.Bridge.Relay.Live.{
  IsLive, Sits, put-IsLive, send_json-IsLive, close_and_cleanup-IsLive, active-Sits,
}

-- The object of a connection that was closed has no heartbeat.
close-quiet :
    (now : ℕ) (bytes : Bytes) (c : RelayConnection) (code : ℕ) (s : Relay)
    → (close_and_cleanup now bytes c code s).connections
      ≡ set
          (set s.connections c.connection_id (record c { is_open = false }))
          c.connection_id
          (record c { is_open = false; heartbeat_timer = false; expiring_timer = none })
unfolding close_and_cleanup cleanup_connection put
close-quiet now bytes c code s = ground arith

module _ (now : ℕ) (bytes : Bytes) (s : Relay) (device_id : Text) (l : IsLive s) where
  abbrev freed : Relay
  freed = close_existing now bytes (active s device_id) s

  freed-IsLive : IsLive freed
  unfolding close_existing
  freed-IsLive = elim (Option-cases (active s device_id)) [
    | inl missing ↦ rw missing l
    | inr (c, found) ↦ rw found (
        close_and_cleanup-IsLive now bytes c newest_connection_close_code s l
          (active-Sits s device_id c l found))
  ]

  -- No heartbeat runs for the device any more.
  freed-quiet :
      (id : Text) (c : RelayConnection)
      → get freed.connections id ≡ some c
      → c.heartbeat_timer ≡ true
      → c.device_id ≢ device_id
  unfolding close_existing active
  freed-quiet id c found on same = elim (Option-cases (active s device_id)) [
    | inl missing ↦
        let still : get s.connections id ≡ some c = ground (arith, missing, found) in
        absurd (ground (arith, l.live id c still on, same, still, missing))
    | inr (o, at) ↦
        let code = newest_connection_close_code in
        let shut : RelayConnection = record o { is_open = false } in
        let quiet : RelayConnection = record o {
          is_open = false;
          heartbeat_timer = false;
          expiring_timer = none;
        } in
        let m = set s.connections o.connection_id shut in
        let here : get (close_and_cleanup now bytes o code s).connections id ≡ some c =
          ground (arith, at, found) in
        let there = ap (λ m. get m id) (sym (close-quiet now bytes o code s)) ∙ here in
        elim (Bool-cases (text_eq o.connection_id id)) [
          | inl own ↦ absurd (ground (arith, own, there, on, get-set m o.connection_id quiet id))
          | inr other ↦
              let still : get s.connections id ≡ some c = ground (
                arith,
                other,
                there,
                get-set m o.connection_id quiet id,
                get-set s.connections o.connection_id shut id,
              ) in
              let its = l.live id c still on in
              let is : some c ≡ some o = ground (arith, its, same, still, at) in
              absurd (ground (arith, is, l.keyed id c still, other, text_eq_iff o.connection_id id))
        ]
  ]

  -- The new connection takes the place of the old one.
  bound-IsLive :
      (c : RelayConnection) (s' : Relay)
      → c.device_id ≡ device_id
      → s'.connections ≡ set freed.connections c.connection_id c
      → s'.active_connections ≡ set freed.active_connections c.device_id c.connection_id
      → IsLive s'
  bound-IsLive c s' own objects actives =
      let f = freed in
      let fl : IsLive f = freed-IsLive in
      record {
        keyed =
            subst (Keyed (λ c. c.connection_id)) (sym objects)
              (Keyed-set (λ c. c.connection_id) f.connections c fl.keyed);
        live = λ id d found on.
            let at = ap (λ m. get m id) (sym objects) ∙ found in
            ap (λ m. get m d.device_id) actives ∙ elim (Bool-cases (text_eq c.connection_id id)) [
              | inl new ↦ ground (
                arith,
                new,
                at,
                text_eq_iff c.connection_id id,
                get-set f.connections c.connection_id c id,
                get-set_self f.active_connections c.device_id c.connection_id,
              )
              | inr old ↦
                  let still : get f.connections id ≡ some d =
                    ground (arith, old, at, get-set f.connections c.connection_id c id) in
                  let other = freed-quiet id d still on in
                  ground (
                    arith,
                    fl.live id d still on,
                    other,
                    own,
                    text_eq_iff c.device_id d.device_id,
                    get-set f.active_connections c.device_id c.connection_id d.device_id,
                  )
            ];
      }

schedule-IsLive :
    (now : ℕ) (c : RelayConnection) (s : Relay)
    → IsLive s
    → Sits s c
    → IsLive (schedule_token_expiring now c s)
unfolding schedule_token_expiring
schedule-IsLive now c s l sits =
    let timed : RelayConnection = record c {
      expiring_timer = some (c.access_expires_at - now - 60000);
    } in
    elim (Bool-cases (leb c.access_expires_at (now + 60000))) [
      | inl soon ↦ rw soon (send_json-IsLive c _ s l)
      | inr later ↦ rw later (put-IsLive timed s l sits)
    ]

pub bind_connection-IsLive :
    (now : ℕ) (id_bytes old_bytes new_bytes : Bytes) (ip : Option Text)
    (ticket : ConsumedWebSocketTicket) (s : Relay)
    → IsLive s
    → IsLive (bind_connection now id_bytes old_bytes new_bytes ip ticket s)
unfolding bind_connection put
bind_connection-IsLive now id_bytes old_bytes new_bytes ip ticket s l =
    let c = new_connection now (create_id (codes "con") id_bytes) ip ticket in
    let f = close_existing now old_bytes (active s ticket.device_id) s in
    schedule-IsLive now c _ (bound-IsLive now old_bytes s ticket.device_id l c _ refl refl refl)
      (λ on. get-set_self f.active_connections c.device_id c.connection_id)

send_json-Sits :
    (c d : RelayConnection) (f : Frame) (s : Relay) → Sits s d → Sits (send_json c f s) d
unfolding send_json
send_json-Sits c d f s sits on = ground (arith, sits on)

revoke_active-IsLive :
    (now : ℕ) (bytes : Bytes) (reason : Text) (o : Option RelayConnection) (s : Relay)
    → IsLive s
    → ((c : RelayConnection) → o ≡ some c → Sits s c)
    → IsLive (revoke_active now bytes reason o s)
unfolding revoke_active
revoke_active-IsLive now bytes reason none s l sits = l
revoke_active-IsLive now bytes reason (some c) s l sits =
    close_and_cleanup-IsLive now bytes c revoked_close_code (send_json c (revoked reason) s)
      (send_json-IsLive c (revoked reason) s l)
      (send_json-Sits c c (revoked reason) s (sits c refl))

pub revoke_device-IsLive :
    (now : ℕ) (bytes : Bytes) (device_id reason : Text) (s : Relay)
    → IsLive s
    → IsLive (revoke_device now bytes device_id reason s)
unfolding revoke_device
revoke_device-IsLive now bytes device_id reason s l =
    revoke_active-IsLive now bytes reason (active s device_id) s l
      (λ c found. active-Sits s device_id c l found)
