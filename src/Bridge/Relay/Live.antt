-- ===== src/Bridge/Relay/Live.antt =====
-- relay.ts: the connection whose heartbeat runs is the active one of its device.
pub mod Binding
pub mod Steps
pub mod Quiet
use erg.Prelude.{
  ℕ, ◌+◌, ◌-◌, leb, ◌≡◌, ◌≢◌, refl, sym, subst, ap, ◌∙◌, Bool, true, false, Option, none, some,
  List, [], ◌∷◌, Text, Map, codes, arith, get, set, get-set, get-set_self, remove, text_eq,
  text_eq_iff, Option-cases, Bool-cases, inl, inr, if◌then◌else◌,
}
use erg.Bridge.Store.Coherent.{Keyed, Keyed-set}
use erg.Bridge.Ids.{Bytes, create_id}
use erg.Bridge.Services.Access.{ConsumedWebSocketTicket}
use erg.Bridge.Relay.{
  RelayConnection, Frame, revoked, Relay, RelayConfig, put, follow, active, send_json, is_same,
  cleanup_connection, close_and_cleanup, schedule_token_expiring, close_existing, new_connection,
  bind_connection, revoke_active, revoke_device, newest_connection_close_code, revoked_close_code,
  stale_connection_close_code,
}

-- An object may be written if its heartbeat is off or it is the active one of its device.
abbrev pub Sits : Relay → RelayConnection → Type 0
Sits s c = c.heartbeat_timer ≡ true → get s.active_connections c.device_id ≡ some c.connection_id

pub record IsLive (s : Relay) : Type 0 where
  pub keyed : Keyed (λ c. c.connection_id) s.connections
  pub live :
      (id : Text) (c : RelayConnection)
      → get s.connections id ≡ some c
      → c.heartbeat_timer ≡ true
      → get s.active_connections c.device_id ≡ some id

pub found-Sits :
    (s : Relay) (id : Text) (c : RelayConnection)
    → IsLive s
    → get s.connections id ≡ some c
    → Sits s c
found-Sits s id c l found on = cc (l.live id c found on, l.keyed id c found)

pub put-IsLive : (c : RelayConnection) (s : Relay) → IsLive s → Sits s c → IsLive (put c s)
unfolding put
put-IsLive c s l sits = record {
  keyed = Keyed-set (λ c. c.connection_id) s.connections c l.keyed;
  live = λ id d found on. ground (
    arith,
    get-set s.connections c.connection_id c id,
    text_eq_iff c.connection_id id,
    l.live id d,
    sits,
    found,
    on,
  );
}

pub send_json-IsLive :
    (c : RelayConnection) (f : Frame) (s : Relay) → IsLive s → IsLive (send_json c f s)
unfolding send_json
send_json-IsLive c f s l = elim (Bool-cases c.is_open) [
  | inl on ↦ simp on (record { keyed = l.keyed; live = l.live })
  | inr off ↦ simp off l
]

get-remove :
    {V : Type 0} (m : Map V) (k j : Text) → text_eq k j ≡ false → get (remove m k) j ≡ get m j
unfolding get remove
get-remove [] k j h = refl
get-remove ((i, v) ∷ m) k j h =
    ground (arith, get-remove m k j h, text_eq_iff i k, text_eq_iff i j, text_eq_iff k j)

is_same_lem : (o : Option Text) (id : Text) → is_same o id ≡ true → o ≡ some id
is_same_lem none id h = absurd (ground arith)
is_same_lem (some other) id h = cc ((text_eq_iff other id).0 h)

pub cleanup_connection-IsLive :
    (now : ℕ) (bytes : Bytes) (c : RelayConnection) (code : Option ℕ) (s : Relay)
    → IsLive s
    → IsLive (cleanup_connection now bytes c code s)
unfolding cleanup_connection put
cleanup_connection-IsLive now bytes c code s l =
    let quiet : RelayConnection = record c { heartbeat_timer = false; expiring_timer = none } in
    let p = put-IsLive quiet s l (λ on. absurd (ground arith)) in
    elim (Bool-cases (is_same (get s.active_connections c.device_id) c.connection_id)) [
      | inr old ↦ rw old p
      | inl own ↦
          let at = is_same_lem (get s.active_connections c.device_id) c.connection_id own in
          rw own (record {
            keyed = p.keyed;
            live = λ id d found on. elim (Bool-cases (text_eq c.device_id d.device_id)) [
              | inl here ↦
                  let same = (text_eq_iff c.device_id d.device_id).0 here in
                  let is : id ≡ c.connection_id = ground (arith, p.live id d found on, at, same) in
                  absurd (
                    ground (arith, is, found, on, get-set_self s.connections c.connection_id quiet))
              | inr there ↦
                  get-remove s.active_connections c.device_id d.device_id there
                  ∙ p.live id d found on
            ];
          })
    ]

pub close_and_cleanup-IsLive :
    (now : ℕ) (bytes : Bytes) (c : RelayConnection) (code : ℕ) (s : Relay)
    → IsLive s
    → Sits s c
    → IsLive (close_and_cleanup now bytes c code s)
unfolding close_and_cleanup
close_and_cleanup-IsLive now bytes c code s l sits =
    let shut : RelayConnection = record c { is_open = false } in
    cleanup_connection-IsLive now bytes shut (some code) (put shut s) (put-IsLive shut s l sits)

-- The active connection of a device is one that may be written.
pub active-Sits :
    (s : Relay) (device_id : Text) (c : RelayConnection)
    → IsLive s
    → active s device_id ≡ some c
    → Sits s c
unfolding active
active-Sits s device_id c l found = elim (Option-cases (get s.active_connections device_id)) [
  | inl missing ↦ absurd (ground (arith, missing, found))
  | inr (id, at) ↦ found-Sits s id c l (ground (arith, at, found))
]
