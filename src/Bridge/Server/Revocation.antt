-- ===== src/Bridge/Server/Revocation.antt =====
-- server.ts: the route that revokes a device, which acts on the store and on the relay.
use erg.Prelude.{
  ℕ, ◌≡◌, ◌∙◌, sym, ap, false, some, Text, arith, get, inl, inr, codes, Option-cases, subst,
}
use erg.Bridge.Ids.{Bytes}
use erg.Bridge.Store.{State, get_device_by_id}
use erg.Bridge.Store.Coherent.{IsCoherent}
use erg.Bridge.Services.Access.{RevokeInput, RevokeDeviceResponse}
use erg.Bridge.Services.Access
use erg.Bridge.Services
use erg.Bridge.Services.{Env}
use erg.Bridge.Services.Transactions.{with_transaction-ok}
use erg.Bridge.History.Revocation.Devices.{Off, StaysOff}
use erg.Bridge.History.Revocation.{revoke_device-Off}
use erg.Bridge.Relay
use erg.Bridge.Relay.{Relay, RelayConnection}
use erg.Bridge.Relay.Live.{IsLive}
use erg.Bridge.Relay.Live.Quiet.{revoke_device-quiet, revoke_device-devices}
use erg.Bridge.Server.{
  Server, Request, Result, ok, thrown, M, call, with_store, json, respond,
  require_authorization_bearer,
}
use erg.Bridge.Server.Guards.{Result-cases, >>=-ok, >>-ok, call-ok, bearer-ok, throw_if-ok}
use erg.Bridge.Server.Routes.{
  ServerConfig, require_admin, revoke_reason, revocation_handler, post_device_revoke,
}

-- What `respond` answered with a body is what its handler returned.
respond-json :
    {A : Type 0} (status status' : ℕ) (m : M A) (s : Server) (a : A)
    → (respond status m s).1 ≡ json status' a
    → m s ≡ ok a (respond status m s).0
unfolding respond
respond-json status status' m s a h = elim (Result-cases (m s)) [
  | inl (b, t, e) ↦ ground (arith, e)
  | inr (x, t, e) ↦ absurd (ground (arith, e))
]

require_admin-ok :
    (config : ServerConfig) (r : Request) (s s' : Server) (u : Unit {0})
    → require_admin config r s ≡ ok u s'
    → s' ≡ s
unfolding require_admin
require_admin-ok config r s s' u h =
    let (token, t, presented, h') = >>=-ok (require_authorization_bearer r) _ s s' u h in
    (throw_if-ok _ _ t s' u h').1 ∙ (bearer-ok r s t token presented).1

-- What is left when a revocation is over: the device is not active, and no connection of it has its
-- heartbeat running.
pub record IsRevoked (device_id : Text) (s : Server) : Type 0 where
  pub stored : StaysOff device_id s.relay.store
  pub quiet :
      (id : Text) (c : RelayConnection)
      → get s.relay.connections id ≡ some c
      → c.device_id ≡ device_id
      → c.heartbeat_timer ≡ false

revoked-id :
    (env : Env) (now : ℕ) (bytes : Bytes) (input : RevokeInput) (s s' : State)
    (result : RevokeDeviceResponse)
    → IsCoherent s
    → Access.revoke_device env now bytes input s ≡ Services.ok result s'
    → result.device_id ≡ input.device_id
unfolding Access.revoke_device Access.revoke get_device_by_id
revoked-id env now bytes input s s' result coherent e =
    let ran = with_transaction-ok env.config.bridge_store_driver _ s s' result e in
    elim (Option-cases (get s.devices input.device_id)) [
      | inl missing ↦ absurd (ground (arith, missing, ran))
      | inr (device, found) ↦
          ground (arith, found, ran, coherent.devices input.device_id device found)
    ]

relay-IsRevoked :
    (now : ℕ) (bytes : Bytes) (device_id reason : Text) (s s' : Server)
    → IsLive s.relay
    → StaysOff device_id s.relay.store
    → s'.relay ≡ Relay.revoke_device now bytes device_id reason s.relay
    → IsRevoked device_id s'
relay-IsRevoked now bytes device_id reason s s' live off e = record {
  stored =
      subst (Off device_id)
        (sym (
          ap (λ (x : Relay). x.store.devices) e
          ∙ revoke_device-devices now bytes device_id reason s.relay))
        off;
  quiet = λ id c found own.
      revoke_device-quiet now bytes device_id reason s.relay id c live
        (ap (λ (x : Relay). get x.connections id) (sym e) ∙ found) own;
}

abbrev relay_of : {A : Type 0} → Result A → Relay
relay_of (ok a s) = s.relay
relay_of (thrown e s) = s.relay

handler-IsRevoked :
    (config : ServerConfig) (a b : Bytes) (device_id : Text) (r : Request) (s s' : Server)
    (result : RevokeDeviceResponse)
    → IsCoherent s.relay.store
    → IsLive s.relay
    → revocation_handler config a b device_id r s ≡ ok result s'
    → IsRevoked device_id s'
unfolding revocation_handler
handler-IsRevoked config a b device_id r s s' result coherent live ran =
    let (u, s₁, allowed, h₁) = >>-ok (require_admin config r) _ s s' result ran in
    let input : RevokeInput = record {
      device_id = device_id;
      reason = revoke_reason r;
      created_by = codes "admin";
    } in
    let revocation = Access.revoke_device config.env r.now a input in
    let (result', s₂, called, h₂) = >>=-ok (call revocation) _ s₁ s' result h₁ in
    let (t, returned, moved) = call-ok revocation s₁ s₂ result' called in
    let same = require_admin-ok config r s s₁ u allowed in
    let c₁ = subst (λ (x : Server). IsCoherent x.relay.store) (sym same) coherent in
    let off = revoke_device-Off config.env r.now a input s₁.relay.store t result' c₁ returned in
    let own = revoked-id config.env r.now a input s₁.relay.store t result' c₁ returned in
    let live₁ = subst (λ (x : Server). IsLive x.relay) (sym same) live in
    let live₂ : IsLive (with_store s₁ t).relay = record {
      keyed = live₁.keyed;
      live = live₁.live;
    } in
    relay-IsRevoked r.now b device_id (revoke_reason r) s₂ s'
      (subst (λ (x : Server). IsLive x.relay) (sym moved) live₂)
      (subst (λ (x : Server). StaysOff device_id x.relay.store) (sym moved) off)
      (sym (ap relay_of h₂)
        ∙ ap (λ (d : Text). Relay.revoke_device r.now b d (revoke_reason r) s₂.relay) own)

-- If the route that revokes a device answers with a revocation, the device is stored as one that is
-- not active, and no connection of it in the relay has its heartbeat running, provided that the
-- tables and the relay were in order.
pub post_device_revoke-IsRevoked :
    (config : ServerConfig) (a b : Bytes) (device_id : Text) (r : Request) (s : Server)
    (result : RevokeDeviceResponse)
    → IsCoherent s.relay.store
    → IsLive s.relay
    → (post_device_revoke config a b device_id r s).1 ≡ json 200 result
    → IsRevoked device_id (post_device_revoke config a b device_id r s).0
unfolding post_device_revoke
post_device_revoke-IsRevoked config a b device_id r s result coherent live h =
    let handler = revocation_handler config a b device_id r in
    handler-IsRevoked config a b device_id r s (respond 200 handler s).0 result coherent live
      (respond-json 200 200 handler s result h)
