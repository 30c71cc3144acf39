-- ===== src/Bridge/History/Coherent/Others.antt =====
-- The other methods of services.ts keep the tables coherent.
use erg.Prelude.{ℕ, Option, none, some, [], ◌∷◌, Text, codes, arith, Option-cases, inl, inr}
use erg.Bridge.State.{DeviceStatus, DeviceRecord, BootstrapTokenRecord, RefreshTokenFamilyRecord}
use erg.Bridge.Store.{
  State, create_device, create_refresh_family, create_refresh_token, create_websocket_ticket,
  update_device, update_websocket_ticket, get_pairing_session_by_id, get_device_by_id,
  get_websocket_ticket_by_hash, get_refresh_family_by_id,
}
use erg.Bridge.Store.Coherent.{IsCoherent}
use erg.Bridge.Store.Upkeep.{upkeep}
use erg.Bridge.Ids.{Bytes, create_opaque_token}
use erg.Bridge.AccessTokens.{VerifiedAccessToken}
use erg.Bridge.Services.{with_transaction, hash, Env}
use erg.Bridge.Services.Keeps.{Run-cases, with_transaction-Keeps}
use erg.Bridge.Services.Register.{
  RegisterDraws, RegisterInput, consume_bootstrap_token, register_for, register, register_device,
}
use erg.Bridge.Services.Access.{
  verify_access_token, touch_seen, store_ticket, issue_ticket_for, issue_websocket_ticket, consume,
  consume_websocket_ticket, RevokeInput, revoke_family, revoke, revoke_device,
}
use erg.Bridge.Services.Access.Verified.{verify_access_token-same}
use erg.Bridge.Services.Activity.{touch_device}
use erg.Bridge.History.Coherent.Refreshes.{K, consume_bootstrap_token-K, revoke_tokens-IsCoherent}

register_for-K :
    (env : Env) (now : ℕ) (draws : RegisterDraws) (input : RegisterInput)
    (bootstrap : BootstrapTokenRecord)
    → K (register_for env now draws input bootstrap)
unfolding register_for create_device create_refresh_family create_refresh_token
register_for-K env now draws input bootstrap s c =
    elim (Option-cases (get_pairing_session_by_id s bootstrap.pairing_session_id)) [
      | inl missing ↦ rw missing c
      | inr (session, found) ↦ rw found (search upkeep)
    ]

register-K :
    (env : Env) (now : ℕ) (draws : RegisterDraws) (input : RegisterInput)
    → K (register env now draws input)
unfolding register
register-K env now draws input s c =
    let kept = consume_bootstrap_token-K env now input.bootstrap_token s c in
    elim (Run-cases (consume_bootstrap_token env now input.bootstrap_token s)) [
      | inr (e, t, threw) ↦ ground (arith, threw, kept)
      | inl (bootstrap, t, returned) ↦
          let at : IsCoherent t = ground (arith, returned, kept) in
          ground (arith, returned, register_for-K env now draws input bootstrap t at)
    ]

pub register_device-K :
    (env : Env) (now : ℕ) (draws : RegisterDraws) (input : RegisterInput)
    → K (register_device env now draws input)
unfolding register_device
register_device-K env now draws input =
    with_transaction-Keeps IsCoherent env.config.bridge_store_driver _
      (register-K env now draws input)

consume-K : (env : Env) (now : ℕ) (ticket : Text) → K (consume env now ticket)
unfolding consume
consume-K env now raw s c = elim (Option-cases (get_websocket_ticket_by_hash s (hash env raw))) [
  | inl missing ↦ ground (arith, missing, c)
  | inr (ticket, found) ↦ elim (Option-cases (get_device_by_id s ticket.device_id)) [
    | inl missing ↦ ground (arith, found, missing, c)
    | inr (device, fd) ↦
        let t = update_websocket_ticket (record ticket { used_at = some now }) s in
        let seen : IsCoherent (update_device (record device { last_seen_at = some now }) t) =
          search upkeep in
        ground (arith, found, fd, c, seen)
  ]
]

pub consume_websocket_ticket-K :
    (env : Env) (now : ℕ) (ticket : Text) → K (consume_websocket_ticket env now ticket)
unfolding consume_websocket_ticket
consume_websocket_ticket-K env now ticket =
    with_transaction-Keeps IsCoherent env.config.bridge_store_driver _ (consume-K env now ticket)

revoke_family-IsCoherent :
    (reason : Text) (o : Option RefreshTokenFamilyRecord) (s : State)
    → IsCoherent s
    → IsCoherent (revoke_family reason o s)
revoke_family-IsCoherent reason none s c = c
revoke_family-IsCoherent reason (some f) s c = search upkeep

revoke-K : (now : ℕ) (bytes : Bytes) (input : RevokeInput) → K (revoke now bytes input)
unfolding revoke
revoke-K now bytes input s c = elim (Option-cases (get_device_by_id s input.device_id)) [
  | inl missing ↦ rw missing c
  | inr (device, fd) ↦
      let gone : DeviceRecord = record device {
        status = DeviceStatus.revoked;
        revoked_at = some now;
        revoke_reason = some input.reason;
      } in
      let family =
        get_refresh_family_by_id (update_device gone s) device.current_refresh_family_id in
      rw fd (search (upkeep, revoke_family-IsCoherent, revoke_tokens-IsCoherent))
]

pub revoke_device-K :
    (env : Env) (now : ℕ) (bytes : Bytes) (input : RevokeInput)
    → K (revoke_device env now bytes input)
unfolding revoke_device
revoke_device-K env now bytes input =
    with_transaction-Keeps IsCoherent env.config.bridge_store_driver _ (revoke-K now bytes input)

pub touch_device-IsCoherent :
    (device_id : Text) (now : ℕ) (ip version : Option Text) (s : State)
    → IsCoherent s
    → IsCoherent (touch_device device_id now ip version s)
unfolding touch_device
touch_device-IsCoherent device_id now ip version s c =
    elim (Option-cases (get_device_by_id s device_id)) [
      | inl missing ↦ rw missing c
      | inr (device, found) ↦ rw found (search upkeep)
    ]

touch_seen-IsCoherent :
    (now : ℕ) (o : Option DeviceRecord) (s : State) → IsCoherent s → IsCoherent (touch_seen now o s)
touch_seen-IsCoherent now none s c = c
touch_seen-IsCoherent now (some d) s c = search upkeep

store_ticket-K :
    (env : Env) (now : ℕ) (ticket : Text) (bytes : Bytes) (v : VerifiedAccessToken)
    (conversation : Option Text)
    → K (store_ticket env now ticket bytes v conversation)
unfolding store_ticket create_websocket_ticket
store_ticket-K env now ticket bytes v conversation s c = search (upkeep, touch_seen-IsCoherent)

issue_ticket_for-K :
    (env : Env) (now : ℕ) (ticket_bytes id_bytes : Bytes) (conversation : Option Text)
    (v : VerifiedAccessToken)
    → K (issue_ticket_for env now ticket_bytes id_bytes conversation v)
unfolding issue_ticket_for create_opaque_token
issue_ticket_for-K env now ticket_bytes id_bytes conversation v s c =
    let ticket = create_opaque_token (codes "wst") ticket_bytes in
    let callback = store_ticket env now ticket id_bytes v conversation in
    let stored = with_transaction env.config.bridge_store_driver callback s in
    let kept =
      with_transaction-Keeps IsCoherent env.config.bridge_store_driver callback
        (store_ticket-K env now ticket id_bytes v conversation) s c in
    elim (Run-cases stored) [
      | inl (done, t, returned) ↦ ground (arith, returned, kept)
      | inr (e, t, threw) ↦ ground (arith, threw, kept)
    ]

pub issue_websocket_ticket-K :
    (env : Env) (now : ℕ) (ticket_bytes id_bytes : Bytes) (token : Text)
    (conversation : Option Text)
    → K (issue_websocket_ticket env now ticket_bytes id_bytes token conversation)
unfolding issue_websocket_ticket
issue_websocket_ticket-K env now ticket_bytes id_bytes token conversation s c =
    let same = verify_access_token-same env now token (codes "relay:connect" ∷ []) s in
    elim (Run-cases (verify_access_token env now token (codes "relay:connect" ∷ []) s)) [
      | inl (v, t, returned) ↦ ground (
        arith,
        returned,
        same,
        c,
        issue_ticket_for-K env now ticket_bytes id_bytes conversation v s c,
      )
      | inr (e, t, threw) ↦ ground (arith, threw, same, c)
    ]
