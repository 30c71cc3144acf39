-- ===== src/Bridge/History/Revocation/Others.antt =====
-- A device that is not active, through the other methods of services.ts.
use erg.Prelude.{
  ℕ, ◌≡◌, ◌≢◌, refl, sym, subst, Bool, Option, none, some, [], ◌∷◌, Text, codes, arith, get,
  Option-cases, inl, inr,
}
use erg.Bridge.State.{DeviceStatus, DeviceRecord, RefreshTokenFamilyRecord, BootstrapTokenRecord}
use erg.Bridge.Store.{
  State, update_device, create_device, get_device_by_id, get_bootstrap_token_by_hash,
  get_websocket_ticket_by_hash, get_pairing_session_by_id, get_refresh_family_by_id,
  update_bootstrap_token, create_refresh_family, create_refresh_token, update_refresh_family,
  update_refresh_token, create_websocket_ticket, update_websocket_ticket, create_revocation,
  list_refresh_tokens_by_family_id, update_pairing_session, create_bootstrap_token,
}
use erg.Bridge.Ids.{Bytes, create_id, create_opaque_token}
use erg.Bridge.AccessTokens.{VerifiedAccessToken}
use erg.Bridge.Services.{Env, hash, store_of, with_transaction}
use erg.Bridge.Services.Keeps.{Keeps, Run-cases, with_transaction-Keeps}
use erg.Bridge.Services.Pairing.{
  grant, count_failure, redeem_open, redeem_session, redeem, redeem_pairing_code,
  normalize_pairing_code, trimmed, find_session, is_given,
}
use erg.Bridge.State.{PairingSessionRecord, PairingStatus, pending, redeemed, expired, locked}
use erg.Bridge.Services.Pairing.Keeps.{redeem_pairing_code-Keeps}
use erg.Bridge.Services.Register.Keeps.{register_device-Keeps}
use erg.Bridge.Services.Register.{
  RegisterDraws, RegisterInput, consume_bootstrap_token, new_device, register_for, register_device,
}
use erg.Bridge.Services.Access.{
  verify_access_token, store_ticket, issue_ticket_for, issue_websocket_ticket, consume,
  consume_websocket_ticket, RevokeInput, revoke_family, revoke, revoke_device,
}
use erg.Bridge.Services.Access.Verified.{verify_access_token-same}
use erg.Bridge.Services.Activity.{touch_device}
use erg.Bridge.History.Revocation.Devices.{
  Off, StaysOff, set-Off, found-MayWrite, revoke_tokens-Off,
}

-- What the pairing of a phone does to the devices: nothing.
redeem_session-same :
    (env : Env) (now : ℕ) (bytes : Bytes) (by_id : Bool) (h : Text) (r : PairingSessionRecord)
    (status : PairingStatus) (s : State)
    → (store_of (redeem_session env now bytes by_id h r status s)).devices ≡ s.devices
unfolding redeem_session redeem_open count_failure grant update_pairing_session
    create_bootstrap_token
redeem_session-same env now bytes by_id h r locked s = refl
redeem_session-same env now bytes by_id h r redeemed s = refl
redeem_session-same env now bytes by_id h r pending s = ground arith
redeem_session-same env now bytes by_id h r expired s = ground arith

module _ (id : Text) where
  redeem-Off :
      (env : Env) (now : ℕ) (bytes : Bytes) (given : Option Text) (h : Text)
      → Keeps (StaysOff id) (redeem env now bytes given h)
  unfolding redeem
  redeem-Off env now bytes given h s o = elim (Option-cases (find_session given h s)) [
    | inl missing ↦ rw missing o
    | inr (r, found) ↦
        rw found (
          subst (Off id) (sym (redeem_session-same env now bytes (is_given given) h r r.status s))
            o)
  ]

  pub redeem_pairing_code-Off :
      (env : Env) (now : ℕ) (bytes : Bytes) (code : Text) (given : Option Text)
      → Keeps (StaysOff id) (redeem_pairing_code env now bytes code given)
  redeem_pairing_code-Off env now bytes code given =
      redeem_pairing_code-Keeps (StaysOff id) env now bytes code given
        (redeem-Off env now bytes (trimmed given) (hash env (normalize_pairing_code code)))

  consume_bootstrap_token-same :
      (env : Env) (now : ℕ) (raw : Text) (s : State)
      → (store_of (consume_bootstrap_token env now raw s)).devices ≡ s.devices
  unfolding consume_bootstrap_token update_bootstrap_token
  consume_bootstrap_token-same env now raw s =
      elim (Option-cases (get_bootstrap_token_by_hash s (hash env raw))) [
        | inl missing ↦ rw missing refl
        | inr (token, found) ↦ ground (arith, found)
      ]

  -- The registration of a device under another id.
  register_for-Off :
      (env : Env) (now : ℕ) (draws : RegisterDraws) (input : RegisterInput)
      (bootstrap : BootstrapTokenRecord)
      → create_id (codes "dev") draws.device ≢ id
      → Keeps (StaysOff id) (register_for env now draws input bootstrap)
  unfolding register_for create_device create_refresh_family create_refresh_token update_device
      update_refresh_family update_refresh_token new_device
  register_for-Off env now draws input bootstrap other s o =
      elim (Option-cases (get_pairing_session_by_id s bootstrap.pairing_session_id)) [
        | inl missing ↦ rw missing o
        | inr (session, found) ↦
            let device =
              new_device now input session (create_id (codes "dev") draws.device)
                (create_id (codes "rtf") draws.family) in
            rw found (set-Off id s.devices device o (λ same. absurd (other same)))
      ]

  pub register_device-Off :
      (env : Env) (now : ℕ) (draws : RegisterDraws) (input : RegisterInput)
      → create_id (codes "dev") draws.device ≢ id
      → Keeps (StaysOff id) (register_device env now draws input)
  register_device-Off env now draws input other =
      register_device-Keeps (StaysOff id) env now draws input
        (λ s o.
          subst (Off id) (sym (consume_bootstrap_token-same env now input.bootstrap_token s)) o)
        (λ b. register_for-Off env now draws input b other)

  consume-Off : (env : Env) (now : ℕ) (ticket : Text) → Keeps (StaysOff id) (consume env now ticket)
  unfolding consume get_device_by_id update_websocket_ticket update_device
  consume-Off env now raw s o =
      elim (Option-cases (get_websocket_ticket_by_hash s (hash env raw))) [
        | inl missing ↦ ground (arith, missing, o)
        | inr (ticket, found) ↦ elim (Option-cases (get s.devices ticket.device_id)) [
          | inl missing ↦ ground (arith, found, missing, o)
          | inr (device, fd) ↦
              let seen = record device { last_seen_at = some now } in
              let may = found-MayWrite id ticket.device_id s.devices device o fd in
              ground (arith, found, fd, o, set-Off id s.devices seen o may)
        ]
      ]

  pub consume_websocket_ticket-Off :
      (env : Env) (now : ℕ) (ticket : Text)
      → Keeps (StaysOff id) (consume_websocket_ticket env now ticket)
  unfolding consume_websocket_ticket
  consume_websocket_ticket-Off env now ticket =
      with_transaction-Keeps (StaysOff id) env.config.bridge_store_driver _
        (consume-Off env now ticket)

  pub touch_device-Off :
      (k : Text) (now : ℕ) (ip version : Option Text) (s : State)
      → StaysOff id s
      → StaysOff id (touch_device k now ip version s)
  unfolding touch_device get_device_by_id update_device
  touch_device-Off k now ip version s o = elim (Option-cases (get s.devices k)) [
    | inl missing ↦ rw missing o
    | inr (device, fd) ↦
        rw fd (set-Off id s.devices _ o (found-MayWrite id k s.devices device o fd))
  ]

  store_ticket-Off :
      (env : Env) (now : ℕ) (ticket : Text) (bytes : Bytes) (v : VerifiedAccessToken)
      (conversation : Option Text)
      → Keeps (StaysOff id) (store_ticket env now ticket bytes v conversation)
  unfolding store_ticket create_websocket_ticket update_websocket_ticket get_device_by_id
      update_device
  store_ticket-Off env now ticket bytes v conversation s o =
      elim (Option-cases (get s.devices v.device_id)) [
        | inl missing ↦ rw missing o
        | inr (device, fd) ↦
            rw fd (set-Off id s.devices _ o (found-MayWrite id v.device_id s.devices device o fd))
      ]

  issue_ticket_for-Off :
      (env : Env) (now : ℕ) (ticket_bytes id_bytes : Bytes) (conversation : Option Text)
      (v : VerifiedAccessToken)
      → Keeps (StaysOff id) (issue_ticket_for env now ticket_bytes id_bytes conversation v)
  unfolding issue_ticket_for create_opaque_token
  issue_ticket_for-Off env now ticket_bytes id_bytes conversation v s o =
      let ticket = create_opaque_token (codes "wst") ticket_bytes in
      let callback = store_ticket env now ticket id_bytes v conversation in
      let kept =
        with_transaction-Keeps (StaysOff id) env.config.bridge_store_driver callback
          (store_ticket-Off env now ticket id_bytes v conversation) s o in
      elim (Run-cases (with_transaction env.config.bridge_store_driver callback s)) [
        | inl (done, t, returned) ↦ ground (arith, returned, kept)
        | inr (e, t, threw) ↦ ground (arith, threw, kept)
      ]

  pub issue_websocket_ticket-Off :
      (env : Env) (now : ℕ) (ticket_bytes id_bytes : Bytes) (token : Text)
      (conversation : Option Text)
      → Keeps
          (StaysOff id)
          (issue_websocket_ticket env now ticket_bytes id_bytes token conversation)
  unfolding issue_websocket_ticket
  issue_websocket_ticket-Off env now ticket_bytes id_bytes token conversation s o =
      let same = verify_access_token-same env now token (codes "relay:connect" ∷ []) s in
      elim (Run-cases (verify_access_token env now token (codes "relay:connect" ∷ []) s)) [
        | inl (v, t, returned) ↦ ground (
          arith,
          returned,
          same,
          o,
          issue_ticket_for-Off env now ticket_bytes id_bytes conversation v s o,
        )
        | inr (e, t, threw) ↦ ground (arith, threw, same, o)
      ]

  pub revoke_family-same :
      (reason : Text) (f : Option RefreshTokenFamilyRecord) (s : State)
      → (revoke_family reason f s).devices ≡ s.devices
  unfolding update_refresh_family
  revoke_family-same reason none s = refl
  revoke_family-same reason (some f) s = refl

  revoke-Off :
      (now : ℕ) (bytes : Bytes) (input : RevokeInput) → Keeps (StaysOff id) (revoke now bytes input)
  unfolding revoke get_device_by_id update_device create_revocation
  revoke-Off now bytes input s o = elim (Option-cases (get s.devices input.device_id)) [
    | inl missing ↦ rw missing o
    | inr (device, fd) ↦
        let gone : DeviceRecord = record device {
          status = DeviceStatus.revoked;
          revoked_at = some now;
          revoke_reason = some input.reason;
        } in
        let s₁ = update_device gone s in
        let f = get_refresh_family_by_id s₁ device.current_refresh_family_id in
        let s₂ = revoke_family input.reason f s₁ in
        let ts = list_refresh_tokens_by_family_id s₂ device.current_refresh_family_id in
        rw fd (
          revoke_tokens-Off id now ts s₂ (
            subst (Off id) (sym (revoke_family-same input.reason f s₁))
              (set-Off id s.devices gone o (λ same. refl))))
  ]

  pub revoke_device-Off :
      (env : Env) (now : ℕ) (bytes : Bytes) (input : RevokeInput)
      → Keeps (StaysOff id) (revoke_device env now bytes input)
  unfolding revoke_device
  revoke_device-Off env now bytes input =
      with_transaction-Keeps (StaysOff id) env.config.bridge_store_driver _
        (revoke-Off now bytes input)
