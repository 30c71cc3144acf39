-- ===== src/Bridge/History/Revocation.antt =====
-- services.ts: a device that was revoked is refused, whatever is called in between.
pub mod Devices
pub mod Others
use erg.Prelude.{
  ℕ, ◌≡◌, ◌≢◌, refl, sym, subst, ◌∙◌, ap, Bool, true, false, Option, none, some, List, [], ◌∷◌,
  Text, codes, arith, get, set, get-set_self, All, Option-cases, inl, inr, trim,
}
use erg.Bridge.State.{DeviceStatus, DeviceRecord}
use erg.Bridge.Store.{
  State, update_device, get_device_by_id, get_websocket_ticket_by_hash, get_refresh_family_by_id,
  create_revocation, list_refresh_tokens_by_family_id,
  create_pairing_session as store_pairing_session, update_pairing_session, upsert_prompt_result,
  create_connection_event,
}
use erg.Bridge.Store.Coherent.{IsCoherent, Keyed, Keyed-set}
use erg.Bridge.Store.Cleanup.{cleanup_expired}
use erg.Bridge.Ids.{Bytes, create_id}
use erg.Bridge.AccessTokens.{VerifiedAccessToken}
use erg.Bridge.Services.{ApiError, device_inactive, Env, ok, err, hash, store_of}
use erg.Bridge.Services.Transactions.{with_transaction-ok, with_transaction-err}
use erg.Bridge.Services.Pairing.{create_pairing_session}
use erg.Bridge.Services.Refresh.{
  is_active_device, RefreshDraws, RefreshInput, RefreshSessionResponse, refresh, refresh_session,
}
use erg.Bridge.Services.Access.{
  verify_access_token, ConsumedWebSocketTicket, consume, consume_websocket_ticket, RevokeInput,
  RevokeDeviceResponse, revoke_family, revoke, revoke_device,
}
use erg.Bridge.Services.Refresh.Revoking.{revoke_tokens-SameRest}
use erg.Bridge.Services.Access.Tickets.{consume-Consumed}
use erg.Bridge.Services.Access.Verified.{verify_access_token-ok}
use erg.Bridge.Services.Activity.{
  mark_prompt_result, record_connection_event, cleanup_expired_state,
}
use erg.Bridge.History.{
  Call, create_pairing, redeem, register, refresh as refresh_call, issue_ticket, consume_ticket,
  revoke as revoke_call, mark_prompt, record_event, touch, cleanup, step, run,
}
use erg.Bridge.History.Revocation.Devices.{
  Off, StaysOff, set-Off, found-MayWrite, revoke_tokens-Off, refresh_session-Off,
}
use erg.Bridge.History.Revocation.Others.{
  redeem_pairing_code-Off, register_device-Off, issue_websocket_ticket-Off,
  consume_websocket_ticket-Off, revoke_family-same, revoke_device-Off as revocation-Off,
  touch_device-Off,
}

-- No registration draws this id.
abbrev pub SparesId : Text → ℕ × Call → Type 0
SparesId id (now, register draws input) = create_id (codes "dev") draws.device ≢ id
SparesId id (now, _) = Unit

module _ (id : Text) where
  step-Off :
      (env : Env) (now : ℕ) (c : Call) (s : State)
      → SparesId id (now, c)
      → StaysOff id s
      → StaysOff id (step env now c s)
  unfolding step create_pairing_session store_pairing_session update_pairing_session
      mark_prompt_result upsert_prompt_result record_connection_event create_connection_event
      cleanup_expired_state cleanup_expired
  step-Off env now (create_pairing id_bytes code_bytes input) s other o = o
  step-Off env now (redeem bytes code given) s other o =
      redeem_pairing_code-Off id env now bytes code given s o
  step-Off env now (register draws input) s other o =
      register_device-Off id env now draws input other s o
  step-Off env now (refresh_call draws input) s other o =
      refresh_session-Off id env now draws input s o
  step-Off env now (issue_ticket ticket_bytes id_bytes token conversation) s other o =
      issue_websocket_ticket-Off id env now ticket_bytes id_bytes token conversation s o
  step-Off env now (consume_ticket ticket) s other o =
      consume_websocket_ticket-Off id env now ticket s o
  step-Off env now (revoke_call bytes input) s other o = revocation-Off id env now bytes input s o
  step-Off env now (mark_prompt input) s other o = o
  step-Off env now (record_event bytes input) s other o = o
  step-Off env now (touch k ip version) s other o = touch_device-Off id k now ip version s o
  step-Off env now cleanup s other o = o

  run-Off :
      (env : Env) (calls : List (ℕ × Call)) (s : State)
      → All (SparesId id) calls
      → StaysOff id s
      → StaysOff id (run env calls s)
  unfolding run
  run-Off env [] s spared o = o
  run-Off env ((now, c) ∷ rest) s (other, spared) o =
      run-Off env rest (step env now c s) spared (step-Off env now c s other o)

-- The device after its revocation.
abbrev gone : ℕ → RevokeInput → DeviceRecord → DeviceRecord
gone now input device = record device {
  status = DeviceStatus.revoked;
  revoked_at = some now;
  revoke_reason = some input.reason;
}

revoke-devices :
    (now : ℕ) (bytes : Bytes) (input : RevokeInput) (s : State) (device : DeviceRecord)
    → get s.devices input.device_id ≡ some device
    → (store_of (revoke now bytes input s)).devices
      ≡ set s.devices device.device_id (gone now input device)
unfolding revoke get_device_by_id update_device create_revocation
revoke-devices now bytes input s device fd =
    let s₁ = update_device (gone now input device) s in
    let f = get_refresh_family_by_id s₁ device.current_refresh_family_id in
    let s₂ = revoke_family input.reason f s₁ in
    let ts = list_refresh_tokens_by_family_id s₂ device.current_refresh_family_id in
    rw fd (
      (revoke_tokens-SameRest now ts s₂).devices
      ∙ revoke_family-same input.device_id input.reason f s₁)

pub revoke_device-Off :
    (env : Env) (now : ℕ) (bytes : Bytes) (input : RevokeInput) (s s' : State)
    (r : RevokeDeviceResponse)
    → IsCoherent s
    → revoke_device env now bytes input s ≡ ok r s'
    → StaysOff input.device_id s'
unfolding revoke_device
revoke_device-Off env now bytes input s s' r c e =
    let ran = with_transaction-ok env.config.bridge_store_driver _ s s' r e in
    elim (Option-cases (get s.devices input.device_id)) [
      | inl missing ↦ absurd (unfold revoke get_device_by_id in ground (arith, missing, ran))
      | inr (device, fd) ↦
          let now_off = gone now input device in
          let own : device.device_id ≡ input.device_id = c.devices input.device_id device fd in
          let after : s'.devices ≡ set s.devices device.device_id now_off =
            ap (λ q. (store_of q).devices) (sym ran) ∙ revoke-devices now bytes input s device fd in
          record {
            keyed =
                subst (Keyed (λ d. d.device_id)) (sym after)
                  (Keyed-set (λ d. d.device_id) s.devices now_off c.devices);
            device = now_off;
            found = cc (after, own, get-set_self s.devices device.device_id now_off);
            off = refl;
          }
    ]

module _ (env : Env) (id : Text) (s : State) (o : StaysOff id s) where
  off_refresh :
      (now : ℕ) (draws : RefreshDraws) (input : RefreshInput)
      → trim input.device_id ≡ id
      → refresh_session env now draws input s ≡ err device_inactive s
  unfolding refresh_session refresh get_device_by_id
  off_refresh now draws input same =
      with_transaction-err env.config.bridge_store_driver _ s device_inactive
        (ground (arith, o.found, o.off, same))

  off_verify :
      (now : ℕ) (token : Text) (required : List Text) (s' : State) (v : VerifiedAccessToken)
      → verify_access_token env now token required s ≡ ok v s'
      → v.device_id ≢ id
  unfolding get_device_by_id
  off_verify now token required s' v e same =
      let (good, device, found, on) = verify_access_token-ok env now token required s s' v e in
      let is : device ≡ o.device = cc (found, o.found, same) in
      absurd (ground (arith, is, on, o.off))

  off_consume :
      (now : ℕ) (ticket : Text) (s' : State) (t : ConsumedWebSocketTicket)
      → consume_websocket_ticket env now ticket s ≡ ok t s'
      → t.device_id ≢ id
  unfolding get_device_by_id
  off_consume now ticket s' t e same =
      let z = consume-Consumed env now ticket s s' t e in
      let is : z.device ≡ o.device = cc (z.device_found, z.same_device, o.found, same) in
      absurd (ground (arith, is, z.device_active, o.off))

module _ (env : Env) (now : ℕ) (bytes : Bytes) (input : RevokeInput) (s s' : State)
    (r : RevokeDeviceResponse) (c : IsCoherent s)
    (revocation : revoke_device env now bytes input s ≡ ok r s') (calls : List (ℕ × Call))
    (spared : All (SparesId input.device_id) calls) where
  after-Off : StaysOff input.device_id (run env calls s')
  after-Off =
      run-Off input.device_id env calls s' spared
        (revoke_device-Off env now bytes input s s' r c revocation)

  -- Once a device was revoked, and after any further calls that do not draw its id again for a new
  -- registration, a refresh for this device throws `device_inactive` and changes nothing.
  pub revoked-refresh :
      (later : ℕ) (draws : RefreshDraws) (asked : RefreshInput)
      → trim asked.device_id ≡ input.device_id
      → refresh_session env later draws asked (run env calls s')
        ≡ err device_inactive (run env calls s')
  revoked-refresh later draws asked same =
      off_refresh env input.device_id (run env calls s') after-Off later draws asked same

  -- Once a device was revoked, and after any further calls that do not draw its id again, an access
  -- token that is accepted, whatever its signature and times, is one of another device.
  pub revoked-verify :
      (later : ℕ) (token : Text) (required : List Text) (s'' : State) (v : VerifiedAccessToken)
      → verify_access_token env later token required (run env calls s') ≡ ok v s''
      → v.device_id ≢ input.device_id
  revoked-verify later token required s'' v e =
      off_verify env input.device_id (run env calls s') after-Off later token required s'' v e

  -- Once a device was revoked, and after any further calls that do not draw its id again, a websocket
  -- ticket that is admitted, also one that was issued before, is one of another device.
  pub revoked-consume :
      (later : ℕ) (ticket : Text) (s'' : State) (t : ConsumedWebSocketTicket)
      → consume_websocket_ticket env later ticket (run env calls s') ≡ ok t s''
      → t.device_id ≢ input.device_id
  revoked-consume later ticket s'' t e =
      off_consume env input.device_id (run env calls s') after-Off later ticket s'' t e
