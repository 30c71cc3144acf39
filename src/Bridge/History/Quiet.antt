-- ===== src/Bridge/History/Quiet.antt =====
-- The calls that leave the sessions of pairing, the bootstrap tokens and the results of prompts alone.
pub mod Refreshes
use erg.Prelude.{ℕ, ◌≡◌, refl, Option, [], ◌∷◌, Text, codes, Map, arith, Option-cases, inl, inr}
use erg.Bridge.State.{PromptResultRecord, BootstrapTokenRecord}
use erg.Bridge.Store.{
  State, create_pairing_session as store_pairing_session, update_refresh_token,
  update_bootstrap_token, update_device, update_pairing_session, create_device,
  create_refresh_family, create_refresh_token, create_websocket_ticket, update_websocket_ticket,
  create_connection_event, update_refresh_family, create_bootstrap_token,
}
use erg.Bridge.Services.Access.Verified.{verify_access_token-same}
use erg.Bridge.Ids.{Bytes, create_opaque_token}
use erg.Bridge.AccessTokens.{VerifiedAccessToken}
use erg.Bridge.Services.{Env, hash, with_transaction}
use erg.Bridge.Services.Keeps.{Keeps, Run-cases, with_transaction-Keeps}
use erg.Bridge.Services.Register.{
  register, register_for, consume_bootstrap_token, register_device, RegisterDraws, RegisterInput,
}
use erg.Bridge.Services.Access.{
  verify_access_token, consume, consume_websocket_ticket, issue_ticket_for, store_ticket,
  issue_websocket_ticket,
}
use erg.Bridge.Services.Activity.{touch_device, record_connection_event}
use erg.Bridge.Services.Pairing.{
  redeem, redeem_session, redeem_open, count_failure, grant, redeem_pairing_code,
  create_pairing_session, CreateInput, validate_pairing_code_input, normalize_pairing_code, trimmed,
}
use erg.Bridge.History.{
  Call, create_pairing, redeem as redeem_call, register as register_call, refresh as refresh_call,
  issue_ticket, consume_ticket, revoke as revoke_call, mark_prompt, record_event, touch, cleanup,
  step,
}
use erg.Bridge.History.Quiet.Refreshes.{
  Same, Tables, tables, refresh_session-Same, revoke_device-Same,
}

-- The calls that leave these tables alone.
abbrev pub IsQuiet : Call → Type 0
IsQuiet (create_pairing a b input) = ⊥
IsQuiet (redeem_call bytes code given) = ⊥
IsQuiet (register_call draws input) = ⊥
IsQuiet (mark_prompt input) = ⊥
IsQuiet cleanup = ⊥
IsQuiet c = Unit

module _ (p : Tables) where
  consume-Same : (env : Env) (now : ℕ) (t : Text) → Keeps (Same p) (consume env now t)
  unfolding consume update_websocket_ticket update_device
  consume-Same env now t s h = ground arith

  pub touch_device-Same :
      (k : Text) (now : ℕ) (ip version : Option Text) (s : State)
      → Same p s
      → Same p (touch_device k now ip version s)
  unfolding touch_device update_device
  touch_device-Same k now ip version s h = ground arith

  store_ticket-Same :
      (env : Env) (now : ℕ) (t : Text) (b : Bytes) (v : VerifiedAccessToken) (c : Option Text)
      → Keeps (Same p) (store_ticket env now t b v c)
  unfolding store_ticket create_websocket_ticket update_websocket_ticket update_device
  store_ticket-Same env now t b v c s h = ground arith

  issue_ticket_for-Same :
      (env : Env) (now : ℕ) (a b : Bytes) (conversation : Option Text) (v : VerifiedAccessToken)
      → Keeps (Same p) (issue_ticket_for env now a b conversation v)
  unfolding issue_ticket_for create_opaque_token
  issue_ticket_for-Same env now a b conversation v s h =
      let callback = store_ticket env now (create_opaque_token (codes "wst") a) b v conversation in
      let kept =
        with_transaction-Keeps (Same p) env.config.bridge_store_driver callback
          (store_ticket-Same env now (create_opaque_token (codes "wst") a) b v conversation) s h in
      elim (Run-cases (with_transaction env.config.bridge_store_driver callback s)) [
        | inl (done, t, returned) ↦ ground (arith, returned, kept)
        | inr (e, t, threw) ↦ ground (arith, threw, kept)
      ]

  issue_websocket_ticket-Same :
      (env : Env) (now : ℕ) (a b : Bytes) (token : Text) (conversation : Option Text)
      → Keeps (Same p) (issue_websocket_ticket env now a b token conversation)
  unfolding issue_websocket_ticket
  issue_websocket_ticket-Same env now a b token conversation s h =
      let same = verify_access_token-same env now token (codes "relay:connect" ∷ []) s in
      elim (Run-cases (verify_access_token env now token (codes "relay:connect" ∷ []) s)) [
        | inl (v, t, returned) ↦
            ground (arith, returned, same, h, issue_ticket_for-Same env now a b conversation v s h)
        | inr (e, t, threw) ↦ ground (arith, threw, same, h)
      ]

pub step-tables :
    (env : Env) (now : ℕ) (c : Call) (s : State) → IsQuiet c → tables (step env now c s) ≡ tables s
unfolding step consume_websocket_ticket record_connection_event create_connection_event
step-tables env now (create_pairing a b input) s q = absurd q
step-tables env now (redeem_call bytes code given) s q = absurd q
step-tables env now (register_call draws input) s q = absurd q
step-tables env now (refresh_call draws input) s q =
    refresh_session-Same (tables s) env now draws input s refl
step-tables env now (issue_ticket a b token conversation) s q =
    issue_websocket_ticket-Same (tables s) env now a b token conversation s refl
step-tables env now (consume_ticket ticket) s q =
    with_transaction-Keeps (Same (tables s)) env.config.bridge_store_driver _
      (consume-Same (tables s) env now ticket) s refl
step-tables env now (revoke_call bytes input) s q =
    revoke_device-Same (tables s) env now bytes input s refl
step-tables env now (mark_prompt input) s q = absurd q
step-tables env now (record_event bytes input) s q = refl
step-tables env now (touch k ip version) s q = touch_device-Same (tables s) k now ip version s refl
step-tables env now cleanup s q = absurd q
