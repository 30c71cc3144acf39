-- ===== src/Bridge/History.antt =====
-- Histories of the bridge: the calls of services.ts, each with its time and its random draws, in
-- the order in which their transactions run.
pub mod Coherent
pub mod Revocation
pub mod Quiet
pub mod Replies
pub mod Spent
pub mod Closed
use erg.Prelude.{ℕ, Option, List, [], ◌∷◌, Text}
use erg.Bridge.Store.{State}
use erg.Bridge.Ids.{Bytes}
use erg.Bridge.Services.{Env, store_of}
use erg.Bridge.Services.Pairing.{CreateInput, create_pairing_session, redeem_pairing_code}
use erg.Bridge.Services.Register.{RegisterDraws, RegisterInput, register_device}
use erg.Bridge.Services.Refresh.{RefreshDraws, RefreshInput, refresh_session}
use erg.Bridge.Services.Access.{
  issue_websocket_ticket, consume_websocket_ticket, RevokeInput, revoke_device,
}
use erg.Bridge.Services.Activity.{
  PromptInput, mark_prompt_result, ConnectionInput, record_connection_event, touch_device,
  cleanup_expired_state,
}

pub data Call : Type 0 where
  create_pairing : Bytes → Bytes → CreateInput → Call
  redeem : Bytes → Text → Option Text → Call
  register : RegisterDraws → RegisterInput → Call
  refresh : RefreshDraws → RefreshInput → Call
  issue_ticket : Bytes → Bytes → Text → Option Text → Call
  consume_ticket : Text → Call
  revoke : Bytes → RevokeInput → Call
  mark_prompt : PromptInput → Call
  record_event : Bytes → ConnectionInput → Call
  touch : Text → Option Text → Option Text → Call
  cleanup : Call

-- The store after a call, whether it returned or threw.
unfoldable pub step : Env → ℕ → Call → State → State
step env now (create_pairing id_bytes code_bytes input) s =
    store_of (create_pairing_session env now id_bytes code_bytes input s)
step env now (redeem bytes code session_id) s =
    store_of (redeem_pairing_code env now bytes code session_id s)
step env now (register draws input) s = store_of (register_device env now draws input s)
step env now (refresh draws input) s = store_of (refresh_session env now draws input s)
step env now (issue_ticket ticket_bytes id_bytes token conversation) s =
    store_of (issue_websocket_ticket env now ticket_bytes id_bytes token conversation s)
step env now (consume_ticket ticket) s = store_of (consume_websocket_ticket env now ticket s)
step env now (revoke bytes input) s = store_of (revoke_device env now bytes input s)
step env now (mark_prompt input) s = mark_prompt_result now input s
step env now (record_event bytes input) s = record_connection_event now bytes input s
step env now (touch device_id remote_ip app_version) s =
    touch_device device_id now remote_ip app_version s
step env now cleanup s = cleanup_expired_state env.config now s

unfoldable pub run : Env → List (ℕ × Call) → State → State
unfolding step
run env [] s = s
run env ((now, c) ∷ rest) s = run env rest (step env now c s)
