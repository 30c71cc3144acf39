-- ===== src/Bridge/Examples/Access.antt =====
-- services.ts: the theorems on revocation and websocket tickets, on the stores of the parent.
use erg.Prelude.{ℕ, ◌≡◌, ◌≢◌, refl, none, List, [], ◌∷◌, Text, codes, get, set, text_eq}
use erg.Bridge.State.{ClientType, DeviceStatus, DeviceRecord, WebSocketTicketRecord}
use erg.Bridge.Store.Upkeep.{upkeep}
use erg.Bridge.Store.{State, empty, update_device, update_websocket_ticket}
use erg.Bridge.Store.Coherent.{IsCoherent}
use erg.Bridge.AccessTokens.{VerifiedAccessToken}
use erg.Bridge.Services.{err, device_inactive, invalid_ticket, store_of, memory}
use erg.Bridge.Services.Refresh.{RefreshInput, RefreshDraws, refresh_session}
use erg.Bridge.Services.Access.{
  verify_access_token, ConsumedWebSocketTicket, consume_websocket_ticket, RevokeInput,
  RevokeDeviceResponse, revoke, revoke_device,
}
use erg.Bridge.Services.Access.Tickets.{consume_twice}
use erg.Bridge.Services.Activity.{touch_device}
use erg.Bridge.History.{Call, step, run}
use erg.Bridge.History.Coherent.{empty-IsCoherent}
use erg.Bridge.History.Revocation.{revoked-refresh, revoked-verify, revoked-consume}
use erg.Bridge.Examples.{env}

accessing : Unit {0}
unfolding run step update_device update_websocket_ticket verify_access_token
    consume_websocket_ticket revoke_device revoke touch_device get set text_eq
accessing = tt

abbrev device : Text → DeviceRecord
device id = record {
  device_id = id;
  device_display_name = codes "Tablet";
  platform = codes "ios";
  client_type = ClientType.mobile;
  status = DeviceStatus.active;
  created_at = 3;
  last_seen_at = none;
  last_ip = none;
  last_app_version = none;
  current_refresh_family_id = codes "rtf_09";
  revoked_at = none;
  revoke_reason = none;
}

abbrev ticket : WebSocketTicketRecord
ticket = record {
  ticket_hash = codes "kwst_01";
  ticket_id = codes "wstrec_02";
  device_id = codes "dev_09";
  conversation_id = codes "default";
  access_expires_at = 900000;
  created_at = 3;
  expires_at = 63;
  used_at = none;
}

abbrev both : State
both = update_device (device (codes "dev_09")) (update_device (device (codes "dev_01")) empty)

-- The store with two devices and a ticket, `wst_01`, of the second.
abbrev ticketed : State
ticketed = update_websocket_ticket ticket both

ticketed-IsCoherent : IsCoherent ticketed
ticketed-IsCoherent = search (upkeep, empty-IsCoherent)

abbrev admitted : ConsumedWebSocketTicket
admitted = record {
  device_id = codes "dev_09";
  conversation_id = codes "default";
  access_expires_at = 900000;
}

abbrev used : State
used = store_of (consume_websocket_ticket (env memory) 5 (codes "wst_01") ticketed)

consume_twice_example :
    consume_websocket_ticket (env memory) 6 (codes "wst_01") used ≡ err invalid_ticket used
unfolding accessing
consume_twice_example =
    consume_twice (env memory) 5 6 (codes "wst_01") ticketed used admitted ticketed-IsCoherent refl

abbrev lost : RevokeInput
lost = record { device_id = codes "dev_01"; reason = codes "lost"; created_by = codes "cli" }

abbrev answer : RevokeDeviceResponse
answer = record { device_id = codes "dev_01"; revoked_at = 5 }

abbrev gone : State
gone = store_of (revoke_device (env memory) 5 (1 ∷ []) lost ticketed)

abbrev later_calls : List (ℕ × Call)
later_calls = (7, Call.touch (codes "dev_01") none none) ∷ []

abbrev later : State
later = run (env memory) later_calls gone

abbrev draws : RefreshDraws
draws = record { token = 6 ∷ []; token_id = 6 ∷ []; access = 6 ∷ []; revocation = 6 ∷ [] }

abbrev asked : RefreshInput
asked = record { device_id = codes "dev_01"; refresh_token = codes "rt_03"; remote_ip = none }

revoked-refresh_example :
    refresh_session (env memory) 8 draws asked later ≡ err device_inactive later
unfolding accessing
revoked-refresh_example =
    revoked-refresh (env memory) 5 (1 ∷ []) lost ticketed gone answer ticketed-IsCoherent refl
      later_calls (tt, tt) 8 draws asked refl

abbrev verified : VerifiedAccessToken
verified = record {
  device_id = codes "dev_09";
  scope = codes "device:self" ∷ codes "relay:connect" ∷ [];
  expires_at = 900000;
  jwt_id = codes "j";
}

revoked-verify_example : codes "dev_09" ≢ codes "dev_01"
unfolding accessing
revoked-verify_example =
    revoked-verify (env memory) 5 (1 ∷ []) lost ticketed gone answer ticketed-IsCoherent refl
      later_calls (tt, tt) 8 (codes "dev_09") (codes "relay:connect" ∷ []) later verified refl

revoked-consume_example : codes "dev_09" ≢ codes "dev_01"
unfolding accessing
revoked-consume_example =
    revoked-consume (env memory) 5 (1 ∷ []) lost ticketed gone answer ticketed-IsCoherent refl
      later_calls (tt, tt) 8 (codes "wst_01")
      (store_of (consume_websocket_ticket (env memory) 8 (codes "wst_01") later)) admitted refl
