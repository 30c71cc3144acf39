-- ===== src/Bridge/Services/Access.antt =====
-- services.ts: access tokens, websocket tickets and the other methods of `BridgeServices`.
-- `ws_url`, the relay's URL with the ticket as its query, is left out.
pub mod Verified
pub mod Tickets
use erg.Prelude.{
  ℕ, ◌+◌, ◌*◌, Bool, true, false, ◌||◌, ◌&&◌, not, Option, none, some, List, [], ◌∷◌, Text, codes,
  leb, ltb, if◌then◌else◌, is_some, text_eq, or_else, map,
}
use erg.Bridge.State.{
  ClientType, DeviceStatus, DeviceRecord, FamilyStatus, RefreshTokenFamilyRecord,
  RefreshTokenRecord, SubjectType, WebSocketTicketRecord, PromptResultRecord, ConnectionEventRecord,
}
use erg.Bridge.Store.{
  State, update_device, get_device_by_id, get_refresh_family_by_id, update_refresh_family,
  list_refresh_tokens_by_family_id, create_revocation, create_websocket_ticket,
  get_websocket_ticket_by_hash, update_websocket_ticket, upsert_prompt_result, get_prompt_result,
  create_connection_event,
}
use erg.Bridge.Ids.{Bytes, create_id, create_opaque_token}
use erg.Bridge.SessionKey.{normalize_conversation_id}
use erg.Bridge.AccessTokens.{VerifiedAccessToken, verify}
use erg.Bridge.Services.{
  device_revoked, access_invalid, invalid_ticket, device_not_found, M, ◌>>=◌, ◌>>◌, return, throw,
  throw_if, modify, gets, or_throw, with_transaction, Env, hash,
}
use erg.Bridge.Services.Refresh.{is_active_device, revoke_tokens}

unfoldable pub verify_access_token : Env → ℕ → Text → List Text → M VerifiedAccessToken
unfolding verify get_device_by_id
verify_access_token env now token required = do
  verified ← or_throw (verify env.jwt now token required) access_invalid
  found ← gets (λ s. get_device_by_id s verified.device_id)
  device ← or_throw found device_revoked
  throw_if (not (is_active_device device.status)) device_revoked
  return verified

pub record WebSocketTicketResponse : Type 0 where
  pub ticket : Text
  pub expires_at : ℕ

abbrev given_or_empty : Option Text → Text
given_or_empty none = []
given_or_empty (some t) = t

-- The device is marked as seen, if it is still there.
abbrev pub touch_seen : ℕ → Option DeviceRecord → State → State
touch_seen now none s = s
touch_seen now (some d) s = update_device (record d { last_seen_at = some now }) s

-- The callback of the transaction that stores a ticket.
unfoldable pub store_ticket :
    Env → ℕ → Text → Bytes → VerifiedAccessToken → Option Text → M (Unit {0})
unfolding normalize_conversation_id create_id hash create_websocket_ticket get_device_by_id
    update_device
store_ticket env now ticket id_bytes verified conversation_id = do
  modify (
      create_websocket_ticket (record {
        ticket_hash = hash env ticket;
        ticket_id = create_id (codes "wstrec") id_bytes;
        device_id = verified.device_id;
        conversation_id =
            normalize_conversation_id (or_else (given_or_empty conversation_id) (codes "default"));
        access_expires_at = verified.expires_at;
        created_at = now;
        expires_at = now + env.config.ws_ticket_ttl_ms;
        used_at = none;
      }))
  found ← gets (λ s. get_device_by_id s verified.device_id)
  modify (touch_seen now found)

unfoldable pub issue_ticket_for :
    Env → ℕ → Bytes → Bytes → Option Text → VerifiedAccessToken → M WebSocketTicketResponse
unfolding create_opaque_token with_transaction
issue_ticket_for env now ticket_bytes id_bytes conversation_id verified = do
  let ticket = create_opaque_token (codes "wst") ticket_bytes
  with_transaction env.config.bridge_store_driver
      (store_ticket env now ticket id_bytes verified conversation_id)
  return (record { ticket = ticket; expires_at = now + env.config.ws_ticket_ttl_ms })

-- `ticket_bytes` and `id_bytes` are drawn for the ticket and for the id of its record.
unfoldable pub issue_websocket_ticket :
    Env → ℕ → Bytes → Bytes → Text → Option Text → M WebSocketTicketResponse
issue_websocket_ticket env now ticket_bytes id_bytes access_token conversation_id = do
  verified ← verify_access_token env now access_token (codes "relay:connect" ∷ [])
  issue_ticket_for env now ticket_bytes id_bytes conversation_id verified

pub record ConsumedWebSocketTicket : Type 0 where
  pub device_id : Text
  pub conversation_id : Text
  pub access_expires_at : ℕ

-- The callback of the transaction.
unfoldable pub consume : Env → ℕ → Text → M ConsumedWebSocketTicket
unfolding hash get_websocket_ticket_by_hash get_device_by_id update_websocket_ticket update_device
consume env now raw_ticket = do
  found ← gets (λ s. get_websocket_ticket_by_hash s (hash env raw_ticket))
  ticket ← or_throw found invalid_ticket
  throw_if (leb ticket.expires_at now || is_some ticket.used_at) invalid_ticket
  found_device ← gets (λ s. get_device_by_id s ticket.device_id)
  device ← or_throw found_device device_revoked
  throw_if (not (is_active_device device.status)) device_revoked
  modify (update_websocket_ticket (record ticket { used_at = some now }))
  modify (update_device (record device { last_seen_at = some now }))
  return (record {
    device_id = ticket.device_id;
    conversation_id = ticket.conversation_id;
    access_expires_at = ticket.access_expires_at;
  })

unfoldable pub consume_websocket_ticket : Env → ℕ → Text → M ConsumedWebSocketTicket
unfolding consume with_transaction
consume_websocket_ticket env now raw_ticket =
    with_transaction env.config.bridge_store_driver (consume env now raw_ticket)

pub record RevokeInput : Type 0 where
  pub device_id : Text
  pub reason : Text
  pub created_by : Text

pub record RevokeDeviceResponse : Type 0 where
  pub device_id : Text
  pub revoked_at : ℕ

abbrev pub revoke_family : Text → Option RefreshTokenFamilyRecord → State → State
revoke_family reason none s = s
revoke_family reason (some f) s =
    update_refresh_family (record f { status = FamilyStatus.revoked; revoke_reason = some reason })
      s

-- The callback of the transaction. `id_bytes` are drawn for the id of the revocation.
unfoldable pub revoke : ℕ → Bytes → RevokeInput → M RevokeDeviceResponse
unfolding get_device_by_id update_device get_refresh_family_by_id update_refresh_family
    list_refresh_tokens_by_family_id revoke_tokens create_revocation create_id
revoke now id_bytes input = do
  found ← gets (λ s. get_device_by_id s input.device_id)
  device ← or_throw found device_not_found
  modify (
      update_device (record device {
        status = DeviceStatus.revoked;
        revoked_at = some now;
        revoke_reason = some input.reason;
      }))
  family ← gets (λ s. get_refresh_family_by_id s device.current_refresh_family_id)
  modify (revoke_family input.reason family)
  tokens ← gets (λ s. list_refresh_tokens_by_family_id s device.current_refresh_family_id)
  modify (revoke_tokens now tokens)
  modify (
      create_revocation (record {
        revocation_id = create_id (codes "rev") id_bytes;
        subject_type = SubjectType.device;
        subject_id = device.device_id;
        reason = input.reason;
        created_at = now;
        created_by = input.created_by;
      }))
  return (record { device_id = device.device_id; revoked_at = now })

unfoldable pub revoke_device : Env → ℕ → Bytes → RevokeInput → M RevokeDeviceResponse
unfolding revoke with_transaction
revoke_device env now id_bytes input =
    with_transaction env.config.bridge_store_driver (revoke now id_bytes input)
