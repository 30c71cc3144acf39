-- ===== src/Bridge/Services/Access/Tickets.antt =====
-- services.ts: when `consumeWebSocketTicket` returns, and that a ticket is good once.
use erg.Prelude.{ℕ, ◌<◌, ◌≡◌, none, some, Text, arith, set, get-set_self, Option-cases, inl, inr}
use erg.Bridge.State.{DeviceStatus, DeviceRecord, WebSocketTicketRecord}
use erg.Bridge.Store.{
  State, get_device_by_id, get_websocket_ticket_by_hash, update_websocket_ticket, update_device,
}
use erg.Bridge.Store.Coherent.{IsCoherent}
use erg.Bridge.Services.{ok, err, invalid_ticket, Env, hash}
use erg.Bridge.Services.Transactions.{with_transaction-ok, with_transaction-err}
use erg.Bridge.Services.Access.{ConsumedWebSocketTicket, consume, consume_websocket_ticket}

-- What a call that returned has found, and the ticket that it leaves.
pub record Consumed (env : Env) (now : ℕ) (raw : Text) (s s' : State) (t : ConsumedWebSocketTicket)
    : Type 0 where
  pub ticket : WebSocketTicketRecord
  pub device : DeviceRecord
  pub ticket_found : get_websocket_ticket_by_hash s (hash env raw) ≡ some ticket
  pub unused : ticket.used_at ≡ none
  pub unexpired : now < ticket.expires_at
  pub device_found : get_device_by_id s ticket.device_id ≡ some device
  pub device_active : device.status ≡ DeviceStatus.active
  pub same_device : t.device_id ≡ ticket.device_id
  pub same_conversation : t.conversation_id ≡ ticket.conversation_id
  pub tickets :
      s'.websocket_tickets
      ≡ set s.websocket_tickets ticket.ticket_hash (record ticket { used_at = some now })

pub consume-Consumed :
    (env : Env) (now : ℕ) (raw : Text) (s s' : State) (t : ConsumedWebSocketTicket)
    → consume_websocket_ticket env now raw s ≡ ok t s'
    → Consumed env now raw s s' t
unfolding consume_websocket_ticket consume update_websocket_ticket update_device
consume-Consumed env now raw s s' t e =
    let ran = with_transaction-ok env.config.bridge_store_driver _ s s' t e in
    elim (Option-cases (get_websocket_ticket_by_hash s (hash env raw))) [
      | inl missing ↦ absurd (ground (arith, missing, ran))
      | inr (ticket, ft) ↦ elim (Option-cases (get_device_by_id s ticket.device_id)) [
        | inl missing ↦ absurd (ground (arith, ft, missing, ran))
        | inr (device, fd) ↦ record {
          ticket = ticket;
          device = device;
          ticket_found = ft;
          unused = ground (arith, ft, fd, ran);
          unexpired = ground (arith, ft, fd, ran);
          device_found = fd;
          device_active = ground (arith, ft, fd, ran);
          same_device = ground (arith, ft, fd, ran);
          same_conversation = ground (arith, ft, fd, ran);
          tickets = ground (arith, ft, fd, ran);
        }
      ]
    ]

-- A ticket admits once: right after a call that returned, in either store and over coherent tables, a
-- call with the same ticket throws `invalid_ticket` and changes nothing.
pub consume_twice :
    (env : Env) (now later : ℕ) (raw : Text) (s s' : State) (t : ConsumedWebSocketTicket)
    → IsCoherent s
    → consume_websocket_ticket env now raw s ≡ ok t s'
    → consume_websocket_ticket env later raw s' ≡ err invalid_ticket s'
consume_twice env now later raw s s' t c first =
    let z = consume-Consumed env now raw s s' t first in
    let used : WebSocketTicketRecord = record z.ticket { used_at = some now } in
    let at : get_websocket_ticket_by_hash s' (hash env raw) ≡ some used =
      unfold get_websocket_ticket_by_hash in
      cc (
        z.tickets,
        c.tickets (hash env raw) z.ticket z.ticket_found,
        get-set_self s.websocket_tickets z.ticket.ticket_hash used,
      ) in
    unfold consume_websocket_ticket consume in
    with_transaction-err env.config.bridge_store_driver _ s' invalid_ticket (ground (arith, at))
