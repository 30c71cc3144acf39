-- ===== src/Mobile/Session/Data.antt =====
-- mobile/src/reconnect.ts, and the messages and the state of mobile/src/websocket-session.ts.
use erg.Prelude.{ℕ, ◌*◌, ◌^◌, min, Bool, Option, none, List, [], Text, codes}

pub record ReconnectPolicy : Type 0 where
  pub initial_delay_ms : ℕ
  pub max_delay_ms : ℕ

abbrev pub default_reconnect_policy : ReconnectPolicy
default_reconnect_policy = record { initial_delay_ms = 1000; max_delay_ms = 30000 }

-- `portion b` is `Math.floor(random() * b)`.
unfoldable pub calculate_reconnect_delay_ms : ℕ → ReconnectPolicy → (ℕ → ℕ) → ℕ
calculate_reconnect_delay_ms attempt policy portion =
    portion (min (policy.initial_delay_ms * 2 ^ attempt) policy.max_delay_ms)

pub record WebSocketTicketResponse : Type 0 where
  pub ticket : Text
  pub ws_url : Text

pub data Status : Type 0 where
  idle connecting connected reconnecting closed : Status

pub record SessionState : Type 0 where
  pub status : Status
  pub connection_id : Option Text
  pub access_token_expires_at : Option Text
  pub last_event_id : Option Text

pub data ClientMessage : Type 0 where
  hello : Text → ClientMessage
  resume : Text → Option Text → Option Text → ClientMessage
  pong : Text → ClientMessage
  prompt : Text → Text → Text → ClientMessage

-- The messages of the relay that the session reads; `other` stands for token.expiring, revoked and
-- error.
pub data ServerMessage : Type 0 where
  ready : Text → Text → ServerMessage
  reply_delta : Text → ServerMessage
  reply_final : Text → Text → ServerMessage
  ping : Text → ServerMessage
  other : ServerMessage

-- A socket, with the arguments of `connect` that its `onopen` holds. `is_open` is `readyState === 1`.
pub record Socket : Type 0 where
  pub url : Text
  pub is_open : Bool
  pub conversation_id : Text
  pub last_event_id : Option Text
  pub pending_prompt_id : Option Text

-- A socket is named by its place among those that were made.
pub record Session : Type 0 where
  pub sockets : List Socket
  pub socket : Option ℕ
  pub reconnect_timer : Option ℕ
  pub reconnect_attempt : ℕ
  pub last_ticket : Option WebSocketTicketResponse
  pub last_conversation_id : Text
  pub pending_prompt_id : Option Text
  pub last_event_id : Option Text
  pub state : SessionState
  pub sent : List (ℕ × ClientMessage)

abbrev pub initial : Session
initial = record {
  sockets = [];
  socket = none;
  reconnect_timer = none;
  reconnect_attempt = 0;
  last_ticket = none;
  last_conversation_id = codes "default";
  pending_prompt_id = none;
  last_event_id = none;
  state = record {
    status = idle;
    connection_id = none;
    access_token_expires_at = none;
    last_event_id = none;
  };
  sent = [];
}
