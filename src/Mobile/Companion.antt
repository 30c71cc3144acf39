-- ===== src/Mobile/Companion.antt =====
-- mobile/src/mobile-companion.ts, secure-storage.ts and repair.ts. A method acts on the controller with
-- what it holds: the item in the secure storage, the relay session and the calls of the Bluetooth
-- bridge, which are recorded. A request of `MobileAuthClient` is a function from what is asked to what
-- comes of it. `JSON.stringify` and `JSON.parse` are read as the record that they carry, and the text
-- of a date as its number of milliseconds, if it is one.
mod Registration
mod Repair
pub mod Storage
pub mod Bridged
unfoldable pub use Registration.*
unfoldable pub use Repair.*
use erg.Prelude.{
  ℕ, ◌+◌, Bool, true, false, not, ◌||◌, Option, none, some, List, [], ◌∷◌, ◌++◌, Text, codes,
  is_empty, or_else, text_eq, leb, if◌then◌else◌,
}
use erg.Bridge.State.{ClientType, mobile, even_hub}
use erg.Bridge.Services.Pairing.{RedeemPairingResponse}
use erg.Bridge.Services.Register.{RegisterDeviceResponse}
use erg.Bridge.Services.Refresh.{RefreshSessionResponse}
use erg.Mobile.Session
use erg.Mobile.Session.{
  Session, WebSocketTicketResponse, ReconnectPolicy, replace_ticket, handle_network_recovered,
}

pub data BleCall : Type 0 where
  connect : Text → BleCall
  disconnect : BleCall

pub record Companion : Type 0 where
  pub storage : Option Item
  pub registration : Option DeviceRegistration
  pub access_token : Text
  pub access_token_expires_at : Option ℕ
  pub latest_ticket : Option WebSocketTicketResponse
  pub session : Session
  pub ble : List BleCall

-- The controller of an app that has been started, before `restore`.
abbrev pub started : Option Item → Companion
started storage = record {
  storage = storage;
  registration = none;
  access_token = [];
  access_token_expires_at = none;
  latest_ticket = none;
  session = Session.initial;
  ble = [];
}

-- What a request comes to. `rejected` carries the code of a `MobileApiError`, if it has one.
pub data Api (A : Type 0) : Type 0 where
  returned : A → Api A
  rejected : Option Text → Api A

pub data Failure : Type 0 where
  not_paired : Failure
  request_failed : Option Text → Failure
  socket_not_open : Failure

pub data Result (A : Type 0) : Type 0 where
  ok : A → Companion → Result A
  failed : Failure → Companion → Result A

abbrev pub M : Type 0 → Type 0
M A = Companion → Result A

infixl 5 ◌>>=◌ ◌>>◌
abbrev pub ◌>>=◌ : {A B : Type 0} → M A → (A → M B) → M B
◌>>=◌ m f c = elim (m c) [ ok a c' ↦ f a c' | failed e c' ↦ failed e c' ]

abbrev pub ◌>>◌ : {B : Type 0} → M (Unit {0}) → M B → M B
◌>>◌ m k c = elim (m c) [ ok a c' ↦ k c' | failed e c' ↦ failed e c' ]

abbrev pub return : {A : Type 0} → A → M A
return a c = ok a c

abbrev pub gets : {A : Type 0} → (Companion → A) → M A
gets f c = ok (f c) c

abbrev pub modify : (Companion → Companion) → M (Unit {0})
modify f c = ok tt (f c)

abbrev pub await : {A : Type 0} → Api A → M A
await (returned a) c = ok a c
await (rejected code) c = failed (request_failed code) c

abbrev pub companion_of : {A : Type 0} → Result A → Companion
companion_of (ok a c) = c
companion_of (failed e c) = c

unfoldable pub restore : Companion → Companion
unfolding load
restore c = record c { registration = load c.storage }

-- `requireRegistration`
abbrev pub registered : Option DeviceRegistration → M DeviceRegistration
registered none c = failed not_paired c
registered (some r) c = ok r c

unfoldable pub require_registration : M DeviceRegistration
require_registration c = registered c.registration c

abbrev pub access_refresh_window_ms : ℕ
access_refresh_window_ms = 60000

unfoldable pub expires_within : Option ℕ → ℕ → ℕ → Bool
expires_within none threshold_ms now = true
expires_within (some t) threshold_ms now = leb t (now + threshold_ms)

pub record PairInput : Type 0 where
  pub relay_base_url : Text
  pub pairing_session_id : Option Text
  pub pairing_code : Text
  pub device_display_name : Text
  pub platform : Text
  pub app_version : Text

-- The bodies of the requests. The client type of a registration is "mobile".
pub record RedeemRequest : Type 0 where
  pub pairing_session_id : Option Text
  pub pairing_code : Text

pub record RegisterRequest : Type 0 where
  pub bootstrap_token : Text
  pub device_display_name : Text
  pub platform : Text
  pub app_version : Text

pub record RefreshRequest : Type 0 where
  pub device_id : Text
  pub refresh_token : Text

-- The write of a registration to the controller and to the storage.
abbrev pub remember : DeviceRegistration → Text → ℕ → Companion → Companion
remember r access_token expires_at c = record c {
  access_token = access_token;
  access_token_expires_at = some expires_at;
  registration = some r;
  storage = some (save r);
}

unfoldable pub pair :
    (RedeemRequest → Api RedeemPairingResponse)
    → (RegisterRequest → Api RegisterDeviceResponse)
    → PairInput
    → M DeviceRegistration
unfolding save
pair redeem register input = do
  redeemed ← await (
      redeem (record {
        pairing_session_id = input.pairing_session_id;
        pairing_code = input.pairing_code;
      }))
  answer ← await (
      register (record {
        bootstrap_token = redeemed.bootstrap_token;
        device_display_name = input.device_display_name;
        platform = input.platform;
        app_version = input.app_version;
      }))
  let registration : DeviceRegistration = record {
    relay_base_url = input.relay_base_url;
    device_id = answer.device_id;
    refresh_token = answer.refresh_token;
    device_display_name = input.device_display_name;
    default_conversation_id = answer.default_conversation_id;
    client_type = answer.client_type;
  }
  modify (remember registration answer.access_token answer.access_expires_at)
  return registration

-- The part of `ensureFreshSession` that asks for a new session.
unfoldable pub renew :
    (RefreshRequest → Api RefreshSessionResponse) → DeviceRegistration → M (Unit {0})
unfolding save
renew refresh r = do
  refreshed ← await (refresh (record { device_id = r.device_id; refresh_token = r.refresh_token }))
  modify (
      remember (record r { refresh_token = refreshed.refresh_token }) refreshed.access_token
        refreshed.access_expires_at)

unfoldable pub ensure_fresh_session :
    ℕ → (RefreshRequest → Api RefreshSessionResponse) → M (Unit {0})
unfolding require_registration expires_within renew
ensure_fresh_session now refresh = do
  r ← require_registration
  stale ← gets (λ c.
      is_empty c.access_token
      || expires_within c.access_token_expires_at access_refresh_window_ms now)
  if stale then renew refresh r else return tt

-- `issueWebSocketTicket` with an access token, for a conversation.
abbrev Issue : Type 0
Issue = Text → Text → Api WebSocketTicketResponse

abbrev pub given_or : Option Text → Text → Text
given_or none d = d
given_or (some t) d = or_else t d

-- `connect` of the controller.
unfoldable pub connect_relay :
    ℕ → (RefreshRequest → Api RefreshSessionResponse) → Issue → Option Text → M (Unit {0})
unfolding require_registration ensure_fresh_session Session.connect
connect_relay now refresh issue conversation_id = do
  r ← require_registration
  ensure_fresh_session now refresh
  let resolved = given_or conversation_id r.default_conversation_id
  access_token ← gets (λ c. c.access_token)
  ticket ← await (issue access_token resolved)
  modify (λ c. record c {
    latest_ticket = some ticket;
    session = Session.connect ticket resolved none none c.session;
    ble = c.ble ++ connect r.device_id ∷ [];
  })

abbrev recover :
    ReconnectPolicy
    → (ℕ → ℕ)
    → Issue
    → Option WebSocketTicketResponse
    → Option DeviceRegistration
    → M (Unit {0})
recover policy portion issue none r = return tt
recover policy portion issue (some old) none = return tt
recover policy portion issue (some old) (some r) = do
  access_token ← gets (λ c. c.access_token)
  ticket ← await (issue access_token r.default_conversation_id)
  modify (λ c. record c {
    latest_ticket = some ticket;
    session = handle_network_recovered policy portion (replace_ticket ticket c.session);
  })

unfoldable pub reconnect_after_network_recovery :
    ReconnectPolicy
    → (ℕ → ℕ)
    → ℕ
    → (RefreshRequest → Api RefreshSessionResponse)
    → Issue
    → M (Unit {0})
unfolding ensure_fresh_session handle_network_recovered replace_ticket
reconnect_after_network_recovery policy portion now refresh issue = do
  ensure_fresh_session now refresh
  ticket ← gets (λ c. c.latest_ticket)
  registration ← gets (λ c. c.registration)
  recover policy portion issue ticket registration

abbrev prompted : Companion → Session × Bool → Result (Unit {0})
prompted c (session, thrown) =
    let sent : Companion = record c { session = session } in
    if thrown then failed socket_not_open sent else ok tt sent

unfoldable pub send_prompt :
    ℕ → (RefreshRequest → Api RefreshSessionResponse) → Text → Text → M (Unit {0})
unfolding ensure_fresh_session Session.send_prompt
send_prompt now refresh prompt_id text = do
  ensure_fresh_session now refresh
  λ c. prompted c (Session.send_prompt prompt_id text c.session)

unfoldable pub clear_registration : Companion → Companion
unfolding Session.disconnect
clear_registration c = record c {
  storage = none;
  registration = none;
  access_token = [];
  access_token_expires_at = none;
  latest_ticket = none;
  ble = c.ble ++ BleCall.disconnect ∷ [];
  session = Session.disconnect c.session;
}

abbrev needs_pairing : RepairAction → Bool
needs_pairing re_pair = true
needs_pairing _ = false

-- `repairFromError`; the code is that of a `MobileApiError`, and no other error has one.
unfoldable pub repair_from_error : Option Text → Companion → Companion × Text
unfolding derive_repair_state clear_registration
repair_from_error code c =
    let repair = derive_repair_state code in
    (if needs_pairing repair.recommended_action then clear_registration c else c, repair.message)
