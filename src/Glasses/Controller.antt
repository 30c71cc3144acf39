-- ===== src/Glasses/Controller.antt =====
-- glasses/src/app-controller.ts and session.ts. A method is cut where it waits for a request to the
-- bridge: it gives the controller with the request that it waits for, if any, and its rest runs when
-- the request has come to an end. The local storage answers before anything else happens. The texts
-- that are only shown (statusDetail, hudText and lastError) and the listeners are left out.
pub mod Calls
pub mod Replies
pub mod Pending
pub mod Undone
use erg.Prelude.{
  ℕ, ◌+◌, Bool, true, false, not, ◌&&◌, ◌||◌, Option, none, some, List, [], ◌∷◌, Text, codes,
  is_empty, is_some, text_eq, trim, leb, if◌then◌else◌,
}
use erg.Bridge.Services.Pairing.{RedeemPairingResponse}
use erg.Bridge.Services.Register.{RegisterDeviceResponse}
use erg.Bridge.Services.Refresh.{RefreshSessionResponse}
use erg.Glasses.Storage
use erg.Glasses.Storage.{
  StoredClientConfig, StoredDeviceRegistration, save_stored_client_config, save_stored_registration,
}
use erg.Glasses.PairingForm.{PairingFormErrors, NormalizedPairingForm}

pub data AppStatus : Type 0 where
  booting unpaired pairing connected request_in_progress repair_required reconnect_needed :
      AppStatus

pub data TransportMode : Type 0 where
  no_transport paired_v1 legacy_v0 : TransportMode

-- The snapshot and the private fields. An abort controller is named by its number among those that
-- were made, and `aborted` holds those that were aborted.
pub record Controller : Type 0 where
  pub status : AppStatus
  pub transport_mode : TransportMode
  pub last_reply : Text
  pub relay_base_url : Text
  pub legacy_bridge_token : Text
  pub install_id : Text
  pub pairing_code : Text
  pub device_display_name : Text
  pub prompt_draft : Text
  pub pairing_errors : PairingFormErrors
  pub access_token_expires_at : Option ℕ
  pub stored_registration : Option StoredDeviceRegistration
  pub pending_prompt_id : Option Text
  pub pending_prompt_text : Option Text
  pub access_token : Text
  pub current_abort_controller : Option ℕ
  pub abort_controllers : ℕ
  pub aborted : List ℕ
  pub backgrounded : Bool
  pub storage : Storage.Storage

-- The errors that a method catches: a `BridgeApiError` with its code, an `AbortError` or another one.
pub data Failure : Type 0 where
  api_error : Option Text → Failure
  abort_error : Failure
  other_error : Failure

-- A prompt that is being sent.
pub record Prompt : Type 0 where
  pub prompt_id : Text
  pub text : Text
  pub abort_controller : ℕ

-- A turn, as `sendTurnWithRetry` holds it.
pub record PairedTurn : Type 0 where
  pub relay_base_url : Text
  pub conversation_id : Text
  pub prompt : Prompt

-- What is done once the session is fresh.
pub data After : Type 0 where
  resuming : After
  refreshing : After
  sending : Prompt → After
  sending_again : PairedTurn → After

-- A request that a method waits for. A turn comes with its access token.
pub data Waiting : Type 0 where
  redeem : NormalizedPairingForm → Waiting
  register : NormalizedPairingForm → Text → Waiting
  pairing_health : Text → Waiting
  refresh : StoredDeviceRegistration → After → Waiting
  health : Text → Waiting
  legacy_health : Text → Text → Waiting
  turn : Text → PairedTurn → Waiting
  turn_again : Text → PairedTurn → Waiting
  legacy_turn : Prompt → Waiting

-- What a turn is answered with.
pub record Reply : Type 0 where
  pub reply : Text
  pub request_id : Text

abbrev pub Response : Waiting → Type 0
Response (redeem form) = RedeemPairingResponse
Response (register form bootstrap_token) = RegisterDeviceResponse
Response (pairing_health url) = Unit
Response (refresh r after) = RefreshSessionResponse
Response (health url) = Unit
Response (legacy_health url token) = Unit
Response (turn token t) = Reply
Response (turn_again token t) = Reply
Response (legacy_turn p) = Reply

abbrev pub Next : Type 0
Next = Controller × Option Waiting

-- `hasLegacyConfig`
unfoldable pub has_legacy_config : Controller → Bool
unfolding trim
has_legacy_config c =
    not (is_empty (trim c.relay_base_url)) && not (is_empty (trim c.legacy_bridge_token))

-- `snapshot.storedRegistration || hasLegacyConfig(snapshot)`
abbrev pub is_usable : Controller → Bool
is_usable c = is_some c.stored_registration || has_legacy_config c

abbrev pub usable_transport : Controller → TransportMode
usable_transport c =
    if is_some c.stored_registration
    then paired_v1
    else if has_legacy_config c
    then legacy_v0
    else no_transport

abbrev pub config_of : Controller → StoredClientConfig
config_of c = record {
  relay_base_url = c.relay_base_url;
  device_display_name = c.device_display_name;
  legacy_bridge_token = c.legacy_bridge_token;
  install_id = c.install_id;
  prompt_draft = c.prompt_draft;
}

-- `persistClientConfig`
unfoldable pub persist_client_config : Controller → Controller
unfolding save_stored_client_config
persist_client_config c = record c { storage = save_stored_client_config (config_of c) c.storage }

unfoldable pub is_repair_required_code : Text → Bool
unfolding text_eq
is_repair_required_code code =
    text_eq code (codes "device_revoked")
    || text_eq code (codes "device_inactive")
    || text_eq code (codes "refresh_reuse_detected")

abbrev is_repair_required : Failure → Bool
is_repair_required (api_error (some code)) = is_repair_required_code code
is_repair_required _ = false

unfoldable pub handle_operational_error : Failure → Controller → Controller
unfolding is_repair_required_code has_legacy_config
handle_operational_error e c =
    if is_repair_required e
    then record c { access_token = []; status = repair_required }
    else record c {
      status = if is_usable c then reconnect_needed else unpaired;
      transport_mode = usable_transport c;
    }

-- The `catch` of `sendPrompt`.
unfoldable pub prompt_failed : Failure → Controller → Controller
unfolding handle_operational_error
prompt_failed abort_error c = record c {
  current_abort_controller = none;
  status = if c.backgrounded then reconnect_needed else connected;
}
prompt_failed (api_error code) c =
    handle_operational_error (api_error code) (record c { current_abort_controller = none })
prompt_failed other_error c =
    handle_operational_error other_error (record c { current_abort_controller = none })

-- The `catch` of the method that wanted a fresh session.
unfoldable pub fail_after : After → Failure → Controller → Controller
unfolding handle_operational_error prompt_failed
fail_after resuming e c = handle_operational_error e c
fail_after refreshing e c = handle_operational_error e c
fail_after (sending p) e c = prompt_failed e c
fail_after (sending_again t) e c = prompt_failed e c

abbrev go_on : After → StoredDeviceRegistration → Controller → Next
go_on resuming r c = (c, some (health r.relay_base_url))
go_on refreshing r c = (record c { status = connected }, none)
go_on (sending p) r c = (
  c,
  some (
      turn c.access_token (record {
        relay_base_url = r.relay_base_url;
        conversation_id = r.default_conversation_id;
        prompt = p;
      })),
)
go_on (sending_again t) r c = (c, some (turn_again c.access_token t))

-- What follows once the session is fresh; `requireStoredRegistration` may throw first.
unfoldable pub continue_after : After → Controller → Next
unfolding fail_after
continue_after after c = elim c.stored_registration [
  | none ↦ (fail_after after other_error c, none)
  | some r ↦ go_on after r c
]

-- `refreshAccessToken`, up to its wait.
unfoldable pub refresh_access_token : After → Controller → Next
unfolding fail_after
refresh_access_token after c = elim c.stored_registration [
  | none ↦ (fail_after after other_error c, none)
  | some r ↦ (c, some (refresh r after))
]

-- The rest of `refreshAccessToken`, with the registration that it began with.
unfoldable pub refreshed_access_token :
    RefreshSessionResponse → StoredDeviceRegistration → Controller → Controller
unfolding save_stored_registration persist_client_config
refreshed_access_token refreshed registration c =
    let renewed : StoredDeviceRegistration = record registration {
      refresh_token = refreshed.refresh_token;
    } in
    persist_client_config (record c {
      access_token = refreshed.access_token;
      storage = save_stored_registration renewed c.storage;
      stored_registration = some renewed;
      access_token_expires_at = some refreshed.access_expires_at;
      relay_base_url = renewed.relay_base_url;
      device_display_name = renewed.device_display_name;
      transport_mode = paired_v1;
    })

abbrev access_refresh_window_ms : ℕ
access_refresh_window_ms = 60000

unfoldable pub expires_within : Option ℕ → ℕ → ℕ → Bool
expires_within none threshold_ms now = true
expires_within (some t) threshold_ms now = leb t (now + threshold_ms)

-- `ensureFreshSession`, and what follows it.
unfoldable pub ensure_fresh_session : ℕ → After → Controller → Next
unfolding expires_within refresh_access_token continue_after
ensure_fresh_session now after c =
    if is_empty c.access_token
      || expires_within c.access_token_expires_at access_refresh_window_ms now
    then refresh_access_token after c
    else continue_after after c

unfoldable pub resume_stored_session : ℕ → Controller → Next
unfolding ensure_fresh_session
resume_stored_session now c = ensure_fresh_session now resuming (record c { status = booting })

unfoldable pub resume_legacy_session : Controller → Next
resume_legacy_session c = (
  record c { status = booting; transport_mode = legacy_v0 },
  some (legacy_health c.relay_base_url c.legacy_bridge_token),
)
