-- ===== src/Glasses/Controller/Replies.antt =====
-- app-controller.ts: how the methods go on when a request has come to an end, and series of calls.
use erg.Prelude.{
  ℕ, Bool, false, Option, none, some, List, [], ◌∷◌, Text, codes, is_some, text_eq, if◌then◌else◌,
}
use erg.Bridge.Services.Register.{RegisterDeviceResponse}
use erg.Glasses.Storage.{StoredDeviceRegistration, save_stored_registration}
use erg.Glasses.PairingForm.{NormalizedPairingForm}
use erg.Glasses.Controller.{
  Controller, connected, paired_v1, legacy_v0, Next, sending_again, Waiting, redeem, register,
  pairing_health, refresh, health, legacy_health, turn, turn_again, legacy_turn, Failure, api_error,
  Reply, Response, persist_client_config, handle_operational_error, prompt_failed, fail_after,
  continue_after, refresh_access_token, refreshed_access_token,
}
use erg.Glasses.Controller.Calls.{
  Field, boot, set_pairing_field, set_prompt_draft, set_legacy_bridge_token, submit_pairing,
  handle_foreground_enter, handle_foreground_exit, handle_abnormal_exit, reconnect,
  refresh_current_session, send_prompt, cancel_or_return_idle, repair,
}

-- The end of a turn.
unfoldable pub replied : Reply → Controller → Controller
replied r c = record c {
  current_abort_controller = none;
  status = connected;
  transport_mode = if is_some c.stored_registration then paired_v1 else legacy_v0;
  last_reply = r.reply;
  pending_prompt_id = none;
  pending_prompt_text = none;
}

-- The registration is kept before the health of the bridge is asked for.
unfoldable pub registered : NormalizedPairingForm → RegisterDeviceResponse → Controller → Next
unfolding save_stored_registration
registered form answer c =
    let r : StoredDeviceRegistration = record {
      relay_base_url = form.relay_base_url;
      device_id = answer.device_id;
      refresh_token = answer.refresh_token;
      device_display_name = form.device_display_name;
      default_conversation_id = answer.default_conversation_id;
    } in
    (
      record c {
        access_token = answer.access_token;
        storage = save_stored_registration r c.storage;
        stored_registration = some r;
        access_token_expires_at = some answer.access_expires_at;
        pairing_code = [];
        relay_base_url = r.relay_base_url;
        device_display_name = r.device_display_name;
      },
      some (pairing_health r.relay_base_url),
    )

-- A request came to its answer.
unfoldable pub returned : (w : Waiting) → Response w → Controller → Next
unfolding registered persist_client_config refreshed_access_token continue_after replied
returned (redeem form) answer c = (c, some (register form answer.bootstrap_token))
returned (register form bootstrap_token) answer c = registered form answer c
returned (pairing_health url) answer c =
    (persist_client_config (record c { status = connected; transport_mode = paired_v1 }), none)
returned (refresh r after) answer c = continue_after after (refreshed_access_token answer r c)
returned (health url) answer c = (record c { status = connected; transport_mode = paired_v1 }, none)
returned (legacy_health url token) answer c =
    (record c { status = connected; transport_mode = legacy_v0 }, none)
returned (turn token t) answer c = (replied answer c, none)
returned (turn_again token t) answer c = (replied answer c, none)
returned (legacy_turn p) answer c = (replied answer c, none)

abbrev pub is_access_invalid : Failure → Bool
is_access_invalid (api_error (some code)) = text_eq code (codes "access_invalid")
is_access_invalid _ = false

-- A request threw. A first turn whose access token is refused is sent again after a refresh.
unfoldable pub threw : Waiting → Failure → Controller → Next
unfolding handle_operational_error fail_after prompt_failed refresh_access_token
threw (redeem form) e c = (handle_operational_error e c, none)
threw (register form bootstrap_token) e c = (handle_operational_error e c, none)
threw (pairing_health url) e c = (handle_operational_error e c, none)
threw (refresh r after) e c = (fail_after after e c, none)
threw (health url) e c = (handle_operational_error e c, none)
threw (legacy_health url token) e c = (handle_operational_error e c, none)
threw (turn token t) e c =
    if is_access_invalid e
    then refresh_access_token (sending_again t) c
    else (prompt_failed e c, none)
threw (turn_again token t) e c = (prompt_failed e c, none)
threw (legacy_turn p) e c = (prompt_failed e c, none)

-- A call of the page or of the glasses, or the end of a request.
pub data Event : Type 0 where
  boots : ℕ → Event
  sets_field : Field → Text → Event
  sets_draft : Text → Event
  sets_token : Text → Event
  submits : (Text → Text) → (Text → Option Text) → Event
  enters : ℕ → Event
  exits : Event
  exits_abnormally : Event
  reconnects : ℕ → Event
  refreshes : Event
  sends : ℕ → Text → Event
  cancels : Event
  repairs : Event
  returns : (w : Waiting) → Response w → Event
  throws : Waiting → Failure → Event

unfoldable pub step : Event → Controller → Next
unfolding boot set_pairing_field set_prompt_draft set_legacy_bridge_token submit_pairing
    handle_foreground_enter handle_foreground_exit handle_abnormal_exit reconnect
    refresh_current_session send_prompt cancel_or_return_idle repair returned threw
step (boots now) c = boot now c
step (sets_field field value) c = (set_pairing_field field value c, none)
step (sets_draft value) c = (set_prompt_draft value c, none)
step (sets_token value) c = (set_legacy_bridge_token value c, none)
step (submits upper_case protocol_of) c = submit_pairing upper_case protocol_of c
step (enters now) c = handle_foreground_enter now c
step exits c = (handle_foreground_exit c, none)
step exits_abnormally c = (handle_abnormal_exit c, none)
step (reconnects now) c = reconnect now c
step refreshes c = refresh_current_session c
step (sends now new_id) c = send_prompt now new_id c
step cancels c = (cancel_or_return_idle c, none)
step repairs c = (repair c, none)
step (returns w answer) c = returned w answer c
step (throws w e) c = threw w e c

unfoldable pub run : List Event → Controller → Controller
unfolding step
run [] c = c
run (e ∷ events) c = run events (step e c).0
