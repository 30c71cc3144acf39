-- ===== src/Glasses/Controller/Calls.antt =====
-- app-controller.ts: the methods that the page and the glasses call.
use erg.Prelude.{
  ℕ, ◌+◌, true, false, not, ◌&&◌, ◌||◌, Option, none, some, [], ◌∷◌, Text, is_empty, is_some,
  get_or, or_else, trim, if◌then◌else◌,
}
use erg.Glasses.Storage.{
  StoredClientConfig, StoredDeviceRegistration, load_stored_client_config, load_stored_registration,
  save_stored_client_config, clear_stored_registration,
}
use erg.Glasses.PairingForm.{Validation, accepted, refused, validate_pairing_form}
use erg.Glasses.Controller.{
  Controller, booting, unpaired, pairing, connected, request_in_progress, reconnect_needed,
  no_transport, legacy_v0, Next, Prompt, sending, refreshing, redeem, legacy_turn,
  has_legacy_config, is_usable, usable_transport, config_of, persist_client_config,
  refresh_access_token, ensure_fresh_session, resume_stored_session, resume_legacy_session,
}

abbrev pub with_config : StoredClientConfig → Controller → Controller
with_config d c = record c {
  relay_base_url = d.relay_base_url;
  device_display_name = d.device_display_name;
  legacy_bridge_token = d.legacy_bridge_token;
  install_id = d.install_id;
  prompt_draft = d.prompt_draft;
}

abbrev pub boot_with : ℕ → Option StoredDeviceRegistration → Controller → Next
boot_with now none c = if has_legacy_config c then resume_legacy_session c else (
  record c { status = unpaired; stored_registration = none; transport_mode = no_transport },
  none,
)
boot_with now (some r) c = resume_stored_session now (record c {
  relay_base_url = r.relay_base_url;
  device_display_name = r.device_display_name;
  stored_registration = some r;
})

unfoldable pub boot : ℕ → Controller → Next
unfolding load_stored_client_config save_stored_client_config load_stored_registration
    has_legacy_config resume_legacy_session resume_stored_session
boot now c =
    let d = load_stored_client_config c.storage (config_of c) in
    let storage = save_stored_client_config d c.storage in
    boot_with now (load_stored_registration storage)
      (with_config d (record c { status = booting; storage = storage }))

-- `setPairingField` for each of its fields.
pub data Field : Type 0 where
  relay_base_url pairing_code device_display_name : Field

unfoldable pub set_pairing_field : Field → Text → Controller → Controller
unfolding persist_client_config
set_pairing_field Field.relay_base_url value c = persist_client_config (record c {
  relay_base_url = value;
  pairing_errors = record c.pairing_errors { relay_base_url = none };
})
set_pairing_field Field.pairing_code value c = record c {
  pairing_code = value;
  pairing_errors = record c.pairing_errors { pairing_code = none };
}
set_pairing_field Field.device_display_name value c = persist_client_config (record c {
  device_display_name = value;
  pairing_errors = record c.pairing_errors { device_display_name = none };
})

unfoldable pub set_prompt_draft : Text → Controller → Controller
unfolding persist_client_config
set_prompt_draft value c = persist_client_config (record c { prompt_draft = value })

unfoldable pub set_legacy_bridge_token : Text → Controller → Controller
unfolding persist_client_config
set_legacy_bridge_token value c = persist_client_config (record c { legacy_bridge_token = value })

abbrev pub submit_valid : Validation → Controller → Next
submit_valid (refused errors) c = (record c { pairing_errors = errors }, none)
submit_valid (accepted form) c = (
  record c {
    status = pairing;
    pairing_errors = record {
      relay_base_url = none;
      pairing_code = none;
      device_display_name = none;
    };
  },
  some (redeem form),
)

-- `submitPairing`, up to its first wait; `upper_case` and `protocol_of` are as in the form.
unfoldable pub submit_pairing : (Text → Text) → (Text → Option Text) → Controller → Next
unfolding validate_pairing_form
submit_pairing upper_case protocol_of c =
    submit_valid
      (validate_pairing_form upper_case protocol_of (record {
        relay_base_url = c.relay_base_url;
        pairing_code = c.pairing_code;
        device_display_name = c.device_display_name;
      }))
      c

-- `reconnect`, which `handleForegroundEnter` repeats after it has cleared `backgrounded`.
unfoldable pub reconnect : ℕ → Controller → Next
unfolding has_legacy_config resume_legacy_session resume_stored_session
reconnect now c =
    if not (is_some c.stored_registration) && has_legacy_config c
    then resume_legacy_session c
    else if not (is_some c.stored_registration)
    then (record c { status = unpaired }, none)
    else resume_stored_session now c

unfoldable pub handle_foreground_enter : ℕ → Controller → Next
unfolding reconnect
handle_foreground_enter now c = reconnect now (record c { backgrounded = false })

-- `currentAbortController?.abort()` and its reset.
abbrev pub abort_current : Controller → Controller
abort_current c = record c {
  current_abort_controller = none;
  aborted = elim c.current_abort_controller [ none ↦ c.aborted | some i ↦ i ∷ c.aborted ];
}

unfoldable pub handle_foreground_exit : Controller → Controller
unfolding has_legacy_config
handle_foreground_exit c = record (abort_current c) {
  backgrounded = true;
  status = if is_usable c then reconnect_needed else unpaired;
}

unfoldable pub handle_abnormal_exit : Controller → Controller
unfolding has_legacy_config
handle_abnormal_exit c = record (abort_current c) {
  status = if is_usable c then reconnect_needed else unpaired;
}

-- `refreshCurrentSession`, up to its wait.
unfoldable pub refresh_current_session : Controller → Next
unfolding refresh_access_token
refresh_current_session c =
    if is_some c.stored_registration then refresh_access_token refreshing c else (c, none)

abbrev pub prompt_of : Text → Text → Controller → Prompt
prompt_of prompt_id text c = record {
  prompt_id = prompt_id;
  text = text;
  abort_controller = c.abort_controllers;
}

abbrev pub with_prompt : Text → Text → Controller → Controller
with_prompt prompt_id text c = record c {
  current_abort_controller = some c.abort_controllers;
  abort_controllers = c.abort_controllers + 1;
  status = request_in_progress;
  pending_prompt_id = some prompt_id;
  pending_prompt_text = some text;
}

-- The part of `sendPrompt` that sends.
unfoldable pub start_prompt : ℕ → Text → Text → Controller → Next
unfolding ensure_fresh_session
start_prompt now prompt_id text c =
    if is_some c.stored_registration
    then ensure_fresh_session now (sending (prompt_of prompt_id text c))
        (with_prompt prompt_id text c)
    else (with_prompt prompt_id text c, some (legacy_turn (prompt_of prompt_id text c)))

-- `sendPrompt`, up to its wait; `new_id` is what `createPromptId` gives.
unfoldable pub send_prompt : ℕ → Text → Controller → Next
send_prompt now new_id c =
    let text = trim (or_else (get_or c.pending_prompt_text []) c.prompt_draft) in
    if not (is_usable c)
    then (record c { status = unpaired }, none)
    else if is_some c.current_abort_controller || is_empty text
    then (c, none)
    else start_prompt now (or_else (get_or c.pending_prompt_id []) new_id) text c

unfoldable pub cancel_or_return_idle : Controller → Controller
unfolding has_legacy_config
cancel_or_return_idle c =
    if is_some c.current_abort_controller
    then record (abort_current c) {
      status = connected;
      pending_prompt_id = none;
      pending_prompt_text = none;
    }
    else record c {
      status = if is_usable c then connected else unpaired;
      transport_mode = usable_transport c;
    }

unfoldable pub repair : Controller → Controller
unfolding has_legacy_config clear_stored_registration
repair c = record c {
  storage = clear_stored_registration c.storage;
  access_token = [];
  status = if has_legacy_config c then connected else unpaired;
  transport_mode = if has_legacy_config c then legacy_v0 else no_transport;
  stored_registration = none;
  access_token_expires_at = none;
  pending_prompt_id = none;
  pending_prompt_text = none;
  last_reply = [];
}
