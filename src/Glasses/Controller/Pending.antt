-- ===== src/Glasses/Controller/Pending.antt =====
-- app-controller.ts: a prompt that did not come to a reply is sent again as the same prompt.
mod Lasts
use erg.Prelude.{
  ℕ, ◌≡◌, refl, not, ◌&&◌, ◌||◌, Bool, true, false, Option, none, some, List, [], ◌∷◌, Text, All,
  is_empty, is_some, if◌then◌else◌, trim, or_else, or_else-given, get_or, ap, ◌∙◌,
}
use erg.Glasses.Storage.{
  StoredDeviceRegistration, load_stored_client_config, save_stored_client_config,
  load_stored_registration,
}
use erg.Glasses.PairingForm.{Validation, accepted, refused}
use erg.Glasses.Controller.{
  Controller, AppStatus, Next, After, resuming, refreshing, sending, sending_again, Waiting, turn,
  turn_again, legacy_turn, refresh, redeem, register, pairing_health, health, legacy_health,
  Failure, api_error, abort_error, other_error, handle_operational_error, prompt_failed, fail_after,
  go_on, continue_after, refresh_access_token, ensure_fresh_session, is_usable, has_legacy_config,
  Response, refreshed_access_token, config_of, persist_client_config, resume_stored_session,
  resume_legacy_session,
}
use erg.Glasses.Controller.Calls.{
  start_prompt, prompt_of, with_prompt, send_prompt, boot, boot_with, with_config, reconnect,
  handle_foreground_enter, submit_pairing, submit_valid, refresh_current_session,
  handle_foreground_exit, handle_abnormal_exit, set_pairing_field, Field, set_prompt_draft,
  set_legacy_bridge_token,
}
use erg.Glasses.Controller.Replies.{
  is_access_invalid, Event, step, run, returned, threw, registered,
}
use erg.Glasses.Controller.Pending.Lasts.{
  either, either_next, operational, failed, failed_after, gone_on, with_registration, continued,
  refreshed, ensured, resumed, legacy_resumed, IsPending,
}

-- An event by which a pending prompt stays pending: no reply of a turn, no cancelling and no repair.
abbrev pub Spares : Event → Type 0
Spares Event.cancels = ⊥
Spares Event.repairs = ⊥
Spares (Event.returns (turn token q) answer) = ⊥
Spares (Event.returns (turn_again token q) answer) = ⊥
Spares (Event.returns (legacy_turn q) answer) = ⊥
Spares _ = Unit

module _ (p t : Text) where
  booted :
      (now : ℕ) (o : Option StoredDeviceRegistration) (c : Controller)
      → IsPending p t c
      → IsPending p t (boot_with now o c).0
  booted now none c h = either_next p t _ _ _ (legacy_resumed p t c h) h
  booted now (some r) c h =
      resumed p t now
        (record c {
          relay_base_url = r.relay_base_url;
          device_display_name = r.device_display_name;
          stored_registration = some r;
        })
        h

  reconnected : (now : ℕ) (c : Controller) → IsPending p t c → IsPending p t (reconnect now c).0
  unfolding reconnect
  reconnected now c h =
      let missing = not (is_some c.stored_registration) in
      let alone : Next = (record c { status = AppStatus.unpaired }, none) in
      let later = resume_stored_session now c in
      either_next p t (missing && has_legacy_config c) (resume_legacy_session c)
        (if missing then alone else later) (legacy_resumed p t c h)
        (either_next p t missing alone later h (resumed p t now c h))

  submitted :
      (v : Validation) (c : Controller) → IsPending p t c → IsPending p t (submit_valid v c).0
  submitted (refused errors) c h = h
  submitted (accepted form) c h = h

  started : (now : ℕ) (c : Controller) → IsPending p t (start_prompt now p t c).0
  unfolding start_prompt
  started now c =
      let q = prompt_of p t c in
      let begun = with_prompt p t c in
      either_next p t (is_some c.stored_registration) (ensure_fresh_session now (sending q) begun)
        (begun, some (legacy_turn q)) (ensured p t now (sending q) begun (refl, refl)) (refl, refl)

  module _ (id : is_empty p ≡ false) (text : is_empty t ≡ false) (plain : trim t ≡ t) where
    same_text :
        (c : Controller)
        → IsPending p t c
        → trim (or_else (get_or c.pending_prompt_text []) c.prompt_draft) ≡ t
    same_text c h = rw h.1 (ap trim (or_else-given t c.prompt_draft text) ∙ plain)

    same_id :
        (new_id : Text) (c : Controller)
        → IsPending p t c
        → or_else (get_or c.pending_prompt_id []) new_id ≡ p
    same_id new_id c h = rw h.0 (or_else-given p new_id id)

    -- A prompt that is begun while this one is pending is the same.
    sends_same :
        (now : ℕ) (new_id : Text) (c : Controller)
        → IsPending p t c
        → is_usable c ≡ true
        → c.current_abort_controller ≡ none
        → send_prompt now new_id c ≡ start_prompt now p t c
    unfolding send_prompt
    sends_same now new_id c h usable idle =
        rw (same_text c h, same_id new_id c h, usable, idle, text) refl

    sent :
        (now : ℕ) (new_id : Text) (c : Controller)
        → IsPending p t c
        → IsPending p t (send_prompt now new_id c).0
    unfolding send_prompt
    sent now new_id c h =
        rw (same_text c h, same_id new_id c h)
          (either_next p t (not (is_usable c)) (record c { status = AppStatus.unpaired }, none)
            (if is_some c.current_abort_controller || is_empty t
              then (c, none)
              else start_prompt now p t c)
            h
            (either_next p t (is_some c.current_abort_controller || is_empty t) (c, none)
              (start_prompt now p t c) h (started now c)))

  returned-IsPending :
      (w : Waiting) (answer : Response w) (c : Controller)
      → Spares (Event.returns w answer)
      → IsPending p t c
      → IsPending p t (returned w answer c).0
  unfolding returned registered persist_client_config refreshed_access_token
  returned-IsPending (redeem form) answer c own h = h
  returned-IsPending (register form token) answer c own h = h
  returned-IsPending (pairing_health url) answer c own h = h
  returned-IsPending (refresh r after) answer c own h =
      continued p t after (refreshed_access_token answer r c) h
  returned-IsPending (health url) answer c own h = h
  returned-IsPending (legacy_health url token) answer c own h = h
  returned-IsPending (turn token q) answer c own h = absurd own
  returned-IsPending (turn_again token q) answer c own h = absurd own
  returned-IsPending (legacy_turn q) answer c own h = absurd own

  threw-IsPending :
      (w : Waiting) (e : Failure) (c : Controller) → IsPending p t c → IsPending p t (threw w e c).0
  unfolding threw
  threw-IsPending (redeem form) e c h = operational p t e c h
  threw-IsPending (register form token) e c h = operational p t e c h
  threw-IsPending (pairing_health url) e c h = operational p t e c h
  threw-IsPending (refresh r after) e c h = failed_after p t after e c h
  threw-IsPending (health url) e c h = operational p t e c h
  threw-IsPending (legacy_health url token) e c h = operational p t e c h
  threw-IsPending (turn token q) e c h =
      either_next p t (is_access_invalid e) _ _ (refreshed p t (sending_again q) c h)
        (failed p t e c h)
  threw-IsPending (turn_again token q) e c h = failed p t e c h
  threw-IsPending (legacy_turn q) e c h = failed p t e c h

  edited :
      (field : Field) (value : Text) (c : Controller)
      → IsPending p t c
      → IsPending p t (set_pairing_field field value c)
  unfolding set_pairing_field persist_client_config
  edited Field.relay_base_url value c h = h
  edited Field.pairing_code value c h = h
  edited Field.device_display_name value c h = h

  module _ (id : is_empty p ≡ false) (text : is_empty t ≡ false) (plain : trim t ≡ t) where
    step-IsPending :
        (e : Event) (c : Controller) → Spares e → IsPending p t c → IsPending p t (step e c).0
    unfolding step boot set_prompt_draft set_legacy_bridge_token persist_client_config
        submit_pairing handle_foreground_enter handle_foreground_exit handle_abnormal_exit
        refresh_current_session
    step-IsPending (Event.boots now) c own h =
        let d = load_stored_client_config c.storage (config_of c) in
        let storage = save_stored_client_config d c.storage in
        booted now (load_stored_registration storage)
          (with_config d (record c { status = AppStatus.booting; storage = storage })) h
    step-IsPending (Event.sets_field field value) c own h = edited field value c h
    step-IsPending (Event.sets_draft value) c own h = h
    step-IsPending (Event.sets_token value) c own h = h
    step-IsPending (Event.submits upper_case protocol_of) c own h = submitted _ c h
    step-IsPending (Event.enters now) c own h =
        reconnected now (record c { backgrounded = false }) h
    step-IsPending Event.exits c own h = h
    step-IsPending Event.exits_abnormally c own h = h
    step-IsPending (Event.reconnects now) c own h = reconnected now c h
    step-IsPending Event.refreshes c own h =
        either_next p t (is_some c.stored_registration) (refresh_access_token refreshing c)
          (c, none) (refreshed p t refreshing c h) h
    step-IsPending (Event.sends now new_id) c own h = sent id text plain now new_id c h
    step-IsPending Event.cancels c own h = absurd own
    step-IsPending Event.repairs c own h = absurd own
    step-IsPending (Event.returns w answer) c own h = returned-IsPending w answer c own h
    step-IsPending (Event.throws w e) c own h = threw-IsPending w e c h

    run-IsPending :
        (events : List Event) (c : Controller)
        → All Spares events
        → IsPending p t c
        → IsPending p t (run events c)
    unfolding run
    run-IsPending [] c own h = h
    run-IsPending (e ∷ events) c own h =
        run-IsPending events (step e c).0 own.1 (step-IsPending e c own.0 h)

-- A prompt that was begun is the one that is sent next, under the same id and with the same text
-- whatever stands in the form, unless a turn was answered, the app canceled the prompt or the
-- registration was cleared in between; the app has to be paired or to have a token of the old bridge,
-- and no prompt to be in progress.
pub retry_same_prompt :
    (p t : Text) (now later : ℕ) (new_id : Text) (events : List Event) (c : Controller)
    → is_empty p ≡ false
    → is_empty t ≡ false
    → trim t ≡ t
    → All Spares events
    → let d = run events (start_prompt now p t c).0 in
      is_usable d ≡ true
      → d.current_abort_controller ≡ none
      → send_prompt later new_id d ≡ start_prompt later p t d
retry_same_prompt p t now later new_id events c id text plain own usable idle =
    let begun = (start_prompt now p t c).0 in
    sends_same p t id text plain later new_id (run events begun)
      (run-IsPending p t id text plain events begun own (started p t now c)) usable idle
