-- ===== src/Glasses/Examples.antt =====
-- glasses/src/app-controller.ts and display.ts at work on small inputs.
use erg.Prelude.{◌≤◌, ◌≡◌, refl, false, none, some, List, [], ◌∷◌, codes, length, trim, IsTidy}
use erg.Bridge.State.{ClientType}
use erg.Bridge.Services.Refresh.{RefreshSessionResponse}
use erg.Bridge.Server.{sanitize_hud_text}
use erg.Glasses.Storage.{StoredDeviceRegistration, load_stored_registration}
use erg.Glasses.Storage.Kept.{IsPlainRegistration}
use erg.Glasses.PairingForm.{PairingFormErrors}
use erg.Glasses.Controller.{
  Controller, AppStatus, TransportMode, Prompt, api_error, sending, refreshing, refresh,
}
use erg.Glasses.Controller.Calls.{start_prompt, send_prompt, refresh_current_session}
use erg.Glasses.Controller.Replies.{Event, step, run}
use erg.Glasses.Controller.Pending.{retry_same_prompt}
use erg.Glasses.Controller.Undone.{renewed, repair_undone}
use erg.Glasses.Display.{clamp_glass_text, texts_fit}

abbrev glasses : StoredDeviceRegistration
glasses = record {
  relay_base_url = codes "https://relay";
  device_id = codes "dev_01";
  refresh_token = codes "rt_03";
  device_display_name = codes "Glasses";
  default_conversation_id = codes "default";
}

abbrev no_errors : PairingFormErrors
no_errors = record { relay_base_url = none; pairing_code = none; device_display_name = none }

-- The app with this registration, whose access token is missing.
abbrev app : Controller
app = record {
  status = AppStatus.connected;
  transport_mode = TransportMode.paired_v1;
  last_reply = [];
  relay_base_url = codes "https://relay";
  legacy_bridge_token = [];
  install_id = codes "g2-web-1";
  pairing_code = [];
  device_display_name = codes "Glasses";
  prompt_draft = codes "Hello";
  pairing_errors = no_errors;
  access_token_expires_at = none;
  stored_registration = some glasses;
  pending_prompt_id = none;
  pending_prompt_text = none;
  access_token = [];
  current_abort_controller = none;
  abort_controllers = 0;
  aborted = [];
  backgrounded = false;
  storage = [];
}

abbrev again : Prompt
again = record { prompt_id = codes "p1"; text = codes "Hello"; abort_controller = 0 }

-- The refresh for the prompt fails, and the draft is changed.
abbrev failing : List Event
failing =
    Event.throws (refresh glasses (sending again)) (api_error none)
    ∷ Event.sets_draft (codes "Bye")
    ∷ []

retry_same_prompt_example :
    let d = run failing (start_prompt 5 (codes "p1") (codes "Hello") app).0 in
    send_prompt 9 (codes "p2") d ≡ start_prompt 9 (codes "p1") (codes "Hello") d
unfolding run step start_prompt
retry_same_prompt_example =
    retry_same_prompt (codes "p1") (codes "Hello") 5 9 (codes "p2") failing app refl refl
      (unfold trim in refl) (tt, (tt, tt)) refl refl

abbrev answer : RefreshSessionResponse
answer = record {
  access_token = codes "acc";
  access_expires_at = 904;
  refresh_token = codes "rt_06";
  refresh_expires_at = 1004;
  refresh_family_id = codes "rtf_02";
  client_type = ClientType.even_hub;
}

renewed-IsPlain : IsPlainRegistration (renewed glasses answer)
unfolding trim
renewed-IsPlain = record {
  url = (refl, refl);
  device = (refl, refl);
  token = (refl, refl);
  name = (refl, refl);
  conversation = (refl, refl);
}

repair_undone_example :
    let (asking, waiting) = refresh_current_session app in
    let repaired = run (Event.repairs ∷ []) asking in
    let d = run (Event.returns (refresh glasses refreshing) answer ∷ []) repaired in
    (waiting ≡ some (refresh glasses refreshing))
    × (repaired.stored_registration ≡ none)
    × (d.stored_registration ≡ some (renewed glasses answer))
    × (d.status ≡ AppStatus.connected)
    × (load_stored_registration d.storage ≡ some (renewed glasses answer))
repair_undone_example = repair_undone glasses answer app renewed-IsPlain refl

texts_fit_example :
    (length (clamp_glass_text (codes "Hello \n\n\n\nworld")) ≤ 950)
    × IsTidy (clamp_glass_text (codes "Hello \n\n\n\nworld"))
    × (length (sanitize_hud_text (codes "Hello \n\n\n\nworld")) ≤ 2000)
    × IsTidy (sanitize_hud_text (codes "Hello \n\n\n\nworld"))
texts_fit_example = texts_fit (codes "Hello \n\n\n\nworld")
