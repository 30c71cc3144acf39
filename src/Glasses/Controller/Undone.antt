-- ===== src/Glasses/Controller/Undone.antt =====
-- app-controller.ts: a repair while the session is being refreshed.
use erg.Prelude.{◌≡◌, refl, some, none, [], ◌∷◌}
use erg.Bridge.Services.Refresh.{RefreshSessionResponse}
use erg.Glasses.Storage.{StoredDeviceRegistration, load_stored_registration}
use erg.Glasses.Storage.Kept.{IsPlainRegistration, load-save-clear}
use erg.Glasses.Controller.{
  Controller, AppStatus, refreshing, refresh, refresh_access_token, refreshed_access_token,
  continue_after, persist_client_config,
}
use erg.Glasses.Controller.Calls.{refresh_current_session, repair}
use erg.Glasses.Controller.Replies.{Event, step, run, returned}

-- The registration with the token that the bridge returned.
abbrev pub renewed : StoredDeviceRegistration → RefreshSessionResponse → StoredDeviceRegistration
renewed r answer = record r { refresh_token = answer.refresh_token }

-- If the user repairs the pairing while a refresh of the session is under way, the answer to the
-- refresh undoes it: the app is connected with the registration that was cleared, which is loaded at
-- the next start too, as long as its texts are not empty and have no white space around them.
pub repair_undone :
    (r : StoredDeviceRegistration) (answer : RefreshSessionResponse) (c : Controller)
    → IsPlainRegistration (renewed r answer)
    → c.stored_registration ≡ some r
    → let (asking, waiting) = refresh_current_session c in
      let repaired = run (Event.repairs ∷ []) asking in
      let d = run (Event.returns (refresh r refreshing) answer ∷ []) repaired in
      (waiting ≡ some (refresh r refreshing))
      × (repaired.stored_registration ≡ none)
      × (d.stored_registration ≡ some (renewed r answer))
      × (d.status ≡ AppStatus.connected)
      × (load_stored_registration d.storage ≡ some (renewed r answer))
unfolding run step refresh_current_session refresh_access_token repair returned continue_after
    refreshed_access_token persist_client_config
repair_undone r answer c plain has =
    rw has (refl, refl, refl, refl, (load-save-clear (renewed r answer) _ _ plain).0)
