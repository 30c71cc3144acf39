-- ===== src/Glasses/Controller/Pending/Lasts.antt =====
-- app-controller.ts: what the parts of its methods leave of a prompt that is pending.
use erg.Prelude.{ℕ, ◌≡◌, Bool, true, false, Option, none, some, Text, if◌then◌else◌}
use erg.Glasses.Storage.{StoredDeviceRegistration}
use erg.Glasses.Controller.{
  Controller, AppStatus, Next, After, resuming, refreshing, sending, sending_again, refresh,
  Failure, api_error, abort_error, other_error, handle_operational_error, prompt_failed, fail_after,
  go_on, continue_after, refresh_access_token, ensure_fresh_session, resume_stored_session,
  resume_legacy_session,
}

module _ (p t : Text) where
  -- The prompt is pending.
  abbrev pub IsPending : Controller → Type 0
  IsPending c = (c.pending_prompt_id ≡ some p) × (c.pending_prompt_text ≡ some t)

  pub either :
      (b : Bool) (x y : Controller) → IsPending x → IsPending y → IsPending (if b then x else y)
  either true x y h k = h
  either false x y h k = k

  pub either_next :
      (b : Bool) (x y : Next) → IsPending x.0 → IsPending y.0 → IsPending (if b then x else y).0
  either_next true x y h k = h
  either_next false x y h k = k

  pub operational :
      (e : Failure) (c : Controller) → IsPending c → IsPending (handle_operational_error e c)
  unfolding handle_operational_error
  operational e c h = either _ _ _ h h

  pub failed : (e : Failure) (c : Controller) → IsPending c → IsPending (prompt_failed e c)
  unfolding prompt_failed
  failed abort_error c h = h
  failed (api_error code) c h =
      operational (api_error code) (record c { current_abort_controller = none }) h
  failed other_error c h = operational other_error (record c { current_abort_controller = none }) h

  pub failed_after :
      (after : After) (e : Failure) (c : Controller)
      → IsPending c
      → IsPending (fail_after after e c)
  unfolding fail_after
  failed_after resuming e c h = operational e c h
  failed_after refreshing e c h = operational e c h
  failed_after (sending q) e c h = failed e c h
  failed_after (sending_again q) e c h = failed e c h

  pub gone_on :
      (after : After) (r : StoredDeviceRegistration) (c : Controller)
      → IsPending c
      → IsPending (go_on after r c).0
  gone_on resuming r c h = h
  gone_on refreshing r c h = h
  gone_on (sending q) r c h = h
  gone_on (sending_again q) r c h = h

  pub with_registration :
      (o : Option StoredDeviceRegistration) (after : After) (c : Controller)
      (f : StoredDeviceRegistration → Next)
      → IsPending c
      → ((r : StoredDeviceRegistration) → IsPending (f r).0)
      → IsPending
          (elim o as (λ _. Next) [ none ↦ (fail_after after other_error c, none) | some r ↦ f r ]).0
  with_registration none after c f h k = failed_after after other_error c h
  with_registration (some r) after c f h k = k r

  pub continued :
      (after : After) (c : Controller) → IsPending c → IsPending (continue_after after c).0
  unfolding continue_after
  continued after c h =
      with_registration c.stored_registration after c (λ r. go_on after r c) h
        (λ r. gone_on after r c h)

  pub refreshed :
      (after : After) (c : Controller) → IsPending c → IsPending (refresh_access_token after c).0
  unfolding refresh_access_token
  refreshed after c h =
      with_registration c.stored_registration after c (λ r. (c, some (refresh r after))) h (λ r. h)

  pub ensured :
      (now : ℕ) (after : After) (c : Controller)
      → IsPending c
      → IsPending (ensure_fresh_session now after c).0
  unfolding ensure_fresh_session
  ensured now after c h = either_next _ _ _ (refreshed after c h) (continued after c h)

  pub resumed : (now : ℕ) (c : Controller) → IsPending c → IsPending (resume_stored_session now c).0
  unfolding resume_stored_session
  resumed now c h = ensured now resuming (record c { status = AppStatus.booting }) h

  pub legacy_resumed : (c : Controller) → IsPending c → IsPending (resume_legacy_session c).0
  unfolding resume_legacy_session
  legacy_resumed c h = h
