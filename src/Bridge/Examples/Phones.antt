-- ===== src/Bridge/Examples/Phones.antt =====
-- mobile/src/mobile-companion.ts with services.ts at work on small inputs.
use erg.Prelude.{
  ◌≡◌, ◌≢◌, text_eq, text_eq_iff, refl, none, some, [], ◌∷◌, Text, codes, arith, trim,
}
use erg.Bridge.State.{ClientType}
use erg.Bridge.Store.{State}
use erg.Bridge.Services.{store_of, memory}
use erg.Bridge.Services.Refresh.{RefreshDraws, RefreshSessionResponse, refresh_session, next_token}
use erg.Bridge.Services.Refresh.Reuse.{IsCompromised}
use erg.Bridge.Examples.{running, env, registered, registered-IsCoherent}
use erg.Mobile.Companion.{
  Companion, DeviceRegistration, ok, failed, request_failed, rejected, companion_of, started,
  restore, remember, ensure_fresh_session, repair_from_error,
}
use erg.Mobile.Companion.Storage.{IsComplete}
use erg.Mobile.Companion.Bridged.{
  input_of, over, request_of, renewed, survives_restart, lost_answer,
}

abbrev registration : DeviceRegistration
registration = record {
  relay_base_url = codes "https://relay";
  device_id = codes "dev_01";
  refresh_token = codes "rt_03";
  device_display_name = codes "Phone";
  default_conversation_id = codes "default";
  client_type = ClientType.mobile;
}

-- A phone that restored this registration.
abbrev phone : Companion
phone = record (started none) { registration = some registration }

abbrev draws : RefreshDraws
draws = record { token = 6 ∷ []; token_id = 6 ∷ []; access = 6 ∷ []; revocation = 6 ∷ [] }

abbrev later_draws : RefreshDraws
later_draws = record { token = 7 ∷ []; token_id = 7 ∷ []; access = 7 ∷ []; revocation = 7 ∷ [] }

abbrev after : State
after = store_of (
    refresh_session (env memory) 4 draws (input_of none (request_of registration))
      (registered memory))

abbrev answer : RefreshSessionResponse
answer = record {
  access_token = codes "dev_01";
  access_expires_at = 904;
  refresh_token = codes "rt_06";
  refresh_expires_at = 1004;
  refresh_family_id = codes "rtf_02";
  client_type = ClientType.mobile;
}

renewed-IsComplete : IsComplete (renewed registration answer)
renewed-IsComplete = record {
  url = refl;
  device = refl;
  token = refl;
  name = refl;
  conversation = refl;
}

survives_restart_example :
    let c' =
      companion_of
        (ensure_fresh_session 4 (over (env memory) 4 draws none (registered memory)) phone) in
    let d = restore (started c'.storage) in
    (d.registration ≡ some (renewed registration answer))
    × (r' : RefreshSessionResponse) × (ensure_fresh_session 9
          (over (env memory) 9 later_draws none after)
          d
        ≡ ok tt (
            remember
              (renewed (renewed registration answer) r')
              r'.access_token
              r'.access_expires_at
              d))
unfolding running next_token
survives_restart_example =
    survives_restart (env memory) 4 draws none (registered memory) after phone registration answer
      (registered-IsCoherent memory) refl refl refl 9 later_draws none renewed-IsComplete
      (omega arith)

-- The hashes of the two tokens.
differ : codes "krt_06" ≢ codes "krt_03"
unfolding text_eq
differ e = absurd (cc ((text_eq_iff (codes "krt_06") (codes "krt_03")).1 e))

lost_answer_example :
    let c' = companion_of (ensure_fresh_session 4 (λ _. rejected none) phone) in
    let retry =
      refresh_session (env memory) 9 later_draws (input_of none (request_of registration)) after in
    let code = some (codes "refresh_reuse_detected") in
    (ensure_fresh_session 9 (over (env memory) 9 later_draws none after) c'
      ≡ failed (request_failed code) c')
    × ((repair_from_error code c').0.registration ≡ none)
    × ((repair_from_error code c').0.storage ≡ none)
    × (family_id : Text) × IsCompromised after (store_of retry) (trim (codes "dev_01")) family_id
unfolding running next_token
lost_answer_example =
    lost_answer (env memory) 4 draws none (registered memory) after phone registration answer
      (registered-IsCoherent memory) refl refl refl 9 later_draws none refl (λ e. differ e) refl
