-- ===== src/Mobile/Companion/Bridged.antt =====
-- mobile-companion.ts against services.ts: the phone and the bridge over several refreshes.
use erg.Prelude.{
  ℕ, ◌<◌, ◌≡◌, ◌≢◌, ◌∙◌, refl, ap, subst, sym, true, Option, none, some, Text, codes, arith,
  is_empty, ◌||◌, trim,
}
use erg.Bridge.Store.{State}
use erg.Bridge.Store.Coherent.{IsCoherent}
use erg.Bridge.Services
use erg.Bridge.Services.{Env, memory, hash, store_of, refresh_reuse_detected, ApiError}
use erg.Bridge.Services.Refresh.{
  RefreshInput, RefreshDraws, RefreshSessionResponse, refresh_session,
}
use erg.Bridge.Services.Refresh.Rotation.{refresh_next}
use erg.Bridge.Services.Refresh.Reuse.{IsCompromised}
use erg.Bridge.Services.Refresh.Replay.{replay_compromises}
use erg.Bridge.History.Coherent.Refreshes.{refresh_session-K}
use erg.Bridge.Server.{api_code}
use erg.Mobile.Companion.Storage.{IsComplete, load-save}
use erg.Mobile.Companion.{
  Companion, DeviceRegistration, RefreshRequest, Api, returned, rejected, Result, ok, failed,
  request_failed, companion_of, started, restore, load, save, remember, expires_within,
  access_refresh_window_ms, renew, ensure_fresh_session, require_registration, repair_from_error,
}

-- The request as the bridge reads it from an address.
abbrev pub input_of : Option Text → RefreshRequest → RefreshInput
input_of ip request = record {
  device_id = request.device_id;
  refresh_token = request.refresh_token;
  remote_ip = ip;
}

-- What the phone gets when the answer of the bridge arrives.
pub answer_of : Services.Run RefreshSessionResponse → Api RefreshSessionResponse
unfolding api_code
answer_of (Services.ok r s) = returned r
answer_of (Services.err e s) = rejected (some (api_code e))

pub over :
    Env → ℕ → RefreshDraws → Option Text → State → RefreshRequest → Api RefreshSessionResponse
unfolding answer_of refresh_session
over env now draws ip store request =
    answer_of (refresh_session env now draws (input_of ip request) store)

-- The request that a registration makes.
abbrev pub request_of : DeviceRegistration → RefreshRequest
request_of r = record { device_id = r.device_id; refresh_token = r.refresh_token }

-- Whether the phone is going to ask for a new session.
abbrev IsStale : ℕ → Companion → Type 0
IsStale now c =
    (is_empty c.access_token
      || expires_within c.access_token_expires_at access_refresh_window_ms now)
    ≡ true

ensure-returned :
    (now : ℕ) (refresh : RefreshRequest → Api RefreshSessionResponse) (c : Companion)
    (reg : DeviceRegistration) (answer : RefreshSessionResponse)
    → c.registration ≡ some reg
    → IsStale now c
    → refresh (request_of reg) ≡ returned answer
    → ensure_fresh_session now refresh c
      ≡ ok tt (
          remember
            (record reg { refresh_token = answer.refresh_token })
            answer.access_token
            answer.access_expires_at
            c)
unfolding ensure_fresh_session require_registration renew
ensure-returned now refresh c reg answer has stale got = ground (arith, has, stale, got)

ensure-rejected :
    (now : ℕ) (refresh : RefreshRequest → Api RefreshSessionResponse) (c : Companion)
    (reg : DeviceRegistration) (code : Option Text)
    → c.registration ≡ some reg
    → IsStale now c
    → refresh (request_of reg) ≡ rejected code
    → ensure_fresh_session now refresh c ≡ failed (request_failed code) c
unfolding ensure_fresh_session require_registration renew
ensure-rejected now refresh c reg code has stale got = ground (arith, has, stale, got)

-- The registration with the token that the bridge returned.
abbrev pub renewed : DeviceRegistration → RefreshSessionResponse → DeviceRegistration
renewed reg r = record reg { refresh_token = r.refresh_token }

module _ (env : Env) (now : ℕ) (draws : RefreshDraws) (ip : Option Text) (store store' : State)
    (c : Companion) (reg : DeviceRegistration) (r : RefreshSessionResponse)
    (coherent : IsCoherent store) (has : c.registration ≡ some reg) (stale : IsStale now c)
    (granted : refresh_session env now draws (input_of ip (request_of reg)) store
      ≡ Services.ok r store') where
  -- When the answer to a refresh has arrived, the app can be started anew: if no text of the renewed
  -- registration is empty it is restored from the storage, and until the returned expiry of the
  -- refresh token the bridge grants the next refresh with it, in either store, provided that its
  -- tables were coherent before the first and that nothing came between the two.
  pub survives_restart :
      (later : ℕ) (draws' : RefreshDraws) (ip' : Option Text)
      → IsComplete (renewed reg r)
      → later < r.refresh_expires_at
      → let c' = companion_of (ensure_fresh_session now (over env now draws ip store) c) in
        let d = restore (started c'.storage) in
        (d.registration ≡ some (renewed reg r))
        × (r' : RefreshSessionResponse) × (ensure_fresh_session later
              (over env later draws' ip' store')
              d
            ≡ ok tt (remember (renewed reg r') r'.access_token r'.access_expires_at d))
  unfolding over answer_of restore
  survives_restart later draws' ip' complete time =
      let arrived : over env now draws ip store (request_of reg) ≡ returned r = rw granted in
      let first = ensure-returned now (over env now draws ip store) c reg r has stale arrived in
      let c' = companion_of (ensure_fresh_session now (over env now draws ip store) c) in
      let saved : c'.storage ≡ some (save (renewed reg r)) =
        ap (λ (x : Result (Unit {0})). (companion_of x).storage) first in
      let loaded : load c'.storage ≡ some (renewed reg r) =
        ap load saved ∙ load-save (renewed reg r) complete in
      let (r', store'', next) =
        refresh_next env now draws (input_of ip (request_of reg)) store store' r coherent later
          draws' (input_of ip' (request_of (renewed reg r))) granted refl refl time in
      let d = restore (started c'.storage) in
      let again : over env later draws' ip' store' (request_of (renewed reg r)) ≡ returned r' =
        rw next in
      (
        loaded,
        r',
        ensure-returned later (over env later draws' ip' store') d (renewed reg r) r' loaded refl
            again,
      )

  -- If the answer to a refresh is lost on its way, then over the memory store, with coherent tables
  -- and two tokens of different hashes, the next attempt of the phone, if nothing comes before it, is
  -- taken for a theft of the token: it fails with `refresh_reuse_detected`, the bridge gives
  -- the device and its family up, and the repair that follows on the phone deletes the registration.
  pub lost_answer :
      (later : ℕ) (draws' : RefreshDraws) (ip' : Option Text)
      → env.config.bridge_store_driver ≡ memory
      → hash env r.refresh_token ≢ hash env reg.refresh_token
      → IsStale later c
      → let c' = companion_of (ensure_fresh_session now (λ _. rejected none) c) in
        let retry = refresh_session env later draws' (input_of ip' (request_of reg)) store' in
        let code = some (codes "refresh_reuse_detected") in
        (ensure_fresh_session later (over env later draws' ip' store') c'
          ≡ failed (request_failed code) c')
        × ((repair_from_error code c').0.registration ≡ none)
        × ((repair_from_error code c').0.storage ≡ none)
        × (family_id : Text) × IsCompromised store' (store_of retry) (trim reg.device_id) family_id
  unfolding over answer_of api_code repair_from_error
  lost_answer later draws' ip' driver other stale' =
      let c' = companion_of (ensure_fresh_session now (λ _. rejected none) c) in
      let same : c' ≡ c =
        ap companion_of (ensure-rejected now (λ _. rejected none) c reg none has stale refl) in
      let coherent' =
        subst (λ q. IsCoherent (store_of q)) granted
          (refresh_session-K env now draws (input_of ip (request_of reg)) store coherent) in
      let (s'', family_id, threw, given_up) =
        replay_compromises env now draws (input_of ip (request_of reg)) store store' r coherent
          other later draws' (input_of ip' (request_of reg)) granted coherent' driver refl refl in
      let code = some (codes "refresh_reuse_detected") in
      let answer = over env later draws' ip' store' in
      let refused : answer (request_of reg) ≡ rejected code = rw threw in
      (
        subst
            (λ (x : Companion).
              ensure_fresh_session later answer x ≡ failed (request_failed code) x)
            (sym same) (ensure-rejected later answer c reg code has stale' refused),
        refl,
        refl,
        family_id,
        subst (λ (x : State). IsCompromised store' x (trim reg.device_id) family_id)
            (sym (ap store_of threw)) given_up,
      )
