-- ===== src/Bridge/Examples/Refreshes.antt =====
-- services.ts: the theorems on refresh tokens, on the stores of the parent.
use erg.Prelude.{◌+◌, min, ◌≡◌, refl, none, some, [], ◌∷◌, Text, codes, arith}
use erg.Bridge.State.{
  ClientType, DeviceStatus, FamilyStatus, DeviceRecord, RefreshTokenFamilyRecord,
  RefreshTokenRecord,
}
use erg.Bridge.Store.{State}
use erg.Bridge.Store.Coherent.{IsCoherent}
use erg.Bridge.Ids.{Bytes}
use erg.Bridge.Services.{ok, err, refresh_reuse_detected, store_of, StoreDriver, memory, postgres}
use erg.Bridge.Services.Refresh.{
  RefreshDraws, RefreshInput, RefreshSessionResponse, refresh_session, seen_device, next_token,
  used_token,
}
use erg.Bridge.Services.Refresh.Rules.{InOrder, IsFresh}
use erg.Bridge.Services.Refresh.Lifetime.{refresh-lifetime}
use erg.Bridge.Services.Register.{select_refresh_policy}
use erg.Bridge.Services.Refresh.Rotation.{refresh_next}
use erg.Bridge.Services.Refresh.Reuse.{IsCompromised, reuse_compromises, postgres_forgets_reuse}
use erg.Bridge.History.{Call}
use erg.Bridge.History.Coherent.{run-IsCoherent}
use erg.Bridge.Examples.{running, env, registered, registered-IsCoherent}

abbrev asks : Text → RefreshInput
asks token = record { device_id = codes "dev_01"; refresh_token = token; remote_ip = none }

abbrev draws : Bytes → RefreshDraws
draws bytes = record { token = bytes; token_id = bytes; access = bytes; revocation = bytes }

abbrev rotated : StoreDriver → State
rotated driver =
    store_of
      (refresh_session (env driver) 4 (draws (6 ∷ [])) (asks (codes "rt_03")) (registered driver))

abbrev answer : RefreshSessionResponse
answer = record {
  access_token = codes "dev_01";
  access_expires_at = 904;
  refresh_token = codes "rt_06";
  refresh_expires_at = 1004;
  refresh_family_id = codes "rtf_02";
  client_type = ClientType.mobile;
}

refresh_next_example :
    (r : RefreshSessionResponse) × (s : State) × (refresh_session
        (env postgres)
        9
        (draws (7 ∷ []))
        (asks (codes "rt_06"))
        (rotated postgres)
      ≡ ok r s)
unfolding running next_token
refresh_next_example =
    refresh_next (env postgres) 4 (draws (6 ∷ [])) (asks (codes "rt_03")) (registered postgres)
      (rotated postgres) answer (registered-IsCoherent postgres) 9 (draws (7 ∷ []))
      (asks (codes "rt_06")) refl refl refl (omega arith)

abbrev family : RefreshTokenFamilyRecord
family = record {
  refresh_family_id = codes "rtf_02";
  device_id = codes "dev_01";
  client_type = ClientType.mobile;
  status = FamilyStatus.active;
  created_at = 2;
  compromised_at = none;
  revoke_reason = none;
}

abbrev device : DeviceRecord
device = record {
  device_id = codes "dev_01";
  device_display_name = codes "Phone";
  platform = codes "unknown";
  client_type = ClientType.mobile;
  status = DeviceStatus.active;
  created_at = 2;
  last_seen_at = some 4;
  last_ip = none;
  last_app_version = none;
  current_refresh_family_id = codes "rtf_02";
  revoked_at = none;
  revoke_reason = none;
}

-- The first token, after its use.
abbrev first : RefreshTokenRecord
first = record {
  refresh_token_id = codes "rtr_04";
  refresh_family_id = codes "rtf_02";
  token_hash = codes "krt_03";
  parent_refresh_token_id = none;
  issued_at = 2;
  expires_at = 1002;
  used_at = some 4;
  replaced_by_refresh_token_id = some (codes "rtr_06");
  revoked_at = none;
}

-- The token that replaced it.
abbrev second : RefreshTokenRecord
second = record {
  refresh_token_id = codes "rtr_06";
  refresh_family_id = codes "rtf_02";
  token_hash = codes "krt_06";
  parent_refresh_token_id = some (codes "rtr_04");
  issued_at = 4;
  expires_at = 1004;
  used_at = none;
  replaced_by_refresh_token_id = none;
  revoked_at = none;
}

first-InOrder :
    (driver : StoreDriver)
    → InOrder (env driver) (asks (codes "rt_03")) (rotated driver) device family first
unfolding running next_token used_token seen_device
first-InOrder memory = record {
  device_found = refl;
  device_active = refl;
  token_found = refl;
  family_found = refl;
  family_owned = refl;
  family_active = refl;
}
first-InOrder postgres = record {
  device_found = refl;
  device_active = refl;
  token_found = refl;
  family_found = refl;
  family_owned = refl;
  family_active = refl;
}

second-InOrder :
    InOrder (env postgres) (asks (codes "rt_06")) (rotated postgres) device family second
unfolding running next_token used_token seen_device
second-InOrder = record {
  device_found = refl;
  device_active = refl;
  token_found = refl;
  family_found = refl;
  family_owned = refl;
  family_active = refl;
}

rotated-IsCoherent : (driver : StoreDriver) → IsCoherent (rotated driver)
unfolding running
rotated-IsCoherent driver =
    run-IsCoherent (env driver) ((4, Call.refresh (draws (6 ∷ [])) (asks (codes "rt_03"))) ∷ [])
      (registered driver) (tt, tt) (registered-IsCoherent driver)

reuse_compromises_example :
    (s' : State) × (refresh_session
        (env memory)
        8
        (draws (8 ∷ []))
        (asks (codes "rt_03"))
        (rotated memory)
      ≡ err refresh_reuse_detected s')
    × IsCompromised (rotated memory) s' (codes "dev_01") (codes "rtf_02")
unfolding running
reuse_compromises_example =
    reuse_compromises (env memory) 8 (draws (8 ∷ [])) (asks (codes "rt_03")) (rotated memory) device
      family first (first-InOrder memory) {before = 4} refl (rotated-IsCoherent memory) refl

postgres_forgets_reuse_example :
    let s = rotated postgres in
    let reuse = refresh_session (env postgres) 8 (draws (8 ∷ [])) (asks (codes "rt_03")) s in
    (reuse ≡ err refresh_reuse_detected s)
    × ((r : RefreshSessionResponse) × (s' : State) × (refresh_session
            (env postgres)
            9
            (draws (9 ∷ []))
            (asks (codes "rt_06"))
            (store_of reuse)
          ≡ ok r s'))
unfolding running
postgres_forgets_reuse_example =
    postgres_forgets_reuse (env postgres) 8 (draws (8 ∷ [])) (asks (codes "rt_03"))
      (rotated postgres) device family first (first-InOrder postgres) {before = 4} refl 9
      (draws (9 ∷ [])) (asks (codes "rt_06")) family second refl second-InOrder
      (record { unused = refl; unrevoked = refl; unexpired = omega arith })

refresh-lifetime_example :
    (device : DeviceRecord) × (family : RefreshTokenFamilyRecord) × (token : RefreshTokenRecord)
    × InOrder (env memory) (asks (codes "rt_03")) (registered memory) device family token
    × IsFresh 4 token
    × (let policy = select_refresh_policy device.client_type (env memory).config in
        1004 ≡ min (4 + policy.sliding_ttl_ms) (family.created_at + policy.absolute_ttl_ms))
    × ((rotated memory).refresh_families ≡ (registered memory).refresh_families)
unfolding running next_token
refresh-lifetime_example =
    refresh-lifetime (env memory) 4 (draws (6 ∷ [])) (asks (codes "rt_03")) (registered memory)
      (rotated memory) answer refl
