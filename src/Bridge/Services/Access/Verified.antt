-- ===== src/Bridge/Services/Access/Verified.antt =====
-- services.ts: when `verifyAccessToken` returns. It never writes to the store.
use erg.Prelude.{ℕ, ◌≡◌, ◌∙◌, some, List, Text, arith, Option-cases, inl, inr}
use erg.Bridge.State.{DeviceStatus, DeviceRecord}
use erg.Bridge.Store.{State, get_device_by_id}
use erg.Bridge.AccessTokens.{VerifiedAccessToken, verify}
use erg.Bridge.Services.{ok, Env, store_of}
use erg.Bridge.Services.Access.{verify_access_token}

pub verify_access_token-same :
    (env : Env) (now : ℕ) (token : Text) (required : List Text) (s : State)
    → store_of (verify_access_token env now token required s) ≡ s
unfolding verify_access_token
verify_access_token-same env now token required s =
    elim (Option-cases (verify env.jwt now token required)) [
      | inl bad ↦ ground (arith, bad)
      | inr (v, good) ↦ elim (Option-cases (get_device_by_id s v.device_id)) [
        | inl missing ↦ ground (arith, good, missing)
        | inr (device, found) ↦ ground (arith, good, found)
      ]
    ]

-- A token is accepted only for a device that is stored as active.
pub verify_access_token-ok :
    (env : Env) (now : ℕ) (token : Text) (required : List Text) (s s' : State)
    (v : VerifiedAccessToken)
    → verify_access_token env now token required s ≡ ok v s'
    → (verify env.jwt now token required ≡ some v)
      × (device : DeviceRecord) × (get_device_by_id s v.device_id ≡ some device)
      × (device.status ≡ DeviceStatus.active)
unfolding verify_access_token
verify_access_token-ok env now token required s s' v e =
    elim (Option-cases (verify env.jwt now token required)) [
      | inl bad ↦ absurd (ground (arith, bad))
      | inr (w, good) ↦ elim (Option-cases (get_device_by_id s w.device_id)) [
        | inl missing ↦ absurd (ground (arith, good, missing))
        | inr (device, found) ↦
            let same : w ≡ v = ground (arith, good, found) in
            (good ∙ cc same, device, cc (found, same), ground (arith, good, found))
      ]
    ]
