-- ===== src/Bridge/Services/Refresh/Lifetime.antt =====
-- services.ts: how long a refreshed session can live.
use erg.Prelude.{ℕ, ◌+◌, ◌≡◌, ◌∙◌, min, arith}
use erg.Bridge.State.{DeviceRecord, RefreshTokenFamilyRecord, RefreshTokenRecord}
use erg.Bridge.Store.{State}
use erg.Bridge.Services.{ok, Env}
use erg.Bridge.Services.Transactions.{with_transaction-ok}
use erg.Bridge.Services.Register.{select_refresh_policy, refresh_expiry, issue_refresh_token}
use erg.Bridge.Services.Refresh.{
  RefreshInput, RefreshDraws, RefreshSessionResponse, next_token, refresh_session,
}
use erg.Bridge.Services.Refresh.Rules.{InOrder, IsFresh, refresh-ok}
use erg.Bridge.Services.Refresh.Rotation.{rotate-Rotated}

next_token-expiry :
    (env : Env) (now : ℕ) (draws : RefreshDraws) (device : DeviceRecord)
    (family : RefreshTokenFamilyRecord) (token : RefreshTokenRecord)
    → let policy = select_refresh_policy device.client_type env.config in
      (next_token env now draws device family token).expires_at
      ≡ min (now + policy.sliding_ttl_ms) (family.created_at + policy.absolute_ttl_ms)
unfolding next_token issue_refresh_token refresh_expiry
next_token-expiry env now draws device family token =
    let policy = select_refresh_policy device.client_type env.config in ground arith

-- A refresh that returned has exchanged a stored, unused, unrevoked and unexpired token of an active
-- family that the active device owns. The new token lives for the sliding time, but not past the
-- absolute time after the creation of its family, which no refresh moves.
pub refresh-lifetime :
    (env : Env) (now : ℕ) (draws : RefreshDraws) (input : RefreshInput) (s s' : State)
    (r : RefreshSessionResponse)
    → refresh_session env now draws input s ≡ ok r s'
    → (device : DeviceRecord) × (family : RefreshTokenFamilyRecord) × (token : RefreshTokenRecord)
      × InOrder env input s device family token
      × IsFresh now token
      × (let policy = select_refresh_policy device.client_type env.config in
          r.refresh_expires_at
          ≡ min (now + policy.sliding_ttl_ms) (family.created_at + policy.absolute_ttl_ms))
      × (s'.refresh_families ≡ s.refresh_families)
unfolding refresh_session
refresh-lifetime env now draws input s s' r e =
    let ran = with_transaction-ok env.config.bridge_store_driver _ s s' r e in
    let (device, family, token, o, f, rotated) = refresh-ok env now draws input s s' r ran in
    let z = rotate-Rotated env now draws input _ device family token s s' r rotated in
    (
      device,
      family,
      token,
      o,
      f,
      z.expiry ∙ next_token-expiry env now draws device family token,
      z.families,
    )
