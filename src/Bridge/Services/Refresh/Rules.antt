-- ===== src/Bridge/Services/Refresh/Rules.antt =====
-- When `refreshSession` of services.ts rotates a token, and when it detects reuse.
use erg.Prelude.{
  ℕ, ◌<◌, ◌≡◌, sym, ◌∙◌, inl, inr, none, some, Text, arith, text_eq_iff, trim, Option-cases,
}
use erg.Bridge.State.{
  DeviceStatus, DeviceRecord, FamilyStatus, RefreshTokenFamilyRecord, RefreshTokenRecord,
}
use erg.Bridge.Store.{State, get_device_by_id, get_refresh_family_by_id, get_refresh_token_by_hash}
use erg.Bridge.Services.{ok, Env, hash}
use erg.Bridge.Services.Refresh.{
  RefreshInput, RefreshDraws, RefreshSessionResponse, rotate, detect_reuse, use_token, refresh,
}

-- The device, the token and the family that a request names, all of them in order.
pub record InOrder (env : Env) (input : RefreshInput) (s : State) (device : DeviceRecord)
    (family : RefreshTokenFamilyRecord) (token : RefreshTokenRecord) : Type 0 where
  pub device_found : get_device_by_id s (trim input.device_id) ≡ some device
  pub device_active : device.status ≡ DeviceStatus.active
  pub token_found : get_refresh_token_by_hash s (hash env input.refresh_token) ≡ some token
  pub family_found : get_refresh_family_by_id s token.refresh_family_id ≡ some family
  pub family_owned : family.device_id ≡ trim input.device_id
  pub family_active : family.status ≡ FamilyStatus.active

-- A token that may be exchanged.
pub record IsFresh (now : ℕ) (token : RefreshTokenRecord) : Type 0 where
  pub unused : token.used_at ≡ none
  pub unrevoked : token.revoked_at ≡ none
  pub unexpired : now < token.expires_at

module _ (env : Env) (now : ℕ) (draws : RefreshDraws) (input : RefreshInput) (s : State) where
  pub refresh-InOrder :
      (device : DeviceRecord) (family : RefreshTokenFamilyRecord) (token : RefreshTokenRecord)
      → InOrder env input s device family token
      → refresh env now draws input s
        ≡ use_token env now draws input (trim input.device_id) device family token s
  unfolding refresh
  refresh-InOrder device family token o = ground (
    arith,
    o.device_found,
    o.device_active,
    o.token_found,
    o.family_found,
    o.family_owned,
    o.family_active,
    text_eq_iff family.device_id (trim input.device_id),
  )

  use_token-ok :
      (id : Text) (device : DeviceRecord) (family : RefreshTokenFamilyRecord)
      (token : RefreshTokenRecord) (s' : State) (r : RefreshSessionResponse)
      → use_token env now draws input id device family token s ≡ ok r s'
      → IsFresh now token × (rotate env now draws input id device family token s ≡ ok r s')
  unfolding use_token detect_reuse
  use_token-ok id device family token s' r e = (
    record { unused = ground arith; unrevoked = ground arith; unexpired = ground arith },
    ground arith,
  )

  -- A call that returns has found all in order, with a fresh token.
  pub refresh-ok :
      (s' : State) (r : RefreshSessionResponse)
      → refresh env now draws input s ≡ ok r s'
      → (device : DeviceRecord) × (family : RefreshTokenFamilyRecord) × (token : RefreshTokenRecord)
        × InOrder env input s device family token
        × IsFresh now token
        × (rotate env now draws input (trim input.device_id) device family token s ≡ ok r s')
  unfolding refresh
  refresh-ok s' r e = elim (Option-cases (get_device_by_id s (trim input.device_id))) [
    | inl missing ↦ absurd (ground arith)
    | inr (device, fd) ↦
        elim (Option-cases (get_refresh_token_by_hash s (hash env input.refresh_token))) [
          | inl missing ↦ absurd (ground arith)
          | inr (token, ft) ↦
              elim (Option-cases (get_refresh_family_by_id s token.refresh_family_id)) [
                | inl missing ↦ absurd (ground arith)
                | inr (family, ff) ↦
                    let o : InOrder env input s device family token = record {
                      device_found = fd;
                      device_active = ground (arith, fd, ft, ff);
                      token_found = ft;
                      family_found = ff;
                      family_owned =
                          ground (
                            arith,
                            fd,
                            ft,
                            ff,
                            text_eq_iff family.device_id (trim input.device_id),
                          );
                      family_active = ground (arith, fd, ft, ff);
                    } in
                    let used = refresh-InOrder device family token o in
                    let (fresh, rotated) =
                      use_token-ok (trim input.device_id) device family token s' r (sym used ∙ e) in
                    (device, family, token, o, fresh, rotated)
              ]
        ]
  ]
