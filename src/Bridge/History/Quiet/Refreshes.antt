-- ===== src/Bridge/History/Quiet/Refreshes.antt =====
-- services.ts: a refresh and a revocation leave the sessions of pairing, the bootstrap
-- tokens and the results of prompts as they are.
use erg.Prelude.{
  ℕ, trim, ◌≡◌, Option, some, none, List, [], ◌∷◌, Text, Map, get, arith, Option-cases, inl, inr,
}
use erg.Bridge.State.{
  PairingSessionRecord, BootstrapTokenRecord, PromptResultRecord, RefreshTokenRecord, DeviceRecord,
  RefreshTokenFamilyRecord, DeviceStatus, FamilyStatus,
}
use erg.Bridge.Store.{
  State, update_refresh_token, update_device, create_refresh_token, create_revocation,
  update_refresh_family, get_device_by_id, get_refresh_family_by_id, get_refresh_token_by_hash,
  list_refresh_tokens_by_family_id,
}
use erg.Bridge.Ids.{Bytes}
use erg.Bridge.Services.{Env, hash}
use erg.Bridge.Services.Keeps.{Keeps, with_transaction-Keeps}
use erg.Bridge.Services.Refresh.{
  refresh, refresh_session, RefreshDraws, RefreshInput, revoke_tokens, use_token, detect_reuse,
  reuse_reason, mark_family_compromised, rotate,
}
use erg.Bridge.Services.Access.{revoke, revoke_device, revoke_family, RevokeInput}

abbrev pub Tables : Type 0
Tables = Map PairingSessionRecord × Map Text × Map BootstrapTokenRecord × Map PromptResultRecord

-- The tables that most calls leave alone.
abbrev pub tables : State → Tables
tables s =
    (s.pairing_sessions, s.pairing_sessions_by_code_hash, s.bootstrap_tokens, s.prompt_results)

module _ (p : Tables) where
  abbrev pub Same : State → Type 0
  Same s = tables s ≡ p

  revoke_tokens-Same :
      (now : ℕ) (ts : List RefreshTokenRecord) (s : State) → Same s → Same (revoke_tokens now ts s)
  unfolding revoke_tokens update_refresh_token
  revoke_tokens-Same now [] s h = h
  revoke_tokens-Same now (t ∷ ts) s h = ground (
    arith,
    revoke_tokens-Same now ts s h,
    revoke_tokens-Same now ts (update_refresh_token (record t { revoked_at = some now }) s) h,
  )

  rotate-Same :
      (env : Env) (now : ℕ) (d : RefreshDraws) (i : RefreshInput) (id : Text) (x : DeviceRecord)
      (f : RefreshTokenFamilyRecord) (t : RefreshTokenRecord)
      → Keeps Same (rotate env now d i id x f t)
  unfolding rotate create_refresh_token update_refresh_token update_device
  rotate-Same env now d i id x f t s h = ground arith

  revoke_family-Same :
      (reason : Text) (f : Option RefreshTokenFamilyRecord) (s : State)
      → Same s
      → Same (revoke_family reason f s)
  unfolding update_refresh_family
  revoke_family-Same reason none s h = h
  revoke_family-Same reason (some f) s h = h

  revoke-Same : (now : ℕ) (b : Bytes) (i : RevokeInput) → Keeps Same (revoke now b i)
  unfolding revoke create_revocation update_device get_device_by_id
  revoke-Same now b i s h = elim (Option-cases (get s.devices i.device_id)) [
    | inl missing ↦ rw missing h
    | inr (device, found) ↦
        let s₁ =
          update_device
            (record device {
              status = DeviceStatus.revoked;
              revoked_at = some now;
              revoke_reason = some i.reason;
            })
            s in
        let f = get_refresh_family_by_id s₁ device.current_refresh_family_id in
        let s₂ = revoke_family i.reason f s₁ in
        let ts = list_refresh_tokens_by_family_id s₂ device.current_refresh_family_id in
        rw found (revoke_tokens-Same now ts s₂ (revoke_family-Same i.reason f s₁ h))
  ]

  mark_family_compromised-Same :
      (f : RefreshTokenFamilyRecord) (d : DeviceRecord) (r : Text) (now : ℕ) (b : Bytes) (s : State)
      → Same s
      → Same (mark_family_compromised f d r now b s)
  unfolding mark_family_compromised update_refresh_family update_device create_revocation
  mark_family_compromised-Same f d r now b s h =
      let s₁ =
        update_refresh_family
          (record f {
            status = FamilyStatus.compromised;
            compromised_at = some now;
            revoke_reason = some r;
          })
          s in
      let s₂ =
        update_device (record d { status = DeviceStatus.repair_required; revoke_reason = some r })
          s₁ in
      revoke_tokens-Same now (list_refresh_tokens_by_family_id s₂ f.refresh_family_id) s₂ h

  use_token-Same :
      (env : Env) (now : ℕ) (d : RefreshDraws) (i : RefreshInput) (id : Text) (x : DeviceRecord)
      (f : RefreshTokenFamilyRecord) (t : RefreshTokenRecord)
      → Keeps Same (use_token env now d i id x f t)
  unfolding use_token detect_reuse
  use_token-Same env now d i id x f t s h = ground (
    arith,
    h,
    mark_family_compromised-Same f x reuse_reason now d.revocation s h,
    rotate-Same env now d i id x f t s h,
  )

  refresh-Same :
      (env : Env) (now : ℕ) (d : RefreshDraws) (i : RefreshInput) → Keeps Same (refresh env now d i)
  unfolding refresh get_device_by_id
  refresh-Same env now d i s h = elim (Option-cases (get s.devices (trim i.device_id))) [
    | inl missing ↦ ground (arith, missing, h)
    | inr (device, fd) ↦
        elim (Option-cases (get_refresh_token_by_hash s (hash env i.refresh_token))) [
          | inl missing ↦ ground (arith, fd, missing, h)
          | inr (token, ft) ↦
              elim (Option-cases (get_refresh_family_by_id s token.refresh_family_id)) [
                | inl missing ↦ ground (arith, fd, ft, missing, h)
                | inr (family, ff) ↦ ground (
                  arith,
                  fd,
                  ft,
                  ff,
                  h,
                  use_token-Same env now d i (trim i.device_id) device family token s h,
                )
              ]
        ]
  ]

  pub refresh_session-Same :
      (env : Env) (now : ℕ) (d : RefreshDraws) (i : RefreshInput)
      → Keeps Same (refresh_session env now d i)
  unfolding refresh_session
  refresh_session-Same env now d i =
      with_transaction-Keeps Same env.config.bridge_store_driver _ (refresh-Same env now d i)

  pub revoke_device-Same :
      (env : Env) (now : ℕ) (b : Bytes) (i : RevokeInput) → Keeps Same (revoke_device env now b i)
  unfolding revoke_device
  revoke_device-Same env now b i =
      with_transaction-Keeps Same env.config.bridge_store_driver _ (revoke-Same now b i)
