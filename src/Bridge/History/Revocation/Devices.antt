-- ===== src/Bridge/History/Revocation/Devices.antt =====
-- The devices of a store, one of which is not active. What each method of services.ts does to it.
use erg.Prelude.{
  ℕ, ◌≡◌, refl, sym, subst, false, some, List, Text, Map, arith, get, set, get-set, text_eq_iff,
  text_eq, Option-cases, Bool-cases, inl, inr, trim,
}
use erg.Bridge.State.{DeviceStatus, DeviceRecord, RefreshTokenFamilyRecord, RefreshTokenRecord}
use erg.Bridge.Store.{
  State, update_device, get_device_by_id, get_refresh_token_by_hash, get_refresh_family_by_id,
  create_refresh_token, update_refresh_family, update_refresh_token, create_revocation,
  list_refresh_tokens_by_family_id,
}
use erg.Bridge.Store.Coherent.{Keyed, Keyed-set}
use erg.Bridge.Ids.{Bytes}
use erg.Bridge.Services.{Env, hash, store_of}
use erg.Bridge.Services.Keeps.{Keeps, with_transaction-Keeps}
use erg.Bridge.Services.Refresh.{
  RefreshDraws, RefreshInput, is_active_device, revoke_tokens, mark_family_compromised,
  detect_reuse, rotate, use_token, refresh, refresh_session, seen_device, reuse_reason,
}
use erg.Bridge.Services.Refresh.Reuse.{marks}
use erg.Bridge.Services.Refresh.Revoking.{revoke_tokens-SameRest}

-- The records stand under their ids, and the one of this id is there and not active.
pub record Off (id : Text) (m : Map DeviceRecord) : Type 0 where
  pub keyed : Keyed (λ d. d.device_id) m
  pub device : DeviceRecord
  pub found : get m id ≡ some device
  pub off : is_active_device device.status ≡ false

abbrev pub StaysOff : Text → State → Type 0
StaysOff id s = Off id s.devices

-- A device that may be written: it is another one, or not active.
abbrev pub MayWrite : Text → DeviceRecord → Type 0
MayWrite id d = d.device_id ≡ id → is_active_device d.status ≡ false

pub set-Off :
    (id : Text) (m : Map DeviceRecord) (d : DeviceRecord)
    → Off id m
    → MayWrite id d
    → Off id (set m d.device_id d)
set-Off id m d o may = elim (Bool-cases (text_eq d.device_id id)) [
  | inl here ↦ record {
    keyed = Keyed-set (λ d. d.device_id) m d o.keyed;
    device = d;
    found = ground (arith, get-set m d.device_id d id);
    off = may ((text_eq_iff d.device_id id).0 here);
  }
  | inr there ↦ record {
    keyed = Keyed-set (λ d. d.device_id) m d o.keyed;
    device = o.device;
    found = ground (arith, get-set m d.device_id d id, o.found);
    off = o.off;
  }
]

-- A device that is found may be written back with its status.
pub found-MayWrite :
    (id k : Text) (m : Map DeviceRecord) (d : DeviceRecord)
    → Off id m
    → get m k ≡ some d
    → MayWrite id d
found-MayWrite id k m d o at same =
    let here : d.device_id ≡ k = o.keyed k d at in
    let is : o.device ≡ d = cc (at, o.found, here, same) in cc (o.off, is)

module _ (id : Text) where
  pub update_device-Off :
      (d : DeviceRecord) (s : State)
      → StaysOff id s
      → MayWrite id d
      → StaysOff id (update_device d s)
  unfolding update_device
  update_device-Off d s o may = set-Off id s.devices d o may

  pub revoke_tokens-Off :
      (now : ℕ) (ts : List RefreshTokenRecord) (s : State)
      → StaysOff id s
      → StaysOff id (revoke_tokens now ts s)
  revoke_tokens-Off now ts s o = subst (Off id) (sym (revoke_tokens-SameRest now ts s).devices) o

  mark-Off :
      (family : RefreshTokenFamilyRecord) (device : DeviceRecord) (reason : Text) (now : ℕ)
      (bytes : Bytes) (s : State)
      → StaysOff id s
      → StaysOff id (mark_family_compromised family device reason now bytes s)
  unfolding mark_family_compromised create_revocation update_device update_refresh_family
  mark-Off family device reason now bytes s o =
      let m = marks family device reason now s in
      let repair = record device {
        status = DeviceStatus.repair_required;
        revoke_reason = some reason;
      } in
      revoke_tokens-Off now (list_refresh_tokens_by_family_id m family.refresh_family_id) m
        (set-Off id s.devices repair o (λ same. refl))

  -- A token is exchanged for an active device alone, which is another one.
  use_token-Off :
      (env : Env) (now : ℕ) (draws : RefreshDraws) (input : RefreshInput) (k : Text)
      (device : DeviceRecord) (family : RefreshTokenFamilyRecord) (token : RefreshTokenRecord)
      (s : State)
      → StaysOff id s
      → MayWrite id device
      → StaysOff id (store_of (use_token env now draws input k device family token s))
  unfolding use_token detect_reuse rotate seen_device update_device create_refresh_token
      update_refresh_token
  use_token-Off env now draws input k device family token s o may = ground (
    arith,
    o,
    set-Off id s.devices (seen_device now input device) o may,
    mark-Off family device reuse_reason now draws.revocation s o,
  )

  refresh-Off :
      (env : Env) (now : ℕ) (draws : RefreshDraws) (input : RefreshInput)
      → Keeps (StaysOff id) (refresh env now draws input)
  unfolding refresh get_device_by_id
  refresh-Off env now draws input s o = elim (Option-cases (get s.devices (trim input.device_id))) [
    | inl missing ↦ ground (arith, missing, o)
    | inr (device, fd) ↦
        elim (Option-cases (get_refresh_token_by_hash s (hash env input.refresh_token))) [
          | inl missing ↦ ground (arith, fd, missing, o)
          | inr (token, ft) ↦
              elim (Option-cases (get_refresh_family_by_id s token.refresh_family_id)) [
                | inl missing ↦ ground (arith, fd, ft, missing, o)
                | inr (family, ff) ↦ ground (
                  arith,
                  fd,
                  ft,
                  ff,
                  o,
                  use_token-Off env now draws input (trim input.device_id) device family token s o
                      (found-MayWrite id (trim input.device_id) s.devices device o fd),
                )
              ]
        ]
  ]

  pub refresh_session-Off :
      (env : Env) (now : ℕ) (draws : RefreshDraws) (input : RefreshInput)
      → Keeps (StaysOff id) (refresh_session env now draws input)
  unfolding refresh_session
  refresh_session-Off env now draws input =
      with_transaction-Keeps (StaysOff id) env.config.bridge_store_driver _
        (refresh-Off env now draws input)
