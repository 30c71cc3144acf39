-- ===== src/Bridge/Services/Refresh/Reuse.antt =====
-- services.ts: a refresh token that is presented a second time.
use erg.Prelude.{ℕ, ◌≡◌, refl, sym, subst, ◌∙◌, some, Text, trim, get, get-set_self}
use erg.Bridge.State.{
  DeviceStatus, DeviceRecord, FamilyStatus, RefreshTokenFamilyRecord, RefreshTokenRecord,
}
use erg.Bridge.Store.{State, update_device, update_refresh_family, list_refresh_tokens_by_family_id}
use erg.Bridge.Store.Coherent.{IsCoherent}
use erg.Bridge.Store.Upkeep.{update_device-IsCoherent, update_refresh_family-IsCoherent}
use erg.Bridge.Ids.{Bytes}
use erg.Bridge.Services.{ok, err, Env, store_of, memory, postgres, refresh_reuse_detected}
use erg.Bridge.Services.Transactions.{with_transaction_of_ok, memory-err, postgres-err}
use erg.Bridge.Services.Refresh.{
  RefreshInput, RefreshDraws, RefreshSessionResponse, mark_family_compromised, detect_reuse,
  use_token, refresh, refresh_session, reuse_reason,
}
use erg.Bridge.Services.Refresh.Rules.{InOrder, IsFresh, refresh-InOrder}
use erg.Bridge.Services.Refresh.Rotation.{refresh_fresh, rotate-total}
use erg.Bridge.Services.Refresh.Revoking.{IsRevoked, revoke_tokens-SameRest, family-IsRevoked}

-- A family that was given up: it is marked, its device needs repair, and its tokens are revoked.
pub record IsCompromised (s s' : State) (device_id family_id : Text) : Type 0 where
  pub device : DeviceRecord
  pub device_found : get s'.devices device_id ≡ some device
  pub needs_repair : device.status ≡ DeviceStatus.repair_required
  pub family : RefreshTokenFamilyRecord
  pub family_found : get s'.refresh_families family_id ≡ some family
  pub marked : family.status ≡ FamilyStatus.compromised
  pub tokens :
      (h : Text) (r : RefreshTokenRecord)
      → get s.refresh_tokens h ≡ some r
      → r.refresh_family_id ≡ family_id
      → IsRevoked s' h

-- The store after the two marks of `markFamilyCompromised`.
abbrev pub marks : RefreshTokenFamilyRecord → DeviceRecord → Text → ℕ → State → State
marks family device reason now s =
    update_device
      (record device { status = DeviceStatus.repair_required; revoke_reason = some reason })
      (update_refresh_family
        (record family {
          status = FamilyStatus.compromised;
          compromised_at = some now;
          revoke_reason = some reason;
        })
        s)

marks-IsCoherent :
    (family : RefreshTokenFamilyRecord) (device : DeviceRecord) (reason : Text) (now : ℕ)
    (s : State)
    → IsCoherent s
    → IsCoherent (marks family device reason now s)
marks-IsCoherent family device reason now s c =
    update_device-IsCoherent _ _ (update_refresh_family-IsCoherent _ s c)

marks-tokens :
    (family : RefreshTokenFamilyRecord) (device : DeviceRecord) (reason : Text) (now : ℕ)
    (s : State)
    → (marks family device reason now s).refresh_tokens ≡ s.refresh_tokens
unfolding update_device update_refresh_family
marks-tokens family device reason now s = refl

marks-found :
    (family : RefreshTokenFamilyRecord) (device : DeviceRecord) (reason : Text) (now : ℕ)
    (s : State)
    → let m = marks family device reason now s in
      (get m.devices device.device_id
        ≡ some
            (record device { status = DeviceStatus.repair_required; revoke_reason = some reason }))
      × (get m.refresh_families family.refresh_family_id
          ≡ some (record family {
            status = FamilyStatus.compromised;
            compromised_at = some now;
            revoke_reason = some reason;
          }))
unfolding update_device update_refresh_family
marks-found family device reason now s = (
  get-set_self s.devices device.device_id _,
  get-set_self s.refresh_families family.refresh_family_id _,
)

pub mark-IsCompromised :
    (family : RefreshTokenFamilyRecord) (device : DeviceRecord) (reason : Text) (now : ℕ)
    (bytes : Bytes) (s : State)
    → IsCoherent s
    → IsCompromised s
        (mark_family_compromised family device reason now bytes s)
        device.device_id
        family.refresh_family_id
unfolding mark_family_compromised
mark-IsCompromised family device reason now bytes s c =
    let m = marks family device reason now s in
    let rest =
      revoke_tokens-SameRest now (list_refresh_tokens_by_family_id m family.refresh_family_id) m in
    record {
      device = record device { status = DeviceStatus.repair_required; revoke_reason = some reason };
      device_found = cc (rest.devices, (marks-found family device reason now s).0);
      needs_repair = refl;
      family = record family {
        status = FamilyStatus.compromised;
        compromised_at = some now;
        revoke_reason = some reason;
      };
      family_found = cc (rest.families, (marks-found family device reason now s).1);
      marked = refl;
      tokens = λ h r found own.
          family-IsRevoked m (marks-IsCoherent family device reason now s c) now
            family.refresh_family_id h r
            (subst (λ t. get t h ≡ some r) (sym (marks-tokens family device reason now s)) found)
            own;
    }

module _ (env : Env) (now : ℕ) (draws : RefreshDraws) (input : RefreshInput) (s : State)
    (device : DeviceRecord) (family : RefreshTokenFamilyRecord) (token : RefreshTokenRecord)
    (o : InOrder env input s device family token) {before : ℕ}
    (used : token.used_at ≡ some before) where
  -- The callback marks the family and throws.
  reuse_throws :
      refresh env now draws input s
      ≡ err refresh_reuse_detected
          (mark_family_compromised family device reuse_reason now draws.revocation s)
  unfolding use_token detect_reuse
  reuse_throws = refresh-InOrder env now draws input s device family token o ∙ rw used refl

  -- In the memory store, presenting a used token of an active device throws
  -- `refresh_reuse_detected`; the device then needs repair, the family is marked as compromised,
  -- and every token of the family is revoked, the one that replaced the used one among them.
  pub reuse_compromises :
      IsCoherent s
      → env.config.bridge_store_driver ≡ memory
      → (s' : State) × (refresh_session env now draws input s ≡ err refresh_reuse_detected s')
        × IsCompromised s s' device.device_id family.refresh_family_id
  unfolding refresh_session
  reuse_compromises c d = (
    mark_family_compromised family device reuse_reason now draws.revocation s,
    memory-err env.config.bridge_store_driver _ s _ refresh_reuse_detected d reuse_throws,
    mark-IsCompromised family device reuse_reason now draws.revocation s c,
  )

  -- With PostgreSQL the marks are rolled back with the error: presenting a used token throws
  -- `refresh_reuse_detected` and changes nothing, so that a later request with a fresh token of an
  -- active family of the same store is still granted.
  pub postgres_forgets_reuse :
      (later : ℕ) (draws' : RefreshDraws) (input' : RefreshInput)
      (family' : RefreshTokenFamilyRecord) (token' : RefreshTokenRecord)
      → env.config.bridge_store_driver ≡ postgres
      → InOrder env input' s device family' token'
      → IsFresh later token'
      → (refresh_session env now draws input s ≡ err refresh_reuse_detected s)
        × ((r : RefreshSessionResponse) × (s' : State) × (refresh_session env later draws' input'
                (store_of (refresh_session env now draws input s))
              ≡ ok r s'))
  unfolding refresh_session
  postgres_forgets_reuse later draws' input' family' token' d o' f =
      let threw : refresh_session env now draws input s ≡ err refresh_reuse_detected s =
        postgres-err env.config.bridge_store_driver _ s _ refresh_reuse_detected d reuse_throws in
      let (r, s', granted) =
        rotate-total env later draws' input' (trim input'.device_id) device family' token' s in
      (
        threw,
        (
          r,
          s',
          rw threw (
              with_transaction_of_ok env.config.bridge_store_driver _ s s' r
                (refresh_fresh env later draws' input' s device family' token' o' f ∙ granted)),
        ),
      )
