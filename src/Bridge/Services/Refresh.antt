-- ===== src/Bridge/Services/Refresh.antt =====
-- services.ts: `refreshSession` and `markFamilyCompromised`.
pub mod Rules
pub mod Rotation
pub mod Revoking
pub mod Reuse
pub mod Lifetime
pub mod Replay
use erg.Prelude.{
  ℕ, Bool, ◌||◌, not, Option, none, some, List, [], ◌∷◌, Text, codes, leb, if◌then◌else◌, is_some,
  text_eq, trim,
}
use erg.Bridge.State.{
  ClientType, DeviceStatus, DeviceRecord, FamilyStatus, RefreshTokenFamilyRecord,
  RefreshTokenRecord, SubjectType,
}
use erg.Bridge.Store.{
  State, update_device, get_device_by_id, get_refresh_family_by_id, update_refresh_family,
  create_refresh_token, update_refresh_token, get_refresh_token_by_hash,
  list_refresh_tokens_by_family_id, create_revocation,
}
use erg.Bridge.Ids.{Bytes, create_id, create_opaque_token}
use erg.Bridge.AccessTokens.{issue}
use erg.Bridge.Services.{
  device_inactive, refresh_invalid, device_revoked, refresh_reuse_detected, refresh_expired, M,
  ◌>>=◌, ◌>>◌, return, throw, throw_if, modify, gets, or_throw, with_transaction, Env, hash,
}
use erg.Bridge.Services.Register.{access_token_scope, issue_refresh_token}

abbrev pub is_active_device : DeviceStatus → Bool
is_active_device DeviceStatus.active = Bool.true
is_active_device _ = Bool.false

abbrev pub is_active_family : FamilyStatus → Bool
is_active_family FamilyStatus.active = Bool.true
is_active_family _ = Bool.false

-- The loop over the tokens of a family, which revokes those that are not revoked yet.
unfoldable pub revoke_tokens : ℕ → List RefreshTokenRecord → State → State
unfolding update_refresh_token
revoke_tokens now [] s = s
revoke_tokens now (t ∷ ts) s = revoke_tokens now ts (
    if is_some t.revoked_at then s else update_refresh_token (record t { revoked_at = some now }) s)

-- `id_bytes` are drawn for the id of the revocation.
unfoldable pub mark_family_compromised :
    RefreshTokenFamilyRecord → DeviceRecord → Text → ℕ → Bytes → State → State
unfolding update_refresh_family update_device list_refresh_tokens_by_family_id revoke_tokens
    create_revocation create_id
mark_family_compromised family device reason now id_bytes s =
    let s₁ =
      update_refresh_family
        (record family {
          status = FamilyStatus.compromised;
          compromised_at = some now;
          revoke_reason = some reason;
        })
        s in
    let s₂ =
      update_device
        (record device { status = DeviceStatus.repair_required; revoke_reason = some reason }) s₁ in
    let s₃ = revoke_tokens now (list_refresh_tokens_by_family_id s₂ family.refresh_family_id) s₂ in
    create_revocation
      (record {
        revocation_id = create_id (codes "rev") id_bytes;
        subject_type = SubjectType.family;
        subject_id = family.refresh_family_id;
        reason = reason;
        created_at = now;
        created_by = codes "system";
      })
      s₃

pub record RefreshInput : Type 0 where
  pub device_id : Text
  pub refresh_token : Text
  pub remote_ip : Option Text

-- The random draws: a token with its id, the id of the access token, and that of a revocation.
pub record RefreshDraws : Type 0 where
  pub token : Bytes
  pub token_id : Bytes
  pub access : Bytes
  pub revocation : Bytes

pub record RefreshSessionResponse : Type 0 where
  pub access_token : Text
  pub access_expires_at : ℕ
  pub refresh_token : Text
  pub refresh_expires_at : ℕ
  pub refresh_family_id : Text
  pub client_type : ClientType

-- `a ?? b`
abbrev or_known : Option Text → Option Text → Option Text
or_known none b = b
or_known (some a) b = some a

-- The token that replaces another.
unfoldable pub next_token :
    Env
    → ℕ
    → RefreshDraws
    → DeviceRecord
    → RefreshTokenFamilyRecord
    → RefreshTokenRecord
    → RefreshTokenRecord
unfolding issue_refresh_token create_opaque_token create_id
next_token env now draws device family token =
    issue_refresh_token env device family (some token) now
      (create_opaque_token (codes "rt") draws.token) (create_id (codes "rtr") draws.token_id)

-- The token that was replaced, and its device, as they are put back.
unfoldable pub used_token : ℕ → RefreshTokenRecord → RefreshTokenRecord → RefreshTokenRecord
used_token now next token = record token {
  used_at = some now;
  replaced_by_refresh_token_id = some next.refresh_token_id;
}

unfoldable pub seen_device : ℕ → RefreshInput → DeviceRecord → DeviceRecord
seen_device now input device = record device {
  last_seen_at = some now;
  last_ip = or_known input.remote_ip device.last_ip;
}

-- The part after the checks: the token is replaced by a new one of its family.
unfoldable pub rotate :
    Env
    → ℕ
    → RefreshDraws
    → RefreshInput
    → Text
    → DeviceRecord
    → RefreshTokenFamilyRecord
    → RefreshTokenRecord
    → M RefreshSessionResponse
unfolding issue
rotate env now draws input device_id device family token =
    let next = next_token env now draws device family token in
    let access =
      issue env.jwt now draws.access device_id access_token_scope env.config.access_token_ttl_ms in
    do
      modify (update_refresh_token (used_token now next token))
      modify (create_refresh_token next)
      modify (update_device (seen_device now input device))
      return (record {
        access_token = access.token;
        access_expires_at = access.expires_at;
        refresh_token = create_opaque_token (codes "rt") draws.token;
        refresh_expires_at = next.expires_at;
        refresh_family_id = family.refresh_family_id;
        client_type = device.client_type;
      })

unfoldable pub reuse_reason : Text
reuse_reason = codes "refresh_token_reuse_detected"

-- A token that was used already: its family is given up.
unfoldable pub detect_reuse :
    ℕ → RefreshDraws → RefreshTokenFamilyRecord → DeviceRecord → M RefreshSessionResponse
unfolding mark_family_compromised reuse_reason
detect_reuse now draws family device = do
  modify (mark_family_compromised family device reuse_reason now draws.revocation)
  throw refresh_reuse_detected

-- The part on the token itself, once it, its family and its device are known to be in order.
unfoldable pub use_token :
    Env
    → ℕ
    → RefreshDraws
    → RefreshInput
    → Text
    → DeviceRecord
    → RefreshTokenFamilyRecord
    → RefreshTokenRecord
    → M RefreshSessionResponse
use_token env now draws input device_id device family token =
    if is_some token.used_at
    then detect_reuse now draws family device
    else if is_some token.revoked_at || leb token.expires_at now
    then throw refresh_expired
    else rotate env now draws input device_id device family token

-- The callback of the transaction.
unfoldable pub refresh : Env → ℕ → RefreshDraws → RefreshInput → M RefreshSessionResponse
unfolding hash trim get_device_by_id get_refresh_token_by_hash get_refresh_family_by_id
refresh env now draws input = do
  let device_id = trim input.device_id
  found_device ← gets (λ s. get_device_by_id s device_id)
  device ← or_throw found_device device_inactive
  throw_if (not (is_active_device device.status)) device_inactive
  found_token ← gets (λ s. get_refresh_token_by_hash s (hash env input.refresh_token))
  token ← or_throw found_token refresh_invalid
  found_family ← gets (λ s. get_refresh_family_by_id s token.refresh_family_id)
  family ← or_throw found_family refresh_invalid
  throw_if (not (text_eq family.device_id device_id)) refresh_invalid
  throw_if (not (is_active_family family.status) || not (is_active_device device.status))
      device_revoked
  use_token env now draws input device_id device family token

unfoldable pub refresh_session : Env → ℕ → RefreshDraws → RefreshInput → M RefreshSessionResponse
unfolding with_transaction
refresh_session env now draws input =
    with_transaction env.config.bridge_store_driver (refresh env now draws input)
