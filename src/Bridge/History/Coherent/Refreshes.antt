-- ===== src/Bridge/History/Coherent/Refreshes.antt =====
-- `refreshSession` and `consumeBootstrapToken` of services.ts keep the tables coherent.
use erg.Prelude.{ℕ, some, List, [], ◌∷◌, Text, arith, Option-cases, inl, inr, trim}
use erg.Bridge.State.{DeviceRecord, RefreshTokenFamilyRecord, RefreshTokenRecord}
use erg.Bridge.Store.{
  State, create_refresh_token, update_refresh_token, get_bootstrap_token_by_hash, get_device_by_id,
  get_refresh_token_by_hash, get_refresh_family_by_id,
}
use erg.Bridge.Store.Coherent.{IsCoherent}
use erg.Bridge.Store.Upkeep.{
  upkeep, update_bootstrap_token-IsCoherent, update_refresh_token-IsCoherent,
}
use erg.Bridge.Ids.{Bytes}
use erg.Bridge.Services.{hash, Env, M}
use erg.Bridge.Services.Keeps.{Keeps, with_transaction-Keeps}
use erg.Bridge.Services.Register.{consume_bootstrap_token}
use erg.Bridge.Services.Refresh.{
  RefreshDraws, RefreshInput, revoke_tokens, mark_family_compromised, detect_reuse, rotate,
  use_token, refresh, refresh_session, reuse_reason,
}

abbrev pub K : {A : Type 0} → M A → Type 0
K m = Keeps IsCoherent m

pub consume_bootstrap_token-K :
    (env : Env) (now : ℕ) (raw : Text) → K (consume_bootstrap_token env now raw)
unfolding consume_bootstrap_token
consume_bootstrap_token-K env now raw s c =
    elim (Option-cases (get_bootstrap_token_by_hash s (hash env raw))) [
      | inl missing ↦ rw missing c
      | inr (token, found) ↦
          let used = record token { used_at = some now } in
          ground (arith, found, update_bootstrap_token-IsCoherent used s c, c)
    ]

pub revoke_tokens-IsCoherent :
    (now : ℕ) (ts : List RefreshTokenRecord) (s : State)
    → IsCoherent s
    → IsCoherent (revoke_tokens now ts s)
unfolding revoke_tokens
revoke_tokens-IsCoherent now [] s c = c
revoke_tokens-IsCoherent now (t ∷ ts) s c =
    let gone = record t { revoked_at = some now } in
    ground (
      arith,
      revoke_tokens-IsCoherent now ts s c,
      revoke_tokens-IsCoherent now ts (update_refresh_token gone s)
          (update_refresh_token-IsCoherent gone s c),
    )

mark_family_compromised-IsCoherent :
    (family : RefreshTokenFamilyRecord) (device : DeviceRecord) (reason : Text) (now : ℕ)
    (bytes : Bytes) (s : State)
    → IsCoherent s
    → IsCoherent (mark_family_compromised family device reason now bytes s)
unfolding mark_family_compromised
mark_family_compromised-IsCoherent family device reason now bytes s c =
    search (upkeep, revoke_tokens-IsCoherent)

rotate-K :
    (env : Env) (now : ℕ) (draws : RefreshDraws) (input : RefreshInput) (id : Text)
    (device : DeviceRecord) (family : RefreshTokenFamilyRecord) (token : RefreshTokenRecord)
    → K (rotate env now draws input id device family token)
unfolding rotate create_refresh_token
rotate-K env now draws input id device family token s c = search upkeep

use_token-K :
    (env : Env) (now : ℕ) (draws : RefreshDraws) (input : RefreshInput) (id : Text)
    (device : DeviceRecord) (family : RefreshTokenFamilyRecord) (token : RefreshTokenRecord)
    → K (use_token env now draws input id device family token)
unfolding use_token detect_reuse
use_token-K env now draws input id device family token s c = ground (
  arith,
  c,
  rotate-K env now draws input id device family token s c,
  mark_family_compromised-IsCoherent family device reuse_reason now draws.revocation s c,
)

refresh-K :
    (env : Env) (now : ℕ) (draws : RefreshDraws) (input : RefreshInput)
    → K (refresh env now draws input)
unfolding refresh
refresh-K env now draws input s c =
    elim (Option-cases (get_device_by_id s (trim input.device_id))) [
      | inl missing ↦ ground (arith, missing, c)
      | inr (device, fd) ↦
          elim (Option-cases (get_refresh_token_by_hash s (hash env input.refresh_token))) [
            | inl missing ↦ ground (arith, fd, missing, c)
            | inr (token, ft) ↦
                elim (Option-cases (get_refresh_family_by_id s token.refresh_family_id)) [
                  | inl missing ↦ ground (arith, fd, ft, missing, c)
                  | inr (family, ff) ↦ ground (
                    arith,
                    fd,
                    ft,
                    ff,
                    c,
                    use_token-K env now draws input (trim input.device_id) device family token s c,
                  )
                ]
          ]
    ]

pub refresh_session-K :
    (env : Env) (now : ℕ) (draws : RefreshDraws) (input : RefreshInput)
    → K (refresh_session env now draws input)
unfolding refresh_session
refresh_session-K env now draws input =
    with_transaction-Keeps IsCoherent env.config.bridge_store_driver _
      (refresh-K env now draws input)
