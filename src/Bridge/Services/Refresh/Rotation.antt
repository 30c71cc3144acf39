-- ===== src/Bridge/Services/Refresh/Rotation.antt =====
-- services.ts: what a successful refresh leaves behind, and what the new token is good for.
use erg.Prelude.{ℕ, ◌<◌, ◌≡◌, refl, subst, ◌∙◌, Text, arith, trim, set, get-set_self}
use erg.Bridge.State.{DeviceRecord, RefreshTokenFamilyRecord, RefreshTokenRecord}
use erg.Bridge.Store.{
  State, get_device_by_id, get_refresh_family_by_id, get_refresh_token_by_hash, update_device,
  create_refresh_token, update_refresh_token,
}
use erg.Bridge.Store.Coherent.{IsCoherent}
use erg.Bridge.Services.{ok, Env, hash}
use erg.Bridge.Services.Transactions.{with_transaction-ok, with_transaction_of_ok}
use erg.Bridge.Services.Refresh.{
  RefreshInput, RefreshDraws, RefreshSessionResponse, next_token, used_token, seen_device, rotate,
  use_token, refresh, refresh_session,
}
use erg.Bridge.Services.Refresh.Rules.{InOrder, IsFresh, refresh-InOrder, refresh-ok}

-- The tables after a rotation.
pub record Rotated (env : Env) (now : ℕ) (draws : RefreshDraws) (input : RefreshInput)
    (device : DeviceRecord) (family : RefreshTokenFamilyRecord) (token : RefreshTokenRecord)
    (s s' : State) (r : RefreshSessionResponse) : Type 0 where
  pub families : s'.refresh_families ≡ s.refresh_families
  pub devices : s'.devices ≡ set s.devices device.device_id (seen_device now input device)
  pub tokens :
      s'.refresh_tokens
      ≡ set
          (set s.refresh_tokens token.token_hash
            (used_token now (next_token env now draws device family token) token))
          (hash env r.refresh_token)
          (next_token env now draws device family token)
  pub expiry : r.refresh_expires_at ≡ (next_token env now draws device family token).expires_at

pub rotate-Rotated :
    (env : Env) (now : ℕ) (draws : RefreshDraws) (input : RefreshInput) (id : Text)
    (device : DeviceRecord) (family : RefreshTokenFamilyRecord) (token : RefreshTokenRecord)
    (s s' : State) (r : RefreshSessionResponse)
    → rotate env now draws input id device family token s ≡ ok r s'
    → Rotated env now draws input device family token s s' r
unfolding rotate update_device create_refresh_token update_refresh_token next_token used_token
    seen_device
rotate-Rotated env now draws input id device family token s s' r e = record {
  families = ground arith;
  devices = ground arith;
  tokens = ground arith;
  expiry = ground arith;
}

pub rotate-total :
    (env : Env) (now : ℕ) (draws : RefreshDraws) (input : RefreshInput) (id : Text)
    (device : DeviceRecord) (family : RefreshTokenFamilyRecord) (token : RefreshTokenRecord)
    (s : State)
    → (r : RefreshSessionResponse) × (s' : State) × (rotate env now draws input id device family
          token s
        ≡ ok r s')
unfolding rotate
rotate-total env now draws input id device family token s = (_, _, refl)

-- A request with all in order and a fresh token is granted.
pub refresh_fresh :
    (env : Env) (now : ℕ) (draws : RefreshDraws) (input : RefreshInput) (s : State)
    (device : DeviceRecord) (family : RefreshTokenFamilyRecord) (token : RefreshTokenRecord)
    → InOrder env input s device family token
    → IsFresh now token
    → refresh env now draws input s
      ≡ rotate env now draws input (trim input.device_id) device family token s
unfolding use_token
refresh_fresh env now draws input s device family token o f =
    refresh-InOrder env now draws input s device family token o
    ∙ ground (arith, f.unused, f.unrevoked, f.unexpired)

module _ (env : Env) (now : ℕ) (draws : RefreshDraws) (input : RefreshInput) (s s' : State)
    (r : RefreshSessionResponse) (c : IsCoherent s) where
  -- The next request of the same device, with the token that was returned, finds all in order.
  next-InOrder :
      (device : DeviceRecord) (family : RefreshTokenFamilyRecord) (token : RefreshTokenRecord)
      (input' : RefreshInput)
      → InOrder env input s device family token
      → Rotated env now draws input device family token s s' r
      → input'.device_id ≡ input.device_id
      → input'.refresh_token ≡ r.refresh_token
      → InOrder env input' s'
          (seen_device now input device)
          family
          (next_token env now draws device family token)
  unfolding get_device_by_id get_refresh_family_by_id get_refresh_token_by_hash seen_device
      next_token
  next-InOrder device family token input' o z same_id same_token =
      let next = next_token env now draws device family token in
      let used = set s.refresh_tokens token.token_hash (used_token now next token) in
      let seen = seen_device now input device in
      record {
        device_found = cc (
          z.devices,
          same_id,
          c.devices (trim input.device_id) device o.device_found,
          get-set_self s.devices device.device_id seen,
        );
        device_active = o.device_active;
        token_found = cc (z.tokens, same_token, get-set_self used (hash env r.refresh_token) next);
        family_found =
            cc (
              z.families,
              o.family_found,
              c.families token.refresh_family_id family o.family_found,
            );
        family_owned = cc (o.family_owned, same_id);
        family_active = o.family_active;
      }

  -- A refresh that has returned can be followed by the next one: in either store, and until the
  -- returned expiry, the same device may exchange the token that was returned.
  pub refresh_next :
      (later : ℕ) (draws' : RefreshDraws) (input' : RefreshInput)
      → refresh_session env now draws input s ≡ ok r s'
      → input'.device_id ≡ input.device_id
      → input'.refresh_token ≡ r.refresh_token
      → later < r.refresh_expires_at
      → (r' : RefreshSessionResponse) × (s'' : State) × (refresh_session env later draws' input' s'
          ≡ ok r' s'')
  unfolding refresh_session
  refresh_next later draws' input' first same_id same_token time =
      let ran = with_transaction-ok env.config.bridge_store_driver _ s s' r first in
      let (device, family, token, o, f, rotated) = refresh-ok env now draws input s s' r ran in
      let z = rotate-Rotated env now draws input _ device family token s s' r rotated in
      let seen = seen_device now input device in
      let next = next_token env now draws device family token in
      let o' = next-InOrder device family token input' o z same_id same_token in
      let fresh : IsFresh later next =
        unfold next_token in
        record {
          unused = refl;
          unrevoked = refl;
          unexpired = subst (λ t. later < t) z.expiry time;
        } in
      let (r', s'', granted) =
        rotate-total env later draws' input' (trim input'.device_id) seen family next s' in
      (
        r',
        s'',
        with_transaction_of_ok env.config.bridge_store_driver _ s' s'' r'
            (refresh_fresh env later draws' input' s' seen family next o' fresh ∙ granted),
      )
