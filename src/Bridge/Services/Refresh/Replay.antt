-- ===== src/Bridge/Services/Refresh/Replay.antt =====
-- services.ts: a refresh token that is presented again after it was exchanged.
use erg.Prelude.{
  ℕ, ◌≡◌, ◌≢◌, ◌∙◌, refl, false, sym, ap, subst, some, Text, arith, trim, get, set, get-set,
  get-set_self, text_eq, text_eq_iff,
}
use erg.Bridge.State.{DeviceRecord, RefreshTokenFamilyRecord, RefreshTokenRecord}
use erg.Bridge.Store.{State, get_device_by_id, get_refresh_family_by_id, get_refresh_token_by_hash}
use erg.Bridge.Store.Coherent.{IsCoherent}
use erg.Bridge.Services.{ok, err, Env, hash, memory, refresh_reuse_detected}
use erg.Bridge.Services.Transactions.{with_transaction-ok}
use erg.Bridge.Services.Refresh.{
  RefreshInput, RefreshDraws, RefreshSessionResponse, next_token, used_token, seen_device,
  refresh_session,
}
use erg.Bridge.Services.Refresh.Rules.{InOrder, refresh-ok}
use erg.Bridge.Services.Refresh.Rotation.{Rotated, rotate-Rotated}
use erg.Bridge.Services.Refresh.Reuse.{IsCompromised, reuse_compromises}

module _ (env : Env) (now : ℕ) (draws : RefreshDraws) (input : RefreshInput) (s s' : State)
    (r : RefreshSessionResponse) (c : IsCoherent s)
    (other : hash env r.refresh_token ≢ hash env input.refresh_token) where
  -- The token that was exchanged is still stored, marked as used.
  old-InOrder :
      (device : DeviceRecord) (family : RefreshTokenFamilyRecord) (token : RefreshTokenRecord)
      (input' : RefreshInput)
      → InOrder env input s device family token
      → Rotated env now draws input device family token s s' r
      → input'.device_id ≡ input.device_id
      → input'.refresh_token ≡ input.refresh_token
      → InOrder env input' s'
          (seen_device now input device)
          family
          (used_token now (next_token env now draws device family token) token)
  unfolding get_device_by_id get_refresh_family_by_id get_refresh_token_by_hash seen_device
      used_token
  old-InOrder device family token input' o z same_id same_token =
      let next = next_token env now draws device family token in
      let old = used_token now next token in
      let used = set s.refresh_tokens token.token_hash old in
      let seen = seen_device now input device in
      let key = hash env input.refresh_token in
      let own : token.token_hash ≡ key = c.tokens key token o.token_found in
      let new_key : text_eq (hash env r.refresh_token) key ≡ false =
        ground (arith, text_eq_iff (hash env r.refresh_token) key, other) in
      let kept : get used key ≡ some old =
        ap (λ (k : Text). get used k) (sym own)
        ∙ get-set_self s.refresh_tokens token.token_hash old in
      record {
        device_found = cc (
          z.devices,
          same_id,
          c.devices (trim input.device_id) device o.device_found,
          get-set_self s.devices device.device_id seen,
        );
        device_active = o.device_active;
        token_found = ground (
          arith,
          z.tokens,
          same_token,
          get-set used (hash env r.refresh_token) next key,
          new_key,
          kept,
        );
        family_found = ground (arith, z.families, o.family_found);
        family_owned = cc (o.family_owned, same_id);
        family_active = o.family_active;
      }

  -- In the memory store, presenting the exchanged token again throws `refresh_reuse_detected`, and
  -- the device and the family are given up.
  pub replay_compromises :
      (later : ℕ) (draws' : RefreshDraws) (input' : RefreshInput)
      → refresh_session env now draws input s ≡ ok r s'
      → IsCoherent s'
      → env.config.bridge_store_driver ≡ memory
      → input'.device_id ≡ input.device_id
      → input'.refresh_token ≡ input.refresh_token
      → (s'' : State) × (family_id : Text) × (refresh_session env later draws' input' s'
          ≡ err refresh_reuse_detected s'')
        × IsCompromised s' s'' (trim input.device_id) family_id
  unfolding refresh_session get_device_by_id seen_device used_token
  replay_compromises later draws' input' first c' driver same_id same_token =
      let ran = with_transaction-ok env.config.bridge_store_driver _ s s' r first in
      let (device, family, token, o, f, rotated) = refresh-ok env now draws input s s' r ran in
      let z = rotate-Rotated env now draws input _ device family token s s' r rotated in
      let o' = old-InOrder device family token input' o z same_id same_token in
      let seen = seen_device now input device in
      let old = used_token now (next_token env now draws device family token) token in
      let (s'', threw, given_up) =
        reuse_compromises env later draws' input' s' seen family old o' {before = now} refl c'
          driver in
      (
        s'',
        family.refresh_family_id,
        threw,
        subst (λ (id : Text). IsCompromised s' s'' id family.refresh_family_id)
            (c.devices (trim input.device_id) device o.device_found) given_up,
      )
