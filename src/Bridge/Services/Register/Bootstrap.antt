-- ===== src/Bridge/Services/Register/Bootstrap.antt =====
-- services.ts: a bootstrap token registers one device.
use erg.Prelude.{
  ℕ, ◌<◌, ◌≡◌, ◌≢◌, ◌⊎◌, sym, subst, ap, ◌∙◌, true, none, some, is_some, List, Text, arith, get,
  set, get-set_self, Distinct-set, All, Option-cases, inl, inr,
}
use erg.Bridge.State.{BootstrapTokenRecord}
use erg.Bridge.Store.{
  State, get_bootstrap_token_by_hash, update_bootstrap_token, get_pairing_session_by_id,
  create_device, update_device, create_refresh_family, update_refresh_family, create_refresh_token,
  update_refresh_token,
}
use erg.Bridge.Store.Coherent.{IsCoherent}
use erg.Bridge.Services.{ok, err, bootstrap_used, bootstrap_invalid, Env, hash}
use erg.Bridge.History.{Call, run}
use erg.Bridge.History.Spent.{IsSpent, SparesToken, run-IsSpent}
use erg.Bridge.Services.Keeps.{Run-cases}
use erg.Bridge.Services.Transactions.{with_transaction-ok, with_transaction-err}
use erg.Bridge.Services.Register.{
  RegisterDraws, RegisterInput, RegisterDeviceResponse, consume_bootstrap_token, register_for,
  register, register_device,
}

-- What a use of a token has found and left.
record Used (env : Env) (now : ℕ) (raw : Text) (s s' : State) : Type 0 where
  token : BootstrapTokenRecord
  found : get_bootstrap_token_by_hash s (hash env raw) ≡ some token
  unused : token.used_at ≡ none
  unexpired : now < token.expires_at
  left : s' ≡ update_bootstrap_token (record token { used_at = some now }) s

consume-Used :
    (env : Env) (now : ℕ) (raw : Text) (s s' : State) (b : BootstrapTokenRecord)
    → consume_bootstrap_token env now raw s ≡ ok b s'
    → Used env now raw s s'
unfolding consume_bootstrap_token
consume-Used env now raw s s' b e =
    elim (Option-cases (get_bootstrap_token_by_hash s (hash env raw))) [
      | inl missing ↦ absurd (ground (arith, missing, e))
      | inr (token, found) ↦ record {
        token = token;
        found = found;
        unused = ground (arith, found, e);
        unexpired = ground (arith, found, e);
        left = ground (arith, found, e);
      }
    ]

register_for-bootstraps :
    (env : Env) (now : ℕ) (draws : RegisterDraws) (input : RegisterInput) (b : BootstrapTokenRecord)
    (s s' : State) (r : RegisterDeviceResponse)
    → register_for env now draws input b s ≡ ok r s'
    → s'.bootstrap_tokens ≡ s.bootstrap_tokens
unfolding register_for create_device update_device create_refresh_family update_refresh_family
    create_refresh_token update_refresh_token
register_for-bootstraps env now draws input b s s' r e =
    elim (Option-cases (get_pairing_session_by_id s b.pairing_session_id)) [
      | inl missing ↦ absurd (ground (arith, missing, e))
      | inr (session, found) ↦ ground (arith, found, e)
    ]

-- A registration that returned has used its token.
register-Used :
    (env : Env) (now : ℕ) (draws : RegisterDraws) (input : RegisterInput) (s s' : State)
    (r : RegisterDeviceResponse)
    → register env now draws input s ≡ ok r s'
    → (t : State) × Used env now input.bootstrap_token s t
      × (s'.bootstrap_tokens ≡ t.bootstrap_tokens)
unfolding register
register-Used env now draws input s s' r e =
    elim (Run-cases (consume_bootstrap_token env now input.bootstrap_token s)) [
      | inr (x, t, threw) ↦ absurd (ground (arith, threw, e))
      | inl (b, t, returned) ↦ (
        t,
        consume-Used env now input.bootstrap_token s t b returned,
        register_for-bootstraps env now draws input b t s' r (ground (arith, returned, e)),
      )
    ]

-- After a registration that returned, its token is stored as used.
register-IsSpent :
    (env : Env) (now : ℕ) (draws : RegisterDraws) (input : RegisterInput) (s s' : State)
    (r : RegisterDeviceResponse)
    → IsCoherent s
    → register env now draws input s ≡ ok r s'
    → IsSpent (hash env input.bootstrap_token) s'.bootstrap_tokens
unfolding get_bootstrap_token_by_hash update_bootstrap_token
register-IsSpent env now draws input s s' r c ran =
    let (t, z, kept) = register-Used env now draws input s s' r ran in
    let used : BootstrapTokenRecord = record z.token { used_at = some now } in
    let h = hash env input.bootstrap_token in
    let own : z.token.token_hash ≡ h = c.bootstraps h z.token z.found in
    let after : s'.bootstrap_tokens ≡ set s.bootstrap_tokens z.token.token_hash used =
      kept ∙ ap (λ (q : State). q.bootstrap_tokens) z.left in
    subst (IsSpent h) (sym after) (record {
      distinct = Distinct-set s.bootstrap_tokens z.token.token_hash used c.distinct_bootstraps;
      spent = ground (arith, own, get-set_self s.bootstrap_tokens z.token.token_hash used);
    })

-- Where no unused token is stored, a registration throws.
spent-refused :
    (env : Env) (now : ℕ) (draws : RegisterDraws) (input : RegisterInput) (s : State)
    → IsSpent (hash env input.bootstrap_token) s.bootstrap_tokens
    → ((get_bootstrap_token_by_hash s (hash env input.bootstrap_token) ≡ none)
        × (register_device env now draws input s ≡ err bootstrap_invalid s))
      ⊎ ((get_bootstrap_token_by_hash s (hash env input.bootstrap_token) ≢ none)
          × (register_device env now draws input s ≡ err bootstrap_used s))
unfolding register_device register consume_bootstrap_token get_bootstrap_token_by_hash
spent-refused env now draws input s k =
    let threw =
      with_transaction-err env.config.bridge_store_driver (register env now draws input) s in
    elim (Option-cases (get s.bootstrap_tokens (hash env input.bootstrap_token))) [
      | inl missing ↦ inl (missing, threw bootstrap_invalid (ground (arith, missing)))
      | inr (token, found) ↦
          let used : is_some token.used_at ≡ true = ground (arith, found, k.spent) in
          inr ((λ missing. cc (missing, found)), threw bootstrap_used (ground (arith, found, used)))
    ]

-- A bootstrap token registers one device: after a registration that returned, in either store and over
-- coherent tables, and after any further calls of which none draws the token again, a registration
-- with it throws `bootstrap_used`, or `bootstrap_invalid` once it is no longer stored, and changes
-- nothing.
pub register_twice :
    (env : Env) (now later : ℕ) (draws draws' : RegisterDraws) (input input' : RegisterInput)
    (s s' : State) (r : RegisterDeviceResponse) (calls : List (ℕ × Call))
    → IsCoherent s
    → register_device env now draws input s ≡ ok r s'
    → All (SparesToken env (hash env input.bootstrap_token)) calls
    → input'.bootstrap_token ≡ input.bootstrap_token
    → let t = run env calls s' in
      ((get_bootstrap_token_by_hash t (hash env input'.bootstrap_token) ≡ none)
        × (register_device env later draws' input' t ≡ err bootstrap_invalid t))
      ⊎ ((get_bootstrap_token_by_hash t (hash env input'.bootstrap_token) ≢ none)
          × (register_device env later draws' input' t ≡ err bootstrap_used t))
unfolding register_device
register_twice env now later draws draws' input input' s s' r calls c first spared same =
    let h = hash env input.bootstrap_token in
    let ran = with_transaction-ok env.config.bridge_store_driver _ s s' r first in
    let after = register-IsSpent env now draws input s s' r c ran in
    spent-refused env later draws' input' (run env calls s') (
      subst (λ (raw : Text). IsSpent (hash env raw) (run env calls s').bootstrap_tokens) (sym same)
        (run-IsSpent h env calls s' spared after))
