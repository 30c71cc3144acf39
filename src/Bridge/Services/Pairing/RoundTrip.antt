-- ===== src/Bridge/Services/Pairing/RoundTrip.antt =====
-- services.ts: a session that was created can be redeemed with the code that was returned.
use erg.Prelude.{
  ℕ, ◌+◌, ◌<◌, ◌≡◌, refl, ◌∙◌, ◌⊎◌, inr, Option, none, some, Text, codes, arith, get-set_self,
}
use erg.Bridge.State.{PairingSessionRecord}
use erg.Bridge.Store.{State, find_pairing_session_by_code_hash, get_pairing_session_by_id}
use erg.Bridge.Ids.{Bytes, create_id, create_pairing_code}
use erg.Bridge.Services.{ok, Env, hash}
use erg.Bridge.Services.Pairing.{
  CreateInput, new_session, PairingSessionResponse, RedeemPairingResponse, create_pairing_session,
  grant, find_session, redeem_pairing_code, trimmed, normalize_pairing_code,
}
use erg.Bridge.Services.Pairing.Codes.{eight, create_pairing_code-valid}
use erg.Bridge.Services.Pairing.Redeem.{IsRedeemable, redeem-granted, redeem_pairing_code_of_ok}

-- The session that a call has created is found by its id and by its code.
find-created :
    (env : Env) (now : ℕ) (id_bytes code_bytes : Bytes) (input : CreateInput) (s s' : State)
    (p : PairingSessionResponse) (given : Option Text)
    → create_pairing_session env now id_bytes code_bytes input s ≡ ok p s'
    → (given ≡ none) ⊎ (given ≡ some p.pairing_session_id)
    → (find_session given (hash env p.pairing_code) s'
        ≡ some (new_session env now p.pairing_session_id p.pairing_code input))
      × (p.pairing_code ≡ create_pairing_code code_bytes)
unfolding create_pairing_session find_session find_pairing_session_by_code_hash
    get_pairing_session_by_id create_id
find-created env now id_bytes code_bytes input s s' p given e how =
    let id = create_id (codes "ps") id_bytes in
    let session = new_session env now id (create_pairing_code code_bytes) input in
    (
      ground (
        arith,
        get-set_self s.pairing_sessions id session,
        get-set_self s.pairing_sessions_by_code_hash (hash env (create_pairing_code code_bytes)) id,
      ),
      ground arith,
    )

new_session-IsRedeemable :
    (env : Env) (now later : ℕ) (id code h : Text) (input : CreateInput) (given : Option Text)
    → later < now + env.config.pairing_code_ttl_ms
    → hash env code ≡ h
    → IsRedeemable later given h (new_session env now id code input)
unfolding new_session
new_session-IsRedeemable env now later id code h input given time same = record {
  is_open = ((λ e. cc), (λ e. cc));
  unexpired = time;
  matching = inr same;
}

new_session-id :
    (env : Env) (now : ℕ) (id code : Text) (input : CreateInput)
    → (new_session env now id code input).pairing_session_id ≡ id
unfolding new_session
new_session-id env now id code input = refl

normal : (t u : Text) → t ≡ u → normalize_pairing_code u ≡ u → normalize_pairing_code t ≡ t
normal t u e h = rw e h

grant-id :
    (env : Env) (now : ℕ) (bytes : Bytes) (session : PairingSessionRecord) (s : State)
    → (r : RedeemPairingResponse) × (s' : State) × (grant env now bytes session s ≡ ok r s')
      × (r.pairing_session_id ≡ session.pairing_session_id)
unfolding grant
grant-id env now bytes session s = (_, _, refl, refl)

module _ (a b c d e f g i : ℕ) where
  -- A session that `createPairingSession` has made of eight random bytes is redeemed, in either
  -- store and until its time runs out, by the code that was returned, with or without its id.
  pub create-redeem :
      (env : Env) (now later : ℕ) (id_bytes bytes : Bytes) (input : CreateInput) (s s' : State)
      (p : PairingSessionResponse) (given : Option Text)
      → create_pairing_session env now id_bytes (eight a b c d e f g i) input s ≡ ok p s'
      → (trimmed given ≡ none) ⊎ (trimmed given ≡ some p.pairing_session_id)
      → later < now + env.config.pairing_code_ttl_ms
      → (r : RedeemPairingResponse) × (s'' : State) × (redeem_pairing_code env later bytes
            p.pairing_code given s'
          ≡ ok r s'')
        × (r.pairing_session_id ≡ p.pairing_session_id)
  create-redeem env now later id_bytes bytes input s s' p given made how time =
      let (found, is_code) =
        find-created env now id_bytes (eight a b c d e f g i) input s s' p (trimmed given) made
          how in
      let (valid, same) = create_pairing_code-valid a b c d e f g i in
      let session = new_session env now p.pairing_session_id p.pairing_code input in
      let (r, s'', granted, own) = grant-id env later bytes session s' in
      let ran =
        redeem-granted env later bytes (trimmed given) (hash env p.pairing_code) s' session found (
          new_session-IsRedeemable env now later p.pairing_session_id p.pairing_code _ input
            (trimmed given) time refl) in
      (
        r,
        s'',
        redeem_pairing_code_of_ok env later bytes p.pairing_code given s' s'' r (rw is_code valid) (
            rw (normal p.pairing_code (create_pairing_code (eight a b c d e f g i)) is_code same)
              (ran ∙ granted)),
        own ∙ new_session-id env now p.pairing_session_id p.pairing_code input,
      )
