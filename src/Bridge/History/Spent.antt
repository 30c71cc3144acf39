-- ===== src/Bridge/History/Spent.antt =====
-- services.ts: a bootstrap token that was used is never unused again.
use erg.Prelude.{
  ℕ, ◌+◌, ◌≡◌, ◌≢◌, refl, sym, subst, inl, inr, Bool, Bool-cases, true, Option, none, some, List,
  [], ◌∷◌, Text, Map, codes, arith, get, set, get-set, Distinct, Distinct-set, All, Option-cases,
  is_some, text_eq, text_eq_iff,
}
use erg.Bridge.State.{
  BootstrapTokenRecord, PairingSessionRecord, PairingStatus, pending, redeemed, expired, locked,
}
use erg.Bridge.Ids.{Bytes, create_opaque_token}
use erg.Bridge.Store.{
  State, get_bootstrap_token_by_hash, update_bootstrap_token, create_bootstrap_token,
  update_pairing_session, create_pairing_session as store_pairing_session, upsert_prompt_result,
  get_pairing_session_by_id, create_device, update_device, create_refresh_family,
  update_refresh_family, create_refresh_token, update_refresh_token,
}
use erg.Bridge.Store.Cleanup.{bootstrap_dead, cleanup_expired}
use erg.Bridge.Store.Cleanup.Sweeps.{Distinct-sweep, get-sweep}
use erg.Bridge.Services.{Env, hash}
use erg.Bridge.Services.Keeps.{Keeps}
use erg.Bridge.Services.Pairing.{
  redeem, redeem_session, redeem_open, count_failure, grant, create_pairing_session,
  normalize_pairing_code, trimmed, find_session, is_given,
}
use erg.Bridge.Services.Pairing.Keeps.{redeem_pairing_code-Keeps}
use erg.Bridge.Services.Register.Keeps.{register_device-Keeps}
use erg.Bridge.Services.Register.{
  register_for, consume_bootstrap_token, RegisterDraws, RegisterInput,
}
use erg.Bridge.Services.Activity.{mark_prompt_result, cleanup_expired_state}
use erg.Bridge.History.{
  Call, create_pairing, redeem as redeem_call, register as register_call, refresh as refresh_call,
  issue_ticket, consume_ticket, revoke as revoke_call, mark_prompt, record_event, touch, cleanup,
  step, run,
}
use erg.Bridge.History.Quiet.{IsQuiet, step-tables}
use erg.Bridge.History.Quiet.Refreshes.{Tables}

-- Whether a lookup finds no unused token.
abbrev pub is_spent : Option BootstrapTokenRecord → Bool
is_spent none = true
is_spent (some r) = is_some r.used_at

pub record IsSpent (h : Text) (m : Map BootstrapTokenRecord) : Type 0 where
  pub distinct : Distinct m
  pub spent : is_spent (get m h) ≡ true

-- No redemption draws a token with this hash.
abbrev pub SparesToken : Env → Text → ℕ × Call → Type 0
SparesToken env h (now, redeem_call bytes code given) =
    hash env (create_opaque_token (codes "btp") bytes) ≢ h
SparesToken env h (now, _) = Unit

module _ (h : Text) where
  abbrev Stays : State → Type 0
  Stays s = IsSpent h s.bootstrap_tokens

  -- A used token may be written anywhere, another one elsewhere.
  pub set-IsSpent :
      (m : Map BootstrapTokenRecord) (j : Text) (r : BootstrapTokenRecord)
      → (text_eq j h ≡ true → is_some r.used_at ≡ true)
      → IsSpent h m
      → IsSpent h (set m j r)
  set-IsSpent m j r may k = elim (Bool-cases (text_eq j h)) [
    | inl here ↦ record {
      distinct = Distinct-set m j r k.distinct;
      spent = ground (arith, get-set m j r h, here, may here);
    }
    | inr there ↦ record {
      distinct = Distinct-set m j r k.distinct;
      spent = ground (arith, get-set m j r h, there, k.spent);
    }
  ]

  redeem_open-Stays :
      (env : Env) (now : ℕ) (bytes : Bytes) (by_id : Bool) (x : Text) (r : PairingSessionRecord)
      → hash env (create_opaque_token (codes "btp") bytes) ≢ h
      → Keeps Stays (redeem_open env now bytes by_id x r)
  unfolding redeem_open count_failure grant update_pairing_session create_bootstrap_token
  redeem_open-Stays env now bytes by_id x r other s k =
      let token = hash env (create_opaque_token (codes "btp") bytes) in
      let fresh : BootstrapTokenRecord = record {
        token_hash = token;
        pairing_session_id = r.pairing_session_id;
        created_at = now;
        expires_at = now + env.config.bootstrap_token_ttl_ms;
        used_at = none;
      } in
      let may : text_eq token h ≡ true → is_some fresh.used_at ≡ true =
        λ same. absurd (other ((text_eq_iff token h).0 same)) in
      ground (arith, k, set-IsSpent s.bootstrap_tokens token fresh may k)

  redeem_session-Stays :
      (env : Env) (now : ℕ) (bytes : Bytes) (by_id : Bool) (x : Text) (r : PairingSessionRecord)
      (status : PairingStatus)
      → hash env (create_opaque_token (codes "btp") bytes) ≢ h
      → Keeps Stays (redeem_session env now bytes by_id x r status)
  unfolding redeem_session
  redeem_session-Stays env now bytes by_id x r locked other s k = k
  redeem_session-Stays env now bytes by_id x r redeemed other s k = k
  redeem_session-Stays env now bytes by_id x r expired other s k =
      redeem_open-Stays env now bytes by_id x r other s k
  redeem_session-Stays env now bytes by_id x r pending other s k =
      redeem_open-Stays env now bytes by_id x r other s k

  consume_bootstrap_token-Stays :
      (env : Env) (now : ℕ) (raw : Text) → Keeps Stays (consume_bootstrap_token env now raw)
  unfolding consume_bootstrap_token update_bootstrap_token
  consume_bootstrap_token-Stays env now raw s k =
      elim (Option-cases (get_bootstrap_token_by_hash s (hash env raw))) [
        | inl missing ↦ ground (arith, missing, k)
        | inr (token, found) ↦
            let used : BootstrapTokenRecord = record token { used_at = some now } in
            ground (
              arith,
              found,
              k,
              set-IsSpent s.bootstrap_tokens token.token_hash used (λ same. refl) k,
            )
      ]

  cleanup-Stays :
      (env : Env) (now : ℕ) (s : State) → Stays s → Stays (cleanup_expired_state env.config now s)
  unfolding cleanup_expired_state cleanup_expired
  cleanup-Stays env now s k = record {
    distinct = Distinct-sweep (bootstrap_dead now) s.bootstrap_tokens k.distinct;
    spent = ground (
      arith,
      get-sweep (bootstrap_dead now) s.bootstrap_tokens h k.distinct,
      k.spent,
      Option-cases (get s.bootstrap_tokens h),
    );
  }

  redeem-Stays :
      (env : Env) (now : ℕ) (bytes : Bytes) (given : Option Text) (x : Text)
      → hash env (create_opaque_token (codes "btp") bytes) ≢ h
      → Keeps Stays (redeem env now bytes given x)
  unfolding redeem
  redeem-Stays env now bytes given x other s k = elim (Option-cases (find_session given x s)) [
    | inl missing ↦ rw missing k
    | inr (r, found) ↦
        rw found (redeem_session-Stays env now bytes (is_given given) x r r.status other s k)
  ]

  register_for-Stays :
      (env : Env) (now : ℕ) (draws : RegisterDraws) (input : RegisterInput)
      (b : BootstrapTokenRecord)
      → Keeps Stays (register_for env now draws input b)
  unfolding register_for create_device update_device create_refresh_family update_refresh_family
      create_refresh_token update_refresh_token
  register_for-Stays env now draws input b s k =
      elim (Option-cases (get_pairing_session_by_id s b.pairing_session_id)) [
        | inl missing ↦ rw missing k
        | inr (session, found) ↦ rw found k
      ]

  quiet-Stays :
      (env : Env) (now : ℕ) (c : Call) (s : State) → IsQuiet c → Stays s → Stays (step env now c s)
  quiet-Stays env now c s q k =
      subst (λ (t : Tables). IsSpent h t.2) (sym (step-tables env now c s q)) k

  step-Stays :
      (env : Env) (now : ℕ) (c : Call) (s : State)
      → SparesToken env h (now, c)
      → Stays s
      → Stays (step env now c s)
  unfolding step create_pairing_session store_pairing_session update_pairing_session
      mark_prompt_result upsert_prompt_result
  step-Stays env now (create_pairing a b input) s w k = k
  step-Stays env now (redeem_call bytes code given) s w k =
      redeem_pairing_code-Keeps Stays env now bytes code given
        (redeem-Stays env now bytes (trimmed given) (hash env (normalize_pairing_code code)) w) s k
  step-Stays env now (register_call draws input) s w k =
      register_device-Keeps Stays env now draws input
        (consume_bootstrap_token-Stays env now input.bootstrap_token)
        (register_for-Stays env now draws input) s k
  step-Stays env now (mark_prompt input) s w k = k
  step-Stays env now cleanup s w k = cleanup-Stays env now s k
  step-Stays env now (refresh_call d i) s w k = quiet-Stays env now (refresh_call d i) s tt k
  step-Stays env now (issue_ticket a b t i) s w k =
      quiet-Stays env now (issue_ticket a b t i) s tt k
  step-Stays env now (consume_ticket t) s w k = quiet-Stays env now (consume_ticket t) s tt k
  step-Stays env now (revoke_call b i) s w k = quiet-Stays env now (revoke_call b i) s tt k
  step-Stays env now (record_event b i) s w k = quiet-Stays env now (record_event b i) s tt k
  step-Stays env now (touch a b i) s w k = quiet-Stays env now (touch a b i) s tt k

  pub run-IsSpent :
      (env : Env) (calls : List (ℕ × Call)) (s : State)
      → All (SparesToken env h) calls
      → IsSpent h s.bootstrap_tokens
      → IsSpent h (run env calls s).bootstrap_tokens
  unfolding run
  run-IsSpent env [] s w k = k
  run-IsSpent env ((now, c) ∷ rest) s (w, ws) k =
      run-IsSpent env rest (step env now c s) ws (step-Stays env now c s w k)
