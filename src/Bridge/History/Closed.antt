-- ===== src/Bridge/History/Closed.antt =====
-- services.ts: a session of pairing that was redeemed stays redeemed, and the one of its code.
use erg.Prelude.{
  ℕ, ◌+◌, ◌≡◌, ◌≢◌, refl, sym, subst, ap, ◌∙◌, inl, inr, Bool, Bool-cases, Option, none, some, List,
  [], ◌∷◌, Text, Map, codes, arith, get, set, get-set, All, Option-cases, text_eq, text_eq_iff,
}
use erg.Bridge.State.{PairingSessionRecord, PairingStatus, pending, redeemed, expired, locked}
use erg.Bridge.Ids.{Bytes, create_id, create_pairing_code}
use erg.Bridge.Store.{
  State, update_bootstrap_token, create_bootstrap_token, update_pairing_session,
  create_pairing_session as store_pairing_session, upsert_prompt_result, get_pairing_session_by_id,
  find_pairing_session_by_code_hash,
}
use erg.Bridge.Store.Coherent.{Keyed, Keyed-set}
use erg.Bridge.Store.Cleanup.{cleanup_expired}
use erg.Bridge.Services.{Env, hash, store_of}
use erg.Bridge.Services.Keeps.{Keeps}
use erg.Bridge.Services.Pairing.{
  redeem, redeem_session, redeem_open, count_failure, grant, new_session, create_pairing_session,
  normalize_pairing_code, trimmed, find_session, is_given, CreateInput,
}
use erg.Bridge.Services.Pairing.Keeps.{redeem_pairing_code-Keeps}
use erg.Bridge.Services.Register.Keeps.{Untouched, untouched, register_device-Same}
use erg.Bridge.Services.Register.{}
use erg.Bridge.Services.Activity.{mark_prompt_result, cleanup_expired_state}
use erg.Bridge.History.{
  Call, create_pairing, redeem as redeem_call, register as register_call, refresh as refresh_call,
  issue_ticket, consume_ticket, revoke as revoke_call, mark_prompt, record_event, touch, cleanup,
  step, run,
}
use erg.Bridge.History.Quiet.{IsQuiet, step-tables}
use erg.Bridge.History.Quiet.Refreshes.{Tables}

-- No session but the one under the id has this code.
abbrev pub IsSole : Text → Text → Map PairingSessionRecord → Type 0
IsSole id h m = (k : Text) (r : PairingSessionRecord) → get m k ≡ some r → r.code_hash ≡ h → k ≡ id

-- The session under the id is redeemed, and its code leads to it alone.
pub record IsClosed (id h : Text) (m : Map PairingSessionRecord) (index : Map Text) : Type 0 where
  pub keyed : Keyed (λ (r : PairingSessionRecord). r.pairing_session_id) m
  pub session : PairingSessionRecord
  pub found : get m id ≡ some session
  pub closed : session.status ≡ redeemed
  pub indexed : get index h ≡ some id
  pub sole : IsSole id h m

-- No session is created with this id or this code.
abbrev pub SparesSession : Env → Text → Text → ℕ × Call → Type 0
SparesSession env id h (now, create_pairing id_bytes code_bytes input) =
    (create_id (codes "ps") id_bytes ≢ id) × (hash env (create_pairing_code code_bytes) ≢ h)
SparesSession env id h (now, _) = Unit

Option-some : {A : Type 0} {x y : A} → some x ≡ some y → x ≡ y
Option-some e = cc

-- A session that is found stands under some key.
found_at :
    (given : Option Text) (x : Text) (s : State) (r : PairingSessionRecord)
    → find_session given x s ≡ some r
    → (k : Text) × (get s.pairing_sessions k ≡ some r)
unfolding find_session find_pairing_session_by_code_hash get_pairing_session_by_id
found_at (some id) x s r e = (id, e)
found_at none x s r e = elim (Option-cases (get s.pairing_sessions_by_code_hash x)) [
  | inl missing ↦ absurd (ground (arith, missing))
  | inr (id, at) ↦ (id, ground (arith, at))
]

module _ (id h : Text) where
  abbrev pub Shut : State → Type 0
  Shut s = IsClosed id h s.pairing_sessions s.pairing_sessions_by_code_hash

  pub set-IsSole :
      (m : Map PairingSessionRecord) (r : PairingSessionRecord)
      → (r.code_hash ≡ h → r.pairing_session_id ≡ id)
      → IsSole id h m
      → IsSole id h (set m r.pairing_session_id r)
  set-IsSole m r own sole k o e same = elim (Bool-cases (text_eq r.pairing_session_id k)) [
    | inl here ↦
        let is : r ≡ o = ground (arith, get-set m r.pairing_session_id r k, here, e) in
        sym ((text_eq_iff r.pairing_session_id k).0 here)
        ∙ own (ap (λ (x : PairingSessionRecord). x.code_hash) is ∙ same)
    | inr there ↦ sole k o (ground (arith, get-set m r.pairing_session_id r k, there, e)) same
  ]

  -- Another session with another code is written.
  write-Shut :
      (r : PairingSessionRecord) (s : State)
      → r.pairing_session_id ≢ id
      → r.code_hash ≢ h
      → Shut s
      → Shut (update_pairing_session r s)
  unfolding update_pairing_session
  write-Shut r s other apart k = record {
    keyed =
        Keyed-set (λ (x : PairingSessionRecord). x.pairing_session_id) s.pairing_sessions r k.keyed;
    session = k.session;
    found = ground (
      arith,
      get-set s.pairing_sessions r.pairing_session_id r id,
      text_eq_iff r.pairing_session_id id,
      other,
      k.found,
    );
    closed = k.closed;
    indexed = ground (
      arith,
      get-set s.pairing_sessions_by_code_hash r.code_hash r.pairing_session_id h,
      text_eq_iff r.code_hash h,
      apart,
      k.indexed,
    );
    sole = set-IsSole s.pairing_sessions r (λ same. absurd (apart same)) k.sole;
  }

  redeem_open-Shut :
      (env : Env) (now : ℕ) (bytes : Bytes) (by_id : Bool) (x : Text) (r : PairingSessionRecord)
      → r.pairing_session_id ≢ id
      → r.code_hash ≢ h
      → Keeps Shut (redeem_open env now bytes by_id x r)
  unfolding redeem_open count_failure grant create_bootstrap_token update_bootstrap_token
  redeem_open-Shut env now bytes by_id x r other apart s k =
      let n = r.failed_attempts + 1 in
      ground (
        arith,
        k,
        write-Shut (record r { status = expired }) s other apart k,
        write-Shut (record r { failed_attempts = n; status = locked }) s other apart k,
        write-Shut (record r { failed_attempts = n }) s other apart k,
        write-Shut (record r { status = redeemed; redeemed_at = some now }) s other apart k,
      )

  -- A session that is found and not redeemed is another one, with another code.
  found-other :
      (given : Option Text) (x : Text) (s : State) (r : PairingSessionRecord)
      → find_session given x s ≡ some r
      → Shut s
      → r.status ≢ redeemed
      → (r.pairing_session_id ≢ id) × (r.code_hash ≢ h)
  found-other given x s r e k open_still =
      let (j, at) = found_at given x s r e in
      let own : r.pairing_session_id ≡ j = k.keyed j r at in
      let apart : j ≢ id = λ same.
        let is : k.session ≡ r = Option-some (sym k.found ∙ rw (← same) at) in
        open_still (ap (λ (y : PairingSessionRecord). y.status) (sym is) ∙ k.closed) in
      ((λ same. apart (sym own ∙ same)), (λ same. apart (k.sole j r at same)))

  redeem_session-Shut :
      (env : Env) (now : ℕ) (bytes : Bytes) (given : Option Text) (by_id : Bool) (x : Text)
      (r : PairingSessionRecord) (status : PairingStatus) (s : State)
      → r.status ≡ status
      → find_session given x s ≡ some r
      → Shut s
      → Shut (store_of (redeem_session env now bytes by_id x r status s))
  unfolding redeem_session
  redeem_session-Shut env now bytes given by_id x r locked s is e k = k
  redeem_session-Shut env now bytes given by_id x r redeemed s is e k = k
  redeem_session-Shut env now bytes given by_id x r pending s is e k =
      let (other, apart) = found-other given x s r e k (λ same. cc (is, same)) in
      redeem_open-Shut env now bytes by_id x r other apart s k
  redeem_session-Shut env now bytes given by_id x r expired s is e k =
      let (other, apart) = found-other given x s r e k (λ same. cc (is, same)) in
      redeem_open-Shut env now bytes by_id x r other apart s k

  redeem-Shut :
      (env : Env) (now : ℕ) (bytes : Bytes) (given : Option Text) (x : Text)
      → Keeps Shut (redeem env now bytes given x)
  unfolding redeem
  redeem-Shut env now bytes given x s k = elim (Option-cases (find_session given x s)) [
    | inl missing ↦ rw missing k
    | inr (r, found) ↦
        rw found
          (redeem_session-Shut env now bytes given (is_given given) x r r.status s refl found k)
  ]

  create_pairing_session-Shut :
      (env : Env) (now : ℕ) (id_bytes code_bytes : Bytes) (input : CreateInput)
      → SparesSession env id h (now, create_pairing id_bytes code_bytes input)
      → Keeps Shut (create_pairing_session env now id_bytes code_bytes input)
  unfolding create_pairing_session store_pairing_session new_session
  create_pairing_session-Shut env now id_bytes code_bytes input (other, apart) s k =
      write-Shut
        (new_session env now (create_id (codes "ps") id_bytes) (create_pairing_code code_bytes)
          input)
        s other apart k

  quiet-Shut :
      (env : Env) (now : ℕ) (c : Call) (s : State) → IsQuiet c → Shut s → Shut (step env now c s)
  quiet-Shut env now c s q k =
      subst (λ (t : Tables). IsClosed id h t.0 t.1) (sym (step-tables env now c s q)) k

  step-Shut :
      (env : Env) (now : ℕ) (c : Call) (s : State)
      → SparesSession env id h (now, c)
      → Shut s
      → Shut (step env now c s)
  unfolding step mark_prompt_result upsert_prompt_result cleanup_expired_state cleanup_expired
  step-Shut env now (create_pairing a b input) s w k =
      create_pairing_session-Shut env now a b input w s k
  step-Shut env now (redeem_call bytes code given) s w k =
      redeem_pairing_code-Keeps Shut env now bytes code given
        (redeem-Shut env now bytes (trimmed given) (hash env (normalize_pairing_code code))) s k
  step-Shut env now (register_call draws input) s w k =
      subst (λ (t : Untouched). IsClosed id h t.0 t.1)
        (sym (register_device-Same (untouched s) env now draws input s refl)) k
  step-Shut env now (mark_prompt input) s w k = k
  step-Shut env now cleanup s w k = k
  step-Shut env now (refresh_call d i) s w k = quiet-Shut env now (refresh_call d i) s tt k
  step-Shut env now (issue_ticket a b t i) s w k = quiet-Shut env now (issue_ticket a b t i) s tt k
  step-Shut env now (consume_ticket t) s w k = quiet-Shut env now (consume_ticket t) s tt k
  step-Shut env now (revoke_call b i) s w k = quiet-Shut env now (revoke_call b i) s tt k
  step-Shut env now (record_event b i) s w k = quiet-Shut env now (record_event b i) s tt k
  step-Shut env now (touch a b i) s w k = quiet-Shut env now (touch a b i) s tt k

  pub run-Shut :
      (env : Env) (calls : List (ℕ × Call)) (s : State)
      → All (SparesSession env id h) calls
      → Shut s
      → Shut (run env calls s)
  unfolding run
  run-Shut env [] s w k = k
  run-Shut env ((now, c) ∷ rest) s (w, ws) k =
      run-Shut env rest (step env now c s) ws (step-Shut env now c s w k)
