-- ===== src/Bridge/Services/Pairing/SingleUse.antt =====
-- services.ts: a pairing code is good for one redemption.
use erg.Prelude.{
  ℕ, subst, List, All, ◌≡◌, refl, sym, ◌⊎◌, inl, inr, false, Option, none, some, Text, arith, get,
  set, get-set_self, is_empty, Option-cases, ap,
}
use erg.Bridge.State.{redeemed, PairingSessionRecord}
use erg.Bridge.Store.{State, find_pairing_session_by_code_hash, get_pairing_session_by_id}
use erg.Bridge.Store.Coherent.{IsCoherent, Keyed, Keyed-set}
use erg.Bridge.History.{Call, run}
use erg.Bridge.History.Closed.{IsSole, SparesSession, Shut, set-IsSole, run-Shut}
use erg.Bridge.Ids.{Bytes}
use erg.Bridge.Services.{pairing_code_used, ok, err, Env, hash}
use erg.Bridge.Services.Pairing.{
  RedeemPairingResponse, grant, redeem_session, find_session, redeem, redeem_pairing_code, trimmed,
  validate_pairing_code_input, normalize_pairing_code,
}
use erg.Bridge.Services.Pairing.Redeem.{redeem-ok, redeem_pairing_code-err, redeem_pairing_code-ok}

-- A session after it was granted.
abbrev closed_at : ℕ → PairingSessionRecord → PairingSessionRecord
closed_at now session = record session { status = redeemed; redeemed_at = some now }

-- The tables that a granted redemption leaves.
record Closes (now : ℕ) (s s' : State) (session : PairingSessionRecord) (id : Text) : Type 0 where
  same_id : id ≡ session.pairing_session_id
  stored :
      s'.pairing_sessions
      ≡ set s.pairing_sessions session.pairing_session_id (closed_at now session)
  indexed :
      s'.pairing_sessions_by_code_hash
      ≡ set s.pairing_sessions_by_code_hash session.code_hash session.pairing_session_id

grant-Closes :
    (env : Env) (now : ℕ) (bytes : Bytes) (session : PairingSessionRecord) (s s' : State)
    (r : RedeemPairingResponse)
    → grant env now bytes session s ≡ ok r s'
    → Closes now s s' session r.pairing_session_id
unfolding grant
grant-Closes env now bytes session s s' r e = record {
  same_id = ground arith;
  stored = ground arith;
  indexed = ground arith;
}

-- A session found by its hash has that hash, and its id is not empty.
found_by_hash :
    (s : State) (h : Text) (session : PairingSessionRecord)
    → IsCoherent s
    → find_pairing_session_by_code_hash s h ≡ some session
    → (session.code_hash ≡ h) × (is_empty session.pairing_session_id ≡ false)
unfolding find_pairing_session_by_code_hash
found_by_hash s h session c e = elim (Option-cases (get s.pairing_sessions_by_code_hash h)) [
  | inl missing ↦ absurd (ground arith)
  | inr (id, at) ↦
      let (r, there, hashed) = c.indexed h id at in
      let nonempty : is_empty id ≡ false = ground arith in
      let same : r ≡ session = ground arith in
      (rw (← same) hashed, ground (arith, c.sessions id r there))
]

trimmed-nonempty : (value : Option Text) (t : Text) → trimmed value ≡ some t → is_empty t ≡ false
trimmed-nonempty none t e = cc
trimmed-nonempty (some v) t e = ground arith

-- A closed session refuses whoever finds it.
refuses :
    (env : Env) (now : ℕ) (bytes : Bytes) (session_id : Option Text) (code_hash : Text) (s : State)
    (closed : PairingSessionRecord)
    → find_session session_id code_hash s ≡ some closed
    → closed.status ≡ redeemed
    → redeem env now bytes session_id code_hash s ≡ err pairing_code_used s
unfolding redeem redeem_session
refuses env now bytes session_id code_hash s closed e h = ground arith

-- The session that a call finds: its id is not empty, and the call's hash is its own where no id
-- was given.
pub found-lem :
    (s : State) (value : Option Text) (h : Text) (session : PairingSessionRecord)
    → IsCoherent s
    → find_session (trimmed value) h s ≡ some session
    → (is_empty session.pairing_session_id ≡ false) × (trimmed value ≡ none → session.code_hash ≡ h)
unfolding find_session
found-lem s value h session c e = elim (Option-cases (trimmed value)) [
  | inl absent ↦
      let (hashed, nonempty) = found_by_hash s h session c (rw (absent, find_session) at e) in
      (nonempty, λ _. hashed)
  | inr (id, given) ↦
      let there : get_pairing_session_by_id s id ≡ some session = rw (given, find_session) at e in
      (
        ground (
          arith,
          trimmed-nonempty value id given,
          c.sessions id session (unfold get_pairing_session_by_id in there),
        ),
        λ absent. cc,
      )
]

-- A granted redemption closes the session, if no other one has its code.
Closes-Shut :
    (now : ℕ) (s s' : State) (session : PairingSessionRecord) (id h : Text)
    → IsCoherent s
    → Closes now s s' session id
    → session.code_hash ≡ h
    → IsSole id h s.pairing_sessions
    → Shut id h s'
Closes-Shut now s s' session id h c z own sole =
    let closed = closed_at now session in
    let m = set s.pairing_sessions session.pairing_session_id closed in
    record {
      keyed = subst (Keyed (λ (x : PairingSessionRecord). x.pairing_session_id)) (sym z.stored) (
          Keyed-set (λ (x : PairingSessionRecord). x.pairing_session_id) s.pairing_sessions closed
            c.sessions);
      session = closed;
      found = ground (
        arith,
        z.stored,
        z.same_id,
        get-set_self s.pairing_sessions session.pairing_session_id closed,
      );
      closed = refl;
      indexed = ground (
        arith,
        z.indexed,
        z.same_id,
        own,
        get-set_self s.pairing_sessions_by_code_hash session.code_hash session.pairing_session_id,
      );
      sole =
          subst (IsSole id h) (sym z.stored)
            (set-IsSole id h s.pairing_sessions closed (λ same. sym z.same_id) sole);
    }

-- A closed session is found by its id and by its hash.
find-Shut :
    (t : State) (id h x : Text) (given : Option Text) (k : Shut id h t)
    → is_empty id ≡ false
    → (given ≡ some id) ⊎ ((given ≡ none) × (x ≡ h))
    → find_session given x t ≡ some k.session
unfolding find_session find_pairing_session_by_code_hash get_pairing_session_by_id
find-Shut t id h x given k nonempty how = ground (arith, k.found, k.indexed)

-- A pairing code is good once. Once it has been redeemed, in either store and over coherent tables in
-- which no other session has this code, and after any further calls that create no session with the
-- same id or the same code, a call with a well-formed code that names the session, or that names none
-- and gives the same code, throws `pairing_code_used` and changes nothing.
pub redeem_twice :
    (env : Env) (now later : ℕ) (bytes bytes' : Bytes) (code code' : Text)
    (given given' : Option Text) (s s' : State) (r : RedeemPairingResponse)
    (calls : List (ℕ × Call))
    → IsCoherent s
    → IsSole r.pairing_session_id (hash env (normalize_pairing_code code)) s.pairing_sessions
    → redeem_pairing_code env now bytes code given s ≡ ok r s'
    → All (SparesSession env r.pairing_session_id (hash env (normalize_pairing_code code))) calls
    → validate_pairing_code_input code' ≡ none
    → (trimmed given' ≡ some r.pairing_session_id)
      ⊎ ((trimmed given' ≡ none) × (normalize_pairing_code code' ≡ normalize_pairing_code code))
    → redeem_pairing_code env later bytes' code' given' (run env calls s')
      ≡ err pairing_code_used (run env calls s')
redeem_twice env now later bytes bytes' code code' given given' s s' r calls c sole first spared
      valid how =
    let id = r.pairing_session_id in
    let h = hash env (normalize_pairing_code code) in
    let x = hash env (normalize_pairing_code code') in
    let ran = (redeem_pairing_code-ok env now bytes code given s s' r first).1 in
    let (session, found, redeemable, granted) = redeem-ok env now bytes _ _ s s' r ran in
    let (nonempty, by_hash) = found-lem s given _ session c found in
    let closes = grant-Closes env now bytes session s s' r granted in
    let own : session.code_hash ≡ h = elim redeemable.matching [
      | inl absent ↦ by_hash absent
      | inr same ↦ same
    ] in
    let k =
      run-Shut id h env calls s' spared (Closes-Shut now s s' session id h c closes own sole) in
    let again =
      find-Shut (run env calls s') id h x (trimmed given') k (rw closes.same_id nonempty)
        (elim how [
          | inl named ↦ inl named
          | inr (absent, same) ↦ inr (absent, ap (hash env) same)
        ]) in
    redeem_pairing_code-err env later bytes' code' given' (run env calls s') pairing_code_used valid
      (refuses env later bytes' (trimmed given') x (run env calls s') k.session again k.closed)
