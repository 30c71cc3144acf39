-- ===== src/Bridge/History/Coherent/Pairings.antt =====
-- The pairing methods of services.ts keep the tables coherent: a session is stored again under its
-- own id and hash.
use erg.Prelude.{
  ℕ, ◌+◌, ◌≡◌, refl, Option, none, some, Text, arith, get, Bool, Option-cases, inl, inr, codes,
}
use erg.Bridge.State.{PairingSessionRecord, PairingStatus, pending, redeemed, expired, locked}
use erg.Bridge.Store.{
  State, update_pairing_session, create_bootstrap_token, find_pairing_session_by_code_hash,
  get_pairing_session_by_id, create_pairing_session as store_pairing_session,
}
use erg.Bridge.Store.Coherent.{IsCoherent}
use erg.Bridge.Store.Upkeep.{upkeep, update_pairing_session-IsCoherent}
use erg.Bridge.Ids.{Bytes, create_id}
use erg.Bridge.Services.{hash, Env, store_of}
use erg.Bridge.Services.Keeps.{with_transaction-Keeps}
use erg.Bridge.Services.Pairing.{
  CreateInput, new_session, create_pairing_session, grant, count_failure, redeem_open,
  redeem_session, find_session, redeem, redeem_pairing_code, validate_pairing_code_input, trimmed,
  is_given, normalize_pairing_code,
}
use erg.Bridge.History.Coherent.Refreshes.{K}

-- The session stands under its own id.
abbrev Stored : State → PairingSessionRecord → Type 0
Stored s r = get s.pairing_sessions r.pairing_session_id ≡ some r

-- A session that is found is stored under its own id.
find_session-Stored :
    (id : Option Text) (hash : Text) (s : State) (r : PairingSessionRecord)
    → IsCoherent s
    → find_session id hash s ≡ some r
    → Stored s r
unfolding find_session get_pairing_session_by_id find_pairing_session_by_code_hash
find_session-Stored (some id) hash s r c e = cc (e, c.sessions id r e)
find_session-Stored none hash s r c e =
    elim (Option-cases (get s.pairing_sessions_by_code_hash hash)) [
      | inl missing ↦ absurd (ground arith)
      | inr (id, found) ↦
          let at : get s.pairing_sessions id ≡ some r = ground (arith, found, e) in
          cc (at, c.sessions id r at)
    ]

module _ (s : State) (c : IsCoherent s) (r : PairingSessionRecord) (at : Stored s r) where
  -- A write that leaves the id and the hash as they were.
  put_back :
      (q : PairingSessionRecord)
      → q.pairing_session_id ≡ r.pairing_session_id
      → q.code_hash ≡ r.code_hash
      → IsCoherent (update_pairing_session q s)
  put_back q id hash = update_pairing_session-IsCoherent q s (λ o found. cc (id, hash, at, found)) c

  grant-stored :
      (env : Env) (now : ℕ) (bytes : Bytes) → IsCoherent (store_of (grant env now bytes r s))
  unfolding grant create_bootstrap_token
  grant-stored env now bytes =
      let closed = put_back (record r { status = redeemed; redeemed_at = some now }) refl refl in
      search upkeep

  redeem_open-stored :
      (env : Env) (now : ℕ) (bytes : Bytes) (by_id : Bool) (h : Text)
      → IsCoherent (store_of (redeem_open env now bytes by_id h r s))
  unfolding redeem_open count_failure
  redeem_open-stored env now bytes by_id h =
      let failed = r.failed_attempts + 1 in
      ground (
        arith,
        grant-stored env now bytes,
        put_back (record r { status = expired }) refl refl,
        put_back (record r { failed_attempts = failed; status = locked }) refl refl,
        put_back (record r { failed_attempts = failed }) refl refl,
      )

  redeem_session-stored :
      (env : Env) (now : ℕ) (bytes : Bytes) (by_id : Bool) (h : Text) (status : PairingStatus)
      → IsCoherent (store_of (redeem_session env now bytes by_id h r status s))
  unfolding redeem_session
  redeem_session-stored env now bytes by_id h locked = c
  redeem_session-stored env now bytes by_id h redeemed = c
  redeem_session-stored env now bytes by_id h pending = redeem_open-stored env now bytes by_id h
  redeem_session-stored env now bytes by_id h expired = redeem_open-stored env now bytes by_id h

redeem-K :
    (env : Env) (now : ℕ) (bytes : Bytes) (id : Option Text) (h : Text)
    → K (redeem env now bytes id h)
unfolding redeem
redeem-K env now bytes id h s c = elim (Option-cases (find_session id h s)) [
  | inl missing ↦ rw missing c
  | inr (r, found) ↦ rw found (
      redeem_session-stored s c r (find_session-Stored id h s r c found) env now bytes (is_given id)
        h r.status)
]

pub redeem_pairing_code-K :
    (env : Env) (now : ℕ) (bytes : Bytes) (code : Text) (id : Option Text)
    → K (redeem_pairing_code env now bytes code id)
unfolding redeem_pairing_code
redeem_pairing_code-K env now bytes code id s c =
    let h = hash env (normalize_pairing_code code) in
    elim (Option-cases (validate_pairing_code_input code)) [
      | inr (e, bad) ↦ rw bad c
      | inl good ↦ rw good (
          with_transaction-Keeps IsCoherent env.config.bridge_store_driver _
            (redeem-K env now bytes (trimmed id) h) s c)
    ]

-- A new session needs an id that no session has.
pub create_pairing_session-IsCoherent :
    (env : Env) (now : ℕ) (id_bytes code_bytes : Bytes) (input : CreateInput) (s : State)
    → get s.pairing_sessions (create_id (codes "ps") id_bytes) ≡ none
    → IsCoherent s
    → IsCoherent (store_of (create_pairing_session env now id_bytes code_bytes input s))
unfolding create_pairing_session new_session store_pairing_session
create_pairing_session-IsCoherent env now id_bytes code_bytes input s free c =
    update_pairing_session-IsCoherent _ s (λ o found. absurd (ground (arith, free, found))) c
