-- ===== src/Bridge/Services/Pairing/Lockout.antt =====
-- services.ts: wrong codes for a session that is named by its id.
use erg.Prelude.{
  ℕ, ◌+◌, ◌<◌, ◌≡◌, ◌≢◌, refl, sym, inl, inr, true, none, some, List, [], ◌∷◌, Text, arith,
  text_eq_iff, get, get-set_self, Bool-cases, ap, ◌∙◌, leb, if◌then◌else◌, ◌-◌,
}
use erg.Bridge.State.{pending, locked, redeemed, PairingSessionRecord}
use erg.Bridge.Store.{State, update_pairing_session, get_pairing_session_by_id}
use erg.Bridge.Ids.{Bytes}
use erg.Bridge.Services.{
  ApiError, pairing_code_locked, pairing_code_incorrect, ok, err, store_of, memory, postgres,
  with_transaction, Env, hash,
}
use erg.Bridge.Services.Pairing.Redeem.{redeem-granted, redeem_pairing_code_of_ok}
use erg.Bridge.Services.Pairing.{
  RedeemPairingResponse, grant, count_failure, redeem_open, redeem_session, find_session, redeem,
  redeem_pairing_code, trimmed, validate_pairing_code_input, normalize_pairing_code,
}

-- A call of `redeemPairingCode` that names the session.
pub record Attempt : Type 0 where
  pub at : ℕ
  pub bytes : Bytes
  pub code : Text

-- The store after a series of calls.
unfoldable pub attempts : Env → Text → List Attempt → State → State
attempts env given [] s = s
attempts env given (a ∷ rest) s =
    attempts env given rest (store_of (redeem_pairing_code env a.at a.bytes a.code (some given) s))

-- The hash under which the call looks for its code.
abbrev pub hash_of : Env → Attempt → Text
hash_of env a = hash env (normalize_pairing_code a.code)

-- A well-formed code that is not the session's, given before the session runs out.
pub record IsWrong (env : Env) (code_hash : Text) (expires_at : ℕ) (a : Attempt) : Type 0 where
  pub well_formed : validate_pairing_code_input a.code ≡ none
  pub other : code_hash ≢ hash_of env a
  pub in_time : a.at < expires_at

-- The session as the text `given` names it.
pub record Names (s : State) (given : Text) (session : PairingSessionRecord) : Type 0 where
  pub named : trimmed (some given) ≡ some session.pairing_session_id
  pub stored : get s.pairing_sessions session.pairing_session_id ≡ some session

-- A grant returns, and leaves the session redeemed.
grant_lem :
    (env : Env) (now : ℕ) (bytes : Bytes) (session : PairingSessionRecord) (s : State)
    → (r : RedeemPairingResponse) × (s' : State) × (grant env now bytes session s ≡ ok r s')
      × (get s'.pairing_sessions session.pairing_session_id
          ≡ some (record session { status = redeemed; redeemed_at = some now }))
unfolding grant
grant_lem env now bytes session s = (_, _, refl, get-set_self s.pairing_sessions _ _)

-- The session with one more failure.
abbrev pub after_failure : Env → PairingSessionRecord → PairingSessionRecord
after_failure env session = record session {
  failed_attempts = session.failed_attempts + 1;
  status =
      if leb env.config.pairing_code_max_attempts (session.failed_attempts + 1)
      then locked
      else session.status;
}

module _ (env : Env) (given : Text) (a : Attempt) (s : State) (session : PairingSessionRecord)
    (n : Names s given session) where
  named_redeem :
      (h : Text)
      → redeem env a.at a.bytes (trimmed (some given)) h s
        ≡ redeem_session env a.at a.bytes true h session session.status s
  unfolding redeem find_session get_pairing_session_by_id
  named_redeem h = ground (arith, n.named, n.stored)

  -- Of a pending session the callback counts a wrong code, and locks the session at the maximum.
  wrong_redeem :
      session.status ≡ pending
      → IsWrong env session.code_hash session.expires_at a
      → (e : ApiError) × (redeem env a.at a.bytes (trimmed (some given)) (hash_of env a) s
          ≡ err e (update_pairing_session (after_failure env session) s))
  unfolding redeem_session redeem_open count_failure
  wrong_redeem p w =
      elim (Bool-cases (leb env.config.pairing_code_max_attempts (session.failed_attempts + 1))) [
        | inl full ↦ (
          pairing_code_locked,
          ground
              (arith, named_redeem (hash_of env a), text_eq_iff session.code_hash (hash_of env a)),
        )
        | inr below ↦ (
          pairing_code_incorrect
              (env.config.pairing_code_max_attempts - (session.failed_attempts + 1)),
          ground
              (arith, named_redeem (hash_of env a), text_eq_iff session.code_hash (hash_of env a)),
        )
      ]

  pub wrong_memory :
      env.config.bridge_store_driver ≡ memory
      → session.status ≡ pending
      → IsWrong env session.code_hash session.expires_at a
      → store_of (redeem_pairing_code env a.at a.bytes a.code (some given) s)
        ≡ update_pairing_session (after_failure env session) s
  unfolding redeem_pairing_code with_transaction
  wrong_memory d p w = let (e, threw) = wrong_redeem p w in ground (arith, d, w.well_formed, threw)

  pub wrong_postgres :
      env.config.bridge_store_driver ≡ postgres
      → session.status ≡ pending
      → IsWrong env session.code_hash session.expires_at a
      → store_of (redeem_pairing_code env a.at a.bytes a.code (some given) s) ≡ s
  unfolding redeem_pairing_code with_transaction
  wrong_postgres d p w =
      let (e, threw) = wrong_redeem p w in ground (arith, d, w.well_formed, threw)

  -- A locked session refuses every code, the right one too.
  pub locked_refuses :
      session.status ≡ locked
      → validate_pairing_code_input a.code ≡ none
      → redeem_pairing_code env a.at a.bytes a.code (some given) s ≡ err pairing_code_locked s
  unfolding redeem_pairing_code with_transaction redeem_session
  locked_refuses l valid = ground (arith, valid, named_redeem (hash_of env a))

  right_redeem :
      session.status ≡ pending
      → session.code_hash ≡ hash_of env a
      → a.at < session.expires_at
      → redeem env a.at a.bytes (trimmed (some given)) (hash_of env a) s
        ≡ grant env a.at a.bytes session s
  unfolding find_session get_pairing_session_by_id
  right_redeem p same time =
      redeem-granted env a.at a.bytes (trimmed (some given)) (hash_of env a) s session
        (ground (arith, n.named, n.stored))
        (record {
          is_open = ((λ l. cc (l, p)), (λ l. cc (l, p)));
          unexpired = time;
          matching = inr same;
        })

  -- A pending session grants its right code in time.
  pub right_grants :
      session.status ≡ pending
      → validate_pairing_code_input a.code ≡ none
      → session.code_hash ≡ hash_of env a
      → a.at < session.expires_at
      → (r : RedeemPairingResponse) × (s' : State) × (redeem_pairing_code env a.at a.bytes a.code
            (some given)
            s
          ≡ ok r s')
        × (get s'.pairing_sessions session.pairing_session_id
            ≡ some (record session { status = redeemed; redeemed_at = some a.at }))
  right_grants p valid same time =
      let (r, s', granted, stored) = grant_lem env a.at a.bytes session s in
      (
        r,
        s',
        redeem_pairing_code_of_ok env a.at a.bytes a.code (some given) s s' r valid
            (right_redeem p same time ∙ granted),
        stored,
      )

pub Names-update :
    (s : State) (given : Text) (session next : PairingSessionRecord)
    → next.pairing_session_id ≡ session.pairing_session_id
    → Names s given session
    → Names (update_pairing_session next s) given next
unfolding update_pairing_session
Names-update s given session next e n = record {
  named = n.named ∙ ap some (sym e);
  stored = get-set_self s.pairing_sessions next.pairing_session_id next;
}
