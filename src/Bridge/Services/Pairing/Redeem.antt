-- ===== src/Bridge/Services/Pairing/Redeem.antt =====
-- What a redemption of services.ts does on each branch.
use erg.Prelude.{
  ℕ, ◌<◌, ◌≡◌, ◌≢◌, refl, ◌⊎◌, inl, inr, Option, none, some, Text, arith, text_eq_iff, Option-cases,
}
use erg.Bridge.State.{PairingStatus, pending, redeemed, expired, locked, PairingSessionRecord}
use erg.Bridge.Store.{State}
use erg.Bridge.Ids.{Bytes}
use erg.Bridge.Services.{ApiError, ok, err, Env, hash}
use erg.Bridge.Services.Transactions.{
  with_transaction_of_ok, with_transaction-ok, with_transaction-err,
}
use erg.Bridge.Services.Pairing.{
  RedeemPairingResponse, grant, count_failure, redeem_open, redeem_session, find_session, is_given,
  redeem, redeem_pairing_code, trimmed, validate_pairing_code_input, normalize_pairing_code,
}

-- The conditions under which a session is redeemed by a code with the given hash.
pub record IsRedeemable (now : ℕ) (session_id : Option Text) (code_hash : Text)
    (session : PairingSessionRecord) : Type 0 where
  pub is_open : (session.status ≢ locked) × (session.status ≢ redeemed)
  pub unexpired : now < session.expires_at
  pub matching : (session_id ≡ none) ⊎ (session.code_hash ≡ code_hash)

open-ok :
    (env : Env) (now : ℕ) (bytes : Bytes) (session_id : Option Text) (code_hash : Text)
    (session : PairingSessionRecord) (status : PairingStatus) (s s' : State)
    (r : RedeemPairingResponse)
    → session.status ≡ status
    → redeem_session env now bytes (is_given session_id) code_hash session status s ≡ ok r s'
    → IsRedeemable now session_id code_hash session × (grant env now bytes session s ≡ ok r s')
unfolding redeem_session redeem_open count_failure
open-ok env now bytes session_id code_hash session locked s s' r h e = ground arith
open-ok env now bytes session_id code_hash session redeemed s s' r h e = ground arith
open-ok env now bytes session_id code_hash session pending s s' r h e =
    ground (arith, text_eq_iff session.code_hash code_hash)
open-ok env now bytes session_id code_hash session expired s s' r h e =
    ground (arith, text_eq_iff session.code_hash code_hash)

-- A call that returns has granted a token for a session that it found and that was redeemable.
pub redeem-ok :
    (env : Env) (now : ℕ) (bytes : Bytes) (session_id : Option Text) (code_hash : Text)
    (s s' : State) (r : RedeemPairingResponse)
    → redeem env now bytes session_id code_hash s ≡ ok r s'
    → (session : PairingSessionRecord) × (find_session session_id code_hash s ≡ some session)
      × IsRedeemable now session_id code_hash session
      × (grant env now bytes session s ≡ ok r s')
unfolding redeem
redeem-ok env now bytes session_id code_hash s s' r e =
    elim (Option-cases (find_session session_id code_hash s)) [
      | inl missing ↦ absurd (ground arith)
      | inr (session, found) ↦
          let (redeemable, granted) =
            open-ok env now bytes session_id code_hash session session.status s s' r refl
              (ground arith) in
          (session, found, redeemable, granted)
    ]

open-granted :
    (env : Env) (now : ℕ) (bytes : Bytes) (session_id : Option Text) (code_hash : Text)
    (session : PairingSessionRecord) (status : PairingStatus) (s : State)
    → session.status ≡ status
    → IsRedeemable now session_id code_hash session
    → redeem_session env now bytes (is_given session_id) code_hash session status s
      ≡ grant env now bytes session s
unfolding redeem_session redeem_open
open-granted env now bytes session_id code_hash session locked s h k = absurd (k.is_open.0 h)
open-granted env now bytes session_id code_hash session redeemed s h k = absurd (k.is_open.1 h)
open-granted env now bytes session_id code_hash session pending s h k =
    ground (arith, k.unexpired, k.matching, text_eq_iff session.code_hash code_hash)
open-granted env now bytes session_id code_hash session expired s h k =
    ground (arith, k.unexpired, k.matching, text_eq_iff session.code_hash code_hash)

-- The converse: a call that finds a redeemable session grants a token for it.
pub redeem-granted :
    (env : Env) (now : ℕ) (bytes : Bytes) (session_id : Option Text) (code_hash : Text) (s : State)
    (session : PairingSessionRecord)
    → find_session session_id code_hash s ≡ some session
    → IsRedeemable now session_id code_hash session
    → redeem env now bytes session_id code_hash s ≡ grant env now bytes session s
unfolding redeem
redeem-granted env now bytes session_id code_hash s session found k =
    rw (found, redeem)
      (open-granted env now bytes session_id code_hash session session.status s refl k)

-- A call whose code passes the check runs the callback.
pub redeem_pairing_code_of_ok :
    (env : Env) (now : ℕ) (bytes : Bytes) (code : Text) (given : Option Text) (s s' : State)
    (r : RedeemPairingResponse)
    → validate_pairing_code_input code ≡ none
    → redeem env now bytes (trimmed given) (hash env (normalize_pairing_code code)) s ≡ ok r s'
    → redeem_pairing_code env now bytes code given s ≡ ok r s'
unfolding redeem_pairing_code
redeem_pairing_code_of_ok env now bytes code given s s' r valid h =
    rw valid (with_transaction_of_ok env.config.bridge_store_driver _ s s' r h)

pub redeem_pairing_code-err :
    (env : Env) (now : ℕ) (bytes : Bytes) (code : Text) (given : Option Text) (s : State)
    (e : ApiError)
    → validate_pairing_code_input code ≡ none
    → redeem env now bytes (trimmed given) (hash env (normalize_pairing_code code)) s ≡ err e s
    → redeem_pairing_code env now bytes code given s ≡ err e s
unfolding redeem_pairing_code
redeem_pairing_code-err env now bytes code given s e valid h =
    rw valid (with_transaction-err env.config.bridge_store_driver _ s e h)

pub redeem_pairing_code-ok :
    (env : Env) (now : ℕ) (bytes : Bytes) (code : Text) (given : Option Text) (s s' : State)
    (r : RedeemPairingResponse)
    → redeem_pairing_code env now bytes code given s ≡ ok r s'
    → (validate_pairing_code_input code ≡ none)
      × (redeem env now bytes (trimmed given) (hash env (normalize_pairing_code code)) s ≡ ok r s')
unfolding redeem_pairing_code
redeem_pairing_code-ok env now bytes code given s s' r h =
    elim (Option-cases (validate_pairing_code_input code)) [
      | inl valid ↦
          (valid, with_transaction-ok env.config.bridge_store_driver _ s s' r (rw valid at h))
      | inr (e, refused) ↦ absurd (ground arith)
    ]
