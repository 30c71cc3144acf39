-- ===== src/Bridge/Services/Pairing.antt =====
-- services.ts: pairing sessions. `createPairingSession`, `redeemPairingCode` and the checks of the
-- code that was typed in. `qr_payload`, a text made from the other fields, is left out.
pub mod Codes
pub mod Redeem
pub mod Keeps
pub mod SingleUse
pub mod Lockout
pub mod MemoryLock
pub mod PostgresLock
pub mod RoundTrip
use erg.Prelude.{
  ℕ, suc, ◌+◌, ◌-◌, Bool, true, false, not, ◌&&◌, ◌||◌, Option, none, some, List, [], ◌∷◌, ◌++◌,
  Text, codes, length, drop, leb, ltb, ◌==◌, if◌then◌else◌, is_empty, or_else, text_eq, trim, upper,
  to_upper,
}
use erg.Bridge.State.{
  PairingStatus, pending, redeemed, expired, locked, PairingSessionRecord, BootstrapTokenRecord,
}
use erg.Bridge.Store.{
  State, create_pairing_session as store_pairing_session, find_pairing_session_by_code_hash,
  get_pairing_session_by_id, update_pairing_session, create_bootstrap_token,
}
use erg.Bridge.Ids.{Bytes, create_id, create_opaque_token, create_pairing_code}
use erg.Bridge.Services.{
  ApiError, pairing_code_required, pairing_code_looks_like_url, pairing_code_looks_like_token,
  pairing_code_invalid_format, pairing_code_not_found, pairing_code_locked, pairing_code_used,
  pairing_code_expired, pairing_code_incorrect, M, ◌>>=◌, ◌>>◌, return, throw, modify, gets,
  or_throw, with_transaction, Env, hash,
}

-- Case is folded on ASCII letters alone. The check below refuses all other letters, so no code that
-- is hashed has any.
unfoldable pub normalize_pairing_code : Text → Text
unfolding trim to_upper
normalize_pairing_code value = to_upper (trim value)

-- A literal at the start of a text, by a regular expression with the flag `i`.
unfoldable pub starts_with_ignore_case : Text → Text → Bool
unfolding upper
starts_with_ignore_case [] s = true
starts_with_ignore_case (p ∷ ps) [] = false
starts_with_ignore_case (p ∷ ps) (c ∷ s) = (upper c == p) && starts_with_ignore_case ps s

-- /^https?:\/\//i or /^wss?:\/\//i
unfoldable pub looks_like_url : Text → Bool
unfolding starts_with_ignore_case
looks_like_url s =
    starts_with_ignore_case (codes "HTTP://") s
    || starts_with_ignore_case (codes "HTTPS://") s
    || starts_with_ignore_case (codes "WS://") s
    || starts_with_ignore_case (codes "WSS://") s

-- The number of parts that `split(".")` gives.
unfoldable pub parts : Text → ℕ
parts [] = 1
parts (c ∷ s) = let rest = parts s in if c == b'.' then suc rest else rest

unfoldable pub is_code_char : ℕ → Bool
unfolding upper
is_code_char c = let u = upper c in (leb b'A' u && leb u b'Z') || (leb b'0' u && leb u b'9')

-- A text that fits one character class for each of its code units.
unfoldable pub matches : List (ℕ → Bool) → Text → Bool
matches [] [] = true
matches [] (c ∷ s) = false
matches (p ∷ ps) [] = false
matches (p ∷ ps) (c ∷ s) = p c && matches ps s

abbrev is_dash : ℕ → Bool
is_dash c = c == b'-'

-- [A-Z0-9]{4}
abbrev pub group : List (ℕ → Bool)
group = is_code_char ∷ is_code_char ∷ is_code_char ∷ is_code_char ∷ []

-- /^[A-Z0-9]{4}-[A-Z0-9]{4}$/i
unfoldable pub is_pairing_code : Text → Bool
unfolding is_code_char matches
is_pairing_code s = matches (group ++ is_dash ∷ group) s

abbrev check_trimmed : Text → Option ApiError
check_trimmed s =
    if is_empty s
    then some pairing_code_required
    else if looks_like_url s
    then some pairing_code_looks_like_url
    else if (parts s == 3) || ltb 32 (length s)
    then some pairing_code_looks_like_token
    else if not (is_pairing_code s)
    then some pairing_code_invalid_format
    else none

-- The error that the check throws, if it throws.
unfoldable pub validate_pairing_code_input : Text → Option ApiError
unfolding trim looks_like_url parts is_pairing_code
validate_pairing_code_input value = check_trimmed (trim value)

-- `slice(-4)`
abbrev last4 : Text → Text
last4 s = drop (length s - 4) s

pub record CreateInput : Type 0 where
  pub created_by : Text
  pub platform : Option Text
  pub device_display_name_hint : Option Text

pub record PairingSessionResponse : Type 0 where
  pub pairing_session_id : Text
  pub pairing_code : Text
  pub relay_base_url : Text
  pub expires_at : ℕ

-- `value?.trim() || d`
abbrev pub trimmed_or : Option Text → Text → Text
trimmed_or none d = d
trimmed_or (some v) d = or_else (trim v) d

-- The trimmed text, if it is not empty.
abbrev pub trimmed : Option Text → Option Text
trimmed none = none
trimmed (some v) = let t = trim v in if is_empty t then none else some t

-- The record that `createPairingSession` stores.
unfoldable pub new_session : Env → ℕ → Text → Text → CreateInput → PairingSessionRecord
unfolding hash trim
new_session env now id code input = record {
  pairing_session_id = id;
  code_hash = hash env code;
  code_last4 = last4 code;
  status = pending;
  created_at = now;
  expires_at = now + env.config.pairing_code_ttl_ms;
  redeemed_at = none;
  failed_attempts = 0;
  created_by = input.created_by;
  platform = trimmed_or input.platform (codes "unknown");
  device_display_name_hint = trimmed input.device_display_name_hint;
}

-- `id_bytes` and `code_bytes` are drawn by `createId` and `createPairingCode`.
unfoldable pub create_pairing_session :
    Env → ℕ → Bytes → Bytes → CreateInput → M PairingSessionResponse
unfolding new_session store_pairing_session
create_pairing_session env now id_bytes code_bytes input =
    let id = create_id (codes "ps") id_bytes in
    let code = create_pairing_code code_bytes in
    do
      modify (store_pairing_session (new_session env now id code input))
      return (record {
        pairing_session_id = id;
        pairing_code = code;
        relay_base_url = env.config.relay_base_url;
        expires_at = now + env.config.pairing_code_ttl_ms;
      })

pub record RedeemPairingResponse : Type 0 where
  pub bootstrap_token : Text
  pub bootstrap_expires_at : ℕ
  pub pairing_session_id : Text

-- A right code: the session is closed, and a bootstrap token is stored by its hash.
unfoldable pub grant : Env → ℕ → Bytes → PairingSessionRecord → M RedeemPairingResponse
unfolding hash update_pairing_session create_bootstrap_token create_opaque_token
grant env now bytes session =
    let token = create_opaque_token (codes "btp") bytes in
    let expires_at = now + env.config.bootstrap_token_ttl_ms in
    let bootstrap : BootstrapTokenRecord = record {
      token_hash = hash env token;
      pairing_session_id = session.pairing_session_id;
      created_at = now;
      expires_at = expires_at;
      used_at = none;
    } in
    do
      modify (update_pairing_session (record session { status = redeemed; redeemed_at = some now }))
      modify (create_bootstrap_token bootstrap)
      return (record {
        bootstrap_token = token;
        bootstrap_expires_at = expires_at;
        pairing_session_id = session.pairing_session_id;
      })

-- A wrong code for a session that was named: the attempt is counted.
unfoldable pub count_failure : Env → PairingSessionRecord → M RedeemPairingResponse
unfolding update_pairing_session
count_failure env session =
    let attempts = session.failed_attempts + 1 in
    if leb env.config.pairing_code_max_attempts attempts
    then (do
      modify
          (update_pairing_session (record session { failed_attempts = attempts; status = locked }))
      throw pairing_code_locked)
    else (do
      modify (update_pairing_session (record session { failed_attempts = attempts }))
      throw (pairing_code_incorrect (env.config.pairing_code_max_attempts - attempts)))

-- A session that is neither locked nor redeemed.
unfoldable pub redeem_open :
    Env → ℕ → Bytes → Bool → Text → PairingSessionRecord → M RedeemPairingResponse
unfolding update_pairing_session grant count_failure
redeem_open env now bytes by_id code_hash session =
    if leb session.expires_at now
    then (do
      modify (update_pairing_session (record session { status = expired }))
      throw pairing_code_expired)
    else if by_id && not (text_eq session.code_hash code_hash)
    then count_failure env session
    else grant env now bytes session

unfoldable pub redeem_session :
    Env → ℕ → Bytes → Bool → Text → PairingSessionRecord → PairingStatus → M RedeemPairingResponse
unfolding redeem_open
redeem_session env now bytes by_id code_hash session locked = throw pairing_code_locked
redeem_session env now bytes by_id code_hash session redeemed = throw pairing_code_used
redeem_session env now bytes by_id code_hash session pending =
    redeem_open env now bytes by_id code_hash session
redeem_session env now bytes by_id code_hash session expired =
    redeem_open env now bytes by_id code_hash session

-- `pairingSessionId ? getPairingSessionById(…) : findPairingSessionByCodeHash(…)`
unfoldable pub find_session : Option Text → Text → State → Option PairingSessionRecord
unfolding find_pairing_session_by_code_hash get_pairing_session_by_id
find_session none code_hash s = find_pairing_session_by_code_hash s code_hash
find_session (some id) code_hash s = get_pairing_session_by_id s id

abbrev pub is_given : Option Text → Bool
is_given none = false
is_given (some id) = true

-- The callback of the transaction.
unfoldable pub redeem : Env → ℕ → Bytes → Option Text → Text → M RedeemPairingResponse
unfolding find_session redeem_session
redeem env now bytes session_id code_hash = do
  found ← gets (find_session session_id code_hash)
  session ← or_throw found pairing_code_not_found
  redeem_session env now bytes (is_given session_id) code_hash session session.status

abbrev or_continue : Option ApiError → M RedeemPairingResponse → M RedeemPairingResponse
or_continue none m = m
or_continue (some e) m = throw e

unfoldable pub redeem_pairing_code : Env → ℕ → Bytes → Text → Option Text → M RedeemPairingResponse
unfolding normalize_pairing_code validate_pairing_code_input with_transaction redeem hash
redeem_pairing_code env now bytes code_input session_id_input =
    or_continue (validate_pairing_code_input code_input) (
      with_transaction env.config.bridge_store_driver (
        redeem env now bytes (trimmed session_id_input)
          (hash env (normalize_pairing_code code_input))))
