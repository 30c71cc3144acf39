-- ===== src/Bridge/Services.antt =====
-- bridge/src/services.ts: what the methods of `BridgeServices` share. Each group of methods has a
-- child, and the proofs stand below it.
-- A method is a function of the store that returns, or throws an `ApiError`, with the store that it
-- leaves behind. Time, random bytes, HMAC and the JWT library are arguments.
pub mod Transactions
pub mod Keeps
pub mod Pairing
pub mod Register
pub mod Refresh
pub mod Access
pub mod Activity
use erg.Prelude.{ℕ, Option, none, some, Text, Bool, if◌then◌else◌}
use erg.Bridge.Store.{State}
use erg.Bridge.AccessTokens.{Jwt}

-- The errors that the services throw, by their codes.
pub data ApiError : Type 0 where
  pairing_code_required : ApiError
  pairing_code_looks_like_url : ApiError
  pairing_code_looks_like_token : ApiError
  pairing_code_invalid_format : ApiError
  pairing_code_not_found : ApiError
  pairing_code_locked : ApiError
  pairing_code_used : ApiError
  pairing_code_expired : ApiError
  -- With `attempts_remaining`.
  pairing_code_incorrect : ℕ → ApiError
  bootstrap_invalid : ApiError
  bootstrap_used : ApiError
  bootstrap_expired : ApiError
  bootstrap_session_not_found : ApiError
  device_inactive : ApiError
  refresh_invalid : ApiError
  device_revoked : ApiError
  refresh_reuse_detected : ApiError
  refresh_expired : ApiError
  access_invalid : ApiError
  invalid_ticket : ApiError
  device_not_found : ApiError

pub data Run {ℓ} (A : Type ℓ) : Type ℓ where
  ok : A → State → Run A
  err : ApiError → State → Run A

abbrev pub M {ℓ} : Type ℓ → Type ℓ
M A = State → Run A

infixl 5 ◌>>=◌ ◌>>◌
abbrev pub ◌>>=◌ {ℓ κ} : {A : Type ℓ} {B : Type κ} → M A → (A → M B) → M B
◌>>=◌ m f s = elim (m s) [ ok a s' ↦ f a s' | err e s' ↦ err e s' ]

abbrev pub ◌>>◌ {ℓ} : {B : Type ℓ} → M (Unit {0}) → M B → M B
◌>>◌ m k s = elim (m s) [ ok a s' ↦ k s' | err e s' ↦ err e s' ]

abbrev pub return {ℓ} : {A : Type ℓ} → A → M A
return a s = ok a s

abbrev pub throw {ℓ} : {A : Type ℓ} → ApiError → M A
throw e s = err e s

-- A call of the store that changes it, and one that reads it.
abbrev pub modify : (State → State) → M (Unit {0})
modify f s = ok tt (f s)

abbrev pub gets {ℓ} : {A : Type ℓ} → (State → A) → M A
gets f s = ok (f s) s

abbrev pub or_throw {ℓ} : {A : Type ℓ} → Option A → ApiError → M A
or_throw none e s = err e s
or_throw (some a) e s = ok a s

abbrev pub throw_if : Bool → ApiError → M (Unit {0})
throw_if b e s = if b then err e s else ok tt s

abbrev pub store_of {ℓ} : {A : Type ℓ} → Run A → State
store_of (ok a s) = s
store_of (err e s) = s

pub data StoreDriver : Type 0 where
  memory postgres : StoreDriver

-- `withTransaction`: the memory store runs the callback on itself; PostgreSQL commits when the
-- callback returns, and rolls back when it throws.
unfoldable pub with_transaction {ℓ} : {A : Type ℓ} → StoreDriver → M A → M A
with_transaction memory callback s = callback s
with_transaction postgres callback s = elim (callback s) [ ok a s' ↦ ok a s' | err e s' ↦ err e s ]

-- The fields of `BridgeConfig` that the services read.
pub record BridgeConfig : Type 0 where
  pub relay_base_url : Text
  pub bridge_store_driver : StoreDriver
  pub token_hash_secret : Text
  pub pairing_code_ttl_ms : ℕ
  pub bootstrap_token_ttl_ms : ℕ
  pub pairing_code_max_attempts : ℕ
  pub access_token_ttl_ms : ℕ
  pub refresh_token_sliding_ttl_ms : ℕ
  pub refresh_token_absolute_ttl_ms : ℕ
  pub even_hub_refresh_token_sliding_ttl_ms : ℕ
  pub even_hub_refresh_token_absolute_ttl_ms : ℕ
  pub ws_ticket_ttl_ms : ℕ
  pub prompt_result_retention_ms : ℕ

-- The configuration, node's HMAC, and the JWT library.
pub record Env : Type 0 where
  pub config : BridgeConfig
  pub hmac : Text → Text → Text
  pub jwt : Jwt

-- `hashOpaque` and `hashPairingCode`
unfoldable pub hash : Env → Text → Text
hash env value = env.hmac env.config.token_hash_secret value
