-- ===== src/Bridge/Server.antt =====
-- bridge/src/server.ts and auth.ts: the HTTP routes. A handler is a function of the server's state
-- that answers, or throws an error, with the state that it leaves; the handler of a turn is cut in two
-- where it waits for OpenClaw. A request comes with its headers, the body that `readJsonBody` gave and
-- the time. The headers of the answers and the log lines are left out.
pub mod Routes
pub mod Turns
pub mod Guards
pub mod Revocation
use erg.Prelude.{
  ℕ, ◌+◌, Bool, true, false, not, ◌&&◌, ◌||◌, Option, none, some, List, [], ◌∷◌, ◌++◌, Text, Map,
  codes, get, is_empty, is_space, or_else, text_eq, trim, trim_start, take, tidy_lines, ltb, ◌==◌,
  if◌then◌else◌,
}
use erg.Bridge.Store.{State}
use erg.Bridge.Services
use erg.Bridge.Services.{
  ApiError, pairing_code_required, pairing_code_looks_like_url, pairing_code_looks_like_token,
  pairing_code_invalid_format, pairing_code_not_found, pairing_code_locked, pairing_code_used,
  pairing_code_expired, pairing_code_incorrect, bootstrap_invalid, bootstrap_used,
  bootstrap_expired, bootstrap_session_not_found, device_inactive, refresh_invalid, device_revoked,
  refresh_reuse_detected, refresh_expired, access_invalid, invalid_ticket, device_not_found,
}
use erg.Bridge.Services.Pairing.{starts_with_ignore_case}
use erg.Bridge.RateLimit.{Buckets, check}
use erg.Bridge.Ingest.{Seen}
use erg.Bridge.Relay.{Relay}

-- The state behind the routes. The store of the services is that of the relay.
pub record Server : Type 0 where
  pub relay : Relay
  pub buckets : Buckets
  pub seen : Seen

-- A member of a JSON object: a string, or anything else.
pub data JsonValue : Type 0 where
  string : Text → JsonValue
  other : JsonValue

-- A body: no object, as is `null` for a text that is not JSON, or an object. An array is an object
-- with none of the members that are read.
pub data Body : Type 0 where
  no_object : Body
  object : Map JsonValue → Body

pub record Request : Type 0 where
  pub authorization : Option Text
  pub forwarded_for : Option Text
  pub body : Body
  pub now : ℕ

-- `typeof body.key === "string" ? body.key : undefined`
abbrev string_of : Option JsonValue → Option Text
string_of (some (string s)) = some s
string_of _ = none

unfoldable pub field : Body → Text → Option Text
unfolding get
field no_object key = none
field (object members) key = string_of (get members key)

-- The errors that the routes throw: those of the services, and their own.
pub data HttpError : Type 0 where
  api : ApiError → HttpError
  authorization_required : HttpError
  admin_unauthorized : HttpError
  -- With `retry_after_ms`.
  rate_limited : Option ℕ → HttpError
  refresh_invalid_request : HttpError
  hardware_bridge_unauthorized : HttpError
  hardware_bridge_invalid_request : HttpError

-- The status that the services give to each of their errors.
unfoldable pub api_status : ApiError → ℕ
api_status pairing_code_required = 400
api_status pairing_code_looks_like_url = 400
api_status pairing_code_looks_like_token = 400
api_status pairing_code_invalid_format = 400
api_status pairing_code_not_found = 404
api_status pairing_code_locked = 423
api_status pairing_code_used = 409
api_status pairing_code_expired = 410
api_status (pairing_code_incorrect remaining) = 400
api_status bootstrap_invalid = 401
api_status bootstrap_used = 409
api_status bootstrap_expired = 401
api_status bootstrap_session_not_found = 404
api_status device_inactive = 401
api_status refresh_invalid = 401
api_status device_revoked = 401
api_status refresh_reuse_detected = 401
api_status refresh_expired = 401
api_status access_invalid = 401
api_status invalid_ticket = 401
api_status device_not_found = 404

-- The code that the services give to each of their errors, by which a client tells them apart.
unfoldable pub api_code : ApiError → Text
api_code pairing_code_required = codes "pairing_code_required"
api_code pairing_code_looks_like_url = codes "pairing_code_looks_like_url"
api_code pairing_code_looks_like_token = codes "pairing_code_looks_like_token"
api_code pairing_code_invalid_format = codes "pairing_code_invalid_format"
api_code pairing_code_not_found = codes "pairing_code_not_found"
api_code pairing_code_locked = codes "pairing_code_locked"
api_code pairing_code_used = codes "pairing_code_used"
api_code pairing_code_expired = codes "pairing_code_expired"
api_code (pairing_code_incorrect remaining) = codes "pairing_code_incorrect"
api_code bootstrap_invalid = codes "bootstrap_invalid"
api_code bootstrap_used = codes "bootstrap_used"
api_code bootstrap_expired = codes "bootstrap_expired"
api_code bootstrap_session_not_found = codes "bootstrap_session_not_found"
api_code device_inactive = codes "device_inactive"
api_code refresh_invalid = codes "refresh_invalid"
api_code device_revoked = codes "device_revoked"
api_code refresh_reuse_detected = codes "refresh_reuse_detected"
api_code refresh_expired = codes "refresh_expired"
api_code access_invalid = codes "access_invalid"
api_code invalid_ticket = codes "invalid_ticket"
api_code device_not_found = codes "device_not_found"

unfoldable pub status_of : HttpError → ℕ
unfolding api_status
status_of (api e) = api_status e
status_of authorization_required = 401
status_of admin_unauthorized = 401
status_of (rate_limited retry_after_ms) = 429
status_of refresh_invalid_request = 400
status_of hardware_bridge_unauthorized = 401
status_of hardware_bridge_invalid_request = 400

pub data Result {ℓ} (A : Type ℓ) : Type ℓ where
  ok : A → Server → Result A
  thrown : HttpError → Server → Result A

abbrev pub M {ℓ} : Type ℓ → Type ℓ
M A = Server → Result A

infixl 5 ◌>>=◌ ◌>>◌
abbrev pub ◌>>=◌ {ℓ κ} : {A : Type ℓ} {B : Type κ} → M A → (A → M B) → M B
◌>>=◌ m f s = elim (m s) [ ok a s' ↦ f a s' | thrown e s' ↦ thrown e s' ]

abbrev pub ◌>>◌ {ℓ} : {B : Type ℓ} → M (Unit {0}) → M B → M B
◌>>◌ m k s = elim (m s) [ ok a s' ↦ k s' | thrown e s' ↦ thrown e s' ]

abbrev pub return {ℓ} : {A : Type ℓ} → A → M A
return a s = ok a s

abbrev pub throw_if : Bool → HttpError → M (Unit {0})
throw_if b e s = if b then thrown e s else ok tt s

abbrev pub or_throw {ℓ} : {A : Type ℓ} → Option A → HttpError → M A
or_throw none e s = thrown e s
or_throw (some a) e s = ok a s

abbrev pub gets {ℓ} : {A : Type ℓ} → (Server → A) → M A
gets f s = ok (f s) s

abbrev pub modify : (Server → Server) → M (Unit {0})
modify f s = ok tt (f s)

abbrev pub with_store : Server → State → Server
with_store s store = record s { relay = record s.relay { store = store } }

-- A call of a method of the services.
abbrev pub call {ℓ} : {A : Type ℓ} → Services.M A → M A
call m s = elim (m s.relay.store) [
  | Services.ok a store ↦ ok a (with_store s store)
  | Services.err e store ↦ thrown (api e) (with_store s store)
]

-- An answer is a body under a status, or an error body.
pub data Answer (A : Type 0) : Type 0 where
  json : ℕ → A → Answer A
  error_body : ℕ → HttpError → Answer A

-- The `try` of a handler, whose `catch` is `handleError`.
unfoldable pub respond : {A : Type 0} → ℕ → M A → Server → Server × Answer A
unfolding status_of
respond status m s = elim (m s) [
  | ok a s' ↦ (s', json status a)
  | thrown e s' ↦ (s', error_body (status_of e) e)
]

abbrev is_line_end : ℕ → Bool
is_line_end c = (c == 10) || (c == 13) || (c == 0x2028) || (c == 0x2029)

unfoldable pub has_line_end : Text → Bool
has_line_end [] = false
has_line_end (c ∷ s) = is_line_end c || has_line_end s

abbrev drop_text : Text → Text → Text
drop_text [] s = s
drop_text (p ∷ ps) [] = []
drop_text (p ∷ ps) (c ∷ s) = drop_text ps s

-- What stands after `Bearer`: white space, and a text of one line.
unfoldable pub token_after : Text → Option Text
unfolding is_space trim_start has_line_end
token_after [] = none
token_after (c ∷ s) =
    if is_space c
    then (let token = trim_start s in
        if is_empty token || has_line_end token then none else some token)
    else none

-- /^Bearer\s+(.+)$/i on the trimmed header.
unfoldable pub parse_bearer_token : Text → Option Text
unfolding trim starts_with_ignore_case token_after
parse_bearer_token header =
    let value = trim header in
    if starts_with_ignore_case (codes "BEARER") value
    then token_after (drop_text (codes "BEARER") value)
    else none

abbrev pub given : Option Text → Text
given none = []
given (some s) = s

unfoldable pub require_authorization_bearer : Request → M Text
require_authorization_bearer r =
    or_throw (parse_bearer_token (given r.authorization)) authorization_required

-- `split(",")[0]`
unfoldable pub before_comma : Text → Text
before_comma [] = []
before_comma (c ∷ s) = let rest = before_comma s in if c == b',' then [] else c ∷ rest

unfoldable pub client_ip : Request → Text
unfolding before_comma trim
client_ip r = or_else (trim (before_comma (given r.forwarded_for))) (codes "local")

unfoldable pub enforce_rate_limit : Request → Text → ℕ → ℕ → M (Unit {0})
unfolding client_ip check
enforce_rate_limit r route_key limit window_ms s =
    let key = route_key ++ codes ":" ++ client_ip r in
    let (buckets, outcome) = check s.buckets key limit window_ms r.now in
    let counted : Server = record s { buckets = buckets } in
    if not outcome.allowed
    then thrown (rate_limited outcome.retry_after_ms) counted
    else ok tt counted

unfoldable pub sanitize_hud_text : Text → Text
sanitize_hud_text value = take 2000 (trim (tidy_lines value))
