-- ===== src/Bridge/Server/Guards/Unauthorized.antt =====
-- server.ts: requests without the right bearer token.
use erg.Prelude.{
  ℕ, not, ◌≡◌, ◌≢◌, refl, inl, inr, Option, some, Text, arith, Option-cases, Bool-cases, text_eq,
  text_eq_iff,
}
use erg.Bridge.Ids.{Bytes}
use erg.Bridge.Ingest.{Batch}
use erg.Bridge.Server.{
  Server, Request, HttpError, Result, throw_if, ◌>>=◌, thrown, Answer, json, error_body, respond,
  status_of, parse_bearer_token, given, require_authorization_bearer,
}
use erg.Bridge.Server.Routes.{
  ServerConfig, require_admin, require_hardware_bridge, post_pairing_sessions, get_devices,
  revocation_handler, post_device_revoke, post_hardware_bridge_events,
}

abbrev pub status : {A : Type 0} → Answer A → ℕ
status (json n a) = n
status (error_body n e) = n

-- A route that leaves the server alone and answers that the request is not authorised.
abbrev pub IsDenied : {A : Type 0} → Server → Server × Answer A → Type 0
IsDenied s (s', answer) = (s' ≡ s) × (status answer ≡ 401)

-- A bearer token that is none or not the expected one.
abbrev Wrong : Request → Text → Type 0
Wrong r expected = parse_bearer_token (given r.authorization) ≢ some expected

abbrev Throws401 : (Server → Result (Unit {0})) → Server → Type 0
Throws401 check s = (e : HttpError) × (check s ≡ thrown e s) × (status_of e ≡ 401)

check-Throws401 :
    (r : Request) (expected : Text) (e : HttpError) (s : Server)
    → Wrong r expected
    → status_of e ≡ 401
    → Throws401
        (require_authorization_bearer r >>= λ token. throw_if (not (text_eq token expected)) e)
        s
unfolding require_authorization_bearer status_of
check-Throws401 r expected e s wrong code =
    elim (Option-cases (parse_bearer_token (given r.authorization))) [
      | inl missing ↦ (HttpError.authorization_required, rw missing, refl)
      | inr (token, found) ↦ elim (Bool-cases (text_eq token expected)) [
        | inl same ↦ absurd (wrong (ground (arith, found, text_eq_iff token expected)))
        | inr other ↦ (e, rw (found, other), code)
      ]
    ]

require_admin-Throws401 :
    (config : ServerConfig) (r : Request) (s : Server)
    → Wrong r config.admin_api_token
    → Throws401 (require_admin config r) s
unfolding require_admin status_of
require_admin-Throws401 config r s wrong =
    check-Throws401 r config.admin_api_token HttpError.admin_unauthorized s wrong refl

require_hardware_bridge-Throws401 :
    (config : ServerConfig) (r : Request) (s : Server)
    → Wrong r config.hardware_bridge_token
    → Throws401 (require_hardware_bridge config r) s
unfolding require_hardware_bridge status_of
require_hardware_bridge-Throws401 config r s wrong =
    check-Throws401 r config.hardware_bridge_token HttpError.hardware_bridge_unauthorized s wrong
      refl

pub unauthorized :
    (config : ServerConfig) (r : Request) (s : Server) (a b : Bytes) (device_id : Text)
    (batch : Option Batch)
    → parse_bearer_token (given r.authorization) ≢ some config.admin_api_token
    → parse_bearer_token (given r.authorization) ≢ some config.hardware_bridge_token
    → IsDenied s (post_pairing_sessions config a b r s)
      × IsDenied s (get_devices config r s)
      × IsDenied s (post_device_revoke config a b device_id r s)
      × IsDenied s (post_hardware_bridge_events config batch r s)
unfolding post_pairing_sessions get_devices post_device_revoke revocation_handler
    post_hardware_bridge_events respond
unauthorized config r s a b device_id batch wrong wrong' =
    let (e, denied, code) = require_admin-Throws401 config r s wrong in
    let (e', denied', code') = require_hardware_bridge-Throws401 config r s wrong' in
    (
      ground (arith, denied, code),
      ground (arith, denied, code),
      ground (arith, denied, code),
      ground (arith, denied', code'),
    )
