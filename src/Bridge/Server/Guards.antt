-- ===== src/Bridge/Server/Guards.antt =====
-- server.ts: what is known of a handler that has come past one of its steps.
pub mod Unauthorized
use erg.Prelude.{
  ℕ, ◌⊎◌, inl, inr, ◌≡◌, refl, Bool, true, false, not, Option, none, some, Text, arith, ◌++◌, codes,
}
use erg.Bridge.Store.{State}
use erg.Bridge.Services
use erg.Bridge.Services.Keeps.{Run-cases}
use erg.Bridge.RateLimit.{check}
use erg.Bridge.Server.{
  Server, Request, HttpError, Result, ok, thrown, M, ◌>>=◌, ◌>>◌, call, with_store, or_throw,
  throw_if, parse_bearer_token, given, authorization_required, require_authorization_bearer,
  client_ip, enforce_rate_limit,
}

pub Result-cases :
    {A : Type 0} (r : Result A)
    → ((a : A) × (s : Server) × (r ≡ ok a s)) ⊎ ((e : HttpError) × (s : Server) × (r ≡ thrown e s))
Result-cases (ok a s) = inl (a, s, refl)
Result-cases (thrown e s) = inr (e, s, refl)

module _ {A B : Type 0} where
  pub >>=-ok :
      (m : M A) (f : A → M B) (s s' : Server) (b : B)
      → (m >>= f) s ≡ ok b s'
      → (a : A) × (t : Server) × (m s ≡ ok a t) × (f a t ≡ ok b s')
  >>=-ok m f s s' b h = elim (Result-cases (m s)) [
    | inl (a, t, e) ↦ (a, t, e, ground (arith, e))
    | inr (x, t, e) ↦ absurd (ground (arith, e))
  ]

pub >>-ok :
    {B : Type 0} (m : M (Unit {0})) (k : M B) (s s' : Server) (b : B)
    → (m >> k) s ≡ ok b s'
    → (u : Unit {0}) × (t : Server) × (m s ≡ ok u t) × (k t ≡ ok b s')
>>-ok m k s s' b h = elim (Result-cases (m s)) [
  | inl (u, t, e) ↦ (u, t, e, ground (arith, e))
  | inr (x, t, e) ↦ absurd (ground (arith, e))
]

pub call-ok :
    {A : Type 0} (m : Services.M A) (s s' : Server) (a : A)
    → call m s ≡ ok a s'
    → (t : State) × (m s.relay.store ≡ Services.ok a t) × (s' ≡ with_store s t)
call-ok m s s' a h = elim (Run-cases (m s.relay.store)) [
  | inl (b, t, e) ↦ (t, ground (arith, e), ground (arith, e))
  | inr (x, t, e) ↦ absurd (ground (arith, e))
]

pub or_throw-ok :
    {A : Type 0} (o : Option A) (e : HttpError) (s s' : Server) (a : A)
    → or_throw o e s ≡ ok a s'
    → (o ≡ some a) × (s' ≡ s)
or_throw-ok none e s s' a h = absurd (ground arith)
or_throw-ok (some b) e s s' a h = ground arith

pub throw_if-ok :
    (b : Bool) (e : HttpError) (s s' : Server) (u : Unit {0})
    → throw_if b e s ≡ ok u s'
    → (b ≡ false) × (s' ≡ s)
throw_if-ok true e s s' u h = absurd (ground arith)
throw_if-ok false e s s' u h = ground arith

pub bearer-ok :
    (r : Request) (s s' : Server) (token : Text)
    → require_authorization_bearer r s ≡ ok token s'
    → (parse_bearer_token (given r.authorization) ≡ some token) × (s' ≡ s)
unfolding require_authorization_bearer
bearer-ok r s s' token h =
    or_throw-ok (parse_bearer_token (given r.authorization)) authorization_required s s' token h

-- The rate limiter is all that its check changes.
pub enforce_rate_limit-ok :
    (r : Request) (route_key : Text) (limit window_ms : ℕ) (s s' : Server) (u : Unit {0})
    → enforce_rate_limit r route_key limit window_ms s ≡ ok u s'
    → s'.relay ≡ s.relay
unfolding enforce_rate_limit
enforce_rate_limit-ok r route_key limit window_ms s s' u h = ground arith
