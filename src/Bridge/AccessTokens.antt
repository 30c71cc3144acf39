-- ===== src/Bridge/AccessTokens.antt =====
-- bridge/src/access-tokens.ts. The library jose, with the keys, the issuer and the audience of the
-- configuration, is the parameter `Jwt`.
use erg.Prelude.{
  ℕ, ◌+◌, ◌*◌, ◌/◌, Bool, true, false, ◌&&◌, ◌||◌, not, Option, none, some, List, [], ◌∷◌, ◌++◌,
  Text, codes, is_space, is_empty, text_eq, trim, if◌then◌else◌, ◌==◌,
}
use erg.Bridge.Ids.{Bytes, create_id}

-- The claims that the bridge writes and reads. Each may be missing in a token; times are in
-- seconds.
pub record Claims : Type 0 where
  pub device_id : Option Text
  pub scope : Option Text
  pub jti : Option Text
  pub not_before : ℕ
  pub exp : Option ℕ

-- `sign` makes a token of claims, and `verify`, at a time in milliseconds, gives the claims of a
-- token that is genuine and within its times.
pub record Jwt : Type 0 where
  pub sign : Claims → Text
  pub verify : ℕ → Text → Option Claims

pub record IssuedAccessToken : Type 0 where
  pub token : Text
  pub expires_at : ℕ

pub record VerifiedAccessToken : Type 0 where
  pub device_id : Text
  pub scope : List Text
  pub expires_at : ℕ
  pub jwt_id : Text

-- `join(" ")`
unfoldable pub join_words : List Text → Text
join_words [] = []
join_words (w ∷ []) = w
join_words (w ∷ (v ∷ ws)) = w ++ codes " " ++ join_words (v ∷ ws)

unfoldable pub issue : Jwt → ℕ → Bytes → Text → List Text → ℕ → IssuedAccessToken
unfolding create_id join_words
issue jwt now bytes device_id scope ttl_ms =
    let expires_at = now + ttl_ms in
    record {
      token = jwt.sign (record {
        device_id = some device_id;
        scope = some (join_words scope);
        jti = some (create_id (codes "atjti") bytes);
        not_before = now / 1000;
        exp = some (expires_at / 1000);
      });
      expires_at = expires_at;
    }

abbrev close : Text → List Text → List Text
close cur ws = if is_empty cur then ws else cur ∷ ws

-- `split(/\s+/)` with the empty entries filtered out; `cur` is the entry that is being read.
unfoldable pub words_from : Text → Text → List Text
words_from cur [] = close cur []
words_from cur (c ∷ s) =
    let ends = is_space c in
    let rest = words_from (if ends then [] else cur ++ c ∷ []) s in
    if ends then close cur rest else rest

unfoldable pub words : Text → List Text
unfolding words_from is_space
words s = words_from [] s

unfoldable pub includes : List Text → Text → Bool
includes [] w = false
includes (v ∷ ws) w = text_eq v w || includes ws w

unfoldable pub includes_all : List Text → List Text → Bool
unfolding includes
includes_all ws [] = true
includes_all ws (w ∷ required) = includes ws w && includes_all ws required

abbrev text_or_empty : Option Text → Text
text_or_empty none = []
text_or_empty (some t) = t

-- A claim that is missing or 0 makes the token worthless.
abbrev second_or_zero : Option ℕ → ℕ
second_or_zero none = 0
second_or_zero (some n) = n

unfoldable pub read_claims : List Text → Claims → Option VerifiedAccessToken
unfolding words includes_all trim
read_claims required claims =
    let device_id = trim (text_or_empty claims.device_id) in
    let jwt_id = trim (text_or_empty claims.jti) in
    let exp = second_or_zero claims.exp in
    let scope = words (text_or_empty claims.scope) in
    if is_empty device_id || is_empty jwt_id || exp == 0
    then none
    else if not (includes_all scope required)
    then none
    else some
        (record { device_id = device_id; scope = scope; expires_at = exp * 1000; jwt_id = jwt_id })

-- `none` stands for an error that is thrown.
unfoldable pub verify : Jwt → ℕ → Text → List Text → Option VerifiedAccessToken
unfolding read_claims
verify jwt now token required = elim (jwt.verify now token) [
  | none ↦ none
  | some claims ↦ read_claims required claims
]
