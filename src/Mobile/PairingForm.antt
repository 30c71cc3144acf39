-- ===== src/Mobile/PairingForm.antt =====
-- mobile/src/validation.ts, and `normalizeRelayBaseUrl` of mobile/src/auth-client.ts. What the class
-- `URL` says of a text, its protocol or that it is no URL, is an argument, and so is `toUpperCase`, which
-- has the tables of Unicode.
pub mod Agrees
use erg.Prelude.{
  ℕ, zero, suc, Bool, true, false, not, ◌&&◌, ◌||◌, Option, none, some, List, [], ◌∷◌, ◌++◌, Text,
  codes, is_empty, length, ltb, leb, ◌==◌, text_eq, trim, without_last_slashes, drop, if◌then◌else◌,
  is_some,
}
use erg.Bridge.Services.Pairing.{starts_with_ignore_case, looks_like_url, parts, matches}

-- `replace(/^<literal>/i, replacement)`
abbrev pub replace_start : Text → Text → Text → Text
replace_start literal replacement s =
    if starts_with_ignore_case literal s then replacement ++ drop (length literal) s else s

unfoldable pub normalize_relay_base_url : Text → Text
unfolding trim starts_with_ignore_case without_last_slashes
normalize_relay_base_url value = without_last_slashes (
    replace_start (codes "WS://") (codes "http://")
      (replace_start (codes "WSS://") (codes "https://") (trim value)))

-- What is wrong with a field, by the messages.
pub data Problem : Type 0 where
  required wrong_scheme no_url wrong_session_id looks_like_relay_url looks_like_token : Problem
  wrong_format too_long : Problem

abbrev pub problem_of_protocol : Option Text → Option Problem
problem_of_protocol none = some no_url
problem_of_protocol (some protocol) =
    if text_eq protocol (codes "https:") || text_eq protocol (codes "http:")
    then none
    else some wrong_scheme

-- `protocol_of` is `new URL(…).protocol`, or `none` where the constructor throws.
unfoldable pub url_problem : (Text → Option Text) → Text → Option Problem
unfolding text_eq
url_problem protocol_of url =
    if is_empty url then some required else problem_of_protocol (protocol_of url)

unfoldable pub is_alphanumeric : ℕ → Bool
is_alphanumeric c =
    (leb b'a' c && leb c b'z') || (leb b'A' c && leb c b'Z') || (leb b'0' c && leb c b'9')

unfoldable pub all_alphanumeric : Text → Bool
unfolding is_alphanumeric
all_alphanumeric [] = true
all_alphanumeric (c ∷ s) = is_alphanumeric c && all_alphanumeric s

-- /^ps_[a-z0-9]+$/i
unfoldable pub is_session_id : Text → Bool
unfolding starts_with_ignore_case all_alphanumeric
is_session_id s =
    starts_with_ignore_case (codes "PS_") s
    && not (is_empty (drop 3 s))
    && all_alphanumeric (drop 3 s)

unfoldable pub session_problem : Text → Option Problem
unfolding is_session_id
session_problem s =
    if not (is_empty s) && not (is_session_id s) then some wrong_session_id else none

-- [A-Z0-9]
unfoldable pub is_strict_char : ℕ → Bool
is_strict_char c = (leb b'A' c && leb c b'Z') || (leb b'0' c && leb c b'9')

abbrev pub strict_group : List (ℕ → Bool)
strict_group = is_strict_char ∷ is_strict_char ∷ is_strict_char ∷ is_strict_char ∷ []

abbrev pub is_dash : ℕ → Bool
is_dash c = c == b'-'

-- The checks of a code that has been trimmed and put in capitals.
unfoldable pub code_problem : Text → Option Problem
code_problem code =
    if is_empty code
    then some required
    else if looks_like_url code
    then some looks_like_relay_url
    else if (parts code == 3) || ltb 32 (length code)
    then some looks_like_token
    else if not (matches (strict_group ++ is_dash ∷ strict_group) code)
    then some wrong_format
    else none

unfoldable pub name_problem : Text → Option Problem
name_problem name =
    if is_empty name then some required else if ltb 48 (length name) then some too_long else none

pub record PairingFormInput : Type 0 where
  pub relay_base_url : Text
  pub pairing_session_id : Text
  pub pairing_code : Text
  pub device_display_name : Text

pub record PairingFormErrors : Type 0 where
  pub relay_base_url : Option Problem
  pub pairing_session_id : Option Problem
  pub pairing_code : Option Problem
  pub device_display_name : Option Problem

-- A session id that is empty is left out.
pub record NormalizedPairingForm : Type 0 where
  pub relay_base_url : Text
  pub pairing_session_id : Option Text
  pub pairing_code : Text
  pub device_display_name : Text

pub data Validation : Type 0 where
  accepted : NormalizedPairingForm → Validation
  refused : PairingFormErrors → Validation

abbrev pub has_errors : PairingFormErrors → Bool
has_errors e =
    is_some e.relay_base_url
    || is_some e.pairing_session_id
    || is_some e.pairing_code
    || is_some e.device_display_name

unfoldable pub validate_pairing_form :
    (Text → Text) → (Text → Option Text) → PairingFormInput → Validation
unfolding normalize_relay_base_url trim url_problem session_problem code_problem name_problem
validate_pairing_form upper_case protocol_of input =
    let url = normalize_relay_base_url input.relay_base_url in
    let session_id = trim input.pairing_session_id in
    let code = upper_case (trim input.pairing_code) in
    let name = trim input.device_display_name in
    let errors : PairingFormErrors = record {
      relay_base_url = url_problem protocol_of url;
      pairing_session_id = session_problem session_id;
      pairing_code = code_problem code;
      device_display_name = name_problem name;
    } in
    if has_errors errors
    then refused errors
    else accepted (record {
      relay_base_url = url;
      pairing_session_id = if is_empty session_id then none else some session_id;
      pairing_code = code;
      device_display_name = name;
    })
