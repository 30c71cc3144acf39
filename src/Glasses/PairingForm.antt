-- ===== src/Glasses/PairingForm.antt =====
-- glasses/src/validation.ts: the form on the glasses, which is that of the phone without the id of a
-- pairing session. Its checks are those of mobile/src/validation.ts, written once more.
use erg.Prelude.{Option, ◌||◌, Text, trim, is_some, if◌then◌else◌}
use erg.Mobile.PairingForm.{
  Problem, normalize_relay_base_url, url_problem, code_problem, name_problem,
}

pub record PairingFormInput : Type 0 where
  pub relay_base_url : Text
  pub pairing_code : Text
  pub device_display_name : Text

pub record PairingFormErrors : Type 0 where
  pub relay_base_url : Option Problem
  pub pairing_code : Option Problem
  pub device_display_name : Option Problem

pub record NormalizedPairingForm : Type 0 where
  pub relay_base_url : Text
  pub pairing_code : Text
  pub device_display_name : Text

pub data Validation : Type 0 where
  accepted : NormalizedPairingForm → Validation
  refused : PairingFormErrors → Validation

unfoldable pub validate_pairing_form :
    (Text → Text) → (Text → Option Text) → PairingFormInput → Validation
unfolding normalize_relay_base_url trim url_problem code_problem name_problem
validate_pairing_form upper_case protocol_of input =
    let url = normalize_relay_base_url input.relay_base_url in
    let code = upper_case (trim input.pairing_code) in
    let name = trim input.device_display_name in
    let errors : PairingFormErrors = record {
      relay_base_url = url_problem protocol_of url;
      pairing_code = code_problem code;
      device_display_name = name_problem name;
    } in
    if is_some errors.relay_base_url
      || is_some errors.pairing_code
      || is_some errors.device_display_name
    then refused errors
    else accepted (record { relay_base_url = url; pairing_code = code; device_display_name = name })
