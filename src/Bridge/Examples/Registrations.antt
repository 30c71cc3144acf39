-- ===== src/Bridge/Examples/Registrations.antt =====
-- services.ts: the theorem on bootstrap tokens, on the stores of the parent.
use erg.Prelude.{ℕ, ◌≡◌, ◌≢◌, ◌⊎◌, refl, none, List, [], ◌∷◌, codes}
use erg.Bridge.State.{ClientType}
use erg.Bridge.Store.{State, empty, get_bootstrap_token_by_hash}
use erg.Bridge.Services.{err, bootstrap_used, bootstrap_invalid, hash, memory}
use erg.Bridge.Services.Register.{RegisterDeviceResponse, register_device}
use erg.Bridge.Services.Register.Bootstrap.{register_twice}
use erg.Bridge.History.{Call, run}
use erg.Bridge.History.Coherent.{empty-IsCoherent, run-IsCoherent}
use erg.Bridge.Examples.{
  running, env, code_bytes, code, admin, registered, registration, registration_draws,
}

abbrev device_answer : RegisterDeviceResponse
device_answer = record {
  device_id = codes "dev_01";
  access_token = codes "dev_01";
  access_expires_at = 902;
  refresh_token = codes "rt_03";
  refresh_expires_at = 1002;
  refresh_family_id = codes "rtf_02";
  default_conversation_id = codes "default";
  client_type = ClientType.mobile;
}

abbrev paired_calls : List (ℕ × Call)
paired_calls =
    (0, Call.create_pairing (1 ∷ []) code_bytes admin) ∷ (1, Call.redeem (2 ∷ []) code none) ∷ []

abbrev paired : State
paired = run (env memory) paired_calls empty

-- A cleanup before the token has run out.
abbrev cleaned : List (ℕ × Call)
cleaned = (3, Call.cleanup) ∷ []

register_twice_example :
    let t = run (env memory) cleaned (registered memory) in
    ((get_bootstrap_token_by_hash t (hash (env memory) registration.bootstrap_token) ≡ none)
      × (register_device (env memory) 4 registration_draws registration t
          ≡ err bootstrap_invalid t))
    ⊎ ((get_bootstrap_token_by_hash t (hash (env memory) registration.bootstrap_token) ≢ none)
        × (register_device (env memory) 4 registration_draws registration t ≡ err bootstrap_used t))
unfolding running
register_twice_example =
    register_twice (env memory) 2 4 registration_draws registration_draws registration registration
      paired (registered memory) device_answer cleaned
      (run-IsCoherent (env memory) paired_calls empty (refl, (tt, tt)) empty-IsCoherent) refl
      (tt, tt) refl
