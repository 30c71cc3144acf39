-- ===== src/Bridge/Examples.antt =====
-- bridge/src/services.ts at work on small inputs: a configuration, and the stores in which a phone
-- has been paired and registered. The theorems are applied to them in the children.
mod Pairings
mod Refreshes
mod Tables
mod Activity
mod Registrations
mod Access
mod Relays
mod Servers
mod Phones
use erg.Prelude.{
  ℕ, ◌+◌, refl, none, some, List, [], ◌∷◌, ◌++◌, Text, codes, get, set, text_eq, get_or,
}
use erg.Bridge.Store.{State, empty}
use erg.Bridge.Store.Coherent.{IsCoherent}
use erg.Bridge.Ids.{Bytes, create_id, create_pairing_code}
use erg.Bridge.AccessTokens.{Jwt}
use erg.Bridge.Services.{StoreDriver, BridgeConfig, Env}
use erg.Bridge.Services.Pairing.{CreateInput, create_pairing_session, redeem_pairing_code}
use erg.Bridge.Services.Pairing.Codes.{eight}
use erg.Bridge.Services.Register.{
  RegisterDraws, RegisterInput, consume_bootstrap_token, register_for, register_device,
}
use erg.Bridge.Services.Refresh.{rotate, detect_reuse, use_token, refresh, refresh_session}
use erg.Bridge.History.{Call, step, run}
use erg.Bridge.History.Coherent.{empty-IsCoherent, run-IsCoherent}

-- The definitions that the runs below compute.
unfoldable pub running : Unit {0}
unfolding run step create_pairing_session redeem_pairing_code register_device register_for
    consume_bootstrap_token refresh_session refresh use_token detect_reuse rotate get set text_eq
    create_pairing_code create_id
running = tt

abbrev pub config : StoreDriver → BridgeConfig
config driver = record {
  relay_base_url = codes "wss://relay";
  bridge_store_driver = driver;
  token_hash_secret = codes "k";
  pairing_code_ttl_ms = 600;
  bootstrap_token_ttl_ms = 300;
  pairing_code_max_attempts = 2;
  access_token_ttl_ms = 900;
  refresh_token_sliding_ttl_ms = 1000;
  refresh_token_absolute_ttl_ms = 5000;
  even_hub_refresh_token_sliding_ttl_ms = 500;
  even_hub_refresh_token_absolute_ttl_ms = 700;
  ws_ticket_ttl_ms = 60;
  prompt_result_retention_ms = 1000;
}

-- A token that spells its device, good until second 900.
abbrev pub jwt : Jwt
jwt = record {
  sign = λ claims. get_or claims.device_id [];
  verify = λ now token. some (record {
    device_id = some token;
    scope = some (codes "device:self relay:connect");
    jti = some (codes "j");
    not_before = 0;
    exp = some 900;
  });
}

abbrev pub env : StoreDriver → Env
env driver = record { config = config driver; hmac = λ secret value. secret ++ value; jwt = jwt }

abbrev pub code_bytes : Bytes
code_bytes = eight 0 1 2 3 4 5 6 7

abbrev pub code : Text
code = codes "ABCD-EFGH"

abbrev pub admin : CreateInput
admin = record { created_by = codes "cli"; platform = none; device_display_name_hint = none }

abbrev pub creation : List (ℕ × Call)
creation = (0, Call.create_pairing (1 ∷ []) code_bytes admin) ∷ []

-- The store with one pairing session, `ps_01`.
abbrev pub created : StoreDriver → State
created driver = run (env driver) creation empty

pub created-IsCoherent : (driver : StoreDriver) → IsCoherent (created driver)
unfolding running
created-IsCoherent driver = run-IsCoherent (env driver) creation empty (refl, tt) empty-IsCoherent

abbrev pub registration : RegisterInput
registration = record {
  bootstrap_token = codes "btp_02";
  device_display_name = some (codes "Phone");
  platform = none;
  app_version = none;
  client_type = none;
  remote_ip = none;
}

abbrev pub registration_draws : RegisterDraws
registration_draws = record {
  device = 1 ∷ [];
  family = 2 ∷ [];
  token = 3 ∷ [];
  token_id = 4 ∷ [];
  access = 5 ∷ [];
}

-- A phone is paired at time 1, registered at 2, and refreshed at 4 with its first token.
abbrev pub registration_calls : List (ℕ × Call)
registration_calls =
    (0, Call.create_pairing (1 ∷ []) code_bytes admin)
    ∷ (1, Call.redeem (2 ∷ []) code none)
    ∷ (2, Call.register registration_draws registration)
    ∷ []

abbrev pub registered : StoreDriver → State
registered driver = run (env driver) registration_calls empty

pub registered-IsCoherent : (driver : StoreDriver) → IsCoherent (registered driver)
unfolding running
registered-IsCoherent driver =
    run-IsCoherent (env driver) registration_calls empty (refl, (tt, (tt, tt))) empty-IsCoherent
