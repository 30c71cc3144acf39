-- ===== src/Bridge/History/Coherent.antt =====
-- Every call of services.ts keeps the tables coherent.
pub mod Refreshes
pub mod Others
pub mod Pairings
use erg.Prelude.{ℕ, ◌≡◌, refl, Option, none, List, [], ◌∷◌, Text, codes, get, arith}
use erg.Bridge.Store.{State, empty}
use erg.Bridge.Store.Coherent.{IsCoherent}
use erg.Bridge.Store.Upkeep.{upkeep}
use erg.Bridge.Store.Cleanup.Sweeps.{cleanup_expired-IsCoherent}
use erg.Bridge.Ids.{create_id}
use erg.Bridge.Services.{Env}
use erg.Bridge.Services.Activity.{
  mark_prompt_result, record_connection_event, cleanup_expired_state,
}
use erg.Bridge.History.{
  Call, create_pairing, redeem, register, refresh, issue_ticket, consume_ticket, revoke,
  mark_prompt, record_event, touch, cleanup, step, run,
}
use erg.Bridge.History.Coherent.Refreshes.{refresh_session-K}
use erg.Bridge.History.Coherent.Others.{
  register_device-K, issue_websocket_ticket-K, consume_websocket_ticket-K, revoke_device-K,
  touch_device-IsCoherent,
}
use erg.Bridge.History.Coherent.Pairings.{redeem_pairing_code-K, create_pairing_session-IsCoherent}

-- A new pairing session draws an id that no session has.
abbrev pub IsFreshCall : Call → State → Type 0
IsFreshCall (create_pairing id_bytes code_bytes input) s =
    get s.pairing_sessions (create_id (codes "ps") id_bytes) ≡ none
IsFreshCall _ s = Unit

abbrev pub AllFresh : Env → List (ℕ × Call) → State → Type 0
AllFresh env [] s = Unit
AllFresh env ((now, c) ∷ rest) s = IsFreshCall c s × AllFresh env rest (step env now c s)

pub empty-IsCoherent : IsCoherent empty
unfolding get
empty-IsCoherent = record {
  sessions = λ k v e. cc;
  indexed = λ h id e. cc;
  bootstraps = λ k v e. cc;
  devices = λ k v e. cc;
  families = λ k v e. cc;
  tokens = λ k v e. cc;
  members = λ k v e. cc;
  tickets = λ k v e. cc;
  prompts = λ k v e. cc;
  distinct_bootstraps = tt;
  distinct_tokens = tt;
  distinct_tickets = tt;
  distinct_prompts = tt;
}

pub step-IsCoherent :
    (env : Env) (now : ℕ) (c : Call) (s : State)
    → IsFreshCall c s
    → IsCoherent s
    → IsCoherent (step env now c s)
unfolding step mark_prompt_result record_connection_event cleanup_expired_state
step-IsCoherent env now (create_pairing id_bytes code_bytes input) s free k =
    create_pairing_session-IsCoherent env now id_bytes code_bytes input s free k
step-IsCoherent env now (redeem bytes code id) s free k =
    redeem_pairing_code-K env now bytes code id s k
step-IsCoherent env now (register draws input) s free k = register_device-K env now draws input s k
step-IsCoherent env now (refresh draws input) s free k = refresh_session-K env now draws input s k
step-IsCoherent env now (issue_ticket ticket_bytes id_bytes token conversation) s free k =
    issue_websocket_ticket-K env now ticket_bytes id_bytes token conversation s k
step-IsCoherent env now (consume_ticket ticket) s free k =
    consume_websocket_ticket-K env now ticket s k
step-IsCoherent env now (revoke bytes input) s free k = revoke_device-K env now bytes input s k
step-IsCoherent env now (mark_prompt input) s free k = search upkeep
step-IsCoherent env now (record_event bytes input) s free k = search upkeep
step-IsCoherent env now (touch device_id ip version) s free k =
    touch_device-IsCoherent device_id now ip version s k
step-IsCoherent env now cleanup s free k =
    cleanup_expired-IsCoherent now env.config.prompt_result_retention_ms s k

-- The tables stay coherent through every history of calls whose new pairing sessions draw fresh
-- ids, from coherent tables: each record stands under its own key, an entry of the index by code
-- hash names a session with this hash, and every refresh token is in the set of its family.
pub run-IsCoherent :
    (env : Env) (calls : List (ℕ × Call)) (s : State)
    → AllFresh env calls s
    → IsCoherent s
    → IsCoherent (run env calls s)
unfolding run
run-IsCoherent env [] s free k = k
run-IsCoherent env ((now, c) ∷ rest) s (free, later) k =
    run-IsCoherent env rest (step env now c s) later (step-IsCoherent env now c s free k)
