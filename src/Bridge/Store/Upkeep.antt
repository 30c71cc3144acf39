-- ===== src/Bridge/Store/Upkeep.antt =====
-- Each write of bridge/src/memory-store.ts keeps the tables coherent.
use erg.Prelude.{◌≡◌, some, get, Distinct-set}
use erg.Bridge.State.{
  PairingSessionRecord, BootstrapTokenRecord, DeviceRecord, RefreshTokenFamilyRecord,
  RefreshTokenRecord, WebSocketTicketRecord, RevocationRecord, ConnectionEventRecord,
  PromptResultRecord,
}
use erg.Bridge.Store.{
  State, update_pairing_session, update_bootstrap_token, update_device, update_refresh_family,
  update_refresh_token, update_websocket_ticket, create_revocation, create_connection_event,
  prompt_result_key, upsert_prompt_result,
}
use erg.Bridge.Store.Coherent.{Keyed-set, Indexed-set, Members-set, IsCoherent}

pub update_pairing_session-IsCoherent :
    (r : PairingSessionRecord) (s : State)
    → ((o : PairingSessionRecord)
        → get s.pairing_sessions r.pairing_session_id ≡ some o
        → o.code_hash ≡ r.code_hash)
    → IsCoherent s
    → IsCoherent (update_pairing_session r s)
unfolding update_pairing_session
update_pairing_session-IsCoherent r s same v = record {
  sessions = Keyed-set (λ r. r.pairing_session_id) s.pairing_sessions r v.sessions;
  indexed = Indexed-set s.pairing_sessions s.pairing_sessions_by_code_hash r same v.indexed;
  bootstraps = v.bootstraps;
  devices = v.devices;
  families = v.families;
  tokens = v.tokens;
  members = v.members;
  tickets = v.tickets;
  prompts = v.prompts;
  distinct_bootstraps = v.distinct_bootstraps;
  distinct_tokens = v.distinct_tokens;
  distinct_tickets = v.distinct_tickets;
  distinct_prompts = v.distinct_prompts;
}

pub update_bootstrap_token-IsCoherent :
    (r : BootstrapTokenRecord) (s : State) → IsCoherent s → IsCoherent (update_bootstrap_token r s)
unfolding update_bootstrap_token
update_bootstrap_token-IsCoherent r s v = record {
  sessions = v.sessions;
  indexed = v.indexed;
  bootstraps = Keyed-set (λ r. r.token_hash) s.bootstrap_tokens r v.bootstraps;
  devices = v.devices;
  families = v.families;
  tokens = v.tokens;
  members = v.members;
  tickets = v.tickets;
  prompts = v.prompts;
  distinct_bootstraps = Distinct-set s.bootstrap_tokens r.token_hash r v.distinct_bootstraps;
  distinct_tokens = v.distinct_tokens;
  distinct_tickets = v.distinct_tickets;
  distinct_prompts = v.distinct_prompts;
}

pub update_device-IsCoherent :
    (r : DeviceRecord) (s : State) → IsCoherent s → IsCoherent (update_device r s)
unfolding update_device
update_device-IsCoherent r s v = record {
  sessions = v.sessions;
  indexed = v.indexed;
  bootstraps = v.bootstraps;
  devices = Keyed-set (λ r. r.device_id) s.devices r v.devices;
  families = v.families;
  tokens = v.tokens;
  members = v.members;
  tickets = v.tickets;
  prompts = v.prompts;
  distinct_bootstraps = v.distinct_bootstraps;
  distinct_tokens = v.distinct_tokens;
  distinct_tickets = v.distinct_tickets;
  distinct_prompts = v.distinct_prompts;
}

pub update_refresh_family-IsCoherent :
    (r : RefreshTokenFamilyRecord) (s : State)
    → IsCoherent s
    → IsCoherent (update_refresh_family r s)
unfolding update_refresh_family
update_refresh_family-IsCoherent r s v = record {
  sessions = v.sessions;
  indexed = v.indexed;
  bootstraps = v.bootstraps;
  devices = v.devices;
  families = Keyed-set (λ r. r.refresh_family_id) s.refresh_families r v.families;
  tokens = v.tokens;
  members = v.members;
  tickets = v.tickets;
  prompts = v.prompts;
  distinct_bootstraps = v.distinct_bootstraps;
  distinct_tokens = v.distinct_tokens;
  distinct_tickets = v.distinct_tickets;
  distinct_prompts = v.distinct_prompts;
}

pub update_refresh_token-IsCoherent :
    (r : RefreshTokenRecord) (s : State) → IsCoherent s → IsCoherent (update_refresh_token r s)
unfolding update_refresh_token
update_refresh_token-IsCoherent r s v = record {
  sessions = v.sessions;
  indexed = v.indexed;
  bootstraps = v.bootstraps;
  devices = v.devices;
  families = v.families;
  tokens = Keyed-set (λ r. r.token_hash) s.refresh_tokens r v.tokens;
  members = Members-set s.refresh_tokens s.refresh_tokens_by_family_id r v.members;
  tickets = v.tickets;
  prompts = v.prompts;
  distinct_bootstraps = v.distinct_bootstraps;
  distinct_tokens = Distinct-set s.refresh_tokens r.token_hash r v.distinct_tokens;
  distinct_tickets = v.distinct_tickets;
  distinct_prompts = v.distinct_prompts;
}

pub update_websocket_ticket-IsCoherent :
    (r : WebSocketTicketRecord) (s : State)
    → IsCoherent s
    → IsCoherent (update_websocket_ticket r s)
unfolding update_websocket_ticket
update_websocket_ticket-IsCoherent r s v = record {
  sessions = v.sessions;
  indexed = v.indexed;
  bootstraps = v.bootstraps;
  devices = v.devices;
  families = v.families;
  tokens = v.tokens;
  members = v.members;
  tickets = Keyed-set (λ r. r.ticket_hash) s.websocket_tickets r v.tickets;
  prompts = v.prompts;
  distinct_bootstraps = v.distinct_bootstraps;
  distinct_tokens = v.distinct_tokens;
  distinct_tickets = Distinct-set s.websocket_tickets r.ticket_hash r v.distinct_tickets;
  distinct_prompts = v.distinct_prompts;
}

pub create_revocation-IsCoherent :
    (r : RevocationRecord) (s : State) → IsCoherent s → IsCoherent (create_revocation r s)
unfolding create_revocation
create_revocation-IsCoherent r s v = record {
  sessions = v.sessions;
  indexed = v.indexed;
  bootstraps = v.bootstraps;
  devices = v.devices;
  families = v.families;
  tokens = v.tokens;
  members = v.members;
  tickets = v.tickets;
  prompts = v.prompts;
  distinct_bootstraps = v.distinct_bootstraps;
  distinct_tokens = v.distinct_tokens;
  distinct_tickets = v.distinct_tickets;
  distinct_prompts = v.distinct_prompts;
}

pub create_connection_event-IsCoherent :
    (r : ConnectionEventRecord) (s : State)
    → IsCoherent s
    → IsCoherent (create_connection_event r s)
unfolding create_connection_event
create_connection_event-IsCoherent r s v = record {
  sessions = v.sessions;
  indexed = v.indexed;
  bootstraps = v.bootstraps;
  devices = v.devices;
  families = v.families;
  tokens = v.tokens;
  members = v.members;
  tickets = v.tickets;
  prompts = v.prompts;
  distinct_bootstraps = v.distinct_bootstraps;
  distinct_tokens = v.distinct_tokens;
  distinct_tickets = v.distinct_tickets;
  distinct_prompts = v.distinct_prompts;
}

pub upsert_prompt_result-IsCoherent :
    (r : PromptResultRecord) (s : State) → IsCoherent s → IsCoherent (upsert_prompt_result r s)
unfolding upsert_prompt_result
upsert_prompt_result-IsCoherent r s v = record {
  sessions = v.sessions;
  indexed = v.indexed;
  bootstraps = v.bootstraps;
  devices = v.devices;
  families = v.families;
  tokens = v.tokens;
  members = v.members;
  tickets = v.tickets;
  prompts = Keyed-set (λ r. prompt_result_key r.device_id r.prompt_id) s.prompt_results r v.prompts;
  distinct_bootstraps = v.distinct_bootstraps;
  distinct_tokens = v.distinct_tokens;
  distinct_tickets = v.distinct_tickets;
  distinct_prompts =
      Distinct-set s.prompt_results (prompt_result_key r.device_id r.prompt_id) r
        v.distinct_prompts;
}

pub ruleset upkeep = (
  update_bootstrap_token-IsCoherent, update_device-IsCoherent, update_refresh_family-IsCoherent,
  update_refresh_token-IsCoherent, update_websocket_ticket-IsCoherent, create_revocation-IsCoherent,
  create_connection_event-IsCoherent, upsert_prompt_result-IsCoherent,
)
