-- ===== src/Bridge/Examples/Tables.antt =====
-- memory-store.ts and the histories: the theorems on the tables, on the stores of the parent.
use erg.Prelude.{◌+◌, ◌≡◌, ◌<◌, ◌↔◌, ltb, none, some, refl, Text, get, length}
use erg.Bridge.Store.{empty}
use erg.Bridge.Store.Coherent.{IsCoherent}
use erg.Bridge.Services.{memory}
use erg.Bridge.State.{
  BootstrapTokenRecord, RefreshTokenRecord, WebSocketTicketRecord, PromptResultRecord,
}
use erg.Bridge.Store.Cleanup.{cleanup_expired}
use erg.Bridge.Store.Cleanup.Unlisted.{listed}
use erg.Bridge.Store.Cleanup.Sweeps.{cleanup_expired_lem}
use erg.Bridge.History.Coherent.{empty-IsCoherent, run-IsCoherent}
use erg.Bridge.Examples.{running, env, registration_calls, registered, registered-IsCoherent}

run-IsCoherent_example : IsCoherent (registered memory)
unfolding running
run-IsCoherent_example =
    run-IsCoherent (env memory) registration_calls empty (refl, (tt, (tt, tt))) empty-IsCoherent

-- At time 302 the bootstrap token, good until 301, is gone, and the refresh token is still there.
cleanup_expired_lem_example :
    let s = registered memory in
    let (t, deleted) = cleanup_expired 302 1000 s in
    ((k : Text) (r : BootstrapTokenRecord)
      → (get t.bootstrap_tokens k ≡ some r)
        ↔ ((get s.bootstrap_tokens k ≡ some r) × (302 < r.expires_at)))
    × ((k : Text) (r : RefreshTokenRecord)
        → (get t.refresh_tokens k ≡ some r)
          ↔ ((get s.refresh_tokens k ≡ some r) × (302 < r.expires_at)))
    × ((k : Text) (r : WebSocketTicketRecord)
        → (get t.websocket_tickets k ≡ some r)
          ↔ ((get s.websocket_tickets k ≡ some r) × ((302 < r.expires_at) × (r.used_at ≡ none))))
    × ((k : Text) (r : PromptResultRecord)
        → (get t.prompt_results k ≡ some r)
          ↔ ((get s.prompt_results k ≡ some r) × (302 < r.created_at + 1000)))
    × ((k : Text) (r : RefreshTokenRecord)
        → get s.refresh_tokens k ≡ some r
        → listed t.refresh_tokens_by_family_id r.refresh_family_id k ≡ ltb 302 r.expires_at)
    × (t.pairing_sessions ≡ s.pairing_sessions)
    × (t.devices ≡ s.devices)
    × (t.refresh_families ≡ s.refresh_families)
    × (length t.bootstrap_tokens + deleted.bootstrap_tokens_deleted ≡ 1)
    × (length t.refresh_tokens + deleted.refresh_tokens_deleted ≡ 1)
    × (length t.websocket_tickets + deleted.websocket_tickets_deleted ≡ 0)
    × (length t.prompt_results + deleted.prompt_results_deleted ≡ 0)
unfolding running
cleanup_expired_lem_example =
    cleanup_expired_lem 302 1000 (registered memory) (registered-IsCoherent memory)
