-- ===== src/Bridge/Store/Cleanup.antt =====
-- memory-store.ts: `cleanupExpired`. Deleting the entry that a `Map` iteration is at keeps the
-- others, so each loop is a recursion on the entries. `created_at ≤ now - retention` is written
-- without a negative number.
pub mod Unlisted
pub mod Sweeps
use erg.Prelude.{
  ℕ, suc, ◌+◌, Bool, ◌||◌, Option, none, some, List, [], ◌∷◌, Text, Map, leb, if◌then◌else◌,
  is_some, get, set,
}
use erg.Bridge.State.{
  BootstrapTokenRecord, RefreshTokenRecord, WebSocketTicketRecord, PromptResultRecord,
}
use erg.Bridge.Store.{State, discard}

-- One loop: the entries that stay, and how many were deleted.
unfoldable pub sweep : {V : Type 0} → (V → Bool) → Map V → Map V × ℕ
sweep dead [] = ([], 0)
sweep dead ((k, v) ∷ m) =
    let (kept, deleted) = sweep dead m in
    if dead v then (kept, suc deleted) else ((k, v) ∷ kept, deleted)

abbrev pub bootstrap_dead : ℕ → BootstrapTokenRecord → Bool
bootstrap_dead now r = leb r.expires_at now

abbrev pub refresh_dead : ℕ → RefreshTokenRecord → Bool
refresh_dead now r = leb r.expires_at now

abbrev pub ticket_dead : ℕ → WebSocketTicketRecord → Bool
ticket_dead now r = leb r.expires_at now || is_some r.used_at

abbrev pub prompt_dead : ℕ → ℕ → PromptResultRecord → Bool
prompt_dead now retention r = leb (r.created_at + retention) now

-- `refreshTokensByFamilyId.get(…)?.delete(…)`
abbrev unlist : Option (List Text) → Text → Text → Map (List Text) → Map (List Text)
unlist none family hash families = families
unlist (some js) family hash families = set families family (discard js hash)

-- One round of the loop over the refresh tokens, on the sets of the families.
unfoldable pub unlist_token : ℕ → Text → RefreshTokenRecord → Map (List Text) → Map (List Text)
unfolding discard
unlist_token now hash r families =
    if refresh_dead now r
    then unlist (get families r.refresh_family_id) r.refresh_family_id hash families
    else families

unfoldable pub unlist_dead : ℕ → Map RefreshTokenRecord → Map (List Text) → Map (List Text)
unfolding unlist_token
unlist_dead now [] families = families
unlist_dead now ((h, r) ∷ m) families = unlist_dead now m (unlist_token now h r families)

pub record Deleted : Type 0 where
  pub bootstrap_tokens_deleted : ℕ
  pub refresh_tokens_deleted : ℕ
  pub websocket_tickets_deleted : ℕ
  pub prompt_results_deleted : ℕ

unfoldable pub cleanup_expired : ℕ → ℕ → State → State × Deleted
unfolding sweep unlist_dead
cleanup_expired now retention s =
    let (bootstraps, b) = sweep (bootstrap_dead now) s.bootstrap_tokens in
    let (tokens, r) = sweep (refresh_dead now) s.refresh_tokens in
    let (tickets, w) = sweep (ticket_dead now) s.websocket_tickets in
    let (prompts, p) = sweep (prompt_dead now retention) s.prompt_results in
    (
      record s {
        bootstrap_tokens = bootstraps;
        refresh_tokens = tokens;
        refresh_tokens_by_family_id =
            unlist_dead now s.refresh_tokens s.refresh_tokens_by_family_id;
        websocket_tickets = tickets;
        prompt_results = prompts;
      },
      record {
        bootstrap_tokens_deleted = b;
        refresh_tokens_deleted = r;
        websocket_tickets_deleted = w;
        prompt_results_deleted = p;
      },
    )
