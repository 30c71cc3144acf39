-- ===== src/Bridge/Store/Cleanup/Sweeps.antt =====
-- memory-store.ts: what `cleanupExpired` keeps and what it deletes.
use erg.Prelude.{
  ℕ, ◌<◌, ◌↔◌, ltb, ◌+◌, ◌≡◌, ◌≢◌, refl, ap, ◌∙◌, subst, inl, inr, Bool, true, false, Option, none,
  some, List, [], ◌∷◌, Text, Map, arith, text_eq, text_eq_iff, if◌then◌else◌, get, get-set,
  Distinct, length, Option-cases, Bool-cases, All,
}
use erg.Bridge.State.{
  BootstrapTokenRecord, RefreshTokenRecord, WebSocketTicketRecord, PromptResultRecord,
}
use erg.Bridge.Store.{State, discard, contains}
use erg.Bridge.Store.Coherent.{Keyed, Members, IsCoherent}
use erg.Bridge.Store.Cleanup.Unlisted.{listed, unlist_dead-removes}
use erg.Bridge.Store.Cleanup.{
  sweep, refresh_dead, bootstrap_dead, ticket_dead, prompt_dead, unlist_token, unlist_dead,
  cleanup_expired,
}

-- What a lookup gives once the dead entries are gone.
abbrev pub alive {ℓ} : {V : Type ℓ} → (V → Bool) → Option V → Option V
alive dead none = none
alive dead (some v) = if dead v then none else some v

module _ {V : Type 0} (dead : V → Bool) where
  pub get-sweep :
      (m : Map V) (k : Text) → Distinct m → get (sweep dead m).0 k ≡ alive dead (get m k)
  unfolding get sweep
  get-sweep [] k d = refl
  get-sweep ((j, v) ∷ m) k (fresh, d) = ground (arith, fresh, get-sweep m k d, text_eq_iff j k)

  pub Distinct-sweep : (m : Map V) → Distinct m → Distinct (sweep dead m).0
  unfolding sweep
  Distinct-sweep [] d = tt
  Distinct-sweep ((j, v) ∷ m) (fresh, d) =
      ground (arith, fresh, Distinct-sweep m d, get-sweep m j d)

  Keyed-sweep : (key : V → Text) (m : Map V) → Distinct m → Keyed key m → Keyed key (sweep dead m).0
  Keyed-sweep key m d h k v e = ground (arith, get-sweep m k d, h k v)

  -- As many entries are deleted as the table is shorter.
  sweep-count : (m : Map V) → length (sweep dead m).0 + (sweep dead m).1 ≡ length m
  unfolding sweep
  sweep-count [] = refl
  sweep-count ((j, v) ∷ m) = ground (arith, sweep-count m)

-- A record that a sweep kept, by what it means not to be dead.
kept_iff :
    {V : Type 0} {P : Type 0} (dead : V → Bool) (before after : Option V) (r : V)
    → after ≡ alive dead before
    → (dead r ≡ false) ↔ P
    → (after ≡ some r) ↔ ((before ≡ some r) × P)
kept_iff dead none after r e p = (λ h. absurd (ground arith), λ h. absurd (ground arith))
kept_iff dead (some v) after r e p = (
  (λ h.
      let same : v ≡ r = ground arith in
      let live : dead r ≡ false = rw (← same) (ground arith) in (ap some same, p.0 live)),
  (λ h.
      let same : v ≡ r = ground (arith, h.0) in
      let live : dead v ≡ false = rw same (p.1 h.1) in e ∙ rw live h.0),
)

ticket_live :
    (now : ℕ) (r : WebSocketTicketRecord)
    → (ticket_dead now r ≡ false) ↔ ((now < r.expires_at) × (r.used_at ≡ none))
ticket_live now r = elim (Option-cases r.used_at) [
  | inl unused ↦ ground (arith, unused)
  | inr (t, used) ↦ ground (arith, used)
]

-- Deleting one hash from a set leaves the others.
contains-discard : (js : List Text) (k h : Text) → k ≢ h → contains (discard js k) h ≡ contains js h
unfolding contains discard
contains-discard [] k h n = refl
contains-discard (j ∷ js) k h n =
    ground (arith, text_eq_iff j k, text_eq_iff j h, contains-discard js k h n)

-- The hash is not that of a dead token.
abbrev Spared : ℕ → Text → Text × RefreshTokenRecord → Type 0
Spared now h e = refresh_dead now e.1 ≡ true → e.0 ≢ h

absent-Spared :
    (now : ℕ) (m : Map RefreshTokenRecord) (h : Text) → get m h ≡ none → All (Spared now h) m
unfolding get
absent-Spared now [] h e = tt
absent-Spared now ((j, v) ∷ m) h e = elim (Bool-cases (text_eq j h)) [
  | inl here ↦ absurd (ground arith)
  | inr there ↦
      ((λ _ same. cc (there, (text_eq_iff j h).1 same)), absent-Spared now m h (rw there at e))
]

live-Spared :
    (now : ℕ) (m : Map RefreshTokenRecord) (h : Text) (r : RefreshTokenRecord)
    → Distinct m
    → get m h ≡ some r
    → refresh_dead now r ≡ false
    → All (Spared now h) m
unfolding get
live-Spared now [] h r d e live = tt
live-Spared now ((j, v) ∷ m) h r (fresh, d) e live = elim (Bool-cases (text_eq j h)) [
  | inl here ↦
      let same : v ≡ r = ground arith in
      let at : j ≡ h = (text_eq_iff j h).0 here in
      (
        (λ dead _. ground (arith, same, live, dead)),
        absent-Spared now m h (subst (λ k. get m k ≡ none) at fresh),
      )
  | inr there ↦ (
    (λ _ same. cc (there, (text_eq_iff j h).1 same)),
    live-Spared now m h r d (rw there at e) live,
  )
]

unlist_token-keeps :
    (now : ℕ) (k : Text) (r : RefreshTokenRecord) (families : Map (List Text)) (f h : Text)
    → Spared now h (k, r)
    → listed (unlist_token now k r families) f h ≡ listed families f h
unfolding unlist_token
unlist_token-keeps now k r families f h spared = elim (Bool-cases (refresh_dead now r)) [
  | inr live ↦ rw live refl
  | inl dead ↦ elim (Option-cases (get families r.refresh_family_id)) [
    | inl missing ↦ rw (dead, missing) refl
    | inr (js, found) ↦ rw dead (
        ground (
          arith,
          found,
          get-set families r.refresh_family_id (discard js k) f,
          text_eq_iff r.refresh_family_id f,
          contains-discard js k h (spared dead),
        ))
  ]
]

unlist_dead-keeps :
    (now : ℕ) (m : Map RefreshTokenRecord) (families : Map (List Text)) (f h : Text)
    → All (Spared now h) m
    → listed (unlist_dead now m families) f h ≡ listed families f h
unfolding unlist_dead
unlist_dead-keeps now [] families f h a = refl
unlist_dead-keeps now ((k, r) ∷ m) families f h (spared, a) =
    unlist_dead-keeps now m (unlist_token now k r families) f h a
    ∙ unlist_token-keeps now k r families f h spared

Members-sweep :
    (now : ℕ) (m : Map RefreshTokenRecord) (families : Map (List Text))
    → Distinct m
    → Members m families
    → Members (sweep (refresh_dead now) m).0 (unlist_dead now m families)
Members-sweep now m families d mem h r e = elim (Option-cases (get m h)) [
  | inl missing ↦ absurd (ground (arith, missing, get-sweep (refresh_dead now) m h d))
  | inr (o, found) ↦
      let same : o ≡ r = ground (arith, found, get-sweep (refresh_dead now) m h d) in
      let live : refresh_dead now r ≡ false =
        ground (arith, found, get-sweep (refresh_dead now) m h d) in
      let there : get m h ≡ some r = rw found (ap some same) in
      unlist_dead-keeps now m families r.refresh_family_id h (live-Spared now m h r d there live)
      ∙ mem h r there
]

-- Cleanup keeps the tables coherent.
pub cleanup_expired-IsCoherent :
    (now retention : ℕ) (s : State) → IsCoherent s → IsCoherent (cleanup_expired now retention s).0
unfolding cleanup_expired
cleanup_expired-IsCoherent now retention s v = record {
  sessions = v.sessions;
  indexed = v.indexed;
  bootstraps =
      Keyed-sweep (bootstrap_dead now) _ s.bootstrap_tokens v.distinct_bootstraps v.bootstraps;
  devices = v.devices;
  families = v.families;
  tokens = Keyed-sweep (refresh_dead now) _ s.refresh_tokens v.distinct_tokens v.tokens;
  members =
      Members-sweep now s.refresh_tokens s.refresh_tokens_by_family_id v.distinct_tokens v.members;
  tickets = Keyed-sweep (ticket_dead now) _ s.websocket_tickets v.distinct_tickets v.tickets;
  prompts = Keyed-sweep (prompt_dead now retention) _ s.prompt_results v.distinct_prompts v.prompts;
  distinct_bootstraps =
      Distinct-sweep (bootstrap_dead now) s.bootstrap_tokens v.distinct_bootstraps;
  distinct_tokens = Distinct-sweep (refresh_dead now) s.refresh_tokens v.distinct_tokens;
  distinct_tickets = Distinct-sweep (ticket_dead now) s.websocket_tickets v.distinct_tickets;
  distinct_prompts = Distinct-sweep (prompt_dead now retention) s.prompt_results v.distinct_prompts;
}

-- The sets of the families have the hash of a token exactly until the token runs out.
listed-lem :
    (now retention : ℕ) (s : State) (h : Text) (r : RefreshTokenRecord)
    → IsCoherent s
    → get s.refresh_tokens h ≡ some r
    → listed (cleanup_expired now retention s).0.refresh_tokens_by_family_id r.refresh_family_id h
      ≡ ltb now r.expires_at
unfolding cleanup_expired
listed-lem now retention s h r v e = elim (Bool-cases (refresh_dead now r)) [
  | inl dead ↦
      let gone =
        unlist_dead-removes now s.refresh_tokens s.refresh_tokens_by_family_id h r e dead in
      ground (arith, gone, dead)
  | inr live ↦
      let found = get-sweep (refresh_dead now) s.refresh_tokens h v.distinct_tokens in
      let there =
        (cleanup_expired-IsCoherent now retention s v).members h r
          (ground (arith, found, e, live)) in
      ground (arith, there, live)
]

-- After a cleanup of coherent tables, a record of a swept table is found exactly if it was stored and
-- the time is before its expiry, or for the result of a prompt before the end of its retention, and a
-- ticket was not used. A refresh token that was stored is on the set of its family exactly if the time
-- is before its expiry. The other three tables named here are unchanged, and the counts are those of
-- the entries that are gone.
pub cleanup_expired_lem :
    (now retention : ℕ) (s : State)
    → IsCoherent s
    → let (t, deleted) = cleanup_expired now retention s in
      ((k : Text) (r : BootstrapTokenRecord)
        → (get t.bootstrap_tokens k ≡ some r)
          ↔ ((get s.bootstrap_tokens k ≡ some r) × (now < r.expires_at)))
      × ((k : Text) (r : RefreshTokenRecord)
          → (get t.refresh_tokens k ≡ some r)
            ↔ ((get s.refresh_tokens k ≡ some r) × (now < r.expires_at)))
      × ((k : Text) (r : WebSocketTicketRecord)
          → (get t.websocket_tickets k ≡ some r)
            ↔ ((get s.websocket_tickets k ≡ some r) × ((now < r.expires_at) × (r.used_at ≡ none))))
      × ((k : Text) (r : PromptResultRecord)
          → (get t.prompt_results k ≡ some r)
            ↔ ((get s.prompt_results k ≡ some r) × (now < r.created_at + retention)))
      × ((k : Text) (r : RefreshTokenRecord)
          → get s.refresh_tokens k ≡ some r
          → listed t.refresh_tokens_by_family_id r.refresh_family_id k ≡ ltb now r.expires_at)
      × (t.pairing_sessions ≡ s.pairing_sessions)
      × (t.devices ≡ s.devices)
      × (t.refresh_families ≡ s.refresh_families)
      × (length t.bootstrap_tokens + deleted.bootstrap_tokens_deleted ≡ length s.bootstrap_tokens)
      × (length t.refresh_tokens + deleted.refresh_tokens_deleted ≡ length s.refresh_tokens)
      × (length t.websocket_tickets + deleted.websocket_tickets_deleted
          ≡ length s.websocket_tickets)
      × (length t.prompt_results + deleted.prompt_results_deleted ≡ length s.prompt_results)
unfolding cleanup_expired
cleanup_expired_lem now retention s v = (
  (λ k r.
      let swept = get-sweep (bootstrap_dead now) s.bootstrap_tokens k v.distinct_bootstraps in
      kept_iff (bootstrap_dead now) _ _ r swept (ground arith)),
  (λ k r.
      let swept = get-sweep (refresh_dead now) s.refresh_tokens k v.distinct_tokens in
      kept_iff (refresh_dead now) _ _ r swept (ground arith)),
  (λ k r.
      let swept = get-sweep (ticket_dead now) s.websocket_tickets k v.distinct_tickets in
      kept_iff (ticket_dead now) _ _ r swept (ticket_live now r)),
  (λ k r.
      let swept = get-sweep (prompt_dead now retention) s.prompt_results k v.distinct_prompts in
      kept_iff (prompt_dead now retention) _ _ r swept (ground arith)),
  (λ k r e. listed-lem now retention s k r v e),
  refl,
  refl,
  refl,
  sweep-count (bootstrap_dead now) s.bootstrap_tokens,
  sweep-count (refresh_dead now) s.refresh_tokens,
  sweep-count (ticket_dead now) s.websocket_tickets,
  sweep-count (prompt_dead now retention) s.prompt_results,
)
