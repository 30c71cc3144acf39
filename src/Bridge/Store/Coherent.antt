-- ===== src/Bridge/Store/Coherent.antt =====
-- The invariant of the tables of bridge/src/memory-store.ts, and its upkeep by each method.
use erg.Prelude.{
  ◌≡◌, sym, ◌∙◌, true, some, List, Text, Map, text_eq, text_eq_iff, ◌⊎◌, Bool-cases, inl, inr, get,
  set, get-set, get-set_self, Distinct, arith, ◌++◌, [], ◌∷◌, ◌||◌,
}
use erg.Bridge.State.{PairingSessionRecord, RefreshTokenRecord}
use erg.Bridge.Store.{State, contains, add, family_set, prompt_result_key}

-- Every record stands under the key that its own field gives.
abbrev pub Keyed : {V : Type 0} → (V → Text) → Map V → Type 0
Keyed {V} key m = (k : Text) (v : V) → get m k ≡ some v → key v ≡ k

pub Keyed-set :
    {V : Type 0} (key : V → Text) (m : Map V) (v : V) → Keyed key m → Keyed key (set m (key v) v)
Keyed-set key m v h k w e = ground (arith, get-set m (key v) v k, text_eq_iff (key v) k, h k w)

-- An entry of the index by code hash names a session that has this hash.
abbrev pub Indexed : Map PairingSessionRecord → Map Text → Type 0
Indexed sessions index =
    (h id : Text)
    → get index h ≡ some id
    → (r : PairingSessionRecord) × (get sessions id ≡ some r) × (r.code_hash ≡ h)

set-cases :
    {V : Type 0} (m : Map V) (k j : Text) (v w : V)
    → get (set m k w) j ≡ some v
    → ((k ≡ j) × (w ≡ v)) ⊎ (get m j ≡ some v)
set-cases m k j v w e = ground (arith, get-set m k w j, text_eq_iff k j)

-- A record put back with its id and hash unchanged, and indexed.
pub Indexed-set :
    (sessions : Map PairingSessionRecord) (index : Map Text) (r : PairingSessionRecord)
    → ((o : PairingSessionRecord)
        → get sessions r.pairing_session_id ≡ some o
        → o.code_hash ≡ r.code_hash)
    → Indexed sessions index
    → Indexed (set sessions r.pairing_session_id r) (set index r.code_hash r.pairing_session_id)
Indexed-set sessions index r same h c id e = elim (set-cases index r.code_hash c id _ e) [
  | inl (here, at_r) ↦ (r, rw (← at_r) (get-set_self sessions r.pairing_session_id r), here)
  | inr old ↦ moved (h c id old)
]
  where
    moved :
        ((o : PairingSessionRecord) × (get sessions id ≡ some o) × (o.code_hash ≡ c))
        → (o : PairingSessionRecord) × (get (set sessions r.pairing_session_id r) id ≡ some o)
          × (o.code_hash ≡ c)
    moved (o, found, hashed) = elim (Bool-cases (text_eq r.pairing_session_id id)) [
      | inl here ↦
          let at : r.pairing_session_id ≡ id = (text_eq_iff _ _).0 here in
          (
            r,
            ground (arith, get-set sessions r.pairing_session_id r id),
            sym (same o (rw at found)) ∙ hashed,
          )
      | inr there ↦ (o, ground (arith, get-set sessions r.pairing_session_id r id), hashed)
    ]

contains-append :
    (js : List Text) (k j : Text) → contains (js ++ k ∷ []) j ≡ (contains js j || text_eq k j)
unfolding contains
contains-append [] k j = ground arith
contains-append (i ∷ js) k j = ground (arith, contains-append js k j)

contains-add :
    (js : List Text) (k j : Text) → contains (add js k) j ≡ (contains js j || text_eq k j)
unfolding add
contains-add js k j = ground (arith, contains-append js k j, text_eq_iff k j)

-- Every refresh token is in the set of its family.
abbrev pub Members : Map RefreshTokenRecord → Map (List Text) → Type 0
Members tokens families =
    (h : Text) (r : RefreshTokenRecord)
    → get tokens h ≡ some r
    → contains (family_set (get families r.refresh_family_id)) h ≡ true

pub Members-set :
    (tokens : Map RefreshTokenRecord) (families : Map (List Text)) (r : RefreshTokenRecord)
    → Members tokens families
    → Members (set tokens r.token_hash r) (
        set families r.refresh_family_id
          (add (family_set (get families r.refresh_family_id)) r.token_hash))
Members-set tokens families r m h o e =
    let js = family_set (get families r.refresh_family_id) in
    ground (
      arith,
      set-cases tokens r.token_hash h o r e,
      get-set families r.refresh_family_id (add js r.token_hash) o.refresh_family_id,
      contains-add js r.token_hash h,
      text_eq_iff r.token_hash h,
      text_eq_iff r.refresh_family_id o.refresh_family_id,
      m h o,
    )

pub record IsCoherent (s : State) : Type 0 where
  pub sessions : Keyed (λ r. r.pairing_session_id) s.pairing_sessions
  pub indexed : Indexed s.pairing_sessions s.pairing_sessions_by_code_hash
  pub bootstraps : Keyed (λ r. r.token_hash) s.bootstrap_tokens
  pub devices : Keyed (λ r. r.device_id) s.devices
  pub families : Keyed (λ r. r.refresh_family_id) s.refresh_families
  pub tokens : Keyed (λ r. r.token_hash) s.refresh_tokens
  pub members : Members s.refresh_tokens s.refresh_tokens_by_family_id
  pub tickets : Keyed (λ r. r.ticket_hash) s.websocket_tickets
  pub prompts : Keyed (λ r. prompt_result_key r.device_id r.prompt_id) s.prompt_results
  pub distinct_bootstraps : Distinct s.bootstrap_tokens
  pub distinct_tokens : Distinct s.refresh_tokens
  pub distinct_tickets : Distinct s.websocket_tickets
  pub distinct_prompts : Distinct s.prompt_results
