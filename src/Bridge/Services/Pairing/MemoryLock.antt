-- ===== src/Bridge/Services/Pairing/MemoryLock.antt =====
-- services.ts: over the memory store, a session is locked by wrong codes.
use erg.Prelude.{
  ℕ, suc, ◌+◌, ◌≤◌, ◌<◌, ◌≡◌, refl, inl, inr, false, none, some, List, [], ◌∷◌, Text, arith, length,
  All, Bool-cases, leb,
}
use erg.Bridge.State.{pending, locked, PairingSessionRecord}
use erg.Bridge.Store.{State}
use erg.Bridge.Services.{pairing_code_locked, err, memory, Env}
use erg.Bridge.Services.Pairing.{redeem_pairing_code, validate_pairing_code_input}
use erg.Bridge.Services.Pairing.Lockout.{
  Names-update, Attempt, attempts, IsWrong, Names, after_failure, wrong_memory, locked_refuses,
}

abbrev WellFormed : Attempt → Type 0
WellFormed a = validate_pairing_code_input a.code ≡ none

wrong-WellFormed :
    (env : Env) (h : Text) (t : ℕ) (rest : List Attempt)
    → All (IsWrong env h t) rest
    → All WellFormed rest
wrong-WellFormed env h t [] w = tt
wrong-WellFormed env h t (a ∷ rest) (w, ws) = (w.well_formed, wrong-WellFormed env h t rest ws)

-- More attempts follow where the maximum is not reached yet.
length-pos :
    (max n : ℕ) (rest : List Attempt)
    → leb max (n + 1) ≡ false
    → max ≤ n + suc (length rest)
    → 0 < length rest
length-pos max n [] below enough = ground arith
length-pos max n (a ∷ rest) below enough = omega arith

module _ (env : Env) (given : Text) where
  attempts-locked :
      (rest : List Attempt) (s : State) (session : PairingSessionRecord)
      → Names s given session
      → session.status ≡ locked
      → All WellFormed rest
      → attempts env given rest s ≡ s
  unfolding attempts
  attempts-locked [] s session n l w = refl
  attempts-locked (a ∷ rest) s session n l (v, w) =
      rw (locked_refuses env given a s session n l v) (attempts-locked rest s session n l w)

  -- In the memory store, as many wrong codes as remain lock the session.
  attempts_lock :
      (rest : List Attempt) (s : State) (session : PairingSessionRecord)
      → env.config.bridge_store_driver ≡ memory
      → Names s given session
      → session.status ≡ pending
      → All (IsWrong env session.code_hash session.expires_at) rest
      → 0 < length rest
      → env.config.pairing_code_max_attempts ≤ session.failed_attempts + length rest
      → (r : PairingSessionRecord) × Names (attempts env given rest s) given r × (r.status ≡ locked)
  unfolding attempts
  attempts_lock [] s session d n p w pos enough = elim pos [ ]
  attempts_lock (a ∷ rest) s session d n p (w, ws) pos enough =
      let next = after_failure env session in
      let kept = Names-update s given session next refl n in
      rw (wrong_memory env given a s session n d p w)
        (elim (Bool-cases
          (leb env.config.pairing_code_max_attempts (session.failed_attempts + 1))) [
            | inl full ↦
                let shut : next.status ≡ locked = ground arith in
                let same =
                  attempts-locked rest _ next kept shut (wrong-WellFormed env _ _ rest ws) in
                (next, rw same kept, shut)
            | inr below ↦
                attempts_lock rest _ next d kept (ground arith) ws
                  (length-pos _ _ rest below enough) (ground arith)
          ])

  -- In the memory store: when calls that name a pending session by its id have tried as many wrong,
  -- well-formed codes before its expiry as its maximum allows, a further call that names it with a
  -- well-formed code, the right one too, throws `pairing_code_locked` and changes nothing.
  pub lockout :
      (rest : List Attempt) (s : State) (session : PairingSessionRecord) (a : Attempt)
      → env.config.bridge_store_driver ≡ memory
      → Names s given session
      → session.status ≡ pending
      → All (IsWrong env session.code_hash session.expires_at) rest
      → 0 < length rest
      → env.config.pairing_code_max_attempts ≤ session.failed_attempts + length rest
      → validate_pairing_code_input a.code ≡ none
      → redeem_pairing_code env a.at a.bytes a.code (some given) (attempts env given rest s)
        ≡ err pairing_code_locked (attempts env given rest s)
  lockout rest s session a d n p w pos enough valid =
      let (r, kept, l) = attempts_lock rest s session d n p w pos enough in
      locked_refuses env given a (attempts env given rest s) r kept l valid
