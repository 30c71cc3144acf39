-- ===== src/Bridge/Services/Pairing/PostgresLock.antt =====
-- services.ts: over PostgreSQL, wrong codes leave no trace.
use erg.Prelude.{◌<◌, ◌≡◌, refl, none, some, List, [], ◌∷◌, Text, All}
use erg.Bridge.State.{pending, PairingSessionRecord}
use erg.Bridge.Store.{State}
use erg.Bridge.Services.{ok, postgres, Env}
use erg.Bridge.Services.Pairing.{
  RedeemPairingResponse, redeem_pairing_code, validate_pairing_code_input,
}
use erg.Bridge.Services.Pairing.Lockout.{
  Attempt, attempts, hash_of, IsWrong, Names, wrong_postgres, right_grants,
}

module _ (env : Env) (given : Text) where
  attempts-postgres :
      (rest : List Attempt) (s : State) (session : PairingSessionRecord)
      → env.config.bridge_store_driver ≡ postgres
      → Names s given session
      → session.status ≡ pending
      → All (IsWrong env session.code_hash session.expires_at) rest
      → attempts env given rest s ≡ s
  unfolding attempts
  attempts-postgres [] s session d n p w = refl
  attempts-postgres (a ∷ rest) s session d n p (w, ws) =
      rw (wrong_postgres env given a s session n d p w) (attempts-postgres rest s session d n p ws)

  -- With PostgreSQL, the transaction of a wrong code is rolled back: after any number of wrong codes
  -- the store is as before, and a pending session still grants its right code in time. The lock
  -- after the maximum of attempts is never set.
  pub postgres_never_locks :
      (rest : List Attempt) (s : State) (session : PairingSessionRecord) (a : Attempt)
      → env.config.bridge_store_driver ≡ postgres
      → Names s given session
      → session.status ≡ pending
      → All (IsWrong env session.code_hash session.expires_at) rest
      → validate_pairing_code_input a.code ≡ none
      → session.code_hash ≡ hash_of env a
      → a.at < session.expires_at
      → (attempts env given rest s ≡ s)
        × ((r : RedeemPairingResponse) × (s' : State) × (redeem_pairing_code env a.at a.bytes a.code
                (some given)
                (attempts env given rest s)
              ≡ ok r s'))
  postgres_never_locks rest s session a d n p w valid same time =
      let unchanged = attempts-postgres rest s session d n p w in
      let (r, s', granted, _) = right_grants env given a s session n p valid same time in
      (unchanged, (r, s', rw unchanged granted))
