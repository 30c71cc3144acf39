-- ===== src/Bridge/Examples/Pairings.antt =====
-- services.ts: the theorems on pairing, on the stores of the parent.
use erg.Prelude.{
  ◌≡◌, ◌≢◌, refl, inl, inr, ℕ, List, false, none, some, [], ◌∷◌, Text, codes, arith, text_eq,
  text_eq_iff,
}
use erg.Bridge.State.{pending, PairingSessionRecord}
use erg.Bridge.Store.{State, empty}
use erg.Bridge.Ids.{create_pairing_code}
use erg.Bridge.Services.{
  ok, err, pairing_code_used, pairing_code_locked, store_of, hash, StoreDriver, memory, postgres,
}
use erg.Bridge.Services.Pairing.{
  new_session, PairingSessionResponse, RedeemPairingResponse, redeem_pairing_code,
  validate_pairing_code_input, normalize_pairing_code,
}
use erg.Bridge.History.{Call, run}
use erg.Bridge.History.Closed.{IsSole, set-IsSole}
use erg.Bridge.Services.Pairing.SingleUse.{redeem_twice}
use erg.Bridge.Services.Pairing.Codes.{create_pairing_code-valid}
use erg.Bridge.Services.Pairing.RoundTrip.{create-redeem}
use erg.Bridge.Services.Pairing.Lockout.{Attempt, attempts, IsWrong, Names}
use erg.Bridge.Services.Pairing.MemoryLock.{lockout}
use erg.Bridge.Services.Pairing.PostgresLock.{postgres_never_locks}
use erg.Bridge.Examples.{running, env, code_bytes, code, admin, created, created-IsCoherent}

abbrev granted : RedeemPairingResponse
granted = record {
  bootstrap_token = codes "btp_02";
  bootstrap_expires_at = 301;
  pairing_session_id = codes "ps_01";
}

abbrev redeemed_state : StoreDriver → State
redeemed_state driver =
    store_of
      (redeem_pairing_code (env driver) 1 (2 ∷ []) (codes " abcd-efgh ") none (created driver))

-- Another session is created, with the code AAAA-AAAA.
abbrev created_again : List (ℕ × Call)
created_again =
    (2, Call.create_pairing (9 ∷ []) (10 ∷ 10 ∷ 10 ∷ 10 ∷ 10 ∷ 10 ∷ 10 ∷ 10 ∷ []) admin) ∷ []

created-IsSole :
    IsSole
      (codes "ps_01")
      (hash (env postgres) (codes "ABCD-EFGH"))
      (created postgres).pairing_sessions
unfolding running
created-IsSole =
    set-IsSole (codes "ps_01") (hash (env postgres) (codes "ABCD-EFGH")) []
      (new_session (env postgres) 0 (codes "ps_01") code admin) (λ same. refl)
      (λ k r e same. absurd (cc))

other_text : (a b : Text) → text_eq a b ≡ false → a ≢ b
other_text a b other same = cc (other, (text_eq_iff a b).1 same)

redeem_twice_example :
    let t = run (env postgres) created_again (redeemed_state postgres) in
    redeem_pairing_code (env postgres) 3 (3 ∷ []) code (some (codes "ps_01")) t
    ≡ err pairing_code_used t
unfolding running
redeem_twice_example =
    redeem_twice (env postgres) 1 3 (2 ∷ []) (3 ∷ []) (codes " abcd-efgh ") code none
      (some (codes "ps_01")) (created postgres) (redeemed_state postgres) granted created_again
      (created-IsCoherent postgres) created-IsSole refl
      ((other_text _ _ refl, other_text _ _ refl), tt) refl (inl refl)

create_pairing_code-valid_example :
    (validate_pairing_code_input (create_pairing_code code_bytes) ≡ none)
    × (normalize_pairing_code (create_pairing_code code_bytes) ≡ create_pairing_code code_bytes)
create_pairing_code-valid_example = create_pairing_code-valid 0 1 2 3 4 5 6 7

abbrev shown : PairingSessionResponse
shown = record {
  pairing_session_id = codes "ps_01";
  pairing_code = code;
  relay_base_url = codes "wss://relay";
  expires_at = 600;
}

create-redeem_example :
    (r : RedeemPairingResponse) × (s : State) × (redeem_pairing_code
        (env memory)
        5
        (2 ∷ [])
        code
        (some (codes "ps_01"))
        (created memory)
      ≡ ok r s)
    × (r.pairing_session_id ≡ codes "ps_01")
unfolding running
create-redeem_example =
    create-redeem 0 1 2 3 4 5 6 7 (env memory) 0 5 (1 ∷ []) (2 ∷ []) admin empty (created memory)
      shown (some (codes "ps_01")) refl (inr refl) (omega arith)

abbrev session : StoreDriver → PairingSessionRecord
session driver = record {
  pairing_session_id = codes "ps_01";
  code_hash = codes "kABCD-EFGH";
  code_last4 = codes "EFGH";
  status = pending;
  created_at = 0;
  expires_at = 600;
  redeemed_at = none;
  failed_attempts = 0;
  created_by = codes "cli";
  platform = codes "unknown";
  device_display_name_hint = none;
}

abbrev try : Text → Attempt
try c = record { at = 7; bytes = 4 ∷ []; code = c }

names : (driver : StoreDriver) → Names (created driver) (codes "ps_01") (session driver)
unfolding running
names driver = record { named = refl; stored = refl }

differ : (t u : Text) → text_eq t u ≡ false → t ≢ u
differ t u h e = absurd (ground (arith, text_eq_iff t u))

code-IsWrong :
    (driver : StoreDriver)
    → IsWrong (env driver) (session driver).code_hash 600 (try (codes "ZZZZ-2222"))
unfolding running
code-IsWrong driver = record {
  well_formed = refl;
  other = differ (session driver).code_hash _ refl;
  in_time = omega arith;
}

lockout_example :
    let s =
      attempts
        (env memory)
        (codes "ps_01")
        (try (codes "ZZZZ-2222") ∷ try (codes "ZZZZ-2222") ∷ [])
        (created memory) in
    redeem_pairing_code (env memory) 7 (4 ∷ []) code (some (codes "ps_01")) s
    ≡ err pairing_code_locked s
unfolding running
lockout_example =
    lockout (env memory) (codes "ps_01") (try (codes "ZZZZ-2222") ∷ try (codes "ZZZZ-2222") ∷ [])
      (created memory) (session memory) (try code) refl (names memory) refl
      (code-IsWrong memory, (code-IsWrong memory, tt)) (omega arith) (omega arith) refl

postgres_never_locks_example :
    let s =
      attempts
        (env postgres)
        (codes "ps_01")
        (try (codes "ZZZZ-2222") ∷ try (codes "ZZZZ-2222") ∷ [])
        (created postgres) in
    (s ≡ created postgres)
    × ((r : RedeemPairingResponse) × (s' : State) × (redeem_pairing_code
            (env postgres)
            7
            (4 ∷ [])
            code
            (some (codes "ps_01"))
            s
          ≡ ok r s'))
unfolding running
postgres_never_locks_example =
    postgres_never_locks (env postgres) (codes "ps_01")
      (try (codes "ZZZZ-2222") ∷ try (codes "ZZZZ-2222") ∷ []) (created postgres) (session postgres)
      (try code) refl (names postgres) refl (code-IsWrong postgres, (code-IsWrong postgres, tt))
      refl refl (omega arith)
