-- ===== src/Bridge/Services/Pairing/Keeps.antt =====
-- services.ts: `redeemPairingCode` keeps what its callback keeps.
use erg.Prelude.{ℕ, Option, Text, Option-cases, inl, inr}
use erg.Bridge.Store.{State}
use erg.Bridge.Ids.{Bytes}
use erg.Bridge.Services.{Env, hash}
use erg.Bridge.Services.Keeps.{Keeps, with_transaction-Keeps}
use erg.Bridge.Services.Pairing.{
  redeem, redeem_pairing_code, validate_pairing_code_input, normalize_pairing_code, trimmed,
}

module _ (P : State → Type 0) where
  pub redeem_pairing_code-Keeps :
      (env : Env) (now : ℕ) (bytes : Bytes) (code : Text) (given : Option Text)
      → Keeps P (redeem env now bytes (trimmed given) (hash env (normalize_pairing_code code)))
      → Keeps P (redeem_pairing_code env now bytes code given)
  unfolding redeem_pairing_code
  redeem_pairing_code-Keeps env now bytes code given k s p =
      elim (Option-cases (validate_pairing_code_input code)) [
        | inr (e, bad) ↦ rw bad p
        | inl good ↦ rw good (with_transaction-Keeps P env.config.bridge_store_driver _ k s p)
      ]
