-- ===== src/Bridge/Services/Register/Keeps.antt =====
-- services.ts: `registerDevice` keeps what its two parts keep, and leaves three tables alone.
use erg.Prelude.{ℕ, ◌≡◌, Text, Map, arith, Option-cases, inl, inr}
use erg.Bridge.State.{PairingSessionRecord, BootstrapTokenRecord, PromptResultRecord}
use erg.Bridge.Store.{
  State, update_bootstrap_token, get_pairing_session_by_id, create_device, update_device,
  create_refresh_family, update_refresh_family, create_refresh_token, update_refresh_token,
}
use erg.Bridge.Services.{Env}
use erg.Bridge.Services.Keeps.{Keeps, Run-cases, with_transaction-Keeps}
use erg.Bridge.Services.Register.{
  RegisterDraws, RegisterInput, consume_bootstrap_token, register_for, register, register_device,
}

module _ (P : State → Type 0) (env : Env) (now : ℕ) (draws : RegisterDraws) (input : RegisterInput)
    (consumed : Keeps P (consume_bootstrap_token env now input.bootstrap_token))
    (registered : (b : BootstrapTokenRecord) → Keeps P (register_for env now draws input b)) where
  register-Keeps : Keeps P (register env now draws input)
  unfolding register
  register-Keeps s k =
      let kept = consumed s k in
      elim (Run-cases (consume_bootstrap_token env now input.bootstrap_token s)) [
        | inr (e, t, threw) ↦ ground (arith, threw, kept)
        | inl (bootstrap, t, returned) ↦
            let at : P t = ground (arith, returned, kept) in
            ground (arith, returned, registered bootstrap t at)
      ]

  pub register_device-Keeps : Keeps P (register_device env now draws input)
  unfolding register_device
  register_device-Keeps = with_transaction-Keeps P env.config.bridge_store_driver _ register-Keeps

-- The tables that a registration leaves alone.
abbrev pub Untouched : Type 0
Untouched = Map PairingSessionRecord × Map Text × Map PromptResultRecord

abbrev pub untouched : State → Untouched
untouched s = (s.pairing_sessions, s.pairing_sessions_by_code_hash, s.prompt_results)

module _ (p : Untouched) where
  abbrev pub Same : State → Type 0
  Same s = untouched s ≡ p

  consume_bootstrap_token-Same :
      (env : Env) (now : ℕ) (raw : Text) → Keeps Same (consume_bootstrap_token env now raw)
  unfolding consume_bootstrap_token update_bootstrap_token
  consume_bootstrap_token-Same env now raw s k = ground arith

  register_for-Same :
      (env : Env) (now : ℕ) (draws : RegisterDraws) (input : RegisterInput)
      (b : BootstrapTokenRecord)
      → Keeps Same (register_for env now draws input b)
  unfolding register_for create_device update_device create_refresh_family update_refresh_family
      create_refresh_token update_refresh_token
  register_for-Same env now draws input b s k =
      elim (Option-cases (get_pairing_session_by_id s b.pairing_session_id)) [
        | inl missing ↦ rw missing k
        | inr (session, found) ↦ rw found k
      ]

  pub register_device-Same :
      (env : Env) (now : ℕ) (draws : RegisterDraws) (input : RegisterInput)
      → Keeps Same (register_device env now draws input)
  register_device-Same env now draws input =
      register_device-Keeps Same env now draws input
        (consume_bootstrap_token-Same env now input.bootstrap_token)
        (register_for-Same env now draws input)
