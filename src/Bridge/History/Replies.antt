-- ===== src/Bridge/History/Replies.antt =====
-- The stored results of prompts through a history of calls.
pub mod Kept
use erg.Prelude.{
  ℕ, ◌≡◌, refl, ap, ◌∙◌, Option, [], ◌∷◌, Text, codes, Map, arith, Option-cases, inl, inr,
}
use erg.Bridge.State.{PromptResultRecord, BootstrapTokenRecord}
use erg.Bridge.Store.{
  State, create_pairing_session as store_pairing_session, update_refresh_token,
  update_bootstrap_token, update_device, update_pairing_session, create_device,
  create_refresh_family, create_refresh_token, create_websocket_ticket, update_websocket_ticket,
  create_connection_event, update_refresh_family, create_bootstrap_token,
}
use erg.Bridge.Services.Access.Verified.{verify_access_token-same}
use erg.Bridge.Ids.{Bytes, create_opaque_token}
use erg.Bridge.AccessTokens.{VerifiedAccessToken}
use erg.Bridge.Services.{Env, hash, with_transaction}
use erg.Bridge.Services.Keeps.{Keeps, Run-cases, with_transaction-Keeps}
use erg.Bridge.Services.Pairing.Keeps.{redeem_pairing_code-Keeps}
use erg.Bridge.Services.Register.Keeps.{Untouched, untouched, register_device-Same}
use erg.Bridge.Services.Register.{
  register, register_for, consume_bootstrap_token, register_device, RegisterDraws, RegisterInput,
}
use erg.Bridge.Services.Access.{
  verify_access_token, consume, consume_websocket_ticket, issue_ticket_for, store_ticket,
  issue_websocket_ticket,
}
use erg.Bridge.Services.Activity.{touch_device, record_connection_event}
use erg.Bridge.Services.Pairing.{
  redeem, redeem_session, redeem_open, count_failure, grant, redeem_pairing_code,
  create_pairing_session, CreateInput, validate_pairing_code_input, normalize_pairing_code, trimmed,
}
use erg.Bridge.History.{
  Call, create_pairing, redeem as redeem_call, register as register_call, refresh as refresh_call,
  issue_ticket, consume_ticket, revoke as revoke_call, mark_prompt, record_event, touch, cleanup,
  step,
}
use erg.Bridge.History.Quiet.{IsQuiet, step-tables}
use erg.Bridge.History.Quiet.Refreshes.{Tables}

-- The calls that neither store a result nor clean up.
abbrev pub SparesReplies : Call → Type 0
SparesReplies (mark_prompt input) = ⊥
SparesReplies cleanup = ⊥
SparesReplies c = Unit

module _ (p : Map PromptResultRecord) where
  abbrev Same : State → Type 0
  Same s = s.prompt_results ≡ p

  redeem-Same :
      (env : Env) (now : ℕ) (b : Bytes) (g : Option Text) (x : Text)
      → Keeps Same (redeem env now b g x)
  unfolding redeem redeem_session redeem_open count_failure grant update_pairing_session
      create_bootstrap_token
  redeem-Same env now b g x s h = ground arith

  create_pairing_session-Same :
      (env : Env) (now : ℕ) (a b : Bytes) (i : CreateInput)
      → Keeps Same (create_pairing_session env now a b i)
  unfolding create_pairing_session store_pairing_session update_pairing_session
  create_pairing_session-Same env now a b i s h = ground arith

  quiet-Same :
      (env : Env) (now : ℕ) (c : Call) (s : State) → IsQuiet c → Same s → Same (step env now c s)
  quiet-Same env now c s q h = ap (λ (t : Tables). t.3) (step-tables env now c s q) ∙ h

  -- Every call but those on prompts and the cleanup leaves the results as they are.
  pub step-Same :
      (env : Env) (now : ℕ) (c : Call) (s : State)
      → SparesReplies c
      → Same s
      → Same (step env now c s)
  unfolding step
  step-Same env now (create_pairing a b input) s q h =
      create_pairing_session-Same env now a b input s h
  step-Same env now (redeem_call bytes code given) s q h =
      redeem_pairing_code-Keeps Same env now bytes code given
        (redeem-Same env now bytes (trimmed given) (hash env (normalize_pairing_code code))) s h
  step-Same env now (register_call draws input) s q h =
      ap (λ (t : Untouched). t.2) (register_device-Same (untouched s) env now draws input s refl)
      ∙ h
  step-Same env now (refresh_call draws input) s q h =
      quiet-Same env now (refresh_call draws input) s tt h
  step-Same env now (issue_ticket a b token conversation) s q h =
      quiet-Same env now (issue_ticket a b token conversation) s tt h
  step-Same env now (consume_ticket ticket) s q h =
      quiet-Same env now (consume_ticket ticket) s tt h
  step-Same env now (revoke_call bytes input) s q h =
      quiet-Same env now (revoke_call bytes input) s tt h
  step-Same env now (mark_prompt input) s q h = absurd q
  step-Same env now (record_event bytes input) s q h =
      quiet-Same env now (record_event bytes input) s tt h
  step-Same env now (touch k ip version) s q h = quiet-Same env now (touch k ip version) s tt h
  step-Same env now cleanup s q h = absurd q
