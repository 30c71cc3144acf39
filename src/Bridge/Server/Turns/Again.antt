-- ===== src/Bridge/Server/Turns/Again.antt =====
-- server.ts: what has been checked when a turn is sent to OpenClaw, and that a prompt which was
-- answered is not sent again.
use erg.Prelude.{
  ℕ, ◌≡◌, ◌≢◌, ◌∙◌, refl, sym, subst, ap, List, Distinct, Distinct-set, All, get-set_self, inl, inr,
  none, some, [], ◌∷◌, Text, codes, arith, Option-cases,
}
use erg.Bridge.State.{DeviceStatus, DeviceRecord}
use erg.Bridge.Store.{
  State, get_device_by_id, get_prompt_result, prompt_result_key, upsert_prompt_result,
}
use erg.Bridge.AccessTokens.{VerifiedAccessToken, verify}
use erg.Bridge.OpenClaw.{ChatCompletionResult, replied}
use erg.Bridge.Services.{store_of}
use erg.Bridge.Services.Activity.{PromptInput, mark_prompt_result}
use erg.Bridge.Services.Activity.Prompts.{stored}
use erg.Bridge.History.{Call, run}
use erg.Bridge.History.Quiet.{touch_device-Same}
use erg.Bridge.History.Quiet.Refreshes.{Tables, tables}
use erg.Bridge.History.Replies.Kept.{IsKept, InRetention, run-IsKept}
use erg.Bridge.Services.Access.{verify_access_token}
use erg.Bridge.Services.Access.Verified.{verify_access_token-ok, verify_access_token-same}
use erg.Bridge.Server.{
  Server, Request, ok, parse_bearer_token, given, enforce_rate_limit, require_authorization_bearer,
  call, sanitize_hud_text,
}
use erg.Bridge.Server.Guards.{
  Result-cases, >>=-ok, >>-ok, call-ok, bearer-ok, enforce_rate_limit-ok,
}
use erg.Bridge.Server.Routes.{ServerConfig}
use erg.Bridge.Server.Turns.{
  Turn, Validated, valid, invalid, TurnCall, TurnStep, waiting, answer_or_wait, start_valid,
  validate_v1_turn_body, turn_handler, post_turn, turn_ended,
}

-- What stands behind a call of OpenClaw for a turn.
pub record IsAllowed (config : ServerConfig) (r : Request) (store : State) (c : TurnCall)
    : Type 0 where
  pub token : Text
  pub presented : parse_bearer_token (given r.authorization) ≡ some token
  pub verified : VerifiedAccessToken
  pub accepted : verify config.env.jwt r.now token (codes "turn:send" ∷ []) ≡ some verified
  pub owner : verified.device_id ≡ c.device_id
  pub device : DeviceRecord
  pub found : get_device_by_id store c.device_id ≡ some device
  pub active : device.status ≡ DeviceStatus.active
  pub body : validate_v1_turn_body r.body ≡ valid c.turn
  pub unanswered : get_prompt_result store c.device_id c.turn.prompt_id ≡ none

start_valid-waiting :
    (device_id request_id : Text) (v : Validated Turn) (s s' : Server) (c : TurnCall)
    → start_valid device_id request_id v s ≡ ok (waiting c) s'
    → (v ≡ valid c.turn)
      × (device_id ≡ c.device_id)
      × (get_prompt_result s.relay.store device_id c.turn.prompt_id ≡ none)
unfolding start_valid answer_or_wait
start_valid-waiting device_id request_id (invalid e) s s' c h = absurd (ground arith)
start_valid-waiting device_id request_id (valid turn) s s' c h =
    elim (Option-cases (get_prompt_result s.relay.store device_id turn.prompt_id)) [
      | inl fresh ↦ ground (arith, fresh)
      | inr (r, old) ↦ absurd (ground (arith, old))
    ]

module _ (config : ServerConfig) (request_id : Text) (r : Request) (s : Server) (c : TurnCall) where
  handler-waiting :
      (s' : Server)
      → turn_handler config request_id r s ≡ ok (waiting c) s'
      → IsAllowed config r s.relay.store c
  unfolding turn_handler
  handler-waiting s' h =
      let (u, s₁, limited, h₁) =
        >>-ok (enforce_rate_limit r (codes "turn") 30 60000) _ s s' (waiting c) h in
      let (token, s₂, presented, h₂) =
        >>=-ok (require_authorization_bearer r) _ s₁ s' (waiting c) h₁ in
      let bearer = bearer-ok r s₁ s₂ token presented in
      let scope = codes "turn:send" ∷ [] in
      let check = verify_access_token config.env r.now token scope in
      let (v, s₃, called, h₃) = >>=-ok (call check) _ s₂ s' (waiting c) h₂ in
      let (t, returned, moved) = call-ok check s₂ s₃ v called in
      let same : s₂.relay.store ≡ s.relay.store =
        cc (bearer.1, enforce_rate_limit-ok r (codes "turn") 30 60000 s s₁ u limited) in
      let kept : s₃.relay.store ≡ s₂.relay.store =
        ap (λ (x : Server). x.relay.store) moved
        ∙ sym (ap store_of returned)
        ∙ verify_access_token-same config.env r.now token scope s₂.relay.store in
      let (accepted, device, found, active) =
        verify_access_token-ok config.env r.now token scope s₂.relay.store t v returned in
      let started =
        start_valid-waiting v.device_id request_id (validate_v1_turn_body r.body) s₃ s' c h₃ in
      record {
        token = token;
        presented = bearer.0;
        verified = v;
        accepted = accepted;
        owner = started.1;
        device = device;
        found = cc (found, same, started.1);
        active = active;
        body = started.0;
        unanswered = cc (started.2, started.1, kept, same);
      }

  -- A turn goes to OpenClaw only with an access token that is accepted with the scope `turn:send`, for
  -- the device of the token, which is stored as active, with a body that passes the checks, and if no
  -- result is stored for its device and its prompt.
  pub post_turn-IsAllowed :
      (post_turn config request_id r s).1 ≡ waiting c → IsAllowed config r s.relay.store c
  unfolding post_turn
  post_turn-IsAllowed h = elim (Result-cases (turn_handler config request_id r s)) [
    | inl (step, s', e) ↦
        handler-waiting s' (e ∙ ap (λ (t : TurnStep). ok t s') (ground (arith, e)))
    | inr (x, s', e) ↦ absurd (ground (arith, e))
  ]

turn_ended-IsKept :
    (now : ℕ) (ip : Text) (c : TurnCall) (result : ChatCompletionResult) (s : Server)
    → Distinct s.relay.store.prompt_results
    → IsKept now
        (prompt_result_key c.device_id c.turn.prompt_id)
        (turn_ended now ip c (replied result) s).0.relay.store.prompt_results
unfolding turn_ended mark_prompt_result upsert_prompt_result
turn_ended-IsKept now ip c result s distinct =
    let input : PromptInput = record {
      device_id = c.device_id;
      prompt_id = c.turn.prompt_id;
      conversation_id = c.turn.conversation_id;
      request_id = c.request_id;
      text = sanitize_hud_text result.reply;
    } in
    let m = s.relay.store.prompt_results in
    let k = prompt_result_key c.device_id c.turn.prompt_id in
    let marked = mark_prompt_result now input s.relay.store in
    subst (λ (t : Tables). IsKept now k t.3)
      (sym (touch_device-Same (tables marked) c.device_id now (some ip) none marked refl))
      (record {
        distinct = Distinct-set m k (stored now input) distinct;
        result = stored now input;
        found = get-set_self m k (stored now input);
        late = ground arith;
      })

-- After a turn has been answered, and after any further calls of services.ts within the time for which
-- its result is retained, no request makes the bridge send a turn of the same device with the same
-- prompt id to OpenClaw again, if no key stood twice among the results before.
pub answered_once :
    (config : ServerConfig) (now : ℕ) (ip : Text) (c c' : TurnCall) (result : ChatCompletionResult)
    (request_id : Text) (r : Request) (s later : Server) (calls : List (ℕ × Call))
    → Distinct s.relay.store.prompt_results
    → All (InRetention config.env now) calls
    → later.relay.store
      ≡ run config.env calls (turn_ended now ip c (replied result) s).0.relay.store
    → (post_turn config request_id r later).1 ≡ waiting c'
    → c'.device_id ≡ c.device_id
    → c'.turn.prompt_id ≢ c.turn.prompt_id
unfolding get_prompt_result
answered_once config now ip c c' result request_id r s later calls distinct soon between sent owner
      same =
    let k = prompt_result_key c.device_id c.turn.prompt_id in
    let after = (turn_ended now ip c (replied result) s).0.relay.store in
    let kept =
      run-IsKept config.env now k calls after soon (turn_ended-IsKept now ip c result s distinct) in
    let fresh = (post_turn-IsAllowed config request_id r later c' sent).unanswered in
    absurd (ground (arith, kept.found, fresh, between, owner, same))
